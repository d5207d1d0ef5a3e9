-- ===== src/Tx.antt =====
-- The streaming serialization of transactions, firmware/transaction.c: `TxStruct`, and the
-- functions that write a transaction piece by piece. `Hash` has the variants that feed a hash.
pub mod Hash
pub mod Agree
pub mod Format
pub mod Script
pub mod Weight
pub mod Address
mod Tests
use safe_t_mcu.Prelude.{
  ℕ, zero, suc, ◌+◌, ◌-◌, ◌%◌, ◌^◌, Bool, true, false, not, ◌&&◌, ◌||◌, List, [], ◌∷◌, ◌++◌, ltb,
  leb, ◌==◌, if◌then◌else◌, length, get_or, take, le_bytes, Hasher,
}
use safe_t_mcu.Wire.{Written, ser_length}

-- `uint32_t` addition
infixl 65 ◌+32◌
abbrev pub ◌+32◌ : ℕ → ℕ → ℕ
a +32 b = (a + b) % 2 ^ 32

-- `TxInputType`, as far as it is serialized. A sized array is the list of its bytes.
pub record TxInput : Type 0 where
  pub prev_hash : List ℕ
  pub prev_index : ℕ
  pub script_sig : List ℕ
  pub sequence : ℕ

-- `TxOutputBinType`
pub record TxOutputBin : Type 0 where
  pub amount : ℕ
  pub script_pubkey : List ℕ

-- `TxStruct`; `Digest` is the type of the states of its `Hasher`.
pub record TxStruct (Digest : Type 0) : Type 0 where
  pub inputs_len : ℕ
  pub outputs_len : ℕ
  pub version : ℕ
  pub lock_time : ℕ
  pub is_segwit : Bool
  pub have_inputs : ℕ
  pub have_outputs : ℕ
  pub extra_data_len : ℕ
  pub extra_data_received : ℕ
  pub size : ℕ
  pub hasher : Digest
  pub preblock_hash : List ℕ

-- The bytes `b[n - 1]`, ..., `b[0]`: what the loops over `bytes[31 - i]` go through.
unfoldable pub reversed : ℕ → List ℕ → List ℕ
reversed zero bs = []
reversed (suc n) bs = get_or bs n 0 ∷ reversed n bs

abbrev pub segwit_header : List ℕ
segwit_header = 0 ∷ 1 ∷ []

-- The parts of a header that are not in every transaction.
abbrev pub segwit_marker : Bool → List ℕ
segwit_marker b = if b then segwit_header else []

-- `tx_serialize_script`
unfoldable pub tx_serialize_script : List ℕ → Written
tx_serialize_script bytes =
    let (r, len) = ser_length (length bytes) in (r +32 length bytes, len ++ bytes)

module _ {Digest : Type 0} where
  -- `tx_init`
  unfoldable pub tx_init :
      (ℕ → Digest) → List ℕ → ℕ → ℕ → ℕ → ℕ → ℕ → ℕ → TxStruct Digest → TxStruct Digest
  tx_init hasher_init preblock_hash inputs_len outputs_len version lock_time extra_len sign tx =
      record {
        inputs_len = inputs_len;
        outputs_len = outputs_len;
        version = version;
        lock_time = lock_time;
        is_segwit = false;
        have_inputs = 0;
        have_outputs = 0;
        extra_data_len = extra_len;
        extra_data_received = 0;
        size = 0;
        hasher = hasher_init sign;
        preblock_hash = if version == 12 then take 32 preblock_hash else tx.preblock_hash;
      }

  -- `tx_serialize_header`
  unfoldable pub tx_serialize_header : TxStruct Digest → Written
  tx_serialize_header tx =
      let r = 4 + (if tx.is_segwit then 2 else 0) + (if tx.version == 12 then 32 else 0) in
      let preblock = if tx.version == 12 then take 32 tx.preblock_hash else [] in
      let (k, len) = ser_length tx.inputs_len in
      (r + k, le_bytes 4 tx.version ++ (segwit_marker tx.is_segwit ++ (preblock ++ len)))

  -- `tx_serialize_input`: what is written, and the transaction after it.
  unfoldable pub tx_serialize_input : TxStruct Digest → TxInput → Written × TxStruct Digest
  tx_serialize_input tx input =
      let r0 = if tx.have_inputs == 0 then (tx_serialize_header tx).0 else 0 in
      let header = if tx.have_inputs == 0 then (tx_serialize_header tx).1 else [] in
      let (k, script) = tx_serialize_script input.script_sig in
      let r = r0 +32 32 +32 4 +32 k +32 4 in
      let bytes =
        header
        ++ (reversed 32 input.prev_hash
            ++ (le_bytes 4 input.prev_index ++ (script ++ le_bytes 4 input.sequence))) in
      if leb tx.inputs_len tx.have_inputs
      then ((0, []), tx)
      else ((r, bytes), record tx { have_inputs = tx.have_inputs +32 1; size = tx.size +32 r })

  -- `tx_serialize_middle`
  unfoldable pub tx_serialize_middle : TxStruct Digest → Written
  tx_serialize_middle tx = ser_length tx.outputs_len

  -- `tx_serialize_footer`: the lock time, and the hash type 1.
  unfoldable pub tx_serialize_footer : TxStruct Digest → Written
  tx_serialize_footer tx = (8, le_bytes 4 tx.lock_time ++ le_bytes 4 1)

  -- Not all inputs are there, or all outputs are: the guards of the two output functions.
  abbrev pub refuses_output : TxStruct Digest → Bool
  refuses_output tx = ltb tx.have_inputs tx.inputs_len || leb tx.outputs_len tx.have_outputs

  -- The footer follows the last output, unless witnesses do.
  abbrev pub ends_output : TxStruct Digest → Bool
  ends_output tx = tx.have_outputs +32 1 == tx.outputs_len && not tx.is_segwit

  -- `tx_serialize_output`
  unfoldable pub tx_serialize_output : TxStruct Digest → TxOutputBin → Written × TxStruct Digest
  tx_serialize_output tx output =
      let r0 = if tx.have_outputs == 0 then (tx_serialize_middle tx).0 else 0 in
      let middle = if tx.have_outputs == 0 then (tx_serialize_middle tx).1 else [] in
      let (k, script) = tx_serialize_script output.script_pubkey in
      let f = if ends_output tx then (tx_serialize_footer tx).0 else 0 in
      let footer = if ends_output tx then (tx_serialize_footer tx).1 else [] in
      let r = r0 +32 8 +32 k +32 f in
      let bytes = middle ++ (le_bytes 8 output.amount ++ (script ++ footer)) in
      if refuses_output tx
      then ((0, []), tx)
      else ((r, bytes), record tx { have_outputs = tx.have_outputs +32 1; size = tx.size +32 r })
