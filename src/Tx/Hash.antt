-- ===== src/Tx/Hash.antt =====
-- The functions of firmware/transaction.c that feed a transaction to a hash, over any hash.
use safe_t_mcu.Prelude.{
  ℕ, zero, suc, ◌+◌, ◌-◌, Bool, List, [], ◌∷◌, ltb, leb, ◌==◌, if◌then◌else◌, length, get_or, set,
  le_bytes, Hasher,
}
use safe_t_mcu.Wire.{ser_length_hash}
use safe_t_mcu.Tx.{
  TxInput, TxOutputBin, TxStruct, ◌+32◌, segwit_header, refuses_output, ends_output,
}

module _ (H : Hasher) where
  abbrev pub Tx : Type 0
  Tx = TxStruct H.State

  -- A loop that feeds `b[n - 1]`, ..., `b[0]` one by one.
  unfoldable pub feed_reversed : H.State → ℕ → List ℕ → H.State
  feed_reversed s zero bs = s
  feed_reversed s (suc n) bs = feed_reversed (H.feed s (get_or bs n 0 ∷ [])) n bs

  -- `tx_prevout_hash`
  unfoldable pub tx_prevout_hash : H.State → TxInput → H.State × ℕ
  unfolding feed_reversed
  tx_prevout_hash s input =
      (H.feed (feed_reversed s 32 input.prev_hash) (le_bytes 4 input.prev_index), 36)

  -- `tx_script_hash`
  unfoldable pub tx_script_hash : H.State → List ℕ → H.State × ℕ
  tx_script_hash s bytes =
      let (s', r) = ser_length_hash H s (length bytes) in (H.feed s' bytes, r +32 length bytes)

  -- `tx_sequence_hash`
  unfoldable pub tx_sequence_hash : H.State → TxInput → H.State × ℕ
  tx_sequence_hash s input = (H.feed s (le_bytes 4 input.sequence), 4)

  -- `tx_output_hash`
  unfoldable pub tx_output_hash : H.State → TxOutputBin → H.State × ℕ
  tx_output_hash s output =
      let (s', k) = tx_script_hash (H.feed s (le_bytes 8 output.amount)) output.script_pubkey in
      (s', 8 +32 k)

  -- `tx_serialize_header_hash`
  unfoldable pub tx_serialize_header_hash : Tx → H.State × ℕ
  unfolding feed_reversed
  tx_serialize_header_hash tx =
      let s1 = H.feed tx.hasher (le_bytes 4 tx.version) in
      let s2 = if tx.is_segwit then H.feed s1 segwit_header else s1 in
      let s3 = if tx.version == 12 then feed_reversed s2 32 tx.preblock_hash else s2 in
      let r = 4 + (if tx.is_segwit then 2 else 0) + (if tx.version == 12 then 32 else 0) in
      let (s4, k) = ser_length_hash H s3 tx.inputs_len in (s4, r + k)

  -- `tx_serialize_input_hash`
  unfoldable pub tx_serialize_input_hash : Tx → TxInput → ℕ × Tx
  tx_serialize_input_hash tx input =
      let (s0, r0) = if tx.have_inputs == 0 then tx_serialize_header_hash tx else (tx.hasher, 0) in
      let (s1, r1) = tx_prevout_hash s0 input in
      let (s2, r2) = tx_script_hash s1 input.script_sig in
      let (s3, r3) = tx_sequence_hash s2 input in
      let r = r0 +32 r1 +32 r2 +32 r3 in
      if leb tx.inputs_len tx.have_inputs
      then (0, tx)
      else (r, record tx { have_inputs = tx.have_inputs +32 1; size = tx.size +32 r; hasher = s3 })

  -- `tx_serialize_middle_hash`
  unfoldable pub tx_serialize_middle_hash : Tx → H.State × ℕ
  tx_serialize_middle_hash tx = ser_length_hash H tx.hasher tx.outputs_len

  -- `tx_serialize_footer_hash`: the lock time alone.
  unfoldable pub tx_serialize_footer_hash : H.State → Tx → H.State × ℕ
  tx_serialize_footer_hash s tx = (H.feed s (le_bytes 4 tx.lock_time), 4)

  -- `tx_serialize_output_hash`
  unfoldable pub tx_serialize_output_hash : Tx → TxOutputBin → ℕ × Tx
  tx_serialize_output_hash tx output =
      let (s0, r0) = if tx.have_outputs == 0 then tx_serialize_middle_hash tx else (tx.hasher, 0) in
      let (s1, r1) = tx_output_hash s0 output in
      let (s2, r2) = if ends_output tx then tx_serialize_footer_hash s1 tx else (s1, 0) in
      let r = r0 +32 r1 +32 r2 in
      if refuses_output tx then (0, tx) else (
        r,
        record tx { have_outputs = tx.have_outputs +32 1; size = tx.size +32 r; hasher = s2 },
      )

  -- `tx_serialize_extra_data_hash`
  unfoldable pub tx_serialize_extra_data_hash : Tx → List ℕ → ℕ × Tx
  tx_serialize_extra_data_hash tx bytes =
      let len = length bytes in
      if ltb tx.have_inputs tx.inputs_len
      then (0, tx)
      else if ltb tx.have_outputs tx.outputs_len
      then (0, tx)
      else if ltb tx.extra_data_len (tx.extra_data_received +32 len)
      then (0, tx)
      else (
        len,
        record tx {
          extra_data_received = tx.extra_data_received +32 len;
          size = tx.size +32 len;
          hasher = H.feed tx.hasher bytes;
        },
      )

  -- The loop of `tx_hash_final` from `i` on, with `n` rounds left: it swaps `hash[i]` with
  -- `hash[31 - i]`.
  pub swap_ends : ℕ → ℕ → List ℕ → List ℕ
  swap_ends zero i hash = hash
  swap_ends (suc n) i hash =
      swap_ends n (i + 1) (set (set hash (31 - i) (get_or hash i 0)) i (get_or hash (31 - i) 0))

  -- `tx_hash_final`
  unfoldable pub tx_hash_final : Tx → Bool → List ℕ
  unfolding swap_ends
  tx_hash_final tx reverse =
      if reverse then swap_ends 16 0 (H.digest tx.hasher) else H.digest tx.hasher
