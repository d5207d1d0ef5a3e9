-- ===== src/Tx/Weight.antt =====
-- The weight estimates for fees, firmware/transaction.c, against the sizes of what is serialized.
use safe_t_mcu.Prelude.{
  ℕ, ◌+◌, ◌*◌, ◌%◌, ◌^◌, ◌≤◌, ◌<◌, ◌≡◌, sym, ap, ◌∙◌, arith, Bool, true, false, List, ◌∷◌, ◌++◌,
  Option, none, some, ltb, if◌then◌else◌, length, length-append, length-le_bytes, le_bytes,
}
use safe_t_mcu.Wire.{op_push, op_push_size, ser_length}
use safe_t_mcu.Wire.RoundTrip.{length-op_push}
use safe_t_mcu.Tx.{TxOutputBin}
use safe_t_mcu.Tx.Format.{output_format}

-- The macro `ser_length_size` of firmware/crypto.h
abbrev pub ser_length_size : ℕ → ℕ
ser_length_size len = if ltb len 253 then 1 else if ltb len 0x10000 then 3 else 5

-- The constants TXSIZE_*
abbrev pub txsize_input : ℕ
txsize_input = 40

abbrev pub txsize_output : ℕ
txsize_output = 8

abbrev pub txsize_pubkey : ℕ
txsize_pubkey = 33

abbrev pub txsize_signature : ℕ
txsize_signature = 72

abbrev pub txsize_multisig_script : ℕ
txsize_multisig_script = 3

abbrev pub txsize_witness_pkhash : ℕ
txsize_witness_pkhash = 22

abbrev pub txsize_witness_script : ℕ
txsize_witness_script = 34

abbrev pub txsize_p2pkhash : ℕ
txsize_p2pkhash = 25

abbrev pub txsize_p2script : ℕ
txsize_p2script = 23

-- `InputScriptType` and `OutputScriptType`
pub data InputScriptType : Type 0 where
  spend_address spend_multisig external spend_witness spend_p2sh_witness : InputScriptType

pub data OutputScriptType : Type 0 where
  pay_to_address pay_to_script_hash pay_to_multisig pay_to_op_return pay_to_witness :
      OutputScriptType
  pay_to_p2sh_witness : OutputScriptType

-- What the weight of an input depends on; `multisig` has the number of keys and `m`.
pub record WeighedInput : Type 0 where
  pub script_type : InputScriptType
  pub multisig : Option (ℕ × ℕ)

-- `tx_input_script_size`
unfoldable pub tx_input_script_size : Option (ℕ × ℕ) → ℕ
tx_input_script_size none = 1 + txsize_signature + 1 + txsize_pubkey
tx_input_script_size (some (pubkeys_count, m)) =
    let multisig_script_size = txsize_multisig_script + pubkeys_count * (1 + txsize_pubkey) in
    (1 + m * (1 + txsize_signature) + op_push_size multisig_script_size + multisig_script_size)
    % 2 ^ 32

abbrev witness_size : Option (ℕ × ℕ) → ℕ
witness_size none = txsize_witness_pkhash
witness_size (some _) = txsize_witness_script

abbrev input_weight : InputScriptType → Option (ℕ × ℕ) → ℕ → ℕ
input_weight spend_address multisig size = 4 * (size + ser_length_size size)
input_weight spend_multisig multisig size = 4 * (size + ser_length_size size)
input_weight external multisig size = 0
input_weight spend_witness multisig size = 4 + size
input_weight spend_p2sh_witness multisig size = 4 * (2 + witness_size multisig) + size

-- `tx_input_weight`
unfoldable pub tx_input_weight : WeighedInput → ℕ
tx_input_weight i =
    (4 * txsize_input + input_weight i.script_type i.multisig (tx_input_script_size i.multisig))
    % 2 ^ 32

-- What the weight of an output depends on; `address` is what the script for an address has.
pub record WeighedOutput : Type 0 where
  pub script_type : OutputScriptType
  pub op_return_data : List ℕ
  pub address_n_count : ℕ
  pub has_multisig : Bool

-- How the address of an output decodes, by the crypto library and the coin's prefixes: a witness
-- program of some length, the hash of a key, that of a script, or none of these.
pub data Decoded : Type 0 where
  witness_program : ℕ → Decoded
  key_hash script_hash unknown : Decoded

abbrev change_size : OutputScriptType → Bool → ℕ
change_size pay_to_witness has_multisig =
    if has_multisig then txsize_witness_script else txsize_witness_pkhash
change_size pay_to_p2sh_witness has_multisig = txsize_p2script
change_size t has_multisig = if has_multisig then txsize_p2script else txsize_p2pkhash

abbrev address_size : Decoded → ℕ
address_size (witness_program len) = 2 + len
address_size key_hash = txsize_p2pkhash
address_size script_hash = txsize_p2script
address_size unknown = 0

abbrev is_op_return : OutputScriptType → Bool
is_op_return pay_to_op_return = true
is_op_return t = false

abbrev output_script_size : Decoded → WeighedOutput → ℕ
output_script_size decoded o =
    if is_op_return o.script_type
    then 1 + op_push_size (length o.op_return_data) + length o.op_return_data
    else if ltb 0 o.address_n_count
    then change_size o.script_type o.has_multisig
    else address_size decoded

-- `tx_output_weight`
unfoldable pub tx_output_weight : Decoded → WeighedOutput → ℕ
tx_output_weight decoded o =
    let size = output_script_size decoded o in
    (4 * (txsize_output + (size + ser_length_size size))) % 2 ^ 32

-- An output that carries data: OP_RETURN and a push.
abbrev pub op_return_output : List ℕ → TxOutputBin
op_return_output bytes = record {
  amount = 0;
  script_pubkey = 0x6A ∷ ((op_push (length bytes)).1 ++ bytes);
}

length-ser_length_size : (n : ℕ) → length (ser_length n).1 ≡ ser_length_size n
unfolding ser_length
length-ser_length_size n = ground arith

length-op_return :
    (bytes : List ℕ)
    → length (op_return_output bytes).script_pubkey ≡ 1 + op_push_size (length bytes) + length bytes
length-op_return bytes =
    omega (arith, length-append (op_push (length bytes)).1 bytes, length-op_push (length bytes))

length-output_format :
    (o : TxOutputBin)
    → length (output_format o)
      ≡ 8 + (length o.script_pubkey + ser_length_size (length o.script_pubkey))
length-output_format o = omega (
  arith,
  length-append (le_bytes 8 o.amount) ((ser_length (length o.script_pubkey)).1 ++ o.script_pubkey),
  length-append (ser_length (length o.script_pubkey)).1 o.script_pubkey,
  length-le_bytes 8 o.amount,
  length-ser_length_size (length o.script_pubkey),
)

small_weight :
    (n : ℕ)
    → n < 2 ^ 26
    → (4 * (8 + (n + ser_length_size n))) % 2 ^ 32 ≡ 4 * (8 + (n + ser_length_size n))
small_weight n h = ground arith

op_push_size_le : (n : ℕ) → op_push_size n ≤ 5
unfolding op_push_size
op_push_size_le n = ground arith

-- The weight of an output that carries data, less than 2 ^ 24 bytes, is four times the bytes that it is serialized to.
pub tx_output_weight-op_return :
    (decoded : Decoded) (o : WeighedOutput)
    → o.script_type ≡ pay_to_op_return
    → length o.op_return_data < 2 ^ 24
    → tx_output_weight decoded o ≡ 4 * length (output_format (op_return_output o.op_return_data))
unfolding tx_output_weight
tx_output_weight-op_return decoded o e h =
    let n : ℕ = 1 + op_push_size (length o.op_return_data) + length o.op_return_data in
    rw (e) (
      small_weight n (omega (arith, op_push_size_le (length o.op_return_data)))
      ∙ ap (λ (k : ℕ). 4 * (8 + (k + ser_length_size k))) (sym (length-op_return o.op_return_data))
      ∙ ap (λ (k : ℕ). 4 * k) (sym (length-output_format (op_return_output o.op_return_data))))
