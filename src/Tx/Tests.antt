-- ===== src/Tx/Tests.antt =====
-- The theorems on transactions at concrete transactions.
use safe_t_mcu.Prelude.{
  ℕ, Option, some, ◌≡◌, ◌≢◌, refl, ap, arith, true, false, List, [], ◌∷◌, ◌++◌, list_hasher,
  replicate, if◌then◌else◌, get_or, take, le_bytes,
}
use safe_t_mcu.Tx.Script.{Multisig}
use safe_t_mcu.Tx.{
  TxInput, TxOutputBin, TxStruct, ◌+32◌, reversed, tx_serialize_header, tx_serialize_input,
  tx_serialize_output, ends_output,
}
use safe_t_mcu.Tx.Hash.{tx_serialize_header_hash, tx_serialize_input_hash, tx_serialize_output_hash}
use safe_t_mcu.Tx.Agree.{
  hashed_header, hashed_output, tx_serialize_input_hash-tx_serialize_input,
  tx_serialize_output_hash-tx_serialize_output, version_12_header,
}
use safe_t_mcu.Tx.Format.{write_inputs, write_outputs, transaction_format, write_transaction}

abbrev transaction : ℕ → ℕ → TxStruct (List ℕ)
transaction version have_inputs = record {
  inputs_len = 1;
  outputs_len = 1;
  version = version;
  lock_time = 5;
  is_segwit = false;
  have_inputs = have_inputs;
  have_outputs = 0;
  extra_data_len = 0;
  extra_data_received = 0;
  size = 0;
  hasher = [];
  preblock_hash = 1 ∷ replicate 31 0;
}

abbrev input : TxInput
input = record {
  prev_hash = 1 ∷ replicate 31 0;
  prev_index = 3;
  script_sig = 0x51 ∷ 0x52 ∷ [];
  sequence = 0xffffffff;
}

abbrev output : TxOutputBin
output = record { amount = 100000; script_pubkey = 0x51 ∷ [] }

tx_serialize_input_hash-tx_serialize_input_example :
    let ((r, bytes), tx') = tx_serialize_input (transaction 1 0) input in
    tx_serialize_input_hash list_hasher (transaction 1 0) input
    ≡ (r, record tx' { hasher = list_hasher.feed [] bytes })
tx_serialize_input_hash-tx_serialize_input_example =
    tx_serialize_input_hash-tx_serialize_input list_hasher (transaction 1 0) input (omega arith)
      (omega arith) (omega arith) (omega arith)

tx_serialize_output_hash-tx_serialize_output_example :
    let ((r, bytes), tx') = tx_serialize_output (transaction 1 1) output in
    let (r', tx'') = tx_serialize_output_hash list_hasher (transaction 1 1) output in
    (bytes
      ≡ hashed_output list_hasher (transaction 1 1) output
        ++ (if ends_output (transaction 1 1) then le_bytes 4 1 else []))
    × (tx''.hasher ≡ list_hasher.feed [] (hashed_output list_hasher (transaction 1 1) output))
    × (r ≡ r' +32 (if ends_output (transaction 1 1) then 4 else 0))
    × (tx''.have_outputs ≡ tx'.have_outputs)
    × (tx''.size ≡ 0 +32 r')
tx_serialize_output_hash-tx_serialize_output_example =
    tx_serialize_output_hash-tx_serialize_output list_hasher (transaction 1 1) output (omega arith)
      (omega arith) refl

abbrev first : List ℕ → ℕ
first bs = get_or bs 0 0

zero_one : ◌≢◌ {A = ℕ} 0 1
zero_one = omega arith

not_symmetric : reversed 32 (1 ∷ replicate 31 0) ≢ take 32 (1 ∷ replicate 31 0)
unfolding reversed
not_symmetric e = absurd (zero_one (ap first e))

version_12_header_example :
    (tx_serialize_header_hash list_hasher (transaction 12 0) ≡ (
      list_hasher.feed [] (hashed_header list_hasher (transaction 12 0)),
      (tx_serialize_header (transaction 12 0)).0,
    ))
    × (hashed_header list_hasher (transaction 12 0) ≢ (tx_serialize_header (transaction 12 0)).1)
version_12_header_example =
    version_12_header list_hasher (transaction 12 0) (omega arith) refl not_symmetric

write_transaction_example :
    let (front, tx1) = write_inputs (transaction 1 0) (input ∷ []) in
    front ++ (write_outputs tx1 (output ∷ [])).0
    ≡ transaction_format (transaction 1 0) (input ∷ []) (output ∷ []) ++ le_bytes 4 1
write_transaction_example =
    write_transaction input [] output [] (transaction 1 0) (omega arith) (omega arith) refl refl
      refl refl

abbrev key : ℕ → Option (List ℕ)
key path = some (replicate 33 path)

abbrev two_of_two : Multisig ℕ
two_of_two = record { has_m = true; m = 2; pubkeys = 2 ∷ 3 ∷ []; signatures = [] }

abbrev two_of_two_script : List ℕ
two_of_two_script =
    0x52 ∷ 33 ∷ (replicate 33 2 ++ (33 ∷ (replicate 33 3 ++ []))) ++ (0x52 ∷ 0xAE ∷ [])
