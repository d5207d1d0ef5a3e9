-- ===== src/Ethereum/Tests.antt =====
-- The theorems on RLP at a string of 60 bytes, and those on signing at a transaction with data in
-- three chunks.
use safe_t_mcu.Prelude.{
  ℕ, ◌≡◌, refl, arith, List, [], ◌∷◌, ◌++◌, length, replicate, list_hasher, ◌↔◌, ◌<◌, ◌%◌, Bool,
  true, false, Option, some,
}
use safe_t_mcu.Ethereum.{hash_rlp_field, hash_rlp_number, rlp_calculate_length}
use safe_t_mcu.Ethereum.RoundTrip.{rlp_header, rlp_string, hash_rlp_field_lem}
use safe_t_mcu.Ethereum.Signing.{
  EthereumSignTx, Consent, Signer, send_signature, ethereum_signing_init,
}
use safe_t_mcu.Ethereum.Chunks.{core, send_chunks, send_chunks_lem}
use safe_t_mcu.Ethereum.Consent.{SignedAfter, run, run-SignedAfter}
use safe_t_mcu.Ethereum.ChainId.{length-hash_rlp_number}

abbrev string : List ℕ
string = replicate 60 7

hash_rlp_field_lem_example :
    let header = rlp_header (length (7 ∷ string)) 7 in
    (hash_rlp_field list_hasher [] (7 ∷ string) ≡ list_hasher.feed [] (header ++ (7 ∷ string)))
    × (length (header ++ (7 ∷ string)) ≡ rlp_calculate_length (length (7 ∷ string)) 7)
    × (rlp_string (header ++ (7 ∷ (string ++ (9 ∷ [])))) ≡ (length header, length (7 ∷ string)))
hash_rlp_field_lem_example =
    hash_rlp_field_lem list_hasher [] 7 string (9 ∷ []) (omega arith) (omega arith)

abbrev is_token : ℕ → List ℕ → Bool
is_token chain_id address = false

abbrev sign_digest : List ℕ → List ℕ → Option (ℕ × List ℕ)
sign_digest key hash = some (1, hash)

abbrev signer : Signer list_hasher is_token sign_digest
signer = record {
  signing = true;
  data_total = 6;
  data_left = 5;
  chain_id = 1;
  privkey = 7 ∷ [];
  keccak = 9 ∷ [];
  log = [];
}

send_chunks_lem_example :
    core list_hasher is_token sign_digest (
      send_chunks list_hasher is_token sign_digest
        ((1 ∷ 2 ∷ []) ∷ (3 ∷ []) ∷ (4 ∷ 5 ∷ []) ∷ [])
        signer)
    ≡ core list_hasher is_token sign_digest (
        send_signature list_hasher is_token sign_digest
          (record signer { keccak = 9 ∷ 1 ∷ 2 ∷ 3 ∷ 4 ∷ 5 ∷ []; data_left = 0 }))
send_chunks_lem_example =
    send_chunks_lem list_hasher is_token sign_digest (1 ∷ 2 ∷ []) ((3 ∷ []) ∷ (4 ∷ 5 ∷ []) ∷ [])
      signer refl refl (omega arith, (omega arith, (omega arith, tt)))

-- Two bytes of data for a new contract, of which the first comes with the message.
abbrev message : EthereumSignTx
message = record {
  has_nonce = true;
  nonce = 1 ∷ [];
  has_gas_price = true;
  gas_price = 2 ∷ [];
  has_gas_limit = true;
  gas_limit = 3 ∷ [];
  has_to = false;
  to = [];
  has_value = false;
  value = [];
  has_data_initial_chunk = true;
  data_initial_chunk = 8 ∷ [];
  has_data_length = true;
  data_length = 2;
  has_chain_id = true;
  chain_id = 1;
}

abbrev consent : Consent
consent = record { tx = true; data_ok = true; fee = true }

run-SignedAfter_example :
    SignedAfter
      (run list_hasher is_token sign_digest ((true, 9 ∷ []) ∷ []) (
        ethereum_signing_init list_hasher is_token sign_digest message (7 ∷ []) consent signer)).log
run-SignedAfter_example =
    run-SignedAfter list_hasher is_token sign_digest message (7 ∷ []) consent ((true, 9 ∷ []) ∷ [])
      signer

length-hash_rlp_number_example :
    (length (hash_rlp_number list_hasher [] 1000) ≡ rlp_calculate_length 1 (1000 % 256))
    ↔ (1000 < 256)
length-hash_rlp_number_example = length-hash_rlp_number 1000 (omega arith) (omega arith)
