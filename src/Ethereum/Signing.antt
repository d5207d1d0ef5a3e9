-- ===== src/Ethereum/Signing.antt =====
-- The signing of an Ethereum transaction, firmware/ethereum.c. The fields come first, and the data in
-- chunks. What `protectButton` returns is given, and the table of tokens is a parameter.
use safe_t_mcu.Prelude.{
  ℕ, ◌+◌, ◌-◌, ◌*◌, ◌%◌, ◌^◌, Bool, true, false, not, ◌&&◌, ◌||◌, List, [], ◌∷◌, Option, none, some,
  ltb, leb, ◌==◌, if◌then◌else◌, length, get_or, take, replicate, text_eq, Hasher,
}
use safe_t_mcu.Ethereum.{
  hash_rlp_length, hash_rlp_list_length, hash_rlp_field, hash_rlp_number, rlp_calculate_length,
}

-- `EthereumSignTx`; a field that may be absent has a flag.
pub record EthereumSignTx : Type 0 where
  pub has_nonce : Bool
  pub nonce : List ℕ
  pub has_gas_price : Bool
  pub gas_price : List ℕ
  pub has_gas_limit : Bool
  pub gas_limit : List ℕ
  pub has_to : Bool
  pub to : List ℕ
  pub has_value : Bool
  pub value : List ℕ
  pub has_data_initial_chunk : Bool
  pub data_initial_chunk : List ℕ
  pub has_data_length : Bool
  pub data_length : ℕ
  pub has_chain_id : Bool
  pub chain_id : ℕ

pub data Failure : Type 0 where
  data_error action_cancelled process_error unexpected_message : Failure

-- What is seen outside: questions with what the user answers, requests for more data, and a signature,
-- by its v, r and s.
pub data Event : Type 0 where
  tx_asked data_asked fee_asked : Bool → Event
  requested : ℕ → Event
  signature : ℕ → List ℕ → Event
  failed : Failure → Event

-- The module's variables; `log` has the last event first.
pub record EthereumSigner (Digest : Type 0) : Type 0 where
  pub signing : Bool
  pub data_total : ℕ
  pub data_left : ℕ
  pub chain_id : ℕ
  pub privkey : List ℕ
  pub keccak : Digest
  pub log : List Event

-- What `protectButton` returns for the transaction, its data, and the fee.
pub record Consent : Type 0 where
  pub tx : Bool
  pub data_ok : Bool
  pub fee : Bool

-- MAX_CHAIN_ID
abbrev pub max_chain_id : ℕ
max_chain_id = 2147483630

-- An absent field becomes empty.
abbrev pub field : Bool → List ℕ → List ℕ
field has bytes = if has then bytes else []

abbrev pub clear_absent : EthereumSignTx → EthereumSignTx
clear_absent msg = record msg {
  value = field msg.has_value msg.value;
  data_initial_chunk = field msg.has_data_initial_chunk msg.data_initial_chunk;
  to = field msg.has_to msg.to;
  nonce = field msg.has_nonce msg.nonce;
}

-- `ethereum_signing_check`
unfoldable pub ethereum_signing_check : EthereumSignTx → Bool
ethereum_signing_check msg =
    if not msg.has_gas_price || not msg.has_gas_limit
    then false
    else if not (length msg.to == 20) && not (length msg.to == 0)
    then false
    else if length msg.to == 0 && (not msg.has_data_length || msg.data_length == 0)
    then false
    else not (ltb 30 (length msg.gas_price + length msg.gas_limit))

-- The selector of a transfer, and the zeros in front of the address.
abbrev pub transfer_prefix : List ℕ
transfer_prefix = 0xa9 ∷ 0x05 ∷ 0x9c ∷ 0xbb ∷ replicate 12 0

abbrev pub total_of : EthereumSignTx → ℕ
total_of msg = if msg.has_data_length && ltb 0 msg.data_length then msg.data_length else 0

-- The data that is announced must begin with the first chunk, and its length has a limit.
abbrev pub wrong_data : EthereumSignTx → Bool
wrong_data msg =
    if msg.has_data_length && ltb 0 msg.data_length
    then (not msg.has_data_initial_chunk || length msg.data_initial_chunk == 0)
      || ltb 16000000 msg.data_length
    else false

abbrev pub wrong_chain : EthereumSignTx → Bool
wrong_chain msg = msg.has_chain_id && (ltb msg.chain_id 1 || ltb max_chain_id msg.chain_id)

-- Stage 1 of `ethereum_signing_init`: the length that the list header announces.
unfoldable pub rlp_length : EthereumSignTx → ℕ → ℕ → ℕ
rlp_length msg chain_id data_total =
    let of : List ℕ → ℕ = λ bytes. rlp_calculate_length (length bytes) (get_or bytes 0 0) in
    let fields =
      of msg.nonce
      + of msg.gas_price
      + of msg.gas_limit
      + of msg.to
      + of msg.value
      + rlp_calculate_length data_total (get_or msg.data_initial_chunk 0 0) in
    if chain_id == 0
    then fields
    else fields
      + rlp_calculate_length 1 (chain_id % 256)
      + rlp_calculate_length 0 0
      + rlp_calculate_length 0 0

module _ (H : Hasher) (is_token : ℕ → List ℕ → Bool)
    (sign_digest : List ℕ → List ℕ → Option (ℕ × List ℕ)) where
  abbrev pub Signer : Type 0
  Signer = EthereumSigner H.State

  -- `fsm_sendFailure` and `ethereum_signing_abort`
  abbrev pub fail : Failure → Signer → Signer
  fail f s = record s { signing = false; privkey = replicate 32 0; log = failed f ∷ s.log }

  -- `send_request_chunk`
  abbrev pub send_request_chunk : Signer → Signer
  send_request_chunk s = record s {
    log = requested (if leb s.data_left 1024 then s.data_left else 1024) ∷ s.log;
  }

  -- What is hashed behind the data.
  abbrev pub hash_chain : ℕ → H.State → H.State
  hash_chain chain_id k =
      if chain_id == 0
      then k
      else hash_rlp_length H (hash_rlp_length H (hash_rlp_number H k chain_id) 0 0) 0 0

  abbrev pub signature_v : ℕ → ℕ → ℕ
  signature_v chain_id v = if chain_id == 0 then v + 27 else (v + 2 * chain_id + 35) % 2 ^ 32

  abbrev pub send_signed : Option (ℕ × List ℕ) → Signer → Signer
  send_signed none s = fail process_error s
  send_signed (some (v, sig)) s = record s {
    signing = false;
    privkey = replicate 32 0;
    log = signature (signature_v s.chain_id v) sig ∷ s.log;
  }

  -- `send_signature`
  unfoldable pub send_signature : Signer → Signer
  send_signature s =
      let keccak = hash_chain s.chain_id s.keccak in
      send_signed (sign_digest s.privkey (H.digest keccak)) (record s { keccak = keccak })

  abbrev pub next_chunk : Signer → Signer
  next_chunk s = if ltb 0 s.data_left then send_request_chunk s else send_signature s

  -- Stage 2: what is hashed before the chunks.
  abbrev pub hash_fields : EthereumSignTx → ℕ → ℕ → H.State
  hash_fields msg chain_id data_total =
      let k0 = hash_rlp_list_length H (H.init 0) (rlp_length msg chain_id data_total) in
      let k1 = hash_rlp_field H (hash_rlp_field H k0 msg.nonce) msg.gas_price in
      let k2 = hash_rlp_field H (hash_rlp_field H k1 msg.gas_limit) msg.to in
      let k3 = hash_rlp_field H k2 msg.value in
      H.feed (hash_rlp_length H k3 data_total (get_or msg.data_initial_chunk 0 0))
        msg.data_initial_chunk

  -- From where the user has allowed it.
  abbrev pub begin_signing : EthereumSignTx → List ℕ → Signer → Signer
  begin_signing msg private_key s = next_chunk (record s {
    keccak = hash_fields msg s.chain_id s.data_total;
    data_left = s.data_total - length msg.data_initial_chunk;
    privkey = private_key;
  })

  abbrev pub confirm_fee : EthereumSignTx → List ℕ → Consent → Signer → Signer
  confirm_fee msg private_key c s =
      let s1 : Signer = record s { log = fee_asked c.fee ∷ s.log } in
      if not c.fee then fail action_cancelled s1 else begin_signing msg private_key s1

  abbrev pub confirm_data : Bool → EthereumSignTx → List ℕ → Consent → Signer → Signer
  confirm_data token msg private_key c s =
      let s1 : Signer = record s { log = data_asked c.data_ok ∷ s.log } in
      if not token && ltb 0 s.data_total
      then (if not c.data_ok then fail action_cancelled s1 else confirm_fee msg private_key c s1)
      else confirm_fee msg private_key c s

  abbrev pub is_transfer : EthereumSignTx → ℕ → ℕ → Bool
  is_transfer msg chain_id data_total =
      (length msg.to == 20
        && (length msg.value == 0 && (data_total == 68 && length msg.data_initial_chunk == 68)))
      && (text_eq (take 16 msg.data_initial_chunk) transfer_prefix && is_token chain_id msg.to)

  abbrev pub confirm_tx : EthereumSignTx → List ℕ → Consent → Signer → Signer
  confirm_tx msg private_key c s =
      let s1 : Signer = record s { log = tx_asked c.tx ∷ s.log } in
      if not c.tx
      then fail action_cancelled s1
      else confirm_data (is_transfer msg s.chain_id s.data_total) msg private_key c s1

  -- The checks of `ethereum_signing_init`, on a message without absent fields.
  abbrev pub checked_init : EthereumSignTx → List ℕ → Consent → Signer → Signer
  checked_init msg private_key c s =
      let s1 : Signer = record s { chain_id = if msg.has_chain_id then msg.chain_id else 0 } in
      let s2 : Signer = record s1 { data_total = total_of msg } in
      if wrong_chain msg
      then fail data_error s
      else if wrong_data msg
      then fail data_error s1
      else if ltb (total_of msg) (length msg.data_initial_chunk)
      then fail data_error s2
      else if not (ethereum_signing_check msg)
      then fail data_error s2
      else confirm_tx msg private_key c s2

  -- `ethereum_signing_init`
  unfoldable pub ethereum_signing_init : EthereumSignTx → List ℕ → Consent → Signer → Signer
  ethereum_signing_init msg private_key c s =
      checked_init (clear_absent msg) private_key c
        (record s { signing = true; keccak = H.init 0; log = [] })

  abbrev pub feed_chunk : List ℕ → Signer → Signer
  feed_chunk chunk s =
      next_chunk
        (record s { keccak = H.feed s.keccak chunk; data_left = s.data_left - length chunk })

  -- `ethereum_signing_txack`; a chunk that is absent has no bytes.
  unfoldable pub ethereum_signing_txack : Bool → List ℕ → Signer → Signer
  ethereum_signing_txack has_chunk chunk s =
      if not s.signing
      then record s { log = failed unexpected_message ∷ s.log }
      else if ltb s.data_left (length chunk)
      then fail data_error s
      else if ltb 0 s.data_left && (not has_chunk || length chunk == 0)
      then fail data_error s
      else feed_chunk chunk s
