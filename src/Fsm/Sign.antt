-- ===== src/Fsm/Sign.antt =====
-- The handlers that use a private key at once, or verify a signature, of firmware/fsm.c.
pub mod Ed25519
pub mod Verify
use safe_t_mcu.Prelude.{
  ℕ, ◌+◌, ◌-◌, ◌%◌, Bool, true, false, not, ◌&&◌, ◌||◌, List, [], ◌∷◌, ◌++◌, Option, none, some,
  leb, ◌==◌, if◌then◌else◌, length, take, drop, text_eq,
}
use safe_t_mcu.Tx.Weight.{InputScriptType, spend_address}
use safe_t_mcu.Tx.Address.{compute_address}
use safe_t_mcu.Wallet.Library.{HdNode, CoinRow, Library}
use safe_t_mcu.Host.{
  Identity, Question, sign_message, sign_ethereum, verify_address, verify_message, decrypt_for,
  show_payload, sign_identity, decrypt_identity, cosi, cipher, data_error, process_error,
  message_verified, success, message_signature, ethereum_signature, signed_identity, session_key,
  ciphered_key_value, decrypted_message, cosi_signature, cosi_commitment, used_key, ended, stopped,
  returned, M, ◌>>=◌, ◌>>◌, pure, emit, reply,
}
use safe_t_mcu.Fsm.{
  fsm_send_failure, check, check_initialized, check_pin, confirm, confirm_if, fsm_get_coin,
}
use safe_t_mcu.Fsm.Messages.{
  ed25519, crypto_message_sign, crypto_message_verify, ssh_message_sign, gpg_message_sign,
  crypto_identity_fingerprint, identity_path, ethereum_signature_of, is_signed_by,
}
use safe_t_mcu.Fsm.Root.{secp256k1, fsm_get_derived_node}
use safe_t_mcu.Fsm.Keys.{ed25519_keccak, sent_key, curve_or, or_fail, or_silent}

-- `CipherKeyValue`
pub record CipherKeyValue : Type 0 where
  pub address_n : List ℕ
  pub key : Option (List ℕ)
  pub value : Option (List ℕ)
  pub encrypt : Bool
  pub ask_on_encrypt : Bool
  pub ask_on_decrypt : Bool
  pub iv : List ℕ

-- `SignIdentity`
pub record SignIdentity : Type 0 where
  pub identity : Option Identity
  pub challenge_hidden : List ℕ
  pub challenge_visual : List ℕ
  pub curve_name : Option (List ℕ)

abbrev empty_identity : Identity
empty_identity = record { index = 0; proto = []; user = []; host = []; port = []; path = [] }

-- An identity that is absent is shown as one with nothing in it.
abbrev pub identity_or_empty : Option Identity → Identity
identity_or_empty none = empty_identity
identity_or_empty (some i) = i

abbrev pub asks_cipher : CipherKeyValue → Bool
asks_cipher msg = (msg.encrypt && msg.ask_on_encrypt) || (not msg.encrypt && msg.ask_on_decrypt)

-- `data`: the key's name with the marks of what is asked
abbrev pub cipher_data : CipherKeyValue → List ℕ → List ℕ
cipher_data msg key =
    key
    ++ (b'E'
        ∷ (if msg.ask_on_encrypt then b'1' else b'0')
        ∷ b'D'
        ∷ (if msg.ask_on_decrypt then b'1' else b'0')
        ∷ [])

abbrev pub or_empty : Option (List ℕ) → List ℕ
or_empty none = []
or_empty (some xs) = xs

abbrev pub is_given : Option (List ℕ) → Bool
is_given none = false
is_given (some xs) = true

-- A private key is used for what the question said.
unfoldable pub use_key : Question → M (Unit {0})
unfolding emit
use_key q = emit (used_key q)

module _ (L : Library) where
  -- `fsm_msgSignMessage`: coin, path, script type and message
  unfoldable pub fsm_msg_sign_message : Option (List ℕ) → List ℕ → InputScriptType → List ℕ → M ⊥
  fsm_msg_sign_message coin_name path type message = do
    check_initialized L
    confirm L (sign_message message)
    check_pin L true
    coin ← fsm_get_coin L coin_name
    (node, fingerprint) ← fsm_get_derived_node L coin.curve_name path
    use_key (sign_message message)
    signature ← or_fail L process_error (crypto_message_sign L coin node type message)
    let full = L.hdnode_fill_public_key node
    text ←
        or_fail L process_error
          (compute_address (L.wallet coin full) coin.coin type full.public_key none)
    reply (message_signature text signature)

  -- `fsm_msgVerifyMessage`: coin, address, message and signature
  unfoldable pub fsm_msg_verify_message :
      Option (List ℕ) → Option (List ℕ) → Option (List ℕ) → List ℕ → M ⊥
  fsm_msg_verify_message coin_name text message signature = do
    check L (is_given text) data_error
    check L (is_given message) data_error
    coin ← fsm_get_coin L coin_name
    check L
        (length signature == 65
          && crypto_message_verify L coin (or_empty message) (or_empty text) signature)
        data_error
    confirm L (verify_address (or_empty text))
    confirm L (verify_message (or_empty message))
    reply (success message_verified)

  abbrev is_proto : List ℕ → Identity → Bool
  is_proto name i = text_eq i.proto name

  -- Anything but SSH and GPG is signed as a message for the first coin.
  abbrev pub visual_signature : List CoinRow → HdNode → SignIdentity → Option (List ℕ)
  visual_signature [] node msg = none
  visual_signature (coin ∷ coins) node msg =
      crypto_message_sign L coin node spend_address
        (L.sha256 msg.challenge_hidden ++ L.sha256 msg.challenge_visual)

  -- What signs the challenge, by the identity's protocol.
  abbrev pub challenge_signature : HdNode → Identity → SignIdentity → Option (List ℕ)
  challenge_signature node i msg =
      if is_proto (b's' ∷ b's' ∷ b'h' ∷ []) i
      then ssh_message_sign L node msg.challenge_hidden
      else if is_proto (b'g' ∷ b'p' ∷ b'g' ∷ []) i
      then gpg_message_sign L node msg.challenge_hidden
      else visual_signature L.coins node msg

  -- The address of type 63, for the curve secp256k1 alone.
  abbrev pub identity_address : List ℕ → HdNode → Option (List ℕ)
  identity_address curve node =
      if text_eq curve secp256k1 then some (L.hdnode_get_address node 63) else none

  -- `fsm_msgSignIdentity`
  unfoldable pub fsm_msg_sign_identity : SignIdentity → M ⊥
  fsm_msg_sign_identity msg = do
    check_initialized L
    confirm L (sign_identity (identity_or_empty msg.identity) msg.challenge_visual)
    check_pin L true
    i ← or_fail L data_error msg.identity
    let curve = curve_or msg.curve_name secp256k1
    let path = identity_path 13 (crypto_identity_fingerprint L i)
    (node, fingerprint) ← fsm_get_derived_node L curve path
    use_key (sign_identity (identity_or_empty msg.identity) msg.challenge_visual)
    signature ← or_fail L process_error (challenge_signature node i msg)
    let full = L.hdnode_fill_public_key node
    reply (signed_identity (identity_address curve full) (sent_key full.public_key) signature)

  -- `fsm_msgGetECDHSessionKey`: identity, the other's public key, and the curve
  unfoldable pub fsm_msg_get_ecdh_session_key : Option Identity → List ℕ → Option (List ℕ) → M ⊥
  fsm_msg_get_ecdh_session_key identity peer curve_name = do
    check_initialized L
    confirm L (decrypt_identity (identity_or_empty identity))
    check_pin L true
    i ← or_fail L data_error identity
    let path = identity_path 17 (crypto_identity_fingerprint L i)
    (node, fingerprint) ← fsm_get_derived_node L (curve_or curve_name secp256k1) path
    use_key (decrypt_identity (identity_or_empty identity))
    key ← or_fail L process_error (L.hdnode_get_shared_key node peer)
    reply (session_key key)

  -- The value under the key that `data` gives: 32 bytes of key, and 16 to start from.
  abbrev pub ciphered : CipherKeyValue → HdNode → List ℕ
  ciphered msg node =
      let keys = L.hmac_sha512 node.private_key (cipher_data msg (or_empty msg.key)) in
      let iv = if length msg.iv == 16 then msg.iv else take 16 (drop 32 keys) in
      L.aes_cbc msg.encrypt (take 32 keys) iv (or_empty msg.value)

  -- `fsm_msgCipherKeyValue`. Where the host wants no question the key is used without one.
  unfoldable pub fsm_msg_cipher_key_value : CipherKeyValue → M ⊥
  fsm_msg_cipher_key_value msg = do
    check_initialized L
    check L (is_given msg.key) data_error
    check L (is_given msg.value) data_error
    check L (length (or_empty msg.value) % 16 == 0) data_error
    check_pin L true
    (node, fingerprint) ← fsm_get_derived_node L secp256k1 msg.address_n
    confirm_if L (asks_cipher msg) (cipher msg.encrypt (or_empty msg.key))
    if asks_cipher msg then use_key (cipher msg.encrypt (or_empty msg.key)) else pure tt
    reply (ciphered_key_value (ciphered msg node))

  -- `fsm_msgEthereumSignMessage`
  unfoldable pub fsm_msg_ethereum_sign_message : List ℕ → List ℕ → M ⊥
  fsm_msg_ethereum_sign_message path message = do
    check_initialized L
    confirm L (sign_ethereum message)
    check_pin L true
    (node, fingerprint) ← fsm_get_derived_node L secp256k1 path
    hash ← or_silent L (L.hdnode_get_ethereum_pubkeyhash node)
    use_key (sign_ethereum message)
    signature ← or_fail L process_error (ethereum_signature_of L node message)
    reply (ethereum_signature hash signature)

  abbrev pub has_sizes : List ℕ → List ℕ → Bool
  has_sizes text signature = length signature == 65 && length text == 20

  -- `ethereum_message_verify`, of address, signature and message. It refuses wrong sizes by a failure
  -- of its own, and returns 1; otherwise 0, or 2 when the signature is another one.
  unfoldable pub ethereum_message_verify : List ℕ → List ℕ → List ℕ → M ℕ
  ethereum_message_verify text signature message w =
      if not (has_sizes text signature)
      then returned 1 (fsm_send_failure L data_error w)
      else returned (if is_signed_by L text signature message then 0 else 2) w

  -- `fsm_msgEthereumVerifyMessage`: address, message and signature
  unfoldable pub fsm_msg_ethereum_verify_message : Option (List ℕ) → Option (List ℕ) → List ℕ → M ⊥
  fsm_msg_ethereum_verify_message text message signature = do
    check L (is_given text) data_error
    check L (is_given message) data_error
    code ← ethereum_message_verify (or_empty text) signature (or_empty message)
    check L (code == 0) data_error
    confirm L (verify_address (b'0' ∷ b'x' ∷ L.ethereum_address_checksum (or_empty text)))
    confirm L (verify_message (or_empty message))
    reply (success message_verified)
