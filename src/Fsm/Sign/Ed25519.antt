-- ===== src/Fsm/Sign/Ed25519.antt =====
-- The handlers of firmware/fsm.c that use an Ed25519 key: collective signing, and messages of NEM.
use safe_t_mcu.Prelude.{ℕ, ◌+◌, ◌-◌, true, false, List, Option, leb, ◌==◌, length, take, drop}
use safe_t_mcu.Wallet.Library.{HdNode, Library}
use safe_t_mcu.Host.{
  decrypt_for, show_payload, cosi, data_error, process_error, decrypted_message, cosi_signature,
  cosi_commitment, M, ◌>>=◌, ◌>>◌, reply,
}
use safe_t_mcu.Fsm.{check, check_initialized, check_pin, confirm}
use safe_t_mcu.Fsm.Messages.{ed25519}
use safe_t_mcu.Fsm.Root.{fsm_get_derived_node}
use safe_t_mcu.Fsm.Keys.{ed25519_keccak, or_fail}
use safe_t_mcu.Fsm.Sign.{or_empty, is_given, use_key}

-- `NEMDecryptMessage`
pub record NemDecryptMessage : Type 0 where
  pub address_n : List ℕ
  pub network : ℕ
  pub payload : Option (List ℕ)
  pub public_key : Option (List ℕ)

module _ (L : Library) where
  abbrev pub cosi_nonce : HdNode → List ℕ → List ℕ
  cosi_nonce node text = L.rfc6979 node.private_key (L.sha256 text)

  -- `fsm_msgCosiCommit`
  unfoldable pub fsm_msg_cosi_commit : List ℕ → Option (List ℕ) → M ⊥
  fsm_msg_cosi_commit path text = do
    check_initialized L
    check L (is_given text) data_error
    confirm L (cosi path (or_empty text) false)
    check_pin L true
    (node, fingerprint) ← fsm_get_derived_node L ed25519 path
    use_key (cosi path (or_empty text) false)
    reply (
        cosi_commitment (L.ed25519_publickey (cosi_nonce node (or_empty text)))
          (L.ed25519_publickey node.private_key))

  -- `fsm_msgCosiSign`: path, data, commitment and public key
  unfoldable pub fsm_msg_cosi_sign :
      List ℕ → Option (List ℕ) → Option (List ℕ) → Option (List ℕ) → M ⊥
  fsm_msg_cosi_sign path text commitment key = do
    check_initialized L
    check L (is_given text) data_error
    check L (length (or_empty commitment) == 32) data_error
    check L (length (or_empty key) == 32) data_error
    confirm L (cosi path (or_empty text) true)
    check_pin L true
    (node, fingerprint) ← fsm_get_derived_node L ed25519 path
    use_key (cosi path (or_empty text) true)
    reply (
        cosi_signature (
          L.ed25519_cosi_sign (or_empty text) node.private_key (cosi_nonce node (or_empty text))
            (or_empty commitment) (or_empty key)))

  -- The salt, the start vector and the bytes that follow them.
  abbrev pub nem_decrypted : List ℕ → List ℕ → HdNode → Option (List ℕ)
  nem_decrypted key payload node =
      L.hdnode_nem_decrypt node key (take 16 (drop L.nem_salt_size payload))
        (take L.nem_salt_size payload) (drop (L.nem_salt_size + 16) payload)

  -- `fsm_msgNEMDecryptMessage`; a block of AES has 16 bytes.
  unfoldable pub fsm_msg_nem_decrypt_message : NemDecryptMessage → M ⊥
  fsm_msg_nem_decrypt_message msg = do
    check_initialized L
    name ← or_fail L data_error (L.nem_network_name msg.network)
    payload ← or_fail L data_error msg.payload
    check L (leb L.nem_min_payload (length payload)) data_error
    key ← or_fail L data_error msg.public_key
    check L (length key == 32) data_error
    confirm L (decrypt_for (L.nem_get_address key msg.network))
    check_pin L true
    (node, fingerprint) ← fsm_get_derived_node L ed25519_keccak msg.address_n
    use_key (decrypt_for (L.nem_get_address key msg.network))
    bytes ← or_fail L process_error (nem_decrypted key payload node)
    let shown = take (L.nem_decrypted_size bytes (length payload - L.nem_salt_size - 16)) bytes
    confirm L (show_payload shown)
    reply (decrypted_message shown)
