-- ===== src/Fsm/Answers/Sign.antt =====
-- The handlers that use a private key, and those that verify.
use safe_t_mcu.Prelude.{
  ℕ, ◌-◌, ◌≡◌, ◌%◌, refl, Bool, true, false, ◌&&◌, List, ◌∷◌, Option, none, if◌then◌else◌, leb,
  ◌==◌, length, take,
}
use safe_t_mcu.Tx.Weight.{InputScriptType}
use safe_t_mcu.Tx.Address.{compute_address}
use safe_t_mcu.Wallet.Library.{Library}
use safe_t_mcu.Host
use safe_t_mcu.Host.{
  Identity, RecoveryDevice, World, M, Stop, ended, waiting, halted, Outcome, returned, stopped,
  Event, Question, pure, data_error, process_error, success,
}
use safe_t_mcu.Fsm.Root.{secp256k1}
use mathlib.Core.Path.{subst, sym}
use safe_t_mcu.Fsm.Sign.Verify.{fail_twice, ethereum_message_verify_lem}
use safe_t_mcu.Fsm.Messages.{
  ed25519, crypto_message_sign, crypto_message_verify, crypto_identity_fingerprint, identity_path,
  ethereum_signature_of, is_signed_by,
}
use safe_t_mcu.Fsm.Keys.{ed25519_keccak, curve_or}
use safe_t_mcu.Fsm.Sign.{
  CipherKeyValue, SignIdentity, identity_or_empty, asks_cipher, or_empty, is_given,
  challenge_signature, has_sizes, fsm_msg_sign_message, fsm_msg_verify_message,
  fsm_msg_sign_identity, fsm_msg_get_ecdh_session_key, fsm_msg_cipher_key_value,
  fsm_msg_ethereum_sign_message, fsm_msg_ethereum_verify_message,
}
use safe_t_mcu.Fsm.Sign.Ed25519.{
  NemDecryptMessage, nem_decrypted, fsm_msg_cosi_commit, fsm_msg_cosi_sign,
  fsm_msg_nem_decrypt_message,
}
use safe_t_mcu.Fsm.Answers.{
  Counts, ◌and_then◌, Counts-if, Counts-pure, Counts-use_key, Counts-reply,
}
use safe_t_mcu.Fsm.Answers.Steps.{
  check-Counts, check_initialized-Counts, check_pin-Counts, confirm-Counts, confirm_if-Counts,
  or_fail-Counts, fsm_get_coin-Counts, derived_node-Counts, fail_twice-Counts, or_silent-Counts,
}

module _ (L : Library) (E : ℕ → Type 0) (one : E 1) where
  pub sign_message-Counts :
      (coin_name : Option (List ℕ)) (path : List ℕ) (type : InputScriptType) (message : List ℕ)
      → Counts E (fsm_msg_sign_message L coin_name path type message)
  unfolding fsm_msg_sign_message
  sign_message-Counts coin_name path type message = check_initialized-Counts L E one and_then λ _.
      confirm-Counts L E one (Host.sign_message message) and_then λ _.
      check_pin-Counts L E one true and_then λ _.
      fsm_get_coin-Counts L E one coin_name and_then λ coin.
      derived_node-Counts L E one coin.curve_name path and_then λ node.
      Counts-use_key (Host.sign_message message) and_then λ _.
      or_fail-Counts L E one process_error (crypto_message_sign L coin node.0 type message)
      and_then λ signature.
          or_fail-Counts L E one process_error (
            compute_address (L.wallet coin (L.hdnode_fill_public_key node.0)) coin.coin type
              (L.hdnode_fill_public_key node.0).public_key none)
          and_then λ text. Counts-reply one _

  pub verify_message-Counts :
      (coin_name text message : Option (List ℕ)) (signature : List ℕ)
      → Counts E (fsm_msg_verify_message L coin_name text message signature)
  unfolding fsm_msg_verify_message
  verify_message-Counts coin_name text message signature =
      check-Counts L E one (is_given text) data_error and_then λ _.
      check-Counts L E one (is_given message) data_error and_then λ _.
      fsm_get_coin-Counts L E one coin_name and_then λ coin.
      check-Counts L E one
        (length signature == 65
          && crypto_message_verify L coin (or_empty message) (or_empty text) signature)
        data_error
      and_then λ _. confirm-Counts L E one (Host.verify_address (or_empty text)) and_then λ _.
          confirm-Counts L E one (Host.verify_message (or_empty message)) and_then λ _.
          Counts-reply one _

  pub sign_identity-Counts : (msg : SignIdentity) → Counts E (fsm_msg_sign_identity L msg)
  unfolding fsm_msg_sign_identity
  sign_identity-Counts msg =
      let q = Host.sign_identity (identity_or_empty msg.identity) msg.challenge_visual in
      check_initialized-Counts L E one and_then λ _. confirm-Counts L E one q and_then λ _.
      check_pin-Counts L E one true and_then λ _.
      or_fail-Counts L E one data_error msg.identity and_then λ i.
      derived_node-Counts L E one (curve_or msg.curve_name secp256k1)
        (identity_path 13 (crypto_identity_fingerprint L i))
      and_then λ node. Counts-use_key q and_then λ _.
          or_fail-Counts L E one process_error (challenge_signature L node.0 i msg)
          and_then λ signature. Counts-reply one _

  pub get_ecdh_session_key-Counts :
      (identity : Option Identity) (peer : List ℕ) (curve_name : Option (List ℕ))
      → Counts E (fsm_msg_get_ecdh_session_key L identity peer curve_name)
  unfolding fsm_msg_get_ecdh_session_key
  get_ecdh_session_key-Counts identity peer curve_name =
      let q = Host.decrypt_identity (identity_or_empty identity) in
      check_initialized-Counts L E one and_then λ _. confirm-Counts L E one q and_then λ _.
      check_pin-Counts L E one true and_then λ _.
      or_fail-Counts L E one data_error identity and_then λ i.
      derived_node-Counts L E one (curve_or curve_name secp256k1)
        (identity_path 17 (crypto_identity_fingerprint L i))
      and_then λ node. Counts-use_key q and_then λ _.
          or_fail-Counts L E one process_error (L.hdnode_get_shared_key node.0 peer) and_then λ key.
          Counts-reply one _

  pub cipher_key_value-Counts : (msg : CipherKeyValue) → Counts E (fsm_msg_cipher_key_value L msg)
  unfolding fsm_msg_cipher_key_value
  cipher_key_value-Counts msg =
      let q = Host.cipher msg.encrypt (or_empty msg.key) in
      check_initialized-Counts L E one and_then λ _.
      check-Counts L E one (is_given msg.key) data_error and_then λ _.
      check-Counts L E one (is_given msg.value) data_error and_then λ _.
      check-Counts L E one (length (or_empty msg.value) % 16 == 0) data_error and_then λ _.
      check_pin-Counts L E one true and_then λ _.
      derived_node-Counts L E one secp256k1 msg.address_n and_then λ node.
      confirm_if-Counts L E one (asks_cipher msg) q and_then λ _.
      Counts-if (asks_cipher msg) (Counts-use_key q) (Counts-pure tt) and_then λ _.
      Counts-reply one _

  pub ethereum_sign_message-Counts :
      (nothing_sent : E 0) (path message : List ℕ)
      → Counts E (fsm_msg_ethereum_sign_message L path message)
  unfolding fsm_msg_ethereum_sign_message
  ethereum_sign_message-Counts nothing_sent path message =
      check_initialized-Counts L E one and_then λ _.
      confirm-Counts L E one (Host.sign_ethereum message) and_then λ _.
      check_pin-Counts L E one true and_then λ _.
      derived_node-Counts L E one secp256k1 path and_then λ node.
      or_silent-Counts L E nothing_sent (L.hdnode_get_ethereum_pubkeyhash node.0) and_then λ hash.
      Counts-use_key (Host.sign_ethereum message) and_then λ _.
      or_fail-Counts L E one process_error (ethereum_signature_of L node.0 message)
      and_then λ signature. Counts-reply one _

  sizes-Counts : (b : Bool) → (b ≡ false → E 2) → Counts E (if b then pure tt else fail_twice L)
  sizes-Counts true two = Counts-pure tt
  sizes-Counts false two = fail_twice-Counts L E one (two refl)

  pub ethereum_verify_message-Counts :
      (text message : Option (List ℕ)) (signature : List ℕ)
      → (has_sizes L (or_empty text) signature ≡ false → E 2)
      → Counts E (fsm_msg_ethereum_verify_message L text message signature)
  unfolding fsm_msg_ethereum_verify_message
  ethereum_verify_message-Counts text message signature two =
      check-Counts L E one (is_given text) data_error and_then λ _.
      check-Counts L E one (is_given message) data_error and_then λ _.
      subst (Counts E)
        (sym (ethereum_message_verify_lem L (or_empty text) signature (or_empty message) _))
        (sizes-Counts (has_sizes L (or_empty text) signature) two and_then λ _.
          check-Counts L E one (is_signed_by L (or_empty text) signature (or_empty message))
            data_error
          and_then λ _.
              confirm-Counts L E one
                (Host.verify_address (b'0' ∷ b'x' ∷ L.ethereum_address_checksum (or_empty text)))
              and_then λ _.
                  confirm-Counts L E one (Host.verify_message (or_empty message)) and_then λ _.
                  Counts-reply one _)

  pub cosi_commit-Counts :
      (path : List ℕ) (text : Option (List ℕ)) → Counts E (fsm_msg_cosi_commit L path text)
  unfolding fsm_msg_cosi_commit
  cosi_commit-Counts path text =
      let q = Host.cosi path (or_empty text) false in
      check_initialized-Counts L E one and_then λ _.
      check-Counts L E one (is_given text) data_error and_then λ _.
      confirm-Counts L E one q and_then λ _. check_pin-Counts L E one true and_then λ _.
      derived_node-Counts L E one ed25519 path and_then λ node.
      Counts-use_key q and_then λ _. Counts-reply one _

  pub cosi_sign-Counts :
      (path : List ℕ) (text commitment key : Option (List ℕ))
      → Counts E (fsm_msg_cosi_sign L path text commitment key)
  unfolding fsm_msg_cosi_sign
  cosi_sign-Counts path text commitment key =
      let q = Host.cosi path (or_empty text) true in
      check_initialized-Counts L E one and_then λ _.
      check-Counts L E one (is_given text) data_error and_then λ _.
      check-Counts L E one (length (or_empty commitment) == 32) data_error and_then λ _.
      check-Counts L E one (length (or_empty key) == 32) data_error and_then λ _.
      confirm-Counts L E one q and_then λ _. check_pin-Counts L E one true and_then λ _.
      derived_node-Counts L E one ed25519 path and_then λ node.
      Counts-use_key q and_then λ _. Counts-reply one _

  pub nem_decrypt_message-Counts :
      (msg : NemDecryptMessage) → Counts E (fsm_msg_nem_decrypt_message L msg)
  unfolding fsm_msg_nem_decrypt_message
  nem_decrypt_message-Counts msg = check_initialized-Counts L E one and_then λ _.
      or_fail-Counts L E one data_error (L.nem_network_name msg.network) and_then λ name.
      or_fail-Counts L E one data_error msg.payload and_then λ payload.
      check-Counts L E one (leb L.nem_min_payload (length payload)) data_error and_then λ _.
      or_fail-Counts L E one data_error msg.public_key and_then λ key.
      check-Counts L E one (length key == 32) data_error and_then λ _.
      confirm-Counts L E one (Host.decrypt_for (L.nem_get_address key msg.network)) and_then λ _.
      check_pin-Counts L E one true and_then λ _.
      derived_node-Counts L E one ed25519_keccak msg.address_n and_then λ node.
      Counts-use_key (Host.decrypt_for (L.nem_get_address key msg.network)) and_then λ _.
      or_fail-Counts L E one process_error (nem_decrypted L key payload node.0) and_then λ bytes.
      confirm-Counts L E one (
        Host.show_payload
          (take (L.nem_decrypted_size bytes (length payload - L.nem_salt_size - 16)) bytes))
      and_then λ _. Counts-reply one _
