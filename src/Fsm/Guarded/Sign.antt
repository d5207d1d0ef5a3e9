-- ===== src/Fsm/Guarded/Sign.antt =====
-- The handlers that use a private key, and those that verify, keep to the rules.
use safe_t_mcu.Prelude.{
  ℕ, ◌-◌, ◌≡◌, ◌%◌, refl, Bool, true, false, ◌&&◌, List, [], ◌∷◌, Option, none, if◌then◌else◌, leb,
  ◌==◌, length, take,
}
use safe_t_mcu.Tx.Weight.{InputScriptType}
use safe_t_mcu.Tx.Address.{compute_address}
use safe_t_mcu.Wallet.Library.{Library}
use safe_t_mcu.Host
use safe_t_mcu.Host.{
  Identity, RecoveryDevice, World, M, Stop, ended, waiting, halted, Outcome, returned, stopped,
  Event, Question, pure, data_error, process_error, success,
}
use safe_t_mcu.Fsm.Root.{secp256k1}
use mathlib.Core.Path.{subst, sym}
use safe_t_mcu.Fsm.Sign.Verify.{fail_twice, ethereum_message_verify_lem}
use safe_t_mcu.Fsm.Messages.{
  ed25519, crypto_message_sign, crypto_message_verify, crypto_identity_fingerprint, identity_path,
  ethereum_signature_of, is_signed_by,
}
use safe_t_mcu.Fsm.Rules.{
  nothing_known, Safe, Facts, Does, ◌then_step◌, Does-if, Does-pure, Does-check,
  Does-check_initialized, Does-check_pin, Fine-of, Fine-send_failure,
}
use safe_t_mcu.Fsm.Rules.Dialogs.{
  add, Does-reply, Does-use_key, Does-confirm, Does-confirm_if, Does-confirm_forget, Does-or_fail,
  Does-or_silent, Does-fsm_get_coin,
}
use safe_t_mcu.Fsm.Rules.Derive.{Does-fsm_get_derived_node}
use safe_t_mcu.Fsm.Keys.{ed25519_keccak, curve_or}
use safe_t_mcu.Fsm.Sign.{
  CipherKeyValue, SignIdentity, identity_or_empty, asks_cipher, or_empty, is_given,
  challenge_signature, has_sizes, use_key, fsm_msg_sign_message, fsm_msg_verify_message,
  fsm_msg_sign_identity, fsm_msg_get_ecdh_session_key, fsm_msg_cipher_key_value,
  fsm_msg_ethereum_sign_message, fsm_msg_ethereum_verify_message,
}
use safe_t_mcu.Fsm.Sign.Ed25519.{
  NemDecryptMessage, nem_decrypted, fsm_msg_cosi_commit, fsm_msg_cosi_sign,
  fsm_msg_nem_decrypt_message,
}

module _ (L : Library) where
  pub sign_message-Safe :
      (coin_name : Option (List ℕ)) (path : List ℕ) (type : InputScriptType) (message : List ℕ)
      → Safe (fsm_msg_sign_message L coin_name path type message)
  unfolding fsm_msg_sign_message
  sign_message-Safe coin_name path type message = Does-check_initialized L then_step λ _.
      Does-confirm L (Host.sign_message message) then_step λ _. Does-check_pin L true then_step λ _.
      Does-fsm_get_coin L coin_name then_step λ coin.
      Does-fsm_get_derived_node L coin.curve_name path refl refl then_step λ node.
      Does-use_key (Host.sign_message message) refl then_step λ _.
      Does-or_fail L process_error (crypto_message_sign L coin node.0 type message)
      then_step λ signature.
          Does-or_fail L process_error (
            compute_address (L.wallet coin (L.hdnode_fill_public_key node.0)) coin.coin type
              (L.hdnode_fill_public_key node.0).public_key none)
          then_step λ text. Does-reply _

  pub verify_message-Safe :
      (coin_name text message : Option (List ℕ)) (signature : List ℕ)
      → Safe (fsm_msg_verify_message L coin_name text message signature)
  unfolding fsm_msg_verify_message
  verify_message-Safe coin_name text message signature =
      Does-check L (is_given text) data_error then_step λ _.
      Does-check L (is_given message) data_error then_step λ _.
      Does-fsm_get_coin L coin_name then_step λ coin.
      Does-check L
        (length signature == 65
          && crypto_message_verify L coin (or_empty message) (or_empty text) signature)
        data_error
      then_step λ _. Does-confirm_forget L (Host.verify_address (or_empty text)) then_step λ _.
          Does-confirm_forget L (Host.verify_message (or_empty message)) then_step λ _. Does-reply _

  pub sign_identity-Safe : (msg : SignIdentity) → Safe (fsm_msg_sign_identity L msg)
  unfolding fsm_msg_sign_identity
  sign_identity-Safe msg =
      let q = Host.sign_identity (identity_or_empty msg.identity) msg.challenge_visual in
      Does-check_initialized L then_step λ _. Does-confirm L q then_step λ _.
      Does-check_pin L true then_step λ _. Does-or_fail L data_error msg.identity then_step λ i.
      Does-fsm_get_derived_node L (curve_or msg.curve_name secp256k1)
        (identity_path 13 (crypto_identity_fingerprint L i)) refl refl
      then_step λ node. Does-use_key q refl then_step λ _.
          Does-or_fail L process_error (challenge_signature L node.0 i msg) then_step λ signature.
          Does-reply _

  pub get_ecdh_session_key-Safe :
      (identity : Option Identity) (peer : List ℕ) (curve_name : Option (List ℕ))
      → Safe (fsm_msg_get_ecdh_session_key L identity peer curve_name)
  unfolding fsm_msg_get_ecdh_session_key
  get_ecdh_session_key-Safe identity peer curve_name =
      let q = Host.decrypt_identity (identity_or_empty identity) in
      Does-check_initialized L then_step λ _. Does-confirm L q then_step λ _.
      Does-check_pin L true then_step λ _. Does-or_fail L data_error identity then_step λ i.
      Does-fsm_get_derived_node L (curve_or curve_name secp256k1)
        (identity_path 17 (crypto_identity_fingerprint L i)) refl refl
      then_step λ node. Does-use_key q refl then_step λ _.
          Does-or_fail L process_error (L.hdnode_get_shared_key node.0 peer) then_step λ key.
          Does-reply _

  -- The key is used for what was asked, where something is asked.
  use_if-Does :
      (f : Facts) (b : Bool) (q : Question)
      → f.confirmed ≡ []
      → Does
          (if b then add q f else f)
          (if b then use_key q else pure tt)
          (if b then add q f else f)
  use_if-Does f true q e = Does-use_key q (λ i. q ∷ e i)
  use_if-Does f false q e = Does-pure tt

  pub cipher_key_value-Safe : (msg : CipherKeyValue) → Safe (fsm_msg_cipher_key_value L msg)
  unfolding fsm_msg_cipher_key_value
  cipher_key_value-Safe msg =
      let q = Host.cipher msg.encrypt (or_empty msg.key) in
      Does-check_initialized L then_step λ _.
      Does-check L (is_given msg.key) data_error then_step λ _.
      Does-check L (is_given msg.value) data_error then_step λ _.
      Does-check L (length (or_empty msg.value) % 16 == 0) data_error then_step λ _.
      Does-check_pin L true then_step λ _.
      Does-fsm_get_derived_node L secp256k1 msg.address_n refl refl then_step λ node.
      Does-confirm_if L (asks_cipher msg) q then_step λ _.
      use_if-Does (record { init = true; unlocked = true; confirmed = [] }) (asks_cipher msg) q refl
      then_step λ _. Does-reply _

  pub ethereum_sign_message-Safe :
      (path message : List ℕ) → Safe (fsm_msg_ethereum_sign_message L path message)
  unfolding fsm_msg_ethereum_sign_message
  ethereum_sign_message-Safe path message = Does-check_initialized L then_step λ _.
      Does-confirm L (Host.sign_ethereum message) then_step λ _.
      Does-check_pin L true then_step λ _.
      Does-fsm_get_derived_node L secp256k1 path refl refl then_step λ node.
      Does-or_silent L (L.hdnode_get_ethereum_pubkeyhash node.0) then_step λ hash.
      Does-use_key (Host.sign_ethereum message) refl then_step λ _.
      Does-or_fail L process_error (ethereum_signature_of L node.0 message) then_step λ signature.
      Does-reply _

  fail_twice-Does : {f g : Facts} {A : Type 0} → Does f (fail_twice L {A = A}) g
  unfolding fail_twice
  fail_twice-Does = record {
    at = λ s0 w p. Fine-send_failure L data_error _ (Fine-send_failure L data_error w (Fine-of p));
  }

  pub ethereum_verify_message-Safe :
      (text message : Option (List ℕ)) (signature : List ℕ)
      → Safe (fsm_msg_ethereum_verify_message L text message signature)
  unfolding fsm_msg_ethereum_verify_message
  ethereum_verify_message-Safe text message signature =
      Does-check L (is_given text) data_error then_step λ _.
      Does-check L (is_given message) data_error then_step λ _.
      subst (λ m. Does nothing_known m nothing_known)
        (sym (ethereum_message_verify_lem L (or_empty text) signature (or_empty message) _))
        (Does-if (has_sizes L (or_empty text) signature) (Does-pure tt) fail_twice-Does
          then_step λ _.
              Does-check L (is_signed_by L (or_empty text) signature (or_empty message)) data_error
              then_step λ _.
                  Does-confirm_forget L (
                    Host.verify_address (b'0' ∷ b'x' ∷ L.ethereum_address_checksum (or_empty text)))
                  then_step λ _.
                      Does-confirm_forget L (Host.verify_message (or_empty message)) then_step λ _.
                      Does-reply _)

  pub cosi_commit-Safe :
      (path : List ℕ) (text : Option (List ℕ)) → Safe (fsm_msg_cosi_commit L path text)
  unfolding fsm_msg_cosi_commit
  cosi_commit-Safe path text =
      let q = Host.cosi path (or_empty text) false in
      Does-check_initialized L then_step λ _. Does-check L (is_given text) data_error then_step λ _.
      Does-confirm L q then_step λ _. Does-check_pin L true then_step λ _.
      Does-fsm_get_derived_node L ed25519 path refl refl then_step λ node.
      Does-use_key q refl then_step λ _. Does-reply _

  pub cosi_sign-Safe :
      (path : List ℕ) (text commitment key : Option (List ℕ))
      → Safe (fsm_msg_cosi_sign L path text commitment key)
  unfolding fsm_msg_cosi_sign
  cosi_sign-Safe path text commitment key =
      let q = Host.cosi path (or_empty text) true in
      Does-check_initialized L then_step λ _. Does-check L (is_given text) data_error then_step λ _.
      Does-check L (length (or_empty commitment) == 32) data_error then_step λ _.
      Does-check L (length (or_empty key) == 32) data_error then_step λ _.
      Does-confirm L q then_step λ _. Does-check_pin L true then_step λ _.
      Does-fsm_get_derived_node L ed25519 path refl refl then_step λ node.
      Does-use_key q refl then_step λ _. Does-reply _

  pub nem_decrypt_message-Safe :
      (msg : NemDecryptMessage) → Safe (fsm_msg_nem_decrypt_message L msg)
  unfolding fsm_msg_nem_decrypt_message
  nem_decrypt_message-Safe msg = Does-check_initialized L then_step λ _.
      Does-or_fail L data_error (L.nem_network_name msg.network) then_step λ name.
      Does-or_fail L data_error msg.payload then_step λ payload.
      Does-check L (leb L.nem_min_payload (length payload)) data_error then_step λ _.
      Does-or_fail L data_error msg.public_key then_step λ key.
      Does-check L (length key == 32) data_error then_step λ _.
      Does-confirm L (Host.decrypt_for (L.nem_get_address key msg.network)) then_step λ _.
      Does-check_pin L true then_step λ _.
      Does-fsm_get_derived_node L ed25519_keccak msg.address_n refl refl then_step λ node.
      Does-use_key (Host.decrypt_for (L.nem_get_address key msg.network)) refl then_step λ _.
      Does-or_fail L process_error (nem_decrypted L key payload node.0) then_step λ bytes.
      Does-confirm_forget L (
        Host.show_payload
          (take (L.nem_decrypted_size bytes (length payload - L.nem_salt_size - 16)) bytes))
      then_step λ _. Does-reply _
