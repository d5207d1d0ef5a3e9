-- ===== src/Fsm/Dispatch.antt =====
-- The messages that the host sends, and the handler of each (firmware/fsm.h). The signing of NEM
-- transactions is left out.
use safe_t_mcu.Prelude.{ℕ, Bool, List, Option}
use safe_t_mcu.Tx.Weight.{InputScriptType}
use safe_t_mcu.Storage.Load.{LoadDevice}
use safe_t_mcu.Reset.{ResetDevice}
use safe_t_mcu.Wallet.Library.{Library}
use safe_t_mcu.Host.{Identity, RecoveryDevice, M}
use safe_t_mcu.Fsm.Settings.{
  ApplySettings, fsm_msg_ping, fsm_msg_change_pin, fsm_msg_wipe_device, fsm_msg_get_entropy,
  fsm_msg_load_device, fsm_msg_clear_session, fsm_msg_apply_settings, fsm_msg_apply_flags,
  fsm_msg_set_u2f_counter, fsm_msg_cancel, handle_initialize, fsm_msg_get_features,
}
use safe_t_mcu.Fsm.Keys.{
  GetAddress, fsm_msg_get_public_key, fsm_msg_get_address, fsm_msg_ethereum_get_address,
  fsm_msg_nem_get_address,
}
use safe_t_mcu.Fsm.Sign.{
  CipherKeyValue, SignIdentity, fsm_msg_sign_message, fsm_msg_verify_message, fsm_msg_sign_identity,
  fsm_msg_get_ecdh_session_key, fsm_msg_cipher_key_value, fsm_msg_ethereum_sign_message,
  fsm_msg_ethereum_verify_message,
}
use safe_t_mcu.Fsm.Sign.Ed25519.{
  NemDecryptMessage, fsm_msg_cosi_commit, fsm_msg_cosi_sign, fsm_msg_nem_decrypt_message,
}
use safe_t_mcu.Fsm.Begin.{
  fsm_msg_reset_device, fsm_msg_backup_device, fsm_msg_sign_tx, fsm_msg_tx_ack,
  fsm_msg_ethereum_sign_tx, fsm_msg_recovery_device, fsm_msg_ethereum_tx_ack, fsm_msg_entropy_ack,
  fsm_msg_word_ack,
}

pub data Request : Type 0 where
  initialize : Option (List ℕ) → Request
  get_features cancel clear_session wipe_device backup_device : Request
  ethereum_tx_ack word_ack : Request
  ping : Bool → Bool → Bool → Option (List ℕ) → Request
  change_pin tx_ack : Bool → Request
  get_entropy set_u2f_counter : ℕ → Request
  load_device : LoadDevice → Request
  apply_settings : ApplySettings → Request
  apply_flags : Option ℕ → Request
  get_public_key : List ℕ → Option (List ℕ) → Option (List ℕ) → Bool → Request
  get_address : GetAddress → Request
  ethereum_get_address : List ℕ → Bool → Request
  nem_get_address : List ℕ → Option ℕ → Bool → Request
  sign_message : Option (List ℕ) → List ℕ → InputScriptType → List ℕ → Request
  verify_message : Option (List ℕ) → Option (List ℕ) → Option (List ℕ) → List ℕ → Request
  sign_identity : SignIdentity → Request
  get_ecdh_session_key : Option Identity → List ℕ → Option (List ℕ) → Request
  cipher_key_value : CipherKeyValue → Request
  ethereum_sign_message : List ℕ → List ℕ → Request
  ethereum_verify_message : Option (List ℕ) → Option (List ℕ) → List ℕ → Request
  cosi_commit : List ℕ → Option (List ℕ) → Request
  cosi_sign : List ℕ → Option (List ℕ) → Option (List ℕ) → Option (List ℕ) → Request
  nem_decrypt_message : NemDecryptMessage → Request
  reset_device : Option ℕ → ResetDevice → Request
  sign_tx : Option (List ℕ) → ℕ → ℕ → Request
  ethereum_sign_tx : List ℕ → Request
  recovery_device : Option ℕ → RecoveryDevice → Request
  entropy_ack : Option (List ℕ) → Request

-- The handler that the table of messages has for a request. What goes to Signing, Reset, Recovery or
-- Ethereum is logged as handed over; what happens to it there is not part of `handle`.
abbrev pub handle : Library → Request → M ⊥
handle L (initialize state) = handle_initialize L state
handle L get_features = fsm_msg_get_features L
handle L cancel = fsm_msg_cancel L
handle L clear_session = fsm_msg_clear_session L
handle L wipe_device = fsm_msg_wipe_device L
handle L backup_device = fsm_msg_backup_device L
handle L ethereum_tx_ack = fsm_msg_ethereum_tx_ack
handle L word_ack = fsm_msg_word_ack
handle L (ping button pin phrase message) = fsm_msg_ping L button pin phrase message
handle L (change_pin removal) = fsm_msg_change_pin L removal
handle L (tx_ack has_tx) = fsm_msg_tx_ack L has_tx
handle L (get_entropy size) = fsm_msg_get_entropy L size
handle L (set_u2f_counter n) = fsm_msg_set_u2f_counter L n
handle L (load_device msg) = fsm_msg_load_device L msg
handle L (apply_settings msg) = fsm_msg_apply_settings L msg
handle L (apply_flags flags) = fsm_msg_apply_flags L flags
handle L (get_public_key path coin curve show) = fsm_msg_get_public_key L path coin curve show
handle L (get_address msg) = fsm_msg_get_address L msg
handle L (ethereum_get_address path show) = fsm_msg_ethereum_get_address L path show
handle L (nem_get_address path network show) = fsm_msg_nem_get_address L path network show
handle L (sign_message coin path type text) = fsm_msg_sign_message L coin path type text
handle L (verify_message coin who text signature) = fsm_msg_verify_message L coin who text signature
handle L (sign_identity msg) = fsm_msg_sign_identity L msg
handle L (get_ecdh_session_key i peer curve) = fsm_msg_get_ecdh_session_key L i peer curve
handle L (cipher_key_value msg) = fsm_msg_cipher_key_value L msg
handle L (ethereum_sign_message path text) = fsm_msg_ethereum_sign_message L path text
handle L (ethereum_verify_message who text signature) =
    fsm_msg_ethereum_verify_message L who text signature
handle L (cosi_commit path text) = fsm_msg_cosi_commit L path text
handle L (cosi_sign path text commitment key) = fsm_msg_cosi_sign L path text commitment key
handle L (nem_decrypt_message msg) = fsm_msg_nem_decrypt_message L msg
handle L (reset_device strength msg) = fsm_msg_reset_device L strength msg
handle L (sign_tx coin inputs outputs) = fsm_msg_sign_tx L coin inputs outputs
handle L (ethereum_sign_tx path) = fsm_msg_ethereum_sign_tx L path
handle L (recovery_device words msg) = fsm_msg_recovery_device L words msg
handle L (entropy_ack bytes) = fsm_msg_entropy_ack bytes
