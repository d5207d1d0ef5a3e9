-- ===== src/Fsm.antt =====
-- The handlers of messages, firmware/fsm.c (CRYPTOMEM=0, DEBUG_LINK=0), over Storage and Protect.
-- Here: what Initialize does, and the checks that handlers begin with. `Root` derives
-- keys, `Settings`, `Keys`, `Sign` and `Begin` have the handlers, `Dispatch` puts them together.
-- `Rules`, `Guarded` and `Answers` are about what holds whatever the host sends.
pub mod Path
pub mod Messages
pub mod Root
pub mod Settings
pub mod Keys
pub mod Sign
pub mod Begin
pub mod Dispatch
pub mod Rules
pub mod Guarded
pub mod Answers
pub mod Session
mod Tests
use safe_t_mcu.Prelude.{
  ℕ, Bool, true, false, not, ◌&&◌, List, [], ◌∷◌, Option, none, some, ◌==◌, if◌then◌else◌, length,
  text_eq,
}
use safe_t_mcu.Wire.{data2hex}
use safe_t_mcu.Storage.{State, session_clear}
use safe_t_mcu.Storage.Fields.{
  storage_has_pin, storage_has_passphrase_protection, storage_get_language, storage_get_label,
  storage_is_initialized, storage_is_imported, storage_needs_backup, storage_get_flags,
  session_is_pin_cached, session_is_passphrase_cached,
}
use safe_t_mcu.Storage.Load.{session_get_state}
use safe_t_mcu.Protect.{Tiny, nothing, Device, PinFailure, Attempt, protect_pin, protect_passphrase}
use safe_t_mcu.Protect
use safe_t_mcu.Reset.{ResetDevice}
use safe_t_mcu.Wallet.Library.{HdNode, CoinRow, Library, coin_by_name}
use safe_t_mcu.Host.{
  ◌>>=◌, ◌>>◌, Answer, Call, Event, Failure, Features, Identity, M, Outcome, Question,
  RecoveryDevice, Response, Stop, Success, World, aborted, action_cancelled, address, answer_ping,
  answer_to, ask, ask_with, asked, called, cancelled, change_homescreen, change_language,
  change_name, change_pin, check_seed, cipher, ciphered_key_value, confirmed, cosi, cosi_commitment,
  cosi_signature, data_error, decrypt_for, decrypt_identity, decrypted_message, derived,
  device_loaded, device_wiped, emit, ended, entropy, ethereum_address, ethereum_signature,
  ethereum_signing_init, ethereum_signing_txack, failure, features, flags_applied, halted,
  hand_over, is_confirmed, load_device, message_signature, message_verified, nem_address,
  next_entry, next_polls, not_initialized, pin_cancelled, pin_changed, pin_failure, pin_invalid,
  pin_mismatch, pin_removed, pong, process_error, public_key, pure, reads, recover_device,
  recovery_init, recovery_word, refused, remove_pin, reply, reset_backup, reset_entropy, reset_init,
  rest_of, returned, say, send_entropy, sent, session_cleared, session_key, set_pin,
  set_u2f_counter, settings_applied, show_address, show_key, show_payload, sign_ethereum,
  sign_identity, sign_message, signed_identity, signing_init, signing_txack, stopped, stores,
  success, u2f_counter_set, unexpected_message, use_passphrase, used_key, verify_address,
  verify_message, waiting, wipe_device, with_store, wrong_path,
}

-- `session_clear(false)` keeps the PIN. The session that the host names is resumed if it is this one.
abbrev pub resume : (List ℕ → List ℕ → List ℕ) → Option (List ℕ) → State → State
resume hmac none s = record s { session = session_clear false s.session }
resume hmac (some state) s =
    let cleared : State = record s { session = session_clear false s.session } in
    if length state == 64
    then elim (session_get_state hmac state s) [
      | none ↦ cleared
      | some i_state ↦ (if text_eq state i_state then s else cleared)
    ]
    else cleared

-- What `fsm_msgGetFeatures` says of the device.
unfoldable pub features_of : State → Features
features_of s = record {
  device_id = data2hex s.uuid;
  pin_protection = storage_has_pin s;
  passphrase_protection = storage_has_passphrase_protection s;
  language = storage_get_language s;
  label = storage_get_label s;
  initialized = storage_is_initialized s;
  imported = storage_is_imported s;
  pin_cached = session_is_pin_cached s;
  passphrase_cached = session_is_passphrase_cached s;
  needs_backup = storage_needs_backup s;
  flags = storage_get_flags s;
}

module _ (L : Library) where
  -- `fsm_msgInitialize`, for the state that the message names
  unfoldable pub fsm_msg_initialize : Option (List ℕ) → World → World
  unfolding say features_of
  fsm_msg_initialize state w =
      let store = resume L.hmac_sha256 state w.device.store in
      say (sent (features (features_of store)))
        (with_store store (record w { recovering = false; signing = false }))

  -- `fsm_sendFailure`: when Initialize ended a dialogue, that is what is answered.
  unfoldable pub fsm_send_failure : Failure → World → World
  unfolding fsm_msg_initialize say
  fsm_send_failure f w =
      if w.device.aborted_by_initialize
      then (let w1 = fsm_msg_initialize none w in
          record w1 { device = record (w1.device) { aborted_by_initialize = false } })
      else say (sent (failure f)) w

  unfoldable pub fail : {A : Type 0} → Failure → M A
  fail f w = stopped ended (fsm_send_failure f w)

  -- `CHECK_PARAM`
  unfoldable pub check : Bool → Failure → M (Unit {0})
  unfolding fail
  check ok f = if ok then pure tt else fail f

  -- `CHECK_INITIALIZED` and `CHECK_NOT_INITIALIZED`
  unfoldable pub check_initialized : M (Unit {0})
  check_initialized w =
      if storage_is_initialized w.device.store
      then returned tt w
      else stopped ended (fsm_send_failure not_initialized w)

  unfoldable pub check_not_initialized : M (Unit {0})
  check_not_initialized w =
      if storage_is_initialized w.device.store
      then stopped ended (fsm_send_failure unexpected_message w)
      else returned tt w

  -- What `protectPin` has sent goes the way of every failure.
  abbrev pub pin_failures : List PinFailure → World → World
  pin_failures [] w = w
  pin_failures (f ∷ fs) w = fsm_send_failure (pin_failure f) (pin_failures fs w)

  abbrev pub after_pin : World → Protect.Outcome → Outcome (Unit {0})
  after_pin w (Protect.returned true d) = returned tt (record w { device = d })
  after_pin w (Protect.returned false d) =
      stopped ended (pin_failures d.failures (record w { device = record d { failures = [] } }))
  after_pin w (Protect.wiped d) = stopped halted (record w { device = d })
  after_pin w Protect.waiting = stopped waiting w
  after_pin w Protect.lost = stopped halted w

  -- `CHECK_PIN`, or `CHECK_PIN_UNCACHED`
  unfoldable pub check_pin : Bool → M (Unit {0})
  check_pin use_cached w =
      after_pin (record w { entries = rest_of w.entries })
        (protect_pin L.compute_u2froot L.random_uuid use_cached (next_entry w.entries)
          (record (w.device) { failures = [] }))

  -- A question that the handler goes on from only if it is confirmed.
  unfoldable pub confirm : Question → M (Unit {0})
  unfolding ask fail
  confirm q = do ok ← ask q; if ok then pure tt else fail action_cancelled

  -- Questions that are asked under a condition.
  unfoldable pub confirm_if : Bool → Question → M (Unit {0})
  unfolding confirm
  confirm_if b q = if b then confirm q else pure tt

  abbrev pub after_passphrase : World → Option (Bool × Device) → Outcome Bool
  after_passphrase w none = stopped waiting w
  after_passphrase w (some (ok, d)) = returned ok (record w { device = d })

  -- `protectPassphrase`
  unfoldable pub passphrase : M Bool
  passphrase w =
      after_passphrase (record w { phrases = rest_of w.phrases })
        (protect_passphrase (next_polls w.phrases) w.device)

  abbrev pub syscoin : List ℕ
  syscoin = b'S' ∷ b'y' ∷ b's' ∷ b'c' ∷ b'o' ∷ b'i' ∷ b'n' ∷ []

  abbrev pub found : {A : Type 0} → Failure → Option A → M A
  found f none = fail f
  found f (some a) = pure a

  -- `fsm_getCoin`
  unfoldable pub fsm_get_coin : Option (List ℕ) → M CoinRow
  unfolding fail coin_by_name
  fsm_get_coin none = found data_error (coin_by_name syscoin L.coins)
  fsm_get_coin (some name) = found data_error (coin_by_name name L.coins)

  -- The loop of `fsm_layoutAddress`; `qrcode` says which of the two pictures is shown.
  abbrev pub layout_loop : Question → Bool → List Answer → World → Outcome (Unit {0})
  layout_loop q qrcode [] w = stopped waiting w
  layout_loop q qrcode (a ∷ answers) w =
      let w1 : World = record w {
        answers = answers;
        device = answer_to a w.device;
        log = asked q (is_confirmed a && not qrcode) ∷ w.log;
      } in
      let rest = layout_loop q (if is_confirmed a then qrcode else not qrcode) answers w1 in
      if is_confirmed a && not qrcode
      then returned tt w1
      else if w1.device.aborted_by_initialize
      then stopped ended (fsm_send_failure action_cancelled w1)
      else rest

  -- `fsm_layoutAddress`
  unfoldable pub fsm_layout_address : List ℕ → List ℕ → M (Unit {0})
  fsm_layout_address text path w = layout_loop (show_address text path) false w.answers w
