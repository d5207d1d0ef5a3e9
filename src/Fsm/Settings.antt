-- ===== src/Fsm/Settings.antt =====
-- The handlers that change what is stored, and those that only ask, of firmware/fsm.c.
use safe_t_mcu.Prelude.{
  ℕ, Bool, true, false, ◌||◌, List, [], Option, none, some, ltb, if◌then◌else◌,
}
use safe_t_mcu.Storage.{State, session_clear}
use safe_t_mcu.Storage.Commit.{storage_update, storage_wipe}
use safe_t_mcu.Storage.Fields.{
  storage_has_pin, storage_set_pin, storage_set_label, storage_set_language,
  storage_set_passphrase_protection, storage_set_homescreen, storage_apply_flags,
}
use safe_t_mcu.Storage.U2f.{storage_set_u2f_counter}
use safe_t_mcu.Storage.Load.{LoadDevice, storage_load_device}
use safe_t_mcu.Protect.{Device, protect_change_pin}
use safe_t_mcu.Wallet.Library.{Library}
use safe_t_mcu.Host.{
  Question, answer_ping, remove_pin, change_pin, set_pin, wipe_device, send_entropy, load_device,
  change_homescreen, change_name, change_language, data_error, action_cancelled, pin_mismatch,
  pin_removed, pin_changed, device_wiped, device_loaded, session_cleared, settings_applied,
  flags_applied, u2f_counter_set, pong, features, success, entropy, World, ended, waiting, Outcome,
  returned, stopped, M, ◌>>=◌, ◌>>◌, pure, reads, stores, reply, rest_of, next_entry,
}
use safe_t_mcu.Fsm.{
  features_of, fsm_msg_initialize, fail, check, check_initialized, check_not_initialized, check_pin,
  confirm, confirm_if, passphrase,
}

-- An absent setting stays.
abbrev pub set_some : {A : Type 0} → Option A → (A → State → State) → State → State
set_some none f s = s
set_some (some a) f s = f a s

abbrev pub is_some : {A : Type 0} → Option A → Bool
is_some none = false
is_some (some a) = true

-- `ApplySettings`
pub record ApplySettings : Type 0 where
  pub label : Option (List ℕ)
  pub language : Option (List ℕ)
  pub use_passphrase : Option Bool
  pub homescreen : Option (List ℕ)

abbrev pub has_setting : ApplySettings → Bool
has_setting msg =
    is_some msg.label
    || (is_some msg.language || (is_some msg.use_passphrase || is_some msg.homescreen))

module _ (L : Library) where
  -- `fsm_msgPing`, for the three protections that the host asks for
  unfoldable pub fsm_msg_ping : Bool → Bool → Bool → Option (List ℕ) → M ⊥
  fsm_msg_ping button pin phrase message = do
    confirm_if L button answer_ping
    if pin then check_pin L true else pure tt
    ok ← if phrase then passphrase L else pure true
    check L ok action_cancelled
    reply (success (pong message))

  -- What precedes the question of `fsm_msgChangePin`: whether a PIN is removed, whether there is one.
  abbrev pub before_change : Bool → Bool → M (Unit {0})
  before_change true true = pure tt
  before_change true false = reply (success pin_removed)
  before_change false true = pure tt
  before_change false false = check_initialized L

  abbrev pub change_question : Bool → Bool → Question
  change_question true has = remove_pin
  change_question false true = change_pin
  change_question false false = set_pin

  abbrev pub after_change : World → Option (Bool × Option (List ℕ) × Device) → Outcome Bool
  after_change w none = stopped waiting w
  after_change w (some (ok, pin, d)) = returned ok (record w { device = d })

  -- `protectChangePin(NULL, 0)` takes two entries.
  unfoldable pub enter_new_pin : M Bool
  enter_new_pin w =
      after_change (record w { entries = rest_of (rest_of w.entries) })
        (protect_change_pin L.compute_u2froot L.random_uuid none (next_entry w.entries)
          (next_entry (rest_of w.entries)) w.device)

  abbrev pub remove_stored : State → State
  remove_stored s = storage_update L.compute_u2froot (storage_set_pin [] s)

  abbrev pub carry_out : Bool → M ⊥
  carry_out true = do stores remove_stored; reply (success pin_removed)
  carry_out false = do ok ← enter_new_pin; check L ok pin_mismatch; reply (success pin_changed)

  -- `fsm_msgChangePin`
  unfoldable pub fsm_msg_change_pin : Bool → M ⊥
  fsm_msg_change_pin removal = do
    has ← reads storage_has_pin
    before_change removal has
    confirm L (change_question removal has)
    check_pin L false
    carry_out removal

  -- `fsm_msgWipeDevice`
  unfoldable pub fsm_msg_wipe_device : M ⊥
  fsm_msg_wipe_device = do
    confirm L wipe_device
    stores (storage_wipe L.compute_u2froot L.random_uuid)
    reply (success device_wiped)

  -- `fsm_msgGetEntropy`
  unfoldable pub fsm_msg_get_entropy : ℕ → M ⊥
  fsm_msg_get_entropy size = do
    confirm L send_entropy
    reply (entropy (L.random_buffer (if ltb 1024 size then 1024 else size)))

  abbrev pub mnemonic_fits : LoadDevice → Option (List ℕ) → Bool
  mnemonic_fits msg none = true
  mnemonic_fits msg (some mnemonic) = msg.skip_checksum || L.mnemonic_check mnemonic

  -- `fsm_msgLoadDevice`
  unfoldable pub fsm_msg_load_device : LoadDevice → M ⊥
  fsm_msg_load_device msg = do
    check_not_initialized L
    confirm L load_device
    check L (mnemonic_fits msg msg.mnemonic) data_error
    stores (storage_load_device L.compute_u2froot msg)
    reply (success device_loaded)

  abbrev pub clear_session : State → State
  clear_session s = record s { session = session_clear true s.session }

  -- `fsm_msgClearSession`
  unfoldable pub fsm_msg_clear_session : M ⊥
  fsm_msg_clear_session = do stores clear_session; reply (success session_cleared)

  abbrev pub confirm_some : {A : Type 0} → (A → Question) → Option A → M (Unit {0})
  confirm_some q none = pure tt
  confirm_some q (some a) = confirm L (q a)

  abbrev pub homescreen_question : List ℕ → Question
  homescreen_question bytes = change_homescreen

  -- What `fsm_msgApplySettings` writes.
  unfoldable pub apply_settings : ApplySettings → State → State
  apply_settings msg s =
      let s1 = set_some msg.label (λ l. storage_set_label (some l)) s in
      let s2 = set_some msg.language (λ l. storage_set_language (some l)) s1 in
      let s3 = set_some msg.use_passphrase storage_set_passphrase_protection s2 in
      storage_update L.compute_u2froot
        (set_some msg.homescreen (λ h. storage_set_homescreen (some h)) s3)

  -- `fsm_msgApplySettings`
  unfoldable pub fsm_msg_apply_settings : ApplySettings → M ⊥
  fsm_msg_apply_settings msg = do
    check L (has_setting msg) data_error
    check_pin L true
    confirm_some change_name msg.label
    confirm_some change_language msg.language
    confirm_some Question.use_passphrase msg.use_passphrase
    confirm_some homescreen_question msg.homescreen
    stores (apply_settings msg)
    reply (success settings_applied)

  abbrev pub apply_flags : Option ℕ → State → State
  apply_flags none s = s
  apply_flags (some flags) s = storage_update L.compute_u2froot (storage_apply_flags flags s)

  -- `fsm_msgApplyFlags`
  unfoldable pub fsm_msg_apply_flags : Option ℕ → M ⊥
  fsm_msg_apply_flags flags = do stores (apply_flags flags); reply (success flags_applied)

  abbrev pub write_u2f_counter : ℕ → State → State
  write_u2f_counter n s = storage_update L.compute_u2froot (storage_set_u2f_counter n s)

  -- `fsm_msgSetU2FCounter`
  unfoldable pub fsm_msg_set_u2f_counter : ℕ → M ⊥
  fsm_msg_set_u2f_counter n = do
    confirm L Question.set_u2f_counter
    stores (write_u2f_counter n)
    reply (success u2f_counter_set)

  abbrev pub abort_all : World → World
  abort_all w = record w { recovering = false; signing = false; ethereum_signing = false }

  -- `fsm_msgCancel`
  unfoldable pub fsm_msg_cancel : M ⊥
  fsm_msg_cancel w = fail L action_cancelled (abort_all w)

  -- `fsm_msgInitialize` as a handler, and `fsm_msgGetFeatures`
  unfoldable pub handle_initialize : Option (List ℕ) → M ⊥
  handle_initialize state w = stopped ended (fsm_msg_initialize L state w)

  unfoldable pub fsm_msg_get_features : M ⊥
  fsm_msg_get_features = do f ← reads features_of; reply (features f)
