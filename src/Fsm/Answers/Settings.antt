-- ===== src/Fsm/Answers/Settings.antt =====
-- The handlers that change what is stored.
use safe_t_mcu.Prelude.{ℕ, refl, Bool, true, false, List, Option, none, some}
use safe_t_mcu.Wallet.Library.{Library}
use safe_t_mcu.Host
use safe_t_mcu.Fsm
use safe_t_mcu.Host.{
  Identity, RecoveryDevice, World, M, Stop, ended, waiting, halted, Outcome, returned, stopped,
  Event, Question, pure, data_error, process_error, success,
}
use safe_t_mcu.Storage.Commit.{storage_wipe}
use safe_t_mcu.Storage.Fields.{storage_has_pin}
use safe_t_mcu.Storage.Load.{LoadDevice, storage_load_device}
use safe_t_mcu.Fsm.Settings.{
  ApplySettings, fsm_msg_ping, fsm_msg_change_pin, fsm_msg_wipe_device, fsm_msg_get_entropy,
  fsm_msg_load_device, fsm_msg_clear_session, fsm_msg_apply_settings, fsm_msg_apply_flags,
  fsm_msg_set_u2f_counter, fsm_msg_cancel, handle_initialize, fsm_msg_get_features, before_change,
  change_question, confirm_some, has_setting, apply_settings, apply_flags, mnemonic_fits, abort_all,
  clear_session, homescreen_question, write_u2f_counter, carry_out, remove_stored,
}
use safe_t_mcu.Fsm.Answers.{
  Counts, ◌and_then◌, Counts-if, Counts-pure, Counts-reads, Counts-stores, Counts-reply,
}
use safe_t_mcu.Fsm.Answers.Steps.{
  check-Counts, check_initialized-Counts, check_not_initialized-Counts, check_pin-Counts,
  confirm-Counts, confirm_if-Counts, passphrase-Counts, enter_new_pin-Counts, answers-send_failure,
}

module _ (L : Library) (E : ℕ → Type 0) (one : E 1) where
  pub ping-Counts :
      (button pin phrase : Bool) (message : Option (List ℕ))
      → Counts E (fsm_msg_ping L button pin phrase message)
  unfolding fsm_msg_ping
  ping-Counts button pin phrase message =
      confirm_if-Counts L E one button Host.answer_ping and_then λ _.
      Counts-if pin (check_pin-Counts L E one true) (Counts-pure tt) and_then λ _.
      Counts-if phrase (passphrase-Counts L E one) (Counts-pure true) and_then λ ok.
      check-Counts L E one ok Host.action_cancelled and_then λ _.
      Counts-reply one (success (Host.pong message))

  before_change-Counts : (removal has : Bool) → Counts E (before_change L removal has)
  before_change-Counts true true = Counts-pure tt
  before_change-Counts true false = Counts-reply one (success Host.pin_removed)
  before_change-Counts false true = Counts-pure tt
  before_change-Counts false false = check_initialized-Counts L E one

  carry_out-Counts : (removal : Bool) → Counts E (carry_out L removal)
  carry_out-Counts true =
      Counts-stores (remove_stored L) and_then λ _. Counts-reply one (success Host.pin_removed)
  carry_out-Counts false = enter_new_pin-Counts L E one and_then λ ok.
      check-Counts L E one ok Host.pin_mismatch and_then λ _.
      Counts-reply one (success Host.pin_changed)

  pub change_pin-Counts : (removal : Bool) → Counts E (fsm_msg_change_pin L removal)
  unfolding fsm_msg_change_pin
  change_pin-Counts removal = Counts-reads storage_has_pin and_then λ has.
      before_change-Counts removal has and_then λ _.
      confirm-Counts L E one (change_question L removal has) and_then λ _.
      check_pin-Counts L E one false and_then λ _. carry_out-Counts removal

  pub wipe_device-Counts : Counts E (fsm_msg_wipe_device L)
  unfolding fsm_msg_wipe_device
  wipe_device-Counts = confirm-Counts L E one Host.wipe_device and_then λ _.
      Counts-stores (storage_wipe L.compute_u2froot L.random_uuid) and_then λ _.
      Counts-reply one (success Host.device_wiped)

  pub get_entropy-Counts : (size : ℕ) → Counts E (fsm_msg_get_entropy L size)
  unfolding fsm_msg_get_entropy
  get_entropy-Counts size =
      confirm-Counts L E one Host.send_entropy and_then λ _. Counts-reply one _

  pub load_device-Counts : (msg : LoadDevice) → Counts E (fsm_msg_load_device L msg)
  unfolding fsm_msg_load_device
  load_device-Counts msg = check_not_initialized-Counts L E one and_then λ _.
      confirm-Counts L E one Host.load_device and_then λ _.
      check-Counts L E one (mnemonic_fits L msg msg.mnemonic) data_error and_then λ _.
      Counts-stores (storage_load_device L.compute_u2froot msg) and_then λ _.
      Counts-reply one (success Host.device_loaded)

  pub clear_session-Counts : Counts E (fsm_msg_clear_session L)
  unfolding fsm_msg_clear_session
  clear_session-Counts =
      Counts-stores (clear_session L) and_then λ _. Counts-reply one (success Host.session_cleared)

  confirm_some-Counts :
      {A : Type 0} (q : A → Question) (o : Option A) → Counts E (confirm_some L q o)
  confirm_some-Counts q none = Counts-pure tt
  confirm_some-Counts q (some a) = confirm-Counts L E one (q a)

  pub apply_settings-Counts : (msg : ApplySettings) → Counts E (fsm_msg_apply_settings L msg)
  unfolding fsm_msg_apply_settings
  apply_settings-Counts msg = check-Counts L E one (has_setting msg) data_error and_then λ _.
      check_pin-Counts L E one true and_then λ _.
      confirm_some-Counts Host.change_name msg.label and_then λ _.
      confirm_some-Counts Host.change_language msg.language and_then λ _.
      confirm_some-Counts Question.use_passphrase msg.use_passphrase and_then λ _.
      confirm_some-Counts (homescreen_question L) msg.homescreen and_then λ _.
      Counts-stores (apply_settings L msg) and_then λ _.
      Counts-reply one (success Host.settings_applied)

  pub apply_flags-Counts : (flags : Option ℕ) → Counts E (fsm_msg_apply_flags L flags)
  unfolding fsm_msg_apply_flags
  apply_flags-Counts flags = Counts-stores (apply_flags L flags) and_then λ _.
      Counts-reply one (success Host.flags_applied)

  pub set_u2f_counter-Counts : (n : ℕ) → Counts E (fsm_msg_set_u2f_counter L n)
  unfolding fsm_msg_set_u2f_counter
  set_u2f_counter-Counts n = confirm-Counts L E one Question.set_u2f_counter and_then λ _.
      Counts-stores (write_u2f_counter L n) and_then λ _.
      Counts-reply one (success Fsm.u2f_counter_set)

  pub cancel-Counts : Counts E (fsm_msg_cancel L)
  unfolding fsm_msg_cancel Fsm.fail
  cancel-Counts = record {
    at = λ w. (1, one, answers-send_failure L E one Host.action_cancelled (abort_all L w));
  }

  pub initialize-Counts : (state : Option (List ℕ)) → Counts E (handle_initialize L state)
  unfolding handle_initialize Fsm.fsm_msg_initialize Host.say
  initialize-Counts state = record { at = λ w. (1, one, refl) }

  pub get_features-Counts : Counts E (fsm_msg_get_features L)
  unfolding fsm_msg_get_features
  get_features-Counts =
      Counts-reads Fsm.features_of and_then λ f. Counts-reply one (Host.features f)
