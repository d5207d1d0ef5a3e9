-- ===== src/Fsm/Guarded/Settings.antt =====
-- The handlers that change what is stored keep to the rules.
use safe_t_mcu.Prelude.{ℕ, ◌≡◌, refl, Bool, true, false, inr, List, Option, none, some}
use safe_t_mcu.Storage.{State, zero_storage}
use safe_t_mcu.Wallet.Library.{Library}
use safe_t_mcu.Host
use safe_t_mcu.Fsm
use safe_t_mcu.Host.{
  Identity, RecoveryDevice, World, M, Stop, ended, waiting, halted, Outcome, returned, stopped,
  Event, Question, pure, data_error, process_error, success,
}
use safe_t_mcu.Fsm.Rules.{
  Safe, Facts, Does, ◌then_step◌, Does-if, Does-pure, Does-reads, Does-check,
  Does-check_not_initialized, Does-check_pin, Fine-of, Fine-send_failure, Fine-initialize,
}
use safe_t_mcu.Fsm.Rules.Dialogs.{
  Does-reply, Does-confirm, Does-confirm_forget, Does-confirm_if_forget, Does-passphrase,
}
use safe_t_mcu.Storage.Commit.{
  storage_wipe, storage_update, storage_commit_locked, storage_clear_pin_area,
}
use safe_t_mcu.Storage.Fields.{storage_has_pin}
use safe_t_mcu.Storage.Load.{LoadDevice, storage_load_device}
use safe_t_mcu.Fsm.Settings.{
  ApplySettings, fsm_msg_ping, fsm_msg_change_pin, fsm_msg_wipe_device, fsm_msg_get_entropy,
  fsm_msg_load_device, fsm_msg_clear_session, fsm_msg_apply_settings, fsm_msg_apply_flags,
  fsm_msg_set_u2f_counter, fsm_msg_cancel, handle_initialize, fsm_msg_get_features, before_change,
  change_question, confirm_some, has_setting, apply_settings, apply_flags, mnemonic_fits, abort_all,
  clear_session, homescreen_question, write_u2f_counter,
}
use safe_t_mcu.Fsm.Rules.Writes.{
  Does-write_confirmed, Does-write, Does-check_pin_only, Does-check_initialized_only,
  Does-carry_out,
}
use safe_t_mcu.Fsm.Rules.Secrets.{apply_flags-Kept, apply_settings-Kept}

module _ (L : Library) where
  wiped_settled :
      (s : State) → (storage_wipe L.compute_u2froot L.random_uuid s).update ≡ zero_storage
  unfolding storage_wipe storage_commit_locked storage_clear_pin_area
  wiped_settled s = refl

  loaded_settled :
      (msg : LoadDevice) (s : State)
      → (storage_load_device L.compute_u2froot msg s).update ≡ zero_storage
  unfolding storage_load_device storage_update storage_commit_locked
  loaded_settled msg s = refl

  counter_settled : (n : ℕ) (s : State) → (write_u2f_counter L n s).update ≡ zero_storage
  unfolding storage_update storage_commit_locked
  counter_settled n s = refl

  pub ping-Safe :
      (button pin phrase : Bool) (message : Option (List ℕ))
      → Safe (fsm_msg_ping L button pin phrase message)
  unfolding fsm_msg_ping
  ping-Safe button pin phrase message =
      Does-confirm_if_forget L button Host.answer_ping then_step λ _.
      Does-if pin (Does-check_pin_only L true) (Does-pure tt) then_step λ _.
      Does-if phrase (Does-passphrase L) (Does-pure true) then_step λ ok.
      Does-check L ok Host.action_cancelled then_step λ _. Does-reply (success (Host.pong message))

  before_change-Does : {f : Facts} (removal has : Bool) → Does f (before_change L removal has) f
  before_change-Does true true = Does-pure tt
  before_change-Does true false = Does-reply (success Host.pin_removed)
  before_change-Does false true = Does-pure tt
  before_change-Does false false = Does-check_initialized_only L

  pub change_pin-Safe : (removal : Bool) → Safe (fsm_msg_change_pin L removal)
  unfolding fsm_msg_change_pin
  change_pin-Safe removal = Does-reads storage_has_pin then_step λ has.
      before_change-Does removal has then_step λ _.
      Does-confirm L (change_question L removal has) then_step λ _.
      Does-check_pin L false then_step λ _.
      Does-carry_out L (change_question L removal has) removal refl

  pub wipe_device-Safe : Safe (fsm_msg_wipe_device L)
  unfolding fsm_msg_wipe_device
  wipe_device-Safe = Does-confirm L Host.wipe_device then_step λ _.
      Does-write_confirmed Host.wipe_device (storage_wipe L.compute_u2froot L.random_uuid)
        (success Host.device_wiped) refl wiped_settled

  pub get_entropy-Safe : (size : ℕ) → Safe (fsm_msg_get_entropy L size)
  unfolding fsm_msg_get_entropy
  get_entropy-Safe size = Does-confirm L Host.send_entropy then_step λ _. Does-reply _

  pub load_device-Safe : (msg : LoadDevice) → Safe (fsm_msg_load_device L msg)
  unfolding fsm_msg_load_device
  load_device-Safe msg = Does-check_not_initialized L then_step λ _.
      Does-confirm L Host.load_device then_step λ _.
      Does-check L (mnemonic_fits L msg msg.mnemonic) data_error then_step λ _.
      Does-write_confirmed Host.load_device (storage_load_device L.compute_u2froot msg)
        (success Host.device_loaded) refl (loaded_settled msg)

  pub clear_session-Safe : Safe (fsm_msg_clear_session L)
  unfolding fsm_msg_clear_session
  clear_session-Safe =
      Does-write (clear_session L) (success Host.session_cleared)
        (λ s0 s k. record { same = k.same; settled = k.settled })

  confirm_some-Does :
      {f : Facts} {A : Type 0} (q : A → Question) (o : Option A) → Does f (confirm_some L q o) f
  confirm_some-Does q none = Does-pure tt
  confirm_some-Does q (some a) = Does-confirm_forget L (q a)

  pub apply_settings-Safe : (msg : ApplySettings) → Safe (fsm_msg_apply_settings L msg)
  unfolding fsm_msg_apply_settings
  apply_settings-Safe msg = Does-check L (has_setting msg) data_error then_step λ _.
      Does-check_pin_only L true then_step λ _.
      confirm_some-Does Host.change_name msg.label then_step λ _.
      confirm_some-Does Host.change_language msg.language then_step λ _.
      confirm_some-Does Question.use_passphrase msg.use_passphrase then_step λ _.
      confirm_some-Does (homescreen_question L) msg.homescreen then_step λ _.
      Does-write (apply_settings L msg) (success Host.settings_applied) (apply_settings-Kept L msg)

  pub apply_flags-Safe : (flags : Option ℕ) → Safe (fsm_msg_apply_flags L flags)
  unfolding fsm_msg_apply_flags
  apply_flags-Safe flags =
      Does-write (apply_flags L flags) (success Host.flags_applied) (apply_flags-Kept L flags)

  pub set_u2f_counter-Safe : (n : ℕ) → Safe (fsm_msg_set_u2f_counter L n)
  unfolding fsm_msg_set_u2f_counter
  set_u2f_counter-Safe n = Does-confirm L Question.set_u2f_counter then_step λ _.
      Does-write_confirmed Question.set_u2f_counter (write_u2f_counter L n)
        (success Fsm.u2f_counter_set) refl (counter_settled n)

  pub cancel-Safe : Safe (fsm_msg_cancel L)
  unfolding fsm_msg_cancel Fsm.fail
  cancel-Safe = record {
    at = λ s0 w p.
        Fine-send_failure L Host.action_cancelled (abort_all L w)
          (record { guarded = p.guarded; kept = inr p.kept.same; settled = p.kept.settled });
  }

  pub initialize-Safe : (state : Option (List ℕ)) → Safe (handle_initialize L state)
  unfolding handle_initialize
  initialize-Safe state = record { at = λ s0 w p. Fine-initialize L state w (Fine-of p) }

  pub get_features-Safe : Safe (fsm_msg_get_features L)
  unfolding fsm_msg_get_features
  get_features-Safe = Does-reads Fsm.features_of then_step λ f. Does-reply (Host.features f)
