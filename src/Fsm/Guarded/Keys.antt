-- ===== src/Fsm/Guarded/Keys.antt =====
-- The handlers that hand out keys and addresses, and those that hand a message over, keep to the
-- rules.
use safe_t_mcu.Prelude.{
  ℕ, ◌+◌, ◌%◌, ◌^◌, refl, Bool, true, false, ◌&&◌, List, [], ◌∷◌, Option, none, some, ltb, leb,
}
use safe_t_mcu.Reset.{ResetDevice}
use safe_t_mcu.Wallet.Library.{Library}
use safe_t_mcu.Host
use safe_t_mcu.Host.{
  Identity, RecoveryDevice, World, M, Stop, ended, waiting, halted, Outcome, returned, stopped,
  Event, Question, pure, data_error, process_error, success,
}
use safe_t_mcu.Fsm.Root.{secp256k1}
use safe_t_mcu.Fsm.Rules.{
  Safe, ◌then_step◌, Does-if, Does-check, Does-check_initialized, Does-check_not_initialized,
  Does-check_pin,
}
use safe_t_mcu.Fsm.Rules.Dialogs.{
  Does-reply, Does-hand_over, Does-confirm_forget, Does-confirm_if_forget, Does-or_fail,
  Does-or_silent, Does-fsm_get_coin, Does-display_address,
}
use safe_t_mcu.Fsm.Rules.Derive.{Does-fsm_get_derived_node}
use safe_t_mcu.Fsm.Keys.{
  GetAddress, ed25519_keccak, curve_or, network_or_main, address_of, fsm_msg_get_public_key,
  fsm_msg_get_address, fsm_msg_ethereum_get_address, fsm_msg_nem_get_address,
}
use safe_t_mcu.Fsm.Path.{path_mismatched}
use safe_t_mcu.Fsm.Begin.{
  is_strength, is_word_count, fits, recovery_question, fsm_msg_reset_device, fsm_msg_backup_device,
  fsm_msg_sign_tx, fsm_msg_tx_ack, fsm_msg_ethereum_sign_tx, fsm_msg_recovery_device,
  fsm_msg_ethereum_tx_ack, fsm_msg_entropy_ack, fsm_msg_word_ack,
}
use safe_t_mcu.Fsm.Rules.Writes.{Does-check_pin_only}

module _ (L : Library) where
  pub get_public_key-Safe :
      (path : List ℕ) (coin_name curve_name : Option (List ℕ)) (show : Bool)
      → Safe (fsm_msg_get_public_key L path coin_name curve_name show)
  unfolding fsm_msg_get_public_key
  get_public_key-Safe path coin_name curve_name show = Does-check_initialized L then_step λ _.
      Does-check_pin L true then_step λ _. Does-fsm_get_coin L coin_name then_step λ coin.
      Does-fsm_get_derived_node L (curve_or curve_name coin.curve_name) path refl refl
      then_step λ node.
          Does-confirm_if_forget L show (Host.show_key (L.hdnode_fill_public_key node.0).public_key)
          then_step λ _. Does-reply _

  pub get_address-Safe : (msg : GetAddress) → Safe (fsm_msg_get_address L msg)
  unfolding fsm_msg_get_address
  get_address-Safe msg = Does-check_initialized L then_step λ _.
      Does-check_pin L true then_step λ _. Does-fsm_get_coin L msg.coin_name then_step λ coin.
      Does-fsm_get_derived_node L coin.curve_name msg.address_n refl refl then_step λ node.
      Does-or_fail L data_error (address_of L coin (L.hdnode_fill_public_key node.0) msg)
      then_step λ text.
          Does-confirm_if_forget L
            (msg.show_display && path_mismatched coin msg.script_type msg.address_n) Host.wrong_path
          then_step λ _.
              Does-display_address L msg.show_display text msg.address_n then_step λ _. Does-reply _

  pub ethereum_get_address-Safe :
      (path : List ℕ) (show : Bool) → Safe (fsm_msg_ethereum_get_address L path show)
  unfolding fsm_msg_ethereum_get_address
  ethereum_get_address-Safe path show = Does-check_initialized L then_step λ _.
      Does-check_pin L true then_step λ _.
      Does-fsm_get_derived_node L secp256k1 path refl refl then_step λ node.
      Does-or_silent L (L.hdnode_get_ethereum_pubkeyhash node.0) then_step λ hash.
      Does-display_address L show (b'0' ∷ b'x' ∷ L.ethereum_address_checksum hash) path
      then_step λ _. Does-reply _

  pub nem_get_address-Safe :
      (path : List ℕ) (network : Option ℕ) (show : Bool)
      → Safe (fsm_msg_nem_get_address L path network show)
  unfolding fsm_msg_nem_get_address
  nem_get_address-Safe path network show =
      Does-or_fail L data_error (L.nem_network_name (network_or_main L network)) then_step λ name.
      Does-check_initialized L then_step λ _. Does-check_pin L true then_step λ _.
      Does-fsm_get_derived_node L ed25519_keccak path refl refl then_step λ node.
      Does-or_silent L (L.hdnode_get_nem_address node.0 (network_or_main L network))
      then_step λ text. Does-display_address L show text path then_step λ _. Does-reply _

  pub reset_device-Safe :
      (strength : Option ℕ) (msg : ResetDevice) → Safe (fsm_msg_reset_device L strength msg)
  unfolding fsm_msg_reset_device
  reset_device-Safe strength msg = Does-check_not_initialized L then_step λ _.
      Does-check L (fits is_strength strength) data_error then_step λ _. Does-hand_over _

  pub backup_device-Safe : Safe (fsm_msg_backup_device L)
  unfolding fsm_msg_backup_device
  backup_device-Safe =
      Does-check_initialized L then_step λ _. Does-check_pin L false then_step λ _. Does-hand_over _

  pub sign_tx-Safe :
      (coin_name : Option (List ℕ)) (inputs outputs : ℕ)
      → Safe (fsm_msg_sign_tx L coin_name inputs outputs)
  unfolding fsm_msg_sign_tx
  sign_tx-Safe coin_name inputs outputs = Does-check_initialized L then_step λ _.
      Does-check L (ltb 0 inputs) data_error then_step λ _.
      Does-check L (ltb 0 outputs) data_error then_step λ _.
      Does-check L (leb inputs ((inputs + outputs) % 2 ^ 32)) data_error then_step λ _.
      Does-check_pin L true then_step λ _. Does-fsm_get_coin L coin_name then_step λ coin.
      Does-fsm_get_derived_node L coin.curve_name [] refl refl then_step λ node. Does-hand_over _

  pub tx_ack-Safe : (has_tx : Bool) → Safe (fsm_msg_tx_ack L has_tx)
  unfolding fsm_msg_tx_ack
  tx_ack-Safe has_tx = Does-check L has_tx data_error then_step λ _. Does-hand_over _

  pub ethereum_sign_tx-Safe : (path : List ℕ) → Safe (fsm_msg_ethereum_sign_tx L path)
  unfolding fsm_msg_ethereum_sign_tx
  ethereum_sign_tx-Safe path = Does-check_initialized L then_step λ _.
      Does-check_pin L true then_step λ _.
      Does-fsm_get_derived_node L secp256k1 path refl refl then_step λ node. Does-hand_over _

  pub recovery_device-Safe :
      (word_count : Option ℕ) (msg : RecoveryDevice)
      → Safe (fsm_msg_recovery_device L word_count msg)
  unfolding fsm_msg_recovery_device
  recovery_device-Safe word_count msg =
      Does-if msg.dry_run (Does-check_pin_only L true) (Does-check_not_initialized L) then_step λ _.
      Does-check L (fits is_word_count word_count) data_error then_step λ _.
      Does-confirm_forget L (recovery_question msg.dry_run) then_step λ _. Does-hand_over _

pub ethereum_tx_ack-Safe : Safe fsm_msg_ethereum_tx_ack
unfolding fsm_msg_ethereum_tx_ack
ethereum_tx_ack-Safe = Does-hand_over _

pub word_ack-Safe : Safe fsm_msg_word_ack
unfolding fsm_msg_word_ack
word_ack-Safe = Does-hand_over _

pub entropy_ack-Safe : (bytes : Option (List ℕ)) → Safe (fsm_msg_entropy_ack bytes)
unfolding fsm_msg_entropy_ack
entropy_ack-Safe none = Does-hand_over _
entropy_ack-Safe (some bytes) = Does-hand_over _
