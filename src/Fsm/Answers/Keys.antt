-- ===== src/Fsm/Answers/Keys.antt =====
-- The handlers that hand out keys and addresses, and those that hand a message over.
use safe_t_mcu.Prelude.{
  ℕ, ◌+◌, ◌%◌, ◌^◌, Bool, true, false, ◌&&◌, List, [], ◌∷◌, Option, none, some, ltb, leb,
}
use safe_t_mcu.Reset.{ResetDevice}
use safe_t_mcu.Wallet.Library.{Library}
use safe_t_mcu.Host
use safe_t_mcu.Host.{
  Identity, RecoveryDevice, World, M, Stop, ended, waiting, halted, Outcome, returned, stopped,
  Event, Question, pure, data_error, process_error, success,
}
use safe_t_mcu.Fsm.Root.{secp256k1}
use safe_t_mcu.Fsm.Keys.{
  GetAddress, ed25519_keccak, curve_or, network_or_main, address_of, fsm_msg_get_public_key,
  fsm_msg_get_address, fsm_msg_ethereum_get_address, fsm_msg_nem_get_address,
}
use safe_t_mcu.Fsm.Path.{path_mismatched}
use safe_t_mcu.Fsm.Begin.{
  is_strength, is_word_count, fits, recovery_question, fsm_msg_reset_device, fsm_msg_backup_device,
  fsm_msg_sign_tx, fsm_msg_tx_ack, fsm_msg_ethereum_sign_tx, fsm_msg_recovery_device,
  fsm_msg_ethereum_tx_ack, fsm_msg_entropy_ack, fsm_msg_word_ack,
}
use safe_t_mcu.Fsm.Answers.{Counts, ◌and_then◌, Counts-if, Counts-reply, Counts-hand_over}
use safe_t_mcu.Fsm.Answers.Steps.{
  check-Counts, check_initialized-Counts, check_not_initialized-Counts, check_pin-Counts,
  confirm-Counts, confirm_if-Counts, or_fail-Counts, fsm_get_coin-Counts, display_address-Counts,
  derived_node-Counts, or_silent-Counts,
}

module _ (L : Library) (E : ℕ → Type 0) (one : E 1) where
  pub get_public_key-Counts :
      (path : List ℕ) (coin_name curve_name : Option (List ℕ)) (show : Bool)
      → Counts E (fsm_msg_get_public_key L path coin_name curve_name show)
  unfolding fsm_msg_get_public_key
  get_public_key-Counts path coin_name curve_name show =
      check_initialized-Counts L E one and_then λ _. check_pin-Counts L E one true and_then λ _.
      fsm_get_coin-Counts L E one coin_name and_then λ coin.
      derived_node-Counts L E one (curve_or curve_name coin.curve_name) path and_then λ node.
      confirm_if-Counts L E one show (Host.show_key (L.hdnode_fill_public_key node.0).public_key)
      and_then λ _. Counts-reply one _

  pub get_address-Counts : (msg : GetAddress) → Counts E (fsm_msg_get_address L msg)
  unfolding fsm_msg_get_address
  get_address-Counts msg = check_initialized-Counts L E one and_then λ _.
      check_pin-Counts L E one true and_then λ _.
      fsm_get_coin-Counts L E one msg.coin_name and_then λ coin.
      derived_node-Counts L E one coin.curve_name msg.address_n and_then λ node.
      or_fail-Counts L E one data_error (address_of L coin (L.hdnode_fill_public_key node.0) msg)
      and_then λ text.
          confirm_if-Counts L E one
            (msg.show_display && path_mismatched coin msg.script_type msg.address_n) Host.wrong_path
          and_then λ _.
              display_address-Counts L E one msg.show_display text msg.address_n and_then λ _.
              Counts-reply one _

  pub ethereum_get_address-Counts :
      (nothing_sent : E 0) (path : List ℕ) (show : Bool)
      → Counts E (fsm_msg_ethereum_get_address L path show)
  unfolding fsm_msg_ethereum_get_address
  ethereum_get_address-Counts nothing_sent path show =
      check_initialized-Counts L E one and_then λ _. check_pin-Counts L E one true and_then λ _.
      derived_node-Counts L E one secp256k1 path and_then λ node.
      or_silent-Counts L E nothing_sent (L.hdnode_get_ethereum_pubkeyhash node.0) and_then λ hash.
      display_address-Counts L E one show (b'0' ∷ b'x' ∷ L.ethereum_address_checksum hash) path
      and_then λ _. Counts-reply one _

  pub nem_get_address-Counts :
      (nothing_sent : E 0) (path : List ℕ) (network : Option ℕ) (show : Bool)
      → Counts E (fsm_msg_nem_get_address L path network show)
  unfolding fsm_msg_nem_get_address
  nem_get_address-Counts nothing_sent path network show =
      or_fail-Counts L E one data_error (L.nem_network_name (network_or_main L network))
      and_then λ name. check_initialized-Counts L E one and_then λ _.
          check_pin-Counts L E one true and_then λ _.
          derived_node-Counts L E one ed25519_keccak path and_then λ node.
          or_silent-Counts L E nothing_sent
            (L.hdnode_get_nem_address node.0 (network_or_main L network))
          and_then λ text.
              display_address-Counts L E one show text path and_then λ _. Counts-reply one _

  pub reset_device-Counts :
      (strength : Option ℕ) (msg : ResetDevice) → Counts E (fsm_msg_reset_device L strength msg)
  unfolding fsm_msg_reset_device
  reset_device-Counts strength msg = check_not_initialized-Counts L E one and_then λ _.
      check-Counts L E one (fits is_strength strength) data_error and_then λ _.
      Counts-hand_over one _

  pub backup_device-Counts : Counts E (fsm_msg_backup_device L)
  unfolding fsm_msg_backup_device
  backup_device-Counts = check_initialized-Counts L E one and_then λ _.
      check_pin-Counts L E one false and_then λ _. Counts-hand_over one _

  pub sign_tx-Counts :
      (coin_name : Option (List ℕ)) (inputs outputs : ℕ)
      → Counts E (fsm_msg_sign_tx L coin_name inputs outputs)
  unfolding fsm_msg_sign_tx
  sign_tx-Counts coin_name inputs outputs = check_initialized-Counts L E one and_then λ _.
      check-Counts L E one (ltb 0 inputs) data_error and_then λ _.
      check-Counts L E one (ltb 0 outputs) data_error and_then λ _.
      check-Counts L E one (leb inputs ((inputs + outputs) % 2 ^ 32)) data_error and_then λ _.
      check_pin-Counts L E one true and_then λ _.
      fsm_get_coin-Counts L E one coin_name and_then λ coin.
      derived_node-Counts L E one coin.curve_name [] and_then λ node. Counts-hand_over one _

  pub tx_ack-Counts : (has_tx : Bool) → Counts E (fsm_msg_tx_ack L has_tx)
  unfolding fsm_msg_tx_ack
  tx_ack-Counts has_tx = check-Counts L E one has_tx data_error and_then λ _. Counts-hand_over one _

  pub ethereum_sign_tx-Counts : (path : List ℕ) → Counts E (fsm_msg_ethereum_sign_tx L path)
  unfolding fsm_msg_ethereum_sign_tx
  ethereum_sign_tx-Counts path = check_initialized-Counts L E one and_then λ _.
      check_pin-Counts L E one true and_then λ _.
      derived_node-Counts L E one secp256k1 path and_then λ node. Counts-hand_over one _

  pub recovery_device-Counts :
      (word_count : Option ℕ) (msg : RecoveryDevice)
      → Counts E (fsm_msg_recovery_device L word_count msg)
  unfolding fsm_msg_recovery_device
  recovery_device-Counts word_count msg =
      Counts-if msg.dry_run (check_pin-Counts L E one true) (check_not_initialized-Counts L E one)
      and_then λ _. check-Counts L E one (fits is_word_count word_count) data_error and_then λ _.
          confirm-Counts L E one (recovery_question msg.dry_run) and_then λ _.
          Counts-hand_over one _

module _ (E : ℕ → Type 0) (one : E 1) where
  pub ethereum_tx_ack-Counts : Counts E fsm_msg_ethereum_tx_ack
  unfolding fsm_msg_ethereum_tx_ack
  ethereum_tx_ack-Counts = Counts-hand_over one _

  pub word_ack-Counts : Counts E fsm_msg_word_ack
  unfolding fsm_msg_word_ack
  word_ack-Counts = Counts-hand_over one _

  pub entropy_ack-Counts : (bytes : Option (List ℕ)) → Counts E (fsm_msg_entropy_ack bytes)
  unfolding fsm_msg_entropy_ack
  entropy_ack-Counts none = Counts-hand_over one _
  entropy_ack-Counts (some bytes) = Counts-hand_over one _
