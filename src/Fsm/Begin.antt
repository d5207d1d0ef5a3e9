-- ===== src/Fsm/Begin.antt =====
-- The handlers that check a message and hand it over to another part, of firmware/fsm.c.
use safe_t_mcu.Prelude.{
  ℕ, ◌+◌, ◌%◌, ◌^◌, Bool, true, false, ◌||◌, List, [], Option, none, some, ltb, leb, ◌==◌,
  if◌then◌else◌,
}
use safe_t_mcu.Reset.{ResetDevice}
use safe_t_mcu.Wallet.Library.{Library}
use safe_t_mcu.Host.{
  Question, recover_device, check_seed, data_error, RecoveryDevice, reset_init, reset_backup,
  signing_txack, ethereum_signing_txack, recovery_word, reset_entropy, signing_init,
  ethereum_signing_init, recovery_init, M, ◌>>=◌, ◌>>◌, hand_over,
}
use safe_t_mcu.Fsm.{
  check, check_initialized, check_not_initialized, check_pin, confirm, fsm_get_coin,
}
use safe_t_mcu.Fsm.Root.{secp256k1, fsm_get_derived_node}

abbrev pub is_strength : ℕ → Bool
is_strength n = n == 128 || (n == 192 || n == 256)

abbrev pub is_word_count : ℕ → Bool
is_word_count n = n == 12 || (n == 18 || n == 24)

abbrev pub fits : (ℕ → Bool) → Option ℕ → Bool
fits p none = true
fits p (some n) = p n

abbrev pub or_else : Option ℕ → ℕ → ℕ
or_else none d = d
or_else (some n) d = n

-- `ResetDevice` but for the strength, which may be absent.
abbrev pub with_strength : Option ℕ → ResetDevice → ResetDevice
with_strength strength msg = record msg { strength = or_else strength 128 }

abbrev pub with_word_count : Option ℕ → RecoveryDevice → RecoveryDevice
with_word_count word_count msg = record msg { word_count = or_else word_count 12 }

abbrev pub recovery_question : Bool → Question
recovery_question dry_run = if dry_run then check_seed else recover_device

module _ (L : Library) where
  -- `fsm_msgResetDevice`
  unfoldable pub fsm_msg_reset_device : Option ℕ → ResetDevice → M ⊥
  fsm_msg_reset_device strength msg = do
    check_not_initialized L
    check L (fits is_strength strength) data_error
    hand_over (reset_init (with_strength strength msg))

  -- `fsm_msgBackupDevice`
  unfoldable pub fsm_msg_backup_device : M ⊥
  fsm_msg_backup_device = do check_initialized L; check_pin L false; hand_over reset_backup

  -- `fsm_msgSignTx`: coin, and the numbers of inputs and outputs
  unfoldable pub fsm_msg_sign_tx : Option (List ℕ) → ℕ → ℕ → M ⊥
  fsm_msg_sign_tx coin_name inputs_count outputs_count = do
    check_initialized L
    check L (ltb 0 inputs_count) data_error
    check L (ltb 0 outputs_count) data_error
    check L (leb inputs_count ((inputs_count + outputs_count) % 2 ^ 32)) data_error
    check_pin L true
    coin ← fsm_get_coin L coin_name
    (node, fingerprint) ← fsm_get_derived_node L coin.curve_name []
    hand_over (signing_init coin node)

  -- `fsm_msgTxAck`
  unfoldable pub fsm_msg_tx_ack : Bool → M ⊥
  fsm_msg_tx_ack has_tx = do check L has_tx data_error; hand_over signing_txack

  -- `fsm_msgEthereumSignTx`
  unfoldable pub fsm_msg_ethereum_sign_tx : List ℕ → M ⊥
  fsm_msg_ethereum_sign_tx path = do
    check_initialized L
    check_pin L true
    (node, fingerprint) ← fsm_get_derived_node L secp256k1 path
    hand_over (ethereum_signing_init node)

  abbrev pub may_recover : Bool → M (Unit {0})
  may_recover dry_run = if dry_run then check_pin L true else check_not_initialized L

  -- `fsm_msgRecoveryDevice`
  unfoldable pub fsm_msg_recovery_device : Option ℕ → RecoveryDevice → M ⊥
  fsm_msg_recovery_device word_count msg = do
    may_recover msg.dry_run
    check L (fits is_word_count word_count) data_error
    confirm L (recovery_question msg.dry_run)
    hand_over (recovery_init (with_word_count word_count msg))

-- `fsm_msgEthereumTxAck`, `fsm_msgEntropyAck` and `fsm_msgWordAck`
unfoldable pub fsm_msg_ethereum_tx_ack : M ⊥
fsm_msg_ethereum_tx_ack = hand_over ethereum_signing_txack

unfoldable pub fsm_msg_entropy_ack : Option (List ℕ) → M ⊥
fsm_msg_entropy_ack none = hand_over (reset_entropy [])
fsm_msg_entropy_ack (some bytes) = hand_over (reset_entropy bytes)

unfoldable pub fsm_msg_word_ack : M ⊥
fsm_msg_word_ack = hand_over recovery_word
