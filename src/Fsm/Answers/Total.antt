-- ===== src/Fsm/Answers/Total.antt =====
-- Every request that is handled to its end is answered once, but for three kinds that a failing
-- library leaves unanswered, and one kind of refusal that is sent twice.
use safe_t_mcu.Prelude.{ℕ, ◌≡◌, refl, ap, ◌∙◌, ◌↔◌, false, ◌⊎◌, inl, inr, List, [], some, arith}
use mathlib.Core.Path.{subst}
use safe_t_mcu.Wallet.Library.{Library}
use safe_t_mcu.Host.{World, ended, waiting, halted, Outcome, returned, stopped, data_error, pure}
use safe_t_mcu.Fsm.{check, fsm_send_failure}
use safe_t_mcu.Fsm.Answers.Steps.{answers-send_failure}
use safe_t_mcu.Fsm.Sign.Verify.{refused_twice}
use safe_t_mcu.Fsm.Sign.{has_sizes, or_empty, fsm_msg_ethereum_verify_message}
use safe_t_mcu.Fsm.Dispatch.{
  Request, initialize, get_features, cancel, clear_session, wipe_device, backup_device,
  ethereum_tx_ack, word_ack, ping, change_pin, tx_ack, get_entropy, set_u2f_counter, load_device,
  apply_settings, apply_flags, get_public_key, get_address, ethereum_get_address, nem_get_address,
  sign_message, verify_message, sign_identity, get_ecdh_session_key, cipher_key_value,
  ethereum_sign_message, ethereum_verify_message, cosi_commit, cosi_sign, nem_decrypt_message,
  reset_device, sign_tx, ethereum_sign_tx, recovery_device, entropy_ack, handle,
}
use safe_t_mcu.Fsm.Answers.{answers, Counted, Counts}
use safe_t_mcu.Fsm.Answers.Settings
use safe_t_mcu.Fsm.Answers.Keys
use safe_t_mcu.Fsm.Answers.Sign

abbrev pub Once : ℕ → Type 0
Once k = k ≡ 1

abbrev pub AtMostOnce : ℕ → Type 0
AtMostOnce k = (k ≡ 1) ⊎ (k ≡ 0)

-- Twice only for a signature or an address of the wrong size.
abbrev pub TwiceIfMalformed : Library → List ℕ → List ℕ → ℕ → Type 0
TwiceIfMalformed L text signature k = (k ≡ 1) ⊎ ((k ≡ 2) × (has_sizes L text signature ≡ false))

-- How many answers a request may have.
abbrev pub Allowed : Library → Request → ℕ → Type 0
Allowed L (ethereum_get_address path show) = AtMostOnce
Allowed L (nem_get_address path network show) = AtMostOnce
Allowed L (ethereum_sign_message path text) = AtMostOnce
Allowed L (ethereum_verify_message who text signature) = TwiceIfMalformed L (or_empty who) signature
Allowed L r = Once

-- Of a handler that has ended, and of one that has not.
abbrev pub Answered : (ℕ → Type 0) → Outcome ⊥ → Type 0
Answered E (stopped ended w) = E (answers w.log)
Answered E (stopped e w) = answers w.log ≡ 0
Answered E o = Unit

module _ (L : Library) where
  handle-Counts : (r : Request) → Counts (Allowed L r) (handle L r)
  handle-Counts (initialize state) = Settings.initialize-Counts L Once refl state
  handle-Counts get_features = Settings.get_features-Counts L Once refl
  handle-Counts cancel = Settings.cancel-Counts L Once refl
  handle-Counts clear_session = Settings.clear_session-Counts L Once refl
  handle-Counts wipe_device = Settings.wipe_device-Counts L Once refl
  handle-Counts backup_device = Keys.backup_device-Counts L Once refl
  handle-Counts ethereum_tx_ack = Keys.ethereum_tx_ack-Counts Once refl
  handle-Counts word_ack = Keys.word_ack-Counts Once refl
  handle-Counts (ping button pin phrase message) =
      Settings.ping-Counts L Once refl button pin phrase message
  handle-Counts (change_pin removal) = Settings.change_pin-Counts L Once refl removal
  handle-Counts (tx_ack has_tx) = Keys.tx_ack-Counts L Once refl has_tx
  handle-Counts (get_entropy size) = Settings.get_entropy-Counts L Once refl size
  handle-Counts (set_u2f_counter n) = Settings.set_u2f_counter-Counts L Once refl n
  handle-Counts (load_device msg) = Settings.load_device-Counts L Once refl msg
  handle-Counts (apply_settings msg) = Settings.apply_settings-Counts L Once refl msg
  handle-Counts (apply_flags flags) = Settings.apply_flags-Counts L Once refl flags
  handle-Counts (get_public_key path coin curve show) =
      Keys.get_public_key-Counts L Once refl path coin curve show
  handle-Counts (get_address msg) = Keys.get_address-Counts L Once refl msg
  handle-Counts (ethereum_get_address path show) =
      Keys.ethereum_get_address-Counts L AtMostOnce (inl refl) (inr refl) path show
  handle-Counts (nem_get_address path network show) =
      Keys.nem_get_address-Counts L AtMostOnce (inl refl) (inr refl) path network show
  handle-Counts (sign_message coin path type text) =
      Sign.sign_message-Counts L Once refl coin path type text
  handle-Counts (verify_message coin who text signature) =
      Sign.verify_message-Counts L Once refl coin who text signature
  handle-Counts (sign_identity msg) = Sign.sign_identity-Counts L Once refl msg
  handle-Counts (get_ecdh_session_key i peer curve) =
      Sign.get_ecdh_session_key-Counts L Once refl i peer curve
  handle-Counts (cipher_key_value msg) = Sign.cipher_key_value-Counts L Once refl msg
  handle-Counts (ethereum_sign_message path text) =
      Sign.ethereum_sign_message-Counts L AtMostOnce (inl refl) (inr refl) path text
  handle-Counts (ethereum_verify_message who text signature) =
      Sign.ethereum_verify_message-Counts L (TwiceIfMalformed L (or_empty who) signature) (inl refl)
        who text signature (λ h. inr (refl, h))
  handle-Counts (cosi_commit path text) = Sign.cosi_commit-Counts L Once refl path text
  handle-Counts (cosi_sign path text commitment key) =
      Sign.cosi_sign-Counts L Once refl path text commitment key
  handle-Counts (nem_decrypt_message msg) = Sign.nem_decrypt_message-Counts L Once refl msg
  handle-Counts (reset_device strength msg) = Keys.reset_device-Counts L Once refl strength msg
  handle-Counts (sign_tx coin inputs outputs) = Keys.sign_tx-Counts L Once refl coin inputs outputs
  handle-Counts (ethereum_sign_tx path) = Keys.ethereum_sign_tx-Counts L Once refl path
  handle-Counts (recovery_device words msg) = Keys.recovery_device-Counts L Once refl words msg
  handle-Counts (entropy_ack bytes) = Keys.entropy_ack-Counts Once refl bytes

  Counted-Answered : (E : ℕ → Type 0) (n : ℕ) (o : Outcome ⊥) → n ≡ 0 → Counted E n o → Answered E o
  Counted-Answered E n (returned a w) z p = tt
  Counted-Answered E n (stopped ended w) z p = subst E (omega (arith, p.2, z)) p.1
  Counted-Answered E n (stopped waiting w) z p = p ∙ z
  Counted-Answered E n (stopped halted w) z p = p ∙ z

  -- Whatever the host asks for and does in the dialogues: a request that is handled to its end has
  -- been answered by exactly one message, or handed over to another part once. The exceptions are an
  -- Ethereum or NEM address and an Ethereum signature, which may stay unanswered, and the check of an
  -- Ethereum signature, which is answered twice at most and only when sizes are wrong. One that
  -- still waits in a dialogue, or that leaves the device at a standstill, has not been answered.
  pub handle-Answered :
      (r : Request) (w : World) → w.log ≡ [] → Answered (Allowed L r) (handle L r w)
  handle-Answered r w l =
      Counted-Answered (Allowed L r) (answers w.log) (handle L r w) (ap answers l)
        ((handle-Counts r).at w)

  -- The answer that is counted of a request that has ended.
  abbrev pub answered : Outcome ⊥ → ℕ
  answered (stopped ended w) = answers w.log
  answered o = 0

  twice_only : {k : ℕ} {P : Type 0} → (k ≡ 1) ⊎ ((k ≡ 2) × P) → k ≡ 2 → P
  twice_only (inl e) h = absurd (omega (arith, e, h))
  twice_only (inr p) h = p.1

  malformed_of :
      (who text signature : List ℕ) (o : Outcome ⊥)
      → Answered (TwiceIfMalformed L who signature) o
      → answered o ≡ 2
      → has_sizes L who signature ≡ false
  malformed_of who text signature (returned x w) p h = elim x [ ]
  malformed_of who text signature (stopped ended w) p h = twice_only p h
  malformed_of who text signature (stopped waiting w) p h = absurd (omega (arith, h))
  malformed_of who text signature (stopped halted w) p h = absurd (omega (arith, h))

  sent_twice :
      (who text signature : List ℕ) (w : World)
      → has_sizes L who signature ≡ false
      → handle L (ethereum_verify_message (some who) (some text) signature) w
        ≡ stopped ended (fsm_send_failure L data_error (fsm_send_failure L data_error w))
  unfolding fsm_msg_ethereum_verify_message check pure
  sent_twice who text signature w h = refused_twice L who signature text _ w h

  -- A request to verify an Ethereum signature, with address and message, is answered twice exactly if
  -- the signature has not 65 bytes or the address not 20.
  pub malformed_refused_twice :
      (who text signature : List ℕ) (w : World)
      → w.log ≡ []
      → (answered (handle L (ethereum_verify_message (some who) (some text) signature) w) ≡ 2)
        ↔ (has_sizes L who signature ≡ false)
  malformed_refused_twice who text signature w l =
      let r = ethereum_verify_message (some who) (some text) signature in
      (
        malformed_of who text signature (handle L r w) (handle-Answered r w l),
        λ h.
            let first = answers-send_failure L Once refl data_error w in
            let second =
              answers-send_failure L Once refl data_error (fsm_send_failure L data_error w) in
            ap answered (sent_twice who text signature w h)
            ∙ omega (arith, first, second, ap answers l),
      )
