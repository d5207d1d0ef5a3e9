-- ===== src/Fsm/Session.antt =====
-- The session that a host resumes by Initialize, `fsm_msgInitialize` of firmware/fsm.c with
-- `session_getState` of firmware/storage.c.
use safe_t_mcu.Prelude.{
  ℕ, zero, suc, ◌≡◌, ◌≢◌, refl, sym, ap, ◌∙◌, arith, true, false, ◌==◌, List, [], ◌∷◌, ◌++◌, some,
  length, take, length-append, Option-cases, inl, inr, text_eq, take_all, by_test,
}
use safe_t_mcu.Storage.{State, session_clear}
use safe_t_mcu.Storage.Load.{session_get_state}
use safe_t_mcu.Wallet.Library.{Library}
use safe_t_mcu.Host.{World, sent, features, with_store, say}
use safe_t_mcu.Fsm.{features_of, resume, fsm_msg_initialize}

text_eq_self : (xs : List ℕ) → text_eq xs xs ≡ true
text_eq_self [] = refl
text_eq_self (x ∷ xs) = ground (arith, text_eq_self xs)

take-append : (n : ℕ) (xs ys : List ℕ) → length xs ≡ n → take n (xs ++ ys) ≡ xs
take-append zero [] ys h = refl
take-append zero (x ∷ xs) ys h = absurd (omega arith)
take-append (suc n) [] ys h = absurd (omega arith)
take-append (suc n) (x ∷ xs) ys h = ap (λ (r : List ℕ). x ∷ r) (take-append n xs ys (omega arith))

some_eq : {a b : List ℕ} → some a ≡ some b → a ≡ b
some_eq h = cc

eq_of_text_eq : (xs ys : List ℕ) → text_eq xs ys ≡ true → xs ≡ ys
eq_of_text_eq [] [] h = refl
eq_of_text_eq [] (y ∷ ys) h = cc
eq_of_text_eq (x ∷ xs) [] h = cc
eq_of_text_eq (x ∷ xs) (y ∷ ys) h = ground (arith, eq_of_text_eq xs ys)

-- The session forgets the seed and the passphrase.
abbrev pub forget : State → State
forget s = record s { session = session_clear false s.session }

module _ (hmac : List ℕ → List ℕ → List ℕ) where
  get_state_lem :
      (salt : List ℕ) (s : State)
      → s.session.passphrase_cached ≡ true
      → session_get_state hmac salt s
        ≡ some (take 32 salt ++ hmac s.session.passphrase (take 32 salt ++ s.uuid))
  unfolding session_get_state
  get_state_lem salt s e = rw e refl

  get_state_cached :
      (salt : List ℕ) (s : State) {state : List ℕ}
      → session_get_state hmac salt s ≡ some state
      → s.session.passphrase_cached ≡ true
  unfolding session_get_state
  get_state_cached salt s h = ground arith

  -- The state that is given for a salt of 32 bytes is the one that is expected of the host.
  get_state_again :
      (salt : List ℕ) (s : State) {state : List ℕ}
      → length salt ≡ 32
      → ((k m : List ℕ) → length (hmac k m) ≡ 32)
      → session_get_state hmac salt s ≡ some state
      → (session_get_state hmac state s ≡ some state) × (length state ≡ 64)
  get_state_again salt s {state} h k e =
      let full : List ℕ → List ℕ = λ t. t ++ hmac s.session.passphrase (t ++ s.uuid) in
      let tag = hmac s.session.passphrase (salt ++ s.uuid) in
      let c = get_state_cached salt s e in
      let shape : state ≡ salt ++ tag =
        sym (some_eq (sym (get_state_lem salt s c) ∙ e))
        ∙ ap full (take_all 32 salt (omega arith)) in
      let first : take 32 state ≡ salt = ap (take 32) shape ∙ take-append 32 salt tag h in
      (
        get_state_lem state s c ∙ ap (λ (t : List ℕ). some (full t)) first ∙ ap some (sym shape),
        ap length shape
            ∙ length-append salt tag
            ∙ omega (arith, h, k s.session.passphrase (salt ++ s.uuid)),
      )

  resume_same :
      (state : List ℕ) (s : State)
      → length state ≡ 64
      → session_get_state hmac state s ≡ some state
      → resume hmac (some state) s ≡ s
  resume_same state s h e =
      by_test (λ (t : State). t ≡ s) (length state == 64) (λ _. rw e (rw (text_eq_self state) refl))
        (λ no. absurd (ground arith))

  resume_other :
      (state : List ℕ) (s : State)
      → session_get_state hmac state s ≢ some state
      → resume hmac (some state) s ≡ forget s
  resume_other state s n =
      by_test (λ (t : State). t ≡ forget s) (length state == 64)
        (λ _. elim (Option-cases (session_get_state hmac state s)) [
          | inl e ↦ rw e refl
          | inr (i, e) ↦ rw e (
              by_test (λ (t : State). t ≡ forget s) (text_eq state i)
                (λ same. absurd (n (e ∙ ap some (sym (eq_of_text_eq state i same))))) (λ _. refl))
        ])
        (λ _. refl)

module _ (L : Library) where
  -- A host that has the session's state for a salt of its own, of 32 bytes, resumes the session:
  -- Initialize with that state leaves what is stored and all of the session as they were, answers
  -- with the features, and ends a recovery or a Bitcoin signing, but not an Ethereum signing; the
  -- codes that HMAC-SHA256 gives have 32 bytes.
  pub initialize-resumes :
      (salt state : List ℕ) (w : World)
      → length salt ≡ 32
      → ((k m : List ℕ) → length (L.hmac_sha256 k m) ≡ 32)
      → session_get_state L.hmac_sha256 salt w.device.store ≡ some state
      → fsm_msg_initialize L (some state) w
        ≡ say
            (sent (features (features_of w.device.store)))
            (record w { recovering = false; signing = false })
  unfolding fsm_msg_initialize
  initialize-resumes salt state w h k e =
      let again = get_state_again L.hmac_sha256 salt w.device.store h k e in
      ap
        (λ (s : State).
          say (sent (features (features_of s)))
            (with_store s (record w { recovering = false; signing = false })))
        (resume_same L.hmac_sha256 state w.device.store again.1 again.0)

  -- With any other state, Initialize forgets the seed and the passphrase that the session has cached,
  -- but not that the PIN was entered.
  pub initialize-forgets :
      (state : List ℕ) (w : World)
      → session_get_state L.hmac_sha256 state w.device.store ≢ some state
      → let s = (fsm_msg_initialize L (some state) w).device.store in
        (s.rom ≡ w.device.store.rom)
        × (s.session.seed_cached ≡ false)
        × (s.session.passphrase_cached ≡ false)
        × (s.session.pin_cached ≡ w.device.store.session.pin_cached)
  unfolding fsm_msg_initialize session_clear
  initialize-forgets state w n =
      let e = resume_other L.hmac_sha256 state w.device.store n in
      (
        ap (λ (s : State). s.rom) e,
        ap (λ (s : State). s.session.seed_cached) e,
        ap (λ (s : State). s.session.passphrase_cached) e,
        ap (λ (s : State). s.session.pin_cached) e,
      )
