-- ===== src/Recovery/Run.antt =====
-- Whole recoveries, word by word; and dry runs of recovery_word in firmware/recovery.c.
use safe_t_mcu.Prelude.{
  ◌⊎◌, inl, inr, ap, ◌∙◌, Bool-cases, ℕ, ◌+◌, ◌-◌, ◌/◌, ◌%◌, ◌≡◌, ◌≢◌, refl, Bool, true, false, not,
  ◌&&◌, ◌||◌, List, [], ◌∷◌, ltb, ◌==◌, get_or, text_eq, by_test,
}
use safe_t_mcu.Storage.{State, session_clear}
use safe_t_mcu.Storage.Fields.{storage_is_initialized, storage_contains_mnemonic}
use safe_t_mcu.Recovery.{
  Recovery, Mode, idle, scrambled, matrix, Library, Chance, Event, show_dialogue, send_failure,
  seed_differs, not_in_recovery, joined_words, seed_invalid, wrong_word, word_not_found,
}
use safe_t_mcu.Recovery.Handler.{
  recovery_done, next_matrix, undo, final_choice, recovery_digit, next_word, is_listed, refuse,
  after_word, recovery_scrambledword, word_in_mode, recovery_word,
}

module _ (L : Library) where
  -- The words and digits that come in, one after the other.
  abbrev pub run : List (Chance × List ℕ) → Recovery → Recovery
  run [] s = s
  run ((r, word) ∷ steps) s = run steps (recovery_word L r word s)

-- A dialogue was ended by Initialize before, or one of these steps is to be.
abbrev pub is_aborted : Bool → List (Chance × List ℕ) → Bool
is_aborted before [] = before
is_aborted before ((r, word) ∷ steps) = is_aborted (r.aborts || before) steps

-- The store after Initialize: the PIN stays cached, the seed and the passphrase do not.
abbrev pub initialized : State → State
initialized store = record store { session = session_clear false store.session }

initialized_twice : (store : State) → initialized (initialized store) ≡ initialized store
unfolding session_clear
initialized_twice store = refl

-- A dry run, over what is stored and cached; in a quiet one, Initialize ends no dialogue.
record Dry (Quiet : Type 0) (store : State) (s : Recovery) : Type 0 where
  on : s.dry_run ≡ true
  same : (s.device.store ≡ store) ⊎ (s.device.store ≡ initialized store)
  calm : Quiet → (s.device.aborted_by_initialize ≡ false) × (s.device.store ≡ store)

only : (b : Bool) → b ≡ true → not b ≢ true
only true e h = cc
only false e h = cc

differ : {b : Bool} → b ≡ true → b ≢ false
differ {b} e h = cc

neither : (a b : Bool) → (a || b) ≡ false → (a ≡ false) × (b ≡ false)
neither true b h = cc
neither false b h = (refl, h)

either_false : (a b : Bool) → a ≡ false → b ≡ false → (a || b) ≡ false
either_false true b e h = cc
either_false false b e h = h

began : (steps : List (Chance × List ℕ)) (b : Bool) → is_aborted b steps ≡ false → b ≡ false
began [] b h = h
began ((r, word) ∷ steps) b h = (neither r.aborts b (began steps (r.aborts || b) h)).1

module _ (L : Library) (Q : Type 0) (store : State) where
  abbrev D : Recovery → Type 0
  D = Dry Q store

  send_failure-Dry : (e : Event) (s : Recovery) → D s → D (send_failure e s)
  send_failure-Dry e s p =
      by_test D s.device.aborted_by_initialize
        (λ h. record {
          on = p.on;
          same = elim p.same [
            | inl q ↦ inr (ap initialized q)
            | inr q ↦ inr (ap initialized q ∙ initialized_twice store)
          ];
          calm = λ q. absurd (differ h (p.calm q).0);
        })
        (λ _. record { on = p.on; same = p.same; calm = p.calm })

  show_dialogue-Dry :
      (aborts : Bool) (s : Recovery) → (Q → aborts ≡ false) → D s → D (show_dialogue aborts s)
  show_dialogue-Dry aborts s quiet p = record {
    on = p.on;
    same = p.same;
    calm = λ q.
        (either_false aborts s.device.aborted_by_initialize (quiet q) (p.calm q).0, (p.calm q).1);
  }

  recovery_done-Dry :
      (aborts : Bool) (s : Recovery) → (Q → aborts ≡ false) → D s → D (recovery_done L aborts s)
  unfolding recovery_done
  recovery_done-Dry aborts s quiet p =
      let mnemonic = joined_words s.word_count s.words in
      let s1 : Recovery = record s { awaiting_word = idle } in
      let shown =
        show_dialogue-Dry aborts s1 quiet (record { on = p.on; same = p.same; calm = p.calm }) in
      by_test D (not s.enforce_wordlist || L.mnemonic_check mnemonic)
        (λ _.
          by_test D (not s.dry_run) (λ h. absurd (only s.dry_run p.on h))
            (λ _.
              by_test D
                (storage_is_initialized s.device.store
                  && storage_contains_mnemonic mnemonic s.device.store)
                (λ _. record { on = shown.on; same = shown.same; calm = shown.calm })
                (λ _. send_failure-Dry seed_differs _ shown)))
        (λ _.
          by_test (λ t. D (send_failure seed_invalid t)) (not s.dry_run)
            (λ h. absurd (only s.dry_run p.on h)) (λ _. send_failure-Dry seed_invalid _ shown))

  next_matrix-Dry : (r : Chance) (s : Recovery) → D s → D (next_matrix L r s)
  unfolding next_matrix
  next_matrix-Dry r s p = record { on = p.on; same = p.same; calm = p.calm }

  next_word-Dry : (r : Chance) (s : Recovery) → D s → D (next_word L r s)
  unfolding next_word
  next_word-Dry r s p = record { on = p.on; same = p.same; calm = p.calm }

  undo-Dry : (s : Recovery) → D s → D (undo L s)
  undo-Dry s p =
      by_test D (s.word_index % 4 == 0)
        (λ _.
          by_test D (ltb 0 s.word_index) (λ _. record { on = p.on; same = p.same; calm = p.calm })
            (λ _. p))
        (λ _. record { on = p.on; same = p.same; calm = p.calm })

  final_choice-Dry :
      (r : Chance) (choice : ℕ) (s : Recovery)
      → (Q → r.aborts ≡ false)
      → D s
      → D (final_choice L r choice s)
  final_choice-Dry r choice s quiet p =
      by_test D (s.word_index / 4 + 1 == s.word_count)
        (λ _.
          recovery_done-Dry r.aborts _ quiet (record { on = p.on; same = p.same; calm = p.calm }))
        (λ _. next_matrix-Dry r _ (record { on = p.on; same = p.same; calm = p.calm }))

  recovery_digit-Dry :
      (r : Chance) (digit : ℕ) (s : Recovery)
      → (Q → r.aborts ≡ false)
      → D s
      → D (recovery_digit L r digit s)
  unfolding recovery_digit
  recovery_digit-Dry r digit s quiet p =
      by_test D (digit == 8) (λ _. next_matrix-Dry r _ (undo-Dry s p))
        (λ _.
          by_test D (ltb digit b'1' || ltb b'9' digit)
            (λ _. record { on = p.on; same = p.same; calm = p.calm })
            (λ _.
              by_test D (s.word_index % 4 == 3)
                (λ _. final_choice-Dry r (get_or s.word_matrix (digit - b'1') 0) s quiet p)
                (λ _. next_matrix-Dry r _ (record { on = p.on; same = p.same; calm = p.calm }))))

  refuse-Dry : (e : Event) (s : Recovery) → D s → D (refuse L e s)
  refuse-Dry e s p =
      by_test (λ t. D (send_failure e t)) (not s.dry_run) (λ h. absurd (only s.dry_run p.on h))
        (λ _. send_failure-Dry e s p)

  after_word-Dry : (r : Chance) (s : Recovery) → (Q → r.aborts ≡ false) → D s → D (after_word L r s)
  after_word-Dry r s quiet p =
      by_test D (s.word_index + 1 == 24) (λ _. recovery_done-Dry r.aborts s quiet p)
        (λ _. next_word-Dry r _ (record { on = p.on; same = p.same; calm = p.calm }))

  recovery_scrambledword-Dry :
      (r : Chance) (word : List ℕ) (s : Recovery)
      → (Q → r.aborts ≡ false)
      → D s
      → D (recovery_scrambledword L r word s)
  unfolding recovery_scrambledword
  recovery_scrambledword-Dry r word s quiet p =
      by_test D (s.word_pos == 0)
        (λ _.
          by_test D (not (text_eq word s.fake_word)) (λ _. refuse-Dry wrong_word s p)
            (λ _. after_word-Dry r s quiet p))
        (λ _.
          by_test D (s.enforce_wordlist && not (is_listed L L.wordlist word))
            (λ _. refuse-Dry word_not_found s p)
            (λ _. after_word-Dry r _ quiet (record { on = p.on; same = p.same; calm = p.calm })))

  word_in_mode-Dry :
      (m : Mode) (r : Chance) (word : List ℕ) (s : Recovery)
      → (Q → r.aborts ≡ false)
      → D s
      → D (word_in_mode L m r word s)
  word_in_mode-Dry idle r word s quiet p = send_failure-Dry not_in_recovery s p
  word_in_mode-Dry scrambled r word s quiet p = recovery_scrambledword-Dry r word s quiet p
  word_in_mode-Dry matrix r word s quiet p = recovery_digit-Dry r (get_or word 0 0) s quiet p

  run-Dry :
      (steps : List (Chance × List ℕ)) (b : Bool) (s : Recovery)
      → (Q → is_aborted b steps ≡ false)
      → D s
      → D (run L steps s)
  unfolding recovery_word
  run-Dry [] b s quiet p = p
  run-Dry ((r, word) ∷ steps) b s quiet p = run-Dry steps (r.aborts || b) _ quiet (
      word_in_mode-Dry s.awaiting_word r word s
        (λ q. (neither r.aborts b (began steps (r.aborts || b) (quiet q))).0) p)

-- A dry run, whatever words and digits come in, leaves what is stored and what is pending as they were.
-- What the session has cached stays too, unless Initialize ended a dialogue: then it may be as
-- Initialize leaves it, with the PIN cached but neither seed nor passphrase.
pub run-dry_run :
    (L : Library) (steps : List (Chance × List ℕ)) (s : Recovery)
    → s.dry_run ≡ true
    → let store' = (run L steps s).device.store in
      (store' ≡ s.device.store)
      ⊎ ((store' ≡ initialized s.device.store)
          × (is_aborted s.device.aborted_by_initialize steps ≡ true))
run-dry_run L steps s on =
    let store = s.device.store in
    let before = s.device.aborted_by_initialize in
    let end =
      run-Dry L (is_aborted before steps ≡ false) store steps before s (λ q. q)
        (record { on = on; same = inl refl; calm = λ q. (began steps before q, refl) }) in
    elim (Bool-cases (is_aborted before steps)) [
      | inr quiet ↦ inl (end.calm quiet).1
      | inl aborted ↦ elim end.same [ inl e ↦ inl e | inr e ↦ inr (e, aborted) ]
    ]
