-- ===== src/Recovery/Bounds.antt =====
-- Recovery by the matrix stays within the words and codes there are, whatever digits come in.
use safe_t_mcu.Prelude.{
  Bool, ℕ, ◌+◌, ◌-◌, ◌*◌, ◌/◌, ◌%◌, ◌^◌, ◌<◌, ◌≡◌, ◌≢◌, refl, arith, true, false, not, ◌&&◌, ◌||◌,
  List, [], ◌∷◌, ltb, ◌==◌, if◌then◌else◌, get_or, text_eq, All, by_test,
}
use safe_t_mcu.Storage.Fields.{storage_is_initialized, storage_contains_mnemonic}
use safe_t_mcu.Recovery.{
  clear_session, Recovery, Mode, idle, scrambled, matrix, Library, Chance, Event, send_failure,
  seed_differs, seed_invalid, not_in_recovery, joined_words, RecoveryDevice, wrong_word,
  word_not_found,
}
use safe_t_mcu.Recovery.Handler.{
  recovery_done, choices, next_matrix, ask_words, undo, final_choice, recovery_digit, next_word,
  is_listed, refuse, after_word, recovery_scrambledword, word_in_mode, recovery_word,
}
use safe_t_mcu.Recovery.Run.{run}
use safe_t_mcu.Recovery.Matrix.{Fair, display_choices-below, get_or-below}

-- How many codes there are for the digits entered so far.
abbrev pub codes : ℕ → ℕ
codes level = if level == 0 then 1 else if level == 1 then 9 else if level == 2 then 81 else 729

pub record InRange (s : Recovery) : Type 0 where
  pub index : s.word_index < 4 * s.word_count
  pub pincode : s.word_pincode < codes (s.word_index % 4)
  pub choice : All (λ c. c < 9) s.word_matrix

-- Where digits are entered, they are in range.
pub record Bounded (s : Recovery) : Type 0 where
  pub range : s.awaiting_word ≡ matrix → InRange s

-- One digit more, and one less.
pub more_digits :
    (i p c : ℕ)
    → (i % 4 == 3) ≡ false
    → p < codes (i % 4)
    → c < 9
    → (p * 9 + c) % 2 ^ 16 < codes ((i + 1) % 4)
more_digits i p c e h k = ground arith

fewer_digits : (i p : ℕ) → (i % 4 == 0) ≡ false → p < codes (i % 4) → p / 9 < codes ((i - 1) % 4)
fewer_digits i p e h = ground arith

same_digits :
    (i p : ℕ) → (i % 4 == 0) ≡ true → ltb 0 i ≡ true → p < codes (i % 4) → p < codes ((i - 4) % 4)
same_digits i p e k h = ground arith

pub no_digits : (i : ℕ) → 0 < codes (i % 4)
no_digits i = ground arith

pub next_index : (i n : ℕ) → (i % 4 == 3) ≡ false → i < 4 * n → i + 1 < 4 * n
next_index i n e h = ground arith

pub next_word_index :
    (i n : ℕ) → (i % 4 == 3) ≡ true → (i / 4 + 1 == n) ≡ false → i < 4 * n → i + 1 < 4 * n
next_word_index i n e k h = ground arith

off : {m : Mode} → m ≡ idle → m ≢ matrix
off {m} e h = cc

module _ (L : Library) (r : Chance) (word : List ℕ) (fair : Fair (r, word)) where
  next_matrix-InRange :
      (s : Recovery)
      → s.word_index < 4 * s.word_count
      → s.word_pincode < codes (s.word_index % 4)
      → InRange (next_matrix L r s)
  unfolding next_matrix
  next_matrix-InRange s i p = record {
    index = i;
    pincode = p;
    choice =
        display_choices-below r (s.word_index % 4 == 3)
          (choices L (s.word_index % 4) s.word_pincode) fair;
  }

  pub undo-InRange : (s : Recovery) → InRange s → InRange (undo L s)
  undo-InRange s p =
      by_test InRange (s.word_index % 4 == 0)
        (λ e.
          by_test InRange (ltb 0 s.word_index)
            (λ k. record {
              index = omega (arith, p.index);
              pincode = same_digits s.word_index s.word_pincode e k p.pincode;
              choice = p.choice;
            })
            (λ _. p))
        (λ e. record {
          index = omega (arith, p.index);
          pincode = fewer_digits s.word_index s.word_pincode e p.pincode;
          choice = p.choice;
        })

  send_failure-idle :
      (e : Event) (t : Recovery) → t.awaiting_word ≡ idle → (send_failure e t).awaiting_word ≡ idle
  send_failure-idle e t h =
      by_test (λ (u : Recovery). u.awaiting_word ≡ idle) t.device.aborted_by_initialize (λ _. refl)
        (λ _. h)

  -- The end of a recovery.
  recovery_done-idle :
      (aborts : Bool) (s : Recovery) → (recovery_done L aborts s).awaiting_word ≡ idle
  unfolding recovery_done
  recovery_done-idle aborts s =
      let P : Recovery → Type 0 = λ t. t.awaiting_word ≡ idle in
      let mnemonic = joined_words s.word_count s.words in
      by_test P (not s.enforce_wordlist || L.mnemonic_check mnemonic)
        (λ _.
          by_test P (not s.dry_run) (λ _. refl)
            (λ _.
              by_test P
                (storage_is_initialized s.device.store
                  && storage_contains_mnemonic mnemonic s.device.store)
                (λ _. refl) (λ _. send_failure-idle seed_differs _ refl)))
        (λ _.
          by_test (λ t. P (send_failure seed_invalid t)) (not s.dry_run)
            (λ _. send_failure-idle seed_invalid _ refl)
            (λ _. send_failure-idle seed_invalid _ refl))

  final_choice-Bounded :
      (choice : ℕ) (s : Recovery)
      → (s.word_index % 4 == 3) ≡ true
      → InRange s
      → Bounded (final_choice L r choice s)
  final_choice-Bounded choice s e p =
      by_test Bounded (s.word_index / 4 + 1 == s.word_count)
        (λ _. record { range = λ h. absurd (off (recovery_done-idle r.aborts _) h) })
        (λ k. record {
          range = λ _.
              next_matrix-InRange _ (next_word_index s.word_index s.word_count e k p.index)
                (no_digits (s.word_index + 1));
        })

  recovery_digit-Bounded :
      (digit : ℕ) (s : Recovery) → InRange s → Bounded (recovery_digit L r digit s)
  unfolding recovery_digit
  recovery_digit-Bounded digit s p =
      let q = undo-InRange s p in
      let choice = get_or s.word_matrix (digit - b'1') 0 in
      by_test Bounded (digit == 8)
        (λ _. record { range = λ _. next_matrix-InRange (undo L s) q.index q.pincode })
        (λ _.
          by_test Bounded (ltb digit b'1' || ltb b'9' digit)
            (λ _. record {
              range = λ _. record { index = p.index; pincode = p.pincode; choice = p.choice };
            })
            (λ _.
              by_test Bounded (s.word_index % 4 == 3) (λ e. final_choice-Bounded choice s e p)
                (λ e. record {
                  range = λ _.
                      next_matrix-InRange _ (next_index s.word_index s.word_count e p.index) (
                        more_digits s.word_index s.word_pincode choice e p.pincode
                          (get_or-below s.word_matrix (digit - b'1') p.choice));
                })))

  -- Where words are entered, no digits are asked for.
  record Other (s : Recovery) : Type 0 where
    mode : s.awaiting_word ≢ matrix

  after_word-Other : (s : Recovery) → Other s → Other (after_word L r s)
  unfolding next_word
  after_word-Other s p =
      by_test Other (s.word_index + 1 == 24)
        (λ _. record { mode = off (recovery_done-idle r.aborts s) }) (λ _. record { mode = p.mode })

  send_failure-Other : (e : Event) (s : Recovery) → Other s → Other (send_failure e s)
  send_failure-Other e s p =
      by_test Other s.device.aborted_by_initialize (λ _. record { mode = off refl })
        (λ _. record { mode = p.mode })

  refuse-Other : (e : Event) (s : Recovery) → Other s → Other (refuse L e s)
  refuse-Other e s p =
      by_test (λ t. Other (send_failure e t)) (not s.dry_run)
        (λ _. send_failure-Other e (clear_session s) (record { mode = p.mode }))
        (λ _. send_failure-Other e s p)

  recovery_scrambledword-Other :
      (s : Recovery) → Other s → Other (recovery_scrambledword L r word s)
  unfolding recovery_scrambledword
  recovery_scrambledword-Other s p =
      by_test Other (s.word_pos == 0)
        (λ _.
          by_test Other (not (text_eq word s.fake_word)) (λ _. refuse-Other wrong_word s p)
            (λ _. after_word-Other s p))
        (λ _.
          by_test Other (s.enforce_wordlist && not (is_listed L L.wordlist word))
            (λ _. refuse-Other word_not_found s p)
            (λ _. after_word-Other _ (record { mode = p.mode })))

  pub word_in_mode-Bounded :
      (m : Mode) (s : Recovery)
      → s.awaiting_word ≡ m
      → Bounded s
      → Bounded (word_in_mode L m r word s)
  word_in_mode-Bounded idle s e p =
      let q = send_failure-Other not_in_recovery s (record { mode = off e }) in
      record { range = λ h. absurd (q.mode h) }
  word_in_mode-Bounded scrambled s e p =
      let q = recovery_scrambledword-Other s (record { mode = words_not_digits e }) in
      record { range = λ h. absurd (q.mode h) }
    where
      words_not_digits : {m : Mode} → m ≡ scrambled → m ≢ matrix
      words_not_digits {m} e h = cc
  word_in_mode-Bounded matrix s e p = recovery_digit-Bounded (get_or word 0 0) s (p.range e)

pub run-Bounded :
    (L : Library) (steps : List (Chance × List ℕ)) (s : Recovery)
    → All Fair steps
    → Bounded s
    → Bounded (run L steps s)
unfolding recovery_word
run-Bounded L [] s fair p = p
run-Bounded L ((r, word) ∷ steps) s fair p =
    run-Bounded L steps _ fair.1 (word_in_mode-Bounded L r word fair.0 s.awaiting_word s refl p)

pub ask_words-Bounded :
    (L : Library) (msg : RecoveryDevice) (r : Chance) (s : Recovery)
    → Fair (r, [])
    → 0 < s.word_count
    → Bounded (ask_words L msg r s)
unfolding next_word
ask_words-Bounded L msg r s fair some_words =
    by_test Bounded msg.by_matrix
      (λ _. record {
        range = λ _. next_matrix-InRange L r [] fair _ (omega (arith, some_words)) (omega arith);
      })
      (λ _. record { range = λ h. absurd (words_not_digits h) })
  where
    words_not_digits : scrambled ≢ matrix
    words_not_digits h = cc
