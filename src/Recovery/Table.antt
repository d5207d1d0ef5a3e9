-- ===== src/Recovery/Table.antt =====
-- Recovery by the matrix reads the first table, of recovery-table.h, within its 82 entries.
use safe_t_mcu.Prelude.{
  ℕ, zero, suc, ◌+◌, ◌-◌, ◌/◌, ◌%◌, ◌^◌, ◌<◌, ◌≡◌, refl, ap, ◌∙◌, arith, Bool, true, false, ◌||◌,
  List, [], ◌∷◌, ltb, ◌==◌, if◌then◌else◌, get_or, set, take, All,
}
use safe_t_mcu.Recovery.{
  Recovery, Mode, idle, scrambled, matrix, Library, Chance, recovery_request, display_choices,
  RecoveryDevice,
}
use safe_t_mcu.Storage.Fields.{strlcpy}
use safe_t_mcu.Recovery.Handler.{
  recovery_done, choices, table1, table2, next_matrix, ask_words, undo, word_chosen, final_choice,
  recovery_digit, next_word, recovery_scrambledword, word_in_mode, recovery_word,
}
use safe_t_mcu.Recovery.Run.{run}
use safe_t_mcu.Recovery.Matrix.{Fair, get_or-below}
use safe_t_mcu.Recovery.Bounds.{
  codes, InRange, Bounded, no_digits, more_digits, undo-InRange, word_in_mode-Bounded,
  ask_words-Bounded, run-Bounded,
}

-- The library with a first table that ends after 82 entries.
abbrev pub cut_table : Library → Library
cut_table L = record L { word_table1 = take 82 L.word_table1 }

get_or-take : (n i : ℕ) (xs : List ℕ) → i < n → get_or (take n xs) i 0 ≡ get_or xs i 0
get_or-take zero i xs h = absurd (omega (arith, h))
get_or-take (suc n) i [] h = refl
get_or-take (suc n) zero (x ∷ xs) h = refl
get_or-take (suc n) (suc i) (x ∷ xs) h = get_or-take n i xs (omega (arith, h))

same_if :
    {A : Type 0} (b : Bool) {x y x' y' : A}
    → (b ≡ true → x ≡ x')
    → (b ≡ false → y ≡ y')
    → (if b then x else y) ≡ (if b then x' else y')
same_if true f g = f refl
same_if false f g = g refl

-- The places that are read at the fourth and at the third choice.
third_place : (i p : ℕ) → (i % 4 == 3) ≡ true → p < codes (i % 4) → p / 9 < 81
third_place i p e h = ground arith

second_place : (i p : ℕ) → (i % 4 == 2) ≡ true → p < codes (i % 4) → p < 81
second_place i p e h = ground arith

module _ (L : Library) where
  table1-cut_table : (x : ℕ) → x < 82 → table1 (cut_table L) x ≡ table1 L x
  table1-cut_table x h = ap (λ v. v % 2 ^ 12) (get_or-take 82 x L.word_table1 h)

  choices-cut_table :
      (i p : ℕ) → p < codes (i % 4) → choices (cut_table L) (i % 4) p ≡ choices L (i % 4) p
  choices-cut_table i p h =
      same_if (i % 4 == 3)
        (λ e.
          ap (λ t. (table2 L (t + p % 9 + 1) + 2 ^ 32 - table2 L (t + p % 9)) % 2 ^ 32)
            (table1-cut_table (p / 9) (omega (arith, third_place i p e h))))
        (λ _.
          same_if (i % 4 == 2)
            (λ e.
              let low = second_place i p e h in
              ap (λ t. (t + 2 ^ 32 - table1 (cut_table L) p) % 2 ^ 32)
                (table1-cut_table (p + 1) (omega (arith, low)))
              ∙ ap (λ t. (table1 L (p + 1) + 2 ^ 32 - t) % 2 ^ 32)
                  (table1-cut_table p (omega (arith, low))))
            (λ _. refl))

  module _ (r : Chance) where
    next_matrix-cut_table :
        (s : Recovery)
        → s.word_pincode < codes (s.word_index % 4)
        → next_matrix (cut_table L) r s ≡ next_matrix L r s
    unfolding next_matrix
    next_matrix-cut_table s h =
        ap
          (λ n.
            recovery_request (record s {
              word_matrix = display_choices r.random_permute (s.word_index % 4 == 3) n;
            }))
          (choices-cut_table s.word_index s.word_pincode h)

    final_choice-cut_table :
        (choice : ℕ) (s : Recovery)
        → (s.word_index % 4 == 3) ≡ true
        → s.word_pincode < codes (s.word_index % 4)
        → final_choice (cut_table L) r choice s ≡ final_choice L r choice s
    unfolding recovery_done
    final_choice-cut_table choice s e h =
        let widx = s.word_index / 4 in
        let chosen : ℕ → Recovery = λ t. record s {
          word_pincode = 0;
          words =
              set s.words widx
                (strlcpy 12 (get_or L.wordlist (table2 L (t + s.word_pincode % 9) + choice) []));
        } in
        ap (λ t. word_chosen (cut_table L) r widx (chosen t))
          (table1-cut_table (s.word_pincode / 9)
            (omega (arith, third_place s.word_index s.word_pincode e h)))
        ∙ same_if (widx + 1 == s.word_count) (λ _. refl)
            (λ _. next_matrix-cut_table _ (no_digits (s.word_index + 1)))

  module _ (r : Chance) (word : List ℕ) (fair : Fair (r, word)) where
    -- The digit that is no last one goes into the code.
    recovery_digit-cut_table :
        (digit : ℕ) (s : Recovery)
        → InRange s
        → recovery_digit (cut_table L) r digit s ≡ recovery_digit L r digit s
    unfolding recovery_digit
    recovery_digit-cut_table digit s p =
        let choice = get_or s.word_matrix (digit - b'1') 0 in
        same_if (digit == 8)
          (λ _. next_matrix-cut_table r (undo L s) (undo-InRange L r word fair s p).pincode)
          (λ _.
            same_if (ltb digit b'1' || ltb b'9' digit) (λ _. refl)
              (λ _.
                same_if (s.word_index % 4 == 3) (λ e. final_choice-cut_table r choice s e p.pincode)
                  (λ e. next_matrix-cut_table r _ (
                    more_digits s.word_index s.word_pincode choice e p.pincode
                      (get_or-below s.word_matrix (digit - b'1') p.choice)))))

    word_in_mode-cut_table :
        (m : Mode) (s : Recovery)
        → s.awaiting_word ≡ m
        → Bounded s
        → word_in_mode (cut_table L) m r word s ≡ word_in_mode L m r word s
    unfolding recovery_scrambledword next_word recovery_done
    word_in_mode-cut_table idle s e p = refl
    word_in_mode-cut_table scrambled s e p = refl
    word_in_mode-cut_table matrix s e p = recovery_digit-cut_table (get_or word 0 0) s (p.range e)

  run-same :
      (steps : List (Chance × List ℕ)) (s : Recovery)
      → All Fair steps
      → Bounded s
      → run (cut_table L) steps s ≡ run L steps s
  unfolding recovery_word
  run-same [] s fair p = refl
  run-same ((r, word) ∷ steps) s fair p =
      ap (run (cut_table L) steps) (word_in_mode-cut_table r word fair.0 s.awaiting_word s refl p)
      ∙ run-same steps _ fair.1 (word_in_mode-Bounded L r word fair.0 s.awaiting_word s refl p)

  ask_words-cut_table :
      (msg : RecoveryDevice) (r : Chance) (s : Recovery)
      → ask_words (cut_table L) msg r s ≡ ask_words L msg r s
  unfolding next_word
  ask_words-cut_table msg r s =
      same_if msg.by_matrix (λ _. next_matrix-cut_table r _ (omega arith)) (λ _. refl)

-- After recovery_init began to ask, whatever words and digits come in and with permutations that bring in no
-- greater elements: nothing that the first table has beyond its 82 entries matters, since with a table
-- that ends there every step does the same. While digits are asked for, the word in question is one
-- of the seed's, and code and choices are in range.
pub run-cut_table :
    (L : Library) (msg : RecoveryDevice) (r : Chance) (steps : List (Chance × List ℕ))
    (s : Recovery)
    → Fair (r, [])
    → All Fair steps
    → 0 < s.word_count
    → let s' = run L steps (ask_words L msg r s) in
      (run (cut_table L) steps (ask_words (cut_table L) msg r s) ≡ s') × Bounded s'
run-cut_table L msg r steps s fair fairs some_words =
    let start = ask_words-Bounded L msg r s fair some_words in
    (
      ap (run (cut_table L) steps) (ask_words-cut_table L msg r s)
          ∙ run-same L steps (ask_words L msg r s) fairs start,
      run-Bounded L steps (ask_words L msg r s) fairs start,
    )
