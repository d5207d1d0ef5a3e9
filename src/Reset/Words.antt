-- ===== src/Reset/Words.antt =====
-- The words that `reset_backup` shows: those of the mnemonic, in a bounded number of turns.
use safe_t_mcu.Prelude.{
  ℕ, zero, suc, ◌+◌, ◌≤◌, ◌≡◌, refl, ap, ◌∙◌, arith, false, List, [], ◌∷◌, ◌++◌, ◌==◌, length,
  length-drop, drop, All, inl, inr, Bool-cases,
}
use safe_t_mcu.Reset.{read_word, words_of}

-- A letter, and a word of the list: one to nine letters.
abbrev pub IsLetter : ℕ → Type 0
IsLetter c = (c == 32) ≡ false

abbrev pub IsWord : List ℕ → Type 0
IsWord w = (1 ≤ length w) × (length w ≤ 9) × All IsLetter w

-- The words in a row, with a space between two of them.
abbrev pub joined : List (List ℕ) → List ℕ
joined [] = []
joined (w ∷ []) = w
joined (w ∷ v ∷ ws) = w ++ 32 ∷ joined (v ∷ ws)

-- Every word takes characters away, with the one behind it.
shorter : (n : ℕ) (cs : List ℕ) → length (read_word n cs).1 ≤ length cs
unfolding read_word
shorter zero cs = omega arith
shorter (suc n) [] = omega arith
shorter (suc n) (c ∷ cs) = ground (arith, shorter n cs)

rest_shorter : (c : ℕ) (cs : List ℕ) → length (drop 1 (read_word 9 (c ∷ cs)).1) ≤ length cs
unfolding read_word
rest_shorter c cs = elim (Bool-cases (c == 32)) [
  | inl e ↦ rw e (omega arith)
  | inr e ↦ rw (e, length-drop 1 (read_word 8 cs).1) (omega (arith, shorter 8 cs))
]

-- Two numbers of turns that are at least the length of the mnemonic give the same words: the loop
-- over its characters ends.
pub words_of-enough :
    (n m : ℕ) (cs : List ℕ) → length cs ≤ n → length cs ≤ m → words_of n cs ≡ words_of m cs
unfolding words_of
words_of-enough zero zero cs h k = refl
words_of-enough zero (suc m) [] h k = refl
words_of-enough zero (suc m) (c ∷ cs) h k = absurd (omega arith)
words_of-enough (suc n) zero [] h k = refl
words_of-enough (suc n) zero (c ∷ cs) h k = absurd (omega arith)
words_of-enough (suc n) (suc m) [] h k = refl
words_of-enough (suc n) (suc m) (c ∷ cs) h k =
    let r = rest_shorter c cs in
    let w = read_word 9 (c ∷ cs) in
    ap (λ ws. w.0 ∷ ws) (words_of-enough n m (drop 1 w.1) (omega (arith, r)) (omega (arith, r)))

read_word-append :
    (n : ℕ) (w rest : List ℕ)
    → length w ≤ n
    → All IsLetter w
    → read_word n (w ++ 32 ∷ rest) ≡ (w, 32 ∷ rest)
unfolding read_word
read_word-append zero [] rest h l = refl
read_word-append zero (c ∷ w) rest h l = absurd (omega arith)
read_word-append (suc n) [] rest h l = refl
read_word-append (suc n) (c ∷ w) rest h l =
    rw (l.0, read_word-append n w rest (omega arith) l.1) refl

read_word-last : (n : ℕ) (w : List ℕ) → length w ≤ n → All IsLetter w → read_word n w ≡ (w, [])
unfolding read_word
read_word-last zero [] h l = refl
read_word-last zero (c ∷ w) h l = absurd (omega arith)
read_word-last (suc n) [] h l = refl
read_word-last (suc n) (c ∷ w) h l = rw (l.0, read_word-last n w (omega arith) l.1) refl

one_turn :
    (n : ℕ) (cs w rest : List ℕ)
    → 1 ≤ length w
    → read_word 9 cs ≡ (w, rest)
    → 1 ≤ length cs
    → words_of (suc n) cs ≡ w ∷ words_of n (drop 1 rest)
unfolding words_of
one_turn n [] w rest h e k = absurd (omega arith)
one_turn n (c ∷ cs) w rest h e k = ap (λ (r : List ℕ × List ℕ). r.0 ∷ words_of n (drop 1 r.1)) e

long_enough : (w cs : List ℕ) → 1 ≤ length w → 1 ≤ length (w ++ cs)
long_enough [] cs h = absurd (omega arith)
long_enough (c ∷ w) cs h = omega arith

-- With at least as many turns as words, the loop goes through exactly the words of the mnemonic that they
-- make, in their order, when each has one to nine letters.
pub words_of-joined :
    (n : ℕ) (ws : List (List ℕ)) → length ws ≤ n → All IsWord ws → words_of n (joined ws) ≡ ws
unfolding words_of
words_of-joined zero [] h l = refl
words_of-joined zero (w ∷ ws) h l = absurd (omega arith)
words_of-joined (suc n) [] h l = refl
words_of-joined (suc n) (w ∷ []) h l =
    one_turn n w w [] l.0.0 (read_word-last 9 w l.0.1 l.0.2) l.0.0
    ∙ ap (λ ws. w ∷ ws) (words_of-joined n [] (omega arith) tt)
words_of-joined (suc n) (w ∷ v ∷ ws) h l =
    one_turn n (w ++ 32 ∷ joined (v ∷ ws)) w (32 ∷ joined (v ∷ ws)) l.0.0
      (read_word-append 9 w (joined (v ∷ ws)) l.0.1 l.0.2)
      (long_enough w (32 ∷ joined (v ∷ ws)) l.0.0)
    ∙ ap (λ ws. w ∷ ws) (words_of-joined n (v ∷ ws) (omega arith) l.1)

enough_turns : (ws : List (List ℕ)) → All IsWord ws → length ws ≤ length (joined ws)
enough_turns [] l = omega arith
enough_turns (w ∷ []) l = l.0.0
enough_turns (w ∷ v ∷ ws) l =
    omega (arith, longer w (joined (v ∷ ws)) (length (v ∷ ws)) (enough_turns (v ∷ ws) l.1))
  where
    longer : (w cs : List ℕ) (n : ℕ) → n ≤ length cs → n + 1 ≤ length (w ++ 32 ∷ cs)
    longer [] cs n h = omega arith
    longer (c ∷ w) cs n h = omega (arith, longer w cs n h)

-- The turns that `reset_backup` makes are the words of the mnemonic, in their order, when each has one to
-- nine letters.
pub words_of-mnemonic :
    (ws : List (List ℕ)) → All IsWord ws → words_of (length (joined ws)) (joined ws) ≡ ws
words_of-mnemonic ws l = words_of-joined (length (joined ws)) ws (enough_turns ws l) l
