-- ===== src/Recovery/Matrix.antt =====
-- The matrix of choices, `display_choices` of firmware/recovery.c.
use safe_t_mcu.Prelude.{
  ℕ, zero, suc, ◌+◌, ◌≤◌, ◌<◌, ◌≡◌, refl, ap, ◌∙◌, arith, Bool, true, false, List, [], ◌∷◌, map,
  ltb, if◌then◌else◌, get_or, All,
}
use safe_t_mcu.Recovery.{Chance, range, display_choices}

-- What a random permutation gives was there before, as far as bounds go.
abbrev pub Fair : Chance × List ℕ → Type 0
Fair (r, word) =
    (n : ℕ) (xs : List ℕ) → All (λ x. x < n) xs → All (λ x. x < n) (r.random_permute xs)

range-below : (i n m : ℕ) → i + n ≤ m → All (λ x. x < m) (range i n)
range-below i zero m h = tt
range-below i (suc n) m h = (omega arith, range-below (i + 1) n m (omega arith))

capped :
    (num : ℕ) (xs : List ℕ)
    → All (λ x. x < 9) xs
    → All (λ x. x < 9) (map (λ i. if ltb num i then 0 else i) xs)
capped num [] h = tt
capped num (x ∷ xs) h = (ground (arith, h.0), capped num xs h.1)

pub get_or-below : (xs : List ℕ) (i : ℕ) → All (λ x. x < 9) xs → get_or xs i 0 < 9
get_or-below [] i h = omega arith
get_or-below (x ∷ xs) zero h = h.0
get_or-below (x ∷ xs) (suc i) h = get_or-below xs i h.1

taken :
    (xs places : List ℕ) → All (λ x. x < 9) xs → All (λ x. x < 9) (map (λ i. get_or xs i 0) places)
taken xs [] h = tt
taken xs (i ∷ places) h = (get_or-below xs i h, taken xs places h)

pub display_choices-below :
    (r : Chance) (two : Bool) (num : ℕ)
    → ((n : ℕ) (xs : List ℕ) → All (λ x. x < n) xs → All (λ x. x < n) (r.random_permute xs))
    → All (λ x. x < 9) (display_choices r.random_permute two num)
unfolding display_choices
display_choices-below r true num fair = taken _ (0 ∷ 1 ∷ 1 ∷ 2 ∷ 3 ∷ 3 ∷ 4 ∷ 5 ∷ 5 ∷ []) (
    capped num (r.random_permute (range 0 6))
      (fair 9 (range 0 6) (range-below 0 6 9 (omega arith))))
display_choices-below r false num fair =
    capped num (r.random_permute (range 0 9)) (fair 9 (range 0 9) (range-below 0 9 9 (omega arith)))

shown_choice : ℕ → ℕ → ℕ
shown_choice num i = if ltb num i then 0 else i

get_or-map :
    (num i : ℕ) (xs : List ℕ)
    → get_or (map (λ x. if ltb num x then 0 else x) xs) i 0 ≡ shown_choice num (get_or xs i 0)
unfolding shown_choice
get_or-map num i [] = ground arith
get_or-map num zero (x ∷ xs) = refl
get_or-map num (suc i) (x ∷ xs) = get_or-map num i xs

-- With three columns, the place at which the permutation has the number of choices keeps it, although the
-- choices that are offered are the numbers below: a choice above them can be picked there.
pub display_choices_overrun :
    (random_permute : List ℕ → List ℕ) (num place : ℕ)
    → get_or (random_permute (range 0 9)) place 0 ≡ num
    → get_or (display_choices random_permute false num) place 0 ≡ num
unfolding display_choices shown_choice
display_choices_overrun random_permute num place h =
    get_or-map num place (random_permute (range 0 9)) ∙ ap (shown_choice num) h ∙ same num
  where
    same : (n : ℕ) → shown_choice n n ≡ n
    same n = ground arith
