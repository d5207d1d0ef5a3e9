-- ===== src/PinMatrix.antt =====
-- The scrambled keypad, firmware/pinmatrix.c: the device shows the digits in random order, and the
-- host answers with places.
use safe_t_mcu.Prelude.{
  ℕ, suc, ◌+◌, ◌-◌, ◌≤◌, ◌<◌, ◌≡◌, refl, ap₂, arith, Bool, true, false, ◌&&◌, leb, ◌==◌,
  if◌then◌else◌, List, [], ◌∷◌, map, Bool-cases, inl, inr, length, get_or, replicate, All,
}

-- '1' to '9', which `random_permute` shuffles.
abbrev pub digits : List ℕ
digits = b'1' ∷ b'2' ∷ b'3' ∷ b'4' ∷ b'5' ∷ b'6' ∷ b'7' ∷ b'8' ∷ b'9' ∷ []

-- `pinmatrix_start`, on the shuffle of the random generator
unfoldable pub pinmatrix_start : (List ℕ → List ℕ) → List ℕ
pinmatrix_start random_permute = random_permute digits

-- One character in `pinmatrix_done`: a place stands for the digit there.
abbrev pub at_place : List ℕ → ℕ → ℕ
at_place perm c = if leb b'1' c && leb (c - b'1') 8 then get_or perm (c - b'1') b'X' else b'X'

-- `pinmatrix_done`: the PIN, and the keypad that is left.
unfoldable pub pinmatrix_done : List ℕ → List ℕ → List ℕ × List ℕ
pinmatrix_done perm pin = (map (at_place perm) pin, replicate 9 b'X')

-- The place of a digit on the keypad, as the user finds it.
abbrev pub index : List ℕ → ℕ → ℕ
index [] d = 0
index (x ∷ xs) d = let rest = index xs d in if x == d then 0 else suc rest

abbrev pub place : List ℕ → ℕ → ℕ
place perm d = b'1' + index perm d

-- The digit is somewhere on the keypad.
abbrev pub has_digit : ℕ → List ℕ → Bool
has_digit d [] = false
has_digit d (x ∷ xs) = if x == d then true else has_digit d xs

eq_of : (a b : ℕ) → (a == b) ≡ true → a ≡ b
eq_of a b h = ground arith

further :
    (x d : ℕ) (xs : List ℕ) → (x == d) ≡ false → has_digit d (x ∷ xs) ≡ true → has_digit d xs ≡ true
further x d xs e h = ground arith

get_or-index : (xs : List ℕ) (d : ℕ) → has_digit d xs ≡ true → get_or xs (index xs d) b'X' ≡ d
get_or-index [] d h = cc
get_or-index (x ∷ xs) d h = elim (Bool-cases (x == d)) [
  | inl e ↦ rw e (eq_of x d e)
  | inr e ↦ rw e (get_or-index xs d (further x d xs e h))
]

index_lt : (xs : List ℕ) (d : ℕ) → has_digit d xs ≡ true → index xs d < length xs
index_lt [] d h = cc
index_lt (x ∷ xs) d h = ground (arith, index_lt xs d)

is_place : (k : ℕ) → k ≤ 8 → (leb b'1' (b'1' + k) && leb (b'1' + k - b'1') 8) ≡ true
is_place k h = ground arith

cancel_place : (k : ℕ) → b'1' + k - b'1' ≡ k
cancel_place k = omega arith

place_back :
    (perm : List ℕ) (d : ℕ)
    → length perm ≤ 9
    → has_digit d perm ≡ true
    → at_place perm (place perm d) ≡ d
place_back perm d h p =
    rw (is_place (index perm d) (omega (arith, index_lt perm d p)), cancel_place (index perm d))
      (get_or-index perm d p)

-- The places that the user types, found on the keypad shown, come back as the digits meant.
pub pinmatrix_done-place :
    (perm pin : List ℕ)
    → length perm ≤ 9
    → All (λ d. has_digit d perm ≡ true) pin
    → (pinmatrix_done perm (map (place perm) pin)).0 ≡ pin
unfolding pinmatrix_done
pinmatrix_done-place perm [] h p = refl
pinmatrix_done-place perm (d ∷ pin) h p =
    ap₂ ◌∷◌ (place_back perm d h p.0) (pinmatrix_done-place perm pin h p.1)
