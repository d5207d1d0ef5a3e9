-- ===== src/Prelude/Arrays.antt =====
-- C arrays that are written in place, as functions from the index, and machine words as bytes.
use Prim.Native.Nat.{ℕ, zero, suc, ◌+◌, ◌*◌, ◌/◌, ◌%◌, ◌^◌, ◌≤◌, ◌<◌}
use mathlib.Core.Path.{◌≡◌, refl, ap, ap₂, ◌∙◌}
use mathlib.Core.Logic.{◌⊎◌}
use mathlib.Core.Bool.{Bool, true, false, ◌&&◌}
use mathlib.Core.List.{List, [], ◌∷◌, ◌++◌}
use native.Mathlib.Omega.{arith}
use native.Mathlib.Nat.{pow-suc}
use safe_t_mcu.Prelude.Tests.{◌==◌, if◌then◌else◌}
use safe_t_mcu.Prelude.Lists.{length}

abbrev pub Memory : Type 0
Memory = ℕ → ℕ

-- `m[p] = v`
abbrev pub update : Memory → ℕ → ℕ → Memory
update m p v q = if p == q then v else m q

-- `memcpy(m + p, xs, length xs)`
unfoldable pub write_at : Memory → ℕ → List ℕ → Memory
write_at m p [] = m
write_at m p (x ∷ xs) = write_at (update m p x) (p + 1) xs

-- The `n` bytes from index `p` on.
unfoldable pub read : Memory → ℕ → ℕ → List ℕ
read m p zero = []
read m p (suc n) = m p ∷ read m (p + 1) n

-- A cell outside the range that is written keeps its value.
pub write_at_outside :
    (xs : List ℕ) (m : Memory) (p q : ℕ) → (q < p) ⊎ (p + length xs ≤ q) → write_at m p xs q ≡ m q
unfolding write_at
write_at_outside [] m p q h = refl
write_at_outside (x ∷ xs) m p q h = ground (arith, write_at_outside xs (update m p x) (p + 1) q)

-- What is read in a range that the write does not meet is what it was.
pub read-write_at_outside :
    (n : ℕ) (xs : List ℕ) (m : Memory) (p q : ℕ)
    → (q + n ≤ p) ⊎ (p + length xs ≤ q)
    → read (write_at m p xs) q n ≡ read m q n
unfolding read
read-write_at_outside zero xs m p q h = refl
read-write_at_outside (suc n) xs m p q h =
    ap₂ ◌∷◌ (write_at_outside xs m p q (omega arith))
      (read-write_at_outside n xs m p (q + 1) (omega arith))

-- A write is read back.
pub read-write_at : (xs : List ℕ) (m : Memory) (p : ℕ) → read (write_at m p xs) p (length xs) ≡ xs
unfolding read write_at
read-write_at [] m p = refl
read-write_at (x ∷ xs) m p =
    ap₂ ◌∷◌ (ground (arith, write_at_outside xs (update m p x) (p + 1) p))
      (read-write_at xs (update m p x) (p + 1))

-- Reading two ranges that meet.
pub read-add : (n k : ℕ) (m : Memory) (p : ℕ) → read m p (n + k) ≡ read m p n ++ read m (p + n) k
unfolding read
read-add zero k m p = ap₂ (read m) (omega arith) (omega arith)
read-add (suc n) k m p =
    ap (read m p) (shift n k)
    ∙ ap (λ (r : List ℕ). m p ∷ r)
        (read-add n k m (p + 1) ∙ ap (λ (q : ℕ). read m (p + 1) n ++ read m q k) (omega arith))
  where
    shift : (a b : ℕ) → suc a + b ≡ suc (a + b)
    shift a b = omega arith

pub write_at-append :
    (xs ys : List ℕ) (m : Memory) (p : ℕ)
    → write_at m p (xs ++ ys) ≡ write_at (write_at m p xs) (p + length xs) ys
unfolding write_at
write_at-append [] ys m p = ap (λ q. write_at m q ys) (omega arith)
write_at-append (x ∷ xs) ys m p =
    write_at-append xs ys (update m p x) (p + 1)
    ∙ ap (λ q. write_at (write_at (update m p x) (p + 1) xs) q ys) (omega arith)

-- `strcmp(a, b) == 0`, and `memcmp` on strings of one length
abbrev pub text_eq : List ℕ → List ℕ → Bool
text_eq [] [] = true
text_eq [] (b ∷ bs) = false
text_eq (a ∷ as') [] = false
text_eq (a ∷ as') (b ∷ bs) = a == b && text_eq as' bs

-- The `n` low bytes of `x`, lowest first: a word in the memory of a little-endian machine.
unfoldable pub le_bytes : ℕ → ℕ → List ℕ
le_bytes zero x = []
le_bytes (suc n) x = (x % 256) ∷ le_bytes n (x / 256)

pub length-le_bytes : (n x : ℕ) → length (le_bytes n x) ≡ n
unfolding le_bytes
length-le_bytes zero x = refl
length-le_bytes (suc n) x = omega (arith, length-le_bytes n (x / 256))

-- The number that bytes stand for, lowest first.
unfoldable pub le_value : List ℕ → ℕ
le_value [] = 0
le_value (b ∷ bs) = b + 256 * le_value bs

-- Words survive the way through memory.
pub le_value-le_bytes : (n x : ℕ) → x < 256 ^ n → le_value (le_bytes n x) ≡ x
unfolding le_value le_bytes
le_value-le_bytes zero x h = omega arith
le_value-le_bytes (suc n) x h =
    omega (arith, le_value-le_bytes n (x / 256) (omega (arith, pow-suc 256 n)))
