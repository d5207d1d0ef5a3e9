-- ===== src/Storage/Fields/Compare.antt =====
-- The comparisons of firmware/storage.c that do not depend on the secret in their running time.
use Prim.Native.Nat.{bit_or, bit_or-bitwise, digits, max}
use safe_t_mcu.Prelude.{
  ℕ, zero, suc, ◌+◌, ◌-◌, ◌/◌, ◌%◌, ◌^◌, ◌≤◌, ◌<◌, ◌≡◌, ◌↔◌, refl, sym, ap, ap₂, ◌∙◌, arith, true,
  List, [], ◌∷◌, ◌==◌, All,
}
use safe_t_mcu.Storage.{State}
use safe_t_mcu.Storage.Fields.{diff_from, storage_contains_pin, storage_contains_mnemonic}

-- A character of a string: a byte that is not its end.
abbrev pub IsChar : ℕ → Type 0
IsChar c = (1 ≤ c) × (c < 2 ^ 8)

digits_zero : (n a b : ℕ) → a ≤ n → digits (λ b. b) max n a b ≡ 0 → (a ≡ 0) × (b ≡ 0)
digits_zero zero a b h e = (omega arith, e)
digits_zero (suc n) zero b h e = (refl, e)
digits_zero (suc n) (suc a) b h e =
    let r = digits_zero n (suc a / 2) (b / 2) (omega arith) (omega arith) in
    absurd (omega (arith, r.0))

bit_or_zero : (a b : ℕ) → bit_or a b ≡ 0 → (a ≡ 0) × (b ≡ 0)
bit_or_zero a b e = digits_zero a a b (omega arith) (sym (λ i. bit_or-bitwise a b i) ∙ e)

byte_diff_zero : (x c : ℕ) → x < 2 ^ 8 → c < 2 ^ 8 → (x + 2 ^ 8 - c) % 2 ^ 8 ≡ 0 → x ≡ c
byte_diff_zero x c h k e = omega arith

byte_diff_self : (c : ℕ) → (c + 2 ^ 8 - c) % 2 ^ 8 ≡ 0
byte_diff_self c = omega arith

-- No difference is found only between equal strings.
diff_from_zero :
    (pin stored : List ℕ) (diff : ℕ)
    → All IsChar pin
    → All IsChar stored
    → diff_from diff stored pin ≡ 0
    → (diff ≡ 0) × (stored ≡ pin)
unfolding diff_from
diff_from_zero [] [] diff p q e = ((bit_or_zero diff 0 e).0, refl)
diff_from_zero [] (x ∷ xs) diff p q e = absurd (omega (arith, (bit_or_zero diff x e).1, q.0))
diff_from_zero (c ∷ cs) [] diff p q e =
    let r = diff_from_zero cs [] (bit_or diff ((0 + 2 ^ 8 - c) % 2 ^ 8)) p.1 tt e in
    absurd (
      omega (
        arith,
        byte_diff_zero 0 c (omega arith) p.0.1 (bit_or_zero diff ((0 + 2 ^ 8 - c) % 2 ^ 8) r.0).1,
        p.0.0,
      ))
diff_from_zero (c ∷ cs) (x ∷ xs) diff p q e =
    let r = diff_from_zero cs xs (bit_or diff ((x + 2 ^ 8 - c) % 2 ^ 8)) p.1 q.1 e in
    let b = bit_or_zero diff ((x + 2 ^ 8 - c) % 2 ^ 8) r.0 in
    (b.0, ap₂ ◌∷◌ (byte_diff_zero x c q.0.1 p.0.1 b.1) r.1)

diff_from_self : (pin : List ℕ) → diff_from 0 pin pin ≡ 0
unfolding diff_from
diff_from_self [] = refl
diff_from_self (c ∷ cs) = rw (byte_diff_self c) (diff_from_self cs)

eq_zero : (a : ℕ) → (a == 0) ≡ true → a ≡ 0
eq_zero a h = ground arith

-- `storage_containsPin` accepts exactly the stored PIN, both being strings of bytes other than zero.
pub storage_contains_pin_iff :
    (s : State) (pin : List ℕ)
    → All IsChar pin
    → All IsChar s.rom.pin
    → (storage_contains_pin pin s ≡ true) ↔ (s.rom.pin ≡ pin)
unfolding storage_contains_pin
storage_contains_pin_iff s pin p q = (
  λ e. (diff_from_zero pin s.rom.pin 0 p q (eq_zero (diff_from 0 s.rom.pin pin) e)).1,
  λ e. ap (λ (d : ℕ). d == 0) (ap (λ (t : List ℕ). diff_from 0 t pin) e ∙ diff_from_self pin),
)

-- `storage_containsMnemonic` accepts exactly the stored mnemonic, both being strings of bytes other
-- than zero.
pub storage_contains_mnemonic_iff :
    (s : State) (mnemonic : List ℕ)
    → All IsChar mnemonic
    → All IsChar s.rom.mnemonic
    → (storage_contains_mnemonic mnemonic s ≡ true) ↔ (s.rom.mnemonic ≡ mnemonic)
unfolding storage_contains_mnemonic
storage_contains_mnemonic_iff s mnemonic p q = (
  λ e.
      (diff_from_zero mnemonic s.rom.mnemonic 0 p q
        (eq_zero (diff_from 0 s.rom.mnemonic mnemonic) e)).1,
  λ e.
      ap (λ (d : ℕ). d == 0)
        (ap (λ (t : List ℕ). diff_from 0 t mnemonic) e ∙ diff_from_self mnemonic),
)
