-- ===== src/Protect/Change.antt =====
-- `protectChangePin` of firmware/protect.c: the PIN changes only if it is entered twice.
use safe_t_mcu.Prelude.{
  text_eq, ℕ, ◌≤◌, ◌≡◌, refl, arith, Bool, true, false, List, [], ◌∷◌, none, some, length, ◌==◌,
  if◌then◌else◌, take_all,
}
use safe_t_mcu.Storage.{Node}
use safe_t_mcu.Storage.Commit.{storage_update}
use safe_t_mcu.Storage.Fields.{storage_set_pin}
use safe_t_mcu.Protect.{Device, Attempt, request_pin, first_entry, protect_change_pin}

text_eq_refl : (xs : List ℕ) → text_eq xs xs ≡ true
text_eq_refl [] = refl
text_eq_refl (x ∷ xs) = rw (same x) (text_eq_refl xs)
  where
    same : (a : ℕ) → (a == a) ≡ true
    same a = ground arith

some_if :
    {A : Type 0} (b : Bool) (x y : A) → some (if b then x else y) ≡ (if b then some x else some y)
some_if true x y = refl
some_if false x y = refl

module _ (compute_u2froot : List ℕ → Node) (random_uuid : List ℕ) where
  -- When both entries are made, of at most 16 characters, and there is no buffer: if they agree, the
  -- first is set and written and the result is true; if not, the result is false and the device is
  -- as the second entry left it.
  pub protect_change_pin_entered :
      (t1 t2 : Attempt) (d d1 d2 : Device) (pin1 pin2 : List ℕ)
      → length pin1 ≤ 16
      → length pin2 ≤ 16
      → request_pin t1.keypad t1.polls d ≡ some (some pin1, d1)
      → request_pin t2.keypad t2.polls d1 ≡ some (some pin2, d2)
      → protect_change_pin compute_u2froot random_uuid none t1 t2 d ≡ (
          if text_eq pin1 pin2
          then some (
            true,
            none,
            record d2 { store = storage_update compute_u2froot (storage_set_pin pin1 d2.store) },
          )
          else some (false, none, d2))
  unfolding protect_change_pin
  protect_change_pin_entered t1 t2 d d1 d2 pin1 pin2 h k e f =
      rw
        (
          e,
          first_entry,
          f,
          take_all 16 pin1 h,
          take_all 17 pin1 (omega arith),
          take_all 17 pin2 (omega arith),
        )
        (some_if (text_eq pin1 pin2)
          (
            true,
            none,
            record d2 { store = storage_update compute_u2froot (storage_set_pin pin1 d2.store) },
          )
          (false, none, d2))
