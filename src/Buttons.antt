-- ===== src/Buttons.antt =====
-- The two buttons, buttons.c: when one is pressed, for how long, and when it is released.
use Prim.Native.Nat.{bit_and}
use safe_t_mcu.Prelude.{
  ℕ, ◌+◌, ◌≤◌, ◌<◌, ◌≡◌, refl, arith, Bool, true, false, ltb, ◌==◌, if◌then◌else◌, List, [], ◌∷◌,
  length, All, ◌∙◌,
}

-- `struct buttonState`, with the `last_state` that `buttonUpdate` keeps.
pub record ButtonState : Type 0 where
  pub yes_up : Bool
  pub yes_down : ℕ
  pub no_up : Bool
  pub no_down : ℕ
  pub last_state : ℕ

-- One button, by whether it is down and whether it was: whether it is released now, and how long it
-- has been down.
abbrev pub button_step : Bool → Bool → ℕ → Bool × ℕ
button_step true true count = (false, if ltb count 2000000000 then count + 1 else count)
button_step true false count = (false, 0)
button_step false true count = (true, 0)
button_step false false count = (false, 0)

less : (a : ℕ) → a < 2000000000 → ltb a 2000000000 ≡ true
less a h = ground arith

-- BTN_PIN_YES and BTN_PIN_NO are masks of the board library.
module _ (btn_pin_yes btn_pin_no : ℕ) where
  abbrev pub is_down : ℕ → ℕ → Bool
  is_down pin state = bit_and state pin == 0

  -- `buttonUpdate`, on what `buttonRead` returns
  unfoldable pub button_update : ℕ → ButtonState → ButtonState
  button_update state b =
      let yes =
        button_step (is_down btn_pin_yes state) (is_down btn_pin_yes b.last_state) b.yes_down in
      let no = button_step (is_down btn_pin_no state) (is_down btn_pin_no b.last_state) b.no_down in
      record { yes_up = yes.0; yes_down = yes.1; no_up = no.0; no_down = no.1; last_state = state }

  -- Several reads, one after another.
  abbrev pub button_updates : List ℕ → ButtonState → ButtonState
  button_updates [] b = b
  button_updates (state ∷ states) b = button_updates states (button_update state b)

  stays_down :
      (states : List ℕ) (b : ButtonState)
      → is_down btn_pin_yes b.last_state ≡ true
      → All (λ s. is_down btn_pin_yes s ≡ true) states
      → b.yes_down + length states ≤ 2000000000
      → ((button_updates states b).yes_down ≡ b.yes_down + length states)
        × (is_down btn_pin_yes (button_updates states b).last_state ≡ true)
  unfolding button_update
  stays_down [] b h a l = (omega arith, h)
  stays_down (s ∷ states) b h a l =
      let c : ((button_update s b).yes_down ≡ b.yes_down + 1) =
        rw (button_update, a.0, h, less b.yes_down (omega arith)) refl in
      let ih = stays_down states (button_update s b) a.0 a.1 (omega (arith, c)) in
      (ih.0 ∙ omega (arith, c), ih.1)

  -- Yes is pressed, held for some more reads and let go: its time is the number of those reads, and
  -- only the read after that reports the release.
  pub button_updates-press :
      (first last : ℕ) (held : List ℕ) (b : ButtonState)
      → is_down btn_pin_yes b.last_state ≡ false
      → is_down btn_pin_yes first ≡ true
      → All (λ s. is_down btn_pin_yes s ≡ true) held
      → is_down btn_pin_yes last ≡ false
      → length held ≤ 2000000000
      → let pressed = button_updates (first ∷ held) b in
        (pressed.yes_down ≡ length held)
        × ((button_update last pressed).yes_up ≡ true)
        × ((button_update last pressed).yes_down ≡ 0)
  unfolding button_update
  button_updates-press first last held b u f a l n =
      let c : ((button_update first b).yes_down ≡ 0) = rw (button_update, u, f) refl in
      let h =
        stays_down held (button_update first b) (rw (button_update, f) refl) a (omega (arith, c)) in
      (h.0 ∙ omega (arith, c), rw (button_update, l, h.1) refl, rw (button_update, l, h.1) refl)
