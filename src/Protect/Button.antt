-- ===== src/Protect/Button.antt =====
-- `protectButton` of firmware/protect.c: what a confirmation presupposes.
use safe_t_mcu.Prelude.{
  ℕ, ◌≡◌, refl, sym, ◌∙◌, Bool, true, false, ◌||◌, List, [], ◌∷◌, Bool-cases, inl, inr, Option,
  none, some, if◌then◌else◌,
}
use safe_t_mcu.Buttons.{ButtonState, button_update}
use safe_t_mcu.Protect.{
  Tiny, nothing, Turn, Device, deliver, is_button_ack, is_cancel, is_initialize, button_loop,
  protect_button,
}

-- The turns bring a ButtonAck by `usbPoll`.
abbrev pub any_ack : List Turn → Bool
any_ack [] = false
any_ack (t ∷ turns) = is_button_ack (deliver t.polled nothing) || any_ack turns

ack_from :
    (m : Option Tiny) (box : Tiny)
    → is_button_ack box ≡ false
    → is_button_ack (deliver m box) ≡ is_button_ack (deliver m nothing)
ack_from none box h = h
ack_from (some m) box h = refl

not_cancelled :
    (c x r : Bool) (rest : Option (Bool × Bool))
    → (if c then some (false, x) else rest) ≡ some (true, r)
    → rest ≡ some (true, r)
not_cancelled true x r rest e = cc
not_cancelled false x r rest e = e

module _ (btn_pin_yes btn_pin_no : ℕ) where
  -- A turn before ButtonAck: the buttons are not read.
  unacked_turn :
      (confirm_only : Bool) (t : Turn) (turns : List Turn) (box : Tiny) (b : ButtonState)
      → is_button_ack (deliver t.polled box) ≡ false
      → let m = deliver t.polled box in
        button_loop btn_pin_yes btn_pin_no confirm_only (t ∷ turns) false box b ≡ (
          if is_cancel m || is_initialize m
          then some (false, is_initialize m)
          else button_loop btn_pin_yes btn_pin_no confirm_only turns false m b)
  unfolding button_loop
  unacked_turn confirm_only t turns box b f = rw (button_loop, f) refl

  confirmed :
      (confirm_only : Bool) (turns : List Turn) (box : Tiny) (b : ButtonState) (r : Bool)
      → is_button_ack box ≡ false
      → button_loop btn_pin_yes btn_pin_no confirm_only turns false box b ≡ some (true, r)
      → any_ack turns ≡ true
  unfolding button_loop
  confirmed confirm_only [] box b r h e = cc
  confirmed confirm_only (t ∷ turns) box b r h e =
      let m : Tiny = deliver t.polled box in
      let same = ack_from t.polled box h in
      elim (Bool-cases (is_button_ack m)) [
        | inl y ↦ rw (sym same, y) refl
        | inr f ↦
            rw (sym same, f)
              (confirmed confirm_only turns m b r f (
                not_cancelled (is_cancel m || is_initialize m) (is_initialize m) r
                  (button_loop btn_pin_yes btn_pin_no confirm_only turns false m b)
                  (sym (unacked_turn confirm_only t turns box b f) ∙ e)))
      ]

  -- The user can only confirm after the host has sent ButtonAck in the course of the dialogue, if it
  -- had not sent one before.
  pub protect_button_confirmed :
      (confirm_only : Bool) (buttons : ℕ) (turns : List Turn) (b : ButtonState) (d : Device)
      (r : Bool)
      → is_button_ack d.box ≡ false
      → protect_button btn_pin_yes btn_pin_no confirm_only buttons turns b d ≡ some (true, r)
      → any_ack turns ≡ true
  unfolding protect_button
  protect_button_confirmed confirm_only buttons turns b d r h e =
      confirmed confirm_only turns d.box (button_update btn_pin_yes btn_pin_no buttons b) r h e
