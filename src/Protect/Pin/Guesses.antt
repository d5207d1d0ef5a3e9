-- ===== src/Protect/Pin/Guesses.antt =====
-- Guessing the PIN: a run of `protectPin` for each of several wrong entries.
use safe_t_mcu.Prelude.{
  ℕ, zero, suc, ◌+◌, ◌-◌, ◌^◌, ◌≤◌, ◌≡◌, refl, ap, ◌∙◌, arith, true, false, not, ◌&&◌, List, [],
  ◌∷◌, All, length, Option,
}
use safe_t_mcu.PinMatrix.{pinmatrix_done}
use safe_t_mcu.Storage.{Node, Storage, State, zero_storage}
use safe_t_mcu.Storage.Commit.{is_empty}
use safe_t_mcu.Storage.Fields.{storage_has_pin, storage_contains_pin}
use safe_t_mcu.Storage.PinArea.Failures.{Counts}
use safe_t_mcu.Protect.{
  Tiny, nothing, Device, Attempt, Outcome, returned, wiped, waiting, lost, entered, request_loop,
  wait_loop, protect_pin,
}
use safe_t_mcu.Protect.Pin.{Enters, contains_rom, protect_pin_wrong, protect_pin_last}
use mathlib.Core.Path.{subst}
use native.Mathlib.Decide.{dec_lt}

-- The host is silent while the device waits, and then enters a PIN that is not the stored one.
pub record Wrong (s : State) (t : Attempt) : Type 0 where
  pub typed : List ℕ
  pub silent : t.sleeps ≡ []
  pub enters : request_loop t.polls nothing ≡ entered typed
  pub wrong : storage_contains_pin (pinmatrix_done t.keypad typed).0 s ≡ false

wait_silent : (n : ℕ) → wait_loop n [] nothing ≡ (false, nothing)
unfolding wait_loop
wait_silent zero = refl
wait_silent (suc n) = wait_silent n

has_rom : (s s' : State) → s'.rom ≡ s.rom → storage_has_pin s' ≡ storage_has_pin s
unfolding storage_has_pin
has_rom s s' e = ap (λ (r : Storage). r.has_pin && not (is_empty r.pin)) e

module _ (compute_u2froot : List ℕ → Node) (random_uuid : List ℕ) where
  -- One attempt after another, until the PIN is accepted or the device no longer answers.
  abbrev pub guess : List Attempt → Device → Outcome
  guess [] d = returned false d
  guess (t ∷ ts) d = elim (protect_pin compute_u2froot random_uuid false t d) [
    | returned false d' ↦ guess ts d'
    | returned true d' ↦ returned true d'
    | wiped d' ↦ wiped d'
    | waiting ↦ waiting
    | lost ↦ lost
  ]

  guess_next :
      (t : Attempt) (ts : List Attempt) (d d' : Device)
      → protect_pin compute_u2froot random_uuid false t d ≡ returned false d'
      → guess (t ∷ ts) d ≡ guess ts d'
  guess_next t ts d d' e = rw (guess, e) refl

  guess_stop :
      (t : Attempt) (ts : List Attempt) (d d' : Device)
      → protect_pin compute_u2froot random_uuid false t d ≡ wiped d'
      → guess (t ∷ ts) d ≡ wiped d'
  guess_stop t ts d d' e = rw (guess, e) refl

  Wrong-Enters :
      (s : State) (t : Attempt) (d : Device) (j : ℕ) (w : Wrong s t)
      → d.box ≡ nothing
      → Enters t d j (pinmatrix_done t.keypad w.typed).0
  Wrong-Enters s t d j w e = record {
    box = nothing;
    typed = w.typed;
    waits =
        ap (λ (m : List (Option Tiny)). wait_loop (2 ^ j - 1) m d.box) w.silent
        ∙ ap (λ (b : Tiny). wait_loop (2 ^ j - 1) [] b) e
        ∙ wait_silent (2 ^ j - 1);
    enters = w.enters;
    means = refl;
  }

  guess_from :
      (s : State) (ts : List Attempt) (d : Device) (a j : ℕ)
      → storage_has_pin s ≡ true
      → d.store.rom ≡ s.rom
      → d.box ≡ nothing
      → Counts d.store a j
      → All (Wrong s) ts
      → j ≤ 15
      → j + length ts ≡ 16
      → (d' : Device) × (guess ts d ≡ wiped d') × (d'.store.rom ≡ zero_storage)
  guess_from s [] d a j h r b c w l n = absurd (omega arith)
  guess_from s (t ∷ ts) d a j h r b c w l n =
      let e = Wrong-Enters s t d j w.0 b in
      let pin = (pinmatrix_done t.keypad w.0.typed).0 in
      let has = has_rom s d.store r ∙ h in
      let bad = contains_rom pin s d.store r ∙ w.0.wrong in
      elim (dec_lt j 15) [
        | yes p ↦
            (let step = protect_pin_wrong compute_u2froot random_uuid t d a j pin has c p e bad in
              let rest =
                guess_from s ts step.0 a (suc j) h (step.3 ∙ r) step.6 step.2 w.1 (omega arith)
                  (omega arith) in
              (rest.0, guess_next t ts d step.0 step.1 ∙ rest.1, rest.2))
        | no p ↦
            (let j15 : j ≡ 15 = omega arith in
              let last =
                protect_pin_last compute_u2froot random_uuid t d a pin has
                  (subst (λ k. Counts d.store a k) j15 c) (subst (λ k. Enters t d k pin) j15 e)
                  bad in
              (last.0, guess_stop t ts d last.0 last.1, last.2))
      ]

  -- On a device with a PIN, no failure counted and no message waiting, sixteen wrong PINs entered one
  -- after another, with a host that is silent in between, wipe the storage, and none of them is
  -- accepted.
  pub guess_wipes :
      (ts : List Attempt) (d : Device) (a : ℕ)
      → storage_has_pin d.store ≡ true
      → d.box ≡ nothing
      → Counts d.store a 0
      → All (Wrong d.store) ts
      → length ts ≡ 16
      → (d' : Device) × (guess ts d ≡ wiped d') × (d'.store.rom ≡ zero_storage)
  guess_wipes ts d a h b c w n =
      guess_from d.store ts d a 0 h refl b c w (omega arith) (omega arith)
