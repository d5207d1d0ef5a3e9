-- ===== src/Protect/Failures.antt =====
-- When the PIN dialogue ends without the right PIN, it has sent one failure.
use safe_t_mcu.Prelude.{
  ℕ, ◌≡◌, ap, ◌∙◌, Bool, true, false, not, ◌&&◌, ◌||◌, inl, inr, List, ◌∷◌, Option, none, some, ltb,
  ◌^◌, by_test, Option-cases,
}
use safe_t_mcu.Storage.{Node}
use safe_t_mcu.Storage.Fields.{storage_has_pin, storage_contains_pin, session_is_pin_cached}
use safe_t_mcu.Storage.PinArea.{
  storage_increase_pin_fails, storage_get_pin_fails_offset, storage_get_pin_wait,
}
use safe_t_mcu.Protect.{
  Device, PinFailure, pin_invalid, pin_cancelled, Outcome, returned, waiting, Attempt, request_pin,
  check_pin, ask_pin, protect_pin, protect_check_max_try, wait_loop, send_failure, wait_and_ask,
}
use safe_t_mcu.Protect.Keeps.{RequestPost, request_pin_lem}

abbrev pub Fails : List PinFailure → Outcome → Type 0
Fails fs (returned true d) = Unit
Fails fs (returned false d) = (f : PinFailure) × (d.failures ≡ f ∷ fs)
Fails fs o = Unit

module _ (compute_u2froot : List ℕ → Node) (random_uuid : List ℕ) where
  check_pin-Fails :
      (fails : ℕ) (pin : List ℕ) (d : Device) (fs : List PinFailure)
      → d.failures ≡ fs
      → Fails fs (check_pin compute_u2froot random_uuid fails pin d)
  unfolding check_pin protect_check_max_try
  check_pin-Fails fails pin d fs e =
      let inc = storage_increase_pin_fails fails d.store in
      let one = ap (λ (r : List PinFailure). pin_invalid ∷ r) e in
      by_test (Fails fs) (not inc.0) (λ _. (pin_invalid, one))
        (λ _.
          by_test (Fails fs) (storage_contains_pin pin inc.1) (λ _. tt)
            (λ _.
              by_test (Fails fs) (ltb (storage_get_pin_wait fails inc.1) (2 ^ 15))
                (λ _. (pin_invalid, one)) (λ _. tt)))

  request-Fails :
      (fails : ℕ) (d : Device) (fs : List PinFailure) (r : Option (Option (List ℕ) × Device))
      → d.failures ≡ fs
      → RequestPost d r
      → Fails fs (elim r [
        | none ↦ waiting
        | some (none, d1) ↦ returned false (send_failure pin_cancelled d1)
        | some (some pin, d1) ↦ check_pin compute_u2froot random_uuid fails pin d1
      ])
  request-Fails fails d fs none e h = tt
  request-Fails fails d fs (some (none, d1)) e h =
      (pin_cancelled, ap (λ (r : List PinFailure). pin_cancelled ∷ r) (h.1 ∙ e))
  request-Fails fails d fs (some (some pin, d1)) e h = check_pin-Fails fails pin d1 fs (h.1 ∙ e)

  wait-Fails :
      (fails wait : ℕ) (t : Attempt) (d : Device) (fs : List PinFailure)
      → d.failures ≡ fs
      → Fails fs (wait_and_ask compute_u2froot random_uuid fails wait t d)
  unfolding ask_pin
  wait-Fails fails wait t d fs e =
      let slept = wait_loop wait t.sleeps d.box in
      let d1 : Device = record d { box = slept.1 } in
      by_test (Fails fs) slept.0
        (λ _. (pin_cancelled, ap (λ (r : List PinFailure). pin_cancelled ∷ r) e))
        (λ _.
          request-Fails fails d1 fs (request_pin t.keypad t.polls d1) e
            (request_pin_lem t.keypad t.polls d1))

  pub protect_pin-Fails :
      (use_cached : Bool) (t : Attempt) (d : Device) (fs : List PinFailure)
      → d.failures ≡ fs
      → Fails fs (protect_pin compute_u2froot random_uuid use_cached t d)
  unfolding protect_pin protect_check_max_try
  protect_pin-Fails use_cached t d fs e =
      by_test (Fails fs)
        (not (storage_has_pin d.store) || (use_cached && session_is_pin_cached d.store)) (λ _. tt)
        (λ _. elim (Option-cases (storage_get_pin_fails_offset d.store)) [
          | inl none_found ↦ rw none_found tt
          | inr (fails, found) ↦ rw found (
              by_test (Fails fs) (ltb (storage_get_pin_wait fails d.store) (2 ^ 15))
                (λ _. wait-Fails fails (storage_get_pin_wait fails d.store) t d fs e) (λ _. tt))
        ])
