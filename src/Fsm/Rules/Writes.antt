-- ===== src/Fsm/Rules/Writes.antt =====
-- Rules for the steps that change what is stored.
use safe_t_mcu.Prelude.{
  ℕ, ◌≡◌, refl, ap, ◌∙◌, Bool, true, false, inl, inr, List, [], ◌∷◌, Option, none, some, by_test,
  All, text_eq, take,
}
use mathlib.Core.Path.{subst}
use safe_t_mcu.Storage.{State, zero_storage}
use safe_t_mcu.Storage.Commit.{storage_commit_locked, storage_update}
use safe_t_mcu.Storage.Fields.{strlcpy}
use safe_t_mcu.Protect.{Device, Attempt, request_pin, first_entry, second_entry, protect_change_pin}
use safe_t_mcu.Protect.Keeps.{Kept, RequestPost, request_pin_lem}
use safe_t_mcu.Wallet.Library.{Library}
use safe_t_mcu.Host.{
  Question, Response, Event, asked, derived, used_key, sent, called, World, Outcome, M, ◌>>=◌, say,
  stores, reply, rest_of, next_entry, pure, success, pin_changed, pin_removed, pin_mismatch,
  returned, stopped,
}
use safe_t_mcu.Fsm.{fail, check, check_initialized, check_pin}
use safe_t_mcu.Fsm.Settings.{enter_new_pin, after_change, carry_out, remove_stored}
use safe_t_mcu.Fsm.Rules.{
  Has, has_yes, Facts, Knows, Fine, Post, Does, Fine-say, Fine-send_failure, Does-check_initialized,
  Does-check_pin,
}

pub Does-weaken :
    {f g h : Facts} {A : Type 0} {m : M A}
    → Does f m g
    → ((s0 : State) (w : World) → Knows s0 g w → Knows s0 h w)
    → Does f m h
Does-weaken {g} {h} {m} d k = record { at = λ s0 w p. weaker s0 (m w) (d.at s0 w p) }
  where
    weaker : {A : Type 0} (s0 : State) (o : Outcome A) → Post s0 g o → Post s0 h o
    weaker s0 (returned a w) p = k s0 w p
    weaker s0 (stopped e w) p = p

pub Has-yes : (q : Question) (log : List Event) → Has q log → has_yes log ≡ true
Has-yes q [] h = elim h [ ]
Has-yes q (asked q' b ∷ log) (inl (e, yes_said)) = rw yes_said refl
Has-yes q (asked q' true ∷ log) (inr h) = refl
Has-yes q (asked q' false ∷ log) (inr h) = Has-yes q log h
Has-yes q (derived s ∷ log) h = Has-yes q log h
Has-yes q (used_key q' ∷ log) h = Has-yes q log h
Has-yes q (sent r ∷ log) h = Has-yes q log h
Has-yes q (called c ∷ log) h = Has-yes q log h

Knows-yes :
    {s0 : State} {f : Facts} {w : World} (q : Question)
    → f.confirmed ≡ q ∷ []
    → Knows s0 f w
    → has_yes w.log ≡ true
Knows-yes {w} q e p =
    let h : All (λ q'. Has q' w.log) (q ∷ []) = subst (All (λ q'. Has q' w.log)) e p.confirmed in
    Has-yes q w.log h.0

-- After a confirmation anything may be written.
pub Does-write_confirmed :
    {f g : Facts} {A : Type 0} (q : Question) (F : State → State) (r : Response)
    → f.confirmed ≡ q ∷ []
    → ((s : State) → (F s).update ≡ zero_storage)
    → Does f (stores F >>= λ _. reply {A = A} r) g
unfolding stores reply say
Does-write_confirmed q F r e z = record {
  at = λ s0 w p. record {
    guarded = p.guarded;
    kept = inl (Knows-yes q e p);
    settled = z w.device.store;
  };
}

-- Without one, what keeps the secrets.
pub Does-write :
    {f g : Facts} {A : Type 0} (F : State → State) (r : Response)
    → ((s0 s : State) → Kept s0 s → Kept s0 (F s))
    → Does f (stores F >>= λ _. reply {A = A} r) g
unfolding stores reply say
Does-write F r k = record {
  at = λ s0 w p.
      let k1 = k s0 w.device.store p.kept in
      record { guarded = p.guarded; kept = inr k1.same; settled = k1.settled };
}

module _ (L : Library) where
  pub Does-check_pin_only : {f : Facts} (use_cached : Bool) → Does f (check_pin L use_cached) f
  Does-check_pin_only use_cached = Does-weaken (Does-check_pin L use_cached) λ s0 w p. record {
    guarded = p.guarded;
    kept = p.kept;
    init = p.init;
    unlocked = λ _. p.unlocked refl;
    confirmed = p.confirmed;
  }

  pub Does-check_initialized_only : {f : Facts} → Does f (check_initialized L) f
  Does-check_initialized_only = Does-weaken (Does-check_initialized L) λ s0 w p. record {
    guarded = p.guarded;
    kept = p.kept;
    init = λ _. p.init refl;
    unlocked = p.unlocked;
    confirmed = p.confirmed;
  }

  removed_settled : (s : State) → (remove_stored L s).update ≡ zero_storage
  unfolding storage_update storage_commit_locked
  removed_settled s = refl

  -- A new PIN, after the user allowed it.
  abbrev ChangePost : Option (Bool × Option (List ℕ) × Device) → Type 0
  ChangePost none = Unit
  ChangePost (some (ok, pin, d)) = d.store.update ≡ zero_storage

  second_entry_lem :
      (compare : List ℕ) (r : Option (List ℕ) × Device)
      → r.1.store.update ≡ zero_storage
      → ChangePost (some (second_entry L.compute_u2froot L.random_uuid none compare r))
  unfolding storage_update storage_commit_locked
  second_entry_lem compare (none, d) z = z
  second_entry_lem compare (some pin, d) z =
      by_test (λ (r : Bool × Option (List ℕ) × Device). ChangePost (some r))
        (text_eq (take 17 compare) (take 17 pin)) (λ _. refl) (λ _. z)

  first_entry_lem :
      (t : Attempt) (r : Option (List ℕ) × Device)
      → r.1.store.update ≡ zero_storage
      → ChangePost (first_entry L.compute_u2froot L.random_uuid none t r)
  first_entry_lem t (none, d) z = z
  first_entry_lem t (some pin, d) z =
      second (request_pin t.keypad t.polls d) (request_pin_lem t.keypad t.polls d)
    where
      second :
          (o : Option (Option (List ℕ) × Device))
          → RequestPost d o
          → ChangePost (elim o [
            | none ↦ none
            | some r ↦ some (second_entry L.compute_u2froot L.random_uuid none (strlcpy 17 pin) r)
          ])
      second none h = tt
      second (some r) h = second_entry_lem (strlcpy 17 pin) r (ap (λ (s : State). s.update) h.0 ∙ z)

  change_pin_lem :
      (t1 t2 : Attempt) (d : Device)
      → d.store.update ≡ zero_storage
      → ChangePost (protect_change_pin L.compute_u2froot L.random_uuid none t1 t2 d)
  unfolding protect_change_pin
  change_pin_lem t1 t2 d z =
      first (request_pin t1.keypad t1.polls d) (request_pin_lem t1.keypad t1.polls d)
    where
      first :
          (o : Option (Option (List ℕ) × Device))
          → RequestPost d o
          → ChangePost (elim o [
            | none ↦ none
            | some r ↦ first_entry L.compute_u2froot L.random_uuid none t2 r
          ])
      first none h = tt
      first (some r) h = first_entry_lem t2 r (ap (λ (s : State). s.update) h.0 ∙ z)

  changed_post :
      {s0 : State} (g : Facts) (w : World) (o : Option (Bool × Option (List ℕ) × Device))
      → Fine s0 w
      → has_yes w.log ≡ true
      → ChangePost o
      → Post s0 g (
          ((λ v. after_change L v o)
              >>= (λ ok. check L ok pin_mismatch >>= λ _. reply {A = ⊥} (success pin_changed)))
            w)
  unfolding check fail pure reply
  changed_post g w none p y z = p
  changed_post g w (some (true, pin, d)) p y z =
      Fine-say (success pin_changed) (record { guarded = p.guarded; kept = inl y; settled = z })
  changed_post g w (some (false, pin, d)) p y z =
      Fine-send_failure L pin_mismatch (record w { device = d })
        (record { guarded = p.guarded; kept = inl y; settled = z })

  pub Does-carry_out :
      {f g : Facts} (q : Question) (removal : Bool)
      → f.confirmed ≡ q ∷ []
      → Does f (carry_out L removal) g
  unfolding enter_new_pin
  Does-carry_out q true e =
      Does-write_confirmed q (remove_stored L) (success pin_removed) e removed_settled
  Does-carry_out {g} q false e = record {
    at = λ s0 w p.
        let t1 = next_entry w.entries in
        let t2 = next_entry (rest_of w.entries) in
        changed_post g (record w { entries = rest_of (rest_of w.entries) })
          (protect_change_pin L.compute_u2froot L.random_uuid none t1 t2 w.device)
          (record { guarded = p.guarded; kept = inr p.kept.same; settled = p.kept.settled })
          (Knows-yes q e p) (change_pin_lem t1 t2 w.device p.kept.settled);
  }
