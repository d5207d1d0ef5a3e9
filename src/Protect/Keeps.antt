-- ===== src/Protect/Keeps.antt =====
-- What the PIN dialogue leaves stored: the secrets stay, nothing becomes pending, and when it
-- succeeds the device is unlocked.
use safe_t_mcu.Prelude.{
  ℕ, ◌+◌, ◌≡◌, refl, sym, ap, ◌∙◌, Bool, true, false, not, ◌&&◌, ◌||◌, ◌⊎◌, inl, inr, List, [], ◌∷◌,
  Option, none, some, leb, ltb, ◌^◌, by_test, Option-cases, arith,
}
use mathlib.Core.Path.{subst}
use safe_t_mcu.PinMatrix.{pinmatrix_done}
use safe_t_mcu.Storage.{Node, Storage, Session, State, zero_storage, pin_area, pin_area_len}
use safe_t_mcu.Storage.Commit.{storage_commit_locked, merge, commit_session}
use safe_t_mcu.Storage.Fields.{
  storage_has_pin, storage_contains_pin, session_cache_pin, session_is_pin_cached,
  session_cache_passphrase, session_is_passphrase_cached, storage_has_passphrase_protection,
}
use safe_t_mcu.Storage.PinArea.{
  storage_area_recycle, storage_reset_pin_fails, storage_increase_pin_fails,
  storage_get_pin_fails_offset, storage_get_pin_wait,
}
use safe_t_mcu.Protect.{
  Tiny, nothing, button_ack, cancel, initialize, other_message, pin_matrix_ack, passphrase_ack,
  deliver, passphrase_loop, passphrase_of, protect_passphrase, Device, PinFailure, pin_invalid,
  pin_cancelled, entered, cancelled, silent, request_loop, give_up, Outcome, returned, wiped,
  waiting, lost, Attempt, request_pin, check_pin, ask_pin, protect_pin, protect_check_max_try,
  wait_loop, send_failure, wait_and_ask,
}

-- The seed, the node and the PIN.
abbrev pub secrets : Storage → Bool × List ℕ × Bool × Node × Bool × List ℕ
secrets r = (r.has_mnemonic, r.mnemonic, r.has_node, r.node, r.has_pin, r.pin)

-- The secrets are those of `s0`, and nothing is pending.
pub record Kept (s0 s : State) : Type 0 where
  pub same : secrets s.rom ≡ secrets s0.rom
  pub settled : s.update ≡ zero_storage

-- There is no PIN, or it has been entered in this session.
abbrev pub IsUnlocked : State → Type 0
IsUnlocked s = (storage_has_pin s ≡ false) ⊎ (session_is_pin_cached s ≡ true)

increase-Kept :
    {s0 : State} (a : ℕ) (s : State) → Kept s0 s → Kept s0 (storage_increase_pin_fails a s).1
unfolding storage_increase_pin_fails
increase-Kept a s k = ground arith

-- A device that differs in no more than what the dialogues note.
abbrev pub PinPost : State → Device → Outcome → Type 0
PinPost s0 d0 (returned true d) = Kept s0 d.store × IsUnlocked d.store
PinPost s0 d0 (returned false d) =
    Kept s0 d.store × ((f : PinFailure) × (d.failures ≡ f ∷ d0.failures))
PinPost s0 d0 o = Unit

abbrev pub RequestPost : Device → Option (Option (List ℕ) × Device) → Type 0
RequestPost d0 none = Unit
RequestPost d0 (some (pin, d)) = (d.store ≡ d0.store) × (d.failures ≡ d0.failures)

pub request_pin_lem :
    (perm : List ℕ) (polls : List (Option Tiny)) (d : Device)
    → RequestPost d (request_pin perm polls d)
unfolding request_pin
request_pin_lem perm polls d =
    elim (request_loop polls d.box)
      as (λ r. RequestPost d (elim r [
        | entered typed ↦ some (
          some (pinmatrix_done perm typed).0,
          record d { perm = (pinmatrix_done perm typed).1; box = nothing },
        )
        | cancelled init ↦ some (none, give_up init d)
        | silent ↦ none
      ])) [ entered typed ↦ (refl, refl) | cancelled init ↦ (refl, refl) | silent ↦ tt ]

module _ (compute_u2froot : List ℕ → Node) (random_uuid : List ℕ) where
  merge_u2f :
      (rom : Storage) (n : ℕ)
      → secrets (
          merge compute_u2froot rom
            (record zero_storage { has_u2f_counter = true; u2f_counter = n }))
        ≡ secrets rom
  unfolding merge
  merge_u2f rom n = refl

  merge_settled :
      (rom : Storage) (n : ℕ) {u : Storage}
      → u ≡ zero_storage
      → secrets (merge compute_u2froot rom (record u { has_u2f_counter = true; u2f_counter = n }))
        ≡ secrets rom
  merge_settled rom n e =
      ap
        (λ (u : Storage).
          secrets
            (merge compute_u2froot rom (record u { has_u2f_counter = true; u2f_counter = n })))
        e
      ∙ merge_u2f rom n

  reset-Kept :
      {s0 : State} (a : ℕ) (s : State)
      → Kept s0 s
      → Kept s0 (storage_reset_pin_fails compute_u2froot a s)
  unfolding storage_reset_pin_fails storage_area_recycle storage_commit_locked
  reset-Kept {s0} a s k =
      by_test (Kept s0) (leb (pin_area + pin_area_len) (a + 4))
        (λ _. record { same = merge_settled s.rom _ k.settled ∙ k.same; settled = refl })
        (λ _. record { same = k.same; settled = k.settled })

  session_settled :
      (s : Session) (n : ℕ) {u : Storage}
      → u ≡ zero_storage
      → commit_session compute_u2froot (record u { has_u2f_counter = true; u2f_counter = n }) s ≡ s
  unfolding commit_session
  session_settled s n e =
      ap
        (λ (u : Storage).
          commit_session compute_u2froot (record u { has_u2f_counter = true; u2f_counter = n }) s)
        e

  reset_cached :
      (a : ℕ) (s : State)
      → s.update ≡ zero_storage
      → session_is_pin_cached s ≡ true
      → session_is_pin_cached (storage_reset_pin_fails compute_u2froot a s) ≡ true
  unfolding storage_reset_pin_fails storage_area_recycle storage_commit_locked session_is_pin_cached
  reset_cached a s e h =
      by_test (λ (t : State). t.session.pin_cached ≡ true) (leb (pin_area + pin_area_len) (a + 4))
        (λ _. ap (λ (c : Session). c.pin_cached) (session_settled s.session _ e) ∙ h) (λ _. h)

  cached-Kept : {s0 : State} (s : State) → Kept s0 s → Kept s0 (session_cache_pin s)
  unfolding session_cache_pin
  cached-Kept s k = record { same = k.same; settled = k.settled }

  is_cached : (s : State) → session_is_pin_cached (session_cache_pin s) ≡ true
  unfolding session_cache_pin session_is_pin_cached
  is_cached s = refl

  check_pin_lem :
      {s0 : State} (fails : ℕ) (pin : List ℕ) (d : Device)
      → Kept s0 d.store
      → PinPost s0 d (check_pin compute_u2froot random_uuid fails pin d)
  unfolding check_pin protect_check_max_try
  check_pin_lem {s0} fails pin d k =
      let inc = storage_increase_pin_fails fails d.store in
      let k1 = increase-Kept fails d.store k in
      by_test (PinPost s0 d) (not inc.0) (λ _. (k1, (pin_invalid, refl)))
        (λ _.
          by_test (PinPost s0 d) (storage_contains_pin pin inc.1)
            (λ _. (
              reset-Kept fails (session_cache_pin inc.1) (cached-Kept inc.1 k1),
              inr (
                  reset_cached fails (session_cache_pin inc.1) (cached-Kept inc.1 k1).settled
                    (is_cached inc.1)),
            ))
            (λ _.
              by_test (PinPost s0 d) (ltb (storage_get_pin_wait fails inc.1) (2 ^ 15))
                (λ _. (k1, (pin_invalid, refl))) (λ _. tt)))

  pin_of_request :
      {s0 : State} (fails : ℕ) (d : Device) (r : Option (Option (List ℕ) × Device))
      → Kept s0 d.store
      → RequestPost d r
      → PinPost s0 d (elim r [
        | none ↦ waiting
        | some (none, d1) ↦ returned false (send_failure pin_cancelled d1)
        | some (some pin, d1) ↦ check_pin compute_u2froot random_uuid fails pin d1
      ])
  pin_of_request fails d none k h = tt
  pin_of_request {s0} fails d (some (none, d1)) k h = (
    subst (Kept s0) (sym h.0) k,
    (pin_cancelled, ap (λ (fs : List PinFailure). pin_cancelled ∷ fs) h.1),
  )
  pin_of_request {s0} fails d (some (some pin, d1)) k h =
      moved (check_pin compute_u2froot random_uuid fails pin d1) h.1
        (check_pin_lem fails pin d1 (subst (Kept s0) (sym h.0) k))
    where
      moved : (o : Outcome) → d1.failures ≡ d.failures → PinPost s0 d1 o → PinPost s0 d o
      moved (returned true e) q p = p
      moved (returned false e) q p =
          (p.0, (p.1.0, p.1.1 ∙ ap (λ (fs : List PinFailure). p.1.0 ∷ fs) q))
      moved (wiped e) q p = tt
      moved waiting q p = tt
      moved lost q p = tt

  ask_pin_lem :
      {s0 : State} (fails : ℕ) (t : Attempt) (d : Device)
      → Kept s0 d.store
      → PinPost s0 d (ask_pin compute_u2froot random_uuid fails t d)
  unfolding ask_pin
  ask_pin_lem fails t d k =
      pin_of_request fails d (request_pin t.keypad t.polls d) k (request_pin_lem t.keypad t.polls d)

  pin_of_wait :
      {s0 : State} (fails wait : ℕ) (t : Attempt) (d : Device)
      → Kept s0 d.store
      → PinPost s0 d (wait_and_ask compute_u2froot random_uuid fails wait t d)
  pin_of_wait {s0} fails wait t d k =
      let slept = wait_loop wait t.sleeps d.box in
      by_test (PinPost s0 d) slept.0 (λ _. (k, (pin_cancelled, refl)))
        (λ _. ask_pin_lem fails t (record d { box = slept.1 }) k)

  -- Whatever comes in while the PIN is asked for: the secrets stay and nothing becomes pending, unless
  -- the device is wiped; if the result is true, the device is unlocked, and if it is false, one
  -- failure has been sent.
  pub protect_pin-Kept :
      {s0 : State} (use_cached : Bool) (t : Attempt) (d : Device)
      → Kept s0 d.store
      → PinPost s0 d (protect_pin compute_u2froot random_uuid use_cached t d)
  unfolding protect_pin protect_check_max_try
  protect_pin-Kept {s0} use_cached t d k =
      by_test (PinPost s0 d)
        (not (storage_has_pin d.store) || (use_cached && session_is_pin_cached d.store))
        (λ e. (k, unlocked (storage_has_pin d.store) (session_is_pin_cached d.store) use_cached e))
        (λ _. elim (Option-cases (storage_get_pin_fails_offset d.store)) [
          | inl e ↦ rw e tt
          | inr (fails, e) ↦ rw e (
              by_test (PinPost s0 d) (ltb (storage_get_pin_wait fails d.store) (2 ^ 15))
                (λ _. pin_of_wait fails (storage_get_pin_wait fails d.store) t d k) (λ _. tt))
        ])
    where
      unlocked :
          (has cached may : Bool)
          → (not has || (may && cached)) ≡ true
          → (has ≡ false) ⊎ (cached ≡ true)
      unlocked false cached may e = inl refl
      unlocked true true may e = inr refl
      unlocked true false true e = cc
      unlocked true false false e = cc

-- What the passphrase dialogue leaves alone.
pub record SamePin (s0 s : State) : Type 0 where
  pub rom : s.rom ≡ s0.rom
  pub pending : s.update ≡ s0.update
  pub pin_cached : s.session.pin_cached ≡ s0.session.pin_cached

abbrev pub PassphrasePost : State → Option (Bool × Device) → Type 0
PassphrasePost s0 none = Unit
PassphrasePost s0 (some (ok, d)) = SamePin s0 d.store

passphrase_loop_lem :
    (polls : List (Option Tiny)) (d : Device) → PassphrasePost d.store (passphrase_loop polls d)
unfolding session_cache_passphrase
passphrase_loop_lem [] d = tt
passphrase_loop_lem (p ∷ polls) d =
    let d1 : Device = record d { box = deliver p d.box } in
    step (deliver p d.box) (passphrase_loop_lem polls d1)
  where
    same : SamePin d.store d.store
    same = record { rom = refl; pending = refl; pin_cached = refl }

    step :
        (m : Tiny)
        → PassphrasePost d.store (passphrase_loop polls (record d { box = deliver p d.box }))
        → PassphrasePost d.store (elim m [
          | passphrase_ack passphrase ↦ some (
            true,
            record d {
              box = nothing;
              store = session_cache_passphrase (passphrase_of passphrase) d.store;
            },
          )
          | cancel ↦ some (false, record d { box = nothing })
          | initialize ↦ some (false, record d { box = nothing; aborted_by_initialize = true })
          | _ ↦ passphrase_loop polls (record d { box = deliver p d.box })
        ])
    step (passphrase_ack passphrase) h = record { rom = refl; pending = refl; pin_cached = refl }
    step cancel h = same
    step initialize h = same
    step nothing h = h
    step button_ack h = h
    step other_message h = h
    step (pin_matrix_ack typed) h = h

pub protect_passphrase_lem :
    (polls : List (Option Tiny)) (d : Device) → PassphrasePost d.store (protect_passphrase polls d)
unfolding protect_passphrase
protect_passphrase_lem polls d =
    by_test (PassphrasePost d.store)
      (not (storage_has_passphrase_protection d.store) || session_is_passphrase_cached d.store)
      (λ _. record { rom = refl; pending = refl; pin_cached = refl })
      (λ _. passphrase_loop_lem polls d)
