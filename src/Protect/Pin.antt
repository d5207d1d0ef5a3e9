-- ===== src/Protect/Pin.antt =====
-- `protectPin` of firmware/protect.c: wrong PINs are counted, make the device wait, and wipe it in
-- the end; the right PIN ends the count.
pub mod Guesses
use safe_t_mcu.Prelude.{
  ℕ, zero, suc, ◌+◌, ◌-◌, ◌^◌, ◌≤◌, ◌<◌, ◌≡◌, refl, sym, ap, ◌∙◌, arith, Bool, true, false, not,
  ◌&&◌, ◌||◌, List, [], ◌∷◌, Option, none, some, ltb, leb, ◌==◌, if◌then◌else◌,
}
use safe_t_mcu.PinMatrix.{pinmatrix_done}
use safe_t_mcu.Storage.{Node, Storage, State, zero_storage, pin_area, pin_area_len}
use safe_t_mcu.Storage.Commit.{
  storage_wipe, storage_commit_locked, storage_clear_pin_area, commit_session,
}
use safe_t_mcu.Storage.Fields.{
  diff_from, storage_has_pin, storage_contains_pin, session_is_pin_cached, session_cache_pin,
}
use safe_t_mcu.Storage.PinArea.{
  storage_get_pin_fails_offset, storage_get_pin_wait, storage_increase_pin_fails,
  storage_area_recycle, storage_reset_pin_fails,
}
use safe_t_mcu.Storage.PinArea.Failures.{
  Counts, storage_get_pin_wait_lem, storage_increase_pin_fails-Counts,
  storage_reset_pin_fails-Counts, pow_range,
}
use safe_t_mcu.Protect.{
  Tiny, nothing, Device, Attempt, Outcome, returned, wiped, entered, request_loop, request_pin,
  wait_loop, check_pin, ask_pin, protect_pin, protect_check_max_try, send_failure, pin_invalid,
}
use native.Mathlib.Nat.{pow-le-pow_right}

less : (w : ℕ) → w < 2 ^ 15 → ltb w (2 ^ 15) ≡ true
less w h = ground arith

not_less : (w : ℕ) → 2 ^ 15 ≤ w → ltb w (2 ^ 15) ≡ false
not_less w h = ground arith

-- Up to fifteen failures the device only waits.
short_wait :
    (s : State) (a j : ℕ) → Counts s a j → j ≤ 15 → ltb (storage_get_pin_wait a s) (2 ^ 15) ≡ true
short_wait s a j c h = rw (storage_get_pin_wait_lem s a j c (omega arith)) (
    less (2 ^ j - 1)
      (omega (arith, pow-le-pow_right {n = 2} (omega arith) h, pow_range j (omega arith))))

long_wait : (s : State) (a : ℕ) → Counts s a 16 → ltb (storage_get_pin_wait a s) (2 ^ 15) ≡ false
long_wait s a c = rw (storage_get_pin_wait_lem s a 16 c (omega arith)) refl

pub contains_rom :
    (pin : List ℕ) (s s' : State)
    → s'.rom ≡ s.rom
    → storage_contains_pin pin s' ≡ storage_contains_pin pin s
unfolding storage_contains_pin
contains_rom pin s s' e = ap (λ (r : Storage). diff_from 0 r.pin pin == 0) e

cached_Counts : (s : State) (a j : ℕ) → Counts s a j → Counts (session_cache_pin s) a j
unfolding session_cache_pin storage_get_pin_fails_offset
cached_Counts s a j c = record {
  found = c.found;
  inside = c.inside;
  aligned = c.aligned;
  word = c.word;
  fresh = c.fresh;
}

-- The host enters a PIN, and nothing ends the waiting.
pub record Enters (t : Attempt) (d : Device) (j : ℕ) (pin : List ℕ) : Type 0 where
  pub box : Tiny
  pub typed : List ℕ
  pub waits : wait_loop (2 ^ j - 1) t.sleeps d.box ≡ (false, box)
  pub enters : request_loop t.polls box ≡ entered typed
  pub means : (pinmatrix_done t.keypad typed).0 ≡ pin

-- The device when a PIN has been entered.
abbrev pub asked : Attempt → Device → Device
asked t d = record d { perm = (pinmatrix_done t.keypad []).1; box = nothing }

module _ (compute_u2froot : List ℕ → Node) (random_uuid : List ℕ) where
  -- What `check_pin` does, by the outcomes of its tests.
  check_pin_refuses :
      (a : ℕ) (pin : List ℕ) (d : Device)
      → let (done, s') = storage_increase_pin_fails a d.store in
        done ≡ true
        → storage_contains_pin pin s' ≡ false
        → ltb (storage_get_pin_wait a s') (2 ^ 15) ≡ true
        → check_pin compute_u2froot random_uuid a pin d
          ≡ returned false (send_failure pin_invalid (record d { store = s' }))
  unfolding check_pin protect_check_max_try
  check_pin_refuses a pin d e f w = rw (e, f, w) refl

  check_pin_wipes :
      (a : ℕ) (pin : List ℕ) (d : Device)
      → let (done, s') = storage_increase_pin_fails a d.store in
        done ≡ true
        → storage_contains_pin pin s' ≡ false
        → ltb (storage_get_pin_wait a s') (2 ^ 15) ≡ false
        → check_pin compute_u2froot random_uuid a pin d
          ≡ wiped (record d { store = storage_wipe compute_u2froot random_uuid s' })
  unfolding check_pin protect_check_max_try
  check_pin_wipes a pin d e f w = rw (e, f, w) refl

  check_pin_accepts :
      (a : ℕ) (pin : List ℕ) (d : Device)
      → let (done, s') = storage_increase_pin_fails a d.store in
        done ≡ true
        → storage_contains_pin pin s' ≡ true
        → check_pin compute_u2froot random_uuid a pin d
          ≡ returned true (record d {
            store = storage_reset_pin_fails compute_u2froot a (session_cache_pin s');
          })
  unfolding check_pin
  check_pin_accepts a pin d e f = rw (e, f) refl

  request_pin_entered :
      (t : Attempt) (d : Device) (box : Tiny) (typed : List ℕ)
      → request_loop t.polls box ≡ entered typed
      → request_pin t.keypad t.polls (record d { box = box })
        ≡ some (some (pinmatrix_done t.keypad typed).0, asked t d)
  unfolding request_pin pinmatrix_done
  request_pin_entered t d box typed e = rw (request_pin, e) refl

  ask_pin_entered :
      (a : ℕ) (t : Attempt) (d : Device) (box : Tiny) (typed : List ℕ)
      → request_loop t.polls box ≡ entered typed
      → ask_pin compute_u2froot random_uuid a t (record d { box = box })
        ≡ check_pin compute_u2froot random_uuid a (pinmatrix_done t.keypad typed).0 (asked t d)
  unfolding ask_pin
  ask_pin_entered a t d box typed e = rw (ask_pin, request_pin_entered t d box typed e) refl

  protect_pin_entered :
      (t : Attempt) (d : Device) (a j : ℕ) (pin : List ℕ)
      → storage_has_pin d.store ≡ true
      → Counts d.store a j
      → j ≤ 15
      → Enters t d j pin
      → protect_pin compute_u2froot random_uuid false t d
        ≡ check_pin compute_u2froot random_uuid a pin (asked t d)
  unfolding protect_pin protect_check_max_try
  protect_pin_entered t d a j pin h c l e =
      rw
        (
          h,
          c.found,
          short_wait d.store a j c l,
          storage_get_pin_wait_lem d.store a j c (omega arith),
          e.waits,
        )
        (ask_pin_entered a t d e.box e.typed e.enters
          ∙ ap (λ (p : List ℕ). check_pin compute_u2froot random_uuid a p (asked t d)) e.means)

  -- A wrong PIN with less than fifteen failures counted before it is refused and counted; what is
  -- stored, pending and cached stays.
  pub protect_pin_wrong :
      (t : Attempt) (d : Device) (a j : ℕ) (pin : List ℕ)
      → storage_has_pin d.store ≡ true
      → Counts d.store a j
      → j < 15
      → Enters t d j pin
      → storage_contains_pin pin d.store ≡ false
      → (d' : Device) × (protect_pin compute_u2froot random_uuid false t d ≡ returned false d')
        × Counts d'.store a (suc j)
        × (d'.store.rom ≡ d.store.rom)
        × (d'.store.update ≡ d.store.update)
        × (d'.store.session ≡ d.store.session)
        × (d'.box ≡ nothing)
  protect_pin_wrong t d a j pin h c l e w =
      let inc = storage_increase_pin_fails-Counts d.store a j c (omega arith) in
      let s' : State = (storage_increase_pin_fails a d.store).1 in
      (
        send_failure pin_invalid (record (asked t d) { store = s' }),
        protect_pin_entered t d a j pin h c (omega arith) e
            ∙ check_pin_refuses a pin (asked t d) inc.0 (contains_rom pin d.store s' inc.2 ∙ w)
                (short_wait s' a (suc j) inc.1 (omega arith)),
        inc.1,
        inc.2,
        inc.3,
        inc.4,
        refl,
      )

  wiped_rom : (s : State) → (storage_wipe compute_u2froot random_uuid s).rom ≡ zero_storage
  unfolding storage_wipe storage_commit_locked storage_clear_pin_area
  wiped_rom s = refl

  -- A wrong PIN after fifteen counted failures wipes the storage, and `protectPin` does not return.
  pub protect_pin_last :
      (t : Attempt) (d : Device) (a : ℕ) (pin : List ℕ)
      → storage_has_pin d.store ≡ true
      → Counts d.store a 15
      → Enters t d 15 pin
      → storage_contains_pin pin d.store ≡ false
      → (d' : Device) × (protect_pin compute_u2froot random_uuid false t d ≡ wiped d')
        × (d'.store.rom ≡ zero_storage)
  protect_pin_last t d a pin h c e w =
      let inc = storage_increase_pin_fails-Counts d.store a 15 c (omega arith) in
      let s' : State = (storage_increase_pin_fails a d.store).1 in
      (
        record (asked t d) { store = storage_wipe compute_u2froot random_uuid s' },
        protect_pin_entered t d a 15 pin h c (omega arith) e
            ∙ check_pin_wipes a pin (asked t d) inc.0 (contains_rom pin d.store s' inc.2 ∙ w)
                (long_wait s' a inc.1),
        wiped_rom s',
      )

  -- The right PIN with at most fifteen failures counted is accepted, and then no failure is counted.
  pub protect_pin_right :
      (t : Attempt) (d : Device) (a j : ℕ) (pin : List ℕ)
      → storage_has_pin d.store ≡ true
      → Counts d.store a j
      → j ≤ 15
      → Enters t d j pin
      → storage_contains_pin pin d.store ≡ true
      → (d' : Device) × (protect_pin compute_u2froot random_uuid false t d ≡ returned true d')
        × ((a' : ℕ) × Counts d'.store a' 0)
  protect_pin_right t d a j pin h c l e w =
      let inc = storage_increase_pin_fails-Counts d.store a j c (omega arith) in
      let s' : State = (storage_increase_pin_fails a d.store).1 in
      (
        record (asked t d) {
          store = storage_reset_pin_fails compute_u2froot a (session_cache_pin s');
        },
        protect_pin_entered t d a j pin h c l e
            ∙ check_pin_accepts a pin (asked t d) inc.0 (contains_rom pin d.store s' inc.2 ∙ w),
        storage_reset_pin_fails-Counts compute_u2froot (session_cache_pin s') a (suc j)
            (cached_Counts s' a (suc j) inc.1),
      )
