-- ===== src/Storage/PinArea/Failures.antt =====
-- What the area of PIN failures means: how many failures it counts, and how long it makes one wait.
use safe_t_mcu.Prelude.{
  ℕ, zero, suc, ◌+◌, ◌-◌, ◌*◌, ◌%◌, ◌^◌, ◌≤◌, ◌<◌, ◌≡◌, ◌≢◌, refl, ◌∙◌, arith, true, false, List,
  some, ◌==◌, Memory, update, leb,
}
use safe_t_mcu.Storage.{Node, State, erase_extra, pin_area, pin_area_len}
use safe_t_mcu.Storage.Commit.{storage_commit_locked}
use safe_t_mcu.Storage.PinArea.{
  first_nonzero, storage_get_pin_fails_offset, storage_get_pin_wait, storage_increase_pin_fails,
  storage_area_recycle, storage_reset_pin_fails,
}
use native.Mathlib.Decide.{dec_lt}
use native.Mathlib.Nat.{two-pow-succ, one-le-pow, pow-le-pow_right}

-- `j` failures are counted in the word at `a`, and the words of the area behind it are fresh.
pub record Counts (s : State) (a j : ℕ) : Type 0 where
  pub found : storage_get_pin_fails_offset s ≡ some a
  pub inside : a + 4 ≤ pin_area + pin_area_len
  pub aligned : a % 4 ≡ 0
  pub word : s.extra a ≡ 2 ^ 32 - 2 ^ j
  pub fresh : (q : ℕ) → a < q → q < pin_area + pin_area_len → s.extra q ≡ 0xffffffff

pub pow_range : (j : ℕ) → j ≤ 31 → (1 ≤ 2 ^ j) × (2 ^ j ≤ 2 ^ 31)
pow_range j h = (one-le-pow j 2 (omega arith), pow-le-pow_right {n = 2} (omega arith) h)

ne_false : (a b : ℕ) → a ≢ b → (a == b) ≡ false
ne_false a b h = ground arith

eq_true : (a : ℕ) → (a == a) ≡ true
eq_true a = ground arith

-- A search is not changed by another nonzero value where it ends.
first_nonzero-update :
    (n : ℕ) (f : Memory) (b a v : ℕ)
    → v ≢ 0
    → first_nonzero n f b ≡ some a
    → first_nonzero n (update f a v) b ≡ some a
unfolding first_nonzero
first_nonzero-update zero f b a v h e = cc
first_nonzero-update (suc n) f b a v h e = ground (arith, first_nonzero-update n f (b + 4) a v)

first_nonzero-ge : (n : ℕ) (f : Memory) (b a : ℕ) → first_nonzero n f b ≡ some a → b ≤ a
unfolding first_nonzero
first_nonzero-ge zero f b a e = cc
first_nonzero-ge (suc n) f b a e = ground (arith, first_nonzero-ge n f (b + 4) a)

-- A search is not changed by a write behind its end.
pub first_nonzero_before :
    (n : ℕ) (f : Memory) (b a w v : ℕ)
    → a < w
    → first_nonzero n f b ≡ some a
    → first_nonzero n (update f w v) b ≡ some a
unfolding first_nonzero
first_nonzero_before zero f b a w v h e = cc
first_nonzero_before (suc n) f b a w v h e =
    ground (arith, first_nonzero_before n f (b + 4) a w v, first_nonzero-ge n f (b + 4) a)

-- A search that ends within its range goes on to the next word when its end is cleared.
first_nonzero-clear :
    (n : ℕ) (f : Memory) (b a : ℕ)
    → f (a + 4) ≢ 0
    → a + 8 ≤ b + 4 * n
    → first_nonzero n f b ≡ some a
    → first_nonzero n (update f a 0) b ≡ some (a + 4)
unfolding first_nonzero
first_nonzero-clear zero f b a h l e = cc
first_nonzero-clear (suc zero) f b a h l e = ground arith
first_nonzero-clear (suc (suc n)) f b a h l e =
    ground (arith, first_nonzero-ge (suc n) f (b + 4) a, first_nonzero-clear (suc n) f (b + 4) a)

pub update_other : (f : Memory) (a v q : ℕ) → a < q → update f a v q ≡ f q
update_other f a v q h = ground arith

pub update_self : (f : Memory) (a v : ℕ) → update f a v a ≡ v
update_self f a v = ground arith

pub first_nonzero_here : (n : ℕ) (f : Memory) (b : ℕ) → f b ≢ 0 → first_nonzero (suc n) f b ≡ some b
unfolding first_nonzero
first_nonzero_here n f b h = ground arith

leb-false : (a b : ℕ) → a < b → leb b a ≡ false
leb-false a b h = ground arith

leb-true : (a b : ℕ) → ¬ (a < b) → leb b a ≡ true
leb-true a b h = ground arith

-- After `j` failures, 31 at most, the wait is 2 ^ j - 1 seconds.
pub storage_get_pin_wait_lem :
    (s : State) (a j : ℕ) → Counts s a j → j ≤ 31 → storage_get_pin_wait a s ≡ 2 ^ j - 1
unfolding storage_get_pin_wait
storage_get_pin_wait_lem s a j c h = omega (arith, pow_range j h)

doubled : (j : ℕ) → j < 31 → ((2 ^ 32 - 2 ^ j) * 2) % 2 ^ 32 ≡ 2 ^ 32 - 2 ^ suc j
doubled j h = omega (arith, two-pow-succ j, pow_range j (omega arith), pow_range (suc j) h)

-- `storage_increasePinFails` at the counting word succeeds below 31 failures, one failure more is
-- counted there, and what is stored, pending and cached stays.
pub storage_increase_pin_fails-Counts :
    (s : State) (a j : ℕ)
    → Counts s a j
    → j < 31
    → let (done, s') = storage_increase_pin_fails a s in
      (done ≡ true)
      × Counts s' a (suc j)
      × (s'.rom ≡ s.rom)
      × (s'.update ≡ s.update)
      × (s'.session ≡ s.session)
unfolding storage_increase_pin_fails storage_get_pin_fails_offset
storage_increase_pin_fails-Counts s a j c h =
    let v : ℕ = 2 ^ 32 - 2 ^ suc j in
    let pos : v ≢ 0 = omega (arith, pow_range (suc j) h) in
    let here : (a == a) ≡ true = eq_true a in
    rw (c.word, doubled j h, ne_false v 0 pos, here)
      (
        eq_true v,
        record {
          found = first_nonzero-update 0x1000 s.extra pin_area a v pos c.found;
          inside = c.inside;
          aligned = c.aligned;
          word = rw here;
          fresh = λ q l r. update_other s.extra a v q l ∙ c.fresh q l r;
        },
        refl,
        refl,
        refl,
      )

pub fresh_area :
    (f : Memory) (q : ℕ) → pin_area ≤ q → q < pin_area + pin_area_len → erase_extra f q ≡ 0xffffffff
fresh_area f q h k = ground arith

after :
    (s : State) (a j : ℕ)
    → Counts s a j
    → a + 4 < pin_area + pin_area_len
    → a + 4 + 4 ≤ pin_area + pin_area_len
after s a j c p = omega (arith, c.aligned)

room :
    (s : State) (a j : ℕ)
    → Counts s a j
    → a + 4 < pin_area + pin_area_len
    → a + 8 ≤ pin_area + 4 * 0x1000
room s a j c p = omega (arith, c.aligned)

next_word :
    (s : State) (a j : ℕ)
    → Counts s a j
    → a + 4 < pin_area + pin_area_len
    → Counts (record s { extra = update s.extra a 0 }) (a + 4) 0
unfolding storage_get_pin_fails_offset
next_word s a j c p =
    let next : s.extra (a + 4) ≡ 0xffffffff = c.fresh (a + 4) (omega arith) p in
    record {
      found =
          first_nonzero-clear 0x1000 s.extra pin_area a (rw next (omega arith)) (room s a j c p)
            c.found;
      inside = after s a j c p;
      aligned = omega (arith, c.aligned);
      word = update_other s.extra a 0 (a + 4) (omega arith) ∙ next;
      fresh = λ q l r. update_other s.extra a 0 q (omega arith) ∙ c.fresh q (omega arith) r;
    }

recycled_area :
    (compute_u2froot : List ℕ → Node) (s : State)
    → Counts (storage_area_recycle compute_u2froot 0xffffffff s) pin_area 0
unfolding storage_get_pin_fails_offset storage_area_recycle storage_commit_locked
recycled_area compute_u2froot s = record {
  found =
      first_nonzero_here 0xfff (update (erase_extra s.extra) pin_area 0xffffffff) pin_area
        (rw (update_self (erase_extra s.extra) pin_area 0xffffffff) (omega arith));
  inside = omega arith;
  aligned = omega arith;
  word = update_self (erase_extra s.extra) pin_area 0xffffffff;
  fresh = λ q l r.
      update_other (erase_extra s.extra) pin_area 0xffffffff q l
      ∙ fresh_area s.extra q (omega arith) r;
}

-- `storage_resetPinFails` at the counting word leaves an area that counts no failure.
pub storage_reset_pin_fails-Counts :
    (compute_u2froot : List ℕ → Node) (s : State) (a j : ℕ)
    → Counts s a j
    → (a' : ℕ) × Counts (storage_reset_pin_fails compute_u2froot a s) a' 0
unfolding storage_reset_pin_fails storage_get_pin_fails_offset
storage_reset_pin_fails-Counts compute_u2froot s a j c =
    elim (dec_lt (a + 4) (pin_area + pin_area_len)) [
      | yes p ↦ (a + 4, rw (leb-false (a + 4) (pin_area + pin_area_len) p) (next_word s a j c p))
      | no p ↦ (
        pin_area,
        rw (leb-true (a + 4) (pin_area + pin_area_len) p) (recycled_area compute_u2froot s),
      )
    ]
