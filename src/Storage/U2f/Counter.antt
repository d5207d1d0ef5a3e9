-- ===== src/Storage/U2f/Counter.antt =====
-- How the U2F counter goes on.
use safe_t_mcu.Prelude.{
  ℕ, ◌+◌, ◌-◌, ◌*◌, ◌/◌, ◌%◌, ◌^◌, ◌≤◌, ◌<◌, ◌≡◌, ap, ◌∙◌, arith, true, false, List, Memory, some,
  leb, update,
}
use safe_t_mcu.Storage.{Node, State, u2f_area, u2f_area_len, pin_area, erase_extra}
use safe_t_mcu.Storage.Commit.{storage_commit_locked, merge}
use safe_t_mcu.Storage.PinArea.{storage_get_pin_fails_offset, storage_area_recycle}
use safe_t_mcu.Storage.PinArea.Failures.{
  Counts, first_nonzero_before, first_nonzero_here, update_other, update_self, fresh_area,
  pow_range,
}
use safe_t_mcu.Storage.Fields.Laws.{settled}
use safe_t_mcu.Storage.U2f.{storage_next_u2f_counter, clear_u2f_bit}

-- The number that was given out last.
abbrev pub u2f_counter : State → ℕ
u2f_counter s = (s.rom.u2f_counter + s.u2f_offset) % 2 ^ 32

below : (o : ℕ) → o + 1 < 8 * u2f_area_len → leb (8 * u2f_area_len) ((o + 1) % 2 ^ 32) ≡ false
below o h = ground arith

next_mod :
    (r o : ℕ)
    → o + 1 < 8 * u2f_area_len
    → (r + (o + 1) % 2 ^ 32) % 2 ^ 32 ≡ ((r + o) % 2 ^ 32 + 1) % 2 ^ 32
next_mod r o h = omega arith

-- Below the end of its area each call gives the next number, and one bit more is cleared.
pub storage_next_u2f_counter_lem :
    (compute_u2froot : List ℕ → Node) (s : State)
    → s.u2f_offset + 1 < 8 * u2f_area_len
    → storage_next_u2f_counter compute_u2froot s
      ≡ some ((u2f_counter s + 1) % 2 ^ 32, clear_u2f_bit s)
unfolding storage_next_u2f_counter
storage_next_u2f_counter_lem compute_u2froot s h =
    rw (below s.u2f_offset h)
      (ap (λ (n : ℕ). some (n, clear_u2f_bit s)) (next_mod s.rom.u2f_counter s.u2f_offset h))

update_before : (f : Memory) (w v q : ℕ) → q < w → update f w v q ≡ f q
update_before f w v q h = ground arith

at_end : (o : ℕ) → o + 1 ≡ 8 * u2f_area_len → leb (8 * u2f_area_len) ((o + 1) % 2 ^ 32) ≡ true
at_end o h = ground arith

-- The state that recycling leaves.
abbrev recycled : (List ℕ → Node) → State → ℕ → State
recycled compute_u2froot s a =
    storage_area_recycle compute_u2froot ((clear_u2f_bit s).extra a) (clear_u2f_bit s)

recycled_word : (s : State) (a j : ℕ) → Counts s a j → (clear_u2f_bit s).extra a ≡ 2 ^ 32 - 2 ^ j
recycled_word s a j c =
    update_before s.extra (u2f_area + 4 * (s.u2f_offset / 32))
      (0xfffffffe * 2 ^ (s.u2f_offset % 32) % 2 ^ 32) a (omega (arith, c.inside))
    ∙ c.word

recycled-Counts :
    (compute_u2froot : List ℕ → Node) (s : State) (a j : ℕ)
    → Counts s a j
    → j ≤ 31
    → Counts (recycled compute_u2froot s a) pin_area j
unfolding storage_get_pin_fails_offset storage_area_recycle storage_commit_locked
recycled-Counts compute_u2froot s a j c h =
    let v : ℕ = (clear_u2f_bit s).extra a in
    let f : Memory = erase_extra (clear_u2f_bit s).extra in
    record {
      found =
          first_nonzero_here 0xfff (update f pin_area v) pin_area
            (rw (update_self f pin_area v, recycled_word s a j c) (omega (arith, pow_range j h)));
      inside = omega arith;
      aligned = omega arith;
      word = update_self f pin_area v ∙ recycled_word s a j c;
      fresh = λ q l r.
          update_other f pin_area v q l ∙ fresh_area (clear_u2f_bit s).extra q (omega arith) r;
    }

number_at_end :
    (o : ℕ)
    → o + 1 ≡ 8 * u2f_area_len
    → ((0 + (o + 1) % 2 ^ 32) % 2 ^ 32 + 0) % 2 ^ 32 ≡ 8 * u2f_area_len
number_at_end o h = omega arith

recycled_number :
    (compute_u2froot : List ℕ → Node) (s : State) (a : ℕ)
    → s.u2f_offset + 1 ≡ 8 * u2f_area_len
    → u2f_counter (recycled compute_u2froot (settled s) a) ≡ 8 * u2f_area_len
unfolding storage_area_recycle storage_commit_locked merge
recycled_number compute_u2froot s a h = number_at_end s.u2f_offset h

found_cleared :
    (s : State) (a j : ℕ) → Counts s a j → storage_get_pin_fails_offset (clear_u2f_bit s) ≡ some a
unfolding storage_get_pin_fails_offset
found_cleared s a j c =
    first_nonzero_before 0x1000 s.extra pin_area a (u2f_area + 4 * (s.u2f_offset / 32))
      (0xfffffffe * 2 ^ (s.u2f_offset % 32) % 2 ^ 32) (omega (arith, c.inside)) c.found

-- At the end of the area, with nothing pending, the area starts again: the failures of the PIN are
-- still counted, but the number that is given out is the number of bits alone, whatever base was
-- stored.
pub storage_next_u2f_counter_recycled :
    (compute_u2froot : List ℕ → Node) (s : State) (a j : ℕ)
    → Counts (settled s) a j
    → j ≤ 31
    → s.u2f_offset + 1 ≡ 8 * u2f_area_len
    → (s' : State) × (storage_next_u2f_counter compute_u2froot (settled s)
        ≡ some (8 * u2f_area_len, s'))
      × Counts s' pin_area j
unfolding storage_next_u2f_counter
storage_next_u2f_counter_recycled compute_u2froot s a j c h e = (
  recycled compute_u2froot (settled s) a,
  rw (at_end s.u2f_offset e, found_cleared (settled s) a j c)
      (ap (λ (n : ℕ). some (n, recycled compute_u2froot (settled s) a))
        (recycled_number compute_u2froot s a e)),
  recycled-Counts compute_u2froot (settled s) a j c h,
)
