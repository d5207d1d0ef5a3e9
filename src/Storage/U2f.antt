-- ===== src/Storage/U2f.antt =====
-- The U2F counter of firmware/storage.c: a base in the storage structure, and an offset counted by
-- the bits that are cleared in spare flash.
pub mod Counter
use safe_t_mcu.Prelude.{
  ℕ, ◌+◌, ◌-◌, ◌*◌, ◌/◌, ◌%◌, ◌^◌, List, Option, some, true, leb, if◌then◌else◌, update,
}
use mathlib.Core.Option
use safe_t_mcu.Storage.{Node, Storage, State, u2f_area, u2f_area_len}
use safe_t_mcu.Storage.PinArea.{storage_get_pin_fails_offset, storage_area_recycle}

-- `storage_setU2FCounter`
unfoldable pub storage_set_u2f_counter : ℕ → State → State
storage_set_u2f_counter counter s = record s {
  update = record (s.update) {
    has_u2f_counter = true;
    u2f_counter = (counter + 2 ^ 32 - s.u2f_offset) % 2 ^ 32;
  };
}

-- One bit more is cleared.
abbrev pub clear_u2f_bit : State → State
clear_u2f_bit s = record s {
  extra =
      update s.extra (u2f_area + 4 * (s.u2f_offset / 32))
        (0xfffffffe * 2 ^ (s.u2f_offset % 32) % 2 ^ 32);
  u2f_offset = (s.u2f_offset + 1) % 2 ^ 32;
}

module _ (compute_u2froot : List ℕ → Node) where
  -- `storage_nextU2FCounter`; `none` if the search for the PIN failure word leaves the sector.
  unfoldable pub storage_next_u2f_counter : State → Option (ℕ × State)
  storage_next_u2f_counter s =
      let s1 = clear_u2f_bit s in
      let counter : State → ℕ × State = λ t. ((t.rom.u2f_counter + t.u2f_offset) % 2 ^ 32, t) in
      if leb (8 * u2f_area_len) s1.u2f_offset
      then Option.map (λ a. counter (storage_area_recycle compute_u2froot (s1.extra a) s1))
          (storage_get_pin_fails_offset s1)
      else some (counter s1)
