-- ===== src/Storage/PinArea.antt =====
-- The counter of wrong PINs in spare flash, firmware/storage.c (CRYPTOMEM=0): words of zeros, then
-- one word 1...10...0 with a zero for each failure, then words of ones.
pub mod Failures
use safe_t_mcu.Prelude.{
  ℕ, zero, suc, ◌+◌, ◌-◌, ◌*◌, ◌%◌, ◌^◌, Bool, true, false, List, Option, none, some, ltb, leb,
  ◌==◌, if◌then◌else◌, Memory, update,
}
use safe_t_mcu.Storage.{Node, Storage, State, storage_magic, erase_extra, pin_area, pin_area_len}
use safe_t_mcu.Storage.Commit.{storage_commit_locked}

-- The loop of `storage_getPinFailsOffset`, at most `fuel` words on; `none` is a run past them.
pub first_nonzero : ℕ → Memory → ℕ → Option ℕ
first_nonzero zero f a = none
first_nonzero (suc fuel) f a =
    let next = first_nonzero fuel f (a + 4) in if f a == 0 then next else some a

-- `storage_getPinFailsOffset`, within the flash sector.
unfoldable pub storage_get_pin_fails_offset : State → Option ℕ
unfolding first_nonzero
storage_get_pin_fails_offset s = first_nonzero 0x1000 s.extra pin_area

-- `storage_getPinWait`: the inverted word.
unfoldable pub storage_get_pin_wait : ℕ → State → ℕ
storage_get_pin_wait a s = 0xffffffff - s.extra a % 2 ^ 32

-- `storage_increasePinFails`: whether the word reads back as it was written, which it does here.
unfoldable pub storage_increase_pin_fails : ℕ → State → Bool × State
storage_increase_pin_fails a s =
    let newctr = s.extra a * 2 % 2 ^ 32 in
    let s' : State = record s { extra = update s.extra a newctr } in
    if newctr == 0 then (true, s) else (s'.extra a == newctr, s')

-- `storage_compute_u2froot` derives a key by the crypto library.
module _ (compute_u2froot : List ℕ → Node) where
  -- `storage_area_recycle`. The storage marker is cleared first, and `storage_commit_locked` writes
  -- it again.
  unfoldable pub storage_area_recycle : ℕ → State → State
  storage_area_recycle new_pinfails s = storage_commit_locked compute_u2froot true (record s {
    magic = 0;
    extra = update (erase_extra s.extra) pin_area new_pinfails;
    update = record (s.update) {
      has_u2f_counter = true;
      u2f_counter = (s.update.u2f_counter + s.u2f_offset) % 2 ^ 32;
    };
    u2f_offset = 0;
  })

  -- `storage_resetPinFails`
  unfoldable pub storage_reset_pin_fails : ℕ → State → State
  storage_reset_pin_fails a s =
      if leb (pin_area + pin_area_len) (a + 4)
      then storage_area_recycle 0xffffffff s
      else record s { extra = update s.extra a 0 }
