-- ===== src/Storage/Tests.antt =====
-- The theorems on storage at a device with a PIN, a label and fresh counters.
use safe_t_mcu.Prelude.{ℕ, ◌*◌, ◌≡◌, ◌↔◌, refl, arith, true, false, List, [], ◌∷◌, some}
use safe_t_mcu.Storage.{Node, State, zero_node, zero_storage, storage_magic, pin_area, u2f_area_len}
use safe_t_mcu.Storage.Commit.{storage_update}
use safe_t_mcu.Storage.Fields.{storage_apply_flags, storage_get_flags, storage_contains_pin}
use safe_t_mcu.Storage.Fields.Compare.{storage_contains_pin_iff}
use safe_t_mcu.Storage.Fields.Laws.{storage_get_flags-storage_apply_flags}
use safe_t_mcu.Storage.PinArea.{storage_get_pin_fails_offset}
use safe_t_mcu.Storage.PinArea.Failures.{Counts}
use safe_t_mcu.Storage.U2f.{storage_next_u2f_counter}
use safe_t_mcu.Storage.U2f.Counter.{storage_next_u2f_counter_recycled}

abbrev compute_u2froot : List ℕ → Node
compute_u2froot words = zero_node

abbrev pin : List ℕ
pin = b'1' ∷ b'2' ∷ []

abbrev mnemonic : List ℕ
mnemonic = b'a' ∷ []

abbrev device : ℕ → State
device u2f_offset = record {
  magic = storage_magic;
  uuid = [];
  rom = record zero_storage {
    version = 1;
    has_mnemonic = true;
    mnemonic = b'a' ∷ [];
    has_pin = true;
    pin = pin;
    has_flags = true;
    flags = 1;
    has_u2f_counter = true;
    u2f_counter = 5000;
  };
  update = zero_storage;
  extra = λ _. 0xffffffff;
  u2f_offset = u2f_offset;
  session = record {
    seed_cached = false;
    seed_uses_passphrase = false;
    seed = [];
    pin_cached = false;
    passphrase_cached = false;
    passphrase = [];
  };
}

fresh_Counts : (u2f_offset : ℕ) → Counts (device u2f_offset) pin_area 0
unfolding storage_get_pin_fails_offset
fresh_Counts u2f_offset = record {
  found = refl;
  inside = omega arith;
  aligned = refl;
  word = refl;
  fresh = λ q l r. refl;
}

storage_get_flags-storage_apply_flags_example :
    storage_get_flags (storage_update compute_u2froot (storage_apply_flags 2 (device 0))) ≡ 2
storage_get_flags-storage_apply_flags_example =
    storage_get_flags-storage_apply_flags compute_u2froot (device 0) 2 (omega arith)

storage_contains_pin_iff_example :
    (storage_contains_pin (b'1' ∷ []) (device 0) ≡ true) ↔ (pin ≡ b'1' ∷ [])
storage_contains_pin_iff_example =
    storage_contains_pin_iff (device 0) (b'1' ∷ []) ((omega arith, omega arith), tt)
      ((omega arith, omega arith), ((omega arith, omega arith), tt))

-- The numbers given out were up to 7047; the next one is 2048.
storage_next_u2f_counter_recycled_example :
    (s' : State) × (storage_next_u2f_counter compute_u2froot (device 2047)
      ≡ some (8 * u2f_area_len, s'))
    × Counts s' pin_area 0
storage_next_u2f_counter_recycled_example =
    storage_next_u2f_counter_recycled compute_u2froot (device 2047) pin_area 0 (fresh_Counts 2047)
      (omega arith) refl
