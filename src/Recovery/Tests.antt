-- ===== src/Recovery/Tests.antt =====
-- A dry run of a recovery, by the matrix.
use safe_t_mcu.Prelude.{
  ◌⊎◌, ℕ, ◌≡◌, refl, arith, true, false, List, [], ◌∷◌, none, replicate, All, get_or,
}
use safe_t_mcu.Storage.{zero_node, zero_storage, storage_magic}
use safe_t_mcu.Protect.{Device, nothing}
use safe_t_mcu.Recovery.{Recovery, RecoveryDevice, idle, Library, Chance, range, display_choices}
use safe_t_mcu.Recovery.Handler.{ask_words, next_matrix}
use safe_t_mcu.Recovery.Run.{run, initialized, is_aborted, run-dry_run}
use safe_t_mcu.Recovery.Matrix.{Fair, display_choices_overrun}
use safe_t_mcu.Recovery.Bounds.{Bounded}
use safe_t_mcu.Recovery.Table.{cut_table, run-cut_table}

-- One word for each choice.
abbrev library : Library
library = record {
  word_table1 = range 0 82;
  word_table2 = range 0 83;
  wordlist = replicate 90 (97 ∷ []);
  mnemonic_check = λ mnemonic. true;
  compute_u2froot = λ mnemonic. zero_node;
}

abbrev chance : Chance
chance = record { random_permute = λ xs. xs; random_word = 7; aborts = false }

abbrev device : Device
device = record {
  store = record {
    magic = storage_magic;
    uuid = [];
    rom = record zero_storage { has_mnemonic = true; mnemonic = 97 ∷ [] };
    update = zero_storage;
    extra = λ a. 0xffffffff;
    u2f_offset = 0;
    session = record {
      seed_cached = false;
      seed_uses_passphrase = false;
      seed = [];
      pin_cached = true;
      passphrase_cached = false;
      passphrase = [];
    };
  };
  perm = [];
  box = nothing;
  aborted_by_initialize = false;
  failures = [];
}

abbrev recovery : Recovery
recovery = record {
  word_count = 12;
  awaiting_word = idle;
  dry_run = true;
  changed_pin = [];
  deferred_set_pin = false;
  enforce_wordlist = true;
  fake_word = [];
  word_pos = 0;
  word_index = 0;
  word_order = [];
  words = replicate 24 [];
  word_pincode = 0;
  word_matrix = [];
  device = device;
  log = [];
}

abbrev message : RecoveryDevice
message = record {
  word_count = 12;
  passphrase_protection = false;
  pin_protection = false;
  language = none;
  label = none;
  enforce_wordlist = true;
  by_matrix = true;
  u2f_counter = 0;
  dry_run = true;
}

-- The digits 9 and 3, a backspace, and the digit 2.
abbrev entries : List (Chance × List ℕ)
entries = (chance, b'9' ∷ []) ∷ (chance, b'3' ∷ []) ∷ (chance, 8 ∷ []) ∷ (chance, b'2' ∷ []) ∷ []

abbrev asking : Recovery
asking = ask_words library message chance recovery

entries-Fair : All Fair entries
entries-Fair = (λ n xs h. h, (λ n xs h. h, (λ n xs h. h, (λ n xs h. h, tt))))

run-dry_run_example :
    ((run library entries asking).device.store ≡ device.store)
    ⊎ (((run library entries asking).device.store ≡ initialized device.store)
        × (is_aborted false entries ≡ true))
unfolding next_matrix
run-dry_run_example = run-dry_run library entries asking refl

-- The table with entries behind its end.
abbrev long_library : Library
long_library = record library { word_table1 = range 0 90 }

run-cut_table_example :
    let s' = run long_library entries (ask_words long_library message chance recovery) in
    (run
        (cut_table long_library)
        entries
        (ask_words (cut_table long_library) message chance recovery)
      ≡ s')
    × Bounded s'
run-cut_table_example =
    run-cut_table long_library message chance entries recovery (λ n xs h. h) entries-Fair
      (omega arith)

display_choices_overrun_example : get_or (display_choices (λ xs. xs) false 4) 4 0 ≡ 4
display_choices_overrun_example = display_choices_overrun (λ xs. xs) 4 4 refl
