-- ===== src/Reset/Tests.antt =====
-- A reset with a seed of two words.
use safe_t_mcu.Prelude.{
  ℕ, ◌≡◌, refl, arith, Bool, true, false, List, [], ◌∷◌, some, replicate, take, All,
}
use safe_t_mcu.Storage.{Node, zero_node, zero_storage, storage_magic}
use safe_t_mcu.Storage.Fields.{storage_needs_backup}
use safe_t_mcu.Protect.{Device, nothing}
use safe_t_mcu.Reset.{Reset, read_word, words_of, show_words, show_twice, reset_entropy}
use safe_t_mcu.Reset.Words.{joined, IsWord, words_of-enough, words_of-mnemonic}
use safe_t_mcu.Reset.Laws.{waiting, reset_entropy_refused, reset_entropy_confirmed}

abbrev compute_u2froot : List ℕ → Node
compute_u2froot mnemonic = zero_node

-- ab and c
abbrev words : List (List ℕ)
words = (97 ∷ 98 ∷ []) ∷ (99 ∷ []) ∷ []

abbrev mnemonic_from_data : List ℕ → List ℕ
mnemonic_from_data bytes = joined words

abbrev device : Device
device = record {
  store = record {
    magic = storage_magic;
    uuid = [];
    rom = zero_storage;
    update = zero_storage;
    extra = λ a. 0xffffffff;
    u2f_offset = 0;
    session = record {
      seed_cached = false;
      seed_uses_passphrase = false;
      seed = [];
      pin_cached = false;
      passphrase_cached = false;
      passphrase = [];
    };
  };
  perm = [];
  box = nothing;
  aborted_by_initialize = false;
  failures = [];
}

-- A PIN was entered.
abbrev reset : Reset
reset = record {
  strength = 128;
  int_entropy = replicate 32 1;
  awaiting_entropy = true;
  skip_backup = false;
  changed_pin = 49 ∷ 50 ∷ [];
  deferred_set_pin = true;
  device = device;
  log = [];
}

abbrev refusal : List Bool
refusal = true ∷ true ∷ true ∷ false ∷ []

abbrev consent : List Bool
consent = true ∷ true ∷ true ∷ true ∷ []

words-IsWord : All IsWord words
words-IsWord =
    ((omega arith, omega arith, (refl, (refl, tt))), ((omega arith, omega arith, (refl, tt)), tt))

words_of-enough_example : words_of 4 (joined words) ≡ words_of 9 (joined words)
words_of-enough_example = words_of-enough 4 9 (joined words) (omega arith) (omega arith)

words_of-mnemonic_example : words_of 4 (joined words) ≡ words
words_of-mnemonic_example = words_of-mnemonic words words-IsWord

reset_entropy_refused_example :
    (s' : Reset) × (reset_entropy compute_u2froot
        (take 32)
        mnemonic_from_data
        (2 ∷ [])
        refusal
        (waiting reset)
      ≡ some s')
    × (s'.device.store.rom ≡ zero_storage)
    × (s'.device.store.update ≡ zero_storage)
    × (s'.awaiting_entropy ≡ false)
unfolding show_twice show_words words_of read_word
reset_entropy_refused_example =
    reset_entropy_refused compute_u2froot (take 32) mnemonic_from_data (2 ∷ []) refusal [] reset _
      refl

reset_entropy_confirmed_example :
    (s' : Reset) × (reset_entropy compute_u2froot
        (take 32)
        mnemonic_from_data
        (2 ∷ [])
        consent
        (waiting reset)
      ≡ some s')
    × (s'.device.store.rom.has_mnemonic ≡ true)
    × (s'.device.store.rom.mnemonic ≡ joined words)
    × (storage_needs_backup s'.device.store ≡ false)
    × (s'.device.store.rom.pin ≡ 49 ∷ 50 ∷ [])
    × (s'.deferred_set_pin ≡ false)
unfolding show_twice show_words words_of read_word
reset_entropy_confirmed_example =
    reset_entropy_confirmed compute_u2froot (take 32) mnemonic_from_data (2 ∷ []) consent [] reset _
      refl
