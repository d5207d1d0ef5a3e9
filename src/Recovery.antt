-- ===== src/Recovery.antt =====
-- The recovery of a seed, firmware/recovery.c (CRYPTOMEM=0, DEBUG_LINK=0): word by word in a random
-- order, or letter by letter with a scrambled matrix. What is drawn is left out.
-- Here: the state and the matrix of choices; `Handler` has the handlers.
pub mod Handler
pub mod Run
pub mod Matrix
pub mod Bounds
pub mod Table
mod Tests
use safe_t_mcu.Prelude.{
  ℕ, zero, suc, ◌+◌, ◌-◌, ◌*◌, ◌/◌, ◌%◌, ◌^◌, Bool, true, false, not, ◌&&◌, ◌||◌, List, [], ◌∷◌,
  ◌++◌, map, Option, none, some, ltb, leb, ◌==◌, if◌then◌else◌, length, take, get_or, set,
  replicate, text_eq,
}
use safe_t_mcu.Storage.{Node, State, session_clear}
use safe_t_mcu.Storage.Commit.{storage_update}
use safe_t_mcu.Storage.Fields.{
  strlcpy, storage_set_passphrase_protection, storage_set_language, storage_set_label,
  storage_set_imported, storage_set_mnemonic, storage_set_pin, storage_is_initialized,
  storage_contains_mnemonic,
}
use safe_t_mcu.Storage.U2f.{storage_set_u2f_counter}
use safe_t_mcu.Protect.{Device, Attempt, protect_change_pin}

-- `WordRequestType`
pub data WordRequestType : Type 0 where
  plain matrix9 matrix6 : WordRequestType

pub data Event : Type 0 where
  word_request : WordRequestType → Event
  pin_mismatch device_recovered seed_matches seed_differs seed_invalid : Event
  wrong_word word_not_found not_in_recovery : Event
  button_request features : Event

-- `awaiting_word`: 0, 1 and 2.
pub data Mode : Type 0 where
  idle scrambled matrix : Mode

-- The module's variables, over the device; `log` has the last event first.
pub record Recovery : Type 0 where
  pub word_count : ℕ
  pub awaiting_word : Mode
  pub dry_run : Bool
  pub changed_pin : List ℕ
  pub deferred_set_pin : Bool
  pub enforce_wordlist : Bool
  pub fake_word : List ℕ
  pub word_pos : ℕ
  pub word_index : ℕ
  pub word_order : List ℕ
  pub words : List (List ℕ)
  pub word_pincode : ℕ
  pub word_matrix : List ℕ
  pub device : Device
  pub log : List Event

-- `RecoveryDevice`, as the arguments of `recovery_init`.
pub record RecoveryDevice : Type 0 where
  pub word_count : ℕ
  pub passphrase_protection : Bool
  pub pin_protection : Bool
  pub language : Option (List ℕ)
  pub label : Option (List ℕ)
  pub enforce_wordlist : Bool
  pub by_matrix : Bool
  pub u2f_counter : ℕ
  pub dry_run : Bool

-- What the build generates in recovery-table.h, and what the crypto library has: the list of words,
-- `mnemonic_check`, and the U2F root of a seed.
pub record Library : Type 0 where
  pub word_table1 : List ℕ
  pub word_table2 : List ℕ
  pub wordlist : List (List ℕ)
  pub mnemonic_check : List ℕ → Bool
  pub compute_u2froot : List ℕ → Node

-- What one step gets from outside: `random_permute` and `random_uniform`, and whether the dialogue of
-- the step, if it has one, is ended by Initialize. A dialogue that never ends is no step.
pub record Chance : Type 0 where
  pub random_permute : List ℕ → List ℕ
  pub random_word : ℕ
  pub aborts : Bool

abbrev pub say : Event → Recovery → Recovery
say e s = record s { log = e ∷ s.log }

abbrev pub with_store : State → Recovery → Recovery
with_store store s = record s { device = record (s.device) { store = store } }

abbrev pub clear_session : Recovery → Recovery
clear_session s =
    let store = s.device.store in
    with_store (record store { session = session_clear true store.session }) s

abbrev pub is_scrambled : Mode → Bool
is_scrambled scrambled = true
is_scrambled mode = false

-- `recovery_request`
abbrev pub recovery_request : Recovery → Recovery
recovery_request s =
    let type =
      if is_scrambled s.awaiting_word
      then plain
      else if s.word_index % 4 == 3
      then matrix6
      else matrix9 in
    say (word_request type) s

-- `strlcat` of a space and each of the `n` words that follow.
abbrev pub more_words : ℕ → List (List ℕ) → List ℕ
more_words zero words = []
more_words (suc n) [] = []
more_words (suc n) (w ∷ words) = 32 ∷ (w ++ more_words n words)

abbrev pub joined_words : ℕ → List (List ℕ) → List ℕ
joined_words n [] = []
joined_words n (w ∷ words) = strlcpy 241 (w ++ more_words (n - 1) words)

abbrev pub range : ℕ → ℕ → List ℕ
range i zero = []
range i (suc n) = i ∷ range (i + 1) n

-- The end of `display_choices`: choices above `num` become the first, and with two columns the middle
-- one is the right one.
unfoldable pub display_choices : (List ℕ → List ℕ) → Bool → ℕ → List ℕ
display_choices random_permute two_column num =
    let word_matrix =
      map (λ i. if ltb num i then 0 else i)
        (random_permute (range 0 (if two_column then 6 else 9))) in
    if two_column
    then map (λ i. get_or word_matrix i 0) (0 ∷ 1 ∷ 1 ∷ 2 ∷ 3 ∷ 3 ∷ 4 ∷ 5 ∷ 5 ∷ [])
    else word_matrix

-- `recovery_abort`
abbrev pub recovery_abort : Recovery → Recovery
recovery_abort s = record s { awaiting_word = idle }

-- `protectButton` of a dialogue whose answer nothing depends on.
abbrev pub show_dialogue : Bool → Recovery → Recovery
show_dialogue aborts s =
    let d = s.device in
    let s1 = say button_request s in
    record s1 { device = record d { aborted_by_initialize = aborts || d.aborted_by_initialize } }

-- `fsm_msgInitialize` without a state, as far as it concerns this module.
abbrev pub initialize : Recovery → Recovery
initialize s =
    let store = s.device.store in
    say features
      (with_store (record store { session = session_clear false store.session }) (recovery_abort s))

-- `fsm_sendFailure`: when Initialize ended a dialogue, that is what is answered.
abbrev pub send_failure : Event → Recovery → Recovery
send_failure e s =
    if s.device.aborted_by_initialize
    then (let s1 = initialize s in
        record s1 { device = record (s1.device) { aborted_by_initialize = false } })
    else say e s
