-- ===== src/Reset.antt =====
-- A new seed, firmware/reset.c (CRYPTOMEM=0, DEBUG_LINK=0): the device and the host both give
-- entropy, and the user writes the words of the seed down. What `protectButton` returns is given;
-- the PIN is entered as in Protect.
pub mod Words
pub mod Laws
mod Tests
use safe_t_mcu.Prelude.{
  ℕ, zero, suc, ◌+◌, ◌-◌, ◌*◌, ◌/◌, ◌%◌, ◌^◌, Bool, true, false, not, ◌&&◌, ◌||◌, List, [], ◌∷◌,
  ◌++◌, Option, none, some, ltb, leb, ◌==◌, if◌then◌else◌, length, take, drop, replicate,
}
use safe_t_mcu.Storage.{Node, State, zero_storage, session_clear}
use safe_t_mcu.Storage.Commit.{storage_update}
use safe_t_mcu.Storage.Fields.{
  storage_set_passphrase_protection, storage_set_language, storage_set_label,
  storage_set_needs_backup, storage_needs_backup, storage_set_mnemonic, storage_set_pin,
}
use safe_t_mcu.Storage.U2f.{storage_set_u2f_counter}
use safe_t_mcu.Protect.{Device, Attempt, protect_change_pin}

-- What is sent, and the words that are shown: in which pass, and at which place.
pub data Event : Type 0 where
  entropy_request action_cancelled pin_mismatch not_in_reset : Event
  already_backed_up backed_up initialized : Event
  word_shown : ℕ → ℕ → List ℕ → Event

-- The module's variables, over the device; `log` has the last event first.
pub record Reset : Type 0 where
  pub strength : ℕ
  pub int_entropy : List ℕ
  pub awaiting_entropy : Bool
  pub skip_backup : Bool
  pub changed_pin : List ℕ
  pub deferred_set_pin : Bool
  pub device : Device
  pub log : List Event

-- `ResetDevice`, as the arguments of `reset_init`.
pub record ResetDevice : Type 0 where
  pub display_random : Bool
  pub strength : ℕ
  pub passphrase_protection : Bool
  pub pin_protection : Bool
  pub language : Option (List ℕ)
  pub label : Option (List ℕ)
  pub u2f_counter : ℕ
  pub skip_backup : Bool

abbrev pub say : Event → Reset → Reset
say e s = record s { log = e ∷ s.log }

abbrev pub with_store : State → Reset → Reset
with_store store s = record s { device = record (s.device) { store = store } }

-- `storage_clear_update`
abbrev pub storage_clear_update : State → State
storage_clear_update s = record s { update = zero_storage }

-- `storage_getMnemonic`; `none` is a null pointer.
unfoldable pub storage_get_mnemonic : State → Option (List ℕ)
storage_get_mnemonic s =
    if s.update.has_mnemonic
    then some s.update.mnemonic
    else if s.rom.has_mnemonic
    then some s.rom.mnemonic
    else none

-- The loop that copies a word to `current_word`, with room for `n` more characters: the word, and
-- what follows it.
unfoldable pub read_word : ℕ → List ℕ → List ℕ × List ℕ
read_word zero cs = ([], cs)
read_word (suc n) [] = ([], [])
read_word (suc n) (c ∷ cs) =
    let r = read_word n cs in if c == 32 then ([], c ∷ cs) else (c ∷ r.0, r.1)

-- The words that the loop of `reset_backup` goes through, in `n` turns at most. The character behind
-- a word is skipped, whatever it is.
unfoldable pub words_of : ℕ → List ℕ → List (List ℕ)
words_of zero cs = []
words_of (suc n) [] = []
words_of (suc n) (c ∷ cs) = let w = read_word 9 (c ∷ cs) in w.0 ∷ words_of n (drop 1 w.1)

-- One pass over the words, from place `pos` on: whether all are confirmed, the answers that are left,
-- and the log. `none` while the device waits.
unfoldable pub show_words :
    ℕ → ℕ → List (List ℕ) → List Bool → List Event → Option (Bool × List Bool × List Event)
show_words pass pos [] answers log = some (true, answers, log)
show_words pass pos (w ∷ ws) [] log = none
show_words pass pos (w ∷ ws) (ok ∷ answers) log =
    let shown = word_shown pass pos w ∷ log in
    let rest = show_words pass (pos + 1) ws answers shown in
    if ok then rest else some (false, answers, shown)

-- The second pass, after the first.
abbrev pub second_pass :
    List (List ℕ) → Option (Bool × List Bool × List Event) → Option (Bool × List Bool × List Event)
second_pass ws none = none
second_pass ws (some (ok, answers, log)) =
    if ok then show_words 1 1 ws answers log else some (false, answers, log)

unfoldable pub show_twice :
    List (List ℕ) → List Bool → List Event → Option (Bool × List Bool × List Event)
show_twice ws answers log = second_pass ws (show_words 0 1 ws answers log)

-- The crypto library's: `sha256`, `mnemonic_from_data`, and the U2F root of a seed.
module _ (compute_u2froot : List ℕ → Node) (sha256 : List ℕ → List ℕ)
    (mnemonic_from_data : List ℕ → List ℕ) where
  abbrev pub set_deferred_pin : Reset → Reset
  set_deferred_pin s =
      if s.deferred_set_pin
      then with_store (storage_set_pin s.changed_pin s.device.store)
          (record s { changed_pin = []; deferred_set_pin = false })
      else s

  -- The end of a reset: the PIN is set, and everything is written.
  abbrev pub initialize : Reset → Reset
  initialize s =
      let s1 = set_deferred_pin s in
      say initialized (with_store (storage_update compute_u2froot s1.device.store) s1)

  -- What follows the passes of `reset_backup`; `store` is that before it began.
  abbrev pub end_backup : Bool → Bool → Reset → Reset
  end_backup separated true s = if separated then say backed_up s else initialize s
  end_backup separated false s =
      let store = storage_clear_update s.device.store in
      say action_cancelled (
        if separated
        then s
        else with_store (record store { session = session_clear true store.session }) s)

  abbrev pub backup_shown : Bool → Reset → Option (Bool × List Bool × List Event) → Option Reset
  backup_shown separated s none = none
  backup_shown separated s (some (ok, answers, log)) =
      some (end_backup separated ok (record s { log = log }))

  abbrev pub backup_words : Bool → List Bool → Reset → Option (List ℕ) → Option Reset
  backup_words separated answers s none = none
  backup_words separated answers s (some mnemonic) =
      backup_shown separated s (show_twice (words_of (length mnemonic) mnemonic) answers s.log)

  -- `reset_backup`; `none` while it waits, or if it reads from a null pointer.
  unfoldable pub reset_backup : Bool → List Bool → Reset → Option Reset
  reset_backup separated answers s =
      let store = storage_set_needs_backup false s.device.store in
      let stored = if separated then storage_update compute_u2froot store else store in
      if not (storage_needs_backup s.device.store)
      then some (say already_backed_up s)
      else backup_words separated answers (with_store stored s) (storage_get_mnemonic stored)

  -- `reset_entropy`. The seed can always be stored in this build.
  unfoldable pub reset_entropy : List ℕ → List Bool → Reset → Option Reset
  reset_entropy ext_entropy answers s =
      let entropy = sha256 (s.int_entropy ++ ext_entropy) in
      let mnemonic = mnemonic_from_data (take (s.strength / 8) entropy) in
      let store = storage_set_mnemonic mnemonic (storage_set_needs_backup true s.device.store) in
      let s1 =
        with_store store (record s { int_entropy = replicate 32 0; awaiting_entropy = false }) in
      if not s.awaiting_entropy
      then some (say not_in_reset s)
      else if s.skip_backup
      then some (initialize s1)
      else reset_backup false answers s1

  -- The settings are written, and the host is asked for entropy.
  abbrev pub ask_entropy : ResetDevice → Reset → Reset
  ask_entropy msg s =
      let st1 = storage_set_passphrase_protection msg.passphrase_protection s.device.store in
      let st2 = storage_set_label msg.label (storage_set_language msg.language st1) in
      let st3 = storage_update compute_u2froot (storage_set_u2f_counter msg.u2f_counter st2) in
      say entropy_request (with_store st3 (record s { awaiting_entropy = true }))

  abbrev pub pin_entered :
      ResetDevice → Reset → Option (Bool × Option (List ℕ) × Device) → Option Reset
  pin_entered msg s none = none
  pin_entered msg s (some (true, some pin, d)) =
      some (ask_entropy msg (record s { changed_pin = pin; deferred_set_pin = true; device = d }))
  pin_entered msg s (some (ok, pin, d)) = some (say pin_mismatch (record s { device = d }))

  -- `reset_init`, with the random bytes, the user's answer when they are shown, and the two entries of
  -- the PIN; `none` while it waits.
  unfoldable pub reset_init : ResetDevice → List ℕ → Bool → Attempt → Attempt → Reset → Option Reset
  reset_init msg random ok t1 t2 s =
      let s1 : Reset = record s {
        strength = msg.strength;
        skip_backup = msg.skip_backup;
        int_entropy = take 32 random;
      } in
      let s2 : Reset = record s1 { deferred_set_pin = false } in
      if not (msg.strength == 128 || (msg.strength == 192 || msg.strength == 256))
      then some s
      else if msg.display_random && not ok
      then some (say action_cancelled s1)
      else if msg.pin_protection
      then pin_entered msg s2 (protect_change_pin compute_u2froot [] (some 17) t1 t2 s.device)
      else some (ask_entropy msg s2)
