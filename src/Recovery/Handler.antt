-- ===== src/Recovery/Handler.antt =====
-- The handlers of firmware/recovery.c: `recovery_init`, and `recovery_word` with what it calls.
use safe_t_mcu.Prelude.{
  ℕ, ◌+◌, ◌-◌, ◌*◌, ◌/◌, ◌%◌, ◌^◌, Bool, true, false, not, ◌&&◌, ◌||◌, List, [], ◌∷◌, ◌++◌, Option,
  none, some, ltb, ◌==◌, if◌then◌else◌, get_or, set, replicate, text_eq,
}
use safe_t_mcu.Storage.Commit.{storage_update}
use safe_t_mcu.Storage.Fields.{
  strlcpy, storage_set_passphrase_protection, storage_set_language, storage_set_label,
  storage_set_imported, storage_set_mnemonic, storage_set_pin, storage_is_initialized,
  storage_contains_mnemonic,
}
use safe_t_mcu.Storage.U2f.{storage_set_u2f_counter}
use safe_t_mcu.Protect.{Device, Attempt, protect_change_pin}
use safe_t_mcu.Recovery.{
  Event, Mode, Recovery, RecoveryDevice, Library, Chance, say, show_dialogue, send_failure,
  with_store, clear_session, recovery_request, joined_words, range, display_choices, pin_mismatch,
  device_recovered, seed_matches, seed_differs, seed_invalid, wrong_word, word_not_found,
  not_in_recovery, idle, scrambled, matrix,
}

module _ (L : Library) where
  abbrev pub table1 : ℕ → ℕ
  table1 x = get_or L.word_table1 x 0 % 2 ^ 12

  abbrev pub table2 : ℕ → ℕ
  table2 x = get_or L.word_table2 x 0 % 2 ^ 12

  -- A recovery that is not a dry run stores the seed.
  abbrev pub store_seed : List ℕ → Recovery → Recovery
  store_seed mnemonic s =
      let st1 = storage_set_mnemonic mnemonic s.device.store in
      let st2 = if s.enforce_wordlist then st1 else storage_set_imported true st1 in
      let st3 = if s.deferred_set_pin then storage_set_pin s.changed_pin st2 else st2 in
      say device_recovered (
        with_store (storage_update L.compute_u2froot st3) (record s {
          changed_pin = if s.deferred_set_pin then [] else s.changed_pin;
          deferred_set_pin = false;
        }))

  -- A dry run tells whether it is the stored seed.
  abbrev pub compare_seed : Bool → List ℕ → Recovery → Recovery
  compare_seed aborts mnemonic s =
      let match =
        storage_is_initialized s.device.store
        && storage_contains_mnemonic mnemonic s.device.store in
      if match
      then say seed_matches (show_dialogue aborts s)
      else send_failure seed_differs (show_dialogue aborts s)

  -- `recovery_done`; the last argument but one is whether its dialogue is ended by Initialize.
  unfoldable pub recovery_done : Bool → Recovery → Recovery
  recovery_done aborts s =
      let mnemonic = joined_words s.word_count s.words in
      let s1 : Recovery = record s { awaiting_word = idle } in
      if not s.enforce_wordlist || L.mnemonic_check mnemonic
      then (if not s.dry_run then store_seed mnemonic s1 else compare_seed aborts mnemonic s1)
      else send_failure seed_invalid
          (if not s.dry_run then clear_session s1 else show_dialogue aborts s1)

  -- How many choices `next_matrix` offers.
  abbrev pub choices : ℕ → ℕ → ℕ
  choices level word_pincode =
      let idx = table1 (word_pincode / 9) + word_pincode % 9 in
      if level == 3
      then (table2 (idx + 1) + 2 ^ 32 - table2 idx) % 2 ^ 32
      else if level == 2
      then (table1 (word_pincode + 1) + 2 ^ 32 - table1 word_pincode) % 2 ^ 32
      else 9

  -- `next_matrix`
  unfoldable pub next_matrix : Chance → Recovery → Recovery
  next_matrix r s =
      let level = s.word_index % 4 in
      recovery_request (record s {
        word_matrix = display_choices r.random_permute (level == 3) (choices level s.word_pincode);
      })

  abbrev pub undo : Recovery → Recovery
  undo s =
      if s.word_index % 4 == 0
      then (if ltb 0 s.word_index then record s { word_index = s.word_index - 4 } else s)
      else record s { word_index = s.word_index - 1; word_pincode = s.word_pincode / 9 }

  abbrev pub word_chosen : Chance → ℕ → Recovery → Recovery
  word_chosen r widx s =
      if widx + 1 == s.word_count
      then recovery_done r.aborts s
      else next_matrix r (record s { word_index = s.word_index + 1 })

  -- The fourth choice makes a word.
  abbrev pub final_choice : Chance → ℕ → Recovery → Recovery
  final_choice r choice s =
      let idx = table2 (table1 (s.word_pincode / 9) + s.word_pincode % 9) + choice in
      let widx = s.word_index / 4 in
      let s1 : Recovery = record s {
        word_pincode = 0;
        words = set s.words widx (strlcpy 12 (get_or L.wordlist idx []));
      } in
      word_chosen r widx s1

  -- `recovery_digit`, of a character.
  unfoldable pub recovery_digit : Chance → ℕ → Recovery → Recovery
  recovery_digit r digit s =
      let choice = get_or s.word_matrix (digit - b'1') 0 in
      if digit == 8
      then next_matrix r (undo s)
      else if ltb digit b'1' || ltb b'9' digit
      then recovery_request s
      else if s.word_index % 4 == 3
      then final_choice r choice s
      else next_matrix r (record s {
        word_pincode = (s.word_pincode * 9 + choice) % 2 ^ 16;
        word_index = s.word_index + 1;
      })

  -- `next_word`
  unfoldable pub next_word : Chance → Recovery → Recovery
  next_word r s =
      let word_pos = get_or s.word_order s.word_index 0 in
      recovery_request (record s {
        word_pos = word_pos;
        fake_word = if word_pos == 0 then strlcpy 12 (get_or L.wordlist r.random_word []) else [];
      })

  -- `recovery_init`; `none` while it waits for the PIN.
  abbrev pub ask_words : RecoveryDevice → Chance → Recovery → Recovery
  ask_words msg r s =
      if msg.by_matrix
      then next_matrix r (record s { awaiting_word = matrix; word_index = 0; word_pincode = 0 })
      else next_word r (record s {
        word_order = r.random_permute (range 1 s.word_count ++ replicate (24 - s.word_count) 0);
        awaiting_word = scrambled;
        word_index = 0;
      })

  abbrev pub write_settings : RecoveryDevice → Recovery → Recovery
  write_settings msg s =
      let st1 = storage_set_passphrase_protection msg.passphrase_protection s.device.store in
      let st2 = storage_set_label msg.label (storage_set_language msg.language st1) in
      with_store (storage_update L.compute_u2froot (storage_set_u2f_counter msg.u2f_counter st2)) s

  abbrev pub pin_entered :
      RecoveryDevice
      → Chance
      → Recovery
      → Option (Bool × Option (List ℕ) × Device)
      → Option Recovery
  pin_entered msg r s none = none
  pin_entered msg r s (some (true, some pin, d)) = some (
      ask_words msg r
        (write_settings msg (record s { changed_pin = pin; deferred_set_pin = true; device = d })))
  pin_entered msg r s (some (ok, pin, d)) =
      some (send_failure pin_mismatch (record s { device = d }))

  unfoldable pub recovery_init :
      RecoveryDevice → Chance → Attempt → Attempt → Recovery → Option Recovery
  recovery_init msg r t1 t2 s =
      let s1 : Recovery = record s {
        word_count = msg.word_count;
        enforce_wordlist = msg.enforce_wordlist;
        dry_run = msg.dry_run;
        deferred_set_pin = false;
      } in
      if not (msg.word_count == 12 || (msg.word_count == 18 || msg.word_count == 24))
      then some s
      else if msg.dry_run
      then some (ask_words msg r s1)
      else if msg.pin_protection
      then pin_entered msg r s1 (protect_change_pin L.compute_u2froot [] (some 17) t1 t2 s.device)
      else some (ask_words msg r (write_settings msg s1))

  abbrev pub is_listed : List (List ℕ) → List ℕ → Bool
  is_listed [] word = false
  is_listed (w ∷ wordlist) word = let rest = is_listed wordlist word in text_eq word w || rest

  -- An error ends a dry run without a change, and else the session.
  abbrev pub refuse : Event → Recovery → Recovery
  refuse e s = send_failure e (if not s.dry_run then clear_session s else s)

  abbrev pub after_word : Chance → Recovery → Recovery
  after_word r s =
      if s.word_index + 1 == 24
      then recovery_done r.aborts s
      else next_word r (record s { word_index = s.word_index + 1 })

  -- `recovery_scrambledword`
  unfoldable pub recovery_scrambledword : Chance → List ℕ → Recovery → Recovery
  recovery_scrambledword r word s =
      if s.word_pos == 0
      then (if not (text_eq word s.fake_word) then refuse wrong_word s else after_word r s)
      else if s.enforce_wordlist && not (is_listed L.wordlist word)
      then refuse word_not_found s
      else after_word r (record s { words = set s.words (s.word_pos - 1) (strlcpy 12 word) })

  abbrev pub word_in_mode : Mode → Chance → List ℕ → Recovery → Recovery
  word_in_mode matrix r word s = recovery_digit r (get_or word 0 0) s
  word_in_mode scrambled r word s = recovery_scrambledword r word s
  word_in_mode idle r word s = send_failure not_in_recovery s

  -- `recovery_word`
  unfoldable pub recovery_word : Chance → List ℕ → Recovery → Recovery
  recovery_word r word s = word_in_mode s.awaiting_word r word s
