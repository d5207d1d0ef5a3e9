-- ===== src/Reset/Laws.antt =====
-- What the reset of a device comes to, when the user refuses a word and when all are confirmed.
use safe_t_mcu.Prelude.{
  ℕ, ◌/◌, ◌≡◌, refl, ap, Bool, true, false, List, [], ◌∷◌, ◌++◌, some, length, take, if◌then◌else◌,
  replicate,
}
use safe_t_mcu.Storage.{Node, zero_storage}
use safe_t_mcu.Storage.Commit.{storage_update, storage_commit_locked, merge, commit_session}
use safe_t_mcu.Storage.Fields.{
  strlcpy, storage_set_mnemonic, storage_set_needs_backup, storage_needs_backup, storage_set_pin,
}
use safe_t_mcu.Storage.Fields.Laws.{settled}
use safe_t_mcu.Reset.{
  Reset, Event, with_store, storage_get_mnemonic, words_of, show_twice, backup_shown, reset_backup,
  reset_entropy, initialize,
}

-- A device with nothing pending that waits for entropy, and lets the seed be written down.
abbrev pub waiting : Reset → Reset
waiting s =
    with_store (settled s.device.store) (record s { awaiting_entropy = true; skip_backup = false })

module _ (compute_u2froot : List ℕ → Node) (sha256 : List ℕ → List ℕ)
    (mnemonic_from_data : List ℕ → List ℕ) where
  -- The seed of both entropies, as it is stored.
  abbrev pub new_mnemonic : List ℕ → Reset → List ℕ
  new_mnemonic ext_entropy s =
      strlcpy 241
        (mnemonic_from_data (take (s.strength / 8) (sha256 (s.int_entropy ++ ext_entropy))))

  -- The state in which the words are shown.
  ready : List ℕ → Reset → Reset
  ready ext_entropy s =
      let mnemonic =
        mnemonic_from_data (take (s.strength / 8) (sha256 (s.int_entropy ++ ext_entropy))) in
      with_store
        (storage_set_needs_backup false
          (storage_set_mnemonic mnemonic (storage_set_needs_backup true (settled s.device.store))))
        (record s { awaiting_entropy = false; skip_backup = false; int_entropy = replicate 32 0 })

  -- If the user refuses a word in one of the passes, the device keeps what it had stored, nothing is pending
  -- that a later write could store, and it waits for no more entropy.
  pub reset_entropy_refused :
      (ext_entropy : List ℕ) (answers rest : List Bool) (s : Reset) (log : List Event)
      → let mnemonic = new_mnemonic ext_entropy s in
        show_twice (words_of (length mnemonic) mnemonic) answers s.log ≡ some (false, rest, log)
        → (s' : Reset) × (reset_entropy compute_u2froot sha256 mnemonic_from_data ext_entropy
              answers
              (waiting s)
            ≡ some s')
          × (s'.device.store.rom ≡ s.device.store.rom)
          × (s'.device.store.update ≡ zero_storage)
          × (s'.awaiting_entropy ≡ false)
  unfolding reset_entropy reset_backup storage_needs_backup storage_set_needs_backup
      storage_set_mnemonic storage_get_mnemonic ready
  reset_entropy_refused ext_entropy answers rest s log h = (
    _,
    ap (backup_shown compute_u2froot sha256 mnemonic_from_data false (ready ext_entropy s)) h,
    refl,
    refl,
    refl,
  )

  -- The end of a reset, in whatever way the PIN was left.
  finished :
      (deferred : Bool) (pin mnemonic : List ℕ) (s : Reset)
      → let store = storage_set_needs_backup false (
          storage_set_mnemonic mnemonic (storage_set_needs_backup true (settled s.device.store))) in
        let s' =
          initialize compute_u2froot sha256 mnemonic_from_data
            (with_store store (record s { deferred_set_pin = deferred; changed_pin = pin })) in
        (s'.device.store.rom.has_mnemonic ≡ true)
        × (s'.device.store.rom.mnemonic ≡ strlcpy 241 mnemonic)
        × (storage_needs_backup s'.device.store ≡ false)
        × (s'.device.store.rom.pin ≡ (if deferred then take 9 pin else s.device.store.rom.pin))
        × (s'.deferred_set_pin ≡ false)
  unfolding storage_needs_backup storage_set_needs_backup storage_set_mnemonic storage_update
      storage_commit_locked merge commit_session storage_set_pin
  finished false pin mnemonic s = (refl, refl, refl, refl, refl)
  finished true [] mnemonic s = (refl, refl, refl, refl, refl)
  finished true (c ∷ pin) mnemonic s = (refl, refl, refl, refl, refl)

  -- If the user confirms every word in both passes, the new seed is stored and marked as backed up, a PIN that
  -- was entered replaces the old one and no PIN is kept waiting.
  pub reset_entropy_confirmed :
      (ext_entropy : List ℕ) (answers rest : List Bool) (s : Reset) (log : List Event)
      → let mnemonic = new_mnemonic ext_entropy s in
        show_twice (words_of (length mnemonic) mnemonic) answers s.log ≡ some (true, rest, log)
        → (s' : Reset) × (reset_entropy compute_u2froot sha256 mnemonic_from_data ext_entropy
              answers
              (waiting s)
            ≡ some s')
          × (s'.device.store.rom.has_mnemonic ≡ true)
          × (s'.device.store.rom.mnemonic ≡ new_mnemonic ext_entropy s)
          × (storage_needs_backup s'.device.store ≡ false)
          × (s'.device.store.rom.pin
              ≡ (if s.deferred_set_pin then take 9 s.changed_pin else s.device.store.rom.pin))
          × (s'.deferred_set_pin ≡ false)
  unfolding reset_entropy reset_backup storage_needs_backup storage_set_needs_backup
      storage_set_mnemonic storage_get_mnemonic ready
  reset_entropy_confirmed ext_entropy answers rest s log h =
      let mnemonic =
        mnemonic_from_data (take (s.strength / 8) (sha256 (s.int_entropy ++ ext_entropy))) in
      let f = finished s.deferred_set_pin s.changed_pin mnemonic (record s {
        awaiting_entropy = false;
        skip_backup = false;
        int_entropy = replicate 32 0;
        log = log;
      }) in
      (
        _,
        ap (backup_shown compute_u2froot sha256 mnemonic_from_data false (ready ext_entropy s)) h,
        f.0,
        f.1,
        f.2,
        f.3,
        f.4,
      )
