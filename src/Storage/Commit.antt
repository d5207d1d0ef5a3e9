-- ===== src/Storage/Commit.antt =====
-- `storage_commit_locked` of firmware/storage.c: the pending fields are merged with what is stored,
-- and the storage sector is written anew.
use safe_t_mcu.Prelude.{ℕ, Bool, true, false, not, ◌&&◌, List, [], ◌∷◌, if◌then◌else◌}
use safe_t_mcu.Storage.{
  Node, Storage, Session, State, zero_storage, storage_magic, storage_version, session_clear,
  erase_extra,
}

abbrev pub is_empty : List ℕ → Bool
is_empty [] = true
is_empty (x ∷ xs) = false

-- `storage_compute_u2froot` derives a key by the crypto library: a parameter.
module _ (compute_u2froot : List ℕ → Node) where
  -- Secrets: what is pending replaces node and mnemonic together, or the stored ones stay.
  abbrev pub merge_secrets : Storage → Storage → Storage
  merge_secrets rom u =
      if not u.has_node && not u.has_mnemonic
      then record u {
        has_node = rom.has_node;
        node = rom.node;
        has_mnemonic = rom.has_mnemonic;
        mnemonic = rom.mnemonic;
        has_u2froot = rom.has_u2froot;
        u2froot = rom.u2froot;
      }
      else if u.has_mnemonic
      then record u { has_u2froot = true; u2froot = compute_u2froot u.mnemonic }
      else u

  -- A pending empty PIN removes the PIN.
  abbrev pub merge_pin : Storage → Storage → Storage
  merge_pin rom u =
      if not u.has_pin
      then record u { has_pin = rom.has_pin; pin = rom.pin }
      else if is_empty u.pin
      then record u { has_pin = false }
      else u

  abbrev pub merge_label : Storage → Storage → Storage
  merge_label rom u =
      if not u.has_label
      then record u { has_label = rom.has_label; label = rom.label }
      else if is_empty u.label
      then record u { has_label = false }
      else u

  abbrev pub merge_homescreen : Storage → Storage → Storage
  merge_homescreen rom u =
      if not u.has_homescreen
      then record u { has_homescreen = rom.has_homescreen; homescreen = rom.homescreen }
      else if is_empty u.homescreen
      then record u { has_homescreen = false }
      else u

  -- The fields that only have a flag.
  abbrev pub merge_plain : Storage → Storage → Storage
  merge_plain rom u = record u {
    has_passphrase_protection =
        if u.has_passphrase_protection then true else rom.has_passphrase_protection;
    passphrase_protection =
        if u.has_passphrase_protection then u.passphrase_protection else rom.passphrase_protection;
    has_language = if u.has_language then true else rom.has_language;
    language = if u.has_language then u.language else rom.language;
    has_imported = if u.has_imported then true else rom.has_imported;
    imported = if u.has_imported then u.imported else rom.imported;
    has_u2f_counter = if u.has_u2f_counter then true else rom.has_u2f_counter;
    u2f_counter = if u.has_u2f_counter then u.u2f_counter else rom.u2f_counter;
    has_needs_backup = if u.has_needs_backup then true else rom.has_needs_backup;
    needs_backup = if u.has_needs_backup then u.needs_backup else rom.needs_backup;
    has_flags = if u.has_flags then true else rom.has_flags;
    flags = if u.has_flags then u.flags else rom.flags;
  }

  -- The `if (update)` block: what will be stored.
  unfoldable pub merge : Storage → Storage → Storage
  merge rom u = merge_homescreen rom (
      merge_label rom (
        merge_pin rom
          (merge_plain rom (merge_secrets rom (record u { version = storage_version })))))

  -- What a pending change does to the session. Deriving the U2F root ends in `session_clear(false)`.
  unfoldable pub commit_session : Storage → Session → Session
  commit_session u s =
      let s1 : Session =
        if u.has_passphrase_protection
        then record s { seed_cached = false; passphrase_cached = false }
        else s in
      let s2 : Session = if u.has_pin then record s1 { pin_cached = false } else s1 in
      if u.has_mnemonic then session_clear false s2 else s2

  -- `storage_commit_locked`
  unfoldable pub storage_commit_locked : Bool → State → State
  storage_commit_locked update s = record s {
    magic = storage_magic;
    rom = if update then merge s.rom s.update else zero_storage;
    update = zero_storage;
    session = if update then commit_session s.update s.session else s.session;
  }

  -- `storage_update`
  unfoldable pub storage_update : State → State
  storage_update s = storage_commit_locked true s

  -- `storage_clearPinArea`
  unfoldable pub storage_clear_pin_area : State → State
  storage_clear_pin_area s = record s { extra = erase_extra s.extra; u2f_offset = 0 }

  -- `storage_wipe`; the new uuid is random.
  unfoldable pub storage_wipe : List ℕ → State → State
  storage_wipe random_uuid s =
      let s1 : State = record s { session = session_clear true s.session; uuid = random_uuid } in
      storage_clear_pin_area (storage_commit_locked false s1)
