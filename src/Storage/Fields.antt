-- ===== src/Storage/Fields.antt =====
-- The accessors of firmware/storage.c (CRYPTOMEM=0): setters change what is pending, getters read
-- what is stored.
pub mod Compare
pub mod Laws
use Prim.Native.Nat.{bit_or}
use safe_t_mcu.Prelude.{
  ℕ, ◌+◌, ◌-◌, ◌%◌, ◌^◌, Bool, true, false, not, ◌&&◌, ◌||◌, List, [], ◌∷◌, Option, none, some,
  ◌==◌, if◌then◌else◌, length, take, text_eq,
}
use safe_t_mcu.Storage.{Node, Storage, Session, State}
use safe_t_mcu.Storage.Commit.{is_empty}

-- `strlcpy(dst, src, size)` leaves at most `size - 1` characters.
abbrev pub strlcpy : ℕ → List ℕ → List ℕ
strlcpy size src = take (size - 1) src

abbrev pub english : List ℕ
english = b'e' ∷ b'n' ∷ b'g' ∷ b'l' ∷ b'i' ∷ b's' ∷ b'h' ∷ []

abbrev pub is_language : List ℕ → Bool
is_language lang =
    text_eq lang (b'E' ∷ b'N' ∷ [])
    || (text_eq lang (b'F' ∷ b'R' ∷ []) || text_eq lang (b'D' ∷ b'E' ∷ []))

-- A null pointer is `none`.
unfoldable pub storage_set_label : Option (List ℕ) → State → State
storage_set_label none s = record s { update = record (s.update) { has_label = true } }
storage_set_label (some label) s = record s {
  update = record (s.update) { has_label = true; label = strlcpy 33 label };
}

unfoldable pub storage_set_language : Option (List ℕ) → State → State
storage_set_language none s = s
storage_set_language (some lang) s =
    if text_eq lang english
    then record s {
      update = record (s.update) { has_language = true; language = b'E' ∷ b'N' ∷ [] };
    }
    else if is_language lang
    then record s { update = record (s.update) { has_language = true; language = strlcpy 17 lang } }
    else s

unfoldable pub storage_set_passphrase_protection : Bool → State → State
storage_set_passphrase_protection on s = record s {
  session = record (s.session) { seed_cached = false; passphrase_cached = false };
  update = record (s.update) { has_passphrase_protection = true; passphrase_protection = on };
}

unfoldable pub storage_has_passphrase_protection : State → Bool
storage_has_passphrase_protection s = s.rom.has_passphrase_protection && s.rom.passphrase_protection

-- Only a picture of 1024 bytes is kept; no other one has a size.
unfoldable pub storage_set_homescreen : Option (List ℕ) → State → State
storage_set_homescreen none s = record s {
  update = record (s.update) { has_homescreen = true; homescreen = [] };
}
storage_set_homescreen (some bytes) s = record s {
  update = record (s.update) {
    has_homescreen = true;
    homescreen = if length bytes == 1024 then bytes else [];
  };
}

unfoldable pub storage_get_label : State → Option (List ℕ)
storage_get_label s = if s.rom.has_label then some s.rom.label else none

unfoldable pub storage_get_language : State → Option (List ℕ)
storage_get_language s = if s.rom.has_language then some s.rom.language else none

unfoldable pub storage_get_homescreen : State → Option (List ℕ)
storage_get_homescreen s =
    if s.rom.has_homescreen && length s.rom.homescreen == 1024 then some s.rom.homescreen else none

unfoldable pub storage_set_mnemonic : List ℕ → State → State
storage_set_mnemonic mnemonic s = record s {
  update = record (s.update) { has_mnemonic = true; mnemonic = strlcpy 241 mnemonic };
}

unfoldable pub storage_set_pin : List ℕ → State → State
storage_set_pin pin s = record s {
  update = record (s.update) { has_pin = true; pin = strlcpy 10 pin };
  session = record (s.session) { pin_cached = false };
}

unfoldable pub storage_has_pin : State → Bool
storage_has_pin s = s.rom.has_pin && not (is_empty s.rom.pin)

-- The characters of a string up to its closing zero, and that zero from there on.
abbrev pub char_at : List ℕ → ℕ × List ℕ
char_at [] = (0, [])
char_at (c ∷ cs) = (c, cs)

-- `diff |= storageRom->pin[i] - pin[i]` for each character of `pin`, then `diff |=
-- storageRom->pin[i]`, on one byte.
pub diff_from : ℕ → List ℕ → List ℕ → ℕ
diff_from diff stored [] = bit_or diff (char_at stored).0
diff_from diff stored (c ∷ cs) =
    diff_from (bit_or diff (((char_at stored).0 + 2 ^ 8 - c) % 2 ^ 8)) (char_at stored).1 cs

unfoldable pub storage_contains_pin : List ℕ → State → Bool
unfolding diff_from
storage_contains_pin pin s = diff_from 0 s.rom.pin pin == 0

unfoldable pub storage_contains_mnemonic : List ℕ → State → Bool
unfolding diff_from
storage_contains_mnemonic mnemonic s = diff_from 0 s.rom.mnemonic mnemonic == 0

unfoldable pub storage_has_node : State → Bool
storage_has_node s = s.rom.has_node

unfoldable pub storage_has_mnemonic : State → Bool
storage_has_mnemonic s = s.rom.has_mnemonic

unfoldable pub storage_is_initialized : State → Bool
storage_is_initialized s = s.rom.has_node || s.rom.has_mnemonic

unfoldable pub storage_is_imported : State → Bool
storage_is_imported s = s.rom.has_imported && s.rom.imported

unfoldable pub storage_set_imported : Bool → State → State
storage_set_imported imported s = record s {
  update = record (s.update) { has_imported = true; imported = imported };
}

unfoldable pub storage_needs_backup : State → Bool
storage_needs_backup s =
    if s.update.has_needs_backup
    then s.update.needs_backup
    else s.rom.has_needs_backup && s.rom.needs_backup

unfoldable pub storage_set_needs_backup : Bool → State → State
storage_set_needs_backup needs_backup s = record s {
  update = record (s.update) { has_needs_backup = true; needs_backup = needs_backup };
}

unfoldable pub storage_apply_flags : ℕ → State → State
storage_apply_flags flags s = if bit_or s.rom.flags flags == s.rom.flags then s else record s {
  update = record (s.update) { has_flags = true; flags = bit_or s.update.flags flags };
}

unfoldable pub storage_get_flags : State → ℕ
storage_get_flags s = if s.rom.has_flags then s.rom.flags else 0

-- `session_cachePassphrase`, `session_cachePin` and what they are asked.
unfoldable pub session_cache_passphrase : List ℕ → State → State
session_cache_passphrase passphrase s = record s {
  session = record (s.session) { passphrase = strlcpy 51 passphrase; passphrase_cached = true };
}

unfoldable pub session_is_passphrase_cached : State → Bool
session_is_passphrase_cached s = s.session.passphrase_cached

unfoldable pub session_cache_pin : State → State
session_cache_pin s = record s { session = record (s.session) { pin_cached = true } }

unfoldable pub session_is_pin_cached : State → Bool
session_is_pin_cached s = s.session.pin_cached
