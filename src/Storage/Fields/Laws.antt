-- ===== src/Storage/Fields/Laws.antt =====
-- What the accessors of firmware/storage.c and the writing of storage come to together.
use Prim.Native.Nat.{bit_or, bit_or-bitwise}
use safe_t_mcu.Prelude.{
  ℕ, ◌≡◌, ◌≢◌, refl, ap, ◌∙◌, arith, Bool, true, false, not, List, [], ◌∷◌, none, some, ◌==◌,
  if◌then◌else◌, take,
}
use safe_t_mcu.Storage.{Node, State, zero_storage, storage_version, storage_magic, session_clear}
use safe_t_mcu.Storage.Commit.{
  is_empty, merge, commit_session, storage_commit_locked, storage_update, storage_clear_pin_area,
  storage_wipe,
}
use safe_t_mcu.Storage.Fields.{
  storage_set_label, storage_set_pin, storage_has_pin, storage_apply_flags, storage_get_flags,
  storage_get_label, storage_is_initialized, session_is_pin_cached,
}

-- With nothing pending.
abbrev pub settled : State → State
settled s = record s { update = zero_storage }

different : (a b : ℕ) → a ≢ b → (a == b) ≡ false
different a b h = ground arith

bit_or_nil : (b : ℕ) → bit_or 0 b ≡ b
bit_or_nil b = λ i. bit_or-bitwise 0 b i

new_flags :
    (s : State) (flags : ℕ)
    → bit_or s.rom.flags flags ≢ s.rom.flags
    → storage_apply_flags flags (settled s)
      ≡ record (settled s) { update = record zero_storage { has_flags = true; flags = flags } }
unfolding storage_apply_flags
new_flags s flags h =
    ap
      (λ (b : Bool). if b then settled s else record (settled s) {
        update = record zero_storage { has_flags = true; flags = bit_or 0 flags };
      })
      (different (bit_or s.rom.flags flags) s.rom.flags h)
    ∙ ap
        (λ (n : ℕ). record (settled s) {
          update = record zero_storage { has_flags = true; flags = n };
        })
        (bit_or_nil flags)

module _ (compute_u2froot : List ℕ → Node) where
  -- Writing with nothing pending keeps everything that is stored; only the version becomes current.
  pub storage_update-settled :
      (s : State)
      → storage_update compute_u2froot (settled s) ≡ record (settled s) {
        magic = storage_magic;
        rom = record (s.rom) { version = storage_version };
      }
  unfolding storage_update storage_commit_locked merge commit_session
  storage_update-settled s = refl

  -- With nothing else pending, a PIN that is set and written is stored cut to 9 characters and no longer cached, an empty one
  -- leaves the device without PIN, and the secrets stay.
  pub storage_update-storage_set_pin :
      (s : State) (pin : List ℕ)
      → let s' = storage_update compute_u2froot (storage_set_pin pin (settled s)) in
        (s'.rom.pin ≡ take 9 pin)
        × (storage_has_pin s' ≡ not (is_empty pin))
        × (session_is_pin_cached s' ≡ false)
        × (s'.rom.mnemonic ≡ s.rom.mnemonic)
        × (s'.rom.has_mnemonic ≡ s.rom.has_mnemonic)
  unfolding storage_update storage_set_pin storage_has_pin session_is_pin_cached
      storage_commit_locked merge commit_session
  storage_update-storage_set_pin s [] = (refl, refl, refl, refl, refl)
  storage_update-storage_set_pin s (c ∷ cs) = (refl, refl, refl, refl, refl)

  -- With nothing else pending, a label that is set and written is read cut to 32 characters; an empty one removes the label.
  pub storage_get_label-storage_set_label :
      (s : State) (label : List ℕ)
      → storage_get_label
          (storage_update compute_u2froot (storage_set_label (some label) (settled s)))
        ≡ (if is_empty label then none else some (take 32 label))
  unfolding storage_update storage_set_label storage_get_label storage_commit_locked merge
  storage_get_label-storage_set_label s [] = refl
  storage_get_label-storage_set_label s (c ∷ cs) = refl

  -- With nothing else pending, flags of which one at least is new stand alone after they are applied
  -- and written: the flags that were stored before are not kept.
  pub storage_get_flags-storage_apply_flags :
      (s : State) (flags : ℕ)
      → bit_or s.rom.flags flags ≢ s.rom.flags
      → storage_get_flags (storage_update compute_u2froot (storage_apply_flags flags (settled s)))
        ≡ flags
  unfolding storage_update storage_get_flags storage_commit_locked merge
  storage_get_flags-storage_apply_flags s flags h =
      ap (λ (t : State). storage_get_flags (storage_update compute_u2froot t)) (new_flags s flags h)

  -- A wiped device is as a new one, and the session has nothing cached.
  pub storage_wipe_lem :
      (s : State) (uuid : List ℕ)
      → let s' = storage_wipe compute_u2froot uuid s in
        (s'.rom ≡ zero_storage)
        × (s'.update ≡ zero_storage)
        × (storage_is_initialized s' ≡ false)
        × (storage_has_pin s' ≡ false)
        × (session_is_pin_cached s' ≡ false)
        × (s'.session.seed_cached ≡ false)
        × (s'.session.passphrase_cached ≡ false)
  unfolding storage_wipe storage_clear_pin_area storage_commit_locked storage_is_initialized
      storage_has_pin session_is_pin_cached session_clear
  storage_wipe_lem s uuid = (refl, refl, refl, refl, refl, refl, refl)
