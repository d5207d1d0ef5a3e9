-- ===== src/Fsm/Rules/Secrets.antt =====
-- What is written without a confirmation keeps the seed, the node and the PIN.
use safe_t_mcu.Prelude.{
  ℕ, ◌≡◌, refl, ap, ◌∙◌, Bool, false, List, Option, none, some, by_test, ◌==◌, text_eq, arith,
}
use Prim.Native.Nat.{bit_or}
use safe_t_mcu.Storage.{Node, Storage, State}
use safe_t_mcu.Storage.Commit.{merge, storage_commit_locked, storage_update}
use safe_t_mcu.Storage.Fields.{
  storage_apply_flags, storage_set_label, storage_set_language, storage_set_passphrase_protection,
  storage_set_homescreen, english, is_language,
}
use safe_t_mcu.Protect.Keeps.{secrets, Kept}
use safe_t_mcu.Wallet.Library.{Library}
use safe_t_mcu.Fsm.Settings.{ApplySettings, set_some, apply_settings, apply_flags}

-- No secret is pending.
pub record NoSecret (s0 s : State) : Type 0 where
  pub same : secrets s.rom ≡ secrets s0.rom
  pub node : s.update.has_node ≡ false
  pub mnemonic : s.update.has_mnemonic ≡ false
  pub pin : s.update.has_pin ≡ false

Kept-NoSecret : {s0 s : State} → Kept s0 s → NoSecret s0 s
Kept-NoSecret k = record {
  same = k.same;
  node = ap (λ (u : Storage). u.has_node) k.settled;
  mnemonic = ap (λ (u : Storage). u.has_mnemonic) k.settled;
  pin = ap (λ (u : Storage). u.has_pin) k.settled;
}

module _ (compute_u2froot : List ℕ → Node) where
  secrets-merge :
      (rom u : Storage)
      → u.has_node ≡ false
      → u.has_mnemonic ≡ false
      → u.has_pin ≡ false
      → secrets (merge compute_u2froot rom u) ≡ secrets rom
  unfolding merge
  secrets-merge rom u n m p = ground arith

  update-Kept :
      {s0 : State} (s : State) → NoSecret s0 s → Kept s0 (storage_update compute_u2froot s)
  unfolding storage_update storage_commit_locked
  update-Kept s k = record {
    same = secrets-merge s.rom s.update k.node k.mnemonic k.pin ∙ k.same;
    settled = refl;
  }

NoSecret-set_some :
    {A : Type 0} (o : Option A) (f : A → State → State) (s0 s : State)
    → ((a : A) → NoSecret s0 (f a s))
    → NoSecret s0 s
    → NoSecret s0 (set_some o f s)
NoSecret-set_some none f s0 s h k = k
NoSecret-set_some (some a) f s0 s h k = h a

language-NoSecret :
    (lang : List ℕ) (s0 s : State)
    → NoSecret s0 s
    → NoSecret s0 (storage_set_language (some lang) s)
unfolding storage_set_language
language-NoSecret lang s0 s k =
    by_test (NoSecret s0) (text_eq lang english)
      (λ _. record { same = k.same; node = k.node; mnemonic = k.mnemonic; pin = k.pin })
      (λ _.
        by_test (NoSecret s0) (is_language lang)
          (λ _. record { same = k.same; node = k.node; mnemonic = k.mnemonic; pin = k.pin })
          (λ _. k))

label-NoSecret :
    (label : List ℕ) (s0 s : State) → NoSecret s0 s → NoSecret s0 (storage_set_label (some label) s)
unfolding storage_set_label
label-NoSecret label s0 s k = record {
  same = k.same;
  node = k.node;
  mnemonic = k.mnemonic;
  pin = k.pin;
}

passphrase-NoSecret :
    (on : Bool) (s0 s : State)
    → NoSecret s0 s
    → NoSecret s0 (storage_set_passphrase_protection on s)
unfolding storage_set_passphrase_protection
passphrase-NoSecret on s0 s k = record {
  same = k.same;
  node = k.node;
  mnemonic = k.mnemonic;
  pin = k.pin;
}

homescreen-NoSecret :
    (h : List ℕ) (s0 s : State) → NoSecret s0 s → NoSecret s0 (storage_set_homescreen (some h) s)
unfolding storage_set_homescreen
homescreen-NoSecret h s0 s k = record {
  same = k.same;
  node = k.node;
  mnemonic = k.mnemonic;
  pin = k.pin;
}

flags-NoSecret :
    (flags : ℕ) (s0 s : State) → NoSecret s0 s → NoSecret s0 (storage_apply_flags flags s)
unfolding storage_apply_flags
flags-NoSecret flags s0 s k =
    by_test (NoSecret s0) (bit_or s.rom.flags flags == s.rom.flags) (λ _. k)
      (λ _. record { same = k.same; node = k.node; mnemonic = k.mnemonic; pin = k.pin })

module _ (L : Library) where
  pub apply_flags-Kept :
      (flags : Option ℕ) (s0 s : State) → Kept s0 s → Kept s0 (apply_flags L flags s)
  apply_flags-Kept none s0 s k = k
  apply_flags-Kept (some flags) s0 s k =
      update-Kept L.compute_u2froot (storage_apply_flags flags s)
        (flags-NoSecret flags s0 s (Kept-NoSecret k))

  -- Label, language, passphrase setting and homescreen are no secrets.
  pub apply_settings-Kept :
      (msg : ApplySettings) (s0 s : State) → Kept s0 s → Kept s0 (apply_settings L msg s)
  unfolding apply_settings
  apply_settings-Kept msg s0 s k =
      let label : List ℕ → State → State = λ l. storage_set_label (some l) in
      let language : List ℕ → State → State = λ l. storage_set_language (some l) in
      let s1 = set_some msg.label label s in
      let s2 = set_some msg.language language s1 in
      let s3 = set_some msg.use_passphrase storage_set_passphrase_protection s2 in
      let k1 : NoSecret s0 s1 =
        NoSecret-set_some msg.label label s0 s (λ l. label-NoSecret l s0 s (Kept-NoSecret k))
          (Kept-NoSecret k) in
      let k2 : NoSecret s0 s2 =
        NoSecret-set_some msg.language language s0 s1 (λ l. language-NoSecret l s0 s1 k1) k1 in
      let k3 : NoSecret s0 s3 =
        NoSecret-set_some msg.use_passphrase storage_set_passphrase_protection s0 s2
          (λ on. passphrase-NoSecret on s0 s2 k2) k2 in
      update-Kept L.compute_u2froot _ (
        NoSecret-set_some msg.homescreen (λ h. storage_set_homescreen (some h)) s0 s3
          (λ h. homescreen-NoSecret h s0 s3 k3) k3)
