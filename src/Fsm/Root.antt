-- ===== src/Fsm/Root.antt =====
-- The root key of what is stored, `storage_getRootNode` and `storage_getSeed` of firmware/storage.c,
-- and the key of a path, `fsm_getDerivedNode` of firmware/fsm.c.
use safe_t_mcu.Prelude.{
  ◌*◌, ◌/◌, take, drop, ℕ, Bool, true, ◌&&◌, ◌||◌, List, [], ◌∷◌, Option, none, some, ltb,
  if◌then◌else◌, length, text_eq,
}
use safe_t_mcu.Storage.{State}
use safe_t_mcu.Storage.Fields.{storage_has_passphrase_protection, storage_is_imported}
use safe_t_mcu.Wallet.Library.{HdNode, Library}
use safe_t_mcu.Host.{
  M, ◌>>=◌, ◌>>◌, stopped, halted, process_error, not_initialized, derived, pure, reads, stores,
  emit,
}
use safe_t_mcu.Fsm.{fail, passphrase}

abbrev pub secp256k1 : List ℕ
secp256k1 = b's' ∷ b'e' ∷ b'c' ∷ b'p' ∷ b'2' ∷ b'5' ∷ b'6' ∷ b'k' ∷ b'1' ∷ []

-- "TREZORHD"
abbrev trezorhd : List ℕ
trezorhd = b'T' ∷ b'R' ∷ b'E' ∷ b'Z' ∷ b'O' ∷ b'R' ∷ b'H' ∷ b'D' ∷ []

-- The seed that the session keeps is for a passphrase, when one may be used.
abbrev pub seed_is_cached : State → Bool
seed_is_cached s = s.session.seed_uses_passphrase && s.session.seed_cached

abbrev pub cache_seed : List ℕ → State → State
cache_seed seed s = record s {
  session = record (s.session) { seed = seed; seed_cached = true; seed_uses_passphrase = true };
}

-- `storage_show_error` stands still for ever.
unfoldable pub show_error : {A : Type 0} → M A
show_error w = stopped halted w

module _ (L : Library) where
  -- `mnemonic_to_seed` of what is stored, with the passphrase of the session.
  abbrev pub seed_of : State → List ℕ
  seed_of s = L.mnemonic_to_seed s.rom.mnemonic s.session.passphrase

  abbrev pub is_valid : State → Bool
  is_valid s = storage_is_imported s || L.mnemonic_check s.rom.mnemonic

  unfoldable pub make_seed : M (Option (List ℕ))
  unfolding show_error reads stores pure
  make_seed = do
    valid ← reads is_valid
    if valid then pure tt else show_error
    seed ← reads seed_of
    stores (cache_seed seed)
    pure (some seed)

  abbrev pub if_entered : Bool → M (Option (List ℕ))
  if_entered ok = if ok then make_seed else pure none

  unfoldable pub passphrase_seed : M (Option (List ℕ))
  unfolding make_seed
  passphrase_seed = do ok ← passphrase L; if_entered ok

  -- `storage_getSeed` with a passphrase
  unfoldable pub storage_get_seed : M (Option (List ℕ))
  unfolding passphrase_seed reads pure
  storage_get_seed = do
    cached ← reads seed_is_cached
    has ← reads (λ s. s.rom.has_mnemonic)
    seed ← reads (λ s. s.session.seed)
    if cached then pure (some seed) else if has then passphrase_seed else pure none

  abbrev pub encrypted : State → Bool
  encrypted s =
      storage_has_passphrase_protection s
      && (s.session.passphrase_cached && ltb 0 (length s.session.passphrase))

  -- The key and the start vector; eight times the pass stops to draw.
  abbrev secret_of : List ℕ → List ℕ
  secret_of passphrase = L.pbkdf2_hmac_sha512 passphrase trezorhd (8 * (L.bip39_pbkdf2_rounds / 8))

  -- Chain code and private key, one after the other.
  abbrev decrypt_node : List ℕ → HdNode → HdNode
  decrypt_node secret node =
      let chain = L.aes_cbc_decrypt (take 32 secret) (drop 32 secret) node.chain_code in
      let key = L.aes_cbc_decrypt (take 32 secret) chain.1 node.private_key in
      record node { chain_code = chain.0; private_key = key.0 }

  abbrev decrypted : State → HdNode → HdNode
  decrypted s node =
      if encrypted s then decrypt_node (secret_of s.session.passphrase) node else node

  abbrev pub stored_node : List ℕ → State → Option HdNode
  stored_node curve s = elim (L.hdnode_from_xprv s.rom.node curve) [
    | none ↦ none
    | some node ↦ some (decrypted s node)
  ]

  abbrev pub seed_node : List ℕ → Option (List ℕ) → Option HdNode
  seed_node curve none = none
  seed_node curve (some seed) = L.hdnode_from_seed seed curve

  abbrev pub node_if_entered : List ℕ → Bool → M (Option HdNode)
  node_if_entered curve ok = if ok then reads (stored_node curve) else pure none

  -- `storage_getRootNode` with a passphrase
  unfoldable pub node_root : List ℕ → M (Option HdNode)
  unfolding reads pure
  node_root curve = do ok ← passphrase L; node_if_entered curve ok

  unfoldable pub seed_root : List ℕ → M (Option HdNode)
  unfolding storage_get_seed pure
  seed_root curve = do seed ← storage_get_seed; pure (seed_node curve seed)

  unfoldable pub storage_get_root_node : List ℕ → M (Option HdNode)
  unfolding node_root seed_root reads
  storage_get_root_node curve = do
    has ← reads (λ s. s.rom.has_node)
    if has && text_eq curve secp256k1 then node_root curve else seed_root curve

  abbrev pub derived_child : Option (HdNode × ℕ) → M (HdNode × ℕ)
  derived_child none = fail L process_error
  derived_child (some r) = pure r

  -- No path names the root itself.
  abbrev pub child_at : List ℕ → HdNode → M (HdNode × ℕ)
  child_at [] node = pure (node, 0)
  child_at (n ∷ ns) node = derived_child (L.hdnode_private_ckd_cached node (n ∷ ns))

  unfoldable pub note_derived : M (Unit {0})
  unfolding emit reads
  note_derived = do s ← reads (λ s. s); emit (derived s)

  abbrev pub child_of : List ℕ → Option HdNode → M (HdNode × ℕ)
  child_of path none = fail L not_initialized
  child_of path (some node) = do note_derived; child_at path node

  -- `fsm_getDerivedNode`: the key, and the fingerprint of its parent.
  unfoldable pub fsm_get_derived_node : List ℕ → List ℕ → M (HdNode × ℕ)
  unfolding storage_get_root_node note_derived fail pure
  fsm_get_derived_node curve path = do root ← storage_get_root_node curve; child_of path root
