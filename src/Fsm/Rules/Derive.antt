-- ===== src/Fsm/Rules/Derive.antt =====
-- Rules for the steps that derive keys.
use safe_t_mcu.Prelude.{
  ℕ, ◌≡◌, refl, ◌∙◌, true, ◌&&◌, List, [], ◌∷◌, Option, none, some, All, text_eq,
}
use safe_t_mcu.Storage.{State}
use safe_t_mcu.Wallet.Library.{HdNode, Library}
use safe_t_mcu.Host.{
  Question, Event, derived, say, stores, reads, emit, process_error, not_initialized,
}
use safe_t_mcu.Fsm.Root.{
  show_error, make_seed, is_valid, seed_of, seed_is_cached, stored_node, passphrase_seed,
  storage_get_seed, node_root, seed_root, storage_get_root_node, derived_child, child_at,
  note_derived, child_of, fsm_get_derived_node, seed_node, cache_seed, secp256k1,
}
use safe_t_mcu.Fsm.Rules.{
  Has, Kept-init, Facts, Does, ◌then_step◌, Does-if, Does-pure, Does-reads, Does-fail,
}
use safe_t_mcu.Fsm.Rules.Dialogs.{Knows-store, Does-passphrase}

module _ (L : Library) where
  Does-note_derived : {f : Facts} → f.init ≡ true → f.unlocked ≡ true → Does f (note_derived L) f
  unfolding note_derived emit reads say
  Does-note_derived {f} i u = record {
    at = λ s0 w p. record {
      guarded = (Kept-init p.kept ∙ p.init i, p.unlocked u, p.guarded);
      kept = p.kept;
      init = p.init;
      unlocked = p.unlocked;
      confirmed = lifted f.confirmed w.log w.device.store p.confirmed;
    };
  }
    where
      lifted :
          (qs : List Question) (log : List Event) (s : State)
          → All (λ q'. Has q' log) qs
          → All (λ q'. Has q' (derived s ∷ log)) qs
      lifted [] log s h = tt
      lifted (q' ∷ qs) log s h = (h.0, lifted qs log s h.1)

  Does-show_error : {f g : Facts} {A : Type 0} → Does f (show_error {A = A}) g
  unfolding show_error
  Does-show_error = record { at = λ s0 w p. p.guarded }

  Does-cache_seed : {f : Facts} (seed : List ℕ) → Does f (stores (cache_seed seed)) f
  unfolding stores
  Does-cache_seed seed = record {
    at = λ s0 w p.
        Knows-store w (record (w.device) { store = cache_seed seed w.device.store })
          (record { rom = refl; pending = refl; pin_cached = refl }) p;
  }

  Does-make_seed : {f : Facts} → Does f (make_seed L) f
  unfolding make_seed
  Does-make_seed = Does-reads (is_valid L) then_step λ valid.
      Does-if valid (Does-pure tt) Does-show_error then_step λ _.
      Does-reads (seed_of L) then_step λ seed.
      Does-cache_seed seed then_step λ _. Does-pure (some seed)

  Does-storage_get_seed : {f : Facts} → Does f (storage_get_seed L) f
  unfolding storage_get_seed passphrase_seed
  Does-storage_get_seed = Does-reads seed_is_cached then_step λ cached.
      Does-reads (λ (s : State). s.rom.has_mnemonic) then_step λ has.
      Does-reads (λ (s : State). s.session.seed) then_step λ seed.
      Does-if cached (Does-pure (some seed)) (
        Does-if has (Does-passphrase L then_step λ ok. Does-if ok Does-make_seed (Does-pure none))
          (Does-pure none))

  Does-root : {f : Facts} (curve : List ℕ) → Does f (storage_get_root_node L curve) f
  unfolding storage_get_root_node node_root seed_root
  Does-root curve = Does-reads (λ (s : State). s.rom.has_node) then_step λ has.
      Does-if (has && text_eq curve secp256k1)
        (Does-passphrase L then_step λ ok.
          Does-if ok (Does-reads (stored_node L curve)) (Does-pure none))
        (Does-storage_get_seed then_step λ seed. Does-pure (seed_node L curve seed))

  Does-derived_child : {f : Facts} (o : Option (HdNode × ℕ)) → Does f (derived_child L o) f
  Does-derived_child none = Does-fail L process_error
  Does-derived_child (some r) = Does-pure r

  Does-child_at : {f : Facts} (path : List ℕ) (node : HdNode) → Does f (child_at L path node) f
  Does-child_at [] node = Does-pure (node, 0)
  Does-child_at (n ∷ ns) node = Does-derived_child (L.hdnode_private_ckd_cached node (n ∷ ns))

  Does-child_of :
      {f : Facts} (path : List ℕ) (node : Option HdNode)
      → f.init ≡ true
      → f.unlocked ≡ true
      → Does f (child_of L path node) f
  Does-child_of path none i u = Does-fail L not_initialized
  Does-child_of path (some node) i u = Does-note_derived i u then_step λ _. Does-child_at path node

  -- A key is derived once it has been checked that the device is initialized and unlocked.
  pub Does-fsm_get_derived_node :
      {f : Facts} (curve path : List ℕ)
      → f.init ≡ true
      → f.unlocked ≡ true
      → Does f (fsm_get_derived_node L curve path) f
  unfolding fsm_get_derived_node
  Does-fsm_get_derived_node curve path i u =
      Does-root curve then_step λ node. Does-child_of path node i u
