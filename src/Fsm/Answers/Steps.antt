-- ===== src/Fsm/Answers/Steps.antt =====
-- The checks and dialogues give one answer when they end a handler, and none when it goes on.
use safe_t_mcu.Prelude.{
  ℕ, ◌+◌, ◌≡◌, refl, ap, ◌∙◌, Bool, true, false, not, ◌&&◌, List, [], ◌∷◌, Option, none, some,
  if◌then◌else◌, by_test, arith, text_eq,
}
use safe_t_mcu.Storage.{State}
use safe_t_mcu.Storage.Fields.{storage_is_initialized}
use safe_t_mcu.Protect.{Device, PinFailure, protect_pin, protect_passphrase, protect_change_pin}
use safe_t_mcu.Protect
use safe_t_mcu.Protect.Failures.{Fails, protect_pin-Fails}
use safe_t_mcu.Wallet.Library.{HdNode, Library, coin_by_name}
use safe_t_mcu.Host.{
  Question, Failure, asked, Answer, World, say, reads, emit, is_confirmed, answer_to, ask_with, ask,
  next_entry, rest_of, next_polls, pin_failure, show_address, action_cancelled, data_error,
  process_error, not_initialized, unexpected_message,
}
use safe_t_mcu.Fsm.{
  fsm_send_failure, fail, check, check_initialized, check_not_initialized, pin_failures, after_pin,
  check_pin, confirm, confirm_if, after_passphrase, passphrase, found, fsm_get_coin, syscoin,
  layout_loop, fsm_layout_address,
}
use safe_t_mcu.Fsm.Root.{
  make_seed, is_valid, seed_of, seed_is_cached, stored_node, passphrase_seed, storage_get_seed,
  node_root, seed_root, storage_get_root_node, derived_child, child_at, note_derived, child_of,
  fsm_get_derived_node, seed_node, cache_seed, secp256k1,
}
use safe_t_mcu.Fsm.Settings.{enter_new_pin, after_change}
use safe_t_mcu.Fsm.Keys.{or_fail, or_silent, display_address}
use safe_t_mcu.Fsm.Sign.Verify.{fail_twice}
use safe_t_mcu.Fsm.Answers.{
  answers, Counted, Counts, ◌and_then◌, Counts-if, Counts-pure, Counts-reads, Counts-stores,
  show_error-Counts, Counts-silent,
}

module _ (L : Library) (E : ℕ → Type 0) (one : E 1) where
  pub answers-send_failure :
      (f : Failure) (w : World) → answers (fsm_send_failure L f w).log ≡ answers w.log + 1
  unfolding fsm_send_failure
  answers-send_failure f w =
      by_test (λ (v : World). answers v.log ≡ answers w.log + 1) w.device.aborted_by_initialize
        (λ _. refl) (λ _. refl)

  pub fail-Counts : {A : Type 0} (f : Failure) → Counts E (fail L {A = A} f)
  unfolding fail
  fail-Counts f = record { at = λ w. (1, one, answers-send_failure f w) }

  pub check-Counts : (ok : Bool) (f : Failure) → Counts E (check L ok f)
  unfolding check
  check-Counts ok f = Counts-if ok (Counts-pure tt) (fail-Counts f)

  pub check_initialized-Counts : Counts E (check_initialized L)
  unfolding check_initialized
  check_initialized-Counts = record {
    at = λ w.
        by_test (Counted E (answers w.log)) (storage_is_initialized w.device.store) (λ _. refl)
          (λ _. (1, one, answers-send_failure not_initialized w));
  }

  pub check_not_initialized-Counts : Counts E (check_not_initialized L)
  unfolding check_not_initialized
  check_not_initialized-Counts = record {
    at = λ w.
        by_test (Counted E (answers w.log)) (storage_is_initialized w.device.store)
          (λ _. (1, one, answers-send_failure unexpected_message w)) (λ _. refl);
  }

  answers-pin_failures :
      (f : PinFailure) (fs : List PinFailure) (w : World)
      → fs ≡ f ∷ []
      → answers (pin_failures L fs w).log ≡ answers w.log + 1
  answers-pin_failures f fs w e =
      ap (λ (r : List PinFailure). answers (pin_failures L r w).log) e
      ∙ answers-send_failure (pin_failure f) w

  pin_count :
      (w : World) (o : Protect.Outcome) → Fails [] o → Counted E (answers w.log) (after_pin L w o)
  pin_count w (Protect.returned true d) h = refl
  pin_count w (Protect.returned false d) h = (
    1,
    one,
    answers-pin_failures h.0 d.failures (record w { device = record d { failures = [] } }) h.1,
  )
  pin_count w (Protect.wiped d) h = refl
  pin_count w Protect.waiting h = refl
  pin_count w Protect.lost h = refl

  pub check_pin-Counts : (use_cached : Bool) → Counts E (check_pin L use_cached)
  unfolding check_pin
  check_pin-Counts use_cached = record {
    at = λ w.
        let d : Device = record (w.device) { failures = [] } in
        pin_count (record w { entries = rest_of w.entries })
          (protect_pin L.compute_u2froot L.random_uuid use_cached (next_entry w.entries) d)
          (protect_pin-Fails L.compute_u2froot L.random_uuid use_cached (next_entry w.entries) d []
            refl);
  }

  ask_count :
      (q : Question) (as' : List Answer) (w : World) → Counted E (answers w.log) (ask_with q as' w)
  ask_count q [] w = refl
  ask_count q (a ∷ as') w = refl

  ask-Counts : (q : Question) → Counts E (ask q)
  unfolding ask
  ask-Counts q = record { at = λ w. ask_count q w.answers w }

  pub confirm-Counts : (q : Question) → Counts E (confirm L q)
  unfolding confirm
  confirm-Counts q =
      ask-Counts q and_then λ ok. Counts-if ok (Counts-pure tt) (fail-Counts action_cancelled)

  pub confirm_if-Counts : (b : Bool) (q : Question) → Counts E (confirm_if L b q)
  unfolding confirm_if
  confirm_if-Counts b q = Counts-if b (confirm-Counts q) (Counts-pure tt)

  passphrase_count :
      (w : World) (o : Option (Bool × Device)) → Counted E (answers w.log) (after_passphrase L w o)
  passphrase_count w none = refl
  passphrase_count w (some (ok, d)) = refl

  pub passphrase-Counts : Counts E (passphrase L)
  unfolding passphrase
  passphrase-Counts = record {
    at = λ w.
        passphrase_count (record w { phrases = rest_of w.phrases })
          (protect_passphrase (next_polls w.phrases) w.device);
  }

  new_pin_count :
      (w : World) (o : Option (Bool × Option (List ℕ) × Device))
      → Counted E (answers w.log) (after_change L w o)
  new_pin_count w none = refl
  new_pin_count w (some (ok, pin, d)) = refl

  pub enter_new_pin-Counts : Counts E (enter_new_pin L)
  unfolding enter_new_pin
  enter_new_pin-Counts = record {
    at = λ w.
        new_pin_count (record w { entries = rest_of (rest_of w.entries) })
          (protect_change_pin L.compute_u2froot L.random_uuid none (next_entry w.entries)
            (next_entry (rest_of w.entries)) w.device);
  }

  pub or_fail-Counts : {A : Type 0} (f : Failure) (o : Option A) → Counts E (or_fail L f o)
  or_fail-Counts f none = fail-Counts f
  or_fail-Counts f (some a) = Counts-pure a

  found-Counts : {A : Type 0} (f : Failure) (o : Option A) → Counts E (found L f o)
  found-Counts f none = fail-Counts f
  found-Counts f (some a) = Counts-pure a

  pub fsm_get_coin-Counts : (name : Option (List ℕ)) → Counts E (fsm_get_coin L name)
  unfolding fsm_get_coin
  fsm_get_coin-Counts none = found-Counts data_error (coin_by_name (syscoin L) L.coins)
  fsm_get_coin-Counts (some name) = found-Counts data_error (coin_by_name name L.coins)

  layout_count :
      (q : Question) (qrcode : Bool) (as' : List Answer) (w : World)
      → Counted E (answers w.log) (layout_loop L q qrcode as' w)
  layout_count q qrcode [] w = refl
  layout_count q qrcode (a ∷ as') w =
      let w1 : World = record w {
        answers = as';
        device = answer_to a w.device;
        log = asked q (is_confirmed a && not qrcode) ∷ w.log;
      } in
      by_test (Counted E (answers w.log)) (is_confirmed a && not qrcode) (λ _. refl)
        (λ _.
          by_test (Counted E (answers w.log)) (answer_to a w.device).aborted_by_initialize
            (λ _. (1, one, answers-send_failure action_cancelled w1))
            (λ _. layout_count q (if is_confirmed a then qrcode else not qrcode) as' w1))

  pub display_address-Counts :
      (show : Bool) (text path : List ℕ) → Counts E (display_address L show text path)
  unfolding display_address fsm_layout_address
  display_address-Counts true text path = record {
    at = λ w. layout_count (show_address text path) false w.answers w;
  }
  display_address-Counts false text path = Counts-pure tt

  make_seed-Counts : Counts E (make_seed L)
  unfolding make_seed
  make_seed-Counts = Counts-reads (is_valid L) and_then λ valid.
      Counts-if valid (Counts-pure tt) show_error-Counts and_then λ _.
      Counts-reads (seed_of L) and_then λ seed.
      Counts-stores (cache_seed seed) and_then λ _. Counts-pure (some seed)

  storage_get_seed-Counts : Counts E (storage_get_seed L)
  unfolding storage_get_seed passphrase_seed
  storage_get_seed-Counts = Counts-reads seed_is_cached and_then λ cached.
      Counts-reads (λ (s : State). s.rom.has_mnemonic) and_then λ has.
      Counts-reads (λ (s : State). s.session.seed) and_then λ seed.
      Counts-if cached (Counts-pure (some seed)) (
        Counts-if has
          (passphrase-Counts and_then λ ok. Counts-if ok make_seed-Counts (Counts-pure none))
          (Counts-pure none))

  root-Counts : (curve : List ℕ) → Counts E (storage_get_root_node L curve)
  unfolding storage_get_root_node node_root seed_root
  root-Counts curve = Counts-reads (λ (s : State). s.rom.has_node) and_then λ has.
      Counts-if (has && text_eq curve secp256k1)
        (passphrase-Counts and_then λ ok.
          Counts-if ok (Counts-reads (stored_node L curve)) (Counts-pure none))
        (storage_get_seed-Counts and_then λ seed. Counts-pure (seed_node L curve seed))

  derived_child-Counts : (o : Option (HdNode × ℕ)) → Counts E (derived_child L o)
  derived_child-Counts none = fail-Counts process_error
  derived_child-Counts (some r) = Counts-pure r

  child_at-Counts : (path : List ℕ) (node : HdNode) → Counts E (child_at L path node)
  child_at-Counts [] node = Counts-pure (node, 0)
  child_at-Counts (n ∷ ns) node = derived_child-Counts (L.hdnode_private_ckd_cached node (n ∷ ns))

  note_derived-Counts : Counts E (note_derived L)
  unfolding note_derived emit say reads
  note_derived-Counts = record { at = λ w. refl }

  child_of-Counts : (path : List ℕ) (node : Option HdNode) → Counts E (child_of L path node)
  child_of-Counts path none = fail-Counts not_initialized
  child_of-Counts path (some node) = note_derived-Counts and_then λ _. child_at-Counts path node

  pub derived_node-Counts : (curve path : List ℕ) → Counts E (fsm_get_derived_node L curve path)
  unfolding fsm_get_derived_node
  derived_node-Counts curve path = root-Counts curve and_then λ node. child_of-Counts path node

  pub fail_twice-Counts : {A : Type 0} → E 2 → Counts E (fail_twice L {A = A})
  unfolding fail_twice
  fail_twice-Counts two = record {
    at = λ w.
        let w1 = fsm_send_failure L data_error w in
        (
          2,
          two,
          omega (arith, answers-send_failure data_error w, answers-send_failure data_error w1),
        );
  }

module _ (L : Library) (E : ℕ → Type 0) (nothing_sent : E 0) where
  pub or_silent-Counts : {A : Type 0} (o : Option A) → Counts E (or_silent L o)
  or_silent-Counts none = Counts-silent nothing_sent
  or_silent-Counts (some a) = Counts-pure a
