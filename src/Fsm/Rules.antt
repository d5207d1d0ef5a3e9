-- ===== src/Fsm/Rules.antt =====
-- What a handler may rely on at each of its steps, and rules for the steps: what has been checked
-- and confirmed so far, over a log in which keys are only derived and used as they may be.
pub mod Dialogs
pub mod Derive
pub mod Secrets
pub mod Writes
use safe_t_mcu.Prelude.{
  ℕ, ◌≡◌, refl, sym, ap, ◌∙◌, Bool, true, false, not, ◌&&◌, ◌||◌, ◌⊎◌, inl, inr, List, [], ◌∷◌,
  Option, none, some, if◌then◌else◌, by_test, All, Option-cases, ◌==◌, length, text_eq,
}
use mathlib.Core.Path.{subst}
use safe_t_mcu.Storage.{State, session_clear, zero_storage}
use safe_t_mcu.Storage.Fields.{storage_is_initialized, storage_has_pin, session_is_pin_cached}
use safe_t_mcu.Storage.Load.{session_get_state}
use safe_t_mcu.Protect.{Device, PinFailure, protect_pin}
use safe_t_mcu.Protect
use safe_t_mcu.Protect.Keeps.{secrets, Kept, IsUnlocked, SamePin, protect_pin-Kept, PinPost}
use safe_t_mcu.Wallet.Library.{Library}
use safe_t_mcu.Host.{
  Question, Failure, Response, Call, Event, asked, derived, used_key, sent, called, Answer, World,
  Stop, ended, waiting, halted, Outcome, returned, stopped, M, ◌>>=◌, ◌>>◌, say, with_store, stores,
  reads, pure, emit, is_confirmed, answer_to, ask_with, ask, next_entry, rest_of, next_polls,
  pin_failure, reply, hand_over, features, failure, action_cancelled, data_error, not_initialized,
  unexpected_message,
}
use safe_t_mcu.Fsm.{
  resume, fsm_msg_initialize, fsm_send_failure, fail, check, check_initialized,
  check_not_initialized, pin_failures, after_pin, check_pin, confirm, confirm_if, after_passphrase,
  passphrase, found, fsm_get_coin, layout_loop, fsm_layout_address, features_of,
}

-- The user confirmed the question.
abbrev pub Has : Question → List Event → Type 0
Has q [] = ⊥
Has q (asked q' b ∷ log) = ((q' ≡ q) × (b ≡ true)) ⊎ Has q log
Has q (e ∷ log) = Has q log

-- The user confirmed something.
abbrev pub has_yes : List Event → Bool
has_yes [] = false
has_yes (asked q b ∷ log) = b || has_yes log
has_yes (e ∷ log) = has_yes log

-- Keys are derived from a device that is initialized and unlocked, and used for what the user
-- confirmed before.
abbrev pub Guarded : List Event → Type 0
Guarded [] = Unit
Guarded (derived s ∷ log) = (storage_is_initialized s ≡ true) × IsUnlocked s × Guarded log
Guarded (used_key q ∷ log) = Has q log × Guarded log
Guarded (e ∷ log) = Guarded log

-- What is known of a device at a step.
pub record Facts : Type 0 where
  pub init : Bool
  pub unlocked : Bool
  pub confirmed : List Question

abbrev pub nothing_known : Facts
nothing_known = record { init = false; unlocked = false; confirmed = [] }

-- `s0` is what the device had stored before.
pub record Knows (s0 : State) (f : Facts) (w : World) : Type 0 where
  pub guarded : Guarded w.log
  pub kept : Kept s0 w.device.store
  pub init : f.init ≡ true → storage_is_initialized s0 ≡ true
  pub unlocked : f.unlocked ≡ true → IsUnlocked w.device.store
  pub confirmed : All (λ q. Has q w.log) f.confirmed

-- A handler that has ended, or waits: what is stored may only differ if the user confirmed something.
pub record Fine (s0 : State) (w : World) : Type 0 where
  pub guarded : Guarded w.log
  pub kept : (has_yes w.log ≡ true) ⊎ (secrets w.device.store.rom ≡ secrets s0.rom)
  pub settled : w.device.store.update ≡ zero_storage

abbrev pub StopPost : State → Stop → World → Type 0
StopPost s0 ended w = Fine s0 w
StopPost s0 waiting w = Fine s0 w
StopPost s0 halted w = Guarded w.log

abbrev pub Post : State → Facts → {A : Type 0} → Outcome A → Type 0
Post s0 g (returned a w) = Knows s0 g w
Post s0 g (stopped e w) = StopPost s0 e w

-- A step leads from what is known to what is known.
pub record Does (f : Facts) {A : Type 0} (m : M A) (g : Facts) : Type 0 where
  pub at : (s0 : State) (w : World) → Knows s0 f w → Post s0 g (m w)

-- What a whole handler does.
abbrev pub Safe : {A : Type 0} → M A → Type 0
Safe m = Does nothing_known m nothing_known

bind_post :
    (s0 : State) (g h : Facts) {A B : Type 0} (o : Outcome A) (k : A → M B)
    → Post s0 g o
    → ((a : A) → Does g (k a) h)
    → Post s0 h (elim o [ returned a w1 ↦ k a w1 | stopped e w1 ↦ stopped e w1 ])
bind_post s0 g h (returned a w) k p rest = (rest a).at s0 w p
bind_post s0 g h (stopped e w) k p rest = p

infixr 6 ◌then_step◌
pub ◌then_step◌ :
    {f g h : Facts} {A B : Type 0} {m : M A} {k : A → M B}
    → Does f m g
    → ((a : A) → Does g (k a) h)
    → Does f (m >>= k) h
◌then_step◌ {g} {h} {m} {k} first rest = record {
  at = λ s0 w p. bind_post s0 g h (m w) k (first.at s0 w p) rest;
}

pub Does-if :
    {f g : Facts} {A : Type 0} {m n : M A} (b : Bool)
    → Does f m g
    → Does f n g
    → Does f (if b then m else n) g
Does-if true p q = p
Does-if false p q = q

pub Does-pure : {f : Facts} {A : Type 0} (a : A) → Does f (pure a) f
unfolding pure
Does-pure a = record { at = λ s0 w p. p }

pub Does-reads : {f : Facts} {A : Type 0} (h : State → A) → Does f (reads h) f
unfolding reads
Does-reads h = record { at = λ s0 w p. p }

pub Fine-of : {s0 : State} {f : Facts} {w : World} → Knows s0 f w → Fine s0 w
Fine-of p = record { guarded = p.guarded; kept = inr p.kept.same; settled = p.kept.settled }

pub Fine-say : {s0 : State} (r : Response) {w : World} → Fine s0 w → Fine s0 (say (sent r) w)
unfolding say
Fine-say r p = record { guarded = p.guarded; kept = p.kept; settled = p.settled }

-- Only the session differs.
session_Fine :
    {s0 : State} (w : World) (d : Device)
    → d.store.rom ≡ w.device.store.rom
    → d.store.update ≡ w.device.store.update
    → Fine s0 w
    → Fine s0 (record w { device = d })
session_Fine {s0} w d e u p = record {
  guarded = p.guarded;
  kept = moved p.kept;
  settled = u ∙ p.settled;
}
  where
    moved :
        (has_yes w.log ≡ true) ⊎ (secrets w.device.store.rom ≡ secrets s0.rom)
        → (has_yes w.log ≡ true) ⊎ (secrets d.store.rom ≡ secrets s0.rom)
    moved (inl y) = inl y
    moved (inr k) = inr (ap secrets e ∙ k)

pub Kept-init : {s0 s : State} → Kept s0 s → storage_is_initialized s ≡ storage_is_initialized s0
unfolding storage_is_initialized
Kept-init k = λ i. (k.same i).2 || (k.same i).0

module _ (L : Library) where
  Resumes : State → State → Type 0
  Resumes s t = (t.rom ≡ s.rom) × (t.update ≡ s.update)

  resume_rom : (state : Option (List ℕ)) (s : State) → Resumes s (resume L.hmac_sha256 state s)
  unfolding Resumes
  resume_rom none s = (refl, refl)
  resume_rom (some state) s =
      by_test (Resumes s) (length state == 64)
        (λ _. elim (Option-cases (session_get_state L.hmac_sha256 state s)) [
          | inl e ↦ rw e (refl, refl)
          | inr (i_state, e) ↦
              rw e (
                by_test (Resumes s) (text_eq state i_state) (λ _. (refl, refl)) (λ _. (refl, refl)))
        ])
        (λ _. (refl, refl))

  pub Fine-initialize :
      {s0 : State} (state : Option (List ℕ)) (w : World)
      → Fine s0 w
      → Fine s0 (fsm_msg_initialize L state w)
  unfolding fsm_msg_initialize Resumes
  Fine-initialize state w p =
      Fine-say (features (features_of (resume L.hmac_sha256 state w.device.store))) (
        session_Fine (record w { recovering = false; signing = false })
          (record (w.device) { store = resume L.hmac_sha256 state w.device.store })
          (resume_rom state w.device.store).0 (resume_rom state w.device.store).1
          (record { guarded = p.guarded; kept = p.kept; settled = p.settled }))

  pub Fine-send_failure :
      {s0 : State} (f : Failure) (w : World) → Fine s0 w → Fine s0 (fsm_send_failure L f w)
  unfolding fsm_send_failure
  Fine-send_failure {s0} f w p =
      let i = Fine-initialize none w p in
      by_test (Fine s0) w.device.aborted_by_initialize
        (λ _. record { guarded = i.guarded; kept = i.kept; settled = i.settled })
        (λ _. Fine-say (failure f) p)

  pub Does-fail : {f g : Facts} {A : Type 0} (e : Failure) → Does f (fail L {A = A} e) g
  unfolding fail
  Does-fail e = record { at = λ s0 w p. Fine-send_failure e w (Fine-of p) }

  pub Does-check : {f : Facts} (ok : Bool) (e : Failure) → Does f (check L ok e) f
  unfolding check
  Does-check ok e = Does-if ok (Does-pure tt) (Does-fail e)

  pub Does-check_initialized : {f : Facts} → Does f (check_initialized L) (record f { init = true })
  unfolding check_initialized
  Does-check_initialized {f} = record {
    at = λ s0 w p.
        by_test (Post s0 (record f { init = true })) (storage_is_initialized w.device.store)
          (λ e. record {
            guarded = p.guarded;
            kept = p.kept;
            init = λ _. sym (Kept-init p.kept) ∙ e;
            unlocked = p.unlocked;
            confirmed = p.confirmed;
          })
          (λ _. Fine-send_failure not_initialized w (Fine-of p));
  }

  pub Does-check_not_initialized : {f : Facts} → Does f (check_not_initialized L) f
  unfolding check_not_initialized
  Does-check_not_initialized {f} = record {
    at = λ s0 w p.
        by_test (Post s0 f) (storage_is_initialized w.device.store)
          (λ _. Fine-send_failure unexpected_message w (Fine-of p)) (λ _. p);
  }

  Fine-pin_failures :
      {s0 : State} (fs : List PinFailure) (w : World) → Fine s0 w → Fine s0 (pin_failures L fs w)
  Fine-pin_failures [] w p = p
  Fine-pin_failures (f ∷ fs) w p =
      Fine-send_failure (pin_failure f) (pin_failures L fs w) (Fine-pin_failures fs w p)

  pin_post :
      {s0 : State} {f : Facts} (w : World) (d0 : Device) (o : Protect.Outcome)
      → Knows s0 f w
      → PinPost s0 d0 o
      → Post s0 (record f { unlocked = true }) (after_pin L w o)
  pin_post w d0 (Protect.returned true d) p h = record {
    guarded = p.guarded;
    kept = h.0;
    init = p.init;
    unlocked = λ _. h.1;
    confirmed = p.confirmed;
  }
  pin_post w d0 (Protect.returned false d) p h =
      Fine-pin_failures d.failures (record w { device = record d { failures = [] } })
        (record { guarded = p.guarded; kept = inr h.0.same; settled = h.0.settled })
  pin_post w d0 (Protect.wiped d) p h = p.guarded
  pin_post w d0 Protect.waiting p h = Fine-of p
  pin_post w d0 Protect.lost p h = p.guarded

  pub Does-check_pin :
      {f : Facts} (use_cached : Bool)
      → Does f (check_pin L use_cached) (record f { unlocked = true })
  unfolding check_pin
  Does-check_pin use_cached = record {
    at = λ s0 w p.
        pin_post (record w { entries = rest_of w.entries }) (record (w.device) { failures = [] })
          (protect_pin L.compute_u2froot L.random_uuid use_cached (next_entry w.entries)
            (record (w.device) { failures = [] }))
          (record {
            guarded = p.guarded;
            kept = p.kept;
            init = p.init;
            unlocked = p.unlocked;
            confirmed = p.confirmed;
          })
          (protect_pin-Kept L.compute_u2froot L.random_uuid use_cached (next_entry w.entries)
            (record (w.device) { failures = [] }) p.kept);
  }
