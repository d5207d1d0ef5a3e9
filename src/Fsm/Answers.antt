-- ===== src/Fsm/Answers.antt =====
-- How often a request is answered: rules for the steps of handlers. `Steps` has those of the checks
-- and dialogues, `Settings`, `Keys` and `Sign` go through the handlers, `Total` has the theorem.
pub mod Steps
pub mod Settings
pub mod Keys
pub mod Sign
pub mod Total
use safe_t_mcu.Prelude.{
  ℕ, ◌+◌, ◌≡◌, refl, sym, ap, ◌∙◌, Bool, true, false, not, ◌&&◌, List, [], ◌∷◌, Option, none, some,
  if◌then◌else◌, by_test, arith,
}
use mathlib.Core.Path.{subst}
use safe_t_mcu.Storage.{State}
use safe_t_mcu.Storage.Fields.{storage_is_initialized}
use safe_t_mcu.Protect.{Device, PinFailure, protect_pin, protect_passphrase, protect_change_pin}
use safe_t_mcu.Protect
use safe_t_mcu.Protect.Failures.{Fails, protect_pin-Fails}
use safe_t_mcu.Wallet.Library.{HdNode, Library, coin_by_name}
use safe_t_mcu.Host.{
  Question, Failure, Response, Call, Event, asked, derived, used_key, sent, called, Answer, World,
  Stop, ended, waiting, halted, Outcome, returned, stopped, M, ◌>>=◌, ◌>>◌, say, stores, reads,
  pure, emit, is_confirmed, answer_to, ask_with, ask, next_entry, rest_of, next_polls, pin_failure,
  reply, hand_over, show_address, action_cancelled, data_error, process_error, not_initialized,
  unexpected_message,
}
use safe_t_mcu.Fsm.{
  fsm_msg_initialize, fsm_send_failure, fail, check, check_initialized, check_not_initialized,
  pin_failures, after_pin, check_pin, confirm, confirm_if, after_passphrase, passphrase, found,
  fsm_get_coin, syscoin, layout_loop, fsm_layout_address,
}
use safe_t_mcu.Fsm.Root.{
  show_error, make_seed, is_valid, seed_of, seed_is_cached, stored_node, passphrase_seed,
  storage_get_seed, node_root, seed_root, storage_get_root_node, derived_child, child_at,
  note_derived, child_of, fsm_get_derived_node, seed_node, cache_seed, secp256k1,
}
use safe_t_mcu.Fsm.Settings.{enter_new_pin, after_change}
use safe_t_mcu.Fsm.Keys.{silent, or_fail, or_silent, display_address}
use safe_t_mcu.Fsm.Sign.{use_key}

-- A message sent, or the request handed over to another part.
abbrev pub answers : List Event → ℕ
answers [] = 0
answers (sent r ∷ log) = answers log + 1
answers (called c ∷ log) = answers log + 1
answers (e ∷ log) = answers log

-- After `n` answers: a step that goes on, waits or stands still has given none; at its end the
-- handler has given as many as `E` allows.
abbrev pub Counted : (ℕ → Type 0) → ℕ → {A : Type 0} → Outcome A → Type 0
Counted E n (returned a w) = answers w.log ≡ n
Counted E n (stopped ended w) = (k : ℕ) × E k × (answers w.log ≡ n + k)
Counted E n (stopped waiting w) = answers w.log ≡ n
Counted E n (stopped halted w) = answers w.log ≡ n

pub record Counts (E : ℕ → Type 0) {A : Type 0} (m : M A) : Type 0 where
  pub at : (w : World) → Counted E (answers w.log) (m w)

module _ {E : ℕ → Type 0} where
  bind_count :
      (n : ℕ) {A B : Type 0} (o : Outcome A) (k : A → M B)
      → Counted E n o
      → ((a : A) → Counts E (k a))
      → Counted E n (elim o [ returned a w1 ↦ k a w1 | stopped e w1 ↦ stopped e w1 ])
  bind_count n (returned a w) k p rest = subst (λ (m : ℕ). Counted E m (k a w)) p ((rest a).at w)
  bind_count n (stopped ended w) k p rest = p
  bind_count n (stopped waiting w) k p rest = p
  bind_count n (stopped halted w) k p rest = p

  infixr 6 ◌and_then◌
  pub ◌and_then◌ :
      {A B : Type 0} {m : M A} {k : A → M B}
      → Counts E m
      → ((a : A) → Counts E (k a))
      → Counts E (m >>= k)
  ◌and_then◌ {m} {k} first rest = record {
    at = λ w. bind_count (answers w.log) (m w) k (first.at w) rest;
  }

  pub Counts-if :
      {A : Type 0} {m n : M A} (b : Bool) → Counts E m → Counts E n → Counts E (if b then m else n)
  Counts-if true p q = p
  Counts-if false p q = q

  pub Counts-pure : {A : Type 0} (a : A) → Counts E (pure a)
  unfolding pure
  Counts-pure a = record { at = λ w. refl }

  pub Counts-reads : {A : Type 0} (h : State → A) → Counts E (reads h)
  unfolding reads
  Counts-reads h = record { at = λ w. refl }

  pub Counts-stores : (F : State → State) → Counts E (stores F)
  unfolding stores
  Counts-stores F = record { at = λ w. refl }

  pub Counts-use_key : (q : Question) → Counts E (use_key q)
  unfolding use_key emit say
  Counts-use_key q = record { at = λ w. refl }

  pub show_error-Counts : {A : Type 0} → Counts E (show_error {A = A})
  unfolding show_error
  show_error-Counts = record { at = λ w. refl }

  pub Counts-silent : {A : Type 0} → E 0 → Counts E (silent {A = A})
  unfolding silent
  Counts-silent z = record { at = λ w. (0, z, omega arith) }

module _ {E : ℕ → Type 0} (one : E 1) where
  pub Counts-reply : {A : Type 0} (r : Response) → Counts E (reply {A = A} r)
  unfolding reply say
  Counts-reply r = record { at = λ w. (1, one, refl) }

  pub Counts-hand_over : {A : Type 0} (c : Call) → Counts E (hand_over {A = A} c)
  unfolding hand_over say
  Counts-hand_over c = record { at = λ w. (1, one, refl) }
