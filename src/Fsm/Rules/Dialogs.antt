-- ===== src/Fsm/Rules/Dialogs.antt =====
-- Rules for the steps that ask the user, and that end a handler.
use safe_t_mcu.Prelude.{
  ℕ, ◌≡◌, refl, ap, ◌∙◌, Bool, true, false, not, ◌&&◌, inl, inr, List, [], ◌∷◌, Option, none, some,
  if◌then◌else◌, by_test, All,
}
use mathlib.Core.Path.{subst}
use safe_t_mcu.Storage.{State}
use safe_t_mcu.Storage.Commit.{is_empty}
use safe_t_mcu.Storage.Fields.{storage_has_pin, session_is_pin_cached}
use safe_t_mcu.Protect.{Device, protect_passphrase}
use safe_t_mcu.Protect.Keeps.{secrets, IsUnlocked, SamePin, PassphrasePost, protect_passphrase_lem}
use safe_t_mcu.Wallet.Library.{Library, coin_by_name}
use safe_t_mcu.Host.{
  Question, Failure, Response, Call, Event, asked, used_key, Answer, confirmed, refused, cancelled,
  aborted, World, Outcome, returned, stopped, ◌>>=◌, say, pure, emit, is_confirmed, answer_to,
  ask_with, rest_of, next_polls, reply, hand_over, show_address, action_cancelled, data_error,
}
use safe_t_mcu.Fsm.{
  fail, confirm, confirm_if, after_passphrase, passphrase, found, fsm_get_coin, syscoin,
  layout_loop, fsm_layout_address,
}
use safe_t_mcu.Fsm.Keys.{silent, or_fail, or_silent, display_address}
use safe_t_mcu.Fsm.Sign.{use_key}
use safe_t_mcu.Fsm.Rules.{
  Has, Facts, Knows, Post, Does, Does-pure, Does-fail, Fine-of, Fine-say, Fine-send_failure,
}

-- A question more in the log.
All-asked :
    (qs : List Question) (q : Question) (b : Bool) (log : List Event)
    → All (λ q'. Has q' log) qs
    → All (λ q'. Has q' (asked q b ∷ log)) qs
All-asked [] q b log h = tt
All-asked (q' ∷ qs) q b log h = (inr h.0, All-asked qs q b log h.1)

Knows-asked :
    {s0 : State} {f : Facts} (w : World) (q : Question) (b : Bool) (a : Answer)
    (answers : List Answer)
    → Knows s0 f w
    → Knows s0 f
        (record w { answers = answers; device = answer_to a w.device; log = asked q b ∷ w.log })
Knows-asked {f} w q b (confirmed box) answers p = record {
  guarded = p.guarded;
  kept = p.kept;
  init = p.init;
  unlocked = p.unlocked;
  confirmed = All-asked f.confirmed q b w.log p.confirmed;
}
Knows-asked {f} w q b (refused box) answers p = record {
  guarded = p.guarded;
  kept = p.kept;
  init = p.init;
  unlocked = p.unlocked;
  confirmed = All-asked f.confirmed q b w.log p.confirmed;
}
Knows-asked {f} w q b (cancelled box) answers p = record {
  guarded = p.guarded;
  kept = p.kept;
  init = p.init;
  unlocked = p.unlocked;
  confirmed = All-asked f.confirmed q b w.log p.confirmed;
}
Knows-asked {f} w q b (aborted box) answers p = record {
  guarded = p.guarded;
  kept = p.kept;
  init = p.init;
  unlocked = p.unlocked;
  confirmed = All-asked f.confirmed q b w.log p.confirmed;
}

abbrev pub add : Question → Facts → Facts
add q f = record f { confirmed = q ∷ f.confirmed }

Knows-add :
    {s0 : State} {f : Facts} {w : World} (q : Question)
    → Knows s0 f w
    → Has q w.log
    → Knows s0 (add q f) w
Knows-add q p h = record {
  guarded = p.guarded;
  kept = p.kept;
  init = p.init;
  unlocked = p.unlocked;
  confirmed = (h, p.confirmed);
}

-- The same store, as far as the PIN goes.
pub Knows-store :
    {s0 : State} {f : Facts} (w : World) (d : Device)
    → SamePin w.device.store d.store
    → Knows s0 f w
    → Knows s0 f (record w { device = d })
unfolding storage_has_pin session_is_pin_cached
Knows-store {s0} {f} w d e p = record {
  guarded = p.guarded;
  kept = record { same = ap secrets e.rom ∙ p.kept.same; settled = e.pending ∙ p.kept.settled };
  init = p.init;
  unlocked = λ h. moved (p.unlocked h);
  confirmed = p.confirmed;
}
  where
    moved : IsUnlocked w.device.store → IsUnlocked d.store
    moved (inl h) = inl (ap (λ r. r.has_pin && not (is_empty r.pin)) e.rom ∙ h)
    moved (inr h) = inr (e.pin_cached ∙ h)

pub Does-reply : {f g : Facts} {A : Type 0} (r : Response) → Does f (reply {A = A} r) g
unfolding reply
Does-reply r = record { at = λ s0 w p. Fine-say r (Fine-of p) }

pub Does-hand_over : {f g : Facts} {A : Type 0} (c : Call) → Does f (hand_over {A = A} c) g
unfolding hand_over say
Does-hand_over c = record {
  at = λ s0 w p. record { guarded = p.guarded; kept = inr p.kept.same; settled = p.kept.settled };
}

pub Does-silent : {f g : Facts} {A : Type 0} → Does f (silent {A = A}) g
unfolding silent
Does-silent = record { at = λ s0 w p. Fine-of p }

pub Does-use_key : {f : Facts} (q : Question) → f.confirmed ≡ q ∷ [] → Does f (use_key q) f
unfolding use_key say emit
Does-use_key {f} q e = record {
  at = λ s0 w p.
      let h : All (λ q'. Has q' w.log) (q ∷ []) = subst (All (λ q'. Has q' w.log)) e p.confirmed in
      record {
        guarded = (h.0, p.guarded);
        kept = p.kept;
        init = p.init;
        unlocked = p.unlocked;
        confirmed = lifted f.confirmed w.log q p.confirmed;
      };
}
  where
    lifted :
        (qs : List Question) (log : List Event) (q : Question)
        → All (λ q'. Has q' log) qs
        → All (λ q'. Has q' (used_key q ∷ log)) qs
    lifted [] log q h = tt
    lifted (q' ∷ qs) log q h = (h.0, lifted qs log q h.1)

module _ (L : Library) where
  confirm_post :
      {s0 : State} {f : Facts} (q : Question) (answers : List Answer) (w : World)
      → Knows s0 f w
      → Post s0 (add q f) (
          ((λ v. ask_with q answers v) >>= (λ ok. if ok then pure tt else fail L action_cancelled))
            w)
  unfolding fail pure
  confirm_post q [] w p = Fine-of p
  confirm_post q (confirmed box ∷ answers) w p =
      Knows-add q (Knows-asked w q true (confirmed box) answers p) (inl (refl, refl))
  confirm_post q (refused box ∷ answers) w p =
      Fine-send_failure L action_cancelled _
        (Fine-of (Knows-asked w q false (refused box) answers p))
  confirm_post q (cancelled box ∷ answers) w p =
      Fine-send_failure L action_cancelled _
        (Fine-of (Knows-asked w q false (cancelled box) answers p))
  confirm_post q (aborted box ∷ answers) w p =
      Fine-send_failure L action_cancelled _
        (Fine-of (Knows-asked w q false (aborted box) answers p))

  pub Does-confirm : {f : Facts} (q : Question) → Does f (confirm L q) (add q f)
  unfolding confirm
  Does-confirm q = record { at = λ s0 w p. confirm_post q w.answers w p }

  pub Does-confirm_if :
      {f : Facts} (b : Bool) (q : Question) → Does f (confirm_if L b q) (if b then add q f else f)
  unfolding confirm_if
  Does-confirm_if true q = Does-confirm q
  Does-confirm_if false q = Does-pure tt

  -- Where what was confirmed is not needed any more.
  forget :
      (s0 : State) (f : Facts) (q : Question) (o : Outcome (Unit {0}))
      → Post s0 (add q f) o
      → Post s0 f o
  forget s0 f q (returned a w) p = record {
    guarded = p.guarded;
    kept = p.kept;
    init = p.init;
    unlocked = p.unlocked;
    confirmed = p.confirmed.1;
  }
  forget s0 f q (stopped e w) p = p

  pub Does-confirm_forget : {f : Facts} (q : Question) → Does f (confirm L q) f
  Does-confirm_forget {f} q = record {
    at = λ s0 w p. forget s0 f q (confirm L q w) ((Does-confirm {f = f} q).at s0 w p);
  }

  pub Does-confirm_if_forget : {f : Facts} (b : Bool) (q : Question) → Does f (confirm_if L b q) f
  unfolding confirm_if
  Does-confirm_if_forget true q = Does-confirm_forget q
  Does-confirm_if_forget false q = Does-pure tt

  passphrase_post :
      {s0 : State} {f : Facts} (w : World) (o : Option (Bool × Device))
      → PassphrasePost w.device.store o
      → Knows s0 f w
      → Post s0 f (after_passphrase L w o)
  passphrase_post w none h p = Fine-of p
  passphrase_post w (some (ok, d)) h p = Knows-store w d h p

  pub Does-passphrase : {f : Facts} → Does f (passphrase L) f
  unfolding passphrase
  Does-passphrase = record {
    at = λ s0 w p.
        passphrase_post (record w { phrases = rest_of w.phrases })
          (protect_passphrase (next_polls w.phrases) w.device)
          (protect_passphrase_lem (next_polls w.phrases) w.device)
          (record {
            guarded = p.guarded;
            kept = p.kept;
            init = p.init;
            unlocked = p.unlocked;
            confirmed = p.confirmed;
          });
  }

  pub Does-or_fail :
      {f : Facts} {A : Type 0} (e : Failure) (o : Option A) → Does f (or_fail L e o) f
  Does-or_fail e none = Does-fail L e
  Does-or_fail e (some a) = Does-pure a

  pub Does-or_silent : {f : Facts} {A : Type 0} (o : Option A) → Does f (or_silent L o) f
  Does-or_silent none = Does-silent
  Does-or_silent (some a) = Does-pure a

  Does-found : {f : Facts} {A : Type 0} (e : Failure) (o : Option A) → Does f (found L e o) f
  Does-found e none = Does-fail L e
  Does-found e (some a) = Does-pure a

  pub Does-fsm_get_coin : {f : Facts} (name : Option (List ℕ)) → Does f (fsm_get_coin L name) f
  unfolding fsm_get_coin
  Does-fsm_get_coin none = Does-found data_error (coin_by_name (syscoin L) L.coins)
  Does-fsm_get_coin (some name) = Does-found data_error (coin_by_name name L.coins)

  layout_post :
      {s0 : State} {f : Facts} (q : Question) (qrcode : Bool) (answers : List Answer) (w : World)
      → Knows s0 f w
      → Post s0 f (layout_loop L q qrcode answers w)
  layout_post q qrcode [] w p = Fine-of p
  layout_post {s0} {f} q qrcode (a ∷ answers) w p =
      let p1 = Knows-asked w q (is_confirmed a && not qrcode) a answers p in
      by_test (Post s0 f) (is_confirmed a && not qrcode) (λ _. p1)
        (λ _.
          by_test (Post s0 f) (answer_to a w.device).aborted_by_initialize
            (λ _. Fine-send_failure L action_cancelled _ (Fine-of p1))
            (λ _. layout_post q (if is_confirmed a then qrcode else not qrcode) answers _ p1))

  pub Does-display_address :
      {f : Facts} (show : Bool) (text path : List ℕ) → Does f (display_address L show text path) f
  unfolding display_address fsm_layout_address
  Does-display_address true text path = record {
    at = λ s0 w p. layout_post (show_address text path) false w.answers w p;
  }
  Does-display_address false text path = Does-pure tt
