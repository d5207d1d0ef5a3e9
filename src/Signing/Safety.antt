-- ===== src/Signing/Safety.antt =====
-- What a signing never does, whatever the host sends: the invariant of what was shown, confirmed and
-- signed. `Phase1` and `Phase2` below show that the stages keep it, and `Run` what follows.
pub mod Phase1
pub mod Outputs
pub mod Phase2
pub mod Stages
pub mod Run
use safe_t_mcu.Prelude.{
  ℕ, zero, suc, ◌+◌, ◌-◌, ◌*◌, ◌/◌, ◌%◌, ◌^◌, ◌≤◌, ◌<◌, ◌≡◌, ◌≢◌, refl, sym, ap, ◌∙◌, arith, Bool,
  true, false, not, ◌&&◌, ◌||◌, List, [], ◌∷◌, Option, none, some, ltb, leb, ◌==◌, if◌then◌else◌,
}
use safe_t_mcu.Signing.{
  Event, requested, failed, received, output_asked, output_hidden, fee_asked, sign_asked, signed,
  Request, Serialized, Failure, Stage, Signer, request_4_input, request_4_output,
  request_segwit_input, request_5_output, request_segwit_witness,
}

-- The user said yes to the amount and the fee.
abbrev pub has_confirmed : List Event → Bool
has_confirmed [] = false
has_confirmed (sign_asked amount fee ok ∷ log) = ok || has_confirmed log
has_confirmed (e ∷ log) = has_confirmed log

-- The user said yes to every question.
abbrev pub always_yes : List Event → Bool
always_yes [] = true
always_yes (output_asked amount ok ∷ log) = ok && always_yes log
always_yes (fee_asked fee ok ∷ log) = ok && always_yes log
always_yes (sign_asked amount fee ok ∷ log) = ok && always_yes log
always_yes (e ∷ log) = always_yes log

-- Every use of a private key comes after that, and after no refusal.
abbrev pub SignedAfter : List Event → Type 0
SignedAfter [] = Unit
SignedAfter (signed amount ∷ log) =
    (has_confirmed log ≡ true) × (always_yes log ≡ true) × SignedAfter log
SignedAfter (e ∷ log) = SignedAfter log

-- A failure was sent.
abbrev pub has_failed : List Event → Bool
has_failed [] = false
has_failed (failed f ∷ log) = true
has_failed (e ∷ log) = has_failed log

-- The last question is not asked and no private key is used after a failure.
abbrev pub StopsAtFailure : List Event → Type 0
StopsAtFailure [] = Unit
StopsAtFailure (signed amount ∷ log) = (has_failed log ≡ false) × StopsAtFailure log
StopsAtFailure (sign_asked amount fee ok ∷ log) = (has_failed log ≡ false) × StopsAtFailure log
StopsAtFailure (e ∷ log) = StopsAtFailure log

-- The sums of the amounts that signatures commit to, that the pieces say the inputs spend, of the
-- outputs that the user said yes to, and of those that were not shown.
abbrev pub signed_total : List Event → ℕ
signed_total [] = 0
signed_total (signed (some amount) ∷ log) = amount + signed_total log
signed_total (e ∷ log) = signed_total log

abbrev pub received_total : List Event → ℕ
received_total [] = 0
received_total (received amount ∷ log) = amount + received_total log
received_total (e ∷ log) = received_total log

abbrev pub shown_total : List Event → ℕ
shown_total [] = 0
shown_total (output_asked amount true ∷ log) = amount + shown_total log
shown_total (e ∷ log) = shown_total log

abbrev pub hidden_total : List Event → ℕ
hidden_total [] = 0
hidden_total (output_hidden amount ∷ log) = amount + hidden_total log
hidden_total (e ∷ log) = hidden_total log

-- The amount that the last question shows is what the confirmed outputs come to, and the fee.
abbrev pub ShowsOutputs : List Event → Type 0
ShowsOutputs [] = Unit
ShowsOutputs (sign_asked amount fee ok ∷ log) = (amount ≡ shown_total log + fee) × ShowsOutputs log
ShowsOutputs (e ∷ log) = ShowsOutputs log

-- The invariant, of the log, `authorized_amount`, `to_spend`, `spending`, `change_spend`, `signing`.
pub record Core (log : List Event) (authorized to_spend spending change : ℕ) (signing : Bool)
    : Type 0 where
  pub after : SignedAfter log
  pub within : signed_total log + authorized ≤ to_spend
  pub inputs : to_spend ≤ received_total log
  pub fits : to_spend < 2 ^ 64
  pub shows : ShowsOutputs log
  pub spent : signing ≡ true → (spending ≡ shown_total log + hidden_total log) × (spending < 2 ^ 64)
  pub kept : signing ≡ true → change ≡ hidden_total log
  pub quiet : signing ≡ true → has_failed log ≡ false
  pub yes : signing ≡ true → always_yes log ≡ true
  pub stops : StopsAtFailure log

abbrev pub is_phase1 : Stage → Bool
is_phase1 request_4_input = false
is_phase1 request_4_output = false
is_phase1 request_segwit_input = false
is_phase1 request_5_output = false
is_phase1 request_segwit_witness = false
is_phase1 stage = true

module _ {Digest : Type 0} where
  -- The stages of the later phases are only reached after the confirmation.
  pub record Safe (s : Signer Digest) : Type 0 where
    pub order : (is_phase1 s.stage || has_confirmed s.log) ≡ true
    pub core : Core s.log s.authorized_amount s.to_spend s.spending s.change_spend s.signing

  pub record Agreed (s : Signer Digest) : Type 0 where
    pub order : has_confirmed s.log ≡ true
    pub core : Core s.log s.authorized_amount s.to_spend s.spending s.change_spend s.signing

pub either_true : (a b : Bool) → b ≡ true → (a || b) ≡ true
either_true true b h = refl
either_true false b h = h

pub yes_both : (a b : Bool) → a ≡ true → b ≡ true → (a && b) ≡ true
yes_both true b e h = h
yes_both false b e h = cc

pub off : false ≢ true
off e = cc

module _ {log : List Event} {a t s c : ℕ} {g : Bool} where
  pub requested-Core :
      (r : Request) (z : Serialized) → Core log a t s c g → Core (requested r z ∷ log) a t s c g
  requested-Core r z k = record {
    after = k.after;
    within = k.within;
    inputs = k.inputs;
    fits = k.fits;
    shows = k.shows;
    spent = k.spent;
    kept = k.kept;
    quiet = k.quiet;
    yes = k.yes;
    stops = k.stops;
  }

  pub failed-Core :
      {s1 c1 : ℕ} (f : Failure) → Core log a t s c g → Core (failed f ∷ log) a t s1 c1 false
  failed-Core f k = record {
    after = k.after;
    within = k.within;
    inputs = k.inputs;
    fits = k.fits;
    shows = k.shows;
    spent = λ e. absurd (off e);
    kept = λ e. absurd (off e);
    quiet = λ e. absurd (off e);
    yes = λ e. absurd (off e);
    stops = k.stops;
  }

  pub refused-Core :
      (f : Failure) → not g ≡ true → Core log a t s c g → Core (failed f ∷ log) a t s c g
  refused-Core f e k = record {
    after = k.after;
    within = k.within;
    inputs = k.inputs;
    fits = k.fits;
    shows = k.shows;
    spent = k.spent;
    kept = k.kept;
    quiet = λ on. absurd (stopped g on e);
    yes = k.yes;
    stops = k.stops;
  }
    where
      stopped : (b : Bool) → b ≡ true → not b ≢ true
      stopped true on e = cc
      stopped false on e = cc

  pub finished-Core :
      (r : Request) (z : Serialized) → Core log a t s c g → Core (requested r z ∷ log) a t s c false
  finished-Core r z k = record {
    after = k.after;
    within = k.within;
    inputs = k.inputs;
    fits = k.fits;
    shows = k.shows;
    spent = λ e. absurd (off e);
    kept = λ e. absurd (off e);
    quiet = λ e. absurd (off e);
    yes = λ e. absurd (off e);
    stops = k.stops;
  }

-- A sum of two 64-bit numbers that did not wrap around.
pub no_wrap :
    (x y : ℕ)
    → x < 2 ^ 64
    → y < 2 ^ 64
    → ltb ((x + y) % 2 ^ 64) x ≡ false
    → (x + y) % 2 ^ 64 ≡ x + y
no_wrap x y h k e = ground arith

module _ {log : List Event} {a t s c : ℕ} {g : Bool} (n : ℕ) (small : n < 2 ^ 64) where
  pub add_to_spend-Core :
      ltb ((t + n) % 2 ^ 64) t ≡ false
      → t + n ≤ received_total log
      → Core log a t s c g
      → Core log a ((t + n) % 2 ^ 64) s c g
  add_to_spend-Core e r k =
      let w = no_wrap t n k.fits small e in
      record {
        after = k.after;
        within = omega (arith, w, k.within);
        inputs = omega (arith, w, r);
        fits = omega arith;
        shows = k.shows;
        spent = k.spent;
        kept = k.kept;
        quiet = k.quiet;
        yes = k.yes;
        stops = k.stops;
      }

  pub add_amount-Core :
      ltb ((t + n) % 2 ^ 64) t ≡ false
      → t + n ≤ received_total log
      → Core log a t s c g
      → Core log ((a + n) % 2 ^ 64) ((t + n) % 2 ^ 64) s c g
  add_amount-Core e r k =
      let w = no_wrap t n k.fits small e in
      record {
        after = k.after;
        within = omega (arith, w, k.within);
        inputs = omega (arith, w, r);
        fits = omega arith;
        shows = k.shows;
        spent = k.spent;
        kept = k.kept;
        quiet = k.quiet;
        yes = k.yes;
        stops = k.stops;
      }

  pub output_asked-Core :
      g ≡ true
      → ltb ((s + n) % 2 ^ 64) s ≡ false
      → Core log a t s c g
      → Core (output_asked n true ∷ log) a t ((s + n) % 2 ^ 64) c g
  output_asked-Core on e k =
      let p = k.spent on in
      let w = no_wrap s n p.1 small e in
      record {
        after = k.after;
        within = k.within;
        inputs = k.inputs;
        fits = k.fits;
        shows = k.shows;
        spent = λ _. (omega (arith, w, p.0), omega arith);
        kept = k.kept;
        quiet = k.quiet;
        yes = k.yes;
        stops = k.stops;
      }

  pub output_hidden-Core :
      g ≡ true
      → c ≡ 0
      → ltb ((s + n) % 2 ^ 64) s ≡ false
      → Core log a t s c g
      → Core (output_hidden n ∷ log) a t ((s + n) % 2 ^ 64) n g
  output_hidden-Core on z e k =
      let p = k.spent on in
      let h = k.kept on in
      let w = no_wrap s n p.1 small e in
      record {
        after = k.after;
        within = k.within;
        inputs = k.inputs;
        fits = k.fits;
        shows = k.shows;
        spent = λ _. (omega (arith, w, p.0), omega arith);
        kept = λ _. omega (arith, h, z);
        quiet = k.quiet;
        yes = k.yes;
        stops = k.stops;
      }

module _ {log : List Event} {a t s c : ℕ} {g : Bool} where
  pub received-Core : (n : ℕ) → Core log a t s c g → Core (received n ∷ log) a t s c g
  received-Core n k = record {
    after = k.after;
    within = k.within;
    inputs = omega (arith, k.inputs);
    fits = k.fits;
    shows = k.shows;
    spent = k.spent;
    kept = k.kept;
    quiet = k.quiet;
    yes = k.yes;
    stops = k.stops;
  }

  -- A refused output, or a refused fee.
  pub refused_output-Core :
      {s1 c1 : ℕ} (f : Failure) (n : ℕ)
      → Core log a t s c g
      → Core (failed f ∷ output_asked n false ∷ log) a t s1 c1 false
  refused_output-Core f n k = record {
    after = k.after;
    within = k.within;
    inputs = k.inputs;
    fits = k.fits;
    shows = k.shows;
    spent = λ e. absurd (off e);
    kept = λ e. absurd (off e);
    quiet = λ e. absurd (off e);
    yes = λ e. absurd (off e);
    stops = k.stops;
  }

  pub fee_asked-Core :
      {g1 : Bool} (n : ℕ) (ok : Bool)
      → g ≡ true
      → (g1 ≡ true → ok ≡ true)
      → Core log a t s c g
      → Core (fee_asked n ok ∷ log) a t s c g1
  fee_asked-Core n ok on h k = record {
    after = k.after;
    within = k.within;
    inputs = k.inputs;
    fits = k.fits;
    shows = k.shows;
    spent = λ _. k.spent on;
    kept = λ _. k.kept on;
    quiet = λ _. k.quiet on;
    yes = λ on1. yes_both _ _ (h on1) (k.yes on);
    stops = k.stops;
  }

  -- The last question, with any answer; a refusal ends the signing.
  pub sign_asked-Core :
      {g1 : Bool} (ok : Bool)
      → g ≡ true
      → (g1 ≡ true → ok ≡ true)
      → ltb t s ≡ false
      → Core log a t s c g
      → Core (sign_asked ((t + 2 ^ 64 - c) % 2 ^ 64) (t - s) ok ∷ log) a t s c g1
  sign_asked-Core ok on h e k =
      let p = k.spent on in
      let q = k.kept on in
      let le : s ≤ t = not_ltb t s e in
      record {
        after = k.after;
        within = k.within;
        inputs = k.inputs;
        fits = k.fits;
        shows = (omega (arith, p.0, q, k.fits), k.shows);
        spent = λ _. p;
        kept = λ _. q;
        quiet = λ _. k.quiet on;
        yes = λ on1. yes_both _ _ (h on1) (k.yes on);
        stops = (k.quiet on, k.stops);
      }
    where
      not_ltb : (x y : ℕ) → ltb x y ≡ false → y ≤ x
      not_ltb x y h = ground arith

  pub signed-Core :
      (n : Option ℕ)
      → g ≡ true
      → has_confirmed log ≡ true
      → signed_total (signed n ∷ log) + a ≤ t
      → Core log a t s c g
      → Core (signed n ∷ log) a t s c g
  signed-Core none on h w k = record {
    after = (h, k.yes on, k.after);
    within = w;
    inputs = k.inputs;
    fits = k.fits;
    shows = k.shows;
    spent = k.spent;
    kept = k.kept;
    quiet = k.quiet;
    yes = k.yes;
    stops = (k.quiet on, k.stops);
  }
  signed-Core (some n) on h w k = record {
    after = (h, k.yes on, k.after);
    within = w;
    inputs = k.inputs;
    fits = k.fits;
    shows = k.shows;
    spent = k.spent;
    kept = k.kept;
    quiet = k.quiet;
    yes = k.yes;
    stops = (k.quiet on, k.stops);
  }

  pub authorize-Core : (n : ℕ) → Core log a t s c g → Core log (a - n) t s c g
  authorize-Core n k = record {
    after = k.after;
    within = omega (arith, k.within);
    inputs = k.inputs;
    fits = k.fits;
    shows = k.shows;
    spent = k.spent;
    kept = k.kept;
    quiet = k.quiet;
    yes = k.yes;
    stops = k.stops;
  }
