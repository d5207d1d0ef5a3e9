-- ===== src/Signing/Safety/Phase2.antt =====
-- The signatures, firmware/signing.c `signing_sign_input`, `signing_sign_segwit_input`, keep the invariant.
use safe_t_mcu.Prelude.{
  by_test, ℕ, ◌+◌, ◌-◌, ◌%◌, ◌≤◌, ◌≡◌, arith, Bool, true, false, not, List, [], ◌∷◌, Option, none,
  some, ltb, ◌==◌, if◌then◌else◌, text_eq, set,
}
use safe_t_mcu.Wire.{Written}
use safe_t_mcu.Tx.Script.{Multisig, serialize_script_multisig}
use safe_t_mcu.Wallet.{NodePath, Coin, Wallet}
use safe_t_mcu.Wallet.Multisig.{crypto_multisig_pubkey_index}
use safe_t_mcu.Signing.{Input, Signer, fail, Failure, process_error, data_error, signed}
use safe_t_mcu.Signing.Check.{Session, is_segwit_input}
use safe_t_mcu.Signing.Sign.{
  Keys, compile_input_script_sig, signing_hash_type, signing_hash_bip143, script_or_fail,
  multisig_script, signature_script, with_signature, use_signature, signing_sign_hash,
  serialize_signed, signing_sign_input, finish_witness, witness_signed, authorize, sign_authorized,
  signing_sign_segwit_input, pubkey_of,
}
use safe_t_mcu.Signing.Safety.{signed_total, Agreed, failed-Core, signed-Core, authorize-Core}

pub fail-Agreed : {Digest : Type 0} (f : Failure) (s : Signer Digest) → Agreed s → Agreed (fail f s)
fail-Agreed f s p = record { order = p.order; core = failed-Core f p.core }

-- An error ends it.
pub guard :
    {Digest : Type 0} (f : Failure) (b : Bool) {s t : Signer Digest}
    → Agreed s
    → Agreed t
    → Agreed (if b then fail f s else t)
guard f true {s} p q = fail-Agreed f s p
guard f false p q = q

pub either :
    {Digest : Type 0} (b : Bool) {s t : Signer Digest}
    → Agreed s
    → Agreed t
    → Agreed (if b then s else t)
either true p q = p
either false p q = q

module _ (W : Wallet) (coin : Coin) where
  script_or_fail-Agreed :
      (i : Input) (script : Written) (s : Session W coin)
      → Agreed s
      → Agreed (script_or_fail W coin i script s).1
  script_or_fail-Agreed i script s p =
      by_test (λ (r : Option Input × Session W coin). Agreed r.1) (script.0 == 0)
        (λ _. fail-Agreed process_error s p) (λ _. p)

  multisig_script-Agreed :
      (i : Input) (ms : Multisig NodePath) (k : Option ℕ) (der : List ℕ) (s : Session W coin)
      → Agreed s
      → Agreed (multisig_script W coin i ms k der s).1
  multisig_script-Agreed i ms none der s p = fail-Agreed data_error s p
  multisig_script-Agreed i ms (some k) der s p =
      let ms' : Multisig NodePath = record ms { signatures = set ms.signatures k der } in
      script_or_fail-Agreed (record i { multisig = some ms' })
        (serialize_script_multisig W.path_to_pubkey ms' (signing_hash_type W coin % 256)) s p

  signature_script-Agreed :
      (ms : Option (Multisig NodePath)) (i : Input) (pubkey der : List ℕ) (s : Session W coin)
      → Agreed s
      → Agreed (signature_script W coin ms i pubkey der s).1
  signature_script-Agreed none i pubkey der s p = p
  signature_script-Agreed (some ms) i pubkey der s p =
      multisig_script-Agreed i ms (crypto_multisig_pubkey_index W.path_to_pubkey ms pubkey) der s p

  -- A signature is within the amounts of the inputs.
  use_signature-Agreed :
      (d : Option (List ℕ)) (i : Input) (pubkey : List ℕ) (amount : Option ℕ) (s : Session W coin)
      → s.signing ≡ true
      → signed_total (signed amount ∷ s.log) + s.authorized_amount ≤ s.to_spend
      → Agreed s
      → Agreed (use_signature W coin d i pubkey amount s).1
  use_signature-Agreed none i pubkey amount s on w p = fail-Agreed process_error s p
  use_signature-Agreed (some der) i pubkey amount s on w p =
      signature_script-Agreed i.multisig i pubkey der (with_signature W coin der amount s)
        (record { order = p.order; core = signed-Core amount on p.order w p.core })

  signing_sign_hash-Agreed :
      (i : Input) (keys : Keys) (hash : List ℕ) (amount : Option ℕ) (s : Session W coin)
      → s.signing ≡ true
      → signed_total (signed amount ∷ s.log) + s.authorized_amount ≤ s.to_spend
      → Agreed s
      → Agreed (signing_sign_hash W coin i keys hash amount s).1
  unfolding signing_sign_hash
  signing_sign_hash-Agreed i keys hash amount s on w p =
      use_signature-Agreed (W.sign_digest keys.0 hash) i keys.1 amount s on w p

  serialize_signed-Agreed :
      (r : Option Input × Session W coin) → Agreed r.1 → Agreed (serialize_signed W coin r).1
  serialize_signed-Agreed (none, s) p = p
  serialize_signed-Agreed (some i, s) p = record { order = p.order; core = p.core }

  pub signing_sign_input-Agreed :
      (s : Session W coin) → s.signing ≡ true → Agreed s → Agreed (signing_sign_input W coin s).1
  unfolding signing_sign_input
  signing_sign_input-Agreed s on p =
      by_test (λ (r : Bool × Session W coin). Agreed r.1)
        (not (text_eq (W.hasher.digest s.hasher0) s.hash_outputs)) (λ _. fail-Agreed data_error s p)
        (λ _. serialize_signed-Agreed _ (
          signing_sign_hash-Agreed _ _ _ none _ on p.core.within
            (record { order = p.order; core = p.core })))

  -- The amount of an input may still be signed for.
  abbrev pub Payable : Option (Input × Keys) × Session W coin → Type 0
  Payable (none, s) = Agreed s
  Payable (some (i, keys), s) =
      (s.signing ≡ true)
      × (signed_total (signed (some i.amount) ∷ s.log) + s.authorized_amount ≤ s.to_spend)
      × Agreed s

  pub authorize-Payable :
      (i : Option (Input × Keys)) (s : Session W coin)
      → s.signing ≡ true
      → Agreed s
      → Payable (authorize W coin i s)
  unfolding authorize
  authorize-Payable none s on p = fail-Agreed process_error s p
  authorize-Payable (some (i, keys)) s on p =
      by_test Payable (ltb s.authorized_amount i.amount) (λ _. fail-Agreed data_error s p)
        (λ e. (
          on,
          room (signed_total s.log) i.amount s.authorized_amount s.to_spend e p.core.within,
          record { order = p.order; core = authorize-Core i.amount p.core },
        ))
    where
      room : (t n a m : ℕ) → ltb a n ≡ false → t + a ≤ m → (n + t) + (a - n) ≤ m
      room t n a m e h = ground arith

  pub sign_authorized-Agreed :
      (r : Option (Input × Keys) × Session W coin) → Payable r → Agreed (sign_authorized W coin r).1
  sign_authorized-Agreed (none, s) p = p
  sign_authorized-Agreed (some (i, keys), s) p =
      signing_sign_hash-Agreed i keys (signing_hash_bip143 W coin i s) (some i.amount) s p.0 p.1 p.2

  finish_witness-Agreed :
      (bytes : List ℕ) (s : Session W coin) → Agreed s → Agreed (finish_witness W coin bytes s).1
  finish_witness-Agreed bytes s p = record { order = p.order; core = p.core }

  witness_signed-Agreed :
      (pubkey : List ℕ) (r : Option Input × Session W coin)
      → Agreed r.1
      → Agreed (witness_signed W coin pubkey r).1
  witness_signed-Agreed pubkey (none, s) p = p
  witness_signed-Agreed pubkey (some i, s) p = finish_witness-Agreed _ s p

  pub signing_sign_segwit_input-Agreed :
      (i : Input) (s : Session W coin)
      → s.signing ≡ true
      → Agreed s
      → Agreed (signing_sign_segwit_input W coin i s).1
  unfolding signing_sign_segwit_input
  signing_sign_segwit_input-Agreed i s on p =
      let compiled = compile_input_script_sig W coin i s in
      by_test (λ (r : Bool × Session W coin). Agreed r.1) (is_segwit_input i.script_type)
        (λ _.
          witness_signed-Agreed (pubkey_of W coin compiled)
            (sign_authorized W coin (authorize W coin compiled s))
            (sign_authorized-Agreed (authorize W coin compiled s)
              (authorize-Payable compiled s on p)))
        (λ _. finish_witness-Agreed (0 ∷ []) s p)
