-- ===== src/Fsm/Path/Fits.antt =====
-- The paths that `path_mismatched` of firmware/fsm.c lets through without a warning.
use safe_t_mcu.Prelude.{
  ℕ, ◌+◌, ◌^◌, ◌≤◌, ◌<◌, ◌≡◌, ◌≢◌, refl, arith, true, false, Bool, not, ◌||◌, List, [], ◌∷◌, ap,
  sym, ◌↔◌, Option, none, some,
}
use mathlib.Core.Path.{subst}
use native.Mathlib.Decide.{ℕ_discrete}
use safe_t_mcu.Tx.Weight.{
  InputScriptType, spend_address, spend_multisig, spend_witness, spend_p2sh_witness,
}
use safe_t_mcu.Wallet.Library.{CoinRow}
use safe_t_mcu.Fsm.Path.{
  wrong_levels, wrong_cosigner, path_mismatched, no_prefix, is_address, is_multisig, is_witness,
  is_p2sh_witness,
}

-- coin_type' / account' / change / address_index
pub record Levels (coin : CoinRow) (levels : List ℕ) : Type 0 where
  pub account : ℕ
  pub change : ℕ
  pub index : ℕ
  pub are : levels ≡ coin.coin_type ∷ account ∷ change ∷ index ∷ []
  pub account_hardened : 2 ^ 31 ≤ account
  pub change_plain : change < 2 ^ 31
  pub index_plain : index < 2 ^ 31

-- cosigner_index / change / address_index
pub record CosignerLevels (levels : List ℕ) : Type 0 where
  pub cosigner : ℕ
  pub change : ℕ
  pub index : ℕ
  pub are : levels ≡ cosigner ∷ change ∷ index ∷ []
  pub cosigner_plain : cosigner < 2 ^ 31
  pub change_plain : change < 2 ^ 31
  pub index_plain : index < 2 ^ 31

or_false : (a b : Bool) → (a || b) ≡ false → (a ≡ false) × (b ≡ false)
or_false false b e = (refl, e)
or_false true b e = cc

levels_lem :
    (coin : CoinRow) (n : ℕ) (levels : List ℕ)
    → wrong_levels coin (n ∷ levels) ≡ false
    → Levels coin levels
levels_lem coin n [] e = cc
levels_lem coin n (a ∷ []) e = cc
levels_lem coin n (a ∷ b ∷ []) e = cc
levels_lem coin n (a ∷ b ∷ c ∷ []) e = cc
levels_lem coin n (a ∷ b ∷ c ∷ d ∷ []) e = record {
  account = b;
  change = c;
  index = d;
  are = ap (λ x. x ∷ b ∷ c ∷ d ∷ []) same;
  account_hardened = ground arith;
  change_plain = ground arith;
  index_plain = ground arith;
}
  where
    same : a ≡ coin.coin_type
    same = ground arith
levels_lem coin n (a ∷ b ∷ c ∷ d ∷ f ∷ levels) e = ground arith

wrong_lem :
    (coin : CoinRow) (n : ℕ) (levels : List ℕ)
    → Levels coin levels
    → wrong_levels coin (n ∷ levels) ≡ false
wrong_lem coin n levels l = rw l.are (ground arith)

cosigner_lem :
    (n : ℕ) (levels : List ℕ) → wrong_cosigner (n ∷ levels) ≡ false → CosignerLevels levels
cosigner_lem n [] e = cc
cosigner_lem n (a ∷ []) e = cc
cosigner_lem n (a ∷ b ∷ []) e = cc
cosigner_lem n (a ∷ b ∷ c ∷ []) e = record {
  cosigner = a;
  change = b;
  index = c;
  are = refl;
  cosigner_plain = ground arith;
  change_plain = ground arith;
  index_plain = ground arith;
}
cosigner_lem n (a ∷ b ∷ c ∷ d ∷ levels) e = ground arith

wrong_cosigner_lem :
    (n : ℕ) (levels : List ℕ) → CosignerLevels levels → wrong_cosigner (n ∷ levels) ≡ false
wrong_cosigner_lem n levels l = rw l.are (ground arith)

-- What fits a coin and a script: below a purpose that is known, the levels it prescribes and the
-- script it is for.
pub data Fits (coin : CoinRow) : InputScriptType → ℕ → List ℕ → Type 0 where
  legacy : {levels : List ℕ} → Levels coin levels → Fits coin spend_address (2 ^ 31 + 44) levels
  cosigned :
      {levels : List ℕ} → CosignerLevels levels → Fits coin spend_multisig (2 ^ 31 + 45) levels
  multisig : {levels : List ℕ} → Levels coin levels → Fits coin spend_multisig (2 ^ 31 + 48) levels
  nested_segwit :
      {levels : List ℕ}
      → coin.coin.has_segwit ≡ true
      → coin.coin.has_address_type_p2sh ≡ true
      → Levels coin levels
      → Fits coin spend_p2sh_witness (2 ^ 31 + 49) levels
  native_segwit :
      {levels : List ℕ} (prefix : List ℕ)
      → coin.coin.has_segwit ≡ true
      → coin.coin.bech32_prefix ≡ some prefix
      → Levels coin levels
      → Fits coin spend_witness (2 ^ 31 + 84) levels
  unknown :
      {type : InputScriptType} {purpose : ℕ} {levels : List ℕ}
      → purpose ≢ 2 ^ 31 + 44
      → purpose ≢ 2 ^ 31 + 45
      → purpose ≢ 2 ^ 31 + 48
      → purpose ≢ 2 ^ 31 + 49
      → purpose ≢ 2 ^ 31 + 84
      → Fits coin type purpose levels

path_mismatched-Fits :
    (coin : CoinRow) (type : InputScriptType) (purpose : ℕ) (levels : List ℕ)
    → Fits coin type purpose levels
    → path_mismatched coin type (purpose ∷ levels) ≡ false
unfolding path_mismatched
path_mismatched-Fits coin _ _ levels (legacy l) = wrong_lem coin (2 ^ 31 + 44) levels l
path_mismatched-Fits coin _ _ levels (cosigned l) = wrong_cosigner_lem (2 ^ 31 + 45) levels l
path_mismatched-Fits coin _ _ levels (multisig l) = wrong_lem coin (2 ^ 31 + 48) levels l
path_mismatched-Fits coin _ _ levels (nested_segwit s a l) =
    rw s (rw a (wrong_lem coin (2 ^ 31 + 49) levels l))
path_mismatched-Fits coin _ _ levels (native_segwit prefix s b l) =
    rw s (rw b (wrong_lem coin (2 ^ 31 + 84) levels l))
path_mismatched-Fits coin type purpose levels (unknown a b c d e) = ground arith

segwit_lem :
    (coin : CoinRow) (levels : List ℕ) (prefix : Option (List ℕ))
    → coin.coin.bech32_prefix ≡ prefix
    → coin.coin.has_segwit ≡ true
    → no_prefix prefix ≡ false
    → wrong_levels coin ((2 ^ 31 + 84) ∷ levels) ≡ false
    → Fits coin spend_witness (2 ^ 31 + 84) levels
segwit_lem coin levels none b s e w = cc
segwit_lem coin levels (some prefix) b s e w =
    native_segwit prefix s b (levels_lem coin (2 ^ 31 + 84) levels w)

true_of : (b : Bool) → not b ≡ false → b ≡ true
true_of true e = refl
true_of false e = cc

module _ (coin : CoinRow) (levels : List ℕ) where
  legacy_of :
      (type : InputScriptType)
      → (not (is_address type) || wrong_levels coin ((2 ^ 31 + 44) ∷ levels)) ≡ false
      → Fits coin type (2 ^ 31 + 44) levels
  legacy_of spend_address e = legacy (levels_lem coin (2 ^ 31 + 44) levels e)
  legacy_of _ e = cc

  cosigned_of :
      (type : InputScriptType)
      → (not (is_multisig type) || wrong_cosigner ((2 ^ 31 + 45) ∷ levels)) ≡ false
      → Fits coin type (2 ^ 31 + 45) levels
  cosigned_of spend_multisig e = cosigned (cosigner_lem (2 ^ 31 + 45) levels e)
  cosigned_of _ e = cc

  multisig_of :
      (type : InputScriptType)
      → (not (is_multisig type) || wrong_levels coin ((2 ^ 31 + 48) ∷ levels)) ≡ false
      → Fits coin type (2 ^ 31 + 48) levels
  multisig_of spend_multisig e = multisig (levels_lem coin (2 ^ 31 + 48) levels e)
  multisig_of _ e = cc

  nested_of :
      (type : InputScriptType)
      → (not (is_p2sh_witness type)
          || (not coin.coin.has_segwit
              || (not coin.coin.has_address_type_p2sh
                  || wrong_levels coin ((2 ^ 31 + 49) ∷ levels))))
        ≡ false
      → Fits coin type (2 ^ 31 + 49) levels
  nested_of spend_p2sh_witness e =
      let a = or_false _ _ e in
      let b = or_false _ _ a.1 in
      nested_segwit (true_of _ a.0) (true_of _ b.0) (levels_lem coin (2 ^ 31 + 49) levels b.1)
  nested_of _ e = cc

  native_of :
      (type : InputScriptType)
      → (not (is_witness type)
          || (not coin.coin.has_segwit
              || (no_prefix coin.coin.bech32_prefix || wrong_levels coin ((2 ^ 31 + 84) ∷ levels))))
        ≡ false
      → Fits coin type (2 ^ 31 + 84) levels
  native_of spend_witness e =
      let a = or_false _ _ e in
      let b = or_false _ _ a.1 in
      segwit_lem coin levels coin.coin.bech32_prefix refl (true_of _ a.0) b.0 b.1
  native_of _ e = cc

  Passes : InputScriptType → ℕ → Type 0
  Passes type purpose =
      path_mismatched coin type (purpose ∷ levels) ≡ false → Fits coin type purpose levels

  Passes-path_mismatched : (type : InputScriptType) (purpose : ℕ) → Passes type purpose
  unfolding path_mismatched Passes
  Passes-path_mismatched type purpose = at (2 ^ 31 + 44) (legacy_of type) λ a.
      at (2 ^ 31 + 45) (cosigned_of type) λ b. at (2 ^ 31 + 48) (multisig_of type) λ c.
        at (2 ^ 31 + 49) (nested_of type)
          λ d. at (2 ^ 31 + 84) (native_of type) λ f. λ e. unknown a b c d f
    where
      at : (k : ℕ) → Passes type k → (purpose ≢ k → Passes type purpose) → Passes type purpose
      at k p rest = elim (ℕ_discrete purpose k) [
        | yes e ↦ subst (Passes type) (sym e) p
        | no n ↦ rest n
      ]

-- Below a purpose an address is shown without the warning exactly if the purpose is none of the five
-- that are checked, or the levels below it and the script are what it prescribes for the coin.
pub path_mismatched_iff :
    (coin : CoinRow) (type : InputScriptType) (purpose : ℕ) (levels : List ℕ)
    → (path_mismatched coin type (purpose ∷ levels) ≡ false) ↔ Fits coin type purpose levels
unfolding Passes
path_mismatched_iff coin type purpose levels =
    (Passes-path_mismatched coin levels type purpose, path_mismatched-Fits coin type purpose levels)
