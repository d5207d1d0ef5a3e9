-- ===== src/Tx/Script.antt =====
-- The scripts of firmware/transaction.c: pay-to-pubkey-hash, multisig, and the inputs' scripts.
use safe_t_mcu.Prelude.{
  ℕ, suc, ◌+◌, ◌*◌, ◌≡◌, refl, sym, ap, ◌∙◌, arith, Bool, true, false, not, ◌||◌, List, [], ◌∷◌,
  ◌++◌, Option, none, some, ltb, ◌==◌, if◌then◌else◌, length, take, Hasher, append_assoc,
}
use safe_t_mcu.Wire.{Written, op_push}
use mathlib.Core.Option

-- `MultisigRedeemScriptType`; a `Key` leads to a public key.
pub record Multisig (Key : Type 0) : Type 0 where
  pub has_m : Bool
  pub m : ℕ
  pub pubkeys : List Key
  pub signatures : List (List ℕ)

-- `compile_script_sig`; `known` is whether `coinByAddressType` finds a coin.
unfoldable pub compile_script_sig : Bool → List ℕ → Written
compile_script_sig known pubkeyhash =
    if known then (25, 0x76 ∷ 0xA9 ∷ 0x14 ∷ (take 20 pubkeyhash ++ (0x88 ∷ 0xAC ∷ []))) else (0, [])

-- `serialize_script_sig`
unfoldable pub serialize_script_sig : List ℕ → List ℕ → ℕ → Written
serialize_script_sig signature pubkey sighash =
    let (k, push) = op_push (length signature + 1) in
    let (k', push') = op_push (length pubkey) in
    (
      k + length signature + 1 + k' + length pubkey,
      push ++ (signature ++ (sighash ∷ (push' ++ pubkey))),
    )

-- `cryptoHDNodePathToPubkey` derives a key by the crypto library.
module _ {Key : Type 0} (path_to_pubkey : Key → Option (List ℕ)) where
  -- The guards on `m` and `n`.
  abbrev pub refuses_multisig : Multisig Key → Bool
  refuses_multisig ms =
      not ms.has_m
      || (ltb ms.m 1 || ltb 15 ms.m)
      || (ltb (length ms.pubkeys) 1 || ltb 15 (length ms.pubkeys))

  -- The loop over the keys: what it writes, or `none` if a key cannot be derived.
  abbrev pub push_pubkey : Option (List ℕ) → Option Written → Option Written
  push_pubkey none rest = none
  push_pubkey (some pubkey) none = none
  push_pubkey (some pubkey) (some w) = some (1 + 33 + w.0, 33 ∷ (take 33 pubkey ++ w.1))

  abbrev pub push_pubkeys : List Key → Option Written
  push_pubkeys [] = some (0, [])
  push_pubkeys (p ∷ ps) = push_pubkey (path_to_pubkey p) (push_pubkeys ps)

  -- `compile_script_multisig` with `out`; `none` is a return of 0.
  unfoldable pub compile_script_multisig : Multisig Key → Option Written
  compile_script_multisig ms =
      if refuses_multisig ms
      then none
      else Option.map
          (λ w. (1 + w.0 + 2, (0x50 + ms.m) ∷ (w.1 ++ ((0x50 + length ms.pubkeys) ∷ 0xAE ∷ []))))
          (push_pubkeys ms.pubkeys)

  -- `compile_script_multisig` without `out`
  unfoldable pub multisig_length : Multisig Key → ℕ
  multisig_length ms = if refuses_multisig ms then 0 else 1 + 34 * length ms.pubkeys + 2

  -- The loop of `serialize_script_multisig` over the signatures.
  abbrev push_signatures : ℕ → List (List ℕ) → Written
  push_signatures sighash [] = (0, [])
  push_signatures sighash ([] ∷ sigs) = push_signatures sighash sigs
  push_signatures sighash ((b ∷ bs) ∷ sigs) =
      let (k, push) = op_push (length (b ∷ bs) + 1) in
      let (r, rest) = push_signatures sighash sigs in
      (k + length (b ∷ bs) + 1 + r, push ++ ((b ∷ bs) ++ (sighash ∷ rest)))

  abbrev with_script : Written → ℕ → Option Written → Written
  with_script sigs script_len none = (0, [])
  with_script sigs script_len (some script) = (
    1 + sigs.0 + (op_push script_len).0 + script.0,
    0 ∷ (sigs.1 ++ ((op_push script_len).1 ++ script.1)),
  )

  -- `serialize_script_multisig`; when it returns 0 the bytes do not count.
  unfoldable pub serialize_script_multisig : Multisig Key → ℕ → Written
  serialize_script_multisig ms sighash =
      if multisig_length ms == 0
      then (0, [])
      else with_script (push_signatures sighash ms.signatures) (multisig_length ms)
          (compile_script_multisig ms)

  -- `compile_script_multisig_hash`
  module _ (H : Hasher) (hasher_pubkey : ℕ) where
    abbrev pub feed_pubkeys : H.State → List Key → Option H.State
    feed_pubkeys s [] = some s
    feed_pubkeys s (p ∷ ps) = elim (path_to_pubkey p) [
      | none ↦ none
      | some pubkey ↦ feed_pubkeys (H.feed (H.feed s (33 ∷ [])) (take 33 pubkey)) ps
    ]

    unfoldable pub compile_script_multisig_hash : Multisig Key → Option (List ℕ)
    compile_script_multisig_hash ms =
        if refuses_multisig ms
        then none
        else Option.map (λ s. H.digest (H.feed s ((0x50 + length ms.pubkeys) ∷ 0xAE ∷ [])))
            (feed_pubkeys (H.feed (H.init hasher_pubkey) ((0x50 + ms.m) ∷ [])) ms.pubkeys)

  push_pubkey-length :
      (o : Option (List ℕ)) (r : Option Written) (n : ℕ) (w : Written)
      → ((v : Written) → r ≡ some v → v.0 ≡ 34 * n)
      → push_pubkey o r ≡ some w
      → w.0 ≡ 34 * suc n
  push_pubkey-length none r n w h e = cc
  push_pubkey-length (some pubkey) none n w h e = cc
  push_pubkey-length (some pubkey) (some v) n w h e = ground (arith, h v refl)

  push_pubkeys-length :
      (ps : List Key) (w : Written) → push_pubkeys ps ≡ some w → w.0 ≡ 34 * length ps
  push_pubkeys-length [] w e = ground arith
  push_pubkeys-length (p ∷ ps) w e =
      push_pubkey-length (path_to_pubkey p) (push_pubkeys ps) (length ps) w (push_pubkeys-length ps)
        e

  wrapped-length :
      (b : Bool) (o : Option Written) (n x y : ℕ) (w : Written)
      → ((v : Written) → o ≡ some v → v.0 ≡ 34 * n)
      → (if b then none else Option.map (λ v. (1 + v.0 + 2, x ∷ (v.1 ++ (y ∷ 0xAE ∷ [])))) o)
        ≡ some w
      → (if b then 0 else 1 + 34 * n + 2) ≡ w.0
  wrapped-length true o n x y w h e = cc
  wrapped-length false none n x y w h e = cc
  wrapped-length false (some v) n x y w h e = ground (arith, h v refl)

  -- When a multisig script is written, the length returned is the one that is computed without writing it.
  pub multisig_length-compile_script_multisig :
      (ms : Multisig Key) (w : Written)
      → compile_script_multisig ms ≡ some w
      → multisig_length ms ≡ w.0
  unfolding compile_script_multisig multisig_length
  multisig_length-compile_script_multisig ms w e =
      wrapped-length (refuses_multisig ms) (push_pubkeys ms.pubkeys) (length ms.pubkeys)
        (0x50 + ms.m) (0x50 + length ms.pubkeys) w (push_pubkeys-length ms.pubkeys) e

  module _ (H : Hasher) (hasher_pubkey : ℕ) where
    feed_pubkeys-push :
        (s : H.State) (ps : List Key)
        → feed_pubkeys H hasher_pubkey s ps ≡ Option.map (λ w. H.feed s w.1) (push_pubkeys ps)
    feed_pubkeys-push s [] = ap some (sym (H.feed_nil s))
    feed_pubkeys-push s (p ∷ ps) =
        go (path_to_pubkey p) (push_pubkeys ps) (λ t. feed_pubkeys-push t ps)
      where
        go :
            (o : Option (List ℕ)) (r : Option Written)
            → ((t : H.State) → feed_pubkeys H hasher_pubkey t ps ≡ Option.map (λ w. H.feed t w.1) r)
            → (elim o as (λ _. Option H.State) [
              | none ↦ none
              | some pubkey ↦
                  feed_pubkeys H hasher_pubkey (H.feed (H.feed s (33 ∷ [])) (take 33 pubkey)) ps
            ])
              ≡ Option.map (λ w. H.feed s w.1) (push_pubkey o r)
        go none r h = refl
        go (some pubkey) none h = h (H.feed (H.feed s (33 ∷ [])) (take 33 pubkey))
        go (some pubkey) (some w) h =
            h (H.feed (H.feed s (33 ∷ [])) (take 33 pubkey)) ∙ simp (H.feed-append, append_assoc)

    hashed_script :
        (b : Bool) (o : Option Written) (s : H.State) (x : ℕ) (tail : List ℕ)
        → (if b
            then none
            else Option.map
                (λ t. H.digest (H.feed t tail))
                (Option.map (λ (w : Written). H.feed (H.feed s (x ∷ [])) w.1) o))
          ≡ Option.map
              (λ (w : Written). H.digest (H.feed s w.1))
              (if b then none else Option.map (λ (w : Written). (1 + w.0 + 2, x ∷ (w.1 ++ tail))) o)
    hashed_script true o s x tail = refl
    hashed_script false none s x tail = refl
    hashed_script false (some w) s x tail = simp (H.feed-append, append_assoc)

    -- The hash of a multisig script is the hash of the script that is written, and there is one
    -- exactly when the script can be written.
    pub compile_script_multisig_hash_lem :
        (ms : Multisig Key)
        → compile_script_multisig_hash H hasher_pubkey ms
          ≡ Option.map
              (λ (w : Written). H.digest (H.feed (H.init hasher_pubkey) w.1))
              (compile_script_multisig ms)
    unfolding compile_script_multisig compile_script_multisig_hash
    compile_script_multisig_hash_lem ms =
        ap
          (λ (o : Option H.State).
            if refuses_multisig ms
            then none
            else Option.map (λ t. H.digest (H.feed t ((0x50 + length ms.pubkeys) ∷ 0xAE ∷ []))) o)
          (feed_pubkeys-push (H.feed (H.init hasher_pubkey) ((0x50 + ms.m) ∷ [])) ms.pubkeys)
        ∙ hashed_script (refuses_multisig ms) (push_pubkeys ms.pubkeys) (H.init hasher_pubkey)
            (0x50 + ms.m) ((0x50 + length ms.pubkeys) ∷ 0xAE ∷ [])
