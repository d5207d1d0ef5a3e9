-- ===== src/Wallet/Multisig.antt =====
-- Multisig keys, firmware/crypto.c: which of them is ours, and the fingerprint of them all, which
-- does not depend on their order.
use safe_t_mcu.Prelude.{
  ℕ, zero, suc, ◌+◌, Bool, true, false, not, ◌&&◌, ◌||◌, List, [], ◌∷◌, ◌++◌, Option, none, some,
  ltb, ◌==◌, if◌then◌else◌, length, take, le_bytes, text_eq,
}
use safe_t_mcu.Tx.Script.{Multisig}
use safe_t_mcu.Wallet.{NodePath}

-- `memcmp(a, b, length a) > 0`, for byte strings of one length
abbrev pub bytes_gt : List ℕ → List ℕ → Bool
bytes_gt [] bs = false
bytes_gt (a ∷ as') [] = true
bytes_gt (a ∷ as') (b ∷ bs) = let rest = bytes_gt as' bs in if a == b then rest else ltb b a

abbrev pub key_of : NodePath → List ℕ
key_of p = p.node.public_key

-- The inner loop of the sort in `cryptoMultisigFingerprint`: from the last key down, the key in
-- hand is swapped with a smaller one. The smallest key, and the others.
abbrev pub select_min : NodePath → List NodePath → NodePath × List NodePath
select_min p [] = (p, [])
select_min p (q ∷ qs) =
    let r = select_min p qs in
    if bytes_gt (key_of r.0) (key_of q) then (q, r.0 ∷ r.1) else (r.0, q ∷ r.1)

-- The outer loop, for as many rounds as there are keys.
unfoldable pub minsort : ℕ → List NodePath → List NodePath
minsort zero ps = ps
minsort (suc n) [] = []
minsort (suc n) (p ∷ ps) = let r = select_min p ps in r.0 ∷ minsort n r.1

abbrev pub is_sane : List NodePath → Bool
is_sane [] = true
is_sane (p ∷ ps) =
    (p.node.has_public_key && length p.node.public_key == 33)
    && (length p.node.chain_code == 32 && is_sane ps)

-- What is hashed of each key.
abbrev pub key_bytes : List NodePath → List ℕ
key_bytes [] = []
key_bytes (p ∷ ps) =
    le_bytes 4 p.node.depth
    ++ (le_bytes 4 p.node.fingerprint
        ++ (le_bytes 4 p.node.child_num
            ++ (take 32 p.node.chain_code ++ (take 33 p.node.public_key ++ key_bytes ps))))

-- `cryptoMultisigFingerprint`; `none` is a return of 0.
unfoldable pub crypto_multisig_fingerprint : (List ℕ → List ℕ) → Multisig NodePath → Option (List ℕ)
crypto_multisig_fingerprint sha256 ms =
    let n = length ms.pubkeys in
    if ltb n 1 || ltb 15 n
    then none
    else if not ms.has_m || (ltb ms.m 1 || ltb 15 ms.m)
    then none
    else if not (is_sane ms.pubkeys)
    then none
    else some (sha256 (le_bytes 4 ms.m ++ (key_bytes (minsort n ms.pubkeys) ++ le_bytes 4 n)))

-- The loop of `cryptoMultisigPubkeyIndex` from place `i` on.
abbrev pub is_key : Option (List ℕ) → List ℕ → Bool
is_key none pubkey = false
is_key (some k) pubkey = text_eq (take 33 k) (take 33 pubkey)

abbrev pub pubkey_index_from : (NodePath → Option (List ℕ)) → ℕ → List NodePath → List ℕ → Option ℕ
pubkey_index_from path_to_pubkey i [] pubkey = none
pubkey_index_from path_to_pubkey i (p ∷ ps) pubkey =
    let rest = pubkey_index_from path_to_pubkey (i + 1) ps pubkey in
    if is_key (path_to_pubkey p) pubkey then some i else rest

-- `cryptoMultisigPubkeyIndex`; `none` is -1.
unfoldable pub crypto_multisig_pubkey_index :
    (NodePath → Option (List ℕ)) → Multisig NodePath → List ℕ → Option ℕ
crypto_multisig_pubkey_index path_to_pubkey ms pubkey =
    pubkey_index_from path_to_pubkey 0 ms.pubkeys pubkey
