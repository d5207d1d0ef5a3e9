-- ===== src/Signing/Sign.antt =====
-- The signatures of firmware/signing.c, and the witnesses.
use Prim.Native.Nat.{bit_or}
use safe_t_mcu.Prelude.{
  ℕ, ◌+◌, ◌-◌, ◌*◌, ◌%◌, ◌^◌, Bool, true, false, not, ◌&&◌, ◌||◌, List, [], ◌∷◌, ◌++◌, Option, none,
  some, ltb, leb, ◌==◌, if◌then◌else◌, length, set, take, text_eq, le_bytes,
}
use safe_t_mcu.Wire.{Written, ser_length}
use safe_t_mcu.Tx.{tx_serialize_script, tx_serialize_input, tx_serialize_footer}
use safe_t_mcu.Tx.Hash.{tx_prevout_hash, tx_script_hash, tx_sequence_hash, tx_hash_final}
use safe_t_mcu.Tx.Script.{
  Multisig, compile_script_sig, serialize_script_sig, serialize_script_multisig,
  compile_script_multisig, multisig_length,
}
use safe_t_mcu.Wallet.{NodePath, Coin, Wallet}
use safe_t_mcu.Wallet.Multisig.{crypto_multisig_fingerprint, crypto_multisig_pubkey_index}
use safe_t_mcu.Signing.{Input, data_error, process_error, signed, pred32, fail}
use safe_t_mcu.Signing.Check.{Session, no_change_allowed, account, is_segwit_input}

-- The script of an input takes another place in `input.script_sig`.
abbrev pub with_script : List ℕ → Input → Input
with_script script i = record i { tx = record (i.tx) { script_sig = script } }

-- The keys that `node` holds.
abbrev pub Keys : Type 0
Keys = List ℕ × List ℕ

module _ (W : Wallet) (coin : Coin) where
  abbrev pub unchanged_fp : Option (List ℕ) → Option (List ℕ) → Bool
  unchanged_fp (some fp) (some h) = text_eq fp h
  unchanged_fp fp h = false

  -- An input of a multisig transaction must still be one, with the same keys.
  abbrev pub same_multisig : Session W coin → Option (Multisig NodePath) → Bool
  same_multisig s none = s.multisig_fp_mismatch
  same_multisig s (some ms) =
      s.multisig_fp_mismatch || unchanged_fp s.multisig_fp (crypto_multisig_fingerprint W.sha256 ms)

  abbrev pub same_path : Session W coin → List ℕ → Bool
  same_path s address_n =
      s.in_address_n_count == no_change_allowed
      || (leb 2 (length address_n)
          && (length address_n == s.in_address_n_count
              && text_eq s.in_address_n (account address_n)))

  abbrev pub script_bytes : Option Written → List ℕ
  script_bytes none = []
  script_bytes (some w) = w.1

  abbrev pub script_of : Option (Multisig NodePath) → List ℕ → List ℕ
  script_of none pubkey =
      (compile_script_sig (W.known_address_type coin.address_type)
        (W.ecdsa_get_pubkeyhash pubkey)).1
  script_of (some ms) pubkey = script_bytes (compile_script_multisig W.path_to_pubkey ms)

  abbrev pub with_keys : Input → Keys → Option (Input × Keys)
  with_keys i keys =
      let script = script_of i.multisig keys.1 in
      if length script == 0 then none else some (with_script script i, keys)

  -- `compile_input_script_sig`: the input with its script, and what `node` holds; `none` is a return
  -- of false.
  unfoldable pub compile_input_script_sig : Input → Session W coin → Option (Input × Keys)
  compile_input_script_sig i s =
      if not (same_multisig s i.multisig)
      then none
      else if not (same_path s i.address_n)
      then none
      else elim (W.derive i.address_n) [ none ↦ none | some keys ↦ with_keys i keys ]

  -- `signing_hash_type`
  unfoldable pub signing_hash_type : ℕ
  signing_hash_type =
      if coin.has_forkid then bit_or 1 (bit_or (coin.forkid * 2 ^ 8 % 2 ^ 32) 0x40) else 1

  -- `signing_hash_bip143`: the hash that is signed.
  unfoldable pub signing_hash_bip143 : Input → Session W coin → List ℕ
  signing_hash_bip143 i s =
      let H = W.hasher in
      let s1 = H.feed (H.init W.hasher_sign) (le_bytes 4 s.version) in
      let s2 = H.feed (H.feed s1 s.hash_prevouts) s.hash_sequence in
      let s3 = (tx_script_hash H (tx_prevout_hash H s2 i.tx).0 i.tx.script_sig).0 in
      let s4 = (tx_sequence_hash H (H.feed s3 (le_bytes 8 i.amount)) i.tx).0 in
      let s5 = H.feed (H.feed s4 s.hash_outputs) (le_bytes 4 s.lock_time) in
      H.digest (H.feed s5 (le_bytes 4 signing_hash_type))

  abbrev pub script_or_fail : Input → Written → Session W coin → Option Input × Session W coin
  script_or_fail i script s =
      if script.0 == 0 then (none, fail process_error s) else (some (with_script script.1 i), s)

  abbrev pub multisig_script :
      Input → Multisig NodePath → Option ℕ → List ℕ → Session W coin → Option Input × Session W coin
  multisig_script i ms none der s = (none, fail data_error s)
  multisig_script i ms (some k) der s =
      let ms' : Multisig NodePath = record ms { signatures = set ms.signatures k der } in
      script_or_fail (record i { multisig = some ms' })
        (serialize_script_multisig W.path_to_pubkey ms' (signing_hash_type % 256)) s

  -- The script that carries a signature.
  abbrev pub signature_script :
      Option (Multisig NodePath)
      → Input
      → List ℕ
      → List ℕ
      → Session W coin
      → Option Input × Session W coin
  signature_script none i pubkey der s =
      (some (with_script (serialize_script_sig der pubkey (signing_hash_type % 256)).1 i), s)
  signature_script (some ms) i pubkey der s =
      multisig_script i ms (crypto_multisig_pubkey_index W.path_to_pubkey ms pubkey) der s

  abbrev pub with_signature : List ℕ → Option ℕ → Session W coin → Session W coin
  with_signature der amount s = record s {
    resp = record (s.resp) { signature = some (s.idx1, der) };
    log = signed amount ∷ s.log;
  }

  abbrev pub use_signature :
      Option (List ℕ) → Input → List ℕ → Option ℕ → Session W coin → Option Input × Session W coin
  use_signature none i pubkey amount s = (none, fail process_error s)
  use_signature (some der) i pubkey amount s =
      signature_script i.multisig i pubkey der (with_signature der amount s)

  -- `signing_sign_hash`: the input with its script, if there is one. `amount` is what the hash commits
  -- to.
  unfoldable pub signing_sign_hash :
      Input → Keys → List ℕ → Option ℕ → Session W coin → Option Input × Session W coin
  signing_sign_hash i keys hash amount s =
      use_signature (W.sign_digest keys.0 hash) i keys.1 amount s

  -- A piece of the transaction for the answer.
  abbrev pub serialize : List ℕ → Session W coin → Session W coin
  serialize bytes s = record s { resp = record (s.resp) { serialized_tx = some bytes } }

  abbrev pub serialize_signed : Option Input × Session W coin → Bool × Session W coin
  serialize_signed (none, s) = (false, s)
  serialize_signed (some i, s) =
      let ((r, bytes), to) = tx_serialize_input s.to i.tx in
      (true, serialize bytes (record s { to = to; input = i }))

  -- `signing_sign_input`
  unfoldable pub signing_sign_input : Session W coin → Bool × Session W coin
  signing_sign_input s =
      let H = W.hasher in
      let ti = record (s.ti) { hasher = H.feed s.ti.hasher (le_bytes 4 signing_hash_type) } in
      if not (text_eq (H.digest s.hasher0) s.hash_outputs)
      then (false, fail data_error s)
      else serialize_signed (
          signing_sign_hash s.input (s.privkey, s.pubkey) (tx_hash_final H ti false) none
            (record s { ti = ti }))

  -- The signatures of a multisig witness, and how many they are.
  abbrev pub witness_signatures : List (List ℕ) → ℕ × List ℕ
  witness_signatures [] = (0, [])
  witness_signatures ([] ∷ sigs) = witness_signatures sigs
  witness_signatures ((b ∷ bs) ∷ sigs) =
      let (n, rest) = witness_signatures sigs in
      (n + 1, (tx_serialize_script ((b ∷ bs) ++ (signing_hash_type % 256 ∷ []))).1 ++ rest)

  abbrev pub multisig_witness : Multisig NodePath → List ℕ
  multisig_witness ms =
      let (n, sigs) = witness_signatures ms.signatures in
      let script = script_bytes (compile_script_multisig W.path_to_pubkey ms) in
      ((2 + n) % 256)
      ∷ 0
      ∷ (sigs ++ ((ser_length (multisig_length W.path_to_pubkey ms)).1 ++ script))

  abbrev pub single_witness : List ℕ → List ℕ → List ℕ
  single_witness der pubkey =
      (ser_length 2).1
      ++ ((tx_serialize_script (der ++ (signing_hash_type % 256 ∷ []))).1
          ++ (tx_serialize_script (take 33 pubkey)).1)

  abbrev pub der_of : Option (ℕ × List ℕ) → List ℕ
  der_of none = []
  der_of (some (i, der)) = der

  abbrev pub witness : Option (Multisig NodePath) → List ℕ → Session W coin → List ℕ
  witness none pubkey s = single_witness (der_of s.resp.signature) pubkey
  witness (some ms) pubkey s = multisig_witness ms

  -- The last witness is followed by the footer.
  abbrev pub finish_witness : List ℕ → Session W coin → Bool × Session W coin
  finish_witness bytes s = (
    true,
    serialize
        (if s.idx1 == pred32 s.inputs_count then bytes ++ (tx_serialize_footer s.to).1 else bytes)
        s,
  )

  abbrev pub witness_signed : List ℕ → Option Input × Session W coin → Bool × Session W coin
  witness_signed pubkey (none, s) = (false, s)
  witness_signed pubkey (some i, s) = finish_witness (witness i.multisig pubkey s) s

  -- An amount that was not declared in the first phase is not signed for.
  unfoldable pub authorize :
      Option (Input × Keys) → Session W coin → Option (Input × Keys) × Session W coin
  authorize none s = (none, fail process_error s)
  authorize (some (i, keys)) s =
      if ltb s.authorized_amount i.amount
      then (none, fail data_error s)
      else (some (i, keys), record s { authorized_amount = s.authorized_amount - i.amount })

  abbrev pub sign_authorized :
      Option (Input × Keys) × Session W coin → Option Input × Session W coin
  sign_authorized (none, s) = (none, s)
  sign_authorized (some (i, keys), s) =
      signing_sign_hash i keys (signing_hash_bip143 i s) (some i.amount) s

  abbrev pub pubkey_of : Option (Input × Keys) → List ℕ
  pubkey_of none = []
  pubkey_of (some (i, keys)) = keys.1

  -- `signing_sign_segwit_input`
  unfoldable pub signing_sign_segwit_input : Input → Session W coin → Bool × Session W coin
  unfolding authorize
  signing_sign_segwit_input i s =
      let compiled = compile_input_script_sig i s in
      if is_segwit_input i.script_type
      then witness_signed (pubkey_of compiled) (sign_authorized (authorize compiled s))
      else finish_witness (0 ∷ []) s
