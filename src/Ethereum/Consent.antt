-- ===== src/Ethereum/Consent.antt =====
-- An Ethereum transaction is only signed after the user has allowed it.
use safe_t_mcu.Prelude.{
  ℕ, ◌-◌, ◌≡◌, ◌≢◌, refl, Bool, true, false, not, ◌&&◌, ◌||◌, List, [], ◌∷◌, Option, none, some,
  ltb, ◌==◌, if◌then◌else◌, length, Hasher, by_test,
}
use safe_t_mcu.Ethereum.Signing.{
  Event, tx_asked, data_asked, fee_asked, signature, Failure, EthereumSignTx, Consent, Signer, fail,
  send_signed, send_signature, next_chunk, hash_chain, hash_fields, confirm_fee, is_transfer,
  confirm_tx, wrong_chain, wrong_data, total_of, ethereum_signing_check, checked_init, clear_absent,
  ethereum_signing_init, ethereum_signing_txack, data_error, action_cancelled, process_error,
}

-- The user said yes to the transaction, and then to its fee.
abbrev pub has_tx : List Event → Bool
has_tx [] = false
has_tx (tx_asked ok ∷ log) = ok || has_tx log
has_tx (e ∷ log) = has_tx log

abbrev pub has_fee : List Event → Bool
has_fee [] = false
has_fee (fee_asked ok ∷ log) = (ok && has_tx log) || has_fee log
has_fee (e ∷ log) = has_fee log

-- The user said yes to every question.
abbrev pub always_yes : List Event → Bool
always_yes [] = true
always_yes (tx_asked ok ∷ log) = ok && always_yes log
always_yes (data_asked ok ∷ log) = ok && always_yes log
always_yes (fee_asked ok ∷ log) = ok && always_yes log
always_yes (e ∷ log) = always_yes log

-- Every signature comes after both, and after no refusal.
abbrev pub SignedAfter : List Event → Type 0
SignedAfter [] = Unit
SignedAfter (signature v sig ∷ log) =
    (has_fee log ≡ true) × (always_yes log ≡ true) × SignedAfter log
SignedAfter (e ∷ log) = SignedAfter log

yes_either : (a b : Bool) → a ≡ true → (a || b) ≡ true
yes_either true b e = refl
yes_either false b e = cc

yes_both : (a b : Bool) → a ≡ true → b ≡ true → (a && b) ≡ true
yes_both true b e h = h
yes_both false b e h = cc

module _ (H : Hasher) (is_token : ℕ → List ℕ → Bool)
    (sign_digest : List ℕ → List ℕ → Option (ℕ × List ℕ)) where
  -- A signing that runs was allowed.
  record Allowed (s : Signer H is_token sign_digest) : Type 0 where
    after : SignedAfter s.log
    fee : s.signing ≡ true → has_fee s.log ≡ true
    yes : s.signing ≡ true → always_yes s.log ≡ true

  fail-Allowed :
      (f : Failure) (s : Signer H is_token sign_digest)
      → SignedAfter s.log
      → Allowed (fail H is_token sign_digest f s)
  fail-Allowed f s h = record {
    after = h;
    fee = λ e. absurd (stopped e);
    yes = λ e. absurd (stopped e);
  }
    where
      stopped : false ≢ true
      stopped e = cc

  send_signed-Allowed :
      (o : Option (ℕ × List ℕ)) (s : Signer H is_token sign_digest)
      → has_fee s.log ≡ true
      → always_yes s.log ≡ true
      → SignedAfter s.log
      → Allowed (send_signed H is_token sign_digest o s)
  send_signed-Allowed none s h y k = fail-Allowed process_error s k
  send_signed-Allowed (some (v, sig)) s h y k = record {
    after = (h, y, k);
    fee = λ _. h;
    yes = λ _. y;
  }

  next_chunk-Allowed :
      (s : Signer H is_token sign_digest)
      → has_fee s.log ≡ true
      → always_yes s.log ≡ true
      → SignedAfter s.log
      → Allowed (next_chunk H is_token sign_digest s)
  unfolding send_signature
  next_chunk-Allowed s h y k =
      let keccak = hash_chain H is_token sign_digest s.chain_id s.keccak in
      by_test Allowed (ltb 0 s.data_left) (λ _. record { after = k; fee = λ _. h; yes = λ _. y })
        (λ _.
          send_signed-Allowed (sign_digest s.privkey (H.digest keccak))
            (record s { keccak = keccak }) h y k)

  refused :
      (f : Failure) (b : Bool) (s : Signer H is_token sign_digest)
      {t : Signer H is_token sign_digest}
      → SignedAfter s.log
      → Allowed t
      → Allowed (if b then fail H is_token sign_digest f s else t)
  refused f true s h p = fail-Allowed f s h
  refused f false s h p = p

  ethereum_signing_txack-Allowed :
      (has : Bool) (chunk : List ℕ) (s : Signer H is_token sign_digest)
      → Allowed s
      → Allowed (ethereum_signing_txack H is_token sign_digest has chunk s)
  unfolding ethereum_signing_txack
  ethereum_signing_txack-Allowed has chunk s p =
      by_test Allowed (not s.signing) (λ _. record { after = p.after; fee = p.fee; yes = p.yes })
        (λ e. refused data_error (ltb s.data_left (length chunk)) s p.after (
          refused data_error (ltb 0 s.data_left && (not has || length chunk == 0)) s p.after (
            next_chunk-Allowed
              (record s { keccak = H.feed s.keccak chunk; data_left = s.data_left - length chunk })
              (p.fee (running s.signing e)) (p.yes (running s.signing e)) p.after)))
    where
      running : (b : Bool) → not b ≡ false → b ≡ true
      running true e = refl
      running false e = cc

  -- A question that ends the signing unless the user says yes.
  unless_yes :
      (ok : Bool) (s : Signer H is_token sign_digest) {t : Signer H is_token sign_digest}
      → SignedAfter s.log
      → (ok ≡ true → Allowed t)
      → Allowed (if not ok then fail H is_token sign_digest action_cancelled s else t)
  unless_yes true s h p = p refl
  unless_yes false s h p = fail-Allowed action_cancelled s h

  confirm_fee-Allowed :
      (msg : EthereumSignTx) (key : List ℕ) (c : Consent) (s : Signer H is_token sign_digest)
      → has_tx s.log ≡ true
      → always_yes s.log ≡ true
      → SignedAfter s.log
      → Allowed (confirm_fee H is_token sign_digest msg key c s)
  confirm_fee-Allowed msg key c s h y k =
      unless_yes c.fee (record s { log = fee_asked c.fee ∷ s.log }) k
        λ ok.
          next_chunk-Allowed
            (record s {
              keccak = hash_fields H is_token sign_digest msg s.chain_id s.data_total;
              data_left = s.data_total - length msg.data_initial_chunk;
              privkey = key;
              log = fee_asked c.fee ∷ s.log;
            })
            (yes_either _ _ (yes_both _ _ ok h)) (yes_both _ _ ok y) k

  confirm_tx-Allowed :
      (msg : EthereumSignTx) (key : List ℕ) (c : Consent) (s : Signer H is_token sign_digest)
      → always_yes s.log ≡ true
      → SignedAfter s.log
      → Allowed (confirm_tx H is_token sign_digest msg key c s)
  confirm_tx-Allowed msg key c s y k =
      let s1 : Signer H is_token sign_digest = record s { log = tx_asked c.tx ∷ s.log } in
      let s2 : Signer H is_token sign_digest = record s1 { log = data_asked c.data_ok ∷ s1.log } in
      let token = is_transfer H is_token sign_digest msg s.chain_id s.data_total in
      unless_yes c.tx s1 k λ ok.
        let asked = yes_either _ _ ok in
        let yes = yes_both _ _ ok y in
        by_test Allowed (not token && ltb 0 s.data_total)
          (λ _.
            unless_yes c.data_ok s2 k
              λ ok'. confirm_fee-Allowed msg key c s2 asked (yes_both _ _ ok' yes) k)
          (λ _. confirm_fee-Allowed msg key c s1 asked yes k)

  checked_init-Allowed :
      (msg : EthereumSignTx) (key : List ℕ) (c : Consent) (s : Signer H is_token sign_digest)
      → always_yes s.log ≡ true
      → SignedAfter s.log
      → Allowed (checked_init H is_token sign_digest msg key c s)
  checked_init-Allowed msg key c s y k =
      let s1 : Signer H is_token sign_digest = record s {
        chain_id = if msg.has_chain_id then msg.chain_id else 0;
      } in
      let s2 : Signer H is_token sign_digest = record s1 { data_total = total_of msg } in
      refused data_error (wrong_chain msg) s k (
        refused data_error (wrong_data msg) s1 k (
          refused data_error (ltb (total_of msg) (length msg.data_initial_chunk)) s2 k (
            refused data_error (not (ethereum_signing_check msg)) s2 k
              (confirm_tx-Allowed msg key c s2 y k))))

  -- The chunks that come in, present or not.
  abbrev pub run :
      List (Bool × List ℕ) → Signer H is_token sign_digest → Signer H is_token sign_digest
  run [] s = s
  run ((has, chunk) ∷ acks) s = run acks (ethereum_signing_txack H is_token sign_digest has chunk s)

  run-Allowed :
      (acks : List (Bool × List ℕ)) (s : Signer H is_token sign_digest)
      → Allowed s
      → Allowed (run acks s)
  run-Allowed [] s p = p
  run-Allowed ((has, chunk) ∷ acks) s p =
      run-Allowed acks _ (ethereum_signing_txack-Allowed has chunk s p)

  -- Whatever message begins an Ethereum signing and whatever chunks follow, every signature comes after the
  -- user said yes to the transaction and, after it, to the fee, and after no question to which the user
  -- said no.
  pub run-SignedAfter :
      (msg : EthereumSignTx) (key : List ℕ) (c : Consent) (acks : List (Bool × List ℕ))
      (s : Signer H is_token sign_digest)
      → SignedAfter (run acks (ethereum_signing_init H is_token sign_digest msg key c s)).log
  unfolding ethereum_signing_init
  run-SignedAfter msg key c acks s =
      (run-Allowed acks _ (
        checked_init-Allowed (clear_absent msg) key c
          (record s { signing = true; keccak = H.init 0; log = [] }) refl tt)).after
