-- ===== src/Signing/Safety/Phase1.antt =====
-- The stages of the first phase keep the invariant.
use safe_t_mcu.Prelude.{
  ℕ, ◌+◌, ◌%◌, ◌^◌, ◌<◌, ◌≡◌, refl, Bool, true, false, not, ◌&&◌, ◌||◌, ◌≤◌, by_test, List, Option,
  none, some, ltb, leb, ◌==◌, if◌then◌else◌, text_eq, take, length,
}
use safe_t_mcu.Tx.Hash.{
  tx_hash_final, tx_serialize_input_hash, tx_serialize_output_hash, tx_serialize_extra_data_hash,
}
use safe_t_mcu.Tx.{◌+32◌, TxInput, TxOutputBin, tx_init}
use safe_t_mcu.Tx.Script.{Multisig}
use safe_t_mcu.Wallet.{NodePath, Coin, Wallet}
use safe_t_mcu.Wallet.Multisig.{crypto_multisig_fingerprint}
use safe_t_mcu.Signing.{pred32, Input, Ack, Signer, fail, Failure, process_error, data_error}
use safe_t_mcu.Signing.Check.{
  Session, phase1_request_next_input, signing_check_prevtx_hash, no_change_allowed, wallet_depth,
  account, extract_input_bip32_path, check_input_rest, check_multisig_input, signing_check_input,
  compare_fp, is_legacy_input, is_segwit_input,
}
use safe_t_mcu.Signing.Phase1.{
  weigh_input, stage_1_input, legacy_input, segwit_input, stage_2_prev_meta, stage_2_prev_input,
  stage_2_prev_output, stage_2_prev_extradata, after_prev_output,
}
use safe_t_mcu.Signing.Safety.{
  Safe, requested-Core, failed-Core, add_to_spend-Core, add_amount-Core, received_total,
}

pub fail-Safe : {Digest : Type 0} (f : Failure) (s : Signer Digest) → Safe s → Safe (fail f s)
fail-Safe f s p = record { order = p.order; core = failed-Core f p.core }

-- An error ends it.
pub guard :
    {Digest : Type 0} (f : Failure) (b : Bool) {s t : Signer Digest}
    → Safe s
    → (b ≡ false → Safe t)
    → Safe (if b then fail f s else t)
guard f true {s} p q = fail-Safe f s p
guard f false p q = q refl

-- Either way.
pub either :
    {Digest : Type 0} (b : Bool) {s t : Signer Digest} → Safe s → Safe t → Safe (if b then s else t)
either true p q = p
either false p q = q

-- Room for an amount that a piece stated.
pub record Ready {Digest : Type 0} (n : ℕ) (s : Signer Digest) : Type 0 where
  pub safe : Safe s
  pub room : s.to_spend + n ≤ received_total s.log

either-Ready :
    {Digest : Type 0} {n : ℕ} (b : Bool) {s t : Signer Digest}
    → Ready n s
    → Ready n t
    → Ready n (if b then s else t)
either-Ready true p q = p
either-Ready false p q = q

extract_input_bip32_path-Ready :
    {Digest : Type 0} {n : ℕ} (a : List ℕ) (s : Signer Digest)
    → Ready n s
    → Ready n (extract_input_bip32_path a s)
unfolding extract_input_bip32_path
extract_input_bip32_path-Ready {n} a s p =
    let count = length a in
    either-Ready (s.in_address_n_count == no_change_allowed) p (
      either-Ready (ltb count wallet_depth)
        (record { safe = record { order = p.safe.order; core = p.safe.core }; room = p.room })
        (either-Ready (s.in_address_n_count == 0)
          (record { safe = record { order = p.safe.order; core = p.safe.core }; room = p.room })
          (either-Ready (not (s.in_address_n_count == count))
            (record { safe = record { order = p.safe.order; core = p.safe.core }; room = p.room })
            (either-Ready (not (text_eq s.in_address_n (account a)))
              (record { safe = record { order = p.safe.order; core = p.safe.core }; room = p.room })
              p))))

module _ (W : Wallet) (coin : Coin) where
  phase1_request_next_input-Safe :
      (s : Session W coin) → Safe s → Safe (phase1_request_next_input W coin s)
  unfolding phase1_request_next_input
  phase1_request_next_input-Safe s p =
      either (ltb s.idx1 (pred32 s.inputs_count))
        (record { order = refl; core = requested-Core _ _ p.core })
        (record { order = refl; core = requested-Core _ _ p.core })

  signing_check_prevtx_hash-Safe :
      (s : Session W coin) → Safe s → Safe (signing_check_prevtx_hash W coin s)
  unfolding signing_check_prevtx_hash
  signing_check_prevtx_hash-Safe s p =
      either (text_eq (take 32 (tx_hash_final W.hasher s.tp true)) (take 32 s.input.tx.prev_hash))
        (phase1_request_next_input-Safe s p) (fail-Safe data_error s p)

  check_input_rest-Ready :
      {n : ℕ} (i : Input) (s : Session W coin) → Ready n s → Ready n (check_input_rest W coin i s)
  check_input_rest-Ready i s p =
      let q = extract_input_bip32_path-Ready i.address_n s p in
      record { safe = record { order = q.safe.order; core = q.safe.core }; room = q.room }

  compare_fp-Ready :
      {n : ℕ} (fp : Option (List ℕ)) (h : List ℕ) (s : Session W coin)
      → Ready n s
      → Ready n (compare_fp W coin fp h s)
  compare_fp-Ready none h s p = record {
    safe = record { order = p.safe.order; core = p.safe.core };
    room = p.room;
  }
  compare_fp-Ready (some fp) h s p =
      either-Ready (text_eq fp h) p
        (record { safe = record { order = p.safe.order; core = p.safe.core }; room = p.room })

  check_multisig_input-Ready :
      {n : ℕ} (i : Input) (ms : Option (Multisig NodePath)) (s : Session W coin)
      → Ready n s
      → Ready n (check_multisig_input W coin i ms s)
  check_multisig_input-Ready i none s p =
      check_input_rest-Ready i _
        (record { safe = record { order = p.safe.order; core = p.safe.core }; room = p.room })
  check_multisig_input-Ready {n} i (some ms) s p =
      either-Ready s.multisig_fp_mismatch
        (check_input_rest-Ready i _
          (record { safe = record { order = p.safe.order; core = p.safe.core }; room = p.room }))
        (elim (crypto_multisig_fingerprint W.sha256 ms)
          as (λ fp. Ready {Digest = W.hasher.State} n (elim fp [
            | none ↦ fail process_error s
            | some h ↦ check_input_rest W coin i (compare_fp W coin s.multisig_fp h s)
          ])) [
            | none ↦ record { safe = fail-Safe process_error s p.safe; room = p.room }
            | some h ↦ check_input_rest-Ready i _ (compare_fp-Ready s.multisig_fp h s p)
          ])

  signing_check_input-Ready :
      {n : ℕ} (i : Input) (s : Session W coin)
      → Ready n s
      → Ready n (signing_check_input W coin i s)
  unfolding signing_check_input
  signing_check_input-Ready i s p = check_multisig_input-Ready i i.multisig s p

  -- What a piece states, where its branch is taken.
  taken : (n t m : ℕ) (b : Bool) → b ≡ true → t + (if b then n else 0) ≤ m → t + n ≤ m
  taken n t m true e h = h
  taken n t m false e h = cc

  legacy_input-Safe :
      (i : Input) (s : Session W coin)
      → i.amount < 2 ^ 64
      → (coin.force_bip143 ≡ true → s.to_spend + i.amount ≤ received_total s.log)
      → Safe s
      → Safe (legacy_input W coin i s)
  legacy_input-Safe i s small room p =
      by_test Safe (not coin.force_bip143)
        (λ _. record { order = refl; core = requested-Core _ _ p.core })
        (λ force.
          guard data_error (not i.has_amount) (record { order = p.order; core = p.core })
            (λ _.
              guard data_error (ltb ((s.to_spend + i.amount) % 2 ^ 64) s.to_spend)
                (record { order = p.order; core = p.core })
                (λ e. phase1_request_next_input-Safe _ (record {
                  order = p.order;
                  core =
                      add_amount-Core i.amount small e (room (true_of coin.force_bip143 force))
                        p.core;
                }))))
    where
      true_of : (b : Bool) → not b ≡ false → b ≡ true
      true_of true e = refl
      true_of false e = cc

  segwit_input-Safe :
      (i : Input) (s : Session W coin)
      → i.amount < 2 ^ 64
      → s.to_spend + i.amount ≤ received_total s.log
      → Safe s
      → Safe (segwit_input W coin i s)
  segwit_input-Safe i s small room p = guard data_error (not coin.has_segwit) p (λ _.
      guard data_error (not i.has_amount) p (λ _.
        guard data_error (ltb ((s.to_spend + i.amount) % 2 ^ 64) s.to_spend) p (λ e.
          phase1_request_next_input-Safe _
            (record { order = p.order; core = add_amount-Core i.amount small e room p.core }))))

  either_of : (a b c : Bool) → b ≡ true → c ≡ true → (a || (b && c)) ≡ true
  either_of true b c e h = refl
  either_of false true c e h = h
  either_of false false c e h = cc

  first_of : (a b : Bool) → a ≡ true → (a || b) ≡ true
  first_of true b e = refl
  first_of false b e = cc

  pub stage_1_input-Safe :
      (i : Input) (s : Session W coin)
      → i.amount < 2 ^ 64
      → s.to_spend
          + (if is_segwit_input i.script_type
                || (is_legacy_input i.script_type && coin.force_bip143)
              then i.amount
              else 0)
        ≤ received_total s.log
      → Safe s
      → Safe (stage_1_input W coin i s)
  unfolding stage_1_input
  stage_1_input-Safe i s small room p =
      let segwit = is_segwit_input i.script_type in
      let legacy = is_legacy_input i.script_type in
      let q = signing_check_input-Ready i s (record { safe = p; room = room }) in
      let checked = signing_check_input W coin i s in
      let s1 : Session W coin = record checked {
        tx_weight = checked.tx_weight +32 weigh_input i;
      } in
      let q1 : Safe s1 = record { order = q.safe.order; core = q.safe.core } in
      by_test Safe legacy
        (λ old.
          legacy_input-Safe i s1 small
            (λ force.
              taken i.amount _ _ (segwit || (legacy && coin.force_bip143))
                (either_of segwit legacy coin.force_bip143 old force) q.room)
            q1)
        (λ _.
          by_test Safe segwit
            (λ new.
              segwit_input-Safe i s1 small
                (taken i.amount _ _ (segwit || (legacy && coin.force_bip143))
                  (first_of segwit _ new) q.room)
                q1)
            (λ _. fail-Safe data_error s1 q1))

  pub stage_2_prev_meta-Safe :
      (tx : Ack) (s : Session W coin) → Safe s → Safe (stage_2_prev_meta W coin tx s)
  unfolding stage_2_prev_meta tx_init
  stage_2_prev_meta-Safe tx s p =
      guard data_error (leb tx.outputs_cnt s.input.tx.prev_index) p (λ _.
        guard data_error (ltb (tx.inputs_cnt +32 tx.outputs_cnt) tx.inputs_cnt) p (λ _.
          either (ltb 0 tx.inputs_cnt) (record { order = refl; core = requested-Core _ _ p.core })
            (record { order = refl; core = requested-Core _ _ p.core })))

  pub stage_2_prev_input-Safe :
      (i : TxInput) (s : Session W coin) → Safe s → Safe (stage_2_prev_input W coin i s)
  unfolding stage_2_prev_input
  stage_2_prev_input-Safe i s p =
      let r = tx_serialize_input_hash W.hasher s.tp i in
      guard process_error (r.0 == 0) (record { order = p.order; core = p.core })
        (λ _.
          either (ltb s.idx2 (pred32 r.1.inputs_len))
            (record { order = refl; core = requested-Core _ _ p.core })
            (record { order = refl; core = requested-Core _ _ p.core }))

  after_prev_output-Safe : (s : Session W coin) → Safe s → Safe (after_prev_output W coin s)
  after_prev_output-Safe s p =
      either (ltb s.idx2 (pred32 s.tp.outputs_len))
        (record { order = refl; core = requested-Core _ _ p.core })
        (either (ltb 0 s.tp.extra_data_len)
          (record { order = refl; core = requested-Core _ _ p.core })
          (signing_check_prevtx_hash-Safe s p))

  pub stage_2_prev_output-Safe :
      (o : TxOutputBin) (s : Session W coin)
      → o.amount < 2 ^ 64
      → s.to_spend + (if s.idx2 == s.input.tx.prev_index then o.amount else 0)
        ≤ received_total s.log
      → Safe s
      → Safe (stage_2_prev_output W coin o s)
  unfolding stage_2_prev_output
  stage_2_prev_output-Safe o s small room p =
      let r = tx_serialize_output_hash W.hasher s.tp o in
      let s1 : Session W coin = record s { tp = r.1 } in
      let s2 : Session W coin = record s1 { to_spend = (s.to_spend + o.amount) % 2 ^ 64 } in
      let p1 : Safe s1 = record { order = p.order; core = p.core } in
      guard process_error (r.0 == 0) p1 (λ _.
        by_test Safe (not (s.idx2 == s.input.tx.prev_index)) (λ _. after_prev_output-Safe s1 p1)
          (λ same. guard data_error (ltb ((s.to_spend + o.amount) % 2 ^ 64) s.to_spend) p1 (λ e.
            after_prev_output-Safe s2 (record {
              order = p.order;
              core =
                  add_to_spend-Core o.amount small e
                    (wanted o.amount _ _ (s.idx2 == s.input.tx.prev_index) same room) p.core;
            }))))
    where
      wanted : (n t m : ℕ) (b : Bool) → not b ≡ false → t + (if b then n else 0) ≤ m → t + n ≤ m
      wanted n t m true e h = h
      wanted n t m false e h = cc

  pub stage_2_prev_extradata-Safe :
      (bytes : List ℕ) (s : Session W coin) → Safe s → Safe (stage_2_prev_extradata W coin bytes s)
  unfolding stage_2_prev_extradata
  stage_2_prev_extradata-Safe bytes s p =
      let r = tx_serialize_extra_data_hash W.hasher s.tp bytes in
      guard process_error (r.0 == 0) (record { order = p.order; core = p.core })
        (λ _.
          either (ltb r.1.extra_data_received r.1.extra_data_len)
            (record { order = refl; core = requested-Core _ _ p.core })
            (signing_check_prevtx_hash-Safe _ (record { order = p.order; core = p.core })))
