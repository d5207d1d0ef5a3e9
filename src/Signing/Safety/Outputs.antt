-- ===== src/Signing/Safety/Outputs.antt =====
-- The outputs and the fee, `signing_check_output` and `signing_check_fee`, keep the invariant.
use safe_t_mcu.Prelude.{
  by_test, ℕ, ◌+◌, ◌-◌, ◌*◌, ◌/◌, ◌%◌, ◌^◌, ◌<◌, ◌≡◌, refl, arith, Bool, true, false, ◌&&◌, List,
  Option, none, some, ltb, ◌==◌, if◌then◌else◌, length,
}
use safe_t_mcu.Tx.Address.{TxOutput, compile_output, ask_output, output_script}
use safe_t_mcu.Wallet.{Coin, Wallet}
use safe_t_mcu.Signing.{
  pred32, Answers, Signer, fail, Failure, process_error, data_error, not_enough_funds,
  action_cancelled,
}
use safe_t_mcu.Signing.Check.{
  Session, add_output, count_output, ask_sign, ask_fee, set_change, is_change, signing_check_output,
  signing_check_fee, phase1_request_next_output, phase2_request_next_input,
}
use safe_t_mcu.Signing.Phase1.{stage_3_output}
use safe_t_mcu.Signing.Safety.{
  off, has_confirmed, Safe, Agreed, requested-Core, failed-Core, output_hidden-Core,
  output_asked-Core, refused_output-Core, fee_asked-Core, sign_asked-Core, either_true,
}
use safe_t_mcu.Signing.Safety.Phase1.{fail-Safe, either}

-- A step that may have failed: if it says that it did not, the signing still runs.
record Continues {Digest : Type 0} (r : Bool × Signer Digest) : Type 0 where
  safe : Safe r.1
  runs : r.0 ≡ true → r.1.signing ≡ true

stop : {Digest : Type 0} (f : Failure) (s : Signer Digest) → Safe s → Continues (false, fail f s)
stop f s p = record { safe = fail-Safe f s p; runs = λ e. cc }

-- An error ends it.
guarded :
    {Digest : Type 0} (f : Failure) (b : Bool) {s : Signer Digest} {r : Bool × Signer Digest}
    → Safe s
    → (b ≡ false → Continues r)
    → Continues (if b then (false, fail f s) else r)
guarded f true {s} p q = stop f s p
guarded f false p q = q refl

either_pair :
    {Digest : Type 0} (b : Bool) {r q : Bool × Signer Digest}
    → (b ≡ true → Continues r)
    → (b ≡ false → Continues q)
    → Continues (if b then r else q)
either_pair true p q = p refl
either_pair false p q = q refl

module _ (W : Wallet) (coin : Coin) where
  -- An output that is shown: the user is asked.
  shown :
      (amount : ℕ) (script : Option (List ℕ)) (ok : Bool) (s : Session W coin)
      → amount < 2 ^ 64
      → s.signing ≡ true
      → ltb ((s.spending + amount) % 2 ^ 64) s.spending ≡ false
      → Safe s
      → Continues (
          add_output W coin amount
            (ask_output W coin true ok amount script)
            (record s { spending = (s.spending + amount) % 2 ^ 64 }))
  shown amount none ok s small on e p = record {
    safe = record { order = p.order; core = failed-Core process_error p.core };
    runs = λ e. cc;
  }
  shown amount (some script) false s small on e p = record {
    safe = record { order = p.order; core = refused_output-Core action_cancelled amount p.core };
    runs = λ e. cc;
  }
  shown amount (some script) true s small on e p = record {
    safe = record { order = p.order; core = output_asked-Core amount small on e p.core };
    runs = λ _. on;
  }

  -- The first change: the user is not asked.
  hidden :
      (amount : ℕ) (script : Option (List ℕ)) (ok : Bool) (s : Session W coin)
      → amount < 2 ^ 64
      → s.signing ≡ true
      → s.change_spend ≡ 0
      → ltb ((s.spending + amount) % 2 ^ 64) s.spending ≡ false
      → Safe s
      → Continues (
          add_output W coin amount
            (ask_output W coin false ok amount script)
            (record s { change_spend = amount; spending = (s.spending + amount) % 2 ^ 64 }))
  hidden amount none ok s small on z e p = record {
    safe = record { order = p.order; core = failed-Core process_error p.core };
    runs = λ e. cc;
  }
  hidden amount (some script) ok s small on z e p = record {
    safe = record { order = p.order; core = output_hidden-Core amount small on z e p.core };
    runs = λ _. on;
  }

  count_output-Continues :
      (hide : Bool) (o : TxOutput) (answers : Answers) (s : Session W coin)
      → o.amount < 2 ^ 64
      → s.signing ≡ true
      → (hide ≡ true → s.change_spend ≡ 0)
      → Safe s
      → Continues (count_output W coin hide o answers (set_change W coin hide o.amount s))
  unfolding compile_output
  count_output-Continues true o answers s small on z p =
      let over = ltb ((s.spending + o.amount) % 2 ^ 64) s.spending in
      either_pair over
        (λ _. record {
          safe = record { order = p.order; core = failed-Core data_error p.core };
          runs = λ e. cc;
        })
        (λ e. hidden o.amount (output_script W coin o) answers.output_ok s small on (z refl) e p)
  count_output-Continues false o answers s small on z p =
      guarded data_error (ltb ((s.spending + o.amount) % 2 ^ 64) s.spending) p
        (λ e. shown o.amount (output_script W coin o) answers.output_ok s small on e p)

  signing_check_output-Continues :
      (o : TxOutput) (answers : Answers) (s : Session W coin)
      → o.amount < 2 ^ 64
      → s.signing ≡ true
      → Safe s
      → Continues (signing_check_output W coin o answers s)
  unfolding signing_check_output
  signing_check_output-Continues o answers s small on p =
      guarded data_error (ltb 0 (length o.address_n) && o.has_address) p (λ _.
        count_output-Continues (is_change W coin s o && s.change_spend == 0) o answers s small on
          (second (is_change W coin s o) s.change_spend) p)
    where
      second : (b : Bool) (n : ℕ) → (b && n == 0) ≡ true → n ≡ 0
      second true n h = ground arith
      second false n h = absurd (off h)

  -- After the confirmation of the fee the later phases may begin.
  record Settled (r : Bool × Session W coin) : Type 0 where
    kept : Safe r.1
    agreed : r.0 ≡ true → has_confirmed r.1.log ≡ true

  sign_Settled :
      (answers : Answers) (ok : Bool) (s : Session W coin)
      → answers.sign_ok ≡ ok
      → s.signing ≡ true
      → ltb s.to_spend s.spending ≡ false
      → Safe s
      → Settled (ask_sign W coin (s.to_spend - s.spending) answers s)
  sign_Settled answers false s a on e p = rw a (record {
    kept = record {
      order = p.order;
      core = failed-Core action_cancelled (sign_asked-Core {g1 = false} false on (λ z. z) e p.core);
    };
    agreed = λ e. cc;
  })
  sign_Settled answers true s a on e p = rw a (record {
    kept = record {
      order = either_true _ _ refl;
      core = sign_asked-Core true on (λ _. refl) e p.core;
    };
    agreed = λ _. refl;
  })

  fee_Settled :
      (answers : Answers) (ok : Bool) (s : Session W coin)
      → answers.fee_ok ≡ ok
      → s.signing ≡ true
      → ltb s.to_spend s.spending ≡ false
      → Safe s
      → Settled (ask_fee W coin (s.to_spend - s.spending) answers s)
  fee_Settled answers false s a on e p = rw a (record {
    kept = record {
      order = p.order;
      core = failed-Core action_cancelled (fee_asked-Core {g1 = false} _ false on (λ z. z) p.core);
    };
    agreed = λ e. cc;
  })
  fee_Settled answers true s a on e p = rw a (
      sign_Settled answers answers.sign_ok _ refl on e
        (record { order = p.order; core = fee_asked-Core _ true on (λ _. refl) p.core }))

  signing_check_fee-Settled :
      (answers : Answers) (s : Session W coin)
      → s.signing ≡ true
      → Safe s
      → Settled (signing_check_fee W coin answers s)
  unfolding signing_check_fee
  signing_check_fee-Settled answers s on p =
      by_test Settled (ltb s.to_spend s.spending)
        (λ _. record { kept = fail-Safe not_enough_funds s p; agreed = λ e. cc })
        (λ e.
          by_test Settled
            (ltb (s.tx_weight * coin.maxfee_kb % 2 ^ 64 / 4000) (s.to_spend - s.spending))
            (λ _. fee_Settled answers answers.fee_ok s refl on e p)
            (λ _. sign_Settled answers answers.sign_ok s refl on e p))

  pub phase2_request_next_input-Agreed :
      (s : Session W coin) → Agreed s → Agreed (phase2_request_next_input W coin s)
  unfolding phase2_request_next_input
  phase2_request_next_input-Agreed s p =
      by_test Agreed (s.idx1 == s.next_nonsegwit_input)
        (λ _. record { order = p.order; core = requested-Core _ _ p.core })
        (λ _. record { order = p.order; core = requested-Core _ _ p.core })

  pub Agreed-Safe : (s : Session W coin) → Agreed s → Safe s
  Agreed-Safe s p = record { order = either_true _ _ p.order; core = p.core }

  phase1_request_next_output-Safe :
      (answers : Answers) (s : Session W coin)
      → s.signing ≡ true
      → Safe s
      → Safe (phase1_request_next_output W coin answers s)
  unfolding phase1_request_next_output
  phase1_request_next_output-Safe answers s on p =
      let s1 : Session W coin = record s { hash_outputs = W.hasher.digest s.hasher0 } in
      let q = signing_check_fee-Settled answers s1 on (record { order = p.order; core = p.core }) in
      let r = signing_check_fee W coin answers s1 in
      let s2 : Session W coin = record (r.1) { idx1 = 0 } in
      either (ltb s.idx1 (pred32 s.outputs_count))
        (record { order = refl; core = requested-Core _ _ p.core })
        (by_test Safe (r.0)
          (λ ok. Agreed-Safe _ (
            phase2_request_next_input-Agreed s2
              (record { order = q.agreed ok; core = q.kept.core })))
          (λ _. q.kept))

  pub stage_3_output-Safe :
      (o : TxOutput) (answers : Answers) (s : Session W coin)
      → o.amount < 2 ^ 64
      → s.signing ≡ true
      → Safe s
      → Safe (stage_3_output W coin o answers s)
  unfolding stage_3_output
  stage_3_output-Safe o answers s small on p =
      let r = signing_check_output W coin o answers s in
      let q = signing_check_output-Continues o answers s small on p in
      by_test Safe (r.0)
        (λ ok.
          phase1_request_next_output-Safe answers _ (q.runs ok)
            (record { order = q.safe.order; core = q.safe.core }))
        (λ _. q.safe)
