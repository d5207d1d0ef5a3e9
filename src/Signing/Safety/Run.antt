-- ===== src/Signing/Safety/Run.antt =====
-- The handler `signing_txack` keeps the invariant, and what follows for a whole signing.
use safe_t_mcu.Prelude.{
  by_test, ℕ, ◌+◌, ◌^◌, ◌≤◌, ◌<◌, ◌≡◌, refl, arith, Bool, true, false, not, ◌||◌, List, [], ◌∷◌,
  All,
}
use safe_t_mcu.Wallet.{Coin, Wallet}
use safe_t_mcu.Signing.{
  Ack, Answers, SignTx, Stage, request_1_input, request_2_prev_meta, request_2_prev_input,
  request_2_prev_output, request_2_prev_extradata, request_3_output, request_4_input,
  request_4_output, request_segwit_input, request_5_output, request_segwit_witness,
  nothing_serialized, unexpected_message, received,
}
use safe_t_mcu.Signing.Check.{Session, signing_init}
use safe_t_mcu.Signing.Phase2.{run_stage, signing_txack, stated_amount}
use safe_t_mcu.Signing.Safety.{
  Safe, has_confirmed, is_phase1, SignedAfter, StopsAtFailure, ShowsOutputs, signed_total,
  received_total, refused-Core, received-Core,
}
use safe_t_mcu.Signing.Safety.Phase1.{
  stage_1_input-Safe, stage_2_prev_meta-Safe, stage_2_prev_input-Safe, stage_2_prev_output-Safe,
  stage_2_prev_extradata-Safe,
}
use safe_t_mcu.Signing.Safety.Outputs.{Agreed-Safe, stage_3_output-Safe}
use safe_t_mcu.Signing.Safety.Stages.{
  stage_4_input-Agreed, stage_4_output-Agreed, stage_segwit_input-Agreed, stage_5_output-Agreed,
  stage_segwit_witness-Agreed,
}

-- The amounts of a piece are 64-bit numbers, as the message decoder gives them.
pub record Fits (m : Ack × Answers) : Type 0 where
  pub input : m.0.input.amount < 2 ^ 64
  pub output : m.0.output.amount < 2 ^ 64
  pub bin_output : m.0.bin_output.amount < 2 ^ 64

module _ (W : Wallet) (coin : Coin) where
  -- What the host sends, one piece after the other.
  abbrev pub run : List (Ack × Answers) → Session W coin → Session W coin
  run [] s = s
  run ((tx, answers) ∷ msgs) s = run msgs (signing_txack W coin tx answers s)

  run_stage-Safe :
      (stage : Stage) (tx : Ack) (answers : Answers) (s : Session W coin)
      → Fits (tx, answers)
      → s.signing ≡ true
      → (is_phase1 stage || has_confirmed s.log) ≡ true
      → s.to_spend + stated_amount W coin stage s.idx2 s.input.tx.prev_index tx
        ≤ received_total s.log
      → Safe s
      → Safe (run_stage W coin stage tx answers s)
  run_stage-Safe request_1_input tx answers s fits on h room p =
      stage_1_input-Safe W coin tx.input s fits.input room p
  run_stage-Safe request_2_prev_meta tx answers s fits on h room p =
      stage_2_prev_meta-Safe W coin tx s p
  run_stage-Safe request_2_prev_input tx answers s fits on h room p =
      stage_2_prev_input-Safe W coin tx.input.tx s p
  run_stage-Safe request_2_prev_output tx answers s fits on h room p =
      stage_2_prev_output-Safe W coin tx.bin_output s fits.bin_output room p
  run_stage-Safe request_2_prev_extradata tx answers s fits on h room p =
      stage_2_prev_extradata-Safe W coin tx.extra_data s p
  run_stage-Safe request_3_output tx answers s fits on h room p =
      stage_3_output-Safe W coin tx.output answers s fits.output on p
  run_stage-Safe request_4_input tx answers s fits on h room p =
      Agreed-Safe W coin _
        (stage_4_input-Agreed W coin tx.input s (record { order = h; core = p.core }))
  run_stage-Safe request_4_output tx answers s fits on h room p =
      Agreed-Safe W coin _
        (stage_4_output-Agreed W coin tx.output s on (record { order = h; core = p.core }))
  run_stage-Safe request_segwit_input tx answers s fits on h room p =
      Agreed-Safe W coin _
        (stage_segwit_input-Agreed W coin tx.input s on (record { order = h; core = p.core }))
  run_stage-Safe request_5_output tx answers s fits on h room p =
      Agreed-Safe W coin _
        (stage_5_output-Agreed W coin tx.output s (record { order = h; core = p.core }))
  run_stage-Safe request_segwit_witness tx answers s fits on h room p =
      Agreed-Safe W coin _
        (stage_segwit_witness-Agreed W coin tx.input s on (record { order = h; core = p.core }))

  signing_txack-Safe :
      (tx : Ack) (answers : Answers) (s : Session W coin)
      → Fits (tx, answers)
      → Safe s
      → Safe (signing_txack W coin tx answers s)
  unfolding signing_txack
  signing_txack-Safe tx answers s fits p =
      by_test Safe (not s.signing)
        (λ e. record { order = p.order; core = refused-Core unexpected_message e p.core })
        (λ e.
          let n = stated_amount W coin s.stage s.idx2 s.input.tx.prev_index tx in
          run_stage-Safe s.stage tx answers
            (record s { resp = nothing_serialized; log = received n ∷ s.log }) fits
            (running s.signing e) p.order (room s.to_spend (received_total s.log) _ p.core.inputs)
            (record { order = p.order; core = received-Core n p.core }))
    where
      room : (t m n : ℕ) → t ≤ m → t + n ≤ n + m
      room t m n h = omega arith

      running : (b : Bool) → not b ≡ false → b ≡ true
      running true e = refl
      running false e = cc

  signing_init-Safe : (msg : SignTx) (s : Session W coin) → Safe (signing_init W coin msg s)
  unfolding signing_init
  signing_init-Safe msg s = record {
    order = refl;
    core = record {
      after = tt;
      within = omega arith;
      inputs = omega arith;
      fits = omega arith;
      shows = tt;
      spent = λ _. (refl, omega arith);
      kept = λ _. refl;
      quiet = λ _. refl;
      yes = λ _. refl;
      stops = tt;
    };
  }

  run-Safe :
      (msgs : List (Ack × Answers)) (s : Session W coin)
      → All Fits msgs
      → Safe s
      → Safe (run msgs s)
  run-Safe [] s fits p = p
  run-Safe ((tx, answers) ∷ msgs) s fits p =
      run-Safe msgs _ fits.1 (signing_txack-Safe tx answers s fits.0 p)

  -- The state after a signing that begins with `msg`.
  abbrev pub sign : SignTx → List (Ack × Answers) → Session W coin → Session W coin
  sign msg msgs s = run msgs (signing_init W coin msg s)

  sign-Safe :
      (msg : SignTx) (msgs : List (Ack × Answers)) (s : Session W coin)
      → All Fits msgs
      → Safe (sign msg msgs s)
  sign-Safe msg msgs s fits = run-Safe msgs _ fits (signing_init-Safe msg s)

  -- Whatever pieces with 64-bit amounts the host sends, and in whatever order, every use of a private
  -- key in a signing comes after the user was asked about the amount and the fee and said yes, and
  -- after no question of that signing, about an output or a fee, to which the user said no.
  pub sign-SignedAfter :
      (msg : SignTx) (msgs : List (Ack × Answers)) (s : Session W coin)
      → All Fits msgs
      → SignedAfter (sign msg msgs s).log
  sign-SignedAfter msg msgs s fits = (sign-Safe msg msgs s fits).core.after

  -- Whatever pieces with 64-bit amounts the host sends, the amount that the last question shows is the
  -- sum of the outputs that the user was asked about before and said yes to, and the fee that is shown
  -- with it.
  pub sign-ShowsOutputs :
      (msg : SignTx) (msgs : List (Ack × Answers)) (s : Session W coin)
      → All Fits msgs
      → ShowsOutputs (sign msg msgs s).log
  sign-ShowsOutputs msg msgs s fits = (sign-Safe msg msgs s fits).core.shows

  -- Whatever pieces with 64-bit amounts the host sends, the amounts that signatures commit to come
  -- together to at most `to_spend`, which is less than 2^64 and at most the sum of what the pieces said
  -- that the inputs spend: the amount of an input whose signature commits to it, and for another input
  -- the amount of the previous output with its index.
  pub signed_total_le :
      (msg : SignTx) (msgs : List (Ack × Answers)) (s : Session W coin)
      → All Fits msgs
      → let s' = sign msg msgs s in
        (signed_total s'.log ≤ s'.to_spend)
        × (s'.to_spend ≤ received_total s'.log)
        × (s'.to_spend < 2 ^ 64)
  signed_total_le msg msgs s fits =
      let c = (sign-Safe msg msgs s fits).core in (within _ _ _ c.within, c.inputs, c.fits)
    where
      within : (t a m : ℕ) → t + a ≤ m → t ≤ m
      within t a m h = omega arith

  -- Whatever pieces with 64-bit amounts the host sends, once a signing has sent a failure the question
  -- about amount and fee is not asked and no private key is used in it any more.
  pub sign-StopsAtFailure :
      (msg : SignTx) (msgs : List (Ack × Answers)) (s : Session W coin)
      → All Fits msgs
      → StopsAtFailure (sign msg msgs s).log
  sign-StopsAtFailure msg msgs s fits = (sign-Safe msg msgs s fits).core.stops
