-- ===== src/Signing/Phase2.antt =====
-- The second and third phase of `signing_txack` in firmware/signing.c: every piece is sent again, and
-- signed; and the handler itself.
use safe_t_mcu.Prelude.{
  ℕ, ◌+◌, Bool, false, not, ◌&&◌, ◌||◌, List, [], ◌∷◌, Option, none, some, ltb, ◌==◌, if◌then◌else◌,
  take, drop, text_eq,
}
use safe_t_mcu.Tx.{◌+32◌, tx_init, tx_serialize_input, tx_serialize_output}
use safe_t_mcu.Tx.Hash.{
  tx_prevout_hash, tx_output_hash, tx_serialize_input_hash, tx_serialize_output_hash,
}
use safe_t_mcu.Tx.Script.{Multisig, compile_script_multisig_hash}
use safe_t_mcu.Tx.Address.{TxOutput, Compiled, compiled, compile_output}
use safe_t_mcu.Wallet.{NodePath, Coin, Wallet}
use safe_t_mcu.Signing.{
  Input, Ack, Answers, Stage, request_1_input, request_2_prev_meta, request_2_prev_input,
  request_2_prev_output, request_2_prev_extradata, request_3_output, request_4_input,
  request_4_output, request_segwit_input, request_5_output, request_segwit_witness,
  nothing_serialized, data_error, process_error, unexpected_message, pred32, fail, send_req_4_input,
  send_req_4_output, send_req_5_output, send_req_segwit_witness, finish, failed, received,
}
use safe_t_mcu.Signing.Check.{
  Session, is_legacy_input, is_segwit_input, type_bytes, phase2_request_next_input,
}
use safe_t_mcu.Signing.Sign.{
  Keys, with_script, compile_input_script_sig, serialize, signing_sign_input,
  signing_sign_segwit_input, authorize, sign_authorized,
}
use safe_t_mcu.Signing.Phase1.{
  is_p2sh_witness, stage_1_input, stage_2_prev_meta, stage_2_prev_input, stage_2_prev_output,
  stage_2_prev_extradata, stage_3_output,
}

module _ (W : Wallet) (coin : Coin) where
  -- The first of the inputs: the transaction that is signed, and the check of its inputs, begin anew.
  abbrev pub begin_4 : Session W coin → Session W coin
  begin_4 s =
      if s.idx2 == 0
      then record s {
        ti =
            tx_init W.hasher.init s.preblock_hash s.inputs_count s.outputs_count s.version
              s.lock_time 0 W.hasher_sign s.ti;
        hasher0 = W.hasher.init W.hasher_sign;
      }
      else s

  -- Prevouts and script types are hashed as in the first phase.
  abbrev pub hash_input : Input → Session W coin → Session W coin
  hash_input i s = record s {
    hasher0 = W.hasher.feed (tx_prevout_hash W.hasher s.hasher0 i.tx).0 (type_bytes i.script_type);
  }

  -- After the last input what was hashed must be what was hashed in the first phase.
  abbrev pub next_4_input : Session W coin → Session W coin
  next_4_input s =
      if ltb s.idx2 (pred32 s.inputs_count)
      then send_req_4_input (record s { idx2 = s.idx2 + 1 })
      else if not (text_eq (W.hasher.digest s.hasher0) s.hash_check)
      then fail data_error s
      else send_req_4_output (record s { hasher0 = W.hasher.init W.hasher_sign; idx2 = 0 })

  abbrev pub serialize_4_input : Input → Session W coin → Session W coin
  serialize_4_input i s =
      let (r, ti) = tx_serialize_input_hash W.hasher s.ti i.tx in
      let s1 : Session W coin = record s { ti = ti } in
      if r == 0 then fail process_error s1 else next_4_input s1

  -- The input that is signed gets its script, and its keys are kept.
  abbrev pub signed_4_input : Option (Input × Keys) → Session W coin → Session W coin
  signed_4_input none s = fail process_error s
  signed_4_input (some (i, keys)) s =
      serialize_4_input i (record s { input = i; privkey = keys.0; pubkey = keys.1 })

  -- The other inputs have an empty script; the next one to sign in this way is noted.
  abbrev pub other_4_input : Input → Session W coin → Session W coin
  other_4_input i s =
      let next =
        s.next_nonsegwit_input == s.idx1 && (ltb s.idx1 s.idx2 && is_legacy_input i.script_type) in
      serialize_4_input (with_script [] i)
        (record s { next_nonsegwit_input = if next then s.idx2 else s.next_nonsegwit_input })

  -- STAGE_REQUEST_4_INPUT
  unfoldable pub stage_4_input : Input → Session W coin → Session W coin
  stage_4_input i s =
      let s1 = hash_input i (begin_4 s) in
      if s1.idx2 == s1.idx1
      then signed_4_input (compile_input_script_sig W coin i s1) s1
      else other_4_input i s1

  -- The next input of the second phase, or the outputs.
  abbrev pub next_phase2_input : Session W coin → Session W coin
  next_phase2_input s =
      if ltb s.idx1 (pred32 s.inputs_count)
      then phase2_request_next_input W coin (record s { idx1 = s.idx1 + 1 })
      else send_req_5_output (record s { idx1 = 0 })

  abbrev pub count_signature : Session W coin → Session W coin
  count_signature s = record s { signatures = s.signatures +32 1 }

  abbrev pub after_sign_input : Bool × Session W coin → Session W coin
  after_sign_input (ok, s) = if ok then next_phase2_input (count_signature s) else s

  abbrev pub next_4_output : Session W coin → Session W coin
  next_4_output s =
      if ltb s.idx2 (pred32 s.outputs_count)
      then send_req_4_output (record s { idx2 = s.idx2 + 1 })
      else after_sign_input (signing_sign_input W coin s)

  abbrev pub serialize_4_output : Compiled → Session W coin → Session W coin
  serialize_4_output (compiled bin) s =
      let (r, ti) = tx_serialize_output_hash W.hasher s.ti bin in
      let s1 : Session W coin = record s {
        hasher0 = (tx_output_hash W.hasher s.hasher0 bin).0;
        ti = ti;
      } in
      if r == 0 then fail process_error s1 else next_4_output s1
  serialize_4_output c s = fail process_error s

  -- STAGE_REQUEST_4_OUTPUT
  unfoldable pub stage_4_output : TxOutput → Session W coin → Session W coin
  stage_4_output o s = serialize_4_output (compile_output W coin o false false).1 s

  -- An input is written, and the next one is asked for.
  abbrev pub write_input : Input → Session W coin → Session W coin
  write_input i s =
      let ((r, bytes), to) = tx_serialize_input s.to i.tx in
      next_phase2_input (serialize W coin bytes (record s { to = to }))

  abbrev pub write_signed : Option Input × Session W coin → Session W coin
  write_signed (none, s) = s
  write_signed (some i, s) = write_input i (count_signature s)

  -- The witness program for one key, in a script: 16 00 14 and the hash in `76 A9 14 <hash> 88 AC`.
  abbrev pub p2wpkh_script : List ℕ → List ℕ
  p2wpkh_script script = 0x16 ∷ 0x00 ∷ take 21 (drop 2 script)

  abbrev pub write_p2wpkh : Option (Input × Keys) → Session W coin → Session W coin
  write_p2wpkh none s = fail process_error s
  write_p2wpkh (some (i, keys)) s = write_input (with_script (p2wpkh_script i.tx.script_sig) i) s

  -- The witness program for a multisig script.
  abbrev pub write_p2wsh : Option (List ℕ) → Input → Session W coin → Session W coin
  write_p2wsh none i s = fail process_error s
  write_p2wsh (some digest) i s =
      write_input (with_script (0x22 ∷ 0x00 ∷ 0x20 ∷ take 32 digest) i) s

  abbrev pub write_p2sh : Option (Multisig NodePath) → Input → Session W coin → Session W coin
  write_p2sh none i s = write_p2wpkh (compile_input_script_sig W coin i s) s
  write_p2sh (some ms) i s =
      write_p2wsh (compile_script_multisig_hash W.path_to_pubkey W.hasher W.hasher_pubkey ms) i s

  -- STAGE_REQUEST_SEGWIT_INPUT
  unfoldable pub stage_segwit_input : Input → Session W coin → Session W coin
  unfolding authorize
  stage_segwit_input i s =
      if is_legacy_input i.script_type
      then (if not coin.force_bip143
          then fail data_error s
          else write_signed
              (sign_authorized W coin (authorize W coin (compile_input_script_sig W coin i s) s)))
      else if is_p2sh_witness i.script_type
      then write_p2sh i.multisig i s
      else write_input (with_script [] i) s

  -- What follows an output that is written.
  abbrev pub next_5_output : Session W coin → Session W coin
  next_5_output s =
      if ltb s.idx1 (pred32 s.outputs_count)
      then send_req_5_output (record s { idx1 = s.idx1 + 1 })
      else if s.to.is_segwit
      then send_req_segwit_witness (record s { idx1 = 0 })
      else finish s

  abbrev pub write_output : Compiled → Session W coin → Session W coin
  write_output (compiled bin) s =
      let ((r, bytes), to) = tx_serialize_output s.to bin in
      next_5_output (serialize W coin bytes (record s { to = to }))
  write_output c s = fail process_error s

  -- STAGE_REQUEST_5_OUTPUT
  unfoldable pub stage_5_output : TxOutput → Session W coin → Session W coin
  stage_5_output o s = write_output (compile_output W coin o false false).1 s

  abbrev pub after_witness : Bool × Session W coin → Session W coin
  after_witness (ok, s) =
      let s1 = count_signature s in
      if not ok
      then s
      else if ltb s.idx1 (pred32 s.inputs_count)
      then send_req_segwit_witness (record s1 { idx1 = s.idx1 + 1 })
      else finish s1

  -- STAGE_REQUEST_SEGWIT_WITNESS
  unfoldable pub stage_segwit_witness : Input → Session W coin → Session W coin
  stage_segwit_witness i s = after_witness (signing_sign_segwit_input W coin i s)

  abbrev pub run_stage : Stage → Ack → Answers → Session W coin → Session W coin
  run_stage request_1_input tx answers s = stage_1_input W coin tx.input s
  run_stage request_2_prev_meta tx answers s = stage_2_prev_meta W coin tx s
  run_stage request_2_prev_input tx answers s = stage_2_prev_input W coin tx.input.tx s
  run_stage request_2_prev_output tx answers s = stage_2_prev_output W coin tx.bin_output s
  run_stage request_2_prev_extradata tx answers s = stage_2_prev_extradata W coin tx.extra_data s
  run_stage request_3_output tx answers s = stage_3_output W coin tx.output answers s
  run_stage request_4_input tx answers s = stage_4_input tx.input s
  run_stage request_4_output tx answers s = stage_4_output tx.output s
  run_stage request_segwit_input tx answers s = stage_segwit_input tx.input s
  run_stage request_5_output tx answers s = stage_5_output tx.output s
  run_stage request_segwit_witness tx answers s = stage_segwit_witness tx.input s

  -- The amount that a piece says an input spends: that of an input whose signature commits to it, or
  -- that of a previous output, if its index is the one that the input in question spends.
  abbrev pub stated_amount : Stage → ℕ → ℕ → Ack → ℕ
  stated_amount request_1_input index wanted tx =
      if is_segwit_input tx.input.script_type
        || (is_legacy_input tx.input.script_type && coin.force_bip143)
      then tx.input.amount
      else 0
  stated_amount request_2_prev_output index wanted tx =
      if index == wanted then tx.bin_output.amount else 0
  stated_amount stage index wanted tx = 0

  -- `signing_txack`
  unfoldable pub signing_txack : Ack → Answers → Session W coin → Session W coin
  signing_txack tx answers s =
      if not s.signing
      then record s { log = failed unexpected_message ∷ s.log }
      else run_stage s.stage tx answers (record s {
        resp = nothing_serialized;
        log = received (stated_amount s.stage s.idx2 s.input.tx.prev_index tx) ∷ s.log;
      })
