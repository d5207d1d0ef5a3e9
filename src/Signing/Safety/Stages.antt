-- ===== src/Signing/Safety/Stages.antt =====
-- The stages of the later phases keep the invariant, and that the user confirmed.
use safe_t_mcu.Prelude.{
  ℕ, ◌+◌, ◌≡◌, Bool, true, false, not, ◌&&◌, List, [], ◌∷◌, Option, none, some, ltb, ◌==◌,
  if◌then◌else◌, text_eq, take,
}
use safe_t_mcu.Tx.{tx_serialize_input, tx_serialize_output}
use safe_t_mcu.Tx.Hash.{tx_output_hash, tx_serialize_input_hash, tx_serialize_output_hash}
use safe_t_mcu.Tx.Script.{Multisig, compile_script_multisig_hash}
use safe_t_mcu.Tx.Address.{TxOutput, Compiled, user_aborted, not_compiled, compiled, compile_output}
use safe_t_mcu.Wallet.{NodePath, Coin, Wallet}
use safe_t_mcu.Signing.{pred32, Input, process_error, data_error}
use safe_t_mcu.Signing.Check.{Session, is_legacy_input}
use safe_t_mcu.Signing.Sign.{
  Keys, with_script, compile_input_script_sig, serialize, signing_sign_input, authorize,
  sign_authorized, signing_sign_segwit_input,
}
use safe_t_mcu.Signing.Phase1.{is_p2sh_witness}
use safe_t_mcu.Signing.Phase2.{
  begin_4, hash_input, next_4_input, serialize_4_input, signed_4_input, other_4_input,
  stage_4_input, next_phase2_input, count_signature, after_sign_input, next_4_output,
  serialize_4_output, stage_4_output, write_input, write_signed, p2wpkh_script, write_p2wpkh,
  write_p2wsh, write_p2sh, stage_segwit_input, next_5_output, write_output, stage_5_output,
  after_witness, stage_segwit_witness,
}
use safe_t_mcu.Signing.Safety.{Agreed, requested-Core, finished-Core}
use safe_t_mcu.Signing.Safety.Outputs.{phase2_request_next_input-Agreed}
use safe_t_mcu.Signing.Safety.Phase2.{
  fail-Agreed, guard, either, signing_sign_input-Agreed, authorize-Payable, sign_authorized-Agreed,
  signing_sign_segwit_input-Agreed,
}

module _ (W : Wallet) (coin : Coin) where
  next_4_input-Agreed : (s : Session W coin) → Agreed s → Agreed (next_4_input W coin s)
  next_4_input-Agreed s p =
      either (ltb s.idx2 (pred32 s.inputs_count))
        (record { order = p.order; core = requested-Core _ _ p.core })
        (guard data_error (not (text_eq (W.hasher.digest s.hasher0) s.hash_check)) p
          (record { order = p.order; core = requested-Core _ _ p.core }))

  serialize_4_input-Agreed :
      (i : Input) (s : Session W coin) → Agreed s → Agreed (serialize_4_input W coin i s)
  serialize_4_input-Agreed i s p =
      let r = tx_serialize_input_hash W.hasher s.ti i.tx in
      let s1 : Session W coin = record s { ti = r.1 } in
      let p1 : Agreed s1 = record { order = p.order; core = p.core } in
      guard process_error (r.0 == 0) p1 (next_4_input-Agreed s1 p1)

  signed_4_input-Agreed :
      (i : Option (Input × Keys)) (s : Session W coin)
      → Agreed s
      → Agreed (signed_4_input W coin i s)
  signed_4_input-Agreed none s p = fail-Agreed process_error s p
  signed_4_input-Agreed (some (i, keys)) s p =
      serialize_4_input-Agreed i (record s { input = i; privkey = keys.0; pubkey = keys.1 })
        (record { order = p.order; core = p.core })

  other_4_input-Agreed :
      (i : Input) (s : Session W coin) → Agreed s → Agreed (other_4_input W coin i s)
  other_4_input-Agreed i s p =
      let next =
        s.next_nonsegwit_input == s.idx1 && (ltb s.idx1 s.idx2 && is_legacy_input i.script_type) in
      serialize_4_input-Agreed (with_script [] i)
        (record s { next_nonsegwit_input = if next then s.idx2 else s.next_nonsegwit_input })
        (record { order = p.order; core = p.core })

  begin_4-Agreed : (s : Session W coin) → Agreed s → Agreed (begin_4 W coin s)
  begin_4-Agreed s p = either (s.idx2 == 0) (record { order = p.order; core = p.core }) p

  pub stage_4_input-Agreed :
      (i : Input) (s : Session W coin) → Agreed s → Agreed (stage_4_input W coin i s)
  unfolding stage_4_input
  stage_4_input-Agreed i s p =
      let q = begin_4-Agreed s p in
      let s1 = hash_input W coin i (begin_4 W coin s) in
      let p1 : Agreed s1 = record { order = q.order; core = q.core } in
      either (s1.idx2 == s1.idx1)
        (signed_4_input-Agreed (compile_input_script_sig W coin i s1) s1 p1)
        (other_4_input-Agreed i s1 p1)

  next_phase2_input-Agreed : (s : Session W coin) → Agreed s → Agreed (next_phase2_input W coin s)
  next_phase2_input-Agreed s p =
      either (ltb s.idx1 (pred32 s.inputs_count))
        (phase2_request_next_input-Agreed W coin (record s { idx1 = s.idx1 + 1 })
          (record { order = p.order; core = p.core }))
        (record { order = p.order; core = requested-Core _ _ p.core })

  after_sign_input-Agreed :
      (r : Bool × Session W coin) → Agreed r.1 → Agreed (after_sign_input W coin r)
  after_sign_input-Agreed (ok, s) p =
      either ok
        (next_phase2_input-Agreed (count_signature W coin s)
          (record { order = p.order; core = p.core }))
        p

  next_4_output-Agreed :
      (s : Session W coin) → s.signing ≡ true → Agreed s → Agreed (next_4_output W coin s)
  next_4_output-Agreed s on p =
      either (ltb s.idx2 (pred32 s.outputs_count))
        (record { order = p.order; core = requested-Core _ _ p.core })
        (after_sign_input-Agreed (signing_sign_input W coin s)
          (signing_sign_input-Agreed W coin s on p))

  serialize_4_output-Agreed :
      (c : Compiled) (s : Session W coin)
      → s.signing ≡ true
      → Agreed s
      → Agreed (serialize_4_output W coin c s)
  serialize_4_output-Agreed user_aborted s on p = fail-Agreed process_error s p
  serialize_4_output-Agreed not_compiled s on p = fail-Agreed process_error s p
  serialize_4_output-Agreed (compiled bin) s on p =
      let r = tx_serialize_output_hash W.hasher s.ti bin in
      let s1 : Session W coin = record s {
        hasher0 = (tx_output_hash W.hasher s.hasher0 bin).0;
        ti = r.1;
      } in
      let p1 : Agreed s1 = record { order = p.order; core = p.core } in
      guard process_error (r.0 == 0) p1 (next_4_output-Agreed s1 on p1)

  pub stage_4_output-Agreed :
      (o : TxOutput) (s : Session W coin)
      → s.signing ≡ true
      → Agreed s
      → Agreed (stage_4_output W coin o s)
  unfolding stage_4_output
  stage_4_output-Agreed o s on p =
      serialize_4_output-Agreed (compile_output W coin o false false).1 s on p

  write_input-Agreed : (i : Input) (s : Session W coin) → Agreed s → Agreed (write_input W coin i s)
  write_input-Agreed i s p =
      let r = tx_serialize_input s.to i.tx in
      next_phase2_input-Agreed (serialize W coin r.0.1 (record s { to = r.1 }))
        (record { order = p.order; core = p.core })

  write_signed-Agreed :
      (r : Option Input × Session W coin) → Agreed r.1 → Agreed (write_signed W coin r)
  write_signed-Agreed (none, s) p = p
  write_signed-Agreed (some i, s) p =
      write_input-Agreed i (count_signature W coin s) (record { order = p.order; core = p.core })

  write_p2wpkh-Agreed :
      (r : Option (Input × Keys)) (s : Session W coin) → Agreed s → Agreed (write_p2wpkh W coin r s)
  write_p2wpkh-Agreed none s p = fail-Agreed process_error s p
  write_p2wpkh-Agreed (some (i, keys)) s p =
      write_input-Agreed (with_script (p2wpkh_script W coin i.tx.script_sig) i) s p

  write_p2wsh-Agreed :
      (d : Option (List ℕ)) (i : Input) (s : Session W coin)
      → Agreed s
      → Agreed (write_p2wsh W coin d i s)
  write_p2wsh-Agreed none i s p = fail-Agreed process_error s p
  write_p2wsh-Agreed (some digest) i s p =
      write_input-Agreed (with_script (0x22 ∷ 0x00 ∷ 0x20 ∷ take 32 digest) i) s p

  write_p2sh-Agreed :
      (ms : Option (Multisig NodePath)) (i : Input) (s : Session W coin)
      → Agreed s
      → Agreed (write_p2sh W coin ms i s)
  write_p2sh-Agreed none i s p = write_p2wpkh-Agreed (compile_input_script_sig W coin i s) s p
  write_p2sh-Agreed (some ms) i s p =
      write_p2wsh-Agreed (compile_script_multisig_hash W.path_to_pubkey W.hasher W.hasher_pubkey ms)
        i s p

  pub stage_segwit_input-Agreed :
      (i : Input) (s : Session W coin)
      → s.signing ≡ true
      → Agreed s
      → Agreed (stage_segwit_input W coin i s)
  unfolding stage_segwit_input
  stage_segwit_input-Agreed i s on p =
      let r = authorize W coin (compile_input_script_sig W coin i s) s in
      either (is_legacy_input i.script_type)
        (guard data_error (not coin.force_bip143) p (
          write_signed-Agreed (sign_authorized W coin r)
            (sign_authorized-Agreed W coin r (authorize-Payable W coin _ s on p))))
        (either (is_p2sh_witness i.script_type) (write_p2sh-Agreed i.multisig i s p)
          (write_input-Agreed (with_script [] i) s p))

  next_5_output-Agreed : (s : Session W coin) → Agreed s → Agreed (next_5_output W coin s)
  next_5_output-Agreed s p =
      either (ltb s.idx1 (pred32 s.outputs_count))
        (record { order = p.order; core = requested-Core _ _ p.core })
        (either s.to.is_segwit (record { order = p.order; core = requested-Core _ _ p.core })
          (record { order = p.order; core = finished-Core _ _ p.core }))

  write_output-Agreed :
      (c : Compiled) (s : Session W coin) → Agreed s → Agreed (write_output W coin c s)
  write_output-Agreed user_aborted s p = fail-Agreed process_error s p
  write_output-Agreed not_compiled s p = fail-Agreed process_error s p
  write_output-Agreed (compiled bin) s p =
      let r = tx_serialize_output s.to bin in
      next_5_output-Agreed (serialize W coin r.0.1 (record s { to = r.1 }))
        (record { order = p.order; core = p.core })

  pub stage_5_output-Agreed :
      (o : TxOutput) (s : Session W coin) → Agreed s → Agreed (stage_5_output W coin o s)
  unfolding stage_5_output
  stage_5_output-Agreed o s p = write_output-Agreed (compile_output W coin o false false).1 s p

  after_witness-Agreed : (r : Bool × Session W coin) → Agreed r.1 → Agreed (after_witness W coin r)
  after_witness-Agreed (ok, s) p = either (not ok) p (
      either (ltb s.idx1 (pred32 s.inputs_count))
        (record { order = p.order; core = requested-Core _ _ p.core })
        (record { order = p.order; core = finished-Core _ _ p.core }))

  pub stage_segwit_witness-Agreed :
      (i : Input) (s : Session W coin)
      → s.signing ≡ true
      → Agreed s
      → Agreed (stage_segwit_witness W coin i s)
  unfolding stage_segwit_witness
  stage_segwit_witness-Agreed i s on p =
      after_witness-Agreed (signing_sign_segwit_input W coin i s)
        (signing_sign_segwit_input-Agreed W coin i s on p)
