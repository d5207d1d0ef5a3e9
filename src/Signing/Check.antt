-- ===== src/Signing/Check.antt =====
-- The checks of the first phase of firmware/signing.c: the inputs, which say where change may go,
-- the outputs, which the user confirms, and the fee.
use safe_t_mcu.Prelude.{
  ℕ, ◌+◌, ◌-◌, ◌*◌, ◌/◌, ◌%◌, ◌^◌, Bool, true, false, not, ◌&&◌, List, [], ◌∷◌, ◌++◌, drop, Option,
  none, some, ltb, leb, ◌==◌, if◌then◌else◌, length, take, get_or, text_eq, le_bytes,
}
use safe_t_mcu.Tx.{tx_init}
use safe_t_mcu.Tx.Hash.{tx_prevout_hash, tx_sequence_hash, tx_output_hash, tx_hash_final}
use safe_t_mcu.Tx.Script.{Multisig}
use safe_t_mcu.Tx.Weight.{
  InputScriptType, spend_address, spend_multisig, external, spend_witness, spend_p2sh_witness,
  OutputScriptType, pay_to_witness, pay_to_p2sh_witness, ser_length_size,
}
use safe_t_mcu.Tx.Address.{TxOutput, Compiled, user_aborted, not_compiled, compiled, compile_output}
use safe_t_mcu.Wallet.{NodePath, Coin, Wallet}
use safe_t_mcu.Wallet.Multisig.{crypto_multisig_fingerprint}
use safe_t_mcu.Signing.{
  Input, zero_input, Answers, Signer, SignTx, nothing_serialized, data_error, process_error,
  not_enough_funds, action_cancelled, Event, output_asked, output_hidden, fee_asked, sign_asked,
  pred32, fail, send_req_1_input, send_req_3_output, send_req_4_input, send_req_segwit_input,
}

-- BIP32_NOCHANGEALLOWED and BIP32_WALLET_DEPTH
abbrev pub no_change_allowed : ℕ
no_change_allowed = 1

abbrev pub wallet_depth : ℕ
wallet_depth = 2

-- The path up to the account.
abbrev pub account : List ℕ → List ℕ
account address_n = take (length address_n - wallet_depth) address_n

module _ {Digest : Type 0} where
  -- `extract_input_bip32_path`
  unfoldable pub extract_input_bip32_path : List ℕ → Signer Digest → Signer Digest
  extract_input_bip32_path address_n s =
      let count = length address_n in
      if s.in_address_n_count == no_change_allowed
      then s
      else if ltb count wallet_depth
      then record s { in_address_n_count = no_change_allowed }
      else if s.in_address_n_count == 0
      then record s { in_address_n_count = count; in_address_n = account address_n }
      else if not (s.in_address_n_count == count)
      then record s { in_address_n_count = no_change_allowed }
      else if not (text_eq s.in_address_n (account address_n))
      then record s { in_address_n_count = no_change_allowed }
      else s

  -- `check_change_bip32_path`; BIP32_CHANGE_CHAIN is 1 and BIP32_MAX_LAST_ELEMENT a million.
  unfoldable pub check_change_bip32_path : List ℕ → Signer Digest → Bool
  check_change_bip32_path address_n s =
      let count = length address_n in
      leb wallet_depth count
      && (count == s.in_address_n_count
          && (text_eq s.in_address_n (account address_n)
              && (leb (get_or address_n (count - 2) 0) 1
                  && leb (get_or address_n (count - 1) 0) 1000000)))

abbrev pub is_segwit_input : InputScriptType → Bool
is_segwit_input spend_witness = true
is_segwit_input spend_p2sh_witness = true
is_segwit_input type = false

abbrev pub is_legacy_input : InputScriptType → Bool
is_legacy_input spend_address = true
is_legacy_input spend_multisig = true
is_legacy_input type = false

abbrev pub is_segwit_output : OutputScriptType → Bool
is_segwit_output pay_to_witness = true
is_segwit_output pay_to_p2sh_witness = true
is_segwit_output type = false

-- The four bytes of a `script_type` in memory, by the numbers of the protocol.
abbrev pub type_bytes : InputScriptType → List ℕ
type_bytes spend_address = le_bytes 4 0
type_bytes spend_multisig = le_bytes 4 1
type_bytes external = le_bytes 4 2
type_bytes spend_witness = le_bytes 4 3
type_bytes spend_p2sh_witness = le_bytes 4 4

abbrev pub is_multisig : Option (Multisig NodePath) → Bool
is_multisig none = false
is_multisig (some ms) = true

module _ (W : Wallet) (coin : Coin) where
  abbrev pub Session : Type 0
  Session = Signer W.hasher.State

  -- `signing_init`; bytes of the pre-block hash that the message does not bring stay.
  unfoldable pub signing_init : SignTx → Session → Session
  signing_init msg s =
      let preblock_hash =
        if msg.version == 12
        then msg.preblock_hash ++ drop (length msg.preblock_hash) s.preblock_hash
        else s.preblock_hash in
      let to =
        tx_init W.hasher.init preblock_hash msg.inputs_count msg.outputs_count msg.version
          msg.lock_time 0 W.hasher_sign s.to in
      let start = W.hasher.init W.hasher_sign in
      send_req_1_input (record s {
        signing = true;
        preblock_hash = preblock_hash;
        inputs_count = msg.inputs_count;
        outputs_count = msg.outputs_count;
        version = msg.version;
        lock_time = msg.lock_time;
        tx_weight =
            4 * (4 + 4 + ser_length_size msg.inputs_count + ser_length_size msg.outputs_count);
        signatures = 0;
        idx1 = 0;
        to_spend = 0;
        spending = 0;
        change_spend = 0;
        authorized_amount = 0;
        input = zero_input;
        resp = nothing_serialized;
        in_address_n_count = 0;
        multisig_fp = none;
        multisig_fp_mismatch = false;
        next_nonsegwit_input = 0xffffffff;
        to = to;
        hasher0 = start;
        hasher1 = start;
        hasher2 = start;
        log = [];
      })

  -- The fingerprint of an input's multisig keys against that of the inputs before.
  abbrev pub compare_fp : Option (List ℕ) → List ℕ → Session → Session
  compare_fp none h s = record s { multisig_fp = some h }
  compare_fp (some fp) h s = if text_eq fp h then s else record s { multisig_fp_mismatch = true }

  abbrev pub check_input_rest : Input → Session → Session
  check_input_rest i s =
      let s1 = extract_input_bip32_path i.address_n s in
      record s1 {
        hasher0 = (tx_prevout_hash W.hasher s1.hasher0 i.tx).0;
        hasher1 = (tx_sequence_hash W.hasher s1.hasher1 i.tx).0;
        hasher2 =
            W.hasher.feed (tx_prevout_hash W.hasher s1.hasher2 i.tx).0 (type_bytes i.script_type);
      }

  abbrev pub check_multisig_input : Input → Option (Multisig NodePath) → Session → Session
  check_multisig_input i none s = check_input_rest i (record s { multisig_fp_mismatch = true })
  check_multisig_input i (some ms) s =
      if s.multisig_fp_mismatch
      then check_input_rest i (record s { multisig_fp_mismatch = true })
      else elim (crypto_multisig_fingerprint W.sha256 ms) [
        | none ↦ fail process_error s
        | some h ↦ check_input_rest i (compare_fp s.multisig_fp h s)
      ]

  -- `signing_check_input`; `signing_txack` does not look at its result.
  unfoldable pub signing_check_input : Input → Session → Session
  signing_check_input i s = check_multisig_input i i.multisig s

  -- `phase1_request_next_input`
  unfoldable pub phase1_request_next_input : Session → Session
  phase1_request_next_input s =
      if ltb s.idx1 (pred32 s.inputs_count)
      then send_req_1_input (record s { idx1 = s.idx1 + 1 })
      else send_req_3_output (record s {
        hash_prevouts = W.hasher.digest s.hasher0;
        hash_sequence = W.hasher.digest s.hasher1;
        hash_check = W.hasher.digest s.hasher2;
        hasher0 = W.hasher.init W.hasher_sign;
        idx1 = 0;
      })

  -- `phase2_request_next_input`
  unfoldable pub phase2_request_next_input : Session → Session
  phase2_request_next_input s =
      if s.idx1 == s.next_nonsegwit_input
      then send_req_4_input (record s { idx2 = 0 })
      else send_req_segwit_input s

  -- `signing_check_prevtx_hash`
  unfoldable pub signing_check_prevtx_hash : Session → Session
  signing_check_prevtx_hash s =
      if text_eq (take 32 (tx_hash_final W.hasher s.tp true)) (take 32 s.input.tx.prev_hash)
      then phase1_request_next_input s
      else fail data_error s

  -- Whether the keys of an output are those of the inputs.
  abbrev pub same_fp : Session → Option (List ℕ) → Option (List ℕ) → Bool
  same_fp s (some fp) (some h) = not s.multisig_fp_mismatch && text_eq fp h
  same_fp s fp h = false

  abbrev pub multisig_change : Session → TxOutput → Option (Multisig NodePath) → Bool
  multisig_change s o none = check_change_bip32_path o.address_n s
  multisig_change s o (some ms) =
      same_fp s s.multisig_fp (crypto_multisig_fingerprint W.sha256 ms)
      && check_change_bip32_path o.address_n s

  -- Whether an output to a key of the device counts as change.
  abbrev pub is_change : Session → TxOutput → Bool
  is_change s o =
      ltb 0 (length o.address_n)
      && (multisig_change s o o.multisig
          && not (is_segwit_output o.script_type && ltb s.authorized_amount o.amount))

  -- An output that the user was not asked about is hidden.
  abbrev pub noted : Option Bool → ℕ → Event
  noted none amount = output_hidden amount
  noted (some ok) amount = output_asked amount ok

  abbrev pub add_output : ℕ → Option Bool × Compiled → Session → Bool × Session
  add_output amount (asked, user_aborted) s =
      (false, fail action_cancelled (record s { log = noted asked amount ∷ s.log }))
  add_output amount (asked, not_compiled) s = (false, fail process_error s)
  add_output amount (asked, compiled bin) s = (
    true,
    record s {
      hasher0 = (tx_output_hash W.hasher s.hasher0 bin).0;
      log = noted asked amount ∷ s.log;
    },
  )

  -- The amount is added to what is spent, and the output is compiled.
  abbrev pub count_output : Bool → TxOutput → Answers → Session → Bool × Session
  count_output hide o answers s =
      if ltb ((s.spending + o.amount) % 2 ^ 64) s.spending
      then (false, fail data_error s)
      else add_output o.amount (compile_output W coin o (not hide) answers.output_ok)
          (record s { spending = (s.spending + o.amount) % 2 ^ 64 })

  abbrev pub set_change : Bool → ℕ → Session → Session
  set_change true amount s = record s { change_spend = amount }
  set_change false amount s = s

  -- `signing_check_output`. Only the first change is not shown.
  unfoldable pub signing_check_output : TxOutput → Answers → Session → Bool × Session
  signing_check_output o answers s =
      let hide = is_change s o && s.change_spend == 0 in
      if ltb 0 (length o.address_n) && o.has_address
      then (false, fail data_error s)
      else count_output hide o answers (set_change hide o.amount s)

  -- The last question, about the amount and the fee.
  abbrev pub ask_sign : ℕ → Answers → Session → Bool × Session
  ask_sign fee answers s =
      let amount = (s.to_spend + 2 ^ 64 - s.change_spend) % 2 ^ 64 in
      let s1 : Session = record s { log = sign_asked amount fee answers.sign_ok ∷ s.log } in
      if not answers.sign_ok then (false, fail action_cancelled s1) else (true, s1)

  abbrev pub ask_fee : ℕ → Answers → Session → Bool × Session
  ask_fee fee answers s =
      let s1 : Session = record s { log = fee_asked fee answers.fee_ok ∷ s.log } in
      if not answers.fee_ok then (false, fail action_cancelled s1) else ask_sign fee answers s1

  -- `signing_check_fee`
  unfoldable pub signing_check_fee : Answers → Session → Bool × Session
  signing_check_fee answers s =
      let fee = s.to_spend - s.spending in
      if ltb s.to_spend s.spending
      then (false, fail not_enough_funds s)
      else if ltb (s.tx_weight * coin.maxfee_kb % 2 ^ 64 / 4000) fee
      then ask_fee fee answers s
      else ask_sign fee answers s

  -- `phase1_request_next_output`
  unfoldable pub phase1_request_next_output : Answers → Session → Session
  phase1_request_next_output answers s =
      let s1 : Session = record s { hash_outputs = W.hasher.digest s.hasher0 } in
      let (ok, s2) = signing_check_fee answers s1 in
      if ltb s.idx1 (pred32 s.outputs_count)
      then send_req_3_output (record s { idx1 = s.idx1 + 1 })
      else if ok
      then phase2_request_next_input (record s2 { idx1 = 0 })
      else s2
