-- ===== src/Signing/Phase1.antt =====
-- The first phase of `signing_txack` in firmware/signing.c: the inputs, the transactions that they
-- spend, and the outputs.
use safe_t_mcu.Prelude.{
  ℕ, ◌+◌, ◌-◌, ◌%◌, ◌^◌, Bool, true, false, not, ◌&&◌, List, Option, none, some, ltb, leb, ◌==◌,
  if◌then◌else◌, length,
}
use safe_t_mcu.Tx.{TxInput, TxOutputBin, ◌+32◌, tx_init}
use safe_t_mcu.Tx.Hash.{
  tx_serialize_header_hash, tx_serialize_input_hash, tx_serialize_output_hash,
  tx_serialize_extra_data_hash,
}
use safe_t_mcu.Tx.Script.{Multisig}
use safe_t_mcu.Tx.Weight.{
  InputScriptType, spend_p2sh_witness, tx_input_weight, tx_output_weight, Decoded, witness_program,
  key_hash, script_hash, unknown,
}
use safe_t_mcu.Tx.Address.{TxOutput}
use safe_t_mcu.Wallet.{NodePath, Coin, Wallet}
use safe_t_mcu.Signing.{
  Input, Ack, Answers, data_error, process_error, pred32, fail, send_req_2_prev_meta,
  send_req_2_prev_input, send_req_2_prev_output, send_req_2_prev_extradata,
}
use safe_t_mcu.Signing.Check.{
  Session, is_segwit_input, is_legacy_input, signing_check_input, phase1_request_next_input,
  signing_check_prevtx_hash, signing_check_output, phase1_request_next_output,
}

-- What the weight of an input depends on.
abbrev pub multisig_counts : Option (Multisig NodePath) → Option (ℕ × ℕ)
multisig_counts none = none
multisig_counts (some ms) = some (length ms.pubkeys, ms.m)

abbrev pub weigh_input : Input → ℕ
weigh_input i =
    tx_input_weight (record { script_type = i.script_type; multisig = multisig_counts i.multisig })

abbrev pub has_multisig : Option (Multisig NodePath) → Bool
has_multisig none = false
has_multisig (some ms) = true

abbrev pub is_p2sh_witness : InputScriptType → Bool
is_p2sh_witness spend_p2sh_witness = true
is_p2sh_witness type = false

-- MIN(1024, n)
abbrev pub chunk : ℕ → ℕ
chunk n = if ltb 1024 n then 1024 else n

module _ (W : Wallet) (coin : Coin) where
  -- An amount that is spent, and the amount that BIP143 signatures may commit to.
  abbrev pub add_amount : ℕ → Session W coin → Session W coin
  add_amount amount s = record s {
    to_spend = (s.to_spend + amount) % 2 ^ 64;
    authorized_amount = (s.authorized_amount + amount) % 2 ^ 64;
  }

  -- The branch of an input that is not segwit.
  abbrev pub legacy_input : Input → Session W coin → Session W coin
  legacy_input i s =
      let s1 : Session W coin = record s { input = i } in
      let first = if s.next_nonsegwit_input == 0xffffffff then s.idx1 else s.next_nonsegwit_input in
      if not coin.force_bip143
      then send_req_2_prev_meta (record s1 { next_nonsegwit_input = first })
      else if not i.has_amount
      then fail data_error s1
      else if ltb ((s.to_spend + i.amount) % 2 ^ 64) s.to_spend
      then fail data_error s1
      else phase1_request_next_input W coin (add_amount i.amount s1)

  -- The branch of a segwit input.
  abbrev pub segwit_input : Input → Session W coin → Session W coin
  segwit_input i s =
      let overhead = if s.to.is_segwit then 0 else 2 +32 s.to.inputs_len in
      let s1 : Session W coin = record s {
        tx_weight = s.tx_weight +32 overhead;
        to = record (s.to) { is_segwit = true };
      } in
      if not coin.has_segwit
      then fail data_error s
      else if not i.has_amount
      then fail data_error s
      else if ltb ((s.to_spend + i.amount) % 2 ^ 64) s.to_spend
      then fail data_error s
      else phase1_request_next_input W coin (add_amount i.amount s1)

  -- STAGE_REQUEST_1_INPUT. A failure of `signing_check_input` does not end it.
  unfoldable pub stage_1_input : Input → Session W coin → Session W coin
  stage_1_input i s =
      let checked = signing_check_input W coin i s in
      let s1 : Session W coin = record checked {
        tx_weight = checked.tx_weight +32 weigh_input i;
      } in
      if is_legacy_input i.script_type
      then legacy_input i s1
      else if is_segwit_input i.script_type
      then segwit_input i s1
      else fail data_error s1

  -- STAGE_REQUEST_2_PREV_META
  unfoldable pub stage_2_prev_meta : Ack → Session W coin → Session W coin
  stage_2_prev_meta tx s =
      let tp =
        tx_init W.hasher.init tx.preblock_hash tx.inputs_cnt tx.outputs_cnt tx.version tx.lock_time
          tx.extra_data_len W.hasher_sign s.tp in
      let header = (tx_serialize_header_hash W.hasher tp).0 in
      if leb tx.outputs_cnt s.input.tx.prev_index
      then fail data_error s
      else if ltb (tx.inputs_cnt +32 tx.outputs_cnt) tx.inputs_cnt
      then fail data_error s
      else if ltb 0 tp.inputs_len
      then send_req_2_prev_input (record s { tp = tp; idx2 = 0 })
      else send_req_2_prev_output (record s { tp = record tp { hasher = header }; idx2 = 0 })

  -- STAGE_REQUEST_2_PREV_INPUT
  unfoldable pub stage_2_prev_input : TxInput → Session W coin → Session W coin
  stage_2_prev_input i s =
      let (r, tp) = tx_serialize_input_hash W.hasher s.tp i in
      if r == 0
      then fail process_error (record s { tp = tp })
      else if ltb s.idx2 (pred32 tp.inputs_len)
      then send_req_2_prev_input (record s { tp = tp; idx2 = s.idx2 + 1 })
      else send_req_2_prev_output (record s { tp = tp; idx2 = 0 })

  -- What follows an output of an earlier transaction.
  abbrev pub after_prev_output : Session W coin → Session W coin
  after_prev_output s =
      if ltb s.idx2 (pred32 s.tp.outputs_len)
      then send_req_2_prev_output (record s { idx2 = s.idx2 + 1 })
      else if ltb 0 s.tp.extra_data_len
      then send_req_2_prev_extradata 0 (chunk s.tp.extra_data_len) s
      else signing_check_prevtx_hash W coin s

  -- STAGE_REQUEST_2_PREV_OUTPUT
  unfoldable pub stage_2_prev_output : TxOutputBin → Session W coin → Session W coin
  stage_2_prev_output o s =
      let (r, tp) = tx_serialize_output_hash W.hasher s.tp o in
      let s1 : Session W coin = record s { tp = tp } in
      if r == 0
      then fail process_error s1
      else if not (s.idx2 == s.input.tx.prev_index)
      then after_prev_output s1
      else if ltb ((s.to_spend + o.amount) % 2 ^ 64) s.to_spend
      then fail data_error s1
      else after_prev_output (record s1 { to_spend = (s.to_spend + o.amount) % 2 ^ 64 })

  -- STAGE_REQUEST_2_PREV_EXTRADATA
  unfoldable pub stage_2_prev_extradata : List ℕ → Session W coin → Session W coin
  stage_2_prev_extradata bytes s =
      let (r, tp) = tx_serialize_extra_data_hash W.hasher s.tp bytes in
      let s1 : Session W coin = record s { tp = tp } in
      if r == 0
      then fail process_error s1
      else if ltb tp.extra_data_received tp.extra_data_len
      then send_req_2_prev_extradata tp.extra_data_received
          (chunk (tp.extra_data_len - tp.extra_data_received)) s1
      else signing_check_prevtx_hash W coin s1

  -- How the address of an output decodes, for its weight.
  abbrev pub decoded_address : TxOutput → Decoded
  decoded_address o =
      let raw = W.base58_decode_check o.address in
      let by_prefix : Decoded =
        if coin.has_address_type && W.address_check_prefix raw coin.address_type
        then key_hash
        else if coin.has_address_type_p2sh && W.address_check_prefix raw coin.address_type_p2sh
        then script_hash
        else unknown in
      elim coin.bech32_prefix [
        | none ↦ by_prefix
        | some prefix ↦ elim (W.segwit_addr_decode prefix o.address) [
          | none ↦ by_prefix
          | some (witver, program) ↦ witness_program (length program)
        ]
      ]

  abbrev pub weigh_output : TxOutput → ℕ
  weigh_output o = tx_output_weight (decoded_address o) (record {
    script_type = o.script_type;
    op_return_data = o.op_return_data;
    address_n_count = length o.address_n;
    has_multisig = has_multisig o.multisig;
  })

  -- STAGE_REQUEST_3_OUTPUT
  unfoldable pub stage_3_output : TxOutput → Answers → Session W coin → Session W coin
  stage_3_output o answers s =
      let (ok, s1) = signing_check_output W coin o answers s in
      if ok
      then phase1_request_next_output W coin answers
          (record s1 { tx_weight = s1.tx_weight +32 weigh_output o })
      else s1
