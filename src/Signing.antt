-- ===== src/Signing.antt =====
-- The streamed signing of a transaction, firmware/signing.c. The host sends the transaction piece by
-- piece and more than once, each time the piece that the device asks for (`TxAck`).
-- Here: what the host sends, what the device keeps, and what it shows, asks, signs and sends.
-- `Check` has the checks of the first phase, `Sign` the signatures, `Phase1` and `Phase2` the stages of
-- the handler `signing_txack`. The progress bar is left out.
pub mod Check
pub mod Sign
pub mod Phase1
pub mod Phase2
pub mod Safety
mod Tests
use safe_t_mcu.Prelude.{
  ℕ, ◌+◌, ◌-◌, ◌*◌, ◌%◌, ◌^◌, Bool, true, false, List, [], ◌∷◌, Option, none, some, ltb,
  if◌then◌else◌, Hasher,
}
use safe_t_mcu.Tx.{TxInput, TxOutputBin, TxStruct, tx_init}
use safe_t_mcu.Tx.Script.{Multisig}
use safe_t_mcu.Tx.Weight.{InputScriptType, spend_address, ser_length_size}
use safe_t_mcu.Tx.Address.{TxOutput}
use safe_t_mcu.Wallet.{NodePath, Wallet}

-- `TxInputType`; `tx` has the fields that are serialized.
pub record Input : Type 0 where
  pub address_n : List ℕ
  pub tx : TxInput
  pub script_type : InputScriptType
  pub multisig : Option (Multisig NodePath)
  pub has_amount : Bool
  pub amount : ℕ

-- All bytes zero.
abbrev pub zero_input : Input
zero_input = record {
  address_n = [];
  tx = record { prev_hash = []; prev_index = 0; script_sig = []; sequence = 0 };
  script_type = spend_address;
  multisig = none;
  has_amount = false;
  amount = 0;
}

-- `TransactionType`: the first input and output of a piece, or the facts of an earlier transaction.
pub record Ack : Type 0 where
  pub input : Input
  pub output : TxOutput
  pub bin_output : TxOutputBin
  pub version : ℕ
  pub lock_time : ℕ
  pub inputs_cnt : ℕ
  pub outputs_cnt : ℕ
  pub extra_data_len : ℕ
  pub preblock_hash : List ℕ
  pub extra_data : List ℕ

-- The user's answers, to the dialogues that a piece can lead to.
pub record Answers : Type 0 where
  pub output_ok : Bool
  pub fee_ok : Bool
  pub sign_ok : Bool

-- `signing_stage`
pub data Stage : Type 0 where
  request_1_input request_2_prev_meta request_2_prev_input request_2_prev_output : Stage
  request_2_prev_extradata request_3_output request_4_input request_4_output : Stage
  request_segwit_input request_5_output request_segwit_witness : Stage

-- `resp.serialized`: the index of a signature with its bytes, and a piece of the transaction.
pub record Serialized : Type 0 where
  pub signature : Option (ℕ × List ℕ)
  pub serialized_tx : Option (List ℕ)

abbrev pub nothing_serialized : Serialized
nothing_serialized = record { signature = none; serialized_tx = none }

-- `TxRequest`, as far as it asks: for an input or output of the transaction, or for something of the
-- transaction with some hash.
pub data Request : Type 0 where
  tx_input tx_output : ℕ → Request
  tx_meta : List ℕ → Request
  prev_input prev_output : ℕ → List ℕ → Request
  prev_extradata : ℕ → ℕ → List ℕ → Request
  tx_finished : Request

pub data Failure : Type 0 where
  data_error process_error not_enough_funds action_cancelled unexpected_message : Failure

-- What is seen outside: a piece that comes in, with the amount that it says an input spends; a request
-- with what is serialized; a failure; an output of some amount that the user is asked about, with the
-- answer, or that is not shown; the questions about a fee over the limit, and about an amount and the
-- fee, with the answers; a use of a private key, with the amount that the signature commits to, if it
-- does.
pub data Event : Type 0 where
  received : ℕ → Event
  requested : Request → Serialized → Event
  failed : Failure → Event
  output_asked : ℕ → Bool → Event
  output_hidden : ℕ → Event
  fee_asked : ℕ → Bool → Event
  sign_asked : ℕ → ℕ → Bool → Event
  signed : Option ℕ → Event

-- The module's variables; `hashers` is three fields. `log` has what was seen outside in this signing,
-- the last first.
pub record Signer (Digest : Type 0) : Type 0 where
  pub signing : Bool
  pub stage : Stage
  pub preblock_hash : List ℕ
  pub inputs_count : ℕ
  pub outputs_count : ℕ
  pub idx1 : ℕ
  pub idx2 : ℕ
  pub signatures : ℕ
  pub resp : Serialized
  pub input : Input
  pub to : TxStruct Digest
  pub tp : TxStruct Digest
  pub ti : TxStruct Digest
  pub hasher0 : Digest
  pub hasher1 : Digest
  pub hasher2 : Digest
  pub privkey : List ℕ
  pub pubkey : List ℕ
  pub hash_prevouts : List ℕ
  pub hash_sequence : List ℕ
  pub hash_outputs : List ℕ
  pub hash_check : List ℕ
  pub to_spend : ℕ
  pub authorized_amount : ℕ
  pub spending : ℕ
  pub change_spend : ℕ
  pub version : ℕ
  pub lock_time : ℕ
  pub next_nonsegwit_input : ℕ
  -- `multisig_fp`, once `multisig_fp_set`
  pub multisig_fp : Option (List ℕ)
  pub multisig_fp_mismatch : Bool
  pub in_address_n : List ℕ
  pub in_address_n_count : ℕ
  pub tx_weight : ℕ
  pub log : List Event

-- `SignTx`
pub record SignTx : Type 0 where
  pub inputs_count : ℕ
  pub outputs_count : ℕ
  pub version : ℕ
  pub lock_time : ℕ
  pub preblock_hash : List ℕ

-- `x - 1` on a `uint32_t`
abbrev pub pred32 : ℕ → ℕ
pred32 x = (x + 2 ^ 32 - 1) % 2 ^ 32

module _ {Digest : Type 0} where
  -- `fsm_sendFailure` and `signing_abort`
  abbrev pub fail : Failure → Signer Digest → Signer Digest
  fail f s = record s { signing = false; log = failed f ∷ s.log }

  -- The functions `send_req_...`: they set the stage and send `resp`.
  abbrev pub send_req : Stage → Request → Signer Digest → Signer Digest
  send_req stage r s = record s { stage = stage; log = requested r s.resp ∷ s.log }

  abbrev pub send_req_1_input : Signer Digest → Signer Digest
  send_req_1_input s = send_req request_1_input (tx_input s.idx1) s

  abbrev pub send_req_2_prev_meta : Signer Digest → Signer Digest
  send_req_2_prev_meta s = send_req request_2_prev_meta (tx_meta s.input.tx.prev_hash) s

  abbrev pub send_req_2_prev_input : Signer Digest → Signer Digest
  send_req_2_prev_input s = send_req request_2_prev_input (prev_input s.idx2 s.input.tx.prev_hash) s

  abbrev pub send_req_2_prev_output : Signer Digest → Signer Digest
  send_req_2_prev_output s =
      send_req request_2_prev_output (prev_output s.idx2 s.input.tx.prev_hash) s

  abbrev pub send_req_2_prev_extradata : ℕ → ℕ → Signer Digest → Signer Digest
  send_req_2_prev_extradata chunk_offset chunk_len s =
      send_req request_2_prev_extradata (prev_extradata chunk_offset chunk_len s.input.tx.prev_hash)
        s

  abbrev pub send_req_3_output : Signer Digest → Signer Digest
  send_req_3_output s = send_req request_3_output (tx_output s.idx1) s

  abbrev pub send_req_4_input : Signer Digest → Signer Digest
  send_req_4_input s = send_req request_4_input (tx_input s.idx2) s

  abbrev pub send_req_4_output : Signer Digest → Signer Digest
  send_req_4_output s = send_req request_4_output (tx_output s.idx2) s

  abbrev pub send_req_segwit_input : Signer Digest → Signer Digest
  send_req_segwit_input s = send_req request_segwit_input (tx_input s.idx1) s

  abbrev pub send_req_segwit_witness : Signer Digest → Signer Digest
  send_req_segwit_witness s = send_req request_segwit_witness (tx_input s.idx1) s

  abbrev pub send_req_5_output : Signer Digest → Signer Digest
  send_req_5_output s = send_req request_5_output (tx_output s.idx1) s

  -- `send_req_finished`, then `signing_abort`
  abbrev pub finish : Signer Digest → Signer Digest
  finish s = record s { signing = false; log = requested tx_finished s.resp ∷ s.log }
