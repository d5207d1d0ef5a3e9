-- ===== src/Signing/Tests.antt =====
-- A short signing of a transaction with one input and one output.
use safe_t_mcu.Prelude.{
  ℕ, ◌^◌, ◌≤◌, ◌<◌, ◌≡◌, refl, arith, true, false, List, [], ◌∷◌, none, some, All, list_hasher,
  replicate, take,
}
use safe_t_mcu.Tx.{TxStruct, tx_serialize_output, tx_serialize_input, tx_init}
use safe_t_mcu.Tx.Script.{compile_script_sig}
use safe_t_mcu.Tx.Weight.{
  spend_address, pay_to_address, tx_input_weight, tx_input_script_size, tx_output_weight,
}
use safe_t_mcu.Tx.Address.{TxOutput, compile_output}
use safe_t_mcu.Wallet.{Coin, Wallet}
use safe_t_mcu.Signing.{
  Input, zero_input, Ack, Answers, SignTx, request_1_input, nothing_serialized,
}
use safe_t_mcu.Signing.Check.{
  Session, signing_init, signing_check_input, extract_input_bip32_path, phase1_request_next_input,
  signing_check_output, phase1_request_next_output, signing_check_fee, phase2_request_next_input,
}
use safe_t_mcu.Signing.Sign.{
  compile_input_script_sig, authorize, signing_sign_hash, signing_hash_bip143,
}
use safe_t_mcu.Signing.Phase1.{stage_1_input, stage_3_output}
use safe_t_mcu.Signing.Phase2.{signing_txack, stage_segwit_input, stage_5_output}
use safe_t_mcu.Signing.Safety.{
  received_total, SignedAfter, StopsAtFailure, ShowsOutputs, signed_total,
}
use safe_t_mcu.Signing.Safety.Run.{
  Fits, sign, sign-SignedAfter, sign-ShowsOutputs, signed_total_le, sign-StopsAtFailure,
}

abbrev wallet : Wallet
wallet = record {
  hasher = list_hasher;
  hasher_sign = 0;
  hasher_pubkey = 1;
  derive = λ address_n. some (1 ∷ address_n, 2 ∷ address_n);
  path_to_pubkey = λ p. some p.node.public_key;
  sign_digest = λ key digest. some (0x30 ∷ key);
  sha256 = take 32;
  ripemd160 = take 20;
  hasher_raw = take 32;
  ecdsa_get_pubkeyhash = λ key. replicate 20 7;
  ecdsa_get_address = λ key type. type ∷ key;
  ecdsa_get_address_segwit_p2sh = λ key type. type ∷ key;
  address_prefix_bytes = λ type. type ∷ [];
  address_check_prefix = λ raw type. true;
  base58_encode_check = λ raw. some raw;
  base58_decode_check = λ address. address;
  segwit_addr_encode = λ prefix version program. some program;
  segwit_addr_decode = λ prefix address. none;
  known_address_type = λ type. true;
}

-- A coin whose signatures all commit to the amount.
abbrev coin : Coin
coin = record {
  has_address_type = true;
  address_type = 0;
  has_address_type_p2sh = true;
  address_type_p2sh = 5;
  maxfee_kb = 2000000;
  has_segwit = false;
  has_forkid = true;
  forkid = 0;
  force_bip143 = true;
  bech32_prefix = none;
}

abbrev path : List ℕ
path = 44 ∷ 0 ∷ 0 ∷ 0 ∷ 1 ∷ []

abbrev input : Input
input = record {
  address_n = path;
  tx = record {
    prev_hash = replicate 32 9;
    prev_index = 0;
    script_sig = [];
    sequence = 0xffffffff;
  };
  script_type = spend_address;
  multisig = none;
  has_amount = true;
  amount = 5000;
}

abbrev output : TxOutput
output = record {
  has_address = true;
  address = 0 ∷ replicate 20 8;
  address_n = [];
  amount = 4000;
  script_type = pay_to_address;
  multisig = none;
  op_return_data = [];
}

abbrev piece : Input → Ack
piece i = record {
  input = i;
  output = output;
  bin_output = record { amount = 4000; script_pubkey = [] };
  version = 1;
  lock_time = 0;
  inputs_cnt = 1;
  outputs_cnt = 1;
  extra_data_len = 0;
  preblock_hash = [];
  extra_data = [];
}

abbrev yes_to_all : Answers
yes_to_all = record { output_ok = true; fee_ok = true; sign_ok = true }

abbrev message : SignTx
message = record {
  inputs_count = 1;
  outputs_count = 1;
  version = 1;
  lock_time = 0;
  preblock_hash = [];
}

-- The input, the output, the input again to be signed, the output again.
abbrev pieces : List (Ack × Answers)
pieces =
    (piece input, yes_to_all)
    ∷ (piece input, yes_to_all)
    ∷ (piece input, yes_to_all)
    ∷ (piece input, yes_to_all)
    ∷ []

abbrev blank_tx : TxStruct (List ℕ)
blank_tx = record {
  inputs_len = 0;
  outputs_len = 0;
  version = 0;
  lock_time = 0;
  is_segwit = false;
  have_inputs = 0;
  have_outputs = 0;
  extra_data_len = 0;
  extra_data_received = 0;
  size = 0;
  hasher = [];
  preblock_hash = [];
}

abbrev idle : Session wallet coin
idle = record {
  signing = false;
  stage = request_1_input;
  preblock_hash = [];
  inputs_count = 0;
  outputs_count = 0;
  idx1 = 0;
  idx2 = 0;
  signatures = 0;
  resp = nothing_serialized;
  input = zero_input;
  to = blank_tx;
  tp = blank_tx;
  ti = blank_tx;
  hasher0 = [];
  hasher1 = [];
  hasher2 = [];
  privkey = [];
  pubkey = [];
  hash_prevouts = [];
  hash_sequence = [];
  hash_outputs = [];
  hash_check = [];
  to_spend = 0;
  authorized_amount = 0;
  spending = 0;
  change_spend = 0;
  version = 0;
  lock_time = 0;
  next_nonsegwit_input = 0;
  multisig_fp = none;
  multisig_fp_mismatch = false;
  in_address_n = [];
  in_address_n_count = 0;
  tx_weight = 0;
  log = [];
}

abbrev after : Session wallet coin
after = sign wallet coin message pieces idle

pieces-Fits : All Fits pieces
pieces-Fits = (fits, (fits, (fits, (fits, tt))))
  where
    fits : Fits (piece input, yes_to_all)
    fits = record { input = omega arith; output = omega arith; bin_output = omega arith }

-- The signing ends with a signature that commits to 5000.
signs : signed_total after.log ≡ 5000
unfolding signing_txack signing_init stage_1_input signing_check_input extract_input_bip32_path
    phase1_request_next_input stage_3_output signing_check_output compile_output
    phase1_request_next_output signing_check_fee tx_input_weight tx_input_script_size
    tx_output_weight phase2_request_next_input stage_segwit_input compile_input_script_sig
    stage_5_output authorize signing_sign_hash signing_hash_bip143 compile_script_sig
    tx_serialize_output tx_serialize_input tx_init
signs = refl

sign-SignedAfter_example : SignedAfter after.log
sign-SignedAfter_example = sign-SignedAfter wallet coin message pieces idle pieces-Fits

sign-ShowsOutputs_example : ShowsOutputs after.log
sign-ShowsOutputs_example = sign-ShowsOutputs wallet coin message pieces idle pieces-Fits

signed_total_le_example :
    (signed_total after.log ≤ after.to_spend)
    × (after.to_spend ≤ received_total after.log)
    × (after.to_spend < 2 ^ 64)
signed_total_le_example = signed_total_le wallet coin message pieces idle pieces-Fits

sign-StopsAtFailure_example : StopsAtFailure after.log
sign-StopsAtFailure_example = sign-StopsAtFailure wallet coin message pieces idle pieces-Fits
