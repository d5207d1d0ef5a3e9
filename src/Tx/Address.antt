-- ===== src/Tx/Address.antt =====
-- Addresses and output scripts, firmware/transaction.c: `compute_address` for a key of the device,
-- and `compile_output`, which asks the user.
use safe_t_mcu.Prelude.{
  ℕ, ◌+◌, Bool, true, false, not, ◌&&◌, ◌||◌, List, [], ◌∷◌, ◌++◌, Option, none, some, ltb, ◌==◌,
  if◌then◌else◌, ◌>>=◌, length, take, drop,
}
use safe_t_mcu.Wire.{op_push}
use safe_t_mcu.Tx.{TxOutputBin}
use safe_t_mcu.Tx.Script.{Multisig, compile_script_multisig_hash}
use safe_t_mcu.Tx.Weight.{
  InputScriptType, spend_address, spend_multisig, spend_witness, spend_p2sh_witness,
  OutputScriptType, pay_to_address, pay_to_multisig, pay_to_op_return, pay_to_witness,
  pay_to_p2sh_witness,
}
use safe_t_mcu.Wallet.{NodePath, Coin, Wallet}
use safe_t_mcu.Wallet.Multisig.{crypto_multisig_pubkey_index}

-- `TxOutputType`
pub record TxOutput : Type 0 where
  pub has_address : Bool
  pub address : List ℕ
  pub address_n : List ℕ
  pub amount : ℕ
  pub script_type : OutputScriptType
  pub multisig : Option (Multisig NodePath)
  pub op_return_data : List ℕ

-- What `compile_output` returns: -1, 0, or a script that is not empty.
pub data Compiled : Type 0 where
  user_aborted not_compiled : Compiled
  compiled : TxOutputBin → Compiled

module _ (W : Wallet) (coin : Coin) where
  -- A pay-to-script-hash address of a hash.
  abbrev p2sh_address : List ℕ → Option (List ℕ)
  p2sh_address digest =
      W.base58_encode_check
        (W.address_prefix_bytes coin.address_type_p2sh ++ take 20 (W.ripemd160 digest))

  abbrev witness_address : List ℕ → Option (List ℕ)
  witness_address program = if not coin.has_segwit then none else elim coin.bech32_prefix [
    | none ↦ none
    | some prefix ↦ W.segwit_addr_encode prefix 0 program
  ]

  -- The branches for a multisig script with this hash.
  abbrev multisig_address : InputScriptType → List ℕ → Option (List ℕ)
  multisig_address spend_witness digest = witness_address (take 32 digest)
  multisig_address spend_p2sh_witness digest =
      if not coin.has_segwit || not coin.has_address_type_p2sh
      then none
      else p2sh_address (W.hasher_raw (0 ∷ 32 ∷ take 32 digest))
  multisig_address type digest = p2sh_address digest

  -- The branches for a single key.
  abbrev single_address : InputScriptType → List ℕ → Option (List ℕ)
  single_address spend_witness pubkey = witness_address (take 20 (W.ecdsa_get_pubkeyhash pubkey))
  single_address spend_p2sh_witness pubkey =
      if not coin.has_segwit || not coin.has_address_type_p2sh
      then none
      else some (W.ecdsa_get_address_segwit_p2sh pubkey coin.address_type_p2sh)
  single_address type pubkey = some (W.ecdsa_get_address pubkey coin.address_type)

  -- `compute_address`, for the public key of the node; `none` is a return of 0.
  unfoldable pub compute_address :
      InputScriptType → List ℕ → Option (Multisig NodePath) → Option (List ℕ)
  compute_address type pubkey none = single_address type pubkey
  compute_address type pubkey (some ms) = do
    i ← crypto_multisig_pubkey_index W.path_to_pubkey ms pubkey
    digest ← compile_script_multisig_hash W.path_to_pubkey W.hasher W.hasher_pubkey ms
    multisig_address type digest

  -- The script type of the inputs that could spend an output to a key of the device.
  abbrev pub input_type_of : OutputScriptType → Option InputScriptType
  input_type_of pay_to_address = some spend_address
  input_type_of pay_to_multisig = some spend_multisig
  input_type_of pay_to_witness = some spend_witness
  input_type_of pay_to_p2sh_witness = some spend_p2sh_witness
  input_type_of type = none

  -- The address: that of a key of the device, or the one given.
  abbrev pub output_address : TxOutput → Option (List ℕ)
  output_address o =
      if ltb 0 (length o.address_n)
      then (do
        type ← input_type_of o.script_type
        keys ← W.derive o.address_n
        compute_address type keys.1 o.multisig)
      else if o.has_address
      then some o.address
      else none

  -- A version prefix that a decoded address of a 20-byte hash begins with.
  abbrev pub has_prefix : Bool → ℕ → List ℕ → Bool
  has_prefix has type addr_raw =
      has
      && (length addr_raw == 20 + length (W.address_prefix_bytes type)
          && W.address_check_prefix addr_raw type)

  abbrev pub witness_script : List ℕ → Option (List ℕ) → Option (List ℕ)
  witness_script address none = none
  witness_script address (some prefix) = elim (W.segwit_addr_decode prefix address) [
    | none ↦ none
    | some (witver, program) ↦
        some ((if witver == 0 then 0 else 80 + witver) ∷ length program ∷ program)
  ]

  -- The script that pays to an address.
  abbrev pub address_script : List ℕ → Option (List ℕ)
  address_script address =
      let raw = W.base58_decode_check address in
      let hash : ℕ → List ℕ = λ type. take 20 (drop (length (W.address_prefix_bytes type)) raw) in
      if has_prefix coin.has_address_type coin.address_type raw
      then some (0x76 ∷ 0xA9 ∷ 0x14 ∷ (hash coin.address_type ++ (0x88 ∷ 0xAC ∷ [])))
      else if has_prefix coin.has_address_type_p2sh coin.address_type_p2sh raw
      then some (0xA9 ∷ 0x14 ∷ (hash coin.address_type_p2sh ++ (0x87 ∷ [])))
      else witness_script address coin.bech32_prefix

  abbrev pub op_return_script : List ℕ → List ℕ
  op_return_script bytes = 0x6A ∷ ((op_push (length bytes)).1 ++ bytes)

  abbrev pub is_op_return : OutputScriptType → Bool
  is_op_return pay_to_op_return = true
  is_op_return type = false

  -- The script of an output, before the user is asked.
  abbrev pub output_script : TxOutput → Option (List ℕ)
  output_script o =
      if is_op_return o.script_type
      then some (op_return_script o.op_return_data)
      else (do address ← output_address o; address_script address)

  -- The answer, where the user is asked, and what becomes of the output.
  abbrev pub ask_output : Bool → Bool → ℕ → Option (List ℕ) → Option Bool × Compiled
  ask_output needs_confirm answer amount none = (none, not_compiled)
  ask_output needs_confirm answer amount (some script) =
      let bin = compiled (record { amount = amount; script_pubkey = script }) in
      if not needs_confirm
      then (none, bin)
      else (some answer, if not answer then user_aborted else bin)

  -- `compile_output`, with the user's answer, if one is asked for.
  unfoldable pub compile_output : TxOutput → Bool → Bool → Option Bool × Compiled
  compile_output o needs_confirm answer = ask_output needs_confirm answer o.amount (output_script o)
