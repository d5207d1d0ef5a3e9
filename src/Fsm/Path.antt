-- ===== src/Fsm/Path.antt =====
-- Whether the path of an address fits its coin and its script, `path_mismatched` of firmware/fsm.c.
pub mod Fits
use safe_t_mcu.Prelude.{
  ℕ, ◌+◌, ◌^◌, Bool, true, false, not, ◌||◌, List, [], ◌∷◌, Option, none, some, ◌==◌, leb,
  if◌then◌else◌, length, get_or,
}
use safe_t_mcu.Tx.Weight.{
  InputScriptType, spend_address, spend_multisig, spend_witness, spend_p2sh_witness,
}
use safe_t_mcu.Wallet.Library.{CoinRow}

-- The bit 0x80000000 of a number of 32 bits.
abbrev pub hardened : ℕ → Bool
hardened n = leb (2 ^ 31) n

abbrev pub is_address : InputScriptType → Bool
is_address spend_address = true
is_address type = false

abbrev pub is_multisig : InputScriptType → Bool
is_multisig spend_multisig = true
is_multisig type = false

abbrev pub is_witness : InputScriptType → Bool
is_witness spend_witness = true
is_witness type = false

abbrev pub is_p2sh_witness : InputScriptType → Bool
is_p2sh_witness spend_p2sh_witness = true
is_p2sh_witness type = false

abbrev pub no_prefix : Option (List ℕ) → Bool
no_prefix none = true
no_prefix (some prefix) = false

-- What does not fit purpose' / coin_type' / account' / change / address_index; what lies behind the
-- path's end reads as 0.
abbrev pub wrong_levels : CoinRow → List ℕ → Bool
wrong_levels coin path =
    not (length path == 5)
    || (not (get_or path 1 0 == coin.coin_type)
        || (not (hardened (get_or path 2 0))
            || (hardened (get_or path 3 0) || hardened (get_or path 4 0))))

-- The same for purpose' / cosigner_index / change / address_index.
abbrev pub wrong_cosigner : List ℕ → Bool
wrong_cosigner path =
    not (length path == 4)
    || (hardened (get_or path 1 0) || (hardened (get_or path 2 0) || hardened (get_or path 3 0)))

-- `path_mismatched`
unfoldable pub path_mismatched : CoinRow → InputScriptType → List ℕ → Bool
path_mismatched coin type [] = false
path_mismatched coin type (purpose ∷ levels) =
    let path = purpose ∷ levels in
    if purpose == 2 ^ 31 + 44
    then not (is_address type) || wrong_levels coin path
    else if purpose == 2 ^ 31 + 45
    then not (is_multisig type) || wrong_cosigner path
    else if purpose == 2 ^ 31 + 48
    then not (is_multisig type) || wrong_levels coin path
    else if purpose == 2 ^ 31 + 49
    then not (is_p2sh_witness type)
      || (not coin.coin.has_segwit
          || (not coin.coin.has_address_type_p2sh || wrong_levels coin path))
    else if purpose == 2 ^ 31 + 84
    then not (is_witness type)
      || (not coin.coin.has_segwit || (no_prefix coin.coin.bech32_prefix || wrong_levels coin path))
    else false
