-- ===== src/Ethereum.antt =====
-- The RLP encoding that firmware/ethereum.c feeds to its hash as it goes, over any hash. `Signing` has
-- the handlers.
pub mod RoundTrip
pub mod Signing
pub mod Chunks
pub mod Consent
pub mod ChainId
mod Tests
use safe_t_mcu.Prelude.{
  ℕ, zero, suc, ◌+◌, ◌-◌, ◌/◌, ◌%◌, ◌^◌, Bool, true, false, ◌&&◌, List, [], ◌∷◌, ◌++◌, leb, ◌==◌,
  if◌then◌else◌, length, get_or, Hasher,
}

module _ (H : Hasher) where
  -- `hash_rlp_length`
  unfoldable pub hash_rlp_length : H.State → ℕ → ℕ → H.State
  hash_rlp_length s length firstbyte =
      if length == 1 && leb firstbyte 0x7f
      then s
      else if leb length 55
      then H.feed s ((0x80 + length) % 256 ∷ [])
      else if leb length 0xff
      then H.feed s (0xb8 ∷ length % 256 ∷ [])
      else if leb length 0xffff
      then H.feed s (0xb9 ∷ length / 2 ^ 8 % 256 ∷ length % 256 ∷ [])
      else H.feed s (0xba ∷ length / 2 ^ 16 % 256 ∷ length / 2 ^ 8 % 256 ∷ length % 256 ∷ [])

  -- `hash_rlp_list_length`
  unfoldable pub hash_rlp_list_length : H.State → ℕ → H.State
  hash_rlp_list_length s length =
      if leb length 55
      then H.feed s ((0xc0 + length) % 256 ∷ [])
      else if leb length 0xff
      then H.feed s (0xf8 ∷ length % 256 ∷ [])
      else if leb length 0xffff
      then H.feed s (0xf9 ∷ length / 2 ^ 8 % 256 ∷ length % 256 ∷ [])
      else H.feed s (0xfa ∷ length / 2 ^ 16 % 256 ∷ length / 2 ^ 8 % 256 ∷ length % 256 ∷ [])

  -- `hash_rlp_field`
  unfoldable pub hash_rlp_field : H.State → List ℕ → H.State
  hash_rlp_field s buf = H.feed (hash_rlp_length s (length buf) (get_or buf 0 0)) buf

  -- The loop of `hash_rlp_number` over the zeros in front.
  abbrev pub skip_zeros : List ℕ → List ℕ
  skip_zeros [] = []
  skip_zeros (b ∷ bs) = let rest = skip_zeros bs in if b == 0 then rest else b ∷ bs

  -- `hash_rlp_number`
  unfoldable pub hash_rlp_number : H.State → ℕ → H.State
  hash_rlp_number s number =
      let buf = skip_zeros (
        number / 2 ^ 24 % 256 ∷ number / 2 ^ 16 % 256 ∷ number / 2 ^ 8 % 256 ∷ number % 256 ∷ []) in
      if number == 0 then s else hash_rlp_field s buf

-- `rlp_calculate_length`
unfoldable pub rlp_calculate_length : ℕ → ℕ → ℕ
rlp_calculate_length length firstbyte =
    if length == 1 && leb firstbyte 0x7f
    then 1
    else if leb length 55
    then 1 + length
    else if leb length 0xff
    then 2 + length
    else if leb length 0xffff
    then 3 + length
    else 4 + length
