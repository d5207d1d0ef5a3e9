-- ===== src/Ethereum/RoundTrip.antt =====
-- What the RLP functions of firmware/ethereum.c feed to the hash, against the format.
use safe_t_mcu.Prelude.{
  ℕ, ◌+◌, ◌-◌, ◌*◌, ◌/◌, ◌%◌, ◌^◌, ◌<◌, ◌≡◌, ap, ◌∙◌, arith, ◌&&◌, List, [], ◌∷◌, ◌++◌, leb, ltb,
  ◌==◌, if◌then◌else◌, length, length-append, get_or, Hasher,
}
use safe_t_mcu.Ethereum.{hash_rlp_length, hash_rlp_field, rlp_calculate_length}

-- The header of a string.
abbrev pub rlp_header : ℕ → ℕ → List ℕ
rlp_header n first =
    if n == 1 && leb first 0x7f
    then []
    else if leb n 55
    then (0x80 + n) ∷ []
    else if leb n 0xff
    then 0xb8 ∷ n ∷ []
    else if leb n 0xffff
    then 0xb9 ∷ n / 2 ^ 8 ∷ n % 256 ∷ []
    else 0xba ∷ n / 2 ^ 16 ∷ n / 2 ^ 8 % 256 ∷ n % 256 ∷ []

-- A decoder of the first string, by the yellow paper: its header's length, and its own.
abbrev pub rlp_string : List ℕ → ℕ × ℕ
rlp_string bs =
    let b0 = get_or bs 0 0 in
    let b1 = get_or bs 1 0 in
    let b2 = get_or bs 2 0 in
    let b3 = get_or bs 3 0 in
    if ltb b0 0x80
    then (0, 1)
    else if leb b0 0xb7
    then (1, b0 - 0x80)
    else if b0 == 0xb8
    then (2, b1)
    else if b0 == 0xb9
    then (3, b1 * 2 ^ 8 + b2)
    else (4, b1 * 2 ^ 16 + b2 * 2 ^ 8 + b3)

hash_rlp_length_lem :
    (H : Hasher) (s : H.State) (n first : ℕ)
    → n < 2 ^ 24
    → hash_rlp_length H s n first ≡ H.feed s (rlp_header n first)
unfolding hash_rlp_length
hash_rlp_length_lem H s n first h = ground (arith, H.feed_nil s)

length-rlp_header : (n first : ℕ) → length (rlp_header n first) + n ≡ rlp_calculate_length n first
unfolding rlp_calculate_length
length-rlp_header n first = ground arith

rlp_string-rlp_header :
    (b : ℕ) (bs rest : List ℕ)
    → b < 256
    → length (b ∷ bs) < 2 ^ 24
    → let header = rlp_header (length (b ∷ bs)) b in
      rlp_string (header ++ (b ∷ (bs ++ rest))) ≡ (length header, length (b ∷ bs))
rlp_string-rlp_header b bs rest h k = ground arith

-- For a field of at least one and less than 2 ^ 24 bytes the hash is fed a header and the bytes, as
-- many as `rlp_calculate_length` announces, and a decoder of RLP finds the bytes behind the header
-- again, whatever follows them.
pub hash_rlp_field_lem :
    (H : Hasher) (s : H.State) (b : ℕ) (bs rest : List ℕ)
    → b < 256
    → length (b ∷ bs) < 2 ^ 24
    → let header = rlp_header (length (b ∷ bs)) b in
      (hash_rlp_field H s (b ∷ bs) ≡ H.feed s (header ++ (b ∷ bs)))
      × (length (header ++ (b ∷ bs)) ≡ rlp_calculate_length (length (b ∷ bs)) b)
      × (rlp_string (header ++ (b ∷ (bs ++ rest))) ≡ (length header, length (b ∷ bs)))
unfolding hash_rlp_field
hash_rlp_field_lem H s b bs rest h k = (
  ap (λ (t : H.State). H.feed t (b ∷ bs)) (hash_rlp_length_lem H s (length (b ∷ bs)) b k)
      ∙ H.feed-append s (rlp_header (length (b ∷ bs)) b) (b ∷ bs),
  length-append (rlp_header (length (b ∷ bs)) b) (b ∷ bs) ∙ length-rlp_header (length (b ∷ bs)) b,
  rlp_string-rlp_header b bs rest h k,
)
