-- ===== src/Ethereum/ChainId.antt =====
-- The chain id in the RLP encoding of firmware/ethereum.c: what `hash_rlp_number` feeds, and what
-- `rlp_calculate_length(1, chain_id)` announces.
use safe_t_mcu.Prelude.{
  ℕ, ◌%◌, ◌^◌, ◌≤◌, ◌<◌, ◌≡◌, ◌↔◌, sym, ap, ◌∙◌, arith, [], length, list_hasher,
}
use native.Mathlib.Decide.{dec_lt}
use safe_t_mcu.Ethereum.{hash_rlp_length, hash_rlp_field, hash_rlp_number, rlp_calculate_length}

short_number :
    (n : ℕ) → 1 ≤ n → n < 256 → length (hash_rlp_number list_hasher [] n) ≡ rlp_calculate_length 1 n
unfolding hash_rlp_number hash_rlp_field hash_rlp_length rlp_calculate_length
short_number n h k = ground arith

long_number : (n : ℕ) → 256 ≤ n → n < 2 ^ 32 → 3 ≤ length (hash_rlp_number list_hasher [] n)
unfolding hash_rlp_number hash_rlp_field hash_rlp_length
long_number n h k = ground arith

announced : (b : ℕ) → rlp_calculate_length 1 b ≤ 2
unfolding rlp_calculate_length
announced b = ground arith

same_byte : (n : ℕ) → n < 256 → n % 256 ≡ n
same_byte n h = omega arith

-- For a chain id of 32 bits other than 0, the bytes that hash_rlp_number feeds to the hash are as many as
-- rlp_calculate_length announces for it exactly if it is less than 256; the list header is
-- too short for greater ones.
pub length-hash_rlp_number :
    (n : ℕ)
    → 1 ≤ n
    → n < 2 ^ 32
    → (length (hash_rlp_number list_hasher [] n) ≡ rlp_calculate_length 1 (n % 256)) ↔ (n < 256)
length-hash_rlp_number n h k = (
  λ e. elim (dec_lt n 256) [
    | yes p ↦ p
    | no p ↦ absurd (omega (arith, e, long_number n (omega (arith, p)) k, announced (n % 256)))
  ],
  λ p. short_number n h p ∙ ap (rlp_calculate_length 1) (sym (same_byte n p)),
)
