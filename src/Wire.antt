-- ===== src/Wire.antt =====
-- Lengths on the wire: `ser_length`, `deser_length` of firmware/crypto.c, `op_push` of
-- firmware/transaction.c and `readprotobufint` of util.c.
-- A function that writes to `out` and returns how far it got is modelled by a pair: the number it
-- returns, and the bytes that it leaves from `out` on.
pub mod RoundTrip
use safe_t_mcu.Prelude.{
  ℕ, zero, suc, ◌+◌, ◌-◌, ◌*◌, ◌/◌, ◌%◌, ◌^◌, List, [], ◌∷◌, Option, none, some, ltb, ◌==◌,
  if◌then◌else◌, ◌>>=◌, get_elem?, le_bytes, Hasher,
}

-- What is left in `out`, with the returned count.
abbrev pub Written : Type 0
Written = ℕ × List ℕ

-- `x & 0xFF`, `(x >> 8) & 0xFF` and so on.
abbrev pub byte_of : ℕ → ℕ → ℕ
byte_of x k = x / 2 ^ k % 256

-- `ser_length`
unfoldable pub ser_length : ℕ → Written
ser_length len =
    if ltb len 253
    then (1, byte_of len 0 ∷ [])
    else if ltb len 0x10000
    then (3, 253 ∷ byte_of len 0 ∷ byte_of len 8 ∷ [])
    else (5, 254 ∷ byte_of len 0 ∷ byte_of len 8 ∷ byte_of len 16 ∷ byte_of len 24 ∷ [])

-- `op_push_size`
unfoldable pub op_push_size : ℕ → ℕ
op_push_size i = if ltb i 0x4C then 1 else if ltb i 0x100 then 2 else if ltb i 0x10000 then 3 else 5

-- `op_push`
unfoldable pub op_push : ℕ → Written
op_push i =
    if ltb i 0x4C
    then (1, byte_of i 0 ∷ [])
    else if ltb i 0x100
    then (2, 0x4C ∷ byte_of i 0 ∷ [])
    else if ltb i 0x10000
    then (3, 0x4D ∷ byte_of i 0 ∷ byte_of i 8 ∷ [])
    else (5, 0x4E ∷ byte_of i 0 ∷ byte_of i 8 ∷ byte_of i 16 ∷ byte_of i 24 ∷ [])

-- `ser_length_hash`: the state of the hash, and the count.
module _ (H : Hasher) where
  unfoldable pub ser_length_hash : H.State → ℕ → H.State × ℕ
  ser_length_hash s len =
      if ltb len 253
      then (H.feed s (le_bytes 1 len), 1)
      else if ltb len 0x10000
      then (H.feed (H.feed s (253 ∷ [])) (le_bytes 2 len), 3)
      else (H.feed (H.feed s (254 ∷ [])) (le_bytes 4 len), 5)

-- `deser_length` on the bytes from `in` on: the bytes that it passes and the value that it stores.
-- `none` is a read past the bytes that there are.
unfoldable pub deser_length : List ℕ → Option (ℕ × ℕ)
deser_length bs = do
  b0 ← get_elem? bs 0
  let short = do b1 ← get_elem? bs 1; b2 ← get_elem? bs 2; some (1 + 2, b1 + b2 * 2 ^ 8)
  let long = do
    b1 ← get_elem? bs 1
    b2 ← get_elem? bs 2
    b3 ← get_elem? bs 3
    b4 ← get_elem? bs 4
    some (1 + 4, (b1 + b2 * 2 ^ 8 + b3 * 2 ^ 16 + b4 * 2 ^ 24) % 2 ^ 32)
  if ltb b0 253
      then some (1, b0)
      else if b0 == 253
      then short
      else if b0 == 254
      then long
      else some (1 + 8, 0)

-- `readprotobufint`: `k` more bytes may follow; `scale` is the product of the 128s so far. The sum
-- is a `uint32_t`. It gives the value and the bytes from the new `*ptr` on.
readprotobufint_from : ℕ → ℕ → ℕ → List ℕ → Option (ℕ × List ℕ)
readprotobufint_from k scale result [] = none
readprotobufint_from zero scale result (b ∷ bs) = some ((result + b % 128 * scale) % 2 ^ 32, bs)
readprotobufint_from (suc k) scale result (b ∷ bs) =
    let next = readprotobufint_from k (scale * 128) ((result + b % 128 * scale) % 2 ^ 32) bs in
    if ltb b 128 then some ((result + b % 128 * scale) % 2 ^ 32, bs) else next

unfoldable pub readprotobufint : List ℕ → Option (ℕ × List ℕ)
unfolding readprotobufint_from
readprotobufint bs = readprotobufint_from 4 1 0 bs

-- `hexdigits`, and the digit of a number below 16.
abbrev pub hexdigit : ℕ → ℕ
hexdigit d = if ltb d 10 then b'0' + d else b'A' + (d - 10)

-- `uint32hex`: the digit `i` is that of bits `28 - 4 * i` and up.
uint32hex_from : ℕ → ℕ → List ℕ
uint32hex_from zero num = []
uint32hex_from (suc n) num = hexdigit (num / 2 ^ (4 * n) % 16) ∷ uint32hex_from n num

unfoldable pub uint32hex : ℕ → List ℕ
unfolding uint32hex_from
uint32hex num = uint32hex_from 8 num

-- `data2hex`, without the closing zero byte.
unfoldable pub data2hex : List ℕ → List ℕ
data2hex [] = []
data2hex (b ∷ bs) = hexdigit (b / 16 % 16) ∷ hexdigit (b % 16) ∷ data2hex bs
