-- ===== src/Wire/RoundTrip.antt =====
-- The readers of lengths undo the writers.
use safe_t_mcu.Prelude.{
  ℕ, zero, suc, ◌+◌, ◌-◌, ◌*◌, ◌/◌, ◌%◌, ◌^◌, ◌<◌, ◌≡◌, refl, arith, List, [], ◌∷◌, ◌++◌, some,
  length, le_bytes, Hasher, ltb, if◌then◌else◌, All,
}
use safe_t_mcu.Wire.{
  ser_length, ser_length_hash, deser_length, op_push, op_push_size, readprotobufint, data2hex,
}

-- `deser_length` reads back every 32-bit length that `ser_length` wrote, whatever follows it, and
-- passes exactly the bytes that were written, whose number `ser_length` returned.
pub deser_length-ser_length :
    (len : ℕ) (rest : List ℕ)
    → len < 2 ^ 32
    → (deser_length ((ser_length len).1 ++ rest) ≡ some ((ser_length len).0, len))
      × (length (ser_length len).1 ≡ (ser_length len).0)
unfolding deser_length ser_length
deser_length-ser_length len rest h = ground arith

pub length-ser_length : (len : ℕ) → length (ser_length len).1 ≡ (ser_length len).0
unfolding ser_length
length-ser_length len = ground arith

-- `op_push` returns the number of bytes that it writes, which is what `op_push_size` foretells.
pub length-op_push :
    (i : ℕ) → (length (op_push i).1 ≡ (op_push i).0) × ((op_push i).0 ≡ op_push_size i)
unfolding op_push op_push_size
length-op_push i = ground arith

-- For a 32-bit length the hash is fed the bytes that `ser_length` writes, and the count is the same.
pub ser_length_hash-feed :
    (H : Hasher) (s : H.State) (len : ℕ)
    → len < 2 ^ 32
    → ser_length_hash H s len ≡ (H.feed s (ser_length len).1, (ser_length len).0)
unfolding ser_length ser_length_hash le_bytes
ser_length_hash-feed H s len h = ground (
  arith,
  H.feed-append s (253 ∷ []) (le_bytes 2 len),
  H.feed-append s (254 ∷ []) (le_bytes 4 len),
)

-- The varint of the protocol buffers format: groups of seven bits, lowest first, with the top bit
-- set on every byte but the last; `k` bytes at most follow the first.
abbrev pub protobuf_varint : ℕ → ℕ → List ℕ
protobuf_varint zero v = v ∷ []
protobuf_varint (suc k) v =
    let rest = protobuf_varint k (v / 128) in if ltb v 128 then v ∷ [] else (v % 128 + 128) ∷ rest

-- `readprotobufint` reads every 32-bit number from its varint and moves the pointer just past it.
pub readprotobufint-protobuf_varint :
    (v : ℕ) (rest : List ℕ)
    → v < 2 ^ 32
    → readprotobufint (protobuf_varint 4 v ++ rest) ≡ some (v, rest)
unfolding readprotobufint
readprotobufint-protobuf_varint v rest h = ground arith

-- The value of a hexadecimal digit.
abbrev digit_value : ℕ → ℕ
digit_value c = if ltb c b'A' then c - b'0' else c - b'A' + 10

abbrev pub unhex : List ℕ → List ℕ
unhex [] = []
unhex (c ∷ []) = []
unhex (c ∷ d ∷ cs) = (digit_value c * 16 + digit_value d) ∷ unhex cs

-- The hexadecimal form of bytes gives the bytes back.
pub unhex-data2hex : (bs : List ℕ) → All (λ b. b < 256) bs → unhex (data2hex bs) ≡ bs
unfolding data2hex
unhex-data2hex [] h = refl
unhex-data2hex (b ∷ bs) h = ground (arith, unhex-data2hex bs h.1)
