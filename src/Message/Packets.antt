-- ===== src/Message/Packets.antt =====
-- The framing that the two directions agree on, described by itself: a message is a byte stream,
-- `##`, the id, the length and the encoded message, cut into pieces of 63 bytes.
use safe_t_mcu.Prelude.{
  ℕ, zero, suc, ◌+◌, ◌-◌, ◌/◌, ◌%◌, ◌^◌, ◌≤◌, ◌≡◌, refl, ap, arith, List, [], ◌∷◌, ◌++◌, length,
  take, drop,
}

-- The first `n` bytes, with zeros where there are fewer.
abbrev pub pad_to : ℕ → List ℕ → List ℕ
pad_to zero bs = []
pad_to (suc n) [] = 0 ∷ pad_to n []
pad_to (suc n) (b ∷ bs) = b ∷ pad_to n bs

-- `n` packets that carry the stream.
abbrev pub packets : ℕ → List ℕ → List (List ℕ)
packets zero bs = []
packets (suc n) bs = (b'?' ∷ pad_to 63 bs) ∷ packets n (drop 63 bs)

-- How many packets a stream takes.
abbrev pub packet_count : List ℕ → ℕ
packet_count bs = (length bs + 62) / 63

-- `##`, id and length, big-endian.
abbrev pub frame : ℕ → List ℕ → List ℕ
frame msg_id body =
    let len = length body in
    b'#'
    ∷ b'#'
    ∷ (msg_id / 2 ^ 8 % 256)
    ∷ (msg_id % 256)
    ∷ (len / 2 ^ 24 % 256)
    ∷ (len / 2 ^ 16 % 256)
    ∷ (len / 2 ^ 8 % 256)
    ∷ (len % 256)
    ∷ body

-- The zeros that `pad_to` adds.
abbrev pub padding : ℕ → List ℕ → List ℕ
padding zero bs = []
padding (suc n) [] = 0 ∷ padding n []
padding (suc n) (b ∷ bs) = padding n bs

pub pad_to_short : (n : ℕ) (bs : List ℕ) → length bs ≤ n → pad_to n bs ≡ bs ++ padding n bs
pad_to_short zero [] h = refl
pad_to_short zero (b ∷ bs) h = absurd (omega arith)
pad_to_short (suc n) [] h = ap (λ (r : List ℕ). 0 ∷ r) (pad_to_short n [] (omega arith))
pad_to_short (suc n) (b ∷ bs) h = ap (λ (r : List ℕ). b ∷ r) (pad_to_short n bs (omega arith))

pub length-padding : (n : ℕ) (bs : List ℕ) → length (padding n bs) ≡ n - length bs
length-padding zero bs = omega arith
length-padding (suc n) [] = omega (arith, length-padding n [])
length-padding (suc n) (b ∷ bs) = omega (arith, length-padding n bs)

pub length-pad_to : (n : ℕ) (bs : List ℕ) → length (pad_to n bs) ≡ n
length-pad_to zero bs = refl
length-pad_to (suc n) [] = ap suc (length-pad_to n [])
length-pad_to (suc n) (b ∷ bs) = ap suc (length-pad_to n bs)

pub pad_to_full : (n : ℕ) (bs : List ℕ) → n ≤ length bs → pad_to n bs ≡ take n bs
pad_to_full zero bs h = refl
pad_to_full (suc n) [] h = absurd (omega arith)
pad_to_full (suc n) (b ∷ bs) h = ap (λ (r : List ℕ). b ∷ r) (pad_to_full n bs (omega arith))
