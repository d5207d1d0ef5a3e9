-- ===== src/U2f/Frames.antt =====
-- Single frames of a message, and how they are read.
use safe_t_mcu.Prelude.{
  ℕ, zero, suc, ◌+◌, ◌-◌, ◌*◌, ◌%◌, ◌^◌, ◌≤◌, ◌<◌, ◌≡◌, refl, sym, ap, ◌∙◌, arith, true, false, not,
  ◌&&◌, ◌||◌, List, [], ◌∷◌, ◌++◌, some, ltb, leb, ◌==◌, length, length-append, append_assoc,
  append-nil, take, drop, replicate,
}
use safe_t_mcu.U2f.{
  Frame, Reader, Channel, buffer_size, pad, cont_frames, u2fhid_init_cmd, u2fhid_read,
  u2fhid_init_command,
}

-- The frames behind the first are read one after the other, while the message is read. The version
-- and the channel are those that an answer to U2FHID_INIT would have.
abbrev pub read_conts : List ℕ → ℕ → List Frame → Channel → Channel
read_conts version fresh_cid [] c = c
read_conts version fresh_cid (f ∷ frames) c =
    read_conts version fresh_cid frames (u2fhid_read version fresh_cid true f c)

abbrev pub read_frames : List ℕ → ℕ → List Frame → Channel → Channel
read_frames version fresh_cid [] c = c
read_frames version fresh_cid (f ∷ frames) c =
    read_conts version fresh_cid frames (u2fhid_read version fresh_cid false f c)

abbrev pub with_reader : Reader → Channel → Channel
with_reader r c = record c { reader = some r }

next :
    (version : List ℕ) (fresh_cid : ℕ) (f : Frame) (r : Reader) (c : Channel)
    → f.cid ≡ c.cid
    → f.type ≡ r.seq
    → r.seq < 127
    → length r.buf < r.len
    → length r.buf + 59 ≤ buffer_size
    → u2fhid_read version fresh_cid true f (with_reader r c)
      ≡ with_reader (record r { seq = (r.seq + 1) % 2 ^ 8; buf = r.buf ++ f.payload }) c
unfolding u2fhid_read u2fhid_init_cmd
next version fresh_cid f r c same seq low more room =
    rw
      (
        no_init f.type r.seq seq low,
        same_cid f.cid c.cid same,
        not_idle f.type r.seq low,
        in_order f.type r.seq seq,
        fits (length r.buf) r.len more room,
      )
      refl
  where
    no_init : (t s : ℕ) → t ≡ s → s < 127 → (t == u2fhid_init_command) ≡ false
    no_init t s h k = ground arith

    same_cid : (a b : ℕ) → a ≡ b → not (b == a) ≡ false
    same_cid a b h = ground arith

    not_idle : (t s : ℕ) → s < 127 → (leb 128 t && s == 255) ≡ false
    not_idle t s h = ground arith

    in_order : (t s : ℕ) → t ≡ s → not (s == t) ≡ false
    in_order t s h = ground arith

    fits : (n l : ℕ) → n < l → n + 59 ≤ buffer_size → (leb l n || ltb buffer_size (n + 59)) ≡ false
    fits n l h k = ground arith

length-pad : (n : ℕ) (bytes : List ℕ) → length bytes ≤ n → length (pad n bytes) ≡ n
unfolding pad
length-pad n bytes h =
    length-append bytes (replicate (n - length bytes) 0)
    ∙ omega (arith, length-replicate (n - length bytes), h)
  where
    length-replicate : (n : ℕ) → length {A = ℕ} (replicate n 0) ≡ n
    length-replicate zero = refl
    length-replicate (suc n) = ap suc (length-replicate n)

pub pad_full : (size : ℕ) (bytes : List ℕ) → length bytes ≡ size → pad size bytes ≡ bytes
unfolding pad
pad_full size bytes h = ap (λ n. bytes ++ replicate n 0) (full (length bytes) h) ∙ append-nil bytes
  where
    full : (n : ℕ) → n ≡ size → size - n ≡ 0
    full n h = omega (arith, h)

pub take_all : (n : ℕ) (xs : List ℕ) → length xs ≤ n → take n xs ≡ xs
take_all zero [] h = refl
take_all zero (x ∷ xs) h = absurd (omega arith)
take_all (suc n) [] h = refl
take_all (suc n) (x ∷ xs) h = ap (λ ys. x ∷ ys) (take_all n xs (omega arith))

pub drop_all : (n : ℕ) (xs : List ℕ) → length xs ≤ n → drop n xs ≡ []
drop_all zero [] h = refl
drop_all zero (x ∷ xs) h = absurd (omega arith)
drop_all (suc n) [] h = refl
drop_all (suc n) (x ∷ xs) h = drop_all n xs (omega arith)

take_more : (xs ys : List ℕ) → take (length xs) (xs ++ ys) ≡ xs
take_more [] ys = refl
take_more (x ∷ xs) ys = ap (λ zs. x ∷ zs) (take_more xs ys)

unfoldable pub reading : List ℕ → ℕ → ℕ → ℕ → Reader
reading buf len seq cmd = record { buf = buf; len = len; seq = seq; cmd = cmd }

-- A message that is complete.
pub record Complete (c : Channel) (command : ℕ) (bytes : List ℕ) : Type 0 where
  pub done : Reader
  pub reader : c.reader ≡ some done
  pub cmd : done.cmd ≡ command
  pub len : done.len ≡ length bytes
  pub all : done.len ≤ length done.buf
  pub message : take done.len done.buf ≡ bytes

-- The bytes so far and a last frame of them, filled up with zeros.
pub last_frame :
    (d bytes : List ℕ) (n size seq cmd : ℕ) (c : Channel)
    → n ≡ length (d ++ bytes)
    → length bytes ≤ size
    → Complete (with_reader (reading (d ++ pad size bytes) n seq cmd) c) cmd (d ++ bytes)
unfolding pad reading
last_frame d bytes n size seq cmd c e h =
    let zeros = replicate (size - length bytes) 0 in
    let joined = sym (append_assoc d bytes zeros) in
    let sizes = length-append (d ++ bytes) zeros in
    record {
      done = reading (d ++ pad size bytes) n seq cmd;
      reader = refl;
      cmd = refl;
      len = e;
      all = omega (arith, e, sizes, ap length joined);
      message =
          ap (take n) joined
          ∙ ap (λ k. take k ((d ++ bytes) ++ zeros)) e
          ∙ take_more (d ++ bytes) zeros;
    }

pub no_more : (n cid seq : ℕ) → cont_frames n cid seq [] ≡ []
unfolding cont_frames
no_more zero cid seq = refl
no_more (suc n) cid seq = refl

pub length-take : (n : ℕ) (xs : List ℕ) → n ≤ length xs → length (take n xs) ≡ n
length-take zero xs h = refl
length-take (suc n) [] h = absurd (omega arith)
length-take (suc n) (x ∷ xs) h = ap suc (length-take n xs (omega arith))

pub one_more : (s : ℕ) → s < 127 → (s + 1) % 2 ^ 8 ≡ s + 1
one_more s h = omega arith

pub step :
    (version : List ℕ) (fresh_cid : ℕ) (d p : List ℕ) (n seq cmd : ℕ) (c : Channel)
    → length d ≡ 57 + 59 * seq
    → length d < n
    → n ≤ buffer_size
    → u2fhid_read version fresh_cid true
        (record { cid = c.cid; type = seq; payload = p })
        (with_reader (reading d n seq cmd) c)
      ≡ with_reader (reading (d ++ p) n (seq + 1) cmd) c
unfolding reading
step version fresh_cid d p n seq cmd c place more fits =
    let low : seq < 127 = few (length d) n seq place more fits in
    next version fresh_cid (record { cid = c.cid; type = seq; payload = p }) (reading d n seq cmd) c
      refl refl low more (room (length d) seq place low)
    ∙ ap (λ s. with_reader (reading (d ++ p) n s cmd) c) (one_more seq low)
  where
    few : (l n s : ℕ) → l ≡ 57 + 59 * s → l < n → n ≤ buffer_size → s < 127
    few l n s e h k = omega (arith, e, h, k)

    room : (l s : ℕ) → l ≡ 57 + 59 * s → s < 127 → l + 59 ≤ buffer_size
    room l s e h = omega (arith, e, h)
