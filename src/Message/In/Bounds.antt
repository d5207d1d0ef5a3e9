-- ===== src/Message/In/Bounds.antt =====
-- Where `msg_read_common` writes in `msg_in`.
use safe_t_mcu.Prelude.{
  ℕ, zero, suc, ◌+◌, ◌*◌, ◌%◌, ◌^◌, ◌≤◌, ◌<◌, ◌≡◌, refl, ◌∙◌, arith, Bool, not, if◌then◌else◌, take,
  true, false, List, [], ◌∷◌, Option, none, some, inl, inr, ◌⊎◌, length, drop,
}
use safe_t_mcu.Message.{Entry, message_fields, starts_message, header_id, header_size}
use native.Mathlib.Decide.{ℕ_discrete, dec_lt}
use safe_t_mcu.Message.Packets.{pad_to, packets, frame}
use safe_t_mcu.Message.In.{
  Reader, msg_read_common, read_all, msg_in_size, finish, next_packet, first_packet, start_message,
}
use safe_t_mcu.Message.In.Assembly.{
  next_packet_lem, finish-more, stored, started, read_all-cons, first_packet_lem,
}

-- While a message is read, the first packet has brought 55 bytes and each other one 63, fewer than
-- the size, which is at most that of the buffer.
abbrev pub IsBounded : {Fields : Type 0} → Reader Fields → Type 0
IsBounded s =
    (s.reading ≡ false)
    ⊎ ((s.msg_pos % 63 ≡ 55) × (s.msg_pos < s.msg_size) × (s.msg_size ≤ msg_in_size))

module _ {Fields Handler Msg : Type 0} (table : List (Entry Fields Handler))
    (pb_decode : Fields → List ℕ → Option Msg) (type : ℕ) where
  finish-IsBounded :
      (s : Reader Fields)
      → s.msg_pos % 63 ≡ 55
      → s.msg_size ≤ msg_in_size
      → IsBounded (finish table pb_decode type s).0
  finish-IsBounded s h k = ground arith

  start_message-IsBounded :
      (s : Reader Fields) (msg_id msg_size : ℕ) (fields : Option Fields) (piece : List ℕ)
      → s.reading ≡ false
      → IsBounded (start_message table pb_decode type 64 s msg_id msg_size fields piece).0
  start_message-IsBounded s msg_id msg_size none piece h = inl h
  start_message-IsBounded s msg_id msg_size (some f) piece h = ground arith

  next_packet-IsBounded :
      (buf : List ℕ) (s : Reader Fields)
      → s.reading ≡ true
      → IsBounded s
      → IsBounded (next_packet table pb_decode type buf 64 s).0
  next_packet-IsBounded buf s r (inl i) = cc
  next_packet-IsBounded buf s r (inr i) = ground arith

  first_packet-IsBounded :
      (buf : List ℕ) (s : Reader Fields)
      → s.reading ≡ false
      → IsBounded (first_packet table pb_decode type buf 64 s).0
  first_packet-IsBounded buf s r = go (starts_message buf)
    where
      go :
          (b : Bool)
          → IsBounded
              (if not b
                then (s, [])
                else start_message table pb_decode type 64 s
                    (header_id buf)
                    (header_size buf)
                    (message_fields table type b'i' (header_id buf))
                    (take 55 (drop 9 buf))).0
      go false = inl r
      go true =
          start_message-IsBounded s (header_id buf) (header_size buf)
            (message_fields table type b'i' (header_id buf)) (take 55 (drop 9 buf)) r

  packet-IsBounded :
      (buf : List ℕ) (s : Reader Fields) (b : Bool)
      → s.reading ≡ b
      → IsBounded s
      → IsBounded
          (if b
            then next_packet table pb_decode type buf 64 s
            else first_packet table pb_decode type buf 64 s).0
  packet-IsBounded buf s true r i = next_packet-IsBounded buf s r i
  packet-IsBounded buf s false r i = first_packet-IsBounded buf s r

  -- Every packet, a malformed one also, keeps the invariant of the reader.
  msg_read_common-IsBounded :
      (buf : List ℕ) (len : ℕ) (s : Reader Fields)
      → IsBounded s
      → IsBounded (msg_read_common table pb_decode type buf len s).0
  unfolding msg_read_common
  msg_read_common-IsBounded buf len s i = elim (ℕ_discrete len 64) [
    | yes e ↦ rw e (packet-IsBounded buf s s.reading refl i)
    | no ne ↦ ground arith
  ]

  read_all-IsBounded :
      (ps : List (List ℕ)) (s : Reader Fields)
      → IsBounded s
      → IsBounded (read_all table pb_decode type ps s).0
  unfolding read_all
  read_all-IsBounded [] s i = i
  read_all-IsBounded (p ∷ ps) s i = read_all-IsBounded ps _ (msg_read_common-IsBounded p 64 s i)

  next_write :
      (s : Reader Fields)
      → IsBounded s
      → s.reading ≡ true
      → (s.msg_pos + 63 ≤ msg_in_size + 52)
        × ((12277 < s.msg_size) ⊎ (s.msg_pos + 63 ≤ msg_in_size))
  next_write s (inl i) r = cc
  next_write s (inr i) r = elim (dec_lt 12277 s.msg_size) [
    | yes p ↦ (omega arith, inl p)
    | no p ↦ (omega arith, inr (omega arith))
  ]

  -- After any packets at all, a reader that is in the middle of a message writes the next piece at
  -- most 52 bytes past the end of `msg_in`, and inside it unless the message announced more than
  -- 12277 bytes.
  pub read_all_bounds :
      (ps : List (List ℕ)) (s : Reader Fields)
      → IsBounded s
      → (read_all table pb_decode type ps s).0.reading ≡ true
      → let s' = (read_all table pb_decode type ps s).0 in
        (s'.msg_pos + 63 ≤ msg_in_size + 52)
        × ((12277 < s'.msg_size) ⊎ (s'.msg_pos + 63 ≤ msg_in_size))
  read_all_bounds ps s i r =
      next_write (read_all table pb_decode type ps s).0 (read_all-IsBounded ps s i) r

  skip_packets :
      (n : ℕ) (s : Reader Fields) (bs : List ℕ)
      → s.reading ≡ true
      → s.msg_pos + 63 * n < s.msg_size
      → s.msg_size ≤ msg_in_size
      → let s' = (read_all table pb_decode type (packets n bs) s).0 in
        (s'.reading ≡ true) × (s'.msg_pos ≡ s.msg_pos + 63 * n)
  skip_packets zero s bs r h k = unfold read_all in (r, omega arith)
  skip_packets (suc n) s bs r h k =
      let e =
        next_packet_lem table pb_decode type s bs r (omega arith)
        ∙ finish-more table pb_decode type (stored table pb_decode type s bs) (omega arith) in
      let (r', p) =
        skip_packets n (stored table pb_decode type s bs) (drop 63 bs) r (omega arith) k in
      rw (read_all-cons table pb_decode type s (b'?' ∷ pad_to 63 bs) (packets n (drop 63 bs)) e)
        (r', omega arith)

  -- The buffer is too short by some bytes: a message whose size passes the check `msg_size >
  -- MSG_IN_SIZE` but is above 12277 makes the reader, after its first 195 packets, write the next
  -- piece past the end of `msg_in`.
  pub msg_in_overflow :
      (s : Reader Fields) (msg_id : ℕ) (fields : Fields) (body : List ℕ)
      → s.reading ≡ false
      → msg_id < 2 ^ 16
      → 12277 < length body
      → length body ≤ msg_in_size
      → message_fields table type b'i' msg_id ≡ some fields
      → let s' = (read_all table pb_decode type (packets 195 (frame msg_id body)) s).0 in
        (s'.reading ≡ true) × (msg_in_size < s'.msg_pos + 63)
  msg_in_overflow s msg_id fields body r hi lo hl hf =
      let e =
        first_packet_lem table pb_decode type s msg_id fields body r hi hl hf
        ∙ finish-more table pb_decode type (started table pb_decode type s msg_id fields body)
            (omega arith) in
      let (r', p) =
        skip_packets 194 (started table pb_decode type s msg_id fields body) (drop 55 body) refl
          (omega arith) hl in
      rw
        (read_all-cons table pb_decode type s (b'?' ∷ pad_to 63 (frame msg_id body))
          (packets 194 (drop 55 body)) e)
        (r', omega arith)
