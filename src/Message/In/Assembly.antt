-- ===== src/Message/In/Assembly.antt =====
-- What `msg_read_common` makes of the packets of one message.
use safe_t_mcu.Prelude.{
  ℕ, zero, suc, ◌+◌, ◌-◌, ◌*◌, ◌%◌, ◌^◌, ◌≤◌, ◌<◌, ◌≡◌, refl, sym, ap, ap₂, ◌∙◌, arith, Bool, true,
  false, List, [], ◌∷◌, ◌++◌, append_assoc, append-nil, Option, some, if◌then◌else◌, length, Memory,
  read, write_at, read-add, read-write_at, read-write_at_outside, write_at-append, take, drop,
  take_all, take-append-drop, length-take, length-drop, inl,
}
use safe_t_mcu.Message.{Entry, message_fields}
use safe_t_mcu.Message.Packets.{
  pad_to, pad_to_short, pad_to_full, padding, length-pad_to, packets, packet_count, frame,
}
use safe_t_mcu.Message.In.{
  Event, Reader, msg_process, msg_read_common, read_all, finish, first_packet, next_packet,
  start_message, msg_in_size,
}

-- A stream that ends in a padded piece is read back up to its end.
read_last :
    (n p : ℕ) (m : Memory) (done bs : List ℕ)
    → read m 0 p ≡ done
    → length bs ≤ n
    → read (write_at m p (pad_to n bs)) 0 (p + length bs) ≡ done ++ bs
read_last n p m done bs h k =
    read-add p (length bs) m' 0
    ∙ ap₂ ◌++◌ (read-write_at_outside p (pad_to n bs) m p 0 (inl (omega arith)) ∙ h)
        (ap (λ (q : ℕ). read m' q (length bs)) (omega arith) ∙ last)
  where
    m' : Memory
    m' = write_at m p (pad_to n bs)

    last : read m' p (length bs) ≡ bs
    last =
        rw (pad_to_short n bs k, write_at-append bs (padding n bs) m p)
          (read-write_at_outside (length bs) (padding n bs) (write_at m p bs) (p + length bs) p
              (inl (omega arith))
            ∙ read-write_at bs m p)

-- A piece that fills its packet.
read_piece :
    (n p : ℕ) (m : Memory) (done bs : List ℕ)
    → read m 0 p ≡ done
    → n ≤ length bs
    → read (write_at m p (pad_to n bs)) 0 (p + n) ≡ done ++ take n bs
read_piece n p m done bs h k =
    ap₂ (λ (c : List ℕ) (q : ℕ). read (write_at m p c) 0 (p + q)) (pad_to_full n bs k ∙ sym whole)
      (sym size)
    ∙ read_last n p m done (take n bs) h (omega (arith, length-take n bs))
  where
    size : length (take n bs) ≡ n
    size = omega (arith, length-take n bs)

    whole : pad_to n (take n bs) ≡ take n bs
    whole =
        pad_to_full n (take n bs) (omega (arith, length-take n bs))
        ∙ take_all n (take n bs) (omega (arith, length-take n bs))

module _ {Fields Handler Msg : Type 0} (table : List (Entry Fields Handler))
    (pb_decode : Fields → List ℕ → Option Msg) (type : ℕ) where
  -- The reader with the piece `bs` put behind what it has.
  abbrev pub stored : Reader Fields → List ℕ → Reader Fields
  stored s bs = record s {
    msg_in = write_at s.msg_in s.msg_pos (pad_to 63 bs);
    msg_pos = s.msg_pos + 63;
  }

  pub next_packet_lem :
      (s : Reader Fields) (bs : List ℕ)
      → s.reading ≡ true
      → s.msg_pos < 2 ^ 31
      → msg_read_common table pb_decode type (b'?' ∷ pad_to 63 bs) 64 s
        ≡ finish table pb_decode type (stored s bs)
  unfolding msg_read_common
  next_packet_lem s bs r h =
      ap
        (λ (b : Bool).
          if b
          then finish table pb_decode type (record s {
            msg_in = write_at s.msg_in s.msg_pos (take 63 (pad_to 63 bs));
            msg_pos = (s.msg_pos + 63) % 2 ^ 32;
          })
          else first_packet table pb_decode type (b'?' ∷ pad_to 63 bs) 64 s)
        r
      ∙ ap₂
          (λ (c : List ℕ) (q : ℕ).
            finish table pb_decode type
              (record s { msg_in = write_at s.msg_in s.msg_pos c; msg_pos = q }))
          (take_all 63 (pad_to 63 bs) (omega (arith, length-pad_to 63 bs))) (omega arith)

  finish-done :
      (s : Reader Fields)
      → s.msg_size ≤ s.msg_pos
      → finish table pb_decode type s ≡ (
        record s { msg_pos = 0; reading = false },
        msg_process table pb_decode type s.msg_id s.fields (read s.msg_in 0 s.msg_size),
      )
  finish-done s h = ground arith

  pub finish-more :
      (s : Reader Fields) → s.msg_pos < s.msg_size → finish table pb_decode type s ≡ (s, [])
  finish-more s h = ground arith

  -- The rest of a message: `done` is what came, `bs` what is left, in `n + 1` packets.
  record Rest (s : Reader Fields) (done bs : List ℕ) : Type 0 where
    reads : s.reading ≡ true
    got : read s.msg_in 0 s.msg_pos ≡ done
    left : s.msg_pos + length bs ≡ s.msg_size
    fits : s.msg_size ≤ msg_in_size

  -- What a finished message leaves.
  record Delivered (s : Reader Fields) (body : List ℕ)
      (out : Reader Fields × List (Event Handler Msg)) : Type 0 where
    pub events : out.1 ≡ msg_process table pb_decode type s.msg_id s.fields body
    pub idle : out.0.reading ≡ false

  pub read_all-cons :
      (s : Reader Fields) (p : List ℕ) (ps : List (List ℕ)) {s' : Reader Fields}
      → msg_read_common table pb_decode type p 64 s ≡ (s', [])
      → read_all table pb_decode type (p ∷ ps) s ≡ read_all table pb_decode type ps s'
  unfolding read_all
  read_all-cons s p ps e = rw e

  read_all-last :
      (s : Reader Fields) (p : List ℕ) {out : Reader Fields × List (Event Handler Msg)}
      → msg_read_common table pb_decode type p 64 s ≡ out
      → read_all table pb_decode type (p ∷ []) s ≡ (out.0, out.1 ++ [])
  unfolding read_all
  read_all-last s p e = rw e

  Rest-stored :
      (s : Reader Fields) (done bs : List ℕ)
      → Rest s done bs
      → 63 ≤ length bs
      → Rest (stored s bs) (done ++ take 63 bs) (drop 63 bs)
  Rest-stored s done bs r h = record {
    reads = r.reads;
    got = read_piece 63 s.msg_pos s.msg_in done bs r.got h;
    left = omega (arith, length-drop 63 bs);
    fits = r.fits;
  }

  read_tail :
      (n : ℕ) (s : Reader Fields) (done bs : List ℕ)
      → Rest s done bs
      → 63 * n < length bs
      → length bs ≤ 63 * n + 63
      → Delivered s (done ++ bs) (read_all table pb_decode type (packets (suc n) bs) s)
  read_tail zero s done bs r l k =
      rw
        (read_all-last s (b'?' ∷ pad_to 63 bs)
          (next_packet_lem s bs r.reads (omega arith) ∙ finish-done (stored s bs) (omega arith)))
        (record {
          events =
              append-nil (msg_process table pb_decode type s.msg_id s.fields (read m' 0 s.msg_size))
              ∙ ap (msg_process table pb_decode type s.msg_id s.fields)
                  (ap (read m' 0) (sym r.left) ∙ read_last 63 s.msg_pos s.msg_in done bs r.got k);
          idle = refl;
        })
    where
      m' : Memory
      m' = write_at s.msg_in s.msg_pos (pad_to 63 bs)
  read_tail (suc n) s done bs r l k =
      let rest =
        read_tail n (stored s bs) (done ++ take 63 bs) (drop 63 bs)
          (Rest-stored s done bs r (omega arith)) (omega (arith, length-drop 63 bs))
          (omega (arith, length-drop 63 bs)) in
      rw
        (read_all-cons s (b'?' ∷ pad_to 63 bs) (packets (suc n) (drop 63 bs))
          (next_packet_lem s bs r.reads (omega arith) ∙ finish-more (stored s bs) (omega arith)))
        (record {
          events =
              rest.events
              ∙ ap (msg_process table pb_decode type s.msg_id s.fields) (
                  append_assoc done (take 63 bs) (drop 63 bs)
                  ∙ ap (λ (q : List ℕ). done ++ q) (take-append-drop 63 bs));
          idle = rest.idle;
        })

  -- The reader after the first packet of a message.
  abbrev pub started : Reader Fields → ℕ → Fields → List ℕ → Reader Fields
  started s msg_id fields body = record s {
    reading = true;
    msg_in = write_at s.msg_in 0 (pad_to 55 body);
    msg_id = msg_id;
    msg_size = length body;
    msg_pos = 55;
    fields = some fields;
  }

  pub first_packet_lem :
      (s : Reader Fields) (msg_id : ℕ) (fields : Fields) (body : List ℕ)
      → s.reading ≡ false
      → msg_id < 2 ^ 16
      → length body ≤ msg_in_size
      → message_fields table type b'i' msg_id ≡ some fields
      → msg_read_common table pb_decode type (b'?' ∷ pad_to 63 (frame msg_id body)) 64 s
        ≡ finish table pb_decode type (started s msg_id fields body)
  unfolding msg_read_common
  first_packet_lem s msg_id fields body r hi hl hf =
      ap
        (λ (b : Bool).
          if b
          then next_packet table pb_decode type (b'?' ∷ pad_to 63 (frame msg_id body)) 64 s
          else first_packet table pb_decode type (b'?' ∷ pad_to 63 (frame msg_id body)) 64 s)
        r
      ∙ ap₂
          (λ (i n : ℕ).
            start_message table pb_decode type 64 s i n (message_fields table type b'i' i)
              (take 55 (pad_to 55 body)))
          (omega arith) (omega arith)
      ∙ ap₂
          (λ (o : Option Fields) (c : List ℕ).
            start_message table pb_decode type 64 s msg_id (length body) o c)
          hf (take_all 55 (pad_to 55 body) (omega (arith, length-pad_to 55 body)))
      ∙ ground arith

  read_message :
      (n : ℕ) (s : Reader Fields) (msg_id : ℕ) (fields : Fields) (body : List ℕ)
      → s.reading ≡ false
      → msg_id < 2 ^ 16
      → length body ≤ msg_in_size
      → message_fields table type b'i' msg_id ≡ some fields
      → 63 * n < length body + 8
      → length body + 8 ≤ 63 * n + 63
      → Delivered
          (started s msg_id fields body)
          body
          (read_all table pb_decode type (packets (suc n) (frame msg_id body)) s)
  read_message zero s msg_id fields body r hi hl hf l k =
      let s' = started s msg_id fields body in
      rw
        (read_all-last s (b'?' ∷ pad_to 63 (frame msg_id body))
          (first_packet_lem s msg_id fields body r hi hl hf ∙ finish-done s' (omega arith)))
        (record {
          events =
              append-nil (
                msg_process table pb_decode type msg_id (some fields)
                  (read s'.msg_in 0 (length body)))
              ∙ ap (msg_process table pb_decode type msg_id (some fields)) (
                  ap (read s'.msg_in 0) (omega arith)
                  ∙ read_last 55 0 s.msg_in [] body (unfold read in refl) (omega arith));
          idle = refl;
        })
  read_message (suc n) s msg_id fields body r hi hl hf l k =
      let s' = started s msg_id fields body in
      let rest =
        read_tail n s' (take 55 body) (drop 55 body)
          (record {
            reads = refl;
            got = read_piece 55 0 s.msg_in [] body (unfold read in refl) (omega arith);
            left = omega (arith, length-drop 55 body);
            fits = hl;
          })
          (omega (arith, length-drop 55 body)) (omega (arith, length-drop 55 body)) in
      rw
        (read_all-cons s (b'?' ∷ pad_to 63 (frame msg_id body)) (packets (suc n) (drop 55 body))
          (first_packet_lem s msg_id fields body r hi hl hf ∙ finish-more s' (omega arith)))
        (record {
          events =
              rest.events
              ∙ ap (msg_process table pb_decode type msg_id (some fields))
                  (take-append-drop 55 body);
          idle = rest.idle;
        })

  -- A message that fits `msg_in` and whose id the table has, framed into packets and read from an idle
  -- state, is processed once, with the bytes that were sent, and the reader is idle again.
  pub read_all-packets :
      (s : Reader Fields) (msg_id : ℕ) (fields : Fields) (body : List ℕ)
      → s.reading ≡ false
      → msg_id < 2 ^ 16
      → length body ≤ msg_in_size
      → message_fields table type b'i' msg_id ≡ some fields
      → let out =
          read_all table pb_decode type
            (packets (packet_count (frame msg_id body)) (frame msg_id body))
            s in
        (out.1 ≡ msg_process table pb_decode type msg_id (some fields) body)
        × (out.0.reading ≡ false)
  read_all-packets s msg_id fields body r hi hl hf =
      let n : ℕ = packet_count (frame msg_id body) - 1 in
      let count : packet_count (frame msg_id body) ≡ suc n = omega arith in
      let d = read_message n s msg_id fields body r hi hl hf (omega arith) (omega arith) in
      rw count (d.events, d.idle)
