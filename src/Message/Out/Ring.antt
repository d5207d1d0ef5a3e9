-- ===== src/Message/Out/Ring.antt =====
-- The ring of outgoing packets as a queue: what is written is appended, what is taken is removed.
use safe_t_mcu.Prelude.{
  ℕ, zero, suc, ◌+◌, ◌-◌, ◌*◌, ◌%◌, ◌^◌, ◌≤◌, ◌<◌, ◌≡◌, ◌≢◌, ◌⊎◌, refl, sym, ap, ap₂, ◌∙◌, arith,
  Bool, true, List, [], ◌∷◌, ◌++◌, Option, none, some, length, Memory, write_at, read,
  read-write_at, read-write_at_outside, append-nil, append_assoc, inl, inr, drop,
}
use safe_t_mcu.Message.Packets.{pad_to, length-pad_to, packets, packet_count, frame}
use safe_t_mcu.Message.{Entry, message_fields}
use safe_t_mcu.Message.Out.{
  Out, Rings, msg_out_data, msg_out_slots, msg_write_common, msg_out_pad, write_message,
  pb_callback_out,
}
use safe_t_mcu.Message.Out.Fill.{put_packet, put_packets, pad-append}
use native.Mathlib.Nat.{mod-eq_of_lt, mod-eq-sub-mod, mod-add-mod}
use native.Mathlib.Numerals.{add-one}
use native.Mathlib.Decide.{dec_lt, ℕ_discrete}

-- Between messages: no packet is open, and both ends are slots.
pub record IsIdle (slots : ℕ) (o : Out) : Type 0 where
  pub closed : o.cur ≡ 0
  pub start_in : o.start < slots
  pub end_in : o.end < slots

module _ (slots : ℕ) where
  -- The `n` packets from slot `s` on, going round at `slots`.
  abbrev pub window : Memory → ℕ → ℕ → List (List ℕ)
  window m s zero = []
  window m s (suc n) = read m (s * 64) 64 ∷ window m ((s + 1) % slots) n

  -- How many packets wait.
  abbrev pub used : Out → ℕ
  used o = (o.end + slots - o.start) % slots

  -- The packets that wait, in the order in which they will be sent.
  abbrev pub contents : Out → List (List ℕ)
  contents o = window o.buf o.start (used o)

  -- The remainder of a number below twice the modulus.
  mod_once :
      (x : ℕ)
      → x < slots + slots
      → ((x < slots) × (x % slots ≡ x)) ⊎ ((slots ≤ x) × (x % slots + slots ≡ x))
  mod_once x h = elim (dec_lt x slots) [
    | yes p ↦ inl (p, mod-eq_of_lt p)
    | no p ↦ inr (
      omega arith,
      omega (
        arith,
        mod-eq-sub-mod {n = x} {m = slots} (omega arith),
        mod-eq_of_lt {n = x - slots} {m = slots} (omega arith),
      ),
    )
  ]

  -- Fewer than `slots` steps round the ring do not come back to the start.
  add-mod-ne : (h k : ℕ) → h < slots → suc k < slots → (h + suc k) % slots ≢ h
  add-mod-ne h k hh hk = omega (arith, mod_once (h + suc k) (omega arith))

  -- A write to one slot leaves another.
  read_other_slot :
      (m : Memory) (c : List ℕ) (e s : ℕ)
      → length c ≡ 64
      → e ≢ s
      → read (write_at m (e * 64) c) (s * 64) 64 ≡ read m (s * 64) 64
  read_other_slot m c e s h ne = elim (dec_lt e s) [
    | yes p ↦ read-write_at_outside 64 c m (e * 64) (s * 64) (inr (omega arith))
    | no p ↦ read-write_at_outside 64 c m (e * 64) (s * 64) (inl (omega arith))
  ]

  read_slot : (m : Memory) (c : List ℕ) (p k : ℕ) → length c ≡ k → read (write_at m p c) p k ≡ c
  read_slot m c p k e = rw (← e) (read-write_at c m p)

  -- A packet written just past a window extends it.
  window-write_at :
      (m : Memory) (c : List ℕ) (n s e : ℕ)
      → length c ≡ 64
      → s < slots
      → n < slots
      → e ≡ (s + n) % slots
      → window (write_at m (e * 64) c) s (suc n) ≡ window m s n ++ (c ∷ [])
  window-write_at m c zero s e h hs hn p =
      let e' : e ≡ s = omega (arith, mod_once (s + 0) (omega arith)) in
      rw e' (ap (λ (r : List ℕ). r ∷ []) (read_slot m c (s * 64) 64 h))
  window-write_at m c (suc n) s e h hs hn p =
      ap₂ ◌∷◌ (read_other_slot m c e s h (rw p (add-mod-ne s n hs hn)))
        (window-write_at m c n ((s + 1) % slots) e h (omega arith) (omega arith) (p ∙ shift))
    where
      shift : (s + suc n) % slots ≡ ((s + 1) % slots + n) % slots
      shift = rw mod-add-mod (ap (λ k. k % slots) (omega arith))

  used-put_packet :
      (o : Out) (c : List ℕ)
      → IsIdle slots o
      → used o + 1 < slots
      → used (put_packet slots o c) ≡ used o + 1
  used-put_packet o c i h = omega (
    arith,
    mod_once (o.end + 1) (omega arith),
    mod_once (o.end + slots - o.start) (omega arith),
    mod_once ((o.end + 1) % slots + slots - o.start) (omega arith),
  )

  put_packet-IsIdle : (o : Out) (c : List ℕ) → IsIdle slots o → IsIdle slots (put_packet slots o c)
  put_packet-IsIdle o c i = omega arith

  contents-put_packet :
      (o : Out) (c : List ℕ)
      → IsIdle slots o
      → length c ≡ 63
      → used o + 1 < slots
      → contents (put_packet slots o c) ≡ contents o ++ ((b'?' ∷ c) ∷ [])
  contents-put_packet o c i h k =
      rw (used-put_packet o c i k, add-one)
        (window-write_at o.buf (b'?' ∷ c) (used o) o.start o.end (omega arith) i.start_in
          (omega arith)
          (omega (
            arith,
            mod_once (o.end + slots - o.start) (omega arith),
            mod_once (o.start + used o) (omega arith),
          )))

  -- What `n` packets written one after the other leave.
  record Appended (o o' : Out) (ps : List (List ℕ)) (n : ℕ) : Type 0 where
    idle : IsIdle slots o'
    more : used o' ≡ used o + n
    bytes : contents o' ≡ contents o ++ ps

  put_packets-Appended :
      (n : ℕ) (o : Out) (bs : List ℕ)
      → IsIdle slots o
      → used o + n < slots
      → Appended o (put_packets slots n o bs) (packets n bs) n
  put_packets-Appended zero o bs i h = record {
    idle = i;
    more = omega arith;
    bytes = sym (append-nil (contents o));
  }
  put_packets-Appended (suc n) o bs i h =
      let c : List ℕ = pad_to 63 bs in
      let o1 = put_packet slots o c in
      let u : used o1 ≡ used o + 1 = used-put_packet o c i (omega arith) in
      let rest = put_packets-Appended n o1 (drop 63 bs) (put_packet-IsIdle o c i) (omega arith) in
      record {
        idle = rest.idle;
        more = omega arith;
        bytes =
            rest.bytes
            ∙ ap (λ (q : List (List ℕ)). q ++ packets n (drop 63 bs))
                (contents-put_packet o c i (length-pad_to 63 bs) (omega arith))
            ∙ append_assoc (contents o) ((b'?' ∷ c) ∷ []) (packets n (drop 63 bs));
      }

  -- Header and body are one stream.
  write_message-frame :
      (msg_id : ℕ) (body : List ℕ) (o : Out)
      → length body % 2 ^ 32 ≡ length body
      → write_message slots msg_id body o
        ≡ msg_out_pad slots (pb_callback_out slots o (frame msg_id body))
  unfolding write_message pb_callback_out
  write_message-frame msg_id body o h = rw h

  -- The stream of a message, cut into packets, is what `write_message` appends.
  write_message-put_packets :
      (msg_id : ℕ) (body : List ℕ) (o : Out)
      → o.cur ≡ 0
      → length body < 2 ^ 32
      → write_message slots msg_id body o
        ≡ put_packets slots (packet_count (frame msg_id body)) o (frame msg_id body)
  write_message-put_packets msg_id body o h k =
      let f : List ℕ = frame msg_id body in
      let short : length body % 2 ^ 32 ≡ length body = omega arith in
      let count : suc (packet_count f - 1) ≡ packet_count f = omega arith in
      write_message-frame msg_id body o short
      ∙ pad-append slots (packet_count f - 1) o f h (omega arith) (omega arith)
      ∙ ap (λ (n : ℕ). put_packets slots n o f) count

  -- In an idle ring with room for the packets, a message is appended behind those that wait, cut into
  -- the packets of its frame, and the ring is idle again.
  pub write_message_appends :
      (msg_id : ℕ) (body : List ℕ) (o : Out)
      → IsIdle slots o
      → length body < 2 ^ 32
      → used o + packet_count (frame msg_id body) < slots
      → let o' = write_message slots msg_id body o in
        IsIdle slots o'
        × (contents o'
            ≡ contents o ++ packets (packet_count (frame msg_id body)) (frame msg_id body))
  write_message_appends msg_id body o i h k =
      let a = put_packets-Appended (packet_count (frame msg_id body)) o (frame msg_id body) i k in
      rw (write_message-put_packets msg_id body o i.closed h) (a.idle, a.bytes)

  -- The first packet of a queue, and the rest.
  abbrev pub pop : List (List ℕ) → Option (List ℕ) × List (List ℕ)
  pop [] = (none, [])
  pop (p ∷ ps) = (some p, ps)

  abbrev taken : Out → Out
  taken o = record o { start = (o.start + 1) % slots }

  used_empty : (o : Out) → IsIdle slots o → o.start ≡ o.end → used o ≡ 0
  used_empty o i e = omega (arith, mod_once (o.end + slots - o.start) (omega arith))

  used-taken : (o : Out) → IsIdle slots o → o.start ≢ o.end → used o ≡ suc (used (taken o))
  used-taken o i ne = omega (
    arith,
    mod_once (o.start + 1) (omega arith),
    mod_once (o.end + slots - o.start) (omega arith),
    mod_once (o.end + slots - (o.start + 1) % slots) (omega arith),
  )

  -- `msg_out_data` takes the oldest packet of the ring, and says so when there is none.
  pub msg_out_data_pops :
      (o : Out)
      → IsIdle slots o
      → (let (p, o') = msg_out_data slots o in (p, contents o')) ≡ pop (contents o)
  unfolding msg_out_data
  msg_out_data_pops o i = elim (ℕ_discrete o.start o.end) [
    | yes e ↦ let none_left : used o ≡ 0 = used_empty o i e in ground arith
    | no ne ↦ let some_left : used o ≡ suc (used (taken o)) = used-taken o i ne in ground arith
  ]

-- `msg_write_common` on its way to the normal ring.
msg_write_common-normal :
    {Fields Handler Msg : Type 0} (table : List (Entry Fields Handler)) (debug_link : Bool)
    (pb_encode : Fields → Msg → Option (List ℕ)) (msg_id : ℕ) (msg : Msg) (r : Rings)
    (fields : Fields) (body : List ℕ)
    → message_fields table b'n' b'o' msg_id ≡ some fields
    → pb_encode fields msg ≡ some body
    → msg_write_common table debug_link pb_encode b'n' msg_id msg r
      ≡ (true, record r { normal = write_message msg_out_slots msg_id body r.normal })
unfolding msg_write_common
msg_write_common-normal table debug_link pb_encode msg_id msg r fields body hf he = ground arith

-- When the table has the outgoing message, nanopb encodes it, and the normal ring is idle with
-- room for its packets, `msg_write_common` returns true, appends exactly the packets of the framed
-- message behind those that wait, leaves the ring idle and does not touch the debug ring.
pub msg_write_common_lem :
    {Fields Handler Msg : Type 0} (table : List (Entry Fields Handler)) (debug_link : Bool)
    (pb_encode : Fields → Msg → Option (List ℕ)) (msg_id : ℕ) (msg : Msg) (r : Rings)
    (fields : Fields) (body : List ℕ)
    → message_fields table b'n' b'o' msg_id ≡ some fields
    → pb_encode fields msg ≡ some body
    → length body < 2 ^ 32
    → IsIdle msg_out_slots r.normal
    → used msg_out_slots r.normal + packet_count (frame msg_id body) < msg_out_slots
    → let (ok, r') = msg_write_common table debug_link pb_encode b'n' msg_id msg r in
      (ok ≡ true)
      × IsIdle msg_out_slots r'.normal
      × (contents msg_out_slots r'.normal
          ≡ contents msg_out_slots r.normal
            ++ packets (packet_count (frame msg_id body)) (frame msg_id body))
      × (r'.debug ≡ r.debug)
msg_write_common_lem table debug_link pb_encode msg_id msg r fields body hf he hl hi hr =
    let (idle, bytes) = write_message_appends msg_out_slots msg_id body r.normal hi hl hr in
    rw (msg_write_common-normal table debug_link pb_encode msg_id msg r fields body hf he)
      (refl, idle, bytes, refl)
