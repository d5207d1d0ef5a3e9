-- ===== src/Message/Tests.antt =====
-- The theorems on messages with a table of one message, whose encoding is the message itself.
use safe_t_mcu.Prelude.{
  ℕ, ◌+◌, ◌≤◌, ◌<◌, ◌≡◌, ◌≢◌, ◌⊎◌, inl, refl, arith, true, false, List, [], ◌∷◌, ◌++◌, Option, none,
  some, replicate, length-replicate, if◌then◌else◌, ◌==◌,
}
use safe_t_mcu.Message.{starts_message, Entry, message_fields, header_size}
use safe_t_mcu.Message.Packets.{packets, packet_count, frame}
use safe_t_mcu.Message.Out.{Out, Rings, write_message, msg_out_slots, msg_write_common}
use safe_t_mcu.Message.Out.Ring.{IsIdle, contents, write_message_appends, msg_write_common_lem}
use safe_t_mcu.Message.In.{Reader, msg_process, msg_read_common, read_all, msg_in_size}
use safe_t_mcu.Message.In.Assembly.{read_all-packets}
use safe_t_mcu.Message.In.Bounds.{read_all_bounds, msg_in_overflow}
use safe_t_mcu.Message.Tiny.{Taken, Mailbox, msg_read_tiny, msg_read_tiny_accepts, no_message}

abbrev table : List (Entry ℕ ℕ)
table =
    record { type = b'n'; dir = b'i'; msg_id = 1; fields = 0; process_func = 7 }
    ∷ record { type = b'n'; dir = b'o'; msg_id = 2; fields = 0; process_func = 0 }
    ∷ []

abbrev pb_decode : ℕ → List ℕ → Option (List ℕ)
pb_decode fields raw = some raw

abbrev empty_ring : Out
empty_ring = record { start = 0; end = 0; cur = 0; buf = λ _. 0 }

abbrev rings : Rings
rings = record { normal = empty_ring; debug = empty_ring }

empty_IsIdle : IsIdle 192 empty_ring
empty_IsIdle = record { closed = refl; start_in = omega arith; end_in = omega arith }

abbrev idle : Reader ℕ
idle = record {
  reading = false;
  msg_in = λ _. 0;
  msg_id = 0;
  msg_size = 0;
  msg_pos = 0;
  fields = none;
}

abbrev body : List ℕ
body = 10 ∷ 20 ∷ 30 ∷ []

write_message_appends_example :
    let o' = write_message 192 2 body empty_ring in
    IsIdle 192 o'
    × (contents 192 o'
        ≡ contents 192 empty_ring ++ packets (packet_count (frame 2 body)) (frame 2 body))
write_message_appends_example =
    write_message_appends 192 2 body empty_ring empty_IsIdle (omega arith) (omega arith)

msg_write_common_lem_example :
    let (ok, r') = msg_write_common table false pb_decode b'n' 2 body rings in
    (ok ≡ true)
    × IsIdle msg_out_slots r'.normal
    × (contents msg_out_slots r'.normal
        ≡ contents msg_out_slots empty_ring ++ packets (packet_count (frame 2 body)) (frame 2 body))
    × (r'.debug ≡ empty_ring)
unfolding message_fields
msg_write_common_lem_example =
    msg_write_common_lem table false pb_decode 2 body rings 0 body refl refl (omega arith)
      empty_IsIdle (omega arith)

read_all-packets_example :
    let out =
      read_all table pb_decode b'n' (packets (packet_count (frame 1 body)) (frame 1 body)) idle in
    (out.1 ≡ msg_process table pb_decode b'n' 1 (some 0) body) × (out.0.reading ≡ false)
unfolding message_fields
read_all-packets_example =
    read_all-packets table pb_decode b'n' idle 1 0 body refl (omega arith) (omega arith) refl

abbrev long_body : List ℕ
long_body = replicate 12288 0

msg_in_overflow_example :
    let s' = (read_all table pb_decode b'n' (packets 195 (frame 1 long_body)) idle).0 in
    (s'.reading ≡ true) × (msg_in_size < s'.msg_pos + 63)
unfolding message_fields
msg_in_overflow_example =
    msg_in_overflow table pb_decode b'n' idle 1 0 long_body refl (omega arith)
      (rw (length-replicate {A = ℕ} 12288 0) (omega arith))
      (rw (length-replicate {A = ℕ} 12288 0) (omega arith)) refl

-- A first packet that announces 100 bytes.
abbrev announced : List (List ℕ)
announced = (b'?' ∷ b'#' ∷ b'#' ∷ 0 ∷ 1 ∷ 0 ∷ 0 ∷ 0 ∷ 100 ∷ replicate 55 0) ∷ []

announced_reading : (read_all table pb_decode b'n' announced idle).0.reading ≡ true
unfolding read_all msg_read_common message_fields
announced_reading = refl

read_all_bounds_example :
    let s' = (read_all table pb_decode b'n' announced idle).0 in
    (s'.msg_pos + 63 ≤ msg_in_size + 52) × ((12277 < s'.msg_size) ⊎ (s'.msg_pos + 63 ≤ msg_in_size))
read_all_bounds_example =
    read_all_bounds table pb_decode b'n' announced idle (inl refl) announced_reading

abbrev tiny_packet : List ℕ
tiny_packet = b'?' ∷ b'#' ∷ b'#' ∷ 0 ∷ 1 ∷ 0 ∷ 0 ∷ 0 ∷ 2 ∷ replicate 55 0

abbrev tiny_fields : ℕ → Option ℕ
tiny_fields msg_id = if msg_id == 1 then some 0 else none

abbrev no_mail : Mailbox (List ℕ)
no_mail = record { msg_tiny_id = no_message; msg_tiny = none }

tiny_taken : (msg_read_tiny tiny_fields pb_decode tiny_packet 64 no_mail).0.msg_tiny_id ≢ no_message
unfolding msg_read_tiny
tiny_taken = omega arith

msg_read_tiny_accepts_example :
    (◌≡◌ {A = ℕ} 64 64)
    × (starts_message tiny_packet ≡ true)
    × (header_size tiny_packet + 9 ≤ 64)
    × Taken tiny_fields pb_decode tiny_packet
        (msg_read_tiny tiny_fields pb_decode tiny_packet 64 no_mail)
msg_read_tiny_accepts_example =
    msg_read_tiny_accepts tiny_fields pb_decode tiny_packet 64 no_mail refl tiny_taken
