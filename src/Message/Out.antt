-- ===== src/Message/Out.antt =====
-- The outgoing direction of firmware/messages.c: a ring of `slots` packets of 64 bytes that
-- `msg_write_common` fills and `msg_out_data` empties. The debug link has a copy of the code over
-- a ring of another size, so the size is a parameter.
pub mod Fill
pub mod Ring
use safe_t_mcu.Prelude.{
  ℕ, zero, suc, ◌+◌, ◌-◌, ◌*◌, ◌/◌, ◌%◌, ◌^◌, Bool, true, false, List, [], ◌∷◌, Option, none, some,
  ◌==◌, if◌then◌else◌, ◌&&◌, length, Memory, update, read,
}
use safe_t_mcu.Message.{Entry, message_fields}
use mathlib.Core.List.{foldl}

-- `msg_out_start`, `msg_out_end`, `msg_out_cur` and `msg_out`.
pub record Out : Type 0 where
  pub start : ℕ
  pub end : ℕ
  pub cur : ℕ
  pub buf : Memory

-- MSG_OUT_SIZE / 64 and MSG_DEBUG_OUT_SIZE / 64
abbrev pub msg_out_slots : ℕ
msg_out_slots = 12 * 1024 / 64

abbrev pub msg_debug_out_slots : ℕ
msg_debug_out_slots = 4 * 1024 / 64

module _ (slots : ℕ) where
  -- The first byte of a packet is preceded by '?'.
  abbrev pub open_packet : Out → Out
  open_packet o =
      if o.cur == 0 then record o { buf = update o.buf (o.end * 64) b'?'; cur = 1 } else o

  abbrev pub close_packet : Out → Out
  close_packet o = record o { cur = 0; end = (o.end + 1) % slots }

  abbrev pub put_byte : ℕ → Out → Out
  put_byte c o = record o { buf = update o.buf (o.end * 64 + o.cur) c; cur = o.cur + 1 }

  -- `msg_out_append`
  pub msg_out_append : Out → ℕ → Out
  msg_out_append o c =
      let o' = put_byte c (open_packet o) in if o'.cur == 64 then close_packet o' else o'

  -- The loop of `msg_out_pad`, on the rounds that are left.
  pub pad_loop : ℕ → Out → Out
  pad_loop zero o = o
  pad_loop (suc n) o = pad_loop n (put_byte 0 o)

  -- `msg_out_pad`
  pub msg_out_pad : Out → Out
  unfolding pad_loop
  msg_out_pad o = if o.cur == 0 then o else close_packet (pad_loop (64 - o.cur) o)

  -- `pb_callback_out`
  pub pb_callback_out : Out → List ℕ → Out
  pb_callback_out = foldl msg_out_append

  -- `msg_out_data`: the packet, if there is one.
  pub msg_out_data : Out → Option (List ℕ) × Out
  msg_out_data o =
      if o.start == o.end
      then (none, o)
      else (some (read o.buf (o.start * 64) 64), record o { start = (o.start + 1) % slots })

-- The two rings.
pub record Rings : Type 0 where
  pub normal : Out
  pub debug : Out

-- The part of `msg_write_common` from `append('#')` to the padding: the id and the length, high
-- bytes first, then what `pb_encode` streams.
module _ (slots : ℕ) where
  abbrev append_header : ℕ → ℕ → Out → Out
  append_header msg_id len o =
      let append : Out → ℕ → Out = msg_out_append slots in
      let o1 = append (append o b'#') b'#' in
      let o2 = append (append o1 (msg_id / 2 ^ 8 % 256)) (msg_id % 256) in
      let o3 = append (append o2 (len / 2 ^ 24 % 256)) (len / 2 ^ 16 % 256) in
      append (append o3 (len / 2 ^ 8 % 256)) (len % 256)

  pub write_message : ℕ → List ℕ → Out → Out
  write_message msg_id body o =
      let len = length body % 2 ^ 32 in
      msg_out_pad slots (pb_callback_out slots (append_header msg_id len o) body)

-- `debug_link` is the build's DEBUG_LINK. `pb_encode` is nanopb's: it streams the same bytes that
-- it counts, or it fails both times.
module _ {Fields Handler Msg : Type 0} (table : List (Entry Fields Handler)) (debug_link : Bool)
    (pb_encode : Fields → Msg → Option (List ℕ)) where
  -- `msg_write_common`: its result, and the rings that it leaves.
  pub msg_write_common : ℕ → ℕ → Msg → Rings → Bool × Rings
  msg_write_common type msg_id msg r = elim (message_fields table type b'o' msg_id) [
    | none ↦ (false, r)
    | some fields ↦ elim (pb_encode fields msg) [
      | none ↦ (false, r)
      | some body ↦
          if type == b'n'
          then (true, record r { normal = write_message msg_out_slots msg_id body r.normal })
          else if debug_link && type == b'd'
          then (true, record r { debug = write_message msg_debug_out_slots msg_id body r.debug })
          else (false, r)
    ]
  ]
