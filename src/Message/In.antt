-- ===== src/Message/In.antt =====
-- The incoming direction of firmware/messages.c: `msg_read_common` puts the packets of a message
-- together and hands it to its process function.
pub mod Bounds
pub mod Assembly
use safe_t_mcu.Prelude.{
  ℕ, ◌+◌, ◌-◌, ◌*◌, ◌%◌, ◌^◌, Bool, true, false, not, ◌&&◌, ◌||◌, List, [], ◌∷◌, ◌++◌, Option, none,
  some, ltb, leb, ◌==◌, if◌then◌else◌, Memory, read, write_at, get_or, take, drop,
}
use safe_t_mcu.Message.{
  Entry, message_fields, message_process_func, starts_message, header_id, header_size,
}

abbrev pub msg_in_size : ℕ
msg_in_size = 12 * 1024

-- What leaves the module: a call of a process function with the decoded message, or
-- `fsm_sendFailure`.
pub data Event (Handler Msg : Type 0) : Type 0 where
  process : Handler → Msg → Event Handler Msg
  data_error unexpected_message too_big : Event Handler Msg

-- The static variables of `msg_read_common`; `reading` is READSTATE_READING.
pub record Reader (Fields : Type 0) : Type 0 where
  pub reading : Bool
  pub msg_in : Memory
  pub msg_id : ℕ
  pub msg_size : ℕ
  pub msg_pos : ℕ
  pub fields : Option Fields

-- `pb_decode` is nanopb's, over the bytes of a stream.
module _ {Fields Handler Msg : Type 0} (table : List (Entry Fields Handler))
    (pb_decode : Fields → List ℕ → Option Msg) where
  abbrev pub run_process_func : Option Handler → Msg → List (Event Handler Msg)
  run_process_func none msg = []
  run_process_func (some f) msg = process f msg ∷ []

  -- `msg_process`; no `fields` is a null pointer that nanopb would be given, which
  -- `msg_read_common` does not do.
  pub msg_process : ℕ → ℕ → Option Fields → List ℕ → List (Event Handler Msg)
  msg_process type msg_id none raw = data_error ∷ []
  msg_process type msg_id (some fields) raw = elim (pb_decode fields raw) [
    | none ↦ data_error ∷ []
    | some msg ↦ run_process_func (message_process_func table type b'i' msg_id) msg
  ]

  -- The end of `msg_read_common`.
  abbrev pub finish : ℕ → Reader Fields → Reader Fields × List (Event Handler Msg)
  finish type s =
      if leb s.msg_size s.msg_pos
      then (
        record s { msg_pos = 0; reading = false },
        msg_process type s.msg_id s.fields (read s.msg_in 0 s.msg_size),
      )
      else (s, [])

  -- The branch of READSTATE_IDLE, once the header is read: id, size, what the table has, and the
  -- `len - 9` bytes behind the header.
  abbrev pub start_message :
      ℕ
      → ℕ
      → Reader Fields
      → ℕ
      → ℕ
      → Option Fields
      → List ℕ
      → Reader Fields × List (Event Handler Msg)
  start_message type len s msg_id msg_size fields piece =
      let s' : Reader Fields = record s { msg_id = msg_id; msg_size = msg_size; fields = fields } in
      elim fields [
        | none ↦ (s', unexpected_message ∷ [])
        | some _ ↦
            if ltb msg_in_size msg_size
            then (s', too_big ∷ [])
            else finish type (record s' {
              reading = true;
              msg_in = write_at s'.msg_in 0 piece;
              msg_pos = len - 9;
            })
      ]

  abbrev pub first_packet :
      ℕ → List ℕ → ℕ → Reader Fields → Reader Fields × List (Event Handler Msg)
  first_packet type buf len s =
      if not (starts_message buf)
      then (s, [])
      else start_message type len s (header_id buf) (header_size buf)
          (message_fields table type b'i' (header_id buf)) (take (len - 9) (drop 9 buf))

  -- The branch of READSTATE_READING.
  abbrev pub next_packet : ℕ → List ℕ → ℕ → Reader Fields → Reader Fields × List (Event Handler Msg)
  next_packet type buf len s =
      if not (get_or buf 0 0 == b'?')
      then (record s { reading = false }, [])
      else finish type (record s {
        msg_in = write_at s.msg_in s.msg_pos (take (len - 1) (drop 1 buf));
        msg_pos = (s.msg_pos + (len - 1)) % 2 ^ 32;
      })

  -- `msg_read_common`: `buf` holds `len` bytes at least.
  unfoldable pub msg_read_common :
      ℕ → List ℕ → ℕ → Reader Fields → Reader Fields × List (Event Handler Msg)
  msg_read_common type buf len s =
      if not (len == 64)
      then (s, [])
      else if s.reading
      then next_packet type buf len s
      else first_packet type buf len s

  -- One call for each packet, with all that leaves.
  unfoldable pub read_all :
      ℕ → List (List ℕ) → Reader Fields → Reader Fields × List (Event Handler Msg)
  read_all type [] s = (s, [])
  read_all type (p ∷ ps) s =
      let (s1, es) = msg_read_common type p 64 s in
      let (s2, fs) = read_all type ps s1 in (s2, es ++ fs)
