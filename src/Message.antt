-- ===== src/Message.antt =====
-- firmware/messages.c: the table of messages, and what the two directions share.
-- `Out` frames outgoing messages into 64-byte packets, `In` puts incoming packets together.
-- The table comes from a file that the build generates, and the encoding of a message is nanopb's:
-- both are parameters. A `char` is its code.
pub mod Packets
pub mod Out
pub mod In
pub mod Tiny
mod Tests
use safe_t_mcu.Prelude.{
  ℕ, ◌+◌, ◌*◌, ◌/◌, ◌%◌, ◌^◌, Bool, true, false, ◌&&◌, List, [], ◌∷◌, ◌++◌, Option, none, some,
  ◌==◌, if◌then◌else◌, get_or,
}

-- `struct MessagesMap_t`; `Fields` stands for nanopb's field tables and `Handler` for the process
-- functions.
pub record Entry (Fields Handler : Type 0) : Type 0 where
  pub type : ℕ
  pub dir : ℕ
  pub msg_id : ℕ
  pub fields : Fields
  pub process_func : Handler

module _ {Fields Handler : Type 0} where
  abbrev pub matches : ℕ → ℕ → ℕ → Entry Fields Handler → Bool
  matches type dir msg_id m = type == m.type && (dir == m.dir && msg_id == m.msg_id)

  -- `MessageFields`: the list is the table up to its end mark.
  unfoldable pub message_fields : List (Entry Fields Handler) → ℕ → ℕ → ℕ → Option Fields
  message_fields [] type dir msg_id = none
  message_fields (m ∷ table) type dir msg_id =
      if matches type dir msg_id m then some m.fields else message_fields table type dir msg_id

  -- `MessageProcessFunc`: the function that is called, if there is one.
  unfoldable pub message_process_func : List (Entry Fields Handler) → ℕ → ℕ → ℕ → Option Handler
  message_process_func [] type dir msg_id = none
  message_process_func (m ∷ table) type dir msg_id =
      if matches type dir msg_id m
      then some m.process_func
      else message_process_func table type dir msg_id

-- The bytes of a header: big-endian words of 2 and 4 bytes.
abbrev pub be_word : ℕ → ℕ → ℕ
be_word hi lo = (hi * 2 ^ 8 + lo) % 2 ^ 16

abbrev pub be_long : ℕ → ℕ → ℕ → ℕ → ℕ
be_long b3 b2 b1 b0 = (b3 * 2 ^ 24 + b2 * 2 ^ 16 + b1 * 2 ^ 8 + b0) % 2 ^ 32

-- `buf[0] != '?' || buf[1] != '#' || buf[2] != '#'`, negated.
abbrev pub starts_message : List ℕ → Bool
starts_message buf = get_or buf 0 0 == b'?' && (get_or buf 1 0 == b'#' && get_or buf 2 0 == b'#')

-- The message id and size that a first packet announces.
abbrev pub header_id : List ℕ → ℕ
header_id buf = be_word (get_or buf 3 0) (get_or buf 4 0)

abbrev pub header_size : List ℕ → ℕ
header_size buf = be_long (get_or buf 5 0) (get_or buf 6 0) (get_or buf 7 0) (get_or buf 8 0)
