-- ===== src/U2f.antt =====
-- The frames of U2F over HID, firmware/u2f.c and firmware/u2f/u2f_hid.h: the ring of frames that wait
-- to be sent, how a message is cut into frames, and how frames are read. The requests
-- themselves are not here, nor is the loop of `u2fhid_read_start` that waits for more frames.
pub mod Frames
pub mod RoundTrip
mod Tests
use safe_t_mcu.Prelude.{
  ℕ, zero, suc, ◌+◌, ◌-◌, ◌*◌, ◌/◌, ◌%◌, ◌^◌, Bool, true, false, not, ◌&&◌, ◌||◌, List, [], ◌∷◌,
  ◌++◌, Option, none, some, ltb, leb, ◌==◌, if◌then◌else◌, length, take, drop, get_or, replicate,
  le_bytes,
}

-- `U2FHID_FRAME`: the channel, the type (or sequence number), and the 59 bytes behind it. An initial
-- frame begins with the two bytes of the message's length.
pub record Frame : Type 0 where
  pub cid : ℕ
  pub type : ℕ
  pub payload : List ℕ

-- `U2F_ReadBuffer`; `buf` has the bytes up to `buf_ptr`.
pub record Reader : Type 0 where
  pub buf : List ℕ
  pub len : ℕ
  pub seq : ℕ
  pub cmd : ℕ

-- The module's variables.
pub record Channel : Type 0 where
  pub cid : ℕ
  pub out_start : ℕ
  pub out_end : ℕ
  pub packets : ℕ → Frame
  pub reader : Option Reader

-- sizeof(reader->buf)
abbrev pub buffer_size : ℕ
buffer_size = 57 + 127 * 59

abbrev pub cid_broadcast : ℕ
cid_broadcast = 0xffffffff

abbrev pub u2fhid_init_command : ℕ
u2fhid_init_command = 0x86

abbrev pub u2fhid_error_command : ℕ
u2fhid_error_command = 0xbf

-- MSG_LEN
abbrev pub msg_len : Frame → ℕ
msg_len f = get_or f.payload 0 0 * 2 ^ 8 + get_or f.payload 1 0

abbrev pub init_data : Frame → List ℕ
init_data f = drop 2 f.payload

-- `f->type & TYPE_INIT`
abbrev pub is_init : Frame → Bool
is_init f = leb 128 f.type

-- A frame is filled up with zeros.
unfoldable pub pad : ℕ → List ℕ → List ℕ
pad n bytes = bytes ++ replicate (n - length bytes) 0

-- `queue_u2f_pkt`; a frame for which there is no room is dropped.
unfoldable pub queue_u2f_pkt : Frame → Channel → Channel
queue_u2f_pkt f c =
    let next = (c.out_end + 1) % 128 in
    if c.out_start == next
    then c
    else record c { packets = λ i. if i == c.out_end then f else c.packets i; out_end = next }

-- `u2f_out_data`
unfoldable pub u2f_out_data : Channel → Option Frame × Channel
u2f_out_data c =
    if c.out_start == c.out_end
    then (none, c)
    else (some (c.packets c.out_start), record c { out_start = (c.out_start + 1) % 128 })

-- The continuation frames of `send_u2fhid_msg`, in `n` turns at most.
unfoldable pub cont_frames : ℕ → ℕ → ℕ → List ℕ → List Frame
cont_frames zero cid seq bytes = []
cont_frames (suc n) cid seq [] = []
cont_frames (suc n) cid seq (b ∷ bytes) =
    record { cid = cid; type = seq; payload = pad 59 (take 59 (b ∷ bytes)) }
    ∷ cont_frames n cid ((seq + 1) % 2 ^ 8) (drop 59 (b ∷ bytes))

-- The frames of a message.
unfoldable pub message_frames : ℕ → ℕ → List ℕ → List Frame
message_frames cid cmd bytes =
    record {
      cid = cid;
      type = cmd;
      payload = length bytes / 2 ^ 8 % 2 ^ 8 ∷ length bytes % 2 ^ 8 ∷ pad 57 (take 57 bytes);
    }
    ∷ cont_frames (length bytes) cid 0 (drop 57 bytes)

abbrev pub queue_all : List Frame → Channel → Channel
queue_all [] c = c
queue_all (f ∷ frames) c = queue_all frames (queue_u2f_pkt f c)

-- `send_u2fhid_msg`
unfoldable pub send_u2fhid_msg : ℕ → List ℕ → Channel → Channel
send_u2fhid_msg cmd bytes c = queue_all (message_frames c.cid cmd bytes) c

-- `send_u2fhid_error`
unfoldable pub send_u2fhid_error : ℕ → ℕ → Channel → Channel
send_u2fhid_error fcid err c =
    queue_u2f_pkt
      (record { cid = fcid; type = u2fhid_error_command; payload = 0 ∷ 1 ∷ pad 57 (err ∷ []) }) c

-- `u2fhid_init_cmd`
unfoldable pub u2fhid_init_cmd : Frame → Channel → Channel
u2fhid_init_cmd f c = record c {
  cid = f.cid;
  reader = some (record { buf = init_data f; len = msg_len f; seq = 0; cmd = f.type });
}

-- `u2fhid_init`; the version of the firmware, and a fresh channel of `next_cid`, are given.
unfoldable pub u2fhid_init : List ℕ → ℕ → Frame → Channel → Channel
u2fhid_init version fresh_cid f c =
    let broadcast = f.cid == cid_broadcast in
    let cid = if broadcast then fresh_cid else f.cid in
    let response = take 8 (init_data f) ++ (le_bytes 4 cid ++ (2 ∷ (take 3 version ++ (1 ∷ [])))) in
    let c1 : Channel = if broadcast then record c { cid = fresh_cid } else c in
    if f.cid == 0
    then send_u2fhid_error f.cid 0x0b c
    else queue_u2f_pkt
        (record { cid = f.cid; type = u2fhid_init_command; payload = 0 ∷ 17 ∷ pad 57 response }) c1

-- A message that is given up.
abbrev pub abort_message : Reader → Channel → Channel
abort_message r c = record c { reader = some (record r { cmd = 0; len = 0; seq = 255 }) }

-- A frame of the message that is read.
abbrev pub next_frame : Frame → Reader → Channel → Channel
next_frame f r c =
    if is_init f && r.seq == 255
    then u2fhid_init_cmd f c
    else if not (r.seq == f.type)
    then abort_message r (send_u2fhid_error f.cid 0x04 c)
    else if leb r.len (length r.buf) || ltb buffer_size (length r.buf + 59)
    then c
    else record c {
      reader = some (record r { seq = (r.seq + 1) % 2 ^ 8; buf = r.buf ++ f.payload });
    }

abbrev pub busy_frame : Frame → Option Reader → Channel → Channel
busy_frame f none c = send_u2fhid_error f.cid 0x06 c
busy_frame f (some r) c =
    if not (c.cid == f.cid) then send_u2fhid_error f.cid 0x06 c else next_frame f r c

-- The beginning of `u2fhid_read_start`.
unfoldable pub u2fhid_read_start : Frame → Channel → Channel
u2fhid_read_start f c =
    if not (is_init f)
    then c
    else if f.cid == cid_broadcast || f.cid == 0
    then send_u2fhid_error f.cid 0x0b c
    else if ltb buffer_size (msg_len f)
    then send_u2fhid_error f.cid 0x03 c
    else u2fhid_init_cmd f c

-- U2FHID_INIT on the channel of the message that is read gives it up.
abbrev pub abort_on_init : Bool → Frame → Option Reader → Channel → Channel
abort_on_init tiny f none c = c
abort_on_init tiny f (some r) c = if tiny && f.cid == c.cid then abort_message r c else c

-- `u2fhid_read`; `tiny` is true while a message is read.
unfoldable pub u2fhid_read : List ℕ → ℕ → Bool → Frame → Channel → Channel
u2fhid_read version fresh_cid tiny f c =
    let c1 = u2fhid_init version fresh_cid f c in
    if f.type == u2fhid_init_command
    then abort_on_init tiny f c1.reader c1
    else if tiny
    then busy_frame f c.reader c
    else u2fhid_read_start f c
