-- ===== src/Message/Tiny.antt =====
-- `msg_read_tiny` of firmware/messages.c: while the device waits for the user, a message must fit
-- one packet and be one of a few.
use safe_t_mcu.Prelude.{
  Bool, true, false, refl, by_test, ℕ, ◌+◌, ◌-◌, ◌%◌, ◌^◌, ◌≤◌, ◌≡◌, ◌≢◌, arith, not, ◌||◌, List,
  Option, none, some, ltb, ◌==◌, if◌then◌else◌, take, drop,
}
use safe_t_mcu.Message.{starts_message, header_id, header_size}

-- `msg_tiny_id` (0xFFFF when there is none) and `msg_tiny`.
pub record Mailbox (Msg : Type 0) : Type 0 where
  pub msg_tiny_id : ℕ
  pub msg_tiny : Option Msg

-- What `fsm_sendFailure` is given.
pub data Failure : Type 0 where
  data_error unexpected_message : Failure

abbrev pub no_message : ℕ
no_message = 0xFFFF

-- `tiny_fields` is the switch over the message ids, whose values the build generates; `pb_decode`
-- is nanopb's.
module _ {Fields Msg : Type 0} (tiny_fields : ℕ → Option Fields)
    (pb_decode : Fields → List ℕ → Option Msg) where
  abbrev tiny_decoded : Mailbox Msg → ℕ → Option Msg → Mailbox Msg × Option Failure
  tiny_decoded m msg_id none = (record m { msg_tiny_id = no_message }, some data_error)
  tiny_decoded m msg_id (some msg) = (record { msg_tiny_id = msg_id; msg_tiny = some msg }, none)

  abbrev tiny_result : Mailbox Msg → ℕ → Option Fields → List ℕ → Mailbox Msg × Option Failure
  tiny_result m msg_id none raw = (record m { msg_tiny_id = no_message }, some unexpected_message)
  tiny_result m msg_id (some fields) raw = tiny_decoded m msg_id (pb_decode fields raw)

  -- `msg_read_tiny`. `len - msg_size < 9` is a comparison of `uint32_t`.
  unfoldable pub msg_read_tiny : List ℕ → ℕ → Mailbox Msg → Mailbox Msg × Option Failure
  msg_read_tiny buf len m =
      let size = header_size buf in
      if not (len == 64) || not (starts_message buf)
      then (m, none)
      else if ltb 64 size || ltb ((len + 2 ^ 32 - size) % 2 ^ 32) 9
      then (m, none)
      else tiny_result m (header_id buf) (tiny_fields (header_id buf)) (take size (drop 9 buf))

  -- What a message that was taken is decoded from.
  pub record Taken (buf : List ℕ) (r : Mailbox Msg × Option Failure) : Type 0 where
    pub fields : Fields
    pub msg : Msg
    pub known : tiny_fields (header_id buf) ≡ some fields
    pub decoded : pb_decode fields (take (header_size buf) (drop 9 buf)) ≡ some msg
    pub result : r ≡ (record { msg_tiny_id = header_id buf; msg_tiny = some msg }, none)

  whole_packet : (len : ℕ) (b : Bool) → (not (len == 64) || not b) ≡ false → (len ≡ 64) × (b ≡ true)
  whole_packet len true h = (ground arith, refl)
  whole_packet len false h = ground arith

  fits :
      (len size : ℕ)
      → len ≡ 64
      → (ltb 64 size || ltb ((len + 2 ^ 32 - size) % 2 ^ 32) 9) ≡ false
      → size + 9 ≤ len
  fits len size e h = ground arith

  decoded-Taken :
      (buf : List ℕ) (m : Mailbox Msg) (fields : Fields)
      → tiny_fields (header_id buf) ≡ some fields
      → (d : Option Msg) → pb_decode fields (take (header_size buf) (drop 9 buf)) ≡ d
      → (tiny_decoded m (header_id buf) d).0.msg_tiny_id ≢ no_message
      → Taken buf (tiny_decoded m (header_id buf) d)
  decoded-Taken buf m fields e none h t = absurd (t refl)
  decoded-Taken buf m fields e (some msg) h t = record {
    fields = fields;
    msg = msg;
    known = e;
    decoded = h;
    result = refl;
  }

  result-Taken :
      (buf : List ℕ) (m : Mailbox Msg) (f : Option Fields)
      → tiny_fields (header_id buf) ≡ f
      → let r = tiny_result m (header_id buf) f (take (header_size buf) (drop 9 buf)) in
        r.0.msg_tiny_id ≢ no_message → Taken buf r
  result-Taken buf m none e t = absurd (t refl)
  result-Taken buf m (some fields) e t =
      decoded-Taken buf m fields e (pb_decode fields (take (header_size buf) (drop 9 buf))) refl t

  -- From an empty mailbox, a message is taken only from a whole packet of 64 bytes that starts with the
  -- marks and whose announced size leaves room for the header, so nothing past the packet is read. Its
  -- id is one of the few, the bytes behind the header are decoded, and the mailbox then holds that
  -- message under the id, with no failure sent.
  pub msg_read_tiny_accepts :
      (buf : List ℕ) (len : ℕ) (m : Mailbox Msg)
      → m.msg_tiny_id ≡ no_message
      → (msg_read_tiny buf len m).0.msg_tiny_id ≢ no_message
      → (len ≡ 64)
        × (starts_message buf ≡ true)
        × (header_size buf + 9 ≤ len)
        × Taken buf (msg_read_tiny buf len m)
  unfolding msg_read_tiny
  msg_read_tiny_accepts buf len m h =
      let size = header_size buf in
      let P : Mailbox Msg × Option Failure → Type 0 = λ r.
        r.0.msg_tiny_id ≢ no_message
        → (len ≡ 64) × (starts_message buf ≡ true) × (size + 9 ≤ len) × Taken buf r in
      by_test P (not (len == 64) || not (starts_message buf)) (λ _ t. absurd (t h))
        (λ e.
          by_test P (ltb 64 size || ltb ((len + 2 ^ 32 - size) % 2 ^ 32) 9) (λ _ t. absurd (t h))
            (λ k t.
              let whole = whole_packet len (starts_message buf) e in
              (
                whole.0,
                whole.1,
                fits len size whole.0 k,
                result-Taken buf m (tiny_fields (header_id buf)) refl t,
              )))
