-- ===== src/Protect.antt =====
-- What the user has to allow, firmware/protect.c (CRYPTOMEM=0, DEBUG_LINK=0): buttons, PIN and
-- passphrase. While the device waits, messages come in by `usbPoll` and `usbSleep`; what each of
-- these calls brings is given by a list.
pub mod Button
pub mod Pin
pub mod Change
pub mod Keeps
pub mod Failures
mod Tests
use safe_t_mcu.Prelude.{
  text_eq, ℕ, zero, suc, ◌+◌, ◌-◌, ◌^◌, Bool, true, false, not, ◌&&◌, ◌||◌, List, [], ◌∷◌, Option,
  none, some, ltb, leb, if◌then◌else◌, take,
}
use safe_t_mcu.Buttons.{ButtonState, button_update}
use safe_t_mcu.PinMatrix.{pinmatrix_done}
use safe_t_mcu.Storage.{Node, State}
use safe_t_mcu.Storage.Commit.{storage_update, storage_wipe}
use safe_t_mcu.Storage.Fields.{
  strlcpy, storage_has_pin, storage_contains_pin, storage_set_pin,
  storage_has_passphrase_protection, session_cache_pin, session_cache_passphrase,
  session_is_pin_cached, session_is_passphrase_cached,
}
use safe_t_mcu.Storage.PinArea.{
  storage_get_pin_fails_offset, storage_get_pin_wait, storage_increase_pin_fails,
  storage_reset_pin_fails,
}

-- `msg_tiny_id` and `msg_tiny`; `nothing` is the id 0xFFFF.
pub data Tiny : Type 0 where
  nothing button_ack cancel initialize other_message : Tiny
  pin_matrix_ack : List ℕ → Tiny
  passphrase_ack : Option (List ℕ) → Tiny

-- What the failures sent to the host say.
pub data PinFailure : Type 0 where
  pin_cancelled pin_invalid : PinFailure

pub record Device : Type 0 where
  pub store : State
  pub perm : List ℕ
  pub box : Tiny
  pub aborted_by_initialize : Bool
  pub failures : List PinFailure

-- A message that comes in takes the place of the one that waits.
abbrev pub deliver : Option Tiny → Tiny → Tiny
deliver none box = box
deliver (some m) box = m

abbrev pub is_button_ack : Tiny → Bool
is_button_ack button_ack = true
is_button_ack m = false

abbrev pub is_cancel : Tiny → Bool
is_cancel cancel = true
is_cancel m = false

abbrev pub is_initialize : Tiny → Bool
is_initialize initialize = true
is_initialize m = false

-- One turn of the loop of `protectButton`: what `usbPoll` and `usbSleep` bring, and the buttons.
pub record Turn : Type 0 where
  pub polled : Option Tiny
  pub slept : Option Tiny
  pub buttons : ℕ

module _ (btn_pin_yes btn_pin_no : ℕ) where
  -- The loop of `protectButton`; `none` if it still waits after the turns given. The result, and
  -- whether it was aborted by Initialize.
  unfoldable pub button_loop : Bool → List Turn → Bool → Tiny → ButtonState → Option (Bool × Bool)
  button_loop confirm_only [] acked box b = none
  button_loop confirm_only (t ∷ turns) acked box b =
      let box1 = deliver t.polled box in
      let acked1 = acked || is_button_ack box1 in
      let box2 = if is_button_ack box1 then nothing else box1 in
      let box3 = if acked1 then deliver t.slept box2 else box2 in
      let b1 : ButtonState =
        if acked1 then button_update btn_pin_yes btn_pin_no t.buttons b else b in
      let rest = button_loop confirm_only turns acked1 box3 b1 in
      if acked1 && b1.yes_up
      then some (true, false)
      else if acked1 && (not confirm_only && b1.no_up)
      then some (false, false)
      else if is_cancel box3 || is_initialize box3
      then some (false, is_initialize box3)
      else rest

  -- `protectButton`; `buttons` is read when it begins.
  unfoldable pub protect_button : Bool → ℕ → List Turn → ButtonState → Device → Option (Bool × Bool)
  protect_button confirm_only buttons turns b d =
      button_loop confirm_only turns false d.box (button_update btn_pin_yes btn_pin_no buttons b)

-- How the loop of `requestPin` ends; `silent` if it still waits.
pub data Reply : Type 0 where
  entered : List ℕ → Reply
  cancelled : Bool → Reply
  silent : Reply

unfoldable pub request_loop : List (Option Tiny) → Tiny → Reply
request_loop [] box = silent
request_loop (p ∷ polls) box =
    let rest = request_loop polls (deliver p box) in
    elim (deliver p box) [
      | pin_matrix_ack typed ↦ entered typed
      | cancel ↦ cancelled false
      | initialize ↦ cancelled true
      | _ ↦ rest
    ]

-- A device whose loop has ended without PIN.
abbrev pub give_up : Bool → Device → Device
give_up init d = record d {
  perm = (pinmatrix_done d.perm []).1;
  box = nothing;
  aborted_by_initialize = init || d.aborted_by_initialize;
}

-- `requestPin`, with the keypad that is shown: the PIN, or `none` for a null pointer.
unfoldable pub request_pin :
    List ℕ → List (Option Tiny) → Device → Option (Option (List ℕ) × Device)
request_pin perm polls d = elim (request_loop polls d.box) [
  | entered typed ↦ some (
    some (pinmatrix_done perm typed).0,
    record d { perm = (pinmatrix_done perm typed).1; box = nothing },
  )
  | cancelled init ↦ some (none, give_up init d)
  | silent ↦ none
]

-- How `protectPin` ends: it returns, or has wiped the storage and loops for ever, or waits for the
-- user still, or has left the flash sector.
pub data Outcome : Type 0 where
  returned : Bool → Device → Outcome
  wiped : Device → Outcome
  waiting lost : Outcome

abbrev pub send_failure : PinFailure → Device → Device
send_failure f d = record d { failures = f ∷ d.failures }

-- The messages of an attempt: during the seconds of waiting, and then at each poll; and the keypad.
pub record Attempt : Type 0 where
  pub sleeps : List (Option Tiny)
  pub keypad : List ℕ
  pub polls : List (Option Tiny)

abbrev pub first_message : List (Option Tiny) → Option Tiny
first_message [] = none
first_message (m ∷ ms) = m

abbrev pub later : List (Option Tiny) → List (Option Tiny)
later [] = []
later (m ∷ ms) = ms

-- The loop over the seconds: whether Initialize ended it, and the message that waits.
unfoldable pub wait_loop : ℕ → List (Option Tiny) → Tiny → Bool × Tiny
wait_loop zero sleeps box = (false, box)
wait_loop (suc wait) sleeps box =
    let box1 = deliver (first_message sleeps) box in
    let rest = wait_loop wait (later sleeps) box1 in
    if is_initialize box1 then (true, nothing) else rest

-- `storage_compute_u2froot` and the uuid of `storage_wipe` come from the crypto library and the
-- random generator.
module _ (compute_u2froot : List ℕ → Node) (random_uuid : List ℕ) where
  -- `protectCheckMaxTry`; MAX_WRONG_PINS is 15.
  unfoldable pub protect_check_max_try : ℕ → Device → (Device → Outcome) → Outcome
  protect_check_max_try wait d continue =
      if ltb wait (2 ^ 15)
      then continue d
      else wiped (record d { store = storage_wipe compute_u2froot random_uuid d.store })

  -- `protectPin` from where the PIN is entered.
  unfoldable pub check_pin : ℕ → List ℕ → Device → Outcome
  check_pin fails pin d =
      let increased = storage_increase_pin_fails fails d.store in
      let d1 : Device = record d { store = increased.1 } in
      if not increased.0
      then returned false (send_failure pin_invalid d1)
      else if storage_contains_pin pin d1.store
      then returned true (record d1 {
        store = storage_reset_pin_fails compute_u2froot fails (session_cache_pin d1.store);
      })
      else protect_check_max_try (storage_get_pin_wait fails d1.store) d1
          (λ d2. returned false (send_failure pin_invalid d2))

  -- From where the waiting is over.
  unfoldable pub ask_pin : ℕ → Attempt → Device → Outcome
  ask_pin fails t d = elim (request_pin t.keypad t.polls d) [
    | none ↦ waiting
    | some (none, d1) ↦ returned false (send_failure pin_cancelled d1)
    | some (some pin, d1) ↦ check_pin fails pin d1
  ]

  abbrev pub wait_and_ask : ℕ → ℕ → Attempt → Device → Outcome
  wait_and_ask fails wait t d =
      let slept = wait_loop wait t.sleeps d.box in
      if slept.0
      then returned false
          (send_failure pin_cancelled (record d { box = slept.1; aborted_by_initialize = true }))
      else ask_pin fails t (record d { box = slept.1 })

  -- `protectPin`
  unfoldable pub protect_pin : Bool → Attempt → Device → Outcome
  protect_pin use_cached t d =
      if not (storage_has_pin d.store) || (use_cached && session_is_pin_cached d.store)
      then returned true d
      else elim (storage_get_pin_fails_offset d.store) [
        | none ↦ lost
        | some fails ↦
            (let wait = storage_get_pin_wait fails d.store in
              protect_check_max_try wait d (wait_and_ask fails wait t))
      ]

  -- `protectChangePin` when the two entries are equal: without a buffer it stores the first, else
  -- it hands out the second cut to the buffer.
  abbrev pub accept_pin : Option ℕ → List ℕ → List ℕ → Device → Option (List ℕ) × Device
  accept_pin none pin_compare pin d = (
    none,
    record d { store = storage_update compute_u2froot (storage_set_pin pin_compare d.store) },
  )
  accept_pin (some size) pin_compare pin d = (some (strlcpy size pin), d)

  abbrev pub too_small : Option ℕ → Bool
  too_small none = false
  too_small (some size) = ltb size 17

  -- What `protectChangePin` returns, what it puts in the buffer, and the device.
  abbrev pub second_entry :
      Option ℕ → List ℕ → Option (List ℕ) × Device → Bool × Option (List ℕ) × Device
  second_entry buffer pin_compare (none, d) = (false, none, d)
  second_entry buffer pin_compare (some pin, d) =
      if text_eq (take 17 pin_compare) (take 17 pin)
      then (true, (accept_pin buffer pin_compare pin d).0, (accept_pin buffer pin_compare pin d).1)
      else (false, none, d)

  abbrev pub first_entry :
      Option ℕ → Attempt → Option (List ℕ) × Device → Option (Bool × Option (List ℕ) × Device)
  first_entry buffer t (none, d) = some (false, none, d)
  first_entry buffer t (some pin, d) = elim (request_pin t.keypad t.polls d) [
    | none ↦ none
    | some r ↦ some (second_entry buffer (strlcpy 17 pin) r)
  ]

  -- `protectChangePin`, with the keypad and the polls of each entry; `none` while it waits.
  unfoldable pub protect_change_pin :
      Option ℕ → Attempt → Attempt → Device → Option (Bool × Option (List ℕ) × Device)
  protect_change_pin buffer t1 t2 d =
      if too_small buffer then some (false, none, d) else elim (request_pin t1.keypad t1.polls d) [
        | none ↦ none
        | some r ↦ first_entry buffer t2 r
      ]

-- The loop of `protectPassphrase`.
abbrev pub passphrase_of : Option (List ℕ) → List ℕ
passphrase_of none = []
passphrase_of (some passphrase) = passphrase

abbrev pub passphrase_loop : List (Option Tiny) → Device → Option (Bool × Device)
passphrase_loop [] d = none
passphrase_loop (p ∷ polls) d =
    let d1 : Device = record d { box = deliver p d.box } in
    let rest = passphrase_loop polls d1 in
    elim (deliver p d.box) [
      | passphrase_ack passphrase ↦ some (
        true,
        record d1 {
          box = nothing;
          store = session_cache_passphrase (passphrase_of passphrase) d.store;
        },
      )
      | cancel ↦ some (false, record d1 { box = nothing })
      | initialize ↦ some (false, record d1 { box = nothing; aborted_by_initialize = true })
      | _ ↦ rest
    ]

-- `protectPassphrase`; `none` while it waits.
unfoldable pub protect_passphrase : List (Option Tiny) → Device → Option (Bool × Device)
protect_passphrase polls d =
    if not (storage_has_passphrase_protection d.store) || session_is_passphrase_cached d.store
    then some (true, d)
    else passphrase_loop polls d
