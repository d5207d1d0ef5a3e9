-- ===== src/Protect/Tests.antt =====
-- The theorems on the user's consent, at a device with the PIN 12.
use safe_t_mcu.Prelude.{
  ℕ, zero, suc, ◌-◌, ◌^◌, ◌<◌, ◌≡◌, refl, arith, true, false, List, [], ◌∷◌, none, some, replicate,
  All, leb, if◌then◌else◌,
}
use safe_t_mcu.Buttons.{ButtonState, button_update}
use safe_t_mcu.PinMatrix.{digits, pinmatrix_done}
use safe_t_mcu.Storage.{Node, State, zero_node, zero_storage, storage_magic, pin_area}
use safe_t_mcu.Storage.Fields.{storage_has_pin, storage_contains_pin}
use safe_t_mcu.Storage.PinArea.{storage_get_pin_fails_offset}
use safe_t_mcu.Storage.PinArea.Failures.{Counts}
use safe_t_mcu.Protect.{
  nothing, button_ack, pin_matrix_ack, Turn, Device, Attempt, returned, wiped, request_loop,
  request_pin, wait_loop, protect_pin, button_loop, protect_button,
}
use safe_t_mcu.Protect.Keeps.{PinPost, protect_pin-Kept}
use safe_t_mcu.Protect.Button.{any_ack, protect_button_confirmed}
use safe_t_mcu.Protect.Pin.{Enters, protect_pin_wrong, protect_pin_right}
use safe_t_mcu.Protect.Pin.Guesses.{Wrong, guess, guess_wipes}

abbrev compute_u2froot : List ℕ → Node
compute_u2froot mnemonic = zero_node

-- `word` is the counting word of the failures.
abbrev store : ℕ → State
store word = record {
  magic = storage_magic;
  uuid = [];
  rom = record zero_storage { has_pin = true; pin = b'1' ∷ b'2' ∷ [] };
  update = zero_storage;
  extra = λ a. if leb a pin_area then word else 0xffffffff;
  u2f_offset = 0;
  session = record {
    seed_cached = false;
    seed_uses_passphrase = false;
    seed = [];
    pin_cached = false;
    passphrase_cached = false;
    passphrase = [];
  };
}

abbrev device : ℕ → Device
device word = record {
  store = store word;
  perm = replicate 9 b'X';
  box = nothing;
  aborted_by_initialize = false;
  failures = [];
}

-- An attempt on a keypad in order, so that the places are the digits.
abbrev attempt : List ℕ → Attempt
attempt typed = record { sleeps = []; keypad = digits; polls = some (pin_matrix_ack typed) ∷ [] }

abbrev right : List ℕ
right = b'1' ∷ b'2' ∷ []

abbrev wrong : List ℕ
wrong = b'9' ∷ []

after_area : (word q : ℕ) → pin_area < q → (store word).extra q ≡ 0xffffffff
after_area word q h = ground arith

no_failures : Counts (store 0xffffffff) pin_area 0
unfolding storage_get_pin_fails_offset
no_failures = record {
  found = refl;
  inside = omega arith;
  aligned = refl;
  word = refl;
  fresh = λ q l r. after_area 0xffffffff q l;
}

fifteen_failures : Counts (store 0xffff8000) pin_area 15
unfolding storage_get_pin_fails_offset
fifteen_failures = record {
  found = refl;
  inside = omega arith;
  aligned = refl;
  word = refl;
  fresh = λ q l r. after_area 0xffff8000 q l;
}

has_pin : (word : ℕ) → storage_has_pin (store word) ≡ true
unfolding storage_has_pin
has_pin word = refl

is_wrong : (word : ℕ) → storage_contains_pin wrong (store word) ≡ false
unfolding storage_contains_pin
is_wrong word = refl

is_right : (word : ℕ) → storage_contains_pin right (store word) ≡ true
unfolding storage_contains_pin
is_right word = refl

waits_silent : (n : ℕ) → wait_loop n [] nothing ≡ (false, nothing)
unfolding wait_loop
waits_silent zero = refl
waits_silent (suc n) = waits_silent n

enters : (word j : ℕ) → Enters (attempt wrong) (device word) j wrong
unfolding request_loop pinmatrix_done
enters word j = record {
  box = nothing;
  typed = wrong;
  waits = waits_silent (2 ^ j - 1);
  enters = refl;
  means = refl;
}

right_entry : Enters (attempt right) (device 0xffffffff) 0 right
unfolding request_loop pinmatrix_done
right_entry = record {
  box = nothing;
  typed = right;
  waits = waits_silent 0;
  enters = refl;
  means = refl;
}

protect_pin_wrong_example :
    (d' : Device) × (protect_pin compute_u2froot [] false (attempt wrong) (device 0xffffffff)
      ≡ returned false d')
    × Counts d'.store pin_area 1
    × (d'.store.rom ≡ (store 0xffffffff).rom)
    × (d'.store.update ≡ zero_storage)
    × (d'.store.session ≡ (store 0xffffffff).session)
    × (d'.box ≡ nothing)
protect_pin_wrong_example =
    protect_pin_wrong compute_u2froot [] (attempt wrong) (device 0xffffffff) pin_area 0 wrong
      (has_pin 0xffffffff) no_failures (omega arith) (enters 0xffffffff 0) (is_wrong 0xffffffff)

protect_pin_right_example :
    (d' : Device) × (protect_pin compute_u2froot [] false (attempt right) (device 0xffffffff)
      ≡ returned true d')
    × ((a' : ℕ) × Counts d'.store a' 0)
protect_pin_right_example =
    protect_pin_right compute_u2froot [] (attempt right) (device 0xffffffff) pin_area 0 right
      (has_pin 0xffffffff) no_failures (omega arith) right_entry (is_right 0xffffffff)

bad_guess : Wrong (store 0xffffffff) (attempt wrong)
unfolding request_loop pinmatrix_done storage_contains_pin
bad_guess = record { typed = wrong; silent = refl; enters = refl; wrong = refl }

bad_guesses : (n : ℕ) → All (Wrong (store 0xffffffff)) (replicate n (attempt wrong))
bad_guesses zero = tt
bad_guesses (suc n) = (bad_guess, bad_guesses n)

guess_wipes_example :
    (d' : Device) × (guess compute_u2froot [] (replicate 16 (attempt wrong)) (device 0xffffffff)
      ≡ wiped d')
    × (d'.store.rom ≡ zero_storage)
guess_wipes_example =
    guess_wipes compute_u2froot [] (replicate 16 (attempt wrong)) (device 0xffffffff) pin_area
      (has_pin 0xffffffff) refl no_failures (bad_guesses 16) refl

asked :
    (d : Device)
    → d.box ≡ nothing
    → request_pin digits (some (pin_matrix_ack right) ∷ []) d
      ≡ some (some right, record d { perm = replicate 9 b'X'; box = nothing })
unfolding request_pin request_loop pinmatrix_done
asked d e = refl

-- The masks of the two buttons; a button that is down has its bit clear.
abbrev yes_pin : ℕ
yes_pin = 4

abbrev no_pin : ℕ
no_pin = 32

abbrev released : ButtonState
released = record { yes_up = false; yes_down = 0; no_up = false; no_down = 0; last_state = 36 }

-- ButtonAck comes, Yes is pressed and let go.
abbrev confirmation : List Turn
confirmation =
    record { polled = some button_ack; slept = none; buttons = 32 }
    ∷ record { polled = none; slept = none; buttons = 36 }
    ∷ []

confirmation_ends :
    protect_button yes_pin no_pin true 36 confirmation released (device 0xffffffff)
    ≡ some (true, false)
unfolding protect_button button_loop button_update
confirmation_ends = refl

protect_button_confirmed_example : any_ack confirmation ≡ true
protect_button_confirmed_example =
    protect_button_confirmed yes_pin no_pin true 36 confirmation released (device 0xffffffff) false
      refl confirmation_ends

protect_pin-Kept_example :
    PinPost
      (store 0xffffffff)
      (device 0xffffffff)
      (protect_pin compute_u2froot (9 ∷ []) true (attempt right) (device 0xffffffff))
protect_pin-Kept_example =
    protect_pin-Kept compute_u2froot (9 ∷ []) true (attempt right) (device 0xffffffff)
      (record { same = refl; settled = refl })
