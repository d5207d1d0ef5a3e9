-- ===== src/Host.antt =====
-- What a handler of firmware/fsm.c works on: the device, what host and user do in the dialogues, and
-- the log of what is seen outside; how a handler ends; and the steps that ask, answer and hand over.
use safe_t_mcu.Prelude.{ℕ, Bool, true, false, List, [], ◌∷◌, Option}
use safe_t_mcu.Storage.{State}
use safe_t_mcu.Protect.{Tiny, nothing, Device, PinFailure, Attempt, protect_pin, protect_passphrase}
use safe_t_mcu.Protect
use safe_t_mcu.Reset.{ResetDevice}
use safe_t_mcu.Wallet.Library.{HdNode, CoinRow}

-- `IdentityType`; an absent text is empty.
pub record Identity : Type 0 where
  pub index : ℕ
  pub proto : List ℕ
  pub user : List ℕ
  pub host : List ℕ
  pub port : List ℕ
  pub path : List ℕ

-- What the user is asked, with what the display shows.
pub data Question : Type 0 where
  answer_ping remove_pin change_pin set_pin wipe_device send_entropy load_device : Question
  change_homescreen set_u2f_counter wrong_path recover_device check_seed : Question
  change_name change_language show_key sign_message sign_ethereum : List ℕ → Question
  verify_address verify_message decrypt_for show_payload : List ℕ → Question
  use_passphrase : Bool → Question
  show_address : List ℕ → List ℕ → Question
  cipher : Bool → List ℕ → Question
  sign_identity : Identity → List ℕ → Question
  decrypt_identity : Identity → Question
  -- path, data, and whether it is the signature or the commitment
  cosi : List ℕ → List ℕ → Bool → Question

pub data Failure : Type 0 where
  unexpected_message data_error action_cancelled pin_cancelled pin_invalid process_error : Failure
  not_initialized pin_mismatch : Failure

pub data Success : Type 0 where
  pin_removed pin_changed device_wiped device_loaded session_cleared settings_applied : Success
  flags_applied u2f_counter_set message_verified : Success
  pong : Option (List ℕ) → Success

-- `Features`, but for what the build fixes: the versions and the table of coins.
pub record Features : Type 0 where
  pub device_id : List ℕ
  pub pin_protection : Bool
  pub passphrase_protection : Bool
  pub language : Option (List ℕ)
  pub label : Option (List ℕ)
  pub initialized : Bool
  pub imported : Bool
  pub pin_cached : Bool
  pub passphrase_cached : Bool
  pub needs_backup : Bool
  pub flags : ℕ

pub data Response : Type 0 where
  features : Features → Response
  success : Success → Response
  failure : Failure → Response
  entropy address ethereum_address nem_address : List ℕ → Response
  public_key : HdNode → ℕ → List ℕ → Response
  -- address and signature
  message_signature ethereum_signature : List ℕ → List ℕ → Response
  -- address, public key and signature
  signed_identity : Option (List ℕ) → List ℕ → List ℕ → Response
  session_key ciphered_key_value decrypted_message cosi_signature : List ℕ → Response
  cosi_commitment : List ℕ → List ℕ → Response

-- `RecoveryDevice`, as the arguments of `recovery_init`.
pub record RecoveryDevice : Type 0 where
  pub word_count : ℕ
  pub passphrase_protection : Bool
  pub pin_protection : Bool
  pub language : Option (List ℕ)
  pub label : Option (List ℕ)
  pub enforce_wordlist : Bool
  pub type : ℕ
  pub u2f_counter : ℕ
  pub dry_run : Bool

-- Where a handler hands a message over to another part, which answers it.
pub data Call : Type 0 where
  reset_init : ResetDevice → Call
  reset_backup signing_txack ethereum_signing_txack recovery_word : Call
  reset_entropy : List ℕ → Call
  signing_init : CoinRow → HdNode → Call
  ethereum_signing_init : HdNode → Call
  recovery_init : RecoveryDevice → Call

-- What is seen from outside: questions with the answer, keys derived from what is stored, uses of a
-- private key for what the user was asked, messages sent, and messages handed over.
pub data Event : Type 0 where
  asked : Question → Bool → Event
  derived : State → Event
  used_key : Question → Event
  sent : Response → Event
  called : Call → Event

-- How `protectButton` ends, and the message that waits then.
pub data Answer : Type 0 where
  confirmed refused cancelled aborted : Tiny → Answer

-- What the handlers work on, with what user and host do in the dialogues, in order: an answer for
-- each question, an entry for each PIN, the polls for each passphrase.
pub record World : Type 0 where
  pub device : Device
  pub recovering : Bool
  pub signing : Bool
  pub ethereum_signing : Bool
  pub answers : List Answer
  pub entries : List Attempt
  pub phrases : List (List (Option Tiny))
  pub log : List Event

-- A handler ends; or it waits in a dialogue still; or the device stands still until it is plugged in
-- again.
pub data Stop : Type 0 where
  ended waiting halted : Stop

pub data Outcome (A : Type 0) : Type 0 where
  returned : A → World → Outcome A
  stopped : Stop → World → Outcome A

abbrev pub M : Type 0 → Type 0
M A = World → Outcome A

infixl 5 ◌>>=◌ ◌>>◌
abbrev pub ◌>>=◌ : {A B : Type 0} → M A → (A → M B) → M B
◌>>=◌ m f w = elim (m w) [ returned a w1 ↦ f a w1 | stopped e w1 ↦ stopped e w1 ]

abbrev pub ◌>>◌ : {B : Type 0} → M (Unit {0}) → M B → M B
m >> n = m >>= λ _. n

unfoldable pub say : Event → World → World
say e w = record w { log = e ∷ w.log }

abbrev pub with_store : State → World → World
with_store store w = record w { device = record (w.device) { store = store } }

unfoldable pub stores : (State → State) → M (Unit {0})
stores f w = returned tt (with_store (f w.device.store) w)

unfoldable pub reads : {A : Type 0} → (State → A) → M A
reads f w = returned (f w.device.store) w

unfoldable pub pure : {A : Type 0} → A → M A
pure a w = returned a w

unfoldable pub emit : Event → M (Unit {0})
emit e w = returned tt (say e w)

abbrev pub is_confirmed : Answer → Bool
is_confirmed (confirmed box) = true
is_confirmed a = false

-- Initialize ends the dialogue, and is noted.
abbrev pub answer_to : Answer → Device → Device
answer_to (confirmed box) d = record d { box = box }
answer_to (refused box) d = record d { box = box }
answer_to (cancelled box) d = record d { box = nothing }
answer_to (aborted box) d = record d { box = nothing; aborted_by_initialize = true }

-- `protectButton`, after the display shows a question.
abbrev pub ask_with : Question → List Answer → World → Outcome Bool
ask_with q [] w = stopped waiting w
ask_with q (a ∷ answers) w = returned (is_confirmed a) (record w {
  answers = answers;
  device = answer_to a w.device;
  log = asked q (is_confirmed a) ∷ w.log;
})

unfoldable pub ask : Question → M Bool
ask q w = ask_with q w.answers w

-- `CHECK_PIN` takes the next entry; one with no polls is waited for.
abbrev pub next_entry : List Attempt → Attempt
next_entry [] = record { sleeps = []; keypad = []; polls = [] }
next_entry (t ∷ ts) = t

abbrev pub rest_of : {A : Type 0} → List A → List A
rest_of [] = []
rest_of (x ∷ xs) = xs

abbrev pub next_polls : List (List (Option Tiny)) → List (Option Tiny)
next_polls [] = []
next_polls (p ∷ ps) = p

abbrev pub pin_failure : PinFailure → Failure
pin_failure Protect.pin_cancelled = Failure.pin_cancelled
pin_failure Protect.pin_invalid = Failure.pin_invalid

unfoldable pub reply : {A : Type 0} → Response → M A
reply r w = stopped ended (say (sent r) w)

unfoldable pub hand_over : {A : Type 0} → Call → M A
hand_over c w = stopped ended (say (called c) w)
