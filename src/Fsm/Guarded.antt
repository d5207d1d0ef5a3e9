-- ===== src/Fsm/Guarded.antt =====
-- No handler derives a key from a device that is not initialized or still locked, uses a private key
-- for what the user has not confirmed, or changes the secrets without a confirmation. The children
-- go through the handlers.
pub mod Settings
pub mod Keys
pub mod Sign
use safe_t_mcu.Prelude.{ℕ, ◌≡◌, refl, ap, ◌∙◌, Bool, true, ◌⊎◌, List, []}
use mathlib.Core.Path.{subst, sym}
use safe_t_mcu.Storage.{State, zero_storage}
use safe_t_mcu.Protect.Keeps.{secrets}
use safe_t_mcu.Wallet.Library.{Library}
use safe_t_mcu.Host.{World, Event, Stop, ended, waiting, halted, Outcome, returned, stopped}
use safe_t_mcu.Fsm.Dispatch.{
  Request, initialize, get_features, cancel, clear_session, wipe_device, backup_device,
  ethereum_tx_ack, word_ack, ping, change_pin, tx_ack, get_entropy, set_u2f_counter, load_device,
  apply_settings, apply_flags, get_public_key, get_address, ethereum_get_address, nem_get_address,
  sign_message, verify_message, sign_identity, get_ecdh_session_key, cipher_key_value,
  ethereum_sign_message, ethereum_verify_message, cosi_commit, cosi_sign, nem_decrypt_message,
  reset_device, sign_tx, ethereum_sign_tx, recovery_device, entropy_ack, handle,
}
use safe_t_mcu.Fsm.Rules.{Safe, Guarded, has_yes, nothing_known, Knows, Post, Does}

-- A request that the handler answers itself: it is not handed over to another part, which may use keys
-- and write the storage.
abbrev pub IsOwn : Request → Type 0
IsOwn (tx_ack has_tx) = ⊥
IsOwn ethereum_tx_ack = ⊥
IsOwn word_ack = ⊥
IsOwn (entropy_ack bytes) = ⊥
IsOwn (reset_device strength msg) = ⊥
IsOwn (recovery_device words msg) = ⊥
IsOwn backup_device = ⊥
IsOwn (sign_tx coin inputs outputs) = ⊥
IsOwn (ethereum_sign_tx path) = ⊥
IsOwn r = Unit

abbrev pub log_of : Outcome ⊥ → List Event
log_of (returned a w) = w.log
log_of (stopped e w) = w.log

-- A handler that has ended or waits leaves nothing pending, and other secrets than before only if
-- the user confirmed a question.
abbrev pub Unchanged : State → Outcome ⊥ → Type 0
Unchanged s0 (stopped halted w) = Unit
Unchanged s0 (stopped e w) =
    ((has_yes w.log ≡ true) ⊎ (secrets w.device.store.rom ≡ secrets s0.rom))
    × (w.device.store.update ≡ zero_storage)
Unchanged s0 o = Unit

module _ (L : Library) where
  handle-Safe : (r : Request) → Safe (handle L r)
  handle-Safe (initialize state) = Settings.initialize-Safe L state
  handle-Safe get_features = Settings.get_features-Safe L
  handle-Safe cancel = Settings.cancel-Safe L
  handle-Safe clear_session = Settings.clear_session-Safe L
  handle-Safe wipe_device = Settings.wipe_device-Safe L
  handle-Safe backup_device = Keys.backup_device-Safe L
  handle-Safe ethereum_tx_ack = Keys.ethereum_tx_ack-Safe
  handle-Safe word_ack = Keys.word_ack-Safe
  handle-Safe (ping button pin phrase message) = Settings.ping-Safe L button pin phrase message
  handle-Safe (change_pin removal) = Settings.change_pin-Safe L removal
  handle-Safe (tx_ack has_tx) = Keys.tx_ack-Safe L has_tx
  handle-Safe (get_entropy size) = Settings.get_entropy-Safe L size
  handle-Safe (set_u2f_counter n) = Settings.set_u2f_counter-Safe L n
  handle-Safe (load_device msg) = Settings.load_device-Safe L msg
  handle-Safe (apply_settings msg) = Settings.apply_settings-Safe L msg
  handle-Safe (apply_flags flags) = Settings.apply_flags-Safe L flags
  handle-Safe (get_public_key path coin curve show) =
      Keys.get_public_key-Safe L path coin curve show
  handle-Safe (get_address msg) = Keys.get_address-Safe L msg
  handle-Safe (ethereum_get_address path show) = Keys.ethereum_get_address-Safe L path show
  handle-Safe (nem_get_address path network show) = Keys.nem_get_address-Safe L path network show
  handle-Safe (sign_message coin path type text) = Sign.sign_message-Safe L coin path type text
  handle-Safe (verify_message coin who text signature) =
      Sign.verify_message-Safe L coin who text signature
  handle-Safe (sign_identity msg) = Sign.sign_identity-Safe L msg
  handle-Safe (get_ecdh_session_key i peer curve) = Sign.get_ecdh_session_key-Safe L i peer curve
  handle-Safe (cipher_key_value msg) = Sign.cipher_key_value-Safe L msg
  handle-Safe (ethereum_sign_message path text) = Sign.ethereum_sign_message-Safe L path text
  handle-Safe (ethereum_verify_message who text signature) =
      Sign.ethereum_verify_message-Safe L who text signature
  handle-Safe (cosi_commit path text) = Sign.cosi_commit-Safe L path text
  handle-Safe (cosi_sign path text commitment key) = Sign.cosi_sign-Safe L path text commitment key
  handle-Safe (nem_decrypt_message msg) = Sign.nem_decrypt_message-Safe L msg
  handle-Safe (reset_device strength msg) = Keys.reset_device-Safe L strength msg
  handle-Safe (sign_tx coin inputs outputs) = Keys.sign_tx-Safe L coin inputs outputs
  handle-Safe (ethereum_sign_tx path) = Keys.ethereum_sign_tx-Safe L path
  handle-Safe (recovery_device words msg) = Keys.recovery_device-Safe L words msg
  handle-Safe (entropy_ack bytes) = Keys.entropy_ack-Safe bytes

  handle_post :
      (r : Request) (w : World)
      → w.log ≡ []
      → w.device.store.update ≡ zero_storage
      → Post w.device.store nothing_known (handle L r w)
  handle_post r w l u = (handle-Safe r).at w.device.store w (record {
    guarded = subst Guarded (sym l) tt;
    kept = record { same = refl; settled = u };
    init = λ h. elim (no h) [ ];
    unlocked = λ h. elim (no h) [ ];
    confirmed = tt;
  })
    where
      no : nothing_known.init ≡ true → ⊥
      no h = cc

  Post-Guarded : (s0 : State) (o : Outcome ⊥) → Post s0 nothing_known o → Guarded (log_of o)
  Post-Guarded s0 (returned a w) p = p.guarded
  Post-Guarded s0 (stopped ended w) p = p.guarded
  Post-Guarded s0 (stopped waiting w) p = p.guarded
  Post-Guarded s0 (stopped halted w) p = p

  Post-Unchanged : (s0 : State) (o : Outcome ⊥) → Post s0 nothing_known o → Unchanged s0 o
  Post-Unchanged s0 (returned a w) p = tt
  Post-Unchanged s0 (stopped ended w) p = (p.kept, p.settled)
  Post-Unchanged s0 (stopped waiting w) p = (p.kept, p.settled)
  Post-Unchanged s0 (stopped halted w) p = tt

  -- With nothing pending, and whatever the host does in the dialogues, for a request that the handler
  -- answers itself: keys are derived only while the device is initialized and has no PIN or the PIN was
  -- entered in the session, and a private key is used for a question only after the user confirmed that
  -- question. CipherKeyValue asks a question only if the host wants one. Requests that go to signing,
  -- reset, backup or recovery are not meant.
  pub handle-Guarded :
      (r : Request) (w : World)
      → IsOwn r
      → w.log ≡ []
      → w.device.store.update ≡ zero_storage
      → Guarded (log_of (handle L r w))
  handle-Guarded r w own l u = Post-Guarded w.device.store (handle L r w) (handle_post r w l u)

  -- With nothing pending, and whatever the host does in the dialogues, for a request that the handler
  -- answers itself: unless the device stands still, nothing is pending afterwards either, and if the
  -- stored seed, node or PIN is another one then, the user has confirmed a question. Requests that go to
  -- signing, reset, backup or recovery are not meant.
  pub handle-Unchanged :
      (r : Request) (w : World)
      → IsOwn r
      → w.log ≡ []
      → w.device.store.update ≡ zero_storage
      → Unchanged w.device.store (handle L r w)
  handle-Unchanged r w own l u = Post-Unchanged w.device.store (handle L r w) (handle_post r w l u)
