-- ===== src/Fsm/Keys.antt =====
-- The handlers that hand out public keys and addresses, of firmware/fsm.c.
use safe_t_mcu.Prelude.{ℕ, Bool, true, ◌&&◌, List, [], ◌∷◌, Option, none, some, ◌==◌, if◌then◌else◌}
use safe_t_mcu.Tx.Script.{Multisig}
use safe_t_mcu.Tx.Weight.{InputScriptType}
use safe_t_mcu.Tx.Address.{compute_address}
use safe_t_mcu.Wallet.{NodePath}
use safe_t_mcu.Wallet.Library.{HdNode, CoinRow, Library}
use safe_t_mcu.Host.{
  show_key, wrong_path, data_error, Failure, public_key, address, ethereum_address, nem_address,
  ended, stopped, M, ◌>>=◌, ◌>>◌, pure, reply,
}
use safe_t_mcu.Fsm.{
  fail, check_initialized, check_pin, confirm_if, fsm_get_coin, fsm_layout_address,
}
use safe_t_mcu.Fsm.Root.{secp256k1, fsm_get_derived_node}
use safe_t_mcu.Fsm.Path.{path_mismatched}

-- "ed25519-keccak"
abbrev pub ed25519_keccak : List ℕ
ed25519_keccak =
    b'e' ∷ b'd' ∷ b'2' ∷ b'5' ∷ b'5' ∷ b'1' ∷ b'9' ∷ b'-' ∷ b'k' ∷ b'e' ∷ b'c' ∷ b'c' ∷ b'a' ∷ b'k'
    ∷ []

-- A public key as it is sent: an Ed25519 key is marked by 1, and sent with 0.
abbrev pub sent_key : List ℕ → List ℕ
sent_key [] = []
sent_key (b ∷ bs) = (if b == 1 then 0 else b) ∷ bs

abbrev pub curve_or : Option (List ℕ) → List ℕ → List ℕ
curve_or none curve = curve
curve_or (some name) curve = name

-- The handler returns and answers nothing.
unfoldable pub silent : {A : Type 0} → M A
silent w = stopped ended w

-- `GetAddress`
pub record GetAddress : Type 0 where
  pub address_n : List ℕ
  pub coin_name : Option (List ℕ)
  pub show_display : Bool
  pub multisig : Option (Multisig NodePath)
  pub script_type : InputScriptType

module _ (L : Library) where
  abbrev pub or_fail : {A : Type 0} → Failure → Option A → M A
  or_fail f none = fail L f
  or_fail f (some a) = pure a

  abbrev pub or_silent : {A : Type 0} → Option A → M A
  or_silent none = silent
  or_silent (some a) = pure a

  -- `fsm_msgGetPublicKey`: path, coin and curve
  unfoldable pub fsm_msg_get_public_key : List ℕ → Option (List ℕ) → Option (List ℕ) → Bool → M ⊥
  fsm_msg_get_public_key path coin_name curve_name show_display = do
    check_initialized L
    check_pin L true
    coin ← fsm_get_coin L coin_name
    (node, fingerprint) ← fsm_get_derived_node L (curve_or curve_name coin.curve_name) path
    let full = L.hdnode_fill_public_key node
    confirm_if L show_display (show_key full.public_key)
    reply (
        public_key (record full { private_key = []; public_key = sent_key full.public_key })
          fingerprint (L.hdnode_serialize_public full fingerprint coin.xpub_magic))

  abbrev pub address_of : CoinRow → HdNode → GetAddress → Option (List ℕ)
  address_of coin node msg =
      compute_address (L.wallet coin node) coin.coin msg.script_type node.public_key msg.multisig

  -- The address on the display, if it is asked for.
  unfoldable pub display_address : Bool → List ℕ → List ℕ → M (Unit {0})
  display_address show text path = if show then fsm_layout_address L text path else pure tt

  -- `fsm_msgGetAddress`
  unfoldable pub fsm_msg_get_address : GetAddress → M ⊥
  fsm_msg_get_address msg = do
    check_initialized L
    check_pin L true
    coin ← fsm_get_coin L msg.coin_name
    (node, fingerprint) ← fsm_get_derived_node L coin.curve_name msg.address_n
    text ← or_fail data_error (address_of coin (L.hdnode_fill_public_key node) msg)
    confirm_if L (msg.show_display && path_mismatched coin msg.script_type msg.address_n) wrong_path
    display_address msg.show_display text msg.address_n
    reply (address text)

  -- `fsm_msgEthereumGetAddress`
  unfoldable pub fsm_msg_ethereum_get_address : List ℕ → Bool → M ⊥
  fsm_msg_ethereum_get_address path show_display = do
    check_initialized L
    check_pin L true
    (node, fingerprint) ← fsm_get_derived_node L secp256k1 path
    hash ← or_silent (L.hdnode_get_ethereum_pubkeyhash node)
    display_address show_display (b'0' ∷ b'x' ∷ L.ethereum_address_checksum hash) path
    reply (ethereum_address hash)

  -- NEM_NETWORK_MAINNET
  abbrev pub network_or_main : Option ℕ → ℕ
  network_or_main none = 0x68
  network_or_main (some n) = n

  -- `fsm_msgNEMGetAddress`
  unfoldable pub fsm_msg_nem_get_address : List ℕ → Option ℕ → Bool → M ⊥
  fsm_msg_nem_get_address path network show_display = do
    name ← or_fail data_error (L.nem_network_name (network_or_main network))
    check_initialized L
    check_pin L true
    (node, fingerprint) ← fsm_get_derived_node L ed25519_keccak path
    text ← or_silent (L.hdnode_get_nem_address node (network_or_main network))
    display_address show_display text path
    reply (nem_address text)
