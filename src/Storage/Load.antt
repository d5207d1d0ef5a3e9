-- ===== src/Storage/Load.antt =====
-- A seed or a node that the host loads, `storage_loadDevice` of firmware/storage.c (CRYPTOMEM=0),
-- and the state of a session that the host may resume, `session_getState`.
use safe_t_mcu.Prelude.{
  ℕ, ◌+◌, ◌-◌, ◌%◌, ◌^◌, Bool, true, false, not, List, [], ◌++◌, Option, none, some, if◌then◌else◌,
  take,
}
use safe_t_mcu.Storage.{Node, State, session_clear}
use safe_t_mcu.Storage.Commit.{storage_update}
use safe_t_mcu.Storage.Fields.{
  strlcpy, storage_set_pin, storage_set_passphrase_protection, storage_set_label,
}

-- `LoadDevice`
pub record LoadDevice : Type 0 where
  pub mnemonic : Option (List ℕ)
  pub node : Option Node
  pub pin : Option (List ℕ)
  pub passphrase_protection : Bool
  pub language : Option (List ℕ)
  pub label : Option (List ℕ)
  pub skip_checksum : Bool
  pub u2f_counter : Option ℕ

-- `storage_setNode`; a node with no private key leaves that of the pending one.
unfoldable pub storage_set_node : Node → Node → Node
storage_set_node node old = record {
  depth = node.depth;
  fingerprint = node.fingerprint;
  child_num = node.child_num;
  chain_code = take 32 node.chain_code;
  has_private_key = if node.has_private_key then true else old.has_private_key;
  private_key = if node.has_private_key then take 32 node.private_key else old.private_key;
  has_public_key = old.has_public_key;
  public_key = old.public_key;
}

abbrev forget_seed : State → State
forget_seed s = record s { session = record (s.session) { seed_cached = false; seed = [] } }

-- The node or else the mnemonic.
abbrev pub load_secret : Option Node → Option (List ℕ) → State → State
load_secret (some node) mnemonic s = forget_seed (record s {
  update = record (s.update) {
    has_node = true;
    has_mnemonic = false;
    node = storage_set_node node s.update.node;
  };
})
load_secret none (some mnemonic) s = forget_seed (record s {
  update = record (s.update) {
    has_mnemonic = true;
    has_node = false;
    mnemonic = strlcpy 241 mnemonic;
  };
})
load_secret none none s = s

abbrev pub load_language : Option (List ℕ) → State → State
load_language none s = s
load_language (some lang) s = record s {
  update = record (s.update) { has_language = true; language = strlcpy 17 lang };
}

abbrev pub load_u2f_counter : Option ℕ → State → State
load_u2f_counter none s = s
load_u2f_counter (some n) s = record s {
  update = record (s.update) {
    has_u2f_counter = true;
    u2f_counter = (n + 2 ^ 32 - s.u2f_offset) % 2 ^ 32;
  };
}

abbrev pub or_empty : Option (List ℕ) → List ℕ
or_empty none = []
or_empty (some xs) = xs

-- `storage_loadDevice`
unfoldable pub storage_load_device : (List ℕ → Node) → LoadDevice → State → State
storage_load_device compute_u2froot msg s =
    let s1 : State = record s {
      session = session_clear true s.session;
      update = record (s.update) { has_imported = true; imported = true };
    } in
    let s2 =
      storage_set_passphrase_protection msg.passphrase_protection
        (storage_set_pin (or_empty msg.pin) s1) in
    let s3 = load_language msg.language (load_secret msg.node msg.mnemonic s2) in
    let s4 = storage_set_label (some (or_empty msg.label)) s3 in
    storage_update compute_u2froot (load_u2f_counter msg.u2f_counter s4)

-- `session_getState` for no passphrase: the salt, and a code for it under the session's passphrase.
unfoldable pub session_get_state : (List ℕ → List ℕ → List ℕ) → List ℕ → State → Option (List ℕ)
session_get_state hmac_sha256 salt s =
    if not s.session.passphrase_cached
    then none
    else some (take 32 salt ++ hmac_sha256 s.session.passphrase (take 32 salt ++ s.uuid))
