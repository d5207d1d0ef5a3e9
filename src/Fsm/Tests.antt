-- ===== src/Fsm/Tests.antt =====
-- Requests handled on a device with the PIN 12 and a seed, and the theorems at them.
use safe_t_mcu.Prelude.{
  ℕ, ◌%◌, ◌≡◌, ◌≢◌, ◌↔◌, refl, true, false, List, [], ◌∷◌, ◌++◌, none, some, replicate, take,
  length, list_hasher,
}
use safe_t_mcu.PinMatrix.{digits}
use safe_t_mcu.Storage.{Node, State, zero_node, zero_storage, storage_magic}
use safe_t_mcu.Storage.Load.{session_get_state}
use safe_t_mcu.Tx.Weight.{spend_address}
use safe_t_mcu.Protect.{nothing, pin_matrix_ack, Device, Attempt}
use safe_t_mcu.Wallet.{Wallet}
use safe_t_mcu.Wallet.Library.{HdNode, CoinRow, Library}
use safe_t_mcu.Host.{World, confirmed, sent, features, say}
use safe_t_mcu.Fsm.{features_of, fsm_msg_initialize}
use safe_t_mcu.Fsm.Dispatch.{Request, sign_message, change_pin, ethereum_verify_message, handle}
use safe_t_mcu.Fsm.Sign.{has_sizes}
use safe_t_mcu.Fsm.Path.{path_mismatched}
use safe_t_mcu.Fsm.Path.Fits.{Fits, path_mismatched_iff}
use safe_t_mcu.Fsm.Rules.{Guarded}
use safe_t_mcu.Fsm.Guarded.{log_of, Unchanged, handle-Guarded, handle-Unchanged}
use safe_t_mcu.Fsm.Answers.Total.{
  Allowed, Answered, answered, handle-Answered, malformed_refused_twice,
}
use safe_t_mcu.Fsm.Session.{initialize-resumes, initialize-forgets}

abbrev wallet : Wallet
wallet = record {
  hasher = list_hasher;
  hasher_sign = 0;
  hasher_pubkey = 1;
  derive = λ address_n. some (1 ∷ address_n, 2 ∷ address_n);
  path_to_pubkey = λ p. some p.node.public_key;
  sign_digest = λ key digest. some (0x30 ∷ key);
  sha256 = take 32;
  ripemd160 = take 20;
  hasher_raw = take 32;
  ecdsa_get_pubkeyhash = λ key. replicate 20 7;
  ecdsa_get_address = λ key type. type ∷ key;
  ecdsa_get_address_segwit_p2sh = λ key type. type ∷ key;
  address_prefix_bytes = λ type. type ∷ [];
  address_check_prefix = λ raw type. true;
  base58_encode_check = λ raw. some raw;
  base58_decode_check = λ text. text;
  segwit_addr_encode = λ prefix version program. some program;
  segwit_addr_decode = λ prefix text. none;
  known_address_type = λ type. true;
}

abbrev coin : CoinRow
coin = record {
  coin_name = b'S' ∷ b'y' ∷ b's' ∷ b'c' ∷ b'o' ∷ b'i' ∷ b'n' ∷ [];
  coin = record {
    has_address_type = true;
    address_type = 63;
    has_address_type_p2sh = true;
    address_type_p2sh = 5;
    maxfee_kb = 2000000;
    has_segwit = true;
    has_forkid = false;
    forkid = 0;
    force_bip143 = false;
    bech32_prefix = none;
  };
  coin_type = 0x80000039;
  curve_name = b's' ∷ [];
  signed_message_header = 1 ∷ 2 ∷ [];
  xpub_magic = 7;
  hasher_sign = 0;
}

-- The key whose private part is the seed.
abbrev node_of : List ℕ → List ℕ → HdNode
node_of seed curve = record {
  depth = 0;
  child_num = 0;
  chain_code = [];
  private_key = seed;
  public_key = 2 ∷ seed;
  curve = curve;
}

abbrev compute_u2froot : List ℕ → Node
compute_u2froot mnemonic = zero_node

abbrev lib : Library
lib = record {
  coins = coin ∷ [];
  wallet = λ c n. wallet;
  hasher = list_hasher;
  compute_u2froot = compute_u2froot;
  random_uuid = [];
  random_buffer = λ n. [];
  mnemonic_check = λ m. true;
  mnemonic_to_seed = λ m p. m ++ p;
  hdnode_from_seed = λ seed curve. some (node_of seed curve);
  hdnode_from_xprv = λ n curve. some (node_of n.private_key curve);
  bip39_pbkdf2_rounds = 2048;
  pbkdf2_hmac_sha512 = λ p salt n. replicate 64 n;
  aes_cbc_decrypt = λ key iv bytes. (bytes, take 16 bytes);
  hdnode_private_ckd_cached = λ n path. some (n, 1);
  hdnode_fill_public_key = λ n. n;
  hdnode_serialize_public = λ n fingerprint magic. magic ∷ n.public_key;
  hmac_sha256 = λ k m. replicate 32 (length k % 256);
  hmac_sha512 = λ k m. replicate 64 0;
  sha256 = λ m. replicate 32 0;
  aes_cbc = λ encrypt key iv bytes. bytes;
  hdnode_sign_digest = λ n digest. some (n.private_key, 1);
  hdnode_sign = λ n message hash. some n.private_key;
  ecdsa_recover_pub_from_sig = λ signature digest id. none;
  base58_decode_check = λ c text. text;
  segwit_addr_decode = λ prefix text. none;
  address_prefix_bytes_len = λ type. 1;
  ecdsa_get_pubkeyhash = λ c key. replicate 20 7;
  ecdsa_get_address_raw = λ c key type. type ∷ key;
  ecdsa_get_address_segwit_p2sh_raw = λ c key type. type ∷ key;
  keccak = λ m. replicate 32 0;
  ecdsa_sign_digest_ethereum = λ key digest. some (key, 0);
  hdnode_get_address = λ n type. type ∷ n.public_key;
  hdnode_get_ethereum_pubkeyhash = λ n. some (replicate 20 1);
  ethereum_address_checksum = λ hash. hash;
  hdnode_get_shared_key = λ n peer. some peer;
  nem_network_name = λ n. some [];
  nem_get_address = λ key n. key;
  hdnode_get_nem_address = λ n network. some [];
  hdnode_nem_decrypt = λ n key iv salt payload. some payload;
  nem_min_payload = 64;
  nem_salt_size = 32;
  nem_decrypted_size = λ bytes size. size;
  rfc6979 = λ key hash. hash;
  ed25519_publickey = λ key. key;
  ed25519_cosi_sign = λ m key nonce commitment public_key. m;
}

abbrev store : State
store = record {
  magic = storage_magic;
  uuid = 0xa5 ∷ replicate 11 0;
  rom = record zero_storage {
    has_pin = true;
    pin = b'1' ∷ b'2' ∷ [];
    has_mnemonic = true;
    mnemonic = b'a' ∷ b'b' ∷ [];
  };
  update = zero_storage;
  extra = λ a. 0xffffffff;
  u2f_offset = 0;
  session = record {
    seed_cached = false;
    seed_uses_passphrase = false;
    seed = [];
    pin_cached = false;
    passphrase_cached = true;
    passphrase = b'x' ∷ [];
  };
}

abbrev device : Device
device = record {
  store = store;
  perm = replicate 9 b'X';
  box = nothing;
  aborted_by_initialize = false;
  failures = [];
}

abbrev entry : List ℕ → Attempt
entry typed = record { sleeps = []; keypad = digits; polls = some (pin_matrix_ack typed) ∷ [] }

-- The user confirms twice and enters the digits.
abbrev world : List ℕ → World
world typed = record {
  device = device;
  recovering = true;
  signing = true;
  ethereum_signing = true;
  answers = confirmed nothing ∷ confirmed nothing ∷ [];
  entries = entry typed ∷ [];
  phrases = [] ∷ [];
  log = [];
}

abbrev request : Request
request = sign_message none [] spend_address (b'm' ∷ [])

handle-Guarded_example : Guarded (log_of (handle lib request (world (b'1' ∷ b'2' ∷ []))))
handle-Guarded_example = handle-Guarded lib request (world (b'1' ∷ b'2' ∷ [])) tt refl refl

handle-Unchanged_example : Unchanged store (handle lib (change_pin true) (world (b'1' ∷ b'2' ∷ [])))
handle-Unchanged_example =
    handle-Unchanged lib (change_pin true) (world (b'1' ∷ b'2' ∷ [])) tt refl refl

handle-Answered_example :
    Answered (Allowed lib request) (handle lib request (world (b'1' ∷ b'2' ∷ [])))
handle-Answered_example = handle-Answered lib request (world (b'1' ∷ b'2' ∷ [])) refl

malformed_refused_twice_example :
    (answered lib (handle lib (ethereum_verify_message (some []) (some []) []) (world [])) ≡ 2)
    ↔ (has_sizes lib [] [] ≡ false)
malformed_refused_twice_example = malformed_refused_twice lib [] [] [] (world []) refl

abbrev salt : List ℕ
salt = replicate 32 9

tags_have_32 : (k m : List ℕ) → length (lib.hmac_sha256 k m) ≡ 32
tags_have_32 k m = refl

state_given : session_get_state lib.hmac_sha256 salt store ≡ some (salt ++ replicate 32 1)
unfolding session_get_state
state_given = refl

initialize-resumes_example :
    fsm_msg_initialize lib (some (salt ++ replicate 32 1)) (world [])
    ≡ say
        (sent (features (features_of store)))
        (record (world []) { recovering = false; signing = false })
initialize-resumes_example =
    initialize-resumes lib salt (salt ++ replicate 32 1) (world []) refl tags_have_32 state_given

not_given : session_get_state lib.hmac_sha256 (3 ∷ []) store ≢ some (3 ∷ [])
unfolding session_get_state
not_given h = cc

initialize-forgets_example :
    let s = (fsm_msg_initialize lib (some (3 ∷ [])) (world [])).device.store in
    (s.rom ≡ store.rom)
    × (s.session.seed_cached ≡ false)
    × (s.session.passphrase_cached ≡ false)
    × (s.session.pin_cached ≡ false)
initialize-forgets_example = initialize-forgets lib (3 ∷ []) (world []) not_given

-- m / 44' / 57' / 0' / 0 / 5
abbrev levels : List ℕ
levels = 0x80000039 ∷ 0x80000000 ∷ 0 ∷ 5 ∷ []

path_mismatched_iff_example :
    (path_mismatched coin spend_address (0x8000002c ∷ levels) ≡ false)
    ↔ Fits coin spend_address 0x8000002c levels
path_mismatched_iff_example = path_mismatched_iff coin spend_address 0x8000002c levels
