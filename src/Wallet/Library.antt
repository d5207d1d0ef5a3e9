-- ===== src/Wallet/Library.antt =====
-- What the handlers of messages ask of the crypto library and of the tables that the build
-- generates: keys derived from the seed (bip32.h), ciphers, hashes and signatures, and the coins
-- (firmware/coins.c).
use safe_t_mcu.Prelude.{ℕ, Bool, List, [], ◌∷◌, Option, none, some, if◌then◌else◌, text_eq, Hasher}
use safe_t_mcu.Storage.{Node}
use safe_t_mcu.Wallet.{Coin, Wallet}

-- `HDNode`, with the name of its curve.
pub record HdNode : Type 0 where
  pub depth : ℕ
  pub child_num : ℕ
  pub chain_code : List ℕ
  pub private_key : List ℕ
  pub public_key : List ℕ
  pub curve : List ℕ

-- A row of the table of coins, with what the handlers read of it.
pub record CoinRow : Type 0 where
  pub coin_name : List ℕ
  pub coin : Coin
  pub coin_type : ℕ
  pub curve_name : List ℕ
  pub signed_message_header : List ℕ
  pub xpub_magic : ℕ
  -- the number of the coin's hash for signing
  pub hasher_sign : ℕ

pub record Library : Type 1 where
  -- the table that the build generates
  pub coins : List CoinRow
  pub wallet : CoinRow → HdNode → Wallet
  pub hasher : Hasher
  -- `storage_compute_u2froot`, and the bytes of the random generator
  pub compute_u2froot : List ℕ → Node
  pub random_uuid : List ℕ
  pub random_buffer : ℕ → List ℕ
  pub mnemonic_check : List ℕ → Bool
  -- of the mnemonic and the passphrase
  pub mnemonic_to_seed : List ℕ → List ℕ → List ℕ
  -- of the curve's name
  pub hdnode_from_seed : List ℕ → List ℕ → Option HdNode
  pub hdnode_from_xprv : Node → List ℕ → Option HdNode
  -- BIP39_PBKDF2_ROUNDS; PBKDF2 of a passphrase and a salt, in as many rounds; 64 bytes
  pub bip39_pbkdf2_rounds : ℕ
  pub pbkdf2_hmac_sha512 : List ℕ → List ℕ → ℕ → List ℕ
  -- key, start vector and bytes; the bytes, and the start vector that it leaves
  pub aes_cbc_decrypt : List ℕ → List ℕ → List ℕ → List ℕ × List ℕ
  -- the key, and the fingerprint of its parent
  pub hdnode_private_ckd_cached : HdNode → List ℕ → Option (HdNode × ℕ)
  pub hdnode_fill_public_key : HdNode → HdNode
  pub hdnode_serialize_public : HdNode → ℕ → ℕ → List ℕ
  pub hmac_sha256 : List ℕ → List ℕ → List ℕ
  pub hmac_sha512 : List ℕ → List ℕ → List ℕ
  pub sha256 : List ℕ → List ℕ
  -- `aes_cbc_encrypt` or `aes_cbc_decrypt`: key, start vector, bytes
  pub aes_cbc : Bool → List ℕ → List ℕ → List ℕ → List ℕ
  -- the signature of 64 bytes with its recovery id, of a digest and of a message
  pub hdnode_sign_digest : HdNode → List ℕ → Option (List ℕ × ℕ)
  pub hdnode_sign : HdNode → List ℕ → ℕ → Option (List ℕ)
  -- signature, digest and recovery id; 65 bytes
  pub ecdsa_recover_pub_from_sig : List ℕ → List ℕ → ℕ → Option (List ℕ)
  pub base58_decode_check : CoinRow → List ℕ → List ℕ
  pub segwit_addr_decode : List ℕ → List ℕ → Option (ℕ × List ℕ)
  pub address_prefix_bytes_len : ℕ → ℕ
  pub ecdsa_get_pubkeyhash : CoinRow → List ℕ → List ℕ
  pub ecdsa_get_address_raw : CoinRow → List ℕ → ℕ → List ℕ
  pub ecdsa_get_address_segwit_p2sh_raw : CoinRow → List ℕ → ℕ → List ℕ
  pub keccak : List ℕ → List ℕ
  pub ecdsa_sign_digest_ethereum : List ℕ → List ℕ → Option (List ℕ × ℕ)
  pub hdnode_get_address : HdNode → ℕ → List ℕ
  pub hdnode_get_ethereum_pubkeyhash : HdNode → Option (List ℕ)
  pub ethereum_address_checksum : List ℕ → List ℕ
  pub hdnode_get_shared_key : HdNode → List ℕ → Option (List ℕ)
  pub nem_network_name : ℕ → Option (List ℕ)
  pub nem_get_address : List ℕ → ℕ → List ℕ
  pub hdnode_get_nem_address : HdNode → ℕ → Option (List ℕ)
  -- public key, start vector, salt and payload
  pub hdnode_nem_decrypt : HdNode → List ℕ → List ℕ → List ℕ → List ℕ → Option (List ℕ)
  -- NEM_ENCRYPTED_PAYLOAD_SIZE(0), NEM_SALT_SIZE and NEM_DECRYPTED_SIZE
  pub nem_min_payload : ℕ
  pub nem_salt_size : ℕ
  pub nem_decrypted_size : List ℕ → ℕ → ℕ
  -- RFC 6979, seeded by a private key and a hash
  pub rfc6979 : List ℕ → List ℕ → List ℕ
  pub ed25519_publickey : List ℕ → List ℕ
  -- message, private key, nonce, commitment and public key
  pub ed25519_cosi_sign : List ℕ → List ℕ → List ℕ → List ℕ → List ℕ → List ℕ

-- `coinByName`
unfoldable pub coin_by_name : List ℕ → List CoinRow → Option CoinRow
coin_by_name name [] = none
coin_by_name name (c ∷ coins) =
    let rest = coin_by_name name coins in if text_eq name c.coin_name then some c else rest
