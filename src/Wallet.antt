-- ===== src/Wallet.antt =====
-- What the firmware asks of the crypto library when it signs, and the description of a coin
-- (firmware/coins.h). The keys and hashes that the library computes are parameters.
pub mod Multisig
pub mod Library
use safe_t_mcu.Prelude.{ℕ, Bool, List, Option, Hasher}
use safe_t_mcu.Storage.{Node}

-- `HDNodePathType`
pub record NodePath : Type 0 where
  pub node : Node
  pub address_n : List ℕ

-- `CoinInfo`, without its names and its curve.
pub record Coin : Type 0 where
  pub has_address_type : Bool
  pub address_type : ℕ
  pub has_address_type_p2sh : Bool
  pub address_type_p2sh : ℕ
  pub maxfee_kb : ℕ
  pub has_segwit : Bool
  pub has_forkid : Bool
  pub forkid : ℕ
  pub force_bip143 : Bool
  -- no prefix is a null pointer
  pub bech32_prefix : Option (List ℕ)

-- The library under the root key that is signed with, on the coin's curve.
pub record Wallet : Type 1 where
  pub hasher : Hasher
  -- the numbers of the coin's two hashes
  pub hasher_sign : ℕ
  pub hasher_pubkey : ℕ
  -- `hdnode_private_ckd_cached` with `hdnode_fill_public_key`: the private and the public key
  pub derive : List ℕ → Option (List ℕ × List ℕ)
  -- `cryptoHDNodePathToPubkey`
  pub path_to_pubkey : NodePath → Option (List ℕ)
  -- `ecdsa_sign_digest` with `ecdsa_sig_to_der`
  pub sign_digest : List ℕ → List ℕ → Option (List ℕ)
  pub sha256 : List ℕ → List ℕ
  pub ripemd160 : List ℕ → List ℕ
  -- `hasher_Raw` with the hash for public keys
  pub hasher_raw : List ℕ → List ℕ
  pub ecdsa_get_pubkeyhash : List ℕ → List ℕ
  pub ecdsa_get_address : List ℕ → ℕ → List ℕ
  pub ecdsa_get_address_segwit_p2sh : List ℕ → ℕ → List ℕ
  -- `address_write_prefix_bytes`, as many as `address_prefix_bytes_len` says
  pub address_prefix_bytes : ℕ → List ℕ
  pub address_check_prefix : List ℕ → ℕ → Bool
  pub base58_encode_check : List ℕ → Option (List ℕ)
  -- nothing is decoded from what is no address
  pub base58_decode_check : List ℕ → List ℕ
  pub segwit_addr_encode : List ℕ → ℕ → List ℕ → Option (List ℕ)
  pub segwit_addr_decode : List ℕ → List ℕ → Option (ℕ × List ℕ)
  -- whether `coinByAddressType` finds a coin in the table that the build generates
  pub known_address_type : ℕ → Bool
