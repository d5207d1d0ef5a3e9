-- ===== src/Fsm/Messages.antt =====
-- Messages that are signed and verified, firmware/crypto.c and the end of firmware/ethereum.c. The
-- curves are those of the crypto library.
use Prim.Native.Nat.{bit_and, bit_or}
use safe_t_mcu.Prelude.{
  ℕ, ◌+◌, ◌-◌, ◌*◌, ◌%◌, Bool, false, ◌&&◌, ◌||◌, List, [], ◌∷◌, ◌++◌, Option, none, some, ltb, leb,
  ◌==◌, if◌then◌else◌, length, get_or, take, drop, le_bytes, text_eq,
}
use safe_t_mcu.Wire.{ser_length}
use safe_t_mcu.Tx.Weight.{InputScriptType, spend_witness, spend_p2sh_witness}
use safe_t_mcu.Wallet.Library.{HdNode, CoinRow, Library}
use safe_t_mcu.Host.{Identity}

abbrev pub ed25519 : List ℕ
ed25519 = b'e' ∷ b'd' ∷ b'2' ∷ b'5' ∷ b'5' ∷ b'1' ∷ b'9' ∷ []

-- The number that the first byte of a signature begins from.
abbrev pub prefix_of : InputScriptType → ℕ
prefix_of spend_p2sh_witness = 35
prefix_of spend_witness = 39
prefix_of type = 31

-- The part of an identity that is there, with what stands before and behind it.
abbrev pub part : List ℕ → List ℕ → List ℕ → List ℕ
part before [] after = []
part before (c ∷ cs) after = before ++ ((c ∷ cs) ++ after)

-- `0x80000000` with a word of the fingerprint
abbrev identity_word : ℕ → List ℕ → ℕ
identity_word i hash = bit_or 0x80000000 (
    bit_or (get_or hash i 0) (
      bit_or (get_or hash (i + 1) 0 * 256)
        (bit_or (get_or hash (i + 2) 0 * 65536) (get_or hash (i + 3) 0 * 16777216))))

-- The path of an identity's key under the purpose given.
unfoldable pub identity_path : ℕ → List ℕ → List ℕ
identity_path purpose hash =
    bit_or 0x80000000 purpose
    ∷ identity_word 0 hash
    ∷ identity_word 4 hash
    ∷ identity_word 8 hash
    ∷ identity_word 12 hash
    ∷ []

module _ (L : Library) where
  open L use {hasher}

  -- `cryptoMessageHash`
  unfoldable pub crypto_message_hash : CoinRow → List ℕ → List ℕ
  crypto_message_hash coin message = hasher.digest (
      hasher.feed
        (hasher.feed (hasher.feed (hasher.init coin.hasher_sign) coin.signed_message_header)
          (ser_length (length message)).1)
        message)

  abbrev with_prefix : InputScriptType → Option (List ℕ × ℕ) → Option (List ℕ)
  with_prefix type none = none
  with_prefix type (some (signature, pby)) = some ((prefix_of type + pby) ∷ signature)

  -- `cryptoMessageSign`; `none` is a result other than 0.
  unfoldable pub crypto_message_sign : CoinRow → HdNode → InputScriptType → List ℕ → Option (List ℕ)
  unfolding crypto_message_hash
  crypto_message_sign coin node type message =
      with_prefix type (L.hdnode_sign_digest node (crypto_message_hash coin message))

  -- An address of 20 bytes behind its prefix; nothing is decoded from what is none.
  abbrev same_address : List ℕ → List ℕ → ℕ → Bool
  same_address addr_raw recovered_raw prefix =
      text_eq (take (length addr_raw) recovered_raw) addr_raw && length addr_raw == prefix + 20

  abbrev same_witness : List ℕ → Option (ℕ × List ℕ) → Bool
  same_witness pubkeyhash none = false
  same_witness pubkeyhash (some (witver, program)) =
      text_eq program (take (length program) pubkeyhash) && (witver == 0 && length program == 20)

  abbrev in_witness : CoinRow → List ℕ → List ℕ → Option (List ℕ) → Bool
  in_witness coin text pubkey none = false
  in_witness coin text pubkey (some prefix) =
      same_witness (L.ecdsa_get_pubkeyhash coin pubkey) (L.segwit_addr_decode prefix text)

  abbrev compressed_key : ℕ → List ℕ → List ℕ
  compressed_key first pubkey =
      if leb 31 first then bit_or 2 (bit_and (get_or pubkey 64 0) 1) ∷ drop 1 pubkey else pubkey

  abbrev is_signer : CoinRow → List ℕ → ℕ → List ℕ → Bool
  is_signer coin text first pubkey =
      if leb first 34
      then same_address (L.base58_decode_check coin text)
          (L.ecdsa_get_address_raw coin pubkey coin.coin.address_type)
          (L.address_prefix_bytes_len coin.coin.address_type)
      else if leb first 38
      then same_address (L.base58_decode_check coin text)
          (L.ecdsa_get_address_segwit_p2sh_raw coin pubkey coin.coin.address_type_p2sh)
          (L.address_prefix_bytes_len coin.coin.address_type_p2sh)
      else if leb first 42
      then in_witness coin text pubkey coin.coin.bech32_prefix
      else false

  abbrev signed_by : CoinRow → List ℕ → ℕ → Option (List ℕ) → Bool
  signed_by coin text first none = false
  signed_by coin text first (some pubkey) = is_signer coin text first (compressed_key first pubkey)

  -- `cryptoMessageVerify`; whether it returns 0.
  unfoldable pub crypto_message_verify : CoinRow → List ℕ → List ℕ → List ℕ → Bool
  unfolding crypto_message_hash
  crypto_message_verify coin message text signature =
      let first = get_or signature 0 0 in
      if ltb first 27 || ltb 43 first
      then false
      else signed_by coin text first (
          L.ecdsa_recover_pub_from_sig (drop 1 signature) (crypto_message_hash coin message)
            ((first - 27) % 4))

  abbrev padded : Option (List ℕ) → Option (List ℕ)
  padded none = none
  padded (some signature) = some (0 ∷ signature)

  -- `sshMessageSign`; 1 is HASHER_SHA2 of the library's, and 0 hashes nothing.
  unfoldable pub ssh_message_sign : HdNode → List ℕ → Option (List ℕ)
  ssh_message_sign node message = padded (L.hdnode_sign node message 1)

  abbrev digest_signature : Option (List ℕ × ℕ) → Option (List ℕ)
  digest_signature none = none
  digest_signature (some (signature, pby)) = some (0 ∷ signature)

  -- `gpgMessageSign`
  unfoldable pub gpg_message_sign : HdNode → List ℕ → Option (List ℕ)
  gpg_message_sign node message =
      if text_eq node.curve ed25519
      then padded (L.hdnode_sign node message 0)
      else if length message == 32
      then digest_signature (L.hdnode_sign_digest node message)
      else none

  -- `cryptoIdentityFingerprint`
  unfoldable pub crypto_identity_fingerprint : Identity → List ℕ
  crypto_identity_fingerprint i = L.sha256 (
      le_bytes 4 i.index
      ++ (part [] i.proto (b':' ∷ b'/' ∷ b'/' ∷ [])
          ++ (part [] i.user (b'@' ∷ [])
              ++ (part [] i.host [] ++ (part (b':' ∷ []) i.port [] ++ part [] i.path [])))))

  -- "\x19Ethereum Signed Message:\n"
  abbrev ethereum_header : List ℕ
  ethereum_header =
      0x19 ∷ b'E' ∷ b't' ∷ b'h' ∷ b'e' ∷ b'r' ∷ b'e' ∷ b'u' ∷ b'm' ∷ b' ' ∷ b'S' ∷ b'i' ∷ b'g'
      ∷ b'n' ∷ b'e' ∷ b'd' ∷ b' ' ∷ b'M' ∷ b'e' ∷ b's' ∷ b's' ∷ b'a' ∷ b'g' ∷ b'e' ∷ b':' ∷ 10 ∷ []

  -- `ethereum_message_hash`
  unfoldable pub ethereum_message_hash : List ℕ → List ℕ
  ethereum_message_hash message =
      L.keccak (ethereum_header ++ ((ser_length (length message)).1 ++ message))

  abbrev ethereum_v : Option (List ℕ × ℕ) → Option (List ℕ)
  ethereum_v none = none
  ethereum_v (some (signature, v)) = some (signature ++ ((27 + v) ∷ []))

  -- The signature of `ethereum_message_sign`
  unfoldable pub ethereum_signature_of : HdNode → List ℕ → Option (List ℕ)
  unfolding ethereum_message_hash
  ethereum_signature_of node message =
      ethereum_v (L.ecdsa_sign_digest_ethereum node.private_key (ethereum_message_hash message))

  abbrev recovers : List ℕ → Option (List ℕ) → Bool
  recovers text none = false
  recovers text (some pubkey) =
      text_eq text (take 20 (drop 12 (L.keccak (take 64 (drop 1 pubkey)))))

  -- Whether `ethereum_message_verify` returns 0, of a signature of 65 bytes and an address of 20
  unfoldable pub is_signed_by : List ℕ → List ℕ → List ℕ → Bool
  unfolding ethereum_message_hash
  is_signed_by text signature message =
      let byte = get_or signature 64 0 in
      let v = if leb 27 byte then byte - 27 else byte in
      if leb 2 v
      then false
      else recovers text
          (L.ecdsa_recover_pub_from_sig (take 64 signature) (ethereum_message_hash message) v)
