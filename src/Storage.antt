-- ===== src/Storage.antt =====
-- Persistent storage, firmware/storage.c and firmware/storage.h, in the build without the
-- CryptoMemory chip (CRYPTOMEM=0), whose flash is that of emulator/flash.c.
-- Here: what is stored, what is pending, the session and the flash words. `Commit` writes what is
-- pending, `Fields` has the accessors, `PinArea` and `U2f` the two counters kept in spare flash.
pub mod Commit
pub mod Fields
pub mod Load
pub mod PinArea
pub mod U2f
mod Tests
use safe_t_mcu.Prelude.{
  ℕ, ◌+◌, ◌-◌, ◌*◌, ◌^◌, Bool, true, false, ◌&&◌, List, [], ltb, leb, if◌then◌else◌, Memory, update,
}

-- `StorageHDNode`; the sized byte arrays are lists.
pub record Node : Type 0 where
  pub depth : ℕ
  pub fingerprint : ℕ
  pub child_num : ℕ
  pub chain_code : List ℕ
  pub has_private_key : Bool
  pub private_key : List ℕ
  pub has_public_key : Bool
  pub public_key : List ℕ

-- `Storage`. A string is the list of its characters, without the closing zero.
pub record Storage : Type 0 where
  pub version : ℕ
  pub has_node : Bool
  pub node : Node
  pub has_mnemonic : Bool
  pub mnemonic : List ℕ
  pub has_passphrase_protection : Bool
  pub passphrase_protection : Bool
  pub has_pin : Bool
  pub pin : List ℕ
  pub has_language : Bool
  pub language : List ℕ
  pub has_label : Bool
  pub label : List ℕ
  pub has_imported : Bool
  pub imported : Bool
  pub has_homescreen : Bool
  pub homescreen : List ℕ
  pub has_u2f_counter : Bool
  pub u2f_counter : ℕ
  pub has_needs_backup : Bool
  pub needs_backup : Bool
  pub has_flags : Bool
  pub flags : ℕ
  pub has_u2froot : Bool
  pub u2froot : Node

-- All bytes zero.
abbrev pub zero_node : Node
zero_node = record {
  depth = 0;
  fingerprint = 0;
  child_num = 0;
  chain_code = [];
  has_private_key = false;
  private_key = [];
  has_public_key = false;
  public_key = [];
}

abbrev pub zero_storage : Storage
zero_storage = record {
  version = 0;
  has_node = false;
  node = zero_node;
  has_mnemonic = false;
  mnemonic = [];
  has_passphrase_protection = false;
  passphrase_protection = false;
  has_pin = false;
  pin = [];
  has_language = false;
  language = [];
  has_label = false;
  label = [];
  has_imported = false;
  imported = false;
  has_homescreen = false;
  homescreen = [];
  has_u2f_counter = false;
  u2f_counter = 0;
  has_needs_backup = false;
  needs_backup = false;
  has_flags = false;
  flags = 0;
  has_u2froot = false;
  u2froot = zero_node;
}

-- `sessionSeedCached` and the other session variables.
pub record Session : Type 0 where
  pub seed_cached : Bool
  pub seed_uses_passphrase : Bool
  pub seed : List ℕ
  pub pin_cached : Bool
  pub passphrase_cached : Bool
  pub passphrase : List ℕ

-- The module's state. `magic` and `rom` are the first word and the structure that the storage
-- sector holds, `update` is `storageUpdate`, `extra` is the flash sector of the two counter areas,
-- word by word at its addresses.
pub record State : Type 0 where
  pub magic : ℕ
  pub uuid : List ℕ
  pub rom : Storage
  pub update : Storage
  pub extra : Memory
  pub u2f_offset : ℕ
  pub session : Session

-- `storage_magic` and `STORAGE_VERSION`
abbrev pub storage_magic : ℕ
storage_magic = 0x726f7473

abbrev pub storage_version : ℕ
storage_version = 0x10001

-- FLASH_META_START, FLASH_STORAGE_PINAREA and FLASH_STORAGE_U2FAREA, with their lengths
abbrev pub flash_meta_start : ℕ
flash_meta_start = 0x08000000 + 0x8000

abbrev pub pin_area : ℕ
pin_area = flash_meta_start + 0x4000

abbrev pub pin_area_len : ℕ
pin_area_len = 0x1000

abbrev pub u2f_area : ℕ
u2f_area = pin_area + pin_area_len

abbrev pub u2f_area_len : ℕ
u2f_area_len = 0x100

-- `svc_flash_erase_sector(FLASH_META_SECTOR_LAST)`: every word of the sector has all bits set.
abbrev pub erase_extra : Memory → Memory
erase_extra f a = if leb pin_area a && ltb a (pin_area + 0x4000) then 0xffffffff else f a

-- `session_clear`
unfoldable pub session_clear : Bool → Session → Session
session_clear clear_pin s = record {
  seed_cached = false;
  seed_uses_passphrase = s.seed_uses_passphrase;
  seed = [];
  pin_cached = if clear_pin then false else s.pin_cached;
  passphrase_cached = false;
  passphrase = [];
}
