-- ===== src/Format/Superblock.antt =====
-- The superblock slot and its checksum, and a pool's uuid as text:
-- crates/lchfs-format/src/superblock.rs. bincode and CRC32C are parameters.
pub mod Uuid
use lchfs.Common.{ℕ, List, [], ◌∷◌, replicate}
use lchfs.Common.Bytes.{Bincode}
use lchfs.Format.Objects.{Hash}

-- ASCII "LCHFSBLK".
abbrev pub superblock_magic : List ℕ
superblock_magic = b'L' ∷ b'C' ∷ b'H' ∷ b'F' ∷ b'S' ∷ b'B' ∷ b'L' ∷ b'K' ∷ []

abbrev pub superblock_slot_count : ℕ
superblock_slot_count = 16

abbrev pub superblock_slot_size : ℕ
superblock_slot_size = 4096

-- crates/lchfs-format/src/lib.rs
abbrev pub format_version : ℕ
format_version = 6

abbrev pub min_readable_format_version : ℕ
min_readable_format_version = 6

pub record ExtentLocation : Type 0 where
  pub segment_id : ℕ
  pub offset : ℕ
  pub len : ℕ

pub record SuperblockStats : Type 0 where
  pub live_bytes : ℕ
  pub object_count : ℕ
  pub segment_count : ℕ

pub record SuperblockSlot : Type 0 where
  pub magic : List ℕ
  pub version : ℕ
  pub pool_uuid : List ℕ
  pub vdev_id : ℕ
  pub vdev_count : ℕ
  pub generation : ℕ
  pub root_hash : Hash
  pub root_location : ExtentLocation
  pub index_generation : ℕ
  pub committed_at_unix_nanos : ℕ
  pub stats : SuperblockStats
  pub header_checksum : ℕ

-- The layout of format 2, which is decoded only to be refused.
pub record SuperblockSlotV2 : Type 0 where
  pub magic : List ℕ
  pub version : ℕ
  pub generation : ℕ
  pub root_hash : Hash
  pub root_location : ExtentLocation
  pub index_generation : ℕ
  pub committed_at_unix_nanos : ℕ
  pub stats : SuperblockStats
  pub header_checksum : ℕ

module _ (bincode : Bincode SuperblockSlot) (crc : List ℕ → ℕ) where
  unfoldable pub compute_superblock_slot_checksum : SuperblockSlot → ℕ
  compute_superblock_slot_checksum slot = crc (bincode.encode (record slot { header_checksum = 0 }))

  unfoldable pub finalize_superblock_slot_checksum : SuperblockSlot → SuperblockSlot
  finalize_superblock_slot_checksum slot = record slot {
    header_checksum = compute_superblock_slot_checksum slot;
  }
