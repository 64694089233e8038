-- ===== src/Store/Superblock.antt =====
-- Reading and committing the superblock ring: `read_superblock` and `write_superblock_slot` of
-- crates/lchfs-store/src/lib.rs. The ring is its aligned blocks, which are read and written whole.
pub mod Commit
mod Tests
use lchfs.Common.{ℕ, zero, suc, ◌+◌, ◌-◌, ◌%◌, ◌≤◌, ◌≡◌, Bool, true, false, not, ◌&&◌, ◌||◌}
use lchfs.Common.{
  Option, none, some, List, [], ◌∷◌, ◌++◌, ltb, leb, ◌==◌, if◌then◌else◌, length, replicate,
}
use lchfs.Common.{take, drop, set, Result, ok, err}
use lchfs.Common.Names.{name_eq}
use lchfs.Common.Bytes.{Bincode, to_le_bytes, from_le_bytes}
use lchfs.Format.Superblock.{
  SuperblockSlot, SuperblockSlotV2, superblock_magic, superblock_slot_size,
}
use lchfs.Format.Superblock.{superblock_slot_count, format_version, min_readable_format_version}
use lchfs.Format.Superblock.{compute_superblock_slot_checksum}

pub data SlotError : Type 0 where
  legacy_format_version unsupported_format_version : ℕ → SlotError
  bad_identity : SlotError

-- What one block says: nothing, a slot, or a reason to refuse the pool.
pub data Verdict : Type 0 where
  skip : Verdict
  candidate : SuperblockSlot → Verdict
  refuse : SlotError → Verdict

-- `&bytes[4..4 + encoded_len]`, if the length makes sense.
pub slot_bytes : List ℕ → Option (List ℕ)
slot_bytes bytes =
    if ltb (length bytes) 4
    then none
    else let encoded_len = from_le_bytes (take 4 bytes) in
      if (encoded_len == 0) || ltb (length bytes) (4 + encoded_len)
      then none
      else some (take encoded_len (drop 4 bytes))

-- `best.as_ref().is_none_or(|b| slot.generation > b.generation)`
pub better : Option SuperblockSlot → SuperblockSlot → Option SuperblockSlot
better none slot = some slot
better (some b) slot = if ltb b.generation slot.generation then some slot else some b

module _ (bincode : Bincode SuperblockSlot) (legacy : List ℕ → Option SuperblockSlotV2)
    (crc : List ℕ → ℕ) where
  -- The checks on a slot that decodes.
  pub judge_slot : SuperblockSlot → Verdict
  judge_slot slot =
      if not (name_eq slot.magic superblock_magic)
      then skip
      else if not (compute_superblock_slot_checksum bincode crc slot == slot.header_checksum)
      then skip
      else if ltb slot.version min_readable_format_version
      then refuse (legacy_format_version slot.version)
      else if ltb format_version slot.version
      then refuse (unsupported_format_version slot.version)
      else if (slot.vdev_count == 0) || leb slot.vdev_count slot.vdev_id
      then refuse bad_identity
      else candidate slot

  -- A block that does not decode may hold a slot of format 2.
  pub judge_legacy : Option SuperblockSlotV2 → Verdict
  judge_legacy none = skip
  judge_legacy (some old) =
      if name_eq old.magic superblock_magic && ltb old.version format_version
      then refuse (legacy_format_version old.version)
      else skip

  pub judge : List ℕ → Verdict
  judge bytes = elim (slot_bytes bytes) [
    | none ↦ skip
    | some encoded ↦ elim (bincode.decode encoded) [
      | some slot ↦ judge_slot slot
      | none ↦ judge_legacy (legacy encoded)
    ]
  ]

  pub read_slots : Option SuperblockSlot → List (List ℕ) → Result SlotError (Option SuperblockSlot)
  read_slots best [] = ok best
  read_slots best (block ∷ blocks) = elim (judge block) [
    | skip ↦ read_slots best blocks
    | refuse e ↦ err e
    | candidate slot ↦ read_slots (better best slot) blocks
  ]

  pub read_superblock : List (List ℕ) → Result SlotError (Option SuperblockSlot)
  read_superblock ring = read_slots none ring

module _ (bincode : Bincode SuperblockSlot) where
  -- The block of a slot: its length, its bytes, zeros. (The source panics if it does not fit.)
  pub slot_block : SuperblockSlot → List ℕ
  slot_block slot =
      let encoded = bincode.encode slot in
      to_le_bytes 4 (length encoded)
      ++ (encoded ++ replicate (superblock_slot_size - (4 + length encoded)) 0)

  pub write_superblock_slot : SuperblockSlot → List (List ℕ) → List (List ℕ)
  write_superblock_slot slot ring =
      set ring (slot.generation % superblock_slot_count) (slot_block slot)
