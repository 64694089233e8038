-- ===== src/Store/Superblock/Tests.antt =====
-- A ring whose last commit is generation 5, under a serializer that writes the numbers of a slot
-- first and its byte strings behind.
use lchfs.Common.{ℕ, zero, suc, ◌≡◌, refl, arith, Option, none, some, List, [], ◌∷◌, ◌++◌}
use lchfs.Common.{
  length, take, drop, set, get_elem?, replicate, ok, take-length_append, drop-length_append,
}
use lchfs.Common.Names.{name_eq}
use lchfs.Common.Bytes.{Bincode, to_le_bytes, from_le_bytes}
use lchfs.Format.Superblock.{
  SuperblockSlot, SuperblockSlotV2, superblock_magic, compute_superblock_slot_checksum,
}
use lchfs.Store.Superblock.{
  read_superblock, read_slots, judge, judge_slot, slot_bytes, better, skip,
}
use lchfs.Store.Superblock.{write_superblock_slot, slot_block}
use lchfs.Store.Superblock.Commit.{
  IsWritable, IsPlaced, read-write_superblock_slot, read_torn_commit,
  write_superblock_slot-IsPlaced,
}

abbrev encode_slot : SuperblockSlot → List ℕ
encode_slot s =
    s.version
    ∷ s.vdev_id
    ∷ s.vdev_count
    ∷ s.generation
    ∷ s.root_location.segment_id
    ∷ s.root_location.offset
    ∷ s.root_location.len
    ∷ s.index_generation
    ∷ s.committed_at_unix_nanos
    ∷ s.stats.live_bytes
    ∷ s.stats.object_count
    ∷ s.stats.segment_count
    ∷ s.header_checksum
    ∷ length s.magic
    ∷ length s.pool_uuid
    ∷ (s.magic ++ (s.pool_uuid ++ s.root_hash))

abbrev decode_slot : List ℕ → Option SuperblockSlot
decode_slot
      (version ∷ vdev_id ∷ vdev_count ∷ generation ∷ segment ∷ offset ∷ len ∷ index ∷ nanos ∷ live
        ∷ objects ∷ segments ∷ checksum ∷ m ∷ u ∷ rest) =
    some (record {
      magic = take m rest;
      version = version;
      pool_uuid = take u (drop m rest);
      vdev_id = vdev_id;
      vdev_count = vdev_count;
      generation = generation;
      root_hash = drop u (drop m rest);
      root_location = record { segment_id = segment; offset = offset; len = len };
      index_generation = index;
      committed_at_unix_nanos = nanos;
      stats = record { live_bytes = live; object_count = objects; segment_count = segments };
      header_checksum = checksum;
    })
decode_slot _ = none

decode-encode_slot : (s : SuperblockSlot) → decode_slot (encode_slot s) ≡ some s
decode-encode_slot s =
    rw
      (
        take-length_append s.magic (s.pool_uuid ++ s.root_hash),
        drop-length_append s.magic (s.pool_uuid ++ s.root_hash),
        take-length_append s.pool_uuid s.root_hash,
        drop-length_append s.pool_uuid s.root_hash,
      )
      refl

abbrev bincode : Bincode SuperblockSlot
bincode = record { encode = encode_slot; decode = decode_slot; decode-encode = decode-encode_slot }

abbrev legacy : List ℕ → Option SuperblockSlotV2
legacy bytes = none

abbrev crc : List ℕ → ℕ
crc bytes = length bytes

abbrev slot_of : ℕ → SuperblockSlot
slot_of generation = record {
  magic = superblock_magic;
  version = 6;
  pool_uuid = 1 ∷ 2 ∷ [];
  vdev_id = 0;
  vdev_count = 1;
  generation = generation;
  root_hash = 3 ∷ [];
  root_location = record { segment_id = 1; offset = 64; len = 9 };
  index_generation = 2;
  committed_at_unix_nanos = 3;
  stats = record { live_bytes = 4; object_count = 5; segment_count = 1 };
  header_checksum = 26;
}

abbrev empty_ring : List (List ℕ)
empty_ring = replicate 16 []

abbrev ring : List (List ℕ)
ring = write_superblock_slot bincode (slot_of 5) empty_ring

ring_read : read_superblock bincode legacy crc ring ≡ ok (some (slot_of 5))
unfolding write_superblock_slot slot_block read_superblock read_slots judge judge_slot slot_bytes
    better name_eq to_le_bytes from_le_bytes compute_superblock_slot_checksum
ring_read = refl

five-IsWritable : IsWritable bincode legacy crc (slot_of 5)
five-IsWritable = record {
  magic = refl;
  version = refl;
  place = omega arith;
  checksum = unfold compute_superblock_slot_checksum in refl;
  nonempty = omega arith;
  fits = omega arith;
}

six-IsWritable : IsWritable bincode legacy crc (slot_of 6)
six-IsWritable = record {
  magic = refl;
  version = refl;
  place = omega arith;
  checksum = unfold compute_superblock_slot_checksum in refl;
  nonempty = omega arith;
  fits = omega arith;
}

empty_block : judge bincode legacy crc [] ≡ skip
unfolding judge slot_bytes
empty_block = refl

empty_ring-IsPlaced : IsPlaced bincode legacy crc empty_ring
empty_ring-IsPlaced i block s at e =
    let nothing : block ≡ [] = in_replicate 16 i block at in
    absurd (ground (arith, rw nothing at e, empty_block))
  where
    in_replicate :
        (n i : ℕ) (block : List ℕ) → get_elem? (replicate n []) i ≡ some block → block ≡ []
    in_replicate zero i block at = absurd (ground arith)
    in_replicate (suc n) zero block at = ground arith
    in_replicate (suc n) (suc i) block at = in_replicate n i block at

ring-IsPlaced : IsPlaced bincode legacy crc ring
ring-IsPlaced =
    write_superblock_slot-IsPlaced bincode legacy crc (slot_of 5) empty_ring five-IsWritable
      empty_ring-IsPlaced

write_superblock_slot-IsPlaced_example :
    IsPlaced bincode legacy crc (write_superblock_slot bincode (slot_of 6) ring)
write_superblock_slot-IsPlaced_example =
    write_superblock_slot-IsPlaced bincode legacy crc (slot_of 6) ring six-IsWritable ring-IsPlaced

ring-length : length ring ≡ 16
unfolding write_superblock_slot slot_block
ring-length = refl

read-write_superblock_slot_example :
    read_superblock bincode legacy crc (write_superblock_slot bincode (slot_of 6) ring)
    ≡ ok (some (slot_of 6))
read-write_superblock_slot_example =
    read-write_superblock_slot bincode legacy crc (slot_of 5) (slot_of 6) ring ring-length ring_read
      six-IsWritable (omega arith)

read_torn_commit_example :
    read_superblock bincode legacy crc (set ring 6 []) ≡ ok (some (slot_of 5))
read_torn_commit_example =
    read_torn_commit bincode legacy crc (slot_of 5) [] ring ring_read ring-IsPlaced empty_block
