-- ===== src/Device/Keyring.antt =====
-- The two copies of the keyring on a device: `region_io`, `keyring_copy`, `read_keyring` and
-- `write_keyring` of crates/lchfs-device/src/lib.rs. The state is the bytes of the keyring region,
-- which is `region.len` bytes long; the checksum of crc32fast is a parameter.
pub mod Torn
pub mod Cleared
mod Tests
use lchfs.Common.{
  ℕ, zero, suc, ◌+◌, ◌-◌, ◌*◌, ◌/◌, ◌%◌, ◌^◌, Bool, true, false, not, ◌&&◌, ◌||◌, min, max,
}
use lchfs.Common.{
  Option, none, some, List, [], ◌∷◌, ◌++◌, ltb, leb, ◌==◌, if◌then◌else◌, length, take, drop,
  replicate,
}
use lchfs.Common.Bytes.{to_le_bytes, from_le_bytes}
use lchfs.Common.Buffers.{slice, overlay}

-- `read_region`: none where the range does not lie in the region.
unfoldable pub read_region : List ℕ → ℕ → ℕ → Option (List ℕ)
read_region region offset len =
    if leb (2 ^ 64) (offset + len) || ltb (length region) (offset + len)
    then none
    else some (slice offset (offset + len) region)

unfoldable pub write_region : List ℕ → ℕ → List ℕ → Option (List ℕ)
write_region region offset bytes =
    if leb (2 ^ 64) (offset + length bytes) || ltb (length region) (offset + length bytes)
    then none
    else some (overlay offset bytes region)

module _ (crc : List ℕ → ℕ) (copy_len : ℕ) where
  -- A copy from its head on: what its generation, length and checksum say of the bytes behind.
  abbrev pub checked_bytes : ℕ → ℕ → Option (List ℕ) → Option (ℕ × List ℕ)
  checked_bytes generation sum none = none
  checked_bytes generation sum (some bytes) =
      if crc bytes == sum then some (generation, bytes) else none

  abbrev pub copy_behind : List ℕ → ℕ → List ℕ → Option (ℕ × List ℕ)
  copy_behind region base head =
      let generation = from_le_bytes (take 8 head) in
      let len = from_le_bytes (take 4 (drop 8 head)) in
      let sum = from_le_bytes (take 4 (drop 12 head)) in
      if (generation == 0) || ltb copy_len (len + 16)
      then none
      else checked_bytes generation sum (read_region region (base + 16) len)

  abbrev pub copy_at : List ℕ → ℕ → Option (List ℕ) → Option (ℕ × List ℕ)
  copy_at region base none = none
  copy_at region base (some head) = copy_behind region base head

  unfoldable pub keyring_copy : List ℕ → ℕ → Option (ℕ × List ℕ)
  keyring_copy region copy =
      let base = copy * copy_len in copy_at region base (read_region region base 16)

  abbrev pub newer : Option (ℕ × List ℕ) → Option (ℕ × List ℕ) → Option (List ℕ)
  newer none none = none
  newer (some a) none = some a.1
  newer none (some b) = some b.1
  newer (some a) (some b) = some (if ltb a.0 b.0 then b.1 else a.1)

  unfoldable pub read_keyring : List ℕ → Option (List ℕ)
  read_keyring region = newer (keyring_copy region 0) (keyring_copy region 1)

  abbrev pub generation_of : Option (ℕ × List ℕ) → ℕ
  generation_of none = 0
  generation_of (some a) = a.0

  -- The copy that the next write replaces.
  abbrev pub target_of : Option (ℕ × List ℕ) → Option (ℕ × List ℕ) → ℕ
  target_of none b = 0
  target_of (some a) none = 1
  target_of (some a) (some b) = if ltb b.0 a.0 then 1 else 0

  abbrev pub keyring_bytes : ℕ → List ℕ → List ℕ
  keyring_bytes generation bytes =
      to_le_bytes 8 generation
      ++ (to_le_bytes 4 (length bytes) ++ (to_le_bytes 4 (crc bytes) ++ bytes))

  unfoldable pub write_keyring : List ℕ → List ℕ → Option (List ℕ)
  write_keyring bytes region =
      if ltb copy_len (length bytes + 16)
      then none
      else let a = keyring_copy region 0 in
        let b = keyring_copy region 1 in
        let newest = max (generation_of a) (generation_of b) in
        write_region region (target_of a b * copy_len) (keyring_bytes ((newest + 1) % 2 ^ 64) bytes)

-- The region after `zero_range` of all of it.
unfoldable pub clear_keyring : List ℕ → List ℕ
clear_keyring region = replicate (length region) 0
