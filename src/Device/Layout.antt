-- ===== src/Device/Layout.antt =====
-- The layout of a raw device: `Region`, `DeviceLabel` and its checks (crates/lchfs-device/src/layout.rs),
-- and `plan_layout` (crates/lchfs-device/src/lib.rs). The random uuid is an argument, and
-- `encode` and `crc` stand for bincode and crc32fast.
pub mod Planned
mod Tests
use lchfs.Common.{
  ℕ, zero, suc, ◌+◌, ◌-◌, ◌*◌, ◌/◌, ◌%◌, ◌^◌, Bool, true, false, not, ◌&&◌, ◌||◌, min, max,
}
use lchfs.Common.{Option, none, some, List, [], ◌∷◌, ltb, leb, ◌==◌, if◌then◌else◌}
use lchfs.Common.Names.{name_eq}

-- ASCII "LCHFSDEV".
abbrev pub device_label_magic : List ℕ
device_label_magic = b'L' ∷ b'C' ∷ b'H' ∷ b'F' ∷ b'S' ∷ b'D' ∷ b'E' ∷ b'V' ∷ []

abbrev pub device_layout_version : ℕ
device_layout_version = 1

abbrev pub device_block : ℕ
device_block = 4096

abbrev pub keyring_region_copy_len : ℕ
keyring_region_copy_len = 2 * 1024 * 1024

abbrev pub max_shard_slots : ℕ
max_shard_slots = 1024

abbrev pub mib : ℕ
mib = 1024 * 1024

pub record Region : Type 0 where
  pub offset : ℕ
  pub len : ℕ

abbrev pub region_end : Region → ℕ
region_end r = (r.offset + r.len) % 2 ^ 64

pub record DeviceLabel : Type 0 where
  pub magic : List ℕ
  pub layout_version : ℕ
  pub device_uuid : List ℕ
  pub generation : ℕ
  pub device_size : ℕ
  pub superblock : Region
  pub keyring : Region
  pub keyring_copy_len : ℕ
  pub shard_superblocks : Region
  pub scratch : Region
  pub index : Region
  pub index_copy_len : ℕ
  pub index_active : ℕ
  pub index_len : ℕ × ℕ
  pub zones_offset : ℕ
  pub zone_size : ℕ
  pub zone_count : ℕ
  pub checksum : ℕ

abbrev pub checked : ℕ → Option ℕ
checked n = if ltb n (2 ^ 64) then some n else none

-- `ordered.windows(2).all(|w| w[0].end() <= w[1].offset)`
abbrev pub in_order : List Region → Bool
in_order [] = true
in_order (a ∷ []) = true
in_order (a ∷ b ∷ rest) = leb (region_end a) b.offset && in_order (b ∷ rest)

-- `zone_size.checked_mul(zone_count).and_then(|z| z.checked_add(zones_offset))`
abbrev pub zones_end : DeviceLabel → Option ℕ
zones_end l = elim (checked (l.zone_size * l.zone_count)) [
  | none ↦ none
  | some z ↦ checked (z + l.zones_offset)
]

unfoldable pub regions_fit : DeviceLabel → Bool
regions_fit l =
    in_order (
      record { offset = 0; len = device_block }
      ∷ l.superblock
      ∷ l.keyring
      ∷ l.shard_superblocks
      ∷ l.scratch
      ∷ l.index
      ∷ [])
    && (leb (region_end l.index) l.zones_offset
        && ((l.keyring.len == 2 * l.keyring_copy_len % 2 ^ 64)
            && ((l.index.len == 2 * l.index_copy_len % 2 ^ 64)
                && (leb l.index_len.0 l.index_copy_len
                    && (leb l.index_len.1 l.index_copy_len && elim (zones_end l) [
                      | none ↦ false
                      | some end ↦ leb ((end + device_block) % 2 ^ 64) l.device_size
                    ])))))

-- The regions that `plan_layout` gives a device, without the checks on its arguments.
abbrev pub align_up : ℕ → ℕ → ℕ
align_up v to = (v + (to - 1)) / to * to % 2 ^ 64

abbrev pub default_index_copy_len : ℕ → ℕ
default_index_copy_len device_size = align_up (max (device_size / 200) (64 * mib)) mib

abbrev pub index_copy_len_or : Option ℕ → ℕ → ℕ
index_copy_len_or none device_size = default_index_copy_len device_size
index_copy_len_or (some n) device_size = n

abbrev pub superblock_region : Region
superblock_region = record { offset = device_block; len = 16 * device_block }

abbrev pub keyring_region : Region
keyring_region = record { offset = mib; len = 2 * keyring_region_copy_len }

abbrev pub shard_region : Region
shard_region = record { offset = region_end keyring_region; len = max_shard_slots * device_block }

abbrev pub scratch_region : Region
scratch_region = record { offset = region_end shard_region; len = device_block }

abbrev pub index_region : ℕ → Region
index_region copy_len = record {
  offset = align_up (region_end scratch_region) mib;
  len = 2 * copy_len % 2 ^ 64;
}

abbrev pub zones_start : ℕ → ℕ → ℕ
zones_start copy_len zone_size =
    align_up (region_end (index_region copy_len)) (min zone_size (16 * mib))

abbrev pub zones_of : ℕ → ℕ → ℕ → ℕ
zones_of device_size zone_size zones_offset =
    (device_size - (zones_offset + device_block) % 2 ^ 64) / zone_size

-- Is `n` one of the powers of two below `2 ^ bits`?
unfoldable pub is_power_of_two : ℕ → ℕ → Bool
is_power_of_two zero n = false
is_power_of_two (suc bits) n = (n == 2 ^ bits) || is_power_of_two bits n

module _ (encode : DeviceLabel → List ℕ) (crc : List ℕ → ℕ) where
  unfoldable pub compute_checksum : DeviceLabel → ℕ
  compute_checksum l = crc (encode (record l { checksum = 0 }))

  unfoldable pub finalize : DeviceLabel → DeviceLabel
  finalize l = record l { checksum = compute_checksum l }

  unfoldable pub is_valid : DeviceLabel → Bool
  is_valid l =
      if not (name_eq l.magic device_label_magic)
        || (not (l.layout_version == device_layout_version)
            || (not (l.checksum == compute_checksum l)
                || (ltb 1 l.index_active || leb l.zone_size device_block)))
      then false
      else regions_fit l

  abbrev pub label_of : ℕ → ℕ → ℕ → List ℕ → DeviceLabel
  label_of device_size zone_size copy_len uuid =
      let zones_offset = zones_start copy_len zone_size in
      finalize (record {
        magic = device_label_magic;
        layout_version = device_layout_version;
        device_uuid = uuid;
        generation = 1;
        device_size = device_size;
        superblock = superblock_region;
        keyring = keyring_region;
        keyring_copy_len = keyring_region_copy_len;
        shard_superblocks = shard_region;
        scratch = scratch_region;
        index = index_region copy_len;
        index_copy_len = copy_len;
        index_active = 0;
        index_len = (0, 0);
        zones_offset = zones_offset;
        zone_size = zone_size;
        zone_count = zones_of device_size zone_size zones_offset;
        checksum = 0;
      })

  unfoldable pub plan_layout : ℕ → ℕ → Option ℕ → List ℕ → Option DeviceLabel
  plan_layout device_size zone_size index_copy_len uuid =
      if not (is_power_of_two 64 zone_size) || ltb zone_size (64 * 1024)
      then none
      else let copy_len = index_copy_len_or index_copy_len device_size in
        if ltb (zones_of device_size zone_size (zones_start copy_len zone_size)) 8
        then none
        else some (label_of device_size zone_size copy_len uuid)
