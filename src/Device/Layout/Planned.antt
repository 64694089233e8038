-- ===== src/Device/Layout/Planned.antt =====
-- What `plan_layout` gives is a valid label: its regions fit the device in order.
use lchfs.Common.{
  ℕ, ◌+◌, ◌-◌, ◌*◌, ◌/◌, ◌%◌, ◌^◌, ◌≤◌, ◌<◌, ◌≡◌, refl, true, false, not, ◌||◌, min, max,
}
use lchfs.Common.{
  Option, none, some, List, ltb, leb, ◌==◌, arith, inl, inr, Bool-cases, le→leb, lt→ltb,
}
use lchfs.Common.Names.{name_eq, name_eq_refl}
use lchfs.Device.Layout.{
  DeviceLabel, device_label_magic, device_block, mib, region_end, index_region, zones_start,
  zones_of,
}
use lchfs.Device.Layout.{compute_checksum, finalize, is_valid, label_of, plan_layout, regions_fit}
use lchfs.Device.Layout.{
  align_up, zones_end, index_copy_len_or, device_layout_version, is_power_of_two,
}

align_up-bounds :
    (v to : ℕ) → 1 ≤ to → v + to < 2 ^ 64 → (v ≤ align_up v to) × (align_up v to < v + to)
align_up-bounds v to h k =
    let lower : v ≤ (v + (to - 1)) / to * to = omega arith in
    let upper : (v + (to - 1)) / to * to < v + to = omega arith in (omega arith, omega arith)

-- The zones start behind the index and end before the second label.
zones-fit :
    (device_size zone_size copy_len : ℕ)
    → device_size < 2 ^ 62
    → copy_len < 2 ^ 60
    → 64 * 1024 ≤ zone_size
    → 8 ≤ zones_of device_size zone_size (zones_start copy_len zone_size)
    → (region_end (index_region copy_len) ≤ zones_start copy_len zone_size)
      × (zones_start copy_len zone_size
            + zone_size * zones_of device_size zone_size (zones_start copy_len zone_size)
            + device_block
          ≤ device_size)
zones-fit device_size zone_size copy_len small fits big enough =
    let a = region_end (index_region copy_len) in
    let bounds = align_up-bounds a (min zone_size (16 * mib)) (omega arith) (omega arith) in
    (bounds.0, omega (arith, bounds.1))

-- A given index size below 2 ^ 60 bytes, if one is given.
abbrev pub CopyFits : Option ℕ → Type 0
CopyFits none = Unit
CopyFits (some n) = n < 2 ^ 60

copy_len-fits :
    (device_size : ℕ) (o : Option ℕ)
    → device_size < 2 ^ 62
    → CopyFits o
    → index_copy_len_or o device_size < 2 ^ 60
copy_len-fits device_size none h f =
    let bounds =
      align_up-bounds (max (device_size / 200) (64 * mib)) mib (omega arith) (omega arith) in
    omega (arith, bounds.1)
copy_len-fits device_size (some n) h f = f

same_test : (n : ℕ) → (n == n) ≡ true
same_test n = ground arith

zones_end-label :
    (l : DeviceLabel)
    → l.zones_offset + l.zone_size * l.zone_count + device_block ≤ l.device_size
    → l.device_size < 2 ^ 62
    → zones_end l ≡ some (l.zone_size * l.zone_count + l.zones_offset)
zones_end-label l h k =
    let first : ltb (l.zone_size * l.zone_count) (2 ^ 64) ≡ true = lt→ltb _ _ (omega arith) in
    let second : ltb (l.zone_size * l.zone_count + l.zones_offset) (2 ^ 64) ≡ true =
      lt→ltb _ _ (omega arith) in
    ground (arith, first, second)

module _ (encode : DeviceLabel → List ℕ) (crc : List ℕ → ℕ) where
  label_of-regions_fit :
      (device_size zone_size copy_len : ℕ) (uuid : List ℕ)
      → device_size < 2 ^ 62
      → copy_len < 2 ^ 60
      → 64 * 1024 ≤ zone_size
      → 8 ≤ zones_of device_size zone_size (zones_start copy_len zone_size)
      → regions_fit (label_of encode crc device_size zone_size copy_len uuid) ≡ true
  unfolding finalize regions_fit
  label_of-regions_fit device_size zone_size copy_len uuid small fits big enough =
      let (after_index, before_end) =
        zones-fit device_size zone_size copy_len small fits big enough in
      let l = label_of encode crc device_size zone_size copy_len uuid in
      let at_end = zones_end-label l before_end small in
      let index_first : leb (region_end l.index) l.zones_offset ≡ true = le→leb _ _ after_index in
      let in_device : leb ((l.zone_size * l.zone_count + l.zones_offset + device_block) % 2 ^ 64)
            l.device_size
          ≡ true =
        le→leb _ _ (omega (arith, before_end, small)) in
      let first : leb 0 copy_len ≡ true = ground arith in
      rw (index_first, same_test (2 * copy_len % 2 ^ 64), first, at_end, in_device) refl

  is_valid-of :
      (l : DeviceLabel)
      → name_eq l.magic device_label_magic ≡ true
      → (l.layout_version == device_layout_version) ≡ true
      → (l.checksum == compute_checksum encode crc l) ≡ true
      → ltb 1 l.index_active ≡ false
      → leb l.zone_size device_block ≡ false
      → regions_fit l ≡ true
      → is_valid encode crc l ≡ true
  unfolding is_valid
  is_valid-of l a b c d e f = rw (a, b, c, d, e, f) refl

  label_of-is_valid :
      (device_size zone_size copy_len : ℕ) (uuid : List ℕ)
      → device_size < 2 ^ 62
      → copy_len < 2 ^ 60
      → 64 * 1024 ≤ zone_size
      → 8 ≤ zones_of device_size zone_size (zones_start copy_len zone_size)
      → is_valid encode crc (label_of encode crc device_size zone_size copy_len uuid) ≡ true
  unfolding finalize compute_checksum
  label_of-is_valid device_size zone_size copy_len uuid small fits big enough =
      let l = label_of encode crc device_size zone_size copy_len uuid in
      is_valid-of l (name_eq_refl device_label_magic) (same_test 1)
        (same_test (compute_checksum encode crc l)) (ground arith) (ground arith)
        (label_of-regions_fit device_size zone_size copy_len uuid small fits big enough)

  -- A layout planned for a device of less than 2 ^ 62 bytes, with an index copy of less than 2 ^ 60
  -- bytes where its length is given, is a valid label: its regions and zones lie in order within the
  -- device, and its checksum holds.
  pub plan_layout-is_valid :
      (device_size zone_size : ℕ) (index_copy_len : Option ℕ) (uuid : List ℕ) (l : DeviceLabel)
      → device_size < 2 ^ 62
      → CopyFits index_copy_len
      → plan_layout encode crc device_size zone_size index_copy_len uuid ≡ some l
      → is_valid encode crc l ≡ true
  unfolding plan_layout
  plan_layout-is_valid device_size zone_size index_copy_len uuid l small fits planned =
      let copy_len = index_copy_len_or index_copy_len device_size in
      elim (Bool-cases (not (is_power_of_two 64 zone_size) || ltb zone_size (64 * 1024))) [
        | inl bad ↦ absurd (ground arith)
        | inr fine ↦
            elim (Bool-cases
              (ltb (zones_of device_size zone_size (zones_start copy_len zone_size)) 8)) [
                | inl few ↦ absurd (ground arith)
                | inr enough ↦
                    let e : l ≡ label_of encode crc device_size zone_size copy_len uuid =
                      ground arith in
                    rw e (
                      label_of-is_valid device_size zone_size copy_len uuid small
                        (copy_len-fits device_size index_copy_len small fits) (ground arith)
                        (ground arith))
              ]
      ]
