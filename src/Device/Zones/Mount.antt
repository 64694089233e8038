-- ===== src/Device/Zones/Mount.antt =====
-- A mount (`scan_zones` of crates/lchfs-device/src/lib.rs) against the table that the device held.
use lchfs.Common.{ℕ, ◌*◌, ◌≤◌, ◌≡◌, refl, ap, ◌∙◌, arith, false, length, inl, inr, ◌≢◌, ◌⊎◌, min}
use lchfs.Common.{Option, none, some, List, [], ◌∷◌}
use lchfs.Device.Zones.{
  SegmentKey, key_eq, ZoneHeader, Segment, Device, payload_len, adopt, adopted, Adopted,
  nothing_adopted, removal_rounds, recovered_from, recovered, found, orphans_of, scan_zones,
}
use lchfs.Device.Zones.Parts.{numbered, adopt-numbered}
use lchfs.Device.Zones.Valid.{IsValid, IsSound, expected}
use lchfs.Device.Zones.Crash.{Interrupted, remove_segment-Interrupted}
use lchfs.Device.Zones.Steps.{Reach, Reach-IsValid}

-- What a crash leaves of a segment: its zones, and the length of the last sync.
abbrev pub remounted : Option Segment → Option Segment
remounted none = none
remounted (some s) =
    some (record { zones = s.zones; len = s.synced_len; synced_len = s.synced_len })

-- Adopting the parts of a sound segment takes all its zones, and leaves no orphan.
IsAdopted : ℕ → Option Segment → Adopted → Type 0
IsAdopted payload o a = (a.orphans ≡ []) × (recovered_from payload a.list a.written ≡ remounted o)

adopt-expected :
    (payload : ℕ) (o : Option Segment)
    → IsSound payload o
    → IsAdopted payload o (adopt (expected o) nothing_adopted)
unfolding adopt IsAdopted
adopt-expected payload none h = (refl, refl)
adopt-expected payload (some s) h =
    by_zones s.zones s.synced_len h.0 (let a = h.1 in let b = h.2 in omega arith)
  where
    by_zones :
        (zs : List ℕ) (len : ℕ)
        → zs ≢ []
        → len ≤ length zs * payload
        → IsAdopted payload
            (some (record { zones = zs; len = len; synced_len = len }))
            (adopt (numbered 0 len zs) nothing_adopted)
    by_zones [] len n h = absurd (n refl)
    by_zones (z ∷ zs) len n h =
        let e : min len (length (z ∷ zs) * payload) ≡ len = omega arith in
        rw (adopt-numbered z zs len) (refl, rw e refl)

module _ (crc : ZoneHeader → ℕ) (d : Device) (v : IsValid crc d) where
  adopted-IsAdopted :
      (k : SegmentKey)
      → IsAdopted (payload_len d) (d.segments k) (adopted crc d.device_uuid d.blocks k)
  unfolding adopted
  adopted-IsAdopted k = rw (v.told k) (adopt-expected (payload_len d) (d.segments k) (v.sound k))

  orphans_of-told : (ks : List SegmentKey) → orphans_of crc d.device_uuid d.blocks ks ≡ []
  unfolding orphans_of IsAdopted
  orphans_of-told [] = refl
  orphans_of-told (k ∷ ks) = let a = adopted-IsAdopted k in rw (a.0, orphans_of-told ks) refl

  recovered_told :
      (k : SegmentKey)
      → recovered crc d.device_uuid (payload_len d) d.blocks k ≡ remounted (d.segments k)
  unfolding recovered IsAdopted
  recovered_told k = let a = adopted-IsAdopted k in a.1

-- A mount of a device whose headers tell its segment table finds exactly the segments that the
-- table held, each with all its zones in order and the length of its last sync, and takes no
-- zone for an orphan.
pub scan_zones-refines :
    (crc : ZoneHeader → ℕ) (d : Device)
    → IsValid crc d
    → (orphans_of crc d.device_uuid d.blocks (found crc d.device_uuid d.blocks) ≡ [])
      × ((k : SegmentKey) → (scan_zones crc d).segments k ≡ remounted (d.segments k))
unfolding scan_zones
scan_zones-refines crc d v =
    (orphans_of-told crc d v (found crc d.device_uuid d.blocks), recovered_told crc d v)

-- After creating, growing, writing, syncing, removing and releasing in any order on a device whose
-- headers told its table, as long as no handle of a segment that was removed claims it a further
-- zone, a crash at any point of the removal of a segment that is in the table leaves a disk from which a mount recovers every other
-- segment with its zones and its synced length, and the removed one either so or not at all.
pub remove-crash_refines :
    (crc : ZoneHeader → ℕ) (d e : Device) (k : SegmentKey) (s : Segment)
    (cs : List (Option ZoneHeader))
    → IsValid crc d
    → Reach crc d e
    → e.segments k ≡ some s
    → Interrupted crc e.device_uuid (removal_rounds (s.zones ∷ [])) e.blocks cs
    → ((j : SegmentKey)
        → key_eq k j ≡ false
        → (scan_zones crc (record e { blocks = cs })).segments j ≡ remounted (e.segments j))
      × (((scan_zones crc (record e { blocks = cs })).segments k ≡ remounted (some s))
          ⊎ ((scan_zones crc (record e { blocks = cs })).segments k ≡ none))
unfolding scan_zones
remove-crash_refines crc d e k s cs v r q i =
    let w = Reach-IsValid crc d e v r in
    let t = remove_segment-Interrupted crc e k s cs w q i in
    (
      λ j n. t.0 j n ∙ recovered_told crc e w j,
      elim t.1 [ inl g ↦ inl (g ∙ (recovered_told crc e w k ∙ ap remounted q)) | inr g ↦ inr g ],
    )
