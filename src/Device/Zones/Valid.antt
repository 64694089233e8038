-- ===== src/Device/Zones/Valid.antt =====
-- What the operations on zones keep (crates/lchfs-device/src/lib.rs): the headers on the disk tell
-- of each segment exactly the zones and the synced length that the table in memory holds.
use lchfs.Common.{
  ℕ, suc, ◌+◌, ◌*◌, ◌≤◌, ◌<◌, ◌≡◌, refl, sym, ap, subst, arith, Bool, true, false, length, get_or,
  set, All, inl, inr, ◌≢◌, replicate, ◌∙◌,
}
use lchfs.Common.{
  Option, none, some, List, [], ◌∷◌, ◌++◌, ◌==◌, Bool-cases, Option-cases, take, drop,
}
use lchfs.Device.Zones.{
  SegmentKey, key_eq, Part, ZoneHeader, Zone, clean, unknown, held, waiting, Segment, Device,
  payload_len, position, is_clean, is_unknown, pick, table_insert, sort_parts, owned_block,
  claim_at, parts,
}
use lchfs.Device.Zones.Parts.{
  key_eq_refl, key_eq→eq, numbered, sort_largest, IsBelow, All-of_sort_parts, All-append_left,
  All-sort_parts,
}
use lchfs.Device.Zones.Blocks.{
  get_or-set, length-set, part_at, part_at-owned, part_at-set, parts-set_top, set-get_or,
  parts-same,
}

-- The parts that a segment of the table has on the disk.
abbrev pub expected : Option Segment → List Part
expected none = []
expected (some s) = numbered 0 s.synced_len s.zones

-- A segment has a zone, and its lengths lie within its zones.
abbrev pub IsSound : ℕ → Option Segment → Type 0
IsSound payload none = Unit
IsSound payload (some s) =
    (s.zones ≢ []) × (s.synced_len ≤ s.len) × (s.len ≤ length s.zones * payload)

abbrev pub is_free : Zone → Bool
is_free clean = true
is_free unknown = true
is_free held = false
is_free waiting = false

module _ (crc : ZoneHeader → ℕ) where
  pub record IsValid (d : Device) : Type 0 where
    -- Each segment's headers, sorted, are its zones numbered from 0 on.
    pub told :
        (k : SegmentKey)
        → sort_parts (parts crc d.device_uuid k 0 d.blocks) ≡ expected (d.segments k)
    pub sound : (k : SegmentKey) → IsSound (payload_len d) (d.segments k)
    pub sizes : length d.blocks ≡ length d.zones
    pub payload_sizes : length d.payloads ≡ length d.zones
    -- No segment holds a zone that allocation may take, or one that waits to be zeroed.
    pub free_unowned :
        (k : SegmentKey) (i : ℕ)
        → get_or d.zones i held ≢ held
        → part_at crc d.device_uuid k i (get_or d.blocks i none) ≡ none
    -- A zone known zero is zero.
    pub clean_zero :
        (i : ℕ)
        → get_or d.zones i held ≡ clean
        → get_or d.payloads i [] ≡ replicate (payload_len d) 0

pub position-get_or :
    (p : Zone → Bool) (zs : List Zone) (i : ℕ)
    → position p zs ≡ some i
    → (i < length zs) × (p (get_or zs i held) ≡ true)
unfolding position
position-get_or p [] i h = absurd (ground arith)
position-get_or p (z ∷ zs) i h = elim (Bool-cases (p z)) [
  | inl e ↦ let o : i ≡ 0 = ground arith in rw o (omega arith, e)
  | inr e ↦ elim (Option-cases (position p zs)) [
    | inl q ↦ absurd (ground arith)
    | inr (j, q) ↦
        let o : i ≡ suc j = ground arith in
        let r = position-get_or p zs j q in rw o (omega arith, r.1)
  ]
]

pub pick-is_free :
    (zs : List Zone) (i : ℕ) → pick zs ≡ some i → (i < length zs) × (get_or zs i held ≢ held)
pick-is_free zs i h = elim (Option-cases (position is_clean zs)) [
  | inl e ↦
      let r = position-get_or is_unknown zs i (ground arith) in
      (r.0, λ q. let c : is_unknown held ≡ true = sym (ap is_unknown q) ∙ r.1 in ground arith)
  | inr (j, e) ↦
      let o : j ≡ i = ground arith in
      let r = position-get_or is_clean zs i (rw (sym o) e) in
      (r.0, λ q. let c : is_clean held ≡ true = sym (ap is_clean q) ∙ r.1 in ground arith)
]

pub numbered-IsBelow :
    (n len m : ℕ) (zs : List ℕ) → n + length zs ≤ m → All (IsBelow m) (numbered n len zs)
unfolding numbered
numbered-IsBelow n len m [] h = tt
numbered-IsBelow n len m (z ∷ zs) h = (omega arith, numbered-IsBelow (suc n) 0 m zs (omega arith))

module _ (crc : ZoneHeader → ℕ) (uuid : List ℕ) where
  -- A header that is written over a block that told of no segment adds one part, the last.
  pub sort-parts_claimed :
      (k : SegmentKey) (n z len : ℕ) (bs : List (Option ZoneHeader)) (zs : List ℕ)
      → z < length bs
      → part_at crc uuid k z (get_or bs z none) ≡ none
      → sort_parts (parts crc uuid k 0 bs) ≡ numbered 0 len zs
      → n ≡ length zs
      → sort_parts (parts crc uuid k 0 (set bs z (owned_block crc uuid k n 0)))
        ≡ numbered 0 len zs ++ (record { ordinal = n; zone = z; written_len = 0 } ∷ [])
  sort-parts_claimed k n z len bs zs h old e en =
      let p : Part = record { ordinal = n; zone = z; written_len = 0 } in
      let xs = parts crc uuid k 0 (take z bs) in
      let ys = parts crc uuid k (suc z) (drop (suc z) bs) in
      let before : parts crc uuid k 0 bs ≡ xs ++ ys =
        (rw (set-get_or bs z, old) at (parts-set_top crc uuid k bs z (get_or bs z none) h)) in
      let new : part_at crc uuid k z (owned_block crc uuid k n 0) ≡ some p =
        rw (part_at-owned crc uuid k k z n 0, key_eq_refl k) refl in
      let behind : parts crc uuid k 0 (set bs z (owned_block crc uuid k n 0)) ≡ xs ++ (p ∷ ys) =
        rw new at (parts-set_top crc uuid k bs z (owned_block crc uuid k n 0) h) in
      let sorted : sort_parts (xs ++ ys) ≡ numbered 0 len zs = ap sort_parts (sym before) ∙ e in
      let below : All (IsBelow n) (sort_parts (xs ++ ys)) =
        rw sorted (numbered-IsBelow 0 len n zs (omega arith)) in
      let sides =
        All-append_left (IsBelow n) xs ys (All-of_sort_parts (IsBelow n) (xs ++ ys) below) in
      ap sort_parts behind
      ∙ (sort_largest p xs ys sides.0 (All-sort_parts (IsBelow n) ys sides.1)
          ∙ ap (λ (t : List Part). t ++ (p ∷ [])) sorted)

pub other_key : (j k : SegmentKey) → key_eq k j ≡ false → key_eq j k ≡ false
other_key j k h = elim (Bool-cases (key_eq j k)) [
  | inl e ↦
      let q : j ≡ k = key_eq→eq j k e in
      absurd (
        let t : key_eq k k ≡ false = subst (λ x. key_eq k x ≡ false) q h in
        let u = key_eq_refl k in ground arith)
  | inr e ↦ e
]

pub zone_distinct : clean ≢ held
zone_distinct h = let e = ap is_clean h in ground arith

-- `len` and `zs` are what the table holds of segment `k` before the claim, `s` what it holds then.
module _ (crc : ZoneHeader → ℕ) (d : Device) (v : IsValid crc d) (k : SegmentKey) (z len : ℕ)
    (zs : List ℕ) (s : Segment) (in_range : z < length d.zones)
    (free : get_or d.zones z held ≢ held) (before : expected (d.segments k) ≡ numbered 0 len zs)
    (behind : numbered 0 s.synced_len s.zones
      ≡ numbered 0 len zs ++ (record { ordinal = length zs; zone = z; written_len = 0 } ∷ []))
    (sound_behind : IsSound (payload_len d) (some s)) where
  abbrev pub claimed : Device
  claimed = record (claim_at crc d k (length zs) z) { segments = table_insert k s d.segments }

  claimed-told :
      (j : SegmentKey)
      → sort_parts (parts crc d.device_uuid j 0 claimed.blocks) ≡ expected (claimed.segments j)
  claimed-told j = elim (Bool-cases (key_eq k j)) [
    | inl e ↦
        let q : k ≡ j = key_eq→eq k j e in
        rw e (
          subst
            (λ x.
              sort_parts (parts crc d.device_uuid x 0 claimed.blocks)
              ≡ numbered 0 s.synced_len s.zones)
            q
            (sort-parts_claimed crc d.device_uuid k (length zs) z len d.blocks zs
                (omega (arith, v.sizes)) (v.free_unowned k z free) (v.told k ∙ before) refl
              ∙ sym behind))
    | inr e ↦ rw e (
        ap sort_parts (
          parts-same crc d.device_uuid j d.blocks claimed.blocks
            (sym (length-set d.blocks z (owned_block crc d.device_uuid k (length zs) 0)))
            (λ i.
              part_at-set crc d.device_uuid j d.blocks z
                (owned_block crc d.device_uuid k (length zs) 0) i
                (rw (part_at-owned crc d.device_uuid j k z (length zs) 0, other_key j k e) refl)
                (v.free_unowned j z free)))
        ∙ v.told j)
  ]

  claimed_elsewhere : (i : ℕ) → get_or claimed.zones i held ≢ held → (z == i) ≡ false
  claimed_elsewhere i h = elim (Bool-cases (z == i)) [
    | inl e ↦ absurd (h (let g = get_or-set d.zones z i held held in ground arith))
    | inr e ↦ e
  ]

  pub claimed-IsValid : IsValid crc claimed
  claimed-IsValid = record {
    told = claimed-told;
    sound = λ j. elim (Bool-cases (key_eq k j)) [
      | inl e ↦ rw e sound_behind
      | inr e ↦ rw e (v.sound j)
    ];
    sizes = omega (
      arith,
      v.sizes,
      length-set d.blocks z (owned_block crc d.device_uuid k (length zs) 0),
      length-set d.zones z held,
    );
    payload_sizes = elim (Bool-cases (is_unknown (get_or d.zones z held))) [
      | inl e ↦ rw e (
          omega (
            arith,
            v.payload_sizes,
            length-set d.payloads z (replicate (payload_len d) 0),
            length-set d.zones z held,
          ))
      | inr e ↦ rw e (omega (arith, v.payload_sizes, length-set d.zones z held))
    ];
    free_unowned = λ j i h.
        let e = claimed_elsewhere i h in
        let g = get_or-set d.zones z i held held in
        let b = get_or-set d.blocks z i (owned_block crc d.device_uuid k (length zs) 0) none in
        let same : get_or claimed.blocks i none ≡ get_or d.blocks i none = ground arith in
        rw same (v.free_unowned j i (λ q. h (ground arith)));
    clean_zero = λ i h.
        let g = get_or-set d.zones z i held held in
        let far = claimed_elsewhere i (λ q. zone_distinct (sym h ∙ q)) in
        let old : get_or d.zones i held ≡ clean = ground arith in
        let b = get_or-set d.payloads z i (replicate (payload_len d) 0) [] in
        elim (Bool-cases (is_unknown (get_or d.zones z held))) [
          | inl e ↦ rw e (ground (arith, v.clean_zero i old))
          | inr e ↦ rw e (v.clean_zero i old)
        ];
  }
