-- ===== src/Device/Zones/Steps.antt =====
-- The operations on zones in any order (crates/lchfs-device/src/lib.rs), as a step relation.
use lchfs.Common.{
  ℕ, suc, ◌+◌, ◌*◌, ◌≤◌, ◌≡◌, refl, sym, ap, subst, ◌∙◌, arith, true, false, length, get_or, set,
  inl, inr, ◌≢◌, length-append,
}
use lchfs.Common.{
  none, some, List, [], ◌∷◌, ◌++◌, ltb, ◌==◌, if◌then◌else◌, Bool-cases, Option-cases, Result-cases,
  ok,
}
use native.Mathlib.Nat.{suc-mul}
use lchfs.Device.Zones.{
  mark_removed, read_zone_header, part_of, SegmentKey, key_eq, clean, held, waiting, ZoneHeader,
  Segment, SegmentFile, Device, sort_parts, payload_len, table_insert, table_remove, owned_block,
  parts, remove_segment, release, claim_at, claim_zone, create_segment, grow_segment, with_first,
  with_zone, pick, sync_all, persist_len, extend_len,
}
use lchfs.Device.Zones.Parts.{numbered, numbered-append, key_eq_refl, key_eq→eq}
use lchfs.Device.Zones.Blocks.{
  is_in, length-set, get_or-set, part_at, part_at-owned, part_at-set, parts-same, All-parts_top,
}
use lchfs.Device.Zones.Valid.{IsValid, IsSound, expected, pick-is_free, claimed-IsValid, other_key}
use lchfs.Device.Zones.Synced.{sort-parts_synced}
use lchfs.Device.Zones.Removal.{foreign, zone_told}
use lchfs.Device.Zones.Keeps.{remove_segment-IsValid, release-IsValid, ok_injective, no_parts}

grown-IsSound :
    (z : ℕ) (s : Segment) (payload : ℕ)
    → IsSound payload (some s)
    → IsSound payload (some (record s { zones = s.zones ++ (z ∷ []) }))
grown-IsSound z s payload o =
    let l = length-append s.zones (z ∷ []) in
    let e : length (s.zones ++ (z ∷ [])) ≡ length s.zones + 1 = omega arith in
    (
      (λ x. let g = ap length x in omega arith),
      o.1,
      rw e (
          let m = suc-mul (length s.zones) payload in
          let f : length s.zones + 1 ≡ suc (length s.zones) = omega arith in
          rw f (omega (arith, o.2))),
    )

mark_removed-gone :
    (crc : ZoneHeader → ℕ) (d : Device) (k : SegmentKey) (lists : List (List ℕ))
    → (mark_removed crc (record d { segments = table_remove k d.segments }) lists).segments k ≡ none
unfolding mark_removed
mark_removed-gone crc d k lists = rw (key_eq_refl k) refl

module _ (crc : ZoneHeader → ℕ) (d : Device) (v : IsValid crc d) where
  -- What a claim that succeeds has picked.
  claim_zone-ok :
      (k : SegmentKey) (n z : ℕ) (e : Device)
      → claim_zone crc d k n ≡ ok (e, z)
      → (pick d.zones ≡ some z) × (claim_at crc d k n z ≡ e)
  unfolding claim_zone
  claim_zone-ok k n z e h = elim (Bool-cases d.allocation_blocked) [
    | inl b ↦ absurd (ground arith)
    | inr b ↦ elim (Option-cases (pick d.zones)) [
      | inl q ↦ absurd (ground arith)
      | inr (y, q) ↦
          let w : (claim_at crc d k n y, y) ≡ (e, z) =
            ok_injective (claim_at crc d k n y, y) (e, z) (rw (b, q) at h) in
          let f : y ≡ z = ap (λ p. p.1) w in (q ∙ ap some f, rw (sym f) (ap (λ p. p.0) w))
    ]
  ]

  -- The table's entry for a key, and what the claim of its next zone makes of it.
  claimed_next :
      (k : SegmentKey) (z len : ℕ) (zs : List ℕ) (s : Segment)
      → pick d.zones ≡ some z
      → expected (d.segments k) ≡ numbered 0 len zs
      → numbered 0 s.synced_len s.zones
        ≡ numbered 0 len zs ++ (record { ordinal = length zs; zone = z; written_len = 0 } ∷ [])
      → IsSound (payload_len d) (some s)
      → IsValid crc
          (record (claim_at crc d k (length zs) z) { segments = table_insert k s d.segments })
  claimed_next k z len zs s q b n o =
      let p = pick-is_free d.zones z q in claimed-IsValid crc d v k z len zs s p.0 p.1 b n o

  create_after_claim :
      (k : SegmentKey) (e : Device)
      → d.segments k ≡ none
      → with_first k (claim_zone crc d k 0) ≡ ok e
      → IsValid crc e
  unfolding numbered
  create_after_claim k e q h = elim (Result-cases (claim_zone crc d k 0)) [
    | inl (x, c) ↦ absurd (ground arith)
    | inr (r, c) ↦
        let s : Segment = record { zones = r.1 ∷ []; len = 0; synced_len = 0 } in
        let w = claim_zone-ok k 0 r.1 r.0 c in
        let g : record r.0 { segments = table_insert k s r.0.segments } ≡ e =
          ok_injective (record r.0 { segments = table_insert k s r.0.segments }) e (rw c at h) in
        subst (IsValid crc)
          (ap (λ (x : Device). record x { segments = table_insert k s x.segments }) w.1 ∙ g)
          (claimed_next k r.1 0 [] s w.0 (ap expected q) refl
            ((λ x. ground arith), omega arith, omega arith))
  ]

  -- Growing through a handle of a segment that is not removed.
  pub grow_segment-IsValid :
      (k : SegmentKey) (s t : Segment) (e : Device)
      → d.segments k ≡ some s
      → grow_segment crc d (record { key = k; seg = s; removed = false })
        ≡ ok (e, record { key = k; seg = t; removed = false })
      → IsValid crc e
  unfolding grow_segment
  grow_segment-IsValid k s t e q h = elim (Result-cases (claim_zone crc d k (length s.zones))) [
    | inl (x, c) ↦ absurd (ground arith)
    | inr (r, c) ↦
        let o : IsSound (payload_len d) (some s) = rw q at (v.sound k) in
        let w = claim_zone-ok k (length s.zones) r.1 r.0 c in
        let u : Segment = with_zone s r.1 in
        let f : SegmentFile = record { key = k; seg = u; removed = false } in
        let f' : SegmentFile = record { key = k; seg = t; removed = false } in
        let g : record r.0 { segments = table_insert k u r.0.segments } ≡ e =
          ap (λ p. p.0)
            (ok_injective (record r.0 { segments = table_insert k u r.0.segments }, f) (e, f')
              (rw c at h)) in
        subst (IsValid crc)
          (ap (λ (x : Device). record x { segments = table_insert k u x.segments }) w.1 ∙ g)
          (claimed_next k r.1 s.synced_len s.zones u w.0 (ap expected q)
            (let l : 0 + length s.zones ≡ length s.zones = omega arith in
              rw l at (numbered-append 0 s.synced_len r.1 s.zones o.0))
            (grown-IsSound r.1 s (payload_len d) o))
  ]

  retabled :
      (k : SegmentKey) (s t : Segment)
      → d.segments k ≡ some s
      → expected (some t) ≡ expected (some s)
      → IsSound (payload_len d) (some t)
      → IsValid crc (record d { segments = table_insert k t d.segments })
  retabled k s t q same o = record {
    told = λ j. elim (Bool-cases (key_eq k j)) [
      | inl e ↦ rw e (
          subst (λ x. sort_parts (parts crc d.device_uuid x 0 d.blocks) ≡ expected (some t))
            (key_eq→eq k j e) (v.told k ∙ (ap expected q ∙ sym same)))
      | inr e ↦ rw e (v.told j)
    ];
    sound = λ j. elim (Bool-cases (key_eq k j)) [ inl e ↦ rw e o | inr e ↦ rw e (v.sound j) ];
    sizes = v.sizes;
    payload_sizes = v.payload_sizes;
    free_unowned = v.free_unowned;
    clean_zero = v.clean_zero;
  }

  pub extend_len-IsValid :
      (k : SegmentKey) (end : ℕ)
      → ((s : Segment) → d.segments k ≡ some s → end ≤ length s.zones * payload_len d)
      → IsValid crc (extend_len d k end)
  unfolding extend_len
  extend_len-IsValid k end within = elim (Option-cases (d.segments k)) [
    | inl q ↦ rw (q, extend_len) v
    | inr (s, q) ↦
        let o : IsSound (payload_len d) (some s) = rw q at (v.sound k) in
        let w = within s q in
        rw (q, extend_len)
          (retabled k s (record s { len = if ltb s.len end then end else s.len }) q refl
            (o.0, ground (arith, o.1), ground (arith, o.2)))
  ]

  resynced :
      (k : SegmentKey) (s : Segment) (first : ℕ) (rest : List ℕ)
      → d.segments k ≡ some s
      → s.zones ≡ first ∷ rest
      → IsValid crc (persist_len crc d k s (first ∷ rest))
  resynced k s first rest q z =
      let o : IsSound (payload_len d) (some s) = rw q at (v.sound k) in
      let told_k : sort_parts (parts crc d.device_uuid k 0 d.blocks)
          ≡ numbered 0 s.synced_len (first ∷ rest) =
        v.told k ∙ (ap expected q ∙ ap (numbered 0 s.synced_len) z) in
      let b = owned_block crc d.device_uuid k 0 s.len in
      record {
        told = λ j. elim (Bool-cases (key_eq k j)) [
          | inl e ↦ rw e (
              subst
                (λ x.
                  sort_parts (parts crc d.device_uuid x 0 (set d.blocks first b))
                  ≡ numbered 0 s.len s.zones)
                (key_eq→eq k j e)
                (sort-parts_synced crc d.device_uuid k d.blocks s.synced_len s.len first rest told_k
                  ∙ ap (numbered 0 s.len) (sym z)))
          | inr e ↦ rw e (
              ap sort_parts (
                parts-same crc d.device_uuid j d.blocks (set d.blocks first b)
                  (sym (length-set d.blocks first b)) (λ i. others j i e))
              ∙ v.told j)
        ];
        sound = λ j. elim (Bool-cases (key_eq k j)) [
          | inl e ↦ rw e (o.0, omega arith, o.2)
          | inr e ↦ rw e (v.sound j)
        ];
        sizes = omega (arith, v.sizes, length-set d.blocks first b);
        payload_sizes = v.payload_sizes;
        free_unowned = λ j i h. elim (Bool-cases (first == i)) [
          | inl e ↦
              let r =
                zone_told crc d.device_uuid k d.blocks s.synced_len (first ∷ rest) told_k i
                  (ground arith) in
              let n = v.free_unowned k i h in absurd (let t = r.1 in ground arith)
          | inr e ↦
              let g = get_or-set d.blocks first i b none in
              let f : get_or (set d.blocks first b) i none ≡ get_or d.blocks i none =
                ground arith in
              rw f (v.free_unowned j i h)
        ];
        clean_zero = v.clean_zero;
      }
    where
      others :
          (j : SegmentKey) (i : ℕ)
          → key_eq k j ≡ false
          → part_at crc d.device_uuid j i
              (get_or (set d.blocks first (owned_block crc d.device_uuid k 0 s.len)) i none)
            ≡ part_at crc d.device_uuid j i (get_or d.blocks i none)
      others j i e =
          let told_k : sort_parts (parts crc d.device_uuid k 0 d.blocks)
              ≡ numbered 0 s.synced_len (first ∷ rest) =
            v.told k ∙ (ap expected q ∙ ap (numbered 0 s.synced_len) z) in
          part_at-set crc d.device_uuid j d.blocks first (owned_block crc d.device_uuid k 0 s.len) i
            (rw (part_at-owned crc d.device_uuid j k first 0 s.len, other_key j k e) refl)
            (foreign crc d.device_uuid k d.blocks s.synced_len (first ∷ rest) told_k j first e
              (ground arith))

  pub sync_all-IsValid : (k : SegmentKey) → IsValid crc (sync_all crc d k)
  unfolding sync_all
  sync_all-IsValid k = elim (Option-cases (d.segments k)) [
    | inl q ↦ rw (q, sync_all) v
    | inr (s, q) ↦ elim (Bool-cases (s.synced_len == s.len)) [
      | inl e ↦ rw (q, sync_all, e) v
      | inr e ↦ rw (q, sync_all, e) (by_zones s q s.zones refl)
    ]
  ]
    where
      by_zones :
          (s : Segment)
          → d.segments k ≡ some s
          → (zs : List ℕ) → s.zones ≡ zs
          → IsValid crc (persist_len crc d k s zs)
      by_zones s q [] z = v
      by_zones s q (first ∷ rest) z = resynced k s first rest q z

pub create_segment-IsValid :
    (crc : ZoneHeader → ℕ) (d : Device) (k : SegmentKey) (e : Device)
    → IsValid crc d
    → create_segment crc d k ≡ ok e
    → IsValid crc e
unfolding create_segment remove_segment
create_segment-IsValid crc d k e v h = elim (Option-cases (d.segments k)) [
  | inl q ↦ create_after_claim crc d v k e q (rw (q, create_segment, remove_segment) at h)
  | inr (s, q) ↦
      let r = mark_removed crc (record d { segments = table_remove k d.segments }) (s.zones ∷ []) in
      let c : remove_segment crc d k ≡ ok r = rw (q, remove_segment) refl in
      create_after_claim crc r (remove_segment-IsValid crc d v k r c) k e
        (mark_removed-gone crc d k (s.zones ∷ [])) (rw (q, create_segment, remove_segment) at h)
]

-- The operations that change a device's zones, in any order.
pub data Step (crc : ZoneHeader → ℕ) (d : Device) (e : Device) : Type 0 where
  created : (k : SegmentKey) → create_segment crc d k ≡ ok e → Step crc d e
  -- Through a handle of a segment that is not removed, which the table then holds.
  grown :
      (k : SegmentKey) (s t : Segment)
      → d.segments k ≡ some s
      → grow_segment crc d (record { key = k; seg = s; removed = false })
        ≡ ok (e, record { key = k; seg = t; removed = false })
      → Step crc d e
  -- A write that ends within the zones.
  written :
      (k : SegmentKey) (end : ℕ)
      → ((s : Segment) → d.segments k ≡ some s → end ≤ length s.zones * payload_len d)
      → extend_len d k end ≡ e
      → Step crc d e
  synced : (k : SegmentKey) → sync_all crc d k ≡ e → Step crc d e
  removed : (k : SegmentKey) → remove_segment crc d k ≡ ok e → Step crc d e
  -- The last handle on a removed segment is dropped.
  released :
      (zs : List ℕ)
      → ((i : ℕ) → is_in i zs ≡ true → get_or d.zones i held ≡ waiting)
      → release crc d zs ≡ e
      → Step crc d e

pub data Reach (crc : ZoneHeader → ℕ) (d : Device) : Device → Type 0 where
  here : Reach crc d d
  next : {e f : Device} → Reach crc d e → Step crc e f → Reach crc d f

Step-IsValid : (crc : ZoneHeader → ℕ) (d e : Device) → IsValid crc d → Step crc d e → IsValid crc e
Step-IsValid crc d e v (created k h) = create_segment-IsValid crc d k e v h
Step-IsValid crc d e v (grown k s t q h) = grow_segment-IsValid crc d v k s t e q h
Step-IsValid crc d e v (written k end w h) =
    subst (IsValid crc) h (extend_len-IsValid crc d v k end w)
Step-IsValid crc d e v (synced k h) = subst (IsValid crc) h (sync_all-IsValid crc d v k)
Step-IsValid crc d e v (removed k h) = remove_segment-IsValid crc d v k e h
Step-IsValid crc d e v (released zs w h) = subst (IsValid crc) h (release-IsValid crc d v zs w)

-- From a device whose headers tell its segment table, creating, growing, syncing and removing
-- segments, writing within their zones, and releasing zones that wait, in any order, reach such a
-- device again, as long as no handle of a segment that was removed claims it a further zone: the headers of each segment are its zones numbered from 0 on with its synced
-- length, no segment holds a zone that is free or waits, and zones known zero are zero.
pub Reach-IsValid :
    (crc : ZoneHeader → ℕ) (d e : Device) → IsValid crc d → Reach crc d e → IsValid crc e
Reach-IsValid crc d _ v here = v
Reach-IsValid crc d _ v (next {e} {f} r s) = Step-IsValid crc e f (Reach-IsValid crc d e v r) s

-- A device that was formatted has no header that reads, no segment and no zone known zero.
pub format-IsValid :
    (crc : ZoneHeader → ℕ) (d : Device)
    → ((i : ℕ) → read_zone_header crc d.device_uuid (get_or d.blocks i none) ≡ none)
    → ((k : SegmentKey) → d.segments k ≡ none)
    → ((i : ℕ) → get_or d.zones i held ≢ clean)
    → length d.blocks ≡ length d.zones
    → length d.payloads ≡ length d.zones
    → IsValid crc d
unfolding sort_parts
format-IsValid crc d h s c n m =
    let untold : (k : SegmentKey) (i : ℕ)
        → part_at crc d.device_uuid k i (get_or d.blocks i none) ≡ none =
      λ k i. ap (part_of k i) (h i) in
    record {
      told = λ k.
          let a = no_parts (parts crc d.device_uuid k 0 d.blocks) (
            All-parts_top crc d.device_uuid (λ p. ⊥) k d.blocks
              (λ i p g. let u = untold k i in ground arith)) in
          ap sort_parts a ∙ ap expected (sym (s k));
      sound = λ k. rw (s k) tt;
      sizes = n;
      payload_sizes = m;
      free_unowned = λ k i g. untold k i;
      clean_zero = λ i g. absurd (c i g);
    }
