-- ===== src/Device/Zones/Synced.antt =====
-- The first header of a segment written again with the synced length (`SegmentFile::sync_all` of
-- crates/lchfs-device/src/lib.rs): what a scan sorts then.
use lchfs.Common.{
  ℕ, suc, ◌≡◌, refl, sym, ap, subst, ◌∙◌, arith, true, false, ◌&&◌, length, get_or, set, All, inl,
  inr, ◌≢◌,
}
use lchfs.Common.{
  Option, none, some, List, [], ◌∷◌, ltb, ◌==◌, if◌then◌else◌, Bool-cases, Option-cases,
}
use lchfs.Device.Zones.{SegmentKey, Part, part_leb, ZoneHeader, sort_parts, owned_block, parts}
use lchfs.Device.Zones.Parts.{
  numbered, map_parts, sort_parts-map_parts, key_eq_refl, All-sort_parts, All-of_sort_parts,
}
use lchfs.Device.Zones.Blocks.{
  length-set, get_or-set, part_at, part_at-owned, map_part, parts-map_parts_top, All-parts_top,
  parts-All_top,
}
use lchfs.Device.Zones.Removal.{part_at-zone, zone_told, zone_in_range, numbered-first}

unfoldable relen : ℕ → Part → Part
relen len p = record p { written_len = if p.ordinal == 0 then len else p.written_len }

map-relen_rest :
    (len n old : ℕ) (zs : List ℕ)
    → map_parts (relen len) (numbered (suc n) old zs) ≡ numbered (suc n) old zs
unfolding numbered map_parts relen
map-relen_rest len n old [] = refl
map-relen_rest len n old (z ∷ zs) =
    let ih = map-relen_rest len (suc n) 0 zs in
    let e : (suc n == 0) ≡ false = ground arith in rw (e, ih) refl

map_parts-numbered :
    (len old z : ℕ) (zs : List ℕ)
    → map_parts (relen len) (numbered 0 old (z ∷ zs)) ≡ numbered 0 len (z ∷ zs)
unfolding numbered map_parts relen
map_parts-numbered len old z zs =
    ap (λ (t : List Part). record { ordinal = 0; zone = z; written_len = len } ∷ t)
      (map-relen_rest len 0 0 zs)

module _ (crc : ZoneHeader → ℕ) (uuid : List ℕ) (k : SegmentKey) (bs : List (Option ZoneHeader))
    (old len first : ℕ) (rest : List ℕ)
    (told : sort_parts (parts crc uuid k 0 bs) ≡ numbered 0 old (first ∷ rest)) where
  -- The part that the first zone tells is that of ordinal 0, and no other is.
  first_part : (p : Part) → part_at crc uuid k first (get_or bs first none) ≡ some p → p.ordinal ≡ 0
  unfolding numbered
  first_part p h = elim (Bool-cases (p.ordinal == 0)) [
    | inl e ↦ ground arith
    | inr e ↦
        let P : Part → Type 0 = λ q. q.zone ≡ first → q.ordinal ≢ 0 in
        let a : All P (parts crc uuid k 0 bs) = All-parts_top crc uuid P k bs (λ i q g f o.
          let s : i ≡ first = sym (part_at-zone crc uuid k i (get_or bs i none) q g) ∙ f in
          let g' : part_at crc uuid k first (get_or bs first none) ≡ some q =
            subst (λ x. part_at crc uuid k x (get_or bs x none) ≡ some q) s g in
          let w : p ≡ q = some_injective p q (sym h ∙ g') in
          let w' = ap (λ (x : Part). x.ordinal) w in ground arith) in
        let b : All P (numbered 0 old (first ∷ rest)) =
          subst (All P) told (All-sort_parts P (parts crc uuid k 0 bs) a) in
        absurd (b.0 refl refl)
  ]
    where
      some_injective : (a b : Part) → some a ≡ some b → a ≡ b
      some_injective a b e = cc

  other_part :
      (i : ℕ) (p : Part)
      → part_at crc uuid k i (get_or bs i none) ≡ some p
      → (first == i) ≡ false
      → p.ordinal ≢ 0
  other_part i p h n o =
      let P : Part → Type 0 = λ q. q.ordinal ≡ 0 → q.zone ≡ first in
      let a : All P (parts crc uuid k 0 bs) =
        All-of_sort_parts P (parts crc uuid k 0 bs)
          (subst (All P) (sym told) (numbered-first crc uuid old first rest)) in
      let z = parts-All_top crc uuid P k bs i p a h o in
      let z' = part_at-zone crc uuid k i (get_or bs i none) p h in ground arith

  map_part-relen :
      (i : ℕ)
      → part_at crc uuid k i (get_or (set bs first (owned_block crc uuid k 0 len)) i none)
        ≡ map_part crc uuid (relen len) (part_at crc uuid k i (get_or bs i none))
  map_part-relen i =
      let b = owned_block crc uuid k 0 len in
      elim (Bool-cases (first == i)) [
        | inl e ↦
            let q : first ≡ i = ground arith in
            subst
              (λ x.
                part_at crc uuid k x (get_or (set bs first b) x none)
                ≡ map_part crc uuid (relen len) (part_at crc uuid k x (get_or bs x none)))
              q at_first
        | inr e ↦
            let g : get_or (set bs first b) i none ≡ get_or bs i none =
              (let w = get_or-set bs first i b none in ground arith) in
            rw g (elim (Option-cases (part_at crc uuid k i (get_or bs i none))) [
              | inl o ↦ rw o refl
              | inr (p, o) ↦ rw o (ap some (sym (relen-same p (other_part i p o e))))
            ])
      ]
    where
      relen-same : (p : Part) → p.ordinal ≢ 0 → relen len p ≡ p
      relen-same p n =
          unfold relen in (let e : (p.ordinal == 0) ≡ false = ground arith in rw e refl)

      relen_first :
          (p : Part)
          → p.ordinal ≡ 0
          → p.zone ≡ first
          → some (record { ordinal = 0; zone = first; written_len = len }) ≡ some (relen len p)
      relen_first p o z =
          unfold relen in (let e : (p.ordinal == 0) ≡ true = ground arith in rw (e, o, z) refl)

      at_first :
          part_at crc uuid k first (get_or (set bs first (owned_block crc uuid k 0 len)) first none)
          ≡ map_part crc uuid (relen len) (part_at crc uuid k first (get_or bs first none))
      at_first =
          let b = owned_block crc uuid k 0 len in
          let r = zone_told crc uuid k bs old (first ∷ rest) told first (ground arith) in
          let l = zone_in_range crc uuid k bs old (first ∷ rest) told first (ground arith) in
          let t : ((first == first) && ltb first (length bs)) ≡ true = ground arith in
          let g : get_or (set bs first b) first none ≡ b =
            rw t at (get_or-set bs first first b none) in
          rw (g, r.1)
            (rw (part_at-owned crc uuid k k first 0 len, key_eq_refl k)
              (relen_first r.0 (first_part r.0 r.1)
                (part_at-zone crc uuid k first (get_or bs first none) r.0 r.1)))

  pub sort-parts_synced :
      sort_parts (parts crc uuid k 0 (set bs first (owned_block crc uuid k 0 len)))
      ≡ numbered 0 len (first ∷ rest)
  sort-parts_synced =
      ap sort_parts (
        parts-map_parts_top crc uuid (relen len) k bs (set bs first (owned_block crc uuid k 0 len))
          (sym (length-set bs first (owned_block crc uuid k 0 len))) map_part-relen)
      ∙ (sort_parts-map_parts (relen len) (λ a b. part_leb-relen a b) (parts crc uuid k 0 bs)
          ∙ (ap (map_parts (relen len)) told ∙ map_parts-numbered len old first rest))
    where
      part_leb-relen : (a b : Part) → part_leb (relen len a) (relen len b) ≡ part_leb a b
      part_leb-relen a b = unfold relen in refl
