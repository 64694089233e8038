-- ===== src/Device/Zones/Removal.antt =====
-- Marking a segment's zones `Freeing` (crates/lchfs-device/src/lib.rs), in full or in part: what a
-- scan tells of that segment and of the others.
use lchfs.Common.{
  ℕ, suc, ◌<◌, ◌≡◌, refl, sym, ap, subst, ◌∙◌, arith, true, false, length, get_or, All, inl, inr,
  ◌≢◌, ◌⊎◌,
}
use lchfs.Common.{Option, none, some, List, [], ◌∷◌, ltb, Bool-cases, Option-cases}
use lchfs.Device.Zones.{
  SegmentKey, key_eq, Part, ZoneHeader, sort_parts, freeing_block, parts, read_zone_header,
}
use lchfs.Device.Zones.Parts.{numbered, All-of_sort_parts, All-sort_parts, key_eq→eq}
use lchfs.Device.Zones.Blocks.{
  get_or_beyond, part_at-none, is_in, part_at, part_at-freeing, All-parts_top, parts-All_top,
  parts-same,
}

abbrev zone_or : ℕ → Option Part → ℕ
zone_or i none = i
zone_or i (some p) = p.zone

module _ (crc : ZoneHeader → ℕ) (uuid : List ℕ) where
  pub part_at-zone :
      (k : SegmentKey) (i : ℕ) (b : Option ZoneHeader) (p : Part)
      → part_at crc uuid k i b ≡ some p
      → p.zone ≡ i
  part_at-zone k i b p h = ground (arith, ap (zone_or i) h)

  -- A block tells of one segment only.
  pub part_at-other :
      (j k : SegmentKey) (i : ℕ) (b : Option ZoneHeader) (p : Part)
      → part_at crc uuid k i b ≡ some p
      → key_eq k j ≡ false
      → part_at crc uuid j i b ≡ none
  part_at-other j k i b p h n = elim (Option-cases (read_zone_header crc uuid b)) [
    | inl e ↦ rw e refl
    | inr (g, e) ↦
        let owner : SegmentKey = record { kind = g.kind; id = g.segment_id } in
        elim (Bool-cases (key_eq j owner)) [
          | inl f ↦
              let m : key_eq k owner ≡ false =
                subst (λ x. key_eq k x ≡ false) (key_eq→eq j owner f) n in
              ground arith
          | inr f ↦ ground arith
        ]
  ]

  -- Each block of `cs` is that of `bs`, or a zone of `zs` that was marked.
  pub record IsMarked (zs : List ℕ) (bs cs : List (Option ZoneHeader)) : Type 0 where
    pub lengths : length bs ≡ length cs
    pub each :
        (i : ℕ)
        → (get_or cs i none ≡ get_or bs i none)
          ⊎ ((is_in i zs ≡ true) × (get_or cs i none ≡ freeing_block crc uuid))

  -- The zones of a segment are those that its parts name.
  pub zone-numbered :
      (n len i : ℕ) (zs : List ℕ) → All (λ p. p.zone ≢ i) (numbered n len zs) → is_in i zs ≡ false
  unfolding numbered
  zone-numbered n len i [] h = refl
  zone-numbered n len i (z ∷ zs) h = ground (arith, zone-numbered (suc n) 0 i zs h.1)

  pub numbered-zone :
      (n len : ℕ) (zs ys : List ℕ)
      → ((i : ℕ) → is_in i zs ≡ true → is_in i ys ≡ true)
      → All (λ p. is_in p.zone ys ≡ true) (numbered n len zs)
  unfolding numbered
  numbered-zone n len [] ys h = tt
  numbered-zone n len (z ∷ zs) ys h =
      (h z (ground arith), numbered-zone (suc n) 0 zs ys (λ i g. h i (ground arith)))

  pub numbered-above :
      (P : Part → Type 0) (n len : ℕ) (zs : List ℕ)
      → ((p : Part) → p.ordinal ≢ 0 → P p)
      → All P (numbered (suc n) len zs)
  unfolding numbered
  numbered-above P n len [] h = tt
  numbered-above P n len (z ∷ zs) h = (
    h (record { ordinal = suc n; zone = z; written_len = len }) (λ e. omega arith),
    numbered-above P (suc n) 0 zs h,
  )

  pub numbered-first :
      (len first : ℕ) (rest : List ℕ)
      → All (λ p. p.ordinal ≡ 0 → p.zone ≡ first) (numbered 0 len (first ∷ rest))
  unfolding numbered
  numbered-first len first rest = (
    λ e. refl,
    numbered-above (λ p. p.ordinal ≡ 0 → p.zone ≡ first) 0 0 rest (λ p n e. absurd (n e)),
  )

  module _ (k : SegmentKey) (bs : List (Option ZoneHeader)) (len : ℕ) (zs : List ℕ)
      (told : sort_parts (parts crc uuid k 0 bs) ≡ numbered 0 len zs) where
    pub zone_told :
        (i : ℕ)
        → is_in i zs ≡ true
        → (p : Part) × (part_at crc uuid k i (get_or bs i none) ≡ some p)
    zone_told i h = elim (Option-cases (part_at crc uuid k i (get_or bs i none))) [
      | inr r ↦ r
      | inl e ↦
          let a : All (λ p. p.zone ≢ i) (parts crc uuid k 0 bs) =
            All-parts_top crc uuid (λ p. p.zone ≢ i) k bs
              (λ j p g q.
                let s : j ≡ i = sym (part_at-zone k j (get_or bs j none) p g) ∙ q in
                let g' : part_at crc uuid k i (get_or bs i none) ≡ some p =
                  subst (λ x. part_at crc uuid k x (get_or bs x none) ≡ some p) s g in
                ground arith) in
          let b : All (λ p. p.zone ≢ i) (numbered 0 len zs) =
            subst (All (λ p. p.zone ≢ i)) told
              (All-sort_parts (λ p. p.zone ≢ i) (parts crc uuid k 0 bs) a) in
          absurd (let c = zone-numbered 0 len i zs b in ground arith)
    ]

    pub zone_in_range : (i : ℕ) → is_in i zs ≡ true → i < length bs
    zone_in_range i h = elim (Bool-cases (ltb i (length bs))) [
      | inl e ↦ ground arith
      | inr e ↦
          let r = zone_told i h in
          let g = get_or_beyond bs i none (ground arith) in
          let q : part_at crc uuid k i (get_or bs i none) ≡ none =
            ap (part_at crc uuid k i) g ∙ part_at-none crc uuid k i in
          absurd (let t = r.1 in ground arith)
    ]

    pub told_zone :
        (i : ℕ) (p : Part) → part_at crc uuid k i (get_or bs i none) ≡ some p → is_in i zs ≡ true
    told_zone i p h =
        let a : All (λ q. is_in q.zone zs ≡ true) (parts crc uuid k 0 bs) =
          All-of_sort_parts (λ q. is_in q.zone zs ≡ true) (parts crc uuid k 0 bs)
            (subst (All (λ q. is_in q.zone zs ≡ true)) (sym told)
              (numbered-zone 0 len zs zs (λ j g. g))) in
        let b = parts-All_top crc uuid (λ q. is_in q.zone zs ≡ true) k bs i p a h in
        subst (λ x. is_in x zs ≡ true) (part_at-zone k i (get_or bs i none) p h) b

    pub foreign :
        (j : SegmentKey) (i : ℕ)
        → key_eq k j ≡ false
        → is_in i zs ≡ true
        → part_at crc uuid j i (get_or bs i none) ≡ none
    foreign j i n h = let r = zone_told i h in part_at-other j k i (get_or bs i none) r.0 r.1 n

    module _ (cs : List (Option ZoneHeader)) (m : IsMarked zs bs cs) where
      pub marked-others :
          (j : SegmentKey) → key_eq k j ≡ false → parts crc uuid j 0 cs ≡ parts crc uuid j 0 bs
      marked-others j n = parts-same crc uuid j bs cs m.lengths (λ i. elim (m.each i) [
        | inl e ↦ ap (part_at crc uuid j i) e
        | inr (h, e) ↦ rw e (part_at-freeing crc uuid j i ∙ sym (foreign j i n h))
      ])

      -- The zone of ordinal 0 was marked: no part of ordinal 0 is left.
      pub marked-first :
          (first : ℕ) (rest : List ℕ)
          → zs ≡ first ∷ rest
          → get_or cs first none ≡ freeing_block crc uuid
          → All (λ p. p.ordinal ≢ 0) (parts crc uuid k 0 cs)
      marked-first first rest e gone =
          let P : Part → Type 0 = λ p. p.ordinal ≡ 0 → p.zone ≡ first in
          let a : All P (numbered 0 len (first ∷ rest)) = numbered-first len first rest in
          let b : All P (parts crc uuid k 0 bs) =
            All-of_sort_parts P (parts crc uuid k 0 bs) (subst (All P) (sym (rw e at told)) a) in
          All-parts_top crc uuid (λ p. p.ordinal ≢ 0) k cs
            (λ i p g q. elim (m.each i) [
              | inl f ↦
                  let g' : part_at crc uuid k i (get_or bs i none) ≡ some p =
                    sym (ap (part_at crc uuid k i) f) ∙ g in
                  let at_first : i ≡ first =
                    sym (part_at-zone k i (get_or bs i none) p g')
                    ∙ parts-All_top crc uuid P k bs i p b g' q in
                  let c : part_at crc uuid k i (get_or cs i none) ≡ none =
                    subst (λ x. part_at crc uuid k x (get_or cs x none) ≡ none) (sym at_first)
                      (ap (part_at crc uuid k first) gone ∙ part_at-freeing crc uuid k first) in
                  ground arith
              | inr (h, f) ↦
                  let c : part_at crc uuid k i (get_or cs i none) ≡ none =
                    ap (part_at crc uuid k i) f ∙ part_at-freeing crc uuid k i in
                  ground arith
            ])

      pub marked_everywhere :
          ((i : ℕ) → is_in i zs ≡ true → get_or cs i none ≡ freeing_block crc uuid)
          → All (λ p. ⊥) (parts crc uuid k 0 cs)
      marked_everywhere gone =
          All-parts_top crc uuid (λ p. ⊥) k cs
            (λ i p g.
              let c : is_in i zs ≡ true → part_at crc uuid k i (get_or cs i none) ≡ none =
                λ h. ap (part_at crc uuid k i) (gone i h) ∙ part_at-freeing crc uuid k i in
              elim (m.each i) [
                | inl f ↦
                    let g' : part_at crc uuid k i (get_or bs i none) ≡ some p =
                      sym (ap (part_at crc uuid k i) f) ∙ g in
                    let d = c (told_zone i p g') in ground arith
                | inr (h, f) ↦ let d = c h in ground arith
              ])
