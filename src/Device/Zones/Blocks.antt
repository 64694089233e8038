-- ===== src/Device/Zones/Blocks.antt =====
-- The headers of a device, zone by zone (crates/lchfs-device/src/lib.rs): what a scan reads back of
-- the blocks that the operations write, and how the parts of a segment follow from it.
use lchfs.Common.{
  ℕ, zero, suc, ◌+◌, ◌≤◌, ◌<◌, ◌≡◌, refl, sym, ap, subst, arith, Bool, true, false, ◌&&◌, ◌||◌, ◌∙◌,
  length, get_or, set, All, inl, inr,
}
use lchfs.Common.{
  Option, none, some, List, [], ◌∷◌, ◌++◌, ltb, ◌==◌, if◌then◌else◌, Bool-cases, Option-cases,
}
use lchfs.Common.{take, drop}
use lchfs.Common.Names.{name_eq_refl}
use lchfs.Device.Zones.Parts.{map_parts}
use lchfs.Device.Zones.{
  no_segment, SegmentKey, key_eq, Part, ZoneState, ZoneHeader, compute_checksum, finalize,
  is_valid_for, read_zone_header, zone_block, header_of, owned_block, freeing_block, free_block,
  part_of, with_part, parts, set_all, zone_header_magic,
}

abbrev pub is_in : ℕ → List ℕ → Bool
is_in i [] = false
is_in i (z ∷ zs) = (i == z) || is_in i zs

module _ {ℓ} {A : Type ℓ} where
  pub get_or-set :
      (xs : List A) (i j : ℕ) (v d : A)
      → get_or (set xs i v) j d ≡ (if (i == j) && ltb j (length xs) then v else get_or xs j d)
  get_or-set [] i j v d = ground arith
  get_or-set (x ∷ xs) zero zero v d = ground arith
  get_or-set (x ∷ xs) zero (suc j) v d = ground arith
  get_or-set (x ∷ xs) (suc i) zero v d = ground arith
  get_or-set (x ∷ xs) (suc i) (suc j) v d = ground (arith, get_or-set xs i j v d)

  pub get_or_beyond : (xs : List A) (i : ℕ) (d : A) → length xs ≤ i → get_or xs i d ≡ d
  get_or_beyond [] i d h = refl
  get_or_beyond (x ∷ xs) zero d h = absurd (omega arith)
  get_or_beyond (x ∷ xs) (suc i) d h = get_or_beyond xs i d (omega arith)

  pub length-set : (xs : List A) (i : ℕ) (v : A) → length (set xs i v) ≡ length xs
  length-set [] i v = refl
  length-set (x ∷ xs) zero v = refl
  length-set (x ∷ xs) (suc i) v = ap suc (length-set xs i v)

  pub length-set_all : (zs : List ℕ) (v : A) (xs : List A) → length (set_all zs v xs) ≡ length xs
  unfolding set_all
  length-set_all [] v xs = refl
  length-set_all (z ∷ zs) v xs = rw (length-set (set_all zs v xs) z v) (length-set_all zs v xs)

  pub get_or-set_all :
      (zs : List ℕ) (xs : List A) (j : ℕ) (v d : A)
      → get_or (set_all zs v xs) j d
        ≡ (if is_in j zs && ltb j (length xs) then v else get_or xs j d)
  unfolding set_all
  get_or-set_all [] xs j v d = refl
  get_or-set_all (z ∷ zs) xs j v d = ground (
    arith,
    get_or-set (set_all zs v xs) z j v d,
    length-set_all zs v xs,
    get_or-set_all zs xs j v d,
  )

pub set-get_or : (bs : List (Option ZoneHeader)) (i : ℕ) → set bs i (get_or bs i none) ≡ bs
set-get_or [] i = refl
set-get_or (b ∷ bs) zero = refl
set-get_or (b ∷ bs) (suc i) = ap (λ (t : List (Option ZoneHeader)). b ∷ t) (set-get_or bs i)

module _ (crc : ZoneHeader → ℕ) (uuid : List ℕ) where
  -- What `write_zone_header` wrote is read back.
  pub read-zone_block :
      (h : ZoneHeader)
      → read_zone_header crc uuid (zone_block crc uuid h)
        ≡ some (finalize crc (record h { magic = zone_header_magic; device_uuid = uuid }))
  unfolding read_zone_header zone_block is_valid_for finalize compute_checksum
  read-zone_block h = ground (arith, name_eq_refl zone_header_magic, name_eq_refl uuid)

  -- The part of segment `k` that the block of zone `i` tells.
  abbrev pub part_at : SegmentKey → ℕ → Option ZoneHeader → Option Part
  part_at k i b = part_of k i (read_zone_header crc uuid b)

  pub part_at-owned :
      (j k : SegmentKey) (i ordinal len : ℕ)
      → part_at j i (owned_block crc uuid k ordinal len) ≡ (
          if key_eq j k
          then some (record { ordinal = ordinal; zone = i; written_len = len })
          else none)
  unfolding finalize
  part_at-owned j k i ordinal len =
      rw (read-zone_block (header_of uuid ZoneState.owned k ordinal len)) refl

  pub part_at-freeing : (j : SegmentKey) (i : ℕ) → part_at j i (freeing_block crc uuid) ≡ none
  unfolding finalize
  part_at-freeing j i = rw (read-zone_block (header_of uuid ZoneState.freeing no_segment 0 0)) refl

  pub part_at-free : (j : SegmentKey) (i : ℕ) → part_at j i (free_block crc uuid) ≡ none
  unfolding finalize
  part_at-free j i = rw (read-zone_block (header_of uuid ZoneState.free no_segment 0 0)) refl

  pub part_at-none : (j : SegmentKey) (i : ℕ) → part_at j i none ≡ none
  unfolding read_zone_header
  part_at-none j i = refl

  abbrev pub map_part : (Part → Part) → Option Part → Option Part
  map_part f none = none
  map_part f (some p) = some (f p)

  -- The parts follow from what each block tells.
  pub parts-map_parts :
      (f : Part → Part) (k : SegmentKey) (z : ℕ) (bs cs : List (Option ZoneHeader))
      → length bs ≡ length cs
      → ((i : ℕ)
          → part_at k (z + i) (get_or cs i none)
            ≡ map_part f (part_at k (z + i) (get_or bs i none)))
      → parts crc uuid k z cs ≡ map_parts f (parts crc uuid k z bs)
  unfolding parts map_parts
  parts-map_parts f k z [] [] h e = refl
  parts-map_parts f k z [] (c ∷ cs) h e = absurd (omega arith)
  parts-map_parts f k z (b ∷ bs) [] h e = absurd (omega arith)
  parts-map_parts f k z (b ∷ bs) (c ∷ cs) h e =
      let rest =
        parts-map_parts f k (suc z) bs cs (omega arith)
          (λ i. let g : z + suc i ≡ suc z + i = omega arith in rw g at (e (suc i))) in
      let head : part_at k z c ≡ map_part f (part_at k z b) =
        let g : z + 0 ≡ z = omega arith in rw g at (e 0) in
      elim (Option-cases (part_at k z b)) [
        | inl o ↦ let n : part_at k z c ≡ none = ground (arith) in rw (n, o) rest
        | inr (p, o) ↦
            let n : part_at k z c ≡ some (f p) = ground (arith) in
            rw (n, o) (ap (λ (t : List Part). f p ∷ t) rest)
      ]

  pub All-parts :
      (P : Part → Type 0) (k : SegmentKey) (z : ℕ) (bs : List (Option ZoneHeader))
      → ((i : ℕ) (p : Part) → part_at k (z + i) (get_or bs i none) ≡ some p → P p)
      → All P (parts crc uuid k z bs)
  unfolding parts
  All-parts P k z [] e = tt
  All-parts P k z (b ∷ bs) e =
      let rest =
        All-parts P k (suc z) bs
          (λ i p. let g : z + suc i ≡ suc z + i = omega arith in rw g at (e (suc i) p)) in
      let head : (p : Part) → part_at k z b ≡ some p → P p =
        λ p. let g : z + 0 ≡ z = omega arith in rw g at (e 0 p) in
      elim (Option-cases (part_at k z b)) [ inl o ↦ rw o rest | inr (p, o) ↦ rw o (head p o, rest) ]

  pub parts-All :
      (P : Part → Type 0) (k : SegmentKey) (z : ℕ) (bs : List (Option ZoneHeader)) (i : ℕ)
      (p : Part)
      → All P (parts crc uuid k z bs)
      → part_at k (z + i) (get_or bs i none) ≡ some p
      → P p
  unfolding parts
  parts-All P k z [] i p h e = absurd (ground (arith, part_at-none k (z + i)))
  parts-All P k z (b ∷ bs) zero p h e =
      let g : z + 0 ≡ z = omega arith in
      let o : part_at k z b ≡ some p = rw g at e in
      let r : All P (p ∷ parts crc uuid k (suc z) bs) = rw o at h in r.0
  parts-All P k z (b ∷ bs) (suc i) p h e =
      let g : z + suc i ≡ suc z + i = omega arith in
      let o : part_at k (suc z + i) (get_or bs i none) ≡ some p = rw g at e in
      elim (Option-cases (part_at k z b)) [
        | inl q ↦
            let r : All P (parts crc uuid k (suc z) bs) = rw q at h in
            parts-All P k (suc z) bs i p r o
        | inr (c, q) ↦
            let r : All P (c ∷ parts crc uuid k (suc z) bs) = rw q at h in
            parts-All P k (suc z) bs i p r.1 o
      ]

  -- The parts around one zone, whatever its block holds.
  pub parts-set :
      (k : SegmentKey) (z : ℕ) (bs : List (Option ZoneHeader)) (i : ℕ) (b : Option ZoneHeader)
      → i < length bs
      → parts crc uuid k z (set bs i b)
        ≡ parts crc uuid k z (take i bs)
          ++ with_part (part_at k (z + i) b) (parts crc uuid k (suc z + i) (drop (suc i) bs))
  unfolding parts
  parts-set k z [] i b h = absurd (omega arith)
  parts-set k z (c ∷ bs) zero b h =
      let g : z + 0 ≡ z = omega arith in let g' : suc z + 0 ≡ suc z = omega arith in rw (g, g') refl
  parts-set k z (c ∷ bs) (suc i) b h =
      let g : z + suc i ≡ suc z + i = omega arith in
      let g' : suc z + suc i ≡ suc (suc z) + i = omega arith in
      let ih = parts-set k (suc z) bs i b (omega arith) in
      elim (Option-cases (part_at k z c)) [
        | inl q ↦ rw (q, g, g') ih
        | inr (p, q) ↦ rw (q, g, g') (ap (λ (t : List Part). p ∷ t) ih)
      ]

  pub parts-set_top :
      (k : SegmentKey) (bs : List (Option ZoneHeader)) (i : ℕ) (b : Option ZoneHeader)
      → i < length bs
      → parts crc uuid k 0 (set bs i b)
        ≡ parts crc uuid k 0 (take i bs)
          ++ with_part (part_at k i b) (parts crc uuid k (suc i) (drop (suc i) bs))
  parts-set_top k bs i b h =
      let g : 0 + i ≡ i = omega arith in
      let g' : 1 + i ≡ suc i = omega arith in rw (g, g') at (parts-set k 0 bs i b h)

  pub parts-map_parts_top :
      (f : Part → Part) (k : SegmentKey) (bs cs : List (Option ZoneHeader))
      → length bs ≡ length cs
      → ((i : ℕ) → part_at k i (get_or cs i none) ≡ map_part f (part_at k i (get_or bs i none)))
      → parts crc uuid k 0 cs ≡ map_parts f (parts crc uuid k 0 bs)
  parts-map_parts_top f k bs cs h e =
      parts-map_parts f k 0 bs cs h (λ i. let g : 0 + i ≡ i = omega arith in rw g (e i))

  pub All-parts_top :
      (P : Part → Type 0) (k : SegmentKey) (bs : List (Option ZoneHeader))
      → ((i : ℕ) (p : Part) → part_at k i (get_or bs i none) ≡ some p → P p)
      → All P (parts crc uuid k 0 bs)
  All-parts_top P k bs e =
      All-parts P k 0 bs (λ i p. let g : 0 + i ≡ i = omega arith in rw g (e i p))

  pub parts-All_top :
      (P : Part → Type 0) (k : SegmentKey) (bs : List (Option ZoneHeader)) (i : ℕ) (p : Part)
      → All P (parts crc uuid k 0 bs)
      → part_at k i (get_or bs i none) ≡ some p
      → P p
  parts-All_top P k bs i p h e =
      let g : 0 + i ≡ i = omega arith in parts-All P k 0 bs i p h (rw g e)

  -- The same parts, where no block of a segment changes.
  pub parts-same :
      (k : SegmentKey) (bs cs : List (Option ZoneHeader))
      → length bs ≡ length cs
      → ((i : ℕ) → part_at k i (get_or cs i none) ≡ part_at k i (get_or bs i none))
      → parts crc uuid k 0 cs ≡ parts crc uuid k 0 bs
  unfolding map_parts
  parts-same k bs cs h e =
      parts-map_parts_top (λ p. p) k bs cs h
        (λ i. rw e (sym (map_part-id (part_at k i (get_or bs i none)))))
      ∙ map_parts-id (parts crc uuid k 0 bs)
    where
      map_part-id : (o : Option Part) → map_part (λ p. p) o ≡ o
      map_part-id none = refl
      map_part-id (some p) = refl

      map_parts-id : (ps : List Part) → map_parts (λ p. p) ps ≡ ps
      map_parts-id [] = refl
      map_parts-id (p ∷ ps) = ap (λ (t : List Part). p ∷ t) (map_parts-id ps)

  -- A block that tells nothing of `k`, written over another such block.
  pub part_at-set :
      (k : SegmentKey) (bs : List (Option ZoneHeader)) (z : ℕ) (b : Option ZoneHeader) (i : ℕ)
      → part_at k z b ≡ none
      → part_at k z (get_or bs z none) ≡ none
      → part_at k i (get_or (set bs z b) i none) ≡ part_at k i (get_or bs i none)
  part_at-set k bs z b i new old = elim (Bool-cases ((z == i) && ltb i (length bs))) [
    | inl e ↦
        let q : z ≡ i = ground arith in
        let g : get_or (set bs z b) i none ≡ b = rw e at (get_or-set bs z i b none) in
        rw g (subst (λ x. part_at k x b ≡ part_at k x (get_or bs x none)) q (new ∙ sym old))
    | inr e ↦
        let g : get_or (set bs z b) i none ≡ get_or bs i none =
          rw e at (get_or-set bs z i b none) in
        ap (part_at k i) g
  ]

  pub part_at-set_all :
      (k : SegmentKey) (bs : List (Option ZoneHeader)) (zs : List ℕ) (b : Option ZoneHeader) (i : ℕ)
      → part_at k i b ≡ none
      → (is_in i zs ≡ true → part_at k i (get_or bs i none) ≡ none)
      → part_at k i (get_or (set_all zs b bs) i none) ≡ part_at k i (get_or bs i none)
  part_at-set_all k bs zs b i new old = elim (Bool-cases (is_in i zs && ltb i (length bs))) [
    | inl e ↦
        let g : get_or (set_all zs b bs) i none ≡ b = rw e at (get_or-set_all zs bs i b none) in
        rw g (new ∙ sym (old (ground arith)))
    | inr e ↦
        let g : get_or (set_all zs b bs) i none ≡ get_or bs i none =
          rw e at (get_or-set_all zs bs i b none) in
        ap (part_at k i) g
  ]
