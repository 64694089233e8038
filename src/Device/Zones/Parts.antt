-- ===== src/Device/Zones/Parts.antt =====
-- The parts of a segment under the writes of a zone's header (crates/lchfs-device/src/lib.rs): how
-- claiming a zone, marking zones and renewing the first header change what a scan sorts.
use lchfs.Common.{
  ℕ, suc, ◌+◌, ◌<◌, ◌≡◌, refl, sym, ap, subst, arith, true, length, length-append, append_assoc,
  append_nil, All, inl, inr, ◌≢◌,
}
use lchfs.Common.{List, [], ◌∷◌, ◌++◌, Bool-cases}
use lchfs.Device.Zones.{
  SegmentKind, data_kind, meta, delta, stripe_shard, kind_eq, SegmentKey, key_eq, Part, part_leb,
  insert_part, sort_parts, Adopted, adopt_part, adopt, nothing_adopted,
}

pub kind_eq_refl : (a : SegmentKind) → kind_eq a a ≡ true
unfolding kind_eq
kind_eq_refl data_kind = refl
kind_eq_refl meta = refl
kind_eq_refl (delta a) = ground arith
kind_eq_refl (stripe_shard a) = ground arith

pub kind_eq→eq : (a b : SegmentKind) → kind_eq a b ≡ true → a ≡ b
unfolding kind_eq
kind_eq→eq data_kind data_kind h = refl
kind_eq→eq meta meta h = refl
kind_eq→eq (delta a) (delta b) h = let e : a ≡ b = ground arith in ap delta e
kind_eq→eq (stripe_shard a) (stripe_shard b) h = let e : a ≡ b = ground arith in ap stripe_shard e
kind_eq→eq data_kind meta h = absurd (ground arith)
kind_eq→eq data_kind (delta b) h = absurd (ground arith)
kind_eq→eq data_kind (stripe_shard b) h = absurd (ground arith)
kind_eq→eq meta data_kind h = absurd (ground arith)
kind_eq→eq meta (delta b) h = absurd (ground arith)
kind_eq→eq meta (stripe_shard b) h = absurd (ground arith)
kind_eq→eq (delta a) data_kind h = absurd (ground arith)
kind_eq→eq (delta a) meta h = absurd (ground arith)
kind_eq→eq (delta a) (stripe_shard b) h = absurd (ground arith)
kind_eq→eq (stripe_shard a) data_kind h = absurd (ground arith)
kind_eq→eq (stripe_shard a) meta h = absurd (ground arith)
kind_eq→eq (stripe_shard a) (delta b) h = absurd (ground arith)

pub key_eq_refl : (k : SegmentKey) → key_eq k k ≡ true
key_eq_refl k = ground (arith, kind_eq_refl k.kind)

pub key_eq→eq : (a b : SegmentKey) → key_eq a b ≡ true → a ≡ b
key_eq→eq a b h =
    let e : a.kind ≡ b.kind = kind_eq→eq a.kind b.kind (ground arith) in
    let f : a.id ≡ b.id = ground arith in cc

-- Sorting and adopting.
-- The parts of a healthy segment in order: the written length stands with the first zone.
unfoldable pub numbered : ℕ → ℕ → List ℕ → List Part
numbered n len [] = []
numbered n len (z ∷ zs) =
    record { ordinal = n; zone = z; written_len = len } ∷ numbered (suc n) 0 zs

pub numbered-append :
    (n len z : ℕ) (zs : List ℕ)
    → zs ≢ []
    → numbered n len (zs ++ (z ∷ []))
      ≡ numbered n len zs ++ (record { ordinal = n + length zs; zone = z; written_len = 0 } ∷ [])
unfolding numbered
numbered-append n len z [] h = absurd (h refl)
numbered-append n len z (y ∷ []) h = let e : n + 1 ≡ suc n = omega arith in rw e refl
numbered-append n len z (y ∷ x ∷ zs) h =
    let e : n + suc (suc (length zs)) ≡ suc n + suc (length zs) = omega arith in
    rw (e, numbered-append (suc n) 0 z (x ∷ zs) (λ q. ground arith)) refl

pub insert-last :
    (p q : Part) (ps : List Part)
    → part_leb p q ≡ true
    → insert_part p (ps ++ (q ∷ [])) ≡ insert_part p ps ++ (q ∷ [])
unfolding insert_part
insert-last p q [] h = ground arith
insert-last p q (r ∷ ps) h = ground (arith, insert-last p q ps h)

abbrev pub IsBelow : ℕ → Part → Type 0
IsBelow n p = p.ordinal < n

pub insert_largest :
    (p : Part) (ps : List Part) → All (IsBelow p.ordinal) ps → insert_part p ps ≡ ps ++ (p ∷ [])
unfolding insert_part
insert_largest p [] h = refl
insert_largest p (q ∷ ps) h = ground (arith, insert_largest p ps h.1)

pub sort_largest :
    (p : Part) (xs ys : List Part)
    → All (IsBelow p.ordinal) xs
    → All (IsBelow p.ordinal) (sort_parts ys)
    → sort_parts (xs ++ (p ∷ ys)) ≡ sort_parts (xs ++ ys) ++ (p ∷ [])
unfolding sort_parts
sort_largest p [] ys h k = insert_largest p (sort_parts ys) k
sort_largest p (x ∷ xs) ys h k =
    rw (sort_largest p xs ys h.1 k) (insert-last x p (sort_parts (xs ++ ys)) (ground arith))

module _ (P : Part → Type 0) where
  pub All-insert_part : (p : Part) (ps : List Part) → P p → All P ps → All P (insert_part p ps)
  unfolding insert_part
  All-insert_part p [] hp h = (hp, h)
  All-insert_part p (q ∷ ps) hp h = elim (Bool-cases (part_leb p q)) [
    | inl e ↦ rw e (hp, h)
    | inr e ↦ rw e (h.0, All-insert_part p ps hp h.1)
  ]

  pub All-of_insert_part : (p : Part) (ps : List Part) → All P (insert_part p ps) → P p × All P ps
  unfolding insert_part
  All-of_insert_part p [] h = h
  All-of_insert_part p (q ∷ ps) h = elim (Bool-cases (part_leb p q)) [
    | inl e ↦ let g : All P (p ∷ q ∷ ps) = rw e at h in g
    | inr e ↦
        let g : All P (q ∷ insert_part p ps) = rw e at h in
        let r = All-of_insert_part p ps g.1 in (r.0, (g.0, r.1))
  ]

  pub All-sort_parts : (ps : List Part) → All P ps → All P (sort_parts ps)
  unfolding sort_parts
  All-sort_parts [] h = h
  All-sort_parts (p ∷ ps) h = All-insert_part p (sort_parts ps) h.0 (All-sort_parts ps h.1)

  pub All-of_sort_parts : (ps : List Part) → All P (sort_parts ps) → All P ps
  unfolding sort_parts
  All-of_sort_parts [] h = h
  All-of_sort_parts (p ∷ ps) h =
      let r = All-of_insert_part p (sort_parts ps) h in (r.0, All-of_sort_parts ps r.1)

  pub All-append_left : (xs ys : List Part) → All P (xs ++ ys) → All P xs × All P ys
  All-append_left [] ys h = (tt, h)
  All-append_left (x ∷ xs) ys h = let r = All-append_left xs ys h.1 in ((h.0, r.0), r.1)

-- Adopting parts that are numbered takes all of them, in order.
pub adopt-numbered_rest :
    (zs : List ℕ) (a : Adopted) (n len : ℕ)
    → suc n ≡ length a.list
    → adopt (numbered (suc n) len zs) a ≡ record a { list = a.list ++ zs }
unfolding numbered adopt
adopt-numbered_rest [] a n len h = let e : a.list ++ [] ≡ a.list = append_nil a.list in rw e refl
adopt-numbered_rest (z ∷ zs) a n len h =
    let e : adopt_part (record { ordinal = suc n; zone = z; written_len = len }) a
        ≡ record a { list = a.list ++ (z ∷ []) } =
      ground arith in
    let f : (a.list ++ (z ∷ [])) ++ zs ≡ a.list ++ (z ∷ zs) = append_assoc a.list (z ∷ []) zs in
    subst (λ b. adopt (numbered (suc (suc n)) 0 zs) b ≡ record a { list = a.list ++ (z ∷ zs) })
      (sym e)
      (rw (sym f) (
        adopt-numbered_rest zs (record a { list = a.list ++ (z ∷ []) }) (suc n) 0
          (omega (arith, length-append a.list (z ∷ [])))))

pub adopt-numbered :
    (z : ℕ) (zs : List ℕ) (len : ℕ)
    → adopt (numbered 0 len (z ∷ zs)) nothing_adopted
      ≡ record { list = z ∷ zs; written = len; orphans = [] }
unfolding numbered adopt
adopt-numbered z zs len =
    adopt-numbered_rest zs (record { list = z ∷ []; written = len; orphans = [] }) 0 0 refl

-- Without a part of ordinal 0 nothing is adopted.
pub adopt-no_first :
    (ps : List Part) (a : Adopted)
    → All (λ p. p.ordinal ≢ 0) ps
    → a.list ≡ []
    → (adopt ps a).list ≡ []
unfolding adopt
adopt-no_first [] a h e = e
adopt-no_first (p ∷ ps) a h e = adopt-no_first ps (adopt_part p a) h.1 (ground (arith, ap length e))

unfoldable pub map_parts : (Part → Part) → List Part → List Part
map_parts f [] = []
map_parts f (p ∷ ps) = f p ∷ map_parts f ps

-- A change of the parts that keeps their order commutes with the sort.
module _ (f : Part → Part) (same : (a b : Part) → part_leb (f a) (f b) ≡ part_leb a b) where
  pub insert_part-map_parts :
      (p : Part) (ps : List Part)
      → insert_part (f p) (map_parts f ps) ≡ map_parts f (insert_part p ps)
  unfolding insert_part map_parts
  insert_part-map_parts p [] = refl
  insert_part-map_parts p (q ∷ ps) = ground (arith, same p q, insert_part-map_parts p ps)

  pub sort_parts-map_parts :
      (ps : List Part) → sort_parts (map_parts f ps) ≡ map_parts f (sort_parts ps)
  unfolding sort_parts map_parts
  sort_parts-map_parts [] = refl
  sort_parts-map_parts (p ∷ ps) =
      rw (sort_parts-map_parts ps) (insert_part-map_parts p (sort_parts ps))
