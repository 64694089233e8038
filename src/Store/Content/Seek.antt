-- ===== src/Store/Content/Seek.antt =====
-- `SEEK_DATA` and `SEEK_HOLE` answer from the extents: what their result says of a file's chunks.
use lchfs.Common.{
  ℕ, suc, ◌+◌, ◌-◌, ◌^◌, ◌≤◌, ◌<◌, ◌≡◌, refl, sym, ◌∙◌, subst, Bool, true, false, ◌&&◌, ◌||◌,
}
use lchfs.Common.{
  List, [], ◌∷◌, Option, none, some, ltb, leb, if◌then◌else◌, drop, arith, inl, inr, Bool-cases,
}
use lchfs.Format.Objects.{ChunkRef}
use lchfs.Store.Content.{chunk_end, partition_point, tail_at, seek_data, seek_hole}
use lchfs.Store.Content.{seek_data_in, seek_hole_in, seek_in_chunks}

-- The chunks stand in order, none overlaps the next, none is empty, and none ends behind 2 ^ 64.
abbrev pub IsOrdered : ℕ → List ChunkRef → Type 0
IsOrdered lo [] = Unit
IsOrdered lo (c ∷ cs) =
    (lo ≤ c.logical_offset)
    × ((0 < c.len)
        × ((c.logical_offset + c.len < 2 ^ 64) × IsOrdered (c.logical_offset + c.len) cs))

-- Does a chunk hold this position?
abbrev pub covered : ℕ → List ChunkRef → Bool
covered p [] = false
covered p (c ∷ cs) = (leb c.logical_offset p && ltb p (c.logical_offset + c.len)) || covered p cs

covered-before : (p lo : ℕ) (cs : List ChunkRef) → IsOrdered lo cs → p < lo → covered p cs ≡ false
covered-before p lo [] o h = refl
covered-before p lo (c ∷ cs) o h =
    ground (arith, covered-before p (c.logical_offset + c.len) cs o.1.1.1, o.0)

pub Ordered-weaken :
    (lo lo' : ℕ) (cs : List ChunkRef) → IsOrdered lo cs → lo' ≤ lo → IsOrdered lo' cs
Ordered-weaken lo lo' [] o h = tt
Ordered-weaken lo lo' (c ∷ cs) (a, rest) h = (omega arith, rest)

-- What `partition_point` skips: the chunks that start at or before the position, all but the last.
pub tail_at-start :
    (offset : ℕ) (c d : ChunkRef) (cs : List ChunkRef)
    → leb c.logical_offset offset ≡ true
    → leb d.logical_offset offset ≡ true
    → tail_at offset (c ∷ d ∷ cs) ≡ tail_at offset (d ∷ cs)
unfolding partition_point
tail_at-start offset c d cs h k = rw (h, k) (drop_two (partition_point offset cs))
  where
    drop_two : (n : ℕ) → drop (suc (suc n) - 1) (c ∷ d ∷ cs) ≡ drop (suc n - 1) (d ∷ cs)
    drop_two n = let e : suc (suc n) - 1 ≡ suc (suc n - 1) = omega arith in rw e refl

pub tail_at-stop :
    (offset : ℕ) (c : ChunkRef) (cs : List ChunkRef)
    → partition_point offset cs ≡ 0
    → tail_at offset (c ∷ cs) ≡ c ∷ cs
unfolding partition_point
tail_at-stop offset c cs h = elim (Bool-cases (leb c.logical_offset offset)) [
  | inl e ↦ rw (e, h) refl
  | inr e ↦ rw e refl
]

-- Dropping the chunks that end at or before the position of a search loses nothing at or behind it.
pub covered-tail_at :
    (offset p lo : ℕ) (cs : List ChunkRef)
    → IsOrdered lo cs
    → offset ≤ p
    → covered p (tail_at offset cs) ≡ covered p cs
covered-tail_at offset p lo [] o h = unfold partition_point in refl
covered-tail_at offset p lo (c ∷ []) o h =
    rw (tail_at-stop offset c [] (unfold partition_point in refl)) refl
covered-tail_at offset p lo (c ∷ d ∷ cs) o h = elim (Bool-cases (leb d.logical_offset offset)) [
  | inl more ↦
      let first : leb c.logical_offset offset ≡ true = ground (arith, o.0) in
      rw
        (
          tail_at-start offset c d cs first more,
          covered-tail_at offset p (c.logical_offset + c.len) (d ∷ cs) o.1.1.1 h,
        )
        (ground arith)
  | inr stop ↦ rw (tail_at-stop offset c (d ∷ cs) (unfold partition_point in rw stop refl)) refl
]

pub IsOrdered-tail_at :
    (offset lo : ℕ) (cs : List ChunkRef) → IsOrdered lo cs → IsOrdered lo (tail_at offset cs)
IsOrdered-tail_at offset lo [] o = unfold partition_point in tt
IsOrdered-tail_at offset lo (c ∷ []) o =
    rw (tail_at-stop offset c [] (unfold partition_point in refl)) o
IsOrdered-tail_at offset lo (c ∷ d ∷ cs) o = elim (Bool-cases (leb d.logical_offset offset)) [
  | inl more ↦
      let first : leb c.logical_offset offset ≡ true = ground (arith, o.0) in
      rw (tail_at-start offset c d cs first more) (
        Ordered-weaken (c.logical_offset + c.len) lo (tail_at offset (d ∷ cs))
          (IsOrdered-tail_at offset (c.logical_offset + c.len) (d ∷ cs) o.1.1.1)
          (omega (arith, o.0)))
  | inr stop ↦ rw (tail_at-stop offset c (d ∷ cs) (unfold partition_point in rw stop refl)) o
]

pub chunk_end-ordered :
    (c : ChunkRef) → c.logical_offset + c.len < 2 ^ 64 → chunk_end c ≡ c.logical_offset + c.len
chunk_end-ordered c h = omega arith

-- What a data search says: the least covered position at or behind the offset, or that none is.
abbrev pub Answers : List ChunkRef → ℕ → Option ℕ → Type 0
Answers cs offset none = (p : ℕ) → offset ≤ p → covered p cs ≡ false
Answers cs offset (some r) =
    (offset ≤ r) × ((covered r cs ≡ true) × ((p : ℕ) → offset ≤ p → p < r → covered p cs ≡ false))

-- Every chunk ends within the file.
abbrev pub IsWithin : ℕ → List ChunkRef → Type 0
IsWithin size [] = Unit
IsWithin size (c ∷ cs) = (c.logical_offset + c.len ≤ size) × IsWithin size cs

IsWithin-tail_at :
    (offset size lo : ℕ) (cs : List ChunkRef)
    → IsOrdered lo cs
    → IsWithin size cs
    → IsWithin size (tail_at offset cs)
IsWithin-tail_at offset size lo [] o w = unfold partition_point in tt
IsWithin-tail_at offset size lo (c ∷ []) o w =
    rw (tail_at-stop offset c [] (unfold partition_point in refl)) w
IsWithin-tail_at offset size lo (c ∷ d ∷ cs) o w = elim (Bool-cases (leb d.logical_offset offset)) [
  | inl more ↦
      let first : leb c.logical_offset offset ≡ true = ground (arith, o.0) in
      rw (tail_at-start offset c d cs first more)
        (IsWithin-tail_at offset size (c.logical_offset + c.len) (d ∷ cs) o.1.1.1 w.1)
  | inr stop ↦ rw (tail_at-stop offset c (d ∷ cs) (unfold partition_point in rw stop refl)) w
]

seek_data_in-Answers :
    (cs : List ChunkRef) (size offset lo : ℕ)
    → IsOrdered lo cs
    → IsWithin size cs
    → Answers cs offset (seek_data_in cs size offset)
unfolding seek_data_in
seek_data_in-Answers [] size offset lo o w = λ p h. refl
seek_data_in-Answers (c ∷ cs) size offset lo (a, (nonempty, (top, rest))) (w, ws) =
    let ends = chunk_end-ordered c top in
    let ih = seek_data_in-Answers cs size offset (c.logical_offset + c.len) rest ws in
    elim (Bool-cases (leb (chunk_end c) offset)) [
      | inl past ↦ rw past (answers_later (seek_data_in cs size offset) past ih)
      | inr here ↦ rw here (
        ground arith,
        (
          ground arith,
          λ p h k. ground (arith, covered-before p (c.logical_offset + c.len) cs rest),
        ),
      )
    ]
  where
    answers_later :
        (r : Option ℕ)
        → leb (chunk_end c) offset ≡ true
        → Answers cs offset r
        → Answers (c ∷ cs) offset r
    answers_later none past later = λ p h. ground (arith, later p h)
    answers_later (some r) past (h, (k, l)) = (h, (ground arith, λ p i j. ground (arith, l p i j)))

seek_hole_in-cons :
    (c : ChunkRef) (cs : List ChunkRef) (size cur : ℕ)
    → seek_hole_in (c ∷ cs) size cur ≡ (
        if leb (chunk_end c) cur
        then seek_hole_in cs size cur
        else if ltb cur c.logical_offset
        then cur
        else seek_hole_in cs size (chunk_end c))
unfolding seek_hole_in
seek_hole_in-cons c cs size cur = ground arith

-- The least position at or behind `cur` that no chunk covers.
abbrev pub LeastHole : List ChunkRef → ℕ → ℕ → Type 0
LeastHole cs cur r =
    (cur ≤ r) × ((covered r cs ≡ false) × ((p : ℕ) → cur ≤ p → p < r → covered p cs ≡ true))

seek_hole_in-least :
    (cs : List ChunkRef) (size cur lo : ℕ)
    → IsOrdered lo cs
    → IsWithin size cs
    → cur ≤ size
    → LeastHole cs cur (seek_hole_in cs size cur)
seek_hole_in-least [] size cur lo o w h =
    unfold seek_hole_in in (omega arith, (refl, λ p i j. absurd (omega arith)))
seek_hole_in-least (c ∷ cs) size cur lo (a, (nonempty, (top, rest))) (w, ws) h =
    let next = c.logical_offset + c.len in
    let ends = chunk_end-ordered c top in
    elim (Bool-cases (leb (chunk_end c) cur)) [
      | inl past ↦
          let (i, (j, k)) = seek_hole_in-least cs size cur next rest ws h in
          let step : seek_hole_in (c ∷ cs) size cur ≡ seek_hole_in cs size cur =
            rw (seek_hole_in-cons c cs size cur, past) refl in
          subst (LeastHole (c ∷ cs) cur) (sym step)
            (i, (ground arith, λ p l m. ground (arith, k p l m)))
      | inr inside ↦ elim (Bool-cases (ltb cur c.logical_offset)) [
        | inl before ↦
            let step : seek_hole_in (c ∷ cs) size cur ≡ cur =
              rw (seek_hole_in-cons c cs size cur, inside, before) refl in
            subst (LeastHole (c ∷ cs) cur) (sym step) (
              omega arith,
              (ground (arith, covered-before cur next cs rest), λ p l m. absurd (omega arith)),
            )
        | inr within ↦
            let (i, (j, k)) = seek_hole_in-least cs size (chunk_end c) next rest ws (omega arith) in
            let step : seek_hole_in (c ∷ cs) size cur ≡ seek_hole_in cs size (chunk_end c) =
              rw (seek_hole_in-cons c cs size cur, inside, within) refl in
            subst (LeastHole (c ∷ cs) cur) (sym step) (
              ground arith,
              (
                ground arith,
                λ p l m. elim (Bool-cases (ltb p next)) [
                  | inl here ↦ ground arith
                  | inr later ↦ ground (arith, k p)
                ],
              ),
            )
      ]
    ]

-- In a file whose chunks are in order and within its size, `SEEK_DATA` gives the least position at
-- or behind the offset that a chunk covers, and nothing if there is none.
pub seek_in_chunks-data :
    (cs : List ChunkRef) (size offset : ℕ)
    → IsOrdered 0 cs
    → IsWithin size cs
    → Answers cs offset (seek_in_chunks cs size offset seek_data)
unfolding seek_in_chunks
seek_in_chunks-data cs size offset o w = transfer (seek_data_in (tail_at offset cs) size offset) (
    seek_data_in-Answers (tail_at offset cs) size offset 0 (IsOrdered-tail_at offset 0 cs o)
      (IsWithin-tail_at offset size 0 cs o w))
  where
    transfer : (r : Option ℕ) → Answers (tail_at offset cs) offset r → Answers cs offset r
    transfer none a = λ p h. sym (covered-tail_at offset p 0 cs o h) ∙ a p h
    transfer (some r) (h, (k, l)) = (
      h,
      (
        sym (covered-tail_at offset r 0 cs o h) ∙ k,
        λ p i j. sym (covered-tail_at offset p 0 cs o i) ∙ l p i j,
      ),
    )

-- In such a file, `SEEK_HOLE` from an offset within the size gives the least position at or behind
-- the offset that no chunk covers, the size itself if all of it is covered.
pub seek_in_chunks-hole :
    (cs : List ChunkRef) (size offset r : ℕ)
    → IsOrdered 0 cs
    → IsWithin size cs
    → offset ≤ size
    → seek_in_chunks cs size offset seek_hole ≡ some r
    → LeastHole cs offset r
unfolding seek_in_chunks
seek_in_chunks-hole cs size offset r o w h e =
    let same : seek_hole_in (tail_at offset cs) size offset ≡ r = ground arith in
    let (i, (j, k)) =
      seek_hole_in-least (tail_at offset cs) size offset 0 (IsOrdered-tail_at offset 0 cs o)
        (IsWithin-tail_at offset size 0 cs o w) h in
    rw (← same) (
      i,
      (
        sym (covered-tail_at offset _ 0 cs o i) ∙ j,
        λ p l m. sym (covered-tail_at offset p 0 cs o l) ∙ k p l m,
      ),
    )
