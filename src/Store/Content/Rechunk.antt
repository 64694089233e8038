-- ===== src/Store/Content/Rechunk.antt =====
-- Rechunking a file and hydrating it again gives the same bytes; the holes cost no chunk.
use lchfs.Common.{ℕ, ◌+◌, ◌-◌, ◌^◌, ◌≤◌, ◌<◌, ◌≡◌, refl, sym, ap, ◌∙◌, subst, true, false}
use lchfs.Common.{Option, some, List, [], ◌∷◌, ltb, leb, if◌then◌else◌, length, drop, replicate}
use lchfs.Common.{
  length-take, length-drop, length-replicate, arith, Bool-cases, Option-cases, inl, inr, ◌⊎◌,
}
use lchfs.Common.{Result, ok, err}
use lchfs.Common.Buffers.{
  byte, overlay, byte-overlay, byte-slice, byte-all_zero, byte-zeros, length-overlay, eq_of_bytes,
}
use lchfs.Format.Objects.{Hash, ChunkRef}
use lchfs.Chunk.{ChunkBoundary, boundaries}
use lchfs.Chunk.Tiling.{Tiles, IsCut, boundaries-Tiles}
use lchfs.Store.Content.Seek.{IsOrdered, IsWithin, Ordered-weaken}
use lchfs.Store.Content.{
  FileError, chunk_bytes, is_hole, rechunk_refs, rechunk, place_chunks, hydrate_chunks,
}

Result-cases :
    {A : Type 0} (r : Result FileError A) → ((a : A) × (r ≡ ok a)) ⊎ ((e : FileError) × (r ≡ err e))
Result-cases (ok a) = inl (a, refl)
Result-cases (err e) = inr (e, refl)

place_chunks-cons :
    (fetch : Hash → Option (List ℕ)) (c : ChunkRef) (cs : List ChunkRef) (bytes buf : List ℕ)
    → fetch c.content_hash ≡ some bytes
    → place_chunks fetch (c ∷ cs) buf ≡ place_chunks fetch cs (overlay c.logical_offset bytes buf)
unfolding place_chunks
place_chunks-cons fetch c cs bytes buf h = rw (h, place_chunks) refl

module _ (commit : List ℕ → Option Hash) (min_size : ℕ) (contents : List ℕ) where
  -- The buffer is the contents below `lo`, zeros from there on.
  abbrev Filled : ℕ → List ℕ → Type 0
  Filled lo buf =
      (length buf ≡ length contents)
      × ((p : ℕ) → p < length contents → byte buf p ≡ (if ltb p lo then byte contents p else 0))

  abbrev bytes_of : ChunkBoundary → List ℕ
  bytes_of b = chunk_bytes commit min_size contents b

  length-chunk_bytes :
      (b : ChunkBoundary) → b.offset + b.len ≤ length contents → length (bytes_of b) ≡ b.len
  length-chunk_bytes b h = omega (
    arith,
    length-take (b.offset + b.len - b.offset) (drop b.offset contents),
    length-drop b.offset contents,
  )

  Filled-hole :
      (b : ChunkBoundary) (buf : List ℕ)
      → is_hole commit min_size contents b ≡ true
      → Filled b.offset buf
      → Filled (b.offset + b.len) buf
  Filled-hole b buf hole (len, fill) = (
    len,
    λ p h. ground (
      arith,
      fill p h,
      byte-slice b.offset (b.offset + b.len) contents (p - b.offset),
      byte-all_zero (bytes_of b) (p - b.offset),
      ap (byte contents) (restore b.offset p),
    ),
  )
    where
      restore : (o p : ℕ) → o + (p - o) ≡ (if leb o p then p else o)
      restore o p = ground arith

  Filled-chunk :
      (b : ChunkBoundary) (buf : List ℕ)
      → b.offset + b.len ≤ length contents
      → Filled b.offset buf
      → Filled (b.offset + b.len) (overlay b.offset (bytes_of b) buf)
  Filled-chunk b buf inside (len, fill) = (
    length-overlay b.offset (bytes_of b) buf ∙ len,
    λ p h. ground (
      arith,
      fill p h,
      byte-overlay b.offset (bytes_of b) buf p,
      length-chunk_bytes b inside,
      byte-slice b.offset (b.offset + b.len) contents (p - b.offset),
      ap (byte contents) (restore b.offset p),
    ),
  )
    where
      restore : (o p : ℕ) → o + (p - o) ≡ (if leb o p then p else o)
      restore o p = ground arith

  Filled-all : (buf : List ℕ) → Filled (length contents) buf → buf ≡ contents
  Filled-all buf (len, fill) =
      eq_of_bytes buf contents len (λ i h. ground (arith, fill i (rw (← len) h)))

  Tiles-le : (lo hi : ℕ) (bs : List ChunkBoundary) → Tiles lo hi bs → lo ≤ hi
  Tiles-le lo hi [] t = omega arith
  Tiles-le lo hi (b ∷ bs) (_, (_, t)) = omega (arith, Tiles-le (lo + b.len) hi bs t)

  abbrev rechunked : List ChunkBoundary → Result FileError (List ChunkRef)
  rechunked = rechunk_refs commit min_size contents

  abbrev ref_of : Hash → ChunkBoundary → ChunkRef
  ref_of hash b = record { content_hash = hash; logical_offset = b.offset; len = b.len }

  rechunked-hole :
      (b : ChunkBoundary) (bs : List ChunkBoundary)
      → is_hole commit min_size contents b ≡ true
      → rechunked (b ∷ bs) ≡ rechunked bs
  unfolding rechunk_refs
  rechunked-hole b bs hole = rw (hole, rechunk_refs) refl

  -- What a boundary that is no hole gives, if the whole list gives anything.
  rechunked-chunk :
      (b : ChunkBoundary) (bs : List ChunkBoundary) (refs : List ChunkRef)
      → is_hole commit min_size contents b ≡ false
      → rechunked (b ∷ bs) ≡ ok refs
      → (hash : Hash) × ((rest : List ChunkRef) × ((commit (bytes_of b) ≡ some hash)
            × ((rechunked bs ≡ ok rest) × (refs ≡ ref_of hash b ∷ rest))))
  unfolding rechunk_refs
  rechunked-chunk b bs refs solid done = elim (Option-cases (commit (bytes_of b))) [
    | inl failed ↦ absurd (ground arith)
    | inr (hash, stored) ↦ elim (Result-cases (rechunked bs)) [
      | inl (rest, e) ↦ (hash, (rest, (stored, (e, ground arith))))
      | inr (x, e) ↦ absurd (ground arith)
    ]
  ]

  place-rechunked :
      (fetch : Hash → Option (List ℕ))
      → ((bytes : List ℕ) (hash : Hash) → commit bytes ≡ some hash → fetch hash ≡ some bytes)
      → (lo : ℕ) (bs : List ChunkBoundary) (buf : List ℕ) (refs : List ChunkRef)
      → Tiles lo (length contents) bs
      → Filled lo buf
      → rechunked bs ≡ ok refs
      → place_chunks fetch refs buf ≡ ok contents
  place-rechunked fetch stores lo [] buf refs t fill done =
      let nothing : refs ≡ [] = unfold rechunk_refs in ground arith in
      let whole : buf ≡ contents = Filled-all buf (subst (λ x. Filled x buf) t fill) in
      rw (nothing, whole) (unfold place_chunks in refl)
  place-rechunked fetch stores lo (b ∷ bs) buf refs (here, (some_byte, t)) fill done =
      let inside : b.offset + b.len ≤ length contents =
        omega (arith, Tiles-le (lo + b.len) (length contents) bs t) in
      let fill_here : Filled b.offset buf = rw here fill in
      let t_here : Tiles (b.offset + b.len) (length contents) bs = rw here t in
      elim (Bool-cases (is_hole commit min_size contents b)) [
        | inl hole ↦
            place-rechunked fetch stores (b.offset + b.len) bs buf refs t_here
              (Filled-hole b buf hole fill_here) (sym (rechunked-hole b bs hole) ∙ done)
        | inr solid ↦
            place_rest
              (λ rest.
                place-rechunked fetch stores (b.offset + b.len) bs
                  (overlay b.offset (bytes_of b) buf) rest t_here
                  (Filled-chunk b buf inside fill_here))
              (rechunked-chunk b bs refs solid done)
      ]
    where
      place_rest :
          ((rest : List ChunkRef)
            → rechunked bs ≡ ok rest
            → place_chunks fetch rest (overlay b.offset (bytes_of b) buf) ≡ ok contents)
          → (hash : Hash) × ((rest : List ChunkRef) × ((commit (bytes_of b) ≡ some hash)
                × ((rechunked bs ≡ ok rest) × (refs ≡ ref_of hash b ∷ rest))))
          → place_chunks fetch refs buf ≡ ok contents
      place_rest again (hash, (rest, (stored, (more, e)))) =
          rw
            (
              e,
              place_chunks-cons fetch (ref_of hash b) rest (bytes_of b) buf
                  (stores (bytes_of b) hash stored),
            )
            (again rest more)

  -- The chunks stand in order within the file and none is empty.
  rechunked-IsOrdered :
      (lo : ℕ) (bs : List ChunkBoundary) (refs : List ChunkRef)
      → length contents < 2 ^ 64
      → Tiles lo (length contents) bs
      → rechunked bs ≡ ok refs
      → IsOrdered lo refs × IsWithin (length contents) refs
  rechunked-IsOrdered lo [] refs small t done =
      let nothing : refs ≡ [] = unfold rechunk_refs in ground arith in rw nothing (tt, tt)
  rechunked-IsOrdered lo (b ∷ bs) refs small (here, (some_byte, t)) done =
      let inside : b.offset + b.len ≤ length contents =
        omega (arith, Tiles-le (lo + b.len) (length contents) bs t) in
      let t_here : Tiles (b.offset + b.len) (length contents) bs = rw here t in
      elim (Bool-cases (is_hole commit min_size contents b)) [
        | inl hole ↦
            let (o, w) =
              rechunked-IsOrdered (b.offset + b.len) bs refs small t_here
                (sym (rechunked-hole b bs hole) ∙ done) in
            (Ordered-weaken (b.offset + b.len) lo refs o (omega arith), w)
        | inr solid ↦
            order_rest inside (λ rest. rechunked-IsOrdered (b.offset + b.len) bs rest small t_here)
              (rechunked-chunk b bs refs solid done)
      ]
    where
      order_rest :
          b.offset + b.len ≤ length contents
          → ((rest : List ChunkRef)
              → rechunked bs ≡ ok rest
              → IsOrdered (b.offset + b.len) rest × IsWithin (length contents) rest)
          → (hash : Hash) × ((rest : List ChunkRef) × ((commit (bytes_of b) ≡ some hash)
                × ((rechunked bs ≡ ok rest) × (refs ≡ ref_of hash b ∷ rest))))
          → IsOrdered lo refs × IsWithin (length contents) refs
      order_rest inside again (hash, (rest, (stored, (more, e)))) =
          let (o, w) = again rest more in
          rw e ((omega arith, (some_byte, (omega arith, o))), (inside, w))

-- For a greatest chunk size above 0 and below 4 GiB and a cut point within the buffer, hydrating the
-- chunks of a file that is not stored inline gives its contents back, if the chunk
-- store fetches what it committed: the zeros that were left out as holes are there again.
pub hydrate-rechunk :
    (commit : List ℕ → Option Hash) (fetch : Hash → Option (List ℕ)) (cut : ℕ → ℕ → ℕ → List ℕ → ℕ)
    (inline_threshold avg_size min_size max_size : ℕ) (contents : List ℕ) (refs : List ChunkRef)
    → ((bytes : List ℕ) (hash : Hash) → commit bytes ≡ some hash → fetch hash ≡ some bytes)
    → IsCut cut
    → 0 < max_size
    → max_size < 2 ^ 32
    → inline_threshold < length contents
    → rechunk commit cut inline_threshold avg_size min_size max_size contents ≡ ok refs
    → hydrate_chunks fetch refs (length contents) ≡ ok contents
unfolding rechunk hydrate_chunks
hydrate-rechunk commit fetch cut threshold avg min_size max_size contents refs stores is_cut
      positive small big done =
    place-rechunked commit min_size contents fetch stores 0
      (boundaries cut avg min_size max_size contents) (replicate (length contents) 0) refs
      (boundaries-Tiles cut is_cut avg min_size max_size contents positive small)
      (length-replicate (length contents) _, λ p h. ground (arith, byte-zeros (length contents) p))
      (ground arith)

-- For such a chunk size and cut point, the chunks of a rechunked file of less than 2 ^ 64 bytes are in order, not empty, without overlap and within its size.
pub rechunk-IsOrdered :
    (commit : List ℕ → Option Hash) (cut : ℕ → ℕ → ℕ → List ℕ → ℕ)
    (inline_threshold avg_size min_size max_size : ℕ) (contents : List ℕ) (refs : List ChunkRef)
    → IsCut cut
    → 0 < max_size
    → max_size < 2 ^ 32
    → length contents < 2 ^ 64
    → rechunk commit cut inline_threshold avg_size min_size max_size contents ≡ ok refs
    → IsOrdered 0 refs × IsWithin (length contents) refs
unfolding rechunk
rechunk-IsOrdered commit cut threshold avg min_size max_size contents refs is_cut positive small
      fits done =
    elim (Bool-cases (leb (length contents) threshold)) [
      | inl inline ↦ let nothing : refs ≡ [] = ground arith in rw nothing (tt, tt)
      | inr big ↦
          rechunked-IsOrdered commit min_size contents 0
            (boundaries cut avg min_size max_size contents) refs fits
            (boundaries-Tiles cut is_cut avg min_size max_size contents positive small)
            (ground arith)
    ]
