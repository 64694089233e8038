-- ===== src/Chunk/Tiling.antt =====
-- The boundaries of a whole buffer follow one another and cover it.
use lchfs.Common.{ℕ, zero, suc, ◌+◌, ◌%◌, ◌^◌, ◌≤◌, ◌<◌, ◌≡◌, refl, subst, true, false}
use lchfs.Common.{Option, none, some, List, [], ◌∷◌, ◌++◌, leb, ◌==◌, length, drop, length-drop}
use lchfs.Common.{arith, ◌⊎◌, Bool-cases, inl, inr}
use lchfs.Chunk.{ChunkBoundary, FastCdcChunker, new_chunker, push_loop, push, finish, boundaries}

-- The boundaries start at `lo`, each where the one before it ends, none is empty, and the last
-- ends at `hi`.
abbrev pub Tiles : ℕ → ℕ → List ChunkBoundary → Type 0
Tiles lo hi [] = lo ≡ hi
Tiles lo hi (b ∷ bs) = (b.offset ≡ lo) × ((0 < b.len) × Tiles (lo + b.len) hi bs)

Tiles-append :
    (lo mid hi : ℕ) (bs cs : List ChunkBoundary)
    → Tiles lo mid bs
    → Tiles mid hi cs
    → Tiles lo hi (bs ++ cs)
Tiles-append lo mid hi [] cs t u = rw t u
Tiles-append lo mid hi (b ∷ bs) cs (e, (k, t)) u =
    (e, (k, Tiles-append (lo + b.len) mid hi bs cs t u))

-- What the `fastcdc` crate says of its cut point: it lies within the buffer, not above the
-- greatest chunk size, and a buffer that is not empty is cut behind its first byte at least, where
-- the greatest chunk size is above 0.
abbrev pub IsCut : (ℕ → ℕ → ℕ → List ℕ → ℕ) → Type 0
IsCut cut =
    (min_size avg_size max_size : ℕ) (buffer : List ℕ)
    → (cut min_size avg_size max_size buffer ≤ length buffer)
      × ((cut min_size avg_size max_size buffer ≤ max_size)
          × (0 < max_size → 0 < length buffer → 0 < cut min_size avg_size max_size buffer))

module _ (cut : ℕ → ℕ → ℕ → List ℕ → ℕ) (is_cut : IsCut cut) where
  -- The loop's boundaries end where the rest of the buffer starts, and nothing is lost.
  abbrev pub Advances : ℕ → List ChunkBoundary × FastCdcChunker → Type 0
  Advances end (out, c) =
      Tiles 0 c.base_offset out × ((c.base_offset + length c.buffer ≡ end) × (c.max_size < 2 ^ 32))

  push_loop-cons :
      (fuel : ℕ) (c : FastCdcChunker) (out : List ChunkBoundary)
      → leb c.max_size (length c.buffer) ≡ true
      → (cut c.min_size c.avg_size c.max_size c.buffer == 0) ≡ false
      → push_loop cut (suc fuel) c out
        ≡ push_loop cut fuel
            (record c {
              buffer = drop (cut c.min_size c.avg_size c.max_size c.buffer) c.buffer;
              base_offset = c.base_offset + cut c.min_size c.avg_size c.max_size c.buffer;
            })
            (out
              ++ (record {
                offset = c.base_offset;
                len = cut c.min_size c.avg_size c.max_size c.buffer % 2 ^ 32;
              }
                  ∷ []))
  unfolding push_loop
  push_loop-cons fuel c out full cuts = rw (full, cuts, push_loop) refl

  push_loop-stop :
      (fuel : ℕ) (c : FastCdcChunker) (out : List ChunkBoundary)
      → (leb c.max_size (length c.buffer) ≡ false)
        ⊎ ((cut c.min_size c.avg_size c.max_size c.buffer == 0) ≡ true)
      → push_loop cut (suc fuel) c out ≡ (out, c)
  unfolding push_loop
  push_loop-stop fuel c out (inl short) = rw (short, push_loop) refl
  push_loop-stop fuel c out (inr stuck) = elim (Bool-cases (leb c.max_size (length c.buffer))) [
    | inl full ↦ rw (full, stuck, push_loop) refl
    | inr short ↦ rw (short, push_loop) refl
  ]

  push_loop-Advances :
      (fuel end : ℕ) (c : FastCdcChunker) (out : List ChunkBoundary)
      → Advances end (out, c)
      → Advances end (push_loop cut fuel c out)
  push_loop-Advances zero end c out a = unfold push_loop in a
  push_loop-Advances (suc fuel) end c out (t, (e, small)) =
      elim (Bool-cases (leb c.max_size (length c.buffer))) [
        | inr short ↦ rw (push_loop-stop fuel c out (inl short)) (t, (e, small))
        | inl full ↦ elim (Bool-cases (cut c.min_size c.avg_size c.max_size c.buffer == 0)) [
          | inl stuck ↦ rw (push_loop-stop fuel c out (inr stuck)) (t, (e, small))
          | inr cuts ↦
              let n = cut c.min_size c.avg_size c.max_size c.buffer in
              let (in_buffer, (in_max, _)) = is_cut c.min_size c.avg_size c.max_size c.buffer in
              let whole : n % 2 ^ 32 ≡ n = omega arith in
              rw (push_loop-cons fuel c out full cuts, whole)
                (push_loop-Advances fuel end
                  (record c { buffer = drop n c.buffer; base_offset = c.base_offset + n })
                  (out ++ (record { offset = c.base_offset; len = n } ∷ []))
                  (
                    Tiles-append 0 c.base_offset (c.base_offset + n) out _ t
                        (refl, (ground arith, refl)),
                    (omega (arith, length-drop n c.buffer), small),
                  ))
        ]
      ]

  -- Enough fuel: the loop goes on until less than a greatest chunk is left.
  push_loop-drains :
      (fuel : ℕ) (c : FastCdcChunker) (out : List ChunkBoundary)
      → 0 < c.max_size
      → length c.buffer < fuel
      → length (push_loop cut fuel c out).1.buffer < (push_loop cut fuel c out).1.max_size
  push_loop-drains zero c out positive enough = absurd (omega arith)
  push_loop-drains (suc fuel) c out positive enough =
      elim (Bool-cases (leb c.max_size (length c.buffer))) [
        | inr short ↦ rw (push_loop-stop fuel c out (inl short)) (ground arith)
        | inl full ↦
            let n = cut c.min_size c.avg_size c.max_size c.buffer in
            let some_byte : 0 < length c.buffer = ground arith in
            let moves : 0 < n =
              (is_cut c.min_size c.avg_size c.max_size c.buffer).1.1 positive some_byte in
            let cuts : (n == 0) ≡ false = ground arith in
            rw (push_loop-cons fuel c out full cuts) (
              push_loop-drains fuel
                (record c { buffer = drop n c.buffer; base_offset = c.base_offset + n })
                (out ++ (record { offset = c.base_offset; len = n % 2 ^ 32 } ∷ [])) positive
                (omega (arith, length-drop n c.buffer)))
      ]

  finish-nothing : (c : FastCdcChunker) → length c.buffer ≡ 0 → (finish c).0 ≡ none
  unfolding finish
  finish-nothing c h = by_buffer c.buffer refl
    where
      by_buffer : (buffer : List ℕ) → c.buffer ≡ buffer → (finish c).0 ≡ none
      by_buffer [] e = rw (e, finish) refl
      by_buffer (x ∷ xs) e = absurd (ground arith)

  finish-rest :
      (c : FastCdcChunker)
      → 0 < length c.buffer
      → (finish c).0 ≡ some (record { offset = c.base_offset; len = length c.buffer % 2 ^ 32 })
  unfolding finish
  finish-rest c h = by_buffer c.buffer refl
    where
      by_buffer :
          (buffer : List ℕ)
          → c.buffer ≡ buffer
          → (finish c).0 ≡ some (record { offset = c.base_offset; len = length c.buffer % 2 ^ 32 })
      by_buffer [] e = absurd (ground arith)
      by_buffer (x ∷ xs) e = rw (e, finish) (rw e refl)

  -- `push`, then `finish`
  abbrev with_last : List ChunkBoundary → Option ChunkBoundary → List ChunkBoundary
  with_last out none = out
  with_last out (some b) = out ++ (b ∷ [])

  finish-Tiles :
      (end : ℕ) (c : FastCdcChunker) (out : List ChunkBoundary)
      → Advances end (out, c)
      → length c.buffer < c.max_size
      → Tiles 0 end (with_last out (finish c).0)
  finish-Tiles end c out (t, (e, small)) drained = elim (Bool-cases (length c.buffer == 0)) [
    | inl nothing ↦
        let same : c.base_offset ≡ end = ground arith in
        rw (finish-nothing c (ground arith)) (subst (λ x. Tiles 0 x out) same t)
    | inr rest ↦
        let whole : length c.buffer % 2 ^ 32 ≡ length c.buffer = omega arith in
        rw (finish-rest c (ground arith), whole)
          (Tiles-append 0 c.base_offset end out _ t (refl, (ground arith, e)))
  ]

  -- The boundaries of a buffer, for a greatest chunk size above 0 and below 4 GiB and a cut point
  -- within the buffer, follow one
  -- another from its first byte to its last, and none is empty.
  pub boundaries-Tiles :
      (avg_size min_size max_size : ℕ) (contents : List ℕ)
      → 0 < max_size
      → max_size < 2 ^ 32
      → Tiles 0 (length contents) (boundaries cut avg_size min_size max_size contents)
  unfolding boundaries push new_chunker
  boundaries-Tiles avg_size min_size max_size contents positive small =
      let c : FastCdcChunker = record (new_chunker avg_size min_size max_size) {
        buffer = contents;
      } in
      let pushed = push_loop cut (suc (length contents)) c [] in
      finish-Tiles (length contents) pushed.1 pushed.0
        (push_loop-Advances (suc (length contents)) (length contents) c []
          (refl, (omega arith, small)))
        (push_loop-drains (suc (length contents)) c [] positive (omega arith))
