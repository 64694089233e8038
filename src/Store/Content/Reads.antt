-- ===== src/Store/Content/Reads.antt =====
-- A ranged read of a chunked file gives the same bytes as hydrating the whole file.
use lchfs.Common.{
  ℕ, zero, suc, ◌+◌, ◌-◌, ◌^◌, ◌≤◌, ◌<◌, ◌≡◌, refl, sym, ap, ◌∙◌, subst, true, false,
}
use lchfs.Common.{
  Option, none, some, List, [], ◌∷◌, ltb, leb, if◌then◌else◌, length, drop, take, replicate,
}
use lchfs.Common.{
  length-take, length-drop, length-replicate, min, max, arith, Bool-cases, inl, inr, ◌&&◌, ◌||◌,
}
use lchfs.Common.{Result, ok, err}
use lchfs.Common.Buffers.{
  byte, slice, overlay, byte-overlay, byte-slice, byte-zeros, length-overlay, eq_of_bytes,
}
use lchfs.Format.Objects.{Hash, ChunkRef}
use lchfs.Store.Content.{
  FileError, saturating_add, chunk_end, slice_of, tail_at, copy_overlap, read_loop,
}
use lchfs.Store.Content.{read_range_from_chunks, place_chunks, hydrate_chunks, partition_point}
use lchfs.Store.Content.Seek.{
  IsOrdered, IsOrdered-tail_at, tail_at-start, tail_at-stop, chunk_end-ordered,
}

module _ (fetch : Hash → Option (List ℕ)) where
  -- Each chunk is stored with the length that its reference says.
  abbrev pub AllStored : List ChunkRef → Type 0
  AllStored [] = Unit
  AllStored (c ∷ cs) =
      ((bytes : List ℕ) × ((fetch c.content_hash ≡ some bytes) × (length bytes ≡ c.len)))
      × AllStored cs

  -- The file's byte at a position, from the chunks alone: 0 in a hole.
  abbrev stored_byte : Option (List ℕ) → ℕ → ℕ
  stored_byte none p = 0
  stored_byte (some bytes) p = byte bytes p

  abbrev byte_at : List ChunkRef → ℕ → ℕ
  byte_at [] p = 0
  byte_at (c ∷ cs) p =
      if leb c.logical_offset p && ltb p (c.logical_offset + c.len)
      then stored_byte (fetch c.content_hash) (p - c.logical_offset)
      else byte_at cs p

  byte_at-before : (lo p : ℕ) (cs : List ChunkRef) → IsOrdered lo cs → p < lo → byte_at cs p ≡ 0
  byte_at-before lo p [] o h = refl
  byte_at-before lo p (c ∷ cs) o h =
      ground (arith, byte_at-before (c.logical_offset + c.len) p cs o.1.1.1, o.0)

  byte_at-tail_at :
      (offset p lo : ℕ) (cs : List ChunkRef)
      → IsOrdered lo cs
      → offset ≤ p
      → byte_at (tail_at offset cs) p ≡ byte_at cs p
  byte_at-tail_at offset p lo [] o h = unfold partition_point in refl
  byte_at-tail_at offset p lo (c ∷ []) o h =
      rw (tail_at-stop offset c [] (unfold partition_point in refl)) refl
  byte_at-tail_at offset p lo (c ∷ d ∷ cs) o h = elim (Bool-cases (leb d.logical_offset offset)) [
    | inl more ↦
        let first : leb c.logical_offset offset ≡ true = ground (arith, o.0) in
        rw
          (
            tail_at-start offset c d cs first more,
            byte_at-tail_at offset p (c.logical_offset + c.len) (d ∷ cs) o.1.1.1 h,
          )
          (ground arith)
    | inr stop ↦ rw (tail_at-stop offset c (d ∷ cs) (unfold partition_point in rw stop refl)) refl
  ]

  AllStored-drop : (n : ℕ) (cs : List ChunkRef) → AllStored cs → AllStored (drop n cs)
  AllStored-drop zero cs s = s
  AllStored-drop (suc n) [] s = tt
  AllStored-drop (suc n) (c ∷ cs) s = AllStored-drop n cs s.1

  length-copy_overlap :
      (start end : ℕ) (c : ChunkRef) (bytes out : List ℕ)
      → length (copy_overlap fetch start end c bytes out) ≡ length out
  length-copy_overlap start end c bytes out = ground (
    arith,
    length-overlay (max start c.logical_offset - start)
        (slice (max start c.logical_offset - c.logical_offset)
          (min (min end (chunk_end c) - c.logical_offset) (min (length bytes) c.len)) bytes)
        out,
  )

  byte-copy_overlap :
      (start end : ℕ) (c : ChunkRef) (bytes out : List ℕ) (i : ℕ)
      → length bytes ≡ c.len
      → c.logical_offset + c.len < 2 ^ 64
      → length out ≡ end - start
      → i < length out
      → byte (copy_overlap fetch start end c bytes out) i ≡ (
          if leb c.logical_offset (start + i) && ltb (start + i) (c.logical_offset + c.len)
          then byte bytes (start + i - c.logical_offset)
          else byte out i)
  byte-copy_overlap start end c bytes out i whole top len inside =
      let off = c.logical_offset in
      let copy_from = max start off in
      let src_lo = copy_from - off in
      let src_hi = min (min end (chunk_end c) - off) (min (length bytes) c.len) in
      let piece = slice src_lo src_hi bytes in
      let ends : src_hi ≡ min end (off + c.len) - off = omega (arith, chunk_end-ordered c top) in
      let piece_length : length piece ≡ src_hi - src_lo =
        omega
          (arith, length-take (src_hi - src_lo) (drop src_lo bytes), length-drop src_lo bytes) in
      elim (Bool-cases (leb (min end (chunk_end c)) copy_from || leb src_hi src_lo)) [
        | inl none_here ↦
            let outside : (leb off (start + i) && ltb (start + i) (off + c.len)) ≡ false =
              ground (arith, chunk_end-ordered c top) in
            rw (none_here, outside) refl
        | inr here ↦ rw here (
            byte-overlay (copy_from - start) piece out i inside
            ∙ overlaid off copy_from src_lo src_hi piece ends piece_length refl refl
                (byte-slice src_lo src_hi bytes))
      ]
    where
      overlaid :
          (off copy_from src_lo src_hi : ℕ) (piece : List ℕ)
          → src_hi ≡ min end (off + c.len) - off
          → length piece ≡ src_hi - src_lo
          → copy_from ≡ max start off
          → src_lo ≡ copy_from - off
          → ((j : ℕ)
              → byte piece j ≡ (if ltb j (src_hi - src_lo) then byte bytes (src_lo + j) else 0))
          → (if leb (copy_from - start) i && ltb i (copy_from - start + length piece)
              then byte piece (i - (copy_from - start))
              else byte out i)
            ≡ (if leb off (start + i) && ltb (start + i) (off + c.len)
                then byte bytes (start + i - off)
                else byte out i)
      overlaid off copy_from src_lo src_hi piece e l cf sl at =
          let same_test : (leb (copy_from - start) i && ltb i (copy_from - start + length piece))
              ≡ (leb off (start + i) && ltb (start + i) (off + c.len)) =
            ground arith in
          elim (Bool-cases (leb off (start + i) && ltb (start + i) (off + c.len))) [
            | inr outside ↦ rw (same_test, outside) refl
            | inl within ↦
                let place : src_lo + (i - (copy_from - start)) ≡ start + i - off = ground arith in
                let in_piece : ltb (i - (copy_from - start)) (src_hi - src_lo) ≡ true =
                  ground arith in
                rw (same_test, within, at (i - (copy_from - start)), in_piece, place) refl
          ]

  -- The three ways a chunk goes.
  read_loop-stop :
      (start end : ℕ) (c : ChunkRef) (cs : List ChunkRef) (out : List ℕ)
      → leb end c.logical_offset ≡ true
      → read_loop fetch start end (c ∷ cs) out ≡ ok out
  unfolding read_loop
  read_loop-stop start end c cs out stop = rw (stop, read_loop) refl

  read_loop-skip :
      (start end : ℕ) (c : ChunkRef) (cs : List ChunkRef) (out : List ℕ)
      → leb end c.logical_offset ≡ false
      → leb (chunk_end c) start ≡ true
      → read_loop fetch start end (c ∷ cs) out ≡ read_loop fetch start end cs out
  unfolding read_loop
  read_loop-skip start end c cs out go skip = rw (go, skip, read_loop) refl

  read_loop-hit :
      (start end : ℕ) (c : ChunkRef) (cs : List ChunkRef) (bytes out : List ℕ)
      → leb end c.logical_offset ≡ false
      → leb (chunk_end c) start ≡ false
      → fetch c.content_hash ≡ some bytes
      → read_loop fetch start end (c ∷ cs) out
        ≡ read_loop fetch start end cs (copy_overlap fetch start end c bytes out)
  unfolding read_loop
  read_loop-hit start end c cs bytes out go hit h = rw (go, hit, h, read_loop) refl

  -- A read of `[start, start + length out)` that fills the part of `out` at or behind `lo`.
  abbrev Reads : ℕ → ℕ → List ChunkRef → List ℕ → Result FileError (List ℕ) → Type 0
  Reads start lo cs out (err _) = ⊥
  Reads start lo cs out (ok after) =
      (length after ≡ length out)
      × ((i : ℕ)
          → i < length out
          → byte after i ≡ (if ltb (start + i) lo then byte out i else byte_at cs (start + i)))

  read_loop-Reads :
      (start end lo : ℕ) (cs : List ChunkRef) (out : List ℕ)
      → IsOrdered lo cs
      → AllStored cs
      → length out ≡ end - start
      → ((i : ℕ) → i < length out → lo ≤ start + i → byte out i ≡ 0)
      → Reads start lo cs out (read_loop fetch start end cs out)
  read_loop-Reads start end lo [] out o s len zeros =
      unfold read_loop in (refl, λ i h. ground (arith, zeros i))
  read_loop-Reads start end lo (c ∷ cs) out (a, (some_byte, (top, rest)))
        ((bytes, (f, whole)), more) len zeros =
      elim (Bool-cases (leb end c.logical_offset)) [
        | inl stop ↦
            subst (Reads start lo (c ∷ cs) out) (sym (read_loop-stop start end c cs out stop)) (
              refl,
              λ i h. ground (
                arith,
                zeros i,
                byte_at-before c.logical_offset (start + i) (c ∷ cs)
                    (omega arith, (some_byte, (top, rest))),
              ),
            )
        | inr go ↦ elim (Bool-cases (leb (chunk_end c) start)) [
          | inl past ↦
              subst (Reads start lo (c ∷ cs) out) (sym (read_loop-skip start end c cs out go past))
                (Reads-skip (read_loop fetch start end cs out) past (
                  read_loop-Reads start end (c.logical_offset + c.len) cs out rest more len
                    (λ i h k. zeros i h (omega arith))))
          | inr hit ↦
              let after = copy_overlap fetch start end c bytes out in
              subst (Reads start lo (c ∷ cs) out)
                (sym (read_loop-hit start end c cs bytes out go hit f))
                (Reads-hit after (read_loop fetch start end cs after)
                  (length-copy_overlap start end c bytes out) (λ i. copied i)
                  (read_loop-Reads start end (c.logical_offset + c.len) cs after rest more
                    (length-copy_overlap start end c bytes out ∙ len)
                    (λ i h k. ground (
                      arith,
                      copied i (rw (← length-copy_overlap start end c bytes out) h),
                      zeros i (rw (← length-copy_overlap start end c bytes out) h),
                    ))))
        ]
      ]
    where
      copied :
          (i : ℕ)
          → i < length out
          → byte (copy_overlap fetch start end c bytes out) i ≡ (
              if leb c.logical_offset (start + i) && ltb (start + i) (c.logical_offset + c.len)
              then byte bytes (start + i - c.logical_offset)
              else byte out i)
      copied i h = byte-copy_overlap start end c bytes out i whole top len h

      Reads-skip :
          (r : Result FileError (List ℕ))
          → leb (chunk_end c) start ≡ true
          → Reads start (c.logical_offset + c.len) cs out r
          → Reads start lo (c ∷ cs) out r
      Reads-skip (err e) past r = r
      Reads-skip (ok after) past (l, r) =
          (l, λ i h. ground (arith, r i h, zeros i h, chunk_end-ordered c top))

      Reads-hit :
          (mid : List ℕ) (r : Result FileError (List ℕ))
          → length mid ≡ length out
          → ((i : ℕ)
              → i < length out
              → byte mid i ≡ (
                  if leb c.logical_offset (start + i) && ltb (start + i) (c.logical_offset + c.len)
                  then byte bytes (start + i - c.logical_offset)
                  else byte out i))
          → Reads start (c.logical_offset + c.len) cs mid r
          → Reads start lo (c ∷ cs) out r
      Reads-hit mid (err e) l at r = r
      Reads-hit mid (ok after) l at (k, r) = (
        k ∙ l,
        λ i h. ground (
          arith,
          r i (rw l h),
          at i h,
          zeros i h,
          f,
          byte_at-before (c.logical_offset + c.len) (start + i) cs rest,
        ),
      )

  place_chunks-cons :
      (c : ChunkRef) (cs : List ChunkRef) (bytes buf : List ℕ)
      → fetch c.content_hash ≡ some bytes
      → place_chunks fetch (c ∷ cs) buf ≡ place_chunks fetch cs (overlay c.logical_offset bytes buf)
  unfolding place_chunks
  place_chunks-cons c cs bytes buf h = rw (h, place_chunks) refl

  -- The whole file, placed chunk by chunk: a read from 0 of all of it.
  place_chunks-Reads :
      (lo : ℕ) (cs : List ChunkRef) (buf : List ℕ)
      → IsOrdered lo cs
      → AllStored cs
      → ((i : ℕ) → i < length buf → lo ≤ i → byte buf i ≡ 0)
      → Reads 0 lo cs buf (place_chunks fetch cs buf)
  place_chunks-Reads lo [] buf o s zeros =
      unfold place_chunks in (refl, λ i h. ground (arith, zeros i))
  place_chunks-Reads lo (c ∷ cs) buf (a, (some_byte, (top, rest))) ((bytes, (f, whole)), more)
        zeros =
      let after = overlay c.logical_offset bytes buf in
      let len = length-overlay c.logical_offset bytes buf in
      subst (Reads 0 lo (c ∷ cs) buf) (sym (place_chunks-cons c cs bytes buf f)) (
        Reads-place (place_chunks fetch cs after) (
          place_chunks-Reads (c.logical_offset + c.len) cs after rest more
            (λ i h k. ground (arith, byte-overlay c.logical_offset bytes buf i, zeros i, len))))
    where
      Reads-place :
          (r : Result FileError (List ℕ))
          → Reads 0 (c.logical_offset + c.len) cs (overlay c.logical_offset bytes buf) r
          → Reads 0 lo (c ∷ cs) buf r
      Reads-place (err e) r = r
      Reads-place (ok after) (k, r) = (
        k ∙ length-overlay c.logical_offset bytes buf,
        λ i h.
            let z : 0 + i ≡ i = omega arith in
            let inside : i < length (overlay c.logical_offset bytes buf) =
              omega (arith, length-overlay c.logical_offset bytes buf) in
            rw z (
              ground (
                arith,
                rw z at (r i inside),
                byte-overlay c.logical_offset bytes buf i,
                zeros i,
                f,
                byte_at-before (c.logical_offset + c.len) i cs rest,
              )),
      )

  Reads-ok :
      (start lo : ℕ) (cs : List ChunkRef) (out : List ℕ) (r : Result FileError (List ℕ))
      → Reads start lo cs out r
      → (after : List ℕ) × ((r ≡ ok after) × Reads start lo cs out (ok after))
  Reads-ok start lo cs out (err e) r = absurd r
  Reads-ok start lo cs out (ok after) r = (after, (refl, r))

  -- The file that a chunk list stands for: its size, and its byte at each position.
  abbrev IsFile : List ChunkRef → ℕ → List ℕ → Type 0
  IsFile cs size file = (length file ≡ size) × ((p : ℕ) → p < size → byte file p ≡ byte_at cs p)

  hydrate_chunks-IsFile :
      (cs : List ChunkRef) (size : ℕ)
      → IsOrdered 0 cs
      → AllStored cs
      → (file : List ℕ) × ((hydrate_chunks fetch cs size ≡ ok file) × IsFile cs size file)
  unfolding hydrate_chunks
  hydrate_chunks-IsFile cs size o s =
      let zeros : List ℕ = replicate size 0 in
      let zeros_length : length zeros ≡ size = length-replicate size _ in
      let (file, (e, (l, at))) =
        Reads-ok 0 0 cs zeros (place_chunks fetch cs zeros)
          (place_chunks-Reads 0 cs zeros o s (λ i h k. byte-zeros size i)) in
      (
        file,
        (
          e,
          (
            l ∙ zeros_length,
            λ p h. let z : 0 + p ≡ p = omega arith in ground (arith, rw z at (at p (omega arith))),
          ),
        ),
      )

  length-slice : (lo hi : ℕ) (xs : List ℕ) → hi ≤ length xs → length (slice lo hi xs) ≡ hi - lo
  length-slice lo hi xs h = omega (arith, length-take (hi - lo) (drop lo xs), length-drop lo xs)

  take-none : (n : ℕ) (xs : List ℕ) → n ≡ 0 → take n xs ≡ []
  take-none zero xs h = refl
  take-none (suc n) xs h = absurd (omega arith)

  read_loop-slice :
      (cs : List ChunkRef) (size start end : ℕ) (file : List ℕ)
      → IsOrdered 0 cs
      → AllStored cs
      → IsFile cs size file
      → end ≤ size
      → read_loop fetch start end (tail_at start cs) (replicate (end - start) 0)
        ≡ ok (slice start end file)
  read_loop-slice cs size start end file o s (l, at) h =
      let zeros : List ℕ = replicate (end - start) 0 in
      let zeros_length : length zeros ≡ end - start = length-replicate (end - start) _ in
      let piece_length = length-slice start end file (omega arith) in
      let (out, (e, (k, r))) =
        Reads-ok start 0 (tail_at start cs) zeros
          (read_loop fetch start end (tail_at start cs) zeros)
          (read_loop-Reads start end 0 (tail_at start cs) zeros (IsOrdered-tail_at start 0 cs o)
            (AllStored-drop (partition_point start cs - 1) cs s) zeros_length
            (λ i h k. byte-zeros (end - start) i)) in
      e
      ∙ ap ok (
          eq_of_bytes out (slice start end file) (omega arith) λ i inside. ground (
            arith,
            r i (omega arith),
            byte-slice start end file i,
            at (start + i) (omega arith),
            byte_at-tail_at start (start + i) 0 cs o (omega arith),
          ))

  read_range-slice :
      (cs : List ChunkRef) (size offset len : ℕ) (file : List ℕ)
      → IsOrdered 0 cs
      → AllStored cs
      → IsFile cs size file
      → read_range_from_chunks fetch cs size offset len ≡ ok (slice_of file offset len)
  unfolding read_range_from_chunks slice_of
  read_range-slice cs size offset len file o s (l, at) =
      let start = min offset size in
      let end = min (saturating_add start len) size in
      elim (Bool-cases (leb end start)) [
        | inl nothing ↦
            rw (l, nothing) (ap ok (sym (take-none (end - start) (drop start file) (ground arith))))
        | inr something ↦
            rw (l, something) (read_loop-slice cs size start end file o s (l, at) (omega arith))
      ]

  -- A file of ordered chunks, each stored with its length, hydrates, and any ranged read of it gives
  -- the same bytes as the slice of the hydrated file.
  pub read_range-hydrate :
      (cs : List ChunkRef) (size : ℕ)
      → IsOrdered 0 cs
      → AllStored cs
      → (file : List ℕ) × ((hydrate_chunks fetch cs size ≡ ok file)
          × ((offset len : ℕ)
              → read_range_from_chunks fetch cs size offset len ≡ ok (slice_of file offset len)))
  read_range-hydrate cs size o s =
      let (file, (e, is_file)) = hydrate_chunks-IsFile cs size o s in
      (file, (e, λ offset len. read_range-slice cs size offset len file o s is_file))
