-- ===== src/Store/Content.antt =====
-- A file's bytes: buffers, chunk lists with holes, and reads. From crates/lchfs-store/src/lib.rs:
-- the buffer updates of `write`, `set_size` and `fallocate`, `rechunk_and_touch`,
-- `hydrate_file_state`, `read_range_from_chunks`, `seek_in_chunks`, `slice_of`.
--
-- The chunk store is two parameters: `commit` stands for `commit_chunk`, which may fail, and `fetch`
-- for `read_chunk_bytes`; a chunk that was committed is fetched again.
pub mod Rechunk
pub mod Reads
pub mod Seek
pub mod Updates
mod Tests
use lchfs.Common.{
  ℕ, zero, suc, ◌+◌, ◌-◌, ◌*◌, ◌^◌, ◌≤◌, ◌<◌, ◌≡◌, Bool, true, false, not, ◌&&◌, ◌||◌, min, max,
}
use lchfs.Common.{
  Option, none, some, List, [], ◌∷◌, ltb, leb, ◌==◌, if◌then◌else◌, length, drop, take, replicate,
  all,
}
use lchfs.Common.{Result, ok, err}
use lchfs.Common.Buffers.{resize, overlay, slice}
use lchfs.Format.Objects.{Hash, ChunkRef}
use lchfs.Chunk.{ChunkBoundary, boundaries}

-- The errors of these operations; `io` stands for any failure to store or to read a chunk.
pub data FileError : Type 0 where
  too_large : ℕ → FileError
  invalid_argument io : FileError

-- 8 GiB
abbrev pub max_file_size : ℕ
max_file_size = 8 * 1024 * 1024 * 1024

-- `a.saturating_add(b)` on u64.
abbrev pub saturating_add : ℕ → ℕ → ℕ
saturating_add a b = min (a + b) (2 ^ 64 - 1)

unfoldable pub slice_of : List ℕ → ℕ → ℕ → List ℕ
slice_of buf offset len =
    let start = min offset (length buf) in
    let end = min (saturating_add start len) (length buf) in slice start end buf

-- The whole-buffer path of `write`.
unfoldable pub write_contents : ℕ → List ℕ → List ℕ → Result FileError (List ℕ)
write_contents offset buf contents =
    let end = offset + length buf in
    if leb (2 ^ 64) end || ltb max_file_size end
    then err (too_large (saturating_add offset (length buf)))
    else let grown = if ltb (length contents) end then resize end contents else contents in
      ok (overlay offset buf grown)

unfoldable pub set_size_contents : ℕ → List ℕ → Result FileError (List ℕ)
set_size_contents new_size contents =
    if ltb max_file_size new_size then err (too_large new_size) else ok (resize new_size contents)

pub data FallocateMode : Type 0 where
  allocate : Bool → FallocateMode
  punch_hole : FallocateMode
  zero_range : Bool → FallocateMode

-- `contents[lo..hi].fill(0)`
abbrev pub fill_zero : ℕ → ℕ → List ℕ → List ℕ
fill_zero lo hi contents = overlay lo (replicate (hi - lo) 0) contents

abbrev pub zero_clamped : ℕ → ℕ → List ℕ → List ℕ
zero_clamped offset end contents =
    fill_zero (min offset (length contents)) (min end (length contents)) contents

abbrev pub grow : Bool → ℕ → List ℕ → List ℕ
grow keep_size end contents =
    if ltb (length contents) end && not keep_size then resize end contents else contents

abbrev pub apply_mode : FallocateMode → ℕ → ℕ → List ℕ → List ℕ
apply_mode (allocate keep_size) offset end contents = grow keep_size end contents
apply_mode punch_hole offset end contents = zero_clamped offset end contents
apply_mode (zero_range keep_size) offset end contents =
    zero_clamped offset end (grow keep_size end contents)

unfoldable pub fallocate_contents : ℕ → ℕ → FallocateMode → List ℕ → Result FileError (List ℕ)
fallocate_contents offset len mode contents =
    if len == 0
    then err invalid_argument
    else if leb (2 ^ 64) (offset + len)
    then err invalid_argument
    else if ltb max_file_size (offset + len)
    then err (too_large (offset + len))
    else ok (apply_mode mode offset (offset + len) contents)

abbrev pub chunk_end : ChunkRef → ℕ
chunk_end c = saturating_add c.logical_offset c.len

-- `chunks.partition_point(|c| c.logical_offset <= offset)` on a sorted list.
unfoldable pub partition_point : ℕ → List ChunkRef → ℕ
partition_point offset [] = 0
partition_point offset (c ∷ cs) =
    let rest = partition_point offset cs in if leb c.logical_offset offset then suc rest else 0

abbrev pub tail_at : ℕ → List ChunkRef → List ChunkRef
tail_at offset chunks = drop (partition_point offset chunks - 1) chunks

pub data SeekWhence : Type 0 where
  seek_data seek_hole : SeekWhence

unfoldable pub seek_data_in : List ChunkRef → ℕ → ℕ → Option ℕ
seek_data_in [] size offset = none
seek_data_in (c ∷ cs) size offset =
    let rest = seek_data_in cs size offset in
    if leb (chunk_end c) offset then rest else some (min (max c.logical_offset offset) size)

unfoldable pub seek_hole_in : List ChunkRef → ℕ → ℕ → ℕ
seek_hole_in [] size cur = min cur size
seek_hole_in (c ∷ cs) size cur = elim (leb (chunk_end c) cur) [
  | true ↦ seek_hole_in cs size cur
  | false ↦ elim (ltb cur c.logical_offset) [
    | true ↦ cur
    | false ↦ seek_hole_in cs size (chunk_end c)
  ]
]

unfoldable pub seek_in_chunks : List ChunkRef → ℕ → ℕ → SeekWhence → Option ℕ
seek_in_chunks chunks size offset seek_data = seek_data_in (tail_at offset chunks) size offset
seek_in_chunks chunks size offset seek_hole =
    some (seek_hole_in (tail_at offset chunks) size offset)

-- The rest of the loop of `rechunk_and_touch` over the boundaries: a long enough run of zeros
-- becomes a hole, any other chunk is committed.
module _ (commit : List ℕ → Option Hash) (min_size : ℕ) (contents : List ℕ) where
  abbrev pub chunk_bytes : ChunkBoundary → List ℕ
  chunk_bytes b = slice b.offset (b.offset + b.len) contents

  abbrev pub is_hole : ChunkBoundary → Bool
  is_hole b = leb min_size b.len && all (λ x. x == 0) (chunk_bytes b)

  unfoldable pub rechunk_refs : List ChunkBoundary → Result FileError (List ChunkRef)
  rechunk_refs [] = ok []
  rechunk_refs (b ∷ bs) = elim (is_hole b) [
    | true ↦ rechunk_refs bs
    | false ↦ elim (commit (chunk_bytes b)) [
      | none ↦ err io
      | some hash ↦ elim (rechunk_refs bs) [
        | err e ↦ err e
        | ok refs ↦
            ok (record { content_hash = hash; logical_offset = b.offset; len = b.len } ∷ refs)
      ]
    ]
  ]

-- The chunk list of `rechunk_and_touch`: none for a file that is stored inline. `cut` is the cut
-- point of the `fastcdc` crate.
unfoldable pub rechunk :
    (List ℕ → Option Hash)
    → (ℕ → ℕ → ℕ → List ℕ → ℕ)
    → ℕ
    → ℕ
    → ℕ
    → ℕ
    → List ℕ
    → Result FileError (List ChunkRef)
rechunk commit cut inline_threshold avg_size min_size max_size contents =
    if leb (length contents) inline_threshold
    then ok []
    else rechunk_refs commit min_size contents (boundaries cut avg_size min_size max_size contents)

module _ (fetch : Hash → Option (List ℕ)) where
  -- The loop of `hydrate_file_state`: each chunk at its own offset of a zeroed buffer.
  unfoldable pub place_chunks : List ChunkRef → List ℕ → Result FileError (List ℕ)
  place_chunks [] buf = ok buf
  place_chunks (c ∷ cs) buf = elim (fetch c.content_hash) [
    | none ↦ err io
    | some bytes ↦ place_chunks cs (overlay c.logical_offset bytes buf)
  ]

  unfoldable pub hydrate_chunks : List ChunkRef → ℕ → Result FileError (List ℕ)
  hydrate_chunks chunks size = place_chunks chunks (replicate size 0)

  -- One chunk's share of the range `[start, end)`, copied into `out`.
  abbrev pub copy_overlap : ℕ → ℕ → ChunkRef → List ℕ → List ℕ → List ℕ
  copy_overlap start end c bytes out =
      let avail = min (length bytes) c.len in
      let copy_from = max start c.logical_offset in
      let copy_to = min end (chunk_end c) in
      let src_lo = copy_from - c.logical_offset in
      let src_hi = min (copy_to - c.logical_offset) avail in
      if leb copy_to copy_from || leb src_hi src_lo
      then out
      else overlay (copy_from - start) (slice src_lo src_hi bytes) out

  unfoldable pub read_loop : ℕ → ℕ → List ChunkRef → List ℕ → Result FileError (List ℕ)
  read_loop start end [] out = ok out
  read_loop start end (c ∷ cs) out = elim (leb end c.logical_offset) [
    | true ↦ ok out
    | false ↦ elim (leb (chunk_end c) start) [
      | true ↦ read_loop start end cs out
      | false ↦ elim (fetch c.content_hash) [
        | none ↦ err io
        | some bytes ↦ read_loop start end cs (copy_overlap start end c bytes out)
      ]
    ]
  ]

  unfoldable pub read_range_from_chunks : List ChunkRef → ℕ → ℕ → ℕ → Result FileError (List ℕ)
  read_range_from_chunks chunks size offset len =
      let start = min offset size in
      let end = min (saturating_add start len) size in
      if leb end start
      then ok []
      else read_loop start end (tail_at start chunks) (replicate (end - start) 0)
