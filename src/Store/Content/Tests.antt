-- ===== src/Store/Content/Tests.antt =====
-- Ten bytes in chunks of four, the middle one a hole; the chunk store keeps a chunk under its own
-- bytes.
use lchfs.Common.{ℕ, ◌≡◌, refl, arith, Option, some, List, [], ◌∷◌, length, min}
use lchfs.Common.{ok, false}
use lchfs.Common.Buffers.{byte, resize, overlay}
use lchfs.Format.Objects.{Hash, ChunkRef}
use lchfs.Chunk.{boundaries, push, push_loop, finish, new_chunker}
use lchfs.Chunk.Tiling.{IsCut}
use lchfs.Store.Content.{
  rechunk, rechunk_refs, hydrate_chunks, read_range_from_chunks, slice_of, seek_in_chunks,
}
use lchfs.Store.Content.{seek_data, seek_hole, seek_hole_in, partition_point, write_contents}
use lchfs.Store.Content.{fallocate_contents, zero_range}
use lchfs.Store.Content.Rechunk.{hydrate-rechunk, rechunk-IsOrdered}
use lchfs.Store.Content.Reads.{AllStored, read_range-hydrate}
use lchfs.Store.Content.Seek.{
  IsOrdered, IsWithin, Answers, LeastHole, seek_in_chunks-data, seek_in_chunks-hole,
}
use lchfs.Store.Content.Updates.{byte-write_contents, byte-fallocate_contents}

abbrev greatest : ℕ → ℕ → ℕ → List ℕ → ℕ
greatest min_size avg_size max_size buffer = min (length buffer) max_size

greatest-IsCut : IsCut greatest
greatest-IsCut min_size avg_size max_size buffer = (omega arith, (omega arith, λ h k. omega arith))

abbrev commit : List ℕ → Option Hash
commit bytes = some bytes

abbrev fetch : Hash → Option (List ℕ)
fetch hash = some hash

fetches : (bytes : List ℕ) (hash : Hash) → commit bytes ≡ some hash → fetch hash ≡ some bytes
fetches bytes hash h = ground arith

abbrev ten_bytes : List ℕ
ten_bytes = 5 ∷ 6 ∷ 7 ∷ 8 ∷ 0 ∷ 0 ∷ 0 ∷ 0 ∷ 1 ∷ 2 ∷ []

abbrev first_chunk : ChunkRef
first_chunk = record { content_hash = 5 ∷ 6 ∷ 7 ∷ 8 ∷ []; logical_offset = 0; len = 4 }

abbrev last_chunk : ChunkRef
last_chunk = record { content_hash = 1 ∷ 2 ∷ []; logical_offset = 8; len = 2 }

abbrev chunks : List ChunkRef
chunks = first_chunk ∷ last_chunk ∷ []

rechunked : rechunk commit greatest 4 4 2 4 ten_bytes ≡ ok chunks
unfolding rechunk rechunk_refs boundaries push push_loop finish new_chunker
rechunked = refl

hydrate-rechunk_example : hydrate_chunks fetch chunks 10 ≡ ok ten_bytes
hydrate-rechunk_example =
    hydrate-rechunk commit fetch greatest 4 4 2 4 ten_bytes chunks fetches greatest-IsCut
      (omega arith) (omega arith) (omega arith) rechunked

rechunk-IsOrdered_example : IsOrdered 0 chunks × IsWithin 10 chunks
rechunk-IsOrdered_example =
    rechunk-IsOrdered commit greatest 4 4 2 4 ten_bytes chunks greatest-IsCut (omega arith)
      (omega arith) (omega arith) rechunked

chunks-AllStored : AllStored fetch chunks
chunks-AllStored =
    ((first_chunk.content_hash, (refl, refl)), ((last_chunk.content_hash, (refl, refl)), tt))

read_range-hydrate_example :
    (file : List ℕ) × ((hydrate_chunks fetch chunks 10 ≡ ok file)
      × ((offset len : ℕ)
          → read_range_from_chunks fetch chunks 10 offset len ≡ ok (slice_of file offset len)))
read_range-hydrate_example = read_range-hydrate fetch chunks 10 chunks_ordered chunks-AllStored
  where
    chunks_ordered : IsOrdered 0 chunks
    chunks_ordered =
        (omega arith, (omega arith, (omega arith, (omega arith, (omega arith, (omega arith, tt))))))

chunks-IsOrdered : IsOrdered 0 chunks
chunks-IsOrdered =
    (omega arith, (omega arith, (omega arith, (omega arith, (omega arith, (omega arith, tt))))))

chunks-IsWithin : IsWithin 10 chunks
chunks-IsWithin = (omega arith, (omega arith, tt))

seek_in_chunks-data_example : Answers chunks 4 (seek_in_chunks chunks 10 4 seek_data)
seek_in_chunks-data_example = seek_in_chunks-data chunks 10 4 chunks-IsOrdered chunks-IsWithin

seeks_hole : seek_in_chunks chunks 10 1 seek_hole ≡ some 4
unfolding seek_in_chunks seek_hole_in partition_point
seeks_hole = refl

seek_in_chunks-hole_example : LeastHole chunks 1 4
seek_in_chunks-hole_example =
    seek_in_chunks-hole chunks 10 1 4 chunks-IsOrdered chunks-IsWithin (omega arith) seeks_hole

abbrev after_write : List ℕ
after_write = 1 ∷ 2 ∷ 0 ∷ 9 ∷ 9 ∷ []

abbrev after_resize : List ℕ
after_resize = 1 ∷ []

abbrev after_zeroing : List ℕ
after_zeroing = 1 ∷ 0 ∷ 0 ∷ 0 ∷ 0 ∷ []

written : write_contents 3 (9 ∷ 9 ∷ []) (1 ∷ 2 ∷ []) ≡ ok after_write
unfolding write_contents resize overlay
written = refl

byte-write_contents_example : byte after_write 4 ≡ 9
byte-write_contents_example = byte-write_contents 3 (9 ∷ 9 ∷ []) (1 ∷ 2 ∷ []) after_write 4 written

zeroed : fallocate_contents 1 4 (zero_range false) (1 ∷ 2 ∷ 3 ∷ []) ≡ ok after_zeroing
unfolding fallocate_contents resize overlay
zeroed = refl

byte-fallocate_contents_example : (length after_zeroing ≡ 5) × (byte after_zeroing 2 ≡ 0)
byte-fallocate_contents_example =
    byte-fallocate_contents 1 4 (zero_range false) (1 ∷ 2 ∷ 3 ∷ []) after_zeroing 2 zeroed
