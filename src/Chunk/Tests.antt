-- ===== src/Chunk/Tests.antt =====
-- Chunking ten bytes with a cut after every four.
use lchfs.Common.{ℕ, ◌≡◌, refl, arith, List, [], ◌∷◌, length, min}
use lchfs.Chunk.{ChunkBoundary, boundaries, push, push_loop, finish, new_chunker}
use lchfs.Chunk.Tiling.{Tiles, IsCut, boundaries-Tiles}

-- A cut at the greatest chunk size.
abbrev greatest : ℕ → ℕ → ℕ → List ℕ → ℕ
greatest min_size avg_size max_size buffer = min (length buffer) max_size

greatest-IsCut : IsCut greatest
greatest-IsCut min_size avg_size max_size buffer = (omega arith, (omega arith, λ h k. omega arith))

abbrev ten_bytes : List ℕ
ten_bytes = 5 ∷ 6 ∷ 7 ∷ 8 ∷ 0 ∷ 0 ∷ 0 ∷ 0 ∷ 1 ∷ 2 ∷ []

abbrev boundary : ℕ → ℕ → ChunkBoundary
boundary offset len = record { offset = offset; len = len }

boundaries_run :
    boundaries greatest 4 2 4 ten_bytes ≡ boundary 0 4 ∷ boundary 4 4 ∷ boundary 8 2 ∷ []
unfolding boundaries push push_loop finish new_chunker
boundaries_run = refl

boundaries-Tiles_example : Tiles 0 10 (boundaries greatest 4 2 4 ten_bytes)
boundaries-Tiles_example =
    boundaries-Tiles greatest greatest-IsCut 4 2 4 ten_bytes (omega arith) (omega arith)
