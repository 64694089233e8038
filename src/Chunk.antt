-- ===== src/Chunk.antt =====
-- Content-defined chunking, crates/lchfs-chunk/src/lib.rs: the streaming `FastCdcChunker`. The cut
-- point of the `fastcdc` crate is a parameter.
pub mod Tiling
mod Tests
use lchfs.Common.{
  ℕ, zero, suc, ◌+◌, ◌%◌, ◌^◌, ◌≡◌, Bool, true, false, Option, none, some, List, [], ◌∷◌, ◌++◌,
}
use lchfs.Common.{ltb, leb, ◌==◌, if◌then◌else◌, length, drop}

pub record ChunkBoundary : Type 0 where
  pub offset : ℕ
  pub len : ℕ

pub record FastCdcChunker : Type 0 where
  pub avg_size : ℕ
  pub min_size : ℕ
  pub max_size : ℕ
  pub buffer : List ℕ
  pub base_offset : ℕ

unfoldable pub new_chunker : ℕ → ℕ → ℕ → FastCdcChunker
new_chunker avg_size min_size max_size = record {
  avg_size = avg_size;
  min_size = min_size;
  max_size = max_size;
  buffer = [];
  base_offset = 0;
}

-- `cut min avg max buffer` is the cut point that `FastCDC::cut(0, buffer.len())` returns.
module _ (cut : ℕ → ℕ → ℕ → List ℕ → ℕ) where
  -- The loop of `push`. Each round drains a byte at least, so a fuel above the buffer's length
  -- does not run out.
  unfoldable pub push_loop :
      ℕ → FastCdcChunker → List ChunkBoundary → List ChunkBoundary × FastCdcChunker
  push_loop zero c out = (out, c)
  push_loop (suc fuel) c out = elim (leb c.max_size (length c.buffer)) [
    | false ↦ (out, c)
    | true ↦
        let cutpoint = cut c.min_size c.avg_size c.max_size c.buffer in
        elim (cutpoint == 0) [
          | true ↦ (out, c)
          | false ↦
              push_loop fuel
                (record c {
                  buffer = drop cutpoint c.buffer;
                  base_offset = c.base_offset + cutpoint;
                })
                (out ++ (record { offset = c.base_offset; len = cutpoint % 2 ^ 32 } ∷ []))
        ]
  ]

  unfoldable pub push : List ℕ → FastCdcChunker → List ChunkBoundary × FastCdcChunker
  push bytes c =
      let filled : FastCdcChunker = record c { buffer = c.buffer ++ bytes } in
      push_loop (suc (length filled.buffer)) filled []

unfoldable pub finish : FastCdcChunker → Option ChunkBoundary × FastCdcChunker
finish c = elim c.buffer [
  | [] ↦ (none, c)
  | _ ∷ _ ↦
      let len = length c.buffer % 2 ^ 32 in
      (
        some (record { offset = c.base_offset; len = len }),
        record c { buffer = []; base_offset = c.base_offset + len },
      )
]

-- The boundaries of a whole buffer, as `rechunk_and_touch` computes them: `push`, then `finish`.
unfoldable pub boundaries : (ℕ → ℕ → ℕ → List ℕ → ℕ) → ℕ → ℕ → ℕ → List ℕ → List ChunkBoundary
boundaries cut avg_size min_size max_size contents =
    let (pushed, c) = push cut contents (new_chunker avg_size min_size max_size) in
    let (last, _) = finish c in elim last [ none ↦ pushed | some b ↦ pushed ++ (b ∷ []) ]
