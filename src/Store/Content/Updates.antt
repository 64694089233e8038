-- ===== src/Store/Content/Updates.antt =====
-- What a buffer update does to each byte of a file: `write`, `set_size` and `fallocate`.
use lchfs.Common.{ℕ, zero, suc, ◌+◌, ◌-◌, ◌≤◌, ◌≡◌, refl, Bool, true, false, ◌&&◌, min, max}
use lchfs.Common.{
  List, [], ◌∷◌, ltb, leb, if◌then◌else◌, length, replicate, length-replicate, arith,
}
use lchfs.Common.{ok, Bool-cases, inl, inr}
use lchfs.Common.Buffers.{
  byte, resize, overlay, byte-resize, length-resize, byte-overlay, length-overlay, byte-zeros,
}
use lchfs.Store.Content.{write_contents}
use lchfs.Store.Content.{FallocateMode, allocate, punch_hole, zero_range, zero_clamped}
use lchfs.Store.Content.{grow, apply_mode, fallocate_contents}

pub byte-beyond : (xs : List ℕ) (i : ℕ) → length xs ≤ i → byte xs i ≡ 0
byte-beyond [] i h = refl
byte-beyond (x ∷ xs) zero h = absurd (omega arith)
byte-beyond (x ∷ xs) (suc i) h = byte-beyond xs i (omega arith)

-- The buffer grown to `n` when it is shorter.
abbrev pub grown : ℕ → List ℕ → List ℕ
grown n xs = if ltb (length xs) n then resize n xs else xs

length-grown : (n : ℕ) (xs : List ℕ) → length (grown n xs) ≡ max (length xs) n
length-grown n xs = ground (arith, length-resize n xs)

byte-grown : (n : ℕ) (xs : List ℕ) (i : ℕ) → byte (grown n xs) i ≡ byte xs i
byte-grown n xs i = ground (arith, byte-resize n xs i, byte-beyond xs i)

-- A write within the limit gives a file whose size is the old one or the write's end, if that is
-- greater.
write_contents_size :
    (offset : ℕ) (buf contents after : List ℕ)
    → write_contents offset buf contents ≡ ok after
    → length after ≡ max (length contents) (offset + length buf)
unfolding write_contents
write_contents_size offset buf contents after h = ground (
  arith,
  length-overlay offset buf contents,
  length-overlay offset buf (resize (offset + length buf) contents),
  length-resize (offset + length buf) contents,
)

-- Each byte after a write is the written one inside the range, and the old one (0 in a gap) outside.
pub byte-write_contents :
    (offset : ℕ) (buf contents after : List ℕ) (i : ℕ)
    → write_contents offset buf contents ≡ ok after
    → byte after i ≡ (
        if leb offset i && ltb i (offset + length buf)
        then byte buf (i - offset)
        else byte contents i)
unfolding write_contents
byte-write_contents offset buf contents after i h =
    let big = grown (offset + length buf) contents in
    let e : after ≡ overlay offset buf big = ground arith in
    elim (Bool-cases (ltb i (length big))) [
      | inl inside ↦ rw e (
          ground
            (arith, byte-overlay offset buf big i, byte-grown (offset + length buf) contents i))
      | inr behind ↦ rw e (
          ground (
            arith,
            byte-beyond (overlay offset buf big) i,
            length-overlay offset buf big,
            length-grown (offset + length buf) contents,
            byte-beyond contents i,
          ))
    ]

abbrev pub keeps_size : FallocateMode → Bool
keeps_size (allocate keep_size) = keep_size
keeps_size punch_hole = true
keeps_size (zero_range keep_size) = keep_size

abbrev pub clears : FallocateMode → Bool
clears (allocate _) = false
clears punch_hole = true
clears (zero_range _) = true

byte-zero_clamped :
    (offset end : ℕ) (contents : List ℕ) (i : ℕ)
    → byte (zero_clamped offset end contents) i
      ≡ (if leb offset i && ltb i end then 0 else byte contents i)
byte-zero_clamped offset end contents i =
    let lo = min offset (length contents) in
    let hi = min end (length contents) in
    let zeros : List ℕ = replicate (hi - lo) 0 in
    let zeros_length : length zeros ≡ hi - lo = length-replicate (hi - lo) _ in
    elim (Bool-cases (ltb i (length contents))) [
      | inl inside ↦
          ground
            (arith, byte-overlay lo zeros contents i, byte-zeros (hi - lo) (i - lo), zeros_length)
      | inr behind ↦ ground (
        arith,
        byte-beyond (overlay lo zeros contents) i,
        length-overlay lo zeros contents,
        byte-beyond contents i,
      )
    ]

length-zero_clamped :
    (offset end : ℕ) (contents : List ℕ)
    → length (zero_clamped offset end contents) ≡ length contents
length-zero_clamped offset end contents = length-overlay _ _ contents

length-grow :
    (keep_size : Bool) (end : ℕ) (contents : List ℕ)
    → length (grow keep_size end contents)
      ≡ (if keep_size then length contents else max (length contents) end)
length-grow keep_size end contents = ground (arith, length-resize end contents)

byte-grow :
    (keep_size : Bool) (end : ℕ) (contents : List ℕ) (i : ℕ)
    → byte (grow keep_size end contents) i ≡ byte contents i
byte-grow keep_size end contents i =
    ground (arith, byte-resize end contents i, byte-beyond contents i)

length-apply_mode :
    (mode : FallocateMode) (offset end : ℕ) (contents : List ℕ)
    → length (apply_mode mode offset end contents)
      ≡ (if keeps_size mode then length contents else max (length contents) end)
length-apply_mode (allocate k) offset end contents = length-grow k end contents
length-apply_mode punch_hole offset end contents = length-zero_clamped offset end contents
length-apply_mode (zero_range k) offset end contents =
    rw (length-zero_clamped offset end (grow k end contents)) (length-grow k end contents)

byte-apply_mode :
    (mode : FallocateMode) (offset end : ℕ) (contents : List ℕ) (i : ℕ)
    → byte (apply_mode mode offset end contents) i
      ≡ (if clears mode && (leb offset i && ltb i end) then 0 else byte contents i)
byte-apply_mode (allocate k) offset end contents i = byte-grow k end contents i
byte-apply_mode punch_hole offset end contents i = byte-zero_clamped offset end contents i
byte-apply_mode (zero_range k) offset end contents i =
    rw (byte-zero_clamped offset end (grow k end contents) i, byte-grow k end contents i) refl

-- After a `fallocate` that succeeds, the size is the old one, or at least the range's end in a mode
-- that grows the file; the range reads as zeros in a mode that clears it, and every other byte is
-- the old one, 0 behind the old size.
pub byte-fallocate_contents :
    (offset len : ℕ) (mode : FallocateMode) (contents after : List ℕ) (i : ℕ)
    → fallocate_contents offset len mode contents ≡ ok after
    → (length after
        ≡ (if keeps_size mode then length contents else max (length contents) (offset + len)))
      × (byte after i
          ≡ (if clears mode && (leb offset i && ltb i (offset + len)) then 0 else byte contents i))
unfolding fallocate_contents
byte-fallocate_contents offset len mode contents after i h =
    let e : after ≡ apply_mode mode offset (offset + len) contents = ground arith in
    rw e (
      length-apply_mode mode offset (offset + len) contents,
      byte-apply_mode mode offset (offset + len) contents i,
    )
