-- ===== src/Common/Buffers.antt =====
-- Byte buffers: `Vec::resize`, slices, and `copy_from_slice` into a clamped range, with what each
-- does to the byte at a position.
use Prim.Native.Nat.{ℕ, zero, suc, ◌+◌, ◌-◌, ◌<◌}
use mathlib.Core.Path.{◌≡◌, refl, ap}
use mathlib.Core.Bool.{true, ◌&&◌}
use mathlib.Core.List.{List, [], ◌∷◌}
use native.Mathlib.Omega.{arith}
use lchfs.Common.Tests.{ltb, leb, ◌==◌, if◌then◌else◌}
use lchfs.Common.Lists.{length, take, drop, replicate, get_or, all}

-- The byte at a position, 0 behind the end.
abbrev pub byte : List ℕ → ℕ → ℕ
byte xs i = get_or xs i 0

-- `v.resize(n, 0)`
unfoldable pub resize : ℕ → List ℕ → List ℕ
resize zero xs = []
resize (suc n) [] = 0 ∷ resize n []
resize (suc n) (x ∷ xs) = x ∷ resize n xs

-- `buf[start..end].copy_from_slice(&d[..end - start])` for `end` clamped to the buffer.
unfoldable pub overlay : ℕ → List ℕ → List ℕ → List ℕ
overlay s d [] = []
overlay zero [] (b ∷ bs) = b ∷ bs
overlay zero (x ∷ d) (b ∷ bs) = x ∷ overlay zero d bs
overlay (suc s) d (b ∷ bs) = b ∷ overlay s d bs

-- `buf[lo..hi]`
abbrev pub slice : ℕ → ℕ → List ℕ → List ℕ
slice lo hi xs = take (hi - lo) (drop lo xs)

pub byte-resize :
    (n : ℕ) (xs : List ℕ) (i : ℕ) → byte (resize n xs) i ≡ (if ltb i n then byte xs i else 0)
unfolding resize
byte-resize zero xs i = ground arith
byte-resize (suc n) [] zero = ground arith
byte-resize (suc n) [] (suc i) = ground (arith, byte-resize n [] i)
byte-resize (suc n) (x ∷ xs) zero = ground arith
byte-resize (suc n) (x ∷ xs) (suc i) = ground (arith, byte-resize n xs i)

pub length-resize : (n : ℕ) (xs : List ℕ) → length (resize n xs) ≡ n
unfolding resize
length-resize zero xs = refl
length-resize (suc n) [] = ap suc (length-resize n [])
length-resize (suc n) (x ∷ xs) = ap suc (length-resize n xs)

pub length-overlay : (s : ℕ) (d xs : List ℕ) → length (overlay s d xs) ≡ length xs
unfolding overlay
length-overlay zero d [] = refl
length-overlay (suc s) d [] = refl
length-overlay zero [] (b ∷ bs) = refl
length-overlay zero (x ∷ d) (b ∷ bs) = ap suc (length-overlay zero d bs)
length-overlay (suc s) d (b ∷ bs) = ap suc (length-overlay s d bs)

pub byte-overlay :
    (s : ℕ) (d xs : List ℕ) (i : ℕ)
    → i < length xs
    → byte (overlay s d xs) i
      ≡ (if leb s i && ltb i (s + length d) then byte d (i - s) else byte xs i)
unfolding overlay
byte-overlay s d [] i h = absurd (omega arith)
byte-overlay zero [] (b ∷ bs) i h = ground arith
byte-overlay zero (x ∷ d) (b ∷ bs) zero h = ground arith
byte-overlay zero (x ∷ d) (b ∷ bs) (suc i) h = ground (arith, byte-overlay zero d bs i)
byte-overlay (suc s) d (b ∷ bs) zero h = ground arith
byte-overlay (suc s) d (b ∷ bs) (suc i) h = ground (arith, byte-overlay s d bs i)

pub byte-drop : (n : ℕ) (xs : List ℕ) (i : ℕ) → byte (drop n xs) i ≡ byte xs (n + i)
byte-drop zero xs i = ap (byte xs) (omega arith)
byte-drop (suc n) [] i = refl
byte-drop (suc n) (x ∷ xs) i =
    let e : suc n + i ≡ suc (n + i) = omega arith in rw e (byte-drop n xs i)

pub byte-take :
    (n : ℕ) (xs : List ℕ) (i : ℕ) → byte (take n xs) i ≡ (if ltb i n then byte xs i else 0)
byte-take zero xs i = ground arith
byte-take (suc n) [] i = ground arith
byte-take (suc n) (x ∷ xs) zero = ground arith
byte-take (suc n) (x ∷ xs) (suc i) = ground (arith, byte-take n xs i)

pub byte-slice :
    (lo hi : ℕ) (xs : List ℕ) (i : ℕ)
    → byte (slice lo hi xs) i ≡ (if ltb i (hi - lo) then byte xs (lo + i) else 0)
byte-slice lo hi xs i = ground (arith, byte-take (hi - lo) (drop lo xs) i, byte-drop lo xs i)

pub byte-all_zero : (xs : List ℕ) (i : ℕ) → all (λ b. b == 0) xs ≡ true → byte xs i ≡ 0
byte-all_zero [] i h = refl
byte-all_zero (x ∷ xs) zero h = ground arith
byte-all_zero (x ∷ xs) (suc i) h = ground (arith, byte-all_zero xs i)

pub byte-zeros : (n i : ℕ) → byte (replicate n 0) i ≡ 0
byte-zeros zero i = refl
byte-zeros (suc n) zero = refl
byte-zeros (suc n) (suc i) = byte-zeros n i

-- Buffers of one length with the same bytes are equal.
pub eq_of_bytes :
    (xs ys : List ℕ)
    → length xs ≡ length ys
    → ((i : ℕ) → i < length xs → byte xs i ≡ byte ys i)
    → xs ≡ ys
eq_of_bytes [] [] h e = refl
eq_of_bytes [] (y ∷ ys) h e = absurd (omega arith)
eq_of_bytes (x ∷ xs) [] h e = absurd (omega arith)
eq_of_bytes (x ∷ xs) (y ∷ ys) h e =
    let tail = eq_of_bytes xs ys (omega arith) (λ i k. e (suc i) (omega arith)) in
    let head : x ≡ y = e 0 (omega arith) in cc
