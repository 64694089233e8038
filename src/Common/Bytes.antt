-- ===== src/Common/Bytes.antt =====
-- Byte strings: little-endian integers, the serializer that the source calls, and binary digits.
mod Digits
pub use Digits.*
use Prim.Native.Nat.{ℕ, zero, suc, ◌+◌, ◌*◌, ◌/◌, ◌%◌, ◌^◌, ◌≤◌, ◌<◌}
use mathlib.Core.Path.{◌≡◌, refl, ap, subst}
use mathlib.Core.List.{List, [], ◌∷◌, ◌++◌}
use mathlib.Core.Option.{Option, none, some}
use native.Mathlib.Omega.{arith}
use native.Mathlib.Nat.{pow-suc}
use lchfs.Common.Lists.{length, take, drop, take-length, take-length_append, drop-length_append}

-- `n.to_le_bytes()` of an integer of `w` bytes, and back.
unfoldable pub to_le_bytes : ℕ → ℕ → List ℕ
to_le_bytes zero n = []
to_le_bytes (suc w) n = n % 256 ∷ to_le_bytes w (n / 256)

unfoldable pub from_le_bytes : List ℕ → ℕ
from_le_bytes [] = 0
from_le_bytes (b ∷ bs) = b + 256 * from_le_bytes bs

pub length-to_le_bytes : (w n : ℕ) → length (to_le_bytes w n) ≡ w
unfolding to_le_bytes
length-to_le_bytes zero n = refl
length-to_le_bytes (suc w) n = ap suc (length-to_le_bytes w (n / 256))

pub from-to_le_bytes : (w n : ℕ) → n < 256 ^ w → from_le_bytes (to_le_bytes w n) ≡ n
unfolding to_le_bytes from_le_bytes
from-to_le_bytes zero n h = omega arith
from-to_le_bytes (suc w) n h =
    omega (arith, from-to_le_bytes w (n / 256) (omega (arith, pow-suc 256 w)))

-- The fields of a record written one after another are found again by their widths.
pub take_le : (w n : ℕ) (ys : List ℕ) → take w (to_le_bytes w n ++ ys) ≡ to_le_bytes w n
take_le w n ys =
    subst (λ k. take k (to_le_bytes w n ++ ys) ≡ to_le_bytes w n) (length-to_le_bytes w n)
      (take-length_append (to_le_bytes w n) ys)

pub drop_le : (w n : ℕ) (ys : List ℕ) → drop w (to_le_bytes w n ++ ys) ≡ ys
drop_le w n ys =
    subst (λ k. drop k (to_le_bytes w n ++ ys) ≡ ys) (length-to_le_bytes w n)
      (drop-length_append (to_le_bytes w n) ys)

pub take_all : (w n : ℕ) → take w (to_le_bytes w n) ≡ to_le_bytes w n
take_all w n =
    subst (λ k. take k (to_le_bytes w n) ≡ to_le_bytes w n) (length-to_le_bytes w n)
      (take-length (to_le_bytes w n))

-- The `bincode` crate at one type: encoding is total, and decoding what was encoded gives it back.
pub record Bincode (T : Type 0) : Type 0 where
  pub encode : T → List ℕ
  pub decode : List ℕ → Option T
  pub decode-encode : (t : T) → decode (encode t) ≡ some t
