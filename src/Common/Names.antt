-- ===== src/Common/Names.antt =====
-- File names, paths' components and attribute names: byte strings under the order of Rust's `str`,
-- and the stable `sort_by` of a vector.
use Prim.Native.Nat.{ℕ}
use mathlib.Core.Path.{◌≡◌, refl}
use mathlib.Core.Logic.{◌↔◌, inl, inr}
use mathlib.Core.Bool.{Bool, true, false, ◌&&◌}
use mathlib.Core.List.{List, [], ◌∷◌}
use native.Mathlib.Omega.{arith}
use lchfs.Common.Tests.{◌==◌, ltb, if◌then◌else◌, Bool-cases}
use lchfs.Common.Lists.{All}

abbrev pub Name : Type 0
Name = List ℕ

-- `a == b` on strings.
unfoldable pub name_eq : Name → Name → Bool
name_eq [] [] = true
name_eq [] (b ∷ ys) = false
name_eq (a ∷ xs) [] = false
name_eq (a ∷ xs) (b ∷ ys) = (a == b) && name_eq xs ys

-- `a.cmp(b) != Greater`, byte by byte.
unfoldable pub name_leb : Name → Name → Bool
name_leb [] ys = true
name_leb (a ∷ xs) [] = false
name_leb (a ∷ xs) (b ∷ ys) = if a == b then name_leb xs ys else ltb a b

pub name_eq→eq : (a b : Name) → name_eq a b ≡ true → a ≡ b
unfolding name_eq
name_eq→eq [] [] h = refl
name_eq→eq [] (b ∷ ys) h = ground arith
name_eq→eq (a ∷ xs) [] h = ground arith
name_eq→eq (a ∷ xs) (b ∷ ys) h = ground (arith, name_eq→eq xs ys)

pub name_eq_refl : (a : Name) → name_eq a a ≡ true
unfolding name_eq
name_eq_refl [] = refl
name_eq_refl (a ∷ xs) = ground (arith, name_eq_refl xs)

pub name_eq_iff : (a b : Name) → (name_eq a b ≡ true) ↔ (a ≡ b)
name_eq_iff a b = (name_eq→eq a b, λ e. rw e (name_eq_refl b))

pub name_leb_total : (a b : Name) → name_leb a b ≡ false → name_leb b a ≡ true
unfolding name_leb
name_leb_total [] ys h = ground arith
name_leb_total (a ∷ xs) [] h = refl
name_leb_total (a ∷ xs) (b ∷ ys) h = ground (arith, name_leb_total xs ys)

pub name_leb_trans :
    (a b c : Name) → name_leb a b ≡ true → name_leb b c ≡ true → name_leb a c ≡ true
unfolding name_leb
name_leb_trans [] ys zs h k = refl
name_leb_trans (a ∷ xs) [] zs h k = ground arith
name_leb_trans (a ∷ xs) (b ∷ ys) [] h k = ground arith
name_leb_trans (a ∷ xs) (b ∷ ys) (c ∷ zs) h k = ground (arith, name_leb_trans xs ys zs)

-- The stable sort of `Vec::sort_by` under the order `leb`.
module _ {ℓ} {A : Type ℓ} (leb : A → A → Bool) where
  unfoldable pub insert_sorted : A → List A → List A
  insert_sorted x [] = x ∷ []
  insert_sorted x (y ∷ ys) = if leb x y then x ∷ (y ∷ ys) else y ∷ insert_sorted x ys

  unfoldable pub sort_by : List A → List A
  sort_by [] = []
  sort_by (x ∷ xs) = insert_sorted x (sort_by xs)

  -- Each element is at most all that follow it.
  abbrev pub IsSorted : List A → Type 0
  IsSorted [] = Unit
  IsSorted (x ∷ xs) = All (λ y. leb x y ≡ true) xs × IsSorted xs

  All-insert_sorted :
      (x z : A) (ys : List A)
      → leb z x ≡ true
      → All (λ y. leb z y ≡ true) ys
      → All (λ y. leb z y ≡ true) (insert_sorted x ys)
  unfolding insert_sorted
  All-insert_sorted x z [] h a = (h, tt)
  All-insert_sorted x z (y ∷ ys) h a = ground (arith, All-insert_sorted x z ys h a.1)

  module _ (total : (a b : A) → leb a b ≡ false → leb b a ≡ true)
      (trans : (a b c : A) → leb a b ≡ true → leb b c ≡ true → leb a c ≡ true) where
    All-leb_trans :
        (x z : A) (ys : List A)
        → leb z x ≡ true
        → All (λ y. leb x y ≡ true) ys
        → All (λ y. leb z y ≡ true) ys
    All-leb_trans x z [] h a = tt
    All-leb_trans x z (y ∷ ys) h a = (trans z x y h a.0, All-leb_trans x z ys h a.1)

    insert_sorted-IsSorted : (x : A) (ys : List A) → IsSorted ys → IsSorted (insert_sorted x ys)
    unfolding insert_sorted
    insert_sorted-IsSorted x [] h = (tt, tt)
    insert_sorted-IsSorted x (y ∷ ys) h = elim (Bool-cases (leb x y)) [
      | inl below ↦ rw below ((below, All-leb_trans y x ys below h.0), h)
      | inr above ↦
          rw above (All-insert_sorted x y ys (total x y above) h.0, insert_sorted-IsSorted x ys h.1)
    ]

    pub sort_by-IsSorted : (xs : List A) → IsSorted (sort_by xs)
    unfolding sort_by
    sort_by-IsSorted [] = tt
    sort_by-IsSorted (x ∷ xs) = insert_sorted-IsSorted x (sort_by xs) (sort_by-IsSorted xs)
