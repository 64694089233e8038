-- ===== src/Common/Assoc.antt =====
-- A `HashMap` or `BTreeMap` with numeric keys, as an association list. `insert` replaces the value
-- of a key that is there, and `remove` takes every entry of the key away.
use Prim.Native.Nat.{ℕ, suc, ◌+◌}
use mathlib.Core.Path.{◌≡◌, refl}
use mathlib.Core.Bool.{Bool, true, false}
use mathlib.Core.List.{List, [], ◌∷◌}
use mathlib.Core.Option.{Option, none, some}
use native.Mathlib.Omega.{arith}
use lchfs.Common.Tests.{◌==◌, if◌then◌else◌}

abbrev pub Map {ℓ} : Type ℓ → Type ℓ
Map V = List (ℕ × V)

module _ {ℓ} {V : Type ℓ} where
  unfoldable pub lookup : ℕ → Map V → Option V
  lookup k [] = none
  lookup k ((j, v) ∷ m) = if j == k then some v else lookup k m

  unfoldable pub insert : ℕ → V → Map V → Map V
  insert k v [] = (k, v) ∷ []
  insert k v ((j, w) ∷ m) = if j == k then (k, v) ∷ m else (j, w) ∷ insert k v m

  unfoldable pub remove : ℕ → Map V → Map V
  remove k [] = []
  remove k ((j, w) ∷ m) = let rest = remove k m in if j == k then rest else (j, w) ∷ rest

  unfoldable pub contains_key : ℕ → Map V → Bool
  contains_key k m = elim (lookup k m) [ none ↦ false | some _ ↦ true ]

  unfoldable pub entry_count : Map V → ℕ
  entry_count [] = 0
  entry_count (_ ∷ m) = suc (entry_count m)

  -- No key stands twice.
  abbrev pub UniqueKeys : Map V → Type ℓ
  UniqueKeys [] = Unit
  UniqueKeys ((j, _) ∷ m) = (lookup j m ≡ none) × UniqueKeys m

  pub lookup-insert :
      (j k : ℕ) (v : V) (m : Map V)
      → lookup j (insert k v m) ≡ (if k == j then some v else lookup j m)
  unfolding lookup insert
  lookup-insert j k v [] = refl
  lookup-insert j k v ((i, w) ∷ m) = ground (arith, lookup-insert j k v m)

  pub lookup-remove :
      (j k : ℕ) (m : Map V) → lookup j (remove k m) ≡ (if k == j then none else lookup j m)
  unfolding lookup remove
  lookup-remove j k [] = ground arith
  lookup-remove j k ((i, w) ∷ m) = ground (arith, lookup-remove j k m)

  pub insert-UniqueKeys : (k : ℕ) (v : V) (m : Map V) → UniqueKeys m → UniqueKeys (insert k v m)
  unfolding insert lookup
  insert-UniqueKeys k v [] u = (refl, u)
  insert-UniqueKeys k v ((i, w) ∷ m) u =
      ground (arith, insert-UniqueKeys k v m u.1, lookup-insert i k v m)

  pub remove-UniqueKeys : (k : ℕ) (m : Map V) → UniqueKeys m → UniqueKeys (remove k m)
  unfolding remove
  remove-UniqueKeys k [] u = u
  remove-UniqueKeys k ((i, w) ∷ m) u =
      ground (arith, remove-UniqueKeys k m u.1, lookup-remove i k m)

-- The sum of a measure over the values.
module _ {ℓ} {V : Type ℓ} (f : V → ℕ) where
  unfoldable pub sum : Map V → ℕ
  sum [] = 0
  sum ((_, v) ∷ m) = f v + sum m

  pub sum-insert-some :
      (k : ℕ) (v old : V) (m : Map V)
      → lookup k m ≡ some old
      → sum (insert k v m) + f old ≡ sum m + f v
  unfolding sum lookup insert
  sum-insert-some k v old [] e = ground arith
  sum-insert-some k v old ((i, w) ∷ m) e = ground (arith, sum-insert-some k v old m)

  pub sum-insert-none :
      (k : ℕ) (v : V) (m : Map V) → lookup k m ≡ none → sum (insert k v m) ≡ sum m + f v
  unfolding sum lookup insert
  sum-insert-none k v [] e = omega arith
  sum-insert-none k v ((i, w) ∷ m) e = ground (arith, sum-insert-none k v m)

  pub sum-remove-none : (k : ℕ) (m : Map V) → lookup k m ≡ none → sum (remove k m) ≡ sum m
  unfolding sum lookup remove
  sum-remove-none k [] e = refl
  sum-remove-none k ((i, w) ∷ m) e = ground (arith, sum-remove-none k m)

  pub sum-remove-some :
      (k : ℕ) (v : V) (m : Map V)
      → UniqueKeys m
      → lookup k m ≡ some v
      → sum (remove k m) + f v ≡ sum m
  unfolding sum lookup remove
  sum-remove-some k v [] u e = ground arith
  sum-remove-some k v ((i, w) ∷ m) u e =
      ground (arith, sum-remove-some k v m u.1, sum-remove-none k m)
