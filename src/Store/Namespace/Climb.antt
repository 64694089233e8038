-- ===== src/Store/Namespace/Climb.antt =====
-- The walk up the parents, as `rename` of crates/lchfs-store/src/lib.rs takes it, and what becomes
-- of it when a parent is set or taken away.
use lchfs.Common.{
  ℕ, zero, suc, ◌≤◌, ◌<◌, ◌≡◌, ◌≢◌, refl, ap, subst, arith, true, false, ◌∷◌, [], ◌==◌, inl, inr,
  Bool-cases,
}
use lchfs.Common.Assoc.{
  Map, lookup, insert, remove, contains_key, entry_count, lookup-insert, lookup-remove,
}
use lchfs.Store.Namespace.{root_dir_ino, parent_or_root, meets}

-- The parents lead from `i` to the root in `n` steps.
abbrev pub Climbs : Map ℕ → ℕ → ℕ → Type 0
Climbs parents zero i = i ≡ root_dir_ino
Climbs parents (suc n) i = (i ≢ root_dir_ino) × Climbs parents n (parent_or_root parents i)

-- So, and without passing `moved`.
abbrev pub Clears : Map ℕ → ℕ → ℕ → ℕ → Type 0
Clears parents moved zero i = i ≡ root_dir_ino
Clears parents moved (suc n) i =
    (i ≢ root_dir_ino) × (i ≢ moved) × Clears parents moved n (parent_or_root parents i)

-- So, and within the keys of a map.
abbrev pub Within {ℓ} : {V : Type ℓ} → Map V → Map ℕ → ℕ → ℕ → Type 0
Within m parents zero i = i ≡ root_dir_ino
Within m parents (suc n) i =
    (i ≢ root_dir_ino) × (contains_key i m ≡ true) × Within m parents n (parent_or_root parents i)

Climbs-unique : (parents : Map ℕ) (a b i : ℕ) → Climbs parents a i → Climbs parents b i → a ≡ b
Climbs-unique parents zero zero i h g = refl
Climbs-unique parents zero (suc b) i h g = absurd (g.0 h)
Climbs-unique parents (suc a) zero i h g = absurd (h.0 g)
Climbs-unique parents (suc a) (suc b) i h g =
    ap suc (Climbs-unique parents a b (parent_or_root parents i) h.1 g.1)

module _ {ℓ} {V : Type ℓ} where
  Within-Climbs :
      (m : Map V) (parents : Map ℕ) (n i : ℕ) → Within m parents n i → Climbs parents n i
  Within-Climbs m parents zero i h = h
  Within-Climbs m parents (suc n) i h =
      (h.0, Within-Climbs m parents n (parent_or_root parents i) h.2)

  -- A key that is further from the root is not on the way.
  Within-remove :
      (m : Map V) (parents : Map ℕ) (k a n i : ℕ)
      → Climbs parents a k
      → n < a
      → Within m parents n i
      → Within (remove k m) parents n i
  Within-remove m parents k a zero i c l h = h
  Within-remove m parents k a (suc n) i c l h = (
    h.0,
    elim (Bool-cases (k == i)) [
      | inl e ↦
          let q : k ≡ i = ground arith in
          let d = subst (λ x. Climbs parents a x) q c in
          let w = Climbs-unique parents a (suc n) i d (Within-Climbs m parents (suc n) i h) in
          absurd (omega arith)
      | inr e ↦ (let g = h.1 in unfold contains_key in ground (arith, lookup-remove i k m))
    ],
    Within-remove m parents k a n (parent_or_root parents i) c (omega arith) h.2,
  )

  entry_count-remove_le : (k : ℕ) (m : Map V) → entry_count (remove k m) ≤ entry_count m
  unfolding remove entry_count
  entry_count-remove_le k [] = omega arith
  entry_count-remove_le k ((j, v) ∷ m) = ground (arith, entry_count-remove_le k m)

  entry_count-remove :
      (k : ℕ) (m : Map V) → contains_key k m ≡ true → entry_count (remove k m) < entry_count m
  unfolding remove entry_count contains_key lookup
  entry_count-remove k [] h = absurd (ground arith)
  entry_count-remove k ((j, v) ∷ m) h =
      ground (arith, entry_count-remove_le k m, entry_count-remove k m)

  -- The way is no longer than the map has keys.
  pub Within-entry_count :
      (m : Map V) (parents : Map ℕ) (n i : ℕ) → Within m parents n i → n ≤ entry_count m
  Within-entry_count m parents zero i h = omega arith
  Within-entry_count m parents (suc n) i h =
      let up = parent_or_root parents i in
      let c = Within-Climbs m parents (suc n) i h in
      let r = Within-remove m parents i (suc n) n up c (omega arith) h.2 in
      omega (arith, Within-entry_count (remove i m) parents n up r, entry_count-remove i m h.1)

-- The walk that does not meet `moved` within its bound.
pub meets-Clears :
    (bound : ℕ) (parents : Map ℕ) (moved n i : ℕ)
    → n ≤ bound
    → meets bound parents moved i ≡ false
    → Climbs parents n i
    → Clears parents moved n i
unfolding meets
meets-Clears bound parents moved zero i l h c = c
meets-Clears zero parents moved (suc n) i l h c = absurd (omega arith)
meets-Clears (suc bound) parents moved (suc n) i l h c =
    let up = parent_or_root parents i in
    let d = c.0 in
    elim (Bool-cases (i == moved)) [
      | inl e ↦ absurd (ground arith)
      | inr e ↦ elim (Bool-cases (i == root_dir_ino)) [
        | inl f ↦ absurd (d (ground arith))
        | inr f ↦ (
          d,
          (λ q. ground arith),
          meets-Clears bound parents moved n up (omega arith) (ground arith) c.1,
        )
      ]
    ]

-- Taking a key's parent away cuts the way short.
pub Clears-remove :
    (parents : Map ℕ) (k moved n i : ℕ)
    → Clears parents moved n i
    → (m : ℕ) × Clears (remove k parents) moved m i
Clears-remove parents k moved zero i c = (0, c)
Clears-remove parents k moved (suc n) i c =
    let (m, d) = Clears-remove parents k moved n (parent_or_root parents i) c.2 in
    elim (Bool-cases (k == i)) [
      | inl e ↦
          let g : parent_or_root (remove k parents) i ≡ root_dir_ino =
            ground (arith, lookup-remove i k parents) in
          (1, (c.0, c.1, g))
      | inr e ↦
          let g : parent_or_root parents i ≡ parent_or_root (remove k parents) i =
            ground (arith, lookup-remove i k parents) in
          (suc m, (c.0, c.1, subst (λ x. Clears (remove k parents) moved m x) g d))
    ]

pub Climbs-remove :
    (parents : Map ℕ) (k n i : ℕ) → Climbs parents n i → (m : ℕ) × Climbs (remove k parents) m i
Climbs-remove parents k zero i c = (0, c)
Climbs-remove parents k (suc n) i c =
    let (m, d) = Climbs-remove parents k n (parent_or_root parents i) c.1 in
    elim (Bool-cases (k == i)) [
      | inl e ↦
          let g : parent_or_root (remove k parents) i ≡ root_dir_ino =
            ground (arith, lookup-remove i k parents) in
          (1, (c.0, g))
      | inr e ↦
          let g : parent_or_root parents i ≡ parent_or_root (remove k parents) i =
            ground (arith, lookup-remove i k parents) in
          (suc m, (c.0, subst (λ x. Climbs (remove k parents) m x) g d))
    ]

-- Setting the parent of `moved` leaves a way that does not pass it.
Clears-insert :
    (parents : Map ℕ) (moved p n i : ℕ)
    → Clears parents moved n i
    → Climbs (insert moved p parents) n i
Clears-insert parents moved p zero i c = c
Clears-insert parents moved p (suc n) i c =
    let e : (moved == i) ≡ false = (let d = c.1 in ground arith) in
    let g : parent_or_root parents i ≡ parent_or_root (insert moved p parents) i =
      ground (arith, lookup-insert i moved p parents) in
    (
      c.0,
      subst (λ x. Climbs (insert moved p parents) n x) g
          (Clears-insert parents moved p n (parent_or_root parents i) c.2),
    )

-- Where the new parent's way does not pass `moved`, every way still leads to the root.
pub Climbs-insert :
    (parents : Map ℕ) (moved p a n i : ℕ)
    → Clears parents moved a p
    → Climbs parents n i
    → (m : ℕ) × Climbs (insert moved p parents) m i
Climbs-insert parents moved p a zero i above c = (0, c)
Climbs-insert parents moved p a (suc n) i above c =
    let (m, d) = Climbs-insert parents moved p a n (parent_or_root parents i) above c.1 in
    elim (Bool-cases (moved == i)) [
      | inl e ↦
          let g : p ≡ parent_or_root (insert moved p parents) i =
            ground (arith, lookup-insert i moved p parents) in
          (
            suc a,
            (
              c.0,
              subst (λ x. Climbs (insert moved p parents) a x) g
                  (Clears-insert parents moved p a p above),
            ),
          )
      | inr e ↦
          let g : parent_or_root parents i ≡ parent_or_root (insert moved p parents) i =
            ground (arith, lookup-insert i moved p parents) in
          (suc m, (c.0, subst (λ x. Climbs (insert moved p parents) m x) g d))
    ]
