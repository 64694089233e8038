-- ===== src/Store/Membership/Order.antt =====
-- The members of a pool sorted by their vdev's id (`check_membership` of crates/lchfs-store/src/lib.rs).
use lchfs.Common.{
  ◌<◌, ◌≡◌, ◌≢◌, ◌↔◌, refl, arith, false, All, none, List, [], ◌∷◌, ◌==◌, inl, inr, Bool-cases,
}
use lchfs.Common.Names.{sort_by, insert_sorted, IsSorted, sort_by-IsSorted}
use lchfs.Store.Membership.{Member, vdev_id_of, claimed_twice, by_vdev_id}

-- No two members claim one vdev.
abbrev pub IsDistinct : List Member → Type 0
IsDistinct [] = Unit
IsDistinct (m ∷ ms) = All (λ x. vdev_id_of x ≢ vdev_id_of m) ms × IsDistinct ms

-- In ascending order of the vdev's id, each id once.
abbrev pub IsAscending : List Member → Type 0
IsAscending [] = Unit
IsAscending (m ∷ ms) = All (λ x. vdev_id_of m < vdev_id_of x) ms × IsAscending ms

module _ (P : Member → Type 0) where
  All-insert_sorted :
      (m : Member) (ms : List Member) → P m → All P ms → All P (insert_sorted by_vdev_id m ms)
  unfolding insert_sorted
  All-insert_sorted m [] h g = (h, g)
  All-insert_sorted m (x ∷ ms) h g = elim (Bool-cases (by_vdev_id m x)) [
    | inl e ↦ rw e (h, g)
    | inr e ↦ rw e (g.0, All-insert_sorted m ms h g.1)
  ]

  All-of_insert_sorted :
      (m : Member) (ms : List Member) → All P (insert_sorted by_vdev_id m ms) → P m × All P ms
  unfolding insert_sorted
  All-of_insert_sorted m [] h = h
  All-of_insert_sorted m (x ∷ ms) h = elim (Bool-cases (by_vdev_id m x)) [
    | inl e ↦ let g : All P (m ∷ x ∷ ms) = rw e at h in g
    | inr e ↦
        let g : All P (x ∷ insert_sorted by_vdev_id m ms) = rw e at h in
        let r = All-of_insert_sorted m ms g.1 in (r.0, (g.0, r.1))
  ]

  pub All-sort_by : (ms : List Member) → All P ms → All P (sort_by by_vdev_id ms)
  unfolding sort_by
  All-sort_by [] h = h
  All-sort_by (m ∷ ms) h = All-insert_sorted m (sort_by by_vdev_id ms) h.0 (All-sort_by ms h.1)

  pub All-of_sort_by : (ms : List Member) → All P (sort_by by_vdev_id ms) → All P ms
  unfolding sort_by
  All-of_sort_by [] h = h
  All-of_sort_by (m ∷ ms) h =
      let r = All-of_insert_sorted m (sort_by by_vdev_id ms) h in (r.0, All-of_sort_by ms r.1)

pub All-weaken :
    (P Q : Member → Type 0) (ms : List Member) → ((m : Member) → P m → Q m) → All P ms → All Q ms
All-weaken P Q [] h a = tt
All-weaken P Q (m ∷ ms) h a = (h m a.0, All-weaken P Q ms h a.1)

insert-IsAscending :
    (m : Member) (ms : List Member)
    → All (λ x. vdev_id_of x ≢ vdev_id_of m) ms
    → IsAscending ms
    → IsAscending (insert_sorted by_vdev_id m ms)
unfolding insert_sorted
insert-IsAscending m [] d a = (tt, tt)
insert-IsAscending m (x ∷ ms) d a = elim (Bool-cases (by_vdev_id m x)) [
  | inl e ↦
      let l : vdev_id_of m < vdev_id_of x = (let n = d.0 in ground arith) in
      rw e (
        (
          l,
          All-weaken (λ y. vdev_id_of x < vdev_id_of y) (λ y. vdev_id_of m < vdev_id_of y) ms
              (λ y h. omega arith) a.0,
        ),
        a,
      )
  | inr e ↦ rw e (
    All-insert_sorted (λ y. vdev_id_of x < vdev_id_of y) m ms (ground arith) a.0,
    insert-IsAscending m ms d.1 a.1,
  )
]

of_insert-IsAscending :
    (m : Member) (ms : List Member)
    → IsAscending (insert_sorted by_vdev_id m ms)
    → All (λ x. vdev_id_of x ≢ vdev_id_of m) ms × IsAscending ms
unfolding insert_sorted
of_insert-IsAscending m [] a = (tt, tt)
of_insert-IsAscending m (x ∷ ms) a = elim (Bool-cases (by_vdev_id m x)) [
  | inl e ↦
      let g : IsAscending (m ∷ x ∷ ms) = rw e at a in
      (
        All-weaken (λ y. vdev_id_of m < vdev_id_of y) (λ y. vdev_id_of y ≢ vdev_id_of m) (x ∷ ms)
            (λ y h q. omega arith) g.0,
        g.1,
      )
  | inr e ↦
      let g : IsAscending (x ∷ insert_sorted by_vdev_id m ms) = rw e at a in
      let r = of_insert-IsAscending m ms g.1 in
      let s = All-of_insert_sorted (λ y. vdev_id_of x < vdev_id_of y) m ms g.0 in
      (((λ q. omega (arith, s.0)), r.0), (s.1, r.1))
]

pub sort-IsAscending : (ms : List Member) → IsDistinct ms ↔ IsAscending (sort_by by_vdev_id ms)
unfolding sort_by
sort-IsAscending [] = ((λ d. d), (λ a. a))
sort-IsAscending (m ∷ ms) = (
  λ d.
      insert-IsAscending m (sort_by by_vdev_id ms)
        (All-sort_by (λ x. vdev_id_of x ≢ vdev_id_of m) ms d.0) ((sort-IsAscending ms).0 d.1),
  λ a.
      let r = of_insert-IsAscending m (sort_by by_vdev_id ms) a in
      (All-of_sort_by (λ x. vdev_id_of x ≢ vdev_id_of m) ms r.0, (sort-IsAscending ms).1 r.1),
)

pub claimed_twice-none : (ms : List Member) → IsAscending ms → claimed_twice ms ≡ none
unfolding claimed_twice
claimed_twice-none [] a = refl
claimed_twice-none (m ∷ []) a = refl
claimed_twice-none (m ∷ x ∷ ms) a =
    let ih = claimed_twice-none (x ∷ ms) a.1 in
    let n : (vdev_id_of m == vdev_id_of x) ≡ false = (let h = a.0.0 in ground arith) in rw n ih

pub of_claimed_twice-none :
    (ms : List Member) → IsSorted by_vdev_id ms → claimed_twice ms ≡ none → IsAscending ms
unfolding claimed_twice
of_claimed_twice-none [] s h = tt
of_claimed_twice-none (m ∷ []) s h = (tt, tt)
of_claimed_twice-none (m ∷ x ∷ ms) s h = elim (Bool-cases (vdev_id_of m == vdev_id_of x)) [
  | inl e ↦ absurd (ground arith)
  | inr e ↦
      let h' : claimed_twice (x ∷ ms) ≡ none = ground arith in
      let ih = of_claimed_twice-none (x ∷ ms) s.1 h' in
      let l : vdev_id_of m < vdev_id_of x = (let g = s.0.0 in ground arith) in
      (
        (
          l,
          All-weaken (λ y. vdev_id_of x < vdev_id_of y) (λ y. vdev_id_of m < vdev_id_of y) ms
              (λ y g. omega arith) ih.0,
        ),
        ih,
      )
]

pub sort_by_vdev-IsSorted : (ms : List Member) → IsSorted by_vdev_id (sort_by by_vdev_id ms)
sort_by_vdev-IsSorted ms =
    sort_by-IsSorted by_vdev_id (λ a b h. ground arith) (λ a b c h k. ground arith) ms
