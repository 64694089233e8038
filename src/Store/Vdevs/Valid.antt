-- ===== src/Store/Vdevs/Valid.antt =====
-- What every operation of `VdevSet` (crates/lchfs-store/src/vdevs.rs) keeps, as a step relation.
use lchfs.Common.{
  ℕ, ◌^◌, ◌≤◌, ◌<◌, ◌≡◌, refl, ap, subst, ◌∙◌, arith, true, false, ◌&&◌, ◌||◌, all, none, some,
  List, [], ◌∷◌, ◌++◌, ltb, ◌==◌, if◌then◌else◌, inl, inr, Bool-cases, Option-cases,
}
use lchfs.Common.Names.{sort_by, insert_sorted}
use lchfs.Store.Vdevs.{
  Member, VdevSet, slot_of, contains, remove_slot, has_slot, find_slot, without_slot, by_slot,
  fault,
}

-- In ascending order of the slots, each slot once.
abbrev pub IsAscending : List Member → Type 0
IsAscending [] = Unit
IsAscending (m ∷ ms) = (all (λ x. ltb (slot_of m) (slot_of x)) ms ≡ true) × IsAscending ms

abbrev pub UniqueSlots : List Member → Type 0
UniqueSlots [] = Unit
UniqueSlots (m ∷ ms) = (has_slot (slot_of m) ms ≡ false) × UniqueSlots ms

pub above-has_slot :
    (b i : ℕ) (ms : List Member)
    → all (λ x. ltb b (slot_of x)) ms ≡ true
    → i ≤ b
    → has_slot i ms ≡ false
above-has_slot b i [] h l = refl
above-has_slot b i (m ∷ ms) h l = ground (arith, above-has_slot b i ms)

pub IsAscending-UniqueSlots : (ms : List Member) → IsAscending ms → UniqueSlots ms
IsAscending-UniqueSlots [] a = tt
IsAscending-UniqueSlots (m ∷ ms) a =
    (above-has_slot (slot_of m) (slot_of m) ms a.0 (omega arith), IsAscending-UniqueSlots ms a.1)

pub has_slot-without_slot :
    (id i : ℕ) (ms : List Member)
    → UniqueSlots ms
    → has_slot i (without_slot id ms) ≡ (if id == i then false else has_slot i ms)
unfolding without_slot
has_slot-without_slot id i [] u = ground arith
has_slot-without_slot id i (m ∷ ms) u =
    let ih = has_slot-without_slot id i ms u.1 in
    let h = u.0 in
    elim (Bool-cases (slot_of m == id)) [
      | inl e ↦
          let q : slot_of m ≡ id = ground arith in
          let g : has_slot id ms ≡ false = subst (λ x. has_slot x ms ≡ false) q h in
          elim (Bool-cases (id == i)) [
            | inl f ↦
                let r : id ≡ i = ground arith in
                let g' : has_slot i ms ≡ false = subst (λ x. has_slot x ms ≡ false) r g in
                rw e (ground arith)
            | inr f ↦ rw e (ground arith)
          ]
      | inr e ↦ rw e (ground arith)
    ]

pub has_slot-append :
    (i : ℕ) (m : Member) (ms : List Member)
    → has_slot i (ms ++ (m ∷ [])) ≡ (has_slot i ms || (slot_of m == i))
has_slot-append i m [] = ground arith
has_slot-append i m (x ∷ ms) = ground (arith, has_slot-append i m ms)

pub has_slot-insert_sorted :
    (i : ℕ) (m : Member) (ms : List Member)
    → has_slot i (insert_sorted by_slot m ms) ≡ ((slot_of m == i) || has_slot i ms)
unfolding insert_sorted
has_slot-insert_sorted i m [] = refl
has_slot-insert_sorted i m (x ∷ ms) = ground (arith, has_slot-insert_sorted i m ms)

pub find_slot-has_slot :
    (i : ℕ) (ms : List Member)
    → has_slot i ms ≡ elim (find_slot i ms) [ none ↦ false | some m ↦ true ]
unfolding find_slot
find_slot-has_slot i [] = refl
find_slot-has_slot i (m ∷ ms) = ground (arith, find_slot-has_slot i ms)

pub slot_of-find_slot :
    (i : ℕ) (m : Member) (ms : List Member) → find_slot i ms ≡ some m → slot_of m ≡ i
unfolding find_slot
slot_of-find_slot i m [] h = absurd (ground arith)
slot_of-find_slot i m (x ∷ ms) h = elim (Bool-cases (slot_of x == i)) [
  | inl e ↦
      let g : some x ≡ some m = rw (e, find_slot) at h in
      let f : x ≡ m = cc in let w = ap (λ (y : Member). slot_of y) f in ground arith
  | inr e ↦ slot_of-find_slot i m ms (rw (e, find_slot) at h)
]

pub contains-remove_slot :
    (i j : ℕ) (js : List ℕ)
    → contains j (remove_slot i js) ≡ (if i == j then false else contains j js)
unfolding remove_slot
contains-remove_slot i j [] = ground arith
contains-remove_slot i j (x ∷ js) = ground (arith, contains-remove_slot i j js)

all-without_slot :
    (b id : ℕ) (ms : List Member)
    → all (λ x. ltb b (slot_of x)) ms ≡ true
    → all (λ x. ltb b (slot_of x)) (without_slot id ms) ≡ true
unfolding without_slot
all-without_slot b id [] h = refl
all-without_slot b id (m ∷ ms) h = ground (arith, all-without_slot b id ms)

pub without_slot-IsAscending :
    (id : ℕ) (ms : List Member) → IsAscending ms → IsAscending (without_slot id ms)
unfolding without_slot
without_slot-IsAscending id [] a = tt
without_slot-IsAscending id (m ∷ ms) a = elim (Bool-cases (slot_of m == id)) [
  | inl e ↦ rw e a.1
  | inr e ↦ rw e (all-without_slot (slot_of m) id ms a.0, without_slot-IsAscending id ms a.1)
]

pub without_slot-UniqueSlots :
    (id : ℕ) (ms : List Member) → UniqueSlots ms → UniqueSlots (without_slot id ms)
unfolding without_slot
without_slot-UniqueSlots id [] u = tt
without_slot-UniqueSlots id (m ∷ ms) u = elim (Bool-cases (slot_of m == id)) [
  | inl e ↦ rw e u.1
  | inr e ↦
      let h = u.0 in
      let g = has_slot-without_slot id (slot_of m) ms u.1 in
      rw e (ground arith, without_slot-UniqueSlots id ms u.1)
]

pub insert_below :
    (b : ℕ) (m : Member) (ms : List Member)
    → all (λ x. ltb b (slot_of x)) ms ≡ true
    → slot_of m ≤ b
    → insert_sorted by_slot m ms ≡ m ∷ ms
unfolding insert_sorted
insert_below b m [] h l = refl
insert_below b m (x ∷ ms) h l = let e : by_slot m x ≡ true = ground arith in rw e refl

pub all-insert_sorted :
    (b : ℕ) (m : Member) (ms : List Member)
    → b < slot_of m
    → all (λ x. ltb b (slot_of x)) ms ≡ true
    → all (λ x. ltb b (slot_of x)) (insert_sorted by_slot m ms) ≡ true
unfolding insert_sorted
all-insert_sorted b m [] l h = ground arith
all-insert_sorted b m (x ∷ ms) l h = ground (arith, all-insert_sorted b m ms l)

all_weaken :
    (b c : ℕ) (ms : List Member)
    → c ≤ b
    → all (λ x. ltb b (slot_of x)) ms ≡ true
    → all (λ x. ltb c (slot_of x)) ms ≡ true
all_weaken b c [] l h = refl
all_weaken b c (x ∷ ms) l h = ground (arith, all_weaken b c ms l)

pub insert_sorted-IsAscending :
    (m : Member) (ms : List Member)
    → IsAscending ms
    → has_slot (slot_of m) ms ≡ false
    → IsAscending (insert_sorted by_slot m ms)
unfolding insert_sorted
insert_sorted-IsAscending m [] a h = (refl, tt)
insert_sorted-IsAscending m (x ∷ ms) a h = elim (Bool-cases (by_slot m x)) [
  | inl e ↦
      let w = all_weaken (slot_of x) (slot_of m) ms (ground arith) a.0 in rw e (ground arith, a)
  | inr e ↦ rw e (
    all-insert_sorted (slot_of x) m ms (ground arith) a.0,
    insert_sorted-IsAscending m ms a.1 (ground arith),
  )
]

-- A member that is pushed behind an ascending list and sorted takes its place in it.
pub sort_by_pushed :
    (m : Member) (ms : List Member)
    → IsAscending ms
    → has_slot (slot_of m) ms ≡ false
    → sort_by by_slot (ms ++ (m ∷ [])) ≡ insert_sorted by_slot m ms
unfolding sort_by insert_sorted
sort_by_pushed m [] a h = refl
sort_by_pushed m (x ∷ ms) a h =
    rw (sort_by_pushed m ms a.1 (ground arith)) (elim (Bool-cases (by_slot m x)) [
      | inl e ↦
          let f : by_slot x m ≡ false = ground arith in
          let p = insert_below (slot_of x) m ms a.0 (ground arith) in
          let q = insert_below (slot_of x) x ms a.0 (omega arith) in rw (e, p, f, q) refl
      | inr e ↦
          let p = all-insert_sorted (slot_of x) m ms (ground arith) a.0 in
          rw e (insert_below (slot_of x) x (insert_sorted by_slot m ms) p (omega arith))
    ])

pub record IsValid (s : VdevSet) : Type 0 where
  pub ascending : IsAscending s.members
  pub unique : UniqueSlots s.faulted
  -- No slot is both online and faulted.
  pub apart : (i : ℕ) → (has_slot i s.members && has_slot i s.faulted) ≡ false
  pub bounded : s.count < 2 ^ 16
  pub counted : (i : ℕ) → (has_slot i s.members || has_slot i s.faulted) ≡ true → i < s.count
  -- What catches up is online.
  pub catching : (i : ℕ) → contains i s.catching_up ≡ true → has_slot i s.members ≡ true

pub append-UniqueSlots :
    (m : Member) (ms : List Member)
    → UniqueSlots ms
    → has_slot (slot_of m) ms ≡ false
    → UniqueSlots (ms ++ (m ∷ []))
append-UniqueSlots m [] u h = (refl, tt)
append-UniqueSlots m (x ∷ ms) u h =
    let g = has_slot-append (slot_of x) m ms in
    let k = u.0 in (ground arith, append-UniqueSlots m ms u.1 (ground arith))

module _ (s : VdevSet) (v : IsValid s) where
  pub fault-IsValid : (id : ℕ) → IsValid (fault id s).0
  unfolding fault
  fault-IsValid id = elim (Option-cases (find_slot id s.members)) [
    | inl q ↦ rw (q, fault) v
    | inr (m, q) ↦
        let e = slot_of-find_slot id m s.members q in
        let on : has_slot id s.members ≡ true = (find_slot-has_slot id s.members ∙ rw q refl) in
        let out = λ (i : ℕ).
          has_slot-without_slot id i s.members (IsAscending-UniqueSlots s.members v.ascending) in
        let back = λ (i : ℕ). has_slot-append i m s.faulted in
        rw (q, fault)
          (record {
            ascending = without_slot-IsAscending id s.members v.ascending;
            unique =
                append-UniqueSlots m s.faulted v.unique (rw e (let a = v.apart id in ground arith));
            apart = λ i. (let a = v.apart i in let o = out i in let b = back i in ground arith);
            bounded = v.bounded;
            counted = λ i h.
                (let c = v.counted i in
                  let o = out i in
                  let b = back i in
                  elim (Bool-cases (id == i)) [
                    | inl f ↦
                        let g : id ≡ i = ground arith in
                        let on' : has_slot i s.members ≡ true =
                          subst (λ x. has_slot x s.members ≡ true) g on in
                        c (ground arith)
                    | inr f ↦ c (ground arith)
                  ]);
            catching = λ i h.
                (let c = v.catching i in
                  let r = contains-remove_slot id i s.catching_up in
                  let o = out i in
                  elim (Bool-cases (id == i)) [
                    | inl f ↦ absurd (ground arith)
                    | inr f ↦ let k = c (ground arith) in ground arith
                  ]);
          })
  ]
