-- ===== src/Store/Membership/Report.antt =====
-- What `check_membership` (crates/lchfs-store/src/lib.rs) reports of a pool that it accepts: its
-- members, the slots without a device, and the members that missed writes.
use lchfs.Common.{
  ℕ, zero, suc, ◌+◌, ◌≤◌, ◌<◌, ◌≡◌, refl, ap, subst, ◌∙◌, arith, Bool, true, false, not, ◌&&◌, ◌||◌,
  length, any, All, List, [], ◌∷◌, ltb, leb, ◌==◌, ok, inl, inr, Bool-cases, Option-cases,
  Result-cases,
}
use lchfs.Common.Names.{sort_by, insert_sorted}
use lchfs.Store.Membership.{
  GivenRoot, Member, Membership, highest, vdev_id_of, claimed_twice, has_vdev, missing_from, stale,
  by_vdev_id, membership_of, check_complete, judged, checked_members, check_membership,
  read_members, stranger,
}
use mathlib.Core.List.{Perm}
use mathlib.Core.List.Perm
use lchfs.Store.Membership.Read.{
  AreRead, IsHighest, ok_injective, read_members-AreRead, highest-IsHighest,
}
use lchfs.Store.Membership.Order.{
  IsAscending, of_claimed_twice-none, sort_by_vdev-IsSorted, All-weaken,
}
use lchfs.Store.Membership.Accepts.{IsFrom, vdev_count_of, check_complete-none}

abbrev pub is_listed : ℕ → List ℕ → Bool
is_listed i xs = any (λ j. j == i) xs

abbrev pub generation_of : Member → ℕ
generation_of m = m.slot.generation

missing_from_lem :
    (i from n : ℕ) (ms : List Member)
    → is_listed i (missing_from from n ms)
      ≡ ((leb from i && ltb i (from + n)) && not (has_vdev i ms))
unfolding missing_from
missing_from_lem i from zero ms = ground arith
missing_from_lem i from (suc n) ms =
    let ih = missing_from_lem i (suc from) n ms in
    elim (Bool-cases (from == i)) [
      | inl e ↦
          let q : from ≡ i = ground arith in
          let q' : has_vdev from ms ≡ has_vdev i ms = ap (λ x. has_vdev x ms) q in ground arith
      | inr e ↦ ground arith
    ]

missing_from-none :
    (from n : ℕ) (ms : List Member)
    → ((i : ℕ) → from ≤ i → i < from + n → has_vdev i ms ≡ true)
    → missing_from from n ms ≡ []
unfolding missing_from
missing_from-none from zero ms h = refl
missing_from-none from (suc n) ms h =
    let ih = missing_from-none (suc from) n ms (λ i a b. h i (omega arith) (omega arith)) in
    let e = h from (omega arith) (omega arith) in rw (e, ih) refl

has_vdev-insert_sorted :
    (i : ℕ) (m : Member) (ms : List Member)
    → has_vdev i (insert_sorted by_vdev_id m ms) ≡ has_vdev i (m ∷ ms)
unfolding insert_sorted
has_vdev-insert_sorted i m [] = refl
has_vdev-insert_sorted i m (x ∷ ms) = ground (arith, has_vdev-insert_sorted i m ms)

has_vdev-sort_by : (i : ℕ) (ms : List Member) → has_vdev i (sort_by by_vdev_id ms) ≡ has_vdev i ms
unfolding sort_by
has_vdev-sort_by i [] = refl
has_vdev-sort_by i (m ∷ ms) =
    has_vdev-insert_sorted i m (sort_by by_vdev_id ms)
    ∙ ap (λ b. (vdev_id_of m == i) || b) (has_vdev-sort_by i ms)

IsFrom-has_vdev :
    (from i : ℕ) (ms : List Member)
    → IsFrom from ms
    → from ≤ i
    → i < from + length ms
    → has_vdev i ms ≡ true
IsFrom-has_vdev from i [] h a b = absurd (omega arith)
IsFrom-has_vdev from i (m ∷ ms) h a b = elim (Bool-cases (from == i)) [
  | inl e ↦ (let q = h.0 in ground arith)
  | inr e ↦
      let ih = IsFrom-has_vdev (suc from) i ms h.1 (ground arith) (omega arith) in ground arith
]

highest_lem :
    (g : ℕ) (ms : List Member)
    → ltb g (highest generation_of ms) ≡ any (λ y. ltb g (generation_of y)) ms
unfolding highest
highest_lem g [] = ground arith
highest_lem g (m ∷ ms) = ground (arith, highest_lem g ms)

stale_above :
    (b newest : ℕ) (ms : List Member)
    → All (λ x. b < vdev_id_of x) ms
    → is_listed b (stale newest ms) ≡ false
unfolding stale
stale_above b newest [] h = refl
stale_above b newest (m ∷ ms) h =
    let ih = stale_above b newest ms h.1 in let l = h.0 in ground arith

All-both :
    (P Q R : Member → Type 0) (ms : List Member)
    → ((m : Member) → P m → Q m → R m)
    → All P ms
    → All Q ms
    → All R ms
All-both P Q R [] h a b = tt
All-both P Q R (m ∷ ms) h a b = (h m a.0 b.0, All-both P Q R ms h a.1 b.1)

stale_lem :
    (newest : ℕ) (ms : List Member)
    → IsAscending ms
    → All (λ x. is_listed (vdev_id_of x) (stale newest ms) ≡ ltb (generation_of x) newest) ms
unfolding stale
stale_lem newest [] h = tt
stale_lem newest (m ∷ ms) h =
    let a = stale_above (vdev_id_of m) newest ms h.0 in
    (
      ground arith,
      All-both (λ x. vdev_id_of m < vdev_id_of x)
          (λ x. is_listed (vdev_id_of x) (stale newest ms) ≡ ltb (generation_of x) newest)
          (λ x. is_listed (vdev_id_of x) (stale newest (m ∷ ms)) ≡ ltb (generation_of x) newest) ms
          (λ x l e. ground arith) h.0 (stale_lem newest ms h.1),
    )

-- Some member that is in the list has a later generation.
abbrev pub is_behind : Member → List Member → Bool
is_behind x ms = any (λ y. ltb (generation_of x) (generation_of y)) ms

pub record IsReport (roots : List GivenRoot) (m : Membership) : Type 0 where
  -- The members that the roots are read as, in the given order.
  pub told : List Member
  pub read : AreRead roots told
  pub same : Perm m.members told
  pub highest_count : IsHighest (λ x. x.slot.vdev_count) m.vdev_count told
  pub ascending : IsAscending m.members
  pub missing :
      (i : ℕ) → is_listed i m.missing_vdevs ≡ (ltb i m.vdev_count && not (has_vdev i m.members))
  pub behind : All (λ x. is_listed (vdev_id_of x) m.stale_vdevs ≡ is_behind x m.members) m.members

abbrev report_of : ℕ → List Member → Membership
report_of n sorted = record {
  members = sorted;
  vdev_count = n;
  missing_vdevs = missing_from 0 n sorted;
  stale_vdevs = stale (highest generation_of sorted) sorted;
}

-- Sorting reorders the members.
insert-perm : (m : Member) (ms : List Member) → Perm (insert_sorted by_vdev_id m ms) (m ∷ ms)
unfolding insert_sorted
insert-perm m [] = Perm.refl (m ∷ [])
insert-perm m (x ∷ ms) = elim (Bool-cases (by_vdev_id m x)) [
  | inl e ↦ rw e (Perm.refl (m ∷ x ∷ ms))
  | inr e ↦ rw e (Perm.trans (Perm.cons x (insert-perm m ms)) (Perm.swap m x ms))
]

sort-perm : (ms : List Member) → Perm (sort_by by_vdev_id ms) ms
unfolding sort_by
sort-perm [] = Perm.refl []
sort-perm (m ∷ ms) = Perm.trans (insert-perm m (sort_by by_vdev_id ms)) (Perm.cons m (sort-perm ms))

abbrev report_on : List Member → Membership
report_on ms = report_of (vdev_count_of ms) (sort_by by_vdev_id ms)

report_on-IsReport :
    (roots : List GivenRoot) (x : Member) (ms : List Member)
    → AreRead roots (x ∷ ms)
    → IsAscending (sort_by by_vdev_id (x ∷ ms))
    → IsReport roots (report_on (x ∷ ms))
report_on-IsReport roots x ms r a =
    let sorted = sort_by by_vdev_id (x ∷ ms) in
    let n = vdev_count_of (x ∷ ms) in
    record {
      told = x ∷ ms;
      read = r;
      same = sort-perm (x ∷ ms);
      highest_count = highest-IsHighest (λ y. y.slot.vdev_count) x ms;
      ascending = a;
      missing = λ i. (let g = missing_from_lem i 0 n sorted in ground arith);
      behind =
          All-weaken
            (λ x.
              is_listed (vdev_id_of x) (stale (highest generation_of sorted) sorted)
              ≡ ltb (generation_of x) (highest generation_of sorted))
            (λ x.
              is_listed (vdev_id_of x) (stale (highest generation_of sorted) sorted)
              ≡ is_behind x sorted)
            sorted (λ x e. e ∙ highest_lem (generation_of x) sorted)
            (stale_lem (highest generation_of sorted) sorted a);
    }

abbrev IsTold : List GivenRoot → Bool → Membership → Type 0
IsTold roots allow_missing m = IsReport roots m × (allow_missing ≡ false → m.missing_vdevs ≡ [])

module _ (roots : List GivenRoot) (x : Member) (ms : List Member)
    (read : AreRead roots (x ∷ ms)) where
  membership_of-IsReport :
      (m : Membership)
      → membership_of (vdev_count_of (x ∷ ms)) (sort_by by_vdev_id (x ∷ ms)) ≡ ok m
      → (report_on (x ∷ ms) ≡ m) × IsReport roots m
  unfolding membership_of
  membership_of-IsReport m h =
      let sorted = sort_by by_vdev_id (x ∷ ms) in
      elim (Option-cases (claimed_twice sorted)) [
        | inr (y, q) ↦ absurd (ground arith)
        | inl q ↦
            let e = ok_injective (report_on (x ∷ ms)) m (rw (q, membership_of) at h) in
            (
              e,
              subst (IsReport roots) e (
                  report_on-IsReport roots x ms read
                    (of_claimed_twice-none sorted (sort_by_vdev-IsSorted (x ∷ ms)) q)),
            )
      ]

  judged-IsTold :
      (allow_missing : Bool) (m : Membership)
      → judged allow_missing (x ∷ ms) ≡ ok m
      → IsTold roots allow_missing m
  unfolding judged
  judged-IsTold true m h = ((membership_of-IsReport m h).1, (λ e. absurd (ground arith)))
  judged-IsTold false m h =
      let all = x ∷ ms in
      elim (Option-cases (check_complete (vdev_count_of all) all)) [
        | inr (y, q) ↦ absurd (ground arith)
        | inl q ↦
            let w = (check_complete-none all).0 q in
            let r = membership_of-IsReport m (rw (q, judged) at h) in
            let none_missing : missing_from 0 (vdev_count_of all) (sort_by by_vdev_id all) ≡ [] =
              missing_from-none 0 (vdev_count_of all) (sort_by by_vdev_id all) (λ i a b.
                has_vdev-sort_by i all
                ∙ IsFrom-has_vdev 0 i all w.1 a (let l = w.0 in omega arith)) in
            (r.1, (λ e. subst (λ (y : Membership). y.missing_vdevs ≡ []) r.0 none_missing))
      ]

-- The devices of a pool that is accepted are reported as the members that they are read as, all of
-- them and no other, in ascending order of their vdev's id, each id once; the count is the highest
-- that one of them tells; a slot is reported missing exactly when it lies below the count and no
-- device is it; and a device is reported stale exactly when another one's superblock has a later
-- generation. Unless some may be missing, none is.
pub check_membership-reports :
    (roots : List GivenRoot) (allow_missing : Bool) (m : Membership)
    → check_membership roots allow_missing ≡ ok m
    → IsReport roots m × (allow_missing ≡ false → m.missing_vdevs ≡ [])
unfolding check_membership
check_membership-reports [] allow_missing m h = absurd (ground arith)
check_membership-reports (r ∷ roots) allow_missing m h =
    elim (Result-cases (read_members (r ∷ roots))) [
      | inl (x, e) ↦ absurd (ground arith)
      | inr (ms, e) ↦
          by_members ms ((read_members-AreRead (r ∷ roots) ms).0 e) (rw (e, check_membership) at h)
    ]
  where
    by_members :
        (ms : List Member)
        → AreRead (r ∷ roots) ms
        → checked_members allow_missing (ok ms) ≡ ok m
        → IsTold (r ∷ roots) allow_missing m
    by_members [] a h = absurd (ground arith)
    by_members (x ∷ ms) a h = elim (Option-cases (stranger x.slot.pool_uuid (x ∷ ms))) [
      | inr (y, q) ↦ absurd (ground arith)
      | inl q ↦ judged-IsTold (r ∷ roots) x ms a allow_missing m (rw (q, checked_members) at h)
    ]
