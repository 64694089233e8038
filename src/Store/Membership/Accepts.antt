-- ===== src/Store/Membership/Accepts.antt =====
-- When `check_membership` (crates/lchfs-store/src/lib.rs) accepts the given devices, and what it
-- tells of a pool that it accepts.
use lchfs.Common.{
  ℕ, suc, ◌≡◌, ◌≢◌, ◌↔◌, refl, arith, Bool, false, length, All, none, List, [], ◌∷◌, ◌==◌, inl, inr,
  Bool-cases, Option-cases,
}
use lchfs.Store.Membership.Order.{IsDistinct}
use lchfs.Store.Membership.Read.{AreRead, IsHighest}
use lchfs.Store.Membership.{GivenRoot, Member, highest, vdev_id_of, misplaced, check_complete}

-- Every member tells the pool's uuid.
abbrev pub IsOf : List ℕ → List Member → Type 0
IsOf uuid ms = All (λ x. x.slot.pool_uuid ≡ uuid) ms

-- The members are the vdevs from `idx` on, in order.
abbrev pub IsFrom : ℕ → List Member → Type 0
IsFrom idx [] = Unit
IsFrom idx (m ∷ ms) = (vdev_id_of m ≡ idx) × IsFrom (suc idx) ms

misplaced-none : (idx : ℕ) (ms : List Member) → (misplaced idx ms ≡ none) ↔ IsFrom idx ms
unfolding misplaced
misplaced-none idx [] = ((λ h. tt), (λ h. refl))
misplaced-none idx (m ∷ ms) =
    let ih = misplaced-none (suc idx) ms in
    elim (Bool-cases (vdev_id_of m == idx)) [
      | inl e ↦ rw e ((λ h. (ground arith, ih.0 h)), (λ h. ih.1 h.1))
      | inr e ↦ rw e ((λ h. absurd (ground arith)), (λ h. absurd (let g = h.0 in ground arith)))
    ]

abbrev pub vdev_count_of : List Member → ℕ
vdev_count_of ms = highest (λ m. m.slot.vdev_count) ms

abbrev pub IsComplete : List Member → Type 0
IsComplete ms = (length ms ≡ vdev_count_of ms) × IsFrom 0 ms

-- The whole pool, given in order: no member tells a higher count than there are members, some
-- member tells that count, and each is the vdev of its position.
abbrev pub IsWhole : List Member → Type 0
IsWhole ms = IsHighest (λ m. m.slot.vdev_count) (length ms) ms × IsFrom 0 ms

pub check_complete-none :
    (ms : List Member) → (check_complete (vdev_count_of ms) ms ≡ none) ↔ IsComplete ms
unfolding check_complete
check_complete-none ms =
    let r = misplaced-none 0 ms in
    elim (Bool-cases (length ms == vdev_count_of ms)) [
      | inl e ↦ elim (Option-cases (misplaced 0 ms)) [
        | inl q ↦ rw (e, q) ((λ h. (ground arith, r.0 q)), (λ h. refl))
        | inr (x, q) ↦
            rw (e, q)
              ((λ h. absurd (ground arith)), (λ h. absurd (let g = r.1 h.1 in ground arith)))
      ]
      | inr e ↦ rw e ((λ h. absurd (ground arith)), (λ h. absurd (let g = h.0 in ground arith)))
    ]

-- What the devices must tell to be a pool.
pub record IsPool (roots : List GivenRoot) (allow_missing : Bool) : Type 0 where
  pub ms : List Member
  pub read : AreRead roots ms
  pub some_member : ms ≢ []
  pub uuid : List ℕ
  pub one_pool : IsOf uuid ms
  pub distinct : IsDistinct ms
  pub whole : allow_missing ≡ false → IsWhole ms
