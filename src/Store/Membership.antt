-- ===== src/Store/Membership.antt =====
-- Which devices make up a pool: `Membership` and `check_membership` of crates/lchfs-store/src/lib.rs.
-- What opening a device and reading its superblock ring give is part of a given root.
pub mod Read
pub mod Order
pub mod Accepts
pub mod Report
mod Tests
use lchfs.Common.{
  ℕ, zero, suc, ◌+◌, Bool, true, false, not, ◌&&◌, ◌||◌, max, length, any, Option, none, some, List,
  [], ◌∷◌, ◌++◌, ltb, leb, ◌==◌, if◌then◌else◌, Result, ok, err, map,
}
use lchfs.Common.Names.{Name, name_eq, sort_by, insert_sorted}
use lchfs.Format.Superblock.{SuperblockSlot}

-- The kinds of error with which a device may fail to open.
pub data OpenError : Type 0 where
  invalid_data : OpenError
  not_found : OpenError
  other_kind : OpenError

abbrev pub is_unformatted : OpenError → Bool
is_unformatted invalid_data = true
is_unformatted not_found = true
is_unformatted other_kind = false

pub data PoolError : Type 0 where
  no_vdev : PoolError
  device_error : Name → PoolError
  no_superblock : Name → PoolError
  different_pool : Name → PoolError
  wrong_count : ℕ → ℕ → PoolError
  out_of_order : Name → ℕ → ℕ → PoolError
  both_claim : Name → Name → ℕ → PoolError

pub record GivenRoot : Type 0 where
  pub path : Name
  pub open_error : Option OpenError
  pub is_formatted : Bool
  pub ring_written : Bool
  -- What `FileBackend::open_existing` fails with, if it does.
  pub backend_error : Option PoolError
  pub superblock : Result PoolError (Option SuperblockSlot)

pub record Member : Type 0 where
  pub slot : SuperblockSlot
  pub path : Name

pub record Membership : Type 0 where
  pub members : List Member
  pub vdev_count : ℕ
  pub missing_vdevs : List ℕ
  pub stale_vdevs : List ℕ

abbrev pub fails_to_open : Option OpenError → Bool
fails_to_open none = false
fails_to_open (some e) = not (is_unformatted e)

abbrev pub member_of :
    Name → Option PoolError → Result PoolError (Option SuperblockSlot) → Result PoolError Member
member_of path (some e) read = err e
member_of path none (err e) = err e
member_of path none (ok none) = err (no_superblock path)
member_of path none (ok (some slot)) = ok (record { slot = slot; path = path })

unfoldable pub read_member : GivenRoot → Result PoolError Member
read_member r =
    if fails_to_open r.open_error
    then err (device_error r.path)
    else if not r.is_formatted || not r.ring_written
    then err (no_superblock r.path)
    else member_of r.path r.backend_error r.superblock

abbrev pub with_member :
    Result PoolError Member → Result PoolError (List Member) → Result PoolError (List Member)
with_member (err e) rest = err e
with_member (ok m) (err e) = err e
with_member (ok m) (ok ms) = ok (m ∷ ms)

unfoldable pub read_members : List GivenRoot → Result PoolError (List Member)
read_members [] = ok []
read_members (r ∷ roots) = with_member (read_member r) (read_members roots)

-- The first member of another pool.
unfoldable pub stranger : List ℕ → List Member → Option Member
stranger uuid [] = none
stranger uuid (m ∷ ms) =
    let rest = stranger uuid ms in if not (name_eq m.slot.pool_uuid uuid) then some m else rest

-- `.map(f).max().unwrap_or(0)`
unfoldable pub highest : (Member → ℕ) → List Member → ℕ
highest f [] = 0
highest f (m ∷ ms) = max (f m) (highest f ms)

abbrev pub vdev_id_of : Member → ℕ
vdev_id_of m = m.slot.vdev_id

-- The first member that is not the vdev of its position.
unfoldable pub misplaced : ℕ → List Member → Option (Member × ℕ)
misplaced idx [] = none
misplaced idx (m ∷ ms) =
    let rest = misplaced (suc idx) ms in if not (vdev_id_of m == idx) then some (m, idx) else rest

-- The first neighbours that claim to be the same vdev.
unfoldable pub claimed_twice : List Member → Option (Member × Member)
claimed_twice [] = none
claimed_twice (a ∷ []) = none
claimed_twice (a ∷ b ∷ ms) =
    let rest = claimed_twice (b ∷ ms) in if vdev_id_of a == vdev_id_of b then some (a, b) else rest

abbrev pub has_vdev : ℕ → List Member → Bool
has_vdev id ms = any (λ m. vdev_id_of m == id) ms

-- `(from..from + n).filter(|id| !present.contains(id))`
unfoldable pub missing_from : ℕ → ℕ → List Member → List ℕ
missing_from from zero ms = []
missing_from from (suc n) ms =
    let rest = missing_from (suc from) n ms in if not (has_vdev from ms) then from ∷ rest else rest

unfoldable pub stale : ℕ → List Member → List ℕ
stale newest [] = []
stale newest (m ∷ ms) =
    let rest = stale newest ms in if ltb m.slot.generation newest then vdev_id_of m ∷ rest else rest

abbrev pub by_vdev_id : Member → Member → Bool
by_vdev_id a b = leb (vdev_id_of a) (vdev_id_of b)

unfoldable pub membership_of : ℕ → List Member → Result PoolError Membership
membership_of vdev_count sorted = elim (claimed_twice sorted) [
  | some (a, b) ↦ err (both_claim a.path b.path (vdev_id_of a))
  | none ↦ ok (record {
    members = sorted;
    vdev_count = vdev_count;
    missing_vdevs = missing_from 0 vdev_count sorted;
    stale_vdevs = stale (highest (λ m. m.slot.generation) sorted) sorted;
  })
]

-- The checks that only a whole set given in order passes.
abbrev pub checked_order : List Member → ℕ → Option (Member × ℕ) → Option PoolError
checked_order ms vdev_count none = none
checked_order ms vdev_count (some (m, idx)) = some (out_of_order m.path (vdev_id_of m) idx)

unfoldable pub check_complete : ℕ → List Member → Option PoolError
check_complete vdev_count ms =
    if not (length ms == vdev_count)
    then some (wrong_count vdev_count (length ms))
    else checked_order ms vdev_count (misplaced 0 ms)

unfoldable pub judged : Bool → List Member → Result PoolError Membership
judged allow_missing ms =
    let vdev_count = highest (λ m. m.slot.vdev_count) ms in
    elim (if allow_missing then none else check_complete vdev_count ms) [
      | some e ↦ err e
      | none ↦ membership_of vdev_count (sort_by by_vdev_id ms)
    ]

abbrev pub checked_members : Bool → Result PoolError (List Member) → Result PoolError Membership
checked_members allow_missing (err e) = err e
checked_members allow_missing (ok []) = err no_vdev
checked_members allow_missing (ok (m ∷ ms)) = elim (stranger m.slot.pool_uuid (m ∷ ms)) [
  | some s ↦ err (different_pool s.path)
  | none ↦ judged allow_missing (m ∷ ms)
]

unfoldable pub check_membership : List GivenRoot → Bool → Result PoolError Membership
check_membership [] allow_missing = err no_vdev
check_membership (r ∷ roots) allow_missing =
    checked_members allow_missing (read_members (r ∷ roots))
