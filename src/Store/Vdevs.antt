-- ===== src/Store/Vdevs.antt =====
-- The online device set of a mount: `VdevSet` of crates/lchfs-store/src/vdevs.rs. Its lock makes each
-- operation one step. A `HashSet` of slots is a list that `contains` reads; a member's superblock
-- ring is told by whether it has one, and its advisory lock is left out.
pub mod Valid
pub mod Steps
pub mod Rejoin
pub mod Status
mod Tests
use lchfs.Common.{
  ℕ, zero, suc, ◌+◌, ◌%◌, ◌^◌, Bool, true, false, not, ◌&&◌, ◌||◌, max, any, Option, none, some,
  List, [], ◌∷◌, ◌++◌, leb, ◌==◌, if◌then◌else◌,
}
use lchfs.Common.Names.{Name, sort_by}

pub record Vdev : Type 0 where
  pub id : ℕ
  pub root : Name

pub record Member : Type 0 where
  pub vdev : Vdev
  pub has_superblock : Bool

pub record VdevSet : Type 0 where
  pub members : List Member
  pub faulted : List Member
  pub count : ℕ
  pub offlined : List ℕ
  pub catching_up : List ℕ
  pub primary : ℕ

abbrev pub slot_of : Member → ℕ
slot_of m = m.vdev.id

-- A set of slots.
abbrev pub contains : ℕ → List ℕ → Bool
contains i [] = false
contains i (j ∷ js) = (j == i) || contains i js

abbrev pub insert_slot : ℕ → List ℕ → List ℕ
insert_slot i js = if contains i js then js else i ∷ js

unfoldable pub remove_slot : ℕ → List ℕ → List ℕ
remove_slot i [] = []
remove_slot i (j ∷ js) = let rest = remove_slot i js in if j == i then rest else j ∷ rest

-- `.iter().any(|m| m.vdev.id == id)`
abbrev pub has_slot : ℕ → List Member → Bool
has_slot i [] = false
has_slot i (m ∷ ms) = (slot_of m == i) || has_slot i ms

-- The member at `.iter().position(|m| m.vdev.id == id)`, and the others behind `remove(pos)`.
unfoldable pub find_slot : ℕ → List Member → Option Member
find_slot i [] = none
find_slot i (m ∷ ms) = let rest = find_slot i ms in if slot_of m == i then some m else rest

unfoldable pub without_slot : ℕ → List Member → List Member
without_slot i [] = []
without_slot i (m ∷ ms) = let rest = without_slot i ms in if slot_of m == i then ms else m ∷ rest

abbrev pub by_slot : Member → Member → Bool
by_slot a b = leb (slot_of a) (slot_of b)

abbrev pub first_slot : List Member → ℕ
first_slot [] = 0
first_slot (m ∷ ms) = slot_of m

unfoldable pub new_set : List Member → ℕ → VdevSet
new_set members count = record {
  members = members;
  faulted = [];
  count = count;
  offlined = [];
  catching_up = [];
  primary = first_slot members;
}

unfoldable pub primary_faulted : VdevSet → Bool
primary_faulted s = has_slot s.primary s.faulted

unfoldable pub promote : ℕ → VdevSet → VdevSet
promote id s = record s { primary = id }

unfoldable pub is_online : ℕ → VdevSet → Bool
is_online id s = has_slot id s.members

abbrev pub root_in : ℕ → List Member → Option Name
root_in id ms = elim (find_slot id ms) [ none ↦ none | some m ↦ some m.vdev.root ]

unfoldable pub root_of : ℕ → VdevSet → Option Name
root_of id s = root_in id s.members

unfoldable pub faulted_root : ℕ → VdevSet → Option Name
faulted_root id s = root_in id s.faulted

-- The set behind the call, and whether it changed.
unfoldable pub fault : ℕ → VdevSet → VdevSet × Bool
fault id s = elim (find_slot id s.members) [
  | none ↦ (s, false)
  | some m ↦ (
    record s {
      members = without_slot id s.members;
      catching_up = remove_slot id s.catching_up;
      faulted = s.faulted ++ (m ∷ []);
    },
    true,
  )
]

unfoldable pub missing_slots : ℕ → ℕ → List Member → List ℕ
missing_slots from zero ms = []
missing_slots from (suc n) ms =
    let rest = missing_slots (suc from) n ms in if not (has_slot from ms) then from ∷ rest else rest

unfoldable pub missing : VdevSet → List ℕ
missing s = missing_slots 0 s.count s.members

unfoldable pub attach : Member → VdevSet → VdevSet
attach m s = record s {
  count = max s.count ((slot_of m + 1) % 2 ^ 16);
  catching_up = insert_slot (slot_of m) s.catching_up;
  members = sort_by by_slot (s.members ++ (m ∷ []));
}

unfoldable pub take_faulted : ℕ → VdevSet → VdevSet × Option Member
take_faulted id s = elim (find_slot id s.faulted) [
  | none ↦ (record s { offlined = remove_slot id s.offlined }, none)
  | some m ↦ (
    record s { offlined = remove_slot id s.offlined; faulted = without_slot id s.faulted },
    some m,
  )
]

unfoldable pub mark_offlined : ℕ → VdevSet → VdevSet
mark_offlined id s = record s { offlined = insert_slot id s.offlined }

unfoldable pub unintended : List ℕ → List Member → List Vdev
unintended offlined [] = []
unintended offlined (m ∷ ms) =
    let rest = unintended offlined ms in
    if not (contains (slot_of m) offlined) then m.vdev ∷ rest else rest

unfoldable pub faulted_unintended : VdevSet → List Vdev
faulted_unintended s = unintended s.offlined s.faulted

abbrev pub last_removed : ℕ → VdevSet → VdevSet × Option Member
last_removed id s = elim (find_slot id s.members) [
  | some m ↦ (record s { members = without_slot id s.members }, some m)
  | none ↦ (record s { faulted = without_slot id s.faulted }, find_slot id s.faulted)
]

abbrev pub shrunk : ℕ → VdevSet → VdevSet
shrunk id s = record s {
  catching_up = remove_slot id s.catching_up;
  offlined = remove_slot id s.offlined;
  count = id;
}

abbrev pub detach_slot : ℕ → VdevSet → VdevSet × Option Member
detach_slot zero s = (s, none)
detach_slot (suc id) s = let r = last_removed id s in (shrunk id r.0, r.1)

unfoldable pub detach_last : VdevSet → VdevSet × Option Member
detach_last s = detach_slot s.count s

unfoldable pub finish_catch_up : ℕ → VdevSet → VdevSet
finish_catch_up id s = record s { catching_up = remove_slot id s.catching_up }

pub data VdevHealth : Type 0 where
  online : VdevHealth
  catching_up : VdevHealth
  faulted : VdevHealth
  absent : VdevHealth

pub record VdevStatus : Type 0 where
  pub id : ℕ
  pub health : VdevHealth
  pub root : Option Name

abbrev pub health_of : VdevSet → ℕ → VdevHealth
health_of s id =
    if has_slot id s.members
    then (if contains id s.catching_up then catching_up else online)
    else if has_slot id s.faulted
    then faulted
    else absent

unfoldable pub status_from : VdevSet → ℕ → ℕ → List VdevStatus
status_from s from zero = []
status_from s from (suc n) =
    record { id = from; health = health_of s from; root = root_in from (s.members ++ s.faulted) }
    ∷ status_from s (suc from) n

unfoldable pub status : VdevSet → List VdevStatus
status s = status_from s 0 s.count
