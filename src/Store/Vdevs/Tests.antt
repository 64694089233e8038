-- ===== src/Store/Vdevs/Tests.antt =====
-- A pool of three slots with the first and the third device online.
use lchfs.Common.{ℕ, ◌≡◌, refl, arith, true, some, List, [], ◌∷◌, any, ◌==◌, ◌&&◌, ◌<◌, zero, suc}
use lchfs.Store.Vdevs.{
  Member, VdevSet, contains, has_slot, find_slot, new_set, fault, attach, take_faulted,
  finish_catch_up, missing, status,
}
use lchfs.Store.Vdevs.Valid.{IsValid}
use lchfs.Store.Vdevs.Steps.{here, new_set-IsValid}
use lchfs.Store.Vdevs.Rejoin.{fault-rejoin}
use lchfs.Store.Vdevs.Status.{is_out, missing-status}

abbrev member : ℕ → Member
member id = record { vdev = record { id = id; root = b'd' ∷ id ∷ [] }; has_superblock = true }

abbrev two : List Member
two = member 0 ∷ member 2 ∷ []

abbrev faulted_set : VdevSet
faulted_set = (fault 2 (new_set two 3)).0

abbrev filled : VdevSet
filled = attach (member 1) faulted_set

below_count : (i : ℕ) → has_slot i two ≡ true → i < 3
below_count zero h = omega arith
below_count (suc zero) h = absurd (ground arith)
below_count (suc (suc zero)) h = omega arith
below_count (suc (suc (suc i))) h = absurd (ground arith)

third_online : find_slot 2 (new_set two 3).members ≡ some (member 2)
unfolding new_set find_slot
third_online = refl

started-IsValid : IsValid (new_set two 3)
started-IsValid =
    new_set-IsValid two 3 (new_set two 3) (refl, (refl, tt)) below_count (omega arith) here

fault-rejoin_example :
    let taken = take_faulted 2 (fault 2 (new_set two 3)).0 in
    let t = finish_catch_up 2 (attach (member 2) taken.0) in
    (taken.1 ≡ some (member 2))
    × (t.members ≡ (new_set two 3).members)
    × (t.faulted ≡ (new_set two 3).faulted)
    × (t.count ≡ (new_set two 3).count)
fault-rejoin_example = fault-rejoin (new_set two 3) (member 2) started-IsValid third_online

missing-status_example :
    contains 1 (missing (new_set two 3))
    ≡ any (λ l. (l.id == 1) && is_out l.health) (status (new_set two 3))
missing-status_example = missing-status (new_set two 3) 1
