-- ===== src/Store/Vdevs/Rejoin.antt =====
-- A device that faults and comes back (crates/lchfs-store/src/vdevs.rs): `fault`, `take_faulted`,
-- `attach` and `finish_catch_up` one after another.
use lchfs.Common.{
  ◌≡◌, refl, sym, ap, ◌∙◌, arith, true, false, some, List, [], ◌∷◌, ◌++◌, ◌==◌, inl, inr,
  Bool-cases,
}
use lchfs.Common.Names.{insert_sorted}
use lchfs.Store.Vdevs.{
  Member, VdevSet, slot_of, has_slot, find_slot, without_slot, by_slot, fault, attach, take_faulted,
  finish_catch_up, remove_slot,
}
use lchfs.Store.Vdevs.Valid.{
  IsValid, IsAscending, IsAscending-UniqueSlots, has_slot-without_slot, find_slot-has_slot,
  above-has_slot, insert_below, without_slot-IsAscending, sort_by_pushed,
}

find_slot-append :
    (m : Member) (ms : List Member)
    → has_slot (slot_of m) ms ≡ false
    → find_slot (slot_of m) (ms ++ (m ∷ [])) ≡ some m
unfolding find_slot
find_slot-append m [] h = ground arith
find_slot-append m (x ∷ ms) h = ground (arith, find_slot-append m ms)

without_slot-append :
    (m : Member) (ms : List Member)
    → has_slot (slot_of m) ms ≡ false
    → without_slot (slot_of m) (ms ++ (m ∷ [])) ≡ ms
unfolding without_slot
without_slot-append m [] h = ground arith
without_slot-append m (x ∷ ms) h =
    let e : (slot_of x == slot_of m) ≡ false = ground arith in
    let ih = without_slot-append m ms (ground arith) in rw (e, ih) refl

insert-without_slot :
    (m : Member) (ms : List Member)
    → IsAscending ms
    → find_slot (slot_of m) ms ≡ some m
    → insert_sorted by_slot m (without_slot (slot_of m) ms) ≡ ms
unfolding insert_sorted without_slot find_slot
insert-without_slot m [] a h = absurd (ground arith)
insert-without_slot m (x ∷ ms) a h = elim (Bool-cases (slot_of x == slot_of m)) [
  | inl e ↦
      let g : some x ≡ some m = rw (e, find_slot) at h in
      let f : x ≡ m = cc in
      rw e (insert_below (slot_of x) m ms a.0 (ground arith) ∙ ap (λ (y : Member). y ∷ ms) (sym f))
  | inr e ↦
      let g : find_slot (slot_of m) ms ≡ some m = rw (e, find_slot) at h in
      let on : has_slot (slot_of m) ms ≡ true = (find_slot-has_slot (slot_of m) ms ∙ rw g refl) in
      let below : by_slot m x ≡ false = elim (Bool-cases (by_slot m x)) [
        | inr b ↦ b
        | inl b ↦
            absurd
              (let n = above-has_slot (slot_of x) (slot_of m) ms a.0 (ground arith) in ground arith)
      ] in
      rw (e, below) (ap (λ (t : List Member). x ∷ t) (insert-without_slot m ms a.1 g))
]

abbrev faulted_set : Member → VdevSet → VdevSet
faulted_set m s = record s {
  members = without_slot (slot_of m) s.members;
  catching_up = remove_slot (slot_of m) s.catching_up;
  faulted = s.faulted ++ (m ∷ []);
}

fault_found :
    (s : VdevSet) (m : Member)
    → find_slot (slot_of m) s.members ≡ some m
    → fault (slot_of m) s ≡ (faulted_set m s, true)
unfolding fault
fault_found s m q = rw (q, fault) refl

take_faulted_found :
    (s : VdevSet) (m : Member)
    → find_slot (slot_of m) s.faulted ≡ some m
    → take_faulted (slot_of m) s ≡ (
      record s {
        offlined = remove_slot (slot_of m) s.offlined;
        faulted = without_slot (slot_of m) s.faulted;
      },
      some m,
    )
unfolding take_faulted
take_faulted_found s m q = rw (q, take_faulted) refl

-- A device of a valid set that faults is given back by `take_faulted`, and attached again and
-- caught up the set has the members, the faulted devices and the count of before.
pub fault-rejoin :
    (s : VdevSet) (m : Member)
    → IsValid s
    → find_slot (slot_of m) s.members ≡ some m
    → let taken = take_faulted (slot_of m) (fault (slot_of m) s).0 in
      let t = finish_catch_up (slot_of m) (attach m taken.0) in
      (taken.1 ≡ some m) × (t.members ≡ s.members) × (t.faulted ≡ s.faulted) × (t.count ≡ s.count)
unfolding attach finish_catch_up
fault-rejoin s m v q =
    let on : has_slot (slot_of m) s.members ≡ true =
      (find_slot-has_slot (slot_of m) s.members ∙ rw q refl) in
    let off : has_slot (slot_of m) s.faulted ≡ false =
      (let a = v.apart (slot_of m) in ground arith) in
    let u = IsAscending-UniqueSlots s.members v.ascending in
    let out : has_slot (slot_of m) (without_slot (slot_of m) s.members) ≡ false =
      (let o = has_slot-without_slot (slot_of m) (slot_of m) s.members u in ground arith) in
    let l = v.counted (slot_of m) (ground arith) in
    rw
      (fault_found s m q, take_faulted_found (faulted_set m s) m (find_slot-append m s.faulted off))
      (
        refl,
        sort_by_pushed m (without_slot (slot_of m) s.members)
              (without_slot-IsAscending (slot_of m) s.members v.ascending) out
            ∙ insert-without_slot m s.members v.ascending q,
        without_slot-append m s.faulted off,
        omega arith,
      )
