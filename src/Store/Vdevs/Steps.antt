-- ===== src/Store/Vdevs/Steps.antt =====
-- The operations of `VdevSet` (crates/lchfs-store/src/vdevs.rs) in any order, as a step relation.
use lchfs.Common.{
  ℕ, zero, suc, ◌+◌, ◌^◌, ◌<◌, ◌≡◌, refl, ap, subst, ◌∙◌, arith, true, false, ◌||◌, List, ◌==◌, inl,
  inr, Bool-cases, Option-cases,
}
use lchfs.Store.Vdevs.{
  Member, VdevSet, slot_of, contains, insert_slot, has_slot, find_slot, without_slot, fault, attach,
  take_faulted, mark_offlined, detach_last, detach_slot, last_removed, finish_catch_up, promote,
  new_set,
}
use lchfs.Store.Vdevs.Valid.{
  IsValid, IsAscending, IsAscending-UniqueSlots, has_slot-without_slot, has_slot-insert_sorted,
  find_slot-has_slot, contains-remove_slot, without_slot-IsAscending, without_slot-UniqueSlots,
  insert_sorted-IsAscending, sort_by_pushed, fault-IsValid,
}

contains-insert_slot :
    (i j : ℕ) (js : List ℕ) → contains j (insert_slot i js) ≡ ((i == j) || contains j js)
contains-insert_slot i j js = elim (Bool-cases (i == j)) [
  | inl e ↦
      let q : i ≡ j = ground arith in
      let c : contains i js ≡ contains j js = ap (λ x. contains x js) q in ground arith
  | inr e ↦ ground arith
]

module _ (s : VdevSet) (v : IsValid s) where
  attach-IsValid :
      (m : Member)
      → has_slot (slot_of m) s.members ≡ false
      → has_slot (slot_of m) s.faulted ≡ false
      → slot_of m + 1 < 2 ^ 16
      → IsValid (attach m s)
  unfolding attach
  attach-IsValid m h k room =
      let p = sort_by_pushed m s.members v.ascending h in
      let has = λ (i : ℕ). has_slot-insert_sorted i m s.members in
      let same = λ (i : ℕ) (e : (slot_of m == i) ≡ true).
        (let q : slot_of m ≡ i = ground arith in subst (λ x. has_slot x s.faulted ≡ false) q k) in
      rw p (record {
        ascending = insert_sorted-IsAscending m s.members v.ascending h;
        unique = v.unique;
        apart = λ i.
            (let a = v.apart i in
              let b = has i in
              elim (Bool-cases (slot_of m == i)) [
                | inl e ↦ let f = same i e in ground arith
                | inr e ↦ ground arith
              ]);
        bounded = ground (arith, v.bounded);
        counted = λ i g.
            (let c = v.counted i in
              let b = has i in
              elim (Bool-cases (slot_of m == i)) [
                | inl e ↦ ground arith
                | inr e ↦ let l = c (ground arith) in omega arith
              ]);
        catching = λ i g.
            (let c = v.catching i in
              let b = has i in
              let w = contains-insert_slot (slot_of m) i s.catching_up in
              elim (Bool-cases (slot_of m == i)) [
                | inl e ↦ ground arith
                | inr e ↦ let l = c (ground arith) in ground arith
              ]);
      })

  without_faulted : (id : ℕ) → IsValid (record s { faulted = without_slot id s.faulted })
  without_faulted id =
      let out = λ (i : ℕ). has_slot-without_slot id i s.faulted v.unique in
      record {
        ascending = v.ascending;
        unique = without_slot-UniqueSlots id s.faulted v.unique;
        apart = λ i. (let a = v.apart i in let o = out i in ground arith);
        bounded = v.bounded;
        counted = λ i h. (let o = out i in v.counted i (ground arith));
        catching = v.catching;
      }

  take_faulted-IsValid : (id : ℕ) → IsValid (take_faulted id s).0
  unfolding take_faulted
  take_faulted-IsValid id =
      let w = without_faulted id in
      elim (Option-cases (find_slot id s.faulted)) [
        | inl q ↦
            rw (q, take_faulted)
              (record {
                ascending = v.ascending;
                unique = v.unique;
                apart = v.apart;
                bounded = v.bounded;
                counted = v.counted;
                catching = v.catching;
              })
        | inr (m, q) ↦
            rw (q, take_faulted)
              (record {
                ascending = w.ascending;
                unique = w.unique;
                apart = w.apart;
                bounded = w.bounded;
                counted = w.counted;
                catching = w.catching;
              })
      ]

  finish_catch_up-IsValid : (id : ℕ) → IsValid (finish_catch_up id s)
  unfolding finish_catch_up
  finish_catch_up-IsValid id = record {
    ascending = v.ascending;
    unique = v.unique;
    apart = v.apart;
    bounded = v.bounded;
    counted = v.counted;
    catching =
        λ i h. (let r = contains-remove_slot id i s.catching_up in v.catching i (ground arith));
  }

  -- The last slot's device leaves, online or faulted.
  detach_slot-IsValid : (n : ℕ) → s.count ≡ n → IsValid (detach_slot n s).0
  detach_slot-IsValid zero e = v
  detach_slot-IsValid (suc id) e =
      let out = λ (i : ℕ).
        has_slot-without_slot id i s.members (IsAscending-UniqueSlots s.members v.ascending) in
      let out' = λ (i : ℕ). has_slot-without_slot id i s.faulted v.unique in
      let r = λ (i : ℕ). contains-remove_slot id i s.catching_up in
      elim (Option-cases (find_slot id s.members)) [
        | inr (m, q) ↦
            let on : has_slot id s.members ≡ true = (find_slot-has_slot id s.members ∙ rw q refl) in
            rw (q, last_removed)
              (record {
                ascending = without_slot-IsAscending id s.members v.ascending;
                unique = v.unique;
                apart = λ i. (let a = v.apart i in let o = out i in ground arith);
                bounded = omega (arith, v.bounded);
                counted = λ i h.
                    (let c = v.counted i in
                      let o = out i in
                      elim (Bool-cases (id == i)) [
                        | inl f ↦
                            let g : id ≡ i = ground arith in
                            let on' : has_slot i s.members ≡ true =
                              subst (λ x. has_slot x s.members ≡ true) g on in
                            let a = v.apart i in absurd (ground arith)
                        | inr f ↦ let l = c (ground arith) in ground arith
                      ]);
                catching = λ i h.
                    (let c = v.catching i in
                      let o = out i in
                      let w = r i in
                      elim (Bool-cases (id == i)) [
                        | inl f ↦ absurd (ground arith)
                        | inr f ↦ let k = c (ground arith) in ground arith
                      ]);
              })
        | inl q ↦
            let off : has_slot id s.members ≡ false =
              (find_slot-has_slot id s.members ∙ rw q refl) in
            let w = without_faulted id in
            rw (q, last_removed)
              (record {
                ascending = v.ascending;
                unique = w.unique;
                apart = w.apart;
                bounded = omega (arith, v.bounded);
                counted = λ i h.
                    (let c = v.counted i in
                      let o = out' i in
                      elim (Bool-cases (id == i)) [
                        | inl f ↦
                            let g : id ≡ i = ground arith in
                            let off' : has_slot i s.members ≡ false =
                              subst (λ x. has_slot x s.members ≡ false) g off in
                            absurd (ground arith)
                        | inr f ↦ let l = c (ground arith) in ground arith
                      ]);
                catching = λ i h. (let w' = r i in v.catching i (ground arith));
              })
      ]

-- The operations, and a mount's set of members.
pub data Step (s : VdevSet) (t : VdevSet) : Type 0 where
  faults : (id : ℕ) → (fault id s).0 ≡ t → Step s t
  -- A device joins a slot that has none, online or faulted, and is not the last of a u16.
  attaches :
      (m : Member)
      → has_slot (slot_of m) s.members ≡ false
      → has_slot (slot_of m) s.faulted ≡ false
      → slot_of m + 1 < 2 ^ 16
      → attach m s ≡ t
      → Step s t
  takes : (id : ℕ) → (take_faulted id s).0 ≡ t → Step s t
  offlines : (id : ℕ) → mark_offlined id s ≡ t → Step s t
  detaches : (detach_last s).0 ≡ t → Step s t
  finishes : (id : ℕ) → finish_catch_up id s ≡ t → Step s t
  promotes : (id : ℕ) → promote id s ≡ t → Step s t

pub data Reach (s : VdevSet) : VdevSet → Type 0 where
  here : Reach s s
  next : {t u : VdevSet} → Reach s t → Step t u → Reach s u

Step-IsValid : (s t : VdevSet) → IsValid s → Step s t → IsValid t
unfolding mark_offlined promote detach_last
Step-IsValid s t v (faults id e) = subst IsValid e (fault-IsValid s v id)
Step-IsValid s t v (attaches m h k r e) = subst IsValid e (attach-IsValid s v m h k r)
Step-IsValid s t v (takes id e) = subst IsValid e (take_faulted-IsValid s v id)
Step-IsValid s t v (offlines id e) = subst IsValid e (record {
  ascending = v.ascending;
  unique = v.unique;
  apart = v.apart;
  bounded = v.bounded;
  counted = v.counted;
  catching = v.catching;
})
Step-IsValid s t v (detaches e) = subst IsValid e (detach_slot-IsValid s v s.count refl)
Step-IsValid s t v (finishes id e) = subst IsValid e (finish_catch_up-IsValid s v id)
Step-IsValid s t v (promotes id e) = subst IsValid e (record {
  ascending = v.ascending;
  unique = v.unique;
  apart = v.apart;
  bounded = v.bounded;
  counted = v.counted;
  catching = v.catching;
})

pub new_set-IsValid :
    (members : List Member) (count : ℕ) (t : VdevSet)
    → IsAscending members
    → ((i : ℕ) → has_slot i members ≡ true → i < count)
    → count < 2 ^ 16
    → Reach (new_set members count) t
    → IsValid t
unfolding new_set
new_set-IsValid members count _ a b c here = record {
  ascending = a;
  unique = tt;
  apart = λ i. ground arith;
  bounded = c;
  counted = λ i h. b i (ground arith);
  catching = λ i h. absurd (ground arith);
}
new_set-IsValid members count _ a b c (next {t} {u} r s) =
    Step-IsValid t u (new_set-IsValid members count t a b c r) s
