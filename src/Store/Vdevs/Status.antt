-- ===== src/Store/Vdevs/Status.antt =====
-- The status lines of a mount's slots against the missing ones (crates/lchfs-store/src/vdevs.rs).
use lchfs.Common.{
  ℕ, zero, suc, ◌≡◌, refl, arith, Bool, true, false, not, ◌&&◌, any, ◌==◌, Bool-cases, inl, inr,
}
use lchfs.Store.Vdevs.{
  VdevSet, VdevHealth, contains, has_slot, health_of, missing_slots, missing, status_from, status,
}

-- A line of a slot without a device in use.
abbrev pub is_out : VdevHealth → Bool
is_out VdevHealth.online = false
is_out VdevHealth.catching_up = false
is_out VdevHealth.faulted = true
is_out VdevHealth.absent = true

health-is_out : (s : VdevSet) (i : ℕ) → is_out (health_of s i) ≡ not (has_slot i s.members)
health-is_out s i = ground arith

contains-missing_slots :
    (s : VdevSet) (i from n : ℕ)
    → contains i (missing_slots from n s.members)
      ≡ any (λ l. (l.id == i) && is_out l.health) (status_from s from n)
unfolding missing_slots status_from
contains-missing_slots s i from zero = refl
contains-missing_slots s i from (suc n) =
    let ih = contains-missing_slots s i (suc from) n in
    let h = health-is_out s from in
    elim (Bool-cases (has_slot from s.members)) [ inl e ↦ ground arith | inr e ↦ ground arith ]

-- A slot is listed as missing exactly when its status line says that it is faulted or absent.
pub missing-status :
    (s : VdevSet) (i : ℕ)
    → contains i (missing s) ≡ any (λ l. (l.id == i) && is_out l.health) (status s)
unfolding missing status
missing-status s i = contains-missing_slots s i 0 s.count
