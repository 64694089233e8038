-- ===== src/Fuse/Acl/Inherit.antt =====
-- Inheriting an ACL never widens the mode that was asked for.
use lchfs.Common.{ℕ, zero, suc, ◌≤◌, Bool, true, false, ◌||◌}
use lchfs.Common.{Option, none, some, List, [], ◌∷◌, ◌==◌, if◌then◌else◌, arith}
use lchfs.Common.Bytes.{digit, digit-bit_and, digit-bit_or}
use Prim.Native.Nat.{bit_and, bit_or}
use lchfs.Fuse.Acl.{
  Entry, Masq, masq_step, masq_loop, masq_group, chosen, create_masq, inherit, Inherited, parse,
}
use lchfs.Fuse.Acl.{
  complement, s_irwxugo, umasked, serialize, tag_user_obj, tag_user, tag_group, tag_group_obj,
  tag_other, tag_mask, masq_user_obj, masq_other,
}

-- Every binary digit of `a` is one of `b`.
abbrev pub IsNarrower : ℕ → ℕ → Type 0
IsNarrower a b = (i : ℕ) → digit i a ≤ digit i b

IsNarrower-and : (a b : ℕ) → IsNarrower (bit_and a b) a
IsNarrower-and a b i = omega (arith, digit-bit_and i a b)

IsNarrower-refl : (a : ℕ) → IsNarrower a a
IsNarrower-refl a i = omega arith

IsNarrower-trans : (a b c : ℕ) → IsNarrower a b → IsNarrower b c → IsNarrower a c
IsNarrower-trans a b c h k i = omega (arith, h i, k i)

-- The mode bits that are carried on are among those before.
abbrev Narrows : {A : Type 0} → Masq → Option (A × Masq) → Type 0
Narrows m none = Unit
Narrows m (some (_, m')) = IsNarrower m'.mode_bits m.mode_bits

Narrows-if :
    {A : Type 0} (m : Masq) (b : Bool) (x y : Option (A × Masq))
    → Narrows m x
    → Narrows m y
    → Narrows m (if b then x else y)
Narrows-if m true x y h k = h
Narrows-if m false x y h k = k

masq_step-Narrows : (k : ℕ) (e : Entry) (m : Masq) → Narrows m (masq_step k e m)
unfolding masq_step
masq_step-Narrows k e m =
    let same = IsNarrower-refl m.mode_bits in
    Narrows-if m (e.tag == tag_user_obj) (some (masq_user_obj e m)) _ (IsNarrower-and m.mode_bits _)
      (Narrows-if m ((e.tag == tag_user) || (e.tag == tag_group))
        (some (e, record m { not_equiv = true })) _ same
        (Narrows-if m (e.tag == tag_group_obj) (some (e, record m { group_obj_idx = some k })) _
          same
          (Narrows-if m (e.tag == tag_other) (some (masq_other e m)) _
            (IsNarrower-and m.mode_bits _)
            (Narrows-if m (e.tag == tag_mask)
              (some (e, record m { mask_idx = some k; not_equiv = true })) none same tt))))

masq_loop-Narrows : (k : ℕ) (es : List Entry) (m : Masq) → Narrows m (masq_loop k es m)
unfolding masq_loop
masq_loop-Narrows k [] m = IsNarrower-refl m.mode_bits
masq_loop-Narrows k (e ∷ es) m =
    on_step (masq_step k e m) (masq_step-Narrows k e m) (λ m'. masq_loop-Narrows (suc k) es m')
  where
    on_rest :
        (e' : Entry) (m' : Masq) (r : Option (List Entry × Masq))
        → IsNarrower m'.mode_bits m.mode_bits
        → Narrows m' r
        → Narrows m (elim r [ none ↦ none | some (es', last) ↦ some (e' ∷ es', last) ])
    on_rest e' m' none h k = tt
    on_rest e' m' (some (es', last)) h k =
        IsNarrower-trans last.mode_bits m'.mode_bits m.mode_bits k h

    on_step :
        (r : Option (Entry × Masq))
        → Narrows m r
        → ((m' : Masq) → Narrows m' (masq_loop (suc k) es m'))
        → Narrows m (elim r [
          | none ↦ none
          | some (e', m') ↦ elim (masq_loop (suc k) es m') [
            | none ↦ none
            | some (es', last) ↦ some (e' ∷ es', last)
          ]
        ])
    on_step none h again = tt
    on_step (some (e', m')) h again = on_rest e' m' (masq_loop (suc k) es m') h (again m')

masq_group-IsNarrower :
    (k : ℕ) (es : List Entry) (bits : ℕ) → IsNarrower (masq_group k es bits).1 bits
unfolding masq_group
masq_group-IsNarrower k [] bits i = omega arith
masq_group-IsNarrower zero (e ∷ es) bits i = IsNarrower-and bits _ i
masq_group-IsNarrower (suc k) (e ∷ es) bits i = masq_group-IsNarrower k es bits i

-- The mode of a new inode, put together from the bits that are kept and those that the ACL leaves.
merged-IsNarrower :
    (mode bits : ℕ)
    → IsNarrower bits mode
    → IsNarrower (bit_or (bit_and mode (complement s_irwxugo)) (bit_and bits s_irwxugo)) mode
merged-IsNarrower mode bits h i = omega (
  arith,
  digit-bit_or i (bit_and mode (complement s_irwxugo)) (bit_and bits s_irwxugo),
  digit-bit_and i mode (complement s_irwxugo),
  digit-bit_and i bits s_irwxugo,
  h i,
)

abbrev KeepsMode : ℕ → Option (List Entry × (ℕ × Bool)) → Type 0
KeepsMode mode none = Unit
KeepsMode mode (some (_, (new_mode, _))) = IsNarrower new_mode mode

create_masq-KeepsMode : (es : List Entry) (mode : ℕ) → KeepsMode mode (create_masq es mode)
unfolding create_masq
create_masq-KeepsMode es mode = on_loop _ (masq_loop-Narrows 0 es start)
  where
    start : Masq
    start = record { mode_bits = mode; not_equiv = false; group_obj_idx = none; mask_idx = none }

    on_chosen :
        (looped : List Entry) (m : Masq) (o : Option ℕ)
        → IsNarrower m.mode_bits mode
        → KeepsMode mode (elim o [
          | none ↦ none
          | some i ↦
              let (es, bits) = masq_group i looped m.mode_bits in
              some (
                es,
                (
                  bit_or (bit_and mode (complement s_irwxugo)) (bit_and bits s_irwxugo),
                  m.not_equiv,
                ),
              )
        ])
    on_chosen looped m none h = tt
    on_chosen looped m (some i) h = merged-IsNarrower mode (masq_group i looped m.mode_bits).1 (
        IsNarrower-trans (masq_group i looped m.mode_bits).1 m.mode_bits mode
          (masq_group-IsNarrower i looped m.mode_bits) h)

    on_loop :
        (r : Option (List Entry × Masq))
        → Narrows start r
        → KeepsMode mode (elim r [
          | none ↦ none
          | some (looped, m) ↦ elim (chosen m) [
            | none ↦ none
            | some i ↦
                let (es, bits) = masq_group i looped m.mode_bits in
                some (
                  es,
                  (
                    bit_or (bit_and mode (complement s_irwxugo)) (bit_and bits s_irwxugo),
                    m.not_equiv,
                  ),
                )
          ]
        ])
    on_loop none h = tt
    on_loop (some (looped, m)) h = on_chosen looped m (chosen m) h

-- The mode that a new inode inherits has no permission bit that the requested mode lacks.
pub inherit-IsNarrower :
    (parent_default : Option (List ℕ)) (mode umask : ℕ) (is_dir : Bool)
    → IsNarrower (inherit parent_default mode umask is_dir).mode mode
unfolding inherit
inherit-IsNarrower none mode umask is_dir = IsNarrower-and mode (complement umask)
inherit-IsNarrower (some raw) mode umask is_dir = on_parse (parse raw)
  where
    on_masq :
        (default : Option (List ℕ)) (r : Option (List Entry × (ℕ × Bool)))
        → KeepsMode mode r
        → IsNarrower
            (Inherited.mode (elim r [
              | none ↦ umasked mode umask default
              | some (access, (new_mode, not_equiv)) ↦ record {
                mode = new_mode;
                access = if not_equiv then some (serialize access) else none;
                default = default;
              }
            ]))
            mode
    on_masq default none h = IsNarrower-and mode (complement umask)
    on_masq default (some (access, (new_mode, not_equiv))) h = h

    on_parse :
        (r : Option (List Entry))
        → IsNarrower
            (Inherited.mode (elim r [
              | none ↦ umasked mode umask none
              | some [] ↦ umasked mode umask none
              | some (e ∷ es) ↦
                  let default : Option (List ℕ) =
                    if is_dir then some (serialize (e ∷ es)) else none in
                  elim (create_masq (e ∷ es) mode) [
                    | none ↦ umasked mode umask default
                    | some (access, (new_mode, not_equiv)) ↦ record {
                      mode = new_mode;
                      access = if not_equiv then some (serialize access) else none;
                      default = default;
                    }
                  ]
            ]))
            mode
    on_parse none = IsNarrower-and mode (complement umask)
    on_parse (some []) = IsNarrower-and mode (complement umask)
    on_parse (some (e ∷ es)) =
        on_masq (if is_dir then some (serialize (e ∷ es)) else none) (create_masq (e ∷ es) mode)
          (create_masq-KeepsMode (e ∷ es) mode)
