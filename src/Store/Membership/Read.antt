-- ===== src/Store/Membership/Read.antt =====
-- What a given root must tell to be a member (`check_membership` of crates/lchfs-store/src/lib.rs),
-- and the highest number that the members tell, both apart from how they are computed.
use lchfs.Common.{
  ℕ, ◌≤◌, ◌≡◌, ◌↔◌, ◌≢◌, refl, sym, ap, ◌∙◌, arith, true, false, any, All, Option, none, some, List,
  [], ◌∷◌, ◌==◌, Result, ok, err, inl, inr, Bool-cases, Result-cases,
}
use lchfs.Format.Superblock.{SuperblockSlot}
use lchfs.Store.Membership.{
  OpenError, other_kind, invalid_data, not_found, PoolError, GivenRoot, Member, fails_to_open,
  member_of, read_member, read_members, highest,
}

-- The root opens, or looks as one does that has no layout; it is formatted, its ring is written,
-- its backend opens, and the ring's slot is the member's.
pub record IsRead (r : GivenRoot) (m : Member) : Type 0 where
  pub opens : r.open_error ≢ some other_kind
  pub formatted : r.is_formatted ≡ true
  pub ring : r.ring_written ≡ true
  pub backend : r.backend_error ≡ none
  pub superblock : r.superblock ≡ ok (some m.slot)
  pub path : m.path ≡ r.path

-- Each root with its member, in the same order.
abbrev pub AreRead : List GivenRoot → List Member → Type 0
AreRead [] [] = Unit
AreRead [] (m ∷ ms) = ⊥
AreRead (r ∷ roots) [] = ⊥
AreRead (r ∷ roots) (m ∷ ms) = IsRead r m × AreRead roots ms

-- No member tells a higher number than `n`, and some member tells `n`.
abbrev pub IsHighest : (Member → ℕ) → ℕ → List Member → Type 0
IsHighest f n ms = All (λ m. f m ≤ n) ms × (any (λ m. f m == n) ms ≡ true)

pub ok_injective : {A : Type 0} (a b : A) → ◌≡◌ {A = Result PoolError A} (ok a) (ok b) → a ≡ b
ok_injective a b h = cc

opens_iff : (o : Option OpenError) → (fails_to_open o ≡ false) ↔ (o ≢ some other_kind)
opens_iff none = ((λ h q. absurd (ground arith)), (λ h. refl))
opens_iff (some invalid_data) = ((λ h q. absurd (ground arith)), (λ h. refl))
opens_iff (some not_found) = ((λ h q. absurd (ground arith)), (λ h. refl))
opens_iff (some other_kind) = ((λ h. absurd (ground arith)), (λ h. absurd (h refl)))

of_member_of :
    (r : GivenRoot) (m : Member) (e : Option PoolError)
    (s : Result PoolError (Option SuperblockSlot))
    → member_of r.path e s ≡ ok m
    → (e ≡ none) × (s ≡ ok (some m.slot)) × (m.path ≡ r.path)
of_member_of r m (some x) s h = absurd (ground arith)
of_member_of r m none (err x) h = absurd (ground arith)
of_member_of r m none (ok none) h = absurd (ground arith)
of_member_of r m none (ok (some slot)) h =
    let q = ok_injective (record { slot = slot; path = r.path }) m h in
    (refl, ap (λ (x : Member). ok (some x.slot)) q, sym (ap (λ (x : Member). x.path) q))

read_member-IsRead : (r : GivenRoot) (m : Member) → (read_member r ≡ ok m) ↔ IsRead r m
unfolding read_member
read_member-IsRead r m = (
  λ h. elim (Bool-cases (fails_to_open r.open_error)) [
    | inl e ↦ absurd (ground arith)
    | inr e ↦ elim (Bool-cases r.is_formatted) [
      | inr f ↦ absurd (ground arith)
      | inl f ↦ elim (Bool-cases r.ring_written) [
        | inr g ↦ absurd (ground arith)
        | inl g ↦
            let w = of_member_of r m r.backend_error r.superblock (rw (e, f, g) at h) in
            record {
              opens = (opens_iff r.open_error).0 e;
              formatted = f;
              ring = g;
              backend = w.0;
              superblock = w.1;
              path = w.2;
            }
      ]
    ]
  ],
  λ p.
      rw ((opens_iff r.open_error).1 p.opens, p.formatted, p.ring, p.backend, p.superblock)
        (ap (λ x. ok (record { slot = m.slot; path = x })) (sym p.path)),
)

pub read_members-AreRead :
    (roots : List GivenRoot) (ms : List Member) → (read_members roots ≡ ok ms) ↔ AreRead roots ms
unfolding read_members
read_members-AreRead [] [] = ((λ h. tt), (λ h. refl))
read_members-AreRead [] (m ∷ ms) =
    ((λ h. (let q = ok_injective [] (m ∷ ms) h in ground arith)), (λ h. absurd h))
read_members-AreRead (r ∷ roots) [] = (
  (λ h. elim (Result-cases (read_member r)) [
    | inl (x, e) ↦ absurd (ground arith)
    | inr (n, e) ↦ elim (Result-cases (read_members roots)) [
      | inl (x, f) ↦ absurd (ground arith)
      | inr (ns, f) ↦ let q = ok_injective (n ∷ ns) [] (rw (e, f) at h) in absurd (ground arith)
    ]
  ]),
  (λ p. absurd p),
)
read_members-AreRead (r ∷ roots) (m ∷ ms) = (
  (λ h. elim (Result-cases (read_member r)) [
    | inl (x, e) ↦ absurd (ground arith)
    | inr (n, e) ↦ elim (Result-cases (read_members roots)) [
      | inl (x, f) ↦ absurd (ground arith)
      | inr (ns, f) ↦
          let q : n ∷ ns ≡ m ∷ ms = ok_injective (n ∷ ns) (m ∷ ms) (rw (e, f) at h) in
          let g : n ≡ m = cc in
          let g' : ns ≡ ms = cc in
          (
            (read_member-IsRead r m).0 (e ∙ ap (λ (x : Member). ok x) g),
            (read_members-AreRead roots ms).0 (f ∙ ap (λ (x : List Member). ok x) g'),
          )
    ]
  ]),
  (λ p. rw ((read_member-IsRead r m).1 p.0, (read_members-AreRead roots ms).1 p.1) refl),
)

module _ (f : Member → ℕ) where
  raised : (a b : ℕ) (ms : List Member) → a ≤ b → All (λ m. f m ≤ a) ms → All (λ m. f m ≤ b) ms
  raised a b [] l h = tt
  raised a b (m ∷ ms) l h = (omega (arith, h.0), raised a b ms l h.1)

  below_top : (ms : List Member) → All (λ m. f m ≤ highest f ms) ms
  unfolding highest
  below_top [] = tt
  below_top (m ∷ ms) =
      (omega arith, raised (highest f ms) (highest f (m ∷ ms)) ms (omega arith) (below_top ms))

  reached :
      (n : ℕ) (m : Member) (ms : List Member)
      → n ≡ highest f (m ∷ ms)
      → any (λ x. f x == n) (m ∷ ms) ≡ true
  unfolding highest
  reached n m [] e = ground arith
  reached n m (x ∷ ms) e = elim (Bool-cases (f m == n)) [
    | inl h ↦ ground arith
    | inr h ↦ let ih = reached n x ms (ground arith) in ground arith
  ]

  pub highest-IsHighest :
      (m : Member) (ms : List Member) → IsHighest f (highest f (m ∷ ms)) (m ∷ ms)
  highest-IsHighest m ms = (below_top (m ∷ ms), reached (highest f (m ∷ ms)) m ms refl)

  least : (n : ℕ) (ms : List Member) → All (λ m. f m ≤ n) ms → highest f ms ≤ n
  unfolding highest
  least n [] h = omega arith
  least n (m ∷ ms) h = omega (arith, h.0, least n ms h.1)

  told : (n : ℕ) (ms : List Member) → any (λ m. f m == n) ms ≡ true → n ≤ highest f ms
  unfolding highest
  told n [] h = absurd (ground arith)
  told n (m ∷ ms) h = elim (Bool-cases (f m == n)) [
    | inl e ↦ ground arith
    | inr e ↦ let ih = told n ms (ground arith) in omega arith
  ]

  pub IsHighest-highest : (n : ℕ) (ms : List Member) → IsHighest f n ms → n ≡ highest f ms
  IsHighest-highest n ms h = omega (arith, least n ms h.0, told n ms h.1)
