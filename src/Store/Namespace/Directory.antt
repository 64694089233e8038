-- ===== src/Store/Namespace/Directory.antt =====
-- One directory's entries: what pushing and retaining do to a search, to the entries counted by
-- inode, to the uniqueness of names and to their order.
use lchfs.Common.{ℕ, ◌+◌, ◌≤◌, ◌≡◌, refl, ◌∙◌, true, ◌&&◌, inl, inr}
use lchfs.Common.{none, some, [], ◌∷◌, ◌++◌, ◌==◌, if◌then◌else◌, arith, Bool-cases, All}
use lchfs.Common.Names.{Name, name_eq, name_eq_iff, insert_sorted, sort_by}
use lchfs.Common.Names.{IsSorted, sort_by-IsSorted, name_leb_total, name_leb_trans}
use lchfs.Format.Objects.{InodeKind, kind_eq, DirEntry, DirectoryObject}
use lchfs.Store.Namespace.{find_entry, retain_other, push_entry, entry_leb}

-- 1 if the entry names inode `ino` with kind `kind`.
abbrev pub hit : InodeKind → ℕ → DirEntry → ℕ
hit kind ino e = if (e.ino == ino) && kind_eq e.kind kind then 1 else 0

unfoldable pub count : InodeKind → ℕ → DirectoryObject → ℕ
count kind ino [] = 0
count kind ino (e ∷ es) = hit kind ino e + count kind ino es

-- No name stands twice.
abbrev pub UniqueNames : DirectoryObject → Type 0
UniqueNames [] = Unit
UniqueNames (e ∷ es) = (find_entry e.name es ≡ none) × UniqueNames es

find-insert_sorted :
    (n : Name) (e : DirEntry) (es : DirectoryObject)
    → find_entry e.name es ≡ none
    → find_entry n (insert_sorted entry_leb e es)
      ≡ (if name_eq e.name n then some e else find_entry n es)
unfolding find_entry insert_sorted
find-insert_sorted n e [] h = refl
find-insert_sorted n e (x ∷ es) h = ground (
  arith,
  find-insert_sorted n e es,
  name_eq_iff x.name e.name,
  name_eq_iff x.name n,
  name_eq_iff e.name n,
)

count-insert_sorted :
    (k : InodeKind) (i : ℕ) (e : DirEntry) (es : DirectoryObject)
    → count k i (insert_sorted entry_leb e es) ≡ hit k i e + count k i es
unfolding count insert_sorted
count-insert_sorted k i e [] = refl
count-insert_sorted k i e (x ∷ es) = elim (Bool-cases (entry_leb e x)) [
  | inl below ↦ rw below
  | inr above ↦ rw above (omega (arith, count-insert_sorted k i e es))
]

UniqueNames-insert_sorted :
    (e : DirEntry) (es : DirectoryObject)
    → find_entry e.name es ≡ none
    → UniqueNames es
    → UniqueNames (insert_sorted entry_leb e es)
unfolding find_entry insert_sorted
UniqueNames-insert_sorted e [] h u = (refl, tt)
UniqueNames-insert_sorted e (x ∷ es) h u = ground (
  arith,
  UniqueNames-insert_sorted e es,
  find-insert_sorted x.name e es,
  name_eq_iff x.name e.name,
  name_eq_iff e.name x.name,
)

-- Sorting a directory whose names differ changes no search and no count.
find-sort_by :
    (n : Name) (es : DirectoryObject)
    → UniqueNames es
    → find_entry n (sort_by entry_leb es) ≡ find_entry n es
unfolding find_entry sort_by
find-sort_by n [] u = refl
find-sort_by n (e ∷ es) u =
    find-insert_sorted n e (sort_by entry_leb es) (find-sort_by e.name es u.1 ∙ u.0)
    ∙ rw (find-sort_by n es u.1)

count-sort_by :
    (k : InodeKind) (i : ℕ) (es : DirectoryObject) → count k i (sort_by entry_leb es) ≡ count k i es
unfolding count sort_by
count-sort_by k i [] = refl
count-sort_by k i (e ∷ es) =
    omega (arith, count-insert_sorted k i e (sort_by entry_leb es), count-sort_by k i es)

UniqueNames-sort_by : (es : DirectoryObject) → UniqueNames es → UniqueNames (sort_by entry_leb es)
unfolding sort_by
UniqueNames-sort_by [] u = tt
UniqueNames-sort_by (e ∷ es) u =
    UniqueNames-insert_sorted e (sort_by entry_leb es) (find-sort_by e.name es u.1 ∙ u.0)
      (UniqueNames-sort_by es u.1)

-- One entry more at the end of the vector.
find-append :
    (n : Name) (e : DirEntry) (es : DirectoryObject)
    → find_entry e.name es ≡ none
    → find_entry n (es ++ (e ∷ [])) ≡ (if name_eq e.name n then some e else find_entry n es)
unfolding find_entry
find-append n e [] h = refl
find-append n e (x ∷ es) h = ground (
  arith,
  find-append n e es,
  name_eq_iff x.name e.name,
  name_eq_iff x.name n,
  name_eq_iff e.name n,
)

count-append :
    (k : InodeKind) (i : ℕ) (e : DirEntry) (es : DirectoryObject)
    → count k i (es ++ (e ∷ [])) ≡ hit k i e + count k i es
unfolding count
count-append k i e [] = refl
count-append k i e (x ∷ es) = omega (arith, count-append k i e es)

UniqueNames-append :
    (e : DirEntry) (es : DirectoryObject)
    → find_entry e.name es ≡ none
    → UniqueNames es
    → UniqueNames (es ++ (e ∷ []))
unfolding find_entry
UniqueNames-append e [] h u = (refl, tt)
UniqueNames-append e (x ∷ es) h u = ground (
  arith,
  UniqueNames-append e es,
  find-append x.name e es,
  name_eq_iff x.name e.name,
  name_eq_iff e.name x.name,
)

module _ (e : DirEntry) (es : DirectoryObject) (fresh : find_entry e.name es ≡ none) where
  pub find-push_entry :
      (n : Name)
      → UniqueNames es
      → find_entry n (push_entry e es) ≡ (if name_eq e.name n then some e else find_entry n es)
  unfolding push_entry
  find-push_entry n u =
      find-sort_by n (es ++ (e ∷ [])) (UniqueNames-append e es fresh u) ∙ find-append n e es fresh

  pub UniqueNames-push_entry : UniqueNames es → UniqueNames (push_entry e es)
  unfolding push_entry
  UniqueNames-push_entry u = UniqueNames-sort_by (es ++ (e ∷ [])) (UniqueNames-append e es fresh u)

pub count-push_entry :
    (k : InodeKind) (i : ℕ) (e : DirEntry) (es : DirectoryObject)
    → count k i (push_entry e es) ≡ hit k i e + count k i es
unfolding push_entry
count-push_entry k i e es = count-sort_by k i (es ++ (e ∷ [])) ∙ count-append k i e es

pub push_entry-IsSorted :
    (e : DirEntry) (es : DirectoryObject) → IsSorted entry_leb (push_entry e es)
unfolding push_entry
push_entry-IsSorted e es =
    sort_by-IsSorted entry_leb (λ a b. name_leb_total a.name b.name)
      (λ a b c. name_leb_trans a.name b.name c.name) (es ++ (e ∷ []))

pub find-retain_other :
    (n name : Name) (es : DirectoryObject)
    → find_entry n (retain_other name es) ≡ (if name_eq name n then none else find_entry n es)
unfolding find_entry retain_other
find-retain_other n name [] = ground arith
find-retain_other n name (x ∷ es) = ground (
  arith,
  find-retain_other n name es,
  name_eq_iff x.name name,
  name_eq_iff x.name n,
  name_eq_iff name n,
)

pub UniqueNames-retain_other :
    (name : Name) (es : DirectoryObject) → UniqueNames es → UniqueNames (retain_other name es)
unfolding retain_other
UniqueNames-retain_other name [] u = tt
UniqueNames-retain_other name (x ∷ es) u =
    ground (arith, UniqueNames-retain_other name es, find-retain_other x.name name es)

count-retain_none :
    (k : InodeKind) (i : ℕ) (name : Name) (es : DirectoryObject)
    → find_entry name es ≡ none
    → count k i (retain_other name es) ≡ count k i es
unfolding count retain_other find_entry
count-retain_none k i name [] h = refl
count-retain_none k i name (x ∷ es) h = ground (arith, count-retain_none k i name es)

-- Retaining the other names takes exactly the one entry of that name away.
pub count-retain_other :
    (k : InodeKind) (i : ℕ) (name : Name) (e : DirEntry) (es : DirectoryObject)
    → UniqueNames es
    → find_entry name es ≡ some e
    → count k i (retain_other name es) + hit k i e ≡ count k i es
unfolding count retain_other find_entry
count-retain_other k i name e [] u h = ground arith
count-retain_other k i name e (x ∷ es) u h = elim (Bool-cases (name_eq x.name name)) [
  | inl same ↦
      let is : x.name ≡ name = (name_eq_iff x.name name).0 same in
      let gone : find_entry name es ≡ none = rw is at u.0 in
      ground (arith, count-retain_none k i name es gone)
  | inr other ↦ ground (arith, count-retain_other k i name e es u.1)
]

All-retain_other :
    (name : Name) (e : DirEntry) (es : DirectoryObject)
    → All (λ y. entry_leb e y ≡ true) es
    → All (λ y. entry_leb e y ≡ true) (retain_other name es)
unfolding retain_other
All-retain_other name e [] h = tt
All-retain_other name e (x ∷ es) h = ground (arith, All-retain_other name e es h.1)

pub retain_other-IsSorted :
    (name : Name) (es : DirectoryObject)
    → IsSorted entry_leb es
    → IsSorted entry_leb (retain_other name es)
unfolding retain_other
retain_other-IsSorted name [] h = tt
retain_other-IsSorted name (x ∷ es) h =
    ground (arith, retain_other-IsSorted name es h.1, All-retain_other name x es h.0)

pub find-name :
    (name : Name) (e : DirEntry) (es : DirectoryObject)
    → find_entry name es ≡ some e
    → e.name ≡ name
unfolding find_entry
find-name name e [] h = ground arith
find-name name e (x ∷ es) h = ground (arith, find-name name e es, name_eq_iff x.name name)

pub count-find :
    (name : Name) (e : DirEntry) (es : DirectoryObject)
    → find_entry name es ≡ some e
    → 1 ≤ count e.kind e.ino es
unfolding find_entry count
count-find name e [] h = ground arith
count-find name e (x ∷ es) h = ground (arith, count-find name e es)
