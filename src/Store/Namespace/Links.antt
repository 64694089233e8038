-- ===== src/Store/Namespace/Links.antt =====
-- How often the entries of all directories name an inode, and how each step on the directory
-- table changes that number.
use lchfs.Common.{ℕ, ◌+◌, ◌≤◌, ◌≡◌, refl}
use lchfs.Common.{inl, inr, Option, none, some, [], ◌∷◌, ◌==◌, if◌then◌else◌, arith, Option-cases}
use lchfs.Common.Assoc.{Map, lookup, insert, remove, UniqueKeys, sum, lookup-insert, lookup-remove}
use lchfs.Common.Assoc.{insert-UniqueKeys, sum-insert-some, sum-insert-none}
use lchfs.Common.Assoc.{sum-remove-none, sum-remove-some}
use lchfs.Common.Names.{Name, IsSorted}
use lchfs.Format.Objects.{InodeKind, kind_eq, is_directory, DirEntry, DirectoryObject, InodeObject}
use lchfs.Store.Namespace.{root_dir_ino, entry_leb, find_entry, retain_other, push_entry}
use lchfs.Store.Namespace.{push_into, retain_in}
use lchfs.Store.Namespace.Directory.{hit, count, UniqueNames, count-push_entry, count-retain_other}
use lchfs.Store.Namespace.Directory.{UniqueNames-push_entry, UniqueNames-retain_other, count-find}
use lchfs.Store.Namespace.Directory.{push_entry-IsSorted, retain_other-IsSorted}

-- The entries, in all directories, that name inode `ino` with kind `kind`.
unfoldable pub links : InodeKind → ℕ → Map DirectoryObject → ℕ
links kind ino dirs = sum (count kind ino) dirs

-- The number of entries that an inode should have: its link count, or one for a directory that
-- is not the root.
abbrev pub links_due : InodeKind → ℕ → Option InodeObject → ℕ
links_due kind ino none = 0
links_due kind ino (some i) =
    if kind_eq i.kind kind
    then if is_directory kind then if ino == root_dir_ino then 0 else 1 else i.nlink
    else 0

-- Every directory has distinct names, in order.
abbrev pub IsTidy : Map DirectoryObject → Type 0
IsTidy dirs =
    (d : ℕ) (dir : DirectoryObject)
    → lookup d dirs ≡ some dir
    → UniqueNames dir × IsSorted entry_leb dir

module _ (d : ℕ) (dir : DirectoryObject) (dirs : Map DirectoryObject)
    (at_d : lookup d dirs ≡ some dir) where
  push_into_here : (e : DirEntry) → push_into d e dirs ≡ insert d (push_entry e dir) dirs
  unfolding push_into
  push_into_here e = rw (at_d, push_into)

  retain_in_here : (name : Name) → retain_in d name dirs ≡ insert d (retain_other name dir) dirs
  unfolding retain_in
  retain_in_here name = rw (at_d, retain_in)

  pub links-push_into :
      (k : InodeKind) (i : ℕ) (e : DirEntry)
      → links k i (push_into d e dirs) ≡ hit k i e + links k i dirs
  unfolding links
  links-push_into k i e = rw (push_into_here e) (
      omega (
        arith,
        sum-insert-some (count k i) d (push_entry e dir) dir dirs at_d,
        count-push_entry k i e dir,
      ))

  pub links-retain_in :
      (k : InodeKind) (i : ℕ) (name : Name) (e : DirEntry)
      → UniqueNames dir
      → find_entry name dir ≡ some e
      → links k i (retain_in d name dirs) + hit k i e ≡ links k i dirs
  unfolding links
  links-retain_in k i name e u f = rw (retain_in_here name) (
      omega (
        arith,
        sum-insert-some (count k i) d (retain_other name dir) dir dirs at_d,
        count-retain_other k i name e dir u f,
      ))

  pub lookup-push_into :
      (j : ℕ) (e : DirEntry)
      → lookup j (push_into d e dirs) ≡ (if d == j then some (push_entry e dir) else lookup j dirs)
  lookup-push_into j e = rw (push_into_here e) (lookup-insert j d (push_entry e dir) dirs)

  pub lookup-retain_in :
      (j : ℕ) (name : Name)
      → lookup j (retain_in d name dirs)
        ≡ (if d == j then some (retain_other name dir) else lookup j dirs)
  lookup-retain_in j name =
      rw (retain_in_here name) (lookup-insert j d (retain_other name dir) dirs)

  pub push_into-UniqueKeys : (e : DirEntry) → UniqueKeys dirs → UniqueKeys (push_into d e dirs)
  push_into-UniqueKeys e u = rw (push_into_here e) (insert-UniqueKeys d (push_entry e dir) dirs u)

  pub retain_in-UniqueKeys : (name : Name) → UniqueKeys dirs → UniqueKeys (retain_in d name dirs)
  retain_in-UniqueKeys name u =
      rw (retain_in_here name) (insert-UniqueKeys d (retain_other name dir) dirs u)

  pub push_into-IsTidy :
      (e : DirEntry) → find_entry e.name dir ≡ none → IsTidy dirs → IsTidy (push_into d e dirs)
  push_into-IsTidy e fresh t j other h = ground (
    arith,
    lookup-push_into j e,
    t d dir at_d,
    t j other,
    UniqueNames-push_entry e dir fresh,
    push_entry-IsSorted e dir,
  )

  pub retain_in-IsTidy : (name : Name) → IsTidy dirs → IsTidy (retain_in d name dirs)
  retain_in-IsTidy name t j other h = ground (
    arith,
    lookup-retain_in j name,
    t d dir at_d,
    t j other,
    UniqueNames-retain_other name dir,
    retain_other-IsSorted name dir,
  )

pub remove-IsTidy : (d : ℕ) (dirs : Map DirectoryObject) → IsTidy dirs → IsTidy (remove d dirs)
remove-IsTidy d dirs t j other h = ground (arith, lookup-remove j d dirs, t j other)

-- A directory that holds the entry is at least one link.
count-le-links :
    (k : InodeKind) (i d : ℕ) (dir : DirectoryObject) (dirs : Map DirectoryObject)
    → lookup d dirs ≡ some dir
    → count k i dir ≤ links k i dirs
unfolding links sum lookup
count-le-links k i d dir [] h = ground arith
count-le-links k i d dir ((j, x) ∷ dirs) h = ground (arith, count-le-links k i d dir dirs)

pub links-find :
    (name : Name) (e : DirEntry) (d : ℕ) (dir : DirectoryObject) (dirs : Map DirectoryObject)
    → lookup d dirs ≡ some dir
    → find_entry name dir ≡ some e
    → 1 ≤ links e.kind e.ino dirs
links-find name e d dir dirs h f =
    omega (arith, count-le-links e.kind e.ino d dir dirs h, count-find name e dir f)

-- Removing a directory that is empty, or not there, loses no link.
pub links-remove :
    (k : InodeKind) (i d : ℕ) (dirs : Map DirectoryObject)
    → UniqueKeys dirs
    → ((dir : DirectoryObject) → lookup d dirs ≡ some dir → dir ≡ [])
    → links k i (remove d dirs) ≡ links k i dirs
unfolding links
links-remove k i d dirs u empty = elim (Option-cases (lookup d dirs)) [
  | inl gone ↦ sum-remove-none (count k i) d dirs gone
  | inr (dir, there) ↦
      let nothing : count k i dir ≡ 0 = rw (empty dir there) (unfold count in refl) in
      omega (arith, sum-remove-some (count k i) d dir dirs u there)
]

pub links-insert_empty :
    (k : InodeKind) (i d : ℕ) (dirs : Map DirectoryObject)
    → lookup d dirs ≡ none
    → links k i (insert d [] dirs) ≡ links k i dirs
unfolding links count
links-insert_empty k i d dirs h = omega (arith, sum-insert-none (count k i) d [] dirs h)
