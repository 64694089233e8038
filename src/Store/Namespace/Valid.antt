-- ===== src/Store/Namespace/Valid.antt =====
-- What holds of the directory tree between two operations.
use lchfs.Common.{
  ℕ, ◌≤◌, ◌<◌, ◌≡◌, refl, subst, [], ◌==◌, if◌then◌else◌, Bool, false, Option, none, some, arith,
}
use lchfs.Common.Assoc.{Map, lookup, contains_key, UniqueKeys, sum}
use lchfs.Common.Names.{IsSorted}
use lchfs.Store.Namespace.Directory.{UniqueNames, count}
use lchfs.Format.Objects.{InodeKind, is_directory, DirectoryObject, InodeObject}
use lchfs.Store.Namespace.{Namespace, new_namespace, root_dir_ino, entry_leb}
use lchfs.Store.Namespace.Links.{links, links_due, IsTidy}

abbrev pub is_dir_inode : Option InodeObject → Bool
is_dir_inode none = false
is_dir_inode (some i) = is_directory i.kind

pub record IsValid (ns : Namespace) : Type 0 where
  -- no directory stands twice in the table
  pub unique : UniqueKeys ns.dirs
  -- the names of a directory differ and are in order
  pub tidy : IsTidy ns.dirs
  -- each inode is named as often as its link count says and no entry names a missing inode
  pub linked : (k : InodeKind) (i : ℕ) → links k i ns.dirs ≡ links_due k i (lookup i ns.inodes)
  -- the next inode number, and all above it, are unused
  pub fresh : (i : ℕ) → ns.next_ino ≤ i → lookup i ns.inodes ≡ none
  pub rooted : 1 < ns.next_ino
  -- no inode is without a link
  pub named : (i : ℕ) (x : InodeObject) → lookup i ns.inodes ≡ some x → 1 ≤ x.nlink
  -- the directory table holds the directories
  pub agrees : (i : ℕ) → contains_key i ns.dirs ≡ is_dir_inode (lookup i ns.inodes)

pub contains_none : {V : Type 0} (k : ℕ) (m : Map V) → contains_key k m ≡ false → lookup k m ≡ none
unfolding contains_key
contains_none k m h = ground arith

-- The tree of a new pool is valid.
pub new_namespace-IsValid : (uid gid : ℕ) (now : ℕ × ℕ) → IsValid (new_namespace uid gid now)
unfolding new_namespace lookup links contains_key sum count
new_namespace-IsValid uid gid now = record {
  unique = (refl, tt);
  tidy =
      λ d dir at. subst (λ x. UniqueNames x × IsSorted entry_leb x) (root_empty d dir at) (tt, tt);
  linked = no_links;
  fresh = λ i h. ground arith;
  rooted = omega arith;
  named = λ i x h. ground arith;
  agrees = λ i. ground arith;
}
  where
    root_empty :
        (d : ℕ) (dir : DirectoryObject)
        → (if root_dir_ino == d then some [] else none) ≡ some dir
        → [] ≡ dir
    root_empty d dir at = ground arith

    no_links :
        (k : InodeKind) (i : ℕ)
        → links k i (new_namespace uid gid now).dirs
          ≡ links_due k i (lookup i (new_namespace uid gid now).inodes)
    no_links InodeKind.file i = ground arith
    no_links InodeKind.directory i = ground arith
    no_links InodeKind.symlink i = ground arith
