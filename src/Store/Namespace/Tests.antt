-- ===== src/Store/Namespace/Tests.antt =====
-- The theorems on the directory tree at a small tree: a file `f`, then a directory `d`, in the root.
use lchfs.Common.{
  ℕ, ◌+◌, ◌^◌, ◌<◌, ◌≡◌, refl, sym, subst, ◌==◌, true, arith, false, none, some, [], ◌∷◌, inl, inr,
  Bool-cases,
}
use lchfs.Common.{ok}
use lchfs.Common.Assoc.{lookup, insert, contains_key}
use lchfs.Common.Names.{Name, name_eq, name_leb, sort_by, insert_sorted}
use lchfs.Format.Objects.{
  InodeKind, is_directory, DirectoryObject, DirEntry, InodeObject, ContentRef,
}
use lchfs.Store.Namespace.{
  Namespace, new_namespace, create_entry, add_entry, lookup_name, find_entry, push_entry, push_into,
}
use lchfs.Store.Namespace.{unlink, rmdir, link}
use lchfs.Store.Namespace.{rename, meets, refuses}
use lchfs.Store.Namespace.Valid.{IsValid, new_namespace-IsValid}
use lchfs.Store.Namespace.Create.{create_entry-IsValid, lookup_name-create_entry, link-IsValid}
use lchfs.Store.Namespace.Remove.{unlink-IsValid, rmdir-IsValid, unlink_lem}
use lchfs.Store.Namespace.Climb.{Climbs}
use lchfs.Store.Namespace.Tree.{IsTree}
use lchfs.Store.Namespace.Moves.{rename-IsTree}
use lchfs.Store.Namespace.Rename.{rename-IsValid, rename_moves}

abbrev now : ℕ × ℕ
now = (100, 0)

abbrev empty_tree : Namespace
empty_tree = new_namespace 0 0 now

abbrev name_f : Name
name_f = 102 ∷ []

abbrev name_d : Name
name_d = 100 ∷ []

abbrev with_file : Namespace
with_file = (create_entry 1 name_f 420 0 0 InodeKind.file none now empty_tree).1

abbrev tree : Namespace
tree = (create_entry 1 name_d 493 0 0 InodeKind.directory none now with_file).1

with_file-IsValid : IsValid with_file
with_file-IsValid =
    create_entry-IsValid 1 name_f 420 0 0 InodeKind.file none now empty_tree
      (new_namespace-IsValid 0 0 now) (unfold new_namespace in omega arith)

with_file-next_ino : with_file.next_ino ≡ 3
unfolding new_namespace create_entry add_entry lookup find_entry
with_file-next_ino = refl

tree-IsValid : IsValid tree
tree-IsValid =
    create_entry-IsValid 1 name_d 493 0 0 InodeKind.directory none now with_file with_file-IsValid
      (omega (arith, with_file-next_ino))

new_namespace-IsValid_example : IsValid (new_namespace 1000 1000 (7, 8))
new_namespace-IsValid_example = new_namespace-IsValid 1000 1000 (7, 8)

created : create_entry 1 name_d 493 0 0 InodeKind.directory none now with_file ≡ (ok 3, tree)
unfolding new_namespace create_entry add_entry lookup insert push_into push_entry sort_by
    insert_sorted find_entry name_eq name_leb
created = refl

lookup_name-create_entry_example : lookup_name 1 name_d tree ≡ ok (some 3)
unfolding name_eq
lookup_name-create_entry_example =
    lookup_name-create_entry 1 name_d name_d 493 0 0 InodeKind.directory none now with_file
      with_file-IsValid created

unlink-IsValid_example : IsValid (unlink 1 name_f tree).1
unlink-IsValid_example = unlink-IsValid 1 name_f tree tree-IsValid

rmdir-IsValid_example : IsValid (rmdir 1 name_d tree).1
rmdir-IsValid_example = rmdir-IsValid 1 name_d tree tree-IsValid

rename-IsValid_example : IsValid (rename 1 name_f 3 name_d false now tree).1
rename-IsValid_example = rename-IsValid 1 name_f 3 name_d false now tree tree-IsValid

abbrev file_inode : InodeObject
file_inode = record {
  kind = InodeKind.file;
  mode = 420;
  uid = 0;
  gid = 0;
  size = 0;
  nlink = 1;
  atime = now;
  mtime = now;
  ctime = now;
  xattrs = none;
  content = ContentRef.inline [];
  generation = 0;
}

abbrev file_entry : DirEntry
file_entry = record { name = name_f; ino = 2; kind = InodeKind.file }

abbrev dir_entry : DirEntry
dir_entry = record { name = name_d; ino = 3; kind = InodeKind.directory }

tree-inode : lookup 2 tree.inodes ≡ some file_inode
unfolding new_namespace create_entry add_entry lookup insert push_into push_entry sort_by
    insert_sorted find_entry name_eq name_leb
tree-inode = refl

tree-root : lookup 1 tree.dirs ≡ some (dir_entry ∷ file_entry ∷ [])
unfolding new_namespace create_entry add_entry lookup insert push_into push_entry sort_by
    insert_sorted find_entry name_eq name_leb
tree-root = refl

file_entry-found : find_entry name_f (dir_entry ∷ file_entry ∷ []) ≡ some file_entry
unfolding find_entry name_eq
file_entry-found = refl

link-IsValid_example : IsValid (link 2 3 name_f tree).1
link-IsValid_example = link-IsValid 2 3 name_f tree tree-IsValid room
  where
    room : (i : InodeObject) → lookup 2 tree.inodes ≡ some i → i.nlink + 1 < 2 ^ 32
    room i at = ground (arith, tree-inode)

abbrev unlinked : Namespace
unlinked = (unlink 1 name_f tree).1

tree-unlink : unlink 1 name_f tree ≡ (ok tt, unlinked)
unfolding unlink new_namespace create_entry add_entry lookup insert push_into push_entry sort_by
    insert_sorted find_entry name_eq name_leb
tree-unlink = refl

unlink_lem_example : (lookup_name 1 name_f unlinked ≡ ok none) × (lookup 2 unlinked.inodes ≡ none)
unfolding name_eq
unlink_lem_example =
    unlink_lem 1 name_f name_f tree unlinked (dir_entry ∷ file_entry ∷ []) file_entry file_inode
      tree-IsValid tree-root file_entry-found tree-inode tree-unlink

abbrev moved : Namespace
moved = (rename 1 name_f 3 name_d false now tree).1

tree-rename : rename 1 name_f 3 name_d false now tree ≡ (ok tt, moved)
unfolding rename meets refuses new_namespace create_entry add_entry lookup insert push_into
    push_entry sort_by insert_sorted find_entry name_eq name_leb
tree-rename = refl

tree-lookup : lookup_name 1 name_f tree ≡ ok (some 2)
unfolding lookup_name new_namespace create_entry add_entry lookup insert push_into push_entry
    sort_by insert_sorted find_entry name_eq name_leb
tree-lookup = refl

rename_moves_example :
    (lookup_name 3 name_d moved ≡ ok (some 2)) × (lookup_name 1 name_f moved ≡ ok none)
rename_moves_example =
    rename_moves 1 name_f 3 name_d false now tree moved 2 tree-IsValid tree-lookup tree-rename

abbrev entry_f : DirEntry
entry_f = record { name = name_f; ino = 2; kind = InodeKind.file }

abbrev entry_d : DirEntry
entry_d = record { name = name_d; ino = 3; kind = InodeKind.directory }

tree-dirs : tree.dirs ≡ (1, entry_d ∷ entry_f ∷ []) ∷ (3, []) ∷ []
unfolding new_namespace create_entry add_entry lookup insert push_into push_entry sort_by
    insert_sorted find_entry name_eq name_leb
tree-dirs = refl

tree-parents : tree.parents ≡ (1, 1) ∷ (2, 1) ∷ (3, 1) ∷ []
unfolding new_namespace create_entry add_entry lookup insert push_into push_entry sort_by
    insert_sorted find_entry name_eq name_leb
tree-parents = refl

named_in_root :
    (name : Name) (e : DirEntry)
    → find_entry name (entry_d ∷ entry_f ∷ []) ≡ some e
    → is_directory e.kind ≡ true
    → lookup {V = ℕ} e.ino ((1, 1) ∷ (2, 1) ∷ (3, 1) ∷ []) ≡ some 1
unfolding find_entry lookup
named_in_root name e f k = ground arith

named_below :
    (d : ℕ) (dir : DirectoryObject) (name : Name) (e : DirEntry)
    → lookup {V = DirectoryObject} d ((1, entry_d ∷ entry_f ∷ []) ∷ (3, []) ∷ []) ≡ some dir
    → find_entry name dir ≡ some e
    → is_directory e.kind ≡ true
    → lookup {V = ℕ} e.ino ((1, 1) ∷ (2, 1) ∷ (3, 1) ∷ []) ≡ some d
unfolding lookup find_entry
named_below d dir name e at f k = elim (Bool-cases (1 == d)) [
  | inl q ↦
      let p : 1 ≡ d = ground arith in
      let w : entry_d ∷ entry_f ∷ [] ≡ dir = ground arith in
      subst (λ x. lookup {V = ℕ} e.ino ((1, 1) ∷ (2, 1) ∷ (3, 1) ∷ []) ≡ some x) p
        (named_in_root name e (subst (λ x. find_entry name x ≡ some e) (sym w) f) k)
  | inr q ↦
      let w : [] ≡ dir = ground arith in
      let g = subst (λ x. find_entry name x ≡ some e) (sym w) f in absurd (ground arith)
]

way_up :
    (i : ℕ)
    → contains_key {V = DirectoryObject} i ((1, entry_d ∷ entry_f ∷ []) ∷ (3, []) ∷ []) ≡ true
    → (n : ℕ) × Climbs ((1, 1) ∷ (2, 1) ∷ (3, 1) ∷ []) n i
unfolding lookup contains_key
way_up i h = elim (Bool-cases (1 == i)) [
  | inl q ↦ (0, ground arith)
  | inr q ↦
      let p : 3 ≡ i = ground arith in
      subst (λ x. (n : ℕ) × Climbs ((1, 1) ∷ (2, 1) ∷ (3, 1) ∷ []) n x) p
        (1, ((λ r. ground arith), refl))
]

tree-IsTree : IsTree tree
tree-IsTree = record {
  parented = rw (tree-parents, tree-dirs) named_below;
  climbs = rw (tree-parents, tree-dirs) way_up;
}

-- The directory moves into a directory that is below it, which is refused.
rename-IsTree_example : IsTree (rename 1 name_d 3 name_f false now tree).1
rename-IsTree_example = rename-IsTree 1 name_d 3 name_f false now tree tree-IsValid tree-IsTree
