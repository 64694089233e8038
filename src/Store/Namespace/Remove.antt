-- ===== src/Store/Namespace/Remove.antt =====
-- Taking an entry away: between the change of the directory and that of the inode the tree owes
-- the entry's link, and releasing the inode settles it. `unlink` and `rmdir` keep the tree valid.
use lchfs.Common.{ℕ, ◌+◌, ◌-◌, ◌≤◌, ◌<◌, ◌≡◌, refl, true, false}
use lchfs.Common.{inl, inr, Option, none, some, [], ◌∷◌, if◌then◌else◌, ltb, arith, Option-cases}
use lchfs.Common.{ok, Bool-cases}
use lchfs.Common.Assoc.{lookup, contains_key, UniqueKeys, lookup-insert, lookup-remove}
use lchfs.Common.Assoc.{remove-UniqueKeys}
use lchfs.Common.Names.{Name, name_eq}
use lchfs.Format.Objects.{InodeKind, kind_eq, is_directory, DirEntry, DirectoryObject, InodeObject}
use lchfs.Store.Namespace.{Namespace, find_entry, retain_in, is_empty}
use lchfs.Store.Namespace.{
  remove_directory_inode, release_inode_ref, detach, unlink, rmdir, lookup_name,
}
use lchfs.Store.Namespace.Directory.{hit, find-retain_other}
use lchfs.Store.Namespace.Links.{links, links_due, IsTidy, links-retain_in, lookup-retain_in}
use lchfs.Store.Namespace.Links.{
  retain_in-UniqueKeys, retain_in-IsTidy, remove-IsTidy, links-remove, links-find,
}
use lchfs.Store.Namespace.Valid.{IsValid, is_dir_inode}

-- Valid, but for `owed` links that the inodes still count.
pub record Owes (owed : InodeKind → ℕ → ℕ) (ns : Namespace) : Type 0 where
  pub unique : UniqueKeys ns.dirs
  pub tidy : IsTidy ns.dirs
  pub linked :
      (k : InodeKind) (i : ℕ) → links k i ns.dirs + owed k i ≡ links_due k i (lookup i ns.inodes)
  pub fresh : (i : ℕ) → ns.next_ino ≤ i → lookup i ns.inodes ≡ none
  pub rooted : 1 < ns.next_ino
  pub named : (i : ℕ) (x : InodeObject) → lookup i ns.inodes ≡ some x → 1 ≤ x.nlink
  pub agrees : (i : ℕ) → contains_key i ns.dirs ≡ is_dir_inode (lookup i ns.inodes)

abbrev pub nothing : InodeKind → ℕ → ℕ
nothing k i = 0

abbrev pub owing : DirEntry → (InodeKind → ℕ → ℕ) → InodeKind → ℕ → ℕ
owing e owed k i = hit k i e + owed k i

pub IsValid→Owes : {ns : Namespace} → IsValid ns → Owes nothing ns
IsValid→Owes v = record {
  unique = v.unique;
  tidy = v.tidy;
  linked = λ k i. omega (arith, v.linked k i);
  fresh = v.fresh;
  rooted = v.rooted;
  named = v.named;
  agrees = v.agrees;
}

pub Owes→IsValid : {ns : Namespace} → Owes nothing ns → IsValid ns
Owes→IsValid o = record {
  unique = o.unique;
  tidy = o.tidy;
  linked = λ k i. omega (arith, o.linked k i);
  fresh = o.fresh;
  rooted = o.rooted;
  named = o.named;
  agrees = o.agrees;
}

-- Detaching an entry leaves its link owed.
module _ (parent : ℕ) (name : Name) (ns : Namespace) (dir : DirectoryObject) (e : DirEntry)
    (there : lookup parent ns.dirs ≡ some dir) (found : find_entry name dir ≡ some e) where
  pub detach-Owes :
      (owed : InodeKind → ℕ → ℕ) → Owes owed ns → Owes (owing e owed) (detach parent name ns)
  detach-Owes owed o = record {
    unique = retain_in-UniqueKeys parent dir ns.dirs there name o.unique;
    tidy = retain_in-IsTidy parent dir ns.dirs there name o.tidy;
    linked = λ k i. omega (
      arith,
      o.linked k i,
      links-retain_in parent dir ns.dirs there k i name e (o.tidy parent dir there).0 found,
    );
    fresh = o.fresh;
    rooted = o.rooted;
    named = o.named;
    agrees = λ i.
        unfold contains_key in
        ground
          (arith, lookup-retain_in parent dir ns.dirs there i name, o.agrees i, o.agrees parent);
  }

-- Dropping an inode whose links are all gone but the one that is owed.
module _ (e : DirEntry) (owed : InodeKind → ℕ → ℕ) (ns : Namespace)
    (o : Owes (owing e owed) ns) where
  remove_inode-Owes :
      (links_due e.kind e.ino (lookup e.ino ns.inodes) ≡ 1)
      → ((k : InodeKind)
          → kind_eq e.kind k ≡ false
          → links_due k e.ino (lookup e.ino ns.inodes) ≡ 0)
      → ((dir : DirectoryObject) → lookup e.ino ns.dirs ≡ some dir → dir ≡ [])
      → Owes owed (remove_directory_inode e.ino ns)
  unfolding remove_directory_inode
  remove_inode-Owes last others empty = record {
    unique = remove-UniqueKeys e.ino ns.dirs o.unique;
    tidy = remove-IsTidy e.ino ns.dirs o.tidy;
    linked = λ k i. ground (
      arith,
      links-remove k i e.ino ns.dirs o.unique empty,
      o.linked k i,
      lookup-remove i e.ino ns.inodes,
      last,
      others k,
    );
    fresh = λ i h. ground (arith, lookup-remove i e.ino ns.inodes, o.fresh i);
    rooted = o.rooted;
    named = λ i x h. ground (arith, lookup-remove i e.ino ns.inodes, o.named i x);
    agrees = λ i.
        unfold contains_key in
        ground (arith, lookup-remove i e.ino ns.dirs, lookup-remove i e.ino ns.inodes, o.agrees i);
  }

  -- The inode of the entry is there, and of the entry's kind.
  owed_inode :
      (i : Option InodeObject)
      → lookup e.ino ns.inodes ≡ i
      → (x : InodeObject) × (i ≡ some x) × (x.kind ≡ e.kind)
  owed_inode none h = absurd (ground (arith, o.linked e.kind e.ino))
  owed_inode (some x) h = (x, refl, ground (arith, o.linked e.kind e.ino))

  pub remove_directory-Owes :
      is_directory e.kind ≡ true
      → ((dir : DirectoryObject) → lookup e.ino ns.dirs ≡ some dir → dir ≡ [])
      → Owes owed (remove_directory_inode e.ino ns)
  remove_directory-Owes is_dir empty =
      let (x, at_x, same) = owed_inode (lookup e.ino ns.inodes) refl in
      remove_inode-Owes (ground (arith, o.linked e.kind e.ino)) (λ k h. ground arith) empty

  pub release-Owes : is_directory e.kind ≡ false → Owes owed (release_inode_ref e.ino ns)
  unfolding release_inode_ref
  release-Owes no_dir =
      let (x, at_x, same) = owed_inode (lookup e.ino ns.inodes) refl in
      elim (Bool-cases (ltb 0 (x.nlink - 1))) [
        | inl more ↦
            rw (at_x, release_inode_ref, more)
              record {
                unique = o.unique;
                tidy = o.tidy;
                linked = λ k i. ground (
                  arith,
                  o.linked k i,
                  lookup-insert i e.ino (record x { nlink = x.nlink - 1 }) ns.inodes,
                );
                fresh = λ i h. ground (
                  arith,
                  o.fresh i,
                  lookup-insert i e.ino (record x { nlink = x.nlink - 1 }) ns.inodes,
                );
                rooted = o.rooted;
                named = λ i y h. ground (
                  arith,
                  o.named i y,
                  lookup-insert i e.ino (record x { nlink = x.nlink - 1 }) ns.inodes,
                );
                agrees = λ i. ground (
                  arith,
                  o.agrees i,
                  lookup-insert i e.ino (record x { nlink = x.nlink - 1 }) ns.inodes,
                );
              }
        | inr last ↦
            rw (at_x, release_inode_ref, last)
              (remove_inode-Owes (ground (arith, o.linked e.kind e.ino)) (λ k h. ground arith)
                λ dir there. unfold contains_key in ground (arith, o.agrees e.ino))
      ]

-- Unlinking a name, or refusing to, keeps the tree valid: the inode's link count still equals the
-- number of its names, and an inode with no name left is gone.
pub unlink-IsValid :
    (parent : ℕ) (name : Name) (ns : Namespace) → IsValid ns → IsValid (unlink parent name ns).1
unfolding unlink
unlink-IsValid parent name ns v = elim (Option-cases (lookup parent ns.dirs)) [
  | inl gone ↦ rw (gone, unlink) v
  | inr (dir, there) ↦ elim (Option-cases (find_entry name dir)) [
    | inl absent ↦ rw (there, unlink, absent, unlink) v
    | inr (e, found) ↦ elim (Bool-cases (is_directory e.kind)) [
      | inl is_dir ↦ rw (there, unlink, found, unlink, is_dir) v
      | inr no_dir ↦
          rw (there, unlink, found, unlink, no_dir)
            (Owes→IsValid (
              release-Owes e nothing (detach parent name ns)
                (detach-Owes parent name ns dir e there found nothing (IsValid→Owes v)) no_dir))
    ]
  ]
]

-- The directory that `rmdir` takes is not the one that names it.
detach_other :
    (parent : ℕ) (name : Name) (ns : Namespace) (dir : DirectoryObject) (e : DirEntry)
    → lookup parent ns.dirs ≡ some dir
    → find_entry name dir ≡ some e
    → ((x : DirectoryObject) → lookup e.ino ns.dirs ≡ some x → x ≡ [])
    → (x : DirectoryObject) → lookup e.ino (detach parent name ns).dirs ≡ some x
    → x ≡ []
unfolding find_entry
detach_other parent name ns dir e there found empty x h =
    ground (arith, lookup-retain_in parent dir ns.dirs there e.ino name, empty x, empty dir)

pub is_empty→eq : (dir : DirectoryObject) → is_empty dir ≡ true → dir ≡ []
is_empty→eq [] h = refl
is_empty→eq (x ∷ dir) h = ground arith

-- Removing a directory, or refusing to, keeps the tree valid.
pub rmdir-IsValid :
    (parent : ℕ) (name : Name) (ns : Namespace) → IsValid ns → IsValid (rmdir parent name ns).1
unfolding rmdir
rmdir-IsValid parent name ns v = elim (Option-cases (lookup parent ns.dirs)) [
  | inl gone ↦ rw (gone, rmdir) v
  | inr (dir, there) ↦ elim (Option-cases (find_entry name dir)) [
    | inl absent ↦ rw (there, rmdir, absent, rmdir) v
    | inr (e, found) ↦ elim (Bool-cases (is_directory e.kind)) [
      | inr no_dir ↦ rw (there, rmdir, found, rmdir, no_dir) v
      | inl is_dir ↦ elim (Option-cases (lookup e.ino ns.dirs)) [
        | inl gone ↦ rw (there, rmdir, found, rmdir, is_dir, gone, rmdir) v
        | inr (target, at_e) ↦ elim (Bool-cases (is_empty target)) [
          | inr full ↦ rw (there, rmdir, found, rmdir, is_dir, at_e, rmdir, full) v
          | inl empty ↦
              rw (there, rmdir, found, rmdir, is_dir, at_e, rmdir, empty)
                (Owes→IsValid (
                  remove_directory-Owes e nothing (detach parent name ns)
                    (detach-Owes parent name ns dir e there found nothing (IsValid→Owes v)) is_dir
                    (detach_other parent name ns dir e there found
                      (λ x at_x. ground (arith, is_empty→eq target empty)))))
        ]
      ]
    ]
  ]
]

-- After a successful unlink in a valid tree the name is gone from its directory and every other name of it is
-- resolved as before; the inode it named lost one link, or is gone if that was the last.
pub unlink_lem :
    (parent : ℕ) (name other : Name) (ns ns' : Namespace) (dir : DirectoryObject) (e : DirEntry)
    (i : InodeObject)
    → IsValid ns
    → lookup parent ns.dirs ≡ some dir
    → find_entry name dir ≡ some e
    → lookup e.ino ns.inodes ≡ some i
    → unlink parent name ns ≡ (ok tt, ns')
    → (lookup_name parent other ns'
        ≡ (if name_eq name other then ok none else lookup_name parent other ns))
      × (lookup e.ino ns'.inodes
          ≡ (if ltb 1 i.nlink then some (record i { nlink = i.nlink - 1 }) else none))
unfolding unlink lookup_name release_inode_ref remove_directory_inode contains_key
unlink_lem parent name other ns ns' dir e i v there found at_e done = ground (
  arith,
  lookup-retain_in parent dir ns.dirs there parent name,
  find-retain_other other name dir,
  lookup-insert e.ino e.ino (record i { nlink = i.nlink - 1 }) ns.inodes,
  lookup-remove e.ino e.ino ns.inodes,
  lookup-remove parent e.ino (retain_in parent name ns.dirs),
  links-find name e parent dir ns.dirs there found,
  v.linked e.kind e.ino,
  v.agrees e.ino,
)
