-- ===== src/Store/Namespace/Create.antt =====
-- `create_entry` and `link` keep the tree valid, and the new name is found.
use lchfs.Common.{ℕ, ◌+◌, ◌%◌, ◌^◌, ◌<◌, ◌≤◌, ◌≡◌, refl, false}
use lchfs.Common.{inl, inr, Option, none, some, [], if◌then◌else◌, arith, Option-cases}
use lchfs.Common.{ok, Bool-cases}
use lchfs.Common.Assoc.{Map, lookup, contains_key, UniqueKeys, lookup-insert}
use lchfs.Common.Assoc.{insert-UniqueKeys}
use lchfs.Common.Names.{Name, name_eq}
use lchfs.Format.Objects.{InodeKind, is_directory, DirEntry, DirectoryObject, InodeObject}
use lchfs.Store.Namespace.{Namespace, find_entry, with_directory, add_entry}
use lchfs.Store.Namespace.{create_entry, new_inode, new_content, link, add_link, lookup_name}
use lchfs.Store.Namespace.Directory.{find-push_entry}
use lchfs.Store.Namespace.Links.{links, links_due, IsTidy, links-push_into, links-insert_empty}
use lchfs.Store.Namespace.Links.{push_into-UniqueKeys, push_into-IsTidy, lookup-push_into}
use lchfs.Store.Namespace.Valid.{IsValid, is_dir_inode, contains_none}

-- A new, empty directory in the table.
module _ (kind : InodeKind) (ino : ℕ) (dirs : Map DirectoryObject)
    (unused : lookup ino dirs ≡ none) where
  links-with_directory :
      (k : InodeKind) (i : ℕ) → links k i (with_directory kind ino dirs) ≡ links k i dirs
  links-with_directory k i = elim (Bool-cases (is_directory kind)) [
    | inl yes_dir ↦ rw yes_dir (links-insert_empty k i ino dirs unused)
    | inr no_dir ↦ rw no_dir
  ]

  lookup-with_directory :
      (j : ℕ) (dir : DirectoryObject)
      → lookup j dirs ≡ some dir
      → lookup j (with_directory kind ino dirs) ≡ some dir
  lookup-with_directory j dir h = ground (arith, lookup-insert j ino [] dirs)

  with_directory-UniqueKeys : UniqueKeys dirs → UniqueKeys (with_directory kind ino dirs)
  with_directory-UniqueKeys u = ground (arith, insert-UniqueKeys ino [] dirs u)

  with_directory-IsTidy : IsTidy dirs → IsTidy (with_directory kind ino dirs)
  with_directory-IsTidy t j dir h = ground (arith, lookup-insert j ino [] dirs, t j dir)

module _ (parent : ℕ) (name : Name) (kind : InodeKind) (inode : InodeObject) (ns : Namespace)
    (dir : DirectoryObject) (v : IsValid ns) (there : lookup parent ns.dirs ≡ some dir)
    (absent : find_entry name dir ≡ none) (room : ns.next_ino + 1 < 2 ^ 64)
    (same_kind : inode.kind ≡ kind) (once : is_directory kind ≡ false → inode.nlink ≡ 1)
    (some_link : 1 ≤ inode.nlink) where
  unused_inode : lookup ns.next_ino ns.inodes ≡ none
  unused_inode = v.fresh ns.next_ino (omega arith)

  unused_dir : lookup ns.next_ino ns.dirs ≡ none
  unused_dir = contains_none ns.next_ino ns.dirs (rw (v.agrees ns.next_ino, unused_inode))

  abbrev entry : DirEntry
  entry = record { name = name; ino = ns.next_ino; kind = kind }

  abbrev table : Map DirectoryObject
  table = with_directory kind ns.next_ino ns.dirs

  still_there : lookup parent table ≡ some dir
  still_there = lookup-with_directory kind ns.next_ino ns.dirs unused_dir parent dir there

  add_entry-linked :
      (k : InodeKind) (i : ℕ)
      → links k i (add_entry parent name kind inode ns).dirs
        ≡ links_due k i (lookup i (add_entry parent name kind inode ns).inodes)
  unfolding add_entry
  add_entry-linked k i = ground (
    arith,
    links-push_into parent dir table still_there k i entry,
    links-with_directory kind ns.next_ino ns.dirs unused_dir k i,
    lookup-insert i ns.next_ino inode ns.inodes,
    v.linked k i,
    v.rooted,
    unused_inode,
    once,
  )

  add_entry-agrees :
      (i : ℕ)
      → contains_key i (add_entry parent name kind inode ns).dirs
        ≡ is_dir_inode (lookup i (add_entry parent name kind inode ns).inodes)
  unfolding add_entry contains_key
  add_entry-agrees i = ground (
    arith,
    lookup-push_into parent dir table still_there i entry,
    lookup-insert i ns.next_ino [] ns.dirs,
    lookup-insert i ns.next_ino inode ns.inodes,
    v.agrees i,
    v.agrees parent,
    unused_inode,
    unused_dir,
  )

  add_entry-IsValid : IsValid (add_entry parent name kind inode ns)
  unfolding add_entry
  add_entry-IsValid = record {
    unique =
        push_into-UniqueKeys parent dir table still_there entry
          (with_directory-UniqueKeys kind ns.next_ino ns.dirs unused_dir v.unique);
    tidy =
        push_into-IsTidy parent dir table still_there entry absent
          (with_directory-IsTidy kind ns.next_ino ns.dirs unused_dir v.tidy);
    linked = add_entry-linked;
    fresh = λ i h. ground (arith, lookup-insert i ns.next_ino inode ns.inodes, v.fresh i);
    rooted = ground (arith, v.rooted);
    named = λ i x h.
        ground (arith, lookup-insert i ns.next_ino inode ns.inodes, v.named i x, some_link);
    agrees = add_entry-agrees;
  }

new_inode-once :
    (kind : InodeKind) (mode uid gid : ℕ) (target : Option Name) (now : ℕ × ℕ)
    → is_directory kind ≡ false
    → (new_inode kind mode uid gid (new_content kind target) now).nlink ≡ 1
new_inode-once InodeKind.file mode uid gid target now h = refl
new_inode-once InodeKind.directory mode uid gid target now h = ground arith
new_inode-once InodeKind.symlink mode uid gid none now h = refl
new_inode-once InodeKind.symlink mode uid gid (some t) now h = refl

new_inode-some_link :
    (kind : InodeKind) (mode uid gid : ℕ) (target : Option Name) (now : ℕ × ℕ)
    → 1 ≤ (new_inode kind mode uid gid (new_content kind target) now).nlink
new_inode-some_link InodeKind.file mode uid gid target now = omega arith
new_inode-some_link InodeKind.directory mode uid gid target now = omega arith
new_inode-some_link InodeKind.symlink mode uid gid none now = omega arith
new_inode-some_link InodeKind.symlink mode uid gid (some t) now = omega arith

pub create_entry-IsValid :
    (parent : ℕ) (name : Name) (mode uid gid : ℕ) (kind : InodeKind) (target : Option Name)
    (now : ℕ × ℕ) (ns : Namespace)
    → IsValid ns
    → ns.next_ino + 1 < 2 ^ 64
    → IsValid (create_entry parent name mode uid gid kind target now ns).1
unfolding create_entry
create_entry-IsValid parent name mode uid gid kind target now ns v room =
    elim (Option-cases (lookup parent ns.dirs)) [
      | inl gone ↦ rw (gone, create_entry) v
      | inr (dir, there) ↦ elim (Option-cases (find_entry name dir)) [
        | inr (e, taken) ↦ rw (there, create_entry, taken, create_entry) v
        | inl absent ↦
            rw (there, create_entry, absent, create_entry)
              (add_entry-IsValid parent name kind
                (new_inode kind mode uid gid (new_content kind target) now) ns dir v there absent
                room refl (new_inode-once kind mode uid gid target now)
                (new_inode-some_link kind mode uid gid target now))
      ]
    ]

-- After a successful creation in a valid tree the directory resolves the new name to the new inode, and every
-- other name of that directory as before.
pub lookup_name-create_entry :
    (parent : ℕ) (name other : Name) (mode uid gid : ℕ) (kind : InodeKind) (target : Option Name)
    (now : ℕ × ℕ) (ns : Namespace) {ino : ℕ} {ns' : Namespace}
    → IsValid ns
    → create_entry parent name mode uid gid kind target now ns ≡ (ok ino, ns')
    → lookup_name parent other ns'
      ≡ (if name_eq name other then ok (some ino) else lookup_name parent other ns)
unfolding create_entry add_entry lookup_name
lookup_name-create_entry parent name other mode uid gid kind target now ns v done =
    elim (Option-cases (lookup parent ns.dirs)) [
      | inl gone ↦ ground arith
      | inr (dir, there) ↦
          let unused = v.fresh ns.next_ino (omega arith) in
          let new_dir = contains_none ns.next_ino ns.dirs (rw (v.agrees ns.next_ino, unused)) in
          let e : DirEntry = record { name = name; ino = ns.next_ino; kind = kind } in
          let kept = lookup-with_directory kind ns.next_ino ns.dirs new_dir parent dir there in
          ground (
            arith,
            lookup-push_into parent dir (with_directory kind ns.next_ino ns.dirs) kept parent e,
            find-push_entry e dir _ other (v.tidy parent dir there).0,
          )
    ]

module _ (ino new_parent : ℕ) (new_name : Name) (ns : Namespace) (i : InodeObject)
    (dir : DirectoryObject) (v : IsValid ns) (exists : lookup ino ns.inodes ≡ some i)
    (not_dir : is_directory i.kind ≡ false) (there : lookup new_parent ns.dirs ≡ some dir)
    (absent : find_entry new_name dir ≡ none) (room : i.nlink + 1 < 2 ^ 32) where
  abbrev link_entry : DirEntry
  link_entry = record { name = new_name; ino = ino; kind = i.kind }

  add_link-IsValid : IsValid (add_link ino i new_parent new_name ns)
  unfolding add_link
  add_link-IsValid = record {
    unique = push_into-UniqueKeys new_parent dir ns.dirs there link_entry v.unique;
    tidy = push_into-IsTidy new_parent dir ns.dirs there link_entry absent v.tidy;
    linked = λ k j. ground (
      arith,
      links-push_into new_parent dir ns.dirs there k j link_entry,
      lookup-insert j ino (record i { nlink = (i.nlink + 1) % 2 ^ 32 }) ns.inodes,
      v.linked k j,
    );
    fresh = λ j h. ground (
      arith,
      lookup-insert j ino (record i { nlink = (i.nlink + 1) % 2 ^ 32 }) ns.inodes,
      v.fresh j,
    );
    rooted = v.rooted;
    named = λ j x h. ground (
      arith,
      lookup-insert j ino (record i { nlink = (i.nlink + 1) % 2 ^ 32 }) ns.inodes,
      v.named j x,
    );
    agrees = λ j.
        unfold contains_key in
        ground (
          arith,
          lookup-push_into new_parent dir ns.dirs there j link_entry,
          lookup-insert j ino (record i { nlink = (i.nlink + 1) % 2 ^ 32 }) ns.inodes,
          v.agrees j,
          v.agrees new_parent,
        );
  }

-- A hard link, made or refused, keeps the tree valid, as long as the inode's link count has not
-- reached the last value of a u32.
pub link-IsValid :
    (ino new_parent : ℕ) (new_name : Name) (ns : Namespace)
    → IsValid ns
    → ((i : InodeObject) → lookup ino ns.inodes ≡ some i → i.nlink + 1 < 2 ^ 32)
    → IsValid (link ino new_parent new_name ns).1
unfolding link
link-IsValid ino new_parent new_name ns v room = elim (Option-cases (lookup ino ns.inodes)) [
  | inl missing ↦ rw (missing, link) v
  | inr (i, exists) ↦ elim (Bool-cases (is_directory i.kind)) [
    | inl is_dir ↦ rw (exists, link, is_dir) v
    | inr not_dir ↦ elim (Option-cases (lookup new_parent ns.dirs)) [
      | inl gone ↦ rw (exists, link, not_dir, gone, link) v
      | inr (dir, there) ↦ elim (Option-cases (find_entry new_name dir)) [
        | inr (e, taken) ↦ rw (exists, link, not_dir, there, link, taken, link) v
        | inl absent ↦
            rw (exists, link, not_dir, there, link, absent, link)
              (add_link-IsValid ino new_parent new_name ns i dir v exists not_dir there absent
                (room i exists))
      ]
    ]
  ]
]
