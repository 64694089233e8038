-- ===== src/Store/Namespace/Rename.antt =====
-- `rename` keeps the tree valid, and moves one name.
use lchfs.Common.{ℕ, ◌+◌, ◌≤◌, ◌≡◌, ◌≢◌, refl, ◌∙◌, Bool, true, false, ◌&&◌}
use lchfs.Common.{inl, inr, Option, none, some, [], ◌==◌, if◌then◌else◌, arith, Option-cases}
use lchfs.Common.{ok, Bool-cases}
use lchfs.Common.Assoc.{Map, lookup, contains_key, entry_count, lookup-insert, lookup-remove}
use lchfs.Common.Names.{Name, name_eq, name_eq_iff, name_eq_refl}
use lchfs.Format.Objects.{InodeKind, is_directory, DirEntry, DirectoryObject, InodeObject}
use lchfs.Store.Namespace.{Namespace, find_entry, retain_other, retain_in}
use lchfs.Store.Namespace.{
  remove_directory_inode, release_inode_ref, refuses, displace, touch, attach,
}
use lchfs.Store.Namespace.{move_entry, rename, meets, lookup_name}
use lchfs.Store.Namespace.Directory.{
  find-retain_other, find-push_entry, UniqueNames, UniqueNames-retain_other,
}
use lchfs.Store.Namespace.Links.{lookup-retain_in, lookup-push_into}
use lchfs.Store.Namespace.Links.{push_into-UniqueKeys, push_into-IsTidy, links-push_into}
use lchfs.Store.Namespace.Valid.{IsValid}
use lchfs.Store.Namespace.Remove.{Owes, nothing, owing, IsValid→Owes, Owes→IsValid, detach-Owes}
use lchfs.Store.Namespace.Remove.{remove_directory-Owes, release-Owes, is_empty→eq}

-- The time of change alters neither a kind nor a link count.
lookup-touch :
    (j ino : ℕ) (now : ℕ × ℕ) (inodes : Map InodeObject)
    → lookup j (touch ino now inodes) ≡ elim (lookup j inodes) [
      | none ↦ none
      | some i ↦ if ino == j then some (record i { ctime = now }) else some i
    ]
lookup-touch j ino now inodes = elim (Option-cases (lookup ino inodes)) [
  | inl gone ↦ ground arith
  | inr (i, there) ↦ ground (arith, lookup-insert j ino (record i { ctime = now }) inodes)
]

nlink-touch :
    (j ino : ℕ) (now : ℕ × ℕ) (inodes : Map InodeObject) (x : InodeObject)
    → ((y : InodeObject) → lookup j inodes ≡ some y → 1 ≤ y.nlink)
    → lookup j (touch ino now inodes) ≡ some x
    → 1 ≤ x.nlink
nlink-touch j ino now inodes x before h = elim (Option-cases (lookup j inodes)) [
  | inl gone ↦ ground (arith, lookup-touch j ino now inodes)
  | inr (y, there) ↦ let l = before y there in ground (arith, lookup-touch j ino now inodes)
]

-- Attaching the entry pays the link that is owed.
module _ (parent new_parent : ℕ) (e : DirEntry) (now : ℕ × ℕ) (ns : Namespace)
    (dir : DirectoryObject) (owed : InodeKind → ℕ → ℕ) (o : Owes (owing e owed) ns)
    (there : lookup new_parent ns.dirs ≡ some dir) (absent : find_entry e.name dir ≡ none) where
  attach-Owes : Owes owed (attach parent new_parent e now ns)
  unfolding attach
  attach-Owes = record {
    unique = push_into-UniqueKeys new_parent dir ns.dirs there e o.unique;
    tidy = push_into-IsTidy new_parent dir ns.dirs there e absent o.tidy;
    linked = λ k i. ground (
      arith,
      o.linked k i,
      links-push_into new_parent dir ns.dirs there k i e,
      lookup-touch i e.ino now ns.inodes,
    );
    fresh = λ i h. ground (arith, o.fresh i, lookup-touch i e.ino now ns.inodes);
    rooted = o.rooted;
    named = λ i x h. nlink-touch i e.ino now ns.inodes x (o.named i) h;
    agrees = λ i.
        unfold contains_key in
        ground (
          arith,
          lookup-push_into new_parent dir ns.dirs there i e,
          o.agrees i,
          o.agrees new_parent,
          lookup-touch i e.ino now ns.inodes,
        );
  }

retain-Owes :
    (d : ℕ) (name : Name) (ns : Namespace) (dir : DirectoryObject) (e : DirEntry)
    (owed : InodeKind → ℕ → ℕ)
    → lookup d ns.dirs ≡ some dir
    → find_entry name dir ≡ some e
    → Owes owed ns
    → Owes (owing e owed) (record ns { dirs = retain_in d name ns.dirs })
retain-Owes d name ns dir e owed there found o =
    let p = detach-Owes d name ns dir e there found owed o in
    record {
      unique = p.unique;
      tidy = p.tidy;
      linked = p.linked;
      fresh = p.fresh;
      rooted = p.rooted;
      named = p.named;
      agrees = p.agrees;
    }

-- Taking the entry at the destination away.
module _ (new_parent : ℕ) (new_name : Name) (old : DirEntry) (ns : Namespace)
    (dir : DirectoryObject) (owed : InodeKind → ℕ → ℕ) (o : Owes owed ns)
    (there : lookup new_parent ns.dirs ≡ some dir) (found : find_entry new_name dir ≡ some old)
    (empty : is_directory old.kind ≡ true
      → (x : DirectoryObject) → lookup old.ino ns.dirs ≡ some x
      → x ≡ []) where
  abbrev pub without_old : Namespace
  without_old = record ns { dirs = retain_in new_parent new_name ns.dirs }

  pub without_old-Owes : Owes (owing old owed) without_old
  without_old-Owes = retain-Owes new_parent new_name ns dir old owed there found o

  old_elsewhere : is_directory old.kind ≡ true → old.ino ≢ new_parent
  unfolding find_entry
  old_elsewhere is_dir same = ground (arith, empty is_dir dir)

  still_empty :
      is_directory old.kind ≡ true
      → (x : DirectoryObject) → lookup old.ino without_old.dirs ≡ some x
      → x ≡ []
  still_empty is_dir x h = ground (
    arith,
    lookup-retain_in new_parent dir ns.dirs there old.ino new_name,
    old_elsewhere is_dir,
    empty is_dir x,
  )

  pub displace-Owes : Owes owed (displace new_parent new_name (some old) ns)
  unfolding displace
  displace-Owes = elim (Bool-cases (is_directory old.kind)) [
    | inl is_dir ↦
        rw is_dir
          (remove_directory-Owes old owed without_old without_old-Owes is_dir (still_empty is_dir))
    | inr no_dir ↦ rw no_dir (release-Owes old owed without_old without_old-Owes no_dir)
  ]

  pub displace-lookup :
      lookup new_parent (displace new_parent new_name (some old) ns).dirs
      ≡ some (retain_other new_name dir)
  unfolding displace remove_directory_inode release_inode_ref contains_key
  displace-lookup = ground (
    arith,
    lookup-retain_in new_parent dir ns.dirs there new_parent new_name,
    lookup-remove new_parent old.ino (retain_in new_parent new_name ns.dirs),
    old_elsewhere,
    o.agrees new_parent,
    without_old-Owes.linked old.kind old.ino,
  )

  displace-lookup_other :
      (j : ℕ) (x : DirectoryObject)
      → lookup j ns.dirs ≡ some x
      → j ≢ new_parent
      → (is_directory old.kind ≡ true → old.ino ≢ j)
      → lookup j (displace new_parent new_name (some old) ns).dirs ≡ some x
  unfolding displace remove_directory_inode release_inode_ref contains_key
  displace-lookup_other j x at_j other kept = ground (
    arith,
    lookup-retain_in new_parent dir ns.dirs there j new_name,
    lookup-remove j old.ino (retain_in new_parent new_name ns.dirs),
    o.agrees j,
    without_old-Owes.linked old.kind old.ino,
  )

module _ (parent : ℕ) (name : Name) (new_parent : ℕ) (new_name : Name) (no_replace : Bool)
    (now : ℕ × ℕ) (ns : Namespace) (from to : DirectoryObject) (src : DirEntry) (v : IsValid ns)
    (at_from : lookup parent ns.dirs ≡ some from) (at_to : lookup new_parent ns.dirs ≡ some to)
    (found : find_entry name from ≡ some src)
    (moves : ((parent == new_parent) && name_eq name new_name) ≡ false)
    (free : refuses ns src.kind new_name no_replace (find_entry new_name to) ≡ none) where
  abbrev pub moved : DirEntry
  moved = record { name = new_name; ino = src.ino; kind = src.kind }

  abbrev pub lifted : Namespace
  lifted = record ns { dirs = retain_in parent name ns.dirs }

  pub lifted-Owes : Owes (owing moved nothing) lifted
  lifted-Owes = retain-Owes parent name ns from src nothing at_from found (IsValid→Owes v)

  -- The destination once the source entry is gone.
  abbrev pub target : DirectoryObject
  target = if parent == new_parent then retain_other name from else to

  pub lifted-target : lookup new_parent lifted.dirs ≡ some target
  lifted-target = ground (arith, lookup-retain_in parent from ns.dirs at_from new_parent name)

  pub same_find : find_entry new_name target ≡ find_entry new_name to
  same_find = ground (arith, find-retain_other new_name name from)

  pub replaced_empty :
      (old : DirEntry)
      → find_entry new_name to ≡ some old
      → is_directory old.kind ≡ true
      → (x : DirectoryObject) → lookup old.ino lifted.dirs ≡ some x
      → x ≡ []
  unfolding refuses find_entry
  replaced_empty old at_old is_dir x h = ground (
    arith,
    lookup-retain_in parent from ns.dirs at_from old.ino name,
    is_empty→eq x,
    is_empty→eq from,
  )

  abbrev pub onto : Option DirEntry → Namespace
  onto existing = attach parent new_parent moved now (displace new_parent new_name existing lifted)

  onto-IsValid :
      (existing : Option DirEntry) → find_entry new_name to ≡ existing → IsValid (onto existing)
  onto-IsValid none e = Owes→IsValid (
      unfold displace in
      attach-Owes parent new_parent moved now lifted target nothing lifted-Owes lifted-target
        (same_find ∙ e))
  onto-IsValid (some old) e =
      let at_old = same_find ∙ e in
      let clear = replaced_empty old e in
      Owes→IsValid (
        attach-Owes parent new_parent moved now (displace new_parent new_name (some old) lifted)
          (retain_other new_name target) nothing
          (displace-Owes new_parent new_name old lifted target (owing moved nothing) lifted-Owes
            lifted-target at_old clear)
          (displace-lookup new_parent new_name old lifted target (owing moved nothing) lifted-Owes
            lifted-target at_old clear)
          (ground
            (arith, find-retain_other new_name new_name target, name_eq_iff new_name new_name)))

  move_entry-IsValid :
      IsValid (move_entry parent name new_parent moved (find_entry new_name to) now ns)
  unfolding move_entry
  move_entry-IsValid = onto-IsValid (find_entry new_name to) refl

  -- Both names after the move.
  IsMoved : Namespace → Type 0
  IsMoved ns' =
      (lookup_name new_parent new_name ns' ≡ ok (some src.ino))
      × (lookup_name parent name ns' ≡ ok none)

  source_kept :
      (old : DirEntry)
      → find_entry new_name to ≡ some old
      → is_directory old.kind ≡ true
      → old.ino ≢ parent
  unfolding refuses find_entry
  source_kept old at_old is_dir same = ground (arith, is_empty→eq from)

  attached_names :
      (s : Namespace) (d : DirectoryObject)
      → lookup new_parent s.dirs ≡ some d
      → find_entry new_name d ≡ none
      → UniqueNames d
      → (parent ≡ new_parent → find_entry name d ≡ none)
      → (parent ≢ new_parent → lookup parent s.dirs ≡ some (retain_other name from))
      → IsMoved (attach parent new_parent moved now s)
  unfolding IsMoved attach lookup_name
  attached_names s d at_d absent u here there = (
    ground (
      arith,
      lookup-push_into new_parent d s.dirs at_d new_parent moved,
      find-push_entry moved d absent new_name u,
      name_eq_refl new_name,
    ),
    ground (
      arith,
      lookup-push_into new_parent d s.dirs at_d parent moved,
      find-push_entry moved d absent name u,
      name_eq_iff new_name name,
      name_eq_iff name new_name,
      find-retain_other name name from,
      name_eq_refl name,
    ),
  )

  onto-IsMoved :
      (existing : Option DirEntry) → find_entry new_name to ≡ existing → IsMoved (onto existing)
  onto-IsMoved none e =
      unfold displace in
      attached_names lifted target lifted-target (same_find ∙ e)
        (lifted-Owes.tidy new_parent target lifted-target).0
        (λ p. ground (arith, find-retain_other name name from, name_eq_refl name))
        (λ p. ground (arith, lookup-retain_in parent from ns.dirs at_from parent name))
  onto-IsMoved (some old) e =
      let at_old = same_find ∙ e in
      let clear = replaced_empty old e in
      attached_names (displace new_parent new_name (some old) lifted) (retain_other new_name target)
        (displace-lookup new_parent new_name old lifted target (owing moved nothing) lifted-Owes
          lifted-target at_old clear)
        (ground (arith, find-retain_other new_name new_name target, name_eq_refl new_name))
        (UniqueNames-retain_other new_name target
          (lifted-Owes.tidy new_parent target lifted-target).0)
        (λ p. ground (
          arith,
          find-retain_other name new_name target,
          find-retain_other name name from,
          name_eq_refl name,
        ))
        (λ p.
          displace-lookup_other new_parent new_name old lifted target (owing moved nothing)
            lifted-Owes lifted-target at_old clear parent (retain_other name from)
            (ground (arith, lookup-retain_in parent from ns.dirs at_from parent name)) p
            (source_kept old e))

  move_entry-IsMoved :
      IsMoved (move_entry parent name new_parent moved (find_entry new_name to) now ns)
  unfolding move_entry
  move_entry-IsMoved = onto-IsMoved (find_entry new_name to) refl

-- A rename, done or refused, also when it replaces a name, and when the replaced name and the moved
-- one belong to one inode, keeps the names of each directory unique and sorted, each file named as
-- often as its link count says and at least once, each directory but the root exactly once, no entry
-- without its inode, and the directory table in step with the inodes. It says nothing of the parents.
pub rename-IsValid :
    (parent : ℕ) (name : Name) (new_parent : ℕ) (new_name : Name) (no_replace : Bool) (now : ℕ × ℕ)
    (ns : Namespace)
    → IsValid ns
    → IsValid (rename parent name new_parent new_name no_replace now ns).1
unfolding rename
rename-IsValid parent name new_parent new_name no_replace now ns v =
    elim (Option-cases (lookup parent ns.dirs)) [
      | inl gone ↦ rw (gone, rename) v
      | inr (from, at_from) ↦ elim (Option-cases (lookup new_parent ns.dirs)) [
        | inl gone ↦ rw (at_from, rename, gone, rename) v
        | inr (to, at_to) ↦ elim (Option-cases (find_entry name from)) [
          | inl absent ↦ rw (at_from, rename, at_to, rename, absent, rename) v
          | inr (src, found) ↦ elim (Bool-cases ((parent == new_parent) && name_eq name new_name)) [
            | inl same ↦ rw (at_from, rename, at_to, rename, found, rename, same) v
            | inr moves ↦
                elim (Bool-cases (
                  is_directory src.kind
                  && meets (entry_count ns.inodes + 1) ns.parents src.ino new_parent)) [
                    | inl cycle ↦ rw (at_from, rename, at_to, rename, found, rename, moves, cycle) v
                    | inr no_cycle ↦
                        elim (Option-cases
                          (refuses ns src.kind new_name no_replace (find_entry new_name to))) [
                            | inr (e, refused) ↦
                                rw
                                  (
                                    at_from, rename, at_to, rename, found, rename, moves, no_cycle,
                                    refused, rename,
                                  )
                                  v
                            | inl free ↦
                                rw
                                  (
                                    at_from, rename, at_to, rename, found, rename, moves, no_cycle,
                                    free, rename,
                                  )
                                  (move_entry-IsValid parent name new_parent new_name no_replace now
                                    ns from to src v at_from at_to found moves free)
                          ]
                  ]
          ]
        ]
      ]
    ]

-- After a successful rename in a valid tree the new name resolves to the inode that the old name did, and the old
-- name to nothing, unless both are the same name of the same directory.
pub rename_moves :
    (parent : ℕ) (name : Name) (new_parent : ℕ) (new_name : Name) (no_replace : Bool) (now : ℕ × ℕ)
    (ns ns' : Namespace) (ino : ℕ)
    → IsValid ns
    → lookup_name parent name ns ≡ ok (some ino)
    → rename parent name new_parent new_name no_replace now ns ≡ (ok tt, ns')
    → (lookup_name new_parent new_name ns' ≡ ok (some ino))
      × (lookup_name parent name ns'
          ≡ (if (parent == new_parent) && name_eq name new_name then ok (some ino) else ok none))
unfolding rename lookup_name
rename_moves parent name new_parent new_name no_replace now ns ns' ino v was done =
    elim (Option-cases (lookup parent ns.dirs)) [
      | inl gone ↦ ground arith
      | inr (from, at_from) ↦ elim (Option-cases (lookup new_parent ns.dirs)) [
        | inl gone ↦ ground arith
        | inr (to, at_to) ↦ elim (Option-cases (find_entry name from)) [
          | inl absent ↦ ground arith
          | inr (src, found) ↦ elim (Bool-cases ((parent == new_parent) && name_eq name new_name)) [
            | inl same ↦ ground (arith, name_eq_iff name new_name)
            | inr moves ↦
                elim (Option-cases
                  (refuses ns src.kind new_name no_replace (find_entry new_name to))) [
                    | inr (e, refused) ↦ ground arith
                    | inl free ↦
                        unfold IsMoved in
                        ground (
                          arith,
                          move_entry-IsMoved parent name new_parent new_name no_replace now ns from
                              to src v at_from at_to found moves free,
                        )
                  ]
          ]
        ]
      ]
    ]
