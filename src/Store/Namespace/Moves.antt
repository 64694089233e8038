-- ===== src/Store/Namespace/Moves.antt =====
-- `rename` (crates/lchfs-store/src/lib.rs) keeps the directories one tree.
use lchfs.Common.{
  ℕ, ◌+◌, ◌≡◌, refl, subst, ◌∙◌, arith, Bool, true, false, none, some, Option, ltb, ◌-◌, ◌==◌, ◌&&◌,
  inl, inr, Bool-cases, Option-cases,
}
use lchfs.Common.Assoc.{lookup, contains_key, entry_count, lookup-insert, lookup-remove}
use lchfs.Common.Names.{Name, name_eq, name_eq_iff}
use lchfs.Format.Objects.{InodeKind, is_directory, DirEntry, DirectoryObject}
use lchfs.Store.Namespace.{
  Namespace, meets, find_entry, retain_other, push_into, retain_in, release_inode_ref,
  remove_directory_inode, refuses, displace, attach, move_entry, rename,
}
use lchfs.Store.Namespace.Directory.{find-retain_other, find-push_entry, UniqueNames}
use lchfs.Store.Namespace.Links.{links, links-find, lookup-retain_in, lookup-push_into}
use lchfs.Store.Namespace.Valid.{IsValid}
use lchfs.Store.Namespace.Climb.{Clears, Clears-remove, Climbs-remove, Climbs-insert}
use lchfs.Store.Namespace.Tree.{IsTree, guard-Clears}
use lchfs.Store.Namespace.Remove.{Owes, nothing, owing}
use lchfs.Store.Namespace.Rename.{
  without_old-Owes, displace-Owes, displace-lookup, moved, lifted, lifted-Owes, target,
  lifted-target, same_find, replaced_empty,
}

-- An entry whose link is owed is the only one that names a directory.
Owes-unnamed :
    (e : DirEntry) (owed : InodeKind → ℕ → ℕ) (ns : Namespace)
    → Owes (owing e owed) ns
    → (k : InodeKind) → is_directory k ≡ true
    → links k e.ino ns.dirs ≡ 0
Owes-unnamed e owed ns o k h = ground (arith, o.linked k e.ino, o.linked e.kind e.ino)

module _ (ns : Namespace) (t : IsTree ns) where
  retained-IsTree :
      (d : ℕ) (dir : DirectoryObject) (name : Name)
      → lookup d ns.dirs ≡ some dir
      → IsTree (record ns { dirs = retain_in d name ns.dirs })
  retained-IsTree d dir name there = record {
    parented = λ c x n e a f k. elim (Bool-cases (d == c)) [
      | inl q ↦
          let p : d ≡ c = ground arith in
          let g = t.parented d dir n e there in
          let w : find_entry n dir ≡ some e =
            ground
              (arith, lookup-retain_in d dir ns.dirs there c name, find-retain_other n name dir) in
          subst (λ y. lookup e.ino ns.parents ≡ some y) p (g w k)
      | inr q ↦
          let w : lookup c ns.dirs ≡ some x =
            ground (arith, lookup-retain_in d dir ns.dirs there c name) in
          t.parented c x n e w f k
    ];
    climbs = λ i h.
        let w : contains_key i ns.dirs ≡ true =
          unfold contains_key in ground (arith, lookup-retain_in d dir ns.dirs there i name) in
        t.climbs i w;
  }

  removed-IsTree :
      (ino : ℕ)
      → ((k : InodeKind) → is_directory k ≡ true → links k ino ns.dirs ≡ 0)
      → IsTree (remove_directory_inode ino ns)
  unfolding remove_directory_inode
  removed-IsTree ino unnamed = record {
    parented = λ c x n e a f k.
        let w : lookup c ns.dirs ≡ some x = ground (arith, lookup-remove c ino ns.dirs) in
        let g = t.parented c x n e w f k in
        let l = links-find n e c x ns.dirs w f in
        let z = unnamed e.kind k in
        let q : (ino == e.ino) ≡ false = elim (Bool-cases (ino == e.ino)) [
          | inr h ↦ h
          | inl h ↦
              let r : ino ≡ e.ino = ground arith in
              let s = subst (λ y. links e.kind y ns.dirs ≡ 0) r z in absurd (omega arith)
        ] in
        ground (arith, lookup-remove e.ino ino ns.parents);
    climbs = λ i h.
        let w : contains_key i ns.dirs ≡ true =
          unfold contains_key in ground (arith, lookup-remove i ino ns.dirs) in
        let (n, c) = t.climbs i w in Climbs-remove ns.parents ino n i c;
  }

  attached-IsTree :
      (parent new_parent : ℕ) (e : DirEntry) (now : ℕ × ℕ) (dir : DirectoryObject) (a : ℕ)
      → UniqueNames dir
      → lookup new_parent ns.dirs ≡ some dir
      → find_entry e.name dir ≡ none
      → ((k : InodeKind) → is_directory k ≡ true → links k e.ino ns.dirs ≡ 0)
      → Clears ns.parents e.ino a new_parent
      → IsTree (attach parent new_parent e now ns)
  unfolding attach
  attached-IsTree parent new_parent e now dir a u there absent unnamed above = record {
    parented = λ c x n y at f k. elim (Bool-cases ((new_parent == c) && name_eq e.name n)) [
      | inl q ↦ ground (
        arith,
        lookup-push_into new_parent dir ns.dirs there c e,
        find-push_entry e dir absent n u,
        lookup-insert y.ino e.ino new_parent ns.parents,
      )
      | inr q ↦
          let (z, w, g) = old c x n y at f q in
          let l = links-find n y c z ns.dirs w g in
          let r : (e.ino == y.ino) ≡ false = elim (Bool-cases (e.ino == y.ino)) [
            | inr h ↦ h
            | inl h ↦
                let p : e.ino ≡ y.ino = ground arith in
                let s = subst (λ j. links y.kind j ns.dirs ≡ 0) p (unnamed y.kind k) in
                absurd (omega arith)
          ] in
          let m = t.parented c z n y w g k in
          ground (arith, lookup-insert y.ino e.ino new_parent ns.parents)
    ];
    climbs = λ i h.
        let w : contains_key i ns.dirs ≡ true =
          unfold contains_key in
          ground (arith, lookup-push_into new_parent dir ns.dirs there i e) in
        let (n, c) = t.climbs i w in Climbs-insert ns.parents e.ino new_parent a n i above c;
  }
    where
      -- An entry that was there before.
      old :
          (c : ℕ) (x : DirectoryObject) (n : Name) (y : DirEntry)
          → lookup c (push_into new_parent e ns.dirs) ≡ some x
          → find_entry n x ≡ some y
          → ((new_parent == c) && name_eq e.name n) ≡ false
          → (z : DirectoryObject) × (lookup c ns.dirs ≡ some z) × (find_entry n z ≡ some y)
      old c x n y at f q = elim (Bool-cases (new_parent == c)) [
        | inl h ↦
            let p : new_parent ≡ c = ground arith in
            let w : lookup c ns.dirs ≡ some dir =
              subst (λ j. lookup j ns.dirs ≡ some dir) p there in
            (
              dir,
              w,
              ground (
                arith,
                lookup-push_into new_parent dir ns.dirs there c e,
                find-push_entry e dir absent n u,
              ),
            )
        | inr h ↦ (x, ground (arith, lookup-push_into new_parent dir ns.dirs there c e), f)
      ]

-- What holds while `rename` works: the tree, and a way of the destination past what is moved.
abbrev IsClear : ℕ → ℕ → Namespace → Type 0
IsClear ino to s = IsTree s × ((n : ℕ) × Clears s.parents ino n to)

removed-IsClear :
    (ino to gone : ℕ) (ns : Namespace)
    → ((k : InodeKind) → is_directory k ≡ true → links k gone ns.dirs ≡ 0)
    → IsClear ino to ns
    → IsClear ino to (remove_directory_inode gone ns)
unfolding remove_directory_inode
removed-IsClear ino to gone ns unnamed c =
    let (t, w) = c in
    let (n, above) = w in
    (removed-IsTree ns t gone unnamed, Clears-remove ns.parents gone ino n to above)

released-IsClear :
    (ino to : ℕ) (e : DirEntry) (ns : Namespace)
    → ((k : InodeKind) → is_directory k ≡ true → links k e.ino ns.dirs ≡ 0)
    → IsClear ino to ns
    → IsClear ino to (release_inode_ref e.ino ns)
unfolding release_inode_ref
released-IsClear ino to e ns unnamed c = elim (Option-cases (lookup e.ino ns.inodes)) [
  | inl gone ↦ rw (gone, release_inode_ref) c
  | inr (x, at_x) ↦ elim (Bool-cases (ltb 0 (x.nlink - 1))) [
    | inl more ↦
        rw (at_x, release_inode_ref, more)
          (record { parented = c.0.parented; climbs = c.0.climbs }, c.1)
    | inr last ↦ rw (at_x, release_inode_ref, last) (removed-IsClear ino to e.ino ns unnamed c)
  ]
]

module _ (parent : ℕ) (name : Name) (new_parent : ℕ) (new_name : Name) (no_replace : Bool)
    (now : ℕ × ℕ) (ns : Namespace) (from to : DirectoryObject) (src : DirEntry) (v : IsValid ns)
    (t : IsTree ns) (at_from : lookup parent ns.dirs ≡ some from)
    (at_to : lookup new_parent ns.dirs ≡ some to) (found : find_entry name from ≡ some src)
    (moves : ((parent == new_parent) && name_eq name new_name) ≡ false)
    (no_cycle : (is_directory src.kind
        && meets (entry_count ns.inodes + 1) ns.parents src.ino new_parent)
      ≡ false)
    (free : refuses ns src.kind new_name no_replace (find_entry new_name to) ≡ none) where
  abbrev entry : DirEntry
  entry =
      moved parent name new_parent new_name no_replace now ns from to src v at_from at_to found
        moves free

  abbrev start : Namespace
  start =
      lifted parent name new_parent new_name no_replace now ns from to src v at_from at_to found
        moves free

  abbrev goal_dir : DirectoryObject
  goal_dir =
      target parent name new_parent new_name no_replace now ns from to src v at_from at_to found
        moves free

  start-Owes : Owes (owing entry nothing) start
  start-Owes =
      lifted-Owes parent name new_parent new_name no_replace now ns from to src v at_from at_to
        found moves free

  start-goal : lookup new_parent start.dirs ≡ some goal_dir
  start-goal =
      lifted-target parent name new_parent new_name no_replace now ns from to src v at_from at_to
        found moves free

  goal-find : find_entry new_name goal_dir ≡ find_entry new_name to
  goal-find =
      same_find parent name new_parent new_name no_replace now ns from to src v at_from at_to found
        moves free

  start-IsClear : IsClear src.ino new_parent start
  start-IsClear =
      let here : contains_key new_parent ns.dirs ≡ true = unfold contains_key in ground arith in
      let l = links-find name src parent from ns.dirs at_from found in
      let kind : contains_key src.ino ns.dirs ≡ is_directory src.kind =
        ground (arith, v.agrees src.ino, v.linked src.kind src.ino) in
      (
        retained-IsTree ns t parent from name at_from,
        guard-Clears ns v t src.ino new_parent here (rw kind no_cycle),
      )

  -- The entry takes its new place in what `displace` leaves.
  placed-IsTree :
      (s : Namespace) (dir : DirectoryObject)
      → Owes (owing entry nothing) s
      → IsClear src.ino new_parent s
      → lookup new_parent s.dirs ≡ some dir
      → find_entry new_name dir ≡ none
      → IsTree (attach parent new_parent entry now s)
  placed-IsTree s dir o c there absent =
      let (tree, w) = c in
      let (n, above) = w in
      attached-IsTree s tree parent new_parent entry now dir n (o.tidy new_parent dir there).0 there
        absent (Owes-unnamed entry nothing s o) above

  displaced-IsClear :
      (old : DirEntry)
      → find_entry new_name to ≡ some old
      → IsClear src.ino new_parent (displace new_parent new_name (some old) start)
  unfolding displace
  displaced-IsClear old e =
      let at_old = goal-find ∙ e in
      let clear =
        replaced_empty parent name new_parent new_name no_replace now ns from to src v at_from at_to
          found moves free old e in
      let o =
        without_old-Owes new_parent new_name old start goal_dir (owing entry nothing) start-Owes
          start-goal at_old clear in
      let s : Namespace = record start { dirs = retain_in new_parent new_name start.dirs } in
      let c : IsClear src.ino new_parent s = (
        retained-IsTree start start-IsClear.0 new_parent goal_dir new_name start-goal,
        start-IsClear.1,
      ) in
      let unnamed = Owes-unnamed old (owing entry nothing) s o in
      elim (Bool-cases (is_directory old.kind)) [
        | inl is_dir ↦ rw is_dir (removed-IsClear src.ino new_parent old.ino s unnamed c)
        | inr no_dir ↦ rw no_dir (released-IsClear src.ino new_parent old s unnamed c)
      ]

  moved-IsTree :
      (existing : Option DirEntry)
      → find_entry new_name to ≡ existing
      → IsTree (attach parent new_parent entry now (displace new_parent new_name existing start))
  moved-IsTree none e =
      unfold displace in
      placed-IsTree start goal_dir start-Owes start-IsClear start-goal (goal-find ∙ e)
  moved-IsTree (some old) e =
      let at_old = goal-find ∙ e in
      let clear =
        replaced_empty parent name new_parent new_name no_replace now ns from to src v at_from at_to
          found moves free old e in
      placed-IsTree (displace new_parent new_name (some old) start) (retain_other new_name goal_dir)
        (displace-Owes new_parent new_name old start goal_dir (owing entry nothing) start-Owes
          start-goal at_old clear)
        (displaced-IsClear old e)
        (displace-lookup new_parent new_name old start goal_dir (owing entry nothing) start-Owes
          start-goal at_old clear)
        (ground
          (arith, find-retain_other new_name new_name goal_dir, name_eq_iff new_name new_name))

  move_entry-IsTree :
      IsTree (move_entry parent name new_parent entry (find_entry new_name to) now ns)
  unfolding move_entry
  move_entry-IsTree = moved-IsTree (find_entry new_name to) refl

-- A rename in a valid tree, done or refused, keeps the directories one tree: the parent of each is
-- the directory that names it, and the parents lead from each to the root, so that none lies below
-- itself.
pub rename-IsTree :
    (parent : ℕ) (name : Name) (new_parent : ℕ) (new_name : Name) (no_replace : Bool) (now : ℕ × ℕ)
    (ns : Namespace)
    → IsValid ns
    → IsTree ns
    → IsTree (rename parent name new_parent new_name no_replace now ns).1
unfolding rename
rename-IsTree parent name new_parent new_name no_replace now ns v t =
    elim (Option-cases (lookup parent ns.dirs)) [
      | inl gone ↦ rw (gone, rename) t
      | inr (from, at_from) ↦ elim (Option-cases (lookup new_parent ns.dirs)) [
        | inl gone ↦ rw (at_from, rename, gone, rename) t
        | inr (to, at_to) ↦ elim (Option-cases (find_entry name from)) [
          | inl absent ↦ rw (at_from, rename, at_to, rename, absent, rename) t
          | inr (src, found) ↦ elim (Bool-cases ((parent == new_parent) && name_eq name new_name)) [
            | inl same ↦ rw (at_from, rename, at_to, rename, found, rename, same) t
            | inr moves ↦
                elim (Bool-cases (
                  is_directory src.kind
                  && meets (entry_count ns.inodes + 1) ns.parents src.ino new_parent)) [
                    | inl cycle ↦ rw (at_from, rename, at_to, rename, found, rename, moves, cycle) t
                    | inr no_cycle ↦
                        elim (Option-cases
                          (refuses ns src.kind new_name no_replace (find_entry new_name to))) [
                            | inr (e, refused) ↦
                                rw
                                  (
                                    at_from, rename, at_to, rename, found, rename, moves, no_cycle,
                                    refused, rename,
                                  )
                                  t
                            | inl free ↦
                                rw
                                  (
                                    at_from, rename, at_to, rename, found, rename, moves, no_cycle,
                                    free, rename,
                                  )
                                  (move_entry-IsTree parent name new_parent new_name no_replace now
                                    ns from to src v t at_from at_to found moves no_cycle free)
                          ]
                  ]
          ]
        ]
      ]
    ]
