-- ===== src/Store/Namespace/Tree.antt =====
-- That the directories are one tree: every directory stands in its parent's, and the parents lead
-- from each to the root (`Namespace` and `rename` of crates/lchfs-store/src/lib.rs).
use lchfs.Common.{
  ℕ, zero, suc, ◌+◌, ◌≤◌, ◌≡◌, ◌≢◌, subst, arith, true, false, none, some, ltb, ◌∷◌, [], ◌==◌, ◌&&◌,
  inl, inr, Bool-cases,
}
use lchfs.Common.Assoc.{Map, lookup, contains_key, entry_count, UniqueKeys, sum}
use lchfs.Common.Names.{Name, name_eq, name_eq_refl, name_eq→eq}
use lchfs.Format.Objects.{InodeKind, is_directory, DirEntry, DirectoryObject}
use lchfs.Store.Namespace.{Namespace, root_dir_ino, parent_or_root, meets, find_entry}
use lchfs.Store.Namespace.Directory.{count, UniqueNames}
use lchfs.Store.Namespace.Links.{links, IsTidy}
use lchfs.Store.Namespace.Valid.{IsValid}
use lchfs.Store.Namespace.Climb.{Climbs, Clears, Within, Within-entry_count, meets-Clears}

-- Each directory that an entry names has the entry's directory as its parent.
abbrev pub AreNamed : Map ℕ → Map DirectoryObject → Type 0
AreNamed parents dirs =
    (d : ℕ) (dir : DirectoryObject) (name : Name) (e : DirEntry)
    → lookup d dirs ≡ some dir
    → find_entry name dir ≡ some e
    → is_directory e.kind ≡ true
    → lookup e.ino parents ≡ some d

pub record IsTree (ns : Namespace) : Type 0 where
  pub parented : AreNamed ns.parents ns.dirs
  -- no directory lies below itself
  pub climbs : (i : ℕ) → contains_key i ns.dirs ≡ true → (n : ℕ) × Climbs ns.parents n i

-- An inode that is counted is named.
counted_entry :
    (i : ℕ) (dir : DirectoryObject)
    → UniqueNames dir
    → 1 ≤ count InodeKind.directory i dir
    → (e : DirEntry) × (find_entry e.name dir ≡ some e) × (e.ino ≡ i) × (is_directory e.kind ≡ true)
unfolding count find_entry
counted_entry i [] u h = absurd (omega arith)
counted_entry i (x ∷ dir) u h = elim (Bool-cases (is_directory x.kind && (x.ino == i))) [
  | inl e ↦
      let f : find_entry x.name (x ∷ dir) ≡ some x = ground (arith, name_eq_refl x.name) in
      (x, f, ground arith, ground arith)
  | inr e ↦
      let (y, f, g, k) = counted_entry i dir u.1 (ground arith) in
      elim (Bool-cases (name_eq x.name y.name)) [
        | inl q ↦
            let w = subst (λ n. find_entry n dir ≡ none) (name_eq→eq x.name y.name q) u.0 in
            absurd (ground arith)
        | inr q ↦ (y, rw (q, find_entry) f, g, k)
      ]
]

linked_entry :
    (i : ℕ) (dirs : Map DirectoryObject)
    → UniqueKeys dirs
    → IsTidy dirs
    → 1 ≤ links InodeKind.directory i dirs
    → (d : ℕ) × (dir : DirectoryObject) × (e : DirEntry) × (lookup d dirs ≡ some dir)
      × (find_entry e.name dir ≡ some e)
      × (e.ino ≡ i)
      × (is_directory e.kind ≡ true)
unfolding links sum lookup
linked_entry i [] u t h = absurd (omega arith)
linked_entry i ((j, dir) ∷ dirs) u t h =
    elim (Bool-cases (ltb 0 (count InodeKind.directory i dir))) [
      | inl e ↦
          let at_j : lookup j ((j, dir) ∷ dirs) ≡ some dir = ground arith in
          let (y, f, g, k) = counted_entry i dir (t j dir at_j).0 (ground arith) in
          (j, dir, y, at_j, f, g, k)
      | inr e ↦
          let t' : IsTidy dirs = λ d x a. t d x (let w = u.0 in ground arith) in
          let (d, x, y, a, f, g, k) = linked_entry i dirs u.1 t' (ground arith) in
          let a' : lookup d ((j, dir) ∷ dirs) ≡ some x = (let w = u.0 in ground arith) in
          (d, x, y, a', f, g, k)
    ]

module _ (ns : Namespace) (v : IsValid ns) (t : IsTree ns) where
  -- The parent of a directory that is not the root is a directory.
  parent_is_dir :
      (i : ℕ)
      → contains_key i ns.dirs ≡ true
      → i ≢ root_dir_ino
      → contains_key (parent_or_root ns.parents i) ns.dirs ≡ true
  parent_is_dir i h n =
      let one : 1 ≤ links InodeKind.directory i ns.dirs =
        ground (arith, v.linked InodeKind.directory i, v.agrees i) in
      let (d, dir, e, a, f, g, k) = linked_entry i ns.dirs v.unique v.tidy one in
      let p : lookup i ns.parents ≡ some d =
        subst (λ x. lookup x ns.parents ≡ some d) g (t.parented d dir e.name e a f k) in
      let q : d ≡ parent_or_root ns.parents i = ground arith in
      let c : contains_key d ns.dirs ≡ true = unfold contains_key in ground arith in
      subst (λ x. contains_key x ns.dirs ≡ true) q c

  path_in_inodes :
      (n i : ℕ)
      → contains_key i ns.dirs ≡ true
      → Climbs ns.parents n i
      → Within ns.inodes ns.parents n i
  path_in_inodes zero i h c = c
  path_in_inodes (suc n) i h c = (
    c.0,
    (let a = v.agrees i in unfold contains_key in ground arith),
    path_in_inodes n (parent_or_root ns.parents i) (parent_is_dir i h c.0) c.1,
  )

  -- A file is on no directory's way to the root.
  file_aside :
      (moved n i : ℕ)
      → contains_key moved ns.dirs ≡ false
      → contains_key i ns.dirs ≡ true
      → Climbs ns.parents n i
      → Clears ns.parents moved n i
  file_aside moved zero i m h c = c
  file_aside moved (suc n) i m h c = (
    c.0,
    (λ q. let g = subst (λ x. contains_key x ns.dirs ≡ true) q h in ground arith),
    file_aside moved n (parent_or_root ns.parents i) m (parent_is_dir i h c.0) c.1,
  )

  -- The guard of `rename`: the destination does not lie below what is moved.
  pub guard-Clears :
      (moved to : ℕ)
      → contains_key to ns.dirs ≡ true
      → (contains_key moved ns.dirs && meets (entry_count ns.inodes + 1) ns.parents moved to)
        ≡ false
      → (n : ℕ) × Clears ns.parents moved n to
  guard-Clears moved to h g =
      let (n, c) = t.climbs to h in
      let l = Within-entry_count ns.inodes ns.parents n to (path_in_inodes n to h c) in
      elim (Bool-cases (contains_key moved ns.dirs)) [
        | inr e ↦ (n, file_aside moved n to e h c)
        | inl e ↦ (
          n,
          meets-Clears (entry_count ns.inodes + 1) ns.parents moved n to (omega arith)
              (ground arith) c,
        )
      ]
