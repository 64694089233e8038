-- ===== src/Store/Namespace.antt =====
-- The directory tree of the engine: `Namespace` and the operations on it in
-- crates/lchfs-store/src/lib.rs (`lookup`, `create_entry`, `unlink`, `rmdir`, `link`, `rename`). Each is what runs under the namespace lock, and returns the state also on an error.
pub mod Directory
pub mod Links
pub mod Climb
pub mod Valid
pub mod Create
pub mod Remove
pub mod Rename
pub mod Tree
pub mod Moves
mod Tests
use lchfs.Common.{ℕ, zero, suc, ◌+◌, ◌-◌, ◌%◌, ◌^◌, ◌≡◌, Bool, true, false, not, ◌&&◌, ◌||◌}
use lchfs.Common.{
  Option, none, some, List, [], ◌∷◌, ◌++◌, ltb, ◌==◌, if◌then◌else◌, length, replicate,
}
use lchfs.Common.{Result, ok, err}
use lchfs.Common.Assoc.{Map, lookup, insert, remove, contains_key, entry_count}
use lchfs.Common.Names.{Name, name_eq, name_leb, sort_by}
use lchfs.Format.Objects.{InodeKind, kind_eq, is_directory, DirEntry, DirectoryObject}
use lchfs.Format.Objects.{ContentRef, InodeObject, Hash}

-- The errors of these operations, with the source's arguments; messages are left out.
pub data PoolError : Type 0 where
  no_such_inode not_a_directory is_a_directory not_empty : ℕ → PoolError
  not_found already_exists : Name → PoolError
  invalid_argument : PoolError

pub record Namespace : Type 0 where
  pub inodes : Map InodeObject
  pub dirs : Map DirectoryObject
  pub parents : Map ℕ
  pub next_ino : ℕ
  pub dirty_inodes : Map (Unit {0})

abbrev pub root_dir_ino : ℕ
root_dir_ino = 1

-- The tree of a new pool: the root alone, with mode 0o755, for the user that creates the pool.
unfoldable pub new_namespace : ℕ → ℕ → ℕ × ℕ → Namespace
new_namespace uid gid now = record {
  inodes =
      (
        root_dir_ino,
        record {
          kind = InodeKind.directory;
          mode = 0x1ed;
          uid = uid;
          gid = gid;
          size = 0;
          nlink = 2;
          atime = now;
          mtime = now;
          ctime = now;
          xattrs = none;
          content = ContentRef.dir_entries (replicate 32 0);
          generation = 0;
        },
      )
      ∷ [];
  dirs = (root_dir_ino, []) ∷ [];
  parents = (root_dir_ino, root_dir_ino) ∷ [];
  next_ino = root_dir_ino + 1;
  dirty_inodes = (root_dir_ino, tt) ∷ [];
}

abbrev pub Outcome : Type 0 → Type 0
Outcome A = Result PoolError A × Namespace

abbrev pub mark_dirty : ℕ → Namespace → Namespace
mark_dirty ino ns = record ns { dirty_inodes = insert ino tt ns.dirty_inodes }

abbrev pub set_dir : ℕ → DirectoryObject → Namespace → Namespace
set_dir ino dir ns = record ns { dirs = insert ino dir ns.dirs }

abbrev pub set_inode : ℕ → InodeObject → Namespace → Namespace
set_inode ino i ns = record ns { inodes = insert ino i ns.inodes }

-- `entries.iter().find(|e| e.name == name)`
unfoldable pub find_entry : Name → DirectoryObject → Option DirEntry
find_entry name [] = none
find_entry name (e ∷ es) = if name_eq e.name name then some e else find_entry name es

-- `entries.retain(|e| e.name != name)`
unfoldable pub retain_other : Name → DirectoryObject → DirectoryObject
retain_other name [] = []
retain_other name (e ∷ es) =
    let rest = retain_other name es in if name_eq e.name name then rest else e ∷ rest

abbrev pub entry_leb : DirEntry → DirEntry → Bool
entry_leb a b = name_leb a.name b.name

-- `entries.push(e); entries.sort_by(|a, b| a.name.cmp(&b.name))`
unfoldable pub push_entry : DirEntry → DirectoryObject → DirectoryObject
push_entry e es = sort_by entry_leb (es ++ (e ∷ []))

pub lookup_name : ℕ → Name → Namespace → Result PoolError (Option ℕ)
lookup_name parent name ns = elim (lookup parent ns.dirs) [
  | none ↦ err (not_a_directory parent)
  | some dir ↦ ok (elim (find_entry name dir) [ none ↦ none | some e ↦ some e.ino ])
]

-- What a new inode starts with: content, link count and size.
abbrev pub new_content : InodeKind → Option Name → ContentRef × ℕ × ℕ
new_content InodeKind.directory target = (ContentRef.dir_entries (replicate 32 0), 2, 0)
new_content InodeKind.file target = (ContentRef.inline [], 1, 0)
new_content InodeKind.symlink none = (ContentRef.symlink_target [], 1, 0)
new_content InodeKind.symlink (some t) = (ContentRef.symlink_target t, 1, length t)

-- `dirs.get_mut(&d).unwrap()`, then the change: every caller has found the key before.
unfoldable pub push_into : ℕ → DirEntry → Map DirectoryObject → Map DirectoryObject
push_into d e dirs = elim (lookup d dirs) [
  | none ↦ dirs
  | some dir ↦ insert d (push_entry e dir) dirs
]

unfoldable pub retain_in : ℕ → Name → Map DirectoryObject → Map DirectoryObject
retain_in d name dirs = elim (lookup d dirs) [
  | none ↦ dirs
  | some dir ↦ insert d (retain_other name dir) dirs
]

abbrev pub new_inode : InodeKind → ℕ → ℕ → ℕ → ContentRef × ℕ × ℕ → ℕ × ℕ → InodeObject
new_inode kind mode uid gid (content, nlink, size) now = record {
  kind = kind;
  mode = mode;
  uid = uid;
  gid = gid;
  size = size;
  nlink = nlink;
  atime = now;
  mtime = now;
  ctime = now;
  xattrs = none;
  content = content;
  generation = 0;
}

-- `if kind == Directory { dirs.insert(ino, DirectoryObject::default()) }`
abbrev pub with_directory : InodeKind → ℕ → Map DirectoryObject → Map DirectoryObject
with_directory kind ino dirs = if is_directory kind then insert ino [] dirs else dirs

-- The part of `create_entry` behind its two refusals.
pub add_entry : ℕ → Name → InodeKind → InodeObject → Namespace → Namespace
add_entry parent name kind inode ns =
    let ino = ns.next_ino in
    let dirs = with_directory kind ino ns.dirs in
    record ns {
      next_ino = (ino + 1) % 2 ^ 64;
      inodes = insert ino inode ns.inodes;
      dirs = push_into parent (record { name = name; ino = ino; kind = kind }) dirs;
      parents = insert ino parent ns.parents;
      dirty_inodes = insert ino tt (insert parent tt ns.dirty_inodes);
    }

pub create_entry : ℕ → Name → ℕ → ℕ → ℕ → InodeKind → Option Name → ℕ × ℕ → Namespace → Outcome ℕ
create_entry parent name mode uid gid kind target now ns = elim (lookup parent ns.dirs) [
  | none ↦ (err (not_a_directory parent), ns)
  | some dir ↦ elim (find_entry name dir) [
    | some _ ↦ (err (already_exists name), ns)
    | none ↦ (
      ok ns.next_ino,
      add_entry parent name kind (new_inode kind mode uid gid (new_content kind target) now) ns,
    )
  ]
]

pub remove_directory_inode : ℕ → Namespace → Namespace
remove_directory_inode ino ns = record ns {
  inodes = remove ino ns.inodes;
  dirs = remove ino ns.dirs;
  parents = remove ino ns.parents;
  dirty_inodes = remove ino ns.dirty_inodes;
}

pub release_inode_ref : ℕ → Namespace → Namespace
release_inode_ref ino ns = elim (lookup ino ns.inodes) [
  | none ↦ ns
  | some i ↦
      if ltb 0 (i.nlink - 1)
      then mark_dirty ino (set_inode ino (record i { nlink = i.nlink - 1 }) ns)
      else remove_directory_inode ino ns
]

abbrev pub detach : ℕ → Name → Namespace → Namespace
detach parent name ns = record ns {
  dirs = retain_in parent name ns.dirs;
  dirty_inodes = insert parent tt ns.dirty_inodes;
}

pub unlink : ℕ → Name → Namespace → Outcome (Unit {0})
unlink parent name ns = elim (lookup parent ns.dirs) [
  | none ↦ (err (not_a_directory parent), ns)
  | some dir ↦ elim (find_entry name dir) [
    | none ↦ (err (not_found name), ns)
    | some e ↦
        if is_directory e.kind
        then (err (is_a_directory e.ino), ns)
        else (ok tt, release_inode_ref e.ino (detach parent name ns))
  ]
]

abbrev pub is_empty : DirectoryObject → Bool
is_empty [] = true
is_empty (_ ∷ _) = false

pub rmdir : ℕ → Name → Namespace → Outcome (Unit {0})
rmdir parent name ns = elim (lookup parent ns.dirs) [
  | none ↦ (err (not_a_directory parent), ns)
  | some dir ↦ elim (find_entry name dir) [
    | none ↦ (err (not_found name), ns)
    | some e ↦
        if not (is_directory e.kind)
        then (err (not_a_directory e.ino), ns)
        else elim (lookup e.ino ns.dirs) [
          | none ↦ (err (no_such_inode e.ino), ns)
          | some target ↦
              if not (is_empty target)
              then (err (not_empty e.ino), ns)
              else (ok tt, remove_directory_inode e.ino (detach parent name ns))
        ]
  ]
]

-- The part of `link` behind its refusals. The link count is a u32.
pub add_link : ℕ → InodeObject → ℕ → Name → Namespace → Namespace
add_link ino i new_parent new_name ns = record ns {
  inodes = insert ino (record i { nlink = (i.nlink + 1) % 2 ^ 32 }) ns.inodes;
  dirs = push_into new_parent (record { name = new_name; ino = ino; kind = i.kind }) ns.dirs;
  dirty_inodes = insert ino tt (insert new_parent tt ns.dirty_inodes);
}

pub link : ℕ → ℕ → Name → Namespace → Outcome (Unit {0})
link ino new_parent new_name ns = elim (lookup ino ns.inodes) [
  | none ↦ (err (no_such_inode ino), ns)
  | some i ↦
      if is_directory i.kind
      then (err (is_a_directory ino), ns)
      else elim (lookup new_parent ns.dirs) [
        | none ↦ (err (not_a_directory new_parent), ns)
        | some dir ↦ elim (find_entry new_name dir) [
          | some _ ↦ (err (already_exists new_name), ns)
          | none ↦ (ok tt, add_link ino i new_parent new_name ns)
        ]
      ]
]

-- `*parents.get(&walk).unwrap_or(&ROOT_DIR_INO)`
abbrev pub parent_or_root : Map ℕ → ℕ → ℕ
parent_or_root parents ino = elim (lookup ino parents) [ none ↦ root_dir_ino | some p ↦ p ]

-- The walk from the destination up to the root, at most `bound` steps: does it meet `moved`?
pub meets : ℕ → Map ℕ → ℕ → ℕ → Bool
meets zero parents moved walk = false
meets (suc bound) parents moved walk =
    let above = meets bound parents moved (parent_or_root parents walk) in
    if walk == moved then true else if walk == root_dir_ino then false else above

-- Whether the entry at the destination may be replaced by one of kind `kind`.
pub refuses : Namespace → InodeKind → Name → Bool → Option DirEntry → Option PoolError
refuses ns kind new_name no_replace none = none
refuses ns kind new_name no_replace (some old) =
    if no_replace
    then some (already_exists new_name)
    else if is_directory kind
    then if is_directory old.kind
      then elim (lookup old.ino ns.dirs) [
        | none ↦ none
        | some target ↦ if is_empty target then none else some (not_empty old.ino)
      ]
      else some (not_a_directory old.ino)
    else if is_directory old.kind
    then some (is_a_directory old.ino)
    else none

pub displace : ℕ → Name → Option DirEntry → Namespace → Namespace
displace new_parent new_name none ns = ns
displace new_parent new_name (some old) ns =
    let ns' = record ns { dirs = retain_in new_parent new_name ns.dirs } in
    if is_directory old.kind
    then remove_directory_inode old.ino ns'
    else release_inode_ref old.ino ns'

-- `if let Some(inode) = inodes.get_mut(&ino) { inode.ctime = now }`
abbrev pub touch : ℕ → ℕ × ℕ → Map InodeObject → Map InodeObject
touch ino now inodes = elim (lookup ino inodes) [
  | none ↦ inodes
  | some i ↦ insert ino (record i { ctime = now }) inodes
]

pub attach : ℕ → ℕ → DirEntry → ℕ × ℕ → Namespace → Namespace
attach parent new_parent e now ns = record ns {
  dirs = push_into new_parent e ns.dirs;
  parents = insert e.ino new_parent ns.parents;
  inodes = touch e.ino now ns.inodes;
  dirty_inodes = insert e.ino tt (insert new_parent tt (insert parent tt ns.dirty_inodes));
}

-- What `rename` does once nothing refuses it.
pub move_entry : ℕ → Name → ℕ → DirEntry → Option DirEntry → ℕ × ℕ → Namespace → Namespace
move_entry parent name new_parent e existing now ns =
    attach parent new_parent e now
      (displace new_parent e.name existing (record ns { dirs = retain_in parent name ns.dirs }))

pub rename : ℕ → Name → ℕ → Name → Bool → ℕ × ℕ → Namespace → Outcome (Unit {0})
rename parent name new_parent new_name no_replace now ns = elim (lookup parent ns.dirs) [
  | none ↦ (err (not_a_directory parent), ns)
  | some from ↦ elim (lookup new_parent ns.dirs) [
    | none ↦ (err (not_a_directory new_parent), ns)
    | some to ↦ elim (find_entry name from) [
      | none ↦ (err (not_found name), ns)
      | some src ↦
          if (parent == new_parent) && name_eq name new_name
          then (ok tt, ns)
          else if is_directory src.kind
              && meets (entry_count ns.inodes + 1) ns.parents src.ino new_parent
          then (err invalid_argument, ns)
          else let existing = find_entry new_name to in
            let moved : DirEntry = record { name = new_name; ino = src.ino; kind = src.kind } in
            elim (refuses ns src.kind new_name no_replace existing) [
              | some e ↦ (err e, ns)
              | none ↦ (ok tt, move_entry parent name new_parent moved existing now ns)
            ]
    ]
  ]
]
