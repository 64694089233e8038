-- ===== src/Format/Objects.antt =====
-- Inodes, directory entries and chunk lists, crates/lchfs-format/src/objects.rs. A hash is its
-- bytes, a time is seconds and nanoseconds, and an i64 is kept as its bit pattern.
use Prim.Native.Nat.{ℕ}
use mathlib.Core.Bool.{Bool, true, false}
use mathlib.Core.Option.{Option}
use mathlib.Core.List.{List}
use lchfs.Common.Names.{Name}

abbrev pub Hash : Type 0
Hash = List ℕ

pub data InodeKind : Type 0 where
  file directory symlink : InodeKind

-- `==` on kinds.
abbrev pub kind_eq : InodeKind → InodeKind → Bool
kind_eq InodeKind.file InodeKind.file = true
kind_eq InodeKind.directory InodeKind.directory = true
kind_eq InodeKind.symlink InodeKind.symlink = true
kind_eq _ _ = false

abbrev pub is_directory : InodeKind → Bool
is_directory InodeKind.directory = true
is_directory _ = false

pub record DirEntry : Type 0 where
  pub name : Name
  pub ino : ℕ
  pub kind : InodeKind

-- `entries` of the source's `DirectoryObject`, its one field.
abbrev pub DirectoryObject : Type 0
DirectoryObject = List DirEntry

pub data ContentRef : Type 0 where
  inline : List ℕ → ContentRef
  chunk_list : Hash → ContentRef
  dir_entries : Hash → ContentRef
  symlink_target : Name → ContentRef

pub record InodeObject : Type 0 where
  pub kind : InodeKind
  pub mode : ℕ
  pub uid : ℕ
  pub gid : ℕ
  pub size : ℕ
  pub nlink : ℕ
  pub atime : ℕ × ℕ
  pub mtime : ℕ × ℕ
  pub ctime : ℕ × ℕ
  pub xattrs : Option (List ℕ)
  pub content : ContentRef
  pub generation : ℕ

pub record ChunkRef : Type 0 where
  pub content_hash : Hash
  pub logical_offset : ℕ
  pub len : ℕ
