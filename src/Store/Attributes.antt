-- ===== src/Store/Attributes.antt =====
-- The attributes of an inode: `set_attr` and the extended attributes of
-- crates/lchfs-store/src/lib.rs, with `XattrBlob` of crates/lchfs-format/src/objects.rs. An attribute
-- map is an association list; bincode at that type is a parameter.
pub mod Keeps
mod Tests
use Prim.Native.Nat.{bit_and, bit_or}
use lchfs.Common.{
  ℕ, ◌+◌, ◌-◌, ◌*◌, ◌^◌, Bool, true, false, not, ◌&&◌, Option, none, some, List, [], ◌∷◌, ltb, ◌==◌,
}
use lchfs.Common.{if◌then◌else◌, length, Result, ok, err}
use lchfs.Common.Assoc.{lookup}
use lchfs.Common.Names.{Name, name_eq}
use lchfs.Common.Bytes.{Bincode}
use lchfs.Format.Objects.{InodeObject}
use lchfs.Store.Namespace.{Namespace, mark_dirty, set_inode}

pub data AttrError : Type 0 where
  no_such_ino too_large : ℕ → AttrError
  no_such_xattr xattr_exists : Name → AttrError
  empty_name format_error : AttrError

pub data XattrSetFlags : Type 0 where
  any_flags create_only replace_only : XattrSetFlags

abbrev pub XattrMap : Type 0
XattrMap = List (Name × List ℕ)

unfoldable pub map_get : Name → XattrMap → Option (List ℕ)
map_get name [] = none
map_get name ((k, v) ∷ m) = if name_eq k name then some v else map_get name m

unfoldable pub map_insert : Name → List ℕ → XattrMap → XattrMap
map_insert name value [] = (name, value) ∷ []
map_insert name value ((k, v) ∷ m) =
    if name_eq k name then (name, value) ∷ m else (k, v) ∷ map_insert name value m

unfoldable pub map_remove : Name → XattrMap → XattrMap
map_remove name [] = []
map_remove name ((k, v) ∷ m) =
    let rest = map_remove name m in if name_eq k name then rest else (k, v) ∷ rest

abbrev pub present : Option (List ℕ) → Bool
present none = false
present (some _) = true

abbrev pub max_xattr_name_len : ℕ
max_xattr_name_len = 255

abbrev pub max_xattr_value_len : ℕ
max_xattr_value_len = 64 * 1024

abbrev pub max_xattr_total_len : ℕ
max_xattr_total_len = 64 * 1024

abbrev pub Done : Type 0
Done = Result AttrError (Unit {0}) × Namespace

-- The low twelve bits of a mode are the caller's to change.
abbrev pub merge_mode : Option ℕ → ℕ → ℕ
merge_mode none old = old
merge_mode (some mode) old = bit_or (bit_and old (2 ^ 32 - 1 - 0xfff)) (bit_and mode 0xfff)

abbrev pub or_old {ℓ} : {A : Type ℓ} → Option A → A → A
or_old none old = old
or_old (some new) old = new

unfoldable pub set_attr :
    ℕ → Option ℕ → Option ℕ → Option ℕ → Option (ℕ × ℕ) → Option (ℕ × ℕ) → ℕ × ℕ → Namespace → Done
set_attr ino mode uid gid atime mtime now ns = elim (lookup ino ns.inodes) [
  | none ↦ (err (no_such_ino ino), ns)
  | some i ↦ (
    ok tt,
    mark_dirty ino (
        set_inode ino
          (record i {
            mode = merge_mode mode i.mode;
            uid = or_old uid i.uid;
            gid = or_old gid i.gid;
            atime = or_old atime i.atime;
            mtime = or_old mtime i.mtime;
            ctime = now;
          })
          ns),
  )
]

abbrev pub found : Name → Option (List ℕ) → Result AttrError (List ℕ)
found name none = err (no_such_xattr name)
found name (some value) = ok value

module _ (bincode : Bincode XattrMap) where
  -- `XattrBlob::from_map` and `XattrBlob::map_of`
  abbrev pub from_map : XattrMap → Option (List ℕ)
  from_map [] = none
  from_map (x ∷ m) = some (bincode.encode (x ∷ m))

  abbrev pub map_of : Option (List ℕ) → Option XattrMap
  map_of none = some []
  map_of (some blob) = bincode.decode blob

  abbrev pub get_in : Name → Option XattrMap → Result AttrError (List ℕ)
  get_in name none = err format_error
  get_in name (some m) = found name (map_get name m)

  unfoldable pub get_xattr : ℕ → Name → Namespace → Result AttrError (List ℕ)
  get_xattr ino name ns = elim (lookup ino ns.inodes) [
    | none ↦ err (no_such_ino ino)
    | some i ↦ get_in name (map_of i.xattrs)
  ]

  -- What the flags say of an attribute that is there, or not.
  abbrev pub flags_refuse : XattrSetFlags → Name → Bool → Option AttrError
  flags_refuse any_flags name exists = none
  flags_refuse create_only name exists = if exists then some (xattr_exists name) else none
  flags_refuse replace_only name exists = if exists then none else some (no_such_xattr name)

  abbrev pub blob_len : Option (List ℕ) → ℕ
  blob_len none = 0
  blob_len (some blob) = length blob

  abbrev pub store_map : ℕ → InodeObject → XattrMap → ℕ × ℕ → Namespace → Namespace
  store_map ino i m now ns =
      mark_dirty ino (set_inode ino (record i { xattrs = from_map m; ctime = now }) ns)

  abbrev pub set_in :
      ℕ → Name → List ℕ → XattrSetFlags → ℕ × ℕ → Namespace → InodeObject → Option XattrMap → Done
  set_in ino name value flags now ns i none = (err format_error, ns)
  set_in ino name value flags now ns i (some m) =
      elim (flags_refuse flags name (present (map_get name m))) [
        | some e ↦ (err e, ns)
        | none ↦
            let after = map_insert name value m in
            if ltb max_xattr_total_len (blob_len (from_map after))
            then (err (too_large (blob_len (from_map after))), ns)
            else (ok tt, store_map ino i after now ns)
      ]

  unfoldable pub set_xattr : ℕ → Name → List ℕ → XattrSetFlags → ℕ × ℕ → Namespace → Done
  set_xattr ino name value flags now ns =
      if length name == 0
      then (err empty_name, ns)
      else if ltb max_xattr_name_len (length name)
      then (err (too_large (length name)), ns)
      else if ltb max_xattr_value_len (length value)
      then (err (too_large (length value)), ns)
      else elim (lookup ino ns.inodes) [
        | none ↦ (err (no_such_ino ino), ns)
        | some i ↦ set_in ino name value flags now ns i (map_of i.xattrs)
      ]

  abbrev pub remove_in : ℕ → Name → ℕ × ℕ → Namespace → InodeObject → Option XattrMap → Done
  remove_in ino name now ns i none = (err format_error, ns)
  remove_in ino name now ns i (some m) =
      if present (map_get name m)
      then (ok tt, store_map ino i (map_remove name m) now ns)
      else (err (no_such_xattr name), ns)

  unfoldable pub remove_xattr : ℕ → Name → ℕ × ℕ → Namespace → Done
  remove_xattr ino name now ns = elim (lookup ino ns.inodes) [
    | none ↦ (err (no_such_ino ino), ns)
    | some i ↦ remove_in ino name now ns i (map_of i.xattrs)
  ]
