-- ===== src/Store/Attributes/Keeps.antt =====
-- What is stored under an attribute's name, and what a change of attributes keeps.
use lchfs.Common.{
  ℕ, ◌≡◌, refl, arith, Bool, true, false, Option, none, some, List, [], ◌∷◌, ◌==◌, if◌then◌else◌,
}
use lchfs.Common.{ok, err, inl, inr, Option-cases, Bool-cases}
use lchfs.Common.Assoc.{lookup, lookup-insert}
use lchfs.Common.Names.{Name, name_eq, name_eq_iff}
use lchfs.Common.Bytes.{Bincode}
use lchfs.Format.Objects.{InodeObject}
use lchfs.Store.Namespace.{Namespace}
use lchfs.Store.Attributes.{
  XattrSetFlags, XattrMap, map_get, map_insert, map_remove, present, from_map, map_of,
}
use lchfs.Store.Attributes.{
  found, get_xattr, set_in, set_xattr, remove_xattr, no_such_xattr, store_map, flags_refuse,
}

get-map_insert :
    (other name : Name) (value : List ℕ) (m : XattrMap)
    → map_get other (map_insert name value m)
      ≡ (if name_eq name other then some value else map_get other m)
unfolding map_get map_insert
get-map_insert other name value [] = refl
get-map_insert other name value ((k, v) ∷ m) = ground (
  arith,
  get-map_insert other name value m,
  name_eq_iff k name,
  name_eq_iff k other,
  name_eq_iff name other,
)

get-map_remove :
    (other name : Name) (m : XattrMap)
    → map_get other (map_remove name m) ≡ (if name_eq name other then none else map_get other m)
unfolding map_get map_remove
get-map_remove other name [] = ground arith
get-map_remove other name ((k, v) ∷ m) = ground (
  arith,
  get-map_remove other name m,
  name_eq_iff k name,
  name_eq_iff k other,
  name_eq_iff name other,
)

module _ (bincode : Bincode XattrMap) where
  map_of-from_map : (m : XattrMap) → map_of bincode (from_map bincode m) ≡ some m
  map_of-from_map [] = refl
  map_of-from_map (x ∷ m) = bincode.decode-encode (x ∷ m)

  get_xattr-store_map :
      (ino : ℕ) (i : InodeObject) (m : XattrMap) (now : ℕ × ℕ) (ns : Namespace) (name : Name)
      → get_xattr bincode ino name (store_map bincode ino i m now ns) ≡ found name (map_get name m)
  unfolding get_xattr
  get_xattr-store_map ino i m now ns name =
      let at =
        lookup-insert ino ino (record i { xattrs = from_map bincode m; ctime = now }) ns.inodes in
      let same : (ino == ino) ≡ true = ground arith in
      rw (at, same, get_xattr, map_of-from_map m) refl

  get_xattr-here :
      (ino : ℕ) (i : InodeObject) (m : XattrMap) (ns : Namespace) (name : Name)
      → lookup ino ns.inodes ≡ some i
      → map_of bincode i.xattrs ≡ some m
      → get_xattr bincode ino name ns ≡ found name (map_get name m)
  unfolding get_xattr
  get_xattr-here ino i m ns name at e = rw (at, get_xattr, e) refl

  -- What a change that succeeds has found and stored.
  set_in-stored :
      (ino : ℕ) (name : Name) (value : List ℕ) (flags : XattrSetFlags) (now : ℕ × ℕ)
      (ns ns' : Namespace) (i : InodeObject) (o : Option XattrMap)
      → set_in bincode ino name value flags now ns i o ≡ (ok tt, ns')
      → (m : XattrMap) × ((o ≡ some m)
          × (ns' ≡ store_map bincode ino i (map_insert name value m) now ns))
  set_in-stored ino name value flags now ns ns' i none done = absurd (ground arith)
  set_in-stored ino name value flags now ns ns' i (some m) done =
      elim (Option-cases (flags_refuse bincode flags name (present (map_get name m)))) [
        | inr (e, refused) ↦ absurd (ground arith)
        | inl allowed ↦ (m, (refl, ground arith))
      ]

  -- After a successful `set_xattr` the attribute reads as the value, and every other attribute of
  -- the inode as before.
  pub get_xattr-set_xattr :
      (ino : ℕ) (name other : Name) (value : List ℕ) (flags : XattrSetFlags) (now : ℕ × ℕ)
      (ns ns' : Namespace)
      → set_xattr bincode ino name value flags now ns ≡ (ok tt, ns')
      → get_xattr bincode ino other ns'
        ≡ (if name_eq name other then ok value else get_xattr bincode ino other ns)
  unfolding set_xattr
  get_xattr-set_xattr ino name other value flags now ns ns' done =
      elim (Option-cases (lookup ino ns.inodes)) [
        | inl gone ↦ absurd (ground arith)
        | inr (i, at) ↦ after i at (
            set_in-stored ino name value flags now ns ns' i (map_of bincode i.xattrs)
              (ground arith))
      ]
    where
      after :
          (i : InodeObject)
          → lookup ino ns.inodes ≡ some i
          → (m : XattrMap) × ((map_of bincode i.xattrs ≡ some m)
              × (ns' ≡ store_map bincode ino i (map_insert name value m) now ns))
          → get_xattr bincode ino other ns'
            ≡ (if name_eq name other then ok value else get_xattr bincode ino other ns)
      after i at (m, (e, stored)) =
          rw
            (
              stored,
              get_xattr-store_map ino i (map_insert name value m) now ns other,
              get_xattr-here ino i m ns other at e,
              get-map_insert other name value m,
            )
            (by_name (name_eq name other) (map_get other m))
        where
          by_name :
              (b : Bool) (o : Option (List ℕ))
              → found other (if b then some value else o) ≡ (if b then ok value else found other o)
          by_name true o = refl
          by_name false o = refl

  -- After a successful `remove_xattr` the attribute is missing, and every other attribute of the
  -- inode reads as before.
  pub get_xattr-remove_xattr :
      (ino : ℕ) (name other : Name) (now : ℕ × ℕ) (ns ns' : Namespace)
      → remove_xattr bincode ino name now ns ≡ (ok tt, ns')
      → get_xattr bincode ino other ns'
        ≡ (if name_eq name other then err (no_such_xattr other) else get_xattr bincode ino other ns)
  unfolding remove_xattr
  get_xattr-remove_xattr ino name other now ns ns' done =
      elim (Option-cases (lookup ino ns.inodes)) [
        | inl gone ↦ absurd (ground arith)
        | inr (i, at) ↦ elim (Option-cases (map_of bincode i.xattrs)) [
          | inl broken ↦ absurd (ground arith)
          | inr (m, e) ↦ elim (Bool-cases (present (map_get name m))) [
            | inr missing ↦ absurd (ground arith)
            | inl there ↦
                let stored : ns' ≡ store_map bincode ino i (map_remove name m) now ns =
                  ground arith in
                rw
                  (
                    stored,
                    get_xattr-store_map ino i (map_remove name m) now ns other,
                    get_xattr-here ino i m ns other at e,
                    get-map_remove other name m,
                  )
                  (by_name (name_eq name other) (map_get other m))
          ]
        ]
      ]
    where
      by_name :
          (b : Bool) (o : Option (List ℕ))
          → found other (if b then none else o)
            ≡ (if b then err (no_such_xattr other) else found other o)
      by_name true o = refl
      by_name false o = refl
