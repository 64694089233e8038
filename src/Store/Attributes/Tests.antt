-- ===== src/Store/Attributes/Tests.antt =====
-- An attribute set and removed on the root of a new pool, under a serializer that writes lengths.
use lchfs.Common.{
  ℕ, zero, suc, ◌≡◌, refl, ap, ◌∙◌, Option, none, some, List, [], ◌∷◌, ◌++◌, length, take, drop, ok,
  err,
}
use lchfs.Common.{take-length_append, drop-length_append}
use lchfs.Common.Assoc.{lookup, insert}
use lchfs.Common.Names.{Name, name_eq}
use lchfs.Common.Bytes.{Bincode}
use lchfs.Store.Namespace.{Namespace, new_namespace}
use lchfs.Store.Attributes.{
  XattrMap, any_flags, map_get, map_insert, map_remove, get_xattr, set_xattr, remove_xattr,
}
use lchfs.Store.Attributes.{no_such_xattr}
use lchfs.Store.Attributes.Keeps.{get_xattr-set_xattr, get_xattr-remove_xattr}

-- Each attribute is the lengths of its name and value, then both; the map's size stands first.
abbrev encode_entries : XattrMap → List ℕ
encode_entries [] = []
encode_entries ((k, v) ∷ m) = length k ∷ length v ∷ (k ++ (v ++ encode_entries m))

abbrev put_entry : Name × List ℕ → Option XattrMap → Option XattrMap
put_entry e none = none
put_entry e (some m) = some (e ∷ m)

abbrev decode_entries : ℕ → List ℕ → Option XattrMap
decode_entries zero bytes = some []
decode_entries (suc n) [] = none
decode_entries (suc n) (a ∷ []) = none
decode_entries (suc n) (a ∷ b ∷ bytes) =
    put_entry (take a bytes, take b (drop a bytes)) (decode_entries n (drop b (drop a bytes)))

abbrev decode_map : List ℕ → Option XattrMap
decode_map [] = none
decode_map (n ∷ bytes) = decode_entries n bytes

decode_entries-encode : (m : XattrMap) → decode_entries (length m) (encode_entries m) ≡ some m
decode_entries-encode [] = refl
decode_entries-encode ((k, v) ∷ m) =
    let bytes : List ℕ = k ++ (v ++ encode_entries m) in
    let after_k : drop (length k) bytes ≡ v ++ encode_entries m =
      drop-length_append k (v ++ encode_entries m) in
    let key : take (length k) bytes ≡ k = take-length_append k (v ++ encode_entries m) in
    let value : take (length v) (drop (length k) bytes) ≡ v =
      ap (take (length v)) after_k ∙ take-length_append v (encode_entries m) in
    let rest : drop (length v) (drop (length k) bytes) ≡ encode_entries m =
      ap (drop (length v)) after_k ∙ drop-length_append v (encode_entries m) in
    put key value (ap (decode_entries (length m)) rest ∙ decode_entries-encode m)
  where
    put :
        {k' v' : List ℕ} {o : Option XattrMap}
        → k' ≡ k
        → v' ≡ v
        → o ≡ some m
        → put_entry (k', v') o ≡ some ((k, v) ∷ m)
    put a b c = rw (a, b, c) refl

abbrev bincode : Bincode XattrMap
bincode = record {
  encode = λ m. length m ∷ encode_entries m;
  decode = decode_map;
  decode-encode = decode_entries-encode;
}

abbrev root : Namespace
root = new_namespace 0 0 (1, 0)

abbrev name_a : Name
name_a = 97 ∷ []

abbrev with_a : Namespace
with_a = (set_xattr bincode 1 name_a (5 ∷ 6 ∷ []) any_flags (2, 0) root).1

sets_a : set_xattr bincode 1 name_a (5 ∷ 6 ∷ []) any_flags (2, 0) root ≡ (ok tt, with_a)
unfolding set_xattr new_namespace lookup insert map_get map_insert name_eq
sets_a = refl

get_xattr-set_xattr_example : get_xattr bincode 1 name_a with_a ≡ ok (5 ∷ 6 ∷ [])
unfolding name_eq
get_xattr-set_xattr_example =
    get_xattr-set_xattr bincode 1 name_a name_a (5 ∷ 6 ∷ []) any_flags (2, 0) root with_a sets_a

abbrev without_a : Namespace
without_a = (remove_xattr bincode 1 name_a (3, 0) with_a).1

removes_a : remove_xattr bincode 1 name_a (3, 0) with_a ≡ (ok tt, without_a)
unfolding remove_xattr set_xattr new_namespace lookup insert map_get map_insert map_remove name_eq
removes_a = refl

get_xattr-remove_xattr_example : get_xattr bincode 1 name_a without_a ≡ err (no_such_xattr name_a)
unfolding name_eq
get_xattr-remove_xattr_example =
    get_xattr-remove_xattr bincode 1 name_a name_a (3, 0) with_a without_a removes_a
