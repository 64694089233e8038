-- ===== src/Fuse/Acl/Codec.antt =====
-- The binary form of an ACL is read back as it was written.
use lchfs.Common.{ℕ, ◌-◌, ◌*◌, ◌/◌, ◌^◌, ◌<◌, ◌≡◌, refl, sym, ap, ◌∙◌}
use lchfs.Common.{some, List, [], ◌∷◌, ◌++◌, length, take, drop, arith, All}
use lchfs.Common.{
  subst, append_assoc, drop-drop, length-append, take-length_append, drop-length_append,
}
use lchfs.Common.Bytes.{
  to_le_bytes, from_le_bytes, length-to_le_bytes, from-to_le_bytes, take_le, drop_le, take_all,
}
use lchfs.Fuse.Acl.{Entry, version, parse_entry, parse_entries, parse, serialize_entries, serialize}

-- The fields fit their machine types.
abbrev pub Fits : Entry → Type 0
Fits e = (e.tag < 2 ^ 16) × ((e.perm < 2 ^ 16) × (e.id < 2 ^ 32))

abbrev entry_bytes : Entry → List ℕ
entry_bytes e = to_le_bytes 2 e.tag ++ (to_le_bytes 2 e.perm ++ to_le_bytes 4 e.id)

length-entry_bytes : (e : Entry) → length (entry_bytes e) ≡ 8
length-entry_bytes e = omega (
  arith,
  length-append (to_le_bytes 2 e.tag) (to_le_bytes 2 e.perm ++ to_le_bytes 4 e.id),
  length-append (to_le_bytes 2 e.perm) (to_le_bytes 4 e.id),
  length-to_le_bytes 2 e.tag,
  length-to_le_bytes 2 e.perm,
  length-to_le_bytes 4 e.id,
)

serialize_entries-cons :
    (e : Entry) (es : List Entry)
    → serialize_entries (e ∷ es) ≡ entry_bytes e ++ serialize_entries es
unfolding serialize_entries
serialize_entries-cons e es = sym (
    append_assoc (to_le_bytes 2 e.tag) (to_le_bytes 2 e.perm ++ to_le_bytes 4 e.id)
      (serialize_entries es)
    ∙ ap (λ (t : List ℕ). to_le_bytes 2 e.tag ++ t)
        (append_assoc (to_le_bytes 2 e.perm) (to_le_bytes 4 e.id) (serialize_entries es)))

take_eight : (xs ys : List ℕ) → length xs ≡ 8 → take 8 (xs ++ ys) ≡ xs
take_eight xs ys h = subst (λ k. take k (xs ++ ys) ≡ xs) h (take-length_append xs ys)

drop_eight : (xs ys : List ℕ) → length xs ≡ 8 → drop 8 (xs ++ ys) ≡ ys
drop_eight xs ys h = subst (λ k. drop k (xs ++ ys) ≡ ys) h (drop-length_append xs ys)

parse_entry-bytes : (e : Entry) → Fits e → parse_entry (entry_bytes e) ≡ e
parse_entry-bytes e (t, (p, i)) =
    let perm_on : drop 2 (entry_bytes e) ≡ to_le_bytes 2 e.perm ++ to_le_bytes 4 e.id =
      drop_le 2 e.tag (to_le_bytes 2 e.perm ++ to_le_bytes 4 e.id) in
    let id_on : drop 4 (entry_bytes e) ≡ to_le_bytes 4 e.id =
      drop-drop 2 2 (entry_bytes e) ∙ ap (drop 2) perm_on ∙ drop_le 2 e.perm (to_le_bytes 4 e.id) in
    rw
      (
        id_on,
        perm_on,
        take_le 2 e.tag (to_le_bytes 2 e.perm ++ to_le_bytes 4 e.id),
        take_le 2 e.perm (to_le_bytes 4 e.id),
        take_all 4 e.id,
        from-to_le_bytes 2 e.tag t,
        from-to_le_bytes 2 e.perm p,
        from-to_le_bytes 4 e.id i,
      )
      refl

parse-serialize_entries :
    (es : List Entry) → All Fits es → parse_entries (length es) (serialize_entries es) ≡ es
unfolding parse_entries
parse-serialize_entries [] f = refl
parse-serialize_entries (e ∷ es) f =
    rw
      (
        serialize_entries-cons e es,
        take_eight (entry_bytes e) (serialize_entries es) (length-entry_bytes e),
        drop_eight (entry_bytes e) (serialize_entries es) (length-entry_bytes e),
        parse_entry-bytes e f.0,
        parse-serialize_entries es f.1,
      )
      refl

length-serialize_entries : (es : List Entry) → length (serialize_entries es) ≡ 8 * length es
length-serialize_entries [] = unfold serialize_entries in refl
length-serialize_entries (e ∷ es) = rw (serialize_entries-cons e es) (
    omega (
      arith,
      length-append (entry_bytes e) (serialize_entries es),
      length-entry_bytes e,
      length-serialize_entries es,
    ))

-- An ACL whose fields fit their machine types is parsed back from what it serializes to.
pub parse-serialize : (es : List Entry) → All Fits es → parse (serialize es) ≡ some es
unfolding parse serialize
parse-serialize es f =
    let n : (length (to_le_bytes 4 version ++ serialize_entries es) - 4) / 8 ≡ length es = omega (
      arith,
      length-append (to_le_bytes 4 version) (serialize_entries es),
      length-to_le_bytes 4 version,
      length-serialize_entries es,
    ) in
    let head = take_le 4 version (serialize_entries es) in
    let known : from_le_bytes (take 4 (to_le_bytes 4 version ++ serialize_entries es)) ≡ version =
      rw head (from-to_le_bytes 4 version (omega arith)) in
    rw (n, drop_le 4 version (serialize_entries es), known, parse-serialize_entries es f)
      (ground (
        arith,
        length-append (to_le_bytes 4 version) (serialize_entries es),
        length-to_le_bytes 4 version,
        length-serialize_entries es,
      ))
