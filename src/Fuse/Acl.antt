-- ===== src/Fuse/Acl.antt =====
-- POSIX ACLs of a new inode, crates/lchfs-fuse/src/acl.rs. `&` and `|` are the native ones; the
-- complement of a u32 mask `m` is `2 ^ 32 - 1 - m`.
pub mod Codec
pub mod Inherit
mod Tests
use lchfs.Common.{ℕ, zero, suc, ◌+◌, ◌-◌, ◌*◌, ◌/◌, ◌%◌, ◌^◌, Bool, true, false, not, ◌||◌}
use lchfs.Common.{
  Option, none, some, List, [], ◌∷◌, ◌++◌, ltb, ◌==◌, if◌then◌else◌, length, take, drop,
}
use lchfs.Common.Bytes.{to_le_bytes, from_le_bytes}
use Prim.Native.Nat.{bit_and, bit_or}

pub record Entry : Type 0 where
  pub tag : ℕ
  pub perm : ℕ
  pub id : ℕ

abbrev pub version : ℕ
version = 2

abbrev pub tag_user_obj : ℕ
tag_user_obj = 0x01

abbrev pub tag_user : ℕ
tag_user = 0x02

abbrev pub tag_group_obj : ℕ
tag_group_obj = 0x04

abbrev pub tag_group : ℕ
tag_group = 0x08

abbrev pub tag_mask : ℕ
tag_mask = 0x10

abbrev pub tag_other : ℕ
tag_other = 0x20

abbrev pub s_irwxu : ℕ
s_irwxu = 0x1c0

abbrev pub s_irwxg : ℕ
s_irwxg = 0x38

abbrev pub s_irwxo : ℕ
s_irwxo = 7

abbrev pub s_irwxugo : ℕ
s_irwxugo = 0x1ff

-- `!m` on u32
abbrev pub complement : ℕ → ℕ
complement m = 2 ^ 32 - 1 - m

abbrev pub entry_len : ℕ
entry_len = 8

abbrev pub header_len : ℕ
header_len = 4

abbrev pub parse_entry : List ℕ → Entry
parse_entry chunk = record {
  tag = from_le_bytes (take 2 chunk);
  perm = from_le_bytes (take 2 (drop 2 chunk));
  id = from_le_bytes (take 4 (drop 4 chunk));
}

-- The chunks of eight bytes, as many as the fuel says.
unfoldable pub parse_entries : ℕ → List ℕ → List Entry
parse_entries zero bytes = []
parse_entries (suc n) bytes =
    parse_entry (take entry_len bytes) ∷ parse_entries n (drop entry_len bytes)

unfoldable pub parse : List ℕ → Option (List Entry)
parse bytes =
    if ltb (length bytes) header_len || not ((length bytes - header_len) % entry_len == 0)
    then none
    else if not (from_le_bytes (take 4 bytes) == version)
    then none
    else some (parse_entries ((length bytes - header_len) / entry_len) (drop header_len bytes))

unfoldable pub serialize_entries : List Entry → List ℕ
serialize_entries [] = []
serialize_entries (e ∷ es) =
    to_le_bytes 2 e.tag ++ (to_le_bytes 2 e.perm ++ (to_le_bytes 4 e.id ++ serialize_entries es))

unfoldable pub serialize : List Entry → List ℕ
serialize entries = to_le_bytes 4 version ++ serialize_entries entries

-- What the loop of `create_masq` carries besides the entries.
pub record Masq : Type 0 where
  pub mode_bits : ℕ
  pub not_equiv : Bool
  pub group_obj_idx : Option ℕ
  pub mask_idx : Option ℕ

-- An owner's entry and the owner's bits of the mode, and the same for others.
abbrev pub masq_user_obj : Entry → Masq → Entry × Masq
masq_user_obj e m =
    let perm = bit_and e.perm (bit_or (m.mode_bits / 2 ^ 6) (complement s_irwxo) % 2 ^ 16) in
    (
      record e { perm = perm },
      record m { mode_bits = bit_and m.mode_bits (bit_or (perm * 2 ^ 6) (complement s_irwxu)) },
    )

abbrev pub masq_other : Entry → Masq → Entry × Masq
masq_other e m =
    let perm = bit_and e.perm (bit_or m.mode_bits (complement s_irwxo) % 2 ^ 16) in
    (
      record e { perm = perm },
      record m { mode_bits = bit_and m.mode_bits (bit_or perm (complement s_irwxo)) },
    )

-- One round of the loop: the entry at index `i`, changed, and what is carried on.
unfoldable pub masq_step : ℕ → Entry → Masq → Option (Entry × Masq)
masq_step i e m =
    if e.tag == tag_user_obj
    then some (masq_user_obj e m)
    else if (e.tag == tag_user) || (e.tag == tag_group)
    then some (e, record m { not_equiv = true })
    else if e.tag == tag_group_obj
    then some (e, record m { group_obj_idx = some i })
    else if e.tag == tag_other
    then some (masq_other e m)
    else if e.tag == tag_mask
    then some (e, record m { mask_idx = some i; not_equiv = true })
    else none

unfoldable pub masq_loop : ℕ → List Entry → Masq → Option (List Entry × Masq)
masq_loop i [] m = some ([], m)
masq_loop i (e ∷ es) m = elim (masq_step i e m) [
  | none ↦ none
  | some (e', m') ↦ elim (masq_loop (suc i) es m') [
    | none ↦ none
    | some (es', last) ↦ some (e' ∷ es', last)
  ]
]

-- The mask or group entry that reconciles the middle bits.
unfoldable pub masq_group : ℕ → List Entry → ℕ → List Entry × ℕ
masq_group i [] mode_bits = ([], mode_bits)
masq_group zero (e ∷ es) mode_bits =
    let perm = bit_and e.perm (bit_or (mode_bits / 2 ^ 3) (complement s_irwxo) % 2 ^ 16) in
    (record e { perm = perm } ∷ es, bit_and mode_bits (bit_or (perm * 2 ^ 3) (complement s_irwxg)))
masq_group (suc i) (e ∷ es) mode_bits =
    let (es', bits) = masq_group i es mode_bits in (e ∷ es', bits)

abbrev pub chosen : Masq → Option ℕ
chosen m = elim m.mask_idx [ some i ↦ some i | none ↦ m.group_obj_idx ]

-- The adjusted entries, the mode, and whether the ACL must be stored.
unfoldable pub create_masq : List Entry → ℕ → Option (List Entry × (ℕ × Bool))
create_masq entries mode =
    elim (masq_loop 0 entries
      (record { mode_bits = mode; not_equiv = false; group_obj_idx = none; mask_idx = none })) [
        | none ↦ none
        | some (looped, m) ↦ elim (chosen m) [
          | none ↦ none
          | some i ↦
              let (es, bits) = masq_group i looped m.mode_bits in
              some (
                es,
                (
                  bit_or (bit_and mode (complement s_irwxugo)) (bit_and bits s_irwxugo),
                  m.not_equiv,
                ),
              )
        ]
      ]

pub record Inherited : Type 0 where
  pub mode : ℕ
  pub access : Option (List ℕ)
  pub default : Option (List ℕ)

abbrev pub umasked : ℕ → ℕ → Option (List ℕ) → Inherited
umasked mode umask default = record {
  mode = bit_and mode (complement umask);
  access = none;
  default = default;
}

unfoldable pub inherit : Option (List ℕ) → ℕ → ℕ → Bool → Inherited
inherit parent_default mode umask is_dir = elim parent_default [
  | none ↦ umasked mode umask none
  | some raw ↦ elim (parse raw) [
    | none ↦ umasked mode umask none
    | some [] ↦ umasked mode umask none
    | some (e ∷ es) ↦
        let default : Option (List ℕ) = if is_dir then some (serialize (e ∷ es)) else none in
        elim (create_masq (e ∷ es) mode) [
          | none ↦ umasked mode umask default
          | some (access, (new_mode, not_equiv)) ↦ record {
            mode = new_mode;
            access = if not_equiv then some (serialize access) else none;
            default = default;
          }
        ]
  ]
]
