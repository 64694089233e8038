-- ===== src/Fuse/Acl/Tests.antt =====
-- A default ACL with a named user, and a mode that it narrows.
use lchfs.Common.{ℕ, ◌≡◌, arith, true, some, List, [], ◌∷◌}
use lchfs.Fuse.Acl.{Entry, parse, serialize, inherit}
use lchfs.Fuse.Acl.Codec.{parse-serialize}
use lchfs.Fuse.Acl.Inherit.{IsNarrower, inherit-IsNarrower}

abbrev entry : ℕ → ℕ → ℕ → Entry
entry tag perm id = record { tag = tag; perm = perm; id = id }

abbrev named_user : List Entry
named_user =
    entry 1 7 0xffffffff
    ∷ entry 2 7 1234
    ∷ entry 4 5 0xffffffff
    ∷ entry 16 7 0xffffffff
    ∷ entry 32 5 0xffffffff
    ∷ []

parse-serialize_example : parse (serialize named_user) ≡ some named_user
parse-serialize_example = parse-serialize named_user (
  (omega arith, (omega arith, omega arith)),
  (
    (omega arith, (omega arith, omega arith)),
    (
      (omega arith, (omega arith, omega arith)),
      ((omega arith, (omega arith, omega arith)), ((omega arith, (omega arith, omega arith)), tt)),
    ),
  ),
)

inherit-IsNarrower_example : IsNarrower (inherit (some (serialize named_user)) 438 18 true).mode 438
inherit-IsNarrower_example = inherit-IsNarrower (some (serialize named_user)) 438 18 true
