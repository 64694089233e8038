-- ===== src/Format/Superblock/Uuid/Tests.antt =====
-- A uuid, and its text with dashes.
use lchfs.Common.{ℕ, ◌<◌, ◌≡◌, refl, arith, some, List, ◌∷◌, All, replicate}
use lchfs.Format.Superblock.Uuid.{pool_uuid_hex, parse_pool_uuid, strip_dashes, parse_pool_uuid-hex}

abbrev uuid : List ℕ
uuid = 0xde ∷ 0xad ∷ replicate 14 7

abbrev text : List ℕ
text = b'd' ∷ b'e' ∷ b'-' ∷ b'a' ∷ b'd' ∷ b'-' ∷ pool_uuid_hex (replicate 14 7)

text_digits : strip_dashes text ≡ pool_uuid_hex uuid
unfolding strip_dashes pool_uuid_hex
text_digits = refl

parse_pool_uuid-hex_example : parse_pool_uuid text ≡ some uuid
parse_pool_uuid-hex_example = parse_pool_uuid-hex uuid text refl bytes text_digits
  where
    bytes : All (λ b. b < 256) uuid
    bytes = ground arith
