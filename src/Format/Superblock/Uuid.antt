-- ===== src/Format/Superblock/Uuid.antt =====
-- A pool uuid as 32 hexadecimal digits: `pool_uuid_hex` and `parse_pool_uuid` of
-- crates/lchfs-format/src/superblock.rs. A text is its bytes.
mod Tests
use lchfs.Common.{ℕ, zero, suc, ◌+◌, ◌-◌, ◌*◌, ◌/◌, ◌%◌, ◌≤◌, ◌<◌, ◌≡◌, refl, sym, ap, ◌∙◌, ◌&&◌}
use lchfs.Common.{
  Option, none, some, List, [], ◌∷◌, ◌++◌, ltb, leb, ◌==◌, if◌then◌else◌, length, All, arith,
}

-- One digit of `{b:02x}`.
abbrev hex_digit : ℕ → ℕ
hex_digit d = if ltb d 10 then b'0' + d else b'a' + (d - 10)

unfoldable pub pool_uuid_hex : List ℕ → List ℕ
pool_uuid_hex [] = []
pool_uuid_hex (b ∷ bs) = hex_digit (b / 16) ∷ hex_digit (b % 16) ∷ pool_uuid_hex bs

-- The value of a digit, in either case.
unfoldable pub digit_value : ℕ → Option ℕ
digit_value b =
    if leb b'0' b && leb b b'9'
    then some (b - b'0')
    else if leb b'a' b && leb b b'f'
    then some (b - b'a' + 10)
    else if leb b'A' b && leb b b'F'
    then some (b - b'A' + 10)
    else none

-- `.filter(|b| *b != b'-').map(..).collect::<Option<Vec<u8>>>()`
unfoldable pub digit_values : List ℕ → Option (List ℕ)
digit_values [] = some []
digit_values (b ∷ bs) =
    let rest = digit_values bs in
    if b == b'-' then rest else elim (digit_value b) [
      | none ↦ none
      | some d ↦ elim rest [ none ↦ none | some ds ↦ some (d ∷ ds) ]
    ]

-- `digits.chunks(2)`, each pair as `(pair[0] << 4) | pair[1]` of two values below 16. The caller has
-- checked that the number of digits is even.
unfoldable pub join_pairs : List ℕ → List ℕ
join_pairs [] = []
join_pairs (a ∷ []) = []
join_pairs (a ∷ (b ∷ ds)) = (a * 16 + b) ∷ join_pairs ds

pub parse_pool_uuid : List ℕ → Option (List ℕ)
parse_pool_uuid text = elim (digit_values text) [
  | none ↦ none
  | some digits ↦ if length digits == 32 then some (join_pairs digits) else none
]

-- The text without its dashes.
unfoldable pub strip_dashes : List ℕ → List ℕ
strip_dashes [] = []
strip_dashes (b ∷ bs) = let rest = strip_dashes bs in if b == b'-' then rest else b ∷ rest

digit_value-hex_digit : (d : ℕ) → d < 16 → digit_value (hex_digit d) ≡ some d
unfolding digit_value
digit_value-hex_digit d h = ground arith

abbrev nibbles : List ℕ → List ℕ
nibbles [] = []
nibbles (b ∷ bs) = b / 16 ∷ b % 16 ∷ nibbles bs

digit_values-hex :
    (bs : List ℕ) → All (λ b. b < 256) bs → digit_values (pool_uuid_hex bs) ≡ some (nibbles bs)
unfolding digit_values pool_uuid_hex
digit_values-hex [] h = refl
digit_values-hex (b ∷ bs) h =
    ground (
      arith,
      digit_value-hex_digit (b / 16),
      digit_value-hex_digit (b % 16),
      digit_values-hex bs h.1,
    )

join_pairs-nibbles : (bs : List ℕ) → join_pairs (nibbles bs) ≡ bs
unfolding join_pairs
join_pairs-nibbles [] = refl
join_pairs-nibbles (b ∷ bs) = ground (arith, join_pairs-nibbles bs)

length-nibbles : (bs : List ℕ) → length (nibbles bs) ≡ 2 * length bs
length-nibbles [] = refl
length-nibbles (b ∷ bs) = omega (arith, length-nibbles bs)

digit_values-strip : (text : List ℕ) → digit_values (strip_dashes text) ≡ digit_values text
unfolding digit_values strip_dashes
digit_values-strip [] = refl
digit_values-strip (b ∷ bs) = ground (arith, digit_values-strip bs)

-- Every 16-byte uuid is read back from its text, with dashes put in anywhere or left out.
pub parse_pool_uuid-hex :
    (uuid text : List ℕ)
    → length uuid ≡ 16
    → All (λ b. b < 256) uuid
    → strip_dashes text ≡ pool_uuid_hex uuid
    → parse_pool_uuid text ≡ some uuid
unfolding parse_pool_uuid
parse_pool_uuid-hex uuid text h bytes e =
    let values : digit_values text ≡ some (nibbles uuid) =
      sym (digit_values-strip text) ∙ ap digit_values e ∙ digit_values-hex uuid bytes in
    rw (values, parse_pool_uuid) (ground (arith, length-nibbles uuid, join_pairs-nibbles uuid))

abbrev IsByte : ℕ → Type 0
IsByte b = b < 256
