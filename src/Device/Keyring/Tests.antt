-- ===== src/Device/Keyring/Tests.antt =====
-- A region of two copies of thirty-two bytes each, under a checksum that counts.
use lchfs.Common.{ℕ, ◌*◌, ◌≡◌, refl, arith, none, some, List, [], ◌∷◌, length, replicate}
use lchfs.Common.Bytes.{to_le_bytes, from_le_bytes}
use lchfs.Common.Buffers.{overlay}
use lchfs.Device.Keyring.{
  read_region, write_region, keyring_copy, read_keyring, write_keyring, clear_keyring,
}
use lchfs.Device.Keyring.Cleared.{read-clear_keyring}
use lchfs.Device.Keyring.Torn.{target, read-torn_keyring, read-write_keyring}

abbrev crc : List ℕ → ℕ
crc bytes = length bytes

abbrev blank : List ℕ
blank = replicate 64 0

abbrev written : List ℕ
written =
    overlay 0 (1 ∷ 0 ∷ 0 ∷ 0 ∷ 0 ∷ 0 ∷ 0 ∷ 0 ∷ 2 ∷ 0 ∷ 0 ∷ 0 ∷ 2 ∷ 0 ∷ 0 ∷ 0 ∷ 7 ∷ 8 ∷ []) blank

written_run : write_keyring crc 32 (7 ∷ 8 ∷ []) blank ≡ some written
unfolding write_keyring write_region read_region keyring_copy from_le_bytes to_le_bytes overlay
written_run = refl

blank_first : keyring_copy crc 32 blank 0 ≡ none
unfolding keyring_copy read_region from_le_bytes
blank_first = refl

blank_second : keyring_copy crc 32 blank 1 ≡ none
unfolding keyring_copy read_region from_le_bytes
blank_second = refl

written_first : keyring_copy crc 32 written 0 ≡ some (1, 7 ∷ 8 ∷ [])
unfolding keyring_copy read_region from_le_bytes overlay
written_first = refl

written_second : keyring_copy crc 32 written 1 ≡ none
unfolding keyring_copy read_region from_le_bytes overlay
written_second = refl

read-write_keyring_example : read_keyring crc 32 written ≡ some (7 ∷ 8 ∷ [])
read-write_keyring_example =
    read-write_keyring crc 32 (7 ∷ 8 ∷ []) blank written (omega arith) (omega arith) (omega arith)
      (omega arith) (rw blank_first (omega arith)) (rw blank_second (omega arith)) written_run

-- The next write goes to the second copy; it stops after its generation and a wrong length.
abbrev torn : List ℕ
torn = 2 ∷ 0 ∷ 0 ∷ 0 ∷ 0 ∷ 0 ∷ 0 ∷ 0 ∷ 200 ∷ []

written-target : target crc 32 written ≡ 1
unfolding keyring_copy read_region from_le_bytes overlay
written-target = refl

torn_invalid :
    keyring_copy crc 32 (overlay (target crc 32 written * 32) torn written) (target crc 32 written)
    ≡ none
unfolding keyring_copy read_region from_le_bytes overlay
torn_invalid = refl

read-torn_keyring_example :
    read_keyring crc 32 (overlay (target crc 32 written * 32) torn written)
    ≡ read_keyring crc 32 written
read-torn_keyring_example =
    read-torn_keyring crc 32 written torn (omega arith) (omega arith)
      (rw (written_first, written_second) tt) torn_invalid

read-clear_keyring_example : read_keyring crc 32 (clear_keyring written) ≡ none
read-clear_keyring_example = read-clear_keyring crc 32 written
