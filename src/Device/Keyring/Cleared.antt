-- ===== src/Device/Keyring/Cleared.antt =====
-- The keyring region after `clear_keyring` (crates/lchfs-device/src/lib.rs).
use lchfs.Common.{
  ℕ, zero, suc, ◌+◌, ◌*◌, ◌≡◌, refl, arith, All, none, List, [], ◌∷◌, length, take, drop, replicate,
  inl, inr, Bool-cases, leb, ltb, ◌||◌, ◌^◌, ◌-◌,
}
use lchfs.Common.Bytes.{from_le_bytes}
use lchfs.Common.Buffers.{slice}
use lchfs.Device.Keyring.{
  read_region, copy_behind, keyring_copy, newer, read_keyring, clear_keyring,
}

abbrev IsBlank : List ℕ → Type 0
IsBlank bytes = All (λ b. b ≡ 0) bytes

replicate-IsBlank : (n : ℕ) → IsBlank (replicate n 0)
replicate-IsBlank zero = tt
replicate-IsBlank (suc n) = (refl, replicate-IsBlank n)

take-IsBlank : (n : ℕ) (bytes : List ℕ) → IsBlank bytes → IsBlank (take n bytes)
take-IsBlank zero bytes h = tt
take-IsBlank (suc n) [] h = tt
take-IsBlank (suc n) (b ∷ bytes) h = (h.0, take-IsBlank n bytes h.1)

drop-IsBlank : (n : ℕ) (bytes : List ℕ) → IsBlank bytes → IsBlank (drop n bytes)
drop-IsBlank zero bytes h = h
drop-IsBlank (suc n) [] h = tt
drop-IsBlank (suc n) (b ∷ bytes) h = drop-IsBlank n bytes h.1

from_le_bytes-IsBlank : (bytes : List ℕ) → IsBlank bytes → from_le_bytes bytes ≡ 0
unfolding from_le_bytes
from_le_bytes-IsBlank [] h = refl
from_le_bytes-IsBlank (b ∷ bytes) h = omega (arith, h.0, from_le_bytes-IsBlank bytes h.1)

module _ (crc : List ℕ → ℕ) (copy_len : ℕ) where
  -- A head of zeros has no generation.
  copy_behind-IsBlank :
      (region : List ℕ) (base : ℕ) (head : List ℕ)
      → IsBlank head
      → copy_behind crc copy_len region base head ≡ none
  copy_behind-IsBlank region base head h =
      rw (from_le_bytes-IsBlank (take 8 head) (take-IsBlank 8 head h)) refl

  keyring_copy-IsBlank :
      (region : List ℕ) (copy : ℕ) → IsBlank region → keyring_copy crc copy_len region copy ≡ none
  unfolding keyring_copy read_region
  keyring_copy-IsBlank region copy h =
      let base = copy * copy_len in
      let head = slice base (base + 16) region in
      let blank =
        copy_behind-IsBlank region base head
          (take-IsBlank (base + 16 - base) (drop base region) (drop-IsBlank base region h)) in
      elim (Bool-cases (leb (2 ^ 64) (base + 16) || ltb (length region) (base + 16))) [
        | inl e ↦ rw e refl
        | inr e ↦ rw e blank
      ]

  -- Once the keyring was cleared no keyring is read, whatever the region held.
  pub read-clear_keyring :
      (region : List ℕ) → read_keyring crc copy_len (clear_keyring region) ≡ none
  unfolding read_keyring clear_keyring
  read-clear_keyring region =
      let blank = replicate-IsBlank (length region) in
      let cleared : List ℕ = replicate (length region) 0 in
      let g : newer crc copy_len (keyring_copy crc copy_len cleared 0)
            (keyring_copy crc copy_len cleared 1)
          ≡ none =
        rw (keyring_copy-IsBlank cleared 0 blank, keyring_copy-IsBlank cleared 1 blank) refl in
      g
