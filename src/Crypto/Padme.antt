-- ===== src/Crypto/Padme.antt =====
-- The padded length of an encrypted record, crates/lchfs-crypto/src/padme.rs. `63 - leading_zeros()`
-- of a u64 above 0 is its binary logarithm.
pub mod Bounds
mod Tests
use lchfs.Common.{ℕ, zero, suc, ◌+◌, ◌-◌, ◌*◌, ◌/◌, ◌%◌, ◌^◌, Bool, true, false, ltb, if◌then◌else◌}

-- The binary logarithm, on a fuel above the number.
unfoldable pub log2 : ℕ → ℕ → ℕ
log2 zero n = 0
log2 (suc fuel) n = let rest = log2 fuel (n / 2) in if ltb n 2 then 0 else suc rest

abbrev pub floor_log2 : ℕ → ℕ
floor_log2 n = log2 (suc n) n

-- `(len + mask) & !mask` for a mask of `last_bits` ones clears the low bits.
unfoldable pub round_up : ℕ → ℕ → ℕ
round_up last_bits len = (len + (2 ^ last_bits - 1)) % 2 ^ 64 / 2 ^ last_bits * 2 ^ last_bits

unfoldable pub padded_len : ℕ → ℕ
padded_len len =
    if ltb len 2
    then len
    else let e = floor_log2 len in let s = floor_log2 e + 1 in round_up (e - s) len
