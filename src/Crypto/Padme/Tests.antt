-- ===== src/Crypto/Padme/Tests.antt =====
-- Padding a length of nine bytes, as the source's tests do.
use lchfs.Common.{◌+◌, ◌-◌, ◌*◌, ◌%◌, ◌^◌, ◌≤◌, ◌<◌, ◌≡◌, refl, arith}
use lchfs.Crypto.Padme.{padded_len, round_up, log2, floor_log2}
use lchfs.Crypto.Padme.Bounds.{padded_len-bounds}

padded_nine : padded_len 9 ≡ 10
unfolding padded_len round_up log2
padded_nine = refl

padded_thousand : padded_len 1000 ≡ 1024
unfolding padded_len round_up log2
padded_thousand = refl

padded_len-bounds_example :
    (9 ≤ padded_len 9)
    × ((padded_len 9 % 2 ^ (floor_log2 9 - (floor_log2 (floor_log2 9) + 1)) ≡ 0)
        × (floor_log2 9 * (padded_len 9 - 9) < 9))
padded_len-bounds_example = padded_len-bounds 9 (omega arith) (omega arith)
