-- ===== src/Crypto/Padme/Bounds.antt =====
-- What padding does to a length, and how much it adds.
use lchfs.Common.{ℕ, zero, suc, ◌+◌, ◌-◌, ◌*◌, ◌/◌, ◌%◌, ◌^◌, ◌≤◌, ◌<◌, ◌≡◌, false, ltb}
use lchfs.Common.{arith, inl, inr, Bool-cases}
use lchfs.Crypto.Padme.{log2, floor_log2, round_up, padded_len}
use native.Mathlib.Nat.{pow-suc, mul-le-mul_left, mul-le-mul_right, mul-mod_left}

log2-bounds : (fuel n : ℕ) → n < fuel → 1 ≤ n → (2 ^ log2 fuel n ≤ n) × (n < 2 * 2 ^ log2 fuel n)
unfolding log2
log2-bounds zero n h k = absurd (omega arith)
log2-bounds (suc fuel) n h k = elim (Bool-cases (ltb n 2)) [
  | inl small ↦ rw small (ground arith, ground arith)
  | inr big ↦
      let (lo, hi) = log2-bounds fuel (n / 2) (ground arith) (ground arith) in
      let s = pow-suc 2 (log2 fuel (n / 2)) in
      rw big (omega (arith, lo, hi, s), omega (arith, lo, hi, s))
]

n<2^n : (n : ℕ) → n < 2 ^ n
n<2^n zero = omega arith
n<2^n (suc n) = omega (arith, n<2^n n, pow-suc 2 n)

pow_pos : (n : ℕ) → 1 ≤ 2 ^ n
pow_pos n = omega (arith, n<2^n n)

pow-split : (i j : ℕ) → 2 ^ (i + j) ≡ 2 ^ i * 2 ^ j
pow-split zero j = let e : 0 + j ≡ j = omega arith in rw e (omega arith)
pow-split (suc i) j =
    let e : suc i + j ≡ suc (i + j) = omega arith in
    rw (e, pow-suc 2 (i + j), pow-suc 2 i, pow-split i j) (mul_right_swap (2 ^ i) (2 ^ j))
  where
    mul_right_swap : (a b : ℕ) → a * b * 2 ≡ a * 2 * b
    mul_right_swap a b = omega arith

floor_log2-bounds : (n : ℕ) → 1 ≤ n → (2 ^ floor_log2 n ≤ n) × (n < 2 ^ (floor_log2 n + 1))
floor_log2-bounds n h =
    let (lo, hi) = log2-bounds (suc n) n (omega arith) h in
    (
      lo,
      let e : floor_log2 n + 1 ≡ suc (floor_log2 n) = omega arith in
          rw e (omega (arith, hi, pow-suc 2 (floor_log2 n))),
    )

log2-one : (n : ℕ) → 2 ≤ n → 1 ≤ floor_log2 n
unfolding log2
log2-one n h = ground arith

-- Rounding up to a multiple of a power of two that leaves `s` of `e` bits below the top one.
round_up-bounds :
    (len e s k : ℕ)
    → e ≡ s + k
    → 2 ^ e ≤ len
    → e < 2 ^ s
    → len ≤ 2 ^ 63
    → (len ≤ round_up k len) × ((round_up k len % 2 ^ k ≡ 0) × (e * (round_up k len - len) < len))
unfolding round_up
round_up-bounds len e s k sum lo top fits = core (2 ^ k) (pow_pos k) big
  where
    big : 2 ^ s * 2 ^ k ≤ len
    big = rw (← pow-split s k, ← sum) lo

    core :
        (m : ℕ)
        → 1 ≤ m
        → 2 ^ s * m ≤ len
        → (len ≤ (len + (m - 1)) % 2 ^ 64 / m * m)
          × (((len + (m - 1)) % 2 ^ 64 / m * m % m ≡ 0)
              × (e * ((len + (m - 1)) % 2 ^ 64 / m * m - len) < len))
    core m one below =
        let le_len : m ≤ len = omega (arith, mul-le-mul_right m (pow_pos s)) in
        let exact : (len + (m - 1)) % 2 ^ 64 ≡ len + (m - 1) = omega arith in
        let lower : len ≤ (len + (m - 1)) / m * m = omega arith in
        let upper : (len + (m - 1)) / m * m < len + m = omega arith in
        let over : e * ((len + (m - 1)) / m * m - len) ≤ e * (m - 1) =
          mul-le-mul_left e (omega arith) in
        let strict : e * (m - 1) < 2 ^ s * m = grind (arith, mul-le-mul_right m top) in
        rw exact (lower, (mul-mod_left _ m, omega arith))

-- A length of two bytes or more, at most 2 ^ 63, is padded upward, to a multiple of the power of two that is left
-- of its bits, by less than its own share of one in its binary logarithm.
pub padded_len-bounds :
    (len : ℕ)
    → 2 ≤ len
    → len ≤ 2 ^ 63
    → (len ≤ padded_len len)
      × ((padded_len len % 2 ^ (floor_log2 len - (floor_log2 (floor_log2 len) + 1)) ≡ 0)
          × (floor_log2 len * (padded_len len - len) < len))
unfolding padded_len
padded_len-bounds len two top =
    let not_small : ltb len 2 ≡ false = ground arith in
    rw not_small (bound (floor_log2 len) (log2-one len two) (floor_log2-bounds len (omega arith)).0)
  where
    bound :
        (e : ℕ)
        → 1 ≤ e
        → 2 ^ e ≤ len
        → (len ≤ round_up (e - (floor_log2 e + 1)) len)
          × ((round_up (e - (floor_log2 e + 1)) len % 2 ^ (e - (floor_log2 e + 1)) ≡ 0)
              × (e * (round_up (e - (floor_log2 e + 1)) len - len) < len))
    bound e one lo =
        let b = floor_log2-bounds e one in
        let s = floor_log2 e + 1 in
        round_up-bounds len e s (e - s) (omega (arith, b.0, n<2^n (floor_log2 e))) lo b.1 top
