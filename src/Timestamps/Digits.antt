-- ===== src/Timestamps/Digits.antt =====
-- The number of digits of a number.
use trading_platform.Prelude.{ℕ, zero, suc, ◌/◌, ◌^◌, ◌≤◌, ◌<◌, ◌≡◌, arith}
use trading_platform.Timestamps.{count_digits, digit_count}

count_digits-ge : (d m n : ℕ) → d ≤ m → 10 ^ d ≤ n → suc d ≤ count_digits m n
unfolding count_digits
count_digits-ge zero zero n h k = omega arith
count_digits-ge zero (suc m) n h k = ground arith
count_digits-ge (suc d) zero n h k = absurd (omega arith)
count_digits-ge (suc d) (suc m) n h k =
    let r = count_digits-ge d m (n / 10) (omega arith) (omega (arith, k)) in
    let p = pow_pos d in ground (arith, r, k, p)
  where
    pow_pos : (d : ℕ) → 1 ≤ 10 ^ d
    pow_pos zero = omega arith
    pow_pos (suc d) = omega (arith, pow_pos d)

count_digits-lt : (d m n : ℕ) → n < 10 ^ suc d → count_digits m n ≤ suc d
unfolding count_digits
count_digits-lt d zero n h = omega arith
count_digits-lt zero (suc m) n h = ground (arith, h)
count_digits-lt (suc d) (suc m) n h =
    let r = count_digits-lt d m (n / 10) (omega (arith, h)) in ground (arith, r)

-- Numbers of a given number of digits.
digit_count-ge : (d n : ℕ) → d ≤ 19 → 10 ^ d ≤ n → suc d ≤ digit_count n
unfolding digit_count
digit_count-ge d n h k = count_digits-ge d 19 n h k

digit_count-lt : (d n : ℕ) → n < 10 ^ suc d → digit_count n ≤ suc d
unfolding digit_count
digit_count-lt d n h = count_digits-lt d 19 n h

pub digit_count-of : (d n : ℕ) → d ≤ 19 → 10 ^ d ≤ n → n < 10 ^ suc d → digit_count n ≡ suc d
digit_count-of d n h k l = omega (arith, digit_count-ge d n h k, digit_count-lt d n l)
