-- ===== src/Timestamps/Filter.antt =====
-- What the filter takes for a timestamp.
use trading_platform.Prelude.{
  ℕ, ◌*◌, ◌/◌, ◌^◌, ◌≤◌, ◌<◌, ◌≡◌, refl, ap, true, false, arith, subst, sym, ◌∙◌, inl, inr,
  Bool-cases,
}
use trading_platform.Timestamps.{
  digit_count, min_valid_timestamp, max_valid_timestamp, in_range, is_near, valid_by_digits,
  is_valid_timestamp, normalized_of, process_timestamp_field, fix_binance_timestamp,
}
use trading_platform.Timestamps.Digits.{digit_count-of}

valid_by_digits-in_range :
    (digits now_ms value : ℕ)
    → valid_by_digits digits now_ms value ≡ true
    → in_range (normalized_of digits value) ≡ true
unfolding valid_by_digits
valid_by_digits-in_range digits now_ms value h = ground (arith, h)

in_range-bounds :
    (ms : ℕ) → in_range ms ≡ true → (min_valid_timestamp ≤ ms) × (ms ≤ max_valid_timestamp)
unfolding in_range
in_range-bounds ms h = ground (arith, h)

bounds-in_range :
    (ms : ℕ) → min_valid_timestamp ≤ ms → ms ≤ max_valid_timestamp → in_range ms ≡ true
unfolding in_range
bounds-in_range ms h k = ground (arith, h, k)

process-valid :
    (now_ms value : ℕ)
    → is_valid_timestamp now_ms value ≡ true
    → process_timestamp_field now_ms value ≡ (true, normalized_of (digit_count value) value)
unfolding process_timestamp_field
process-valid now_ms value h = rw h refl

process-invalid :
    (now_ms value : ℕ)
    → is_valid_timestamp now_ms value ≡ false
    → process_timestamp_field now_ms value ≡ (false, value)
unfolding process_timestamp_field
process-invalid now_ms value h = rw h refl

-- What is taken for a timestamp is between the years 2001 and 2033, in milliseconds.
process_timestamp_bounds :
    (now_ms value ms : ℕ)
    → process_timestamp_field now_ms value ≡ (true, ms)
    → (min_valid_timestamp ≤ ms) × (ms ≤ max_valid_timestamp)
unfolding is_valid_timestamp
process_timestamp_bounds now_ms value ms h = elim (Bool-cases (is_valid_timestamp now_ms value)) [
  | inl v ↦
      let e : normalized_of (digit_count value) value ≡ ms =
        ap (λ p. p.1) (sym (process-valid now_ms value v) ∙ h) in
      in_range-bounds ms (
        subst (λ n. in_range n ≡ true) e
          (valid_by_digits-in_range (digit_count value) now_ms value v))
  | inr v ↦
      let e : false ≡ true = ap (λ p. p.0) (sym (process-invalid now_ms value v) ∙ h) in
      absurd (ground (arith, e))
]

valid_in_units :
    (now_ms value ms d : ℕ)
    → digit_count value ≡ d
    → valid_by_digits d now_ms value ≡ true
    → normalized_of d value ≡ ms
    → process_timestamp_field now_ms value ≡ (true, ms)
unfolding is_valid_timestamp
valid_in_units now_ms value ms d e h k =
    process-valid now_ms value (rw e h) ∙ ap (λ n. (true, n)) (rw e k)

-- A whole second within two years of the clock and in the valid range is recognised in seconds, in
-- milliseconds and in microseconds, and comes out in milliseconds.
pub units_agree :
    (now_ms s : ℕ)
    → min_valid_timestamp ≤ s * 1000
    → s * 1000 ≤ max_valid_timestamp
    → is_near now_ms (s * 1000) ≡ true
    → (process_timestamp_field now_ms s ≡ (true, s * 1000))
      × (process_timestamp_field now_ms (s * 1000) ≡ (true, s * 1000))
      × (process_timestamp_field now_ms (s * 1_000_000) ≡ (true, s * 1000))
unfolding valid_by_digits
units_agree now_ms s h k n =
    let r = bounds-in_range (s * 1000) h k in
    let e : s * 1_000_000 / 1000 ≡ s * 1000 = omega arith in
    (
      valid_in_units now_ms s (s * 1000) 10
          (digit_count-of 9 s (omega arith) (omega arith) (omega arith)) (rw (r, n) refl) refl,
      valid_in_units now_ms (s * 1000) (s * 1000) 13
          (digit_count-of 12 (s * 1000) (omega arith) (omega arith) (omega arith)) (rw (r, n) refl)
          refl,
      valid_in_units now_ms (s * 1_000_000) (s * 1000) 16
          (digit_count-of 15 (s * 1_000_000) (omega arith) (omega arith) (omega arith))
          (rw (e, r) refl) e,
    )

-- A value of 19 digits, as a time in nanoseconds has, is never taken for a timestamp: for Binance the
-- clock replaces it.
nanoseconds_rejected :
    (now_ms later_ms value : ℕ)
    → 10 ^ 18 ≤ value
    → value < 10 ^ 19
    → (process_timestamp_field now_ms value ≡ (false, value))
      × (fix_binance_timestamp now_ms later_ms value ≡ later_ms)
unfolding is_valid_timestamp fix_binance_timestamp valid_by_digits
nanoseconds_rejected now_ms later_ms value h k =
    let a = digit_count-of 18 value (omega arith) (omega arith) (omega arith) in
    let e = process-invalid now_ms value (rw a refl) in (e, rw e refl)
