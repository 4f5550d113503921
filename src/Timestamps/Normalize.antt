-- ===== src/Timestamps/Normalize.antt =====
-- The normalizer, for exchanges whose format is not known.
use Prim.Native.String.{String}
use trading_platform.Prelude.{
  ℕ, ◌*◌, ◌/◌, ◌^◌, ◌≤◌, ◌<◌, ◌≡◌, refl, ◌∙◌, true, false, none, some, arith, ◌==◌, ltb,
}
use trading_platform.Prelude.Int.{in_i64, pos}
use trading_platform.Prelude.Dict.{lookup, string_eq}
use trading_platform.Timestamps.{
  digit_count, exchange_formats, convert_by_format, format_of_digits, normalize_timestamp,
}
use trading_platform.Timestamps.Digits.{digit_count-of}

by_digits :
    (n : ℕ) (venue : String)
    → lookup venue exchange_formats ≡ none
    → 1 ≤ n
    → n < 2 ^ 63
    → normalize_timestamp (pos n) venue
      ≡ convert_by_format (pos n) (format_of_digits (digit_count n))
unfolding normalize_timestamp
by_digits n venue h k l =
    let a : (n == 0) ≡ false = ground (arith, k) in
    let b : ltb n (2 ^ 63) ≡ true = ground (arith, l) in rw (a, b, h) refl

-- For an exchange without a known format, a whole second of ten digits is recognised in each of the
-- four units, and comes out in milliseconds.
normalize_units_agree :
    (venue : String) (s : ℕ)
    → lookup venue exchange_formats ≡ none
    → 10 ^ 9 ≤ s
    → s * 1_000_000_000 < 2 ^ 63
    → (normalize_timestamp (pos s) venue ≡ some (pos (s * 1000)))
      × (normalize_timestamp (pos (s * 1000)) venue ≡ some (pos (s * 1000)))
      × (normalize_timestamp (pos (s * 1_000_000)) venue ≡ some (pos (s * 1000)))
      × (normalize_timestamp (pos (s * 1_000_000_000)) venue ≡ some (pos (s * 1000)))
unfolding convert_by_format
normalize_units_agree venue s u h k =
    let a = digit_count-of 9 s (omega arith) (omega arith) (omega arith) in
    let b = digit_count-of 12 (s * 1000) (omega arith) (omega arith) (omega arith) in
    let c = digit_count-of 15 (s * 1_000_000) (omega arith) (omega arith) (omega arith) in
    let d = digit_count-of 18 (s * 1_000_000_000) (omega arith) (omega arith) (omega arith) in
    let e : s * 1_000_000 / 1000 ≡ s * 1000 = omega arith in
    let f : s * 1_000_000_000 / 1_000_000 ≡ s * 1000 = omega arith in
    let g : in_i64 (pos (s * 1000)) ≡ some (pos (s * 1000)) = ground (arith, h, k) in
    (
      by_digits s venue u (omega arith) (omega arith) ∙ rw a g,
      by_digits (s * 1000) venue u (omega arith) (omega arith) ∙ rw b refl,
      by_digits (s * 1_000_000) venue u (omega arith) (omega arith) ∙ rw (c, e) refl,
      by_digits (s * 1_000_000_000) venue u (omega arith) (omega arith) ∙ rw (d, f) refl,
    )
