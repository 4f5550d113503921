-- ===== src/Timestamps.antt =====
-- crates/feeder/src/core: timestamp_filter.rs and timestamp_normalizer.rs, which tell timestamps
-- from sequence numbers by their digits and bring them to milliseconds.
--
-- The clock is an argument, in milliseconds. Values are those of u64 and of i64; an overflow is
-- none, as the panic of a checked build. The logging is left out.
pub mod Digits
pub mod Filter
pub mod Normalize
mod Tests
use Prim.Native.String.{String}
use trading_platform.Prelude.{
  ℕ, zero, suc, ◌+◌, ◌-◌, ◌*◌, ◌/◌, ◌^◌, Bool, true, false, not, ◌&&◌, Option, none, some, List, [],
  ◌∷◌, ◌==◌, ltb, leb, if◌then◌else◌,
}
use trading_platform.Prelude.Int.{in_i64, ℤ, pos, negsuc}
use trading_platform.Prelude.Dict.{lookup, string_eq}
use trading_platform.Packet.{scale_up, scale_down}

-- The number of decimal digits, of a number of at most that many and one.
unfoldable pub count_digits : ℕ → ℕ → ℕ
count_digits zero n = 1
count_digits (suc most) n =
    let rest = count_digits most (n / 10) in if ltb n 10 then 1 else 1 + rest

-- `value.to_string().len()`; a u64 has 20 digits at most.
unfoldable pub digit_count : ℕ → ℕ
unfolding count_digits
digit_count n = count_digits 19 n

abbrev pub min_valid_timestamp : ℕ
min_valid_timestamp = 1_000_000_000_000

abbrev pub max_valid_timestamp : ℕ
max_valid_timestamp = 2_000_000_000_000

abbrev pub one_year_ms : ℕ
one_year_ms = 365 * 24 * 60 * 60 * 1000

unfoldable pub in_range : ℕ → Bool
in_range ms = leb min_valid_timestamp ms && leb ms max_valid_timestamp

abbrev pub distance : ℕ → ℕ → ℕ
distance a b = if ltb b a then a - b else b - a

-- Within two years of the clock.
unfoldable pub is_near : ℕ → ℕ → Bool
is_near now_ms ms = ltb (distance ms now_ms) (one_year_ms * 2)

-- A value of 13 digits that fails goes on to the test for 16, which fails too.
unfoldable pub valid_by_digits : ℕ → ℕ → ℕ → Bool
unfolding in_range is_near
valid_by_digits digits now_ms value =
    if ltb digits 10
    then false
    else if digits == 10
    then in_range (value * 1000) && is_near now_ms (value * 1000)
    else if (digits == 13) && (in_range value && is_near now_ms value)
    then true
    else (digits == 16) && in_range (value / 1000)

unfoldable pub is_valid_timestamp : ℕ → ℕ → Bool
unfolding digit_count valid_by_digits
is_valid_timestamp now_ms value = valid_by_digits (digit_count value) now_ms value

abbrev pub normalized_of : ℕ → ℕ → ℕ
normalized_of digits value =
    if digits == 10
    then value * 1000
    else if digits == 13
    then value
    else if digits == 16
    then value / 1000
    else if digits == 19
    then value / 1_000_000
    else value

unfoldable pub process_timestamp_field : ℕ → ℕ → Bool × ℕ
unfolding is_valid_timestamp digit_count
process_timestamp_field now_ms value =
    if not (is_valid_timestamp now_ms value)
    then (false, value)
    else (true, normalized_of (digit_count value) value)

-- The clock is read again for the replacement.
unfoldable pub fix_binance_timestamp : ℕ → ℕ → ℕ → ℕ
unfolding process_timestamp_field
fix_binance_timestamp now_ms later_ms value =
    let (is_timestamp, normalized) = process_timestamp_field now_ms value in
    if not is_timestamp then later_ms else normalized

-- timestamp_normalizer.rs
pub data TimestampFormat : Type 0 where
  in_seconds in_milliseconds in_microseconds in_nanoseconds : TimestampFormat

unfoldable pub exchange_formats : List (String × TimestampFormat)
exchange_formats =
    ("Binance", in_milliseconds)
    ∷ ("Bybit", in_milliseconds)
    ∷ ("OKX", in_milliseconds)
    ∷ ("Coinbase", in_milliseconds)
    ∷ ("Upbit", in_seconds)
    ∷ ("Bithumb", in_seconds)
    ∷ ("Deribit", in_microseconds)
    ∷ []

unfoldable pub convert_by_format : ℤ → TimestampFormat → Option ℤ
convert_by_format timestamp in_seconds = in_i64 (scale_up timestamp 1000)
convert_by_format timestamp in_milliseconds = some timestamp
convert_by_format timestamp in_microseconds = some (scale_down timestamp 1000)
convert_by_format timestamp in_nanoseconds = some (scale_down timestamp 1_000_000)

abbrev pub format_of_digits : ℕ → TimestampFormat
format_of_digits digits =
    if leb digits 10
    then in_seconds
    else if leb digits 13
    then in_milliseconds
    else if leb digits 16
    then in_microseconds
    else if leb digits 19
    then in_nanoseconds
    else in_milliseconds

abbrev pub magnitude_of : ℤ → ℕ
magnitude_of (pos n) = n
magnitude_of (negsuc n) = suc n

-- `timestamp.abs()` of the lowest i64 overflows.
unfoldable pub normalize_timestamp : ℤ → String → Option ℤ
unfolding convert_by_format exchange_formats digit_count
normalize_timestamp timestamp venue =
    let magnitude = magnitude_of timestamp in
    if magnitude == 0
    then some (pos 0)
    else if not (ltb magnitude (2 ^ 63))
    then none
    else elim (lookup venue exchange_formats) [
      | some format ↦ convert_by_format timestamp format
      | none ↦ convert_by_format timestamp (format_of_digits (digit_count magnitude))
    ]
