-- ===== src/Timestamps/Tests.antt =====
-- Runs of the filter and of the normalizer, and instances of their theorems.
use trading_platform.Prelude.{◌≡◌, refl, false, some}
use trading_platform.Prelude.Int.{pos}
use trading_platform.Prelude.Dict.{lookup, string_eq}
use trading_platform.Timestamps.{
  count_digits, digit_count, valid_by_digits, is_valid_timestamp, process_timestamp_field,
  exchange_formats, normalize_timestamp, convert_by_format,
}

-- 9 digits are a sequence number.
sequence_number : process_timestamp_field 1_757_545_000_000 134_456_049 ≡ (false, 134_456_049)
unfolding process_timestamp_field is_valid_timestamp valid_by_digits digit_count count_digits
sequence_number = refl

-- For Upbit 13 digits are taken for seconds all the same.
upbit_in_milliseconds :
    normalize_timestamp (pos 1_617_720_181_234) "Upbit" ≡ some (pos 1_617_720_181_234_000)
unfolding normalize_timestamp convert_by_format exchange_formats lookup
upbit_in_milliseconds = refl
