-- ===== src/Sequence/Tests.antt =====
-- Runs of the extractors and instances of their theorems.
use Prim.Native.String.{String}
use trading_platform.Prelude.{ℕ, ◌≡◌, refl, true, false, Option, none, some}
use trading_platform.MarketTypes.{binance, upbit}
use trading_platform.Sequence.{
  Json, default_info, sequence_extractor, extract_binance, extract_default, has_gap, ok,
}

-- Messages that hold the number 9 under every key.
abbrev nines : Json
nines = record {
  Value = ℕ;
  get = λ v key. some 9;
  index = λ v key. 9;
  index_nth = λ v n. 9;
  as_u64 = λ v. some v;
  as_str = λ v. none;
  as_array = λ v. none;
  is_array = λ v. false;
}

abbrev no_number : String → Option ℕ
no_number s = none

binance_snapshot :
    sequence_extractor nines no_number binance 0
    ≡ ok (record default_info { update_id = 9; is_snapshot = true })
unfolding sequence_extractor extract_binance
binance_snapshot = refl

-- An exchange without an extractor of its own has number 0, a gap after any number seen.
upbit_snapshot :
    (sequence_extractor nines no_number upbit 0 ≡ ok default_info) × (has_gap 9 default_info ≡ true)
unfolding sequence_extractor extract_default has_gap
upbit_snapshot = (refl, refl)
