-- ===== src/Sequence/Gap.antt =====
-- When a message leaves a gap, for the extractors and for the builder.
use Prim.Native.String.{String}
use trading_platform.Prelude.{
  ℕ, ◌+◌, ◌%◌, ◌^◌, ◌<◌, ◌≡◌, ◌≢◌, ◌↔◌, ◌⊎◌, refl, true, false, Option, none, some, arith, ltb,
  if◌then◌else◌, ne→==,
}
use trading_platform.Floats.{Floats}
use trading_platform.MarketTypes.{
  Exchange, OrderBookUpdate, binance, binance_futures, bybit, bybit_linear, upbit, coinbase, okx,
  deribit, bithumb, ls_exchange,
}
use trading_platform.Builder.{live_gap}
use trading_platform.Sequence.{
  SequenceInfo, Json, has_gap, default_info, sequence_extractor, extract_default, ok,
}

-- The number that a message must start with: that of its first update if it covers a range.
abbrev pub start_of : SequenceInfo → ℕ
start_of info = elim info.first_update_id [ some first ↦ first | none ↦ info.update_id ]

-- There is no gap exactly for a snapshot and for a message that starts with the next number.
has_gap_iff :
    (last_known : ℕ) (info : SequenceInfo)
    → (has_gap last_known info ≡ false)
      ↔ ((info.is_snapshot ≡ true) ⊎ (start_of info ≡ (last_known + 1) % 2 ^ 64))
unfolding has_gap
has_gap_iff last_known info = ground arith

-- An update as the message that it came from: a first id of zero stands for none.
abbrev pub info_of : {F : Type 0} → OrderBookUpdate F → SequenceInfo
info_of u = record {
  update_id = u.update_id;
  first_update_id = if ltb 0 u.first_update_id then some u.first_update_id else none;
  last_update_id = none;
  prev_update_id = u.prev_update_id;
  is_snapshot = u.is_snapshot;
}

-- A gap for the builder's live state is always one for the test of the extractors.
live_gap-has_gap :
    (floats : Floats) (last_seq : ℕ) (u : OrderBookUpdate (floats.F))
    → live_gap floats last_seq u ≡ true
    → has_gap last_seq (info_of u) ≡ true
unfolding has_gap live_gap
live_gap-has_gap floats last_seq u h = ground arith

-- A gap for the test of the extractors is one for the builder's live state too, unless the update
-- has just the next number.
has_gap-live_gap :
    (floats : Floats) (last_seq : ℕ) (u : OrderBookUpdate (floats.F))
    → u.update_id ≢ (last_seq + 1) % 2 ^ 64
    → has_gap last_seq (info_of u) ≡ true
    → live_gap floats last_seq u ≡ true
unfolding has_gap live_gap
has_gap-live_gap floats last_seq u h k = ground arith

-- The exchanges with an extractor of their own.
abbrev pub HasExtractor : Exchange → Type 0
HasExtractor binance = Unit {0}
HasExtractor binance_futures = Unit {0}
HasExtractor bybit = Unit {0}
HasExtractor bybit_linear = Unit {0}
HasExtractor okx = Unit {0}
HasExtractor _ = ⊥

default-has_gap :
    (last_known : ℕ) → last_known + 1 < 2 ^ 64 → has_gap last_known default_info ≡ true
unfolding has_gap
default-has_gap last_known h = rw (ne→== 0 ((last_known + 1) % 2 ^ 64) (omega arith))

-- An exchange with no extractor of its own: every message is a gap, whatever it holds, after any
-- number but the one before the wrap to zero.
default_always_gap :
    (json : Json) (parse_u64 : String → Option ℕ) (venue : Exchange) (message : json.Value)
    (last_known : ℕ)
    → ¬ HasExtractor venue
    → last_known + 1 < 2 ^ 64
    → (info : SequenceInfo) × (sequence_extractor json parse_u64 venue message ≡ ok info)
      × (has_gap last_known info ≡ true)
unfolding sequence_extractor extract_default
default_always_gap json parse_u64 binance message last_known a h = absurd (a tt)
default_always_gap json parse_u64 binance_futures message last_known a h = absurd (a tt)
default_always_gap json parse_u64 bybit message last_known a h = absurd (a tt)
default_always_gap json parse_u64 bybit_linear message last_known a h = absurd (a tt)
default_always_gap json parse_u64 okx message last_known a h = absurd (a tt)
default_always_gap json parse_u64 upbit message last_known a h =
    (default_info, refl, default-has_gap last_known h)
default_always_gap json parse_u64 coinbase message last_known a h =
    (default_info, refl, default-has_gap last_known h)
default_always_gap json parse_u64 deribit message last_known a h =
    (default_info, refl, default-has_gap last_known h)
default_always_gap json parse_u64 bithumb message last_known a h =
    (default_info, refl, default-has_gap last_known h)
default_always_gap json parse_u64 ls_exchange message last_known a h =
    (default_info, refl, default-has_gap last_known h)
