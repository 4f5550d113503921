-- ===== src/DataValidator.antt =====
-- crates/matching-engine/src/data_ingestion/data_validator.rs: the checks on incoming books and
-- trades.
--
-- The two maps are association lists. The clock is an argument, in microseconds. The f64 operations
-- are a parameter. The source locks each map for one check at a time; the model runs one validation
-- as a whole.
pub mod Order
pub mod Outliers
pub mod Sound
mod Tests
use Prim.Native.String.{String}
use trading_platform.Prelude.{
  ℕ, ◌+◌, ◌/◌, Bool, true, false, not, Option, none, some, List, [], ◌∷◌, ◌++◌, if◌then◌else◌,
}
use trading_platform.Prelude.Int.{ℤ, pos, negsuc, sub_ℕ, ◌-ℤ◌, ltb_ℤ}
use trading_platform.Prelude.Dict.{lookup, insert, string_eq}
use trading_platform.Floats.{Floats}
use trading_platform.MarketTypes.{OrderBookUpdate, PriceLevel, Trade}

-- The messages of `bail!`.
pub data Rejection : Type 0 where
  non_monotonic stale bids_not_sorted asks_not_sorted invalid_price invalid_quantity : Rejection
  crossed_market price_outlier : Rejection

-- `Result<()>`
pub data Outcome : Type 0 where
  accepted : Outcome
  rejected : Rejection → Outcome

-- The division of i64, towards zero.
abbrev pub div_1000 : ℤ → ℤ
div_1000 (pos n) = pos (n / 1000)
div_1000 (negsuc n) = sub_ℕ 0 ((n + 1) / 1000)

module _ (floats : Floats) where
  open floats use {F, literal, sub, mul, div, add, abs, lt, le}

  pub record DataValidator : Type 0 where
    pub last_timestamps : List (String × ℤ)
    pub last_prices : List (String × F)
    pub max_price_change_pct : F
    pub max_stale_ms : ℤ

  unfoldable pub new_validator : F → ℤ → DataValidator
  new_validator max_price_change_pct max_stale_ms = record {
    last_timestamps = [];
    last_prices = [];
    max_price_change_pct = max_price_change_pct;
    max_stale_ms = max_stale_ms;
  }

  abbrev pub Check : Type 0
  Check = DataValidator → DataValidator × Outcome

  abbrev pub go_on : DataValidator × Outcome → Check → DataValidator × Outcome
  go_on (v, accepted) k = k v
  go_on (v, rejected r) k = (v, rejected r)

  -- `m?; k`
  unfoldable pub and_then : Check → Check → Check
  and_then m k v = go_on (m v) k

  abbrev pub ensure : Rejection → Bool → Check
  ensure r fine v = (v, if fine then accepted else rejected r)

  unfoldable pub check_timestamp_monotonic : String → ℤ → Check
  check_timestamp_monotonic symbol timestamp v =
      let stored : DataValidator × Outcome =
        (record v { last_timestamps = insert symbol timestamp v.last_timestamps }, accepted) in
      elim (lookup symbol v.last_timestamps) [
        | none ↦ stored
        | some last_ts ↦ if ltb_ℤ timestamp last_ts then (v, rejected non_monotonic) else stored
      ]

  unfoldable pub check_staleness : ℤ → ℤ → Check
  check_staleness now timestamp v =
      ensure stale (not (ltb_ℤ v.max_stale_ms (div_1000 (now -ℤ timestamp)))) v

  abbrev pub descending : List (PriceLevel F) → Bool
  descending [] = true
  descending (l ∷ []) = true
  descending (l ∷ m ∷ ls) = if le l.price m.price then false else descending (m ∷ ls)

  abbrev pub ascending : List (PriceLevel F) → Bool
  ascending [] = true
  ascending (l ∷ []) = true
  ascending (l ∷ m ∷ ls) = if le m.price l.price then false else ascending (m ∷ ls)

  -- The first level with a bad price or quantity decides.
  unfoldable pub check_levels : List (PriceLevel F) → Check
  check_levels [] v = (v, accepted)
  check_levels (l ∷ ls) v =
      if le l.price (literal 0)
      then (v, rejected invalid_price)
      else if lt l.quantity (literal 0)
      then (v, rejected invalid_quantity)
      else check_levels ls v

  unfoldable pub validate_price_levels : List (PriceLevel F) → List (PriceLevel F) → Check
  unfolding and_then check_levels
  validate_price_levels bids asks =
      and_then (ensure bids_not_sorted (descending bids))
        (and_then (ensure asks_not_sorted (ascending asks)) (check_levels (bids ++ asks)))

  unfoldable pub check_price_outlier : String → F → Check
  check_price_outlier symbol price v =
      let stored : DataValidator × Outcome =
        (record v { last_prices = insert symbol price v.last_prices }, accepted) in
      elim (lookup symbol v.last_prices) [
        | none ↦ stored
        | some last_price ↦
            if lt v.max_price_change_pct
              (mul (abs (div (sub price last_price) last_price)) (literal 100))
            then (v, rejected price_outlier)
            else stored
      ]

  abbrev pub not_crossed : List (PriceLevel F) → List (PriceLevel F) → Bool
  not_crossed (b ∷ bids) (a ∷ asks) = not (le a.price b.price)
  not_crossed _ _ = true

  abbrev pub calculate_mid_price : OrderBookUpdate F → Option F
  calculate_mid_price u = mid u.bids u.asks
    where
      mid : List (PriceLevel F) → List (PriceLevel F) → Option F
      mid (b ∷ bids) (a ∷ asks) = some (div (add b.price a.price) (literal 2))
      mid _ _ = none

  unfoldable pub check_mid_price : OrderBookUpdate F → Check
  unfolding check_price_outlier
  check_mid_price u = elim (calculate_mid_price u) [
    | none ↦ ensure price_outlier true
    | some mid_price ↦ check_price_outlier u.symbol mid_price
  ]

  -- What follows the check of the time.
  unfoldable pub check_book : ℤ → OrderBookUpdate F → Check
  unfolding and_then check_staleness validate_price_levels check_mid_price
  check_book now u = and_then (check_staleness now u.timestamp) (
      and_then (validate_price_levels u.bids u.asks)
        (and_then (ensure crossed_market (not_crossed u.bids u.asks)) (check_mid_price u)))

  unfoldable pub validate_orderbook : ℤ → OrderBookUpdate F → Check
  unfolding and_then check_timestamp_monotonic check_book
  validate_orderbook now u =
      and_then (check_timestamp_monotonic u.symbol u.timestamp) (check_book now u)

  unfoldable pub check_trade : ℤ → Trade F → Check
  unfolding and_then check_staleness check_price_outlier
  check_trade now trade = and_then (check_staleness now trade.timestamp) (
      and_then (ensure invalid_price (not (le trade.price (literal 0)))) (
        and_then (ensure invalid_quantity (not (le trade.quantity (literal 0))))
          (check_price_outlier trade.symbol trade.price)))

  unfoldable pub validate_trade : ℤ → Trade F → Check
  unfolding and_then check_timestamp_monotonic check_trade
  validate_trade now trade =
      and_then (check_timestamp_monotonic trade.symbol trade.timestamp) (check_trade now trade)

  unfoldable pub reset : DataValidator → DataValidator
  reset v = record v { last_timestamps = []; last_prices = [] }
