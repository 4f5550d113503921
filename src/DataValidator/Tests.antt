-- ===== src/DataValidator/Tests.antt =====
-- Runs of the validator and instances of its theorems.
use trading_platform.Prelude.{ℕ, ◌≡◌, refl, true, none, [], ◌∷◌, ◌++◌, arith}
use trading_platform.Prelude.Int.{ℤ, pos, ◌+ℤ◌, ◌-ℤ◌, ◌*ℤ◌}
use trading_platform.Prelude.Dict.{lookup, insert, string_eq}
use trading_platform.Floats.Sample.{whole}
use trading_platform.MarketTypes.{OrderBookUpdate, Trade, binance, buy}
use trading_platform.DataValidator.{
  rejected, non_monotonic, stale, DataValidator, new_validator, and_then, check_timestamp_monotonic,
  check_staleness, check_levels, validate_price_levels, check_price_outlier, check_mid_price,
  check_book, validate_orderbook, check_trade, validate_trade,
}
use trading_platform.DataValidator.Order.{older_trade_rejected}
use trading_platform.DataValidator.Sound.{Uncrossed, AllPositive, accepted_book}

abbrev start : DataValidator whole
unfolding new_validator
start = new_validator whole (pos 10) (pos 1000)

abbrev trade : ℕ → ℕ → Trade ℤ
trade t p = record {
  exchange = binance;
  symbol = "BTCUSDT";
  timestamp = pos t;
  price = pos p;
  quantity = pos 1;
  side = buy;
  trade_id = "7";
}

abbrev book : OrderBookUpdate ℤ
book = record {
  exchange = binance;
  symbol = "BTCUSDT";
  timestamp = pos 5000;
  bids =
      record { price = pos 100; quantity = pos 1 }
      ∷ record { price = pos 98; quantity = pos 2 }
      ∷ [];
  asks = record { price = pos 102; quantity = pos 3 } ∷ [];
  is_snapshot = true;
  update_id = 1;
  first_update_id = 1;
  prev_update_id = none;
}

-- A stale trade is rejected, but its time is kept.
stale_trade : (validate_trade whole (pos 9000000) (trade 5000 100) start).1 ≡ rejected stale
unfolding start new_validator validate_trade and_then check_timestamp_monotonic check_trade
    check_staleness ◌-ℤ◌ lookup insert
stale_trade = refl

older_trade_rejected_example :
    (validate_trade whole
      (pos 9000000)
      (trade 4000 100)
      (validate_trade whole (pos 9000000) (trade 5000 100) start).0).1
    ≡ rejected non_monotonic
unfolding start new_validator validate_trade and_then check_timestamp_monotonic check_trade
    check_staleness ◌-ℤ◌ lookup insert
older_trade_rejected_example =
    older_trade_rejected whole (pos 9000000) (pos 9000000) (trade 5000 100) (trade 4000 100) start
      refl (omega arith) (λ e. ground (arith, e))

accepted_book_example :
    Uncrossed whole book.bids book.asks × AllPositive whole (book.bids ++ book.asks)
unfolding start new_validator validate_orderbook and_then check_timestamp_monotonic check_book
    check_staleness validate_price_levels check_levels check_mid_price check_price_outlier ◌-ℤ◌ ◌*ℤ◌
    ◌+ℤ◌ lookup insert
accepted_book_example =
    accepted_book whole (λ x y z h k. ground (arith, h, k)) (λ x y a b h. ground (arith, h))
      (pos 6000) book start (refl, (refl, tt)) (refl, tt) refl
