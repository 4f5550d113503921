-- ===== src/History/Tests.antt =====
-- Runs of the histories and instances of their theorems.
use trading_platform.Prelude.{ℕ, ◌≡◌, refl, some, ◌>>=◌, List, [], ◌∷◌}
use trading_platform.Prelude.Int.{ℤ, pos, ◌-ℤ◌, ◌*ℤ◌}
use trading_platform.MarketTypes.{Trade, binance, buy}
use trading_platform.History.{
  since, micros, cutoff_of, add_trade, push_and_clean, cleanup, drop_older, new_trade_history,
  trades_since,
}
use trading_platform.History.Feed.{add_trades}

abbrev trade_at : ℕ → Trade ℤ
trade_at t = record {
  exchange = binance;
  symbol = "BTCUSDT";
  timestamp = pos t;
  price = pos 100;
  quantity = pos 1;
  side = buy;
  trade_id = "7";
}

abbrev trades : List (Trade ℤ)
trades = trade_at 1000 ∷ trade_at 4000 ∷ trade_at 9000 ∷ []

-- Of three trades the first is beyond a lookback of 6 ms.
trades_kept :
    (new_trade_history (pos 6) >>= λ h. trades_since (add_trades h trades) (pos 9))
    ≡ some (trade_at 4000 ∷ trade_at 9000 ∷ [])
unfolding trades_since add_trades new_trade_history add_trade push_and_clean cleanup drop_older
    since cutoff_of micros ◌-ℤ◌ ◌*ℤ◌
trades_kept = refl
