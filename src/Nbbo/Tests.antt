-- ===== src/Nbbo/Tests.antt =====
-- NBBOs of whole prices.
use trading_platform.Prelude.{ℕ, ◌≡◌, refl, true, [], ◌∷◌}
use trading_platform.Prelude.Int.{ℤ, pos}
use trading_platform.Prelude.Dict.{string_eq}
use trading_platform.Floats.Sample.{whole}
use trading_platform.MarketTypes.{Exchange, OrderBook, binance, okx, bybit}
use trading_platform.Nbbo.{Nbbo, NbboManager, Entry, new_nbbo_manager, is_crossed}

abbrev greatest : ℤ
greatest = pos 1000000000

abbrev book : Exchange → ℕ → ℕ → OrderBook ℤ
book e bid ask = record {
  symbol = "BTC-USD";
  exchange = e;
  timestamp = pos 0;
  bids = record { price = pos bid; quantity = pos 1 } ∷ [];
  asks = record { price = pos ask; quantity = pos 2 } ∷ [];
  last_update_id = 0;
  first_update_id = 0;
  update_count = 0;
}

abbrev entry : Exchange → ℕ → ℕ → ℕ → Entry whole
entry e bid ask time =
    (("BTC-USD", e), record { order_book = book e bid ask; last_update = pos time })

-- Three exchanges; bybit's book is older than a minute at time 70000000.
abbrev three : NbboManager whole
three = record (new_nbbo_manager whole (pos 60000)) {
  order_books =
      entry binance 10000 10100 20000000
      ∷ entry okx 10050 10080 20000000
      ∷ entry bybit 10070 10075 1000000
      ∷ [];
}

abbrev locked : Nbbo whole
locked = record {
  symbol = "BTC-USD";
  best_bid = pos 10050;
  best_bid_qty = pos 1;
  best_bid_exchange = okx;
  best_ask = pos 10050;
  best_ask_qty = pos 2;
  best_ask_exchange = binance;
  nbbo_mid = pos 10050;
  nbbo_spread = pos 0;
  nbbo_spread_bps = pos 0;
  num_exchanges = 2;
  timestamp = pos 70000000;
  validation_rate = pos 1;
}

-- A locked market counts as crossed.
is_crossed-locked : is_crossed whole locked ≡ true
unfolding is_crossed
is_crossed-locked = refl

abbrev gone : NbboManager whole
gone = record three { nbbo_cache = ("BTC-USD", locked) ∷ [] }
