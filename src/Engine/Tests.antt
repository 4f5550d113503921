-- ===== src/Engine/Tests.antt =====
-- Instances of the engine's theorems.
use Prim.Native.String.{String}
use trading_platform.Prelude.{ℕ, ◌≡◌, ◌≢◌, refl, true, false, none, some, List, [], ◌∷◌, arith}
use trading_platform.Prelude.Int.{ℤ, pos}
use trading_platform.Prelude.Dict.{lookup, string_eq}
use trading_platform.Floats.Sample.{whole}
use trading_platform.MarketTypes.{OrderBook, OrderBookUpdate, OrderEvent, binance}
use trading_platform.Engine.{MatchingEngine, process_l2_update, book_or_new}
use trading_platform.Prices.{comparable, AreNumbers, IsComparable}
use trading_platform.Engine.Sides.{Numbered}
use trading_platform.Engine.Ids.{process_l2_update_lem}

abbrev snapshot : OrderBookUpdate ℤ
snapshot = record {
  exchange = binance;
  symbol = "ETH";
  timestamp = pos 9;
  bids = record { price = pos 100; quantity = pos 3 } ∷ [];
  asks = record { price = pos 105; quantity = pos 2 } ∷ [];
  is_snapshot = true;
  update_id = 4;
  first_update_id = 0;
  prev_update_id = none;
}

abbrev numbered_engine : ℕ → MatchingEngine ℤ
numbered_engine n = record { order_books = []; order_id_counter = n }

sol_is_not_eth : ◌≢◌ {A = String} "SOL" "ETH"
sol_is_not_eth e = let h : false ≡ true = (string_eq.beq_iff "SOL" "ETH").1 e in ground arith

whole-IsComparable : IsComparable whole
unfolding comparable
whole-IsComparable a b e f = ground arith

process_l2_update_lem_example :
    (engine' : MatchingEngine ℤ) × (events : List (OrderEvent ℤ)) × (book : OrderBook ℤ)
    × (process_l2_update whole (numbered_engine 7) snapshot ≡ some (engine', events))
    × Numbered 7 events engine'.order_id_counter
    × (lookup "ETH" engine'.order_books ≡ some book)
    × AreNumbers whole book.bids
    × AreNumbers whole book.asks
    × (lookup "SOL" engine'.order_books ≡ lookup "SOL" (numbered_engine 7).order_books)
unfolding book_or_new lookup
process_l2_update_lem_example =
    process_l2_update_lem whole whole-IsComparable (numbered_engine 7) snapshot "SOL" sol_is_not_eth
      (refl, tt) (refl, tt) tt tt (omega arith)
