-- ===== src/Builder/Tests.antt =====
-- Runs of the builder and instances of its theorems.
use trading_platform.Prelude.{ℕ, ◌≡◌, refl, Bool, true, false, none, some, arith, [], ◌∷◌}
use trading_platform.Prelude.Int.{ℤ, pos}
use trading_platform.Floats.Sample.{whole}
use trading_platform.MarketTypes.{OrderBookUpdate, binance}
use trading_platform.Builder.{new_builder, start_run}
use trading_platform.Prices.{comparable, IsComparable}
use trading_platform.BuilderState.{OrderBookBuilder, running, live, fetching_snapshot}
use trading_platform.Builder.Safety.{IsSafe, run-IsSafe, here, feed}
use trading_platform.Builder.Live.{apply_feed, last_id, run_rounds, live_follows_feed}
use trading_platform.Builder.Stuck.{stuck_forever}

abbrev upd : ℕ → Bool → OrderBookUpdate ℤ
upd n snapshot = record {
  exchange = binance;
  symbol = "BTCUSDT";
  timestamp = pos n;
  bids = record { price = pos 100; quantity = pos n } ∷ [];
  asks = record { price = pos 105; quantity = pos 2 } ∷ [];
  is_snapshot = snapshot;
  update_id = n;
  first_update_id = 0;
  prev_update_id = none;
}

abbrev fresh : OrderBookBuilder ℤ
unfolding start_run new_builder
fresh = start_run whole 50 (new_builder whole "BTCUSDT" binance)

-- Live at number 7 with two more updates in the channel.
abbrev synced : OrderBookBuilder ℤ
synced = record fresh {
  state = live 7 60 1;
  orderbook = record (fresh.orderbook) { last_update_id = 7 };
  inbox = upd 8 false ∷ upd 9 false ∷ [];
}

abbrev fed : OrderBookBuilder ℤ
fed = record fresh { inbox = upd 1 true ∷ []; closed = false }

run-IsSafe_example : IsSafe fed
unfolding fresh start_run new_builder
run-IsSafe_example =
    run-IsSafe whole "BTCUSDT" binance 50 {c = fed} (feed (upd 1 true ∷ []) false here)

whole-IsComparable : IsComparable whole
unfolding comparable
whole-IsComparable a b e f = ground arith

live_follows_feed_example :
    (b' : OrderBookBuilder ℤ) × (when : ℕ) × (count : ℕ) × (run_rounds whole (70 ∷ 80 ∷ []) synced
      ≡ running b')
    × (b'.state ≡ live (last_id whole 7 (upd 8 false ∷ upd 9 false ∷ [])) when count)
    × (apply_feed whole synced.orderbook (upd 8 false ∷ upd 9 false ∷ []) ≡ some b'.orderbook)
    × (b'.inbox ≡ [])
    × (b'.stats.gaps_detected ≡ synced.stats.gaps_detected)
unfolding fresh start_run new_builder
live_follows_feed_example =
    live_follows_feed whole whole-IsComparable (upd 8 false ∷ upd 9 false ∷ []) (70 ∷ 80 ∷ []) 7 60
      1 synced refl refl refl (refl, omega arith, (refl, omega arith, tt)) (tt, tt)
      ((refl, tt), (refl, tt), ((refl, tt), (refl, tt), tt))

abbrev missed : OrderBookBuilder ℤ
missed = record synced { inbox = upd 11 false ∷ [] }

abbrev waiting_for_snapshot : OrderBookBuilder ℤ
waiting_for_snapshot = record fresh { state = fetching_snapshot (upd 3 false ∷ []) 1 }

-- A snapshot arrives, and the state stays.
stuck_forever_example :
    let c : OrderBookBuilder ℤ = record waiting_for_snapshot {
      inbox = upd 4 true ∷ [];
      closed = false;
    } in
    (c.state ≡ waiting_for_snapshot.state)
    × (c.orderbook ≡ waiting_for_snapshot.orderbook)
    × (c.sent ≡ waiting_for_snapshot.sent)
unfolding fresh start_run new_builder
stuck_forever_example =
    stuck_forever whole (upd 3 false) [] waiting_for_snapshot refl refl
      (feed (upd 4 true ∷ []) false here)
