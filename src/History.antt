-- ===== src/History.antt =====
-- crates/feature-engineering/src/history.rs: the books, the trades and the order events of the last
-- moments.
--
-- A queue is a list with its front first. Times are microseconds, as integers without a bound: the
-- differences that the source takes are those of dates and fit an i64. A number of milliseconds that
-- overflows an i64 in microseconds is a panic, `none`.
pub mod Window
pub mod Feed
mod Tests
use trading_platform.Prelude.{
  ℕ, Bool, not, Option, none, some, List, [], ◌∷◌, ◌++◌, if◌then◌else◌, map_some,
}
use trading_platform.Prelude.Int.{ℤ, pos, in_i64, ◌-ℤ◌, ◌*ℤ◌, ltb_ℤ}
use trading_platform.MarketTypes.{
  OrderBook, OrderEvent, Trade, add_event, modify_event, cancel_event, execute_event,
}

abbrev pub back {ℓ} : {E : Type ℓ} → List E → Option E
back [] = none
back (e ∷ []) = some e
back (e ∷ f ∷ es) = back (f ∷ es)

-- `ms * 1000`
unfoldable pub micros : ℤ → Option ℤ
micros ms = in_i64 (ms *ℤ pos 1000)

-- What the three histories share, by the time of an element.
module _ {E : Type 0} (time : E → ℤ) where
  -- The loop of `cleanup`: from the front, up to the first element that is not too old.
  unfoldable pub drop_older : ℤ → List E → List E
  drop_older cutoff [] = []
  drop_older cutoff (e ∷ es) = if ltb_ℤ (time e) cutoff then drop_older cutoff es else e ∷ es

  unfoldable pub cleanup : ℤ → List E → List E
  unfolding drop_older
  cleanup max_lookback_micros es = elim (back es) [
    | none ↦ es
    | some e ↦ drop_older (time e -ℤ max_lookback_micros) es
  ]

  unfoldable pub push_and_clean : ℤ → List E → E → List E
  unfolding cleanup
  push_and_clean max_lookback_micros es e = cleanup max_lookback_micros (es ++ e ∷ [])

  -- `filter(|e| e.timestamp >= cutoff)`
  unfoldable pub since : ℤ → List E → List E
  since cutoff [] = []
  since cutoff (e ∷ es) =
      if not (ltb_ℤ (time e) cutoff) then e ∷ since cutoff es else since cutoff es

  abbrev pub cutoff_from : ℤ → Option E → Option ℤ
  cutoff_from lookback_ms none = some (pos 0)
  cutoff_from lookback_ms (some e) = map_some (λ lookback. time e -ℤ lookback) (micros lookback_ms)

  unfoldable pub cutoff_of : ℤ → List E → Option ℤ
  unfolding micros
  cutoff_of lookback_ms es = cutoff_from lookback_ms (back es)

  -- `rev().find(|e| e.timestamp <= target)`, the element nearest to the back.
  unfoldable pub find_back : ℤ → List E → Option E
  find_back target [] = none
  find_back target (e ∷ es) = elim (find_back target es) [
    | some f ↦ some f
    | none ↦ if not (ltb_ℤ target (time e)) then some e else none
  ]

pub record OrderBookHistory (F : Type 0) : Type 0 where
  pub snapshots : List (OrderBook F)
  pub max_lookback_micros : ℤ

pub record TradeHistory (F : Type 0) : Type 0 where
  pub trades : List (Trade F)
  pub max_lookback_micros : ℤ

pub record OrderEventHistory (F : Type 0) : Type 0 where
  pub events : List (OrderEvent F)
  pub max_lookback_micros : ℤ

module _ {F : Type 0} where
  abbrev pub book_time : OrderBook F → ℤ
  book_time book = book.timestamp

  abbrev pub trade_time : Trade F → ℤ
  trade_time trade = trade.timestamp

  abbrev pub event_timestamp : OrderEvent F → ℤ
  event_timestamp (add_event id side price quantity timestamp) = timestamp
  event_timestamp (modify_event id new_quantity timestamp) = timestamp
  event_timestamp (cancel_event id timestamp) = timestamp
  event_timestamp (execute_event id executed_quantity timestamp) = timestamp

  unfoldable pub new_book_history : ℤ → Option (OrderBookHistory F)
  unfolding micros
  new_book_history max_lookback_ms =
      map_some (λ lookback. record { snapshots = []; max_lookback_micros = lookback })
        (micros max_lookback_ms)

  unfoldable pub add_snapshot : OrderBookHistory F → OrderBook F → OrderBookHistory F
  unfolding push_and_clean
  add_snapshot h book = record h {
    snapshots = push_and_clean book_time h.max_lookback_micros h.snapshots book;
  }

  -- The search from the time of the newest book.
  abbrev pub book_before :
      OrderBookHistory F → ℤ → Option (OrderBook F) → Option (Option (OrderBook F))
  book_before h timestamp_offset_ms none = some none
  book_before h timestamp_offset_ms (some newest) =
      map_some (λ offset. find_back book_time (newest.timestamp -ℤ offset) h.snapshots)
        (micros timestamp_offset_ms)

  unfoldable pub get_book_at : OrderBookHistory F → ℤ → Option (Option (OrderBook F))
  unfolding find_back micros
  get_book_at h timestamp_offset_ms = book_before h timestamp_offset_ms (back h.snapshots)

  unfoldable pub latest : OrderBookHistory F → Option (OrderBook F)
  latest h = back h.snapshots

  unfoldable pub new_trade_history : ℤ → Option (TradeHistory F)
  unfolding micros
  new_trade_history max_lookback_ms =
      map_some (λ lookback. record { trades = []; max_lookback_micros = lookback })
        (micros max_lookback_ms)

  unfoldable pub add_trade : TradeHistory F → Trade F → TradeHistory F
  unfolding push_and_clean
  add_trade h trade = record h {
    trades = push_and_clean trade_time h.max_lookback_micros h.trades trade;
  }

  unfoldable pub trades_since : TradeHistory F → ℤ → Option (List (Trade F))
  unfolding since cutoff_of
  trades_since h lookback_ms =
      map_some (λ cutoff. since trade_time cutoff h.trades)
        (cutoff_of trade_time lookback_ms h.trades)

  unfoldable pub new_event_history : ℤ → Option (OrderEventHistory F)
  unfolding micros
  new_event_history max_lookback_ms =
      map_some (λ lookback. record { events = []; max_lookback_micros = lookback })
        (micros max_lookback_ms)

  unfoldable pub add_order_event : OrderEventHistory F → OrderEvent F → OrderEventHistory F
  unfolding push_and_clean
  add_order_event h event = record h {
    events = push_and_clean event_timestamp h.max_lookback_micros h.events event;
  }

  unfoldable pub events_since : OrderEventHistory F → ℤ → Option (List (OrderEvent F))
  unfolding since cutoff_of
  events_since h lookback_ms =
      map_some (λ cutoff. since event_timestamp cutoff h.events)
        (cutoff_of event_timestamp lookback_ms h.events)
