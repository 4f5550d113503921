-- ===== src/Nbbo.antt =====
-- crates/matching-engine/src/nbbo/mod.rs: the best bid and offer across exchanges.
--
-- The maps are association lists; their iteration goes from the front, and the theorems hold for
-- every list, so for every order. Prices are of any type with the operations of f64, and f64::MAX is
-- a parameter. Times are microseconds as integers, whose differences are taken to fit an i64. The
-- averages and extremes of `get_statistics` and the text of its display are left out. lib.rs does
-- not declare the module, so no other code calls it yet.
pub mod Running
pub mod Best
pub mod Stale
mod Tests
use Prim.Native.String.{String}
use trading_platform.Prelude.{
  ℕ, suc, ◌+◌, ◌%◌, ◌^◌, Bool, true, false, not, ◌&&◌, ◌||◌, Option, none, some, List, [], ◌∷◌,
  arith, ltb, if◌then◌else◌, length, map,
}
use trading_platform.Prelude.Int.{ℤ, pos, ◌-ℤ◌, ltb_ℤ}
use trading_platform.Prelude.Dict.{lookup, insert, string_eq}
use trading_platform.Floats.{Floats}
use trading_platform.MarketTypes.{Exchange, OrderBook, PriceLevel, binance}
use trading_platform.OrderTypes.{Key, key_eq}
use trading_platform.Packet.{scale_down}

module _ (fl : Floats) where
  open fl use {F, literal, add, sub, mul, div, lt, le, of_i64, epsilon, abs}

  pub record Nbbo : Type 0 where
    pub symbol : String
    pub best_bid : F
    pub best_bid_qty : F
    pub best_bid_exchange : Exchange
    pub best_ask : F
    pub best_ask_qty : F
    pub best_ask_exchange : Exchange
    pub nbbo_mid : F
    pub nbbo_spread : F
    pub nbbo_spread_bps : F
    pub num_exchanges : ℕ
    pub timestamp : ℤ
    pub validation_rate : F

  unfoldable pub is_crossed : Nbbo → Bool
  is_crossed n = le n.best_ask n.best_bid

  unfoldable pub is_locked : Nbbo → Bool
  is_locked n = lt (abs (sub n.best_bid n.best_ask)) epsilon

  unfoldable pub arbitrage_profit : Nbbo → F
  arbitrage_profit n = if is_crossed n then sub n.best_bid n.best_ask else literal 0

  pub record ExchangeBookState : Type 0 where
    pub order_book : OrderBook F
    pub last_update : ℤ

  abbrev pub Entry : Type 0
  Entry = Key × ExchangeBookState

  pub record NbboManager : Type 0 where
    pub order_books : List Entry
    pub nbbo_cache : List (String × Nbbo)
    pub total_updates : ℕ
    pub nbbo_computations : ℕ
    pub crossed_markets : ℕ
    pub max_stale_ms : ℤ

  unfoldable pub new_nbbo_manager : ℤ → NbboManager
  new_nbbo_manager max_stale_ms = record {
    order_books = [];
    nbbo_cache = [];
    total_updates = 0;
    nbbo_computations = 0;
    crossed_markets = 0;
    max_stale_ms = max_stale_ms;
  }

  -- `first` of a vector
  abbrev pub first : List (PriceLevel F) → Option (PriceLevel F)
  first [] = none
  first (level ∷ levels) = some level

  -- A price with its quantity and exchange.
  pub record Quote : Type 0 where
    pub price : F
    pub quantity : F
    pub exchange : Exchange

  -- The check of one side: a level that is better takes the place of the best so far.
  unfoldable pub check_best : (F → F → Bool) → Quote → Option (PriceLevel F) → Exchange → Quote
  check_best better best none e = best
  check_best better best (some level) e =
      if better level.price best.price
      then record { price = level.price; quantity = level.quantity; exchange = e }
      else best

  -- The test that leaves a book out: `age_ms > self.max_stale_ms`.
  unfoldable pub is_stale : ℤ → ℤ → ExchangeBookState → Bool
  is_stale max_stale_ms current_time book_state =
      ltb_ℤ max_stale_ms (scale_down (current_time -ℤ book_state.last_update) 1000)

  -- The variables of the loop.
  pub record Scan : Type 0 where
    pub bid : Quote
    pub ask : Quote
    pub num_exchanges : ℕ
    pub total_valid : ℕ
    pub total_checked : ℕ

  abbrev pub higher : F → F → Bool
  higher p best = lt best p

  unfoldable pub scan_entry : ℤ → String → ℤ → Scan → Entry → Scan
  scan_entry max_stale_ms symbol current_time s ((sym, e), book_state) =
      if not (string_eq.beq sym symbol)
      then s
      else (if is_stale max_stale_ms current_time book_state
          then record s { total_checked = s.total_checked + 1 }
          else record {
            bid = check_best higher s.bid (first book_state.order_book.bids) e;
            ask = check_best lt s.ask (first book_state.order_book.asks) e;
            num_exchanges = s.num_exchanges + 1;
            total_valid = s.total_valid + 1;
            total_checked = s.total_checked + 1;
          })

  unfoldable pub scan_entries : ℤ → String → ℤ → Scan → List Entry → Scan
  scan_entries max_stale_ms symbol current_time s [] = s
  scan_entries max_stale_ms symbol current_time s (entry ∷ entries) =
      scan_entries max_stale_ms symbol current_time
        (scan_entry max_stale_ms symbol current_time s entry) entries

  -- The manager and the NBBO, or the error "Incomplete NBBO".
  module _ (f64_max : F) where
    unfoldable pub start_scan : Scan
    start_scan = record {
      bid = record { price = literal 0; quantity = literal 0; exchange = binance };
      ask = record { price = f64_max; quantity = literal 0; exchange = binance };
      num_exchanges = 0;
      total_valid = 0;
      total_checked = 0;
    }

    unfoldable pub nbbo_of : String → ℤ → Scan → Nbbo
    nbbo_of symbol current_time s =
        let mid = div (add s.bid.price s.ask.price) (literal 2) in
        let spread = sub s.ask.price s.bid.price in
        record {
          symbol = symbol;
          best_bid = s.bid.price;
          best_bid_qty = s.bid.quantity;
          best_bid_exchange = s.bid.exchange;
          best_ask = s.ask.price;
          best_ask_qty = s.ask.quantity;
          best_ask_exchange = s.ask.exchange;
          nbbo_mid = mid;
          nbbo_spread = spread;
          nbbo_spread_bps = mul (div spread mid) (literal 10000);
          num_exchanges = s.num_exchanges;
          timestamp = current_time;
          validation_rate =
              if ltb 0 s.total_checked
              then div (of_i64 (pos s.total_valid)) (of_i64 (pos s.total_checked))
              else literal 0;
        }

    unfoldable pub compute_nbbo : String → ℤ → NbboManager → NbboManager × Option Nbbo
    compute_nbbo symbol current_time m =
        let m₁ = record m { nbbo_computations = m.nbbo_computations + 1 } in
        let s = scan_entries m.max_stale_ms symbol current_time start_scan m.order_books in
        if le s.bid.price (literal 0) || le f64_max s.ask.price
        then (m₁, none)
        else (let nbbo = nbbo_of symbol current_time s in
            (
              record m₁ {
                crossed_markets =
                    if lt nbbo.nbbo_spread (literal 0)
                    then m.crossed_markets + 1
                    else m.crossed_markets;
                nbbo_cache = insert symbol nbbo m.nbbo_cache;
              },
              some nbbo,
            ))

    abbrev is_empty : List (PriceLevel F) → Bool
    is_empty [] = true
    is_empty (level ∷ levels) = false

    -- `none` is the error "Empty order book", or that of `compute_nbbo`.
    unfoldable pub update_order_book :
        String → Exchange → OrderBook F → ℤ → NbboManager → NbboManager × Option Nbbo
    update_order_book symbol e order_book timestamp m =
        let m₁ = record m { total_updates = m.total_updates + 1 } in
        let book_state : ExchangeBookState = record {
          order_book = order_book;
          last_update = timestamp;
        } in
        if is_empty order_book.bids && is_empty order_book.asks
        then (m₁, none)
        else compute_nbbo symbol timestamp
            (record m₁ { order_books = insert (symbol, e) book_state m.order_books })

  unfoldable pub get_nbbo : String → NbboManager → Option Nbbo
  get_nbbo symbol m = lookup symbol m.nbbo_cache

  -- The entries that `cleanup_stale` keeps.
  unfoldable pub keep_fresh : ℤ → ℤ → List Entry → List Entry
  keep_fresh max_stale_ms current_time [] = []
  keep_fresh max_stale_ms current_time (entry ∷ entries) =
      if is_stale max_stale_ms current_time entry.1
      then keep_fresh max_stale_ms current_time entries
      else entry ∷ keep_fresh max_stale_ms current_time entries

  unfoldable pub cleanup_stale : ℤ → NbboManager → NbboManager
  cleanup_stale current_time m = record m {
    order_books = keep_fresh m.max_stale_ms current_time m.order_books;
  }
