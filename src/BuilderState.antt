-- ===== src/BuilderState.antt =====
-- crates/matching-engine/src/orderbook_builder.rs: the constants and the state of the builder.
--
-- Instants are milliseconds; `inbox`, `closed` and `sent` of the builder are its channels.
use Prim.Native.String.{String}
use trading_platform.Prelude.{ℕ, ◌+◌, ◌%◌, ◌^◌, Bool, Option, List}
use trading_platform.MarketTypes.{Exchange, OrderBookUpdate, OrderBook}

abbrev pub max_buffer_size : ℕ
max_buffer_size = 10000

-- In milliseconds, as all times.
abbrev pub snapshot_timeout : ℕ
snapshot_timeout = 30000

abbrev pub max_resync_attempts : ℕ
max_resync_attempts = 5

pub data ResyncReason : Type 0 where
  sequence_gap : ℕ → ℕ → ResyncReason
  checksum_mismatch crossed_book timeout manual_request initial_sync : ResyncReason

pub data ErrorMessage : Type 0 where
  snapshot_failed : ErrorMessage
  resync_failed : ResyncReason → ErrorMessage

-- The fields of each constructor stand in the source's order.
pub data OrderBookState (F : Type 0) : Type 0 where
  uninitialized : OrderBookState F
  buffering : List (OrderBookUpdate F) → ℕ → OrderBookState F
  fetching_snapshot : List (OrderBookUpdate F) → ℕ → OrderBookState F
  initializing : ℕ → List (OrderBookUpdate F) → OrderBookState F
  live : ℕ → ℕ → ℕ → OrderBookState F
  resyncing : ResyncReason → ℕ → ℕ → OrderBookState F
  error : ErrorMessage → Bool → OrderBookState F

pub record OrderBookStats : Type 0 where
  pub total_updates : ℕ
  pub gaps_detected : ℕ
  pub resyncs_triggered : ℕ
  pub successful_resyncs : ℕ
  pub failed_resyncs : ℕ
  pub last_update_time : Option ℕ
  pub uptime : ℕ

pub record OrderBookBuilder (F : Type 0) : Type 0 where
  pub symbol : String
  pub exchange : Exchange
  pub state : OrderBookState F
  pub orderbook : OrderBook F
  pub stats : OrderBookStats
  -- the receiver's queue, whether the senders are gone, and the snapshots sent
  pub inbox : List (OrderBookUpdate F)
  pub closed : Bool
  pub sent : List (OrderBook F)
  pub start_time : ℕ

-- A round ends running, blocked in a receive, by leaving the loop, or in a panic.
pub data Round (F : Type 0) : Type 0 where
  running : OrderBookBuilder F → Round F
  waiting : OrderBookBuilder F → Round F
  stopped : OrderBookBuilder F → Round F
  panicked : Round F

abbrev pub inc : ℕ → ℕ
inc n = (n + 1) % 2 ^ 64
