-- ===== src/MarketTypes.antt =====
-- crates/market-types/src: the data that the crates share. Prices and quantities are of any type.
use Prim.Native.String.{String}
use trading_platform.Prelude.{ℕ, ◌-◌, ◌%◌, ◌^◌, Bool, Option, List, []}
use trading_platform.Prelude.Int.{ℤ, pos, negsuc}

-- exchange.rs
pub data Exchange : Type 0 where
  binance binance_futures bybit bybit_linear upbit : Exchange
  coinbase okx deribit bithumb ls_exchange : Exchange

-- trade.rs
pub data Side : Type 0 where
  buy sell : Side

pub record Trade (F : Type 0) : Type 0 where
  pub exchange : Exchange
  pub symbol : String
  pub timestamp : ℤ
  pub price : F
  pub quantity : F
  pub side : Side
  pub trade_id : String

-- orderbook.rs
pub record PriceLevel (F : Type 0) : Type 0 where
  pub price : F
  pub quantity : F

pub record OrderBookUpdate (F : Type 0) : Type 0 where
  pub exchange : Exchange
  pub symbol : String
  pub timestamp : ℤ
  pub bids : List (PriceLevel F)
  pub asks : List (PriceLevel F)
  pub is_snapshot : Bool
  pub update_id : ℕ
  pub first_update_id : ℕ
  pub prev_update_id : Option ℕ

pub record OrderBook (F : Type 0) : Type 0 where
  pub symbol : String
  pub exchange : Exchange
  pub timestamp : ℤ
  pub bids : List (PriceLevel F)
  pub asks : List (PriceLevel F)
  pub last_update_id : ℕ
  pub first_update_id : ℕ
  pub update_count : ℕ

-- `OrderBook::new`
unfoldable pub new_order_book : {F : Type 0} → String → Exchange → OrderBook F
new_order_book symbol exchange = record {
  symbol = symbol;
  exchange = exchange;
  timestamp = pos 0;
  bids = [];
  asks = [];
  last_update_id = 0;
  first_update_id = 0;
  update_count = 0;
}

-- `x as u64` of an i64
abbrev pub as_u64 : ℤ → ℕ
as_u64 (pos n) = n % 2 ^ 64
as_u64 (negsuc n) = (2 ^ 64 - 1 - n % 2 ^ 64) % 2 ^ 64

-- order_event.rs
pub data OrderEvent (F : Type 0) : Type 0 where
  add_event : ℕ → Side → F → F → ℤ → OrderEvent F
  modify_event : ℕ → F → ℤ → OrderEvent F
  cancel_event : ℕ → ℤ → OrderEvent F
  execute_event : ℕ → F → ℤ → OrderEvent F

abbrev pub order_id : {F : Type 0} → OrderEvent F → ℕ
order_id (add_event id side price quantity timestamp) = id
order_id (modify_event id new_quantity timestamp) = id
order_id (cancel_event id timestamp) = id
order_id (execute_event id executed_quantity timestamp) = id
