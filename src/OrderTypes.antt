-- ===== src/OrderTypes.antt =====
-- crates/matching-engine/src/types.rs: orders and positions, and the equality of position keys.
use Prim.Native.String.{String}
use trading_platform.Prelude.{
  ℕ, ◌≡◌, refl, ◌∙◌, sym, ap, ◌↔◌, Bool, true, ◌&&◌, Option, some, List, [], ◌∷◌, arith, ◌==◌,
  eq→==, get_elem?,
}
use trading_platform.Prelude.Int.{ℤ}
use trading_platform.Prelude.Dict.{Eq, string_eq}
use trading_platform.MarketTypes.{
  Exchange, binance, binance_futures, bybit, bybit_linear, upbit, coinbase, okx, deribit, bithumb,
  ls_exchange, Side,
}

pub data OrderType : Type 0 where
  market limit ioc_order : OrderType

pub data TimeInForce : Type 0 where
  gtc ioc fok : TimeInForce

pub data OrderStatus (F : Type 0) : Type 0 where
  new_order pending cancelled : OrderStatus F
  partially_filled : F → OrderStatus F
  filled : F → F → OrderStatus F
  rejected : String → OrderStatus F

pub record Order (F : Type 0) : Type 0 where
  pub id : ℕ
  pub timestamp : ℤ
  pub symbol : String
  pub exchange : Exchange
  pub side : Side
  pub order_type : OrderType
  pub quantity : F
  pub price : Option F
  pub time_in_force : TimeInForce
  pub status : OrderStatus F

pub record Position (F : Type 0) : Type 0 where
  pub symbol : String
  pub exchange : Exchange
  pub quantity : F
  pub avg_entry_price : F
  pub unrealized_pnl : F
  pub realized_pnl : F
  pub last_update : ℤ

pub record PerformanceMetrics (F : Type 0) : Type 0 where
  pub total_trades : ℕ
  pub winning_trades : ℕ
  pub losing_trades : ℕ
  pub total_pnl : F
  pub sharpe_ratio : F
  pub max_drawdown : F
  pub win_rate : F
  pub avg_win : F
  pub avg_loss : F

-- The derived equality of exchanges, through a number for each.
abbrev exchange_code : Exchange → ℕ
exchange_code binance = 0
exchange_code binance_futures = 1
exchange_code bybit = 2
exchange_code bybit_linear = 3
exchange_code upbit = 4
exchange_code coinbase = 5
exchange_code okx = 6
exchange_code deribit = 7
exchange_code bithumb = 8
exchange_code ls_exchange = 9

abbrev all_exchanges : List Exchange
all_exchanges =
    binance ∷ binance_futures ∷ bybit ∷ bybit_linear ∷ upbit ∷ coinbase ∷ okx ∷ deribit ∷ bithumb
    ∷ ls_exchange ∷ []

code-get_elem? : (a : Exchange) → get_elem? all_exchanges (exchange_code a) ≡ some a
code-get_elem? binance = refl
code-get_elem? binance_futures = refl
code-get_elem? bybit = refl
code-get_elem? bybit_linear = refl
code-get_elem? upbit = refl
code-get_elem? coinbase = refl
code-get_elem? okx = refl
code-get_elem? deribit = refl
code-get_elem? bithumb = refl
code-get_elem? ls_exchange = refl

-- The key of a position.
abbrev pub Key : Type 0
Key = String × Exchange

abbrev key_beq : Key → Key → Bool
key_beq (s, a) (t, b) = string_eq.beq s t && (exchange_code a == exchange_code b)

pub key_beq_iff : (k j : Key) → (key_beq k j ≡ true) ↔ (k ≡ j)
key_beq_iff (s, a) (t, b) = (
  λ h.
      let names : s ≡ t = (string_eq.beq_iff s t).0 (ground (arith, string_eq.beq s t)) in
      let codes : exchange_code a ≡ exchange_code b = ground arith in
      let same : some a ≡ some b =
        sym (code-get_elem? a) ∙ (ap (get_elem? all_exchanges) codes ∙ code-get_elem? b) in
      cc,
  λ h. rw (
    (string_eq.beq_iff s t).1 (ap (λ k. k.0) h),
    eq→== (exchange_code a) (exchange_code b) (ap (λ k. exchange_code k.1) h),
  ),
)

instance abbrev pub key_eq : Eq Key
key_eq = record { beq = key_beq; beq_iff = key_beq_iff }
