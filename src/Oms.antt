-- ===== src/Oms.antt =====
-- crates/matching-engine/src/oms/mod.rs: the order management system.
--
-- Each map and each shared number is locked for one access at a time; the model runs the calls one
-- after the other. The sum over the positions is taken in the order of the association list. The id
-- counter wraps at 2^64, as do the counts of trades.
pub mod Orders
pub mod Fills
mod Tests
use Prim.Native.String.{String}
use trading_platform.Prelude.{
  ℕ, zero, suc, ◌+◌, ◌%◌, ◌^◌, ◌≡◌, refl, ◌∙◌, sym, ap, ◌↔◌, Bool, true, false, not, ◌&&◌, Option,
  none, some, List, [], ◌∷◌, ◌++◌, arith, ◌==◌, ltb, if◌then◌else◌, ==_iff, eq→==, get_elem?,
  Bool-cases, inl, inr,
}
use trading_platform.Prelude.Int.{ℤ, pos}
use trading_platform.Prelude.Dict.{Eq, lookup, insert, string_eq}
use trading_platform.Floats.{Floats}
use trading_platform.OrderTypes.{
  OrderType, market, limit, ioc_order, TimeInForce, gtc, ioc, fok, OrderStatus, new_order, pending,
  cancelled, partially_filled, filled, rejected, Order, Position, PerformanceMetrics, Key, key_eq,
}
use trading_platform.MarketTypes.{
  Exchange, binance, binance_futures, bybit, bybit_linear, upbit, coinbase, okx, deribit, bithumb,
  ls_exchange, Side, buy, sell,
}

pub record OrderManagementSystem (F : Type 0) : Type 0 where
  pub orders : List (ℕ × Order F)
  pub order_id_counter : ℕ
  pub positions : List (Key × Position F)
  pub max_position_size : F
  pub max_daily_loss : F
  pub max_total_exposure : F
  pub performance : PerformanceMetrics F
  pub daily_pnl : F

instance abbrev pub id_eq : Eq ℕ
id_eq = record { beq = ◌==◌; beq_iff = ==_iff }

pub data OmsError : Type 0 where
  daily_loss_limit position_size_limit total_exposure_limit : OmsError
  order_not_found cannot_cancel : OmsError

pub data Result {ℓ} (A : Type ℓ) : Type ℓ where
  ok : A → Result A
  err : OmsError → Result A

abbrev inc : ℕ → ℕ
inc n = (n + 1) % 2 ^ 64

module _ (floats : Floats) where
  open floats use {F, literal, add, sub, mul, div, neg, abs, signum, fmax, fmin, lt, eq, of_i64}

  abbrev pub Oms : Type 0
  Oms = OrderManagementSystem F

  unfoldable pub new_oms : F → F → F → Oms
  new_oms max_position_size max_daily_loss max_total_exposure = record {
    orders = [];
    order_id_counter = 1;
    positions = [];
    max_position_size = max_position_size;
    max_daily_loss = max_daily_loss;
    max_total_exposure = max_total_exposure;
    performance = record {
      total_trades = 0;
      winning_trades = 0;
      losing_trades = 0;
      total_pnl = literal 0;
      sharpe_ratio = literal 0;
      max_drawdown = literal 0;
      win_rate = literal 0;
      avg_win = literal 0;
      avg_loss = literal 0;
    };
    daily_pnl = literal 0;
  }

  -- `.sum()`, from zero on.
  unfoldable pub calculate_total_exposure : List (Key × Position F) → F → F
  calculate_total_exposure [] total = total
  calculate_total_exposure ((key, p) ∷ ps) total =
      calculate_total_exposure ps (add total (mul (abs p.quantity) p.avg_entry_price))

  -- The test of the position that the order leads to, if there is one already, or of the order.
  unfoldable pub too_large : F → Option (Position F) → Side → F → Bool
  too_large max_position_size none side quantity = lt max_position_size quantity
  too_large max_position_size (some p) side quantity =
      let new_quantity : F = elim side [
        | buy ↦ add p.quantity quantity
        | sell ↦ sub p.quantity quantity
      ] in
      lt max_position_size (abs new_quantity)

  -- The limit that an order of this kind would break.
  unfoldable pub check_risk_limits : Oms → String → Exchange → Side → F → Option OmsError
  unfolding calculate_total_exposure too_large
  check_risk_limits oms symbol venue side quantity =
      if lt oms.daily_pnl (neg oms.max_daily_loss)
      then some daily_loss_limit
      else (if too_large oms.max_position_size (lookup (symbol, venue) oms.positions) side quantity
          then some position_size_limit
          else (if lt oms.max_total_exposure (calculate_total_exposure oms.positions (literal 0))
              then some total_exposure_limit
              else none))

  unfoldable pub submit_order :
      Oms → String → Exchange → Side → OrderType → F → Option F → ℤ → Result (Oms × ℕ)
  unfolding check_risk_limits
  submit_order oms symbol venue side order_type quantity price timestamp =
      elim (check_risk_limits oms symbol venue side quantity) [
        | some e ↦ err e
        | none ↦
            let order_id = oms.order_id_counter in
            let order : Order F = record {
              id = order_id;
              timestamp = timestamp;
              symbol = symbol;
              exchange = venue;
              side = side;
              order_type = order_type;
              quantity = quantity;
              price = price;
              time_in_force = ioc;
              status = new_order;
            } in
            ok (
              record oms {
                orders = insert order_id order oms.orders;
                order_id_counter = inc order_id;
              },
              order_id,
            )
      ]

  -- The cast of a count, below 2^64, to f64.
  abbrev as_float : ℕ → F
  as_float n = of_i64 (pos n)

  unfoldable pub update_performance_metrics : PerformanceMetrics F → F → PerformanceMetrics F
  update_performance_metrics m pnl =
      let trades = inc m.total_trades in
      let total = add m.total_pnl pnl in
      let won = lt (literal 0) pnl in
      let lost = lt pnl (literal 0) in
      let wins = if won then inc m.winning_trades else m.winning_trades in
      let losses =
        if won then m.losing_trades else (if lost then inc m.losing_trades else m.losing_trades) in
      record m {
        total_trades = trades;
        total_pnl = total;
        winning_trades = wins;
        losing_trades = losses;
        win_rate = if ltb 0 trades then div (as_float wins) (as_float trades) else m.win_rate;
        avg_win = if ltb 0 wins then div (fmax total (literal 0)) (as_float wins) else m.avg_win;
        avg_loss =
            if ltb 0 losses then div (fmin total (literal 0)) (as_float losses) else m.avg_loss;
        max_drawdown = if lt total m.max_drawdown then total else m.max_drawdown;
      }

  -- What a trade makes of a position, and the profit it realises, if any.
  unfoldable pub trade_position : Position F → Side → F → F → ℤ → Position F × Option F
  trade_position p side quantity price timestamp =
      let signed_quantity : F = elim side [ buy ↦ quantity | sell ↦ neg quantity ] in
      let old_quantity = p.quantity in
      let new_quantity = add old_quantity signed_quantity in
      let same_sign = eq (signum old_quantity) (signum new_quantity) in
      let realizes = (not (eq old_quantity (literal 0))) && not same_sign in
      let closed_quantity =
        if not (eq (signum new_quantity) (signum old_quantity))
        then abs old_quantity
        else quantity in
      let pnl = mul (mul closed_quantity (sub price p.avg_entry_price)) (signum old_quantity) in
      let total_cost = add (mul p.avg_entry_price (abs old_quantity)) (mul price quantity) in
      let realized = if realizes then add p.realized_pnl pnl else p.realized_pnl in
      let out = if realizes then some pnl else none in
      if not (eq new_quantity (literal 0))
      then (
        record p {
          quantity = new_quantity;
          avg_entry_price = if same_sign then div total_cost (abs new_quantity) else price;
          realized_pnl = realized;
          last_update = timestamp;
        },
        out,
      )
      else (
        record p {
          quantity = literal 0;
          avg_entry_price = literal 0;
          realized_pnl = realized;
          last_update = timestamp;
        },
        out,
      )

  -- `or_insert_with(|| Position { .. })`
  abbrev position_or_new : String → Exchange → ℤ → Option (Position F) → Position F
  position_or_new symbol venue timestamp (some p) = p
  position_or_new symbol venue timestamp none = record {
    symbol = symbol;
    exchange = venue;
    quantity = literal 0;
    avg_entry_price = literal 0;
    unrealized_pnl = literal 0;
    realized_pnl = literal 0;
    last_update = timestamp;
  }

  unfoldable pub update_position : Oms → String → Exchange → Side → F → F → ℤ → Oms
  unfolding trade_position update_performance_metrics
  update_position oms symbol venue side quantity price timestamp =
      let key : Key = (symbol, venue) in
      let old = position_or_new symbol venue timestamp (lookup key oms.positions) in
      let (p, pnl) = trade_position old side quantity price timestamp in
      record oms {
        positions = insert key p oms.positions;
        daily_pnl = elim pnl [ some x ↦ add oms.daily_pnl x | none ↦ oms.daily_pnl ];
        performance = elim pnl [
          | some x ↦ update_performance_metrics oms.performance x
          | none ↦ oms.performance
        ];
      }

  unfoldable pub update_order_status : Oms → ℕ → OrderStatus F → ℤ → Result Oms
  unfolding update_position
  update_order_status oms order_id new_status timestamp = elim (lookup order_id oms.orders) [
    | none ↦ err order_not_found
    | some order ↦
        let oms' : Oms = record oms {
          orders = insert order_id (record order { status = new_status }) oms.orders;
        } in
        elim new_status [
          | filled filled_quantity avg_price ↦ ok (
              update_position oms' order.symbol order.exchange order.side filled_quantity avg_price
                timestamp)
          | _ ↦ ok oms'
        ]
  ]

  unfoldable pub cancel_order : Oms → ℕ → Result Oms
  cancel_order oms order_id = elim (lookup order_id oms.orders) [
    | none ↦ err order_not_found
    | some order ↦
        let oms' : Oms = record oms {
          orders = insert order_id (record order { status = cancelled }) oms.orders;
        } in
        elim order.status [ new_order ↦ ok oms' | pending ↦ ok oms' | _ ↦ err cannot_cancel ]
  ]

  unfoldable pub get_position : Oms → String → Exchange → Option (Position F)
  get_position oms symbol venue = lookup (symbol, venue) oms.positions

  -- The positions that are open.
  unfoldable pub get_all_positions : List (Key × Position F) → List (Position F)
  get_all_positions [] = []
  get_all_positions ((key, p) ∷ ps) =
      if not (eq p.quantity (literal 0)) then p ∷ get_all_positions ps else get_all_positions ps

  abbrev pub reset_daily_pnl : Oms → Oms
  reset_daily_pnl oms = record oms { daily_pnl = literal 0 }
