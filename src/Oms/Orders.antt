-- ===== src/Oms/Orders.antt =====
-- The life of an order: fresh ids, and what can be cancelled.
use Prim.Native.String.{String}
use trading_platform.Prelude.{
  ℕ, ◌+◌, ◌%◌, ◌^◌, ◌≤◌, ◌<◌, ◌≡◌, ◌≢◌, ◌⊎◌, inl, inr, refl, sym, ◌∙◌, Bool, true, false, Option,
  none, some, List, arith, eq→==, ne→==, Option-cases, Bool-cases,
}
use trading_platform.Prelude.Int.{ℤ}
use trading_platform.Prelude.Dict.{lookup, insert, lookup-insert}
use trading_platform.Floats.{Floats}
use trading_platform.MarketTypes.{Exchange, Side, buy, sell}
use trading_platform.Oms.{
  OrderManagementSystem, OmsError, ok, err, daily_loss_limit, position_size_limit,
  total_exposure_limit, order_not_found, cannot_cancel, calculate_total_exposure, too_large, id_eq,
  check_risk_limits, submit_order, cancel_order,
}
use trading_platform.OrderTypes.{
  Order, Position, key_eq, OrderStatus, OrderType, new_order, pending, cancelled, ioc,
}

module _ {F : Type 0} where
  -- No order is stored under the next id or a later one.
  abbrev pub IsOms : OrderManagementSystem F → Type 0
  IsOms oms = (id : ℕ) → oms.order_id_counter ≤ id → lookup id oms.orders ≡ none

  -- The states that `cancel_order` accepts.
  abbrev pub is_open : OrderStatus F → Bool
  is_open new_order = true
  is_open pending = true
  is_open _ = false

  lookup-insert_self :
      (i : ℕ) (o : Order F) (m : List (ℕ × Order F)) → lookup i (insert i o m) ≡ some o
  lookup-insert_self i o m = rw (lookup-insert i i o m, eq→== i i refl)

  lookup-insert_other :
      (i j : ℕ) (o : Order F) (m : List (ℕ × Order F))
      → j ≢ i
      → lookup j (insert i o m) ≡ lookup j m
  lookup-insert_other i j o m h = rw (lookup-insert i j o m, ne→== i j (λ e. h (sym e)))

  IsOms-insert :
      (oms : OrderManagementSystem F) (o : Order F)
      → IsOms oms
      → oms.order_id_counter + 1 < 2 ^ 64
      → IsOms (record oms {
        orders = insert oms.order_id_counter o oms.orders;
        order_id_counter = (oms.order_id_counter + 1) % 2 ^ 64;
      })
  IsOms-insert oms o fresh room j le =
      let above : j ≢ oms.order_id_counter = omega arith in
      lookup-insert_other oms.order_id_counter j o oms.orders above ∙ fresh j (omega arith)

  -- The orders of the second are those of the first, but for this one, and all else but the counter
  -- of ids is as it was.
  pub record Stored (oms oms' : OrderManagementSystem F) (id : ℕ) (o : Order F) : Type 0 where
    pub found : lookup id oms'.orders ≡ some o
    pub others_kept : (j : ℕ) → j ≢ id → lookup j oms'.orders ≡ lookup j oms.orders
    pub positions_kept : oms'.positions ≡ oms.positions
    pub pnl_kept : oms'.daily_pnl ≡ oms.daily_pnl
    pub performance_kept : oms'.performance ≡ oms.performance
    pub position_limit_kept : oms'.max_position_size ≡ oms.max_position_size
    pub loss_limit_kept : oms'.max_daily_loss ≡ oms.max_daily_loss
    pub exposure_limit_kept : oms'.max_total_exposure ≡ oms.max_total_exposure

module _ (floats : Floats) where
  open floats use {F, literal, add, sub, neg, abs, lt}

  -- The size of the position that the order leads to, as the limit takes it.
  abbrev pub resulting_size : Option (Position F) → Side → F → F
  resulting_size none side quantity = quantity
  resulting_size (some p) buy quantity = abs (add p.quantity quantity)
  resulting_size (some p) sell quantity = abs (sub p.quantity quantity)

  -- Whether an order of this kind is beyond a limit.
  abbrev pub exceeds : OrderManagementSystem F → String → Exchange → Side → F → OmsError → Bool
  exceeds oms symbol venue side quantity daily_loss_limit =
      lt oms.daily_pnl (neg oms.max_daily_loss)
  exceeds oms symbol venue side quantity position_size_limit =
      lt oms.max_position_size (resulting_size (lookup (symbol, venue) oms.positions) side quantity)
  exceeds oms symbol venue side quantity total_exposure_limit =
      lt oms.max_total_exposure (calculate_total_exposure floats oms.positions (literal 0))
  exceeds oms symbol venue side quantity order_not_found = false
  exceeds oms symbol venue side quantity cannot_cancel = false

  none_exceeded :
      (oms : OrderManagementSystem F) (symbol : String) (venue : Exchange) (side : Side)
      (quantity : F)
      → exceeds oms symbol venue side quantity daily_loss_limit ≡ false
      → exceeds oms symbol venue side quantity position_size_limit ≡ false
      → exceeds oms symbol venue side quantity total_exposure_limit ≡ false
      → (e : OmsError) → exceeds oms symbol venue side quantity e ≡ false
  none_exceeded oms symbol venue side quantity a b c daily_loss_limit = a
  none_exceeded oms symbol venue side quantity a b c position_size_limit = b
  none_exceeded oms symbol venue side quantity a b c total_exposure_limit = c
  none_exceeded oms symbol venue side quantity a b c order_not_found = refl
  none_exceeded oms symbol venue side quantity a b c cannot_cancel = refl

  size_test :
      (limit_size : F) (position : Option (Position F)) (side : Side) (quantity : F)
      → too_large floats limit_size position side quantity
        ≡ lt limit_size (resulting_size position side quantity)
  unfolding too_large
  size_test limit_size none side quantity = refl
  size_test limit_size (some p) buy quantity = refl
  size_test limit_size (some p) sell quantity = refl

  check_risk_limits-cases :
      (oms : OrderManagementSystem F) (symbol : String) (venue : Exchange) (side : Side)
      (quantity : F)
      → let exceeded = exceeds oms symbol venue side quantity in
        ((e : OmsError) × (check_risk_limits floats oms symbol venue side quantity ≡ some e)
          × (exceeded e ≡ true))
        ⊎ ((check_risk_limits floats oms symbol venue side quantity ≡ none)
            × ((e : OmsError) → exceeded e ≡ false))
  unfolding check_risk_limits
  check_risk_limits-cases oms symbol venue side quantity =
      elim (Bool-cases (lt oms.daily_pnl (neg oms.max_daily_loss))) [
        | inl loss ↦ inl (daily_loss_limit, rw loss refl, loss)
        | inr safe ↦
            let size = resulting_size (lookup (symbol, venue) oms.positions) side quantity in
            let test =
              size_test oms.max_position_size (lookup (symbol, venue) oms.positions) side
                quantity in
            elim (Bool-cases (lt oms.max_position_size size)) [
              | inl large ↦ inl (position_size_limit, rw (safe, test, large) refl, large)
              | inr small ↦
                  let total = calculate_total_exposure floats oms.positions (literal 0) in
                  elim (Bool-cases (lt oms.max_total_exposure total)) [
                    | inl much ↦ inl (total_exposure_limit, rw (safe, test, small, much) refl, much)
                    | inr little ↦ inr (
                      rw (safe, test, small, little) refl,
                      none_exceeded oms symbol venue side quantity safe small little,
                    )
                  ]
            ]
      ]

  -- The order that a submission stores.
  abbrev pub submitted : ℕ → String → Exchange → Side → OrderType → F → Option F → ℤ → Order F
  submitted id symbol venue side kind quantity price timestamp = record {
    id = id;
    timestamp = timestamp;
    symbol = symbol;
    exchange = venue;
    side = side;
    order_type = kind;
    quantity = quantity;
    price = price;
    time_in_force = ioc;
    status = new_order;
  }

  -- An order is refused with a limit that it exceeds and, if it exceeds none, is stored as it was
  -- given, in the state New, under an id that no order had; nothing else changes but the counter,
  -- and ids stay fresh.
  pub submit_order_lem :
      (oms : OrderManagementSystem F) (symbol : String) (venue : Exchange) (side : Side)
      (kind : OrderType) (quantity : F) (price : Option F) (timestamp : ℤ)
      → IsOms oms
      → oms.order_id_counter + 1 < 2 ^ 64
      → ((e : OmsError) × (exceeds oms symbol venue side quantity e ≡ true)
          × (submit_order floats oms symbol venue side kind quantity price timestamp ≡ err e))
        ⊎ ((oms' : OrderManagementSystem F) × (id : ℕ) × ((e : OmsError)
              → exceeds oms symbol venue side quantity e ≡ false)
            × (submit_order floats oms symbol venue side kind quantity price timestamp
                ≡ ok (oms', id))
            × (lookup id oms.orders ≡ none)
            × Stored oms oms' id (submitted id symbol venue side kind quantity price timestamp)
            × (oms'.order_id_counter ≡ oms.order_id_counter + 1)
            × IsOms oms')
  unfolding submit_order
  submit_order_lem oms symbol venue side kind quantity price timestamp fresh room =
      elim (check_risk_limits-cases oms symbol venue side quantity) [
        | inl (e, h, exceeded) ↦ inl (e, exceeded, rw (h, submit_order) refl)
        | inr (h, within) ↦
            let id = oms.order_id_counter in
            let o = submitted id symbol venue side kind quantity price timestamp in
            inr (
              record oms { orders = insert id o oms.orders; order_id_counter = (id + 1) % 2 ^ 64 },
              id,
              within,
              rw (h, submit_order) refl,
              fresh id (omega arith),
              record {
                found = lookup-insert_self id o oms.orders;
                others_kept = λ j ne. lookup-insert_other id j o oms.orders ne;
                positions_kept = refl;
                pnl_kept = refl;
                performance_kept = refl;
                position_limit_kept = refl;
                loss_limit_kept = refl;
                exposure_limit_kept = refl;
              },
              omega (arith, room),
              IsOms-insert oms o fresh room,
            )
      ]

  -- An order that is New or Pending can be cancelled, and nothing but its state changes.
  pub cancel_order-open :
      (oms : OrderManagementSystem F) (id : ℕ) (o : Order F)
      → lookup id oms.orders ≡ some o
      → is_open o.status ≡ true
      → (oms' : OrderManagementSystem F) × (cancel_order floats oms id ≡ ok oms')
        × Stored oms oms' id (record o { status = cancelled })
  unfolding cancel_order
  cancel_order-open oms id o h ready = (
    record oms { orders = insert id (record o { status = cancelled }) oms.orders },
    rw (h, cancel_order) (ground arith),
    record {
      found = lookup-insert_self id _ oms.orders;
      others_kept = λ j ne. lookup-insert_other id j _ oms.orders ne;
      positions_kept = refl;
      pnl_kept = refl;
      performance_kept = refl;
      position_limit_kept = refl;
      loss_limit_kept = refl;
      exposure_limit_kept = refl;
    },
  )

  -- An order in any other state cannot be cancelled.
  cancel_order-closed :
      (oms : OrderManagementSystem F) (id : ℕ) (o : Order F)
      → lookup id oms.orders ≡ some o
      → is_open o.status ≡ false
      → cancel_order floats oms id ≡ err cannot_cancel
  unfolding cancel_order
  cancel_order-closed oms id o h done = rw (h, cancel_order) (ground arith)

  -- An order is cancelled at most once: after a cancel that succeeded, another is an error.
  pub cancel_order_twice :
      (oms oms' : OrderManagementSystem F) (id : ℕ)
      → cancel_order floats oms id ≡ ok oms'
      → cancel_order floats oms' id ≡ err cannot_cancel
  unfolding cancel_order
  cancel_order_twice oms oms' id h = elim (Option-cases (lookup id oms.orders)) [
    | inl e ↦ let h' = rw (e, cancel_order) at h in ground arith
    | inr (o, e) ↦ elim (Bool-cases (is_open o.status)) [
      | inl ready ↦
          let (a, ea, stored) = cancel_order-open oms id o e ready in
          let same : a ≡ oms' = cc in
          let found : lookup id oms'.orders ≡ some (record o { status = cancelled }) =
            rw same at stored.found in
          rw (found, cancel_order) refl
      | inr done ↦
          let refused : cancel_order floats oms id ≡ err cannot_cancel =
            cancel_order-closed oms id o e done in
          ground arith
    ]
  ]
