-- ===== src/Oms/Tests.antt =====
-- Runs of the order management and instances of its theorems.
use trading_platform.Prelude.{ℕ, ◌+◌, ◌≡◌, ◌⊎◌, false, true, refl, none, some, arith}
use trading_platform.Prelude.Int.{ℤ, pos}
use trading_platform.Prelude.Dict.{lookup}
use trading_platform.Floats.Sample.{whole}
use trading_platform.MarketTypes.{buy, okx}
use trading_platform.Oms.{OrderManagementSystem, OmsError, ok, err, new_oms, id_eq, submit_order}
use trading_platform.OrderTypes.{limit}
use trading_platform.Oms.Orders.{IsOms, Stored, exceeds, submitted, submit_order_lem}

abbrev fresh : OrderManagementSystem ℤ
unfolding new_oms
fresh = new_oms whole (pos 10) (pos 1000) (pos 5000)

fresh-IsOms : IsOms fresh
unfolding fresh new_oms lookup
fresh-IsOms id h = refl

submit_order_lem_example :
    ((e : OmsError) × (exceeds whole fresh "SOL" okx buy (pos 3) e ≡ true)
      × (submit_order whole fresh "SOL" okx buy limit (pos 3) (some (pos 20)) (pos 1) ≡ err e))
    ⊎ ((oms' : OrderManagementSystem ℤ) × (id : ℕ) × ((e : OmsError)
          → exceeds whole fresh "SOL" okx buy (pos 3) e ≡ false)
        × (submit_order whole fresh "SOL" okx buy limit (pos 3) (some (pos 20)) (pos 1)
            ≡ ok (oms', id))
        × (lookup id fresh.orders ≡ none)
        × Stored fresh oms' id
            (submitted whole id "SOL" okx buy limit (pos 3) (some (pos 20)) (pos 1))
        × (oms'.order_id_counter ≡ fresh.order_id_counter + 1)
        × IsOms oms')
unfolding fresh new_oms
submit_order_lem_example =
    submit_order_lem whole fresh "SOL" okx buy limit (pos 3) (some (pos 20)) (pos 1) fresh-IsOms
      (omega arith)
