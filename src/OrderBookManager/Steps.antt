-- ===== src/OrderBookManager/Steps.antt =====
-- Runs of calls that do not overlap, with the steps of the builders' tasks between them.
use trading_platform.Prelude.{ℕ, Bool, true, false, Option, none, some, List, [], ◌∷◌, ◌++◌}
use trading_platform.MarketTypes.{OrderBookUpdate}
use trading_platform.OrderBookManager.{
  OrderBookManager, update_task, send_update, try_send_update, end_task, shutdown, receive_update,
}

pub data Operation (F : Type 0) : Type 0 where
  send_op try_send_op : OrderBookUpdate F → Operation F
  receive_op end_op : ℕ → Operation F
  shutdown_op : Operation F

module _ {F : Type 0} where
  -- The update if it was sent.
  abbrev pub sent_of : OrderBookUpdate F → Bool → List (OrderBookUpdate F)
  sent_of u true = u ∷ []
  sent_of u false = []

  abbrev pub sent_if : OrderBookUpdate F → Option Bool → List (OrderBookUpdate F)
  sent_if u none = []
  sent_if u (some ok) = sent_of u ok

  unfoldable pub run_operation :
      Operation F → OrderBookManager F → OrderBookManager F × List (OrderBookUpdate F)
  run_operation (send_op u) m = let (m', done) = send_update u m in (m', sent_if u done)
  run_operation (try_send_op u) m = let (m', ok) = try_send_update u m in (m', sent_of u ok)
  run_operation (receive_op i) m = (record m { tasks = update_task receive_update i m.tasks }, [])
  run_operation (end_op i) m = (record m { tasks = update_task end_task i m.tasks }, [])
  run_operation shutdown_op m = (shutdown m, [])

  -- The manager after the operations, and the updates that were sent, in order.
  unfoldable pub run_operations :
      List (Operation F) → OrderBookManager F → OrderBookManager F × List (OrderBookUpdate F)
  run_operations [] m = (m, [])
  run_operations (op ∷ ops) m =
      let (m', now) = run_operation op m in
      let (m'', later) = run_operations ops m' in (m'', now ++ later)
