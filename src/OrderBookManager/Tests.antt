-- ===== src/OrderBookManager/Tests.antt =====
-- Runs of the manager and instances of its theorems.
use trading_platform.Prelude.{ℕ, ◌≡◌, ◌≢◌, refl, false, none, some, List, [], ◌∷◌}
use trading_platform.Prelude.Int.{pos}
use trading_platform.Prelude.Dict.{lookup, insert}
use trading_platform.MarketTypes.{OrderBookUpdate, Exchange, okx, binance}
use trading_platform.OrderTypes.{Key, key_eq}
use trading_platform.OrderBookManager.{
  OrderBookManager, new_book_manager, new_task, find_builder, create_builder, use_builder,
  get_or_create_builder, update_task, put_update, channel_state, task_state, deliver_by, deliver,
  offer, send_update, try_send_update, shutdown, receive_from, receive_update,
}
use trading_platform.OrderBookManager.Steps.{
  Operation, send_op, try_send_op, receive_op, run_operation, run_operations,
}
use trading_platform.OrderBookManager.Logs.{log, for_key}
use trading_platform.OrderBookManager.Routing.{updates_reach_their_builder}
use trading_platform.OrderBookManager.Race.{racing_builder_is_lost}
use trading_platform.OrderBookManager.Ends.{IsAborted}
use trading_platform.OrderBookManager.Shutdown.{after_shutdown, no_update_after_shutdown}

abbrev update : Exchange → ℕ → OrderBookUpdate ℕ
update ex id = record {
  exchange = ex;
  symbol = "BTC";
  timestamp = pos 0;
  bids = [];
  asks = [];
  is_snapshot = false;
  update_id = id;
  first_update_id = id;
  prev_update_id = none;
}

-- Two updates of one exchange, and one of another between them.
abbrev three : List (Operation ℕ)
three =
    send_op (update okx 1)
    ∷ try_send_op (update binance 2)
    ∷ receive_op 0
    ∷ send_op (update okx 3)
    ∷ []

abbrev manager : OrderBookManager ℕ
manager = (run_operations three new_book_manager).0

found : lookup ("BTC", okx) manager.builders ≡ some 0
unfolding run_operations run_operation new_book_manager send_update try_send_update offer
    get_or_create_builder find_builder create_builder use_builder new_task deliver deliver_by
    task_state channel_state update_task put_update receive_update receive_from lookup insert
found = refl

two_reach_it :
    for_key ("BTC", okx) (run_operations three new_book_manager).1
    ≡ update okx 1 ∷ update okx 3 ∷ []
unfolding run_operations run_operation new_book_manager send_update try_send_update offer
    get_or_create_builder find_builder create_builder use_builder new_task deliver deliver_by
    task_state channel_state update_task put_update receive_update receive_from lookup insert
    for_key
two_reach_it = refl

updates_reach_their_builder_example :
    (log 0 manager.tasks ≡ for_key ("BTC", okx) (run_operations three new_book_manager).1)
    × ((j : Key) → lookup j manager.builders ≡ some 0 → j ≡ ("BTC", okx))
updates_reach_their_builder_example = updates_reach_their_builder three ("BTC", okx) 0 found

racing_builder_is_lost_example :
    find_builder
      ("ETH", okx)
      (run_operations three
        (create_builder ("ETH", okx) (create_builder ("ETH", okx) manager).0).0).0
    ≢ some (create_builder ("ETH", okx) manager).1
racing_builder_is_lost_example = racing_builder_is_lost three three ("ETH", okx) ("ETH", okx)

no_update_after_shutdown_example :
    let m = after_shutdown three 0 three manager in
    IsAborted 0 (shutdown manager).tasks
    × (try_send_update (update okx 4) m ≡ (m, false))
    × (send_update (update okx 4) m ≡ (m, some false))
no_update_after_shutdown_example =
    no_update_after_shutdown three three three (update okx 4) 0 (unfold find_builder in found)
