-- ===== src/OrderBookManager.antt =====
-- crates/feeder/src/core/orderbook_manager.rs: the builders of order books, one for each exchange
-- and symbol, and the routing of updates to them.
--
-- A builder is what its channel shows of it: the updates that wait, those that its task has
-- received, and whether the task runs. Handles are the numbers of builders, in the order in which
-- they were made; the map of handles is an association list. An abort only marks a
-- task, which goes on receiving until it ends, as an abort makes it do or for another reason; with
-- its end its channel closes. The building itself is the part Builder; the collector of built
-- books, which logs them and passes them to a sender, is left out.
pub mod Steps
pub mod Logs
pub mod Handles
pub mod Routing
pub mod Race
pub mod Ends
pub mod Shutdown
mod Tests
use Prim.Native.String.{String}
use trading_platform.Prelude.{
  ℕ, suc, Bool, true, false, Option, none, some, List, [], ◌∷◌, ◌++◌, zero, ltb, if◌then◌else◌,
  length, get_elem?,
}
use trading_platform.Prelude.Dict.{lookup, insert}
use trading_platform.MarketTypes.{Exchange, OrderBookUpdate}
use trading_platform.OrderTypes.{Key, key_eq}

-- mpsc::channel(1000)
abbrev pub update_capacity : ℕ
update_capacity = 1000

pub record BuilderTask (F : Type 0) : Type 0 where
  pub symbol : String
  pub exchange : Exchange
  pub queue : List (OrderBookUpdate F)
  pub received : List (OrderBookUpdate F)
  pub alive : Bool
  pub aborted : Bool

pub record OrderBookManager (F : Type 0) : Type 0 where
  pub builders : List (Key × ℕ)
  pub tasks : List (BuilderTask F)

-- What a sender on a channel gets to know.
pub data SendOutcome : Type 0 where
  sent full closed : SendOutcome

abbrev pub send_result : SendOutcome → Option Bool
send_result sent = some true
send_result full = none
send_result closed = some false

abbrev pub try_result : SendOutcome → Bool
try_result sent = true
try_result full = false
try_result closed = false

module _ {F : Type 0} where
  unfoldable pub new_book_manager : OrderBookManager F
  new_book_manager = record { builders = []; tasks = [] }

  abbrev pub update_key : OrderBookUpdate F → Key
  update_key u = (u.symbol, u.exchange)

  unfoldable pub new_task : Key → BuilderTask F
  new_task (symbol, ex) = record {
    symbol = symbol;
    exchange = ex;
    queue = [];
    received = [];
    alive = true;
    aborted = false;
  }

  -- The first lock of `get_or_create_builder`, for reading.
  unfoldable pub find_builder : Key → OrderBookManager F → Option ℕ
  find_builder k m = lookup k m.builders

  -- The rest of it: the new tasks, and the handle stored under the second lock, for writing.
  unfoldable pub create_builder : Key → OrderBookManager F → OrderBookManager F × ℕ
  create_builder k m = (
    record m {
      builders = insert k (length m.tasks) m.builders;
      tasks = m.tasks ++ new_task k ∷ [];
    },
    length m.tasks,
  )

  unfoldable pub use_builder : Option ℕ → Key → OrderBookManager F → OrderBookManager F × ℕ
  use_builder (some i) k m = (m, i)
  use_builder none k m = create_builder k m

  -- A call during which no other takes a lock.
  unfoldable pub get_or_create_builder : Key → OrderBookManager F → OrderBookManager F × ℕ
  get_or_create_builder k m = use_builder (find_builder k m) k m

  unfoldable pub update_task :
      (BuilderTask F → BuilderTask F) → ℕ → List (BuilderTask F) → List (BuilderTask F)
  update_task f i [] = []
  update_task f zero (b ∷ tasks) = f b ∷ tasks
  update_task f (suc i) (b ∷ tasks) = b ∷ update_task f i tasks

  unfoldable pub put_update : OrderBookUpdate F → BuilderTask F → BuilderTask F
  put_update u b = record b { queue = b.queue ++ u ∷ [] }

  unfoldable pub channel_state : BuilderTask F → SendOutcome
  channel_state b =
      if b.alive then if ltb (length b.queue) update_capacity then sent else full else closed

  -- The builder of a handle has been made, so the first case does not occur.
  abbrev pub state_of : Option (BuilderTask F) → SendOutcome
  state_of none = closed
  state_of (some b) = channel_state b

  unfoldable pub task_state : ℕ → List (BuilderTask F) → SendOutcome
  task_state i tasks = state_of (get_elem? tasks i)

  unfoldable pub deliver_by :
      SendOutcome → OrderBookUpdate F → ℕ → OrderBookManager F → OrderBookManager F × SendOutcome
  deliver_by sent u i m = (record m { tasks = update_task (put_update u) i m.tasks }, sent)
  deliver_by full u i m = (m, full)
  deliver_by closed u i m = (m, closed)

  unfoldable pub deliver :
      OrderBookUpdate F → ℕ → OrderBookManager F → OrderBookManager F × SendOutcome
  deliver u i m = deliver_by (task_state i m.tasks) u i m

  unfoldable pub offer : OrderBookUpdate F → OrderBookManager F → OrderBookManager F × SendOutcome
  offer u m = let (m', i) = get_or_create_builder (update_key u) m in deliver u i m'

  -- Whether the update was sent; `none` while the call waits for room.
  unfoldable pub send_update :
      OrderBookUpdate F → OrderBookManager F → OrderBookManager F × Option Bool
  send_update u m = let (m', outcome) = offer u m in (m', send_result outcome)

  unfoldable pub try_send_update :
      OrderBookUpdate F → OrderBookManager F → OrderBookManager F × Bool
  try_send_update u m = let (m', outcome) = offer u m in (m', try_result outcome)

  -- `JoinHandle::abort`, which schedules the end of the task.
  unfoldable pub abort_task : BuilderTask F → BuilderTask F
  abort_task b = record b { aborted = true }

  -- The end of a task, after an abort or of itself: its channel closes.
  unfoldable pub end_task : BuilderTask F → BuilderTask F
  end_task b = record b { alive = false }

  unfoldable pub abort_all : List (Key × ℕ) → List (BuilderTask F) → List (BuilderTask F)
  abort_all [] tasks = tasks
  abort_all (handle ∷ handles) tasks = abort_all handles (update_task abort_task handle.1 tasks)

  unfoldable pub shutdown : OrderBookManager F → OrderBookManager F
  shutdown m = record m { tasks = abort_all m.builders m.tasks }

  unfoldable pub receive_from : List (OrderBookUpdate F) → BuilderTask F → BuilderTask F
  receive_from [] b = b
  receive_from (u ∷ rest) b = record b { queue = rest; received = b.received ++ u ∷ [] }

  -- A running task takes the next update from its channel.
  unfoldable pub receive_update : BuilderTask F → BuilderTask F
  receive_update b = if b.alive then receive_from b.queue b else b
