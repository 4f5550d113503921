-- ===== src/ConnectionLimits.antt =====
-- crates/feeder/src/core/robust_connection.rs: limits on connections and on attempts to connect.
--
-- Instants and durations are milliseconds, and the clock is an argument. The multiplier of the
-- backoff is given in tenths. `str::to_lowercase` is a parameter, being Unicode's table. The delay
-- with jitter of `wait_for_reconnect` is not modelled.
pub mod Rate
pub mod Limits
mod Tests
use Prim.Native.String.{String}
use text.Mathlib.Text.{◌==◌ as str_eq}
use trading_platform.Prelude.{
  ℕ, ◌+◌, ◌-◌, ◌*◌, ◌/◌, ◌%◌, ◌^◌, min, Bool, true, false, Option, none, some, List, [], ◌∷◌, ◌++◌,
  ltb, leb, if◌then◌else◌, length,
}
use trading_platform.Prelude.Dict.{lookup, insert, string_eq}

pub record ExchangeConnectionLimits : Type 0 where
  pub max_symbols_per_connection : ℕ
  pub max_messages_per_second : ℕ
  pub max_concurrent_connections : ℕ
  pub initial_reconnect_delay : ℕ
  pub max_reconnect_delay : ℕ
  pub connection_attempt_window : ℕ
  pub max_attempts_per_window : ℕ
  pub backoff_tenths : ℕ
  pub use_jitter : Bool

-- `Duration::from_secs`
abbrev pub secs : ℕ → ℕ
secs n = 1000 * n

abbrev limits_of : ℕ → ℕ → ℕ → ℕ → ℕ → ℕ → ℕ → ℕ → ExchangeConnectionLimits
limits_of symbols messages concurrent first_delay last_delay window attempts tenths = record {
  max_symbols_per_connection = symbols;
  max_messages_per_second = messages;
  max_concurrent_connections = concurrent;
  initial_reconnect_delay = secs first_delay;
  max_reconnect_delay = secs last_delay;
  connection_attempt_window = secs window;
  max_attempts_per_window = attempts;
  backoff_tenths = tenths;
  use_jitter = true;
}

unfoldable pub default_limits : ExchangeConnectionLimits
default_limits = limits_of 20 5 5 5 600 300 10 20

-- `for_exchange`, of the name in lower case.
unfoldable pub limits_for : String → ExchangeConnectionLimits
unfolding default_limits
limits_for name =
    if str_eq name "binance"
    then limits_of 20 4 50 1 300 300 200 15
    else if str_eq name "bybit"
    then limits_of 20 15 100 1 600 300 100 15
    else if str_eq name "okx"
    then limits_of 20 8 30 1 300 120 6 18
    else if str_eq name "coinbase"
    then limits_of 8 6 70 1 300 60 20 20
    else if str_eq name "deribit"
    then limits_of 20 8 15 2 600 60 8 20
    else if str_eq name "upbit"
    then limits_of 20 4 50 1 300 300 5 20
    else if str_eq name "bithumb"
    then limits_of 20 8 20 1 600 60 20 18
    else default_limits

pub record ConnectionAttemptTracker : Type 0 where
  pub attempts : List ℕ
  pub limits : ExchangeConnectionLimits

unfoldable pub new_tracker : ExchangeConnectionLimits → ConnectionAttemptTracker
new_tracker limits = record { attempts = []; limits = limits }

-- The attempts that are less than the window old; an instant in the future counts as now.
unfoldable pub retain_recent : ℕ → ℕ → List ℕ → List ℕ
retain_recent window now [] = []
retain_recent window now (t ∷ ts) =
    if ltb (now - t) window then t ∷ retain_recent window now ts else retain_recent window now ts

unfoldable pub can_attempt : ℕ → ConnectionAttemptTracker → ConnectionAttemptTracker × Bool
unfolding retain_recent
can_attempt now t =
    let kept = retain_recent t.limits.connection_attempt_window now t.attempts in
    (record t { attempts = kept }, ltb (length kept) t.limits.max_attempts_per_window)

unfoldable pub record_attempt : ℕ → ConnectionAttemptTracker → ConnectionAttemptTracker
record_attempt now t = record t { attempts = t.attempts ++ now ∷ [] }

unfoldable pub time_until_next_attempt : ℕ → ConnectionAttemptTracker → Option ℕ
time_until_next_attempt now t =
    if ltb (length t.attempts) t.limits.max_attempts_per_window then none else elim (t.attempts) [
      | [] ↦ none
      | oldest ∷ _ ↦
          let elapsed = now - oldest in
          if ltb elapsed t.limits.connection_attempt_window
          then some (t.limits.connection_attempt_window - elapsed)
          else none
    ]

pub record RobustConnectionManager : Type 0 where
  pub exchange_limits : List (String × ExchangeConnectionLimits)
  pub attempt_trackers : List (String × ConnectionAttemptTracker)
  pub active_connections : List (String × ℕ)

unfoldable pub new_manager : RobustConnectionManager
new_manager = record { exchange_limits = []; attempt_trackers = []; active_connections = [] }

-- `Result<(), Duration>`
pub data Answer : Type 0 where
  go_ahead : Answer
  wait_for : ℕ → Answer

module _ (to_lowercase : String → String) where
  unfoldable pub init_exchange : String → RobustConnectionManager → RobustConnectionManager
  unfolding limits_for new_tracker
  init_exchange venue m =
      let limits = limits_for (to_lowercase venue) in
      record {
        exchange_limits = insert venue limits m.exchange_limits;
        attempt_trackers = insert venue (new_tracker limits) m.attempt_trackers;
        active_connections = insert venue 0 m.active_connections;
      }

unfoldable pub limits_or_default : String → RobustConnectionManager → ExchangeConnectionLimits
unfolding default_limits
limits_or_default venue m = elim (lookup venue m.exchange_limits) [
  | none ↦ default_limits
  | some limits ↦ limits
]

unfoldable pub calculate_optimal_connections : String → ℕ → RobustConnectionManager → ℕ
unfolding limits_or_default
calculate_optimal_connections venue total_symbols m =
    let limits = limits_or_default venue m in
    let connections_needed =
      (total_symbols + limits.max_symbols_per_connection - 1) / limits.max_symbols_per_connection in
    min connections_needed limits.max_concurrent_connections

unfoldable pub get_symbols_per_connection : String → RobustConnectionManager → ℕ
get_symbols_per_connection venue m = elim (lookup venue m.exchange_limits) [
  | none ↦ 20
  | some limits ↦ limits.max_symbols_per_connection
]

unfoldable pub can_connect : ℕ → String → RobustConnectionManager → RobustConnectionManager × Answer
unfolding can_attempt time_until_next_attempt
can_connect now venue m = elim (lookup venue m.attempt_trackers) [
  | none ↦ (m, wait_for (secs 60))
  | some tracker ↦
      let (tracker', fine) = can_attempt now tracker in
      let m' = record m { attempt_trackers = insert venue tracker' m.attempt_trackers } in
      if fine then (m', go_ahead) else (
        m',
        wait_for (elim (time_until_next_attempt now tracker') [
          | none ↦ secs 60
          | some wait_time ↦ wait_time
        ]),
      )
]

unfoldable pub record_connection_attempt :
    ℕ → String → RobustConnectionManager → RobustConnectionManager
unfolding record_attempt
record_connection_attempt now venue m = record m {
  attempt_trackers = elim (lookup venue m.attempt_trackers) [
    | none ↦ m.attempt_trackers
    | some tracker ↦ insert venue (record_attempt now tracker) m.attempt_trackers
  ];
  active_connections = elim (lookup venue m.active_connections) [
    | none ↦ m.active_connections
    | some count ↦ insert venue ((count + 1) % 2 ^ 32) m.active_connections
  ];
}

-- `record_connection_success` only logs.
unfoldable pub record_connection_failure :
    String → RobustConnectionManager → RobustConnectionManager
record_connection_failure venue m = record m {
  active_connections = elim (lookup venue m.active_connections) [
    | none ↦ m.active_connections
    | some count ↦ insert venue (count - 1) m.active_connections
  ];
}

unfoldable pub get_active_connections : String → RobustConnectionManager → ℕ
get_active_connections venue m = elim (lookup venue m.active_connections) [
  | none ↦ 0
  | some count ↦ count
]

unfoldable pub can_add_connection : String → RobustConnectionManager → Bool
unfolding get_active_connections limits_or_default
can_add_connection venue m =
    ltb (get_active_connections venue m) (limits_or_default venue m).max_concurrent_connections
