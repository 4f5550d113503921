-- ===== src/ConnectionLimits/Tests.antt =====
-- Runs of the limiter and instances of its theorems.
use trading_platform.Prelude.{◌≤◌, ◌≡◌, refl, true, [], ◌∷◌, arith, length}
use trading_platform.Prelude.Dict.{lookup, insert}
use trading_platform.ConnectionLimits.{
  ExchangeConnectionLimits, ConnectionAttemptTracker, RobustConnectionManager, new_tracker,
  new_manager, retain_recent, can_attempt, can_connect, wait_for, time_until_next_attempt,
}
use trading_platform.ConnectionLimits.Rate.{attempt_all, rate_limit}

-- Two attempts in a second.
abbrev two : ExchangeConnectionLimits
two = record {
  max_symbols_per_connection = 20;
  max_messages_per_second = 5;
  max_concurrent_connections = 5;
  initial_reconnect_delay = 1000;
  max_reconnect_delay = 2000;
  connection_attempt_window = 1000;
  max_attempts_per_window = 2;
  backoff_tenths = 20;
  use_jitter = true;
}

abbrev full : ConnectionAttemptTracker
full = record { attempts = 100 ∷ 300 ∷ []; limits = two }

abbrev manager : RobustConnectionManager
unfolding new_manager
manager = record new_manager { attempt_trackers = ("okx", full) ∷ [] }

-- At 400 the manager says to wait 700.
asked : (can_connect 400 "okx" manager).1 ≡ wait_for 700
unfolding manager new_manager can_connect can_attempt retain_recent time_until_next_attempt lookup
    insert
asked = refl

-- Of four attempts the third is refused.
rate_limit_example :
    length (retain_recent 1000 1500 (attempt_all (100 ∷ 300 ∷ 500 ∷ 1200 ∷ []) (new_tracker two)).1)
    ≤ 2
rate_limit_example =
    rate_limit two (100 ∷ 300 ∷ 500 ∷ 1200 ∷ []) 0 1500
      (omega arith, (omega arith, (omega arith, (omega arith, tt)))) (omega arith)
