-- ===== src/ConnectionManager.antt =====
-- crates/feeder/src/core/connection_manager.rs: the register of connections.
--
-- Texts are their bytes, the map is an association list, and the clocks are arguments: an Instant
-- is a number of nanoseconds, and the time in an id is an integer. The counter of connections is a
-- u32, whose overflow is a panic; the counters of a status are taken not to overflow. Each operation
-- holds its locks to its end, and runs as a whole here.
pub mod Ids
pub mod Register
pub mod Runs
pub mod Silent
mod Tests
use trading_platform.Prelude.{
  ℕ, suc, ◌+◌, ◌-◌, ◌*◌, ◌^◌, ◌≡◌, ◌↔◌, refl, Bool, true, false, not, ◌&&◌, Option, none, some,
  List, [], ◌∷◌, ◌++◌, arith, ◌==◌, ltb, leb, if◌then◌else◌, length,
}
use trading_platform.Prelude.Int.{ℤ, pos, negsuc}
use trading_platform.Prelude.Decimal.{decimal}
use trading_platform.Prelude.Bytes.{Text, text_eq}
use trading_platform.Prelude.Dict.{Eq, lookup, insert}

pub record ConnectionConfig : Type 0 where
  pub max_symbols_per_connection : ℕ
  pub connection_timeout_seconds : ℕ
  pub reconnect_delay_seconds : ℕ
  pub max_reconnect_attempts : ℕ

pub record ConnectionStatus : Type 0 where
  pub connection_id : Text
  pub asset_type : Text
  pub stream_type : Text
  pub symbols : List Text
  pub is_connected : Bool
  pub last_connected : Option ℕ
  pub last_message : Option ℕ
  pub reconnect_attempts : ℕ
  pub total_messages : ℕ
  pub errors : List Text

pub record ConnectionManager : Type 0 where
  pub config : ConnectionConfig
  pub connections : List (Text × ConnectionStatus)
  pub connection_count : ℕ

unfoldable pub new_connection_manager : ConnectionConfig → ConnectionManager
new_connection_manager config = record { config = config; connections = []; connection_count = 0 }

-- The text of an i64.
unfoldable pub signed : ℤ → Text
signed (pos n) = decimal 19 n
signed (negsuc n) = 45 ∷ decimal 19 (suc n)

abbrev pub underscore : ℕ
underscore = 95

-- format!("{}_{}_{}_{}", asset_type, stream_type, *count, timestamp)
unfoldable pub connection_id_of : Text → Text → ℕ → ℤ → Text
connection_id_of asset_type stream_type count timestamp =
    (asset_type ++ underscore ∷ stream_type)
    ++ underscore ∷ (decimal 19 count ++ underscore ∷ signed timestamp)

unfoldable pub new_status : Text → Text → Text → List Text → ConnectionStatus
new_status connection_id asset_type stream_type symbols = record {
  connection_id = connection_id;
  asset_type = asset_type;
  stream_type = stream_type;
  symbols = symbols;
  is_connected = false;
  last_connected = none;
  last_message = none;
  reconnect_attempts = 0;
  total_messages = 0;
  errors = [];
}

-- The manager and the id; `none` is the panic of the counter.
unfoldable pub create_connection :
    Text → Text → List Text → ℤ → ConnectionManager → Option (ConnectionManager × Text)
create_connection asset_type stream_type symbols timestamp m =
    let count = m.connection_count + 1 in
    let id = connection_id_of asset_type stream_type count timestamp in
    if ltb count (2 ^ 32)
    then some (
      record m {
        connection_count = count;
        connections = insert id (new_status id asset_type stream_type symbols) m.connections;
      },
      id,
    )
    else none

-- `if let Some(status) = connections.get_mut(id) { .. }`
unfoldable pub update_entry :
    (ConnectionStatus → ConnectionStatus)
    → Text
    → List (Text × ConnectionStatus)
    → List (Text × ConnectionStatus)
update_entry f id [] = []
update_entry f id ((key, status) ∷ rest) =
    if text_eq.beq key id then (key, f status) ∷ rest else (key, status) ∷ update_entry f id rest

abbrev with_error : Option Text → List Text → List Text
with_error none errors = errors
with_error (some e) errors = errors ++ e ∷ []

unfoldable pub set_connected : Bool → Option Text → ℕ → ConnectionStatus → ConnectionStatus
set_connected true error now status = record status {
  is_connected = true;
  last_connected = some now;
  reconnect_attempts = 0;
}
set_connected false error now status = record status {
  is_connected = false;
  errors = with_error error status.errors;
}

unfoldable pub update_connection_status :
    Text → Bool → Option Text → ℕ → ConnectionManager → ConnectionManager
update_connection_status id is_connected error now m = record m {
  connections = update_entry (set_connected is_connected error now) id m.connections;
}

unfoldable pub count_message : ℕ → ConnectionStatus → ConnectionStatus
count_message now status = record status {
  last_message = some now;
  total_messages = status.total_messages + 1;
}

unfoldable pub record_message : Text → ℕ → ConnectionManager → ConnectionManager
record_message id now m = record m {
  connections = update_entry (count_message now) id m.connections;
}

unfoldable pub count_attempt : ConnectionStatus → ConnectionStatus
count_attempt status = record status { reconnect_attempts = status.reconnect_attempts + 1 }

unfoldable pub increment_reconnect_attempts : Text → ConnectionManager → ConnectionManager
increment_reconnect_attempts id m = record m {
  connections = update_entry count_attempt id m.connections;
}

unfoldable pub get_connection_status : Text → ConnectionManager → Option ConnectionStatus
get_connection_status id m = lookup id m.connections

-- The test of `retain`: `now.duration_since(last_message) > timeout`, which stops at zero.
unfoldable pub is_dead : ℕ → ℕ → ConnectionStatus → Bool
is_dead timeout now status = elim status.last_message [
  | none ↦ false
  | some last_message ↦ ltb timeout (now - last_message)
]

unfoldable pub retain_live : ℕ → ℕ → List (Text × ConnectionStatus) → List (Text × ConnectionStatus)
retain_live timeout now [] = []
retain_live timeout now (entry ∷ rest) =
    if is_dead timeout now entry.1
    then retain_live timeout now rest
    else entry ∷ retain_live timeout now rest

unfoldable pub cleanup_dead_connections : ℕ → ConnectionManager → ConnectionManager
cleanup_dead_connections now m = record m {
  connections =
      retain_live (m.config.connection_timeout_seconds * 2 * 1000000000) now m.connections;
}

pub record ConnectionSummary : Type 0 where
  pub total_connections : ℕ
  pub connected_count : ℕ
  pub disconnected_count : ℕ
  pub total_messages : ℕ
  pub total_errors : ℕ

unfoldable pub count_connected : List (Text × ConnectionStatus) → ℕ
count_connected [] = 0
count_connected (entry ∷ rest) = (if entry.1.is_connected then 1 else 0) + count_connected rest

unfoldable pub sum_messages : List (Text × ConnectionStatus) → ℕ
sum_messages [] = 0
sum_messages (entry ∷ rest) = entry.1.total_messages + sum_messages rest

unfoldable pub sum_errors : List (Text × ConnectionStatus) → ℕ
sum_errors [] = 0
sum_errors (entry ∷ rest) = length entry.1.errors + sum_errors rest

unfoldable pub get_connection_summary : ConnectionManager → ConnectionSummary
get_connection_summary m = record {
  total_connections = length m.connections;
  connected_count = count_connected m.connections;
  disconnected_count = length m.connections - count_connected m.connections;
  total_messages = sum_messages m.connections;
  total_errors = sum_errors m.connections;
}
