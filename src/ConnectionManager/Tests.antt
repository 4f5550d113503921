-- ===== src/ConnectionManager/Tests.antt =====
-- A register with two connections.
use trading_platform.Prelude.{ℕ, ◌≡◌, refl, false, none, some, List, [], ◌∷◌, ◌++◌, arith}
use trading_platform.Prelude.Int.{pos}
use trading_platform.Prelude.Decimal.{decimal}
use trading_platform.Prelude.Dict.{lookup, insert}
use trading_platform.Prelude.Bytes.{Text}
use trading_platform.ConnectionManager.{
  ConnectionConfig, ConnectionManager, new_connection_manager, connection_id_of, signed, new_status,
  create_connection, get_connection_status, update_connection_status, update_entry, set_connected,
  record_message, count_message, cleanup_dead_connections, retain_live, is_dead,
}
use trading_platform.ConnectionManager.Register.{
  Operation, create, set_status, message, clean_up, run_operation, run_operations,
}
use trading_platform.ConnectionManager.Ids.{count_of_id}
use trading_platform.ConnectionManager.Runs.{create_connection_is_new}
use trading_platform.ConnectionManager.Silent.{IsSilent, connection_kept-IsSilent}

abbrev one_minute : ConnectionConfig
one_minute = record {
  max_symbols_per_connection = 100;
  connection_timeout_seconds = 60;
  reconnect_delay_seconds = 5;
  max_reconnect_attempts = 3;
}

abbrev id_of : ℕ → Text
id_of count = connection_id_of (b'a' ∷ []) (b'b' ∷ []) count (pos 1700000000)

abbrev first_ops : List Operation
first_ops =
    create (b'a' ∷ []) (b'b' ∷ []) [] (pos 1700000000)
    ∷ create (b'a' ∷ []) (b'b' ∷ []) [] (pos 1700000000)
    ∷ []

-- Two connections for the same streams in the same second.
abbrev two : ConnectionManager
two = record {
  config = one_minute;
  connections =
      (id_of 1, new_status (id_of 1) (b'a' ∷ []) (b'b' ∷ []) [])
      ∷ (id_of 2, new_status (id_of 2) (b'a' ∷ []) (b'b' ∷ []) [])
      ∷ [];
  connection_count = 2;
}

two_reached : run_operations first_ops (new_connection_manager one_minute) ≡ some two
unfolding run_operations run_operation new_connection_manager create_connection insert
    connection_id_of signed decimal
two_reached = refl

abbrev three : ConnectionManager
three = record two {
  connections = two.connections ++ (id_of 3, new_status (id_of 3) (b'a' ∷ []) (b'b' ∷ []) []) ∷ [];
  connection_count = 3;
}

third_made :
    create_connection (b'a' ∷ []) (b'b' ∷ []) [] (pos 1700000000) two ≡ some (three, id_of 3)
unfolding create_connection insert connection_id_of signed decimal
third_made = refl

create_connection_is_new_example :
    (get_connection_status (id_of 3) two ≡ none)
    × (three.connections
        ≡ two.connections ++ (id_of 3, new_status (id_of 3) (b'a' ∷ []) (b'b' ∷ []) []) ∷ [])
create_connection_is_new_example =
    create_connection_is_new one_minute first_ops two two_reached (b'a' ∷ []) (b'b' ∷ []) []
      (pos 1700000000) three (id_of 3) third_made

-- The second connection gets a message, and a cleanup runs a day later.
abbrev later_ops : List Operation
later_ops =
    set_status (id_of 1) false (some (b'x' ∷ [])) 10
    ∷ message (id_of 2) 20
    ∷ clean_up 86400000000000
    ∷ []

abbrev one_left : ConnectionManager
one_left = record two {
  connections =
      (
        id_of 1,
        record (new_status (id_of 1) (b'a' ∷ []) (b'b' ∷ []) []) { errors = (b'x' ∷ []) ∷ [] },
      )
      ∷ [];
}

one_left_reached : run_operations later_ops two ≡ some one_left
unfolding run_operations run_operation update_connection_status record_message
    cleanup_dead_connections update_entry set_connected count_message retain_live is_dead new_status
    connection_id_of signed decimal
one_left_reached = refl

first-IsSilent : IsSilent (id_of 1) two
unfolding get_connection_status lookup connection_id_of signed decimal
first-IsSilent = (new_status (id_of 1) (b'a' ∷ []) (b'b' ∷ []) [], refl, unfold new_status in refl)

ids_differ : ¬ (id_of 2 ≡ id_of 1)
ids_differ e =
    let same : ◌≡◌ {A = ℕ} 2 1 =
      count_of_id (b'a' ∷ []) (b'b' ∷ []) (b'a' ∷ []) (b'b' ∷ []) 2 1 (pos 1700000000)
        (pos 1700000000) (omega arith) (omega arith) e in
    absurd (omega (arith, same))

connection_kept-IsSilent_example : IsSilent (id_of 1) one_left
connection_kept-IsSilent_example =
    connection_kept-IsSilent one_minute first_ops later_ops two one_left (id_of 1) two_reached
      first-IsSilent (ids_differ, tt) one_left_reached
