-- ===== src/ConnectionManager/Runs.antt =====
-- Runs of operations from a new register.
use trading_platform.Prelude.{◌*◌, ◌≡◌, inl, inr, none, some, List, [], ◌∷◌, ◌++◌, Option-cases}
use trading_platform.Prelude.Int.{ℤ}
use trading_platform.Prelude.Bytes.{Text, text_eq}
use trading_platform.ConnectionManager.{
  ConnectionConfig, ConnectionManager, new_connection_manager, new_status, create_connection,
  set_connected, update_connection_status, count_message, record_message, count_attempt,
  increment_reconnect_attempts, get_connection_status, cleanup_dead_connections,
}
use trading_platform.ConnectionManager.Register.{
  Operation, create, set_status, message, attempt, clean_up, run_operation, run_operations,
  AllIssued, AllIssued-update, AllIssued-retain, create-new,
}

abbrev pub IsRegister : ConnectionManager → Type 0
IsRegister m = AllIssued m.connection_count m.connections

pub run_operation-IsRegister :
    (op : Operation) (m m' : ConnectionManager)
    → IsRegister m
    → run_operation op m ≡ some m'
    → IsRegister m'
unfolding run_operation update_connection_status record_message increment_reconnect_attempts
    cleanup_dead_connections
run_operation-IsRegister (create asset stream symbols t) m m' a e =
    elim (Option-cases (create_connection asset stream symbols t m)) [
      | inl full ↦ absurd (cc (rw full at e))
      | inr ((n, id), made) ↦
          let (p, q, all) = create-new asset stream symbols t m n id a made in
          let same : n ≡ m' = cc in rw (← same) all
    ]
run_operation-IsRegister (set_status id up error now) m m' a e =
    let same : update_connection_status id up error now m ≡ m' = cc in
    rw (← same)
      (AllIssued-update (set_connected up error now) id m.connection_count m.connections a)
run_operation-IsRegister (message id now) m m' a e =
    let same : record_message id now m ≡ m' = cc in
    rw (← same) (AllIssued-update (count_message now) id m.connection_count m.connections a)
run_operation-IsRegister (attempt id) m m' a e =
    let same : increment_reconnect_attempts id m ≡ m' = cc in
    rw (← same) (AllIssued-update count_attempt id m.connection_count m.connections a)
run_operation-IsRegister (clean_up now) m m' a e =
    let same : cleanup_dead_connections now m ≡ m' = cc in
    rw (← same) (
      AllIssued-retain (m.config.connection_timeout_seconds * 2 * 1000000000) now m.connection_count
        m.connections a)

pub run_operations-IsRegister :
    (ops : List Operation) (m m' : ConnectionManager)
    → IsRegister m
    → run_operations ops m ≡ some m'
    → IsRegister m'
unfolding run_operations
run_operations-IsRegister [] m m' a e = let same : m ≡ m' = cc in rw (← same) a
run_operations-IsRegister (op ∷ ops) m m' a e = elim (Option-cases (run_operation op m)) [
  | inl fails ↦ absurd (cc (rw fails at e))
  | inr (n, done) ↦
      run_operations-IsRegister ops n m' (run_operation-IsRegister op m n a done) (rw done at e)
]

-- After any operations, a call of create_connection that does not panic gives an id that the
-- register does not hold, and adds one entry, the new connection's.
pub create_connection_is_new :
    (config : ConnectionConfig) (ops : List Operation) (m : ConnectionManager)
    → run_operations ops (new_connection_manager config) ≡ some m
    → (asset stream : Text) (symbols : List Text) (t : ℤ) (m' : ConnectionManager) (id : Text)
    → create_connection asset stream symbols t m ≡ some (m', id)
    → (get_connection_status id m ≡ none)
      × (m'.connections ≡ m.connections ++ (id, new_status id asset stream symbols) ∷ [])
unfolding new_connection_manager get_connection_status
create_connection_is_new config ops m e asset stream symbols t m' id made =
    let a = run_operations-IsRegister ops (new_connection_manager config) m tt e in
    let (p, q, all) = create-new asset stream symbols t m m' id a made in (p, q)
