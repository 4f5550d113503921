-- ===== src/ConnectionManager/Silent.antt =====
-- Connections that have had no message.
use trading_platform.Prelude.{
  ℕ, ◌*◌, ◌≡◌, ◌≢◌, inl, inr, refl, ap, ◌∙◌, Bool, true, false, Option, none, some, List, [], ◌∷◌,
  ◌++◌, arith, if◌then◌else◌, map_some, Bool-cases, Option-cases,
}
use trading_platform.Prelude.Dict.{lookup}
use trading_platform.Prelude.Bytes.{Text, text_eq}
use trading_platform.ConnectionManager.{
  ConnectionConfig, ConnectionStatus, ConnectionManager, new_connection_manager, create_connection,
  update_entry, set_connected, update_connection_status, count_message, record_message,
  count_attempt, increment_reconnect_attempts, get_connection_status, is_dead, retain_live,
  cleanup_dead_connections,
}
use trading_platform.ConnectionManager.Register.{
  Operation, create, set_status, message, attempt, clean_up, run_operation, run_operations,
  create-new,
}
use trading_platform.ConnectionManager.Runs.{
  IsRegister, run_operation-IsRegister, run_operations-IsRegister,
}

-- An entry that has had no message.
abbrev pub IsSilent : Text → ConnectionManager → Type 0
IsSilent id m =
    (s : ConnectionStatus) × (get_connection_status id m ≡ some s) × (s.last_message ≡ none)

abbrev pub NoMessageTo : Text → List Operation → Type 0
NoMessageTo id [] = Unit {0}
NoMessageTo id (message key now ∷ ops) = (key ≢ id) × NoMessageTo id ops
NoMessageTo id (create asset stream symbols t ∷ ops) = NoMessageTo id ops
NoMessageTo id (set_status key up error now ∷ ops) = NoMessageTo id ops
NoMessageTo id (attempt key ∷ ops) = NoMessageTo id ops
NoMessageTo id (clean_up now ∷ ops) = NoMessageTo id ops

lookup-update :
    (f : ConnectionStatus → ConnectionStatus) (k j : Text) (xs : List (Text × ConnectionStatus))
    → lookup j (update_entry f k xs)
      ≡ (if text_eq.beq k j then map_some f (lookup j xs) else lookup j xs)
unfolding lookup update_entry
lookup-update f k j [] = elim (Bool-cases (text_eq.beq k j)) [
  | inl same ↦ rw same refl
  | inr other ↦ rw other refl
]
lookup-update f k j ((i, s) ∷ xs) =
    ground
      (arith, text_eq.beq_iff k j, text_eq.beq_iff i k, text_eq.beq_iff i j, lookup-update f k j xs)

-- An update that leaves `last_message` alone leaves a silent entry silent.
update-IsSilent :
    (f : ConnectionStatus → ConnectionStatus) (k id : Text) (xs : List (Text × ConnectionStatus))
    (s : ConnectionStatus)
    → lookup id xs ≡ some s
    → s.last_message ≡ none
    → ((r : ConnectionStatus) → (f r).last_message ≡ r.last_message)
    → (s' : ConnectionStatus) × (lookup id (update_entry f k xs) ≡ some s')
      × (s'.last_message ≡ none)
update-IsSilent f k id xs s found silent keeps = elim (Bool-cases (text_eq.beq k id)) [
  | inl same ↦ (f s, lookup-update f k id xs ∙ rw (same, found) refl, keeps s ∙ silent)
  | inr other ↦ (s, lookup-update f k id xs ∙ rw (other, found) refl, silent)
]

set_connected-silent :
    (up : Bool) (error : Option Text) (now : ℕ) (r : ConnectionStatus)
    → (set_connected up error now r).last_message ≡ r.last_message
unfolding set_connected
set_connected-silent true error now r = refl
set_connected-silent false error now r = refl

count_attempt-silent : (r : ConnectionStatus) → (count_attempt r).last_message ≡ r.last_message
unfolding count_attempt
count_attempt-silent r = refl

lookup-append :
    (id : Text) (xs ys : List (Text × ConnectionStatus)) (s : ConnectionStatus)
    → lookup id xs ≡ some s
    → lookup id (xs ++ ys) ≡ some s
unfolding lookup
lookup-append id [] ys s h = cc
lookup-append id ((k, r) ∷ xs) ys s h = elim (Bool-cases (text_eq.beq k id)) [
  | inl same ↦ rw same (rw same at h)
  | inr other ↦ rw other (lookup-append id xs ys s (rw other at h))
]

silent-live :
    (timeout now : ℕ) (s : ConnectionStatus) → s.last_message ≡ none → is_dead timeout now s ≡ false
unfolding is_dead
silent-live timeout now s h = ground (arith, h)

lookup-retain :
    (timeout now : ℕ) (id : Text) (xs : List (Text × ConnectionStatus)) (s : ConnectionStatus)
    → lookup id xs ≡ some s
    → s.last_message ≡ none
    → lookup id (retain_live timeout now xs) ≡ some s
unfolding lookup retain_live
lookup-retain timeout now id [] s h silent = cc
lookup-retain timeout now id ((k, r) ∷ xs) s h silent = elim (Bool-cases (text_eq.beq k id)) [
  | inl same ↦
      let e : r ≡ s = cc (rw same at h) in
      let live : is_dead timeout now r ≡ false = rw e (silent-live timeout now s silent) in
      rw (live, same) (ap some e)
  | inr other ↦
      let ih = lookup-retain timeout now id xs s (rw other at h) silent in
      elim (Bool-cases (is_dead timeout now r)) [
        | inl dead ↦ rw dead ih
        | inr live ↦ rw (live, other) ih
      ]
]

NoMessageTo-split :
    (id : Text) (op : Operation) (ops : List Operation)
    → NoMessageTo id (op ∷ ops)
    → NoMessageTo id (op ∷ []) × NoMessageTo id ops
NoMessageTo-split id (create asset stream symbols t) ops h = (tt, h)
NoMessageTo-split id (set_status k up error now) ops h = (tt, h)
NoMessageTo-split id (message k now) ops h = ((h.0, tt), h.1)
NoMessageTo-split id (attempt k) ops h = (tt, h)
NoMessageTo-split id (clean_up now) ops h = (tt, h)

run_operation-IsSilent :
    (op : Operation) (id : Text) (m m' : ConnectionManager)
    → IsRegister m
    → IsSilent id m
    → NoMessageTo id (op ∷ [])
    → run_operation op m ≡ some m'
    → IsSilent id m'
unfolding run_operation update_connection_status record_message increment_reconnect_attempts
    cleanup_dead_connections get_connection_status
run_operation-IsSilent (create asset stream symbols t) id m m' a (s, found, silent) quiet e =
    elim (Option-cases (create_connection asset stream symbols t m)) [
      | inl full ↦ absurd (cc (rw full at e))
      | inr ((n, new), made) ↦
          let (p, q, all) = create-new asset stream symbols t m n new a made in
          let same : n ≡ m' = cc in
          (s, rw (← same, q) (lookup-append id m.connections _ s found), silent)
    ]
run_operation-IsSilent (set_status k up error now) id m m' a (s, found, silent) quiet e =
    let same : update_connection_status k up error now m ≡ m' = cc in
    rw (← same) (
      update-IsSilent (set_connected up error now) k id m.connections s found silent
        (set_connected-silent up error now))
run_operation-IsSilent (message k now) id m m' a (s, found, silent) quiet e =
    let same : record_message k now m ≡ m' = cc in
    let other : text_eq.beq k id ≡ false = ground (arith, text_eq.beq_iff k id, quiet.0) in
    (
      s,
      rw (← same) (lookup-update (count_message now) k id m.connections ∙ rw (other, found) refl),
      silent,
    )
run_operation-IsSilent (attempt k) id m m' a (s, found, silent) quiet e =
    let same : increment_reconnect_attempts k m ≡ m' = cc in
    rw (← same)
      (update-IsSilent count_attempt k id m.connections s found silent count_attempt-silent)
run_operation-IsSilent (clean_up now) id m m' a (s, found, silent) quiet e =
    let same : cleanup_dead_connections now m ≡ m' = cc in
    (
      s,
      rw (← same) (
          lookup-retain (m.config.connection_timeout_seconds * 2 * 1000000000) now id m.connections
            s found silent),
      silent,
    )

run_operations-IsSilent :
    (ops : List Operation) (id : Text) (m m' : ConnectionManager)
    → IsRegister m
    → IsSilent id m
    → NoMessageTo id ops
    → run_operations ops m ≡ some m'
    → IsSilent id m'
unfolding run_operations
run_operations-IsSilent [] id m m' a s quiet e = let same : m ≡ m' = cc in rw (← same) s
run_operations-IsSilent (op ∷ ops) id m m' a s quiet e = elim (Option-cases (run_operation op m)) [
  | inl fails ↦ absurd (cc (rw fails at e))
  | inr (n, done) ↦
      let (now, later) = NoMessageTo-split id op ops quiet in
      run_operations-IsSilent ops id n m' (run_operation-IsRegister op m n a done)
        (run_operation-IsSilent op id m n a s now done) later (rw done at e)
]

-- A connection that has had no message stays in the register, whatever is done and whenever
-- cleanups run, as long as no message is recorded for it: it is never taken for dead.
pub connection_kept-IsSilent :
    (config : ConnectionConfig) (before after : List Operation) (m m' : ConnectionManager)
    (id : Text)
    → run_operations before (new_connection_manager config) ≡ some m
    → IsSilent id m
    → NoMessageTo id after
    → run_operations after m ≡ some m'
    → IsSilent id m'
unfolding new_connection_manager
connection_kept-IsSilent config before after m m' id e s quiet e' =
    let a = run_operations-IsRegister before (new_connection_manager config) m tt e in
    run_operations-IsSilent after id m m' a s quiet e'
