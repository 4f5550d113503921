-- ===== src/ConnectionManager/Register.antt =====
-- What the register holds after any operations.
use trading_platform.Prelude.{
  ℕ, ◌+◌, ◌^◌, ◌≤◌, ◌<◌, ◌≡◌, inl, inr, refl, sym, ◌∙◌, Bool, Option, none, some, List, [], ◌∷◌,
  ◌++◌, arith, ltb, ◌>>=◌, map_some, Bool-cases,
}
use trading_platform.Prelude.Int.{ℤ}
use trading_platform.Prelude.Dict.{lookup, insert}
use trading_platform.Prelude.Bytes.{Text, text_eq}
use trading_platform.ConnectionManager.{
  ConnectionStatus, ConnectionManager, connection_id_of, new_status, create_connection,
  update_entry, update_connection_status, record_message, increment_reconnect_attempts, is_dead,
  retain_live, cleanup_dead_connections,
}
use trading_platform.ConnectionManager.Ids.{count_of_id}

pub data Operation : Type 0 where
  create : Text → Text → List Text → ℤ → Operation
  set_status : Text → Bool → Option Text → ℕ → Operation
  message : Text → ℕ → Operation
  attempt : Text → Operation
  clean_up : ℕ → Operation

unfoldable pub run_operation : Operation → ConnectionManager → Option ConnectionManager
run_operation (create asset stream symbols t) m =
    map_some (λ p. p.0) (create_connection asset stream symbols t m)
run_operation (set_status id up error now) m = some (update_connection_status id up error now m)
run_operation (message id now) m = some (record_message id now m)
run_operation (attempt id) m = some (increment_reconnect_attempts id m)
run_operation (clean_up now) m = some (cleanup_dead_connections now m)

unfoldable pub run_operations : List Operation → ConnectionManager → Option ConnectionManager
run_operations [] m = some m
run_operations (op ∷ ops) m = run_operation op m >>= run_operations ops

-- The id was given out for one of the first `count` connections.
abbrev pub Issued : ℕ → Text → Type 0
Issued count id =
    (asset : Text) × (stream : Text) × (k : ℕ) × (t : ℤ) × (k ≤ count)
    × (id ≡ connection_id_of asset stream k t)

abbrev pub AllIssued : ℕ → List (Text × ConnectionStatus) → Type 0
AllIssued count [] = Unit {0}
AllIssued count (entry ∷ rest) = Issued count entry.0 × AllIssued count rest

AllIssued-mono :
    (m n : ℕ) (xs : List (Text × ConnectionStatus)) → m ≤ n → AllIssued m xs → AllIssued n xs
AllIssued-mono m n [] h a = tt
AllIssued-mono m n (x ∷ xs) h ((asset, stream, k, t, l, e), a) =
    ((asset, stream, k, t, omega arith, e), AllIssued-mono m n xs h a)

pub AllIssued-update :
    (f : ConnectionStatus → ConnectionStatus) (id : Text) (n : ℕ)
    (xs : List (Text × ConnectionStatus))
    → AllIssued n xs
    → AllIssued n (update_entry f id xs)
unfolding update_entry
AllIssued-update f id n [] a = tt
AllIssued-update f id n ((key, s) ∷ xs) a = elim (Bool-cases (text_eq.beq key id)) [
  | inl same ↦ rw same a
  | inr other ↦ rw other (a.0, AllIssued-update f id n xs a.1)
]

pub AllIssued-retain :
    (timeout now n : ℕ) (xs : List (Text × ConnectionStatus))
    → AllIssued n xs
    → AllIssued n (retain_live timeout now xs)
unfolding retain_live
AllIssued-retain timeout now n [] a = tt
AllIssued-retain timeout now n (x ∷ xs) a = elim (Bool-cases (is_dead timeout now x.1)) [
  | inl dead ↦ rw dead (AllIssued-retain timeout now n xs a.1)
  | inr live ↦ rw live (a.0, AllIssued-retain timeout now n xs a.1)
]

-- An id of a later count is not among them.
lookup-new :
    (asset stream : Text) (n : ℕ) (t : ℤ) (xs : List (Text × ConnectionStatus))
    → n + 1 < 2 ^ 32
    → AllIssued n xs
    → lookup (connection_id_of asset stream (n + 1) t) xs ≡ none
unfolding lookup
lookup-new asset stream n t [] h a = refl
lookup-new asset stream n t ((key, s) ∷ xs) h ((asset', stream', k, t', l, e), a) =
    let id : Text = connection_id_of asset stream (n + 1) t in
    elim (Bool-cases (text_eq.beq key id)) [
      | inl same ↦
          let p : key ≡ id = (text_eq.beq_iff key id).0 same in
          absurd (
            omega (
              arith,
              count_of_id asset' stream' asset stream k (n + 1) t' t (omega arith) h (sym e ∙ p),
            ))
      | inr other ↦ rw other (lookup-new asset stream n t xs h a)
    ]

pub insert-new :
    (id : Text) (s : ConnectionStatus) (xs : List (Text × ConnectionStatus))
    → lookup id xs ≡ none
    → insert id s xs ≡ xs ++ (id, s) ∷ []
unfolding lookup insert
insert-new id s [] h = refl
insert-new id s ((key, s') ∷ xs) h = elim (Bool-cases (text_eq.beq key id)) [
  | inl same ↦ absurd (cc (rw same at h))
  | inr other ↦ rw (other, insert-new id s xs (rw other at h)) refl
]

AllIssued-append :
    (n : ℕ) (xs ys : List (Text × ConnectionStatus))
    → AllIssued n xs
    → AllIssued n ys
    → AllIssued n (xs ++ ys)
AllIssued-append n [] ys a b = b
AllIssued-append n (x ∷ xs) ys a b = (a.0, AllIssued-append n xs ys a.1 b)

-- A call that succeeds gives an id that is new, and adds one entry.
pub create-new :
    (asset stream : Text) (symbols : List Text) (t : ℤ) (m m' : ConnectionManager) (id : Text)
    → AllIssued m.connection_count m.connections
    → create_connection asset stream symbols t m ≡ some (m', id)
    → (lookup id m.connections ≡ none)
      × (m'.connections ≡ m.connections ++ (id, new_status id asset stream symbols) ∷ [])
      × AllIssued m'.connection_count m'.connections
unfolding create_connection
create-new asset stream symbols t m m' id a e =
    let n = m.connection_count in
    let id' : Text = connection_id_of asset stream (n + 1) t in
    elim (Bool-cases (ltb (n + 1) (2 ^ 32))) [
      | inr full ↦ absurd (cc (rw full at e))
      | inl room ↦
          let fresh = lookup-new asset stream n t m.connections (ground arith) a in
          let added = insert-new id' (new_status id' asset stream symbols) m.connections fresh in
          let e' = rw room at e in
          let same : id' ≡ id = cc in
          let entries : m'.connections
              ≡ insert id' (new_status id' asset stream symbols) m.connections =
            cc in
          let number : m'.connection_count ≡ n + 1 = cc in
          let all : AllIssued (n + 1)
              (m.connections ++ (id', new_status id' asset stream symbols) ∷ []) =
            AllIssued-append (n + 1) m.connections _
              (AllIssued-mono n (n + 1) m.connections (omega arith) a)
              ((asset, stream, n + 1, t, omega arith, refl), tt) in
          (rw (← same) fresh, rw (← same) (entries ∙ added), rw (number, entries ∙ added) all)
    ]
