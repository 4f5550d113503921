-- ===== src/Synchronizer/Fetch.antt =====
-- Fetching a snapshot: at most three requests.
--
-- What the network answers to one request after another is a list of replies; JSON values are read
-- through the accessors of serde_json.
use Prim.Native.String.{String}
use text.Mathlib.Text.{◌==◌ as str_eq}
use trading_platform.Prelude.{
  ℕ, ◌+◌, ◌≤◌, ◌≡◌, refl, Bool, true, false, not, ◌||◌, Option, none, some, List, [], ◌∷◌, arith,
  leb, if◌then◌else◌, length, get_elem?, ◌>>=◌,
}
use trading_platform.Sequence.{Json}
use trading_platform.Synchronizer.{BinanceSnapshot, Synchronizer}

abbrev pub max_retries : ℕ
max_retries = 3

pub data Reply (Body : Type 0) : Type 0 where
  network_error unreadable : Reply Body
  http_error : ℕ → Reply Body
  response : Body → Reply Body

pub data FetchError : Type 0 where
  invalid_asset_type no_client bad_json missing_last_update_id missing_bids missing_asks :
      FetchError
  too_many_failures : FetchError
  http_status : ℕ → FetchError

pub data FetchResult : Type 0 where
  fetched : BinanceSnapshot → FetchResult
  not_fetched : FetchError → FetchResult

module _ (json : Json) where
  open json use {Value, get, as_u64, as_str, as_array}

  -- The price and the quantity of a level; other values are left out.
  abbrev pub read_pair : List Value → Option (String × String)
  read_pair arr = do
    first ← get_elem? arr 0
    price ← as_str first
    second ← get_elem? arr 1
    quantity ← as_str second
    some (price, quantity)

  abbrev pub read_level : Value → Option (String × String)
  read_level v = do arr ← as_array v; if leb 2 (length arr) then read_pair arr else none

  unfoldable pub read_levels : List Value → List (String × String)
  read_levels [] = []
  read_levels (v ∷ vs) =
      let rest = read_levels vs in elim (read_level v) [ none ↦ rest | some level ↦ level ∷ rest ]

  unfoldable pub read_snapshot : String → Value → FetchResult
  unfolding read_levels
  read_snapshot symbol body = elim (get body "lastUpdateId" >>= as_u64) [
    | none ↦ not_fetched missing_last_update_id
    | some last_update_id ↦ elim (get body "bids" >>= as_array) [
      | none ↦ not_fetched missing_bids
      | some bids ↦ elim (get body "asks" >>= as_array) [
        | none ↦ not_fetched missing_asks
        | some asks ↦ fetched (record {
          symbol = symbol;
          last_update_id = last_update_id;
          bids = read_levels bids;
          asks = read_levels asks;
        })
      ]
    ]
  ]

  module _ {Event : Type 0} where
    store_snapshot : FetchResult → Synchronizer Event → Synchronizer Event
    store_snapshot (fetched snapshot) s = record s { snapshot = some snapshot }
    store_snapshot (not_fetched e) s = s

    -- The loop, with the requests that have failed so far; none while a reply is still awaited.
    unfoldable pub fetch_loop :
        ℕ → List (Reply Value) → Synchronizer Event → Option (Synchronizer Event × FetchResult)
    unfolding read_snapshot store_snapshot
    fetch_loop retry_count [] s = none
    fetch_loop retry_count (network_error ∷ replies) s =
        let rest = fetch_loop (retry_count + 1) replies s in
        if leb max_retries (retry_count + 1) then some (s, not_fetched too_many_failures) else rest
    fetch_loop retry_count (http_error status ∷ replies) s =
        let rest = fetch_loop (retry_count + 1) replies s in
        if leb max_retries (retry_count + 1)
        then some (s, not_fetched (http_status status))
        else rest
    fetch_loop retry_count (unreadable ∷ replies) s = some (s, not_fetched bad_json)
    fetch_loop retry_count (response body ∷ replies) s =
        let result = read_snapshot s.symbol body in some (store_snapshot result s, result)

    -- `client_built` tells whether the HTTP client could be made.
    unfoldable pub fetch_snapshot :
        Bool → List (Reply Value) → Synchronizer Event → Option (Synchronizer Event × FetchResult)
    unfolding fetch_loop
    fetch_snapshot client_built replies s =
        if not (str_eq s.asset_type "spot" || str_eq s.asset_type "futures")
        then some (s, not_fetched invalid_asset_type)
        else if not client_built
        then some (s, not_fetched no_client)
        else fetch_loop 0 replies s

    -- What a result says of the state.
    abbrev pub Stores : Synchronizer Event → Synchronizer Event × FetchResult → Type 0
    Stores s (t, fetched snapshot) = t ≡ record s { snapshot = some snapshot }
    Stores s (t, not_fetched e) = t ≡ s

    store_snapshot_lem :
        (r : FetchResult) (s : Synchronizer Event) → Stores s (store_snapshot r s, r)
    unfolding store_snapshot
    store_snapshot_lem (fetched snapshot) s = refl
    store_snapshot_lem (not_fetched e) s = refl

    Ends : Option (Synchronizer Event × FetchResult) → Synchronizer Event → Type 0
    Ends o s = (p : Synchronizer Event × FetchResult) × (o ≡ some p) × Stores s p

    go_on-Ends :
        (late : Bool) (e : FetchError) (o : Option (Synchronizer Event × FetchResult))
        (s : Synchronizer Event)
        → (late ≡ false → Ends o s)
        → Ends (if late then some (s, not_fetched e) else o) s
    unfolding Ends
    go_on-Ends true e o s h = ((s, not_fetched e), refl, refl)
    go_on-Ends false e o s h = h refl

    fetch_loop-Ends :
        (retry_count : ℕ) (replies : List (Reply Value)) (s : Synchronizer Event)
        → max_retries ≤ retry_count + length replies
        → retry_count + 1 ≤ max_retries
        → Ends (fetch_loop retry_count replies s) s
    unfolding fetch_loop Ends
    fetch_loop-Ends n [] s h k = absurd (omega arith)
    fetch_loop-Ends n (network_error ∷ rs) s h k =
        go_on-Ends (leb max_retries (n + 1)) too_many_failures (fetch_loop (n + 1) rs s) s
          (λ e. fetch_loop-Ends (n + 1) rs s (omega arith) (ground arith))
    fetch_loop-Ends n (http_error status ∷ rs) s h k =
        go_on-Ends (leb max_retries (n + 1)) (http_status status) (fetch_loop (n + 1) rs s) s
          (λ e. fetch_loop-Ends (n + 1) rs s (omega arith) (ground arith))
    fetch_loop-Ends n (unreadable ∷ rs) s h k = ((s, not_fetched bad_json), refl, refl)
    fetch_loop-Ends n (response body ∷ rs) s h k =
        let r : FetchResult = read_snapshot s.symbol body in
        ((store_snapshot r s, r), refl, store_snapshot_lem r s)

    -- With three replies at hand a fetch ends: the snapshot that it returns has been stored and
    -- nothing else has changed, or it fails and nothing has changed.
    pub fetch_snapshot_ends :
        (client_built : Bool) (replies : List (Reply Value)) (s : Synchronizer Event)
        → max_retries ≤ length replies
        → (p : Synchronizer Event × FetchResult) × (fetch_snapshot client_built replies s ≡ some p)
          × Stores s p
    unfolding fetch_snapshot Ends
    fetch_snapshot_ends client_built replies s h =
        go_on-Ends (not (str_eq s.asset_type "spot" || str_eq s.asset_type "futures"))
          invalid_asset_type
          (if not client_built then some (s, not_fetched no_client) else fetch_loop 0 replies s) s
          (λ e.
            go_on-Ends (not client_built) no_client (fetch_loop 0 replies s) s
              (λ f. fetch_loop-Ends 0 replies s (omega arith) (omega arith)))
