-- ===== src/Synchronizer.antt =====
-- crates/feeder/src/crypto/feed/binance_snapshot.rs: joining the events of Binance's depth stream
-- to a snapshot.
--
-- The fields that the source keeps under locks are plain fields, and each operation runs as a whole.
-- The body of an event is of any type.
pub mod Fetch
pub mod Buffer
pub mod Ready
pub mod Chain
mod Tests
use Prim.Native.String.{String}
use trading_platform.Prelude.{
  ℕ, ◌+◌, Bool, true, false, not, ◌&&◌, Option, none, some, List, [], ◌∷◌, ◌++◌, ◌==◌, ltb, leb,
  if◌then◌else◌, length, drop,
}

pub record BinanceSnapshot : Type 0 where
  pub symbol : String
  pub last_update_id : ℕ
  pub bids : List (String × String)
  pub asks : List (String × String)

pub record BufferedDepthEvent (Value : Type 0) : Type 0 where
  pub first_update_id : ℕ
  pub final_update_id : ℕ
  pub prev_update_id : Option ℕ
  pub content : Value

pub record BinanceOrderbookSynchronizer (Value : Type 0) : Type 0 where
  pub symbol : String
  pub asset_type : String
  pub snapshot : Option BinanceSnapshot
  pub event_buffer : List (BufferedDepthEvent Value)
  pub is_synchronized : Bool
  pub last_validated_update_id : ℕ

abbrev pub max_events : ℕ
max_events = 10000

-- The messages of the source's errors.
pub data SyncError : Type 0 where
  no_snapshot no_valid_events no_overlap : SyncError
  sequence_gap : ℕ → ℕ → SyncError

pub data SyncResult (A : Type 0) : Type 0 where
  synced : A → SyncResult A
  failed : SyncError → SyncResult A

abbrev pub Event : Type 0 → Type 0
Event Value = BufferedDepthEvent Value

abbrev pub Synchronizer : Type 0 → Type 0
Synchronizer Value = BinanceOrderbookSynchronizer Value

module _ {Value : Type 0} where
  unfoldable pub new_synchronizer : String → String → Synchronizer Value
  new_synchronizer symbol asset_type = record {
    symbol = symbol;
    asset_type = asset_type;
    snapshot = none;
    event_buffer = [];
    is_synchronized = false;
    last_validated_update_id = 0;
  }

  unfoldable pub buffer_event : Event Value → Synchronizer Value → Synchronizer Value
  buffer_event event s =
      let room =
        if leb max_events (length s.event_buffer) then drop 1 s.event_buffer else s.event_buffer in
      record s { event_buffer = room ++ event ∷ [] }

  -- `retain(|event| event.final_update_id > last_update_id)`
  abbrev pub retain_newer : ℕ → List (Event Value) → List (Event Value)
  retain_newer last_update_id [] = []
  retain_newer last_update_id (e ∷ es) =
      if ltb last_update_id e.final_update_id
      then e ∷ retain_newer last_update_id es
      else retain_newer last_update_id es

  -- Whether an event follows the number before it; one without `pu` always does.
  abbrev pub follows : ℕ → Event Value → Bool
  follows prev e = elim (e.prev_update_id) [ none ↦ true | some pu ↦ pu == prev ]

  abbrev pub number_before : ℕ → Event Value → ℕ
  number_before prev e = elim (e.prev_update_id) [ none ↦ prev | some pu ↦ pu ]

  -- The loop over the drained buffer: the bodies, and the number of the last event.
  unfoldable pub check_events : ℕ → List (Event Value) → SyncResult (List Value × ℕ)
  check_events prev [] = synced ([], prev)
  check_events prev (e ∷ es) =
      let rest = check_events e.final_update_id es in
      if follows prev e
      then (elim rest [
        | synced (values, last) ↦ synced (e.content ∷ values, last)
        | failed r ↦ failed r
      ])
      else failed (sequence_gap prev (number_before prev e))

  unfoldable pub synchronize : Synchronizer Value → Synchronizer Value × SyncResult (List Value)
  unfolding check_events
  synchronize s = elim (s.snapshot) [
    | none ↦ (s, failed no_snapshot)
    | some snapshot ↦
        let last_update_id = snapshot.last_update_id in
        let cleared = record s { event_buffer = [] } in
        elim (retain_newer last_update_id s.event_buffer) [
          | [] ↦ (cleared, failed no_valid_events)
          | first ∷ es ↦
              if leb first.first_update_id last_update_id
                && leb last_update_id first.final_update_id
              then (elim (check_events last_update_id (first ∷ es)) [
                | failed r ↦ (cleared, failed r)
                | synced (values, last) ↦ (
                  record cleared { is_synchronized = true; last_validated_update_id = last },
                  synced values,
                )
              ])
              else (cleared, failed no_overlap)
        ]
  ]

  unfoldable pub validate_event : Event Value → Synchronizer Value → Synchronizer Value × Bool
  validate_event e s =
      if not s.is_synchronized
      then (s, false)
      else if follows s.last_validated_update_id e
      then (record s { last_validated_update_id = e.final_update_id }, true)
      else (record s { is_synchronized = false }, false)

  unfoldable pub needs_sync : Synchronizer Value → Bool
  needs_sync s = not s.is_synchronized
