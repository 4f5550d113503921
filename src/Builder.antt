-- ===== src/Builder.antt =====
-- crates/matching-engine/src/orderbook_builder.rs: the state machine that keeps one order book in
-- step with a feed of updates.
--
-- `step` is one round of the loop of `run`. The channel of updates is `inbox` with `closed`; what
-- other tasks send between two rounds is appended to it. Instants are milliseconds, given to each
-- round; sleeping only lets them grow. The locks are never held across rounds and only `run`
-- writes, so the shared cells are plain fields. Counters wrap at 2^64, as in a release
-- build. A sort of two or more levels panics if a price is NaN, which ends the task. The REST
-- snapshot code is commented out in the source, and nothing calls the sequence extractor.
pub mod Safety
pub mod Prices
pub mod Live
pub mod Stuck
mod Tests
use Prim.Native.String.{String}
use trading_platform.Prelude.{
  ℕ, zero, suc, ◌+◌, ◌-◌, ◌%◌, ◌^◌, Bool, true, false, not, ◌&&◌, Option, none, some, List, [], ◌∷◌,
  ◌++◌, ◌==◌, ltb, leb, if◌then◌else◌, length, drop, map_some, ◌>>=◌,
}
use trading_platform.Floats.{Floats}
use trading_platform.Prices.{comparable}
use trading_platform.BuilderState.{
  max_buffer_size, snapshot_timeout, max_resync_attempts, ResyncReason, sequence_gap,
  checksum_mismatch, crossed_book, timeout, manual_request, initial_sync, ErrorMessage,
  snapshot_failed, resync_failed, OrderBookState, uninitialized, buffering, fetching_snapshot,
  initializing, live, resyncing, error, OrderBookStats, OrderBookBuilder, Round, running, waiting,
  stopped, panicked, inc,
}
use trading_platform.MarketTypes.{Exchange, PriceLevel, OrderBookUpdate, OrderBook, new_order_book}

module _ (floats : Floats) where
  open floats use {F, literal, epsilon, sub, abs, lt}

  -- `levels.retain(|l| (l.price - level.price).abs() > f64::EPSILON)`
  unfoldable pub retain_other : F → List (PriceLevel F) → List (PriceLevel F)
  retain_other p [] = []
  retain_other p (l ∷ ls) =
      if lt epsilon (abs (sub l.price p)) then l ∷ retain_other p ls else retain_other p ls

  unfoldable pub merge_levels : List (PriceLevel F) → List (PriceLevel F) → List (PriceLevel F)
  unfolding retain_other
  merge_levels book [] = book
  merge_levels book (l ∷ ls) =
      let kept = retain_other l.price book in
      merge_levels (if lt (literal 0) l.quantity then kept ++ l ∷ [] else kept) ls

  -- The stable sort of the standard library, by a strict comparison of prices. It compares each
  -- of two or more levels with another; `none` is the panic of `unwrap` on a NaN.
  module _ (before : F → F → Bool) where
    unfoldable pub insert_level : PriceLevel F → List (PriceLevel F) → Option (List (PriceLevel F))
    insert_level l [] = some (l ∷ [])
    insert_level l (m ∷ ls) =
        let rest = insert_level l ls in
        if comparable floats m.price l.price
        then (if before m.price l.price then map_some (λ ms. m ∷ ms) rest else some (l ∷ m ∷ ls))
        else none

    unfoldable pub sort_levels : List (PriceLevel F) → Option (List (PriceLevel F))
    unfolding insert_level
    sort_levels [] = some []
    sort_levels (l ∷ ls) = sort_levels ls >>= insert_level l

  -- `apply_update` on the book; `none` is a panic.
  unfoldable pub apply_to_book : OrderBook F → OrderBookUpdate F → Option (OrderBook F)
  unfolding merge_levels sort_levels
  apply_to_book book u =
      let counted : OrderBook F = record book {
        last_update_id = u.update_id;
        timestamp = u.timestamp;
        update_count = inc book.update_count;
      } in
      if u.is_snapshot then some (record counted { bids = u.bids; asks = u.asks }) else (do
        bids ← sort_levels (λ a b. lt b a) (merge_levels book.bids u.bids)
        asks ← sort_levels lt (merge_levels book.asks u.asks)
        some (record counted { bids = bids; asks = asks }))

  abbrev Builder : Type 0
  Builder = OrderBookBuilder F

  unfoldable pub apply_update : Builder → OrderBookUpdate F → Option Builder
  unfolding apply_to_book
  apply_update b u = map_some (λ book. record b { orderbook = book }) (apply_to_book b.orderbook u)

  -- A round that goes on unless there was a panic.
  abbrev pub or_panic {ℓ} : {A : Type ℓ} → Option A → (A → Round F) → Round F
  or_panic none k = panicked
  or_panic (some a) k = k a

  abbrev set_state : OrderBookState F → Builder → Builder
  set_state s b = record b { state = s }

  unfoldable pub trigger_resync : ℕ → ResyncReason → Builder → Builder
  trigger_resync now reason b = record b {
    state = resyncing reason 1 now;
    stats = record (b.stats) {
      gaps_detected = inc b.stats.gaps_detected;
      resyncs_triggered = inc b.stats.resyncs_triggered;
    };
  }

  unfoldable pub fetch_snapshot : List (OrderBookUpdate F) → Builder → Builder
  fetch_snapshot buffered b = record b {
    state = fetching_snapshot buffered 1;
    stats = record (b.stats) { resyncs_triggered = inc b.stats.resyncs_triggered };
  }

  -- The buffer was taken from the state `buffering buffer started_at`.
  unfoldable pub handle_buffering_update :
      OrderBookUpdate F → List (OrderBookUpdate F) → ℕ → Builder → Builder
  unfolding fetch_snapshot
  handle_buffering_update u buffer started_at b =
      let room = if leb max_buffer_size (length buffer) then drop 100 buffer else buffer in
      let buffer' = room ++ u ∷ [] in
      let b' = set_state (buffering buffer' started_at) b in
      if (length buffer' == 1) && u.is_snapshot then fetch_snapshot buffer' b' else b'

  -- The end of a round that does not `continue`.
  abbrev finish : ℕ → Builder → Round F
  finish now b = running (record b { stats = record (b.stats) { uptime = now - b.start_time } })

  unfoldable pub step_buffering :
      ℕ → List (OrderBookUpdate F) → ℕ → List (OrderBookUpdate F) → Builder → Round F
  unfolding trigger_resync handle_buffering_update fetch_snapshot
  step_buffering now buffer started_at inbox b =
      if ltb snapshot_timeout (now - started_at)
      then running (trigger_resync now timeout b)
      else elim inbox [
        | u ∷ us ↦
            finish now (handle_buffering_update u buffer started_at (record b { inbox = us }))
        | [] ↦ if b.closed then stopped b else (elim buffer [
          | [] ↦ finish now b
          | u ∷ us ↦ finish now (fetch_snapshot (u ∷ us) b)
        ])
      ]

  unfoldable pub step_fetching : ℕ → List (OrderBookUpdate F) → ℕ → Builder → Round F
  unfolding apply_update
  step_fetching now buffered attempt b =
      if ltb max_resync_attempts attempt
      then running (set_state (error snapshot_failed true) b)
      else elim buffered [
        | [] ↦ finish now b
        | u ∷ us ↦
            if u.is_snapshot
            then or_panic (apply_update b u)
                (λ b'. finish now (set_state (live u.update_id now 1) b'))
            else finish now b
      ]

  -- The loop of the `Initializing` arm; the number is the updates applied so far.
  unfoldable pub apply_newer : ℕ → List (OrderBookUpdate F) → Builder → ℕ → Option (Builder × ℕ)
  unfolding apply_update
  apply_newer snapshot_seq [] b applied = some (b, applied)
  apply_newer snapshot_seq (u ∷ us) b applied =
      let newer = ltb snapshot_seq u.update_id in
      (if newer then apply_update b u else some b) >>= λ b'.
      apply_newer snapshot_seq us b' (if newer then inc applied else applied)

  unfoldable pub step_initializing : ℕ → ℕ → List (OrderBookUpdate F) → Builder → Round F
  unfolding apply_newer
  step_initializing now snapshot_seq buffered b =
      or_panic (apply_newer snapshot_seq buffered b 0) (λ (b', applied). finish now (record b' {
        state = live b'.orderbook.last_update_id now applied;
        sent = b'.sent ++ b'.orderbook ∷ [];
      }))

  -- The test for a gap in the `Live` arm.
  unfoldable pub live_gap : ℕ → OrderBookUpdate F → Bool
  live_gap last_seq u =
      (not u.is_snapshot)
      && (not (u.update_id == inc last_seq))
      && (if ltb 0 u.first_update_id
          then not (u.first_update_id == inc last_seq)
          else not (u.update_id == inc last_seq))

  unfoldable pub step_live : ℕ → ℕ → ℕ → List (OrderBookUpdate F) → Builder → Round F
  unfolding live_gap trigger_resync apply_update
  step_live now last_seq updates_since_sync [] b = if b.closed then stopped b else waiting b
  step_live now last_seq updates_since_sync (u ∷ us) b =
      let b₀ : Builder = record b { inbox = us } in
      if live_gap last_seq u
      then running (trigger_resync now (sequence_gap (inc last_seq) u.update_id) b₀)
      else or_panic (apply_update b₀ u) (λ b₁. finish now (record b₁ {
        state = live u.update_id now (inc updates_since_sync);
        sent = if updates_since_sync % 100 == 0 then b₁.sent ++ b₁.orderbook ∷ [] else b₁.sent;
        stats = record (b₁.stats) {
          total_updates = inc b₁.stats.total_updates;
          last_update_time = some now;
        };
      }))

  unfoldable pub step_resyncing : ℕ → ResyncReason → ℕ → Builder → Round F
  step_resyncing now reason attempt b =
      if ltb max_resync_attempts attempt
      then running (set_state (error (resync_failed reason) true) b)
      else finish now (set_state (buffering [] now) b)

  unfoldable pub step_in : OrderBookState F → ℕ → Builder → Round F
  unfolding step_buffering step_fetching step_initializing step_live step_resyncing
  step_in uninitialized now b = finish now (set_state (buffering [] now) b)
  step_in (buffering buffer started_at) now b = step_buffering now buffer started_at b.inbox b
  step_in (fetching_snapshot buffered attempt) now b = step_fetching now buffered attempt b
  step_in (initializing seq buffered) now b = step_initializing now seq buffered b
  step_in (live last_seq last_update updates) now b = step_live now last_seq updates b.inbox b
  step_in (resyncing reason attempt started_at) now b = step_resyncing now reason attempt b
  step_in (error message can_retry) now b =
      if can_retry then finish now (set_state uninitialized b) else stopped b

  unfoldable pub step : ℕ → Builder → Round F
  unfolding step_in
  step now b = step_in b.state now b

  -- `new`, and the start of `run`.
  unfoldable pub new_builder : String → Exchange → Builder
  unfolding new_order_book
  new_builder symbol exchange = record {
    symbol = symbol;
    exchange = exchange;
    state = uninitialized;
    orderbook = new_order_book symbol exchange;
    stats = record {
      total_updates = 0;
      gaps_detected = 0;
      resyncs_triggered = 0;
      successful_resyncs = 0;
      failed_resyncs = 0;
      last_update_time = none;
      uptime = 0;
    };
    inbox = [];
    closed = false;
    sent = [];
    start_time = 0;
  }

  unfoldable pub start_run : ℕ → Builder → Builder
  start_run now b = record b { state = buffering [] now; start_time = now }
