-- ===== src/History/Feed.antt =====
-- A feed in the order of time, taken by the histories of books, trades and order events.
use trading_platform.Prelude.{
  ◌≡◌, inl, inr, refl, sym, ◌∙◌, Option, none, some, List, [], ◌∷◌, arith, if◌then◌else◌,
  Bool-cases, Option-cases, ap, refl, ◌>>=◌,
}
use trading_platform.Prelude.Int.{ℤ, pos, negsuc, ◌-ℤ◌, ◌*ℤ◌, ◌≤ℤ◌, ltb_ℤ}
use trading_platform.MarketTypes.{OrderBook, OrderEvent, Trade}
use trading_platform.History.{
  back, since, micros, cutoff_of, find_back, OrderBookHistory, TradeHistory, OrderEventHistory,
  book_time, event_timestamp, new_book_history, new_event_history, add_snapshot, add_trade,
  add_order_event, get_book_at, events_since,
}
use trading_platform.History.Window.{
  sub_parts, AllFrom, InOrder, window, push_all, push_all-empty, back-none, back-window,
  since-since, since-all, AllFrom-weaken,
}

scale_le : (a b : ℤ) → a ≤ℤ b → (a *ℤ pos 1000) ≤ℤ (b *ℤ pos 1000)
unfolding ◌*ℤ◌
scale_le (pos a) (pos b) h = ground arith
scale_le (pos a) (negsuc b) h = ground arith
scale_le (negsuc a) (pos b) h = ground arith
scale_le (negsuc a) (negsuc b) h = ground arith

scale_pos : (a : ℤ) → pos 0 ≤ℤ a → pos 0 ≤ℤ (a *ℤ pos 1000)
unfolding ◌*ℤ◌
scale_pos (pos a) h = ground arith
scale_pos (negsuc a) h = ground arith

-- So many milliseconds fit an i64 as microseconds.
abbrev pub FitsMicros : ℤ → Type 0
FitsMicros ms = (negsuc 9_223_372_036_854_774 ≤ℤ ms) × (ms ≤ℤ pos 9_223_372_036_854_775)

micros-some : (ms : ℤ) → FitsMicros ms → micros ms ≡ some (ms *ℤ pos 1000)
unfolding micros ◌*ℤ◌
micros-some (pos n) h = ground arith
micros-some (negsuc n) h = ground arith

module _ {E : Type 0} (time : E → ℤ) where
  -- What is not too old.
  abbrev pub unless_older : ℤ → Option E → Option E
  unless_older cutoff none = none
  unless_older cutoff (some e) = if ltb_ℤ (time e) cutoff then none else some e

  find_back-AllFrom :
      (c target : ℤ) (es : List E)
      → AllFrom time c es
      → unless_older c (find_back time target es) ≡ find_back time target es
  unfolding find_back
  find_back-AllFrom c target [] a = refl
  find_back-AllFrom c target (e ∷ es) (b, a) = ground (arith, b, find_back-AllFrom c target es a)

  -- In order, a search among the recent elements finds what a search among all finds, if recent.
  find_back-since :
      (c target : ℤ) (es : List E)
      → InOrder time es
      → find_back time target (since time c es) ≡ unless_older c (find_back time target es)
  unfolding find_back since
  find_back-since c target [] o = refl
  find_back-since c target (e ∷ es) (a, o) = elim (Bool-cases (ltb_ℤ (time e) c)) [
    | inl h ↦ ground (arith, h, find_back-since c target es o)
    | inr h ↦
        let b : AllFrom time c (e ∷ es) =
          (ground arith, AllFrom-weaken time c (time e) es (ground arith) a) in
        rw (since-all time c (e ∷ es) b) (sym (find_back-AllFrom c target (e ∷ es) b))
  ]

  -- The time so many milliseconds before the last element.
  abbrev pub last_less : ℤ → List E → ℤ
  last_less lookback_ms es = elim (back es) [
    | none ↦ pos 0
    | some e ↦ time e -ℤ lookback_ms *ℤ pos 1000
  ]

  cutoff_of-last :
      (k : ℤ) (es : List E) → FitsMicros k → cutoff_of time k es ≡ some (last_less k es)
  unfolding cutoff_of
  cutoff_of-last k es f = elim (Option-cases (back es)) [
    | inl e ↦ rw (e, last_less) refl
    | inr (l, e) ↦ rw (e, last_less, micros-some k f) refl
  ]

  last_less-back :
      (lookback_ms : ℤ) (es : List E) (l : E)
      → back es ≡ some l
      → last_less lookback_ms es ≡ (time l -ℤ lookback_ms *ℤ pos 1000)
  last_less-back k es l e = rw (e, last_less) refl

  since-window_of_some :
      (lookback lookback_ms : ℤ) (es : List E) (l : E)
      → InOrder time es
      → pos 0 ≤ℤ lookback
      → (lookback_ms *ℤ pos 1000) ≤ℤ lookback
      → back es ≡ some l
      → since time (last_less lookback_ms (window time lookback es)) (window time lookback es)
        ≡ since time (last_less lookback_ms es) es
  unfolding window since
  since-window_of_some lookback k es l o h i e =
      let a = sub_parts (time l) lookback in
      let b = sub_parts (time l) (k *ℤ pos 1000) in
      let w = back-window time lookback es o h in
      rw (last_less-back k (window time lookback es) l (w ∙ e), last_less-back k es l e, window, e)
        (since-since time (time l -ℤ lookback) (time l -ℤ k *ℤ pos 1000) es (omega arith))

  since-window :
      (lookback lookback_ms : ℤ) (es : List E)
      → InOrder time es
      → pos 0 ≤ℤ lookback
      → (lookback_ms *ℤ pos 1000) ≤ℤ lookback
      → since time (last_less lookback_ms (window time lookback es)) (window time lookback es)
        ≡ since time (last_less lookback_ms es) es
  unfolding window since
  since-window lookback k [] o h i = refl
  since-window lookback k (d ∷ es) o h i = elim (Option-cases (back (d ∷ es))) [
    | inl e ↦ absurd (back-none d es e)
    | inr (l, e) ↦ since-window_of_some lookback k (d ∷ es) l o h i e
  ]

module _ {F : Type 0} where
  unfoldable pub add_snapshots : OrderBookHistory F → List (OrderBook F) → OrderBookHistory F
  unfolding add_snapshot
  add_snapshots h [] = h
  add_snapshots h (book ∷ books) = add_snapshots (add_snapshot h book) books

  unfoldable pub add_trades : TradeHistory F → List (Trade F) → TradeHistory F
  unfolding add_trade
  add_trades h [] = h
  add_trades h (trade ∷ trades) = add_trades (add_trade h trade) trades

  unfoldable pub add_order_events : OrderEventHistory F → List (OrderEvent F) → OrderEventHistory F
  unfolding add_order_event
  add_order_events h [] = h
  add_order_events h (event ∷ events) = add_order_events (add_order_event h event) events

  add_snapshots_lem :
      (h : OrderBookHistory F) (books : List (OrderBook F))
      → add_snapshots h books
        ≡ record h { snapshots = push_all book_time h.max_lookback_micros h.snapshots books }
  unfolding add_snapshots push_all add_snapshot
  add_snapshots_lem h [] = refl
  add_snapshots_lem h (book ∷ books) = add_snapshots_lem (add_snapshot h book) books

  add_order_events_lem :
      (h : OrderEventHistory F) (events : List (OrderEvent F))
      → add_order_events h events
        ≡ record h { events = push_all event_timestamp h.max_lookback_micros h.events events }
  unfolding add_order_events push_all add_order_event
  add_order_events_lem h [] = refl
  add_order_events_lem h (event ∷ events) = add_order_events_lem (add_order_event h event) events

  -- For order events in the order of time, the last moments of at most so many milliseconds kept, and a
  -- question within them, where both numbers fit an i64 as microseconds, the history answers as one
  -- that never drops one; neither making it nor asking it panics.
  pub events_since_whole :
      (max_lookback_ms lookback_ms : ℤ) (feed : List (OrderEvent F))
      → InOrder event_timestamp feed
      → pos 0 ≤ℤ max_lookback_ms
      → lookback_ms ≤ℤ max_lookback_ms
      → FitsMicros max_lookback_ms
      → FitsMicros lookback_ms
      → (new_event_history max_lookback_ms >>= λ h.
          events_since (add_order_events h feed) lookback_ms)
        ≡ some (since event_timestamp (last_less event_timestamp lookback_ms feed) feed)
  unfolding events_since new_event_history
  events_since_whole m k feed o h i f g =
      let lookback = m *ℤ pos 1000 in
      let kept = window event_timestamp lookback feed in
      rw
        (
          micros-some m f,
          add_order_events_lem (record { events = []; max_lookback_micros = lookback }) feed,
          push_all-empty event_timestamp lookback feed o (scale_pos m h),
          cutoff_of-last event_timestamp k kept g,
        )
        (ap some (since-window event_timestamp lookback k feed o (scale_pos m h) (scale_le k m i)))

  -- For books in the order of time, the history finds the newest book of the whole feed that is as
  -- old as asked, unless that book is beyond the lookback.
  pub get_book_at_whole :
      (max_lookback_ms offset_ms : ℤ) (feed : List (OrderBook F)) (last : OrderBook F)
      → InOrder book_time feed
      → pos 0 ≤ℤ max_lookback_ms
      → FitsMicros max_lookback_ms
      → FitsMicros offset_ms
      → back feed ≡ some last
      → (new_book_history max_lookback_ms >>= λ h. get_book_at (add_snapshots h feed) offset_ms)
        ≡ some (
            unless_older book_time
              (last.timestamp -ℤ max_lookback_ms *ℤ pos 1000)
              (find_back book_time (last.timestamp -ℤ offset_ms *ℤ pos 1000) feed))
  unfolding get_book_at new_book_history window
  get_book_at_whole m k feed last o h f g e =
      let lookback = m *ℤ pos 1000 in
      rw
        (
          micros-some m f,
          add_snapshots_lem (record { snapshots = []; max_lookback_micros = lookback }) feed,
          push_all-empty book_time lookback feed o (scale_pos m h),
          back-window book_time lookback feed o (scale_pos m h),
          e,
          window,
          micros-some k g,
        )
        (ap some (
          find_back-since book_time (last.timestamp -ℤ lookback) (last.timestamp -ℤ k *ℤ pos 1000)
            feed o))
