-- ===== src/Synchronizer/Buffer.antt =====
-- The buffer of events before the synchronization.
use trading_platform.Prelude.{
  ◌-◌, ◌≤◌, ◌≡◌, refl, ◌∙◌, ap, List, [], ◌∷◌, ◌++◌, append-nil, append_assoc, arith, length,
  length-append, length-drop,
}
use trading_platform.Prelude.Last.{last_of, room-last_of, last_of-append}
use trading_platform.Synchronizer.{Event, Synchronizer, max_events, buffer_event}

module _ {Value : Type 0} where
  unfoldable pub buffer_events : List (Event Value) → Synchronizer Value → Synchronizer Value
  unfolding buffer_event
  buffer_events [] s = s
  buffer_events (e ∷ es) s = buffer_events es (buffer_event e s)

  -- The buffer keeps the last 10000 of the events, in order, and nothing else changes.
  pub buffer_events_lem :
      (es : List (Event Value)) (s : Synchronizer Value)
      → length s.event_buffer ≤ max_events
      → buffer_events es s ≡ record s { event_buffer = last_of max_events (s.event_buffer ++ es) }
  unfolding buffer_events buffer_event
  buffer_events_lem [] s h =
      let e : length s.event_buffer - max_events ≡ 0 = omega arith in
      rw (append-nil s.event_buffer, e) refl
  buffer_events_lem (x ∷ es) s h =
      let b : List (Event Value) = s.event_buffer in
      let r = room-last_of max_events b x (omega arith) h in
      let l = length-append b (x ∷ []) in
      let d = length-drop (length (b ++ x ∷ []) - max_events) (b ++ x ∷ []) in
      rw r (
        buffer_events_lem es (record s { event_buffer = last_of max_events (b ++ x ∷ []) })
          (omega (arith, l, d))
        ∙ ap (λ c. record s { event_buffer = c })
            (last_of-append max_events (b ++ x ∷ []) es
              ∙ ap (last_of max_events) (append_assoc b (x ∷ []) es)))
