-- ===== src/Synchronizer/Chain.antt =====
-- When a synchronization succeeds, and which events are delivered after it.
use trading_platform.Prelude.{
  ℕ, ◌<◌, ◌≡◌, inl, inr, some, List, [], ◌∷◌, subst, arith, ltb, if◌then◌else◌, Bool-cases,
}
use trading_platform.Synchronizer.{
  Event, Synchronizer, synced, retain_newer, synchronize, validate_event,
}
use trading_platform.Synchronizer.Ready.{Names, IsReady, synced-IsReady}

module _ {Value : Type 0} where
  -- The events of a stream that `validate_event` lets through.
  unfoldable pub validate_events :
      List (Event Value) → Synchronizer Value → Synchronizer Value × List (Event Value)
  unfolding validate_event
  validate_events [] s = (s, [])
  validate_events (e ∷ es) s =
      let (t, fine) = validate_event e s in
      let (u, passed) = validate_events es t in (u, if fine then e ∷ passed else passed)

  -- Each event names, as the last update before it, one that is before its own first.
  abbrev pub AllBehind : List (Event Value) → Type 0
  AllBehind [] = Unit
  AllBehind (e ∷ es) =
      ((pu : ℕ) × (e.prev_update_id ≡ some pu) × (pu < e.first_update_id)) × AllBehind es

  AllBehind-retain :
      (last : ℕ) (es : List (Event Value)) → AllBehind es → AllBehind (retain_newer last es)
  AllBehind-retain last [] b = tt
  AllBehind-retain last (e ∷ es) (b, bs) = elim (Bool-cases (ltb last e.final_update_id)) [
    | inl h ↦ rw h (b, AllBehind-retain last es bs)
    | inr h ↦ rw h (AllBehind-retain last es bs)
  ]

  -- With events that each name an update before their own first as the last before them, no
  -- synchronization succeeds: the first event cannot overlap the snapshot and follow it.
  pub never_synchronizes :
      (s : Synchronizer Value) (values : List Value)
      → AllBehind s.event_buffer
      → ¬ ((synchronize s).1 ≡ synced values)
  never_synchronizes s values b h =
      let r : IsReady s = synced-IsReady s values h in
      let ((pu, e, l), _) =
        subst AllBehind r.newer (AllBehind-retain r.taken.last_update_id s.event_buffer b) in
      let o = r.overlaps in
      let c : Names (some pu) r.taken.last_update_id = rw e at r.chained.0 in
      absurd (omega (arith, c, l, o))
