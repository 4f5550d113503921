-- ===== src/Builder/Stuck.antt =====
-- The state that waits for a snapshot, when the first buffered update is none.
use trading_platform.Prelude.{ℕ, ◌-◌, ap, ◌≡◌, refl, ◌∙◌, false, List, ◌∷◌}
use trading_platform.Floats.{Floats}
use trading_platform.MarketTypes.{OrderBookUpdate}
use trading_platform.Builder.{step_fetching, step_in, step}
use trading_platform.BuilderState.{OrderBookBuilder, OrderBookState, running, fetching_snapshot}
use trading_platform.Builder.Safety.{Reach, here, round, feed}

module _ (floats : Floats) where
  open floats use {F}

  stuck_round :
      (now : ℕ) (u : OrderBookUpdate F) (us : List (OrderBookUpdate F)) (b : OrderBookBuilder F)
      → b.state ≡ fetching_snapshot (u ∷ us) 1
      → u.is_snapshot ≡ false
      → (b' : OrderBookBuilder F) × (step floats now b ≡ running b')
        × (b'.state ≡ b.state)
        × (b'.orderbook ≡ b.orderbook)
        × (b'.sent ≡ b.sent)
  unfolding step step_in step_fetching
  stuck_round now u us b s k = (
    record b { stats = record (b.stats) { uptime = now - b.start_time } },
    ap (λ (st : OrderBookState F). step_in floats st now b) s ∙ rw k,
    refl,
    refl,
    refl,
  )

  -- Once the builder fetches a snapshot with a first buffered update that is none, it stays in
  -- that state for ever, whatever arrives: every round goes on and changes neither the state nor
  -- the book, nor sends a snapshot.
  pub stuck_forever :
      (u : OrderBookUpdate F) (us : List (OrderBookUpdate F)) (b : OrderBookBuilder F)
      {c : OrderBookBuilder F}
      → b.state ≡ fetching_snapshot (u ∷ us) 1
      → u.is_snapshot ≡ false
      → Reach floats b c
      → (c.state ≡ b.state) × (c.orderbook ≡ b.orderbook) × (c.sent ≡ b.sent)
  stuck_forever u us b s k here = (refl, refl, refl)
  stuck_forever u us b s k (round {c = c} {d = d} now r e) =
      let (p, q, t) = stuck_forever u us b s k r in
      let (b', e', p', q', t') = stuck_round now u us c (p ∙ s) k in
      let same : b' ≡ d = cc in rw (← same) (p' ∙ p, q' ∙ q, t' ∙ t)
  stuck_forever u us b s k (feed more gone r) = stuck_forever u us b s k r
