-- ===== src/Builder/Live.antt =====
-- The live state: updates in sequence are applied, and a gap starts a resync.
use trading_platform.Prelude.{
  ℕ, ◌+◌, ◌^◌, ◌<◌, ◌%◌, ◌≡◌, ◌≢◌, refl, ap, ◌∙◌, true, false, Option, some, ◌>>=◌, List, [], ◌∷◌,
  ◌++◌, arith, length, ◌==◌, eq→==, ne→==, ◌-◌, if◌then◌else◌,
}
use trading_platform.Floats.{Floats}
use trading_platform.MarketTypes.{OrderBook, OrderBookUpdate}
use trading_platform.Prices.{AreNumbers, IsComparable}
use trading_platform.Builder.Prices.{HasNumbers, apply_to_book-HasNumbers}
use trading_platform.Builder.{
  apply_to_book, apply_update, trigger_resync, live_gap, step_live, step_in, step,
}
use trading_platform.BuilderState.{
  OrderBookBuilder, OrderBookState, Round, running, waiting, stopped, panicked, live, resyncing,
  sequence_gap, inc,
}

module _ (floats : Floats) where
  open floats use {F}

  abbrev pub apply_feed : OrderBook F → List (OrderBookUpdate F) → Option (OrderBook F)
  apply_feed book [] = some book
  apply_feed book (u ∷ us) = apply_to_book floats book u >>= λ next. apply_feed next us

  -- No price of the feed is NaN.
  abbrev pub FeedHasNumbers : List (OrderBookUpdate F) → Type 0
  FeedHasNumbers [] = Unit {0}
  FeedHasNumbers (u ∷ us) = AreNumbers floats u.bids × AreNumbers floats u.asks × FeedHasNumbers us

  -- Each update carries the next sequence number, which fits a u64.
  abbrev pub InSequence : ℕ → List (OrderBookUpdate F) → Type 0
  InSequence seq [] = Unit {0}
  InSequence seq (u ∷ us) = (u.update_id ≡ seq + 1) × (seq + 1 < 2 ^ 64) × InSequence u.update_id us

  abbrev pub last_id : ℕ → List (OrderBookUpdate F) → ℕ
  last_id seq [] = seq
  last_id seq (u ∷ us) = last_id u.update_id us

  -- Rounds at these instants, up to one that does not go on.
  unfoldable pub run_rounds : List ℕ → OrderBookBuilder F → Round F
  run_rounds [] b = running b
  run_rounds (now ∷ ts) b = elim (step floats now b) [
    | running b' ↦ run_rounds ts b'
    | waiting b' ↦ waiting b'
    | stopped b' ↦ stopped b'
    | panicked ↦ panicked
  ]

  step_of_live :
      (now last_seq last_update n : ℕ) (u : OrderBookUpdate F) (us : List (OrderBookUpdate F))
      (b : OrderBookBuilder F)
      → b.state ≡ live last_seq last_update n
      → b.inbox ≡ u ∷ us
      → step floats now b ≡ step_live floats now last_seq n (u ∷ us) b
  unfolding step step_in
  step_of_live now last_seq last_update n u us b s i =
      ap (λ (st : OrderBookState F). step_in floats st now b) s
      ∙ ap (λ (q : List (OrderBookUpdate F)). step_live floats now last_seq n q b) i

  -- A round in the live state with an update at hand.
  live_round :
      (now last_seq last_update n : ℕ) (u : OrderBookUpdate F) (us : List (OrderBookUpdate F))
      (b : OrderBookBuilder F) (book : OrderBook F)
      → b.state ≡ live last_seq last_update n
      → b.inbox ≡ u ∷ us
      → live_gap floats last_seq u ≡ false
      → apply_to_book floats b.orderbook u ≡ some book
      → (b' : OrderBookBuilder F) × (step floats now b ≡ running b')
        × (b'.state ≡ live u.update_id now (inc n))
        × (b'.orderbook ≡ book)
        × (b'.inbox ≡ us)
        × (b'.stats.total_updates ≡ inc b.stats.total_updates)
        × (b'.stats.gaps_detected ≡ b.stats.gaps_detected)
  unfolding step_live apply_update
  live_round now last_seq last_update n u us b book s i g applied = (
    record b {
      state = live u.update_id now (inc n);
      orderbook = book;
      inbox = us;
      sent = if n % 100 == 0 then b.sent ++ book ∷ [] else b.sent;
      stats = record (b.stats) {
        total_updates = inc b.stats.total_updates;
        last_update_time = some now;
        uptime = now - b.start_time;
      };
    },
    step_of_live now last_seq last_update n u us b s i ∙ rw (g, applied) refl,
    refl,
    refl,
    refl,
    refl,
    refl,
  )

  in_sequence :
      (seq : ℕ) (u : OrderBookUpdate F)
      → u.update_id ≡ seq + 1
      → seq + 1 < 2 ^ 64
      → live_gap floats seq u ≡ false
  unfolding live_gap
  in_sequence seq u e h =
      let same : u.update_id ≡ inc seq = omega arith in
      ground (arith, eq→== u.update_id (inc seq) same)

  -- From the live state, with a book and a feed that have no NaN prices, a feed of updates with
  -- consecutive numbers is applied whole and in order, one update a round: nothing panics, the
  -- builder stays live at the last number, no gap is counted, and nothing is left in the channel.
  pub live_follows_feed :
      (total : IsComparable floats) (us : List (OrderBookUpdate F)) (times : List ℕ)
      (last_seq last_update n : ℕ) (b : OrderBookBuilder F)
      → length times ≡ length us
      → b.state ≡ live last_seq last_update n
      → b.inbox ≡ us
      → InSequence last_seq us
      → HasNumbers floats b.orderbook
      → FeedHasNumbers us
      → (b' : OrderBookBuilder F) × (when : ℕ) × (count : ℕ) × (run_rounds times b ≡ running b')
        × (b'.state ≡ live (last_id last_seq us) when count)
        × (apply_feed b.orderbook us ≡ some b'.orderbook)
        × (b'.inbox ≡ [])
        × (b'.stats.gaps_detected ≡ b.stats.gaps_detected)
  unfolding run_rounds
  live_follows_feed total [] [] last_seq last_update n b len s i q h k =
      (b, last_update, n, refl, s, refl, i, refl)
  live_follows_feed total [] (t ∷ ts) last_seq last_update n b len s i q h k = absurd (omega arith)
  live_follows_feed total (u ∷ us) [] last_seq last_update n b len s i q h k = absurd (omega arith)
  live_follows_feed total (u ∷ us) (t ∷ ts) last_seq last_update n b len s i q h (kb, ka, k) =
      let (book, applied, h') = apply_to_book-HasNumbers floats total b.orderbook u h kb ka in
      let (b₁, e₁, s₁, o₁, i₁, t₁, g₁) =
        live_round t last_seq last_update n u us b book s i (in_sequence last_seq u q.0 q.1)
          applied in
      let (b₂, w, c, e₂, s₂, o₂, i₂, g₂) =
        live_follows_feed total us ts u.update_id t (inc n) b₁ (omega arith) s₁ i₁ q.2 (rw o₁ h')
          k in
      (b₂, w, c, rw (e₁, run_rounds) e₂, s₂, rw (applied, ← o₁) o₂, i₂, g₂ ∙ g₁)

  -- A gap leaves the book as it was, takes the offending update off the channel, counts the gap,
  -- and starts a resync that names the expected and the actual number.
  pub live_gap_resyncs :
      (now last_seq last_update n : ℕ) (u : OrderBookUpdate F) (us : List (OrderBookUpdate F))
      (b : OrderBookBuilder F)
      → b.state ≡ live last_seq last_update n
      → b.inbox ≡ u ∷ us
      → u.is_snapshot ≡ false
      → u.update_id ≢ inc last_seq
      → u.first_update_id ≢ inc last_seq
      → (b' : OrderBookBuilder F) × (step floats now b ≡ running b')
        × (b'.state ≡ resyncing (sequence_gap (inc last_seq) u.update_id) 1 now)
        × (b'.orderbook ≡ b.orderbook)
        × (b'.inbox ≡ us)
        × (b'.stats.gaps_detected ≡ inc b.stats.gaps_detected)
  unfolding step_live live_gap
  live_gap_resyncs now last_seq last_update n u us b s i k p q =
      let gap : live_gap floats last_seq u ≡ true =
        rw (k, ne→== u.update_id (inc last_seq) p, ne→== u.first_update_id (inc last_seq) q)
          (ground arith) in
      (
        trigger_resync floats now (sequence_gap (inc last_seq) u.update_id)
            (record b { inbox = us }),
        step_of_live now last_seq last_update n u us b s i ∙ rw gap,
        refl,
        refl,
        refl,
        refl,
      )
