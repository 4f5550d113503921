-- ===== src/Builder/Safety.antt =====
-- What holds in every state that the builder can reach.
use Prim.Native.String.{String}
use trading_platform.Prelude.{
  ℕ, ◌≤◌, ◌<◌, ◌≡◌, refl, Bool, List, [], ◌∷◌, ◌++◌, arith, length, length-append, length-drop,
  drop, leb, if◌then◌else◌, Bool-cases, Option-cases, some, inl, inr, subst, ◌==◌, ◌&&◌, leb-false,
}
use trading_platform.Floats.{Floats}
use trading_platform.MarketTypes.{Exchange, OrderBook, OrderBookUpdate}
use trading_platform.Builder.{
  apply_to_book, apply_update, merge_levels, sort_levels, live_gap, handle_buffering_update,
  step_buffering, step_fetching, step_live, step_resyncing, step_in, step, new_builder, start_run,
}
use trading_platform.BuilderState.{
  OrderBookBuilder, OrderBookState, Round, running, waiting, stopped, panicked, uninitialized,
  buffering, fetching_snapshot, initializing, live, resyncing, error, max_buffer_size,
}

module _ {F : Type 0} where
  -- A state that the builder may be in, when its book has this last update id.
  abbrev pub SafeState : OrderBookState F → ℕ → Type 0
  SafeState uninitialized id = Unit {0}
  SafeState (buffering buffer started_at) id = length buffer ≤ max_buffer_size
  SafeState (fetching_snapshot buffered attempt) id =
      (length buffered ≤ max_buffer_size) × (attempt ≡ 1)
  SafeState (initializing seq buffered) id = ⊥
  SafeState (live last_seq last_update updates) id = last_seq ≡ id
  SafeState (resyncing reason attempt started_at) id = attempt ≡ 1
  SafeState (error message can_retry) id = ⊥

  abbrev pub IsSafe : OrderBookBuilder F → Type 0
  IsSafe b = SafeState b.state b.orderbook.last_update_id

  abbrev pub RoundIsSafe : Round F → Type 0
  RoundIsSafe (running b) = IsSafe b
  RoundIsSafe (waiting b) = IsSafe b
  RoundIsSafe (stopped b) = Unit {0}
  RoundIsSafe panicked = Unit {0}

module _ (floats : Floats) where
  open floats use {F, lt}

  -- Dropping the oldest 100 makes room for one more.
  room_bound :
      (buffer : List (OrderBookUpdate F))
      → length buffer ≤ max_buffer_size
      → length (if leb max_buffer_size (length buffer) then drop 100 buffer else buffer)
        < max_buffer_size
  room_bound buffer h = elim (Bool-cases (leb max_buffer_size (length buffer))) [
    | inl e ↦ rw e (omega (arith, length-drop 100 buffer))
    | inr e ↦ rw e (omega (arith, leb-false max_buffer_size (length buffer) e))
  ]

  handle_buffering_update-IsSafe :
      (u : OrderBookUpdate F) (buffer : List (OrderBookUpdate F)) (started_at : ℕ)
      (b : OrderBookBuilder F)
      → length buffer ≤ max_buffer_size
      → IsSafe (handle_buffering_update floats u buffer started_at b)
  unfolding handle_buffering_update
  handle_buffering_update-IsSafe u buffer started_at b h =
      let small = room_bound buffer h in
      let room = if leb max_buffer_size (length buffer) then drop 100 buffer else buffer in
      let fits : length (room ++ u ∷ []) ≤ max_buffer_size =
        omega (arith, length-append room (u ∷ []), small) in
      elim (Bool-cases ((length (room ++ u ∷ []) == 1) && u.is_snapshot)) [
        | inl e ↦ rw e (fits, refl)
        | inr e ↦ rw e fits
      ]

  step_buffering-IsSafe :
      (now : ℕ) (buffer : List (OrderBookUpdate F)) (started_at : ℕ)
      (inbox : List (OrderBookUpdate F)) (b : OrderBookBuilder F)
      → b.state ≡ buffering buffer started_at
      → length buffer ≤ max_buffer_size
      → RoundIsSafe (step_buffering floats now buffer started_at inbox b)
  unfolding step_buffering
  step_buffering-IsSafe now buffer started_at [] b e h = ground arith
  step_buffering-IsSafe now buffer started_at (u ∷ us) b e h =
      ground (arith, handle_buffering_update-IsSafe u buffer started_at (record b { inbox = us }) h)

  apply_to_book-id :
      (book book' : OrderBook F) (u : OrderBookUpdate F)
      → apply_to_book floats book u ≡ some book'
      → u.update_id ≡ book'.last_update_id
  unfolding apply_to_book
  apply_to_book-id book book' u h = elim (Bool-cases u.is_snapshot) [
    | inl e ↦ ground (arith, rw e at h)
    | inr e ↦
        let bids = sort_levels floats (λ a b. lt b a) (merge_levels floats book.bids u.bids) in
        let asks = sort_levels floats lt (merge_levels floats book.asks u.asks) in
        elim (Option-cases bids) [
          | inl f ↦ absurd (cc (rw (e, f) at h))
          | inr (x, f) ↦ elim (Option-cases asks) [
            | inl g ↦ absurd (cc (rw (e, f, g) at h))
            | inr (y, g) ↦ ground (arith, rw (e, f, g) at h)
          ]
        ]
  ]

  step_live-IsSafe :
      (now last_seq last_update updates : ℕ) (inbox : List (OrderBookUpdate F))
      (b : OrderBookBuilder F)
      → b.state ≡ live last_seq last_update updates
      → last_seq ≡ b.orderbook.last_update_id
      → RoundIsSafe (step_live floats now last_seq updates inbox b)
  unfolding step_live apply_update
  step_live-IsSafe now last_seq last_update updates [] b e h = ground arith
  step_live-IsSafe now last_seq last_update updates (u ∷ us) b e h =
      elim (Bool-cases (live_gap floats last_seq u)) [
        | inl gap ↦ rw gap refl
        | inr fine ↦ elim (Option-cases (apply_to_book floats b.orderbook u)) [
          | inl f ↦ rw (fine, f) tt
          | inr (book, f) ↦ rw (fine, f) (apply_to_book-id b.orderbook book u f)
        ]
      ]

  step_fetching-IsSafe :
      (now attempt : ℕ) (buffered : List (OrderBookUpdate F)) (b : OrderBookBuilder F)
      → b.state ≡ fetching_snapshot buffered attempt
      → length buffered ≤ max_buffer_size
      → attempt ≡ 1
      → RoundIsSafe (step_fetching floats now buffered attempt b)
  unfolding step_fetching apply_to_book
  step_fetching-IsSafe now attempt [] b e h a = ground arith
  step_fetching-IsSafe now attempt (u ∷ us) b e h a = elim (Bool-cases u.is_snapshot) [
    | inl s ↦ ground (arith, s)
    | inr s ↦ ground (arith, s)
  ]

  step_in-IsSafe :
      (s : OrderBookState F) (now : ℕ) (b : OrderBookBuilder F)
      → b.state ≡ s
      → SafeState s b.orderbook.last_update_id
      → RoundIsSafe (step_in floats s now b)
  unfolding step_in step_resyncing
  step_in-IsSafe uninitialized now b e h = omega arith
  step_in-IsSafe (buffering buffer started_at) now b e h =
      step_buffering-IsSafe now buffer started_at b.inbox b e h
  step_in-IsSafe (fetching_snapshot buffered attempt) now b e h =
      step_fetching-IsSafe now attempt buffered b e h.0 h.1
  step_in-IsSafe (initializing seq buffered) now b e h = absurd h
  step_in-IsSafe (live last_seq last_update updates) now b e h =
      step_live-IsSafe now last_seq last_update updates b.inbox b e h
  step_in-IsSafe (resyncing reason attempt started_at) now b e h = ground arith
  step_in-IsSafe (error message can_retry) now b e h = absurd h

  -- A round keeps the state safe: the buffer within its limit, the attempt counters at one, the
  -- sequence number of the live state that of the book, and no error.
  pub step-IsSafe : (now : ℕ) (b : OrderBookBuilder F) → IsSafe b → RoundIsSafe (step floats now b)
  unfolding step
  step-IsSafe now b h = step_in-IsSafe b.state now b refl h

  -- Rounds of the loop, and what other tasks do in between.
  pub data Reach (b : OrderBookBuilder F) : OrderBookBuilder F → Type 0 where
    here : Reach b b
    round :
        {c d : OrderBookBuilder F} (now : ℕ) → Reach b c → step floats now c ≡ running d → Reach b d
    feed :
        {c : OrderBookBuilder F} (us : List (OrderBookUpdate F)) (gone : Bool)
        → Reach b c
        → Reach b (record c { inbox = c.inbox ++ us; closed = gone })

  Reach-IsSafe : {b c : OrderBookBuilder F} → IsSafe b → Reach b c → IsSafe c
  Reach-IsSafe h here = h
  Reach-IsSafe h (round {c = c} now r e) =
      subst RoundIsSafe e (step-IsSafe now c (Reach-IsSafe h r))
  Reach-IsSafe h (feed us gone r) = Reach-IsSafe h r

  -- However the updates arrive, a builder started afresh keeps its buffer within MAX_BUFFER_SIZE
  -- and its live sequence number equal to the book's last update id, and it never counts a second
  -- attempt nor enters the error state, so that the limit on attempts is never met.
  pub run-IsSafe :
      (symbol : String) (venue : Exchange) (start : ℕ) {c : OrderBookBuilder F}
      → Reach (start_run floats start (new_builder floats symbol venue)) c
      → IsSafe c
  unfolding start_run
  run-IsSafe symbol venue start r = Reach-IsSafe (omega arith) r
