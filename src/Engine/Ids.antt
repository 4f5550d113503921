-- ===== src/Engine/Ids.antt =====
-- Without NaN prices the engine does not panic while ids last, and it numbers its events one after
-- the other.
use Prim.Native.String.{String}
use trading_platform.Prelude.{
  ℕ, ◌+◌, ◌^◌, ◌≤◌, ◌<◌, ◌≡◌, ◌≢◌, refl, sym, Option, some, List, [], ◌∷◌, ◌++◌, arith, length,
  Bool-cases, inl, inr,
}
use trading_platform.Prelude.Int.{ℤ}
use trading_platform.Prelude.Dict.{lookup, insert, lookup-insert, string_eq}
use trading_platform.Floats.{Floats}
use trading_platform.Prices.{AreNumbers, IsComparable}
use trading_platform.MarketTypes.{
  buy, sell, PriceLevel, OrderBookUpdate, OrderBook, OrderEvent, cancel_event,
}
use trading_platform.Engine.{
  MatchingEngine, clear_level, clear_side, generate_clear_events, book_or_new, process_book,
  process_l2_update,
}
use trading_platform.Engine.Sides.{
  Numbered, Numbered-append, next_order_id-below, process_side_updates-Runs,
}

module _ (floats : Floats) where
  open floats use {F, literal, lt, eq}

  -- Events that are numbered from a counter, of which they took at most so many.
  abbrev Clears : Option (ℕ × List (OrderEvent F)) → ℕ → ℕ → Type 0
  Clears o c n = (r : ℕ × List (OrderEvent F)) × (o ≡ some r) × Numbered c r.1 r.0 × (r.0 ≤ c + n)

  clear_side-Clears :
      (timestamp : ℤ) (c : ℕ) (ls : List (PriceLevel F))
      → c + length ls < 2 ^ 64
      → Clears (clear_side floats timestamp c ls) c (length ls)
  unfolding clear_side clear_level
  clear_side-Clears timestamp c [] h = ((c, []), refl, refl, omega arith)
  clear_side-Clears timestamp c (l ∷ ls) h = elim (Bool-cases (lt (literal 0) l.quantity)) [
    | inl e ↦
        let (r, f, n, b) = clear_side-Clears timestamp (c + 1) ls (omega arith) in
        (
          (r.0, cancel_event (c + 1) timestamp ∷ r.1),
          rw (e, next_order_id-below c (omega arith), f) refl,
          (refl, n),
          omega (arith, b),
        )
    | inr e ↦
        let (r, f, n, b) = clear_side-Clears timestamp c ls (omega arith) in
        (r, rw (e, f) refl, n, omega (arith, b))
  ]

  generate_clear_events-Clears :
      (book : OrderBook F) (timestamp : ℤ) (c : ℕ)
      → c + (length book.bids + length book.asks) < 2 ^ 64
      → Clears
          (generate_clear_events floats book timestamp c)
          c
          (length book.bids + length book.asks)
  unfolding generate_clear_events
  generate_clear_events-Clears book timestamp c h =
      let (r, e, n, b) = clear_side-Clears timestamp c book.bids (omega (arith, h)) in
      let (s, f, m, d) = clear_side-Clears timestamp r.0 book.asks (omega (arith, b, h)) in
      (
        (s.0, r.1 ++ s.1),
        rw (e, f) refl,
        Numbered-append r.1 s.1 c r.0 s.0 n m,
        omega (arith, b, d),
      )

  -- The levels that an update of a book goes through.
  abbrev pub level_count : OrderBookUpdate F → OrderBook F → ℕ
  level_count u book = length book.bids + length book.asks + (length u.bids + length u.asks)

  process_book-Runs :
      (total : IsComparable floats) (u : OrderBookUpdate F) (book : OrderBook F) (c : ℕ)
      → c + level_count u book < 2 ^ 64
      → AreNumbers floats u.bids
      → AreNumbers floats u.asks
      → AreNumbers floats book.bids
      → AreNumbers floats book.asks
      → (r : OrderBook F × ℕ × List (OrderEvent F)) × (process_book floats u book c ≡ some r)
        × Numbered c r.2 r.1
        × AreNumbers floats r.0.bids
        × AreNumbers floats r.0.asks
  unfolding process_book
  process_book-Runs total u book c h p q k l = elim (Bool-cases u.is_snapshot) [
    | inl e ↦
        let (cleared, ec, nc, bc) =
          generate_clear_events-Clears book u.timestamp c (omega (arith, h)) in
        let (b, eb, nb, bb, kb) =
          process_side_updates-Runs floats total buy u.timestamp [] cleared.0 u.bids
            (omega (arith, h, bc)) p tt in
        let (a, ea, na, ba, ka) =
          process_side_updates-Runs floats total sell u.timestamp [] b.1 u.asks
            (omega (arith, h, bc, bb)) q tt in
        (
          (
            record book { bids = b.0; asks = a.0; timestamp = u.timestamp },
            a.1,
            cleared.1 ++ (b.2 ++ a.2),
          ),
          rw (e, ec, eb, ea) refl,
          Numbered-append cleared.1 (b.2 ++ a.2) c cleared.0 a.1 nc
              (Numbered-append b.2 a.2 cleared.0 b.1 a.1 nb na),
          kb,
          ka,
        )
    | inr e ↦
        let (b, eb, nb, bb, kb) =
          process_side_updates-Runs floats total buy u.timestamp book.bids c u.bids
            (omega (arith, h)) p k in
        let (a, ea, na, ba, ka) =
          process_side_updates-Runs floats total sell u.timestamp book.asks b.1 u.asks
            (omega (arith, h, bb)) q l in
        (
          (record book { bids = b.0; asks = a.0; timestamp = u.timestamp }, a.1, b.2 ++ a.2),
          rw (e, eb, ea) refl,
          Numbered-append b.2 a.2 c b.1 a.1 nb na,
          kb,
          ka,
        )
  ]

  -- The engine's book of a symbol, or a new one.
  abbrev pub book_for : OrderBookUpdate F → MatchingEngine F → OrderBook F
  book_for u engine = book_or_new floats u (lookup u.symbol engine.order_books)

  -- An update without NaN prices, for a symbol whose book has none, does not make the engine panic
  -- as long as the ids last for the levels of both. The events that come of it carry the ids after
  -- the engine's counter, one after the other up to the new counter; the book of the symbol again
  -- has no NaN prices; and the book of any other symbol stays as it is.
  pub process_l2_update_lem :
      (total : IsComparable floats) (engine : MatchingEngine F) (u : OrderBookUpdate F)
      (other : String)
      → other ≢ u.symbol
      → AreNumbers floats u.bids
      → AreNumbers floats u.asks
      → AreNumbers floats (book_for u engine).bids
      → AreNumbers floats (book_for u engine).asks
      → engine.order_id_counter + level_count u (book_for u engine) < 2 ^ 64
      → (engine' : MatchingEngine F) × (events : List (OrderEvent F)) × (book : OrderBook F)
        × (process_l2_update floats engine u ≡ some (engine', events))
        × Numbered engine.order_id_counter events engine'.order_id_counter
        × (lookup u.symbol engine'.order_books ≡ some book)
        × AreNumbers floats book.bids
        × AreNumbers floats book.asks
        × (lookup other engine'.order_books ≡ lookup other engine.order_books)
  unfolding process_l2_update
  process_l2_update_lem total engine u other ne p q k l h =
      let ((book, c, events), e, n, kb, ka) =
        process_book-Runs total u (book_for u engine) engine.order_id_counter h p q k l in
      (
        record { order_books = insert u.symbol book engine.order_books; order_id_counter = c },
        events,
        book,
        rw e refl,
        n,
        rw
            (
              lookup-insert u.symbol u.symbol book engine.order_books,
              (string_eq.beq_iff u.symbol u.symbol).1 refl,
            )
            refl,
        kb,
        ka,
        elim (Bool-cases (string_eq.beq u.symbol other)) [
          | inl same ↦ absurd (ne (sym ((string_eq.beq_iff u.symbol other).0 same)))
          | inr apart ↦ rw (lookup-insert u.symbol other book engine.order_books, apart) refl
        ],
      )
