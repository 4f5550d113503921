-- ===== src/Processor/Rounds.antt =====
-- A round of the processing loop over the seven rings.
use trading_platform.Prelude.{
  ℕ, ◌+◌, min, ◌≡◌, ◌⊎◌, inl, inr, refl, ◌∙◌, Option, none, some, List, [], ◌∷◌, ◌++◌, arith, ltb,
  if◌then◌else◌, length-append, ◌>>=◌, map_some, length, take, drop, length-take, Option-cases,
}
use trading_platform.HftBook.{FastOrderBook, FastUpdate}
use trading_platform.RingBuffer.{RingBuffer, pop}
use trading_platform.RingBuffer.Refine.{IsRing, contents}
use trading_platform.Processor.{
  max_symbols, Slots, collect, apply_to_books, process_ring_batched, RoundResult, process_rings,
  RingName, binance_ring, bybit_ring, okx_ring, coinbase_ring, upbit_ring, bithumb_ring,
  deribit_ring, process_round,
}
use trading_platform.Processor.Batch.{AllKnown, apply_all, result, process_ring_batched_at}

apply_all-append :
    (us vs : List FastUpdate) (books : List FastOrderBook)
    → apply_all (us ++ vs) books ≡ (apply_all us books >>= apply_all vs)
unfolding apply_all
apply_all-append [] vs books = refl
apply_all-append (u ∷ us) vs books = elim (Option-cases (apply_to_books books u)) [
  | inl e ↦ rw e refl
  | inr (b, e) ↦ rw e (apply_all-append us vs b)
]

length-collect :
    (r : RingBuffer FastUpdate) (slots : Slots) (n : ℕ)
    → length (collect r slots n).1 ≡ length slots
unfolding collect
length-collect r [] n = refl
length-collect r (s ∷ slots) n = elim (Option-cases (pop r).1) [
  | inl e ↦ ground (arith, e)
  | inr (u, e) ↦
      let m : ℕ = if ltb u.symbol_id max_symbols then n + 1 else n in
      ground (arith, e, length-collect (pop r).0 slots m)
]

-- The rings hold what they hold as queues, of updates for known symbols.
abbrev pub AllReady : List (RingBuffer FastUpdate) → Type 0
AllReady [] = Unit
AllReady (r ∷ rs) = (IsRing r × AllKnown (contents r)) × AllReady rs

-- What a round takes off the rings, in their order.
abbrev pub fronts : ℕ → List (RingBuffer FastUpdate) → List FastUpdate
fronts n [] = []
fronts n (r ∷ rs) = take n (contents r) ++ fronts n rs

-- What it leaves on them.
abbrev pub Leaves : ℕ → List (RingBuffer FastUpdate) → List (RingBuffer FastUpdate) → Type 0
Leaves n [] [] = Unit
Leaves n (r ∷ rs) (r' ∷ rs') = (IsRing r' × (contents r' ≡ drop n (contents r))) × Leaves n rs rs'
Leaves n _ _ = ⊥

-- A round that fails where applying the updates does, or does what applying them does.
Round : ℕ → List (RingBuffer FastUpdate) → List FastOrderBook → Option RoundResult → Type 0
Round n rings books o =
    ((o ≡ none) × (apply_all (fronts n rings) books ≡ none))
    ⊎ ((res : RoundResult) × (o ≡ some res)
        × (apply_all (fronts n rings) books ≡ some res.books)
        × Leaves n rings res.rings
        × (res.processed ≡ length (fronts n rings)))

process_rings-Round :
    (rings : List (RingBuffer FastUpdate)) (books : List FastOrderBook) (batch : Slots) (n : ℕ)
    → length batch ≡ n
    → AllReady rings
    → Round n rings books (process_rings rings books batch)
unfolding process_rings apply_all Round
process_rings-Round [] books batch n l a =
    inr (record { rings = []; batch = batch; books = books; processed = 0 }, refl, refl, tt, refl)
process_rings-Round (r ∷ rs) books batch n l ((v, k), a) =
    let ring' : RingBuffer FastUpdate = (collect r batch 0).0 in
    let batch' : Slots = (collect r batch 0).1 in
    let front : List FastUpdate = take n (contents r) in
    let count : ℕ = min n (length (contents r)) in
    let (v', rest, e) = process_ring_batched_at r books batch v k in
    let e' : process_ring_batched r books batch
        ≡ map_some (result ring' batch' count) (apply_all front books) =
      rw l at e in
    let rest' : contents ring' ≡ drop n (contents r) = rw l at rest in
    let more = apply_all-append front (fronts n rs) books in
    elim (Option-cases (apply_all front books)) [
      | inl f ↦ inl (rw (e', f) refl, more ∙ rw f refl)
      | inr (b, f) ↦ elim (process_rings-Round rs b batch' n (length-collect r batch 0 ∙ l) a) [
        | inl (p, q) ↦ inl (rw (e', f, p) refl, more ∙ rw f q)
        | inr (res, p, q, w, c) ↦ inr (
          record {
            rings = ring' ∷ res.rings;
            batch = res.batch;
            books = res.books;
            processed = count + res.processed;
          },
          rw (e', f, p) refl,
          more ∙ rw f q,
          ((v', rest'), w),
          omega (arith, c, length-take n (contents r), length-append front (fronts n rs)),
        )
      ]
    ]

-- The seven rings, in the order in which a round goes through them.
abbrev pub seven_rings : (RingName → RingBuffer FastUpdate) → List (RingBuffer FastUpdate)
seven_rings ring_of =
    ring_of binance_ring
    ∷ ring_of bybit_ring
    ∷ ring_of okx_ring
    ∷ ring_of coinbase_ring
    ∷ ring_of upbit_ring
    ∷ ring_of bithumb_ring
    ∷ ring_of deribit_ring
    ∷ []

-- If every waiting update is for a symbol that has a book, a round over the rings of Binance, Bybit,
-- OKX, Coinbase, Upbit, Bithumb and Deribit takes as many updates as the buffer has slots off the
-- front of each, applies them ring after ring and in order, and reports their number. It fails only
-- where applying them one after the other does.
pub process_round_lem :
    (ring_of : RingName → RingBuffer FastUpdate) (books : List FastOrderBook) (batch : Slots)
    → AllReady (seven_rings ring_of)
    → let rings = seven_rings ring_of in
      let n = length batch in
      ((process_round ring_of books batch ≡ none) × (apply_all (fronts n rings) books ≡ none))
      ⊎ ((res : RoundResult) × (process_round ring_of books batch ≡ some res)
          × (apply_all (fronts n rings) books ≡ some res.books)
          × Leaves n rings res.rings
          × (res.processed ≡ length (fronts n rings)))
unfolding process_round Round
process_round_lem ring_of books batch a =
    process_rings-Round (seven_rings ring_of) books batch (length batch) refl a
