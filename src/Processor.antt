-- ===== src/Processor.antt =====
-- crates/matching-engine/src/hft_orderbook.rs: the processor that owns the books of all symbols.
--
-- A panic (an index out of range) is `none`. The statistics counters, the logging, the CPU pinning
-- and the prefetch hints are left out; the lock is held for the whole of a batch, so the books are
-- a plain value. Machine floats are the parameter `Floats`.
pub mod Symbols
pub mod Convert
pub mod Batch
pub mod Rounds
mod Tests
use Prim.Native.String.{String}
use trading_platform.Prelude.{
  ℕ, zero, suc, ◌+◌, ◌-◌, ◌%◌, ◌^◌, Bool, true, false, Option, none, some, List, [], ◌∷◌, ◌++◌, map,
  arith, ◌==◌, ltb, leb, if◌then◌else◌, ◌>>=◌, ◌>>◌, length, get_elem?, take, replicate,
}
use trading_platform.Prelude.Int.{ℤ, pos}
use trading_platform.Prelude.Dict.{lookup, insert, string_eq}
use trading_platform.Floats.{Floats}
use trading_platform.MarketTypes.{
  Exchange, binance, binance_futures, bybit, bybit_linear, upbit, coinbase, okx, deribit, bithumb,
  ls_exchange, PriceLevel, OrderBookUpdate, OrderBook, new_order_book, as_u64,
}
use trading_platform.HftBook.{
  FastPriceLevel, FastOrderBook, FastUpdate, default_level, max_updates, new_book, put,
  apply_update,
}
use trading_platform.RingBuffer.{RingBuffer, pop}

abbrev pub max_symbols : ℕ
max_symbols = 2048

abbrev pub batch_size : ℕ
batch_size = 16

-- The names of the processor's rings.
pub data RingName : Type 0 where
  binance_ring bybit_ring okx_ring coinbase_ring upbit_ring bithumb_ring deribit_ring : RingName

-- `get_ring_buffer`
unfoldable pub get_ring_buffer : Exchange → RingName
get_ring_buffer binance = binance_ring
get_ring_buffer binance_futures = binance_ring
get_ring_buffer bybit = bybit_ring
get_ring_buffer okx = okx_ring
get_ring_buffer coinbase = coinbase_ring
get_ring_buffer upbit = upbit_ring
get_ring_buffer bithumb = bithumb_ring
get_ring_buffer deribit = deribit_ring
get_ring_buffer bybit_linear = binance_ring
get_ring_buffer ls_exchange = binance_ring

-- What `register_symbol` and `convert_update` use of `HFTOrderBookProcessor`.
pub record Registry (F : Type 0) : Type 0 where
  pub symbol_to_id : List (String × ℕ)
  pub id_to_symbol : List String
  pub tick_sizes : List F

-- The registry of `HFTOrderBookProcessor::new`, with the default tick size.
unfoldable pub new_registry : {F : Type 0} → F → Registry F
new_registry tick = record {
  symbol_to_id = [];
  id_to_symbol = [];
  tick_sizes = replicate max_symbols tick;
}

-- The books of `HFTOrderBookProcessor::new`: `n` of them from index `i` on.
unfoldable pub new_books : ℕ → ℕ → List FastOrderBook
unfolding new_book
new_books zero i = []
new_books (suc n) i = new_book (i % 2 ^ 16) ∷ new_books n (i + 1)

unfoldable pub register_symbol : {F : Type 0} → Registry F → String → F → Option (Registry F × ℕ)
register_symbol r symbol tick_size = elim (lookup symbol r.symbol_to_id) [
  | some id ↦ some (r, id)
  | none ↦ do
    let id = length r.id_to_symbol % 2 ^ 16
    ticks ← put r.tick_sizes id tick_size
    some (
      record r {
        symbol_to_id = insert symbol id r.symbol_to_id;
        id_to_symbol = r.id_to_symbol ++ symbol ∷ [];
        tick_sizes = ticks;
      },
      id,
    )
]

module _ (floats : Floats) where
  open floats use {F, literal, mul, div, as_i64, of_i64}

  -- A level in ticks of 1 / `tick_multiplier` and units of 1e-8.
  abbrev pub convert_level : F → PriceLevel F → FastPriceLevel
  convert_level tick_multiplier l = record {
    price_ticks = as_i64 (mul l.price tick_multiplier);
    quantity = as_i64 (mul l.quantity (literal 100_000_000));
  }

  -- `for (i, level) in levels.iter().take(10).enumerate() { updates[i] = ..; count += 1 }`
  unfoldable pub fill_levels :
      F → List (PriceLevel F) → ℕ → ℕ → List FastPriceLevel → Option (List FastPriceLevel × ℕ)
  fill_levels tick_multiplier [] i count updates = some (updates, count)
  fill_levels tick_multiplier (l ∷ ls) i count updates =
      put updates i (convert_level tick_multiplier l)
      >>= fill_levels tick_multiplier ls (suc i) ((count + 1) % 2 ^ 8)

  -- `none` is a panic, `some none` the None of an unknown symbol.
  unfoldable pub convert_update : Registry F → OrderBookUpdate F → Option (Option FastUpdate)
  convert_update r update = elim (lookup update.symbol r.symbol_to_id) [
    | none ↦ some none
    | some symbol_id ↦ do
      tick_size ← get_elem? r.tick_sizes symbol_id
      let tick_multiplier = div (literal 1) tick_size
      let zeroed = replicate max_updates default_level
      bids ← fill_levels tick_multiplier (take max_updates update.bids) 0 0 zeroed
      asks ← fill_levels tick_multiplier (take max_updates update.asks) 0 0 zeroed
      some (
          some (record {
            symbol_id = symbol_id;
            update_id = update.update_id;
            timestamp = as_u64 update.timestamp;
            bid_updates = bids.0;
            ask_updates = asks.0;
            bid_count = bids.1;
            ask_count = asks.1;
            is_snapshot = update.is_snapshot;
          }))
  ]

  -- `to_orderbook` of a level.
  abbrev level_of_ticks : F → FastPriceLevel → PriceLevel F
  level_of_ticks tick_size l = record {
    price = mul (of_i64 l.price_ticks) tick_size;
    quantity = div (of_i64 l.quantity) (literal 100_000_000);
  }

  pub record FastOrderBookSnapshot : Type 0 where
    pub symbol : String
    pub bids : List FastPriceLevel
    pub asks : List FastPriceLevel
    pub last_update_id : ℕ
    pub tick_size : F

  -- `none` is a panic, `some none` the None of an unknown symbol.
  unfoldable pub get_orderbook :
      Registry F → List FastOrderBook → String → Option (Option FastOrderBookSnapshot)
  get_orderbook r books symbol = elim (lookup symbol r.symbol_to_id) [
    | none ↦ some none
    | some symbol_id ↦ do
      book ← get_elem? books symbol_id
      tick_size ← get_elem? r.tick_sizes symbol_id
      some (
          some (record {
            symbol = symbol;
            bids = take book.bid_count book.bids;
            asks = take book.ask_count book.asks;
            last_update_id = book.last_update_id;
            tick_size = tick_size;
          }))
  ]

  unfoldable pub to_orderbook : FastOrderBookSnapshot → Exchange → OrderBook F
  unfolding new_order_book
  to_orderbook s exchange = record (new_order_book s.symbol exchange) {
    bids = map (level_of_ticks s.tick_size) s.bids;
    asks = map (level_of_ticks s.tick_size) s.asks;
    last_update_id = s.last_update_id;
  }

-- A batch buffer.
abbrev pub Slots : Type 0
Slots = List (Option FastUpdate)

-- Step 1 of `process_ring_batched`: a pop for each slot, until the ring is empty. An update with
-- no such symbol leaves its slot empty and is not counted.
unfoldable pub collect : RingBuffer FastUpdate → Slots → ℕ → RingBuffer FastUpdate × Slots × ℕ
collect r [] batch_count = (r, [], batch_count)
collect r (slot ∷ slots) batch_count =
    let (r', popped) = pop r in
    elim popped [
      | none ↦ (r', none ∷ slots, batch_count)
      | some u ↦
          let valid = ltb u.symbol_id max_symbols in
          let (r'', rest, n) = collect r' slots (if valid then batch_count + 1 else batch_count) in
          (r'', (if valid then some u else none) ∷ rest, n)
    ]

-- `books[update.symbol_id as usize].apply_update(update)`
unfoldable pub apply_to_books : List FastOrderBook → FastUpdate → Option (List FastOrderBook)
apply_to_books books u = do
  book ← get_elem? books u.symbol_id
  book' ← apply_update book u
  put books u.symbol_id book'

-- Step 3: `for i in 0..n { if let Some(update) = &batch[i] { .. } }`, from the first slot on.
unfoldable pub apply_slots : ℕ → Slots → List FastOrderBook → Option (List FastOrderBook)
unfolding apply_to_books
apply_slots zero slots books = some books
apply_slots (suc n) [] books = none
apply_slots (suc n) (none ∷ slots) books = apply_slots n slots books
apply_slots (suc n) (some u ∷ slots) books = apply_to_books books u >>= apply_slots n slots

pub record BatchResult : Type 0 where
  pub ring : RingBuffer FastUpdate
  pub batch : Slots
  pub books : List FastOrderBook
  pub processed : ℕ

unfoldable pub process_ring_batched :
    RingBuffer FastUpdate → List FastOrderBook → Slots → Option BatchResult
unfolding collect apply_slots
process_ring_batched ring books batch =
    let (ring', batch', batch_count) = collect ring batch 0 in
    if batch_count == 0
    then some (record { ring = ring'; batch = batch'; books = books; processed = 0 })
    else (do
      books' ← apply_slots batch_count batch' books
      some (record { ring = ring'; batch = batch'; books = books'; processed = batch_count }))

-- What one round of the loop of `start_processing` leaves.
pub record RoundResult : Type 0 where
  pub rings : List (RingBuffer FastUpdate)
  pub batch : Slots
  pub books : List FastOrderBook
  pub processed : ℕ

-- One round: the rings in their order, with one buffer and the books passed on.
unfoldable pub process_rings :
    List (RingBuffer FastUpdate) → List FastOrderBook → Slots → Option RoundResult
unfolding process_ring_batched
process_rings [] books batch =
    some (record { rings = []; batch = batch; books = books; processed = 0 })
process_rings (ring ∷ rings) books batch = do
  first ← process_ring_batched ring books batch
  rest ← process_rings rings first.books first.batch
  some (record {
    rings = first.ring ∷ rest.rings;
    batch = rest.batch;
    books = rest.books;
    processed = first.processed + rest.processed;
  })

-- The rings in the order of the source.
abbrev pub ring_order : List RingName
ring_order =
    binance_ring ∷ bybit_ring ∷ okx_ring ∷ coinbase_ring ∷ upbit_ring ∷ bithumb_ring ∷ deribit_ring
    ∷ []

unfoldable pub process_round :
    (RingName → RingBuffer FastUpdate) → List FastOrderBook → Slots → Option RoundResult
unfolding process_rings
process_round ring_of books batch = process_rings (map ring_of ring_order) books batch
