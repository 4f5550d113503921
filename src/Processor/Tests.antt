-- ===== src/Processor/Tests.antt =====
-- Runs of the processor and instances of its theorems.
use trading_platform.Prelude.{
  ℕ, ◌≡◌, ◌⊎◌, refl, false, none, some, List, [], ◌∷◌, arith, map, map_some, length, take, drop,
  replicate,
}
use trading_platform.Prelude.Int.{ℤ, pos}
use trading_platform.Prelude.Dict.{lookup, string_eq}
use trading_platform.Floats.Sample.{whole}
use trading_platform.MarketTypes.{OrderBookUpdate, binance}
use trading_platform.HftBook.{FastOrderBook, FastUpdate, max_updates, new_book}
use trading_platform.HftBook.Refine.{IsUpdate}
use trading_platform.RingBuffer.{RingBuffer}
use trading_platform.RingBuffer.Refine.{IsRing, contents}
use trading_platform.Processor.{
  Registry, max_symbols, new_registry, register_symbol, convert_level, convert_update, Slots,
  process_ring_batched, process_round, RoundResult,
}
use trading_platform.Processor.Symbols.{
  IsRegistry, Registered, new_registry-IsRegistry, register_symbol_lem,
}
use trading_platform.Processor.Convert.{convert_update_lem}
use trading_platform.Processor.Rounds.{seven_rings, fronts, Leaves, process_round_lem}
use trading_platform.Processor.Batch.{apply_all, result, process_ring_batched_lem, AllKnown}

abbrev empty : Registry ℤ
empty = record { symbol_to_id = []; id_to_symbol = []; tick_sizes = replicate max_symbols (pos 1) }

empty-IsRegistry : IsRegistry empty
unfolding new_registry
empty-IsRegistry = new_registry-IsRegistry (pos 1)

register_symbol_lem_example :
    ((r' : Registry ℤ) × (id : ℕ) × (register_symbol empty "BTC" (pos 2) ≡ some (r', id))
      × Registered empty r' "BTC" id)
    ⊎ ((register_symbol empty "BTC" (pos 2) ≡ none)
        × (lookup "BTC" empty.symbol_to_id ≡ none)
        × (length empty.id_to_symbol ≡ max_symbols))
register_symbol_lem_example = register_symbol_lem empty "BTC" (pos 2) empty-IsRegistry

abbrev one : Registry ℤ
one = record { symbol_to_id = ("BTC", 0) ∷ []; id_to_symbol = "BTC" ∷ []; tick_sizes = pos 1 ∷ [] }

abbrev quote : OrderBookUpdate ℤ
quote = record {
  exchange = binance;
  symbol = "BTC";
  timestamp = pos 5;
  bids = record { price = pos 100; quantity = pos 3 } ∷ [];
  asks = record { price = pos 105; quantity = pos 2 } ∷ [];
  is_snapshot = false;
  update_id = 8;
  first_update_id = 0;
  prev_update_id = none;
}

convert_update_lem_example :
    (f : FastUpdate) × (convert_update whole one quote ≡ some (some f))
    × IsUpdate f
    × (take f.bid_count f.bid_updates
        ≡ map (convert_level whole (pos 1)) (take max_updates quote.bids))
    × (take f.ask_count f.ask_updates
        ≡ map (convert_level whole (pos 1)) (take max_updates quote.asks))
    × (f.symbol_id ≡ 0)
    × (f.update_id ≡ 8)
    × (f.is_snapshot ≡ false)
unfolding lookup
convert_update_lem_example = convert_update_lem whole one quote 0 (pos 1) refl refl

abbrev for_symbol : ℕ → ℕ → FastUpdate
for_symbol id n = record {
  symbol_id = id;
  update_id = n;
  timestamp = 0;
  bid_updates = record { price_ticks = pos 100; quantity = pos 3 } ∷ [];
  ask_updates = [];
  bid_count = 1;
  ask_count = 0;
  is_snapshot = false;
}

abbrev clean : RingBuffer FastUpdate
clean = record { buffer = λ i. for_symbol 0 2; head = 0; tail = 2 }

clean-IsRing : IsRing clean
clean-IsRing = omega arith

abbrev books : List FastOrderBook
books = new_book 0 ∷ []

process_ring_batched_lem_example :
    (ring' : RingBuffer FastUpdate) × (batch' : Slots) × IsRing ring'
    × (contents ring' ≡ drop 2 (contents clean))
    × (process_ring_batched clean books (none ∷ none ∷ [])
        ≡ map_some (result ring' batch' 2) (apply_all (take 2 (contents clean)) books))
process_ring_batched_lem_example =
    process_ring_batched_lem clean books (none ∷ none ∷ []) clean-IsRing
      (omega arith, (omega arith, tt))

clean_is_ready : IsRing clean × AllKnown (contents clean)
clean_is_ready = (clean-IsRing, (omega arith, (omega arith, tt)))

-- Two updates wait on each ring, and the buffer has one slot.
process_round_lem_example :
    let rings = seven_rings (λ name. clean) in
    ((process_round (λ name. clean) books (none ∷ []) ≡ none)
      × (apply_all (fronts 1 rings) books ≡ none))
    ⊎ ((res : RoundResult) × (process_round (λ name. clean) books (none ∷ []) ≡ some res)
        × (apply_all (fronts 1 rings) books ≡ some res.books)
        × Leaves 1 rings res.rings
        × (res.processed ≡ length (fronts 1 rings)))
process_round_lem_example =
    process_round_lem (λ name. clean) books (none ∷ [])
      (
        clean_is_ready,
        (
          clean_is_ready,
          (
            clean_is_ready,
            (clean_is_ready, (clean_is_ready, (clean_is_ready, (clean_is_ready, tt)))),
          ),
        ),
      )
