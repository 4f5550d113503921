-- ===== src/Engine.antt =====
-- crates/matching-engine/src/engine/mod.rs: order events inferred from the updates of a book.
--
-- `none` is a panic: an index out of range, a NaN that is compared, or the overflow of the counter of
-- ids. The books of the map are locked one at a time, so they are a plain association list, and an
-- id is drawn with its counter locked. The binary search for a place is that of the standard library
-- on sorted levels: the place after those that come before, where a NaN price cannot be compared
-- with a level, nor any price with a NaN, which can only be alone on its side.
pub mod Sides
pub mod Ids
mod Tests
use Prim.Native.String.{String}
use trading_platform.Prelude.{
  ℕ, zero, suc, ◌+◌, ◌%◌, ◌^◌, Bool, true, false, Option, none, some, List, [], ◌∷◌, ◌++◌,
  if◌then◌else◌, ◌>>=◌, map_some, ltb, get_elem?, set, take, drop,
}
use trading_platform.Prelude.Int.{ℤ}
use trading_platform.Prelude.Dict.{lookup, insert, string_eq}
use trading_platform.Floats.{Floats}
use trading_platform.Prices.{comparable}
use trading_platform.MarketTypes.{
  Exchange, Side, buy, sell, PriceLevel, OrderBookUpdate, OrderBook, OrderEvent, new_order_book,
  add_event, cancel_event, execute_event,
}

pub record MatchingEngine (F : Type 0) : Type 0 where
  pub order_books : List (String × OrderBook F)
  pub order_id_counter : ℕ

-- `MatchingEngine::new`
unfoldable pub new_engine : {F : Type 0} → MatchingEngine F
new_engine = record { order_books = []; order_id_counter = 0 }

-- `get_next_order_id`: the counter after the call, which is the id.
unfoldable pub next_order_id : ℕ → Option ℕ
next_order_id counter = if ltb (counter + 1) (2 ^ 64) then some (counter + 1) else none

-- `Vec::remove` and `Vec::insert`, with the index in range.
abbrev remove_at {ℓ} : {A : Type ℓ} → List A → ℕ → List A
remove_at xs i = take i xs ++ drop (i + 1) xs

abbrev insert_at {ℓ} : {A : Type ℓ} → List A → ℕ → A → List A
insert_at xs i x = take i xs ++ x ∷ drop i xs

-- The levels of a side, the counter of ids, and the events generated.
abbrev pub SideResult : Type 0 → Type 0
SideResult F = List (PriceLevel F) × ℕ × List (OrderEvent F)

module _ (floats : Floats) where
  open floats use {F, literal, epsilon, sub, abs, lt, eq}

  -- `levels.iter().position(|l| (l.price - price).abs() < f64::EPSILON)`
  unfoldable pub position : F → List (PriceLevel F) → Option ℕ
  position price [] = none
  position price (l ∷ ls) =
      if lt (abs (sub l.price price)) epsilon then some 0 else map_some suc (position price ls)

  -- The closure of the binary search: whether the level comes before the price.
  unfoldable pub comes_before : Side → F → F → Bool
  comes_before buy level price = lt price level
  comes_before sell level price = lt level price

  -- `binary_search_by(..).unwrap_or_else(|e| e)` for a side.
  unfoldable pub insert_pos : Side → F → List (PriceLevel F) → Option ℕ
  insert_pos side price [] = some 0
  insert_pos side price (l ∷ ls) =
      let rest = insert_pos side price ls in
      if comparable floats l.price price
      then (if comes_before side l.price price then map_some suc rest else some 0)
      else none

  -- The levels, with an event under the next id.
  unfoldable pub with_event : ℕ → (ℕ → OrderEvent F) → List (PriceLevel F) → Option (SideResult F)
  with_event counter event levels =
      map_some (λ id. (levels, id, event id ∷ [])) (next_order_id counter)

  -- One round of the loop of `process_side_updates`, with the three `generate_.._event`.
  unfoldable pub process_level :
      Side → ℤ → List (PriceLevel F) → ℕ → PriceLevel F → Option (SideResult F)
  unfolding position insert_pos with_event
  process_level side timestamp levels counter u = elim (position u.price levels) [
    | some idx ↦ do
      current ← get_elem? levels idx
      let changed = set levels idx (record current { quantity = u.quantity })
      if eq u.quantity (literal 0)
          then with_event counter (λ id. cancel_event id timestamp) (remove_at levels idx)
          else (if lt current.quantity u.quantity
              then with_event counter
                  (λ id. add_event id side u.price (sub u.quantity current.quantity) timestamp)
                  changed
              else (if lt u.quantity current.quantity
                  then with_event counter
                      (λ id. execute_event id (sub current.quantity u.quantity) timestamp) changed
                  else some (levels, counter, [])))
    | none ↦
        if lt (literal 0) u.quantity
        then (insert_pos side u.price levels >>= λ place.
            with_event counter (λ id. add_event id side u.price u.quantity timestamp)
              (insert_at levels place u))
        else some (levels, counter, [])
  ]

  unfoldable pub process_side_updates :
      Side → ℤ → List (PriceLevel F) → ℕ → List (PriceLevel F) → Option (SideResult F)
  unfolding process_level
  process_side_updates side timestamp levels counter [] = some (levels, counter, [])
  process_side_updates side timestamp levels counter (u ∷ us) = do
    first ← process_level side timestamp levels counter u
    rest ← process_side_updates side timestamp first.0 first.1 us
    some (rest.0, rest.1, first.2 ++ rest.2)

  -- One round of a loop of `generate_clear_events`.
  unfoldable pub clear_level : ℤ → ℕ → PriceLevel F → Option (ℕ × List (OrderEvent F))
  clear_level timestamp counter l =
      if lt (literal 0) l.quantity
      then map_some (λ id. (id, cancel_event id timestamp ∷ [])) (next_order_id counter)
      else some (counter, [])

  -- `generate_clear_events` for one side.
  unfoldable pub clear_side : ℤ → ℕ → List (PriceLevel F) → Option (ℕ × List (OrderEvent F))
  unfolding clear_level
  clear_side timestamp counter [] = some (counter, [])
  clear_side timestamp counter (l ∷ ls) = do
    first ← clear_level timestamp counter l
    rest ← clear_side timestamp first.0 ls
    some (rest.0, first.1 ++ rest.1)

  unfoldable pub generate_clear_events : OrderBook F → ℤ → ℕ → Option (ℕ × List (OrderEvent F))
  unfolding clear_side
  generate_clear_events book timestamp counter = do
    bids ← clear_side timestamp counter book.bids
    asks ← clear_side timestamp bids.0 book.asks
    some (asks.0, bids.1 ++ asks.1)

  -- `or_insert_with(|| OrderBook::new(..))`
  unfoldable pub book_or_new : OrderBookUpdate F → Option (OrderBook F) → OrderBook F
  unfolding new_order_book
  book_or_new update none = new_order_book update.symbol update.exchange
  book_or_new update (some book) = book

  -- `process_l2_update` on the book itself, with the counter.
  unfoldable pub process_book :
      OrderBookUpdate F → OrderBook F → ℕ → Option (OrderBook F × ℕ × List (OrderEvent F))
  unfolding process_side_updates generate_clear_events
  process_book update book counter =
      let bids = if update.is_snapshot then [] else book.bids in
      let asks = if update.is_snapshot then [] else book.asks in
      (do
        cleared ←
            (if update.is_snapshot
              then generate_clear_events book update.timestamp counter
              else some (counter, []))
        new_bids ← process_side_updates buy update.timestamp bids cleared.0 update.bids
        new_asks ← process_side_updates sell update.timestamp asks new_bids.1 update.asks
        some (
          record book { bids = new_bids.0; asks = new_asks.0; timestamp = update.timestamp },
          new_asks.1,
          cleared.1 ++ (new_bids.2 ++ new_asks.2),
        ))

  unfoldable pub process_l2_update :
      MatchingEngine F → OrderBookUpdate F → Option (MatchingEngine F × List (OrderEvent F))
  unfolding process_book book_or_new
  process_l2_update engine update = do
    (book, counter, events) ←
        process_book update (book_or_new update (lookup update.symbol engine.order_books))
          engine.order_id_counter
    some (
      record {
        order_books = insert update.symbol book engine.order_books;
        order_id_counter = counter;
      },
      events,
    )

  -- `get_order_book`
  unfoldable pub get_order_book : MatchingEngine F → String → Option (OrderBook F)
  get_order_book engine symbol = lookup symbol engine.order_books
