-- ===== src/HftBook/Tests.antt =====
-- Runs of the order book and instances of its theorems.
use trading_platform.Prelude.{
  ℕ, ◌+◌, ◌%◌, ◌^◌, ◌≡◌, refl, false, Option, none, some, [], ◌∷◌, arith, take,
}
use trading_platform.Prelude.Int.{pos}
use trading_platform.HftBook.{
  FastPriceLevel, FastOrderBook, FastUpdate, max_depth, new_book, bid_worse, ask_worse, update_bid,
  remove_bid, apply_update,
}
use trading_platform.HftBook.Side.{upsert}
use trading_platform.HftBook.Removal.{erase_price}
use trading_platform.HftBook.Apply.{apply_levels, apply_update_refines}
use trading_platform.HftBook.Refine.{
  bid_levels, ask_levels, IsBook, IsUpdate, new_book-IsBook, BidsBecome, update_bid_refines,
  remove_bid_refines,
}

abbrev lvl : ℕ → ℕ → FastPriceLevel
lvl p q = record { price_ticks = pos p; quantity = pos q }

-- Two bids in the wrong order, one of them deleted again, and an ask.
abbrev first_update : FastUpdate
first_update = record {
  symbol_id = 7;
  update_id = 5;
  timestamp = 1000;
  bid_updates = lvl 100 3 ∷ lvl 101 4 ∷ lvl 100 0 ∷ lvl 99 1 ∷ [];
  ask_updates = lvl 103 2 ∷ lvl 102 9 ∷ [];
  bid_count = 4;
  ask_count = 2;
  is_snapshot = false;
}

abbrev book_after : Option FastOrderBook → FastOrderBook
book_after none = new_book 0
book_after (some b) = b

abbrev booked : FastOrderBook
booked = book_after (apply_update (new_book 7) first_update)

booked_levels :
    (bid_levels booked ≡ lvl 101 4 ∷ lvl 99 1 ∷ [])
    × (ask_levels booked ≡ lvl 102 9 ∷ lvl 103 2 ∷ [])
unfolding apply_update new_book
booked_levels = (refl, refl)

booked-IsBook : IsBook booked
unfolding apply_update new_book
booked-IsBook = record {
  bid_side = omega arith;
  ask_side = omega arith;
  bids_sorted = ((refl, tt), (tt, tt));
  asks_sorted = ((refl, tt), (tt, tt));
}

update_bid_refines_example :
    BidsBecome
      (update_bid (new_book 7) (pos 100) (pos 3))
      (new_book 7)
      (take max_depth (upsert bid_worse (pos 100) (pos 3) (bid_levels (new_book 7))))
update_bid_refines_example = update_bid_refines (new_book 7) (pos 100) (pos 3) (new_book-IsBook 7)

first_update-IsUpdate : IsUpdate first_update
first_update-IsUpdate = omega arith

apply_update_refines_example :
    (b' : FastOrderBook) × (apply_update (new_book 7) first_update ≡ some b')
    × IsBook b'
    × (bid_levels b'
        ≡ apply_levels bid_worse (bid_levels (new_book 7)) (take 4 first_update.bid_updates))
    × (ask_levels b'
        ≡ apply_levels ask_worse (ask_levels (new_book 7)) (take 2 first_update.ask_updates))
    × (b'.last_update_id ≡ 5)
    × (b'.update_count ≡ ((new_book 7).update_count + 1) % 2 ^ 64)
    × (b'.symbol_id ≡ (new_book 7).symbol_id)
unfolding new_book
apply_update_refines_example =
    apply_update_refines (new_book 7) first_update (new_book-IsBook 7) first_update-IsUpdate
      (omega arith)

remove_bid_refines_example :
    BidsBecome (remove_bid booked (pos 101)) booked (erase_price (pos 101) (bid_levels booked))
remove_bid_refines_example = remove_bid_refines booked (pos 101) booked-IsBook
