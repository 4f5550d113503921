-- ===== src/HftBook/Refine.antt =====
-- The operations on one side: the book stays well-formed, no index is out of range, and the side
-- follows the reference on lists of levels.
use trading_platform.Prelude.{ℕ, ◌≤◌, ◌≡◌, refl, Option, some, List, arith, length, take}
use trading_platform.Prelude.Int.{ℤ}
use trading_platform.HftBook.{
  FastPriceLevel, FastOrderBook, FastUpdate, max_depth, new_book, bid_worse, ask_worse, update_bid,
  update_ask, remove_bid, remove_ask,
}
use trading_platform.HftBook.Side.{IsSide, live, upsert, update_side_lem}
use trading_platform.HftBook.Removal.{erase_price, remove_side_lem}
use trading_platform.HftBook.Sorted.{
  IsSorted, IsSorted-take, upsert-IsSorted, erase_price-IsSorted, bid_worse-IsOrder,
  ask_worse-IsOrder,
}

abbrev pub bid_levels : FastOrderBook → List FastPriceLevel
bid_levels b = live (b.bids, b.bid_count)

abbrev pub ask_levels : FastOrderBook → List FastPriceLevel
ask_levels b = live (b.asks, b.ask_count)

-- Both arrays have their fixed size, the counts are within it, bids fall and asks rise strictly.
pub record IsBook (b : FastOrderBook) : Type 0 where
  pub bid_side : IsSide (b.bids, b.bid_count)
  pub ask_side : IsSide (b.asks, b.ask_count)
  pub bids_sorted : IsSorted bid_worse (bid_levels b)
  pub asks_sorted : IsSorted ask_worse (ask_levels b)

-- The counts of an update are within its arrays, as `convert_update` makes them.
pub record IsUpdate (u : FastUpdate) : Type 0 where
  pub bid_room : u.bid_count ≤ length u.bid_updates
  pub ask_room : u.ask_count ≤ length u.ask_updates

pub new_book-IsBook : (id : ℕ) → IsBook (new_book id)
unfolding new_book
new_book-IsBook id = record {
  bid_side = omega arith;
  ask_side = omega arith;
  bids_sorted = tt;
  asks_sorted = tt;
}

-- A step that succeeds with a well-formed book of the given bids, all else but the bids unchanged.
abbrev pub BidsBecome : Option FastOrderBook → FastOrderBook → List FastPriceLevel → Type 0
BidsBecome o b ls =
    (b' : FastOrderBook) × (o ≡ some b')
    × IsBook b'
    × (bid_levels b' ≡ ls)
    × (b' ≡ record b { bids = b'.bids; bid_count = b'.bid_count })

abbrev pub AsksBecome : Option FastOrderBook → FastOrderBook → List FastPriceLevel → Type 0
AsksBecome o b ls =
    (b' : FastOrderBook) × (o ≡ some b')
    × IsBook b'
    × (ask_levels b' ≡ ls)
    × (b' ≡ record b { asks = b'.asks; ask_count = b'.ask_count })

-- `update_bid` does not panic; it keeps the best MAX_DEPTH levels of the ordered insertion.
pub update_bid_refines :
    (b : FastOrderBook) (price quantity : ℤ)
    → IsBook b
    → BidsBecome
        (update_bid b price quantity)
        b
        (take max_depth (upsert bid_worse price quantity (bid_levels b)))
unfolding update_bid
update_bid_refines b price quantity v =
    let (s, e, k, l) = update_side_lem bid_worse price quantity b.bids b.bid_count v.bid_side in
    let sorted : IsSorted bid_worse (live s) = rw l (
      IsSorted-take bid_worse max_depth _
        (upsert-IsSorted bid_worse-IsOrder price quantity (bid_levels b) v.bids_sorted)) in
    (
      record b { bids = s.0; bid_count = s.1 },
      rw e,
      record {
        bid_side = k;
        ask_side = v.ask_side;
        bids_sorted = sorted;
        asks_sorted = v.asks_sorted;
      },
      l,
      refl,
    )

-- `update_ask` does not panic; it keeps the best MAX_DEPTH levels of the ordered insertion.
pub update_ask_refines :
    (b : FastOrderBook) (price quantity : ℤ)
    → IsBook b
    → AsksBecome
        (update_ask b price quantity)
        b
        (take max_depth (upsert ask_worse price quantity (ask_levels b)))
unfolding update_ask
update_ask_refines b price quantity v =
    let (s, e, k, l) = update_side_lem ask_worse price quantity b.asks b.ask_count v.ask_side in
    let sorted : IsSorted ask_worse (live s) = rw l (
      IsSorted-take ask_worse max_depth _
        (upsert-IsSorted ask_worse-IsOrder price quantity (ask_levels b) v.asks_sorted)) in
    (
      record b { asks = s.0; ask_count = s.1 },
      rw e,
      record {
        bid_side = v.bid_side;
        ask_side = k;
        bids_sorted = v.bids_sorted;
        asks_sorted = sorted;
      },
      l,
      refl,
    )

-- `remove_bid` does not panic; the level of that price, if any, is gone and no other.
pub remove_bid_refines :
    (b : FastOrderBook) (price : ℤ)
    → IsBook b
    → BidsBecome (remove_bid b price) b (erase_price price (bid_levels b))
unfolding remove_bid
remove_bid_refines b price v =
    let (s, e, n, c, l) = remove_side_lem price b.bid_count b.bids (omega arith) in
    let sorted : IsSorted bid_worse (live s) =
      rw l (erase_price-IsSorted bid_worse-IsOrder price (bid_levels b) v.bids_sorted) in
    (
      record b { bids = s.0; bid_count = s.1 },
      rw e,
      record {
        bid_side = omega arith;
        ask_side = v.ask_side;
        bids_sorted = sorted;
        asks_sorted = v.asks_sorted;
      },
      l,
      refl,
    )

-- `remove_ask` does not panic; the level of that price, if any, is gone and no other.
pub remove_ask_refines :
    (b : FastOrderBook) (price : ℤ)
    → IsBook b
    → AsksBecome (remove_ask b price) b (erase_price price (ask_levels b))
unfolding remove_ask
remove_ask_refines b price v =
    let (s, e, n, c, l) = remove_side_lem price b.ask_count b.asks (omega arith) in
    let sorted : IsSorted ask_worse (live s) =
      rw l (erase_price-IsSorted ask_worse-IsOrder price (ask_levels b) v.asks_sorted) in
    (
      record b { asks = s.0; ask_count = s.1 },
      rw e,
      record {
        bid_side = v.bid_side;
        ask_side = omega arith;
        bids_sorted = v.bids_sorted;
        asks_sorted = sorted;
      },
      l,
      refl,
    )
