-- ===== src/HftBook.antt =====
-- crates/matching-engine/src/hft_orderbook.rs: the fixed-size order book of one symbol.
--
-- A side of the book is the array of MAX_DEPTH levels and the count of its live levels, as in the
-- source; every read and write is by index, and one out of range is a panic, the value `none`.
-- i64 prices and quantities are integers (the code only compares and moves them). The padding
-- bytes of the struct are left out.
pub mod Arrays
pub mod Search
pub mod Side
pub mod Removal
pub mod Sorted
pub mod Refine
pub mod Apply
mod Tests
use trading_platform.Prelude.{
  ℕ, zero, suc, ◌+◌, ◌-◌, ◌%◌, ◌^◌, Bool, true, false, Option, none, some, List, [], ◌∷◌, leb, ltb,
  ◌==◌, if◌then◌else◌, ◌>>=◌, ◌>>◌, get_elem?, set, length, replicate,
}
use trading_platform.Prelude.Int.{ℤ, pos, ltb_ℤ, eqb_ℤ}

abbrev pub max_depth : ℕ
max_depth = 20

-- The updates that a `FastUpdate` can hold on each side.
abbrev pub max_updates : ℕ
max_updates = 10

pub record FastPriceLevel : Type 0 where
  pub price_ticks : ℤ
  pub quantity : ℤ

abbrev pub default_level : FastPriceLevel
default_level = record { price_ticks = pos 0; quantity = pos 0 }

pub record FastOrderBook : Type 0 where
  pub bids : List FastPriceLevel
  pub asks : List FastPriceLevel
  pub bid_count : ℕ
  pub ask_count : ℕ
  pub symbol_id : ℕ
  pub last_update_id : ℕ
  pub total_bid_volume : ℤ
  pub total_ask_volume : ℤ
  pub last_update_time : ℕ
  pub update_count : ℕ

pub record FastUpdate : Type 0 where
  pub symbol_id : ℕ
  pub update_id : ℕ
  pub timestamp : ℕ
  pub bid_updates : List FastPriceLevel
  pub ask_updates : List FastPriceLevel
  pub bid_count : ℕ
  pub ask_count : ℕ
  pub is_snapshot : Bool

-- `FastOrderBook::new`
unfoldable pub new_book : ℕ → FastOrderBook
new_book id = record {
  bids = replicate max_depth default_level;
  asks = replicate max_depth default_level;
  bid_count = 0;
  ask_count = 0;
  symbol_id = id;
  last_update_id = 0;
  total_bid_volume = pos 0;
  total_ask_volume = pos 0;
  last_update_time = 0;
  update_count = 0;
}

-- A checked array write.
module _ {ℓ} {A : Type ℓ} where
  abbrev pub put : List A → ℕ → A → Option (List A)
  put [] i v = none
  put (x ∷ xs) zero v = some (v ∷ xs)
  put (x ∷ xs) (suc i) v = put xs i v >>= λ ys. some (x ∷ ys)

  -- `for i in (lo..lo + n).rev() { a[i + 1] = a[i] }`
  pub shift_down : ℕ → ℕ → List A → Option (List A)
  shift_down zero lo xs = some xs
  shift_down (suc n) lo xs =
      get_elem? xs (lo + n) >>= λ v. put xs (suc (lo + n)) v >>= λ ys. shift_down n lo ys

  -- `for j in lo..lo + n { a[j] = a[j + 1] }`
  pub shift_up : ℕ → ℕ → List A → Option (List A)
  shift_up zero lo xs = some xs
  shift_up (suc n) lo xs =
      get_elem? xs (suc lo) >>= λ v. put xs lo v >>= λ ys. shift_up n (suc lo) ys

-- How the search loop of `update_bid` and `update_ask` ends: at a level of that price, or with the
-- position to insert at.
pub data Found : Type 0 where
  existing : ℕ → Found
  insert_at : ℕ → Found

-- One side of the book after an operation: its array and its count.
abbrev pub BookSide : Type 0
BookSide = List FastPriceLevel × ℕ

-- Both sides run the same code but for the comparison of prices: `worse a b` says that a level of
-- price `a` stands behind one of price `b`.
module _ (worse : ℤ → ℤ → Bool) where
  -- The search loop: `n` levels from index `i` on are left, `insert_pos` is the value so far.
  pub search_level : List FastPriceLevel → ℤ → ℕ → ℕ → ℕ → Option Found
  search_level xs price zero i insert_pos = some (insert_at insert_pos)
  search_level xs price (suc n) i insert_pos =
      let rest = search_level xs price n (suc i) insert_pos in
      get_elem? xs i >>= λ l.
      if eqb_ℤ l.price_ticks price
      then some (existing i)
      else (if worse l.price_ticks price then some (insert_at i) else rest)

  -- What follows the search: an update in place, or an insertion if there is room for it.
  pub store_level : List FastPriceLevel → ℕ → ℤ → ℤ → Found → Option BookSide
  unfolding shift_down
  store_level xs count price quantity (existing i) =
      get_elem? xs i >>= λ l. put xs i (record l { quantity = quantity }) >>= λ ys. some (ys, count)
  store_level xs count price quantity (insert_at i) =
      let level : FastPriceLevel = record { price_ticks = price; quantity = quantity } in
      if ltb i max_depth
      then (if leb max_depth count
          then (do ys ← shift_down (max_depth - 1 - i) i xs; zs ← put ys i level; some (zs, count))
          else (do
            ys ← shift_down (count - i) i xs
            zs ← put ys i level
            some (zs, (count + 1) % 2 ^ 8)))
      else some (xs, count)

  pub update_side : List FastPriceLevel → ℕ → ℤ → ℤ → Option BookSide
  unfolding search_level store_level
  update_side xs count price quantity =
      search_level xs price count 0 count >>= store_level xs count price quantity

-- `remove_bid` and `remove_ask`: `n` levels from index `i` on are left to compare.
pub remove_side : List FastPriceLevel → ℕ → ℤ → ℕ → ℕ → Option BookSide
unfolding shift_up
remove_side xs count price zero i = some (xs, count)
remove_side xs count price (suc n) i =
    let rest = remove_side xs count price n (suc i) in
    get_elem? xs i >>= λ l.
    if eqb_ℤ l.price_ticks price
    then (do ys ← shift_up (count - 1 - i) i xs; some (ys, count - 1))
    else rest

-- Bids stand in descending order, asks in ascending order.
abbrev pub bid_worse : ℤ → ℤ → Bool
bid_worse a b = ltb_ℤ a b

abbrev pub ask_worse : ℤ → ℤ → Bool
ask_worse a b = ltb_ℤ b a

pub update_bid : FastOrderBook → ℤ → ℤ → Option FastOrderBook
unfolding update_side
update_bid b price quantity = update_side bid_worse b.bids b.bid_count price quantity >>= λ s.
    some (record b { bids = s.0; bid_count = s.1 })

pub update_ask : FastOrderBook → ℤ → ℤ → Option FastOrderBook
unfolding update_side
update_ask b price quantity = update_side ask_worse b.asks b.ask_count price quantity >>= λ s.
    some (record b { asks = s.0; ask_count = s.1 })

pub remove_bid : FastOrderBook → ℤ → Option FastOrderBook
unfolding remove_side
remove_bid b price = remove_side b.bids b.bid_count price b.bid_count 0 >>= λ s.
    some (record b { bids = s.0; bid_count = s.1 })

pub remove_ask : FastOrderBook → ℤ → Option FastOrderBook
unfolding remove_side
remove_ask b price = remove_side b.asks b.ask_count price b.ask_count 0 >>= λ s.
    some (record b { asks = s.0; ask_count = s.1 })

-- The body of a side's loop in `apply_update`: a zero quantity deletes the level.
pub apply_bid : FastOrderBook → FastPriceLevel → Option FastOrderBook
unfolding update_bid remove_bid
apply_bid b l =
    if eqb_ℤ l.quantity (pos 0)
    then remove_bid b l.price_ticks
    else update_bid b l.price_ticks l.quantity

pub apply_ask : FastOrderBook → FastPriceLevel → Option FastOrderBook
unfolding update_ask remove_ask
apply_ask b l =
    if eqb_ℤ l.quantity (pos 0)
    then remove_ask b l.price_ticks
    else update_ask b l.price_ticks l.quantity

-- `for i in 0..n { body(updates[i]) }`, from index `i` on.
pub each_update :
    (FastOrderBook → FastPriceLevel → Option FastOrderBook)
    → List FastPriceLevel
    → ℕ
    → ℕ
    → FastOrderBook
    → Option FastOrderBook
each_update body us zero i b = some b
each_update body us (suc n) i b =
    get_elem? us i >>= λ l. body b l >>= λ b'. each_update body us n (suc i) b'

-- `apply_update`; the tests `count > 0` before the loops change nothing but the branch prediction.
pub apply_update : FastOrderBook → FastUpdate → Option FastOrderBook
unfolding each_update apply_bid apply_ask
apply_update b u =
    if leb u.update_id b.last_update_id
    then some b
    else (each_update apply_bid u.bid_updates u.bid_count 0 b >>= λ b₁.
        each_update apply_ask u.ask_updates u.ask_count 0 b₁ >>= λ b₂.
        some (record b₂ {
          last_update_id = u.update_id;
          update_count = (b₂.update_count + 1) % 2 ^ 64;
        }))
