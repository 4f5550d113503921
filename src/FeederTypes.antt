-- ===== src/FeederTypes.antt =====
-- crates/feeder/src/core/types.rs: numbers read from text, normalized data, bounded buffers.
--
-- A text is its bytes, of one byte each. Arithmetic that overflows is a panic, as in a
-- checked build: `none`, where `some none` is the result `None` of the parsing. The rescaling of
-- trades takes precisions of at most 18, as 10^18 fits an i64.
pub mod Digits
pub mod Print
pub mod Buffers
mod Tests
use trading_platform.Prelude.{
  ℕ, zero, suc, ◌+◌, ◌-◌, ◌*◌, ◌^◌, ◌≤◌, Bool, true, false, ◌&&◌, Option, none, some, List, [], ◌∷◌,
  ◌++◌, map, ◌==◌, ltb, leb, if◌then◌else◌, ◌>>=◌, length, take, drop, replicate,
}
use trading_platform.Prelude.Int.{
  ℤ, pos, negsuc, pos_part, neg_part, sub_ℕ, in_i64, ◌+ℤ◌, ◌*ℤ◌, ltb_ℤ,
}
use trading_platform.Packet.{OrderBookData, TimestampUnit, to_nanoseconds, to_fixed}

abbrev pub code_0 : ℕ
code_0 = 48

abbrev pub code_dot : ℕ
code_dot = 46

abbrev pub code_minus : ℕ
code_minus = 45

abbrev pub code_plus : ℕ
code_plus = 43

abbrev pub is_digit : ℕ → Bool
is_digit c = leb code_0 c && leb c 57

-- The number of a text of digits, read from the left.
abbrev pub read_digits : ℕ → List ℕ → Option ℕ
read_digits n [] = some n
read_digits n (c ∷ cs) =
    let rest = read_digits (10 * n + (c - code_0)) cs in if is_digit c then rest else none

-- At least one digit.
abbrev pub read_unsigned : List ℕ → Option ℕ
read_unsigned [] = none
read_unsigned (c ∷ cs) = read_digits 0 (c ∷ cs)

-- `str::parse::<i64>` of the standard library.
unfoldable pub parse_i64 : List ℕ → Option ℤ
parse_i64 [] = none
parse_i64 (c ∷ cs) =
    if c == code_minus
    then (read_unsigned cs >>= λ n. in_i64 (sub_ℕ 0 n))
    else (if c == code_plus
        then (read_unsigned cs >>= λ n. in_i64 (pos n))
        else (read_unsigned (c ∷ cs) >>= λ n. in_i64 (pos n)))

-- `split('.')`: what stands before the first dot, and the parts after it.
abbrev pub split_dot : List ℕ → List ℕ × List (List ℕ)
split_dot [] = ([], [])
split_dot (c ∷ cs) =
    let (part, parts) = split_dot cs in
    if c == code_dot then ([], part ∷ parts) else (c ∷ part, parts)

-- The decimals, padded by zeros or cut to the precision.
abbrev pub fit : ℕ → List ℕ → List ℕ
fit precision cs =
    if ltb (length cs) precision
    then cs ++ replicate (precision - length cs) code_0
    else (if ltb precision (length cs) then take precision cs else cs)

unfoldable pub integer_of : List ℕ → Option ℤ
unfolding parse_i64
integer_of [] = some (pos 0)
integer_of (c ∷ cs) = parse_i64 (c ∷ cs)

-- `10_i64.pow(precision)`, which overflows from 19 on, a panic.
unfoldable pub ten_pow : ℕ → Option ℕ
ten_pow precision = if leb precision 18 then some (10 ^ precision) else none

-- `?` on an `Option`, in code that may panic: `none` is a panic, `some none` the result `None`.
abbrev pub or_return {ℓ κ} :
    {A : Type ℓ} {B : Type κ} → Option A → (A → Option (Option B)) → Option (Option B)
or_return none k = some none
or_return (some a) k = k a

-- The parts between the dots: none, one or more of them.
unfoldable pub scale_parts : List ℕ → List (List ℕ) → ℕ → Option (Option ℤ)
unfolding parse_i64 integer_of ten_pow
scale_parts first [] precision =
    or_return (parse_i64 first)
      (λ integer_part. ten_pow precision >>= λ scale. some (in_i64 (integer_part *ℤ pos scale)))
scale_parts first (second ∷ []) precision = or_return (integer_of first) (λ integer_part.
    or_return (parse_i64 (fit precision second)) (λ decimal_part. ten_pow precision >>= λ scale.
    or_return (in_i64 (integer_part *ℤ pos scale))
      (λ scaled. some (in_i64 (scaled +ℤ decimal_part)))))
scale_parts first (_ ∷ _ ∷ _) precision = some none

unfoldable pub parse_to_scaled : List ℕ → ℕ → Option (Option ℤ)
unfolding scale_parts
parse_to_scaled value precision =
    let (first, parts) = split_dot value in scale_parts first parts precision

-- `none` is a panic.
unfoldable pub parse_to_scaled_or_default : List ℕ → ℕ → Option ℤ
unfolding parse_to_scaled
parse_to_scaled_or_default value precision = parse_to_scaled value precision >>= λ scaled.
    elim scaled [ none ↦ some (pos 0) | some n ↦ some n ]

-- What a normalized trade takes of `TradeData`.
pub record TradeData : Type 0 where
  pub price : ℤ
  pub quantity : ℤ
  pub price_precision : ℕ
  pub quantity_precision : ℕ
  pub timestamp : ℕ
  pub timestamp_unit : TimestampUnit

pub record NormalizedTrade : Type 0 where
  pub ts : ℕ
  pub price : ℤ
  pub quantity : ℤ
  pub side : ℕ
  pub exchange_id : ℕ
  pub symbol_id : ℕ

-- `i64::abs`
abbrev pub abs_i64 : ℤ → Option ℤ
abs_i64 a = in_i64 (pos (pos_part a + neg_part a))

unfoldable pub from_trade_data : TradeData → ℕ → ℕ → Option NormalizedTrade
unfolding to_nanoseconds to_fixed
from_trade_data trade exchange_id symbol_id = do
  ts ← to_nanoseconds trade.timestamp_unit trade.timestamp
  price ← to_fixed trade.price trade.price_precision
  quantity ← to_fixed trade.quantity trade.quantity_precision
  amount ← abs_i64 quantity
  some (record {
    ts = ts;
    price = price;
    quantity = amount;
    side = if ltb_ℤ (pos 0) trade.quantity then 1 else 0;
    exchange_id = exchange_id;
    symbol_id = symbol_id;
  })

unfoldable pub is_buy_trade : NormalizedTrade → Bool
is_buy_trade t = t.side == 1

pub record NormalizedOrderBook : Type 0 where
  pub ts : ℕ
  pub exchange_id : ℕ
  pub symbol_id : ℕ
  pub bids : List (ℤ × ℤ)
  pub asks : List (ℤ × ℤ)

-- The levels are copied in the precision that they have.
unfoldable pub from_orderbook_data : OrderBookData → ℕ → ℕ → Option NormalizedOrderBook
unfolding to_nanoseconds
from_orderbook_data orderbook exchange_id symbol_id = do
  ts ← to_nanoseconds orderbook.timestamp_unit orderbook.timestamp
  some (record {
    ts = ts;
    exchange_id = exchange_id;
    symbol_id = symbol_id;
    bids = orderbook.bids;
    asks = orderbook.asks;
  })

pub record CircularBuffer (A : Type 0) : Type 0 where
  pub buffer : List A
  pub capacity : ℕ

module _ {A : Type 0} where
  unfoldable pub new_circular : ℕ → CircularBuffer A
  new_circular capacity = record { buffer = []; capacity = capacity }

  unfoldable pub push_item : CircularBuffer A → A → CircularBuffer A
  push_item b item =
      let room = if leb b.capacity (length b.buffer) then drop 1 b.buffer else b.buffer in
      record b { buffer = room ++ item ∷ [] }

  unfoldable pub clear_buffer : CircularBuffer A → CircularBuffer A
  clear_buffer b = record b { buffer = [] }
