-- ===== src/Packet.antt =====
-- crates/feeder/src/core/binary_udp_packet.rs: the binary packets that the feeder sends, and the
-- TimestampUnit of crates/feeder/src/load_config.rs.
--
-- Bytes are numbers below 2^8. The masks of the flags byte are written with division and remainder,
-- and `|` of masks that do not overlap as a sum. The machine is little-endian: `to_be` swaps the
-- bytes, and the unsafe cast to a slice gives the bytes from the low one up. Scaled prices and
-- quantities are integers; a product outside i64 or a power of ten above 10^18 is `none`, the panic
-- of a build with overflow checks.
-- The clock is an argument. A text is its bytes.
pub mod Bytes
pub mod Flags
pub mod Scale
mod Tests
use trading_platform.Prelude.{
  ℕ, zero, suc, ◌+◌, ◌-◌, ◌*◌, ◌/◌, ◌%◌, ◌^◌, min, Bool, true, false, not, ◌&&◌, Option, none, some,
  List, [], ◌∷◌, ◌++◌, arith, ◌==◌, ltb, leb, if◌then◌else◌, ◌>>=◌, map_some, length, take,
  replicate,
}
use trading_platform.Prelude.Int.{ℤ, pos, negsuc, pos_part, neg_part, sub_ℕ}

-- The bytes of a number of `k` bytes, from the low one up, and the number of some bytes.
unfoldable pub le_bytes : ℕ → ℕ → List ℕ
le_bytes zero n = []
le_bytes (suc k) n = n % 2 ^ 8 ∷ le_bytes k (n / 2 ^ 8)

unfoldable pub le_value : List ℕ → ℕ
le_value [] = 0
le_value (b ∷ bs) = b + 2 ^ 8 * le_value bs

abbrev pub rev : List ℕ → List ℕ
rev [] = []
rev (b ∷ bs) = rev bs ++ b ∷ []

-- `u64::to_be` and `u64::from_be`
unfoldable pub swap_bytes : ℕ → ℕ
unfolding le_bytes le_value
swap_bytes n = le_value (rev (le_bytes 8 n))

pub record PacketHeader : Type 0 where
  pub protocol_version : ℕ
  pub exchange_timestamp : ℕ
  pub local_timestamp : ℕ
  pub flags_and_count : ℕ
  pub symbol : List ℕ
  pub exchange : List ℕ

abbrev pub new_header : PacketHeader
new_header = record {
  protocol_version = 1;
  exchange_timestamp = 0;
  local_timestamp = 0;
  flags_and_count = 0;
  symbol = replicate 20 0;
  exchange = replicate 20 0;
}

-- `flags & 0b1000_0000 != 0`, and so on.
unfoldable pub is_last : PacketHeader → Bool
is_last h = not (h.flags_and_count / 2 ^ 7 % 2 == 0)

unfoldable pub packet_type : PacketHeader → ℕ
packet_type h = h.flags_and_count / 2 ^ 4 % 2 ^ 3

unfoldable pub is_bid : PacketHeader → Bool
is_bid h = not (h.flags_and_count / 2 ^ 3 % 2 == 0)

unfoldable pub item_count : PacketHeader → ℕ
item_count h = h.flags_and_count % 2 ^ 3

unfoldable pub set_flags_and_count : Bool → ℕ → Bool → ℕ → PacketHeader → PacketHeader
set_flags_and_count last kind bid count h = record h {
  flags_and_count =
      (if last then 2 ^ 7 else 0)
      + kind % 2 ^ 3 * 2 ^ 4
      + (if bid then 2 ^ 3 else 0)
      + count % 2 ^ 3;
}

-- The 20 bytes of a name: at most 19 of its own, and zeros.
unfoldable pub name_bytes : List ℕ → List ℕ
name_bytes name = let len = min (length name) 19 in take len name ++ replicate (20 - len) 0

unfoldable pub set_symbol : List ℕ → PacketHeader → PacketHeader
unfolding name_bytes
set_symbol symbol h = record h { symbol = name_bytes symbol }

unfoldable pub set_exchange : List ℕ → PacketHeader → PacketHeader
unfolding name_bytes
set_exchange name h = record h { exchange = name_bytes name }

-- `to_network_order`; `from_network_order` is the same swap.
unfoldable pub to_network_order : PacketHeader → PacketHeader
unfolding swap_bytes
to_network_order h = record h {
  exchange_timestamp = swap_bytes h.exchange_timestamp;
  local_timestamp = swap_bytes h.local_timestamp;
}

pub record BinaryUdpPacket : Type 0 where
  pub header : PacketHeader
  pub payload : List ℕ

-- The packed struct as bytes in memory.
unfoldable pub header_bytes : PacketHeader → List ℕ
unfolding le_bytes
header_bytes h =
    h.protocol_version % 2 ^ 8
    ∷ (le_bytes 8 h.exchange_timestamp
        ++ (le_bytes 8 h.local_timestamp ++ (h.flags_and_count % 2 ^ 8 ∷ (h.symbol ++ h.exchange))))

-- `to_bytes`, which leaves the packet's header in network order.
unfoldable pub to_bytes : BinaryUdpPacket → BinaryUdpPacket × List ℕ
unfolding to_network_order header_bytes
to_bytes p =
    let header = to_network_order p.header in
    (record p { header = header }, header_bytes header ++ p.payload)

-- An i64, or a panic on overflow.
abbrev checked_i64 : ℤ → Option ℤ
checked_i64 (pos n) = if ltb n (2 ^ 63) then some (pos n) else none
checked_i64 (negsuc n) = if ltb n (2 ^ 63) then some (negsuc n) else none

-- The product by, and the quotient by, a number above zero; `/` rounds towards zero.
abbrev pub scale_up : ℤ → ℕ → ℤ
scale_up (pos n) m = pos (n * m)
scale_up (negsuc n) m = sub_ℕ 0 ((n + 1) * m)

abbrev pub scale_down : ℤ → ℕ → ℤ
scale_down (pos n) m = pos (n / m)
scale_down (negsuc n) m = sub_ℕ 0 ((n + 1) / m)

-- `10_i64.pow(e)`
abbrev checked_pow : ℕ → Option ℕ
checked_pow e = if leb e 18 then some (10 ^ e) else none

-- The scaling of `new_from_scaled` for one number.
unfoldable pub to_fixed : ℤ → ℕ → Option ℤ
to_fixed value precision =
    if precision == 8
    then some value
    else (if ltb precision 8
        then checked_i64 (scale_up value (10 ^ (8 - precision)))
        else (checked_pow (precision - 8) >>= λ m. some (scale_down value m)))

pub record OrderBookItem : Type 0 where
  pub price : ℤ
  pub quantity : ℤ

unfoldable pub new_orderbook_item : ℤ → ℤ → ℕ → ℕ → Option OrderBookItem
unfolding to_fixed
new_orderbook_item price quantity price_precision qty_precision = do
  p ← to_fixed price price_precision
  q ← to_fixed quantity qty_precision
  some (record { price = p; quantity = q })

-- `x as u64`
abbrev bits : ℤ → ℕ
bits (pos n) = n % 2 ^ 64
bits (negsuc n) = 2 ^ 64 - 1 - n % 2 ^ 64

-- The bytes of an item in network order.
unfoldable pub item_bytes : OrderBookItem → List ℕ
unfolding swap_bytes le_bytes
item_bytes item =
    le_bytes 8 (swap_bytes (bits item.price)) ++ le_bytes 8 (swap_bytes (bits item.quantity))

pub data TimestampUnit : Type 0 where
  milliseconds microseconds nanoseconds seconds : TimestampUnit

abbrev pub unit_size : TimestampUnit → ℕ
unit_size seconds = 1_000_000_000
unit_size milliseconds = 1_000_000
unit_size microseconds = 1_000
unit_size nanoseconds = 1

-- `to_nanoseconds`; an overflow is a panic.
unfoldable pub to_nanoseconds : TimestampUnit → ℕ → Option ℕ
to_nanoseconds unit timestamp =
    let nanos = timestamp * unit_size unit in if ltb nanos (2 ^ 64) then some nanos else none

unfoldable pub from_nanoseconds : TimestampUnit → ℕ → ℕ
from_nanoseconds unit nanos = nanos / unit_size unit

-- What a packet takes of `OrderBookData`.
pub record OrderBookData : Type 0 where
  pub exchange : List ℕ
  pub symbol : List ℕ
  pub timestamp : ℕ
  pub timestamp_unit : TimestampUnit
  pub price_precision : ℕ
  pub quantity_precision : ℕ
  pub bids : List (ℤ × ℤ)
  pub asks : List (ℤ × ℤ)

unfoldable pub payload_of : ℕ → ℕ → List (ℤ × ℤ) → Option (List ℕ)
unfolding new_orderbook_item item_bytes
payload_of price_precision qty_precision [] = some []
payload_of price_precision qty_precision ((p, q) ∷ levels) = do
  item ← new_orderbook_item p q price_precision qty_precision
  rest ← payload_of price_precision qty_precision levels
  some (item_bytes item ++ rest)

-- `from_orderbook` at the clock's `now` in nanoseconds.
unfoldable pub from_orderbook : ℕ → OrderBookData → Bool → Option BinaryUdpPacket
unfolding to_nanoseconds set_symbol set_exchange set_flags_and_count payload_of
from_orderbook now data_ bid = do
  nanos ← to_nanoseconds data_.timestamp_unit data_.timestamp
  let levels = if bid then data_.bids else data_.asks
  let count = min (length levels) 7
  payload ← payload_of data_.price_precision data_.quantity_precision (take 7 levels)
  some (record {
    header = set_flags_and_count true 2 bid count (
        set_exchange data_.exchange (
          set_symbol data_.symbol
            (record new_header { exchange_timestamp = nanos; local_timestamp = now % 2 ^ 64 })));
    payload = payload;
  })
