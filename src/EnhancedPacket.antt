-- ===== src/EnhancedPacket.antt =====
-- crates/feeder/src/core/enhanced_packet.rs: packets that carry the scale of their numbers.
--
-- Texts and packets are bytes. `String::from_utf8_lossy` is a parameter, and so are the precision
-- manager's answer for the price and the JSON text of a trade. Prices and quantities are integers;
-- a product or a power of ten outside i64 is `none`, the panic of a build with overflow checks. The
-- decoding to f64 is left out.
pub mod Binary
pub mod Rescale
pub mod TextPacket
mod Tests
use trading_platform.Prelude.{
  ℕ, suc, ◌+◌, ◌-◌, ◌*◌, ◌^◌, Bool, true, false, not, ◌&&◌, Option, none, some, List, [], ◌∷◌, ◌++◌,
  map, ◌==◌, ltb, leb, if◌then◌else◌, ◌>>=◌, length, take, drop, replicate,
}
use trading_platform.Prelude.Int.{in_i64, ℤ, pos, negsuc}
use trading_platform.Prelude.Bytes.{Text, text_eq, bytes_of}
use trading_platform.Prelude.Decimal.{decimal}
use trading_platform.MarketTypes.{as_u64}
use trading_platform.Packet.{le_bytes, le_value, rev, scale_up, scale_down}
use trading_platform.UdpProtocol.{of_u64}

-- What the packets take of `TradeData` and of `OrderBookData`.
pub record TradeInput : Type 0 where
  pub exchange : Text
  pub symbol : Text
  pub price : ℤ
  pub quantity : ℤ
  pub price_precision : ℕ
  pub quantity_precision : ℕ
  pub timestamp : ℕ

pub record BookInput : Type 0 where
  pub exchange : Text
  pub symbol : Text
  pub bids : List (ℤ × ℤ)
  pub asks : List (ℤ × ℤ)
  pub price_precision : ℕ
  pub quantity_precision : ℕ
  pub timestamp : ℕ

pub record EnhancedTradePacket : Type 0 where
  pub exchange : Text
  pub symbol : Text
  pub timestamp : ℕ
  pub price_scale : ℕ
  pub quantity_scale : ℕ
  pub price_scaled : ℤ
  pub quantity_scaled : ℤ
  pub side : Text
  pub trade_id : Option Text

pub record EnhancedOrderBookPacket : Type 0 where
  pub exchange : Text
  pub symbol : Text
  pub timestamp : ℕ
  pub price_scale : ℕ
  pub quantity_scale : ℕ
  pub bids : List (ℤ × ℤ)
  pub asks : List (ℤ × ℤ)

-- From one precision to another: by a product, by a quotient towards zero, or as it is.
unfoldable pub rescale : ℤ → ℕ → ℕ → Option ℤ
rescale value precision scale =
    if ltb precision scale
    then (if leb (scale - precision) 18
        then in_i64 (scale_up value (10 ^ (scale - precision)))
        else none)
    else (if ltb scale precision
        then (if leb (precision - scale) 18
            then some (scale_down value (10 ^ (precision - scale)))
            else none)
        else some value)

-- `EnhancedTradePacket::from_trade_data`, with the answer of `get_price_decimals`.
unfoldable pub from_trade_data : ℕ → TradeInput → Option EnhancedTradePacket
from_trade_data price_scale trade = do
  price_scaled ← rescale trade.price trade.price_precision price_scale
  quantity_scaled ← rescale trade.quantity trade.quantity_precision 8
  some (record {
    exchange = trade.exchange;
    symbol = trade.symbol;
    timestamp = trade.timestamp;
    price_scale = price_scale;
    quantity_scale = 8;
    price_scaled = price_scaled;
    quantity_scaled = quantity_scaled;
    side = bytes_of "unknown";
    trade_id = none;
  })

unfoldable pub scale_levels : ℕ → BookInput → List (ℤ × ℤ) → Option (List (ℤ × ℤ))
scale_levels price_scale book [] = some []
scale_levels price_scale book ((price, quantity) ∷ levels) =
    rescale price book.price_precision price_scale >>= λ p.
    (rescale quantity book.quantity_precision 8 >>= λ q.
    (scale_levels price_scale book levels >>= λ rest. some ((p, q) ∷ rest)))

-- `EnhancedOrderBookPacket::from_orderbook_data`
unfoldable pub from_orderbook_data : ℕ → BookInput → Option EnhancedOrderBookPacket
from_orderbook_data price_scale book = do
  bids ← scale_levels price_scale book book.bids
  asks ← scale_levels price_scale book book.asks
  some (record {
    exchange = book.exchange;
    symbol = book.symbol;
    timestamp = book.timestamp;
    price_scale = price_scale;
    quantity_scale = 8;
    bids = bids;
    asks = asks;
  })

-- `resize(20, 0)`
unfoldable pub resize_20 : Text → Text
resize_20 name = take 20 name ++ replicate (20 - length name) 0

abbrev pub be_bytes : ℕ → List ℕ
be_bytes n = rev (le_bytes 8 n)

unfoldable pub to_binary : EnhancedTradePacket → List ℕ
unfolding resize_20
to_binary p =
    1
    ∷ p.price_scale
    ∷ p.quantity_scale
    ∷ (resize_20 p.exchange
        ++ (resize_20 p.symbol
            ++ (be_bytes p.timestamp
                ++ (be_bytes (as_u64 p.price_scaled)
                    ++ (be_bytes (as_u64 p.quantity_scaled)
                        ++ (if text_eq.beq p.side (bytes_of "buy") then 1 else 0) ∷ [])))))

abbrev pub be_value : List ℕ → ℕ
be_value bytes = le_value (rev bytes)

-- `trim_end_matches('\0')`
unfoldable pub trim_zeros : Text → Text
trim_zeros [] = []
trim_zeros (c ∷ cs) = elim (trim_zeros cs) [
  | [] ↦ if c == 0 then [] else c ∷ []
  | d ∷ ds ↦ c ∷ d ∷ ds
]

pub data BinaryError : Type 0 where
  insufficient_data not_a_trade : BinaryError

pub data Parsed (A : Type 0) : Type 0 where
  ok : A → Parsed A
  err : BinaryError → Parsed A

-- The byte at an index that the length allows.
abbrev byte_at : ℕ → List ℕ → ℕ
byte_at i bytes = le_value (take 1 (drop i bytes))

unfoldable pub from_binary : (Text → Text) → List ℕ → Parsed EnhancedTradePacket
unfolding trim_zeros
from_binary from_utf8_lossy bytes =
    if ltb (length bytes) 68
    then err insufficient_data
    else (if not (byte_at 0 bytes == 1)
        then err not_a_trade
        else ok (record {
          exchange = trim_zeros (from_utf8_lossy (take 20 (drop 3 bytes)));
          symbol = trim_zeros (from_utf8_lossy (take 20 (drop 23 bytes)));
          timestamp = be_value (take 8 (drop 43 bytes));
          price_scale = byte_at 1 bytes;
          quantity_scale = byte_at 2 bytes;
          price_scaled = of_u64 (be_value (take 8 (drop 51 bytes)));
          quantity_scaled = of_u64 (be_value (take 8 (drop 59 bytes)));
          side = if byte_at 67 bytes == 1 then bytes_of "buy" else bytes_of "sell";
          trade_id = none;
        }))

-- format!("TRADE|{}|{}", price_scale, json)
unfoldable pub create_enhanced_text_packet : ℕ → Text → Text
create_enhanced_text_packet price_scale json =
    bytes_of "TRADE" ++ b'|' ∷ (decimal 19 price_scale ++ b'|' ∷ json)

-- `split('|')`: the first part, and the others.
unfoldable pub split_bars : Text → Text × List Text
split_bars [] = ([], [])
split_bars (c ∷ cs) =
    let rest = split_bars cs in if c == b'|' then ([], rest.0 ∷ rest.1) else (c ∷ rest.0, rest.1)

-- `join("|")` of one part and others
unfoldable pub join_bars : Text → List Text → Text
join_bars first [] = first
join_bars first (part ∷ parts) = first ++ b'|' ∷ join_bars part parts

-- `parse::<u8>`: decimal digits, at least one, with a plus sign at most; `none` beyond 255.
unfoldable pub digits_u8 : ℕ → Text → Option ℕ
digits_u8 n [] = some n
digits_u8 n (c ∷ cs) =
    let next = 10 * n + (c - 48) in
    if leb 48 c && leb c 57 && ltb next 256 then digits_u8 next cs else none

unfoldable pub parse_u8 : Text → Option ℕ
parse_u8 [] = none
parse_u8 (c ∷ cs) =
    let plus : Option ℕ = elim cs [ [] ↦ none | d ∷ ds ↦ digits_u8 0 (d ∷ ds) ] in
    if c == b'+' then plus else digits_u8 0 (c ∷ cs)

pub data PacketText : Type 0 where
  trade_text : ℕ → Text → PacketText
  invalid_format : PacketText
  unknown_type : PacketText

abbrev or_8 : Option ℕ → ℕ
or_8 none = 8
or_8 (some n) = n

unfoldable pub parse_parts : Text → List Text → PacketText
parse_parts kind [] = invalid_format
parse_parts kind (scale ∷ []) = invalid_format
parse_parts kind (scale ∷ part ∷ parts) =
    if text_eq.beq kind (bytes_of "TRADE")
    then trade_text (or_8 (parse_u8 scale)) (join_bars part parts)
    else unknown_type

unfoldable pub parse_enhanced_text_packet : Text → PacketText
parse_enhanced_text_packet packet = let parts = split_bars packet in parse_parts parts.0 parts.1
