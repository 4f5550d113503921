-- ===== src/UdpProtocol.antt =====
-- crates/udp-protocol/src: the binary codec (codec.rs) and the receiver of its packets
-- (receiver.rs).
--
-- A packet is a list of bytes, and the machine is little-endian: the unsafe casts between the packed
-- header and its 24 bytes read each field from the low byte up. The bytes of an f64 and of a text
-- are a parameter. A slice out of range and an overflow of the sequence number are a panic; the
-- sockets and channels are outside, and a packet's processing gives what it would send on.
-- The text codec is calls of a serialisation library.
pub mod Header
pub mod RoundTrip
pub mod Truncated
mod Tests
use Prim.Native.String.{String}
use trading_platform.Prelude.{
  ℕ, zero, suc, ◌+◌, ◌-◌, ◌*◌, ◌%◌, ◌^◌, Bool, true, false, not, ◌&&◌, ◌||◌, Option, none, some,
  List, [], ◌∷◌, ◌++◌, arith, ◌==◌, ltb, leb, if◌then◌else◌, ◌>>=◌, length, take, drop,
}
use trading_platform.Prelude.Int.{ℤ, pos, negsuc}
use trading_platform.MarketTypes.{
  Exchange, OrderBookUpdate, PriceLevel, Trade, Side, buy, sell, as_u64, binance, binance_futures,
  bybit, bybit_linear, upbit, coinbase, okx, deribit, bithumb, ls_exchange,
}
use trading_platform.Packet.{le_bytes, le_value}

-- `to_le_bytes` and `from_le_bytes` of f64, and `as_bytes` and `from_utf8` of texts.
pub record Wire : Type 1 where
  pub F : Type 0
  pub f64_bytes : F → List ℕ
  pub f64_value : List ℕ → F
  pub as_bytes : String → List ℕ
  pub from_utf8 : List ℕ → Option String

-- "HFTP"
abbrev pub magic_number : ℕ
magic_number = 0x48465450

abbrev pub header_size : ℕ
header_size = 24

-- The i64 with the bits of a u64.
abbrev pub of_u64 : ℕ → ℤ
of_u64 n = if ltb n (2 ^ 63) then pos n else negsuc (2 ^ 64 - 1 - n)

-- `exchange as u8`
abbrev pub exchange_id : Exchange → ℕ
exchange_id binance = 0
exchange_id binance_futures = 1
exchange_id bybit = 2
exchange_id bybit_linear = 3
exchange_id upbit = 4
exchange_id coinbase = 5
exchange_id okx = 6
exchange_id deribit = 7
exchange_id bithumb = 8
exchange_id ls_exchange = 9

pub record BinaryPacketHeader : Type 0 where
  pub magic : ℕ
  pub sequence : ℕ
  pub timestamp : ℤ
  pub exchange_id : ℕ
  pub message_type : ℕ
  pub symbol_len : ℕ

-- The packed header in memory, and the header in some memory.
unfoldable pub write_header : BinaryPacketHeader → List ℕ
unfolding le_bytes
write_header h =
    le_bytes 4 h.magic
    ++ (le_bytes 8 h.sequence
        ++ (le_bytes 8 (as_u64 h.timestamp)
            ++ (h.exchange_id ∷ h.message_type ∷ le_bytes 2 h.symbol_len)))

unfoldable pub read_header : List ℕ → BinaryPacketHeader
unfolding le_value
read_header data_bytes = record {
  magic = le_value (take 4 data_bytes);
  sequence = le_value (take 8 (drop 4 data_bytes));
  timestamp = of_u64 (le_value (take 8 (drop 12 data_bytes)));
  exchange_id = le_value (take 1 (drop 20 data_bytes));
  message_type = le_value (take 1 (drop 21 data_bytes));
  symbol_len = le_value (take 2 (drop 22 data_bytes));
}

pub data Fault : Type 0 where
  too_small bad_magic not_utf8 unknown_type not_implemented : Fault

pub data Received (A : Type 0) : Type 0 where
  ok : A → Received A
  err : Fault → Received A
  panic : Received A

-- The bytes from an offset on are `data_bytes`: the next `n` of them and the rest, or the panic of
-- a slice out of range.
unfoldable pub next_bytes : ℕ → List ℕ → Option (List ℕ × List ℕ)
next_bytes n data_bytes =
    if leb n (length data_bytes) then some (take n data_bytes, drop n data_bytes) else none

unfoldable pub read_number : ℕ → List ℕ → Option (ℕ × List ℕ)
read_number n data_bytes = next_bytes n data_bytes >>= λ p. some (le_value p.0, p.1)

-- `BinaryCodec::decode`, which never gives a packet: it answers with an error.
unfoldable pub decode : List ℕ → Fault
decode data_bytes =
    let header = read_header data_bytes in
    if ltb (length data_bytes) header_size
    then too_small
    else (if not (header.magic == magic_number)
        then bad_magic
        else (if (header.message_type == 0) || (header.message_type == 1)
            then not_implemented
            else unknown_type))

module _ (w : Wire) where
  open w use {F, f64_bytes, f64_value, as_bytes, from_utf8}

  unfoldable pub encode_levels : List (PriceLevel F) → List ℕ
  encode_levels [] = []
  encode_levels (level ∷ levels) =
      f64_bytes level.price ++ (f64_bytes level.quantity ++ encode_levels levels)

  -- `BinaryCodec::encode_orderbook`
  unfoldable pub encode_header : OrderBookUpdate F → ℕ → BinaryPacketHeader
  encode_header orderbook sequence = record {
    magic = magic_number;
    sequence = sequence;
    timestamp = orderbook.timestamp;
    exchange_id = exchange_id orderbook.exchange;
    message_type = 0;
    symbol_len = length (as_bytes orderbook.symbol) % 2 ^ 16;
  }

  unfoldable pub encode_payload : OrderBookUpdate F → List ℕ
  encode_payload orderbook =
      (if orderbook.is_snapshot then 1 else 0)
      ∷ (le_bytes 2 (length orderbook.bids % 2 ^ 16)
          ++ (encode_levels orderbook.bids
              ++ (le_bytes 2 (length orderbook.asks % 2 ^ 16) ++ encode_levels orderbook.asks)))

  unfoldable pub encode_orderbook : OrderBookUpdate F → ℕ → List ℕ
  encode_orderbook orderbook sequence =
      write_header (encode_header orderbook sequence)
      ++ (as_bytes orderbook.symbol ++ encode_payload orderbook)

  unfoldable pub read_f64 : List ℕ → Option (F × List ℕ)
  read_f64 data_bytes = next_bytes 8 data_bytes >>= λ p. some (f64_value p.0, p.1)

  unfoldable pub read_level : List ℕ → Option (PriceLevel F × List ℕ)
  read_level data_bytes = read_f64 data_bytes >>= λ p.
      (read_f64 p.1 >>= λ q. some (record { price = p.0; quantity = q.0 }, q.1))

  unfoldable pub read_levels : ℕ → List ℕ → Option (List (PriceLevel F) × List ℕ)
  read_levels zero data_bytes = some ([], data_bytes)
  read_levels (suc count) data_bytes =
      read_level data_bytes >>= λ p. (read_levels count p.1 >>= λ q. some (p.0 ∷ q.0, q.1))

  -- The payload's content and what follows it.
  unfoldable pub read_sides :
      List ℕ → Option ((Bool × List (PriceLevel F) × List (PriceLevel F)) × List ℕ)
  read_sides data_bytes = do
    flag ← read_number 1 data_bytes
    bid_count ← read_number 2 flag.1
    bids ← read_levels bid_count.0 bid_count.1
    ask_count ← read_number 2 bids.1
    asks ← read_levels ask_count.0 ask_count.1
    some ((not (flag.0 == 0), bids.0, asks.0), asks.1)

  unfoldable pub parse_orderbook : List ℕ → Exchange → String → ℤ → Received (OrderBookUpdate F)
  parse_orderbook data_bytes exchange symbol timestamp = elim (read_sides data_bytes) [
    | none ↦ panic
    | some ((is_snapshot, bids, asks), rest) ↦ ok (record {
      exchange = exchange;
      symbol = symbol;
      timestamp = timestamp;
      bids = bids;
      asks = asks;
      is_snapshot = is_snapshot;
      update_id = 0;
      first_update_id = 0;
      prev_update_id = none;
    })
  ]

  -- Price, quantity, side, and the bytes of the id.
  unfoldable pub read_trade : List ℕ → Option ((F × F × Side × List ℕ) × List ℕ)
  read_trade data_bytes = do
    price ← read_f64 data_bytes
    quantity ← read_f64 price.1
    side ← read_number 1 quantity.1
    id_len ← read_number 1 side.1
    trade_id ← next_bytes id_len.0 id_len.1
    some ((price.0, quantity.0, (if side.0 == 0 then buy else sell), trade_id.0), trade_id.1)

  unfoldable pub parse_trade : List ℕ → Exchange → String → ℤ → Received (Trade F)
  parse_trade data_bytes exchange symbol timestamp = elim (read_trade data_bytes) [
    | none ↦ panic
    | some ((price, quantity, side, id), rest) ↦ elim (from_utf8 id) [
      | none ↦ err not_utf8
      | some trade_id ↦ ok (record {
        exchange = exchange;
        symbol = symbol;
        timestamp = timestamp;
        price = price;
        quantity = quantity;
        side = side;
        trade_id = trade_id;
      })
    ]
  ]

  -- What is sent on to one of the two channels.
  pub data Delivery : Type 0 where
    orderbook : OrderBookUpdate F → Delivery
    trade : Trade F → Delivery

  abbrev pub map_ok : {A : Type 0} → (A → Delivery) → Received A → Received Delivery
  map_ok f (ok a) = ok (f a)
  map_ok f (err e) = err e
  map_ok f panic = panic

  -- The part of `process_packet` after the header.
  unfoldable pub read_body : BinaryPacketHeader → List ℕ → Exchange → Received Delivery
  read_body header body exchange = elim (next_bytes header.symbol_len body) [
    | none ↦ panic
    | some (symbol_bytes, payload) ↦ elim (from_utf8 symbol_bytes) [
      | none ↦ err not_utf8
      | some symbol ↦
          if header.message_type == 0
          then map_ok orderbook (parse_orderbook payload exchange symbol header.timestamp)
          else (if header.message_type == 1
              then map_ok trade (parse_trade payload exchange symbol header.timestamp)
              else err unknown_type)
    ]
  ]

  -- The outcome, the receiver's `last_sequence`, and whether a loss of packets is reported.
  pub record Processed : Type 0 where
    pub outcome : Received Delivery
    pub last_sequence : ℕ
    pub loss_reported : Bool

  unfoldable pub process_packet : List ℕ → Exchange → ℕ → Processed
  process_packet data_bytes exchange last_sequence =
      let header = read_header data_bytes in
      if ltb (length data_bytes) header_size
      then record { outcome = err too_small; last_sequence = last_sequence; loss_reported = false }
      else (if not (header.magic == magic_number)
          then record {
            outcome = err bad_magic;
            last_sequence = last_sequence;
            loss_reported = false;
          }
          else (if ltb 0 header.sequence && leb (2 ^ 64 - 1) last_sequence
              then record { outcome = panic; last_sequence = last_sequence; loss_reported = false }
              else record {
                outcome = read_body header (drop header_size data_bytes) exchange;
                last_sequence = header.sequence;
                loss_reported = ltb 0 header.sequence && not (header.sequence == last_sequence + 1);
              }))
