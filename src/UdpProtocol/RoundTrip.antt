-- ===== src/UdpProtocol/RoundTrip.antt =====
-- What the codec encodes, the receiver reads back.
use trading_platform.Prelude.{
  ℕ, ◌+◌, ◌-◌, ◌%◌, ◌^◌, ◌<◌, ◌≡◌, refl, Bool, true, false, not, ◌&&◌, none, some, List, [], ◌∷◌,
  ◌++◌, append_assoc, append-nil, arith, ◌==◌, ltb, leb, if◌then◌else◌, length, length-append,
}
use trading_platform.MarketTypes.{Exchange, OrderBookUpdate, PriceLevel}
use trading_platform.Packet.{le_bytes}
use trading_platform.UdpProtocol.{
  Wire, write_header, encode_levels, encode_payload, encode_header, encode_orderbook, read_f64,
  read_level, read_levels, read_sides, parse_orderbook, ok, read_body, process_packet, orderbook,
}
use trading_platform.UdpProtocol.Header.{
  and_false, next_bytes-append, read_byte, read_count, FitsI64, IsHeader, read_header-write,
  length-write_header, drop-header, exchange_id-lt,
}

module _ (w : Wire) where
  open w use {F, f64_bytes, f64_value, as_bytes, from_utf8}

  -- `to_le_bytes` of an f64 gives 8 bytes, which `from_le_bytes` turns back into it.
  pub record IsFloatCode : Type 0 where
    pub length-bytes : (x : F) → length (f64_bytes x) ≡ 8
    pub value-bytes : (x : F) → f64_value (f64_bytes x) ≡ x

  module _ (floats : IsFloatCode) where
    read_f64-bytes : (x : F) (rest : List ℕ) → read_f64 w (f64_bytes x ++ rest) ≡ some (x, rest)
    unfolding read_f64
    read_f64-bytes x rest =
        rw (next_bytes-append 8 (f64_bytes x) rest (floats.length-bytes x), floats.value-bytes x)
          refl

    read_level-bytes :
        (level : PriceLevel F) (rest : List ℕ)
        → read_level w (f64_bytes level.price ++ (f64_bytes level.quantity ++ rest))
          ≡ some (level, rest)
    unfolding read_level
    read_level-bytes level rest =
        rw
          (
            read_f64-bytes level.price (f64_bytes level.quantity ++ rest),
            read_f64-bytes level.quantity rest,
          )
          refl

    read_levels-encode :
        (levels : List (PriceLevel F)) (rest : List ℕ)
        → read_levels w (length levels) (encode_levels w levels ++ rest) ≡ some (levels, rest)
    unfolding read_levels encode_levels
    read_levels-encode [] rest = refl
    read_levels-encode (level ∷ levels) rest =
        rw
          (
            append_assoc (f64_bytes level.price)
                (f64_bytes level.quantity ++ encode_levels w levels) rest,
            append_assoc (f64_bytes level.quantity) (encode_levels w levels) rest,
            read_level-bytes level (encode_levels w levels ++ rest),
            read_levels-encode levels rest,
          )
          refl

    flag-byte : (b : Bool) → not ((if b then 1 else 0) == 0) ≡ b
    flag-byte true = refl
    flag-byte false = refl

    pub read_sides-payload :
        (u : OrderBookUpdate F)
        → length u.bids < 2 ^ 16
        → length u.asks < 2 ^ 16
        → read_sides w (encode_payload w u) ≡ some ((u.is_snapshot, u.bids, u.asks), [])
    unfolding read_sides encode_payload
    read_sides-payload u h k =
        let asks : read_levels w (length u.asks) (encode_levels w u.asks) ≡ some (u.asks, []) =
          rw (append-nil (encode_levels w u.asks)) at (read_levels-encode u.asks []) in
        let tail : List ℕ = le_bytes 2 (length u.asks % 2 ^ 16) ++ encode_levels w u.asks in
        rw
          (
            read_byte (if u.is_snapshot then 1 else 0)
                (le_bytes 2 (length u.bids % 2 ^ 16) ++ (encode_levels w u.bids ++ tail)),
            read_count (length u.bids) (encode_levels w u.bids ++ tail) h,
            read_levels-encode u.bids tail,
            read_count (length u.asks) (encode_levels w u.asks) k,
            asks,
            flag-byte u.is_snapshot,
          )
          refl

    pub encode_header-IsHeader :
        (u : OrderBookUpdate F) (sequence : ℕ)
        → FitsI64 u.timestamp
        → sequence < 2 ^ 64
        → IsHeader (encode_header w u sequence)
    unfolding encode_header
    encode_header-IsHeader u sequence fits s = record {
      magic_fits = omega arith;
      sequence_fits = s;
      timestamp_fits = fits;
      exchange_fits = exchange_id-lt u.exchange;
      type_fits = omega arith;
      length_fits = omega arith;
    }

    -- What the receiver makes of an encoded update: all but the three ids, and its own exchange.
    abbrev pub received_update : OrderBookUpdate F → Exchange → OrderBookUpdate F
    received_update u ex = record u {
      exchange = ex;
      update_id = 0;
      first_update_id = 0;
      prev_update_id = none;
    }

    read_body-encode :
        (u : OrderBookUpdate F) (sequence : ℕ) (ex : Exchange)
        → length u.bids < 2 ^ 16
        → length u.asks < 2 ^ 16
        → length (as_bytes u.symbol) < 2 ^ 16
        → from_utf8 (as_bytes u.symbol) ≡ some u.symbol
        → read_body w (encode_header w u sequence) (as_bytes u.symbol ++ encode_payload w u) ex
          ≡ ok (orderbook (received_update u ex))
    unfolding read_body parse_orderbook encode_header
    read_body-encode u sequence ex h k l t =
        let e : length (as_bytes u.symbol) ≡ length (as_bytes u.symbol) % 2 ^ 16 = omega arith in
        let n =
          next_bytes-append (length (as_bytes u.symbol) % 2 ^ 16) (as_bytes u.symbol)
            (encode_payload w u) e in
        ground (arith, n, t, read_sides-payload u h k)

    -- A packet of the codec is received: the update comes out as it went in, but for its exchange,
    -- which is the receiver's, and its ids, which are gone. A loss is reported exactly if the
    -- number is not zero and does not follow the last one. The bids, the asks and the bytes of the
    -- symbol are fewer than 2^16 each, the symbol is valid UTF-8, the timestamp and the number fit
    -- 64 bits, and the last number is not the greatest.
    pub process-encode :
        (u : OrderBookUpdate F) (sequence : ℕ) (ex : Exchange) (last : ℕ)
        → length u.bids < 2 ^ 16
        → length u.asks < 2 ^ 16
        → length (as_bytes u.symbol) < 2 ^ 16
        → from_utf8 (as_bytes u.symbol) ≡ some u.symbol
        → FitsI64 u.timestamp
        → sequence < 2 ^ 64
        → last < 2 ^ 64 - 1
        → process_packet w (encode_orderbook w u sequence) ex last ≡ record {
          outcome = ok (orderbook (received_update u ex));
          last_sequence = sequence;
          loss_reported = ltb 0 sequence && not (sequence == last + 1);
        }
    unfolding process_packet encode_orderbook encode_header
    process-encode u sequence ex last h k l t fits s b =
        let header = encode_header w u sequence in
        let rest : List ℕ = as_bytes u.symbol ++ encode_payload w u in
        let v = encode_header-IsHeader u sequence fits s in
        let long : ltb (length (write_header header ++ rest)) 24 ≡ false =
          ground (arith, length-append (write_header header) rest, length-write_header header) in
        let room : leb (2 ^ 64 - 1) last ≡ false = ground arith in
        rw
          (
            long,
            read_header-write header rest v,
            drop-header header rest,
            room,
            and_false (ltb 0 sequence),
            read_body-encode u sequence ex h k l t,
          )
          refl
