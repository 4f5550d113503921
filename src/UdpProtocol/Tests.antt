-- ===== src/UdpProtocol/Tests.antt =====
-- Packets of the binary codec on concrete data.
use Prim.Native.Char.{code}
use Prim.Native.String.{String}
use trading_platform.Prelude.{
  ℕ, ◌≡◌, ◌≢◌, refl, Bool, true, false, not, ◌&&◌, Option, none, some, List, [], ◌∷◌, arith, ltb,
  ◌==◌, ◌+◌, if◌then◌else◌, length, take, drop, take-append-drop,
}
use trading_platform.Prelude.Int.{pos}
use trading_platform.Packet.{le_bytes}
use trading_platform.MarketTypes.{OrderBookUpdate, okx, bybit}
use trading_platform.UdpProtocol.{
  Wire, encode_orderbook, encode_header, encode_payload, encode_levels, write_header,
  process_packet, read_header, header_size, ok, err, panic, too_small, not_implemented, decode,
  orderbook,
}
use trading_platform.UdpProtocol.RoundTrip.{IsFloatCode, received_update, process-encode}
use trading_platform.UdpProtocol.Truncated.{truncated_packet}

-- An f64 as its eight bytes, and texts that are known.
abbrev F64 : Type 0
F64 = ℕ × ℕ × ℕ × ℕ × ℕ × ℕ × ℕ × ℕ

abbrev eight : List ℕ → F64
eight (a ∷ b ∷ c ∷ d ∷ e ∷ f ∷ g ∷ h ∷ rest) = (a, b, c, d, e, f, g, h)
eight bytes = (0, 0, 0, 0, 0, 0, 0, 0)

abbrev codes : String → List ℕ
codes String.[] = []
codes (String.◌∷◌ c s) = code c ∷ codes s

abbrev same : List ℕ → List ℕ → Bool
same [] [] = true
same (b ∷ bs) (c ∷ cs) = (b == c) && same bs cs
same bs cs = false

abbrev known : List ℕ → Option String
known bytes = if same bytes (codes "BTC") then some "BTC" else none

abbrev bytes_of : Wire
bytes_of = record {
  F = F64;
  f64_bytes = λ x. x.0 ∷ x.1 ∷ x.2 ∷ x.3 ∷ x.4 ∷ x.5 ∷ x.6 ∷ x.7 ∷ [];
  f64_value = eight;
  as_bytes = codes;
  from_utf8 = known;
}

bytes_of-IsFloatCode : IsFloatCode bytes_of
bytes_of-IsFloatCode = record { length-bytes = λ x. refl; value-bytes = λ x. refl }

abbrev one_bid : OrderBookUpdate F64
one_bid = record {
  exchange = okx;
  symbol = "BTC";
  timestamp = pos 1700000000000;
  bids = record { price = (0, 0, 0, 0, 0, 0, 89, 64); quantity = (0, 0, 0, 0, 0, 0, 240, 63) } ∷ [];
  asks = [];
  is_snapshot = true;
  update_id = 12;
  first_update_id = 11;
  prev_update_id = none;
}

process-encode_example :
    process_packet bytes_of (encode_orderbook bytes_of one_bid 7) bybit 5 ≡ record {
      outcome = ok (orderbook (received_update bytes_of bytes_of-IsFloatCode one_bid bybit));
      last_sequence = 7;
      loss_reported = ltb 0 7 && not (7 == 5 + 1);
    }
process-encode_example =
    process-encode bytes_of bytes_of-IsFloatCode one_bid 7 bybit 5 (omega arith) (omega arith)
      (omega arith) refl (omega arith) (omega arith) (omega arith)

abbrev whole_packet : List ℕ
whole_packet = encode_orderbook bytes_of one_bid 7

cut_off : drop 40 whole_packet ≢ []
unfolding encode_orderbook write_header encode_header encode_payload encode_levels le_bytes
cut_off e = cc

truncated_packet_example :
    (process_packet bytes_of (take 40 whole_packet) bybit 5).outcome
    ≡ (if ltb (length (take 40 whole_packet)) header_size then err too_small else panic)
truncated_packet_example =
    truncated_packet bytes_of bytes_of-IsFloatCode one_bid 7 bybit 5 (take 40 whole_packet)
      (drop 40 whole_packet) (omega arith) (omega arith) (omega arith) refl (omega arith)
      (omega arith) (take-append-drop 40 whole_packet) cut_off

decode_encoded : decode whole_packet ≡ not_implemented
unfolding decode read_header encode_orderbook write_header encode_header encode_payload
    encode_levels le_bytes
decode_encoded = refl
