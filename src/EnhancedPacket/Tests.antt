-- ===== src/EnhancedPacket/Tests.antt =====
-- Enhanced packets on concrete data.
use trading_platform.Prelude.{◌≡◌, refl, none, some, arith, if◌then◌else◌}
use trading_platform.Prelude.Int.{ℤ, pos, negsuc, pos_part, neg_part}
use trading_platform.Prelude.Bytes.{Text, text_eq, bytes_of}
use trading_platform.UdpProtocol.Header.{FitsI64}
use trading_platform.EnhancedPacket.{
  TradeInput, EnhancedTradePacket, rescale, from_trade_data, to_binary, trim_zeros, from_binary, ok,
  create_enhanced_text_packet, parse_enhanced_text_packet, trade_text,
}
use trading_platform.EnhancedPacket.Binary.{IsWritable, from_binary-to_binary}
use trading_platform.EnhancedPacket.Rescale.{IsRounded, rescale_bounds}
use trading_platform.EnhancedPacket.TextPacket.{parse-create_enhanced_text_packet}

-- ASCII text is valid UTF-8.
abbrev lossy : Text → Text
lossy bytes = bytes

abbrev one_trade : TradeInput
one_trade = record {
  exchange = bytes_of "Binance";
  symbol = bytes_of "BTC/USDT";
  price = pos 5000012000000;
  quantity = pos 50000000;
  price_precision = 8;
  quantity_precision = 8;
  timestamp = 1234567890;
}

abbrev one_packet : EnhancedTradePacket
one_packet = record {
  exchange = bytes_of "Binance";
  symbol = bytes_of "BTC/USDT";
  timestamp = 1234567890;
  price_scale = 2;
  quantity_scale = 8;
  price_scaled = pos 5000012;
  quantity_scaled = pos 50000000;
  side = bytes_of "unknown";
  trade_id = none;
}

one_packet_made : from_trade_data 2 one_trade ≡ some one_packet
unfolding from_trade_data rescale
one_packet_made = refl

one_packet-IsWritable : IsWritable one_packet
unfolding trim_zeros
one_packet-IsWritable = record {
  exchange_fits = omega arith;
  exchange_trimmed = refl;
  symbol_fits = omega arith;
  symbol_trimmed = refl;
  timestamp_fits = omega arith;
  price_fits = omega arith;
  quantity_fits = omega arith;
}

from_binary-to_binary_example :
    from_binary lossy (to_binary one_packet)
    ≡ ok (record one_packet {
      side =
          if text_eq.beq one_packet.side (bytes_of "buy") then bytes_of "buy" else bytes_of "sell";
      trade_id = none;
    })
from_binary-to_binary_example =
    from_binary-to_binary lossy one_packet one_packet-IsWritable refl refl

abbrev price : ℤ
price = negsuc 1234567

rescaled : rescale price 8 2 ≡ some (negsuc 0)
unfolding rescale
rescaled = refl

price_fits : FitsI64 price
price_fits = omega arith

rescale_bounds_example :
    FitsI64 (negsuc 0)
    × IsRounded 8 2 (pos_part price) (pos_part (negsuc 0))
    × IsRounded 8 2 (neg_part price) (neg_part (negsuc 0))
rescale_bounds_example = rescale_bounds price (negsuc 0) 8 2 price_fits rescaled

parse-create_enhanced_text_packet_example :
    parse_enhanced_text_packet (create_enhanced_text_packet 2 (bytes_of "a|b"))
    ≡ trade_text 2 (bytes_of "a|b")
parse-create_enhanced_text_packet_example =
    parse-create_enhanced_text_packet 2 (bytes_of "a|b") (omega arith)
