-- ===== src/Packet/Tests.antt =====
-- Runs of the packets and instances of their theorems.
use trading_platform.Prelude.{◌≡◌, refl, true, arith}
use trading_platform.Packet.{PacketHeader, new_header, item_count, set_flags_and_count}
use trading_platform.Packet.Bytes.{IsHeader}

-- A count of 15 does not fit: 7 is read.
count_of_fifteen : item_count (set_flags_and_count true 2 true 15 new_header) ≡ 7
unfolding item_count set_flags_and_count
count_of_fifteen = refl

abbrev header : PacketHeader
header = record new_header { exchange_timestamp = 1234567; local_timestamp = 1234999 }

header-IsHeader : IsHeader header
header-IsHeader = omega arith
