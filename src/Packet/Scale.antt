-- ===== src/Packet/Scale.antt =====
-- Timestamps and scaled numbers.
use trading_platform.Prelude.{
  ℕ, ◌*◌, ◌/◌, ◌%◌, ◌^◌, min, ◌≤◌, ◌<◌, ◌≡◌, ◌⊎◌, inl, inr, refl, ◌∙◌, Bool, true, none, some, List,
  [], ◌∷◌, ◌++◌, arith, length, length-append, take, if◌then◌else◌, dec_lt, lt→ltb, le→ltb,
  length-take,
}
use trading_platform.Prelude.Int.{ℤ}
use trading_platform.Packet.{
  TimestampUnit, milliseconds, microseconds, nanoseconds, seconds, unit_size, to_nanoseconds,
  from_nanoseconds, to_fixed, PacketHeader, BinaryUdpPacket, OrderBookData, from_orderbook,
  payload_of, item_bytes, OrderBookItem, new_orderbook_item, set_exchange, set_symbol,
  set_flags_and_count, new_header, packet_type, is_bid, item_count,
}
use trading_platform.Packet.Flags.{set_flags_and_count_lem}

unit_size-cancel :
    (unit : TimestampUnit) (timestamp : ℕ) → timestamp * unit_size unit / unit_size unit ≡ timestamp
unit_size-cancel seconds timestamp = omega arith
unit_size-cancel milliseconds timestamp = omega arith
unit_size-cancel microseconds timestamp = omega arith
unit_size-cancel nanoseconds timestamp = omega arith

-- The flags and the names leave the timestamp alone.
set_fields :
    (venue symbol : List ℕ) (bid : Bool) (count : ℕ) (h : PacketHeader)
    → (set_flags_and_count true 2 bid count
        (set_exchange venue (set_symbol symbol h))).exchange_timestamp
      ≡ h.exchange_timestamp
unfolding set_flags_and_count set_exchange set_symbol
set_fields venue symbol bid count h = refl

-- A timestamp converts to nanoseconds and back unchanged, unless the conversion panics, which it
-- does exactly if the nanoseconds do not fit a u64.
to_nanoseconds_lem :
    (unit : TimestampUnit) (timestamp : ℕ)
    → ((nanos : ℕ) × (to_nanoseconds unit timestamp ≡ some nanos)
        × (nanos < 2 ^ 64)
        × (from_nanoseconds unit nanos ≡ timestamp))
      ⊎ ((to_nanoseconds unit timestamp ≡ none) × (2 ^ 64 ≤ timestamp * unit_size unit))
unfolding to_nanoseconds from_nanoseconds
to_nanoseconds_lem unit timestamp = elim (dec_lt (timestamp * unit_size unit) (2 ^ 64)) [
  | yes h ↦ inl (
    timestamp * unit_size unit,
    rw (lt→ltb (timestamp * unit_size unit) (2 ^ 64) h),
    h,
    unit_size-cancel unit timestamp,
  )
  | no h ↦ inr (rw (le→ltb (timestamp * unit_size unit) (2 ^ 64) (omega arith)), omega arith)
]

-- An item takes 16 bytes.
length-item_bytes : (item : OrderBookItem) → length (item_bytes item) ≡ 16
unfolding item_bytes
length-item_bytes item = refl

payload_of-eight :
    (levels : List (ℤ × ℤ))
    → (bytes : List ℕ) × (payload_of 8 8 levels ≡ some bytes) × (length bytes ≡ 16 * length levels)
unfolding payload_of new_orderbook_item to_fixed
payload_of-eight [] = ([], refl, refl)
payload_of-eight ((p, q) ∷ levels) =
    let item : OrderBookItem = record { price = p; quantity = q } in
    let (bytes, e, n) = payload_of-eight levels in
    (
      item_bytes item ++ bytes,
      rw e,
      omega (arith, length-append (item_bytes item) bytes, length-item_bytes item),
    )

abbrev pub side_levels : OrderBookData → Bool → List (ℤ × ℤ)
side_levels d bid = if bid then d.bids else d.asks

-- A book whose numbers have the precision of the wire, and whose timestamp fits, makes a packet:
-- its header gives the type, the side and the number of items, at most 7, and the payload has 16
-- bytes for each of them.
pub from_orderbook_lem :
    (now : ℕ) (d : OrderBookData) (bid : Bool)
    → d.price_precision ≡ 8
    → d.quantity_precision ≡ 8
    → d.timestamp * unit_size d.timestamp_unit < 2 ^ 64
    → (p : BinaryUdpPacket) × (from_orderbook now d bid ≡ some p)
      × (packet_type p.header ≡ 2)
      × (is_bid p.header ≡ bid)
      × (item_count p.header ≡ min (length (side_levels d bid)) 7)
      × (length p.payload ≡ 16 * item_count p.header)
      × (p.header.exchange_timestamp ≡ d.timestamp * unit_size d.timestamp_unit)
unfolding from_orderbook to_nanoseconds
from_orderbook_lem now d bid pp qp fits =
    let levels = side_levels d bid in
    let count = min (length levels) 7 in
    let (bytes, e, n) = payload_of-eight (take 7 levels) in
    let timed : PacketHeader = record new_header {
      exchange_timestamp = d.timestamp * unit_size d.timestamp_unit;
      local_timestamp = now % 2 ^ 64;
    } in
    let h = set_exchange d.exchange (set_symbol d.symbol timed) in
    let (last, kind, side, items, bound) = set_flags_and_count_lem true 2 bid count h in
    let counted : item_count (set_flags_and_count true 2 bid count h) ≡ count =
      items ∙ (omega arith) in
    (
      record { header = set_flags_and_count true 2 bid count h; payload = bytes },
      rw (lt→ltb (d.timestamp * unit_size d.timestamp_unit) (2 ^ 64) fits, pp, qp, e),
      kind,
      side,
      counted,
      omega (arith, n, counted, length-take 7 levels),
      set_fields d.exchange d.symbol bid count timed,
    )
