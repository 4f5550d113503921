-- ===== src/UdpProtocol/Header.antt =====
-- The 24 bytes of a packet's header, and the numbers of a packet, written and read back.
use trading_platform.Prelude.{
  ℕ, ◌%◌, ◌^◌, ◌<◌, ◌≡◌, refl, ap, ◌∙◌, Bool, true, false, ◌&&◌, some, List, [], ◌∷◌, ◌++◌, arith,
  leb, length, drop, length-append, take-append,
}
use trading_platform.Prelude.Int.{ℤ, pos, negsuc}
use trading_platform.MarketTypes.{
  Exchange, as_u64, binance, binance_futures, bybit, bybit_linear, upbit, coinbase, okx, deribit,
  bithumb, ls_exchange,
}
use trading_platform.Packet.{le_bytes, le_value}
use trading_platform.UdpProtocol.{
  BinaryPacketHeader, write_header, read_header, next_bytes, read_number, of_u64, exchange_id,
}

pub drop-length {ℓ} : {A : Type ℓ} (xs ys : List A) → drop (length xs) (xs ++ ys) ≡ ys
drop-length [] ys = refl
drop-length (x ∷ xs) ys = drop-length xs ys

pub and_false : (b : Bool) → (b && false) ≡ false
and_false true = refl
and_false false = refl

pub next_bytes-append :
    (n : ℕ) (xs rest : List ℕ) → length xs ≡ n → next_bytes n (xs ++ rest) ≡ some (xs, rest)
unfolding next_bytes
next_bytes-append n xs rest e =
    let d : drop n (xs ++ rest) ≡ rest = rw (← e) (drop-length xs rest) in
    let l : leb n (length (xs ++ rest)) ≡ true = ground (arith, length-append xs rest) in
    rw (l, d, take-append n xs rest e)

pub read_byte : (b : ℕ) (rest : List ℕ) → read_number 1 (b ∷ rest) ≡ some (b, rest)
unfolding read_number le_value
read_byte b rest = rw (next_bytes-append 1 (b ∷ []) rest refl) (ground arith)

pub value-bytes_2 : (n : ℕ) → n < 2 ^ 16 → le_value (le_bytes 2 n) ≡ n
unfolding le_value le_bytes
value-bytes_2 n h = omega arith

pub length-bytes_2 : (n : ℕ) → length (le_bytes 2 n) ≡ 2
unfolding le_bytes
length-bytes_2 n = refl

pub read_count :
    (n : ℕ) (rest : List ℕ)
    → n < 2 ^ 16
    → read_number 2 (le_bytes 2 (n % 2 ^ 16) ++ rest) ≡ some (n, rest)
unfolding read_number
read_count n rest h =
    let e : n % 2 ^ 16 ≡ n = omega arith in
    rw (e, next_bytes-append 2 (le_bytes 2 n) rest (length-bytes_2 n), value-bytes_2 n h)

-- An i64.
abbrev pub FitsI64 : ℤ → Type 0
FitsI64 (pos n) = n < 2 ^ 63
FitsI64 (negsuc n) = n < 2 ^ 63

pub of_u64-as_u64 : (t : ℤ) → FitsI64 t → of_u64 (as_u64 t) ≡ t
of_u64-as_u64 (pos n) h = ground arith
of_u64-as_u64 (negsuc n) h = ground arith

pub as_u64-lt : (t : ℤ) → as_u64 t < 2 ^ 64
as_u64-lt (pos n) = omega arith
as_u64-lt (negsuc n) = omega arith

-- A header whose fields fit their places.
pub record IsHeader (h : BinaryPacketHeader) : Type 0 where
  pub magic_fits : h.magic < 2 ^ 32
  pub sequence_fits : h.sequence < 2 ^ 64
  pub timestamp_fits : FitsI64 h.timestamp
  pub exchange_fits : h.exchange_id < 2 ^ 8
  pub type_fits : h.message_type < 2 ^ 8
  pub length_fits : h.symbol_len < 2 ^ 16

pub value-bytes_4 : (n : ℕ) → n < 2 ^ 32 → le_value (le_bytes 4 n) ≡ n
unfolding le_value le_bytes
value-bytes_4 n h = omega arith

pub value-bytes_8 : (n : ℕ) → n < 2 ^ 64 → le_value (le_bytes 8 n) ≡ n
unfolding le_value le_bytes
value-bytes_8 n h = omega arith

pub value-byte : (b : ℕ) → le_value (b ∷ []) ≡ b
unfolding le_value
value-byte b = omega arith

pub read_header-write :
    (h : BinaryPacketHeader) (rest : List ℕ) → IsHeader h → read_header (write_header h ++ rest) ≡ h
unfolding read_header write_header le_bytes
read_header-write h rest v =
    let e : of_u64 (le_value (le_bytes 8 (as_u64 h.timestamp))) ≡ h.timestamp =
      ap of_u64 (value-bytes_8 (as_u64 h.timestamp) (as_u64-lt h.timestamp))
      ∙ of_u64-as_u64 h.timestamp v.timestamp_fits in
    λ i. record {
      magic = value-bytes_4 h.magic v.magic_fits i;
      sequence = value-bytes_8 h.sequence v.sequence_fits i;
      timestamp = e i;
      exchange_id = value-byte h.exchange_id i;
      message_type = value-byte h.message_type i;
      symbol_len = value-bytes_2 h.symbol_len v.length_fits i;
    }

pub length-write_header : (h : BinaryPacketHeader) → length (write_header h) ≡ 24
unfolding write_header le_bytes
length-write_header h = refl

pub drop-header : (h : BinaryPacketHeader) (rest : List ℕ) → drop 24 (write_header h ++ rest) ≡ rest
drop-header h rest = rw (← length-write_header h) (drop-length (write_header h) rest)

pub exchange_id-lt : (e : Exchange) → exchange_id e < 2 ^ 8
exchange_id-lt binance = omega arith
exchange_id-lt binance_futures = omega arith
exchange_id-lt bybit = omega arith
exchange_id-lt bybit_linear = omega arith
exchange_id-lt upbit = omega arith
exchange_id-lt coinbase = omega arith
exchange_id-lt okx = omega arith
exchange_id-lt deribit = omega arith
exchange_id-lt bithumb = omega arith
exchange_id-lt ls_exchange = omega arith
