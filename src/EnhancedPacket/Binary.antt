-- ===== src/EnhancedPacket/Binary.antt =====
-- A trade packet written in binary and read back.
use trading_platform.Prelude.{
  ℕ, zero, suc, ◌+◌, ◌-◌, ◌^◌, ◌≤◌, ◌<◌, ◌≡◌, refl, ap, ◌∙◌, Bool, true, false, none, some, List,
  [], ◌∷◌, ◌++◌, arith, ◌==◌, ltb, if◌then◌else◌, length, take, drop, replicate, length-append,
  length-replicate, take-append, take-all,
}
use trading_platform.Prelude.Int.{ℤ}
use trading_platform.Prelude.Bytes.{Text, text_eq, bytes_of}
use trading_platform.MarketTypes.{as_u64}
use trading_platform.Packet.{le_bytes, le_value}
use trading_platform.UdpProtocol.{of_u64}
use trading_platform.UdpProtocol.Header.{FitsI64, as_u64-lt, of_u64-as_u64}
use trading_platform.EnhancedPacket.{
  TradeInput, EnhancedTradePacket, from_trade_data, resize_20, be_bytes, be_value, to_binary,
  trim_zeros, from_binary, ok,
}

trim-zeros : (k : ℕ) → trim_zeros (replicate k 0) ≡ []
unfolding trim_zeros
trim-zeros zero = refl
trim-zeros (suc k) = rw (trim-zeros k, trim_zeros) refl

trim-append : (xs : Text) (k : ℕ) → trim_zeros (xs ++ replicate k 0) ≡ trim_zeros xs
unfolding trim_zeros
trim-append [] k = trim-zeros k
trim-append (x ∷ xs) k = rw (trim-append xs k, trim_zeros) refl

-- A name of at most 20 bytes that does not end in a zero is what is left of its field.
trim-resize :
    (name : Text) → length name ≤ 20 → trim_zeros name ≡ name → trim_zeros (resize_20 name) ≡ name
unfolding resize_20
trim-resize name h t = rw (take-all 20 name h) (trim-append name (20 - length name) ∙ t)

length-resize : (name : Text) → length name ≤ 20 → length (resize_20 name) ≡ 20
unfolding resize_20
length-resize name h = rw (take-all 20 name h) (
    omega (
      arith,
      length-append name (replicate (20 - length name) 0),
      length-replicate {A = ℕ} (20 - length name) 0,
    ))

be_value-bytes : (n : ℕ) → n < 2 ^ 64 → be_value (be_bytes n) ≡ n
unfolding le_value le_bytes
be_value-bytes n h = omega arith

length-be_bytes : (n : ℕ) → length (be_bytes n) ≡ 8
unfolding le_bytes
length-be_bytes n = refl

drop-past : (a b : ℕ) (xs ys : List ℕ) → length xs ≡ a → drop (a + b) (xs ++ ys) ≡ drop b ys
drop-past zero b [] ys e = ap (λ k. drop k ys) (omega arith)
drop-past zero b (x ∷ xs) ys e = absurd (omega arith)
drop-past (suc a) b [] ys e = absurd (omega arith)
drop-past (suc a) b (x ∷ xs) ys e =
    let s : suc a + b ≡ suc (a + b) = omega arith in rw s (drop-past a b xs ys (omega arith))

value-byte : (b : ℕ) → le_value (b ∷ []) ≡ b
unfolding le_value
value-byte b = omega arith

-- The five fields behind the first three bytes, and the last byte.
module _ (es ss ts ps qs : List ℕ) (last : ℕ) (e : length es ≡ 20) (s : length ss ≡ 20)
    (t : length ts ≡ 8) (p : length ps ≡ 8) (q : length qs ≡ 8) where
  abbrev fields : List ℕ
  fields = es ++ (ss ++ (ts ++ (ps ++ (qs ++ last ∷ []))))

  field_1 : take 20 fields ≡ es
  field_1 = take-append 20 es (ss ++ (ts ++ (ps ++ (qs ++ last ∷ [])))) e

  after_1 : (k : ℕ) → drop (20 + k) fields ≡ drop k (ss ++ (ts ++ (ps ++ (qs ++ last ∷ []))))
  after_1 k = drop-past 20 k es (ss ++ (ts ++ (ps ++ (qs ++ last ∷ [])))) e

  after_2 : (k : ℕ) → drop (20 + (20 + k)) fields ≡ drop k (ts ++ (ps ++ (qs ++ last ∷ [])))
  after_2 k = after_1 (20 + k) ∙ drop-past 20 k ss (ts ++ (ps ++ (qs ++ last ∷ []))) s

  after_3 : (k : ℕ) → drop (20 + (20 + (8 + k))) fields ≡ drop k (ps ++ (qs ++ last ∷ []))
  after_3 k = after_2 (8 + k) ∙ drop-past 8 k ts (ps ++ (qs ++ last ∷ [])) t

  after_4 : (k : ℕ) → drop (20 + (20 + (8 + (8 + k)))) fields ≡ drop k (qs ++ last ∷ [])
  after_4 k = after_3 (8 + k) ∙ drop-past 8 k ps (qs ++ last ∷ []) p

  field_2 : take 20 (drop 20 fields) ≡ ss
  field_2 = rw (after_1 0) (take-append 20 ss (ts ++ (ps ++ (qs ++ last ∷ []))) s)

  field_3 : take 8 (drop 40 fields) ≡ ts
  field_3 = rw (after_2 0) (take-append 8 ts (ps ++ (qs ++ last ∷ [])) t)

  field_4 : take 8 (drop 48 fields) ≡ ps
  field_4 = rw (after_3 0) (take-append 8 ps (qs ++ last ∷ []) p)

  field_5 : take 8 (drop 56 fields) ≡ qs
  field_5 = rw (after_4 0) (take-append 8 qs (last ∷ []) q)

  field_6 : take 1 (drop 64 fields) ≡ last ∷ []
  field_6 = ap (take 1) (after_4 8 ∙ drop-past 8 0 qs (last ∷ []) q)

  length-fields : length fields ≡ 65
  length-fields = omega (
    arith,
    length-append es (ss ++ (ts ++ (ps ++ (qs ++ last ∷ [])))),
    length-append ss (ts ++ (ps ++ (qs ++ last ∷ []))),
    length-append ts (ps ++ (qs ++ last ∷ [])),
    length-append ps (qs ++ last ∷ []),
    length-append qs (last ∷ []),
    e,
    s,
    t,
    p,
    q,
  )

-- What a packet must be like to be read back as it is: names of at most 20 bytes that do not end in
-- a zero, and numbers that fit their places.
pub record IsWritable (p : EnhancedTradePacket) : Type 0 where
  pub exchange_fits : length p.exchange ≤ 20
  pub exchange_trimmed : trim_zeros p.exchange ≡ p.exchange
  pub symbol_fits : length p.symbol ≤ 20
  pub symbol_trimmed : trim_zeros p.symbol ≡ p.symbol
  pub timestamp_fits : p.timestamp < 2 ^ 64
  pub price_fits : FitsI64 p.price_scaled
  pub quantity_fits : FitsI64 p.quantity_scaled

side-byte :
    (b : Bool) (x y : Text)
    → (if le_value ((if b then 1 else 0) ∷ []) == 1 then x else y) ≡ (if b then x else y)
unfolding le_value
side-byte true x y = refl
side-byte false x y = refl

scaled-bytes : (z : ℤ) → FitsI64 z → of_u64 (be_value (be_bytes (as_u64 z))) ≡ z
scaled-bytes z h = ap of_u64 (be_value-bytes (as_u64 z) (as_u64-lt z)) ∙ of_u64-as_u64 z h

-- A packet that fits its places is read back from its binary form as it was, but for the trade id,
-- which is lost, and a side that is not buy, which becomes sell. The padded names are valid UTF-8.
pub from_binary-to_binary :
    (from_utf8_lossy : Text → Text) (p : EnhancedTradePacket)
    → IsWritable p
    → from_utf8_lossy (resize_20 p.exchange) ≡ resize_20 p.exchange
    → from_utf8_lossy (resize_20 p.symbol) ≡ resize_20 p.symbol
    → from_binary from_utf8_lossy (to_binary p)
      ≡ ok (record p {
        side = if text_eq.beq p.side (bytes_of "buy") then bytes_of "buy" else bytes_of "sell";
        trade_id = none;
      })
unfolding from_binary to_binary
from_binary-to_binary lossy p v text_1 text_2 =
    let es : Text = resize_20 p.exchange in
    let ss : Text = resize_20 p.symbol in
    let ts : List ℕ = be_bytes p.timestamp in
    let ps : List ℕ = be_bytes (as_u64 p.price_scaled) in
    let qs : List ℕ = be_bytes (as_u64 p.quantity_scaled) in
    let last : ℕ = if text_eq.beq p.side (bytes_of "buy") then 1 else 0 in
    let e = length-resize p.exchange v.exchange_fits in
    let s = length-resize p.symbol v.symbol_fits in
    let t = length-be_bytes p.timestamp in
    let a = length-be_bytes (as_u64 p.price_scaled) in
    let b = length-be_bytes (as_u64 p.quantity_scaled) in
    let long : ltb (suc (suc (suc (length (fields es ss ts ps qs last e s t a b))))) 68 ≡ false =
      ground (arith, length-fields es ss ts ps qs last e s t a b) in
    let magic : (le_value (1 ∷ []) == 1) ≡ true = ground (arith, value-byte 1) in
    let name_1 : trim_zeros (lossy (take 20 (fields es ss ts ps qs last e s t a b))) ≡ p.exchange =
      rw (field_1 es ss ts ps qs last e s t a b, text_1)
        (trim-resize p.exchange v.exchange_fits v.exchange_trimmed) in
    let name_2 : trim_zeros (lossy (take 20 (drop 20 (fields es ss ts ps qs last e s t a b))))
        ≡ p.symbol =
      rw (field_2 es ss ts ps qs last e s t a b, text_2)
        (trim-resize p.symbol v.symbol_fits v.symbol_trimmed) in
    let time =
      ap be_value (field_3 es ss ts ps qs last e s t a b)
      ∙ be_value-bytes p.timestamp v.timestamp_fits in
    let price =
      ap (λ bs. of_u64 (be_value bs)) (field_4 es ss ts ps qs last e s t a b)
      ∙ scaled-bytes p.price_scaled v.price_fits in
    let quantity =
      ap (λ bs. of_u64 (be_value bs)) (field_5 es ss ts ps qs last e s t a b)
      ∙ scaled-bytes p.quantity_scaled v.quantity_fits in
    let side =
      ap (λ bs. if le_value bs == 1 then bytes_of "buy" else bytes_of "sell")
        (field_6 es ss ts ps qs last e s t a b)
      ∙ side-byte (text_eq.beq p.side (bytes_of "buy")) (bytes_of "buy") (bytes_of "sell") in
    rw (long, magic)
      (λ i. ok (record {
        exchange = name_1 i;
        symbol = name_2 i;
        timestamp = time i;
        price_scale = value-byte p.price_scale i;
        quantity_scale = value-byte p.quantity_scale i;
        price_scaled = price i;
        quantity_scaled = quantity i;
        side = side i;
        trade_id = none;
      }))

trade_side :
    (scale : ℕ) (t : TradeInput) (p : EnhancedTradePacket)
    → from_trade_data scale t ≡ some p
    → p.side ≡ bytes_of "unknown"
unfolding from_trade_data
trade_side scale t p h = ground (arith, h)

-- Whatever its side was, a trade that goes through a packet comes out as a sale.
pub trades_come_out_as_sales :
    (from_utf8_lossy : Text → Text) (scale : ℕ) (t : TradeInput) (p : EnhancedTradePacket)
    → from_trade_data scale t ≡ some p
    → IsWritable p
    → from_utf8_lossy (resize_20 p.exchange) ≡ resize_20 p.exchange
    → from_utf8_lossy (resize_20 p.symbol) ≡ resize_20 p.symbol
    → from_binary from_utf8_lossy (to_binary p)
      ≡ ok (record p { side = bytes_of "sell"; trade_id = none })
trades_come_out_as_sales lossy scale t p made v text_1 text_2 =
    let side : (if text_eq.beq p.side (bytes_of "buy") then bytes_of "buy" else bytes_of "sell")
        ≡ bytes_of "sell" =
      rw (trade_side scale t p made) refl in
    from_binary-to_binary lossy p v text_1 text_2
    ∙ ap (λ x. ok (record p { side = x; trade_id = none })) side
