-- ===== src/UdpProtocol/Truncated.antt =====
-- Packets that are cut short: the readers look at no byte past the ones that they take.
use trading_platform.Prelude.{
  ℕ, zero, suc, ◌≤◌, ◌≡◌, ◌≢◌, refl, sym, ap, ◌∙◌, inl, inr, Bool, true, Option, some, List, [],
  ◌∷◌, ◌++◌, arith, leb, ◌>>=◌, length, take, drop, leb→le, length-append, ◌^◌, ◌<◌, ◌%◌, ltb,
  if◌then◌else◌, not, ◌==◌, Bool-cases, Option-cases,
}
use trading_platform.Prelude.Last.{drop-append}
use trading_platform.Packet.{le_value}
use trading_platform.MarketTypes.{Exchange, OrderBookUpdate, PriceLevel}
use trading_platform.UdpProtocol.Header.{
  FitsI64, next_bytes-append, drop-header, length-write_header, read_header-write,
}
use trading_platform.UdpProtocol.RoundTrip.{IsFloatCode, encode_header-IsHeader, read_sides-payload}
use trading_platform.UdpProtocol.{
  Wire, BinaryPacketHeader, write_header, encode_header, encode_payload, encode_orderbook,
  read_header, read_body, parse_orderbook, process_packet, panic, err, too_small, magic_number,
  header_size, next_bytes, read_number, read_f64, read_level, read_levels, read_sides,
}

take-prefix {ℓ} :
    {A : Type ℓ} (n : ℕ) (xs ys : List A) → n ≤ length xs → take n (xs ++ ys) ≡ take n xs
take-prefix zero xs ys h = refl
take-prefix (suc n) [] ys h = absurd (omega arith)
take-prefix (suc n) (x ∷ xs) ys h = ap (λ l. x ∷ l) (take-prefix n xs ys (omega arith))

-- A reader that succeeds does the same when more bytes follow, and leaves these.
abbrev Extends {ℓ} : {A : Type ℓ} → (List ℕ → Option (A × List ℕ)) → Type ℓ
Extends {A} f =
    (xs ys : List ℕ) (a : A) (r : List ℕ) → f xs ≡ some (a, r) → f (xs ++ ys) ≡ some (a, r ++ ys)

pub next_bytes-Extends : (n : ℕ) → Extends (next_bytes n)
unfolding next_bytes
next_bytes-Extends n xs ys a r h = elim (Bool-cases (leb n (length xs))) [
  | inl fits ↦
      let l : leb n (length (xs ++ ys)) ≡ true = ground (arith, length-append xs ys) in
      rw
        (
          l,
          take-prefix n xs ys (leb→le n (length xs) fits),
          drop-append n xs ys (leb→le n (length xs) fits),
        )
        (ground arith)
  | inr short ↦ absurd (ground arith)
]

bind-Extends {ℓ κ} :
    {A : Type ℓ} {B : Type κ}
    → (f : List ℕ → Option (A × List ℕ)) (g : A → List ℕ → Option (B × List ℕ)) → Extends f
    → ((a : A) → Extends (g a))
    → Extends (λ d. f d >>= λ p. g p.0 p.1)
bind-Extends f g F G xs ys b r h = elim (Option-cases (f xs)) [
  | inl n ↦ absurd (cc (rw n at h))
  | inr ((a, s), e) ↦ rw (F xs ys a s e) (G a s ys b r (rw e at h))
]

read_number-Extends : (n : ℕ) → Extends (read_number n)
unfolding read_number
read_number-Extends n =
    bind-Extends (next_bytes n) (λ bs d. some (le_value bs, d)) (next_bytes-Extends n)
      (λ bs xs ys a r h. ground (arith, h))

nil_of_append : {A : Type 0} (xs ys : List A) → xs ++ ys ≡ [] → ys ≡ []
nil_of_append [] ys h = h
nil_of_append (x ∷ xs) ys h = cc

append-split {ℓ} :
    {A : Type ℓ} (cs bs xs ys : List A)
    → xs ++ ys ≡ cs ++ bs
    → length cs ≤ length xs
    → (zs : List A) × (xs ≡ cs ++ zs) × (zs ++ ys ≡ bs)
append-split [] bs xs ys e h = (xs, refl, e)
append-split (a ∷ cs) bs [] ys e h = absurd (omega arith)
append-split (a ∷ cs) bs (x ∷ xs) ys e h =
    let tails : xs ++ ys ≡ cs ++ bs = cc in
    let (zs, p, q) = append-split cs bs xs ys tails (omega arith) in
    let cell : x ∷ xs ≡ a ∷ (cs ++ zs) = cc in (zs, cell, q)

module _ (w : Wire) where
  open w use {F, f64_bytes, f64_value, as_bytes, from_utf8}

  read_f64-Extends : Extends (read_f64 w)
  unfolding read_f64
  read_f64-Extends =
      bind-Extends (next_bytes 8) (λ bs d. some (f64_value bs, d)) (next_bytes-Extends 8)
        (λ bs xs ys a r h. ground (arith, h))

  read_level-Extends : Extends (read_level w)
  unfolding read_level
  read_level-Extends =
      bind-Extends (read_f64 w)
        (λ price d. read_f64 w d >>= λ q. some (record { price = price; quantity = q.0 }, q.1))
        read_f64-Extends
        (λ price.
          bind-Extends (read_f64 w)
            (λ quantity d. some (record { price = price; quantity = quantity }, d)) read_f64-Extends
            (λ quantity xs ys a r h. ground (arith, h)))

  read_levels-Extends : (count : ℕ) → Extends (read_levels w count)
  unfolding read_levels
  read_levels-Extends zero = λ xs ys a r h. ground (arith, h)
  read_levels-Extends (suc count) =
      bind-Extends (read_level w)
        (λ level d. read_levels w count d >>= λ q. some (level ∷ q.0, q.1)) read_level-Extends
        (λ level.
          bind-Extends (read_levels w count) (λ levels d. some (level ∷ levels, d))
            (read_levels-Extends count) (λ levels xs ys a r h. ground (arith, h)))

  read_sides-Extends : Extends (read_sides w)
  unfolding read_sides
  read_sides-Extends = bind-Extends (read_number 1) _ (read_number-Extends 1) (λ flag.
      bind-Extends (read_number 2) _ (read_number-Extends 2) (λ n.
        bind-Extends (read_levels w n) _ (read_levels-Extends n) (λ bids.
          bind-Extends (read_number 2) _ (read_number-Extends 2) (λ m.
            bind-Extends (read_levels w m) (λ asks d. some ((not (flag == 0), bids, asks), d))
              (read_levels-Extends m) (λ asks xs ys a r h. ground (arith, h))))))

  process_short :
      (xs : List ℕ) (ex : Exchange) (last : ℕ)
      → ltb (length xs) header_size ≡ true
      → (process_packet w xs ex last).outcome ≡ err too_small
  unfolding process_packet
  process_short xs ex last h = rw h refl

  process_panics :
      (xs : List ℕ) (header : BinaryPacketHeader) (ex : Exchange) (last : ℕ)
      → 24 ≤ length xs
      → read_header xs ≡ header
      → header.magic ≡ magic_number
      → read_body w header (drop 24 xs) ex ≡ panic
      → (process_packet w xs ex last).outcome ≡ panic
  unfolding process_packet
  process_panics xs header ex last l r m b =
      let b' : read_body w (read_header xs) (drop 24 xs) ex ≡ panic = rw r b in
      let m' : (read_header xs).magic ≡ magic_number = rw r m in ground arith

  module _ (floats : IsFloatCode w) where
    body-panics :
        (u : OrderBookUpdate F) (sequence : ℕ) (ex : Exchange) (zs ys : List ℕ)
        → length u.bids < 2 ^ 16
        → length u.asks < 2 ^ 16
        → length (as_bytes u.symbol) < 2 ^ 16
        → from_utf8 (as_bytes u.symbol) ≡ some u.symbol
        → zs ++ ys ≡ as_bytes u.symbol ++ encode_payload w u
        → ys ≢ []
        → read_body w (encode_header w u sequence) zs ex ≡ panic
    unfolding read_body parse_orderbook encode_header
    body-panics u sequence ex zs ys h k l t e cut =
        let n : ℕ = length (as_bytes u.symbol) % 2 ^ 16 in
        let same : length (as_bytes u.symbol) ≡ n = omega arith in
        let whole : next_bytes n (zs ++ ys) ≡ some (as_bytes u.symbol, encode_payload w u) =
          rw e (next_bytes-append n (as_bytes u.symbol) (encode_payload w u) same) in
        elim (Option-cases (next_bytes n zs)) [
          | inl short ↦ rw (short, read_body) refl
          | inr ((bs, payload), found) ↦
              let more : ◌≡◌ {A = Option (List ℕ × List ℕ)} (some (bs, payload ++ ys))
                  (some (as_bytes u.symbol, encode_payload w u)) =
                sym (next_bytes-Extends n zs ys bs payload found) ∙ whole in
              let text : from_utf8 bs ≡ some u.symbol = cc in
              let joined : payload ++ ys ≡ encode_payload w u = cc in
              elim (Option-cases (read_sides w payload)) [
                | inl short ↦ ground (arith, found, text, short)
                | inr ((sides, rest), read) ↦
                    let all : ◌≡◌
                        {A = Option ((Bool × List (PriceLevel F) × List (PriceLevel F)) × List ℕ)}
                        (some (sides, rest ++ ys)) (some ((u.is_snapshot, u.bids, u.asks), [])) =
                      sym (read_sides-Extends payload ys sides rest read)
                      ∙ (ap (read_sides w) joined ∙ read_sides-payload w floats u h k) in
                    let nothing : rest ++ ys ≡ [] = cc in
                    absurd (cut (nil_of_append rest ys nothing))
              ]
        ]

    -- A packet of the codec that is cut short is refused as too small if the cut is in the header,
    -- and makes the receiver panic everywhere else. The bids, the asks and the bytes of the
    -- symbol are fewer than 2^16 each, the symbol is valid UTF-8, and the timestamp and the number
    -- fit 64 bits.
    pub truncated_packet :
        (u : OrderBookUpdate F) (sequence : ℕ) (ex : Exchange) (last : ℕ) (xs ys : List ℕ)
        → length u.bids < 2 ^ 16
        → length u.asks < 2 ^ 16
        → length (as_bytes u.symbol) < 2 ^ 16
        → from_utf8 (as_bytes u.symbol) ≡ some u.symbol
        → FitsI64 u.timestamp
        → sequence < 2 ^ 64
        → xs ++ ys ≡ encode_orderbook w u sequence
        → ys ≢ []
        → (process_packet w xs ex last).outcome
          ≡ (if ltb (length xs) header_size then err too_small else panic)
    unfolding encode_orderbook encode_header
    truncated_packet u sequence ex last xs ys h k l t fits s e cut =
        let header = encode_header w u sequence in
        elim (Bool-cases (ltb (length xs) header_size)) [
          | inl short ↦ process_short xs ex last short ∙ rw short refl
          | inr long ↦
              let (zs, p, q) =
                append-split (write_header header) (as_bytes u.symbol ++ encode_payload w u) xs ys e
                  (ground (arith, length-write_header header)) in
              let r : read_header xs ≡ header =
                rw p (
                  read_header-write header zs
                    (encode_header-IsHeader w floats u sequence fits s)) in
              let d : drop 24 xs ≡ zs = rw p (drop-header header zs) in
              let b = body-panics u sequence ex zs ys h k l t q cut in
              process_panics xs header ex last (ground arith) r refl (rw d b) ∙ rw long refl
        ]
