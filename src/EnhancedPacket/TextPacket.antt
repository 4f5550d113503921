-- ===== src/EnhancedPacket/TextPacket.antt =====
-- A trade packet as text, written and read back.
use trading_platform.Prelude.{
  ℕ, zero, suc, ◌+◌, ◌-◌, ◌*◌, ◌/◌, ◌%◌, ◌≤◌, ◌<◌, ◌≡◌, ◌≢◌, refl, ap, ◌∙◌, inl, inr, true, false,
  some, List, [], ◌∷◌, ◌++◌, arith, ◌==◌, ltb, leb, Bool-cases,
}
use trading_platform.Prelude.Bytes.{Text, text_eq, bytes_of}
use trading_platform.Prelude.Decimal.{decimal, digits_value, value-decimal}
use trading_platform.EnhancedPacket.{
  create_enhanced_text_packet, split_bars, join_bars, digits_u8, parse_u8, parse_parts,
  parse_enhanced_text_packet, trade_text,
}

abbrev NoBar : Text → Type 0
NoBar [] = Unit {0}
NoBar (c ∷ cs) = (c ≢ b'|') × NoBar cs

abbrev AllDigits : Text → Type 0
AllDigits [] = Unit {0}
AllDigits (c ∷ cs) = (48 ≤ c) × (c ≤ 57) × AllDigits cs

AllDigits-append : (xs ys : Text) → AllDigits xs → AllDigits ys → AllDigits (xs ++ ys)
AllDigits-append [] ys a b = b
AllDigits-append (x ∷ xs) ys (h, k, a) b = (h, k, AllDigits-append xs ys a b)

digits-NoBar : (xs : Text) → AllDigits xs → NoBar xs
digits-NoBar [] a = tt
digits-NoBar (x ∷ xs) (h, k, a) = (λ e. omega (arith, e, k), digits-NoBar xs a)

decimal-AllDigits : (most n : ℕ) → AllDigits (decimal most n)
unfolding decimal
decimal-AllDigits zero n = (omega arith, omega arith, tt)
decimal-AllDigits (suc most) n = elim (Bool-cases (ltb n 10)) [
  | inl small ↦ rw small (omega arith, ground arith, tt)
  | inr large ↦ rw large (
      AllDigits-append (decimal most (n / 10)) ((48 + n % 10) ∷ [])
        (decimal-AllDigits most (n / 10)) (omega arith, omega arith, tt))
]

value-ge : (n : ℕ) (cs : Text) → n ≤ digits_value n cs
value-ge n [] = omega arith
value-ge n (c ∷ cs) = omega (arith, value-ge (10 * n + (c - 48)) cs)

digits_u8-value :
    (n : ℕ) (cs : Text)
    → AllDigits cs
    → digits_value n cs < 256
    → digits_u8 n cs ≡ some (digits_value n cs)
unfolding digits_u8
digits_u8-value n [] a h = refl
digits_u8-value n (c ∷ cs) (k, l, a) h =
    let ih = digits_u8-value (10 * n + (c - 48)) cs a h in
    let low : ltb (10 * n + (c - 48)) 256 ≡ true =
      ground (arith, value-ge (10 * n + (c - 48)) cs, h) in
    let x : leb 48 c ≡ true = ground (arith, k) in
    let y : leb c 57 ≡ true = ground (arith, l) in rw (x, y, low) ih

parse_u8-value :
    (cs : Text)
    → AllDigits cs
    → cs ≢ []
    → digits_value 0 cs < 256
    → parse_u8 cs ≡ some (digits_value 0 cs)
unfolding parse_u8
parse_u8-value [] a ne h = absurd (ne refl)
parse_u8-value (c ∷ cs) a ne h =
    let digit : (c == b'+') ≡ false = ground (arith, a.0) in
    rw digit (digits_u8-value 0 (c ∷ cs) a h)

snoc-ne : (xs : Text) (c : ℕ) → xs ++ c ∷ [] ≢ []
snoc-ne [] c e = cc
snoc-ne (x ∷ xs) c e = cc

decimal-ne : (most n : ℕ) → decimal most n ≢ []
unfolding decimal
decimal-ne zero n = λ e. cc
decimal-ne (suc most) n = elim (Bool-cases (ltb n 10)) [
  | inl small ↦ rw small (snoc-ne [] (48 + n))
  | inr large ↦ rw large (snoc-ne (decimal most (n / 10)) (48 + n % 10))
]

split-bar :
    (xs ys : Text)
    → NoBar xs
    → split_bars (xs ++ b'|' ∷ ys) ≡ (xs, (split_bars ys).0 ∷ (split_bars ys).1)
unfolding split_bars
split-bar [] ys h = refl
split-bar (x ∷ xs) ys h =
    let other : (x == b'|') ≡ false = ground (arith, h.0) in rw (other, split-bar xs ys h.1) refl

join-cons :
    (c : ℕ) (first : Text) (parts : List Text)
    → join_bars (c ∷ first) parts ≡ c ∷ join_bars first parts
unfolding join_bars
join-cons c first [] = refl
join-cons c first (part ∷ parts) = refl

join-split : (ys : Text) → join_bars (split_bars ys).0 (split_bars ys).1 ≡ ys
unfolding join_bars split_bars
join-split [] = refl
join-split (y ∷ ys) = elim (Bool-cases (y == b'|')) [
  | inl bar ↦ let e : y ≡ b'|' = ground arith in rw (bar, e) (ap (λ t. b'|' ∷ t) (join-split ys))
  | inr other ↦
      rw other (join-cons y (split_bars ys).0 (split_bars ys).1 ∙ ap (λ t. y ∷ t) (join-split ys))
]

-- The scale and the JSON of a text packet are read back, bars in the JSON included, if the scale
-- is below 256.
pub parse-create_enhanced_text_packet :
    (scale : ℕ) (json : Text)
    → scale < 256
    → parse_enhanced_text_packet (create_enhanced_text_packet scale json) ≡ trade_text scale json
unfolding parse_enhanced_text_packet create_enhanced_text_packet parse_parts
parse-create_enhanced_text_packet scale json h =
    let ds : Text = decimal 19 scale in
    let digits = decimal-AllDigits 19 scale in
    let v = value-decimal 19 scale (omega arith) in
    let s₁ = split-bar (bytes_of "TRADE") (ds ++ b'|' ∷ json) (omega arith) in
    let s₂ = split-bar ds json (digits-NoBar ds digits) in
    let number : parse_u8 ds ≡ some scale =
      parse_u8-value ds digits (decimal-ne 19 scale) (omega (arith, v)) ∙ ap some v in
    rw (s₁, s₂, number, join-split json) refl
