-- ===== src/DataValidator/Order.antt =====
-- What the validator remembers of times, and which books it accepts.
use Prim.Native.String.{String}
use trading_platform.Prelude.{
  ◌≡◌, ◌⊎◌, inl, inr, refl, sym, ◌∙◌, ap, some, List, [], ◌∷◌, ◌++◌, arith, Bool-cases,
}
use trading_platform.Prelude.Int.{ℤ, ◌≤ℤ◌, ◌<ℤ◌, ltb_ℤ}
use trading_platform.Prelude.Dict.{lookup, lookup-insert, string_eq}
use trading_platform.Floats.{Floats}
use trading_platform.MarketTypes.{OrderBookUpdate, PriceLevel, Trade}
use trading_platform.DataValidator.{
  Rejection, non_monotonic, Outcome, accepted, rejected, DataValidator, and_then, Check, ensure,
  check_timestamp_monotonic, check_staleness, check_levels, validate_price_levels,
  check_price_outlier, not_crossed, validate_orderbook, validate_trade, go_on, check_trade,
  check_book, check_mid_price, crossed_market,
}

module _ (floats : Floats) where
  open floats use {F, literal, lt, le}

  abbrev Validator : Type 0
  Validator = DataValidator floats

  go_on-accepted :
      (p : Validator × Outcome) (k : Check floats)
      → (go_on floats p k).1 ≡ accepted
      → (p.1 ≡ accepted) × ((k (p.0)).1 ≡ accepted)
  go_on-accepted (v, accepted) k h = (refl, h)
  go_on-accepted (v, rejected r) k h = absurd (ground arith)

  -- Both steps of an accepted sequence accept.
  pub and_then-accepted :
      (m k : Check floats) (v : Validator)
      → (and_then floats m k v).1 ≡ accepted
      → ((m v).1 ≡ accepted) × ((k ((m v).0)).1 ≡ accepted)
  unfolding and_then
  and_then-accepted m k v h = go_on-accepted (m v) k h

  -- What both steps establish, if it is reflexive and transitive, the sequence establishes.
  module _ (R : Validator → Validator → Type 0)
      (trans : (a b c : Validator) → R a b → R b c → R a c) where
    go_on-preserves :
        {v : Validator} (p : Validator × Outcome) (k : Check floats)
        → R v p.0
        → ((w : Validator) → R w (k w).0)
        → R v (go_on floats p k).0
    go_on-preserves (w, accepted) k h f = trans _ w _ h (f w)
    go_on-preserves (w, rejected r) k h f = h

    pub and_then-preserves :
        (m k : Check floats)
        → ((w : Validator) → R w (m w).0)
        → ((w : Validator) → R w (k w).0)
        → (v : Validator) → R v (and_then floats m k v).0
    unfolding and_then
    and_then-preserves m k f g v = go_on-preserves (m v) k (f v) g

  -- No symbol's time goes back.
  abbrev pub NotEarlier : Validator → Validator → Type 0
  NotEarlier v w =
      (symbol : String) (t : ℤ)
      → lookup symbol v.last_timestamps ≡ some t
      → (t' : ℤ) × (lookup symbol w.last_timestamps ≡ some t') × (t ≤ℤ t')

  NotEarlier-trans : (a b c : Validator) → NotEarlier a b → NotEarlier b c → NotEarlier a c
  NotEarlier-trans a b c f g symbol t h =
      let (t', k, l) = f symbol t h in let (t'', k', l') = g symbol t' k in (t'', k', omega arith)

  NotEarlier-same : (a b : Validator) → a.last_timestamps ≡ b.last_timestamps → NotEarlier a b
  NotEarlier-same a b e symbol t h = (t, rw (sym e) h, omega arith)

  check_timestamp-NotEarlier :
      (symbol : String) (timestamp : ℤ) (v : Validator)
      → NotEarlier v (check_timestamp_monotonic floats symbol timestamp v).0
  unfolding check_timestamp_monotonic
  check_timestamp-NotEarlier s ts v symbol t h =
      let i = lookup-insert s symbol ts v.last_timestamps in
      let q = string_eq.beq_iff s symbol in
      elim (Bool-cases (string_eq.beq s symbol)) [
        | inr b ↦ (t, (ground (arith, i, b, h)), omega arith)
        | inl b ↦
            let k : lookup s v.last_timestamps ≡ some t =
              ap (λ r. lookup r v.last_timestamps) (q.0 b) ∙ h in
            elim (Bool-cases (ltb_ℤ ts t)) [
              | inl l ↦ (t, (ground (arith, k, l, h)), omega arith)
              | inr l ↦ (ts, (ground (arith, i, b, k, l)), ground arith)
            ]
      ]

  -- The later checks leave the times alone.
  abbrev SameTimes : Validator → Validator → Type 0
  SameTimes v w = v.last_timestamps ≡ w.last_timestamps

  then-SameTimes :
      (m k : Check floats)
      → ((w : Validator) → SameTimes w (m w).0)
      → ((w : Validator) → SameTimes w (k w).0)
      → (v : Validator) → SameTimes v (and_then floats m k v).0
  then-SameTimes m k f g v = and_then-preserves SameTimes (λ a b c p q. p ∙ q) m k f g v

  pub check_levels-same :
      (ls : List (PriceLevel F)) (v : Validator) → (check_levels floats ls v).0 ≡ v
  unfolding check_levels
  check_levels-same [] v = refl
  check_levels-same (l ∷ ls) v = ground (arith, check_levels-same ls v)

  check_trade-SameTimes :
      (now : ℤ) (trade : Trade F) (v : Validator) → SameTimes v (check_trade floats now trade v).0
  unfolding check_trade and_then check_staleness check_price_outlier
  check_trade-SameTimes now trade v = ground arith

  pub validate_levels-same :
      (bids asks : List (PriceLevel F)) (v : Validator)
      → (validate_price_levels floats bids asks v).0 ≡ v
  unfolding validate_price_levels and_then
  validate_levels-same bids asks v = ground (arith, check_levels-same (bids ++ asks) v)

  mid-SameTimes :
      (u : OrderBookUpdate F) (v : Validator) → SameTimes v (check_mid_price floats u v).0
  unfolding check_mid_price check_price_outlier
  mid-SameTimes u v = ground arith

  check_book-SameTimes :
      (now : ℤ) (u : OrderBookUpdate F) (v : Validator) → SameTimes v (check_book floats now u v).0
  unfolding check_book and_then check_staleness
  check_book-SameTimes now u v =
      let l = validate_levels-same u.bids u.asks in
      let m = mid-SameTimes u in
      let old : Check floats = check_staleness floats now u.timestamp in
      let levels : Check floats = validate_price_levels floats u.bids u.asks in
      let uncrossed : Check floats =
        ensure floats crossed_market (not_crossed floats u.bids u.asks) in
      let mid : Check floats = check_mid_price floats u in
      let last : Check floats = and_then floats uncrossed mid in
      then-SameTimes old (and_then floats levels last) (λ w. refl)
        (then-SameTimes levels last (λ w. ap (λ r. r.last_timestamps) (sym (l w)))
          (then-SameTimes uncrossed mid (λ w. refl) m))
        v

  validate_orderbook-NotEarlier :
      (now : ℤ) (u : OrderBookUpdate F) (v : Validator)
      → NotEarlier v (validate_orderbook floats now u v).0
  unfolding validate_orderbook
  validate_orderbook-NotEarlier now u =
      and_then-preserves NotEarlier NotEarlier-trans
        (check_timestamp_monotonic floats u.symbol u.timestamp) (check_book floats now u)
        (check_timestamp-NotEarlier u.symbol u.timestamp)
        (λ w. NotEarlier-same w (check_book floats now u w).0 (check_book-SameTimes now u w))

  validate_trade-NotEarlier :
      (now : ℤ) (trade : Trade F) (v : Validator)
      → NotEarlier v (validate_trade floats now trade v).0
  unfolding validate_trade
  validate_trade-NotEarlier now trade =
      and_then-preserves NotEarlier NotEarlier-trans
        (check_timestamp_monotonic floats trade.symbol trade.timestamp)
        (check_trade floats now trade) (check_timestamp-NotEarlier trade.symbol trade.timestamp)
        (λ w.
          NotEarlier-same w (check_trade floats now trade w).0 (check_trade-SameTimes now trade w))

  -- Whether it accepts a book or a trade or not, the validator's time of a symbol never goes back.
  pub times_never_go_back :
      (now : ℤ) (u : OrderBookUpdate F) (trade : Trade F) (v : Validator) (symbol : String) (t : ℤ)
      → lookup symbol v.last_timestamps ≡ some t
      → ((t' : ℤ) × (lookup symbol (validate_orderbook floats now u v).0.last_timestamps ≡ some t')
          × (t ≤ℤ t'))
        × ((t' : ℤ) × (lookup symbol (validate_trade floats now trade v).0.last_timestamps
              ≡ some t')
            × (t ≤ℤ t'))
  times_never_go_back now u trade v symbol t h = (
    validate_orderbook-NotEarlier now u v symbol t h,
    validate_trade-NotEarlier now trade v symbol t h,
  )

  check_timestamp-stores :
      (symbol : String) (ts : ℤ) (v : Validator)
      → ((check_timestamp_monotonic floats symbol ts v).1 ≡ rejected non_monotonic)
        ⊎ ((check_timestamp_monotonic floats symbol ts v).1 ≡ accepted)
          × (lookup symbol (check_timestamp_monotonic floats symbol ts v).0.last_timestamps
              ≡ some ts)
  unfolding check_timestamp_monotonic
  check_timestamp-stores symbol ts v =
      let i = lookup-insert symbol symbol ts v.last_timestamps in
      let q = (string_eq.beq_iff symbol symbol).1 refl in ground (arith, i, q)

  go_on-rejected :
      (p : Validator × Outcome) (k : Check floats) (r : Rejection)
      → p.1 ≡ rejected r
      → (go_on floats p k).1 ≡ rejected r
  go_on-rejected (v, accepted) k r h = absurd (ground arith)
  go_on-rejected (v, rejected s) k r h = h

  go_on-stored :
      (p : Validator × Outcome) (k : Check floats)
      → p.1 ≡ accepted
      → ((w : Validator) → SameTimes w (k w).0)
      → (go_on floats p k).0.last_timestamps ≡ p.0.last_timestamps
  go_on-stored (v, accepted) k h f = sym (f v)
  go_on-stored (v, rejected s) k h f = refl

  check_timestamp-older :
      (symbol : String) (ts last : ℤ) (v : Validator)
      → lookup symbol v.last_timestamps ≡ some last
      → ts <ℤ last
      → (check_timestamp_monotonic floats symbol ts v).1 ≡ rejected non_monotonic
  unfolding check_timestamp_monotonic
  check_timestamp-older symbol ts last v h k = ground (arith, h, k)

  -- A trade that does not fail by its time sets the time of its symbol, even if it is rejected for
  -- its age, price or quantity: an older trade of the symbol is then rejected.
  pub older_trade_rejected :
      (now later : ℤ) (first second : Trade F) (v : Validator)
      → first.symbol ≡ second.symbol
      → second.timestamp <ℤ first.timestamp
      → ¬ ((validate_trade floats now first v).1 ≡ rejected non_monotonic)
      → (validate_trade floats later second (validate_trade floats now first v).0).1
        ≡ rejected non_monotonic
  unfolding validate_trade and_then
  older_trade_rejected now later first second v e h n =
      let p : Validator × Outcome =
        check_timestamp_monotonic floats first.symbol first.timestamp v in
      let k : Check floats = check_trade floats now first in
      elim (check_timestamp-stores first.symbol first.timestamp v) [
        | inl r ↦ absurd (n (go_on-rejected p k non_monotonic r))
        | inr (a, s) ↦
            let w : Validator = (go_on floats p k).0 in
            let t : lookup second.symbol w.last_timestamps ≡ some first.timestamp =
              rw (go_on-stored p k a (check_trade-SameTimes now first), sym e) s in
            go_on-rejected (check_timestamp_monotonic floats second.symbol second.timestamp w)
              (check_trade floats later second) non_monotonic
              (check_timestamp-older second.symbol second.timestamp first.timestamp w t h)
      ]
