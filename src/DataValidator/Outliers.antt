-- ===== src/DataValidator/Outliers.antt =====
-- What the validator remembers of prices.
use Prim.Native.String.{String}
use trading_platform.Prelude.{◌≡◌, refl, ◌∙◌, ap, true, some, List, [], ◌∷◌, arith}
use trading_platform.Prelude.Int.{ℤ}
use trading_platform.Prelude.Dict.{lookup, string_eq}
use trading_platform.Floats.{Floats}
use trading_platform.MarketTypes.{OrderBookUpdate, Trade}
use trading_platform.DataValidator.{
  Rejection, Outcome, accepted, rejected, crossed_market, DataValidator, and_then, go_on, Check,
  ensure, check_timestamp_monotonic, check_staleness, validate_price_levels, check_price_outlier,
  not_crossed, check_mid_price, check_book, validate_orderbook, check_trade, validate_trade,
}
use trading_platform.DataValidator.Order.{validate_levels-same}

module _ (floats : Floats) where
  open floats use {F, literal, sub, mul, div, abs, lt}

  abbrev Validator : Type 0
  Validator = DataValidator floats

  -- A rejection leaves the prices alone.
  abbrev Careful : Check floats → Type 0
  Careful k =
      (v : Validator) (r : Rejection) → (k v).1 ≡ rejected r → (k v).0.last_prices ≡ v.last_prices

  go_on-Careful :
      (p : Validator × Outcome) (k : Check floats) (v : Validator) (r : Rejection)
      → p.0.last_prices ≡ v.last_prices
      → Careful k
      → (go_on floats p k).1 ≡ rejected r
      → (go_on floats p k).0.last_prices ≡ v.last_prices
  go_on-Careful (w, accepted) k v r e c h = c w r h ∙ e
  go_on-Careful (w, rejected s) k v r e c h = e

  and_then-Careful :
      (m k : Check floats)
      → ((v : Validator) → (m v).0.last_prices ≡ v.last_prices)
      → Careful k
      → Careful (and_then floats m k)
  unfolding and_then
  and_then-Careful m k e c v r h = go_on-Careful (m v) k v r (e v) c h

  check_timestamp-prices :
      (symbol : String) (ts : ℤ) (v : Validator)
      → (check_timestamp_monotonic floats symbol ts v).0.last_prices ≡ v.last_prices
  unfolding check_timestamp_monotonic
  check_timestamp-prices symbol ts v = ground arith

  check_staleness-prices :
      (now ts : ℤ) (v : Validator) → (check_staleness floats now ts v).0.last_prices ≡ v.last_prices
  unfolding check_staleness
  check_staleness-prices now ts v = refl

  check_price-Careful :
      (symbol : String) (price : F) → Careful (check_price_outlier floats symbol price)
  unfolding check_price_outlier
  check_price-Careful symbol price v r h = ground arith

  check_mid-Careful : (u : OrderBookUpdate F) → Careful (check_mid_price floats u)
  unfolding check_mid_price check_price_outlier
  check_mid-Careful u v r h = ground arith

  check_book-Careful : (now : ℤ) (u : OrderBookUpdate F) → Careful (check_book floats now u)
  unfolding check_book
  check_book-Careful now u =
      let old : Check floats = check_staleness floats now u.timestamp in
      let levels : Check floats = validate_price_levels floats u.bids u.asks in
      let uncrossed : Check floats =
        ensure floats crossed_market (not_crossed floats u.bids u.asks) in
      let mid : Check floats = check_mid_price floats u in
      and_then-Careful old (and_then floats levels (and_then floats uncrossed mid))
        (check_staleness-prices now u.timestamp)
        (and_then-Careful levels (and_then floats uncrossed mid)
          (λ v. ap (λ w. w.last_prices) (validate_levels-same floats u.bids u.asks v))
          (and_then-Careful uncrossed mid (λ v. refl) (check_mid-Careful u)))

  check_trade-Careful : (now : ℤ) (trade : Trade F) → Careful (check_trade floats now trade)
  unfolding check_trade and_then check_staleness check_price_outlier
  check_trade-Careful now trade v r h = ground arith

  -- A book that is rejected leaves the validator's prices as they were.
  pub rejected_keeps_prices :
      (now : ℤ) (u : OrderBookUpdate F) (v : Validator) (r : Rejection)
      → (validate_orderbook floats now u v).1 ≡ rejected r
      → (validate_orderbook floats now u v).0.last_prices ≡ v.last_prices
  unfolding validate_orderbook
  rejected_keeps_prices now u =
      and_then-Careful (check_timestamp_monotonic floats u.symbol u.timestamp)
        (check_book floats now u) (check_timestamp-prices u.symbol u.timestamp)
        (check_book-Careful now u)

  -- So does a trade.
  pub rejected_trade-keeps_prices :
      (now : ℤ) (trade : Trade F) (v : Validator) (r : Rejection)
      → (validate_trade floats now trade v).1 ≡ rejected r
      → (validate_trade floats now trade v).0.last_prices ≡ v.last_prices
  unfolding validate_trade
  rejected_trade-keeps_prices now trade =
      and_then-Careful (check_timestamp_monotonic floats trade.symbol trade.timestamp)
        (check_trade floats now trade) (check_timestamp-prices trade.symbol trade.timestamp)
        (check_trade-Careful now trade)

  -- The price is further from the last one than the limit, in per cent.
  abbrev pub IsFar : F → F → F → Type 0
  IsFar limit last price = lt limit (mul (abs (div (sub price last) last)) (literal 100)) ≡ true

  abbrev pub AllFar : F → F → String → List (ℤ × Trade F) → Type 0
  AllFar limit last symbol [] = Unit
  AllFar limit last symbol ((now, t) ∷ ts) =
      ((t.symbol ≡ symbol) × IsFar limit last t.price) × AllFar limit last symbol ts

  -- Trades validated one after another, each at its time.
  unfoldable pub validate_trades : List (ℤ × Trade F) → Validator → Validator × List Outcome
  unfolding validate_trade
  validate_trades [] v = (v, [])
  validate_trades ((now, t) ∷ ts) v =
      let (w, o) = validate_trade floats now t v in
      let (v', os) = validate_trades ts w in (v', o ∷ os)

  abbrev pub NoneAccepted : List Outcome → Type 0
  NoneAccepted [] = Unit
  NoneAccepted (o ∷ os) = (¬ (o ≡ accepted)) × NoneAccepted os

  far_trade :
      (now : ℤ) (t : Trade F) (v : Validator) (last : F)
      → lookup t.symbol v.last_prices ≡ some last
      → IsFar v.max_price_change_pct last t.price
      → (¬ ((validate_trade floats now t v).1 ≡ accepted))
        × ((validate_trade floats now t v).0.last_prices ≡ v.last_prices)
        × ((validate_trade floats now t v).0.max_price_change_pct ≡ v.max_price_change_pct)
  unfolding validate_trade check_timestamp_monotonic check_trade and_then check_staleness
      check_price_outlier
  far_trade now t v last h k = ground (arith, h, k)

  -- Once a price of the symbol is known, trades beyond the limit from it are rejected for ever: the
  -- price that they are compared with never changes, however many agree on a new one.
  pub far_trades_rejected :
      (ts : List (ℤ × Trade F)) (v : Validator) (symbol : String) (last : F)
      → lookup symbol v.last_prices ≡ some last
      → AllFar v.max_price_change_pct last symbol ts
      → NoneAccepted (validate_trades ts v).1
        × ((validate_trades ts v).0.last_prices ≡ v.last_prices)
  unfolding validate_trades
  far_trades_rejected [] v symbol last h a = (tt, refl)
  far_trades_rejected ((now, t) ∷ ts) v symbol last h ((e, f), a) =
      let (n, p, q) = far_trade now t v last (rw e h) f in
      let w : Validator = (validate_trade floats now t v).0 in
      let (ns, ps) = far_trades_rejected ts w symbol last (rw p h) (rw q a) in ((n, ns), ps ∙ p)
