-- ===== src/DataValidator/Sound.antt =====
-- What is true of a book that the validator accepts.
use trading_platform.Prelude.{◌≡◌, refl, Bool, true, false, List, [], ◌∷◌, ◌++◌, arith}
use trading_platform.Prelude.Int.{ℤ}
use trading_platform.Floats.{Floats}
use trading_platform.MarketTypes.{OrderBookUpdate, PriceLevel}
use trading_platform.DataValidator.{
  Rejection, accepted, crossed_market, bids_not_sorted, asks_not_sorted, DataValidator, and_then,
  Check, ensure, check_timestamp_monotonic, check_staleness, descending, ascending, check_levels,
  validate_price_levels, not_crossed, check_mid_price, check_book, validate_orderbook,
}
use trading_platform.DataValidator.Order.{and_then-accepted}

module _ (floats : Floats) where
  open floats use {F, literal, lt, le, eq}

  -- No price is a NaN, the one number that differs from itself.
  abbrev pub AllNumbers : List (PriceLevel F) → Type 0
  AllNumbers [] = Unit
  AllNumbers (l ∷ ls) = (eq l.price l.price ≡ true) × AllNumbers ls

  abbrev pub AllBelow : F → List (PriceLevel F) → Type 0
  AllBelow p [] = Unit
  AllBelow p (l ∷ ls) = (lt l.price p ≡ true) × AllBelow p ls

  abbrev pub AllAbove : F → List (PriceLevel F) → Type 0
  AllAbove p [] = Unit
  AllAbove p (l ∷ ls) = (lt p l.price ≡ true) × AllAbove p ls

  -- Each bid is below each ask.
  abbrev pub Uncrossed : List (PriceLevel F) → List (PriceLevel F) → Type 0
  Uncrossed [] asks = Unit
  Uncrossed (b ∷ bids) asks = AllAbove b.price asks × Uncrossed bids asks

  abbrev pub AllPositive : List (PriceLevel F) → Type 0
  AllPositive [] = Unit
  AllPositive (l ∷ ls) =
      ((le l.price (literal 0) ≡ false) × (lt l.quantity (literal 0) ≡ false)) × AllPositive ls

  -- The order of f64 on numbers.
  module _ (lt_trans : (x y z : F) → lt x y ≡ true → lt y z ≡ true → lt x z ≡ true)
      (total : (x y : F) → eq x x ≡ true → eq y y ≡ true → le x y ≡ false → lt y x ≡ true) where
    AllAbove-weaken :
        (p q : F) (ls : List (PriceLevel F)) → lt p q ≡ true → AllAbove q ls → AllAbove p ls
    AllAbove-weaken p q [] h a = tt
    AllAbove-weaken p q (l ∷ ls) h (b, a) = (lt_trans p q l.price h b, AllAbove-weaken p q ls h a)

    ascending-AllAbove :
        (l : PriceLevel F) (ls : List (PriceLevel F))
        → AllNumbers (l ∷ ls)
        → ascending floats (l ∷ ls) ≡ true
        → AllAbove l.price ls
    ascending-AllAbove l [] n h = tt
    ascending-AllAbove l (m ∷ ls) (a, (b, n)) h =
        let c : le m.price l.price ≡ false = ground (arith, h) in
        let d : lt l.price m.price ≡ true = total m.price l.price b a c in
        (
          d,
          AllAbove-weaken l.price m.price ls d
              (ascending-AllAbove m ls (b, n) (ground (arith, h, c))),
        )

    AllBelow-weaken :
        (p q : F) (ls : List (PriceLevel F)) → lt q p ≡ true → AllBelow q ls → AllBelow p ls
    AllBelow-weaken p q [] h a = tt
    AllBelow-weaken p q (l ∷ ls) h (b, a) = (lt_trans l.price q p b h, AllBelow-weaken p q ls h a)

    descending-AllBelow :
        (l : PriceLevel F) (ls : List (PriceLevel F))
        → AllNumbers (l ∷ ls)
        → descending floats (l ∷ ls) ≡ true
        → AllBelow l.price ls
    descending-AllBelow l [] n h = tt
    descending-AllBelow l (m ∷ ls) (a, (b, n)) h =
        let c : le l.price m.price ≡ false = ground (arith, h) in
        let d : lt m.price l.price ≡ true = total l.price m.price a b c in
        (
          d,
          AllBelow-weaken l.price m.price ls d
              (descending-AllBelow m ls (b, n) (ground (arith, h, c))),
        )

    below-Uncrossed :
        (p : F) (bids asks : List (PriceLevel F))
        → AllBelow p bids
        → AllAbove p asks
        → Uncrossed bids asks
    below-Uncrossed p [] asks a b = tt
    below-Uncrossed p (l ∷ bids) asks (h, a) b =
        (AllAbove-weaken l.price p asks h b, below-Uncrossed p bids asks a b)

    sorted-Uncrossed :
        (bids asks : List (PriceLevel F))
        → AllNumbers bids
        → AllNumbers asks
        → descending floats bids ≡ true
        → ascending floats asks ≡ true
        → not_crossed floats bids asks ≡ true
        → Uncrossed bids asks
    sorted-Uncrossed [] asks m n d a h = tt
    sorted-Uncrossed (b ∷ bids) [] m n d a h =
        (tt, below-Uncrossed b.price bids [] (descending-AllBelow b bids m d) tt)
    sorted-Uncrossed (b ∷ bids) (k ∷ asks) (x, m) (y, n) d a h =
        let c : lt b.price k.price ≡ true = total k.price b.price y x (ground arith) in
        let above : AllAbove b.price (k ∷ asks) =
          (c, AllAbove-weaken b.price k.price asks c (ascending-AllAbove k asks (y, n) a)) in
        (above, below-Uncrossed b.price bids (k ∷ asks) (descending-AllBelow b bids (x, m) d) above)

    check_levels-AllPositive :
        (ls : List (PriceLevel F)) (v : DataValidator floats)
        → (check_levels floats ls v).1 ≡ accepted
        → AllPositive ls
    unfolding check_levels
    check_levels-AllPositive [] v h = tt
    check_levels-AllPositive (l ∷ ls) v h = ground (arith, h, check_levels-AllPositive ls v)

    ensure-true :
        (r : Rejection) (o : Bool) (v : DataValidator floats)
        → (ensure floats r o v).1 ≡ accepted
        → o ≡ true
    ensure-true r true v h = refl
    ensure-true r false v h = absurd (ground arith)

    -- If a book without NaNs is accepted, each of its bids is below each of its asks, no price is
    -- zero or negative, and no quantity is negative.
    pub accepted_book :
        (now : ℤ) (u : OrderBookUpdate F) (v : DataValidator floats)
        → AllNumbers u.bids
        → AllNumbers u.asks
        → (validate_orderbook floats now u v).1 ≡ accepted
        → Uncrossed u.bids u.asks × AllPositive (u.bids ++ u.asks)
    unfolding validate_orderbook check_book validate_price_levels check_staleness
    accepted_book now u v m n h =
        let old : Check floats = check_staleness floats now u.timestamp in
        let levels : Check floats = validate_price_levels floats u.bids u.asks in
        let uncrossed : Check floats =
          ensure floats crossed_market (not_crossed floats u.bids u.asks) in
        let mid : Check floats = check_mid_price floats u in
        let book : Check floats = check_book floats now u in
        let time : Check floats = check_timestamp_monotonic floats u.symbol u.timestamp in
        let last : Check floats = and_then floats uncrossed mid in
        let bids : Check floats = ensure floats bids_not_sorted (descending floats u.bids) in
        let asks : Check floats = ensure floats asks_not_sorted (ascending floats u.asks) in
        let each : Check floats = check_levels floats (u.bids ++ u.asks) in
        let (_, a) = and_then-accepted floats time book v h in
        let w : DataValidator floats = (time v).0 in
        let (_, b) = and_then-accepted floats old (and_then floats levels last) w a in
        let (c, d) = and_then-accepted floats levels last w b in
        let (e, _) = and_then-accepted floats uncrossed mid (levels w).0 d in
        let (f, g) = and_then-accepted floats bids (and_then floats asks each) w c in
        let (i, j) = and_then-accepted floats asks each w g in
        (
          sorted-Uncrossed u.bids u.asks m n (ensure-true _ _ w f) (ensure-true _ _ w i)
              (ensure-true _ _ (levels w).0 e),
          check_levels-AllPositive (u.bids ++ u.asks) w j,
        )
