-- ===== src/HftBook/Sorted.antt =====
-- The order of the levels on a side, and what the side says of each price.
use trading_platform.Prelude.{
  ℕ, zero, suc, ◌≡◌, refl, Bool, true, false, Option, none, some, List, [], ◌∷◌, arith, take,
  length, ◌≤◌, if◌then◌else◌,
}
use trading_platform.Prelude.Int.{ℤ, eqb_ℤ}
use trading_platform.HftBook.{FastPriceLevel, bid_worse, ask_worse}
use trading_platform.HftBook.Side.{upsert}
use trading_platform.HftBook.Removal.{erase_price}

-- What the comparison of a side has to be: a strict order that decides between unequal prices.
pub record IsOrder (worse : ℤ → ℤ → Bool) : Type 0 where
  pub trans : (a b c : ℤ) → worse a b ≡ true → worse b c ≡ true → worse a c ≡ true
  pub total : (a b : ℤ) → eqb_ℤ a b ≡ false → worse a b ≡ false → worse b a ≡ true
  pub apart : (a b : ℤ) → worse a b ≡ true → eqb_ℤ a b ≡ false

pub bid_worse-IsOrder : IsOrder bid_worse
bid_worse-IsOrder = record {
  trans = λ a b c p q. ground arith;
  total = λ a b p q. ground arith;
  apart = λ a b p. ground arith;
}

pub ask_worse-IsOrder : IsOrder ask_worse
ask_worse-IsOrder = record {
  trans = λ a b c p q. ground arith;
  total = λ a b p q. ground arith;
  apart = λ a b p. ground arith;
}

-- The quantity that a list of levels shows at a price.
abbrev pub quantity_at : ℤ → List FastPriceLevel → Option ℤ
quantity_at p [] = none
quantity_at p (l ∷ ls) = if eqb_ℤ l.price_ticks p then some l.quantity else quantity_at p ls

module _ (worse : ℤ → ℤ → Bool) where
  -- Every level is worse than one of that price.
  abbrev pub AllWorse : ℤ → List FastPriceLevel → Type 0
  AllWorse p [] = Unit {0}
  AllWorse p (l ∷ ls) = (worse l.price_ticks p ≡ true) × AllWorse p ls

  -- Strictly ordered, best price first.
  abbrev pub IsSorted : List FastPriceLevel → Type 0
  IsSorted [] = Unit {0}
  IsSorted (l ∷ ls) = AllWorse l.price_ticks ls × IsSorted ls

  AllWorse-take :
      (p : ℤ) (n : ℕ) (ls : List FastPriceLevel) → AllWorse p ls → AllWorse p (take n ls)
  AllWorse-take p zero ls h = tt
  AllWorse-take p (suc n) [] h = tt
  AllWorse-take p (suc n) (l ∷ ls) h = (h.0, AllWorse-take p n ls h.1)

  pub IsSorted-take : (n : ℕ) (ls : List FastPriceLevel) → IsSorted ls → IsSorted (take n ls)
  IsSorted-take zero ls h = tt
  IsSorted-take (suc n) [] h = tt
  IsSorted-take (suc n) (l ∷ ls) h = (AllWorse-take l.price_ticks n ls h.0, IsSorted-take n ls h.1)

module _ {worse : ℤ → ℤ → Bool} (order : IsOrder worse) where
  AllWorse-trans :
      (p q : ℤ) (ls : List FastPriceLevel)
      → worse q p ≡ true
      → AllWorse worse q ls
      → AllWorse worse p ls
  AllWorse-trans p q [] h a = tt
  AllWorse-trans p q (l ∷ ls) h a =
      (order.trans l.price_ticks q p a.0 h, AllWorse-trans p q ls h a.1)

  AllWorse-upsert :
      (p price quantity : ℤ) (ls : List FastPriceLevel)
      → worse price p ≡ true
      → AllWorse worse p ls
      → AllWorse worse p (upsert worse price quantity ls)
  unfolding upsert
  AllWorse-upsert p price quantity [] h a = (h, tt)
  AllWorse-upsert p price quantity (l ∷ ls) h a =
      ground (arith, AllWorse-upsert p price quantity ls h a.1)

  pub upsert-IsSorted :
      (price quantity : ℤ) (ls : List FastPriceLevel)
      → IsSorted worse ls
      → IsSorted worse (upsert worse price quantity ls)
  unfolding upsert
  upsert-IsSorted price quantity [] s = (tt, tt)
  upsert-IsSorted price quantity (l ∷ ls) s = ground (
    arith,
    upsert-IsSorted price quantity ls s.1,
    order.total l.price_ticks price,
    AllWorse-upsert l.price_ticks price quantity ls,
    AllWorse-trans price l.price_ticks ls,
  )

  AllWorse-erase :
      (p price : ℤ) (ls : List FastPriceLevel)
      → AllWorse worse p ls
      → AllWorse worse p (erase_price price ls)
  unfolding erase_price
  AllWorse-erase p price [] a = tt
  AllWorse-erase p price (l ∷ ls) a = ground (arith, AllWorse-erase p price ls a.1)

  pub erase_price-IsSorted :
      (price : ℤ) (ls : List FastPriceLevel)
      → IsSorted worse ls
      → IsSorted worse (erase_price price ls)
  unfolding erase_price
  erase_price-IsSorted price [] s = tt
  erase_price-IsSorted price (l ∷ ls) s =
      ground (arith, erase_price-IsSorted price ls s.1, AllWorse-erase l.price_ticks price ls s.0)

  -- A price that all levels are worse than is not there.
  quantity_at-AllWorse :
      (p q : ℤ) (ls : List FastPriceLevel)
      → eqb_ℤ q p ≡ true
      → AllWorse worse q ls
      → quantity_at p ls ≡ none
  quantity_at-AllWorse p q [] e a = refl
  quantity_at-AllWorse p q (l ∷ ls) e a =
      ground (arith, quantity_at-AllWorse p q ls e a.1, order.apart l.price_ticks q a.0)

  pub quantity_at-erase :
      (p price : ℤ) (ls : List FastPriceLevel)
      → IsSorted worse ls
      → quantity_at p (erase_price price ls) ≡ (if eqb_ℤ price p then none else quantity_at p ls)
  unfolding erase_price
  quantity_at-erase p price [] s = ground arith
  quantity_at-erase p price (l ∷ ls) s =
      ground (arith, quantity_at-erase p price ls s.1, quantity_at-AllWorse p l.price_ticks ls)

module _ (worse : ℤ → ℤ → Bool) where
  pub quantity_at-upsert :
      (p price quantity : ℤ) (ls : List FastPriceLevel)
      → quantity_at p (upsert worse price quantity ls)
        ≡ (if eqb_ℤ price p then some quantity else quantity_at p ls)
  unfolding upsert
  quantity_at-upsert p price quantity [] = refl
  quantity_at-upsert p price quantity (l ∷ ls) =
      ground (arith, quantity_at-upsert p price quantity ls)

  pub length-upsert :
      (price quantity : ℤ) (ls : List FastPriceLevel)
      → length (upsert worse price quantity ls) ≤ suc (length ls)
  unfolding upsert
  length-upsert price quantity [] = omega arith
  length-upsert price quantity (l ∷ ls) = ground (arith, length-upsert price quantity ls)
