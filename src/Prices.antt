-- ===== src/Prices.antt =====
-- Prices that can be compared: `partial_cmp` of f64 values, which is `None` exactly for a NaN.
use trading_platform.Prelude.{
  ℕ, zero, suc, ◌≡◌, Bool, true, ◌||◌, some, List, [], ◌∷◌, ◌++◌, get_elem?, set, take, drop,
}
use trading_platform.Floats.{Floats}
use trading_platform.MarketTypes.{PriceLevel}

module _ (floats : Floats) where
  open floats use {F, lt, eq}

  -- `a.partial_cmp(&b)` is not `None`.
  unfoldable pub comparable : F → F → Bool
  comparable a b = lt a b || lt b a || eq a b

  -- NaN is the one value that does not equal itself.
  abbrev pub AreNumbers : List (PriceLevel F) → Type 0
  AreNumbers [] = Unit {0}
  AreNumbers (l ∷ ls) = (eq l.price l.price ≡ true) × AreNumbers ls

  -- Two values that are not NaN can be compared.
  abbrev pub IsComparable : Type 0
  IsComparable = (a b : F) → eq a a ≡ true → eq b b ≡ true → comparable a b ≡ true

  pub append-AreNumbers :
      (ls ms : List (PriceLevel F)) → AreNumbers ls → AreNumbers ms → AreNumbers (ls ++ ms)
  append-AreNumbers [] ms n k = k
  append-AreNumbers (l ∷ ls) ms (m, n) k = (m, append-AreNumbers ls ms n k)

  pub take-AreNumbers : (i : ℕ) (ls : List (PriceLevel F)) → AreNumbers ls → AreNumbers (take i ls)
  take-AreNumbers zero ls n = tt
  take-AreNumbers (suc i) [] n = tt
  take-AreNumbers (suc i) (l ∷ ls) (m, n) = (m, take-AreNumbers i ls n)

  pub drop-AreNumbers : (i : ℕ) (ls : List (PriceLevel F)) → AreNumbers ls → AreNumbers (drop i ls)
  drop-AreNumbers zero ls n = n
  drop-AreNumbers (suc i) [] n = tt
  drop-AreNumbers (suc i) (l ∷ ls) (m, n) = drop-AreNumbers i ls n

  -- A level that takes the place of one with the same price.
  pub set-AreNumbers :
      (ls : List (PriceLevel F)) (i : ℕ) (old new : PriceLevel F)
      → get_elem? ls i ≡ some old
      → new.price ≡ old.price
      → AreNumbers ls
      → AreNumbers (set ls i new)
  set-AreNumbers [] i old new h e n = tt
  set-AreNumbers (l ∷ ls) zero old new h e (m, n) =
      let same : l.price ≡ new.price = cc in (rw (← same) m, n)
  set-AreNumbers (l ∷ ls) (suc i) old new h e (m, n) = (m, set-AreNumbers ls i old new h e n)
