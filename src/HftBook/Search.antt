-- ===== src/HftBook/Search.antt =====
-- The search loop of `update_bid` and `update_ask`, as a search through the live levels.
use trading_platform.Prelude.{
  ℕ, zero, suc, ◌≤◌, ◌≡◌, refl, Bool, some, List, [], ◌∷◌, arith, map_some, length, take,
  if◌then◌else◌,
}
use trading_platform.Prelude.Int.{ℤ, eqb_ℤ}
use trading_platform.HftBook.{FastPriceLevel, Found, existing, insert_at, search_level}

-- One more level stands in front.
abbrev pub bump : Found → Found
bump (existing i) = existing (suc i)
bump (insert_at i) = insert_at (suc i)

module _ (worse : ℤ → ℤ → Bool) (price : ℤ) where
  -- Where a level of that price is, or belongs, in a list of levels.
  unfoldable pub locate : List FastPriceLevel → Found
  locate [] = insert_at 0
  locate (l ∷ ls) =
      if eqb_ℤ l.price_ticks price
      then existing 0
      else (if worse l.price_ticks price then insert_at 0 else bump (locate ls))

  search_level-suc :
      (n i p : ℕ) (x : FastPriceLevel) (xs : List FastPriceLevel)
      → search_level worse (x ∷ xs) price n (suc i) (suc p)
        ≡ map_some bump (search_level worse xs price n i p)
  unfolding search_level
  search_level-suc zero i p x xs = refl
  search_level-suc (suc n) i p x xs = ground (arith, search_level-suc n (suc i) p x xs)

  -- The loop over the first `n` levels of the array finds that place among them.
  pub search_level_lem :
      (n : ℕ) (xs : List FastPriceLevel)
      → n ≤ length xs
      → search_level worse xs price n 0 n ≡ some (locate (take n xs))
  unfolding search_level locate
  search_level_lem zero xs h = refl
  search_level_lem (suc n) [] h = absurd (omega arith)
  search_level_lem (suc n) (x ∷ xs) h =
      ground (arith, search_level-suc n 0 n x xs, search_level_lem n xs (omega arith))
