-- ===== src/HftBook/Removal.antt =====
-- A removal from a side of the book deletes the level of that price.
use trading_platform.Prelude.{
  ℕ, zero, suc, ◌+◌, ◌-◌, ◌≤◌, ◌<◌, ◌≡◌, refl, ap, Option, some, List, [], ◌∷◌, arith, map_some,
  length, take, if◌then◌else◌, Bool-cases, inl, inr,
}
use trading_platform.Prelude.Int.{ℤ, eqb_ℤ}
use trading_platform.HftBook.{FastPriceLevel, BookSide, remove_side}
use trading_platform.HftBook.Arrays.{
  close_gap, shift_up_lem, take-close_gap, shift_up-suc, length-close_gap,
}
use trading_platform.HftBook.Side.{live}

module _ (price : ℤ) where
  -- The reference: the first level of that price is deleted.
  unfoldable pub erase_price : List FastPriceLevel → List FastPriceLevel
  erase_price [] = []
  erase_price (l ∷ ls) = if eqb_ℤ l.price_ticks price then ls else l ∷ erase_price ls

  abbrev push_front : FastPriceLevel → BookSide → BookSide
  push_front x s = (x ∷ s.0, suc s.1)

  -- A level in front that is not compared stays there.
  remove_side-suc :
      (n i count : ℕ) (x : FastPriceLevel) (xs : List FastPriceLevel)
      → i + n ≡ count
      → count < length (x ∷ xs)
      → remove_side (x ∷ xs) (suc count) price n (suc i)
        ≡ map_some (push_front x) (remove_side xs count price n i)
  unfolding remove_side
  remove_side-suc zero i count x xs e h = refl
  remove_side-suc (suc n) i count x xs e h =
      let outer : suc count - 1 - suc i ≡ n = omega arith in
      let inner : count - 1 - i ≡ n = omega arith in
      let total : suc count - 1 ≡ suc (count - 1) = omega arith in
      rw (outer, inner, total)
        (ground
          (arith, shift_up-suc n i x xs, remove_side-suc n (suc i) count x xs (omega arith) h))

  abbrev Removes : Option BookSide → ℕ → ℕ → List FastPriceLevel → Type 0
  Removes o n count ls =
      (s : BookSide) × (o ≡ some s) × (length s.0 ≡ n) × (s.1 ≤ count) × (live s ≡ ls)

  -- `remove_bid` and `remove_ask`: no index is out of range, and the live levels lose that price.
  pub remove_side_lem :
      (n : ℕ) (xs : List FastPriceLevel)
      → n ≤ length xs
      → Removes (remove_side xs n price n 0) (length xs) n (erase_price (take n xs))
  unfolding remove_side erase_price
  remove_side_lem zero xs h = ((xs, 0), refl, refl, omega arith, refl)
  remove_side_lem (suc n) [] h = absurd (omega arith)
  remove_side_lem (suc n) (x ∷ xs) h = elim (Bool-cases (eqb_ℤ x.price_ticks price)) [
    | inl e ↦
        let m : suc n - 1 - 0 ≡ n - 0 = omega arith in
        let k : suc n - 1 ≡ n = omega arith in
        (
          (close_gap 0 (n - 0) (x ∷ xs), n),
          rw (m, k) (ground (arith, shift_up_lem 0 (n - 0) (x ∷ xs) (omega arith))),
          length-close_gap 0 (n - 0) (x ∷ xs) (omega arith),
          omega arith,
          rw e (take-close_gap 0 n (x ∷ xs) (omega arith) h),
        )
    | inr e ↦
        let (s, r, l, c, t) = remove_side_lem n xs (omega arith) in
        (
          push_front x s,
          ground (arith, remove_side-suc n 0 n x xs (omega arith) (omega arith)),
          omega arith,
          omega arith,
          rw e (ap (λ r. x ∷ r) t),
        )
  ]
