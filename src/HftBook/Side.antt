-- ===== src/HftBook/Side.antt =====
-- One side of the book refines a list of levels: an update is an ordered insertion that keeps the
-- best MAX_DEPTH levels.
use native.Mathlib.Numerals.{add-one}
use trading_platform.Prelude.{
  ℕ, zero, suc, ◌+◌, ◌-◌, ◌%◌, ◌^◌, ◌≤◌, ◌<◌, ◌≡◌, refl, ap, ◌∙◌, sym, Bool, Option, some, List, [],
  ◌∷◌, arith, ◌>>=◌, length, get_elem?, get_elem?-lt, set, length-set, take, length-take, take-all,
  if◌then◌else◌, le→ltb, subst, dec_lt, bind-chain,
}
use trading_platform.Prelude.Int.{ℤ, eqb_ℤ}
use trading_platform.HftBook.{
  FastPriceLevel, BookSide, Found, existing, insert_at, max_depth, store_level, update_side, put,
  shift_down,
}
use trading_platform.HftBook.Arrays.{
  put-lt, place, shift_down-put, take-place, length-place, insert_elem,
}
use trading_platform.HftBook.Search.{locate, bump, search_level_lem}

-- The array has its fixed size, and the count counts levels of it.
abbrev pub IsSide : BookSide → Type 0
IsSide s = (length s.0 ≡ max_depth) × (s.1 ≤ max_depth)

-- The live levels of a side, best first.
abbrev pub live : BookSide → List FastPriceLevel
live s = take s.1 s.0

abbrev set_quantity : ℕ → ℤ → List FastPriceLevel → List FastPriceLevel
set_quantity i q [] = []
set_quantity zero q (l ∷ ls) = record l { quantity = q } ∷ ls
set_quantity (suc i) q (l ∷ ls) = l ∷ set_quantity i q ls

take-set_quantity :
    (i n : ℕ) (q : ℤ) (xs : List FastPriceLevel) (l : FastPriceLevel)
    → i < n
    → get_elem? xs i ≡ some l
    → take n (set xs i (record l { quantity = q })) ≡ set_quantity i q (take n xs)
take-set_quantity i zero q xs l h e = elim h [ ]
take-set_quantity i (suc n) q [] l h e = ground arith
take-set_quantity zero (suc n) q (x ∷ xs) l h e = ground arith
take-set_quantity (suc i) (suc n) q (x ∷ xs) l h e =
    ap (λ r. x ∷ r) (take-set_quantity i n q xs l (omega arith) e)

length-set_quantity :
    (i : ℕ) (q : ℤ) (xs : List FastPriceLevel) → length (set_quantity i q xs) ≡ length xs
length-set_quantity i q [] = refl
length-set_quantity zero q (x ∷ xs) = refl
length-set_quantity (suc i) q (x ∷ xs) = ap suc (length-set_quantity i q xs)

length-insert_elem :
    (i : ℕ) (v : FastPriceLevel) (xs : List FastPriceLevel)
    → length (insert_elem i v xs) ≡ suc (length xs)
length-insert_elem zero v xs = refl
length-insert_elem (suc i) v [] = refl
length-insert_elem (suc i) v (x ∷ xs) = ap suc (length-insert_elem i v xs)

take-insert_elem_end :
    (i : ℕ) (v : FastPriceLevel) (xs : List FastPriceLevel)
    → length xs ≡ i
    → take i (insert_elem i v xs) ≡ xs
take-insert_elem_end zero v [] h = refl
take-insert_elem_end zero v (x ∷ xs) h = absurd (omega arith)
take-insert_elem_end (suc i) v [] h = absurd (omega arith)
take-insert_elem_end (suc i) v (x ∷ xs) h =
    ap (λ r. x ∷ r) (take-insert_elem_end i v xs (omega arith))

module _ (worse : ℤ → ℤ → Bool) (price quantity : ℤ) where
  abbrev pub level : FastPriceLevel
  level = record { price_ticks = price; quantity = quantity }

  -- The reference: the level of that price gets the quantity, or a new level goes in front of the
  -- first one that is worse.
  unfoldable pub upsert : List FastPriceLevel → List FastPriceLevel
  upsert [] = level ∷ []
  upsert (l ∷ ls) =
      if eqb_ℤ l.price_ticks price
      then record l { quantity = quantity } ∷ ls
      else (if worse l.price_ticks price then level ∷ l ∷ ls else l ∷ upsert ls)

  abbrev at_place : Found → List FastPriceLevel → List FastPriceLevel
  at_place (existing i) ls = set_quantity i quantity ls
  at_place (insert_at i) ls = insert_elem i level ls

  abbrev InRange : Found → ℕ → Type 0
  InRange (existing i) n = i < n
  InRange (insert_at i) n = i ≤ n

  bump-InRange : (f : Found) (n : ℕ) → InRange f n → InRange (bump f) (suc n)
  bump-InRange (existing i) n h = omega arith
  bump-InRange (insert_at i) n h = omega arith

  at_place-bump :
      (f : Found) (l : FastPriceLevel) (ls : List FastPriceLevel)
      → at_place (bump f) (l ∷ ls) ≡ l ∷ at_place f ls
  at_place-bump (existing i) l ls = refl
  at_place-bump (insert_at i) l ls = refl

  locate-InRange : (ls : List FastPriceLevel) → InRange (locate worse price ls) (length ls)
  unfolding locate
  locate-InRange [] = omega arith
  locate-InRange (l ∷ ls) = ground (
    arith,
    locate-InRange ls,
    bump-InRange (locate worse price ls) (length ls) (locate-InRange ls),
  )

  at_place-locate : (ls : List FastPriceLevel) → at_place (locate worse price ls) ls ≡ upsert ls
  unfolding locate upsert
  at_place-locate [] = refl
  at_place-locate (l ∷ ls) =
      ground (arith, at_place-locate ls, at_place-bump (locate worse price ls) l ls)

  -- What `store_level` may return, over the live levels `ls`.
  abbrev Stores : Option BookSide → List FastPriceLevel → Type 0
  Stores o ls = (s : BookSide) × (o ≡ some s) × IsSide s × (live s ≡ take max_depth ls)

  store_existing :
      (xs : List FastPriceLevel) (count i : ℕ)
      → IsSide (xs, count)
      → i < count
      → Stores
          (store_level worse xs count price quantity (existing i))
          (set_quantity i quantity (take count xs))
  unfolding store_level
  store_existing xs count i v h =
      let (l, e) = get_elem?-lt xs i (omega arith) in
      let new : FastPriceLevel = record l { quantity = quantity } in
      (
        (set xs i new, count),
        rw (e, put-lt xs i new (omega arith)),
        (omega (arith, length-set xs i new), omega arith),
        take-set_quantity i count quantity xs l h e
            ∙ sym (
                take-all max_depth (set_quantity i quantity (take count xs)) (
                  omega
                    (arith, length-set_quantity i quantity (take count xs), length-take count xs))),
      )

  abbrev with_count : ℕ → List FastPriceLevel → Option BookSide
  with_count c zs = some (zs, c)

  -- The two copies of the shifting code, for any final count.
  shifted :
      (n i c : ℕ) (xs : List FastPriceLevel)
      → i + n < length xs
      → (shift_down n i xs >>= λ ys. put ys i level >>= with_count c) ≡ some (place i n level xs, c)
  shifted n i c xs h =
      bind-chain (shift_down n i xs) _ (with_count c) (shift_down-put i n level xs h)

  room_live :
      (xs : List FastPriceLevel) (count i : ℕ)
      → i ≤ count
      → (count < max_depth) × (length xs ≡ max_depth)
      → take (count + 1) (place i (count - i) level xs)
        ≡ take max_depth (insert_elem i level (take count xs))
  room_live xs count i h v =
      let inserted = insert_elem i level (take count xs) in
      let len : length inserted ≡ suc count =
        omega (arith, length-insert_elem i level (take count xs), length-take count xs) in
      rw add-one (take-place i count count level xs h (omega arith) (omega arith))
      ∙ take-all (suc count) inserted (omega arith)
      ∙ sym (take-all max_depth inserted (omega arith))

  store_insert :
      (xs : List FastPriceLevel) (count i : ℕ)
      → IsSide (xs, count)
      → i ≤ count
      → Stores
          (store_level worse xs count price quantity (insert_at i))
          (insert_elem i level (take count xs))
  unfolding store_level
  store_insert xs count i v h = elim (dec_lt i max_depth) [
    | no p ↦ (
      (xs, count),
      rw (le→ltb i max_depth (omega arith)),
      v,
      let e : count ≡ i = omega arith in
          let d : i ≡ max_depth = omega arith in
          sym (
            rw (e, d)
              (take-insert_elem_end max_depth level (take max_depth xs)
                (omega (arith, length-take max_depth xs)))),
    )
    | yes p ↦ elim (dec_lt count max_depth) [
      | no q ↦ (
        (place i (max_depth - 1 - i) level xs, count),
        ground (arith, shifted (max_depth - 1 - i) i count xs (omega arith)),
        (omega (arith, length-place i (max_depth - 1 - i) level xs), omega arith),
        (let c : count ≡ max_depth = omega arith in
            rw c (take-place i 19 20 level xs (omega arith) (omega arith) (omega arith))),
      )
      | yes q ↦ (
        (place i (count - i) level xs, count + 1),
        ground (arith, shifted (count - i) i ((count + 1) % 2 ^ 8) xs (omega arith)),
        (omega (arith, length-place i (count - i) level xs), omega arith),
        (room_live xs count i h (omega arith)),
      )
    ]
  ]

  -- Both loops of `update_bid` or `update_ask` together: no index is out of range, the side stays
  -- well-formed, and it holds the best MAX_DEPTH levels of the reference.
  pub update_side_lem :
      (xs : List FastPriceLevel) (count : ℕ)
      → IsSide (xs, count)
      → Stores (update_side worse xs count price quantity) (upsert (take count xs))
  unfolding update_side
  update_side_lem xs count v =
      rw (search_level_lem worse price count xs (omega arith), ← at_place-locate (take count xs))
        (stored (locate worse price (take count xs)) (
          subst (InRange (locate worse price (take count xs))) (omega (arith, length-take count xs))
            (locate-InRange (take count xs))))
    where
      stored :
          (f : Found)
          → InRange f count
          → Stores (store_level worse xs count price quantity f) (at_place f (take count xs))
      stored (existing i) h = store_existing xs count i v h
      stored (insert_at i) h = store_insert xs count i v h

-- Removal.
