-- ===== src/Builder/Prices.antt =====
-- Books whose prices are numbers: an update of such a book does not panic.
use trading_platform.Prelude.{
  ◌≡◌, refl, Bool, true, some, List, [], ◌∷◌, ◌++◌, Bool-cases, inl, inr,
}
use trading_platform.Floats.{Floats}
use trading_platform.MarketTypes.{PriceLevel, OrderBook, OrderBookUpdate}
use trading_platform.Prices.{AreNumbers, IsComparable, append-AreNumbers}
use trading_platform.BuilderState.{inc}
use trading_platform.Builder.{retain_other, merge_levels, insert_level, sort_levels, apply_to_book}

module _ (floats : Floats) where
  open floats use {F, literal, epsilon, sub, abs, lt, eq}

  retain_other-AreNumbers :
      (p : F) (ls : List (PriceLevel F))
      → AreNumbers floats ls
      → AreNumbers floats (retain_other floats p ls)
  unfolding retain_other
  retain_other-AreNumbers p [] n = tt
  retain_other-AreNumbers p (l ∷ ls) (m, n) = elim (Bool-cases (lt epsilon (abs (sub l.price p)))) [
    | inl e ↦ rw e (m, retain_other-AreNumbers p ls n)
    | inr e ↦ rw e (retain_other-AreNumbers p ls n)
  ]

  merge_levels-AreNumbers :
      (ls us : List (PriceLevel F))
      → AreNumbers floats ls
      → AreNumbers floats us
      → AreNumbers floats (merge_levels floats ls us)
  unfolding merge_levels
  merge_levels-AreNumbers ls [] n k = n
  merge_levels-AreNumbers ls (u ∷ us) n (m, k) =
      let kept = retain_other floats u.price ls in
      let k' = retain_other-AreNumbers u.price ls n in
      elim (Bool-cases (lt (literal 0) u.quantity)) [
        | inl e ↦ rw e (
            merge_levels-AreNumbers (kept ++ u ∷ []) us
              (append-AreNumbers floats kept (u ∷ []) k' (m, tt)) k)
        | inr e ↦ rw e (merge_levels-AreNumbers kept us k' k)
      ]

  module _ (total : IsComparable floats) (before : F → F → Bool) where
    insert_level-AreNumbers :
        (l : PriceLevel F) (ls : List (PriceLevel F))
        → eq l.price l.price ≡ true
        → AreNumbers floats ls
        → (ms : List (PriceLevel F)) × (insert_level floats before l ls ≡ some ms)
          × AreNumbers floats ms
    unfolding insert_level
    insert_level-AreNumbers l [] e n = (l ∷ [], refl, (e, tt))
    insert_level-AreNumbers l (m ∷ ls) e (k, n) =
        let c = total m.price l.price k e in
        let (ms, f, o) = insert_level-AreNumbers l ls e n in
        elim (Bool-cases (before m.price l.price)) [
          | inl b ↦ (m ∷ ms, rw (c, b, f) refl, (k, o))
          | inr b ↦ (l ∷ m ∷ ls, rw (c, b) refl, (e, (k, n)))
        ]

    sort_levels-AreNumbers :
        (ls : List (PriceLevel F))
        → AreNumbers floats ls
        → (ms : List (PriceLevel F)) × (sort_levels floats before ls ≡ some ms)
          × AreNumbers floats ms
    unfolding sort_levels
    sort_levels-AreNumbers [] n = ([], refl, tt)
    sort_levels-AreNumbers (l ∷ ls) (e, n) =
        let (ms, f, k) = sort_levels-AreNumbers ls n in
        let (os, g, o) = insert_level-AreNumbers l ms e k in (os, rw (f, g) refl, o)

  abbrev pub HasNumbers : OrderBook F → Type 0
  HasNumbers book = AreNumbers floats book.bids × AreNumbers floats book.asks

  abbrev counted :
      OrderBook F → OrderBookUpdate F → List (PriceLevel F) → List (PriceLevel F) → OrderBook F
  counted book u bids asks = record book {
    bids = bids;
    asks = asks;
    last_update_id = u.update_id;
    timestamp = u.timestamp;
    update_count = inc book.update_count;
  }

  -- An update without NaN prices leaves a book without them.
  pub apply_to_book-HasNumbers :
      (total : IsComparable floats) (book : OrderBook F) (u : OrderBookUpdate F)
      → HasNumbers book
      → AreNumbers floats u.bids
      → AreNumbers floats u.asks
      → (book' : OrderBook F) × (apply_to_book floats book u ≡ some book') × HasNumbers book'
  unfolding apply_to_book
  apply_to_book-HasNumbers total book u (n, k) p q = elim (Bool-cases u.is_snapshot) [
    | inl e ↦ (counted book u u.bids u.asks, rw e refl, (p, q))
    | inr e ↦
        let (bids, f, a) =
          sort_levels-AreNumbers total (λ a b. lt b a) (merge_levels floats book.bids u.bids)
            (merge_levels-AreNumbers book.bids u.bids n p) in
        let (asks, g, b) =
          sort_levels-AreNumbers total lt (merge_levels floats book.asks u.asks)
            (merge_levels-AreNumbers book.asks u.asks k q) in
        (counted book u bids asks, rw (e, f, g) refl, (a, b))
  ]
