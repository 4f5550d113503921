-- ===== src/HftBook/Apply.antt =====
-- `apply_update`: all levels of an update, in order.
use trading_platform.Prelude.{
  dec_lt, ℕ, zero, suc, ◌+◌, ◌%◌, ◌^◌, ◌≤◌, ◌<◌, ◌≡◌, refl, ap, ◌∙◌, fun_ext, Bool, true, false,
  Option, none, some, List, [], ◌∷◌, arith, ◌>>=◌, length, get_elem?, take, leb, if◌then◌else◌,
  Bool-cases, inl, inr, Option-cases,
}
use trading_platform.Prelude.Int.{ℤ, pos, eqb_ℤ}
use trading_platform.HftBook.{
  FastPriceLevel, FastOrderBook, FastUpdate, max_depth, bid_worse, ask_worse, apply_bid, apply_ask,
  each_update, apply_update,
}
use trading_platform.HftBook.Side.{upsert}
use trading_platform.HftBook.Removal.{erase_price}
use trading_platform.HftBook.Refine.{
  bid_levels, ask_levels, IsBook, IsUpdate, BidsBecome, AsksBecome, update_bid_refines,
  update_ask_refines, remove_bid_refines, remove_ask_refines,
}

-- The reference for one level of an update, and for all of them in order.
module _ (worse : ℤ → ℤ → Bool) where
  abbrev pub apply_level : List FastPriceLevel → FastPriceLevel → List FastPriceLevel
  apply_level ls l =
      if eqb_ℤ l.quantity (pos 0)
      then erase_price l.price_ticks ls
      else take max_depth (upsert worse l.price_ticks l.quantity ls)

  abbrev pub apply_levels : List FastPriceLevel → List FastPriceLevel → List FastPriceLevel
  apply_levels ls [] = ls
  apply_levels ls (l ∷ us) = apply_levels (apply_level ls l) us

apply_bid_refines :
    (b : FastOrderBook) (l : FastPriceLevel)
    → IsBook b
    → BidsBecome (apply_bid b l) b (apply_level bid_worse (bid_levels b) l)
unfolding apply_bid
apply_bid_refines b l v = elim (Bool-cases (eqb_ℤ l.quantity (pos 0))) [
  | inl e ↦ rw e (remove_bid_refines b l.price_ticks v)
  | inr e ↦ rw e (update_bid_refines b l.price_ticks l.quantity v)
]

apply_ask_refines :
    (b : FastOrderBook) (l : FastPriceLevel)
    → IsBook b
    → AsksBecome (apply_ask b l) b (apply_level ask_worse (ask_levels b) l)
unfolding apply_ask
apply_ask_refines b l v = elim (Bool-cases (eqb_ℤ l.quantity (pos 0))) [
  | inl e ↦ rw e (remove_ask_refines b l.price_ticks v)
  | inr e ↦ rw e (update_ask_refines b l.price_ticks l.quantity v)
]

module _ (body : FastOrderBook → FastPriceLevel → Option FastOrderBook) where
  abbrev fold_updates : List FastPriceLevel → FastOrderBook → Option FastOrderBook
  fold_updates [] b = some b
  fold_updates (l ∷ us) b = body b l >>= fold_updates us

  each_update-suc :
      (n i : ℕ) (x : FastPriceLevel) (us : List FastPriceLevel) (b : FastOrderBook)
      → each_update body (x ∷ us) n (suc i) b ≡ each_update body us n i b
  unfolding each_update
  each_update-suc zero i x us b = refl
  each_update-suc (suc n) i x us b =
      ap (λ (f : FastOrderBook → Option FastOrderBook). get_elem? us i >>= λ l. body b l >>= f)
        (fun_ext λ b'. each_update-suc n (suc i) x us b')

  each_update_lem :
      (n : ℕ) (us : List FastPriceLevel) (b : FastOrderBook)
      → n ≤ length us
      → each_update body us n 0 b ≡ fold_updates (take n us) b
  unfolding each_update
  each_update_lem zero us b h = refl
  each_update_lem (suc n) [] b h = absurd (omega arith)
  each_update_lem (suc n) (x ∷ us) b h =
      ap (λ (f : FastOrderBook → Option FastOrderBook). body b x >>= f)
        (fun_ext λ b'. each_update-suc n 0 x us b' ∙ each_update_lem n us b' (omega arith))

  each_update_panics :
      (n : ℕ) (us : List FastPriceLevel) (b : FastOrderBook)
      → length us < n
      → each_update body us n 0 b ≡ none
  unfolding each_update
  each_update_panics zero us b h = elim h [ ]
  each_update_panics (suc n) [] b h = refl
  each_update_panics (suc n) (x ∷ us) b h = elim (Option-cases (body b x)) [
    | inl e ↦ rw e
    | inr (b', e) ↦ rw e (each_update-suc n 0 x us b' ∙ each_update_panics n us b' (omega arith))
  ]

fold_bids :
    (us : List FastPriceLevel) (b : FastOrderBook)
    → IsBook b
    → BidsBecome (fold_updates apply_bid us b) b (apply_levels bid_worse (bid_levels b) us)
fold_bids [] b v = (b, refl, v, refl, refl)
fold_bids (l ∷ us) b v =
    let (b₁, e₁, v₁, l₁, s₁) = apply_bid_refines b l v in
    let (b₂, e₂, v₂, l₂, s₂) = fold_bids us b₁ v₁ in (b₂, rw e₁ e₂, v₂, rw (← l₁) l₂, ground arith)

fold_asks :
    (us : List FastPriceLevel) (b : FastOrderBook)
    → IsBook b
    → AsksBecome (fold_updates apply_ask us b) b (apply_levels ask_worse (ask_levels b) us)
fold_asks [] b v = (b, refl, v, refl, refl)
fold_asks (l ∷ us) b v =
    let (b₁, e₁, v₁, l₁, s₁) = apply_ask_refines b l v in
    let (b₂, e₂, v₂, l₂, s₂) = fold_asks us b₁ v₁ in (b₂, rw e₁ e₂, v₂, rw (← l₁) l₂, ground arith)

-- A newer update whose counts fit its arrays is applied without a panic: each side goes through
-- the update's levels in order, a zero quantity deleting and any other inserting or replacing
-- among the best MAX_DEPTH, the book stays well-formed, and its last update id, update count and
-- symbol are as said.
pub apply_update_refines :
    (b : FastOrderBook) (u : FastUpdate)
    → IsBook b
    → IsUpdate u
    → b.last_update_id < u.update_id
    → (b' : FastOrderBook) × (apply_update b u ≡ some b')
      × IsBook b'
      × (bid_levels b' ≡ apply_levels bid_worse (bid_levels b) (take u.bid_count u.bid_updates))
      × (ask_levels b' ≡ apply_levels ask_worse (ask_levels b) (take u.ask_count u.ask_updates))
      × (b'.last_update_id ≡ u.update_id)
      × (b'.update_count ≡ (b.update_count + 1) % 2 ^ 64)
      × (b'.symbol_id ≡ b.symbol_id)
unfolding apply_update
apply_update_refines b u v w h =
    let asks = take u.ask_count u.ask_updates in
    let (b₁, e₁, v₁, l₁, s₁) = fold_bids (take u.bid_count u.bid_updates) b v in
    let (b₂, e₂, v₂, l₂, s₂) = fold_asks asks b₁ v₁ in
    let fresh : leb u.update_id b.last_update_id ≡ false = ground arith in
    (
      record b₂ { last_update_id = u.update_id; update_count = (b₂.update_count + 1) % 2 ^ 64 },
      rw (
        fresh,
        each_update_lem apply_bid u.bid_count u.bid_updates b w.bid_room,
        e₁,
        each_update_lem apply_ask u.ask_count u.ask_updates b₁ w.ask_room,
        e₂,
      ),
      record {
        bid_side = v₂.bid_side;
        ask_side = v₂.ask_side;
        bids_sorted = v₂.bids_sorted;
        asks_sorted = v₂.asks_sorted;
      },
      ap bid_levels s₂ ∙ l₁,
      l₂ ∙ ap (λ (ls : List FastPriceLevel). apply_levels ask_worse ls asks) (ap ask_levels s₁),
      refl,
      ground arith,
      ground arith,
    )

-- A fresh update that claims more bids than its array holds panics.
apply_update_overrun :
    (b : FastOrderBook) (u : FastUpdate)
    → b.last_update_id < u.update_id
    → length u.bid_updates < u.bid_count
    → apply_update b u ≡ none
unfolding apply_update
apply_update_overrun b u h over =
    let fresh : leb u.update_id b.last_update_id ≡ false = ground arith in
    rw (fresh, each_update_panics apply_bid u.bid_count u.bid_updates b over)

-- Applying an update a second time changes nothing, whatever it holds.
apply_update_twice :
    (b b' : FastOrderBook) (u : FastUpdate)
    → apply_update b u ≡ some b'
    → apply_update b' u ≡ some b'
unfolding apply_update
apply_update_twice b b' u h = ground arith

-- A snapshot is applied like any other update: one with no bids leaves the bids of the book as
-- they are, where a snapshot would replace them.
pub snapshot_keeps_old_bids :
    (b b' : FastOrderBook) (u : FastUpdate)
    → IsBook b
    → IsUpdate u
    → u.is_snapshot ≡ true
    → u.bid_count ≡ 0
    → apply_update b u ≡ some b'
    → bid_levels b' ≡ bid_levels b
unfolding apply_update
snapshot_keeps_old_bids b b' u v w snapshot no_bids h = elim (dec_lt b.last_update_id u.update_id) [
  | no p ↦ ground arith
  | yes p ↦
      let (c, e, _, l, _, _, _, _) = apply_update_refines b u v w p in
      let same : c ≡ b' = cc in
      rw (← same)
        (l ∙ ap (λ n. apply_levels bid_worse (bid_levels b) (take n u.bid_updates)) no_bids)
]
