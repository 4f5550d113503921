-- ===== src/Nbbo/Running.antt =====
-- The running best of one side over a list of books.
use trading_platform.Prelude.{
  ◌≡◌, ◌⊎◌, inl, inr, refl, ap, ◌∙◌, Bool, true, false, Option, none, some, List, [], ◌∷◌,
  Bool-cases,
}
use trading_platform.Floats.{Floats}
use trading_platform.MarketTypes.{Exchange, PriceLevel}
use trading_platform.Nbbo.{Quote, check_best}

-- A strict order: that of IEEE 754 numbers is one, NaNs included.
pub record IsStrict {F : Type 0} (better : F → F → Bool) : Type 0 where
  pub irrefl : (a : F) → better a a ≡ false
  pub trans : (a b c : F) → better a b ≡ true → better b c ≡ true → better a c ≡ true

pub flip-IsStrict : {F : Type 0} {lt : F → F → Bool} → IsStrict lt → IsStrict (λ a b. lt b a)
flip-IsStrict s = record { irrefl = s.irrefl; trans = λ a b c p q. s.trans c b a q p }

module _ (fl : Floats) where
  open fl use {F}

  abbrev pub Offer : Type 0
  Offer = Option (PriceLevel F) × Exchange

  unfoldable pub pick_best : (F → F → Bool) → Quote fl → List Offer → Quote fl
  pick_best better best [] = best
  pick_best better best ((level, e) ∷ offers) =
      pick_best better (check_best fl better best level e) offers

  -- No offer beats this price.
  abbrev pub Unbeaten : (F → F → Bool) → F → List Offer → Type 0
  Unbeaten better p [] = Unit {0}
  Unbeaten better p ((none, e) ∷ offers) = Unbeaten better p offers
  Unbeaten better p ((some level, e) ∷ offers) =
      (better level.price p ≡ false) × Unbeaten better p offers

  -- One of the offers is this quote.
  abbrev pub Offered : Quote fl → List Offer → Type 0
  Offered q [] = ⊥
  Offered q ((none, e) ∷ offers) = Offered q offers
  Offered q ((some level, e) ∷ offers) =
      ((q.price ≡ level.price) × (q.quantity ≡ level.quantity) × (q.exchange ≡ e))
      ⊎ Offered q offers

  module _ (better : F → F → Bool) (strict : IsStrict better) where
    abbrev pub AtLeast : F → F → Type 0
    AtLeast q p = (q ≡ p) ⊎ (better q p ≡ true)

    AtLeast-trans : (r q p : F) → AtLeast r q → AtLeast q p → AtLeast r p
    AtLeast-trans r q p (inl d) h = rw d h
    AtLeast-trans r q p (inr d) (inl e) = inr (rw (← e) d)
    AtLeast-trans r q p (inr d) (inr e) = inr (strict.trans r q p d e)

    abbrev quote_of : PriceLevel F → Exchange → Quote fl
    quote_of level e = record { price = level.price; quantity = level.quantity; exchange = e }

    check_best-cases :
        (best : Quote fl) (level : PriceLevel F) (e : Exchange)
        → ((better level.price best.price ≡ true)
            × (check_best fl better best (some level) e ≡ quote_of level e))
          ⊎ ((better level.price best.price ≡ false)
              × (check_best fl better best (some level) e ≡ best))
    unfolding check_best
    check_best-cases best level e = elim (Bool-cases (better level.price best.price)) [
      | inl wins ↦ inl (wins, rw wins refl)
      | inr loses ↦ inr (loses, rw loses refl)
    ]

    check_best-AtLeast :
        (best : Quote fl) (level : PriceLevel F) (e : Exchange)
        → AtLeast (check_best fl better best (some level) e).price best.price
    check_best-AtLeast best level e = elim (check_best-cases best level e) [
      | inl (wins, q) ↦ inr (rw q wins)
      | inr (loses, q) ↦ inl (ap (λ b. b.price) q)
    ]

    check_best-unbeaten :
        (best : Quote fl) (level : PriceLevel F) (e : Exchange)
        → better level.price (check_best fl better best (some level) e).price ≡ false
    check_best-unbeaten best level e = elim (check_best-cases best level e) [
      | inl (wins, q) ↦ rw q (strict.irrefl level.price)
      | inr (loses, q) ↦ rw q loses
    ]

    not_beaten : (q p r : F) → AtLeast q p → better r p ≡ false → better r q ≡ false
    not_beaten q p r (inl e) h = rw e h
    not_beaten q p r (inr b) h = elim (Bool-cases (better r q)) [
      | inl c ↦ absurd (cc (strict.trans r q p c b, h))
      | inr d ↦ d
    ]

    -- The end of a run is its start, or better than it.
    pub pick_best-AtLeast :
        (best : Quote fl) (offers : List Offer)
        → AtLeast (pick_best better best offers).price best.price
    unfolding pick_best check_best
    pick_best-AtLeast best [] = inl refl
    pick_best-AtLeast best ((none, e) ∷ offers) = pick_best-AtLeast best offers
    pick_best-AtLeast best ((some level, e) ∷ offers) =
        let best' = check_best fl better best (some level) e in
        AtLeast-trans (pick_best better best' offers).price best'.price best.price
          (pick_best-AtLeast best' offers) (check_best-AtLeast best level e)

    pub pick_best-Unbeaten :
        (best : Quote fl) (offers : List Offer)
        → Unbeaten better (pick_best better best offers).price offers
    unfolding pick_best check_best
    pick_best-Unbeaten best [] = tt
    pick_best-Unbeaten best ((none, e) ∷ offers) = pick_best-Unbeaten best offers
    pick_best-Unbeaten best ((some level, e) ∷ offers) =
        let best' = check_best fl better best (some level) e in
        (
          not_beaten (pick_best better best' offers).price best'.price level.price
              (pick_best-AtLeast best' offers) (check_best-unbeaten best level e),
          pick_best-Unbeaten best' offers,
        )

    is_offer :
        (q best best' : Quote fl) (level : PriceLevel F) (e : Exchange) (offers : List Offer)
        → ((q ≡ best') ⊎ Offered q offers)
        → ((best' ≡ quote_of level e) ⊎ (best' ≡ best))
        → (q ≡ best) ⊎ Offered q ((some level, e) ∷ offers)
    is_offer q best best' level e offers (inr there) _ = inr (inr there)
    is_offer q best best' level e offers (inl same) (inr kept) = inl (same ∙ kept)
    is_offer q best best' level e offers (inl same) (inl new) =
        let p = same ∙ new in
        inr (inl (ap (λ b. b.price) p, ap (λ b. b.quantity) p, ap (λ b. b.exchange) p))

    pub pick_best-Offered :
        (best : Quote fl) (offers : List Offer)
        → (pick_best better best offers ≡ best) ⊎ Offered (pick_best better best offers) offers
    unfolding pick_best check_best
    pick_best-Offered best [] = inl refl
    pick_best-Offered best ((none, e) ∷ offers) = pick_best-Offered best offers
    pick_best-Offered best ((some level, e) ∷ offers) =
        let best' = check_best fl better best (some level) e in
        let step : (best' ≡ quote_of level e) ⊎ (best' ≡ best) =
          elim (check_best-cases best level e) [ inl (wins, q) ↦ inl q | inr (loses, q) ↦ inr q ] in
        is_offer (pick_best better best' offers) best best' level e offers
          (pick_best-Offered best' offers) step
