-- ===== src/Engine/Sides.antt =====
-- What the updates of one side of a book do to its levels and to the counter of ids.
use trading_platform.Prelude.{
  ℕ, suc, ◌+◌, ◌^◌, ◌≤◌, ◌<◌, take, drop, lt→ltb, ◌≡◌, refl, Bool, true, false, Option, some, List,
  [], ◌∷◌, ◌++◌, arith, if◌then◌else◌, length, get_elem?-lt, Bool-cases, Option-cases, inl, inr,
}
use trading_platform.Prelude.Int.{ℤ}
use trading_platform.Prelude.Dict.{string_eq}
use trading_platform.Floats.{Floats}
use trading_platform.Prices.{
  AreNumbers, IsComparable, append-AreNumbers, take-AreNumbers, drop-AreNumbers, set-AreNumbers,
}
use trading_platform.MarketTypes.{Side, PriceLevel, OrderEvent, order_id}
use trading_platform.Engine.{
  SideResult, next_order_id, comes_before, insert_pos, with_event, position, process_level,
  process_side_updates,
}

-- The events carry the ids after the first counter in order, up to the second.
abbrev pub Numbered : {F : Type 0} → ℕ → List (OrderEvent F) → ℕ → Type 0
Numbered c [] c' = c' ≡ c
Numbered c (e ∷ es) c' = (order_id e ≡ c + 1) × Numbered (c + 1) es c'

pub Numbered-append :
    {F : Type 0} (es fs : List (OrderEvent F)) (c c' c'' : ℕ)
    → Numbered c es c'
    → Numbered c' fs c''
    → Numbered c (es ++ fs) c''
Numbered-append [] fs c c' c'' h k = rw h at k
Numbered-append (e ∷ es) fs c c' c'' h k = (h.0, Numbered-append es fs (c + 1) c' c'' h.1 k)

pub next_order_id-below : (c : ℕ) → c + 1 < 2 ^ 64 → next_order_id c ≡ some (c + 1)
unfolding next_order_id
next_order_id-below c h = rw (lt→ltb (c + 1) (2 ^ 64) h) refl

module _ (floats : Floats) where
  open floats use {F, literal, lt, eq}

  pub position-lt :
      (price : F) (ls : List (PriceLevel F)) (i : ℕ)
      → position floats price ls ≡ some i
      → i < length ls
  unfolding position
  position-lt price [] i h = ground arith
  position-lt price (l ∷ ls) i h = elim (Option-cases (position floats price ls)) [
    | inl e ↦ let h' = rw e at h in ground arith
    | inr (j, e) ↦
        let h' = rw e at h in let below : j < length ls = position-lt price ls j e in ground arith
  ]

  -- A side without NaN prices, with events numbered from a counter, of which they took at most so
  -- many.
  abbrev pub Runs : Option (SideResult F) → ℕ → ℕ → Type 0
  Runs o c n =
      (r : SideResult F) × (o ≡ some r) × Numbered c r.2 r.1 × (r.1 ≤ c + n) × AreNumbers floats r.0

  if-Runs :
      (b : Bool) (x y : Option (SideResult F)) (c n : ℕ)
      → Runs x c n
      → Runs y c n
      → Runs (if b then x else y) c n
  if-Runs true x y c n h k = h
  if-Runs false x y c n h k = k

  with_event-Runs :
      (c : ℕ) (event : ℕ → OrderEvent F) (ls : List (PriceLevel F))
      → c + 1 < 2 ^ 64
      → order_id (event (c + 1)) ≡ c + 1
      → AreNumbers floats ls
      → Runs (with_event floats c event ls) c 1
  unfolding with_event
  with_event-Runs c event ls h e k = (
    (ls, c + 1, event (c + 1) ∷ []),
    rw (next_order_id-below c h) refl,
    (e, refl),
    omega arith,
    k,
  )

  insert_pos-some :
      (total : IsComparable floats) (side : Side) (price : F) (ls : List (PriceLevel F))
      → eq price price ≡ true
      → AreNumbers floats ls
      → (i : ℕ) × (insert_pos floats side price ls ≡ some i)
  unfolding insert_pos
  insert_pos-some total side price [] e k = (0, refl)
  insert_pos-some total side price (l ∷ ls) e (m, k) =
      let c = total l.price price m e in
      let (i, f) = insert_pos-some total side price ls e k in
      elim (Bool-cases (comes_before floats side l.price price)) [
        | inl b ↦ (suc i, rw (c, b, f) refl)
        | inr b ↦ (0, rw (c, b) refl)
      ]

  process_level-Runs :
      (total : IsComparable floats) (side : Side) (timestamp : ℤ) (ls : List (PriceLevel F)) (c : ℕ)
      (u : PriceLevel F)
      → c + 1 < 2 ^ 64
      → eq u.price u.price ≡ true
      → AreNumbers floats ls
      → Runs (process_level floats side timestamp ls c u) c 1
  unfolding process_level
  process_level-Runs total side timestamp ls c u h m k =
      let same : Runs (some (ls, c, [])) c 1 = ((ls, c, []), refl, refl, omega arith, k) in
      elim (Option-cases (position floats u.price ls)) [
        | inl e ↦
            let (i, f) = insert_pos-some total side u.price ls m k in
            let inserted =
              append-AreNumbers floats (take i ls) (u ∷ drop i ls) (take-AreNumbers floats i ls k)
                (m, drop-AreNumbers floats i ls k) in
            rw (e, process_level)
              (if-Runs (lt (literal 0) u.quantity) _ _ c 1
                (rw f (with_event-Runs c _ _ h refl inserted)) same)
        | inr (i, e) ↦
            let (current, f) = get_elem?-lt ls i (position-lt u.price ls i e) in
            let removed =
              append-AreNumbers floats (take i ls) (drop (i + 1) ls) (take-AreNumbers floats i ls k)
                (drop-AreNumbers floats (i + 1) ls k) in
            let changed =
              set-AreNumbers floats ls i current (record current { quantity = u.quantity }) f refl
                k in
            rw (e, process_level, f)
              (if-Runs (eq u.quantity (literal 0)) _ _ c 1 (with_event-Runs c _ _ h refl removed) (
                if-Runs (lt current.quantity u.quantity) _ _ c 1
                  (with_event-Runs c _ _ h refl changed)
                  (if-Runs (lt u.quantity current.quantity) _ _ c 1
                    (with_event-Runs c _ _ h refl changed) same)))
      ]

  pub process_side_updates-Runs :
      (total : IsComparable floats) (side : Side) (timestamp : ℤ) (ls : List (PriceLevel F)) (c : ℕ)
      (us : List (PriceLevel F))
      → c + length us < 2 ^ 64
      → AreNumbers floats us
      → AreNumbers floats ls
      → Runs (process_side_updates floats side timestamp ls c us) c (length us)
  unfolding process_side_updates
  process_side_updates-Runs total side timestamp ls c [] h m k =
      ((ls, c, []), refl, refl, omega arith, k)
  process_side_updates-Runs total side timestamp ls c (u ∷ us) h (m, ms) k =
      let (r, e, n, b, k') = process_level-Runs total side timestamp ls c u (omega arith) m k in
      let (s, f, o, d, k'') =
        process_side_updates-Runs total side timestamp r.0 r.1 us (omega (arith, b, h)) ms k' in
      (
        (s.0, s.1, r.2 ++ s.2),
        rw (e, f) refl,
        Numbered-append r.2 s.2 c r.1 s.1 n o,
        omega (arith, b, d),
        k'',
      )
