-- ===== src/History/Window.antt =====
-- What a history holds of a feed in the order of time, and what its queries find.
use trading_platform.Prelude.{
  ℕ, ◌+◌, ◌≡◌, inl, inr, refl, sym, ◌∙◌, ap, none, some, List, [], ◌∷◌, ◌++◌, append-nil,
  append_assoc, subst, arith, Bool-cases, Option-cases,
}
use trading_platform.Prelude.Int.{ℤ, pos, pos_part, neg_part, sub_ℕ, ◌-ℤ◌, ◌≤ℤ◌, ltb_ℤ}
use trading_platform.History.{back, drop_older, cleanup, push_and_clean, since}

sub_ℕ-parts : (a b : ℕ) → pos_part (sub_ℕ a b) + b ≡ neg_part (sub_ℕ a b) + a
sub_ℕ-parts a b = ground arith

-- A difference, by its parts.
pub sub_parts :
    (a b : ℤ)
    → pos_part (a -ℤ b) + (neg_part a + pos_part b) ≡ neg_part (a -ℤ b) + (pos_part a + neg_part b)
unfolding ◌-ℤ◌
sub_parts a b = sub_ℕ-parts (pos_part a + neg_part b) (neg_part a + pos_part b)

-- The last element does not depend on what stands before it.
pub back-append {ℓ} : {E : Type ℓ} (es : List E) (e : E) → back (es ++ e ∷ []) ≡ some e
back-append [] e = refl
back-append (d ∷ []) e = refl
back-append (d ∷ f ∷ es) e = back-append (f ∷ es) e

pub back-none {ℓ} : {E : Type ℓ} (d : E) (es : List E) → ¬ (back (d ∷ es) ≡ none)
back-none d [] h = ground arith
back-none d (e ∷ es) h = back-none e es h

module _ {E : Type 0} (time : E → ℤ) where
  abbrev pub AllFrom : ℤ → List E → Type 0
  AllFrom t [] = Unit
  AllFrom t (e ∷ es) = (t ≤ℤ time e) × AllFrom t es

  -- No element is older than one before it.
  abbrev pub InOrder : List E → Type 0
  InOrder [] = Unit
  InOrder (e ∷ es) = AllFrom (time e) es × InOrder es

  pub AllFrom-weaken : (s t : ℤ) (es : List E) → s ≤ℤ t → AllFrom t es → AllFrom s es
  AllFrom-weaken s t [] h a = tt
  AllFrom-weaken s t (e ∷ es) h (b, a) = (omega arith, AllFrom-weaken s t es h a)

  pub since-all : (c : ℤ) (es : List E) → AllFrom c es → since time c es ≡ es
  unfolding since
  since-all c [] a = refl
  since-all c (e ∷ es) (b, a) = ground (arith, since-all c es a)

  -- In order, the loop of `cleanup` drops all that is too old.
  drop_older-since : (c : ℤ) (es : List E) → InOrder es → drop_older time c es ≡ since time c es
  unfolding drop_older since
  drop_older-since c [] o = refl
  drop_older-since c (e ∷ es) (a, o) = elim (Bool-cases (ltb_ℤ (time e) c)) [
    | inl h ↦ ground (arith, h, drop_older-since c es o)
    | inr h ↦ ground (arith, h, since-all c es (AllFrom-weaken c (time e) es (ground arith) a))
  ]

  since-append :
      (c : ℤ) (xs ys : List E) → since time c (xs ++ ys) ≡ since time c xs ++ since time c ys
  unfolding since
  since-append c [] ys = refl
  since-append c (x ∷ xs) ys = ground (arith, since-append c xs ys)

  pub since-since :
      (c d : ℤ) (es : List E) → c ≤ℤ d → since time d (since time c es) ≡ since time d es
  unfolding since
  since-since c d [] h = refl
  since-since c d (e ∷ es) h = ground (arith, since-since c d es h)

  AllFrom-since : (c t : ℤ) (es : List E) → AllFrom t es → AllFrom t (since time c es)
  unfolding since
  AllFrom-since c t [] a = tt
  AllFrom-since c t (e ∷ es) (b, a) = ground (arith, b, AllFrom-since c t es a)

  InOrder-since : (c : ℤ) (es : List E) → InOrder es → InOrder (since time c es)
  unfolding since
  InOrder-since c [] o = tt
  InOrder-since c (e ∷ es) (a, o) =
      ground (arith, AllFrom-since c (time e) es a, InOrder-since c es o)

  -- The part of a feed that is within the lookback of its last element.
  unfoldable pub window : ℤ → List E → List E
  unfolding since
  window lookback es = elim (back es) [ none ↦ [] | some e ↦ since time (time e -ℤ lookback) es ]

  back-le :
      (es : List E) {l : E} (e : E) → InOrder (es ++ e ∷ []) → back es ≡ some l → time l ≤ℤ time e
  back-le [] e o h = absurd (ground arith)
  back-le (d ∷ []) e ((a, _), o) h = ground (arith, a, h)
  back-le (d ∷ f ∷ es) e (a, o) h = back-le (f ∷ es) e o h

  since-append_last :
      (c : ℤ) (es : List E) (e : E)
      → c ≤ℤ time e
      → since time c es ++ e ∷ [] ≡ since time c (es ++ e ∷ [])
  since-append_last c es e h =
      ap (λ r. since time c es ++ r) (sym (since-all c (e ∷ []) (h, tt)))
      ∙ sym (since-append c es (e ∷ []))

  push-since :
      (c lookback : ℤ) (es : List E) (e : E)
      → InOrder (es ++ e ∷ [])
      → c ≤ℤ time e
      → c ≤ℤ (time e -ℤ lookback)
      → push_and_clean time lookback (since time c es) e
        ≡ since time (time e -ℤ lookback) (es ++ e ∷ [])
  unfolding push_and_clean cleanup
  push-since c lookback es e o h k = rw (
    back-append (since time c es) e,
    cleanup,
    since-append_last c es e h,
    drop_older-since (time e -ℤ lookback) (since time c (es ++ e ∷ []))
        (InOrder-since c (es ++ e ∷ []) o),
    since-since c (time e -ℤ lookback) (es ++ e ∷ []) k,
  )

  -- With the elements in order, a push keeps just the part that is within the lookback.
  pub push-window :
      (lookback : ℤ) (es : List E) (e : E)
      → InOrder (es ++ e ∷ [])
      → pos 0 ≤ℤ lookback
      → push_and_clean time lookback (window lookback es) e ≡ window lookback (es ++ e ∷ [])
  unfolding push_and_clean cleanup since window drop_older
  push-window lookback [] e o h = ground arith
  push-window lookback (d ∷ es) e o h = elim (Option-cases (back (d ∷ es))) [
    | inl k ↦ absurd (back-none d es k)
    | inr (l, k) ↦
        let a = back-le (d ∷ es) e o k in
        let b = sub_parts (time l) lookback in
        let c = sub_parts (time e) lookback in
        rw (k, window, back-append (d ∷ es) e)
          (push-since (time l -ℤ lookback) lookback (d ∷ es) e o (omega arith) (omega arith))
  ]

  unfoldable pub push_all : ℤ → List E → List E → List E
  unfolding push_and_clean
  push_all lookback es [] = es
  push_all lookback es (f ∷ fs) = push_all lookback (push_and_clean time lookback es f) fs

  AllFrom-prefix : (t : ℤ) (xs ys : List E) → AllFrom t (xs ++ ys) → AllFrom t xs
  AllFrom-prefix t [] ys a = tt
  AllFrom-prefix t (x ∷ xs) ys (b, a) = (b, AllFrom-prefix t xs ys a)

  InOrder-prefix : (xs ys : List E) → InOrder (xs ++ ys) → InOrder xs
  InOrder-prefix [] ys o = tt
  InOrder-prefix (x ∷ xs) ys (a, o) = (AllFrom-prefix (time x) xs ys a, InOrder-prefix xs ys o)

  push_all-window :
      (lookback : ℤ) (es fs : List E)
      → InOrder (es ++ fs)
      → pos 0 ≤ℤ lookback
      → push_all lookback (window lookback es) fs ≡ window lookback (es ++ fs)
  unfolding push_all window
  push_all-window lookback es [] o h = rw (append-nil es) refl
  push_all-window lookback es (f ∷ fs) o h =
      let a : (es ++ f ∷ []) ++ fs ≡ es ++ f ∷ fs = append_assoc es (f ∷ []) fs in
      let o' : InOrder ((es ++ f ∷ []) ++ fs) = subst InOrder (sym a) o in
      rw (push-window lookback es f (InOrder-prefix (es ++ f ∷ []) fs o') h)
        (push_all-window lookback (es ++ f ∷ []) fs o' h ∙ ap (window lookback) a)

  -- A history that has taken a feed in order holds the part within the lookback of the last.
  pub push_all-empty :
      (lookback : ℤ) (fs : List E)
      → InOrder fs
      → pos 0 ≤ℤ lookback
      → push_all lookback [] fs ≡ window lookback fs
  unfolding window
  push_all-empty lookback fs o h = push_all-window lookback [] fs o h

  back-since :
      (c : ℤ) (es : List E) {l : E}
      → InOrder es
      → back es ≡ some l
      → c ≤ℤ time l
      → back (since time c es) ≡ some l
  unfolding since
  back-since c [] o h k = absurd (ground arith)
  back-since c (d ∷ []) o h k = ground (arith, h, k)
  back-since c (d ∷ e ∷ es) (a, o) h k = elim (Bool-cases (ltb_ℤ (time d) c)) [
    | inl b ↦ ground (arith, b, back-since c (e ∷ es) o h k)
    | inr b ↦
        rw
          (since-all c (d ∷ e ∷ es)
            (ground arith, AllFrom-weaken c (time d) (e ∷ es) (ground arith) a))
          h
  ]

  pub back-window :
      (lookback : ℤ) (es : List E)
      → InOrder es
      → pos 0 ≤ℤ lookback
      → back (window lookback es) ≡ back es
  unfolding window
  back-window lookback [] o h = refl
  back-window lookback (d ∷ es) o h = elim (Option-cases (back (d ∷ es))) [
    | inl k ↦ absurd (back-none d es k)
    | inr (l, k) ↦
        let b = sub_parts (time l) lookback in
        rw (k, window) (back-since (time l -ℤ lookback) (d ∷ es) o k (omega arith))
  ]
