-- ===== src/Prelude/Last.antt =====
-- The last elements of a list: what a queue of bounded length keeps.
use trading_platform.Prelude.{
  ℕ, zero, suc, ◌+◌, ◌-◌, ◌≤◌, ◌≡◌, inl, inr, refl, sym, ◌∙◌, ap, List, [], ◌∷◌, ◌++◌, arith, leb,
  if◌then◌else◌, length, drop, length-append, length-drop, Bool-cases,
}

module _ {ℓ} {A : Type ℓ} where
  -- The last `n` elements.
  abbrev pub last_of : ℕ → List A → List A
  last_of n xs = drop (length xs - n) xs

  pub drop-append : (k : ℕ) (xs ys : List A) → k ≤ length xs → drop k (xs ++ ys) ≡ drop k xs ++ ys
  drop-append zero xs ys h = refl
  drop-append (suc k) [] ys h = absurd (omega arith)
  drop-append (suc k) (x ∷ xs) ys h = drop-append k xs ys (omega arith)

  drop-nil : (k : ℕ) → drop {A = A} k [] ≡ []
  drop-nil zero = refl
  drop-nil (suc k) = refl

  drop-drop : (j k : ℕ) (xs : List A) → drop j (drop k xs) ≡ drop (k + j) xs
  drop-drop j zero xs = ap (λ i. drop i xs) (omega arith)
  drop-drop j (suc k) [] = drop-nil j ∙ sym (drop-nil (suc k + j))
  drop-drop j (suc k) (x ∷ xs) =
      let e : suc k + j ≡ suc (k + j) = omega arith in rw e (drop-drop j k xs)

  -- To make room for one element in a list that is not too long keeps the last ones.
  pub room-last_of :
      (n : ℕ) (xs : List A) (x : A)
      → 1 ≤ n
      → length xs ≤ n
      → (if leb n (length xs) then drop 1 xs else xs) ++ x ∷ [] ≡ last_of n (xs ++ x ∷ [])
  room-last_of n xs x h k =
      let l = length-append xs (x ∷ []) in
      elim (Bool-cases (leb n (length xs))) [
        | inl b ↦
            let e : length (xs ++ x ∷ []) - n ≡ 1 = ground (arith, b, l) in
            rw (b, e) (sym (drop-append 1 xs (x ∷ []) (ground (arith, b))))
        | inr b ↦ let e : length (xs ++ x ∷ []) - n ≡ 0 = ground (arith, b, l) in rw (b, e) refl
      ]

  pub last_of-append :
      (n : ℕ) (xs ys : List A) → last_of n (last_of n xs ++ ys) ≡ last_of n (xs ++ ys)
  last_of-append n xs ys =
      let a = length-append (last_of n xs) ys in
      let b = length-append xs ys in
      let c = length-drop (length xs - n) xs in
      let k = length (last_of n xs ++ ys) - n in
      let e : (length xs - n) + k ≡ length (xs ++ ys) - n = omega (arith, a, b, c) in
      ap (drop k) (sym (drop-append (length xs - n) xs ys (omega arith)))
      ∙ drop-drop k (length xs - n) (xs ++ ys)
      ∙ ap (λ i. drop i (xs ++ ys)) e
