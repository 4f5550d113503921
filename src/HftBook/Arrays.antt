-- ===== src/HftBook/Arrays.antt =====
-- The shifting loops of hft_orderbook.rs as operations on whole lists.
use native.Mathlib.Nat.{suc-add, zero-add}
use trading_platform.Prelude.{
  ℕ, zero, suc, ◌+◌, ◌-◌, ◌≤◌, ◌<◌, ◌≡◌, refl, ap, ◌∙◌, sym, Option, none, some, List, [], ◌∷◌,
  ◌++◌, arith, ◌>>=◌, map_some, length, get_elem?, set, take, drop, length-take, take-append,
  take-take, length-append, get_elem?-lt, length-set, length-drop,
}
use trading_platform.HftBook.{put, shift_down, shift_up}

module _ {ℓ} {A : Type ℓ} (x : A) where
  bind-map {κ} :
      {B : Type κ} (o : Option B) (f g : B → Option (List A))
      → ((v : B) → f v ≡ map_some (λ r. x ∷ r) (g v))
      → (o >>= f) ≡ map_some (λ r. x ∷ r) (o >>= g)
  bind-map none f g h = refl
  bind-map (some v) f g h = h v

  bind-cons :
      (o : Option (List A)) (f g : List A → Option (List A))
      → ((ys : List A) → f (x ∷ ys) ≡ map_some (λ r. x ∷ r) (g ys))
      → ((o >>= λ ys. some (x ∷ ys)) >>= f) ≡ map_some (λ r. x ∷ r) (o >>= g)
  bind-cons none f g h = refl
  bind-cons (some ys) f g h = h ys

module _ {ℓ} {A : Type ℓ} where
  -- A loop that starts at index 1 or more leaves the first element alone.
  shift_down-suc :
      (n lo : ℕ) (x : A) (xs : List A)
      → shift_down n (suc lo) (x ∷ xs) ≡ map_some (λ r. x ∷ r) (shift_down n lo xs)
  unfolding shift_down
  shift_down-suc zero lo x xs = refl
  shift_down-suc (suc n) lo x xs = rw suc-add (
      bind-map x (get_elem? xs (lo + n)) _ _
        λ v. bind-cons x (put xs (suc (lo + n)) v) _ _ λ ys. shift_down-suc n lo x ys)

  pub shift_up-suc :
      (n lo : ℕ) (x : A) (xs : List A)
      → shift_up n (suc lo) (x ∷ xs) ≡ map_some (λ r. x ∷ r) (shift_up n lo xs)
  unfolding shift_up
  shift_up-suc zero lo x xs = refl
  shift_up-suc (suc n) lo x xs =
      bind-map x (get_elem? xs (suc lo)) _ _
        λ v. bind-cons x (put xs lo v) _ _ λ ys. shift_up-suc n (suc lo) x ys

  pub put-lt : (xs : List A) (i : ℕ) (v : A) → i < length xs → put xs i v ≡ some (set xs i v)
  put-lt [] i v h = elim h [ ]
  put-lt (x ∷ xs) zero v h = refl
  put-lt (x ∷ xs) (suc i) v h = rw (put-lt xs i v (omega arith))

  -- Copying element `n` over the one behind it continues the shifted part by one.
  take-set_beyond :
      (n : ℕ) (ys : List A) (v : A) (y : A)
      → get_elem? (y ∷ ys) n ≡ some v
      → n < length ys
      → take n (y ∷ set ys n v) ++ drop n (set ys n v) ≡ take (suc n) (y ∷ ys) ++ drop (suc n) ys
  take-set_beyond zero [] v y e h = elim h [ ]
  take-set_beyond zero (z ∷ ys) v y e h = ground arith
  take-set_beyond (suc n) [] v y e h = elim h [ ]
  take-set_beyond (suc n) (z ∷ ys) v y e h =
      ap (λ r. y ∷ r) (take-set_beyond n ys v z e (omega arith))

  -- The first `n` elements move one place back, and the first one stays where it was too.
  shift_down-zero :
      (n : ℕ) (y : A) (ys : List A)
      → n ≤ length ys
      → shift_down n 0 (y ∷ ys) ≡ some (y ∷ (take n (y ∷ ys) ++ drop n ys))
  unfolding shift_down
  shift_down-zero zero y ys h = refl
  shift_down-zero (suc n) y ys h =
      let (v, e) = get_elem?-lt (y ∷ ys) n (omega arith) in
      rw (zero-add, e, put-lt ys n v (omega arith))
        (shift_down-zero n y (set ys n v) (omega (arith, length-set ys n v))
          ∙ ap (λ r. some (y ∷ r)) (take-set_beyond n ys v y e (omega arith)))

  -- What an insertion leaves in the array: the new element at `i`, the next `n` moved back by one,
  -- the rest as it was.
  pub place : ℕ → ℕ → A → List A → List A
  place zero n v xs = v ∷ (take n xs ++ drop (suc n) xs)
  place (suc i) n v [] = []
  place (suc i) n v (x ∷ xs) = x ∷ place i n v xs

  map-put :
      (o : Option (List A)) (x v : A) (i : ℕ) {ys : List A}
      → (o >>= λ zs. put zs i v) ≡ some ys
      → (map_some (λ r. x ∷ r) o >>= λ zs. put zs (suc i) v) ≡ some (x ∷ ys)
  map-put none x v i h = ground arith
  map-put (some zs) x v i h = rw h

  pub shift_down-put :
      (i n : ℕ) (v : A) (xs : List A)
      → i + n < length xs
      → (shift_down n i xs >>= λ ys. put ys i v) ≡ some (place i n v xs)
  unfolding place
  shift_down-put i n v [] h = elim h [ ]
  shift_down-put zero n v (x ∷ xs) h = rw (shift_down-zero n x xs (omega arith))
  shift_down-put (suc i) n v (x ∷ xs) h =
      rw (shift_down-suc n i x xs)
        (map-put (shift_down n i xs) x v i (shift_down-put i n v xs (omega arith)))

  -- An element put into a list at position `i`.
  abbrev pub insert_elem : ℕ → A → List A → List A
  insert_elem zero v xs = v ∷ xs
  insert_elem (suc i) v [] = v ∷ []
  insert_elem (suc i) v (x ∷ xs) = x ∷ insert_elem i v xs

  -- Of the live elements the array keeps what fits.
  pub take-place :
      (i m count : ℕ) (v : A) (xs : List A)
      → i ≤ m
      → m ≤ count
      → m < length xs
      → take (suc m) (place i (m - i) v xs) ≡ take (suc m) (insert_elem i v (take count xs))
  unfolding place
  take-place i m count v [] p q h = elim h [ ]
  take-place zero m count v (x ∷ xs) p q h =
      let e : m - 0 ≡ m = omega arith in
      rw e (
        ap (λ r. v ∷ r)
          (take-append m (take m (x ∷ xs)) (drop m xs) (omega (arith, length-take m (x ∷ xs)))
            ∙ sym (take-take m count (x ∷ xs) q)))
  take-place (suc i) zero count v (x ∷ xs) p q h = absurd (omega arith)
  take-place (suc i) (suc m) zero v (x ∷ xs) p q h = absurd (omega arith)
  take-place (suc i) (suc m) (suc count) v (x ∷ xs) p q h =
      let e : suc m - suc i ≡ m - i = omega arith in
      rw e (ap (λ r. x ∷ r) (take-place i m count v xs (omega arith) (omega arith) (omega arith)))

  pub length-place :
      (i n : ℕ) (v : A) (xs : List A) → i + n < length xs → length (place i n v xs) ≡ length xs
  unfolding place
  length-place i n v [] h = elim h [ ]
  length-place zero n v (x ∷ xs) h =
      omega (
        arith,
        length-append (take n (x ∷ xs)) (drop n xs),
        length-take n (x ∷ xs),
        length-drop n xs,
      )
  length-place (suc i) n v (x ∷ xs) h = ap suc (length-place i n v xs (omega arith))

  -- The `n` elements behind the first one move one place forward.
  shift_up-zero :
      (n : ℕ) (y : A) (ys : List A)
      → n ≤ length ys
      → shift_up n 0 (y ∷ ys) ≡ some (take n ys ++ drop n (y ∷ ys))
  unfolding shift_up
  shift_up-zero zero y ys h = refl
  shift_up-zero (suc n) y [] h = absurd (omega arith)
  shift_up-zero (suc n) y (z ∷ ys) h =
      shift_up-suc n 0 z (z ∷ ys) ∙ ap (map_some (λ r. z ∷ r)) (shift_up-zero n z ys (omega arith))

  -- What a removal leaves in the array: the element at `i` is overwritten.
  pub close_gap : ℕ → ℕ → List A → List A
  close_gap i n [] = []
  close_gap zero n (x ∷ xs) = take n xs ++ drop n (x ∷ xs)
  close_gap (suc i) n (x ∷ xs) = x ∷ close_gap i n xs

  pub shift_up_lem :
      (i n : ℕ) (xs : List A) → i + n < length xs → shift_up n i xs ≡ some (close_gap i n xs)
  unfolding close_gap
  shift_up_lem i n [] h = elim h [ ]
  shift_up_lem zero n (x ∷ xs) h = shift_up-zero n x xs (omega arith)
  shift_up_lem (suc i) n (x ∷ xs) h =
      shift_up-suc n i x xs ∙ ap (map_some (λ r. x ∷ r)) (shift_up_lem i n xs (omega arith))

  -- The list without its element at position `i`.
  abbrev pub remove_elem : ℕ → List A → List A
  remove_elem i [] = []
  remove_elem zero (x ∷ xs) = xs
  remove_elem (suc i) (x ∷ xs) = x ∷ remove_elem i xs

  pub take-close_gap :
      (i m : ℕ) (xs : List A)
      → i ≤ m
      → m < length xs
      → take m (close_gap i (m - i) xs) ≡ remove_elem i (take (suc m) xs)
  unfolding close_gap
  take-close_gap i m [] p h = elim h [ ]
  take-close_gap zero m (x ∷ xs) p h =
      let e : m - 0 ≡ m = omega arith in
      rw e (take-append m (take m xs) (drop m (x ∷ xs)) (omega (arith, length-take m xs)))
  take-close_gap (suc i) zero (x ∷ xs) p h = absurd (omega arith)
  take-close_gap (suc i) (suc m) (x ∷ xs) p h =
      let e : suc m - suc i ≡ m - i = omega arith in
      rw e (ap (λ r. x ∷ r) (take-close_gap i m xs (omega arith) (omega arith)))

  pub length-close_gap :
      (i n : ℕ) (xs : List A) → i + n < length xs → length (close_gap i n xs) ≡ length xs
  unfolding close_gap
  length-close_gap i n [] h = elim h [ ]
  length-close_gap zero n (x ∷ xs) h =
      omega (
        arith,
        length-append (take n xs) (drop n (x ∷ xs)),
        length-take n xs,
        length-drop n (x ∷ xs),
      )
  length-close_gap (suc i) n (x ∷ xs) h = ap suc (length-close_gap i n xs (omega arith))
