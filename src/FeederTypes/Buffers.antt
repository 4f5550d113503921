-- ===== src/FeederTypes/Buffers.antt =====
-- The circular buffer keeps the last items.
use trading_platform.Prelude.{
  ℕ, ◌-◌, ◌≤◌, ◌≡◌, refl, ◌∙◌, ap, List, [], ◌∷◌, ◌++◌, append-nil, append_assoc, arith, length,
  length-append, length-drop,
}
use trading_platform.Prelude.Last.{last_of, room-last_of, last_of-append}
use trading_platform.FeederTypes.{CircularBuffer, new_circular, push_item}

module _ {A : Type 0} where
  unfoldable pub push_items : CircularBuffer A → List A → CircularBuffer A
  unfolding push_item
  push_items b [] = b
  push_items b (x ∷ xs) = push_items (push_item b x) xs

  push_items-last_of :
      (b : CircularBuffer A) (xs : List A)
      → 1 ≤ b.capacity
      → length b.buffer ≤ b.capacity
      → push_items b xs ≡ record b { buffer = last_of b.capacity (b.buffer ++ xs) }
  unfolding push_items push_item
  push_items-last_of b [] h k =
      let e : length b.buffer - b.capacity ≡ 0 = omega arith in rw (append-nil b.buffer, e) refl
  push_items-last_of b (x ∷ xs) h k =
      let s : List A = b.buffer in
      let l = length-append s (x ∷ []) in
      let d = length-drop (length (s ++ x ∷ []) - b.capacity) (s ++ x ∷ []) in
      rw (room-last_of b.capacity s x h k) (
        push_items-last_of (record b { buffer = last_of b.capacity (s ++ x ∷ []) }) xs h
          (omega (arith, l, d))
        ∙ ap (λ c. record b { buffer = c })
            (last_of-append b.capacity (s ++ x ∷ []) xs
              ∙ ap (last_of b.capacity) (append_assoc s (x ∷ []) xs)))

  -- A circular buffer of at least one place holds the last items that have been pushed, in order, as
  -- many as it has places.
  pub push_items_lem :
      (capacity : ℕ) (xs : List A)
      → 1 ≤ capacity
      → (push_items (new_circular capacity) xs).buffer ≡ last_of capacity xs
  unfolding new_circular
  push_items_lem capacity xs h =
      ap (λ b. b.buffer) (push_items-last_of (new_circular capacity) xs h (omega arith))
