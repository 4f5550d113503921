-- ===== src/RingBuffer/Window.antt =====
-- The cells from the head of the ring to its tail, going round at the end of the array.
use trading_platform.Prelude.{
  ℕ, zero, suc, ◌+◌, ◌-◌, ◌%◌, ◌≤◌, ◌<◌, ◌≡◌, refl, ap, ◌∙◌, List, [], ◌∷◌, ◌++◌, arith, length,
  true, false, ◌==◌, ne→==, eq→==,
}
use trading_platform.RingBuffer.{ring_buffer_size, write}

module _ {ℓ} {A : Type ℓ} where
  abbrev pub window : (ℕ → A) → ℕ → ℕ → List A
  window c h zero = []
  window c h (suc n) = c h ∷ window c ((h + 1) % ring_buffer_size) n

  pub length-window : (c : ℕ → A) (h n : ℕ) → length (window c h n) ≡ n
  length-window c h zero = refl
  length-window c h (suc n) = ap suc (length-window c ((h + 1) % ring_buffer_size) n)

  -- A write behind the window leaves it as it was.
  pub window-write :
      (c : ℕ → A) (x : A) (n m h i : ℕ)
      → h < ring_buffer_size
      → n ≤ m
      → m < ring_buffer_size
      → i ≡ (h + m) % ring_buffer_size
      → window (write c i x) h n ≡ window c h n
  window-write c x zero m h i p q r e = refl
  window-write c x (suc n) m h i p q r e =
      let apart : (h == i) ≡ false = ne→== h i (omega arith) in
      rw apart (
        ap (λ l. c h ∷ l)
          (window-write c x n (m - 1) ((h + 1) % ring_buffer_size) i (omega arith) (omega arith)
            (omega arith) (omega arith)))

  -- One more cell at the end of the window.
  pub window-suc :
      (c : ℕ → A) (n h i : ℕ)
      → h < ring_buffer_size
      → i ≡ (h + n) % ring_buffer_size
      → window c h (suc n) ≡ window c h n ++ c i ∷ []
  window-suc c zero h i p e = let same : i ≡ h = omega arith in rw same
  window-suc c (suc n) h i p e =
      ap (λ l. c h ∷ l) (window-suc c n ((h + 1) % ring_buffer_size) i (omega arith) (omega arith))

  -- The window matches on `suc`, the code tests that there is something.
  pub window_of_pos :
      (c : ℕ → A) (h n : ℕ)
      → 0 < n
      → window c h n ≡ c h ∷ window c ((h + 1) % ring_buffer_size) (n - 1)
  window_of_pos c h zero p = absurd (omega arith)
  window_of_pos c h (suc n) p = let e : suc n - 1 ≡ n = omega arith in rw e

  -- A write at the end of the window and one more cell: the value is appended.
  pub window-push :
      (c : ℕ → A) (x : A) (n h i : ℕ)
      → h < ring_buffer_size
      → n < ring_buffer_size
      → i ≡ (h + n) % ring_buffer_size
      → window (write c i x) h (suc n) ≡ window c h n ++ x ∷ []
  window-push c x n h i p q e =
      let hit : (i == i) ≡ true = eq→== i i refl in
      window-suc (write c i x) n h i p e
      ∙ rw hit (ap (λ l. l ++ x ∷ []) (window-write c x n n h i p (omega arith) q e))
