-- ===== src/RingBuffer/Refine.antt =====
-- Without interleaving: the ring is a queue of at most RING_BUFFER_SIZE - 1 updates.
use trading_platform.Prelude.{
  ℕ, suc, ◌+◌, ◌-◌, ◌%◌, ◌<◌, ◌≡◌, ◌≢◌, refl, ap, Bool, true, false, Option, none, some, List, [],
  ◌∷◌, ◌++◌, arith, length, ◌==◌, if◌then◌else◌, ltb, le→ltb, lt→ltb, Bool-cases, inl, inr,
}
use trading_platform.RingBuffer.{RingBuffer, ring_buffer_size, push, pop, new_ring}
use trading_platform.RingBuffer.Window.{window, length-window, window-push, window_of_pos}

module _ {ℓ} {A : Type ℓ} where
  pub record IsRing (r : RingBuffer A) : Type 0 where
    pub head_in : r.head < ring_buffer_size
    pub tail_in : r.tail < ring_buffer_size

  -- How many updates wait in the ring, and which, oldest first.
  abbrev pub waiting : RingBuffer A → ℕ
  waiting r = (r.tail + ring_buffer_size - r.head) % ring_buffer_size

  abbrev pub contents : RingBuffer A → List A
  contents r = window r.buffer r.head (waiting r)

  -- The bounded queue.
  unfoldable pub enqueue : List A → A → List A × Bool
  enqueue q x = if ltb (length q) (ring_buffer_size - 1) then (q ++ x ∷ [], true) else (q, false)

  unfoldable pub dequeue : List A → List A × Option A
  dequeue [] = ([], none)
  dequeue (x ∷ q) = (q, some x)

  pub new_ring-contents : (z : A) → IsRing (new_ring z) × (contents (new_ring z) ≡ [])
  unfolding new_ring
  new_ring-contents z = (omega arith, refl)

  -- `push` answers as the queue does, and leaves a ring that holds its queue.
  pub push_refines :
      (r : RingBuffer A) (x : A)
      → IsRing r
      → IsRing (push r x).0
        × (let (r', done) = push r x in (contents r', done) ≡ enqueue (contents r) x)
  unfolding push enqueue
  push_refines r x v = elim (Bool-cases ((r.tail + 1) % ring_buffer_size == r.head)) [
    | inl full ↦
        let next : (r.tail + 1) % ring_buffer_size ≡ r.head = ground arith in
        let no_room : ltb (length (contents r)) (ring_buffer_size - 1) ≡ false =
          le→ltb _ _ (omega (arith, length-window r.buffer r.head (waiting r))) in
        rw (full, no_room) (v, refl)
    | inr free ↦
        let next : (r.tail + 1) % ring_buffer_size ≢ r.head = ground arith in
        let room : ltb (length (contents r)) (ring_buffer_size - 1) ≡ true =
          lt→ltb _ _ (omega (arith, length-window r.buffer r.head (waiting r))) in
        let more : ((r.tail + 1) % ring_buffer_size + ring_buffer_size - r.head) % ring_buffer_size
            ≡ suc (waiting r) =
          omega arith in
        rw (free, room, more)
          (
            omega arith,
            ap (λ l. (l, true))
                (window-push r.buffer x (waiting r) r.head r.tail v.head_in (omega arith)
                  (omega arith)),
          )
  ]

  -- `pop` answers as the queue does, and leaves a ring that holds its queue.
  pub pop_refines :
      (r : RingBuffer A)
      → IsRing r
      → IsRing (pop r).0 × (let (r', out) = pop r in (contents r', out) ≡ dequeue (contents r))
  unfolding pop dequeue
  pop_refines r v = elim (Bool-cases (r.head == r.tail)) [
    | inl empty ↦ let none_left : waiting r ≡ 0 = ground arith in rw (empty, none_left) (v, refl)
    | inr some_left ↦
        let apart : r.head ≢ r.tail = ground arith in
        let fewer : (r.tail + ring_buffer_size - (r.head + 1) % ring_buffer_size) % ring_buffer_size
            ≡ waiting r - 1 =
          omega arith in
        rw (some_left, fewer, window_of_pos r.buffer r.head (waiting r) (omega arith))
          (omega arith, refl)
  ]
