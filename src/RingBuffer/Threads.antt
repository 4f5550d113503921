-- ===== src/RingBuffer/Threads.antt =====
-- The atomic accesses of `push` and `pop` by two threads, in any order that interleaves them.
--
-- A thread's state says how far it is inside its call and what it has loaded. `accepted` and
-- `taken` record the updates whose `push` returned true and those that `pop` returned.
use trading_platform.Prelude.{
  ℕ, ◌+◌, ◌%◌, ◌≡◌, ◌≢◌, refl, none, some, List, [], ◌∷◌, ◌++◌, arith, ◌==◌, if◌then◌else◌,
  Bool-cases, inl, inr,
}
use trading_platform.RingBuffer.{RingBuffer, ring_buffer_size, write, push, pop}

pub data Producer {ℓ} (A : Type ℓ) : Type ℓ where
  resting : Producer A
  tail_loaded : A → ℕ → Producer A
  room_found : A → ℕ → Producer A
  written : A → ℕ → Producer A

pub data Consumer {ℓ} (A : Type ℓ) : Type ℓ where
  resting : Consumer A
  head_loaded : ℕ → Consumer A
  item_found : ℕ → Consumer A
  item_read : ℕ → A → Consumer A

pub record Shared {ℓ} (A : Type ℓ) : Type ℓ where
  pub ring : RingBuffer A
  pub producer : Producer A
  pub consumer : Consumer A
  pub accepted : List A
  pub taken : List A

abbrev pub next_index : ℕ → ℕ
next_index i = (i + 1) % ring_buffer_size

module _ {ℓ} {A : Type ℓ} where
  pub data Step (s s' : Shared A) : Type ℓ where
    -- push: `let tail = self.tail.load(..)`
    load_tail :
        (x : A)
        → s.producer ≡ Producer.resting
        → s' ≡ record s { producer = tail_loaded x s.ring.tail }
        → Step s s'
    -- push: the load of `head` finds the buffer full, and the call returns false
    refuse :
        (x : A) (t : ℕ)
        → s.producer ≡ tail_loaded x t
        → next_index t ≡ s.ring.head
        → s' ≡ record s { producer = Producer.resting }
        → Step s s'
    -- push: the load of `head` finds room
    find_room :
        (x : A) (t : ℕ)
        → s.producer ≡ tail_loaded x t
        → next_index t ≢ s.ring.head
        → s' ≡ record s { producer = room_found x t }
        → Step s s'
    -- push: `*self.buffer[tail].get() = update`
    write_cell :
        (x : A) (t : ℕ)
        → s.producer ≡ room_found x t
        → s' ≡ record s {
          ring = record (s.ring) { buffer = write s.ring.buffer t x };
          producer = written x t;
        }
        → Step s s'
    -- push: `self.tail.store(next_tail, ..)`, and the call returns true
    store_tail :
        (x : A) (t : ℕ)
        → s.producer ≡ written x t
        → s' ≡ record s {
          ring = record (s.ring) { tail = next_index t };
          producer = Producer.resting;
          accepted = s.accepted ++ x ∷ [];
        }
        → Step s s'
    -- pop: `let head = self.head.load(..)`
    load_head :
        s.consumer ≡ Consumer.resting
        → s' ≡ record s { consumer = head_loaded s.ring.head }
        → Step s s'
    -- pop: the load of `tail` finds the buffer empty, and the call returns None
    find_empty :
        (h : ℕ)
        → s.consumer ≡ head_loaded h
        → h ≡ s.ring.tail
        → s' ≡ record s { consumer = Consumer.resting }
        → Step s s'
    -- pop: the load of `tail` finds an update
    find_item :
        (h : ℕ)
        → s.consumer ≡ head_loaded h
        → h ≢ s.ring.tail
        → s' ≡ record s { consumer = item_found h }
        → Step s s'
    -- pop: `*self.buffer[head].get()`
    read_cell :
        (h : ℕ)
        → s.consumer ≡ item_found h
        → s' ≡ record s { consumer = item_read h (s.ring.buffer h) }
        → Step s s'
    -- pop: `self.head.store((head + 1) % RING_BUFFER_SIZE, ..)`, and the call returns the update
    store_head :
        (h : ℕ) (v : A)
        → s.consumer ≡ item_read h v
        → s' ≡ record s {
          ring = record (s.ring) { head = next_index h };
          consumer = Consumer.resting;
          taken = s.taken ++ v ∷ [];
        }
        → Step s s'

  pub data Reach (s : Shared A) : Shared A → Type ℓ where
    here : Reach s s
    next : {t u : Shared A} → Reach s t → Step t u → Reach s u

  abbrev pub start : RingBuffer A → Shared A
  start r = record {
    ring = r;
    producer = Producer.resting;
    consumer = Consumer.resting;
    accepted = [];
    taken = [];
  }

  -- A call of `push` that nothing interrupts takes these steps to the ring that `push` computes.
  pub push_alone :
      (s : Shared A) (x : A)
      → s.producer ≡ Producer.resting
      → let (r, done) = push s.ring x in
        Reach s (record s {
          ring = r;
          producer = Producer.resting;
          accepted = if done then s.accepted ++ x ∷ [] else s.accepted;
        })
  unfolding push
  push_alone s x idle = elim (Bool-cases (next_index s.ring.tail == s.ring.head)) [
    | inl full ↦
        let is_full : next_index s.ring.tail ≡ s.ring.head = ground arith in
        rw full (next (next here (load_tail x idle refl)) (refuse x s.ring.tail refl is_full refl))
    | inr free ↦
        let not_full : next_index s.ring.tail ≢ s.ring.head = ground arith in
        rw free (
          next
            (next
              (next (next here (load_tail x idle refl))
                (find_room x s.ring.tail refl not_full refl))
              (write_cell x s.ring.tail refl refl))
            (store_tail x s.ring.tail refl refl))
  ]

  -- A call of `pop` that nothing interrupts takes these steps to the ring that `pop` computes.
  pub pop_alone :
      (s : Shared A)
      → s.consumer ≡ Consumer.resting
      → let (r, out) = pop s.ring in
        Reach s (record s {
          ring = r;
          consumer = Consumer.resting;
          taken = elim out [ none ↦ s.taken | some v ↦ s.taken ++ v ∷ [] ];
        })
  unfolding pop
  pop_alone s idle = elim (Bool-cases (s.ring.head == s.ring.tail)) [
    | inl empty ↦
        let is_empty : s.ring.head ≡ s.ring.tail = ground arith in
        rw empty
          (next (next here (load_head idle refl)) (find_empty s.ring.head refl is_empty refl))
    | inr found ↦
        let not_empty : s.ring.head ≢ s.ring.tail = ground arith in
        rw found (
          next
            (next
              (next (next here (load_head idle refl)) (find_item s.ring.head refl not_empty refl))
              (read_cell s.ring.head refl refl))
            (store_head s.ring.head (s.ring.buffer s.ring.head) refl refl))
  ]
