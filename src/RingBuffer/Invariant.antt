-- ===== src/RingBuffer/Invariant.antt =====
-- What holds between the steps of the two threads, and the steps that change the ring.
use trading_platform.Prelude.{
  ℕ, ◌+◌, ◌-◌, ◌%◌, ◌≤◌, ◌<◌, ◌≡◌, ◌≢◌, refl, ◌∙◌, suc, true, [], ◌∷◌, ◌++◌, arith, append_assoc,
  ◌==◌, eq→==, ne→==,
}
use trading_platform.RingBuffer.{RingBuffer, ring_buffer_size, write}
use trading_platform.RingBuffer.Window.{window, window-write, window-suc, window_of_pos}
use trading_platform.RingBuffer.Refine.{waiting, contents}
use trading_platform.RingBuffer.Threads.{
  Producer, Consumer, Shared, next_index, tail_loaded, room_found, written, head_loaded, item_found,
  item_read,
}

module _ {ℓ} {A : Type ℓ} where
  -- What a thread inside its call may rely on.
  abbrev pub ProducerOk : RingBuffer A → Producer A → Type ℓ
  ProducerOk r Producer.resting = Unit {ℓ}
  ProducerOk r (tail_loaded x t) = (t ≡ r.tail) × Unit {ℓ}
  ProducerOk r (room_found x t) = (t ≡ r.tail) × (waiting r < ring_buffer_size - 1) × Unit {ℓ}
  ProducerOk r (written x t) = (t ≡ r.tail) × (waiting r < ring_buffer_size - 1) × (r.buffer t ≡ x)

  abbrev pub ConsumerOk : RingBuffer A → Consumer A → Type ℓ
  ConsumerOk r Consumer.resting = Unit {ℓ}
  ConsumerOk r (head_loaded h) = (h ≡ r.head) × Unit {ℓ}
  ConsumerOk r (item_found h) = (h ≡ r.head) × (0 < waiting r) × Unit {ℓ}
  ConsumerOk r (item_read h v) = (h ≡ r.head) × (0 < waiting r) × (v ≡ r.buffer h)

  pub record Inv (s : Shared A) : Type ℓ where
    pub head_in : s.ring.head < ring_buffer_size
    pub tail_in : s.ring.tail < ring_buffer_size
    pub fifo : s.taken ++ contents s.ring ≡ s.accepted
    pub producer_ok : ProducerOk s.ring s.producer
    pub consumer_ok : ConsumerOk s.ring s.consumer

  pub producer_keep :
      (r r' : RingBuffer A) (p : Producer A)
      → r'.tail ≡ r.tail
      → r'.buffer ≡ r.buffer
      → waiting r' ≤ waiting r
      → ProducerOk r p
      → ProducerOk r' p
  producer_keep r r' Producer.resting t b w ok = tt
  producer_keep r r' (tail_loaded x i) t b w ok = (omega arith, tt)
  producer_keep r r' (room_found x i) t b w ok = (omega arith, omega arith, tt)
  producer_keep r r' (written x i) t b w ok = (omega arith, omega arith, rw b ok.2)

  pub consumer_keep :
      (r r' : RingBuffer A) (c : Consumer A)
      → r'.head ≡ r.head
      → waiting r ≤ waiting r'
      → (0 < waiting r → r'.buffer r.head ≡ r.buffer r.head)
      → ConsumerOk r c
      → ConsumerOk r' c
  consumer_keep r r' Consumer.resting h w b ok = tt
  consumer_keep r r' (head_loaded i) h w b ok = (omega arith, tt)
  consumer_keep r r' (item_found i) h w b ok = (omega arith, omega arith, tt)
  consumer_keep r r' (item_read i v) h w b ok =
      (omega arith, omega arith, rw (ok.0, b ok.1) (rw ok.0 at ok.2))

  -- One lemma for each step, the thread's state rewritten by the step's premise.
  pub write_cell-Inv :
      (s : Shared A) (x : A) (t : ℕ)
      → Inv s
      → ProducerOk s.ring (room_found x t)
      → Inv (record s {
        ring = record (s.ring) { buffer = write s.ring.buffer t x };
        producer = written x t;
      })
  write_cell-Inv s x t v ok =
      let hit : (t == t) ≡ true = eq→== t t refl in
      let apart : 0 < waiting s.ring → s.ring.head ≢ t = λ some e. omega arith in
      let same : window (write s.ring.buffer t x) s.ring.head (waiting s.ring) ≡ contents s.ring =
        window-write s.ring.buffer x (waiting s.ring) (waiting s.ring) s.ring.head t v.head_in
          (omega arith) (omega arith) (omega arith) in
      record {
        head_in = v.head_in;
        tail_in = v.tail_in;
        fifo = rw same v.fifo;
        producer_ok = (ok.0, ok.1, rw hit);
        consumer_ok =
            consumer_keep s.ring _ s.consumer refl (omega arith)
              (λ some. rw (ne→== s.ring.head t (apart some))) v.consumer_ok;
      }

  pub store_tail-Inv :
      (s : Shared A) (x : A) (t : ℕ)
      → Inv s
      → ProducerOk s.ring (written x t)
      → Inv (record s {
        ring = record (s.ring) { tail = next_index t };
        producer = Producer.resting;
        accepted = s.accepted ++ x ∷ [];
      })
  store_tail-Inv s x t v ok =
      let more : (next_index t + ring_buffer_size - s.ring.head) % ring_buffer_size
          ≡ suc (waiting s.ring) =
        omega arith in
      record {
        head_in = v.head_in;
        tail_in = omega arith;
        fifo =
            rw
              (
                more,
                window-suc s.ring.buffer (waiting s.ring) s.ring.head t v.head_in (omega arith),
              )
              (rw (ok.2, ← append_assoc, v.fifo));
        producer_ok = tt;
        consumer_ok =
            consumer_keep s.ring _ s.consumer refl (omega arith) (λ some. refl) v.consumer_ok;
      }

  pub store_head-Inv :
      (s : Shared A) (h : ℕ) (x : A)
      → Inv s
      → ConsumerOk s.ring (item_read h x)
      → Inv (record s {
        ring = record (s.ring) { head = next_index h };
        consumer = Consumer.resting;
        taken = s.taken ++ x ∷ [];
      })
  store_head-Inv s h x v ok =
      let fewer : (s.ring.tail + ring_buffer_size - next_index h) % ring_buffer_size
          ≡ waiting s.ring - 1 =
        omega arith in
      let first : contents s.ring ≡ x ∷ window s.ring.buffer (next_index h) (waiting s.ring - 1) =
        window_of_pos s.ring.buffer s.ring.head (waiting s.ring) ok.1 ∙ rw (ok.2, ok.0) in
      record {
        head_in = omega arith;
        tail_in = v.tail_in;
        fifo = rw (fewer, append_assoc) (rw first at v.fifo);
        producer_ok = producer_keep s.ring _ s.producer refl refl (omega arith) v.producer_ok;
        consumer_ok = tt;
      }
