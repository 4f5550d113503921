-- ===== src/RingBuffer/Fifo.antt =====
-- Under every interleaving the consumer takes exactly the accepted updates, in order.
use trading_platform.Prelude.{ℕ, ◌≡◌, ◌≢◌, refl, subst, [], ◌++◌, arith}
use trading_platform.RingBuffer.{RingBuffer}
use trading_platform.RingBuffer.Refine.{IsRing, contents}
use trading_platform.RingBuffer.Threads.{
  Shared, Step, Reach, start, room_found, item_found, load_tail, refuse, find_room, write_cell,
  store_tail, load_head, find_empty, find_item, read_cell, store_head, here, next,
}
use trading_platform.RingBuffer.Invariant.{
  ProducerOk, ConsumerOk, Inv, write_cell-Inv, store_tail-Inv, store_head-Inv,
}

module _ {ℓ} {A : Type ℓ} where
  Step-Inv : (s s' : Shared A) → Step s s' → Inv s → Inv s'
  Step-Inv s s' (load_tail x p e) v = rw e (record {
    head_in = v.head_in;
    tail_in = v.tail_in;
    fifo = v.fifo;
    producer_ok = (refl, tt);
    consumer_ok = v.consumer_ok;
  })
  Step-Inv s s' (refuse x t p full e) v = rw e (record {
    head_in = v.head_in;
    tail_in = v.tail_in;
    fifo = v.fifo;
    producer_ok = tt;
    consumer_ok = v.consumer_ok;
  })
  Step-Inv s s' (find_room x t p room e) v =
      let ok = subst (ProducerOk s.ring) p v.producer_ok in
      rw e (record {
        head_in = v.head_in;
        tail_in = v.tail_in;
        fifo = v.fifo;
        producer_ok = (ok.0, omega arith, tt);
        consumer_ok = v.consumer_ok;
      })
  Step-Inv s s' (write_cell x t p e) v =
      rw e (write_cell-Inv s x t v (subst (ProducerOk s.ring) p v.producer_ok))
  Step-Inv s s' (store_tail x t p e) v =
      rw e (store_tail-Inv s x t v (subst (ProducerOk s.ring) p v.producer_ok))
  Step-Inv s s' (load_head p e) v = rw e (record {
    head_in = v.head_in;
    tail_in = v.tail_in;
    fifo = v.fifo;
    producer_ok = v.producer_ok;
    consumer_ok = (refl, tt);
  })
  Step-Inv s s' (find_empty h p empty e) v = rw e (record {
    head_in = v.head_in;
    tail_in = v.tail_in;
    fifo = v.fifo;
    producer_ok = v.producer_ok;
    consumer_ok = tt;
  })
  Step-Inv s s' (find_item h p found e) v =
      let ok = subst (ConsumerOk s.ring) p v.consumer_ok in
      rw e (record {
        head_in = v.head_in;
        tail_in = v.tail_in;
        fifo = v.fifo;
        producer_ok = v.producer_ok;
        consumer_ok = (ok.0, omega arith, tt);
      })
  Step-Inv s s' (read_cell h p e) v =
      let ok = subst (ConsumerOk s.ring) p v.consumer_ok in
      rw e (record {
        head_in = v.head_in;
        tail_in = v.tail_in;
        fifo = v.fifo;
        producer_ok = v.producer_ok;
        consumer_ok = (ok.0, ok.1, refl);
      })
  Step-Inv s s' (store_head h x p e) v =
      rw e (store_head-Inv s h x v (subst (ConsumerOk s.ring) p v.consumer_ok))

  Reach-Inv : {s t : Shared A} → Inv s → Reach s t → Inv t
  Reach-Inv v here = v
  Reach-Inv v (next {t = m} {u = u} r st) = Step-Inv m u st (Reach-Inv v r)

  start-Inv : (r : RingBuffer A) → IsRing r → contents r ≡ [] → Inv (start r)
  start-Inv r v e = record {
    head_in = v.head_in;
    tail_in = v.tail_in;
    fifo = e;
    producer_ok = tt;
    consumer_ok = tt;
  }

  -- From an empty ring, whatever the interleaving of the two threads: the updates that `pop` has
  -- returned, followed by those that wait in the ring, are the updates that `push` has accepted,
  -- in that order; none is lost, repeated, torn or overtaken.
  pub threads_fifo :
      (r : RingBuffer A) {s : Shared A}
      → IsRing r
      → contents r ≡ []
      → Reach (start r) s
      → s.taken ++ contents s.ring ≡ s.accepted
  threads_fifo r v e path = (Reach-Inv (start-Inv r v e) path).fifo

  -- The cell that the producer writes is never one that waits to be read or is being read.
  pub no_overwrite :
      (r : RingBuffer A) {s : Shared A} (x : A) (t h : ℕ)
      → IsRing r
      → contents r ≡ []
      → Reach (start r) s
      → s.producer ≡ room_found x t
      → s.consumer ≡ item_found h
      → t ≢ h
  no_overwrite r {s} x t h v e path p c =
      let inv = Reach-Inv (start-Inv r v e) path in
      let ok = subst (ProducerOk s.ring) p inv.producer_ok in
      let okc = subst (ConsumerOk s.ring) c inv.consumer_ok in
      omega (arith, inv.head_in, inv.tail_in)
