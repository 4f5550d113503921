-- ===== src/RingBuffer/Tests.antt =====
-- Runs of the ring buffer and instances of its theorems.
use trading_platform.Prelude.{ℕ, ◌≡◌, ◌≢◌, refl, [], ◌∷◌, ◌++◌, arith}
use trading_platform.RingBuffer.{RingBuffer, new_ring, push, write}
use trading_platform.RingBuffer.Refine.{IsRing, contents}
use trading_platform.RingBuffer.Threads.{
  Shared, Reach, start, push_alone, room_found, item_found, next, load_tail, find_room, load_head,
  find_item,
}
use trading_platform.RingBuffer.Fifo.{threads_fifo, no_overwrite}

-- Two entries round the end of the array.
abbrev wrapped : RingBuffer ℕ
wrapped = record { buffer = λ i. i; head = 65535; tail = 1 }

contents-wrapped : contents wrapped ≡ 65535 ∷ 0 ∷ []
contents-wrapped = refl

abbrev fresh : RingBuffer ℕ
unfolding new_ring
fresh = new_ring 0

-- The producer has pushed 5 and is about to write 6; the consumer has found 5.
abbrev meeting : Shared ℕ
meeting = record {
  ring = record { buffer = write fresh.buffer 0 5; head = 0; tail = 1 };
  producer = room_found 6 1;
  consumer = item_found 0;
  accepted = 5 ∷ [];
  taken = [];
}

-- A whole push, then the consumer and the producer inside their calls at once.
pushed : Reach (start fresh) (record (start fresh) {
  ring = record fresh { buffer = write fresh.buffer 0 5; tail = 1 };
  accepted = 5 ∷ [];
})
unfolding new_ring push
pushed = push_alone (start fresh) 5 refl

meeting_reached : Reach (start fresh) (meeting)
unfolding new_ring
meeting_reached =
    next
      (next (next (next pushed (load_head refl refl)) (find_item 0 refl (omega arith) refl))
        (load_tail 6 refl refl))
      (find_room 6 1 refl (omega arith) refl)

fresh-IsRing : IsRing fresh
unfolding new_ring
fresh-IsRing = omega arith

threads_fifo_example : meeting.taken ++ contents meeting.ring ≡ meeting.accepted
unfolding fresh new_ring
threads_fifo_example = threads_fifo fresh fresh-IsRing refl meeting_reached

no_overwrite_example : ◌≢◌ {A = ℕ} 1 0
unfolding fresh new_ring
no_overwrite_example =
    no_overwrite fresh {s = meeting} 6 1 0 fresh-IsRing refl meeting_reached refl refl
