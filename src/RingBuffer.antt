-- ===== src/RingBuffer.antt =====
-- crates/matching-engine/src/hft_orderbook.rs: the single-producer single-consumer ring buffer.
--
-- The array of RING_BUFFER_SIZE cells is a function of the index; every index the code computes is
-- below the size. The atomic loads and stores of the two threads are the steps of
-- `RingBuffer.Threads`, in any interleaving of whole loads and stores.
pub mod Window
pub mod Refine
pub mod Threads
pub mod Invariant
pub mod Fifo
mod Tests
use trading_platform.Prelude.{
  ℕ, ◌+◌, ◌%◌, Bool, true, false, Option, none, some, ◌==◌, if◌then◌else◌,
}

abbrev pub ring_buffer_size : ℕ
ring_buffer_size = 65536

pub record RingBuffer {ℓ} (A : Type ℓ) : Type ℓ where
  pub buffer : ℕ → A
  pub head : ℕ
  pub tail : ℕ

module _ {ℓ} {A : Type ℓ} where
  abbrev pub write : (ℕ → A) → ℕ → A → ℕ → A
  write c i x j = if j == i then x else c j

  -- `RingBuffer::new`; the cells are zeroed.
  unfoldable pub new_ring : A → RingBuffer A
  new_ring zeroed = record { buffer = λ i. zeroed; head = 0; tail = 0 }

  unfoldable pub push : RingBuffer A → A → RingBuffer A × Bool
  push r update =
      let next_tail = (r.tail + 1) % ring_buffer_size in
      if next_tail == r.head
      then (r, false)
      else (record r { buffer = write r.buffer r.tail update; tail = next_tail }, true)

  unfoldable pub pop : RingBuffer A → RingBuffer A × Option A
  pop r =
      if r.head == r.tail
      then (r, none)
      else (record r { head = (r.head + 1) % ring_buffer_size }, some (r.buffer r.head))
