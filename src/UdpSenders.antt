-- ===== src/UdpSenders.antt =====
-- crates/feeder/src/core: buffered_udp_sender.rs and ordered_udp_sender.rs, which send packets over
-- UDP, in chunks and in the order of time.
--
-- Data are bytes. What is handed to the socket, or to the channel of the sending task, is a list of
-- packets; sending itself, the delays and the statistics that are only logged are left out. A
-- BinaryHeap is the list of its elements: the next one is a greatest, which of equal ones is not
-- specified, and the model takes the first that was pushed.
pub mod Chunks
pub mod Ordered
mod Tests
use trading_platform.Prelude.Decimal.{decimal}
use trading_platform.Prelude.{
  ℕ, zero, suc, ◌+◌, ◌-◌, ◌*◌, ◌/◌, ◌%◌, Bool, true, false, not, Option, none, some, List, [], ◌∷◌,
  ◌++◌, ltb, leb, if◌then◌else◌, length, take, drop, ◌>>=◌, map_some,
}

-- format!("CHUNK|{}|{}|", i, total)
unfoldable pub chunk_header : ℕ → ℕ → List ℕ
unfolding decimal
chunk_header i total =
    67 ∷ 72 ∷ 85 ∷ 78 ∷ 75 ∷ 124 ∷ (decimal 19 i ++ (124 ∷ (decimal 19 total ++ 124 ∷ [])))

-- `data.chunks(size)`, with the length as fuel.
unfoldable pub chunks_from : ℕ → ℕ → List ℕ → List (List ℕ)
chunks_from zero size bytes = []
chunks_from (suc fuel) size [] = []
chunks_from (suc fuel) size (b ∷ bytes) =
    take size (b ∷ bytes) ∷ chunks_from fuel size (drop size (b ∷ bytes))

unfoldable pub chunks : ℕ → List ℕ → List (List ℕ)
unfolding chunks_from
chunks size bytes = chunks_from (length bytes) size bytes

-- The chunks with their headers, from a number on.
unfoldable pub with_headers : ℕ → ℕ → List (List ℕ) → List (List ℕ)
unfolding chunk_header
with_headers i total [] = []
with_headers i total (c ∷ cs) = (chunk_header i total ++ c) ∷ with_headers (i + 1) total cs

-- buffered_udp_sender.rs
abbrev pub max_udp_size : ℕ
max_udp_size = 65507

abbrev pub buffered_chunk_size : ℕ
buffered_chunk_size = 1200

-- `send`; none is the error for a packet that is too long. The channel is open.
unfoldable pub send : List ℕ → Option (List ℕ)
send bytes = if ltb max_udp_size (length bytes) then none else some bytes

-- The loop, which stops at the first error.
unfoldable pub send_all : List (List ℕ) → Option (List (List ℕ))
unfolding send
send_all [] = some []
send_all (p ∷ ps) = do sent ← send p; rest ← send_all ps; some (sent ∷ rest)

unfoldable pub send_chunked : List ℕ → Option (List (List ℕ))
unfolding send send_all chunks with_headers
send_chunked bytes =
    if leb (length bytes) buffered_chunk_size
    then map_some (λ p. p ∷ []) (send bytes)
    else (let total_chunks = (length bytes + buffered_chunk_size - 1) / buffered_chunk_size in
        send_all (with_headers 1 total_chunks (chunks buffered_chunk_size bytes)))

-- ordered_udp_sender.rs
abbrev pub ordered_chunk_size : ℕ
ordered_chunk_size = 60000

-- The packets that `send_packet` gives to the socket.
unfoldable pub send_packet : List ℕ → List (List ℕ)
unfolding chunks with_headers
send_packet bytes =
    let parts = chunks ordered_chunk_size bytes in
    if ltb max_udp_size (length bytes) then with_headers 1 (length parts) parts else bytes ∷ []

pub record TimestampedPacket : Type 0 where
  pub timestamp : ℕ
  pub content : List ℕ
  pub created_at : ℕ

-- `cmp` compares the other packet's time with its own, and `Reverse` turns it round: whether the
-- first of two is greater in the heap.
abbrev pub is_greater : TimestampedPacket → TimestampedPacket → Bool
is_greater p q = ltb q.timestamp p.timestamp

-- One packet more beside a greatest one and the others.
abbrev pub keep_greater :
    TimestampedPacket
    → Option (TimestampedPacket × List TimestampedPacket)
    → Option (TimestampedPacket × List TimestampedPacket)
keep_greater p none = some (p, [])
keep_greater p (some (q, qs)) = if is_greater q p then some (q, p ∷ qs) else some (p, q ∷ qs)

-- A greatest element, and the others.
unfoldable pub pop_greatest :
    List TimestampedPacket → Option (TimestampedPacket × List TimestampedPacket)
pop_greatest [] = none
pop_greatest (p ∷ ps) = keep_greater p (pop_greatest ps)

-- The loop of a flush: up to the first packet that is too recent. The fuel is the heap's size.
unfoldable pub flush_from :
    ℕ → ℕ → ℕ → List TimestampedPacket → List TimestampedPacket × List TimestampedPacket
unfolding pop_greatest
flush_from zero window now heap = ([], heap)
flush_from (suc fuel) window now heap = elim (pop_greatest heap) [
  | none ↦ ([], heap)
  | some next ↦
      let rest = flush_from fuel window now next.1 in
      if leb window (now - next.0.created_at) then (next.0 ∷ rest.0, rest.1) else ([], heap)
]

unfoldable pub flush :
    ℕ → ℕ → List TimestampedPacket → List TimestampedPacket × List TimestampedPacket
unfolding flush_from
flush window now heap = flush_from (length heap) window now heap

-- A received packet goes on the heap.
unfoldable pub receive : TimestampedPacket → List TimestampedPacket → List TimestampedPacket
receive p heap = heap ++ p ∷ []
