-- ===== src/UdpSenders/Tests.antt =====
-- Runs of the senders and instances of their theorems.
use mathlib.Core.List.{Perm}
use trading_platform.Prelude.{
  ℕ, ◌≡◌, refl, some, List, [], ◌∷◌, ◌++◌, arith, replicate, length-replicate,
}
use trading_platform.Prelude.Decimal.{decimal}
use trading_platform.UdpSenders.{
  TimestampedPacket, flush, flush_from, pop_greatest, send_chunked, chunk_header,
}
use trading_platform.UdpSenders.Chunks.{AllWithin, reassemble, send_chunked_lem}
use trading_platform.UdpSenders.Ordered.{IsLatestFirst, NoneLater, IsDone, flush-IsLatestFirst}

-- "CHUNK|12|3|"
header_of_twelve : chunk_header 12 3 ≡ 67 ∷ 72 ∷ 85 ∷ 78 ∷ 75 ∷ 124 ∷ 49 ∷ 50 ∷ 124 ∷ 51 ∷ 124 ∷ []
unfolding chunk_header decimal
header_of_twelve = refl

abbrev packet : ℕ → TimestampedPacket
packet t = record { timestamp = t; content = []; created_at = 0 }

-- Received in the order of time, sent in the opposite one.
reversed :
    (flush 0 10 (packet 1 ∷ packet 2 ∷ packet 3 ∷ [])).0 ≡ packet 3 ∷ packet 2 ∷ packet 1 ∷ []
unfolding flush flush_from pop_greatest
reversed = refl

flush-IsLatestFirst_example :
    let heap = packet 1 ∷ packet 2 ∷ packet 3 ∷ [] in
    let result = flush 0 10 heap in
    IsLatestFirst result.0
    × NoneLater result.0 result.1
    × Perm heap (result.0 ++ result.1)
    × IsDone 0 10 result.1
flush-IsLatestFirst_example = flush-IsLatestFirst 0 10 (packet 1 ∷ packet 2 ∷ packet 3 ∷ [])

send_chunked_lem_example :
    (packets : List (List ℕ)) × (send_chunked (replicate 1300 7) ≡ some packets)
    × AllWithin 1248 packets
    × (reassemble packets ≡ replicate 1300 7)
send_chunked_lem_example =
    send_chunked_lem (replicate 1300 7) (omega (arith, length-replicate {A = ℕ} 1300 7))
