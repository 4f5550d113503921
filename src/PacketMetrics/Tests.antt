-- ===== src/PacketMetrics/Tests.antt =====
-- A stream of packets, and an instance of the theorem on the counts.
use trading_platform.Prelude.{ℕ, ◌+◌, ◌≡◌, refl, Option, none, some, List, [], ◌∷◌, arith, length}
use trading_platform.Floats.Sample.{whole}
use trading_platform.PacketMetrics.{ValidationMetrics, default_metrics}
use trading_platform.PacketMetrics.Counts.{
  inversions_after, greatest_step_back, last_time_of, validate_packets, validate_packets_lem,
}

abbrev stream : List (ℕ × Option ℕ)
stream = (100, some 1) ∷ (90, some 2) ∷ (95, none) ∷ (70, some 5) ∷ []

abbrev start : ValidationMetrics whole
unfolding default_metrics
start = default_metrics whole

two_inversions : (inversions_after 0 stream ≡ 2) × (greatest_step_back 0 0 stream ≡ 25)
two_inversions = (refl, refl)

validate_packets_lem_example :
    let m = validate_packets whole stream start in
    (m.total_packets ≡ start.total_packets + length stream)
    × (m.timestamp_inversions
        ≡ start.timestamp_inversions + inversions_after start.last_timestamp stream)
    × (m.max_inversion_ms ≡ greatest_step_back start.max_inversion_ms start.last_timestamp stream)
    × (m.last_timestamp ≡ last_time_of start.last_timestamp stream)
unfolding start default_metrics
validate_packets_lem_example = validate_packets_lem whole stream start (omega arith) (omega arith)
