-- ===== src/PacketMetrics/Counts.antt =====
-- What the counts say of a stream of packets.
use trading_platform.Prelude.{
  ℕ, ◌+◌, ◌-◌, ◌^◌, ◌≤◌, ◌<◌, ◌≡◌, refl, ◌∙◌, ap, ap₂, Option, none, some, List, [], ◌∷◌, arith,
  if◌then◌else◌, length, max,
}
use trading_platform.Floats.{Floats}
use trading_platform.BuilderState.{inc}
use trading_platform.PacketMetrics.{
  ValidationMetrics, is_inverted, check_inversion, check_sequence, validate_packet,
}

-- Packets that are earlier than the one before, after a packet of some time.
abbrev pub inversions_after : ℕ → List (ℕ × Option ℕ) → ℕ
inversions_after last [] = 0
inversions_after last ((t, s) ∷ ps) = (if is_inverted last t then 1 else 0) + inversions_after t ps

-- The greatest step back in time, of those and of a number.
abbrev pub greatest_step_back : ℕ → ℕ → List (ℕ × Option ℕ) → ℕ
greatest_step_back most last [] = most
greatest_step_back most last ((t, s) ∷ ps) =
    greatest_step_back (if is_inverted last t then max most (last - t) else most) t ps

abbrev pub last_time_of : ℕ → List (ℕ × Option ℕ) → ℕ
last_time_of last [] = last
last_time_of last ((t, s) ∷ ps) = last_time_of t ps

module _ (floats : Floats) where
  unfoldable pub validate_packets :
      List (ℕ × Option ℕ) → ValidationMetrics floats → ValidationMetrics floats
  unfolding validate_packet
  validate_packets [] m = m
  validate_packets ((t, s) ∷ ps) m = validate_packets ps (validate_packet floats t s m)

  validate_packet-times :
      (t : ℕ) (s : Option ℕ) (m : ValidationMetrics floats)
      → ((validate_packet floats t s m).total_packets ≡ inc m.total_packets)
        × ((validate_packet floats t s m).timestamp_inversions ≡ (
            if is_inverted m.last_timestamp t
            then inc m.timestamp_inversions
            else m.timestamp_inversions))
        × ((validate_packet floats t s m).max_inversion_ms ≡ (
            if is_inverted m.last_timestamp t
            then max m.max_inversion_ms (m.last_timestamp - t)
            else m.max_inversion_ms))
        × ((validate_packet floats t s m).last_timestamp ≡ t)
  unfolding validate_packet check_inversion check_sequence
  validate_packet-times t none m = ground arith
  validate_packet-times t (some s) m = ground arith

  -- The counts of a stream are the number of its packets, the number of those that are earlier than
  -- the one before, and the greatest step back, as long as the numbers fit.
  pub validate_packets_lem :
      (ps : List (ℕ × Option ℕ)) (m : ValidationMetrics floats)
      → m.total_packets + length ps < 2 ^ 64
      → m.timestamp_inversions ≤ m.total_packets
      → let m' = validate_packets ps m in
        (m'.total_packets ≡ m.total_packets + length ps)
        × (m'.timestamp_inversions ≡ m.timestamp_inversions + inversions_after m.last_timestamp ps)
        × (m'.max_inversion_ms ≡ greatest_step_back m.max_inversion_ms m.last_timestamp ps)
        × (m'.last_timestamp ≡ last_time_of m.last_timestamp ps)
  unfolding validate_packets
  validate_packets_lem [] m h k = (omega arith, omega arith, refl, refl)
  validate_packets_lem ((t, s) ∷ ps) m h k =
      let (a, b, c, d) = validate_packet-times t s m in
      let n : ValidationMetrics floats = validate_packet floats t s m in
      let one : ℕ = if is_inverted m.last_timestamp t then 1 else 0 in
      let total : n.total_packets ≡ m.total_packets + 1 = ground (arith, a, h) in
      let inverted : n.timestamp_inversions ≡ m.timestamp_inversions + one =
        ground (arith, b, h, k) in
      let few : n.timestamp_inversions ≤ n.total_packets = ground (arith, total, inverted, k) in
      let (e, f, g, i) = validate_packets_lem ps n (omega (arith, total, h)) few in
      (
        omega (arith, e, total),
        f ∙ ap₂ (λ x y. x + inversions_after y ps) inverted d ∙ omega arith,
        g ∙ ap₂ (λ x y. greatest_step_back x y ps) c d,
        i ∙ ap (λ x. last_time_of x ps) d,
      )
