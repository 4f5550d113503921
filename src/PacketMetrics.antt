-- ===== src/PacketMetrics.antt =====
-- crates/feeder/src/core/packet_validator.rs: counts of packets out of order, before sending and
-- after receiving.
--
-- The f64 operations are a parameter. Counters wrap at 2^64. The report and the messages are left
-- out.
pub mod Counts
mod Tests
use Prim.Native.String.{String, ◌++◌ as string_append}
use trading_platform.Prelude.{
  ℕ, ◌+◌, ◌-◌, ◌%◌, ◌^◌, Bool, true, false, not, ◌&&◌, Option, none, some, List, [], ◌==◌, ltb,
  if◌then◌else◌,
}
use trading_platform.Prelude.Int.{pos}
use trading_platform.Prelude.Dict.{lookup, insert, string_eq}
use trading_platform.Floats.{Floats}
use trading_platform.BuilderState.{inc}

-- format!("{}:{}", exchange, symbol)
abbrev pub key_of : String → String → String
key_of venue symbol = string_append venue (string_append ":" symbol)

-- The packet is earlier than the one before it.
abbrev pub is_inverted : ℕ → ℕ → Bool
is_inverted last_timestamp timestamp = ltb 0 last_timestamp && ltb timestamp last_timestamp

module _ (floats : Floats) where
  open floats use {F, literal, mul, div, of_i64}

  pub record ValidationMetrics : Type 0 where
    pub total_packets : ℕ
    pub timestamp_inversions : ℕ
    pub max_inversion_ms : ℕ
    pub last_timestamp : ℕ
    pub sequence_gaps : ℕ
    pub last_sequence : ℕ
    pub inversion_rate : F

  unfoldable pub default_metrics : ValidationMetrics
  default_metrics = record {
    total_packets = 0;
    timestamp_inversions = 0;
    max_inversion_ms = 0;
    last_timestamp = 0;
    sequence_gaps = 0;
    last_sequence = 0;
    inversion_rate = literal 0;
  }

  unfoldable pub check_inversion : ℕ → ValidationMetrics → ValidationMetrics
  check_inversion timestamp m =
      if is_inverted m.last_timestamp timestamp
      then (let inversion_ms = m.last_timestamp - timestamp in
          record m {
            timestamp_inversions = inc m.timestamp_inversions;
            max_inversion_ms =
                if ltb m.max_inversion_ms inversion_ms then inversion_ms else m.max_inversion_ms;
          })
      else m

  unfoldable pub check_sequence : Option ℕ → ValidationMetrics → ValidationMetrics
  check_sequence none m = m
  check_sequence (some seq) m =
      let next = inc m.last_sequence in
      let gap = ltb 0 m.last_sequence && (not (seq == next) && ltb next seq) in
      record m {
        sequence_gaps = if gap then inc m.sequence_gaps else m.sequence_gaps;
        last_sequence = seq;
      }

  -- What both validations do with one packet.
  unfoldable pub validate_packet : ℕ → Option ℕ → ValidationMetrics → ValidationMetrics
  unfolding check_inversion check_sequence
  validate_packet timestamp sequence m =
      let m' =
        check_sequence sequence
          (check_inversion timestamp (record m { total_packets = inc m.total_packets })) in
      record m' {
        last_timestamp = timestamp;
        inversion_rate =
            if ltb 0 m'.total_packets
            then mul (div (of_i64 (pos m'.timestamp_inversions)) (of_i64 (pos m'.total_packets)))
                (literal 100)
            else m'.inversion_rate;
      }

  pub record PacketValidator : Type 0 where
    pub pre_send_metrics : List (String × ValidationMetrics)
    pub post_receive_metrics : List (String × ValidationMetrics)

  unfoldable pub new_packet_validator : PacketValidator
  new_packet_validator = record { pre_send_metrics = []; post_receive_metrics = [] }

  -- `entry(key).or_default()`
  unfoldable pub entry_or_default : String → List (String × ValidationMetrics) → ValidationMetrics
  unfolding default_metrics
  entry_or_default key metrics = elim (lookup key metrics) [ none ↦ default_metrics | some m ↦ m ]

  unfoldable pub validate_pre_send :
      String → String → ℕ → Option ℕ → PacketValidator → PacketValidator
  unfolding validate_packet entry_or_default
  validate_pre_send venue symbol timestamp sequence v =
      let key = key_of venue symbol in
      let m = validate_packet timestamp sequence (entry_or_default key v.pre_send_metrics) in
      record v { pre_send_metrics = insert key m v.pre_send_metrics }

  unfoldable pub validate_post_receive :
      String → String → ℕ → Option ℕ → PacketValidator → PacketValidator
  unfolding validate_packet entry_or_default
  validate_post_receive venue symbol timestamp sequence v =
      let key = key_of venue symbol in
      let m = validate_packet timestamp sequence (entry_or_default key v.post_receive_metrics) in
      record v { post_receive_metrics = insert key m v.post_receive_metrics }
