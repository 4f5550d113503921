-- ===== src/Sequence.antt =====
-- crates/market-types/src/sequence.rs: sequence numbers of exchange messages, and gaps.
--
-- A JSON message is a parameter: the code reads it through the accessors of serde_json alone.
-- So is `str::parse::<u64>`, of the standard library.
pub mod Gap
mod Tests
use Prim.Native.String.{String}
use text.Mathlib.Text.{◌==◌ as str_eq}
use trading_platform.Prelude.{
  ℕ, zero, suc, ◌+◌, ◌-◌, ◌*◌, ◌%◌, ◌^◌, Bool, true, false, not, ◌&&◌, Option, none, some, List, [],
  ◌∷◌, ◌==◌, ltb, leb, if◌then◌else◌,
}
use trading_platform.MarketTypes.{
  Exchange, binance, binance_futures, bybit, bybit_linear, upbit, coinbase, okx, deribit, bithumb,
  ls_exchange,
}

pub record SequenceInfo : Type 0 where
  pub update_id : ℕ
  pub first_update_id : Option ℕ
  pub last_update_id : Option ℕ
  pub prev_update_id : Option ℕ
  pub is_snapshot : Bool

-- `SequenceInfo::default()`
abbrev pub default_info : SequenceInfo
default_info = record {
  update_id = 0;
  first_update_id = none;
  last_update_id = none;
  prev_update_id = none;
  is_snapshot = false;
}

-- `SequenceExtractor::has_gap`, with the wrapping addition of u64.
unfoldable pub has_gap : ℕ → SequenceInfo → Bool
has_gap last_known current = if current.is_snapshot then false else (elim current.first_update_id [
  | some first ↦ not (first == (last_known + 1) % 2 ^ 64)
  | none ↦ not (current.update_id == (last_known + 1) % 2 ^ 64)
])

-- The accessors of `serde_json::Value` that the extractors call. `index` is `json["key"]`, which
-- gives Null for a missing key, and `index_nth` is `json[n]`.
pub record Json : Type 1 where
  pub Value : Type 0
  pub get : Value → String → Option Value
  pub index : Value → String → Value
  pub index_nth : Value → ℕ → Value
  pub as_u64 : Value → Option ℕ
  pub as_str : Value → Option String
  pub as_array : Value → Option (List Value)
  pub is_array : Value → Bool

pub data ExtractError : Type 0 where
  missing_last_update_id missing_first missing_last unknown_format : ExtractError
  missing_data missing_update_id bad_seq_id : ExtractError

pub data Result {ℓ} (A : Type ℓ) : Type ℓ where
  ok : A → Result A
  err : ExtractError → Result A

infixl 5 ◌>>=◌
abbrev pub ◌>>=◌ {ℓ κ} : {A : Type ℓ} {B : Type κ} → Result A → (A → Result B) → Result B
ok a >>= f = f a
err e >>= f = err e

abbrev pub ok_or {ℓ} : {A : Type ℓ} → Option A → ExtractError → Result A
ok_or none e = err e
ok_or (some a) e = ok a

abbrev pub or_else {ℓ} : {A : Type ℓ} → Option A → Option A → Option A
or_else none o = o
or_else (some a) o = some a

abbrev pub and_then {ℓ κ} : {A : Type ℓ} {B : Type κ} → Option A → (A → Option B) → Option B
and_then none f = none
and_then (some a) f = f a

-- Whether an optional text is that one.
abbrev is_text : Option String → String → Bool
is_text none t = false
is_text (some s) t = str_eq s t

abbrev first_of_list {ℓ} : {A : Type ℓ} → List A → Option A
first_of_list [] = none
first_of_list (a ∷ as') = some a

module _ (json : Json) (parse_u64 : String → Option ℕ) where
  open json use {Value, get, index, index_nth, as_u64, as_str, as_array, is_array}

  -- `BinanceSequenceExtractor`
  unfoldable pub extract_binance : Value → Result SequenceInfo
  extract_binance j = elim (get j "lastUpdateId") [
    | some _ ↦ do
      id ← ok_or (as_u64 (index j "lastUpdateId")) missing_last_update_id
      ok (record default_info { update_id = id; is_snapshot = true })
    | none ↦
        if is_text (and_then (get j "e") as_str) "depthUpdate"
        then (do
          first ← ok_or (as_u64 (index j "U")) missing_first
          last ← ok_or (as_u64 (index j "u")) missing_last
          ok (record default_info {
            update_id = last;
            first_update_id = some first;
            last_update_id = some last;
          }))
        else err unknown_format
  ]

  -- `BybitSequenceExtractor`
  unfoldable pub extract_bybit : Value → Result SequenceInfo
  extract_bybit j = do
    message ← ok_or (get j "data") missing_data
    let first = if is_array message then index_nth message 0 else message
    id ← ok_or (as_u64 (index first "u")) missing_update_id
    ok (record default_info {
      update_id = id;
      prev_update_id = and_then (get first "seq") as_u64;
      is_snapshot = is_text (and_then (get j "type") as_str) "snapshot";
    })

  -- A number, or a text that holds one.
  abbrev number_or_text : Value → Option ℕ
  number_or_text v = or_else (as_u64 v) (and_then (as_str v) parse_u64)

  -- `OKXSequenceExtractor`
  unfoldable pub extract_okx : Value → Result SequenceInfo
  extract_okx j = do
    message ← ok_or (and_then (and_then (get j "data") as_array) first_of_list) missing_data
    id ← ok_or (number_or_text (index message "seqId")) bad_seq_id
    ok (record default_info {
      update_id = id;
      prev_update_id = and_then (get message "prevSeqId") number_or_text;
      is_snapshot = is_text (and_then (get j "action") as_str) "snapshot";
    })

  -- `DefaultSequenceExtractor`
  unfoldable pub extract_default : Value → Result SequenceInfo
  extract_default j = ok default_info

  -- `create_sequence_extractor`
  unfoldable pub sequence_extractor : Exchange → Value → Result SequenceInfo
  unfolding extract_binance extract_bybit extract_okx extract_default
  sequence_extractor binance = extract_binance
  sequence_extractor binance_futures = extract_binance
  sequence_extractor bybit = extract_bybit
  sequence_extractor bybit_linear = extract_bybit
  sequence_extractor okx = extract_okx
  sequence_extractor _ = extract_default
