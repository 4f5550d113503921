-- ===== src/Synchronizer/Tests.antt =====
-- Runs of the synchronizer and instances of its theorems.
use trading_platform.Prelude.{ℕ, ◌≡◌, refl, true, Option, none, some, [], ◌∷◌, arith}
use trading_platform.Sequence.{Json}
use trading_platform.Synchronizer.{
  BinanceSnapshot, Event, Synchronizer, synced, failed, sequence_gap, new_synchronizer,
  check_events, synchronize,
}
use trading_platform.Synchronizer.Fetch.{
  network_error, http_error, response, FetchResult, fetch_snapshot, Stores, fetch_snapshot_ends,
}
use trading_platform.Synchronizer.Chain.{never_synchronizes}

abbrev event : ℕ → ℕ → Option ℕ → Event ℕ
event first last pu = record {
  first_update_id = first;
  final_update_id = last;
  prev_update_id = pu;
  content = last;
}

abbrev taken : BinanceSnapshot
taken = record { symbol = "BTCUSDT"; last_update_id = 100; bids = []; asks = [] }

-- An old event, one that overlaps the snapshot, and one that follows it.
abbrev waiting : Synchronizer ℕ
unfolding new_synchronizer
waiting = record (new_synchronizer "BTCUSDT" "spot") {
  snapshot = some taken;
  event_buffer = event 90 99 none ∷ event 95 105 none ∷ event 106 107 (some 105) ∷ [];
}

-- The events of the futures stream.
abbrev futures : Synchronizer ℕ
unfolding new_synchronizer
futures = record (new_synchronizer "BTCUSDT" "futures") {
  snapshot = some taken;
  event_buffer = event 95 105 (some 94) ∷ event 106 107 (some 105) ∷ [];
}

spot_result : (synchronize waiting).1 ≡ synced (105 ∷ 107 ∷ [])
unfolding waiting new_synchronizer synchronize check_events
spot_result = refl

futures_result : (synchronize futures).1 ≡ failed (sequence_gap 100 94)
unfolding futures new_synchronizer synchronize check_events
futures_result = refl

-- The event of the repository's own test, which expects a success.
test_event_refused :
    (synchronize (record futures { event_buffer = event 95 105 (some 99) ∷ [] })).1
    ≡ failed (sequence_gap 100 99)
unfolding futures new_synchronizer synchronize check_events
test_event_refused = refl

-- Without `pu`, a gap goes unseen.
spot_gap :
    (synchronize (record waiting { event_buffer = event 95 105 none ∷ event 200 210 none ∷ [] })).1
    ≡ synced (105 ∷ 210 ∷ [])
unfolding waiting new_synchronizer synchronize check_events
spot_gap = refl

never_synchronizes_example : ¬ ((synchronize futures).1 ≡ synced (105 ∷ 107 ∷ []))
unfolding futures new_synchronizer
never_synchronizes_example =
    never_synchronizes futures (105 ∷ 107 ∷ [])
      ((94, refl, omega arith), ((105, refl, omega arith), tt))

-- JSON in which each number is 100 and each array is empty.
abbrev hundreds : Json
hundreds = record {
  Value = ℕ;
  get = λ v key. some v;
  index = λ v key. v;
  index_nth = λ v n. v;
  as_u64 = λ v. some 100;
  as_str = λ v. none;
  as_array = λ v. some [];
  is_array = λ v. true;
}

fetch_snapshot_ends_example :
    (p : Synchronizer ℕ × FetchResult) × (fetch_snapshot hundreds true
        (network_error ∷ http_error 500 ∷ response 0 ∷ [])
        futures
      ≡ some p)
    × Stores hundreds futures p
fetch_snapshot_ends_example =
    fetch_snapshot_ends hundreds true (network_error ∷ http_error 500 ∷ response 0 ∷ []) futures
      (omega arith)
