-- ===== src/Processor/Convert.antt =====
-- `convert_update` makes a well-formed update of the first MAX_UPDATES levels of each side.
use trading_platform.Prelude.{
  ℕ, zero, suc, ◌+◌, ◌%◌, ◌^◌, ◌≤◌, ◌<◌, ◌≡◌, refl, ap, ◌∙◌, some, List, [], ◌∷◌, ◌++◌, map, arith,
  length, get_elem?, take, set, length-set, length-take, replicate, append-nil, append_assoc,
}
use trading_platform.Prelude.Dict.{lookup, string_eq}
use trading_platform.Floats.{Floats}
use trading_platform.MarketTypes.{PriceLevel, OrderBookUpdate, as_u64}
use trading_platform.HftBook.{FastPriceLevel, FastUpdate, default_level, max_updates}
use trading_platform.HftBook.Arrays.{put-lt}
use trading_platform.HftBook.Refine.{IsUpdate}
use trading_platform.Processor.{Registry, convert_level, fill_levels, convert_update}

take-set :
    (i : ℕ) (us : List FastPriceLevel) (v : FastPriceLevel)
    → i < length us
    → take (suc i) (set us i v) ≡ take i us ++ v ∷ []
take-set i [] v h = elim h [ ]
take-set zero (u ∷ us) v h = refl
take-set (suc i) (u ∷ us) v h = ap (λ r. u ∷ r) (take-set i us v (omega arith))

module _ (floats : Floats) where
  open floats use {F, literal, div}

  -- The slots from `i` on take the levels; those before keep what they hold.
  fill_levels_lem :
      (m : F) (ls : List (PriceLevel F)) (i : ℕ) (us : List FastPriceLevel)
      → i + length ls ≤ length us
      → length us ≤ max_updates
      → (us' : List FastPriceLevel) × (fill_levels floats m ls i i us ≡ some (us', i + length ls))
        × (length us' ≡ length us)
        × (take (i + length ls) us' ≡ take i us ++ map (convert_level floats m) ls)
  unfolding fill_levels
  fill_levels_lem m [] i us h k =
      let e : i + 0 ≡ i = omega arith in (us, rw e, refl, rw (e, append-nil))
  fill_levels_lem m (l ∷ ls) i us h k =
      let v = convert_level floats m l in
      let (us', r, n, t) =
        fill_levels_lem m ls (suc i) (set us i v) (omega (arith, length-set us i v))
          (omega (arith, length-set us i v)) in
      let count : (i + 1) % 2 ^ 8 ≡ suc i = omega arith in
      let total : i + suc (length ls) ≡ suc i + length ls = omega arith in
      (
        us',
        rw (put-lt us i v (omega arith), count, total) r,
        n ∙ length-set us i v,
        rw total (t ∙ rw (take-set i us v (omega arith), append_assoc)),
      )

  -- The converted update of a known symbol is well-formed: the first MAX_UPDATES levels of each
  -- side in order, the counts that go with them, and the update's id.
  pub convert_update_lem :
      (r : Registry F) (u : OrderBookUpdate F) (id : ℕ) (tick : F)
      → lookup u.symbol r.symbol_to_id ≡ some id
      → get_elem? r.tick_sizes id ≡ some tick
      → let m = div (literal 1) tick in
        (f : FastUpdate) × (convert_update floats r u ≡ some (some f))
        × IsUpdate f
        × (take f.bid_count f.bid_updates ≡ map (convert_level floats m) (take max_updates u.bids))
        × (take f.ask_count f.ask_updates ≡ map (convert_level floats m) (take max_updates u.asks))
        × (f.symbol_id ≡ id)
        × (f.update_id ≡ u.update_id)
        × (f.is_snapshot ≡ u.is_snapshot)
  unfolding convert_update
  convert_update_lem r u id tick known ticks =
      let m = div (literal 1) tick in
      let zeroed = replicate max_updates default_level in
      let (bs, eb, nb, tb) =
        fill_levels_lem m (take max_updates u.bids) 0 zeroed
          (omega (arith, length-take max_updates u.bids)) (omega arith) in
      let (as_, ea, na, ta) =
        fill_levels_lem m (take max_updates u.asks) 0 zeroed
          (omega (arith, length-take max_updates u.asks)) (omega arith) in
      (
        record {
          symbol_id = id;
          update_id = u.update_id;
          timestamp = as_u64 u.timestamp;
          bid_updates = bs;
          ask_updates = as_;
          bid_count = 0 + length (take max_updates u.bids);
          ask_count = 0 + length (take max_updates u.asks);
          is_snapshot = u.is_snapshot;
        },
        rw (known, convert_update, ticks, eb, ea),
        record {
          bid_room = omega (arith, length-take max_updates u.bids);
          ask_room = omega (arith, length-take max_updates u.asks);
        },
        tb,
        ta,
        refl,
        refl,
        refl,
      )
