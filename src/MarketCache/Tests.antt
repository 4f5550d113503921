-- ===== src/MarketCache/Tests.antt =====
-- A run of the slot and an instance of its theorem.
use trading_platform.Prelude.{ℕ, zero, suc, ◌+◌, ◌≤◌, ◌≡◌, refl, arith}
use trading_platform.MarketCache.{
  Slot, SlotReach, writing, reading, load_seq, mark_updating, store_field, mark_stable, load_first,
  load_field, here, next, new_slot, store, field_of, overlay,
}
use trading_platform.MarketCache.Snapshot.{no_torn_read}

-- The cells after `k` stores, and what was read after `k` loads.
abbrev stored : (ℕ → ℕ) → (ℕ → ℕ) → ℕ → ℕ → ℕ
stored values cells zero = cells
stored values cells (suc k) = store (stored values cells k) (field_of k) (values (field_of k))

abbrev read_into : (ℕ → ℕ) → ℕ → ℕ → ℕ
read_into cells zero = cells
read_into cells (suc k) = store (read_into cells k) k (cells k)

abbrev prices : ℕ → ℕ
prices i = 100 + i

abbrev updating : ℕ → Slot ℕ
updating k = record (new_slot 0) {
  seq = 1;
  cells = stored prices (λ i. 0) k;
  writer = writing prices 1 k;
}

stores : (k : ℕ) → k ≤ 6 → SlotReach (new_slot 0) (updating k)
stores zero h = next (next here (load_seq prices refl refl)) (mark_updating prices 1 refl refl)
stores (suc k) h = next (stores k (omega arith)) (store_field prices 1 k refl (omega arith) refl)

abbrev updated : Slot ℕ
updated = record (new_slot 0) {
  seq = 2;
  cells = stored prices (λ i. 0) 6;
  writes = 1;
  published = overlay 6 prices (λ i. 0);
}

abbrev having_read : ℕ → Slot ℕ
having_read k = record updated { reader = reading 2 k (read_into updated.cells k) }

loads : (k : ℕ) → k ≤ 7 → SlotReach (new_slot 0) (having_read k)
loads zero h =
    next (next (stores 6 (omega arith)) (mark_stable prices 1 refl refl)) (load_first refl)
loads (suc k) h =
    next (loads k (omega arith))
      (load_field 2 k (read_into updated.cells k) refl (omega arith) refl)

-- The ask that was read is the one that was written.
no_torn_read_example : read_into updated.cells 7 1 ≡ 101
no_torn_read_example =
    no_torn_read 0 {s = having_read 7} (read_into updated.cells 7) 1 (loads 7 (omega arith))
      (omega arith) (2, refl, refl, refl) (omega arith)
