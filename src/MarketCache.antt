-- ===== src/MarketCache.antt =====
-- crates/feeder/src/core/market_cache.rs: the slot of one symbol, written and read without a lock.
--
-- The seven data fields are cells, numbered as `read_snapshot` reads them: best_bid, best_ask,
-- bid_qty, ask_qty, last_trade, exchange_ts, local_ts. One writer calls
-- `update_orderbook_with_seq` and one reader `read_snapshot`; each atomic load or store is a step,
-- in any interleaving. Reorderings by weaker memory orders, the fast updates, which leave the
-- sequence number alone, and the table of slots are outside the model.
--
-- `writes` counts the updates that are complete, and `published` holds the fields as the last of
-- them set them; no step reads either.
pub mod Snapshot
mod Tests
use trading_platform.Prelude.{
  ℕ, suc, ◌+◌, ◌*◌, ◌/◌, ◌%◌, ◌^◌, ◌<◌, ◌≡◌, ◌≢◌, Bool, true, false, not, ◌&&◌, ◌==◌, ltb,
  if◌then◌else◌,
}

-- The fields of `read_snapshot`, and those of `update_orderbook_with_seq`, which leaves out
-- last_trade.
abbrev pub read_fields : ℕ
read_fields = 7

abbrev pub written_fields : ℕ
written_fields = 6

-- The cell that the writer stores to after `k` others.
abbrev pub field_of : ℕ → ℕ
field_of k = if ltb k 4 then k else k + 1

-- Whether the first `k` stores reach this cell.
abbrev pub is_written : ℕ → ℕ → Bool
is_written k i = (not (i == 4)) && (if ltb i 4 then ltb i k else ltb i (k + 1))

module _ {ℓ} {V : Type ℓ} where
  abbrev pub store : (ℕ → V) → ℕ → V → ℕ → V
  store cells i v j = if j == i then v else cells j

  -- The cells after the first `k` stores of an update.
  abbrev pub overlay : ℕ → (ℕ → V) → (ℕ → V) → ℕ → V
  overlay k values old i = if is_written k i then values i else old i

-- Where the writer stands in its call, with its values and its local `seq`.
pub data Writer {ℓ} (V : Type ℓ) : Type ℓ where
  resting : Writer V
  loaded : (ℕ → V) → ℕ → Writer V
  writing : (ℕ → V) → ℕ → ℕ → Writer V

-- Where the reader stands: outside, or in the loop with `s1`, the number of fields read, and them.
pub data Reader {ℓ} (V : Type ℓ) : Type ℓ where
  resting : Reader V
  reading : ℕ → ℕ → (ℕ → V) → Reader V

pub record Slot {ℓ} (V : Type ℓ) : Type ℓ where
  pub seq : ℕ
  pub cells : ℕ → V
  pub writer : Writer V
  pub reader : Reader V
  pub writes : ℕ
  pub published : ℕ → V

module _ {ℓ} {V : Type ℓ} where
  pub data SlotStep (s s' : Slot V) : Type ℓ where
    -- `let seq = self.seq.load(..).wrapping_add(1)`
    load_seq :
        (values : ℕ → V)
        → s.writer ≡ Writer.resting
        → s' ≡ record s { writer = loaded values ((s.seq + 1) % 2 ^ 64) }
        → SlotStep s s'
    -- `self.seq.store(seq | 1, ..)`
    mark_updating :
        (values : ℕ → V) (q : ℕ)
        → s.writer ≡ loaded values q
        → s' ≡ record s { seq = q / 2 * 2 + 1; writer = writing values q 0 }
        → SlotStep s s'
    -- the next store of a field
    store_field :
        (values : ℕ → V) (q k : ℕ)
        → s.writer ≡ writing values q k
        → k < written_fields
        → s' ≡ record s {
          cells = store s.cells (field_of k) (values (field_of k));
          writer = writing values q (suc k);
        }
        → SlotStep s s'
    -- `self.seq.store(seq.wrapping_add(1) & !1, ..)`, and the call returns
    mark_stable :
        (values : ℕ → V) (q : ℕ)
        → s.writer ≡ writing values q written_fields
        → s' ≡ record s {
          seq = (q + 1) % 2 ^ 64 / 2 * 2;
          writer = Writer.resting;
          writes = s.writes + 1;
          published = overlay written_fields values s.published;
        }
        → SlotStep s s'
    -- `let s1 = self.seq.load(..)`, at the call or at a retry
    load_first : s' ≡ record s { reader = reading s.seq 0 s.cells } → SlotStep s s'
    -- the next load of a field
    load_field :
        (s₁ k : ℕ) (got : ℕ → V)
        → s.reader ≡ reading s₁ k got
        → k < read_fields
        → s' ≡ record s { reader = reading s₁ (suc k) (store got k (s.cells k)) }
        → SlotStep s s'

  pub data SlotReach (s : Slot V) : Slot V → Type ℓ where
    here : SlotReach s s
    next : {t u : Slot V} → SlotReach s t → SlotStep t u → SlotReach s u

  -- `read_snapshot` returns what it has: `s1 == s2 && s1 % 2 == 0` with `s2` loaded now.
  abbrev pub Returns : Slot V → (ℕ → V) → Type ℓ
  Returns s got = (s₁ : ℕ) × (s.reader ≡ reading s₁ read_fields got) × (s₁ ≡ s.seq) × (s₁ % 2 ≡ 0)

  -- `SymbolSlot::new`, with zero in the cells.
  abbrev pub new_slot : V → Slot V
  new_slot zeroed = record {
    seq = 0;
    cells = λ i. zeroed;
    writer = Writer.resting;
    reader = Reader.resting;
    writes = 0;
    published = λ i. zeroed;
  }
