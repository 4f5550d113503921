-- ===== src/MarketCache/Snapshot.antt =====
-- A snapshot that is returned is never torn.
use trading_platform.Prelude.{
  ℕ, suc, ◌+◌, ◌*◌, ◌/◌, ◌%◌, ◌^◌, ◌≤◌, ◌<◌, ◌≡◌, refl, sym, ap, ◌∙◌, subst, true, false, arith,
  ◌==◌, if◌then◌else◌, Bool-cases, inl, inr,
}
use trading_platform.MarketCache.{
  read_fields, written_fields, field_of, is_written, store, overlay, Writer, Reader, Slot, SlotStep,
  SlotReach, loaded, writing, reading, load_seq, mark_updating, store_field, mark_stable,
  load_first, load_field, here, next, Returns, new_slot,
}

is_written-suc :
    (k i : ℕ)
    → k < written_fields
    → is_written (suc k) i ≡ (if i == field_of k then true else is_written k i)
is_written-suc k i h = ground arith

is_written-zero : (i : ℕ) → is_written 0 i ≡ false
is_written-zero i = ground arith

module _ {ℓ} {V : Type ℓ} where
  -- The sequence number and the cells, by where the writer stands.
  abbrev WriterOk : Slot V → Writer V → Type ℓ
  WriterOk s Writer.resting = (s.seq ≡ 2 * s.writes) × ((i : ℕ) → s.cells i ≡ s.published i)
  WriterOk s (loaded values q) =
      (s.seq ≡ 2 * s.writes) × (q ≡ s.seq + 1) × ((i : ℕ) → s.cells i ≡ s.published i)
  WriterOk s (writing values q k) =
      (s.seq ≡ 2 * s.writes + 1)
      × (q ≡ s.seq)
      × ((i : ℕ) → s.cells i ≡ overlay k values s.published i)

  -- While the sequence number is even and unchanged, what was read is what the cells hold.
  abbrev ReaderOk : Slot V → Reader V → Type ℓ
  ReaderOk s Reader.resting = Unit {ℓ}
  ReaderOk s (reading s₁ k got) =
      (s₁ ≤ s.seq) × (s₁ ≡ s.seq → s₁ % 2 ≡ 0 → (i : ℕ) → i < k → got i ≡ s.cells i)

  record Inv (s : Slot V) : Type ℓ where
    writer_ok : WriterOk s s.writer
    reader_ok : ReaderOk s s.reader

  -- The reader's part survives a step that moves the sequence number on, or leaves it and the cells.
  reader_later : (s s' : Slot V) (r : Reader V) → s.seq < s'.seq → ReaderOk s r → ReaderOk s' r
  reader_later s s' Reader.resting h ok = tt
  reader_later s s' (reading s₁ k got) h ok = (omega arith, λ e p i b. absurd (omega arith))

  -- Stores happen under an odd sequence number.
  reader_odd :
      (s s' : Slot V) (r : Reader V) → s'.seq ≡ s.seq → s.seq % 2 ≡ 1 → ReaderOk s r → ReaderOk s' r
  reader_odd s s' Reader.resting h odd ok = tt
  reader_odd s s' (reading s₁ k got) h odd ok = (omega arith, λ e p i b. absurd (omega arith))

  reader_same :
      (s s' : Slot V) (r : Reader V)
      → s'.seq ≡ s.seq
      → s'.cells ≡ s.cells
      → ReaderOk s r
      → ReaderOk s' r
  reader_same s s' Reader.resting h c ok = tt
  reader_same s s' (reading s₁ k got) h c ok = (omega arith, λ e p i b. rw c (ok.1 (e ∙ h) p i b))

  writer_same :
      (s s' : Slot V) (w : Writer V)
      → s'.seq ≡ s.seq
      → s'.cells ≡ s.cells
      → s'.writes ≡ s.writes
      → s'.published ≡ s.published
      → WriterOk s w
      → WriterOk s' w
  writer_same s s' Writer.resting a b c d ok = (omega arith, λ i. rw (b, d) (ok.1 i))
  writer_same s s' (loaded values q) a b c d ok =
      (omega arith, omega arith, λ i. rw (b, d) (ok.2 i))
  writer_same s s' (writing values q k) a b c d ok =
      (omega arith, omega arith, λ i. rw (b, d) (ok.2 i))

  store-overlay :
      (k : ℕ) (values old cells : ℕ → V) (i : ℕ)
      → k < written_fields
      → cells i ≡ overlay k values old i
      → store cells (field_of k) (values (field_of k)) i ≡ overlay (suc k) values old i
  store-overlay k values old cells i h e = elim (Bool-cases (i == field_of k)) [
    | inl same ↦
        let at : i ≡ field_of k = ground arith in
        rw (is_written-suc k i h, same) (ap values (sym at))
    | inr other ↦ rw (is_written-suc k i h, other) e
  ]

  load_field_lem :
      (s : Slot V) (s₁ k : ℕ) (got : ℕ → V)
      → ReaderOk s (reading s₁ k got)
      → ReaderOk s (reading s₁ (suc k) (store got k (s.cells k)))
  load_field_lem s s₁ k got ok = (
    ok.0,
    λ e p i b. elim (Bool-cases (i == k)) [
      | inl same ↦ let at : i ≡ k = ground arith in rw same (ap s.cells (sym at))
      | inr other ↦ let before : i < k = ground arith in rw other (ok.1 e p i before)
    ],
  )

  SlotStep-Inv : (s s' : Slot V) → SlotStep s s' → s.writes < 2 ^ 62 → Inv s → Inv s'
  SlotStep-Inv s s' (load_seq values p e) few v =
      let t : Slot V = record s { writer = loaded values ((s.seq + 1) % 2 ^ 64) } in
      let (even, same) = subst (WriterOk s) p v.writer_ok in
      rw e (record {
        writer_ok = (even, omega arith, same);
        reader_ok = reader_same s t s.reader refl refl v.reader_ok;
      })
  SlotStep-Inv s s' (mark_updating values q p e) few v =
      let t : Slot V = record s { seq = q / 2 * 2 + 1; writer = writing values q 0 } in
      let (even, local, same) = subst (WriterOk s) p v.writer_ok in
      rw e (record {
        writer_ok = (omega arith, omega arith, λ i. rw (is_written-zero i) (same i));
        reader_ok = reader_later s t s.reader (omega arith) v.reader_ok;
      })
  SlotStep-Inv s s' (store_field values q k p h e) few v =
      let t : Slot V = record s {
        cells = store s.cells (field_of k) (values (field_of k));
        writer = writing values q (suc k);
      } in
      let (odd, local, same) = subst (WriterOk s) p v.writer_ok in
      rw e (record {
        writer_ok = (odd, local, λ i. store-overlay k values s.published s.cells i h (same i));
        reader_ok = reader_odd s t s.reader refl (omega arith) v.reader_ok;
      })
  SlotStep-Inv s s' (mark_stable values q p e) few v =
      let t : Slot V = record s {
        seq = (q + 1) % 2 ^ 64 / 2 * 2;
        writer = Writer.resting;
        writes = s.writes + 1;
        published = overlay written_fields values s.published;
      } in
      let (odd, local, same) = subst (WriterOk s) p v.writer_ok in
      rw e (record {
        writer_ok = (omega arith, same);
        reader_ok = reader_later s t s.reader (omega arith) v.reader_ok;
      })
  SlotStep-Inv s s' (load_first e) few v =
      let t : Slot V = record s { reader = reading s.seq 0 s.cells } in
      rw e (record {
        writer_ok = writer_same s t s.writer refl refl refl refl v.writer_ok;
        reader_ok = (omega arith, λ p q i b. absurd (omega arith));
      })
  SlotStep-Inv s s' (load_field s₁ k got p h e) few v =
      let t : Slot V = record s { reader = reading s₁ (suc k) (store got k (s.cells k)) } in
      rw e (record {
        writer_ok = writer_same s t s.writer refl refl refl refl v.writer_ok;
        reader_ok = load_field_lem s s₁ k got (subst (ReaderOk s) p v.reader_ok);
      })

  SlotStep-writes : (s s' : Slot V) → SlotStep s s' → s.writes ≤ s'.writes
  SlotStep-writes s s' (load_seq values p e) = rw e (omega arith)
  SlotStep-writes s s' (mark_updating values q p e) = rw e (omega arith)
  SlotStep-writes s s' (store_field values q k p h e) = rw e (omega arith)
  SlotStep-writes s s' (mark_stable values q p e) = rw e (omega arith)
  SlotStep-writes s s' (load_first e) = rw e (omega arith)
  SlotStep-writes s s' (load_field s₁ k got p h e) = rw e (omega arith)

  SlotReach-Inv : {s t : Slot V} → Inv s → SlotReach s t → t.writes < 2 ^ 62 → Inv t
  SlotReach-Inv v here few = v
  SlotReach-Inv v (next {t = m} {u = u} r st) few =
      let before : m.writes < 2 ^ 62 = omega (arith, SlotStep-writes m u st) in
      SlotStep-Inv m u st before (SlotReach-Inv v r before)

  new_slot-Inv : (zeroed : V) → Inv (new_slot zeroed)
  new_slot-Inv zeroed = record { writer_ok = (refl, λ i. refl); reader_ok = tt }

  even_published :
      (s : Slot V) (w : Writer V)
      → WriterOk s w
      → s.seq % 2 ≡ 0
      → (i : ℕ) → s.cells i ≡ s.published i
  even_published s Writer.resting ok even = ok.1
  even_published s (loaded values q) ok even = ok.2
  even_published s (writing values q k) ok even = absurd (omega arith)

  -- From a new slot, under every interleaving of the writer and the reader with fewer than 2^62
  -- updates: what `read_snapshot` returns is, in each of its fields, what the complete updates
  -- have published; never a mixture with an update that is under way.
  pub no_torn_read :
      (zeroed : V) {s : Slot V} (got : ℕ → V) (i : ℕ)
      → SlotReach (new_slot zeroed) s
      → s.writes < 2 ^ 62
      → Returns s got
      → i < read_fields
      → got i ≡ s.published i
  no_torn_read zeroed {s} got i path few (s₁, at, unchanged, even) inside =
      let v = SlotReach-Inv (new_slot-Inv zeroed) path few in
      let ok = subst (ReaderOk s) at v.reader_ok in
      let even' : s.seq % 2 ≡ 0 = omega arith in
      ok.1 unchanged even i inside ∙ even_published s s.writer v.writer_ok even' i
