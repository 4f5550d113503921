-- ===== src/Processor/Batch.antt =====
-- `process_ring_batched` against the queue of updates that the ring holds.
use trading_platform.Prelude.{
  ℕ, suc, ◌+◌, ◌≤◌, ◌<◌, min, ◌≡◌, refl, ap, fun_ext, ◌∙◌, Option, none, some, List, [], ◌∷◌, ◌++◌,
  arith, ◌==◌, lt→ltb, le→ltb, if◌then◌else◌, ◌>>=◌, map_some, length, take, drop, ne→==,
  length-take, length-append, take-all, drop-all,
}
use trading_platform.HftBook.{FastOrderBook, FastUpdate}
use trading_platform.RingBuffer.{RingBuffer, pop}
use trading_platform.RingBuffer.Refine.{IsRing, contents, pop_refines, dequeue}
use trading_platform.Processor.{
  max_symbols, Slots, collect, apply_slots, apply_to_books, BatchResult, process_ring_batched,
}

-- Every update is for a symbol that has a book.
abbrev pub AllKnown : List FastUpdate → Type 0
AllKnown [] = Unit {0}
AllKnown (u ∷ us) = (u.symbol_id < max_symbols) × AllKnown us

-- The reference: the updates applied one after the other.
unfoldable pub apply_all : List FastUpdate → List FastOrderBook → Option (List FastOrderBook)
apply_all [] books = some books
apply_all (u ∷ us) books = apply_to_books books u >>= apply_all us

-- `pop` read off the contents.
pop-nil :
    (r : RingBuffer FastUpdate)
    → IsRing r
    → contents r ≡ []
    → IsRing (pop r).0 × (contents (pop r).0 ≡ []) × ((pop r).1 ≡ none)
unfolding dequeue
pop-nil r v e =
    let (k, h) = pop_refines r v in
    (k, ap (λ p. p.0) (h ∙ ap dequeue e), ap (λ p. p.1) (h ∙ ap dequeue e))

pop-cons :
    (r : RingBuffer FastUpdate) (u : FastUpdate) (us : List FastUpdate)
    → IsRing r
    → contents r ≡ u ∷ us
    → IsRing (pop r).0 × (contents (pop r).0 ≡ us) × ((pop r).1 ≡ some u)
unfolding dequeue
pop-cons r u us v e =
    let (k, h) = pop_refines r v in
    (k, ap (λ p. p.0) (h ∙ ap dequeue e), ap (λ p. p.1) (h ∙ ap dequeue e))

-- A full front of the buffer with these updates.
abbrev Holds : Slots → List FastUpdate → Type 0
Holds slots [] = Unit {0}
Holds [] (u ∷ us) = ⊥
Holds (s ∷ slots) (u ∷ us) = (s ≡ some u) × Holds slots us

abbrev Collected :
    RingBuffer FastUpdate × Slots × ℕ → List FastUpdate → List FastUpdate → ℕ → Type 0
Collected c front rest n = IsRing (c.0) × (contents (c.0) ≡ rest) × Holds (c.1) front × (c.2 ≡ n)

collect_lem :
    (slots : Slots) (r : RingBuffer FastUpdate) (us : List FastUpdate) (n : ℕ)
    → IsRing r
    → contents r ≡ us
    → AllKnown us
    → Collected
        (collect r slots n)
        (take (length slots) us)
        (drop (length slots) us)
        (n + min (length slots) (length us))
unfolding collect
collect_lem [] r us n v e k = (v, e, tt, omega arith)
collect_lem (s ∷ slots) r [] n v e k =
    let (v', c, p) = pop-nil r v e in rw (p, collect) (v', c, tt, omega arith)
collect_lem (s ∷ slots) r (u ∷ us) n v e k =
    let (v', c, p) = pop-cons r u us v e in
    let (w, rest, h, m) = collect_lem slots (pop r).0 us (n + 1) v' c k.1 in
    rw (p, collect, lt→ltb u.symbol_id max_symbols k.0) (w, rest, (refl, h), omega arith)

apply_slots-Holds :
    (slots : Slots) (us : List FastUpdate) (books : List FastOrderBook)
    → Holds slots us
    → apply_slots (length us) slots books ≡ apply_all us books
unfolding apply_slots apply_all
apply_slots-Holds slots [] books h = refl
apply_slots-Holds [] (u ∷ us) books h = absurd h
apply_slots-Holds (s ∷ slots) (u ∷ us) books h = rw h.0 (
    ap (λ (f : List FastOrderBook → Option (List FastOrderBook)). apply_to_books books u >>= f)
      (fun_ext λ b. apply_slots-Holds slots us b h.1))

-- Steps 2 and 3 of the batch, over slots that hold these updates.
apply_batch : RingBuffer FastUpdate → Slots → ℕ → List FastOrderBook → Option BatchResult
apply_batch ring batch n books =
    if n == 0
    then some (record { ring = ring; batch = batch; books = books; processed = 0 })
    else (apply_slots n batch books >>= λ books'.
        some (record { ring = ring; batch = batch; books = books'; processed = n }))

abbrev pub result : RingBuffer FastUpdate → Slots → ℕ → List FastOrderBook → BatchResult
result ring batch n books = record { ring = ring; batch = batch; books = books; processed = n }

apply_batch_lem :
    (ring : RingBuffer FastUpdate) (slots : Slots) (us : List FastUpdate)
    (books : List FastOrderBook)
    → Holds slots us
    → apply_batch ring slots (length us) books
      ≡ map_some (result ring slots (length us)) (apply_all us books)
unfolding apply_batch apply_all
apply_batch_lem ring slots [] books h = refl
apply_batch_lem ring slots (u ∷ us) books h =
    rw (ne→== (suc (length us)) 0 (omega arith), apply_slots-Holds slots (u ∷ us) books h)
      (ground arith)

-- The batch, in terms of what collecting gives.
pub process_ring_batched_at :
    (ring : RingBuffer FastUpdate) (books : List FastOrderBook) (batch : Slots)
    → IsRing ring
    → AllKnown (contents ring)
    → IsRing (collect ring batch 0).0
      × (contents (collect ring batch 0).0 ≡ drop (length batch) (contents ring))
      × (process_ring_batched ring books batch
          ≡ map_some
              (result
                (collect ring batch 0).0
                (collect ring batch 0).1
                (min (length batch) (length (contents ring))))
              (apply_all (take (length batch) (contents ring)) books))
unfolding process_ring_batched apply_batch
process_ring_batched_at ring books batch v k =
    let (v', rest, h, n) = collect_lem batch ring (contents ring) 0 v refl k in
    let front = take (length batch) (contents ring) in
    let counted : (collect ring batch 0).2 ≡ length front =
      omega (arith, length-take (length batch) (contents ring)) in
    let total : min (length batch) (length (contents ring)) ≡ length front =
      omega (arith, length-take (length batch) (contents ring)) in
    (v', rest, rw (counted, total) (apply_batch_lem _ _ front books h))

-- If every waiting update is for a symbol that has a book, a batch takes as many as the buffer has
-- slots off the front of the ring, applies them in order, and reports their number. It fails only
-- where applying them one after the other does.
pub process_ring_batched_lem :
    (ring : RingBuffer FastUpdate) (books : List FastOrderBook) (batch : Slots)
    → IsRing ring
    → AllKnown (contents ring)
    → (ring' : RingBuffer FastUpdate) × (batch' : Slots) × IsRing ring'
      × (contents ring' ≡ drop (length batch) (contents ring))
      × (process_ring_batched ring books batch
          ≡ map_some
              (result ring' batch' (min (length batch) (length (contents ring))))
              (apply_all (take (length batch) (contents ring)) books))
process_ring_batched_lem ring books batch v k =
    let (v', rest, e) = process_ring_batched_at ring books batch v k in
    ((collect ring batch 0).0, (collect ring batch 0).1, v', rest, e)

Holds-prefix : (slots : Slots) (us vs : List FastUpdate) → Holds slots (us ++ vs) → Holds slots us
Holds-prefix slots [] vs h = tt
Holds-prefix [] (u ∷ us) vs h = h
Holds-prefix (s ∷ slots) (u ∷ us) vs h = (h.0, Holds-prefix slots us vs h.1)

-- A slot whose update is for an unknown symbol stays empty and is not counted.
collect_unknown :
    (r : RingBuffer FastUpdate) (slot : Option FastUpdate) (slots : Slots) (n : ℕ) (u : FastUpdate)
    → (pop r).1 ≡ some u
    → max_symbols ≤ u.symbol_id
    → collect r (slot ∷ slots) n ≡ (let c = collect (pop r).0 slots n in (c.0, none ∷ c.1, c.2))
unfolding collect
collect_unknown r slot slots n u e h = rw (e, collect, le→ltb u.symbol_id max_symbols h)

-- An update for an unknown symbol costs a good one its place: with one at the front of the ring, a
-- batch that takes all waiting updates off the ring never applies the last of them.
pub unknown_symbol_loses_last :
    (ring : RingBuffer FastUpdate) (books : List FastOrderBook) (slot : Option FastUpdate)
    (batch : Slots) (bad last : FastUpdate) (us : List FastUpdate)
    → IsRing ring
    → contents ring ≡ bad ∷ (us ++ last ∷ [])
    → max_symbols ≤ bad.symbol_id
    → AllKnown (us ++ last ∷ [])
    → length (us ++ last ∷ []) ≤ length batch
    → (ring' : RingBuffer FastUpdate) × (batch' : Slots) × (contents ring' ≡ [])
      × (process_ring_batched ring books (slot ∷ batch)
          ≡ map_some (result ring' batch' (length us + 1)) (apply_all us books))
unfolding process_ring_batched apply_batch apply_slots
unknown_symbol_loses_last ring books slot batch bad last us v e wrong k room =
    let all = us ++ last ∷ [] in
    let (v₁, c₁, p₁) = pop-cons ring bad all v e in
    let (v', rest, h, n) = collect_lem batch (pop ring).0 all 0 v₁ c₁ k in
    let c = collect (pop ring).0 batch 0 in
    let held : Holds c.1 all = rw (take-all (length batch) all room) at h in
    let one_short : c.2 ≡ suc (length us) = omega (arith, length-append us (last ∷ [])) in
    let total : length us + 1 ≡ suc (length us) = omega arith in
    (
      c.0,
      none ∷ c.1,
      rest ∙ drop-all (length batch) all room,
      rw
          (
            collect_unknown ring slot batch 0 bad p₁ wrong,
            one_short,
            total,
            ne→== (suc (length us)) 0 (omega arith),
            apply_slots-Holds c.1 us books (Holds-prefix c.1 us (last ∷ []) held),
          )
          (ground arith),
    )
