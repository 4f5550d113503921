-- ===== src/UdpSenders/Ordered.antt =====
-- The order in which a flush sends.
use mathlib.Core.List.{Perm}
use mathlib.Core.List.Perm
use trading_platform.Prelude.{
  ℕ, zero, suc, ◌-◌, ◌≤◌, ◌<◌, ◌≡◌, ◌⊎◌, inl, inr, refl, ap, subst, true, false, Option, none, some,
  List, [], ◌∷◌, ◌++◌, arith, leb, length, Bool-cases, Option-cases,
}
use trading_platform.UdpSenders.{
  TimestampedPacket, is_greater, keep_greater, pop_greatest, flush_from, flush,
}

abbrev pub AllAtMost : ℕ → List TimestampedPacket → Type 0
AllAtMost t [] = Unit
AllAtMost t (p ∷ ps) = (p.timestamp ≤ t) × AllAtMost t ps

-- The latest packet first.
abbrev pub IsLatestFirst : List TimestampedPacket → Type 0
IsLatestFirst [] = Unit
IsLatestFirst (p ∷ ps) = AllAtMost p.timestamp ps × IsLatestFirst ps

-- No packet of the first list is earlier than one of the second.
abbrev pub NoneLater : List TimestampedPacket → List TimestampedPacket → Type 0
NoneLater [] left = Unit
NoneLater (p ∷ ps) left = AllAtMost p.timestamp left × NoneLater ps left

AllAtMost-weaken : (s t : ℕ) (ps : List TimestampedPacket) → s ≤ t → AllAtMost s ps → AllAtMost t ps
AllAtMost-weaken s t [] h a = tt
AllAtMost-weaken s t (p ∷ ps) h (b, a) = (omega arith, AllAtMost-weaken s t ps h a)

-- What comes out is a greatest, and the others are left.
Pops : List TimestampedPacket → Option (TimestampedPacket × List TimestampedPacket) → Type 0
Pops ps none = ps ≡ []
Pops ps (some (q, qs)) =
    AllAtMost q.timestamp qs
    × (length ps ≡ suc (length qs))
    × Perm ps (q ∷ qs)
    × ((t : ℕ) → AllAtMost t ps → (q.timestamp ≤ t) × AllAtMost t qs)

keep_greater-Pops :
    (p : TimestampedPacket) (ps : List TimestampedPacket)
    (o : Option (TimestampedPacket × List TimestampedPacket))
    → Pops ps o
    → Pops (p ∷ ps) (keep_greater p o)
unfolding Pops
keep_greater-Pops p ps none e = (tt, ap (λ xs. suc (length xs)) e, rw e Perm.rfl, λ t a. (a.0, tt))
keep_greater-Pops p ps (some (q, qs)) (a, l, m, f) = elim (Bool-cases (is_greater q p)) [
  | inl g ↦ rw g (
    (ground (arith, g), a),
    ap suc l,
    Perm.trans (Perm.cons p m) (Perm.swap q p qs),
    λ t b. ((f t b.1).0, (b.0, (f t b.1).1)),
  )
  | inr g ↦
      let h : q.timestamp ≤ p.timestamp = ground (arith, g) in
      rw g (
        (h, AllAtMost-weaken q.timestamp p.timestamp qs h a),
        ap suc l,
        Perm.cons p m,
        λ t b. (b.0, ((f t b.1).0, (f t b.1).1)),
      )
]

pop_greatest-Pops : (ps : List TimestampedPacket) → Pops ps (pop_greatest ps)
unfolding pop_greatest Pops
pop_greatest-Pops [] = refl
pop_greatest-Pops (p ∷ ps) = keep_greater-Pops p ps (pop_greatest ps) (pop_greatest-Pops ps)

-- Why a flush has ended: the heap is empty, or its next packet is too recent.
abbrev pub IsDone : ℕ → ℕ → List TimestampedPacket → Type 0
IsDone window now left =
    (left ≡ [])
    ⊎ ((p : TimestampedPacket × List TimestampedPacket) × (pop_greatest left ≡ some p)
        × (now - p.0.created_at < window))

-- What holds of what a flush has sent and left.
abbrev Flushed :
    ℕ → ℕ → List TimestampedPacket → List TimestampedPacket × List TimestampedPacket → Type 0
Flushed window now heap (sent, left) =
    IsLatestFirst sent
    × NoneLater sent left
    × Perm heap (sent ++ left)
    × IsDone window now left
    × ((t : ℕ) → AllAtMost t heap → AllAtMost t sent × AllAtMost t left)

flush_from-empty :
    (fuel window now : ℕ) (heap : List TimestampedPacket)
    → pop_greatest heap ≡ none
    → flush_from (suc fuel) window now heap ≡ ([], heap)
unfolding flush_from
flush_from-empty fuel window now heap e = ground (arith, e)

flush_from-recent :
    (fuel window now : ℕ) (heap : List TimestampedPacket)
    (next : TimestampedPacket × List TimestampedPacket)
    → pop_greatest heap ≡ some next
    → leb window (now - next.0.created_at) ≡ false
    → flush_from (suc fuel) window now heap ≡ ([], heap)
unfolding flush_from
flush_from-recent fuel window now heap next e b = ground (arith, e, b)

flush_from-sends :
    (fuel window now : ℕ) (heap : List TimestampedPacket)
    (next : TimestampedPacket × List TimestampedPacket)
    → pop_greatest heap ≡ some next
    → leb window (now - next.0.created_at) ≡ true
    → flush_from (suc fuel) window now heap
      ≡ (next.0 ∷ (flush_from fuel window now next.1).0, (flush_from fuel window now next.1).1)
unfolding flush_from
flush_from-sends fuel window now heap next e b = ground (arith, e, b)

flush_from-Flushed :
    (fuel window now : ℕ) (heap : List TimestampedPacket)
    → length heap ≤ fuel
    → Flushed window now heap (flush_from fuel window now heap)
unfolding Pops flush_from
flush_from-Flushed zero window now [] h = (tt, tt, Perm.rfl, inl refl, λ t a. (tt, a))
flush_from-Flushed zero window now (p ∷ ps) h = absurd (omega arith)
flush_from-Flushed (suc fuel) window now heap h = elim (Option-cases (pop_greatest heap)) [
  | inl e ↦
      let empty : heap ≡ [] = subst (Pops heap) e (pop_greatest-Pops heap) in
      rw (flush_from-empty fuel window now heap e) (tt, tt, Perm.rfl, inl empty, λ t a. (tt, a))
  | inr ((p, rest), e) ↦
      let (a, l, m, f) = subst (Pops heap) e (pop_greatest-Pops heap) in
      let (d, n, s, w, g) = flush_from-Flushed fuel window now rest (omega (arith, l)) in
      elim (Bool-cases (leb window (now - p.created_at))) [
        | inl b ↦ rw (flush_from-sends fuel window now heap (p, rest) e b) (
          ((g p.timestamp a).0, d),
          ((g p.timestamp a).1, n),
          Perm.trans m (Perm.cons p s),
          w,
          λ t c. (((f t c).0, (g t (f t c).1).0), (g t (f t c).1).1),
        )
        | inr b ↦
            rw (flush_from-recent fuel window now heap (p, rest) e b)
              (tt, tt, Perm.rfl, inr ((p, rest), e, ground (arith, b)), λ t c. (tt, c))
      ]
]

-- A flush sends the packets with the latest time first, and none that is earlier than one that it
-- leaves; the packets that it sends and those that it leaves are the heap's, each as often as there;
-- and it goes on until the heap is empty or its next packet is too recent.
pub flush-IsLatestFirst :
    (window now : ℕ) (heap : List TimestampedPacket)
    → IsLatestFirst (flush window now heap).0
      × NoneLater (flush window now heap).0 (flush window now heap).1
      × Perm heap ((flush window now heap).0 ++ (flush window now heap).1)
      × IsDone window now (flush window now heap).1
unfolding flush
flush-IsLatestFirst window now heap =
    let (d, n, s, w, g) = flush_from-Flushed (length heap) window now heap (omega arith) in
    (d, n, s, w)
