-- ===== src/Synchronizer/Ready.antt =====
-- What a synchronization needs, and what it does when it has it.
use trading_platform.Prelude.{
  ℕ, ◌≤◌, ◌<◌, ◌≡◌, ◌⊎◌, ◌↔◌, Option, none, ==_iff, inl, inr, refl, ap, true, ◌&&◌, some, List, [],
  ◌∷◌, arith, ltb, leb, Bool-cases, Option-cases,
}
use trading_platform.Synchronizer.{
  BinanceSnapshot, Event, Synchronizer, SyncError, SyncResult, synced, failed, retain_newer,
  follows, check_events, synchronize,
}

SyncResult-cases :
    {A : Type 0} (r : SyncResult A)
    → ((a : A) × (r ≡ synced a)) ⊎ ((e : SyncError) × (r ≡ failed e))
SyncResult-cases (synced a) = inl (a, refl)
SyncResult-cases (failed e) = inr (e, refl)

List-cases {ℓ} : {A : Type ℓ} (xs : List A) → (xs ≡ []) ⊎ ((x : A) × (ys : List A) × (xs ≡ x ∷ ys))
List-cases [] = inl refl
List-cases (x ∷ xs) = inr (x, xs, refl)

-- A `pu`, if there is one, is this number.
abbrev pub Names : Option ℕ → ℕ → Type 0
Names none prev = Unit {0}
Names (some pu) prev = pu ≡ prev

module _ {Value : Type 0} where
  -- Each event that has a `pu` has the last number of the event before it there. Of an event that
  -- has none, nothing is asked.
  abbrev pub IsChain : ℕ → List (Event Value) → Type 0
  IsChain prev [] = Unit
  IsChain prev (e ∷ es) = Names e.prev_update_id prev × IsChain e.final_update_id es

  pub follows_iff :
      (prev : ℕ) (e : Event Value) → (follows prev e ≡ true) ↔ Names e.prev_update_id prev
  follows_iff prev e = elim (Option-cases e.prev_update_id) [
    | inl gone ↦ rw (gone, follows) ((λ h. tt), (λ n. refl))
    | inr (pu, here) ↦ rw (here, follows) (==_iff pu prev)
  ]

  abbrev pub last_number : ℕ → List (Event Value) → ℕ
  last_number prev [] = prev
  last_number prev (e ∷ es) = last_number e.final_update_id es

  abbrev pub bodies : List (Event Value) → List Value
  bodies [] = []
  bodies (e ∷ es) = e.content ∷ bodies es

  check_events-IsChain :
      (prev : ℕ) (es : List (Event Value))
      → IsChain prev es
      → check_events prev es ≡ synced (bodies es, last_number prev es)
  unfolding check_events
  check_events-IsChain prev [] c = refl
  check_events-IsChain prev (e ∷ es) (n, c) =
      let h = (follows_iff prev e).1 n in
      ground (arith, h, check_events-IsChain e.final_update_id es c)

  check_events-synced :
      (prev : ℕ) (es : List (Event Value)) (r : List Value × ℕ)
      → check_events prev es ≡ synced r
      → IsChain prev es
  unfolding check_events
  check_events-synced prev [] r h = tt
  check_events-synced prev (e ∷ es) r h = elim (Bool-cases (follows prev e)) [
    | inr f ↦ absurd (ground (arith, h, f))
    | inl f ↦ elim (SyncResult-cases (check_events e.final_update_id es)) [
      | inl (q, k) ↦ ((follows_iff prev e).0 f, check_events-synced e.final_update_id es q k)
      | inr (x, k) ↦ absurd (ground (arith, h, f, k))
    ]
  ]

  retain_newer-gt :
      (last : ℕ) (xs : List (Event Value)) {first : Event Value} {es : List (Event Value)}
      → retain_newer last xs ≡ first ∷ es
      → last < first.final_update_id
  retain_newer-gt last [] h = absurd (ground arith)
  retain_newer-gt last (x ∷ xs) {first = first} {es = es} h =
      elim (Bool-cases (ltb last x.final_update_id)) [
        | inl b ↦
            let e : x.final_update_id ≡ first.final_update_id = ground (arith, h, b) in
            ground (arith, b, e)
        | inr b ↦ retain_newer-gt last xs {first = first} {es = es} (ground (arith, h, b))
      ]

  pub synchronize-synced :
      (s : Synchronizer Value) (snapshot : BinanceSnapshot) (first : Event Value)
      (es : List (Event Value))
      → s.snapshot ≡ some snapshot
      → retain_newer snapshot.last_update_id s.event_buffer ≡ first ∷ es
      → first.first_update_id ≤ snapshot.last_update_id
      → IsChain snapshot.last_update_id (first ∷ es)
      → synchronize s ≡ (
        record s {
          event_buffer = [];
          is_synchronized = true;
          last_validated_update_id = last_number snapshot.last_update_id (first ∷ es);
        },
        synced (bodies (first ∷ es)),
      )
  unfolding synchronize
  synchronize-synced s snapshot first es h k u c =
      let g = retain_newer-gt snapshot.last_update_id s.event_buffer k in
      let a : (leb first.first_update_id snapshot.last_update_id
            && leb snapshot.last_update_id first.final_update_id)
          ≡ true =
        ground (arith, u, g) in
      rw (h, synchronize, k, a, check_events-IsChain snapshot.last_update_id (first ∷ es) c)
        (ap
          (λ x. (
            record s {
              snapshot = x;
              event_buffer = [];
              is_synchronized = true;
              last_validated_update_id = last_number first.final_update_id es;
            },
            synced (bodies (first ∷ es)),
          ))
          h)

  -- What a synchronization needs: a snapshot, and newer events of which the first overlaps it and
  -- which are a chain from its number on.
  pub record IsReady (s : Synchronizer Value) : Type 0 where
    pub taken : BinanceSnapshot
    pub first : Event Value
    pub others : List (Event Value)
    pub has_snapshot : s.snapshot ≡ some taken
    pub newer : retain_newer taken.last_update_id s.event_buffer ≡ first ∷ others
    pub overlaps : first.first_update_id ≤ taken.last_update_id
    pub chained : IsChain taken.last_update_id (first ∷ others)

  pub synced-IsReady :
      (s : Synchronizer Value) (values : List Value) → (synchronize s).1 ≡ synced values → IsReady s
  unfolding synchronize
  synced-IsReady s values h = elim (Option-cases s.snapshot) [
    | inl e ↦ absurd (ground (arith, h, e))
    | inr (snapshot, e) ↦ elim (List-cases (retain_newer snapshot.last_update_id s.event_buffer)) [
      | inl k ↦ absurd (ground (arith, h, e, k))
      | inr (first, es, k) ↦
          elim (SyncResult-cases (check_events snapshot.last_update_id (first ∷ es))) [
            | inl (r, c) ↦ record {
              taken = snapshot;
              first = first;
              others = es;
              has_snapshot = e;
              newer = k;
              overlaps = ground (arith, h, e, k, c);
              chained = check_events-synced snapshot.last_update_id (first ∷ es) r c;
            }
            | inr (x, c) ↦ absurd (ground (arith, h, e, k, c))
          ]
    ]
  ]
