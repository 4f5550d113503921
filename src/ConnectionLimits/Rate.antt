-- ===== src/ConnectionLimits/Rate.antt =====
-- Attempts that are made only when they are allowed keep to the limit in each window of time.
use trading_platform.Prelude.{
  ℕ, ◌≤◌, ◌<◌, ◌≡◌, inl, inr, refl, sym, ◌∙◌, ap, Bool, List, [], ◌∷◌, ◌++◌, append_assoc,
  append-nil, arith, ltb, if◌then◌else◌, length, length-append, Bool-cases,
}
use trading_platform.ConnectionLimits.{
  ConnectionAttemptTracker, ExchangeConnectionLimits, new_tracker, retain_recent, can_attempt,
  record_attempt,
}

retain_recent-append :
    (w now : ℕ) (xs ys : List ℕ)
    → retain_recent w now (xs ++ ys) ≡ retain_recent w now xs ++ retain_recent w now ys
unfolding retain_recent
retain_recent-append w now [] ys = refl
retain_recent-append w now (x ∷ xs) ys = ground (arith, retain_recent-append w now xs ys)

-- What is recent later was recent before.
retain_recent-later :
    (w now later : ℕ) (xs : List ℕ)
    → now ≤ later
    → retain_recent w later (retain_recent w now xs) ≡ retain_recent w later xs
unfolding retain_recent
retain_recent-later w now later [] h = refl
retain_recent-later w now later (x ∷ xs) h = ground (arith, h, retain_recent-later w now later xs h)

pub length-retain_recent : (w now : ℕ) (xs : List ℕ) → length (retain_recent w now xs) ≤ length xs
unfolding retain_recent
length-retain_recent w now [] = omega arith
length-retain_recent w now (x ∷ xs) = ground (arith, length-retain_recent w now xs)

-- An attempt at a time, recorded if it is allowed.
unfoldable pub try_attempt : ℕ → ConnectionAttemptTracker → ConnectionAttemptTracker × Bool
unfolding can_attempt record_attempt
try_attempt now t =
    let (t', fine) = can_attempt now t in (if fine then record_attempt now t' else t', fine)

-- Attempts at several times, and the times of those that were allowed.
unfoldable pub attempt_all : List ℕ → ConnectionAttemptTracker → ConnectionAttemptTracker × List ℕ
unfolding try_attempt
attempt_all [] t = (t, [])
attempt_all (now ∷ times) t =
    let (t', fine) = try_attempt now t in
    let (u, allowed) = attempt_all times t' in (u, if fine then now ∷ allowed else allowed)

-- The times do not go back, from a first one on.
abbrev pub IsRising : ℕ → List ℕ → Type 0
IsRising start [] = Unit
IsRising start (t ∷ ts) = (start ≤ t) × IsRising t ts

abbrev pub last_time : ℕ → List ℕ → ℕ
last_time start [] = start
last_time start (t ∷ ts) = last_time t ts

last_time-ge : (start : ℕ) (ts : List ℕ) → IsRising start ts → start ≤ last_time start ts
last_time-ge start [] r = omega arith
last_time-ge start (t ∷ ts) (h, r) = omega (arith, h, last_time-ge t ts r)

module _ (limits : ExchangeConnectionLimits) where
  abbrev recent : ℕ → List ℕ → List ℕ
  unfolding retain_recent
  recent now ts = retain_recent limits.connection_attempt_window now ts

  abbrev tracker : List ℕ → ConnectionAttemptTracker
  tracker attempts = record { attempts = attempts; limits = limits }

  -- The tracker knows of all past attempts that may still be recent, and is within the limit.
  abbrev Tracks : ℕ → List ℕ → List ℕ → Type 0
  Tracks from past attempts =
      ((now : ℕ) → from ≤ now → recent now past ≡ recent now attempts)
      × (length attempts ≤ limits.max_attempts_per_window)

  Tracks-later :
      (from now : ℕ) (past attempts : List ℕ)
      → from ≤ now
      → Tracks from past attempts
      → Tracks now past (recent now attempts)
  unfolding recent
  Tracks-later from now past attempts h (e, l) = (
    (λ later k.
        e later (omega arith)
        ∙ sym (retain_recent-later limits.connection_attempt_window now later attempts k)),
    omega (arith, length-retain_recent limits.connection_attempt_window now attempts),
  )

  Tracks-record :
      (now : ℕ) (past attempts : List ℕ)
      → length attempts < limits.max_attempts_per_window
      → Tracks now past attempts
      → Tracks now (past ++ now ∷ []) (attempts ++ now ∷ [])
  unfolding recent
  Tracks-record now past attempts h (e, l) =
      let w : ℕ = limits.connection_attempt_window in
      (
        (λ later k.
            retain_recent-append w later past (now ∷ [])
            ∙ ap (λ r. r ++ retain_recent w later (now ∷ [])) (e later k)
            ∙ sym (retain_recent-append w later attempts (now ∷ []))),
        omega (arith, length-append attempts (now ∷ [])),
      )

  attempt_all-limit :
      (times : List ℕ) (from : ℕ) (past attempts : List ℕ) (now : ℕ)
      → IsRising from times
      → Tracks from past attempts
      → last_time from times ≤ now
      → length (recent now (past ++ (attempt_all times (tracker attempts)).1))
        ≤ limits.max_attempts_per_window
  unfolding attempt_all try_attempt can_attempt record_attempt recent
  attempt_all-limit [] from past attempts now r (e, l) h =
      rw (append-nil past, e now h)
        (omega (arith, length-retain_recent limits.connection_attempt_window now attempts))
  attempt_all-limit (t ∷ ts) from past attempts now (k, r) a h =
      let kept : List ℕ = retain_recent limits.connection_attempt_window t attempts in
      let b = Tracks-later from t past attempts k a in
      elim (Bool-cases (ltb (length kept) limits.max_attempts_per_window)) [
        | inl f ↦
            let c = Tracks-record t past kept (ground arith) b in
            rw (f, sym (append_assoc past (t ∷ []) (attempt_all ts (tracker (kept ++ t ∷ []))).1))
              (attempt_all-limit ts t (past ++ t ∷ []) (kept ++ t ∷ []) now r c h)
        | inr f ↦ rw f (attempt_all-limit ts t past kept now r b h)
      ]

  -- Of attempts that are made only when allowed, at times that do not go back, never more than the
  -- limit lie within one window, looked at from the last attempt on.
  pub rate_limit :
      (times : List ℕ) (from now : ℕ)
      → IsRising from times
      → last_time from times ≤ now
      → length (
          retain_recent limits.connection_attempt_window now
            (attempt_all times (new_tracker limits)).1)
        ≤ limits.max_attempts_per_window
  unfolding new_tracker recent
  rate_limit times from now r h =
      attempt_all-limit times from [] [] now r ((λ later k. refl), omega arith) h
