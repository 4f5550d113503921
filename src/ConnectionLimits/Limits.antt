-- ===== src/ConnectionLimits/Limits.antt =====
-- How long a refused connection waits.
use Prim.Native.String.{String}
use trading_platform.Prelude.{
  ℕ, ◌+◌, ◌-◌, ◌≤◌, ◌<◌, ◌≡◌, ◌⊎◌, inl, inr, refl, true, false, some, List, [], ◌∷◌, arith, ltb,
  length, Bool-cases,
}
use trading_platform.Prelude.Dict.{lookup, lookup-insert, string_eq}
use trading_platform.ConnectionLimits.{
  ConnectionAttemptTracker, retain_recent, can_attempt, time_until_next_attempt,
  RobustConnectionManager, go_ahead, wait_for, can_connect,
}
use trading_platform.ConnectionLimits.Rate.{length-retain_recent}

abbrev pub AllBefore : ℕ → List ℕ → Type 0
AllBefore now [] = Unit
AllBefore now (t ∷ ts) = (t ≤ now) × AllBefore now ts

retain_recent-head :
    (w now : ℕ) (xs : List ℕ) {x : ℕ} {ys : List ℕ}
    → AllBefore now xs
    → retain_recent w now xs ≡ x ∷ ys
    → (x ≤ now) × (now - x < w)
unfolding retain_recent
retain_recent-head w now [] a h = absurd (ground arith)
retain_recent-head w now (z ∷ xs) {x = x} {ys = ys} (k, a) h = elim (Bool-cases (ltb (now - z) w)) [
  | inl b ↦ let e : z ≡ x = ground (arith, h, b) in (ground (arith, k, e), ground (arith, b, e))
  | inr b ↦ retain_recent-head w now xs {x = x} {ys = ys} a (ground (arith, h, b))
]

-- After the time that the oldest attempt has left, it is no longer counted.
wait_over :
    (w now x : ℕ) (ys : List ℕ)
    → x ≤ now
    → now - x < w
    → length (retain_recent w (now + (w - (now - x))) (x ∷ ys)) ≤ length ys
unfolding retain_recent
wait_over w now x ys h k =
    let l = length-retain_recent w (now + (w - (now - x))) ys in
    let e : ltb (now + (w - (now - x)) - x) w ≡ false = ground (arith, h, k) in rw e l

List-cases : (xs : List ℕ) → (xs ≡ []) ⊎ ((x : ℕ) × (ys : List ℕ) × (xs ≡ x ∷ ys))
List-cases [] = inl refl
List-cases (x ∷ xs) = inr (x, xs, refl)

-- A tracker that is within its limit and refuses an attempt says how long to wait, and after that
-- allows one.
refused_then_allowed :
    (now : ℕ) (t : ConnectionAttemptTracker)
    → AllBefore now t.attempts
    → 1 ≤ t.limits.max_attempts_per_window
    → length t.attempts ≤ t.limits.max_attempts_per_window
    → (can_attempt now t).1 ≡ false
    → (d : ℕ) × (time_until_next_attempt now (can_attempt now t).0 ≡ some d)
      × ((can_attempt (now + d) (can_attempt now t).0).1 ≡ true)
unfolding can_attempt time_until_next_attempt
refused_then_allowed now t a h k r =
    let w : ℕ = t.limits.connection_attempt_window in
    elim (List-cases (retain_recent w now t.attempts)) [
      | inl e ↦ absurd (ground (arith, e, r, h))
      | inr (x, ys, e) ↦
          let (b, c) = retain_recent-head w now t.attempts {x = x} {ys = ys} a e in
          let l = length-retain_recent w now t.attempts in
          let full : ltb (length (retain_recent w now t.attempts)) t.limits.max_attempts_per_window
              ≡ false =
            r in
          let over = wait_over w now x ys b c in
          (w - (now - x), ground (arith, e, r, c), ground (arith, e, over, l, k))
    ]

-- The manager keeps the tracker that it has asked.
can_connect-lookup :
    (now : ℕ) (venue : String) (m : RobustConnectionManager) (t : ConnectionAttemptTracker)
    → lookup venue m.attempt_trackers ≡ some t
    → lookup venue (can_connect now venue m).0.attempt_trackers ≡ some (can_attempt now t).0
unfolding can_connect
can_connect-lookup now venue m t h =
    let i = lookup-insert venue venue (can_attempt now t).0 m.attempt_trackers in
    let q = (string_eq.beq_iff venue venue).1 refl in ground (arith, h, i, q)

can_connect-refused :
    (now : ℕ) (venue : String) (m : RobustConnectionManager) (t : ConnectionAttemptTracker) (d : ℕ)
    → lookup venue m.attempt_trackers ≡ some t
    → (can_attempt now t).1 ≡ false
    → time_until_next_attempt now (can_attempt now t).0 ≡ some d
    → (can_connect now venue m).1 ≡ wait_for d
unfolding can_connect
can_connect-refused now venue m t d h f e = ground (arith, h, f, e)

can_connect-allowed :
    (now : ℕ) (venue : String) (m : RobustConnectionManager) (t : ConnectionAttemptTracker)
    → lookup venue m.attempt_trackers ≡ some t
    → (can_attempt now t).1 ≡ true
    → (can_connect now venue m).1 ≡ go_ahead
unfolding can_connect
can_connect-allowed now venue m t h f = ground (arith, h, f)

-- For an exchange whose tracker holds past attempts within its limit, a connection is allowed at
-- once, or it is after the time that the refusal says.
pub refused_connection_waits :
    (now : ℕ) (venue : String) (m : RobustConnectionManager) (t : ConnectionAttemptTracker)
    → lookup venue m.attempt_trackers ≡ some t
    → AllBefore now t.attempts
    → 1 ≤ t.limits.max_attempts_per_window
    → length t.attempts ≤ t.limits.max_attempts_per_window
    → ((can_connect now venue m).1 ≡ go_ahead)
      ⊎ ((d : ℕ) × ((can_connect now venue m).1 ≡ wait_for d)
          × ((can_connect (now + d) venue (can_connect now venue m).0).1 ≡ go_ahead))
refused_connection_waits now venue m t h a k l = elim (Bool-cases (can_attempt now t).1) [
  | inl f ↦ inl (can_connect-allowed now venue m t h f)
  | inr f ↦
      let (d, e, g) = refused_then_allowed now t a k l f in
      inr (
        d,
        can_connect-refused now venue m t d h f e,
        can_connect-allowed (now + d) venue (can_connect now venue m).0 (can_attempt now t).0
            (can_connect-lookup now venue m t h) g,
      )
]
