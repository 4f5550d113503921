-- ===== src/EnhancedPacket/Rescale.antt =====
-- How far a rescaled number is from the exact one.
use trading_platform.Prelude.{
  ℕ, zero, suc, ◌+◌, ◌-◌, ◌*◌, ◌/◌, ◌^◌, ◌≤◌, ◌<◌, ◌≡◌, refl, sym, ap, ◌∙◌, inl, inr, some, arith,
  ltb, leb, Bool-cases, ltb→lt,
}
use trading_platform.Prelude.Int.{in_i64, ℤ, pos, negsuc, pos_part, neg_part, sub_ℕ}
use trading_platform.Packet.{scale_up, scale_down}
use trading_platform.UdpProtocol.Header.{FitsI64}
use trading_platform.EnhancedPacket.{rescale}

pow_pos : (k : ℕ) → 0 < 10 ^ k
pow_pos zero = omega arith
pow_pos (suc k) = grind (arith, pow_pos k)

-- `r` is `v` times ten to the power of `scale - precision`, rounded down.
abbrev pub IsRounded : ℕ → ℕ → ℕ → ℕ → Type 0
IsRounded precision scale v r =
    (r * 10 ^ (precision - scale) ≤ v * 10 ^ (scale - precision))
    × (v * 10 ^ (scale - precision) < r * 10 ^ (precision - scale) + 10 ^ (precision - scale))

IsRounded-up : (p s v r : ℕ) → p ≤ s → r ≡ v * 10 ^ (s - p) → IsRounded p s v r
IsRounded-up p s v r h e =
    let z : p - s ≡ 0 = omega arith in rw z (grind (arith, e), grind (arith, e))

div_bounds : (v m : ℕ) → 0 < m → (v / m * m ≤ v) × (v < v / m * m + m)
div_bounds v m h = grind arith

IsRounded-down : (p s v r : ℕ) → s ≤ p → r ≡ v / 10 ^ (p - s) → IsRounded p s v r
IsRounded-down p s v r h e =
    let z : s - p ≡ 0 = omega arith in
    let d = div_bounds v (10 ^ (p - s)) (pow_pos (p - s)) in
    rw (z, e) (grind (arith, d.0), grind (arith, d.1))

neg_of_sub : (k : ℕ) → (pos_part (sub_ℕ 0 k) ≡ 0) × (neg_part (sub_ℕ 0 k) ≡ k)
neg_of_sub zero = (refl, refl)
neg_of_sub (suc k) = (ground arith, ground arith)

up_parts :
    (v : ℤ) (m : ℕ)
    → (pos_part (scale_up v m) ≡ pos_part v * m) × (neg_part (scale_up v m) ≡ neg_part v * m)
up_parts (pos n) m = (refl, omega arith)
up_parts (negsuc n) m = let s = neg_of_sub ((n + 1) * m) in (grind (arith, s.0), grind (arith, s.1))

down_parts :
    (v : ℤ) (m : ℕ)
    → 0 < m
    → (pos_part (scale_down v m) ≡ pos_part v / m) × (neg_part (scale_down v m) ≡ neg_part v / m)
down_parts (pos n) m h = (refl, grind arith)
down_parts (negsuc n) m h =
    let s = neg_of_sub ((n + 1) / m) in (grind (arith, s.0), grind (arith, s.1))

fits_parts : (z : ℤ) → pos_part z < 2 ^ 63 → neg_part z ≤ 2 ^ 63 → FitsI64 z
fits_parts (pos n) h k = h
fits_parts (negsuc n) h k = omega arith

parts_fit : (z : ℤ) → FitsI64 z → (pos_part z < 2 ^ 63) × (neg_part z ≤ 2 ^ 63)
parts_fit (pos n) h = (h, omega arith)
parts_fit (negsuc n) h = (omega arith, omega arith)

in_i64-some : (z r : ℤ) → in_i64 z ≡ some r → (z ≡ r) × FitsI64 r
in_i64-some (pos n) r h = elim (Bool-cases (ltb n (2 ^ 63))) [
  | inl fits ↦ let e : pos n ≡ r = cc (rw fits at h) in (e, rw (← e) (ltb→lt n (2 ^ 63) fits))
  | inr large ↦ absurd (cc (rw large at h))
]
in_i64-some (negsuc n) r h = elim (Bool-cases (ltb n (2 ^ 63))) [
  | inl fits ↦ let e : negsuc n ≡ r = cc (rw fits at h) in (e, rw (← e) (ltb→lt n (2 ^ 63) fits))
  | inr large ↦ absurd (cc (rw large at h))
]

abbrev IsExact : ℕ → ℕ → ℤ → ℤ → Type 0
IsExact p s v r =
    FitsI64 r × IsRounded p s (pos_part v) (pos_part r) × IsRounded p s (neg_part v) (neg_part r)

up-IsExact :
    (v r : ℤ) (p s : ℕ) → p ≤ s → in_i64 (scale_up v (10 ^ (s - p))) ≡ some r → IsExact p s v r
up-IsExact v r p s h e =
    let (same, fits) = in_i64-some (scale_up v (10 ^ (s - p))) r e in
    let (a, b) = up_parts v (10 ^ (s - p)) in
    (
      fits,
      IsRounded-up p s (pos_part v) (pos_part r) h (ap pos_part (sym same) ∙ a),
      IsRounded-up p s (neg_part v) (neg_part r) h (ap neg_part (sym same) ∙ b),
    )

div-le : (v m : ℕ) → 0 < m → v / m ≤ v
div-le v m h = grind (arith, (div_bounds v m h).0)

down-IsExact : (v : ℤ) (p s : ℕ) → s ≤ p → FitsI64 v → IsExact p s v (scale_down v (10 ^ (p - s)))
down-IsExact v p s h fits =
    let (a, b) = down_parts v (10 ^ (p - s)) (pow_pos (p - s)) in
    let (f, g) = parts_fit v fits in
    let x = div-le (pos_part v) (10 ^ (p - s)) (pow_pos (p - s)) in
    let y = div-le (neg_part v) (10 ^ (p - s)) (pow_pos (p - s)) in
    (
      fits_parts (scale_down v (10 ^ (p - s))) (omega (arith, a, f, x)) (omega (arith, b, g, y)),
      IsRounded-down p s (pos_part v) (pos_part (scale_down v (10 ^ (p - s)))) h a,
      IsRounded-down p s (neg_part v) (neg_part (scale_down v (10 ^ (p - s)))) h b,
    )

same-IsExact : (v : ℤ) (p : ℕ) → FitsI64 v → IsExact p p v v
same-IsExact v p fits =
    let z : p - p ≡ 0 = omega arith in
    (fits, rw z (omega arith, omega arith), rw z (omega arith, omega arith))

-- A rescaled i64 is an i64, and each of its parts, the positive and the negative, is that of the
-- exact number rounded down: less than one unit of the target below it, and never above.
pub rescale_bounds :
    (v r : ℤ) (precision scale : ℕ)
    → FitsI64 v
    → rescale v precision scale ≡ some r
    → FitsI64 r
      × IsRounded precision scale (pos_part v) (pos_part r)
      × IsRounded precision scale (neg_part v) (neg_part r)
unfolding rescale
rescale_bounds v r p s fits e = elim (Bool-cases (ltb p s)) [
  | inl up ↦ elim (Bool-cases (leb (s - p) 18)) [
    | inl room ↦ up-IsExact v r p s (ground arith) (rw (up, room) at e)
    | inr panics ↦ absurd (cc (rw (up, panics) at e))
  ]
  | inr not_up ↦ elim (Bool-cases (ltb s p)) [
    | inl down ↦ elim (Bool-cases (leb (p - s) 18)) [
      | inl room ↦
          let same : scale_down v (10 ^ (p - s)) ≡ r = cc (rw (not_up, down, room) at e) in
          rw (← same) (down-IsExact v p s (ground arith) fits)
      | inr panics ↦ absurd (cc (rw (not_up, down, panics) at e))
    ]
    | inr neither ↦
        let level : p ≡ s = ground arith in
        let same : v ≡ r = cc (rw (not_up, neither) at e) in
        rw (← same, ← level) (same-IsExact v p fits)
  ]
]
