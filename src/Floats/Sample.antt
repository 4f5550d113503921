-- ===== src/Floats/Sample.antt =====
-- A value of the float operations for runs on concrete data: whole numbers.
use trading_platform.Prelude.{◌+◌, ◌/◌, not, if◌then◌else◌}
use trading_platform.Prelude.Int.{
  ℤ, pos, negsuc, pos_part, neg_part, sub_ℕ, ◌+ℤ◌, ◌-ℤ◌, ◌*ℤ◌, ltb_ℤ, eqb_ℤ,
}
use trading_platform.Floats.{Floats}

abbrev pub neg_ℤ : ℤ → ℤ
neg_ℤ a = sub_ℕ (neg_part a) (pos_part a)

abbrev pub abs_ℤ : ℤ → ℤ
abs_ℤ a = pos (pos_part a + neg_part a)

-- `signum` of IEEE 754 numbers: that of 0.0 is 1.0.
abbrev pub sign_ℤ : ℤ → ℤ
sign_ℤ (pos n) = pos 1
sign_ℤ (negsuc n) = negsuc 0

abbrev div_ℤ : ℤ → ℤ → ℤ
div_ℤ (pos a) b = if ltb_ℤ b (pos 0) then neg_ℤ (pos (a / neg_part b)) else pos (a / pos_part b)
div_ℤ (negsuc a) b =
    if ltb_ℤ b (pos 0) then pos ((a + 1) / neg_part b) else neg_ℤ (pos ((a + 1) / pos_part b))

abbrev pub whole : Floats
whole = record {
  F = ℤ;
  literal = pos;
  epsilon = pos 1;
  add = ◌+ℤ◌;
  sub = ◌-ℤ◌;
  mul = ◌*ℤ◌;
  div = div_ℤ;
  neg = neg_ℤ;
  abs = abs_ℤ;
  signum = sign_ℤ;
  fmax = λ a b. if ltb_ℤ a b then b else a;
  fmin = λ a b. if ltb_ℤ a b then a else b;
  lt = ltb_ℤ;
  le = λ a b. not (ltb_ℤ b a);
  eq = eqb_ℤ;
  as_i64 = λ a. a;
  of_i64 = λ a. a;
}
