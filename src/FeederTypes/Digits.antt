-- ===== src/FeederTypes/Digits.antt =====
-- What is read from the text of a number.
use trading_platform.Prelude.{
  ℕ, zero, suc, ◌+◌, ◌-◌, ◌*◌, ◌^◌, ◌≤◌, ◌<◌, ◌≡◌, refl, ◌∙◌, ap, some, List, [], ◌∷◌, ◌++◌, arith,
  length, take, replicate, length-append, length-replicate, length-take,
}
use trading_platform.Prelude.Int.{in_i64, pos, sub_ℕ, ◌+ℤ◌, ◌*ℤ◌}
use trading_platform.FeederTypes.{
  code_0, code_dot, code_minus, read_digits, parse_i64, split_dot, fit, integer_of, scale_parts,
  ten_pow, parse_to_scaled,
}

abbrev pub AllDigits : List ℕ → Type 0
AllDigits [] = Unit
AllDigits (c ∷ cs) = (code_0 ≤ c) × (c ≤ 57) × AllDigits cs

-- The number that digits stand for, after the number of those before them.
abbrev pub value_from : ℕ → List ℕ → ℕ
value_from n [] = n
value_from n (c ∷ cs) = value_from (10 * n + (c - code_0)) cs

abbrev pub value : List ℕ → ℕ
value cs = value_from 0 cs

read_digits-value : (n : ℕ) (cs : List ℕ) → AllDigits cs → read_digits n cs ≡ some (value_from n cs)
read_digits-value n [] a = refl
read_digits-value n (c ∷ cs) (h, k, a) =
    ground (arith, h, k, read_digits-value (10 * n + (c - code_0)) cs a)

parse_digits :
    (c : ℕ) (cs : List ℕ) → AllDigits (c ∷ cs) → parse_i64 (c ∷ cs) ≡ in_i64 (pos (value (c ∷ cs)))
unfolding parse_i64
parse_digits c cs (h, k, a) = ground (arith, h, k, read_digits-value 0 (c ∷ cs) (h, k, a))

parse_negative :
    (c : ℕ) (cs : List ℕ)
    → AllDigits (c ∷ cs)
    → parse_i64 (code_minus ∷ c ∷ cs) ≡ in_i64 (sub_ℕ 0 (value (c ∷ cs)))
unfolding parse_i64
parse_negative c cs a = rw (read_digits-value 0 (c ∷ cs) a) refl

split_dot-none : (cs : List ℕ) → AllDigits cs → split_dot cs ≡ (cs, [])
split_dot-none [] a = refl
split_dot-none (c ∷ cs) (h, k, a) = ground (arith, h, k, split_dot-none cs a)

split_dot-one :
    (xs ys : List ℕ) → AllDigits xs → AllDigits ys → split_dot (xs ++ code_dot ∷ ys) ≡ (xs, ys ∷ [])
split_dot-one [] ys a b = rw (split_dot-none ys b) refl
split_dot-one (c ∷ xs) ys (h, k, a) b = ground (arith, h, k, split_dot-one xs ys a b)

pub AllDigits-append : (xs ys : List ℕ) → AllDigits xs → AllDigits ys → AllDigits (xs ++ ys)
AllDigits-append [] ys a b = b
AllDigits-append (x ∷ xs) ys (h, k, a) b = (h, k, AllDigits-append xs ys a b)

AllDigits-take : (n : ℕ) (xs : List ℕ) → AllDigits xs → AllDigits (take n xs)
AllDigits-take zero xs a = tt
AllDigits-take (suc n) [] a = tt
AllDigits-take (suc n) (x ∷ xs) (h, k, a) = (h, k, AllDigits-take n xs a)

AllDigits-zeros : (n : ℕ) → AllDigits (replicate n code_0)
AllDigits-zeros zero = tt
AllDigits-zeros (suc n) = (omega arith, omega arith, AllDigits-zeros n)

AllDigits-fit : (p : ℕ) (ys : List ℕ) → AllDigits ys → AllDigits (fit p ys)
AllDigits-fit p ys a = ground (
  arith,
  a,
  AllDigits-take p ys a,
  AllDigits-append ys (replicate (p - length ys) code_0) a (AllDigits-zeros (p - length ys)),
)

mul_pos : (a b : ℕ) → (pos a *ℤ pos b) ≡ pos (a * b)
unfolding ◌*ℤ◌
mul_pos a b = ground arith

add_pos : (a b : ℕ) → (pos a +ℤ pos b) ≡ pos (a + b)
unfolding ◌+ℤ◌
add_pos a b = ground arith

mul_negative : (a b : ℕ) → (sub_ℕ 0 a *ℤ pos b) ≡ sub_ℕ 0 (a * b)
unfolding ◌*ℤ◌
mul_negative zero b = ground arith
mul_negative (suc a) b = ground arith

add_negative : (a b : ℕ) → (sub_ℕ 0 a +ℤ pos b) ≡ sub_ℕ b a
unfolding ◌+ℤ◌
add_negative a b = ground arith

pow_pos : (p : ℕ) → 1 ≤ 10 ^ p
pow_pos zero = omega arith
pow_pos (suc p) = omega (arith, pow_pos p)

le_mul : (a m : ℕ) → 1 ≤ m → a ≤ a * m
le_mul a zero h = absurd (omega arith)
le_mul a (suc m) h = omega arith

in_i64-pos : (n : ℕ) → n < 2 ^ 63 → in_i64 (pos n) ≡ some (pos n)
in_i64-pos n h = ground (arith, h)

in_i64-negative : (n : ℕ) → n < 2 ^ 63 → in_i64 (sub_ℕ 0 n) ≡ some (sub_ℕ 0 n)
in_i64-negative zero h = ground (arith, h)
in_i64-negative (suc n) h = ground (arith, h)

in_i64-sub : (a b : ℕ) → a < 2 ^ 63 → b < 2 ^ 63 → in_i64 (sub_ℕ a b) ≡ some (sub_ℕ a b)
in_i64-sub a b h k = ground (arith, h, k)

length-fit : (p : ℕ) (ys : List ℕ) → length (fit p ys) ≡ p
length-fit p ys =
    let a = length-append ys (replicate (p - length ys) code_0) in
    let b = length-replicate (p - length ys) code_0 in
    let c = length-take p ys in ground (arith, a, b, c)

parse_nonempty :
    (cs : List ℕ)
    → 1 ≤ length cs
    → AllDigits cs
    → value cs < 2 ^ 63
    → parse_i64 cs ≡ some (pos (value cs))
parse_nonempty [] h a b = absurd (omega arith)
parse_nonempty (c ∷ cs) h a b = parse_digits c cs a ∙ in_i64-pos (value (c ∷ cs)) b

integer_of-nonempty : (cs : List ℕ) → 1 ≤ length cs → integer_of cs ≡ parse_i64 cs
unfolding integer_of
integer_of-nonempty [] h = absurd (omega arith)
integer_of-nonempty (c ∷ cs) h = refl

ten_pow-small : (p : ℕ) → p ≤ 18 → ten_pow p ≡ some (10 ^ p)
unfolding ten_pow
ten_pow-small p h = ground (arith, h)

-- The text of an integer part, a dot and decimals, with a precision of one to 18, is read as the
-- integer part scaled by the precision plus the decimals, padded or cut to it, if that fits an i64.
pub parse_to_scaled_lem :
    (xs ys : List ℕ) (p : ℕ)
    → AllDigits xs
    → AllDigits ys
    → 1 ≤ length xs
    → 1 ≤ p
    → p ≤ 18
    → value xs * 10 ^ p + value (fit p ys) < 2 ^ 63
    → parse_to_scaled (xs ++ code_dot ∷ ys) p
      ≡ some (some (pos (value xs * 10 ^ p + value (fit p ys))))
unfolding parse_to_scaled scale_parts
parse_to_scaled_lem xs ys p a b h k top l =
    let m = le_mul (value xs) (10 ^ p) (pow_pos p) in
    ap (λ s. scale_parts s.0 s.1 p) (split_dot-one xs ys a b)
    ∙ rw
        (
          integer_of-nonempty xs h,
          parse_nonempty xs h a (omega arith),
          parse_nonempty (fit p ys) (omega (arith, length-fit p ys)) (AllDigits-fit p ys b)
              (omega arith),
          ten_pow-small p top,
          mul_pos (value xs) (10 ^ p),
          in_i64-pos (value xs * 10 ^ p) (omega arith),
          add_pos (value xs * 10 ^ p) (value (fit p ys)),
        )
        (ap some (in_i64-pos (value xs * 10 ^ p + value (fit p ys)) l))

-- In the text of a negative number with decimals, the decimals count upwards: what is read is their
-- value less that of the integer part, where the text means less the sum of the two.
pub negative_text_lem :
    (xs ys : List ℕ) (p : ℕ)
    → AllDigits xs
    → AllDigits ys
    → 1 ≤ length xs
    → 1 ≤ p
    → p ≤ 18
    → value xs * 10 ^ p + value (fit p ys) < 2 ^ 63
    → parse_to_scaled (code_minus ∷ (xs ++ code_dot ∷ ys)) p
      ≡ some (some (sub_ℕ (value (fit p ys)) (value xs * 10 ^ p)))
unfolding parse_to_scaled scale_parts integer_of
negative_text_lem [] ys p a b h k top l = absurd (omega arith)
negative_text_lem (c ∷ cs) ys p a b h k top l =
    let xs : List ℕ = c ∷ cs in
    let m = le_mul (value xs) (10 ^ p) (pow_pos p) in
    let e : split_dot (code_minus ∷ (xs ++ code_dot ∷ ys)) ≡ (code_minus ∷ xs, ys ∷ []) =
      ap (λ s. (code_minus ∷ s.0, s.1)) (split_dot-one xs ys a b) in
    ap (λ s. scale_parts s.0 s.1 p) e
    ∙ rw
        (
          parse_negative c cs a,
          in_i64-negative (value xs) (omega arith),
          parse_nonempty (fit p ys) (omega (arith, length-fit p ys)) (AllDigits-fit p ys b)
              (omega arith),
          ten_pow-small p top,
          mul_negative (value xs) (10 ^ p),
          in_i64-negative (value xs * 10 ^ p) (omega arith),
          add_negative (value xs * 10 ^ p) (value (fit p ys)),
        )
        (ap some (in_i64-sub (value (fit p ys)) (value xs * 10 ^ p) (omega arith) (omega arith)))
