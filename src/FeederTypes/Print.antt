-- ===== src/FeederTypes/Print.antt =====
-- Numbers printed with a fixed number of digits, and read back.
use trading_platform.Prelude.{
  ℕ, zero, suc, ◌+◌, ◌-◌, ◌*◌, ◌/◌, ◌%◌, ◌^◌, ◌≤◌, ◌<◌, ◌≡◌, refl, ◌∙◌, ap, some, List, [], ◌∷◌,
  ◌++◌, arith, length, length-append,
}
use trading_platform.Prelude.Int.{pos}
use trading_platform.FeederTypes.{code_0, code_dot, fit, parse_to_scaled}
use trading_platform.FeederTypes.Digits.{
  AllDigits, AllDigits-append, value_from, value, parse_to_scaled_lem,
}

unfoldable pub print : ℕ → ℕ → List ℕ
print zero n = []
print (suc w) n = print w (n / 10) ++ (code_0 + n % 10) ∷ []

print-AllDigits : (w n : ℕ) → AllDigits (print w n)
unfolding print
print-AllDigits zero n = tt
print-AllDigits (suc w) n =
    AllDigits-append (print w (n / 10)) ((code_0 + n % 10) ∷ []) (print-AllDigits w (n / 10))
      (omega arith, omega arith, tt)

length-print : (w n : ℕ) → length (print w n) ≡ w
unfolding print
length-print zero n = refl
length-print (suc w) n =
    omega
      (arith, length-append (print w (n / 10)) ((code_0 + n % 10) ∷ []), length-print w (n / 10))

value_from-append :
    (n : ℕ) (xs : List ℕ) (c : ℕ)
    → value_from n (xs ++ c ∷ []) ≡ 10 * value_from n xs + (c - code_0)
value_from-append n [] c = refl
value_from-append n (x ∷ xs) c = value_from-append (10 * n + (x - code_0)) xs c

value-print : (w n : ℕ) → n < 10 ^ w → value (print w n) ≡ n
unfolding print
value-print zero n h = omega arith
value-print (suc w) n h = omega (
  arith,
  value_from-append 0 (print w (n / 10)) (code_0 + n % 10),
  value-print w (n / 10) (omega arith),
)

fit-exact : (p : ℕ) (ys : List ℕ) → length ys ≡ p → fit p ys ≡ ys
fit-exact p ys h = ground (arith, h)

-- A number that is not negative and fits an i64, printed with a dot and its decimals to the full
-- precision, of one to 18 digits, is read back.
pub print-parse_to_scaled :
    (w p whole decimals : ℕ)
    → 1 ≤ w
    → 1 ≤ p
    → p ≤ 18
    → whole < 10 ^ w
    → decimals < 10 ^ p
    → whole * 10 ^ p + decimals < 2 ^ 63
    → parse_to_scaled (print w whole ++ code_dot ∷ print p decimals) p
      ≡ some (some (pos (whole * 10 ^ p + decimals)))
print-parse_to_scaled w p whole decimals h k top i j l =
    let f = fit-exact p (print p decimals) (length-print p decimals) in
    let v = value-print w whole i in
    let d : value (fit p (print p decimals)) ≡ decimals = ap value f ∙ value-print p decimals j in
    let e : value (print w whole) * 10 ^ p + value (fit p (print p decimals))
        ≡ whole * 10 ^ p + decimals =
      rw (v, d) refl in
    parse_to_scaled_lem (print w whole) (print p decimals) p (print-AllDigits w whole)
      (print-AllDigits p decimals) (omega (arith, length-print w whole)) k top (omega (arith, e, l))
    ∙ ap (λ n. some (some (pos n))) e
