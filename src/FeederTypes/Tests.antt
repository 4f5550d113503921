-- ===== src/FeederTypes/Tests.antt =====
-- Numbers read from text, and instances of the theorems.
use trading_platform.Prelude.{◌+◌, ◌*◌, ◌^◌, ◌≡◌, refl, some, [], ◌∷◌, ◌++◌, arith}
use trading_platform.Prelude.Int.{pos, negsuc, ◌+ℤ◌, ◌*ℤ◌}
use trading_platform.FeederTypes.{
  code_dot, parse_i64, integer_of, scale_parts, ten_pow, parse_to_scaled,
}
use trading_platform.FeederTypes.Print.{print, print-parse_to_scaled}

-- "-0.5" is read as 0.5, and "-1.5" as -0.5.
half : parse_to_scaled (45 ∷ 48 ∷ 46 ∷ 53 ∷ []) 8 ≡ some (some (pos 50000000))
unfolding parse_to_scaled scale_parts parse_i64 integer_of ten_pow ◌+ℤ◌ ◌*ℤ◌
half = refl

one_and_a_half : parse_to_scaled (45 ∷ 49 ∷ 46 ∷ 53 ∷ []) 8 ≡ some (some (negsuc 49999999))
unfolding parse_to_scaled scale_parts parse_i64 integer_of ten_pow ◌+ℤ◌ ◌*ℤ◌
one_and_a_half = refl

print-parse_to_scaled_example :
    parse_to_scaled (print 5 95123 ++ code_dot ∷ print 2 45) 2
    ≡ some (some (pos (95123 * 10 ^ 2 + 45)))
print-parse_to_scaled_example =
    print-parse_to_scaled 5 2 95123 45 (omega arith) (omega arith) (omega arith) (omega arith)
      (omega arith) (omega arith)
