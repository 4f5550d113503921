-- ===== src/Prelude/Decimal.antt =====
-- Numbers as `format!` writes them, in bytes.
use trading_platform.Prelude.{
  ℕ, zero, suc, ◌+◌, ◌-◌, ◌*◌, ◌/◌, ◌%◌, ◌^◌, ◌<◌, ◌≡◌, refl, sym, ap, ◌∙◌, inl, inr, List, [], ◌∷◌,
  ◌++◌, arith, ltb, if◌then◌else◌, Bool-cases,
}

-- The text of a number, in bytes; numbers have 20 digits at most.
unfoldable pub decimal : ℕ → ℕ → List ℕ
decimal zero n = (48 + n % 10) ∷ []
decimal (suc most) n =
    let rest = decimal most (n / 10) in
    if ltb n 10 then (48 + n) ∷ [] else rest ++ (48 + n % 10) ∷ []

abbrev pub digits_value : ℕ → List ℕ → ℕ
digits_value n [] = n
digits_value n (c ∷ cs) = digits_value (10 * n + (c - 48)) cs

digits_value-append :
    (n : ℕ) (xs : List ℕ) (c : ℕ)
    → digits_value n (xs ++ c ∷ []) ≡ 10 * digits_value n xs + (c - 48)
digits_value-append n [] c = refl
digits_value-append n (x ∷ xs) c = digits_value-append (10 * n + (x - 48)) xs c

pub value-decimal : (most n : ℕ) → n < 10 ^ suc most → digits_value 0 (decimal most n) ≡ n
unfolding decimal
value-decimal zero n h = omega arith
value-decimal (suc most) n h =
    let v = digits_value-append 0 (decimal most (n / 10)) (48 + n % 10) in
    elim (Bool-cases (ltb n 10)) [
      | inl small ↦ rw small (omega arith)
      | inr large ↦ rw large (omega (arith, v, value-decimal most (n / 10) (omega arith)))
    ]

pub decimal_injective :
    (most m n : ℕ) → m < 10 ^ suc most → n < 10 ^ suc most → decimal most m ≡ decimal most n → m ≡ n
decimal_injective most m n h k e =
    sym (value-decimal most m h) ∙ (ap (digits_value 0) e ∙ value-decimal most n k)

-- Bytes that are digits or a minus sign.
abbrev pub IsNumber : List ℕ → Type 0
IsNumber [] = Unit
IsNumber (c ∷ cs) = (c < 58) × IsNumber cs

pub IsNumber-append : (xs ys : List ℕ) → IsNumber xs → IsNumber ys → IsNumber (xs ++ ys)
IsNumber-append [] ys h k = k
IsNumber-append (x ∷ xs) ys h k = (h.0, IsNumber-append xs ys h.1 k)

pub decimal-IsNumber : (most n : ℕ) → IsNumber (decimal most n)
unfolding decimal
decimal-IsNumber zero n = (omega arith, tt)
decimal-IsNumber (suc most) n = elim (Bool-cases (ltb n 10)) [
  | inl small ↦ rw small (ground arith, tt)
  | inr large ↦ rw large (
      IsNumber-append (decimal most (n / 10)) ((48 + n % 10) ∷ []) (decimal-IsNumber most (n / 10))
        (omega arith, tt))
]
