-- ===== src/ConnectionManager/Ids.antt =====
-- The ids of connections: each count gives other ids.
use trading_platform.Prelude.{
  ℕ, suc, ◌^◌, ◌<◌, ◌≡◌, refl, sym, ◌∙◌, [], ◌∷◌, ◌++◌, append_assoc, arith,
}
use trading_platform.Prelude.Int.{ℤ, pos, negsuc}
use trading_platform.Prelude.Decimal.{decimal, decimal_injective, IsNumber, decimal-IsNumber}
use trading_platform.Prelude.Bytes.{Text}
use trading_platform.ConnectionManager.{underscore, signed, connection_id_of}

signed-IsNumber : (t : ℤ) → IsNumber (signed t)
unfolding signed
signed-IsNumber (pos n) = decimal-IsNumber 19 n
signed-IsNumber (negsuc n) = (omega arith, decimal-IsNumber 19 (suc n))

no_underscore : (ds ys es : Text) → IsNumber ds → ds ≡ ys ++ underscore ∷ es → ⊥
no_underscore [] [] es h e = cc
no_underscore [] (y ∷ ys) es h e = cc
no_underscore (d ∷ ds) [] es h e = let p : d ≡ underscore = cc in omega (arith, p, h.0)
no_underscore (d ∷ ds) (y ∷ ys) es h e =
    let p : ds ≡ ys ++ underscore ∷ es = cc in no_underscore ds ys es h.1 p

-- A text with a number after its last underscore determines both parts.
last_part :
    (xs ys ds es : Text)
    → IsNumber ds
    → IsNumber es
    → xs ++ underscore ∷ ds ≡ ys ++ underscore ∷ es
    → (xs ≡ ys) × (ds ≡ es)
last_part [] [] ds es h k e = (refl, cc)
last_part [] (y ∷ ys) ds es h k e =
    let p : ds ≡ ys ++ underscore ∷ es = cc in absurd (no_underscore ds ys es h p)
last_part (x ∷ xs) [] ds es h k e =
    let p : es ≡ xs ++ underscore ∷ ds = cc in absurd (no_underscore es xs ds k p)
last_part (x ∷ xs) (y ∷ ys) ds es h k e =
    let tails : xs ++ underscore ∷ ds ≡ ys ++ underscore ∷ es = cc in
    let heads : x ≡ y = cc in
    let (p, q) = last_part xs ys ds es h k tails in (rw (heads, p) refl, q)

id-split :
    (asset stream : Text) (count : ℕ) (t : ℤ)
    → connection_id_of asset stream count t
      ≡ ((asset ++ underscore ∷ stream) ++ underscore ∷ decimal 19 count) ++ underscore ∷ signed t
unfolding connection_id_of
id-split asset stream count t = sym (
    append_assoc (asset ++ underscore ∷ stream) (underscore ∷ decimal 19 count)
      (underscore ∷ signed t))

-- Equal ids have the same count.
pub count_of_id :
    (asset stream asset' stream' : Text) (count count' : ℕ) (t t' : ℤ)
    → count < 2 ^ 32
    → count' < 2 ^ 32
    → connection_id_of asset stream count t ≡ connection_id_of asset' stream' count' t'
    → count ≡ count'
count_of_id asset stream asset' stream' count count' t t' h k e =
    let front : Text = (asset ++ underscore ∷ stream) ++ underscore ∷ decimal 19 count in
    let front' : Text = (asset' ++ underscore ∷ stream') ++ underscore ∷ decimal 19 count' in
    let (p, q) =
      last_part front front' (signed t) (signed t') (signed-IsNumber t) (signed-IsNumber t')
        (sym (id-split asset stream count t) ∙ (e ∙ id-split asset' stream' count' t')) in
    let (r, s) =
      last_part (asset ++ underscore ∷ stream) (asset' ++ underscore ∷ stream') (decimal 19 count)
        (decimal 19 count') (decimal-IsNumber 19 count) (decimal-IsNumber 19 count') p in
    decimal_injective 19 count count' (omega arith) (omega arith) s
