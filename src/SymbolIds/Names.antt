-- ===== src/SymbolIds/Names.antt =====
-- The numbers of names are their own and stay.
use Prim.Native.String.{String}
use trading_platform.Prelude.{
  ℕ, zero, suc, ◌≡◌, inl, inr, refl, sym, subst, none, some, List, [], ◌∷◌, ◌++◌, append-nil, arith,
  length, get_elem?, Bool-cases, Option-cases,
}
use trading_platform.Prelude.Dict.{lookup, insert, lookup-insert, string_eq}
use trading_platform.SymbolIds.{SymbolMapper, add_name, add_symbol, get_symbol_id, get_symbol_name}

-- Each entry of the map stands in the list under its number.
abbrev pub IsListed : List (String × ℕ) → List String → Type 0
IsListed [] names = Unit
IsListed ((name, id) ∷ ids) names = (get_elem? names id ≡ some name) × IsListed ids names

get_elem?-append_left :
    (xs ys : List String) (i : ℕ) {x : String}
    → get_elem? xs i ≡ some x
    → get_elem? (xs ++ ys) i ≡ some x
get_elem?-append_left [] ys i h = absurd (ground (arith, h))
get_elem?-append_left (z ∷ xs) ys zero h = h
get_elem?-append_left (z ∷ xs) ys (suc i) h = get_elem?-append_left xs ys i h

get_elem?-last : (xs : List String) (x : String) → get_elem? (xs ++ x ∷ []) (length xs) ≡ some x
get_elem?-last [] x = refl
get_elem?-last (z ∷ xs) x = get_elem?-last xs x

IsListed-append :
    (ids : List (String × ℕ)) (names more : List String)
    → IsListed ids names
    → IsListed ids (names ++ more)
IsListed-append [] names more a = tt
IsListed-append ((name, id) ∷ ids) names more (h, a) =
    (get_elem?-append_left names more id h, IsListed-append ids names more a)

IsListed-insert :
    (name : String) (id : ℕ) (ids : List (String × ℕ)) (names : List String)
    → get_elem? names id ≡ some name
    → IsListed ids names
    → IsListed (insert name id ids) names
unfolding insert
IsListed-insert name id [] names h a = (h, tt)
IsListed-insert name id ((other, i) ∷ ids) names h (k, a) =
    elim (Bool-cases (string_eq.beq other name)) [
      | inl e ↦ rw e (h, a)
      | inr e ↦ rw e (k, IsListed-insert name id ids names h a)
    ]

lookup-IsListed :
    (name : String) (ids : List (String × ℕ)) (names : List String) {id : ℕ}
    → IsListed ids names
    → lookup name ids ≡ some id
    → get_elem? names id ≡ some name
unfolding lookup
lookup-IsListed name [] names a h = absurd (ground (arith, h))
lookup-IsListed name ((other, i) ∷ ids) names {id = id} (k, a) h =
    elim (Bool-cases (string_eq.beq other name)) [
      | inl e ↦
          let n : other ≡ name = (string_eq.beq_iff other name).0 e in
          let j : i ≡ id = ground (arith, h, e) in
          subst (λ s. get_elem? names id ≡ some s) n
            (subst (λ r. get_elem? names r ≡ some other) j k)
      | inr e ↦ lookup-IsListed name ids names {id = id} a (ground (arith, h, e))
    ]

-- What adding a name does.
Added : String → List (String × ℕ) → List String → (List (String × ℕ) × List String) × ℕ → Type 0
Added name ids names ((ids', names'), id) =
    IsListed ids' names'
    × (lookup name ids' ≡ some id)
    × (get_elem? names' id ≡ some name)
    × ((more : List String) × (names' ≡ names ++ more))

add_name-known :
    (name : String) (ids : List (String × ℕ)) (names : List String) (id : ℕ)
    → lookup name ids ≡ some id
    → add_name name ids names ≡ ((ids, names), id)
unfolding add_name
add_name-known name ids names id e = ground (arith, e)

add_name-new :
    (name : String) (ids : List (String × ℕ)) (names : List String)
    → lookup name ids ≡ none
    → add_name name ids names ≡ ((insert name (length names) ids, names ++ name ∷ []), length names)
unfolding add_name
add_name-new name ids names e = ground (arith, e)

add_name-Added :
    (name : String) (ids : List (String × ℕ)) (names : List String)
    → IsListed ids names
    → Added name ids names (add_name name ids names)
unfolding Added
add_name-Added name ids names a = elim (Option-cases (lookup name ids)) [
  | inr (id, e) ↦
      rw (add_name-known name ids names id e)
        (a, e, lookup-IsListed name ids names {id = id} a e, ([], sym (append-nil names)))
  | inl e ↦
      let last = get_elem?-last names name in
      let i = lookup-insert name name (length names) ids in
      let q = (string_eq.beq_iff name name).1 refl in
      rw (add_name-new name ids names e) (
        IsListed-insert name (length names) ids (names ++ name ∷ []) last
            (IsListed-append ids names (name ∷ []) a),
        ground (arith, i, q),
        last,
        (name ∷ [], refl),
      )
]

module _ (to_lowercase to_uppercase : String → String) where
  -- Adding a symbol gives it, in upper case, a number that is its own, whether it was known or not;
  -- all names keep their numbers, and each known symbol is still listed under its own.
  pub add_symbol_lem :
      (name : String) (m : SymbolMapper)
      → IsListed m.symbol_to_id m.id_to_symbol
      → let result = add_symbol to_lowercase to_uppercase name m in
        IsListed result.0.symbol_to_id result.0.id_to_symbol
        × (get_symbol_id to_lowercase to_uppercase name result.0 ≡ some result.1)
        × (get_symbol_name result.1 result.0 ≡ some (to_uppercase name))
        × ((more : List String) × (result.0.id_to_symbol ≡ m.id_to_symbol ++ more))
        × (result.0.exchange_to_id ≡ m.exchange_to_id)
  unfolding add_symbol get_symbol_id get_symbol_name Added
  add_symbol_lem name m a =
      let (b, c, d, e) = add_name-Added (to_uppercase name) m.symbol_to_id m.id_to_symbol a in
      (b, c, d, e, refl)
