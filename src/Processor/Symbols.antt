-- ===== src/Processor/Symbols.antt =====
-- The registry of symbols: ids are stable and distinct, and there are at most MAX_SYMBOLS.
use Prim.Native.String.{String}
use trading_platform.Prelude.{
  ℕ, zero, suc, ◌%◌, ◌^◌, ◌≤◌, ◌<◌, ◌≡◌, ◌≢◌, refl, sym, ◌∙◌, none, some, List, [], ◌∷◌, ◌++◌,
  arith, length, length-append, get_elem?, set, length-set, Option-cases, inl, inr, Bool-cases,
  length-replicate, ◌⊎◌, dec_lt,
}
use trading_platform.Prelude.Dict.{lookup, insert, lookup-insert, string_eq}
use trading_platform.HftBook.{put}
use trading_platform.HftBook.Arrays.{put-lt}
use trading_platform.Processor.{Registry, max_symbols, register_symbol, new_registry}

module _ {ℓ} {A : Type ℓ} where
  get_elem?-append_left :
      (xs ys : List A) (i : ℕ) {a : A} → get_elem? xs i ≡ some a → get_elem? (xs ++ ys) i ≡ some a
  get_elem?-append_left [] ys i h = ground arith
  get_elem?-append_left (x ∷ xs) ys zero h = h
  get_elem?-append_left (x ∷ xs) ys (suc i) h = get_elem?-append_left xs ys i h

  get_elem?-append_end : (xs : List A) (a : A) → get_elem? (xs ++ a ∷ []) (length xs) ≡ some a
  get_elem?-append_end [] a = refl
  get_elem?-append_end (x ∷ xs) a = get_elem?-append_end xs a

  put-none : (xs : List A) (i : ℕ) (v : A) → length xs ≤ i → put xs i v ≡ none
  put-none [] i v h = refl
  put-none (x ∷ xs) zero v h = absurd (omega arith)
  put-none (x ∷ xs) (suc i) v h = rw (put-none xs i v (omega arith))

-- Every registered symbol stands at its id, and there is a tick size for each possible id.
pub record IsRegistry {F : Type 0} (r : Registry F) : Type 0 where
  pub named :
      (s : String) (id : ℕ)
      → lookup s r.symbol_to_id ≡ some id
      → get_elem? r.id_to_symbol id ≡ some s
  pub bounded : length r.id_to_symbol ≤ max_symbols
  pub ticks : length r.tick_sizes ≡ max_symbols

pub new_registry-IsRegistry : {F : Type 0} (tick : F) → IsRegistry (new_registry tick)
unfolding new_registry lookup
new_registry-IsRegistry tick = record {
  named = λ s id h. ground arith;
  bounded = omega arith;
  ticks = length-replicate max_symbols tick;
}

-- Two symbols never share an id.
ids_distinct :
    {F : Type 0} (r : Registry F) (s t : String) (id : ℕ)
    → IsRegistry r
    → lookup s r.symbol_to_id ≡ some id
    → lookup t r.symbol_to_id ≡ some id
    → s ≡ t
ids_distinct r s t id v h k = ground (arith, v.named s id h, v.named t id k)

-- What a successful registration of `symbol` leaves.
pub record Registered {F : Type 0} (r r' : Registry F) (symbol : String) (id : ℕ) : Type 0 where
  pub valid : IsRegistry r'
  pub known : lookup symbol r'.symbol_to_id ≡ some id
  pub in_range : id < max_symbols
  pub others_kept : (t : String) → t ≢ symbol → lookup t r'.symbol_to_id ≡ lookup t r.symbol_to_id

module _ {F : Type 0} (r : Registry F) (symbol : String) (tick : F) (v : IsRegistry r) where
  get_elem?-bound :
      {A : Type 0} (xs : List A) (i : ℕ) {a : A} → get_elem? xs i ≡ some a → i < length xs
  get_elem?-bound [] i h = ground arith
  get_elem?-bound (x ∷ xs) zero h = omega arith
  get_elem?-bound (x ∷ xs) (suc i) h = omega (arith, get_elem?-bound xs i h)

  old_symbol : (id : ℕ) → lookup symbol r.symbol_to_id ≡ some id → Registered r r symbol id
  old_symbol id h = record {
    valid = v;
    known = h;
    in_range = omega (arith, get_elem?-bound r.id_to_symbol id (v.named symbol id h), v.bounded);
    others_kept = λ t ne. refl;
  }

  abbrev grown : Registry F
  grown = record r {
    symbol_to_id = insert symbol (length r.id_to_symbol) r.symbol_to_id;
    id_to_symbol = r.id_to_symbol ++ symbol ∷ [];
    tick_sizes = set r.tick_sizes (length r.id_to_symbol) tick;
  }

  named_grown :
      (s : String) (id : ℕ)
      → lookup s grown.symbol_to_id ≡ some id
      → get_elem? grown.id_to_symbol id ≡ some s
  named_grown s id h = elim (Bool-cases (string_eq.beq symbol s)) [
    | inl e ↦
        let k = rw (lookup-insert symbol s (length r.id_to_symbol) r.symbol_to_id, e) at h in
        let same : symbol ≡ s = (string_eq.beq_iff symbol s).0 e in
        let end : length r.id_to_symbol ≡ id = cc k in
        rw (← same, ← end) (get_elem?-append_end r.id_to_symbol symbol)
    | inr e ↦
        let k = rw (lookup-insert symbol s (length r.id_to_symbol) r.symbol_to_id, e) at h in
        get_elem?-append_left r.id_to_symbol (symbol ∷ []) id (v.named s id k)
  ]

  others_grown : (t : String) → t ≢ symbol → lookup t grown.symbol_to_id ≡ lookup t r.symbol_to_id
  others_grown t ne = elim (Bool-cases (string_eq.beq symbol t)) [
    | inl e ↦ absurd (ne (sym ((string_eq.beq_iff symbol t).0 e)))
    | inr e ↦ rw (lookup-insert symbol t (length r.id_to_symbol) r.symbol_to_id, e)
  ]

  new_symbol :
      length r.id_to_symbol < max_symbols → Registered r grown symbol (length r.id_to_symbol)
  new_symbol room = record {
    valid = record {
      named = named_grown;
      bounded = omega (arith, length-append r.id_to_symbol (symbol ∷ []));
      ticks = length-set r.tick_sizes (length r.id_to_symbol) tick ∙ v.ticks;
    };
    known = rw (
      lookup-insert symbol symbol (length r.id_to_symbol) r.symbol_to_id,
      (string_eq.beq_iff symbol symbol).1 refl,
    );
    in_range = room;
    others_kept = others_grown;
  }

  -- Registering a symbol gives it an id below MAX_SYMBOLS that stays its own, and changes no
  -- other symbol's id; it panics exactly for a new symbol when MAX_SYMBOLS are registered already.
  pub register_symbol_lem :
      ((r' : Registry F) × (id : ℕ) × (register_symbol r symbol tick ≡ some (r', id))
        × Registered r r' symbol id)
      ⊎ ((register_symbol r symbol tick ≡ none)
          × (lookup symbol r.symbol_to_id ≡ none)
          × (length r.id_to_symbol ≡ max_symbols))
  unfolding register_symbol
  register_symbol_lem = elim (Option-cases (lookup symbol r.symbol_to_id)) [
    | inr (id, h) ↦ inl (r, id, rw (h, register_symbol), old_symbol id h)
    | inl h ↦
        let id : length r.id_to_symbol % 2 ^ 16 ≡ length r.id_to_symbol =
          omega (arith, v.bounded) in
        elim (dec_lt (length r.id_to_symbol) max_symbols) [
          | yes room ↦ inl (
            grown,
            length r.id_to_symbol,
            rw (
              h,
              register_symbol,
              id,
              put-lt r.tick_sizes (length r.id_to_symbol) tick (omega (arith, v.ticks)),
            ),
            new_symbol room,
          )
          | no full ↦ inr (
            rw (
              h,
              register_symbol,
              id,
              put-none r.tick_sizes (length r.id_to_symbol) tick (omega (arith, v.ticks)),
            ),
            h,
            omega (arith, v.bounded),
          )
        ]
  ]
