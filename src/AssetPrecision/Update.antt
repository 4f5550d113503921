-- ===== src/AssetPrecision/Update.antt =====
-- What an update from an exchange changes.
use trading_platform.Prelude.{
  ℕ, ◌≡◌, ◌≢◌, inl, inr, refl, sym, ◌∙◌, false, ◌&&◌, some, [], ◌∷◌, arith, if◌then◌else◌,
  Bool-cases, Option-cases,
}
use trading_platform.Prelude.Bytes.{Text, text_eq}
use trading_platform.Prelude.Dict.{lookup, insert, lookup-insert}
use trading_platform.AssetPrecision.{
  AssetPrecision, PrecisionManager, pair_key, new_precision, default_decimals, get_fallback,
  get_precision, update_from_exchange,
}

-- A text with no colon, such as an exchange's name or a symbol.
abbrev pub NoColon : Text → Type 0
NoColon [] = Unit {0}
NoColon (c ∷ cs) = (c ≢ b':') × NoColon cs

pair_key_injective :
    (e s e' s' : Text)
    → NoColon e
    → NoColon e'
    → pair_key e s ≡ pair_key e' s'
    → (e ≡ e') × (s ≡ s')
pair_key_injective [] s [] s' h k p = (refl, cc)
pair_key_injective [] s (c ∷ cs) s' h k p = let q : c ≡ b':' = cc in absurd (k.0 q)
pair_key_injective (c ∷ cs) s [] s' h k p = let q : c ≡ b':' = cc in absurd (h.0 q)
pair_key_injective (c ∷ cs) s (d ∷ ds) s' h k p =
    let tails : pair_key cs s ≡ pair_key ds s' = cc in
    let heads : c ≡ d = cc in
    let (a, b) = pair_key_injective cs s ds s' h.1 k.1 tails in (rw (heads, a) refl, b)

pair_key-ne : (e s t : Text) → NoColon t → pair_key e s ≢ t
pair_key-ne [] s [] h p = cc
pair_key-ne [] s (c ∷ cs) h p = let q : c ≡ b':' = cc in h.0 q
pair_key-ne (c ∷ cs) s [] h p = cc
pair_key-ne (c ∷ cs) s (d ∷ ds) h p = let q : pair_key cs s ≡ ds = cc in pair_key-ne cs s ds h.1 q

same_pair :
    (e s e' s' : Text)
    → NoColon e
    → NoColon e'
    → text_eq.beq (pair_key e s) (pair_key e' s') ≡ (text_eq.beq e e' && text_eq.beq s s')
same_pair e s e' s' h k = elim (Bool-cases (text_eq.beq (pair_key e s) (pair_key e' s'))) [
  | inl same ↦
      let (a, b) = pair_key_injective e s e' s' h k ((text_eq.beq_iff _ _).0 same) in
      same ∙ rw ((text_eq.beq_iff e e').1 a, (text_eq.beq_iff s s').1 b) refl
  | inr other ↦ elim (Bool-cases (text_eq.beq e e' && text_eq.beq s s')) [
    | inr no_match ↦ other ∙ sym no_match
    | inl both ↦
        let a : e ≡ e' = ground (arith, text_eq.beq_iff e e') in
        let b : s ≡ s' = ground (arith, text_eq.beq_iff s s') in
        let p : pair_key e s ≡ pair_key e' s' = rw (a, b) refl in
        absurd (cc (other, (text_eq.beq_iff (pair_key e s) (pair_key e' s')).1 p))
  ]
]

other_key : (e s t : Text) → NoColon t → text_eq.beq (pair_key e s) t ≡ false
other_key e s t h = elim (Bool-cases (text_eq.beq (pair_key e s) t)) [
  | inl same ↦ absurd (pair_key-ne e s t h ((text_eq.beq_iff (pair_key e s) t).0 same))
  | inr other ↦ other
]

get_precision-hit :
    (m : PrecisionManager) (e s : Text) (v : AssetPrecision)
    → lookup (pair_key e s) m.precisions ≡ some v
    → get_precision m s (some e) ≡ some v
unfolding get_precision
get_precision-hit m e s v h = ground (arith, h)

get_precision-same :
    (m n : PrecisionManager) (e s : Text)
    → lookup (pair_key e s) m.precisions ≡ lookup (pair_key e s) n.precisions
    → lookup s m.precisions ≡ lookup s n.precisions
    → m.exchange_defaults ≡ n.exchange_defaults
    → get_precision m s (some e) ≡ get_precision n s (some e)
unfolding get_precision get_fallback default_decimals
get_precision-same m n e s h k d = ground (arith, h, k, d)

-- An update from an exchange's information sets the precision of its pair, and of no other pair, if
-- no name of an exchange and no symbol has a colon.
pub update_from_exchange_lem :
    (exchange symbol exchange' symbol' : Text) (p q : ℕ) (m m' : PrecisionManager)
    → NoColon exchange
    → NoColon exchange'
    → NoColon symbol'
    → update_from_exchange exchange symbol p q m ≡ some m'
    → get_precision m' symbol' (some exchange') ≡ (
        if text_eq.beq exchange exchange' && text_eq.beq symbol symbol'
        then new_precision symbol p q
        else get_precision m symbol' (some exchange'))
unfolding update_from_exchange
update_from_exchange_lem e s e' s' p q m m' h k l done = elim (Option-cases (new_precision s p q)) [
  | inl fails ↦ absurd (cc (rw fails at done))
  | inr (v, made) ↦
      let done' = rw made at done in
      let m₁ : PrecisionManager = record m { precisions = insert (pair_key e s) v m.precisions } in
      let same : m₁ ≡ m' = cc in
      let at_pair = lookup-insert (pair_key e s) (pair_key e' s') v m.precisions in
      let plain : lookup s' (insert (pair_key e s) v m.precisions) ≡ lookup s' m.precisions =
        lookup-insert (pair_key e s) s' v m.precisions ∙ rw (other_key e s s' l) refl in
      let t : (text_eq.beq e e' && text_eq.beq s s') ≡ text_eq.beq (pair_key e s) (pair_key e' s') =
        sym (same_pair e s e' s' h k) in
      rw (← same, made, t)
        (elim (Bool-cases (text_eq.beq (pair_key e s) (pair_key e' s'))) [
          | inl hit ↦ get_precision-hit m₁ e' s' v (at_pair ∙ rw hit refl) ∙ rw hit refl
          | inr miss ↦
              get_precision-same m₁ m e' s' (at_pair ∙ rw miss refl) plain refl ∙ rw miss refl
        ])
]
