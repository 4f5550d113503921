-- ===== src/OrderBookManager/Handles.antt =====
-- The handles of the map, and what creating a builder does to them.
use trading_platform.Prelude.{
  ℕ, zero, suc, ◌<◌, ◌≡◌, ◌⊎◌, inl, inr, refl, sym, ◌∙◌, true, Option, none, some, List, [], ◌∷◌,
  ◌++◌, arith, length, get_elem?, Bool-cases, length-append,
}
use trading_platform.Prelude.Dict.{lookup, insert, lookup-insert}
use trading_platform.MarketTypes.{OrderBookUpdate}
use trading_platform.OrderTypes.{Key, key_eq}
use trading_platform.OrderBookManager.{
  BuilderTask, OrderBookManager, create_builder, use_builder, new_task,
}
use trading_platform.OrderBookManager.Logs.{log, for_key}

module _ {F : Type 0} where
  -- Each handle is the number of a builder, of no other key, that has been sent the updates of its
  -- key; no update has been sent for a key that has no builder.
  abbrev pub IsRouted : OrderBookManager F → List (OrderBookUpdate F) → Type 0
  IsRouted m us =
      ((k : Key) (i : ℕ)
        → lookup k m.builders ≡ some i
        → (i < length m.tasks) × (log i m.tasks ≡ for_key k us))
      × ((j k : Key) (i : ℕ) → lookup j m.builders ≡ some i → lookup k m.builders ≡ some i → j ≡ k)
      × ((k : Key) → lookup k m.builders ≡ none → for_key k us ≡ [])

  pub get_elem?-append :
      (tasks : List (BuilderTask F)) (b : BuilderTask F) (i : ℕ)
      → i < length tasks
      → get_elem? (tasks ++ b ∷ []) i ≡ get_elem? tasks i
  get_elem?-append [] b i h = absurd (omega arith)
  get_elem?-append (a ∷ tasks) b zero h = refl
  get_elem?-append (a ∷ tasks) b (suc i) h = get_elem?-append tasks b i (omega arith)

  get_elem?-end :
      (tasks : List (BuilderTask F)) (b : BuilderTask F)
      → get_elem? (tasks ++ b ∷ []) (length tasks) ≡ some b
  get_elem?-end [] b = refl
  get_elem?-end (a ∷ tasks) b = get_elem?-end tasks b

  -- A handle after `create_builder` is the new one, or it was there before.
  pub lookup-create :
      (k j : Key) (i : ℕ) (m : OrderBookManager F)
      → lookup j (create_builder k m).0.builders ≡ some i
      → ((k ≡ j) × (i ≡ length m.tasks)) ⊎ (lookup j m.builders ≡ some i)
  unfolding create_builder
  lookup-create k j i m h =
      let at : lookup j (insert k (length m.tasks) m.builders) ≡ some i = h in
      let e = sym (lookup-insert k j (length m.tasks) m.builders) ∙ at in
      elim (Bool-cases (key_eq.beq k j)) [
        | inl same ↦ inl ((key_eq.beq_iff k j).0 same, cc (rw same at e))
        | inr other ↦ inr (rw other at e)
      ]

  lookup-create_none :
      (k j : Key) (m : OrderBookManager F)
      → lookup j (create_builder k m).0.builders ≡ none
      → lookup j m.builders ≡ none
  unfolding create_builder
  lookup-create_none k j m h =
      let at : lookup j (insert k (length m.tasks) m.builders) ≡ none = h in
      let e = sym (lookup-insert k j (length m.tasks) m.builders) ∙ at in
      elim (Bool-cases (key_eq.beq k j)) [
        | inl same ↦ absurd (cc (rw same at e))
        | inr other ↦ rw other at e
      ]

  create-IsRouted :
      (k : Key) (m : OrderBookManager F) (us : List (OrderBookUpdate F))
      → IsRouted m us
      → lookup k m.builders ≡ none
      → IsRouted (create_builder k m).0 us
  unfolding create_builder new_task
  create-IsRouted k m us (routed, distinct, unknown) none_yet =
      let longer = length-append m.tasks (new_task k ∷ []) in
      (
        λ j i h. elim (lookup-create k j i m h) [
          | inl (same, new) ↦ (
            omega (arith, longer, new),
            rw (new, get_elem?-end m.tasks (new_task k)) (sym (unknown j (rw same at none_yet))),
          )
          | inr old ↦
              let (low, logged) = routed j i old in
              (omega (arith, longer, low), rw (get_elem?-append m.tasks (new_task k) i low) logged)
        ],
        λ j j' i h h'. elim (lookup-create k j i m h) [
          | inl (same, new) ↦ elim (lookup-create k j' i m h') [
            | inl (same', new') ↦ sym same ∙ same'
            | inr old ↦ absurd (omega (arith, (routed j' i old).0, new))
          ]
          | inr old ↦ elim (lookup-create k j' i m h') [
            | inl (same, new) ↦ absurd (omega (arith, (routed j i old).0, new))
            | inr old' ↦ distinct j j' i old old'
          ]
        ],
        λ j h. unknown j (lookup-create_none k j m h),
      )

  lookup-created :
      (k : Key) (m : OrderBookManager F)
      → lookup k (create_builder k m).0.builders ≡ some (create_builder k m).1
  unfolding create_builder
  lookup-created k m =
      let same : key_eq.beq k k ≡ true = (key_eq.beq_iff k k).1 refl in
      lookup-insert k k (length m.tasks) m.builders ∙ rw same refl

  pub use-IsRouted :
      (handle : Option ℕ) (k : Key) (m : OrderBookManager F) (us : List (OrderBookUpdate F))
      → IsRouted m us
      → lookup k m.builders ≡ handle
      → IsRouted (use_builder handle k m).0 us
        × (lookup k (use_builder handle k m).0.builders ≡ some (use_builder handle k m).1)
  unfolding use_builder
  use-IsRouted none k m us r e = (create-IsRouted k m us r e, lookup-created k m)
  use-IsRouted (some i) k m us r e = (r, e)
