-- ===== src/OrderBookManager/Race.antt =====
-- Two calls for one symbol that overlap: both find no builder, and both make one.
use trading_platform.Prelude.{
  ℕ, ◌<◌, ◌≡◌, ◌≢◌, inl, inr, sym, ◌∙◌, true, Option, none, some, List, [], ◌∷◌, ◌++◌, arith,
  length, length-append,
}
use trading_platform.Prelude.Dict.{lookup, lookup-insert}
use trading_platform.MarketTypes.{OrderBookUpdate}
use trading_platform.OrderTypes.{Key, key_eq}
use trading_platform.OrderBookManager.{
  OrderBookManager, SendOutcome, sent, full, closed, new_book_manager, update_key, find_builder,
  create_builder, get_or_create_builder, put_update, task_state, deliver_by, deliver, use_builder,
  offer, send_update, try_send_update, end_task, shutdown, receive_update, new_task,
}
use trading_platform.OrderBookManager.Steps.{
  Operation, send_op, try_send_op, receive_op, end_op, shutdown_op, run_operation, run_operations,
}
use trading_platform.OrderBookManager.Logs.{length-update, length-abort}
use trading_platform.OrderBookManager.Handles.{lookup-create}
use trading_platform.OrderBookManager.Routing.{run_operations-IsRouted, new_book_manager-IsRouted}

module _ {F : Type 0} where
  -- No handle is the number of this builder, and none will be.
  abbrev pub IsOrphan : ℕ → OrderBookManager F → Type 0
  IsOrphan i m = (i < length m.tasks) × ((k : Key) → lookup k m.builders ≢ some i)

  create-IsOrphan :
      (i : ℕ) (k : Key) (m : OrderBookManager F) → IsOrphan i m → IsOrphan i (create_builder k m).0
  unfolding create_builder
  create-IsOrphan i k m (low, orphan) = (
    omega (arith, length-append m.tasks (new_task k ∷ []), low),
    λ j h. elim (lookup-create k j i m h) [
      | inl (same, new) ↦ absurd (omega (arith, low, new))
      | inr old ↦ orphan j old
    ],
  )

  use-IsOrphan :
      (handle : Option ℕ) (i : ℕ) (k : Key) (m : OrderBookManager F)
      → IsOrphan i m
      → IsOrphan i (use_builder handle k m).0
  unfolding use_builder
  use-IsOrphan none i k m o = create-IsOrphan i k m o
  use-IsOrphan (some l) i k m o = o

  deliver_by-IsOrphan :
      (outcome : SendOutcome) (i : ℕ) (u : OrderBookUpdate F) (l : ℕ) (m : OrderBookManager F)
      → IsOrphan i m
      → IsOrphan i (deliver_by outcome u l m).0
  unfolding deliver_by
  deliver_by-IsOrphan sent i u l m (low, o) =
      (omega (arith, low, length-update (put_update u) l m.tasks), o)
  deliver_by-IsOrphan full i u l m o = o
  deliver_by-IsOrphan closed i u l m o = o

  offer-IsOrphan :
      (i : ℕ) (u : OrderBookUpdate F) (m : OrderBookManager F)
      → IsOrphan i m
      → IsOrphan i (offer u m).0
  unfolding offer get_or_create_builder deliver
  offer-IsOrphan i u m o =
      let next = use_builder (find_builder (update_key u) m) (update_key u) m in
      deliver_by-IsOrphan (task_state next.1 next.0.tasks) i u next.1 next.0
        (use-IsOrphan (find_builder (update_key u) m) i (update_key u) m o)

  run_operation-IsOrphan :
      (op : Operation F) (i : ℕ) (m : OrderBookManager F)
      → IsOrphan i m
      → IsOrphan i (run_operation op m).0
  unfolding run_operation send_update try_send_update shutdown
  run_operation-IsOrphan (send_op u) i m o = offer-IsOrphan i u m o
  run_operation-IsOrphan (try_send_op u) i m o = offer-IsOrphan i u m o
  run_operation-IsOrphan (receive_op l) i m (low, o) =
      (omega (arith, low, length-update receive_update l m.tasks), o)
  run_operation-IsOrphan (end_op l) i m (low, o) =
      (omega (arith, low, length-update end_task l m.tasks), o)
  run_operation-IsOrphan shutdown_op i m (low, o) =
      (omega (arith, low, length-abort m.builders m.tasks), o)

  run_operations-IsOrphan :
      (ops : List (Operation F)) (i : ℕ) (m : OrderBookManager F)
      → IsOrphan i m
      → IsOrphan i (run_operations ops m).0
  unfolding run_operations
  run_operations-IsOrphan [] i m o = o
  run_operations-IsOrphan (op ∷ ops) i m o =
      run_operations-IsOrphan ops i (run_operation op m).0 (run_operation-IsOrphan op i m o)

  twice-IsOrphan :
      (k : Key) (m : OrderBookManager F)
      → ((j : Key) (i : ℕ) → lookup j m.builders ≡ some i → i < length m.tasks)
      → IsOrphan (create_builder k m).1 (create_builder k (create_builder k m).0).0
  unfolding create_builder
  twice-IsOrphan k m low =
      let one = create_builder k m in
      let longer = length-append m.tasks (new_task k ∷ []) in
      let more = length-append (m.tasks ++ new_task k ∷ []) (new_task k ∷ []) in
      (
        omega (arith, longer, more),
        λ j h.
            let swapped : key_eq.beq k j ≡ true → ⊥ = λ same.
              let e = sym (lookup-insert k j (length one.0.tasks) one.0.builders) ∙ h in
              let n : length one.0.tasks ≡ length m.tasks = cc (rw same at e) in
              absurd (omega (arith, longer, n)) in
            elim (lookup-create k j (length m.tasks) one.0 h) [
              | inl (same, new) ↦ swapped ((key_eq.beq_iff k j).1 same)
              | inr old ↦ elim (lookup-create k j (length m.tasks) m old) [
                | inl (same, new) ↦ swapped ((key_eq.beq_iff k j).1 same)
                | inr older ↦ absurd (omega (arith, low j (length m.tasks) older))
              ]
            ],
      )

  -- When two calls overlap so that both make a builder for the same key, the builder of the one
  -- that stores its handle first is never found again, by no key and whatever is done afterwards.
  pub racing_builder_is_lost :
      (before after : List (Operation F)) (k j : Key)
      → find_builder j
          (run_operations after
            (create_builder k (create_builder k (run_operations before new_book_manager).0).0).0).0
        ≢ some (create_builder k (run_operations before new_book_manager).0).1
  unfolding find_builder
  racing_builder_is_lost before after k j =
      let m = (run_operations before new_book_manager).0 in
      let (routed, distinct, unknown) =
        run_operations-IsRouted before new_book_manager [] new_book_manager-IsRouted in
      let two = twice-IsOrphan k m (λ l i e. (routed l i e).0) in
      (run_operations-IsOrphan after (create_builder k m).1 _ two).1 j
