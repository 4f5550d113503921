-- ===== src/OrderBookManager/Shutdown.antt =====
-- What a shutdown leaves behind: the handles of builders whose tasks are gone.
use trading_platform.Prelude.{
  ℕ, ◌<◌, ◌≡◌, inl, inr, refl, ◌∙◌, Bool, true, false, Option, none, some, List, [], ◌∷◌, arith,
  length, Bool-cases, length-append,
}
use trading_platform.Prelude.Dict.{lookup, lookup-insert}
use trading_platform.MarketTypes.{OrderBookUpdate}
use trading_platform.OrderTypes.{Key, key_eq}
use trading_platform.OrderBookManager.{
  BuilderTask, OrderBookManager, SendOutcome, sent, full, closed, new_book_manager, update_key,
  find_builder, create_builder, get_or_create_builder, update_task, put_update, task_state,
  deliver_by, deliver, use_builder, offer, send_update, try_send_update, end_task, abort_all,
  shutdown, receive_update, new_task,
}
use trading_platform.OrderBookManager.Steps.{
  Operation, send_op, try_send_op, receive_op, end_op, shutdown_op, run_operation, run_operations,
}
use trading_platform.OrderBookManager.Logs.{length-update, length-abort}
use trading_platform.OrderBookManager.Handles.{get_elem?-append}
use trading_platform.OrderBookManager.Routing.{run_operations-IsRouted, new_book_manager-IsRouted}
use trading_platform.OrderBookManager.Ends.{
  IsAborted, closed-update, receive-down, put-down, end-down, abort-closed, ended, lookup-IsAborted,
}

module _ {F : Type 0} where
  -- A key with a handle, whose builder takes no update if its task is said to have ended.
  abbrev pub IsHeld : Bool → Key → ℕ → OrderBookManager F → Type 0
  IsHeld ended k i m =
      (lookup k m.builders ≡ some i)
      × (i < length m.tasks)
      × (ended ≡ true → task_state i m.tasks ≡ closed)

  create-IsHeld :
      (d : Bool) (k j : Key) (i : ℕ) (m : OrderBookManager F)
      → IsHeld d k i m
      → lookup j m.builders ≡ none
      → IsHeld d k i (create_builder j m).0
  unfolding create_builder task_state
  create-IsHeld d k j i m (found, low, down) fresh = (
    lookup-insert j k (length m.tasks) m.builders ∙ elim (Bool-cases (key_eq.beq j k)) [
      | inl same ↦ absurd (cc (rw ((key_eq.beq_iff j k).0 same, found) at fresh))
      | inr other ↦ rw other found
    ],
    omega (arith, length-append m.tasks (new_task j ∷ []), low),
    λ t. rw (get_elem?-append m.tasks (new_task j) i low) (down t),
  )

  use-IsHeld :
      (handle : Option ℕ) (d : Bool) (k j : Key) (i : ℕ) (m : OrderBookManager F)
      → lookup j m.builders ≡ handle
      → IsHeld d k i m
      → IsHeld d k i (use_builder handle j m).0
  unfolding use_builder
  use-IsHeld none d k j i m e h = create-IsHeld d k j i m h e
  use-IsHeld (some l) d k j i m e h = h

  -- A change of the tasks under which ended tasks stay so.
  update-IsHeld :
      (f : BuilderTask F → BuilderTask F) (l : ℕ) (d : Bool) (k : Key) (i : ℕ)
      (m : OrderBookManager F)
      → ((b : BuilderTask F) → b.alive ≡ false → (f b).alive ≡ false)
      → IsHeld d k i m
      → IsHeld d k i (record m { tasks = update_task f l m.tasks })
  update-IsHeld f l d k i m keeps (found, low, down) = (
    found,
    omega (arith, low, length-update f l m.tasks),
    λ t. closed-update f l i m.tasks keeps (down t),
  )

  deliver_by-IsHeld :
      (outcome : SendOutcome) (d : Bool) (k : Key) (i : ℕ) (u : OrderBookUpdate F) (l : ℕ)
      (m : OrderBookManager F)
      → IsHeld d k i m
      → IsHeld d k i (deliver_by outcome u l m).0
  unfolding deliver_by
  deliver_by-IsHeld sent d k i u l m h = update-IsHeld (put_update u) l d k i m (put-down u) h
  deliver_by-IsHeld full d k i u l m h = h
  deliver_by-IsHeld closed d k i u l m h = h

  offer-IsHeld :
      (d : Bool) (k : Key) (i : ℕ) (u : OrderBookUpdate F) (m : OrderBookManager F)
      → IsHeld d k i m
      → IsHeld d k i (offer u m).0
  unfolding offer get_or_create_builder deliver find_builder
  offer-IsHeld d k i u m h =
      let next = use_builder (lookup (update_key u) m.builders) (update_key u) m in
      deliver_by-IsHeld (task_state next.1 next.0.tasks) d k i u next.1 next.0
        (use-IsHeld (lookup (update_key u) m.builders) d k (update_key u) i m refl h)

  run_operation-IsHeld :
      (op : Operation F) (d : Bool) (k : Key) (i : ℕ) (m : OrderBookManager F)
      → IsHeld d k i m
      → IsHeld d k i (run_operation op m).0
  unfolding run_operation send_update try_send_update shutdown
  run_operation-IsHeld (send_op u) d k i m h = offer-IsHeld d k i u m h
  run_operation-IsHeld (try_send_op u) d k i m h = offer-IsHeld d k i u m h
  run_operation-IsHeld (receive_op l) d k i m h =
      update-IsHeld receive_update l d k i m receive-down h
  run_operation-IsHeld (end_op l) d k i m h = update-IsHeld end_task l d k i m end-down h
  run_operation-IsHeld shutdown_op d k i m (found, low, down) = (
    found,
    omega (arith, low, length-abort m.builders m.tasks),
    λ t. abort-closed m.builders i m.tasks (down t),
  )

  run_operations-IsHeld :
      (ops : List (Operation F)) (d : Bool) (k : Key) (i : ℕ) (m : OrderBookManager F)
      → IsHeld d k i m
      → IsHeld d k i (run_operations ops m).0
  unfolding run_operations
  run_operations-IsHeld [] d k i m h = h
  run_operations-IsHeld (op ∷ ops) d k i m h =
      run_operations-IsHeld ops d k i (run_operation op m).0 (run_operation-IsHeld op d k i m h)

  -- The end of a task that a key has.
  end-IsHeld :
      (k : Key) (i : ℕ) (m : OrderBookManager F)
      → IsHeld false k i m
      → IsHeld true k i (run_operation (end_op i) m).0
  unfolding run_operation
  end-IsHeld k i m (found, low, down) =
      (found, omega (arith, low, length-update end_task i m.tasks), λ t. ended i m.tasks)

  offer-closed :
      (u : OrderBookUpdate F) (i : ℕ) (m : OrderBookManager F)
      → IsHeld true (update_key u) i m
      → offer u m ≡ (m, closed)
  unfolding offer get_or_create_builder deliver find_builder use_builder deliver_by
  offer-closed u i m (found, low, down) = rw (found, down refl) refl

  -- A shutdown, and later the end of a task, with other operations between and after them.
  abbrev pub after_shutdown :
      List (Operation F) → ℕ → List (Operation F) → OrderBookManager F → OrderBookManager F
  after_shutdown middle i after m =
      (run_operations after (run_operation (end_op i) (run_operations middle (shutdown m)).0).0).0

  -- A shutdown aborts the task of every symbol that has a builder. Once that task has ended, an
  -- update of the symbol cannot be sent any more, whatever calls are made: both ways to send it
  -- fail and change nothing, so that no new builder is made.
  pub no_update_after_shutdown :
      (before middle after : List (Operation F)) (u : OrderBookUpdate F) (i : ℕ)
      → find_builder (update_key u) (run_operations before new_book_manager).0 ≡ some i
      → let m = (run_operations before new_book_manager).0 in
        let m' = after_shutdown middle i after m in
        IsAborted i (shutdown m).tasks
        × (try_send_update u m' ≡ (m', false))
        × (send_update u m' ≡ (m', some false))
  unfolding find_builder shutdown try_send_update send_update
  no_update_after_shutdown before middle after u i found =
      let m = (run_operations before new_book_manager).0 in
      let (routed, distinct, unknown) =
        run_operations-IsRouted before new_book_manager [] new_book_manager-IsRouted in
      let low = (routed (update_key u) i found).0 in
      let low' : i < length (abort_all m.builders m.tasks) =
        omega (arith, low, length-abort m.builders m.tasks) in
      let held =
        run_operations-IsHeld middle false (update_key u) i (shutdown m)
          (found, low', λ t. absurd (cc t)) in
      let dead =
        run_operations-IsHeld after true (update_key u) i _
          (end-IsHeld (update_key u) i (run_operations middle (shutdown m)).0 held) in
      let fails = offer-closed u i (after_shutdown middle i after m) dead in
      (lookup-IsAborted m.builders (update_key u) i m.tasks found low, rw fails refl, rw fails refl)
