-- ===== src/OrderBookManager/Routing.antt =====
-- Which updates reach which builder, when calls do not overlap.
use trading_platform.Prelude.{
  ℕ, ◌≡◌, ◌≢◌, inl, inr, refl, ◌∙◌, some, List, [], ◌∷◌, ◌++◌, arith, length, Bool-cases,
  append-nil, append_assoc,
}
use trading_platform.Prelude.Dict.{lookup}
use trading_platform.MarketTypes.{OrderBookUpdate}
use trading_platform.OrderTypes.{Key, key_eq}
use trading_platform.OrderBookManager.{
  BuilderTask, OrderBookManager, SendOutcome, sent, full, closed, new_book_manager, update_key,
  find_builder, get_or_create_builder, update_task, put_update, task_state, deliver_by, deliver,
  use_builder, offer, send_update, try_send_update, end_task, abort_all, shutdown, receive_update,
  try_result, send_result,
}
use trading_platform.OrderBookManager.Steps.{
  Operation, send_op, try_send_op, receive_op, end_op, shutdown_op, sent_of, sent_if, run_operation,
  run_operations,
}
use trading_platform.OrderBookManager.Logs.{
  log, for_key, for_key-append, length-update, log-update, log-put, log-put_other, receive-log,
  length-abort, end_task-log, abort-log,
}
use trading_platform.OrderBookManager.Handles.{IsRouted, use-IsRouted}

module _ {F : Type 0} where
  put-IsRouted :
      (u : OrderBookUpdate F) (i : ℕ) (m : OrderBookManager F) (us : List (OrderBookUpdate F))
      → IsRouted m us
      → lookup (update_key u) m.builders ≡ some i
      → task_state i m.tasks ≡ sent
      → IsRouted (record m { tasks = update_task (put_update u) i m.tasks }) (us ++ u ∷ [])
  unfolding for_key
  put-IsRouted u i m us (routed, distinct, unknown) own room = (
    λ j l h.
        let (low, logged) = routed j l h in
        let size = length-update (put_update u) i m.tasks in
        (
          omega (arith, low, size),
          elim (Bool-cases (key_eq.beq (update_key u) j)) [
            | inl same ↦
                let key : update_key u ≡ j = (key_eq.beq_iff (update_key u) j).0 same in
                let index : i ≡ l = cc (rw key at own) in
                rw (for_key-append j us (u ∷ []), same, ← logged, ← index)
                  (log-put u i m.tasks room)
            | inr other ↦
                let apart : i ≢ l = λ e. absurd (
                  cc (
                    rw other at (
                      (key_eq.beq_iff (update_key u) j).1
                        (distinct (update_key u) j i own (rw e h))))) in
                rw (for_key-append j us (u ∷ []), other, append-nil (for_key j us), ← logged)
                  (log-put_other u i l m.tasks apart)
          ],
        ),
    distinct,
    λ j h. rw (for_key-append j us (u ∷ [])) (elim (Bool-cases (key_eq.beq (update_key u) j)) [
      | inl same ↦ absurd (cc (rw ((key_eq.beq_iff (update_key u) j).0 same, h) at own))
      | inr other ↦ rw (other, append-nil (for_key j us)) (unknown j h)
    ]),
  )

  -- The updates that an outcome stands for.
  abbrev sent_by : OrderBookUpdate F → SendOutcome → List (OrderBookUpdate F)
  sent_by u sent = u ∷ []
  sent_by u full = []
  sent_by u closed = []

  deliver_by-IsRouted :
      (o : SendOutcome) (u : OrderBookUpdate F) (i : ℕ) (m : OrderBookManager F)
      (us : List (OrderBookUpdate F))
      → IsRouted m us
      → lookup (update_key u) m.builders ≡ some i
      → task_state i m.tasks ≡ o
      → IsRouted (deliver_by o u i m).0 (us ++ sent_by u (deliver_by o u i m).1)
  unfolding deliver_by
  deliver_by-IsRouted sent u i m us r own e = put-IsRouted u i m us r own e
  deliver_by-IsRouted full u i m us r own e = rw (append-nil us) r
  deliver_by-IsRouted closed u i m us r own e = rw (append-nil us) r

  deliver-IsRouted :
      (u : OrderBookUpdate F) (i : ℕ) (m : OrderBookManager F) (us : List (OrderBookUpdate F))
      → IsRouted m us
      → lookup (update_key u) m.builders ≡ some i
      → IsRouted (deliver u i m).0 (us ++ sent_by u (deliver u i m).1)
  unfolding deliver
  deliver-IsRouted u i m us r own = deliver_by-IsRouted (task_state i m.tasks) u i m us r own refl

  offer-IsRouted :
      (u : OrderBookUpdate F) (m : OrderBookManager F) (us : List (OrderBookUpdate F))
      → IsRouted m us
      → IsRouted (offer u m).0 (us ++ sent_by u (offer u m).1)
  unfolding offer get_or_create_builder find_builder
  offer-IsRouted u m us r =
      let (routed, own) =
        use-IsRouted (lookup (update_key u) m.builders) (update_key u) m us r refl in
      let next = use_builder (lookup (update_key u) m.builders) (update_key u) m in
      deliver-IsRouted u next.1 next.0 us routed own

  -- A change of the tasks that keeps their number and what has been sent to each.
  kept-IsRouted :
      (m : OrderBookManager F) (tasks : List (BuilderTask F)) (us : List (OrderBookUpdate F))
      → IsRouted m us
      → length tasks ≡ length m.tasks
      → ((i : ℕ) → log i tasks ≡ log i m.tasks)
      → IsRouted (record m { tasks = tasks }) us
  kept-IsRouted m tasks us (routed, distinct, unknown) size same = (
    λ k i h. let (low, logged) = routed k i h in (omega (arith, low, size), same i ∙ logged),
    distinct,
    unknown,
  )

  send-sent : (u : OrderBookUpdate F) (o : SendOutcome) → sent_if u (send_result o) ≡ sent_by u o
  send-sent u sent = refl
  send-sent u full = refl
  send-sent u closed = refl

  try-sent : (u : OrderBookUpdate F) (o : SendOutcome) → sent_of u (try_result o) ≡ sent_by u o
  try-sent u sent = refl
  try-sent u full = refl
  try-sent u closed = refl

  run_operation-IsRouted :
      (op : Operation F) (m : OrderBookManager F) (us : List (OrderBookUpdate F))
      → IsRouted m us
      → IsRouted (run_operation op m).0 (us ++ (run_operation op m).1)
  unfolding run_operation send_update try_send_update shutdown
  run_operation-IsRouted (send_op u) m us r =
      rw (send-sent u (offer u m).1) (offer-IsRouted u m us r)
  run_operation-IsRouted (try_send_op u) m us r =
      rw (try-sent u (offer u m).1) (offer-IsRouted u m us r)
  run_operation-IsRouted (receive_op i) m us r = rw (append-nil us) (
      kept-IsRouted m (update_task receive_update i m.tasks) us r
        (length-update receive_update i m.tasks)
        (λ j. log-update receive_update i j m.tasks receive-log))
  run_operation-IsRouted (end_op i) m us r = rw (append-nil us) (
      kept-IsRouted m (update_task end_task i m.tasks) us r (length-update end_task i m.tasks)
        (λ j. log-update end_task i j m.tasks end_task-log))
  run_operation-IsRouted shutdown_op m us r = rw (append-nil us) (
      kept-IsRouted m (abort_all m.builders m.tasks) us r (length-abort m.builders m.tasks)
        (abort-log m.builders m.tasks))

  pub run_operations-IsRouted :
      (ops : List (Operation F)) (m : OrderBookManager F) (us : List (OrderBookUpdate F))
      → IsRouted m us
      → IsRouted (run_operations ops m).0 (us ++ (run_operations ops m).1)
  unfolding run_operations
  run_operations-IsRouted [] m us r = rw (append-nil us) r
  run_operations-IsRouted (op ∷ ops) m us r =
      let (m', now) = run_operation op m in
      rw (← append_assoc us (run_operation op m).1 (run_operations ops (run_operation op m).0).1) (
        run_operations-IsRouted ops (run_operation op m).0 (us ++ (run_operation op m).1)
          (run_operation-IsRouted op m us r))

  pub new_book_manager-IsRouted : IsRouted {F = F} new_book_manager []
  unfolding new_book_manager for_key lookup
  new_book_manager-IsRouted = (λ j l e. absurd (cc e), λ j l n e. absurd (cc e), λ j e. refl)

  -- After any calls that do not overlap, with any steps of the builders between them, a symbol of
  -- an exchange has at most one builder, to which exactly its updates have been sent, those that
  -- the calls reported as sent, in their order; two symbols have no builder in common.
  pub updates_reach_their_builder :
      (ops : List (Operation F)) (k : Key) (i : ℕ)
      → lookup k (run_operations ops new_book_manager).0.builders ≡ some i
      → (log i (run_operations ops new_book_manager).0.tasks
          ≡ for_key k (run_operations ops new_book_manager).1)
        × ((j : Key) → lookup j (run_operations ops new_book_manager).0.builders ≡ some i → j ≡ k)
  updates_reach_their_builder ops k i h =
      let (routed, distinct, unknown) =
        run_operations-IsRouted ops new_book_manager [] new_book_manager-IsRouted in
      ((routed k i h).1, λ j e. distinct j k i e h)
