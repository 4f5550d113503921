-- ===== src/OrderBookManager/Logs.antt =====
-- All that has been sent to a builder, and how the steps change it.
use trading_platform.Prelude.{
  ℕ, zero, suc, ◌≡◌, ◌≢◌, inl, inr, refl, sym, ap, ◌∙◌, Bool, true, false, Option, none, some, List,
  [], ◌∷◌, ◌++◌, arith, ◌==◌, if◌then◌else◌, length, get_elem?, map_some, Bool-cases, Option-cases,
  append_assoc,
}
use trading_platform.MarketTypes.{OrderBookUpdate}
use trading_platform.OrderTypes.{Key, key_eq}
use trading_platform.OrderBookManager.{
  BuilderTask, sent, update_key, update_task, put_update, task_state, abort_task, end_task,
  abort_all, receive_from, receive_update,
}

module _ {F : Type 0} where
  -- All that has been sent to a builder.
  abbrev pub log_of : Option (BuilderTask F) → List (OrderBookUpdate F)
  log_of none = []
  log_of (some b) = b.received ++ b.queue

  abbrev pub log : ℕ → List (BuilderTask F) → List (OrderBookUpdate F)
  log i tasks = log_of (get_elem? tasks i)

  unfoldable pub for_key : Key → List (OrderBookUpdate F) → List (OrderBookUpdate F)
  for_key k [] = []
  for_key k (u ∷ us) = if key_eq.beq (update_key u) k then u ∷ for_key k us else for_key k us

  pub for_key-append :
      (k : Key) (us vs : List (OrderBookUpdate F))
      → for_key k (us ++ vs) ≡ for_key k us ++ for_key k vs
  unfolding for_key
  for_key-append k [] vs = refl
  for_key-append k (u ∷ us) vs = elim (Bool-cases (key_eq.beq (update_key u) k)) [
    | inl same ↦ rw same (ap (λ ws. u ∷ ws) (for_key-append k us vs))
    | inr other ↦ rw other (for_key-append k us vs)
  ]

  pub get_elem?-update :
      (f : BuilderTask F → BuilderTask F) (i j : ℕ) (tasks : List (BuilderTask F))
      → get_elem? (update_task f i tasks) j
        ≡ (if i == j then map_some f (get_elem? tasks j) else get_elem? tasks j)
  unfolding update_task
  get_elem?-update f i j [] = ground arith
  get_elem?-update f zero zero (b ∷ tasks) = refl
  get_elem?-update f zero (suc j) (b ∷ tasks) = ground arith
  get_elem?-update f (suc i) zero (b ∷ tasks) = ground arith
  get_elem?-update f (suc i) (suc j) (b ∷ tasks) = ground (arith, get_elem?-update f i j tasks)

  pub length-update :
      (f : BuilderTask F → BuilderTask F) (i : ℕ) (tasks : List (BuilderTask F))
      → length (update_task f i tasks) ≡ length tasks
  unfolding update_task
  length-update f i [] = refl
  length-update f zero (b ∷ tasks) = refl
  length-update f (suc i) (b ∷ tasks) = ap suc (length-update f i tasks)

  pub log-update :
      (f : BuilderTask F → BuilderTask F) (i j : ℕ) (tasks : List (BuilderTask F))
      → ((b : BuilderTask F) → log_of (some (f b)) ≡ log_of (some b))
      → log j (update_task f i tasks) ≡ log j tasks
  log-update f i j tasks keeps = elim (Bool-cases (i == j)) [
    | inl same ↦
        rw (get_elem?-update f i j tasks, same)
          (elim (Option-cases (get_elem? tasks j)) [
            | inl gone ↦ rw gone refl
            | inr (b, found) ↦ rw found (keeps b)
          ])
    | inr other ↦ rw (get_elem?-update f i j tasks, other) refl
  ]

  pub log-put :
      (u : OrderBookUpdate F) (i : ℕ) (tasks : List (BuilderTask F))
      → task_state i tasks ≡ sent
      → log i (update_task (put_update u) i tasks) ≡ log i tasks ++ u ∷ []
  unfolding task_state put_update
  log-put u i tasks room =
      let same : (i == i) ≡ true = ground arith in
      elim (Option-cases (get_elem? tasks i)) [
        | inl gone ↦ absurd (cc (rw (task_state, gone) at room))
        | inr (b, found) ↦
            rw (get_elem?-update (put_update u) i i tasks, same, found)
              (sym (append_assoc b.received b.queue (u ∷ [])))
      ]

  pub log-put_other :
      (u : OrderBookUpdate F) (i j : ℕ) (tasks : List (BuilderTask F))
      → i ≢ j
      → log j (update_task (put_update u) i tasks) ≡ log j tasks
  log-put_other u i j tasks h =
      let other : (i == j) ≡ false = ground (arith, h) in
      rw (get_elem?-update (put_update u) i j tasks, other) refl

  receive_from-log :
      (b : BuilderTask F) (queue : List (OrderBookUpdate F))
      → b.queue ≡ queue
      → log_of (some (receive_from queue b)) ≡ log_of (some b)
  unfolding receive_from
  receive_from-log b [] e = refl
  receive_from-log b (u ∷ rest) e = rw e (append_assoc b.received (u ∷ []) rest)

  receive_if-log :
      (up : Bool) (b : BuilderTask F)
      → log_of (some (if up then receive_from b.queue b else b)) ≡ log_of (some b)
  receive_if-log true b = receive_from-log b b.queue refl
  receive_if-log false b = refl

  pub receive-log : (b : BuilderTask F) → log_of (some (receive_update b)) ≡ log_of (some b)
  unfolding receive_update
  receive-log b = receive_if-log b.alive b

  pub length-abort :
      (hs : List (Key × ℕ)) (tasks : List (BuilderTask F))
      → length (abort_all hs tasks) ≡ length tasks
  unfolding abort_all
  length-abort [] tasks = refl
  length-abort (h ∷ hs) tasks =
      length-abort hs (update_task abort_task h.1 tasks) ∙ length-update abort_task h.1 tasks

  pub abort_task-log : (b : BuilderTask F) → log_of (some (abort_task b)) ≡ log_of (some b)
  unfolding abort_task
  abort_task-log b = refl

  pub end_task-log : (b : BuilderTask F) → log_of (some (end_task b)) ≡ log_of (some b)
  unfolding end_task
  end_task-log b = refl

  pub abort-log :
      (hs : List (Key × ℕ)) (tasks : List (BuilderTask F)) (i : ℕ)
      → log i (abort_all hs tasks) ≡ log i tasks
  unfolding abort_all
  abort-log [] tasks i = refl
  abort-log (h ∷ hs) tasks i =
      abort-log hs (update_task abort_task h.1 tasks) i
      ∙ log-update abort_task h.1 i tasks abort_task-log
