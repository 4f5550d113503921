-- ===== src/OrderBookManager/Ends.antt =====
-- Tasks that have been aborted, and tasks that have ended.
use trading_platform.Prelude.{
  ℕ, ◌<◌, ◌≡◌, ◌↔◌, inl, inr, refl, Bool, true, false, some, List, [], ◌∷◌, arith, ◌==◌,
  if◌then◌else◌, length, get_elem?, Bool-cases, Option-cases, get_elem?-lt,
}
use trading_platform.Prelude.Dict.{lookup}
use trading_platform.MarketTypes.{OrderBookUpdate}
use trading_platform.OrderTypes.{Key, key_eq}
use trading_platform.OrderBookManager.{
  BuilderTask, closed, update_task, put_update, task_state, abort_task, end_task, abort_all,
  receive_from, receive_update, channel_state,
}
use trading_platform.OrderBookManager.Logs.{get_elem?-update, length-update}

module _ {F : Type 0} where
  pub channel_state-closed : (b : BuilderTask F) → (channel_state b ≡ closed) ↔ (b.alive ≡ false)
  unfolding channel_state
  channel_state-closed b = ground arith

  pub closed-update :
      (f : BuilderTask F → BuilderTask F) (i j : ℕ) (tasks : List (BuilderTask F))
      → ((b : BuilderTask F) → b.alive ≡ false → (f b).alive ≡ false)
      → task_state j tasks ≡ closed
      → task_state j (update_task f i tasks) ≡ closed
  unfolding task_state
  closed-update f i j tasks keeps e = elim (Option-cases (get_elem? tasks j)) [
    | inl gone ↦
        rw (get_elem?-update f i j tasks, gone)
          (elim (Bool-cases (i == j)) [ inl same ↦ rw same refl | inr other ↦ rw other refl ])
    | inr (b, found) ↦
        let down = (channel_state-closed b).0 (rw found at e) in
        elim (Bool-cases (i == j)) [
          | inl same ↦
              rw (get_elem?-update f i j tasks, same, found)
                ((channel_state-closed (f b)).1 (keeps b down))
          | inr other ↦ rw (get_elem?-update f i j tasks, other, found) (rw found at e)
        ]
  ]

  receive_if-down :
      (up : Bool) (b : BuilderTask F)
      → up ≡ false
      → b.alive ≡ false
      → (if up then receive_from b.queue b else b).alive ≡ false
  receive_if-down true b e down = absurd (cc e)
  receive_if-down false b e down = down

  pub receive-down : (b : BuilderTask F) → b.alive ≡ false → (receive_update b).alive ≡ false
  unfolding receive_update
  receive-down b down = receive_if-down b.alive b down down

  pub put-down :
      (u : OrderBookUpdate F) (b : BuilderTask F) → b.alive ≡ false → (put_update u b).alive ≡ false
  unfolding put_update
  put-down u b down = down

  pub abort-down : (b : BuilderTask F) → b.alive ≡ false → (abort_task b).alive ≡ false
  unfolding abort_task
  abort-down b down = down

  pub end-down : (b : BuilderTask F) → b.alive ≡ false → (end_task b).alive ≡ false
  unfolding end_task
  end-down b down = refl

  pub abort-closed :
      (hs : List (Key × ℕ)) (i : ℕ) (tasks : List (BuilderTask F))
      → task_state i tasks ≡ closed
      → task_state i (abort_all hs tasks) ≡ closed
  unfolding abort_all
  abort-closed [] i tasks e = e
  abort-closed (h ∷ hs) i tasks e =
      abort-closed hs i (update_task abort_task h.1 tasks)
        (closed-update abort_task h.1 i tasks abort-down e)

  pub ended :
      (i : ℕ) (tasks : List (BuilderTask F)) → task_state i (update_task end_task i tasks) ≡ closed
  unfolding task_state end_task channel_state
  ended i tasks =
      let same : (i == i) ≡ true = ground arith in
      rw (get_elem?-update end_task i i tasks, same)
        (elim (Option-cases (get_elem? tasks i)) [
          | inl gone ↦ rw gone refl
          | inr (b, found) ↦ rw found refl
        ])

  -- The task of this number has been aborted.
  abbrev pub IsAborted : ℕ → List (BuilderTask F) → Type 0
  IsAborted i tasks = (b : BuilderTask F) × (get_elem? tasks i ≡ some b) × (b.aborted ≡ true)

  update-IsAborted :
      (i j : ℕ) (tasks : List (BuilderTask F))
      → IsAborted i tasks
      → IsAborted i (update_task abort_task j tasks)
  unfolding abort_task
  update-IsAborted i j tasks (b, found, up) = elim (Bool-cases (j == i)) [
    | inl same ↦ (abort_task b, rw (get_elem?-update abort_task j i tasks, same, found) refl, refl)
    | inr other ↦ (b, rw (get_elem?-update abort_task j i tasks, other, found) refl, up)
  ]

  all-IsAborted :
      (hs : List (Key × ℕ)) (i : ℕ) (tasks : List (BuilderTask F))
      → IsAborted i tasks
      → IsAborted i (abort_all hs tasks)
  unfolding abort_all
  all-IsAborted [] i tasks a = a
  all-IsAborted (h ∷ hs) i tasks a =
      all-IsAborted hs i (update_task abort_task h.1 tasks) (update-IsAborted i h.1 tasks a)

  pub lookup-IsAborted :
      (hs : List (Key × ℕ)) (k : Key) (i : ℕ) (tasks : List (BuilderTask F))
      → lookup k hs ≡ some i
      → i < length tasks
      → IsAborted i (abort_all hs tasks)
  unfolding abort_all lookup abort_task
  lookup-IsAborted [] k i tasks h low = absurd (cc h)
  lookup-IsAborted ((j, l) ∷ hs) k i tasks h low = elim (Bool-cases (key_eq.beq j k)) [
    | inl same ↦
        let e : l ≡ i = cc (rw same at h) in
        let (b, found) = get_elem?-lt tasks i low in
        let own : (i == i) ≡ true = ground arith in
        rw e (
          all-IsAborted hs i (update_task abort_task i tasks)
            (abort_task b, rw (get_elem?-update abort_task i i tasks, own, found) refl, refl))
    | inr other ↦
        lookup-IsAborted hs k i (update_task abort_task l tasks) (rw other at h)
          (omega (arith, low, length-update abort_task l tasks))
  ]
