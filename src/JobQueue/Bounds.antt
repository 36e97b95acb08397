-- ===== src/JobQueue/Bounds.antt =====
-- The bounds of the queue by the numbers that its configuration gives.
use mathlib.Core.Path.{subst}
use indexing_service.Prelude.{
  ℕ, zero, suc, ◌≤◌, ◌≡◌, ◌∙◌, refl, ap, arith, some, List, [], ◌∷◌, length, ltb, Bool-cases, inl,
  inr, Option-cases, get_elem?,
}
use indexing_service.JobQueue.{
  Loop, receiving, draining, done, sending, Shutdown, not_called, quitting, Config, JobQueue,
  new_job_queue, is_closing, Event, accepts, refuses, shuts_down, receives_quit, puts, hands_over,
  takes, handler_returns, ends, accept, put, hand_over, take, shut_down, receive_quit, end_loop,
  step, run,
}
use indexing_service.JobQueue.Order.{Inv, run-new_job_queue-Inv}

module _ {Job : Type 0} where
  by_value : (x q q' : JobQueue Job) → some x ≡ some q' → x.config ≡ q.config → q'.config ≡ q.config
  by_value x q q' e h = subst (λ y. y.config ≡ q.config) (same e) h
    where
      same : some x ≡ some q' → x ≡ q'
      same e' = cc

  accept-config :
      (q q' : JobQueue Job) (j : Job) (l : Loop Job) → accept q j l ≡ some q' → q'.config ≡ q.config
  unfolding accept
  accept-config q q' j receiving e = by_value _ q q' e refl
  accept-config q q' j _ e = cc

  put-config : (q q' : JobQueue Job) (l : Loop Job) → put q l ≡ some q' → q'.config ≡ q.config
  unfolding put
  put-config q q' (sending j) e = elim (Bool-cases (ltb (length q.outgoing) q.config.buffer)) [
    | inr full ↦ cc
    | inl room ↦ by_value _ q q' (rw room at e) refl
  ]
  put-config q q' receiving e = cc
  put-config q q' _ e = cc

  hand_over-config :
      (q q' : JobQueue Job) (l : Loop Job) (out : List Job) (idle : ℕ)
      → hand_over q l out idle ≡ some q'
      → q'.config ≡ q.config
  unfolding hand_over
  hand_over-config q q' (sending j) [] (suc idle) e = by_value _ q q' e refl
  hand_over-config q q' (sending j) [] zero e = cc
  hand_over-config q q' (sending j) (k ∷ ks) _ e = cc
  hand_over-config q q' receiving _ _ e = cc
  hand_over-config q q' _ _ _ e = cc

  take-config :
      (q q' : JobQueue Job) (out : List Job) (idle : ℕ)
      → take q out idle ≡ some q'
      → q'.config ≡ q.config
  unfolding take
  take-config q q' (j ∷ js) (suc idle) e = by_value _ q q' e refl
  take-config q q' (j ∷ js) zero e = cc
  take-config q q' [] _ e = cc

  shut_down-config :
      (q q' : JobQueue Job) (s : Shutdown) → shut_down q s ≡ some q' → q'.config ≡ q.config
  unfolding shut_down
  shut_down-config q q' not_called e = by_value _ q q' e refl
  shut_down-config q q' _ e = cc

  receive_quit-config :
      (q q' : JobQueue Job) (l : Loop Job) (s : Shutdown)
      → receive_quit q l s ≡ some q'
      → q'.config ≡ q.config
  unfolding receive_quit
  receive_quit-config q q' receiving quitting e = by_value _ q q' e refl
  receive_quit-config q q' receiving not_called e = cc
  receive_quit-config q q' receiving _ e = cc
  receive_quit-config q q' _ _ e = cc

  end_loop-config :
      (q q' : JobQueue Job) (l : Loop Job) (out handling : List Job)
      → end_loop q l out handling ≡ some q'
      → q'.config ≡ q.config
  unfolding end_loop
  end_loop-config q q' draining [] [] e = by_value _ q q' e refl
  end_loop-config q q' draining [] (j ∷ js) e = cc
  end_loop-config q q' draining (j ∷ js) _ e = cc
  end_loop-config q q' receiving _ _ e = cc
  end_loop-config q q' _ _ _ e = cc

  pub step-config :
      (event : Event Job) (q q' : JobQueue Job) → step event q ≡ some q' → q'.config ≡ q.config
  unfolding step
  step-config (accepts j) q q' e = accept-config q q' j q.loop e
  step-config refuses q q' e = elim (Bool-cases (is_closing q.shutdown)) [
    | inl c ↦ by_value q q q' (ground arith) refl
    | inr c ↦ cc
  ]
  step-config shuts_down q q' e = shut_down-config q q' q.shutdown e
  step-config receives_quit q q' e = receive_quit-config q q' q.loop q.shutdown e
  step-config puts q q' e = put-config q q' q.loop e
  step-config hands_over q q' e = hand_over-config q q' q.loop q.outgoing q.idle e
  step-config takes q q' e = take-config q q' q.outgoing q.idle e
  step-config (handler_returns i x) q q' e = elim (Option-cases (get_elem? q.handling i)) [
    | inl p ↦ cc
    | inr (j, p) ↦ by_value _ q q' (rw (p, step) at e) refl
  ]
  step-config ends q q' e = end_loop-config q q' q.loop q.outgoing q.handling e

  run-config : (q : JobQueue Job) (events : List (Event Job)) → (run q events).config ≡ q.config
  unfolding run
  run-config q [] = refl
  run-config q (event ∷ events) = elim (Option-cases (step event q)) [
    | inl e ↦ rw (e, run) (run-config q events)
    | inr (q', e) ↦ rw (e, run) (run-config q' events ∙ step-config event q q' e)
  ]

  handling_bound :
      (q : JobQueue Job) (l : Loop Job)
      → q.loop ≡ l
      → Inv q
      → length q.handling ≤ q.config.concurrency
  handling_bound q done p v = omega (arith, ap length (v.ended p).1)
  handling_bound q receiving p v = omega (arith, v.workers (λ d. cc))
  handling_bound q draining p v = omega (arith, v.workers (λ d. cc))
  handling_bound q (sending j) p v = omega (arith, v.workers (λ d. cc))

  -- A queue of any configuration keeps to it: never more jobs wait than its buffer has room for, and
  -- never more are handled at once than it has workers.
  pub run-bounds :
      (c : Config) (events : List (Event Job))
      → (length (run (new_job_queue c) events).outgoing ≤ c.buffer)
        × (length (run (new_job_queue c) events).handling ≤ c.concurrency)
  unfolding new_job_queue
  run-bounds c events =
      let q = run (new_job_queue c) events in
      let v = run-new_job_queue-Inv c events in
      let same = run-config (new_job_queue c) events in
      (
        omega (arith, v.bounded, ap (λ c. c.buffer) same),
        omega (arith, handling_bound q q.loop refl v, ap (λ c. c.concurrency) same),
      )
