-- ===== src/JobQueue/Fifo.antt =====
-- What the queue promises: a bounded first-in first-out queue with so many jobs running at most,
-- which can be closed, and is at its end when it is closed and nothing waits or runs.
use mathlib.Core.List.{append-nil}
use indexing_service.Prelude.{
  ℕ, zero, suc, ◌+◌, ◌≡◌, refl, Bool, true, false, ◌&&◌, Option, none, some, List, [], ◌∷◌, ◌++◌,
  arith, ltb, length, get_elem?, erase_idx, Option-cases, inl, inr, if◌then◌else◌,
}
use indexing_service.JobQueue.{
  Loop, receiving, draining, done, sending, Shutdown, not_called, quitting, quit_sent, Config,
  JobQueue, new_job_queue, Event, accepts, refuses, shuts_down, receives_quit, puts, hands_over,
  takes, handler_returns, ends, accept, put, hand_over, take, shut_down, receive_quit, end_loop,
  step, run,
}
use indexing_service.JobQueue.Order.{held, Inv, new_job_queue-Inv, step-Inv}

pub record Fifo (Job : Type 0) : Type 0 where
  pub capacity : ℕ
  pub workers : ℕ
  pub waiting : List Job
  pub running : List Job
  pub is_open : Bool

pub data Action (Job : Type 0) : Type 0 where
  enqueue : Job → Action Job
  start close stop skip : Action Job
  finish : ℕ → Action Job

module _ {Job : Type 0} where
  abbrev is_empty : List Job → Bool
  is_empty [] = true
  is_empty (j ∷ js) = false

  abbrev start_first : Fifo Job → List Job → Option (Fifo Job)
  start_first f [] = none
  start_first f (j ∷ js) =
      if ltb (length f.running) f.workers
      then some (record f { waiting = js; running = j ∷ f.running })
      else none

  -- What an action does; none where it is not allowed.
  abbrev pub perform : Action Job → Fifo Job → Option (Fifo Job)
  perform (enqueue j) f =
      if f.is_open && ltb (length f.waiting) f.capacity
      then some (record f { waiting = f.waiting ++ j ∷ [] })
      else none
  perform start f = start_first f f.waiting
  perform (finish i) f = elim (get_elem? f.running i) [
    | none ↦ none
    | some j ↦ some (record f { running = erase_idx f.running i })
  ]
  perform close f = if f.is_open then some (record f { is_open = false }) else none
  perform stop f =
      if f.is_open then none else if is_empty f.waiting && is_empty f.running then some f else none
  perform skip f = some f

  -- A sequence of actions, all of them allowed.
  pub perform_all : List (Action Job) → Fifo Job → Option (Fifo Job)
  perform_all [] f = some f
  perform_all (a ∷ actions) f = elim (perform a f) [
    | none ↦ none
    | some f' ↦ perform_all actions f'
  ]

  abbrev accepting : Loop Job → Bool
  accepting receiving = true
  accepting (sending j) = true
  accepting draining = false
  accepting done = false

  -- The queue from outside: the job that the loop holds waits behind those in the buffer.
  abbrev pub contents : JobQueue Job → Fifo Job
  contents q = record {
    capacity = q.config.buffer + 1;
    workers = q.config.concurrency;
    waiting = q.outgoing ++ held q.loop;
    running = q.handling;
    is_open = accepting q.loop;
  }

  abbrev pub action : Event Job → Action Job
  action (accepts j) = enqueue j
  action refuses = skip
  action shuts_down = skip
  action receives_quit = close
  action puts = skip
  action hands_over = start
  action takes = start
  action (handler_returns i e) = finish i
  action ends = stop

  -- The actions of the steps that are possible.
  unfoldable pub actions : JobQueue Job → List (Event Job) → List (Action Job)
  actions q [] = []
  actions q (event ∷ events) = elim (step event q) [
    | none ↦ actions q events
    | some q' ↦ action event ∷ actions q' events
  ]

  -- The queue as a value of its parts.
  abbrev Performs : Action Job → JobQueue Job → Option (JobQueue Job) → Type 0
  Performs a q o = (q' : JobQueue Job) → o ≡ some q' → perform a (contents q) ≡ some (contents q')

  accept-Performs :
      (q : JobQueue Job) (j : Job) (l : Loop Job)
      → q.loop ≡ l
      → Inv q
      → Performs (enqueue j) q (accept q j l)
  unfolding accept
  accept-Performs q j receiving p v q' e = ground (arith, append-nil q.outgoing)
  accept-Performs q j _ p v q' e = cc

  put-Performs : (q : JobQueue Job) (l : Loop Job) → q.loop ≡ l → Performs skip q (put q l)
  unfolding put
  put-Performs q (sending j) p q' e = ground (arith, append-nil (q.outgoing ++ j ∷ []))
  put-Performs q receiving p q' e = cc
  put-Performs q _ p q' e = cc

  hand_over-Performs :
      (q : JobQueue Job) (l : Loop Job) (out : List Job) (idle : ℕ)
      → q.loop ≡ l
      → q.outgoing ≡ out
      → q.idle ≡ idle
      → Inv q
      → Performs start q (hand_over q l out idle)
  unfolding hand_over
  hand_over-Performs q (sending j) [] (suc idle) p o d v q' e = ground (arith, v.workers (λ x. cc))
  hand_over-Performs q (sending j) [] zero p o d v q' e = cc
  hand_over-Performs q (sending j) (k ∷ ks) _ p o d v q' e = cc
  hand_over-Performs q receiving _ _ p o d v q' e = cc
  hand_over-Performs q _ _ _ p o d v q' e = cc

  take-Performs :
      (q : JobQueue Job) (out : List Job) (idle : ℕ)
      → q.outgoing ≡ out
      → q.idle ≡ idle
      → Inv q
      → Performs start q (take q out idle)
  unfolding take
  take-Performs q (j ∷ js) (suc idle) o d v q' e =
      ground (arith, v.workers (λ x. let (a, b) = v.ended x in cc))
  take-Performs q (j ∷ js) zero o d v q' e = cc
  take-Performs q [] _ o d v q' e = cc

  receive_quit-Performs :
      (q : JobQueue Job) (l : Loop Job) (s : Shutdown)
      → q.loop ≡ l
      → Performs close q (receive_quit q l s)
  unfolding receive_quit
  receive_quit-Performs q receiving quitting p q' e = ground arith
  receive_quit-Performs q receiving not_called p q' e = cc
  receive_quit-Performs q receiving quit_sent p q' e = cc
  receive_quit-Performs q _ _ p q' e = cc

  shut_down-Performs : (q : JobQueue Job) (s : Shutdown) → Performs skip q (shut_down q s)
  unfolding shut_down
  shut_down-Performs q not_called q' e = ground arith
  shut_down-Performs q _ q' e = cc

  end_loop-Performs :
      (q : JobQueue Job) (l : Loop Job) (out handling : List Job)
      → q.loop ≡ l
      → q.outgoing ≡ out
      → q.handling ≡ handling
      → Performs stop q (end_loop q l out handling)
  unfolding end_loop
  end_loop-Performs q draining [] [] p o h q' e = ground arith
  end_loop-Performs q draining [] (j ∷ js) p o h q' e = cc
  end_loop-Performs q draining (j ∷ js) handling p o h q' e = cc
  end_loop-Performs q _ _ _ p o h q' e = cc

  step-Performs :
      (event : Event Job) (q : JobQueue Job) → Inv q → Performs (action event) q (step event q)
  unfolding step
  step-Performs (accepts j) q v = accept-Performs q j q.loop refl v
  step-Performs refuses q v = λ q' e. ground arith
  step-Performs shuts_down q v = shut_down-Performs q q.shutdown
  step-Performs receives_quit q v = receive_quit-Performs q q.loop q.shutdown refl
  step-Performs puts q v = put-Performs q q.loop refl
  step-Performs hands_over q v = hand_over-Performs q q.loop q.outgoing q.idle refl refl refl v
  step-Performs takes q v = take-Performs q q.outgoing q.idle refl refl v
  step-Performs (handler_returns i x) q v = λ q' e. ground arith
  step-Performs ends q v = end_loop-Performs q q.loop q.outgoing q.handling refl refl refl

  run-perform_all :
      (q : JobQueue Job) (events : List (Event Job))
      → Inv q
      → perform_all (actions q events) (contents q) ≡ some (contents (run q events))
  unfolding perform_all actions run
  run-perform_all q [] v = refl
  run-perform_all q (event ∷ events) v = elim (Option-cases (step event q)) [
    | inl e ↦ rw (e, actions) (rw (e, run) (run-perform_all q events v))
    | inr (q', e) ↦
        rw (e, actions)
          (rw (e, run)
            (rw (step-Performs event q v q' e, perform_all)
              (run-perform_all q' events (step-Inv event q q' e v))))
  ]

  -- From outside, the queue is a bounded first-in first-out queue: whatever clients, loop and
  -- workers do, the steps that are possible are allowed actions on the queue of the waiting jobs,
  -- in which the job that the loop holds stands behind those in the buffer. A job is accepted only
  -- while the queue is open and has room for the buffer and one more, the first waiting job is the
  -- next to be started, no more jobs run than there are workers, and the queue ends only when it
  -- is closed and no job waits or runs.
  pub run-Fifo :
      (c : Config) (events : List (Event Job))
      → perform_all (actions (new_job_queue c) events) (record {
        capacity = c.buffer + 1;
        workers = c.concurrency;
        waiting = [];
        running = [];
        is_open = true;
      })
        ≡ some (contents (run (new_job_queue c) events))
  unfolding new_job_queue
  run-Fifo c events = run-perform_all (new_job_queue c) events (new_job_queue-Inv c)
