-- ===== src/JobWalker/Parallel.antt =====
-- pkg/internal/jobwalker/parallelwalk/parallelwalk.go: the walker with several workers, as the steps
-- that its coordinator and its workers can take. Channels are unbuffered, so a message is one step of
-- both sides. A handler is what it does between the steps: it swaps the state and spawns jobs any
-- number of times, and then returns or fails.
mod Examples
pub mod Counts
pub mod Progress
pub mod States
pub mod Submitted
pub mod Workers
use indexing_service.Prelude.{
  ℕ, zero, suc, ◌+◌, ◌-◌, Bool, true, false, Option, none, some, List, [], ◌∷◌, ◌++◌, ◌==◌,
  get_elem?, erase_idx, if◌then◌else◌,
}
use indexing_service.Result.{Err, no_initial_job, Result, ok, err}

-- What the walk has returned.
pub data Phase : Type 0 where
  walking returned : Phase
  failed : Err → Phase

-- `next` is nextJob with queuedJobs behind it, and is empty where jobProcessor is nil. `idle` counts
-- workers that wait for a job; `running` are the jobs in handlers, `finishing` those whose worker
-- reports their end, `failing` the errors that workers report. `cancelled` is the error of a context
-- that is done. For the theorems, `submitted` are the initial and spawned jobs, `completed` those
-- whose end was received, and `lost` those whose handler failed or whose end was not reported.
pub record Walk (Job State : Type 0) : Type 0 where
  pub next : List Job
  pub in_progress : ℕ
  pub idle : ℕ
  pub running : List Job
  pub finishing : List Job
  pub failing : List Err
  pub cancelled : Option Err
  pub state : State
  pub phase : Phase
  pub submitted : List Job
  pub completed : List Job
  pub lost : List Job

module _ {Job State : Type 0} where
  -- The walk before its first step, for a concurrency and at least one job.
  unfoldable pub new_walk : ℕ → Job → List Job → State → Walk Job State
  new_walk concurrency j js state = record {
    next = j ∷ js;
    in_progress = 0;
    idle = concurrency;
    running = [];
    finishing = [];
    failing = [];
    cancelled = none;
    state = state;
    phase = walking;
    submitted = j ∷ js;
    completed = [];
    lost = [];
  }

  unfoldable pub parallel_walk : ℕ → List Job → State → Result (Walk Job State)
  parallel_walk concurrency [] state = err no_initial_job
  parallel_walk concurrency (j ∷ js) state = ok (new_walk concurrency j js state)

-- CmpSwap of threadSafeState: a first test on a state read before, and, if that passed, the test and
-- the change of the current state under the lock.
unfoldable pub locked_swap :
    {State : Type 0} → (State → Bool) → (State → State) → State → State → State
locked_swap will_modify modify read current =
    if will_modify read then if will_modify current then modify current else current else current

-- A step is named by what happens, and for a worker by the place of its job or error.
pub data Event (Job State : Type 0) : Type 0 where
  feeds : Event Job State
  swaps : ℕ → (State → Bool) → (State → State) → State → Event Job State
  spawns : ℕ → Job → Event Job State
  handler_returns : ℕ → Event Job State
  handler_fails : ℕ → Err → Event Job State
  receives_finish : ℕ → Event Job State
  receives_error : ℕ → Event Job State
  cancels : Err → Event Job State
  notices_cancel : Event Job State
  drops_finish : ℕ → Event Job State
  drops_error : ℕ → Event Job State

-- `case queued := <-spawnedJobs`: it becomes the next job if there is none, and else is queued.
unfoldable pub enqueue : {Job : Type 0} → List Job → Job → List Job
enqueue [] queued = queued ∷ []
enqueue (j ∷ js) queued = j ∷ (js ++ queued ∷ [])

unfoldable pub has_next_job : {Job : Type 0} → List Job → Bool
has_next_job [] = false
has_next_job (j ∷ js) = true

-- `case <-jobFinishes`: the count falls, and the walk returns if it is 0 and nothing is next.
unfoldable pub finish_phase : {Job : Type 0} → ℕ → List Job → Phase
unfolding has_next_job
finish_phase in_progress next =
    if in_progress == 0 then if has_next_job next then walking else returned else walking

module _ {Job State : Type 0} where
  -- `case jobProcessor <- nextJob`.
  unfoldable pub feed : Walk Job State → List Job → ℕ → Option (Walk Job State)
  feed w [] idle = none
  feed w (j ∷ js) zero = none
  feed w (j ∷ js) (suc idle) = some (record w {
    next = js;
    in_progress = w.in_progress + 1;
    idle = idle;
    running = j ∷ w.running;
  })

  unfoldable pub received : Walk Job State → ℕ → Job → Walk Job State
  unfolding finish_phase
  received w i j = record w {
    in_progress = w.in_progress - 1;
    idle = w.idle + 1;
    finishing = erase_idx w.finishing i;
    completed = j ∷ w.completed;
    phase = finish_phase (w.in_progress - 1) w.next;
  }

  -- The steps while the walk has not returned; none where a step is not possible.
  unfoldable pub walk_step : Event Job State → Walk Job State → Option (Walk Job State)
  unfolding feed enqueue received locked_swap
  walk_step feeds w = feed w w.next w.idle
  walk_step (swaps i test change read) w = elim (get_elem? w.running i) [
    | none ↦ none
    | some j ↦ some (record w { state = locked_swap test change read w.state })
  ]
  walk_step (spawns i queued) w = elim (get_elem? w.running i) [
    | none ↦ none
    | some j ↦ some (record w { next = enqueue w.next queued; submitted = queued ∷ w.submitted })
  ]
  walk_step (handler_returns i) w = elim (get_elem? w.running i) [
    | none ↦ none
    | some j ↦ some (record w { running = erase_idx w.running i; finishing = j ∷ w.finishing })
  ]
  walk_step (handler_fails i e) w = elim (get_elem? w.running i) [
    | none ↦ none
    | some j ↦
        some
          (record w { running = erase_idx w.running i; failing = e ∷ w.failing; lost = j ∷ w.lost })
  ]
  walk_step (receives_finish i) w = elim (get_elem? w.finishing i) [
    | none ↦ none
    | some j ↦ some (received w i j)
  ]
  walk_step (receives_error i) w = elim (get_elem? w.failing i) [
    | none ↦ none
    | some e ↦ some (record w { failing = erase_idx w.failing i; phase = failed e })
  ]
  walk_step (cancels e) w = some (record w { cancelled = some e })
  walk_step notices_cancel w = elim w.cancelled [
    | none ↦ none
    | some e ↦ some (record w { phase = failed e })
  ]
  walk_step (drops_finish i) w = elim w.cancelled [
    | none ↦ none
    | some e ↦ elim (get_elem? w.finishing i) [
      | none ↦ none
      | some j ↦
          some
            (record w { idle = w.idle + 1; finishing = erase_idx w.finishing i; lost = j ∷ w.lost })
    ]
  ]
  walk_step (drops_error i) w = elim w.cancelled [
    | none ↦ none
    | some e ↦ elim (get_elem? w.failing i) [
      | none ↦ none
      | some e' ↦ some (record w { failing = erase_idx w.failing i })
    ]
  ]

  -- After the walk has returned it takes no step.
  unfoldable pub step : Event Job State → Walk Job State → Option (Walk Job State)
  unfolding walk_step
  step event w = elim w.phase [ walking ↦ walk_step event w | returned ↦ none | failed e ↦ none ]

  -- A walk after a sequence of steps; a step that is not possible is passed over.
  abbrev or_same : Walk Job State → Option (Walk Job State) → Walk Job State
  or_same w none = w
  or_same w (some w') = w'

  unfoldable pub run : Walk Job State → List (Event Job State) → Walk Job State
  run w [] = w
  run w (event ∷ events) = run (or_same w (step event w)) events
