-- ===== src/JobQueue.antt =====
-- pkg/internal/jobqueue/jobqueue.go: the background queue, as the steps that its clients, its loop
-- and its workers can take. `incoming` is unbuffered, so a send on it is one step with the loop.
mod Examples
pub mod Options
pub mod Bounds
pub mod Order
pub mod Drain
pub mod Ending
pub mod Fifo
pub mod Contexts
use indexing_service.Prelude.{
  ℕ, zero, suc, ◌+◌, Bool, true, false, Option, none, some, List, [], ◌∷◌, ◌++◌, ltb, length,
  get_elem?, erase_idx, if◌then◌else◌,
}
use indexing_service.Result.{Err}

-- Where the goroutine of `run` stands: at the read of `incoming`, at the send of a job to the workers,
-- at the wait for the workers after a quit message, or at its end, when `closed` is closed.
pub data Loop (Job : Type 0) : Type 0 where
  receiving draining done : Loop Job
  sending : Job → Loop Job

-- Where a call of Shutdown stands: not made, at the send of the quit message, or past it.
pub data Shutdown : Type 0 where
  not_called quitting quit_sent : Shutdown

-- The configuration: the timeouts in nanoseconds, 0 for none, whether there is an error handler, the
-- size of the buffer of `outgoing`, and the number of workers.
pub record Config : Type 0 where
  pub job_timeout : ℕ
  pub shutdown_timeout : ℕ
  pub error_handler : Bool
  pub buffer : ℕ
  pub concurrency : ℕ

-- `outgoing` is the channel's buffer, `idle` counts workers at a read of it, `handling` are the jobs
-- in handlers, `errors` what the error handler was given, last first. For the theorems, `accepted` are
-- the jobs for which Queue returned nil, in order, `taken` those that workers have taken, in order,
-- and `handled` those whose handler has returned.
pub record JobQueue (Job : Type 0) : Type 0 where
  pub config : Config
  pub loop : Loop Job
  pub shutdown : Shutdown
  pub outgoing : List Job
  pub idle : ℕ
  pub handling : List Job
  pub errors : List Err
  pub accepted : List Job
  pub taken : List Job
  pub handled : List Job

-- `closing` is closed by Shutdown first.
pub is_closing : Shutdown → Bool
is_closing not_called = false
is_closing quitting = true
is_closing quit_sent = true

-- The queue after NewJobQueue and Startup.
unfoldable pub new_job_queue : {Job : Type 0} → Config → JobQueue Job
new_job_queue c = record {
  config = c;
  loop = receiving;
  shutdown = not_called;
  outgoing = [];
  idle = c.concurrency;
  handling = [];
  errors = [];
  accepted = [];
  taken = [];
  handled = [];
}

pub data Event (Job : Type 0) : Type 0 where
  -- Queue sends its job, or returns ErrQueueShutdown. (A caller whose context is done changes
  -- nothing.)
  accepts : Job → Event Job
  refuses : Event Job
  -- Shutdown closes `closing`; then the loop receives its quit message.
  shuts_down : Event Job
  receives_quit : Event Job
  -- The loop puts its job in the buffer, or hands it to a waiting worker.
  puts : Event Job
  hands_over : Event Job
  -- A worker takes a job from the buffer; a handler returns, with an error or none.
  takes : Event Job
  handler_returns : ℕ → Option Err → Event Job
  -- All workers have ended, and the loop ends.
  ends : Event Job

-- The end of handleJob: an error goes to the error handler, if there is one.
unfoldable pub report : Option Err → Bool → List Err → List Err
report none handler errs = errs
report (some err) handler errs = if handler then err ∷ errs else errs

module _ {Job : Type 0} where
  accept : JobQueue Job → Job → Loop Job → Option (JobQueue Job)
  accept q j receiving = some (record q { loop = sending j; accepted = q.accepted ++ j ∷ [] })
  accept q j _ = none

  put : JobQueue Job → Loop Job → Option (JobQueue Job)
  put q (sending j) =
      if ltb (length q.outgoing) q.config.buffer
      then some (record q { loop = receiving; outgoing = q.outgoing ++ j ∷ [] })
      else none
  put q _ = none

  -- A direct hand-over needs an empty buffer and a waiting worker.
  hand_over : JobQueue Job → Loop Job → List Job → ℕ → Option (JobQueue Job)
  hand_over q (sending j) [] (suc idle) = some (record q {
    loop = receiving;
    idle = idle;
    handling = j ∷ q.handling;
    taken = q.taken ++ j ∷ [];
  })
  hand_over q _ _ _ = none

  take : JobQueue Job → List Job → ℕ → Option (JobQueue Job)
  take q (j ∷ js) (suc idle) = some (record q {
    outgoing = js;
    idle = idle;
    handling = j ∷ q.handling;
    taken = q.taken ++ j ∷ [];
  })
  take q _ _ = none

  -- The second close of `closing` would panic.
  shut_down : JobQueue Job → Shutdown → Option (JobQueue Job)
  shut_down q not_called = some (record q { shutdown = quitting })
  shut_down q _ = none

  receive_quit : JobQueue Job → Loop Job → Shutdown → Option (JobQueue Job)
  receive_quit q receiving quitting = some (record q { loop = draining; shutdown = quit_sent })
  receive_quit q _ _ = none

  end_loop : JobQueue Job → Loop Job → List Job → List Job → Option (JobQueue Job)
  end_loop q draining [] [] = some (record q { loop = done; idle = 0 })
  end_loop q _ _ _ = none

  -- The queue after a step; none where the step is not possible.
  unfoldable pub step : Event Job → JobQueue Job → Option (JobQueue Job)
  unfolding accept put hand_over take shut_down receive_quit end_loop is_closing
  step (accepts j) q = accept q j q.loop
  step refuses q = if is_closing q.shutdown then some q else none
  step shuts_down q = shut_down q q.shutdown
  step receives_quit q = receive_quit q q.loop q.shutdown
  step puts q = put q q.loop
  step hands_over q = hand_over q q.loop q.outgoing q.idle
  step takes q = take q q.outgoing q.idle
  step (handler_returns i e) q = elim (get_elem? q.handling i) [
    | none ↦ none
    | some j ↦ some (record q {
      idle = q.idle + 1;
      handling = erase_idx q.handling i;
      errors = report e q.config.error_handler q.errors;
      handled = j ∷ q.handled;
    })
  ]
  step ends q = end_loop q q.loop q.outgoing q.handling

  abbrev or_same : JobQueue Job → Option (JobQueue Job) → JobQueue Job
  or_same q none = q
  or_same q (some q') = q'

  -- The queue after a sequence of steps; a step that is not possible is passed over.
  unfoldable pub run : JobQueue Job → List (Event Job) → JobQueue Job
  run q [] = q
  run q (event ∷ events) = run (or_same q (step event q)) events
