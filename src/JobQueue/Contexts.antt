-- ===== src/JobQueue/Contexts.antt =====
-- The contexts that the queue's handlers get, and a worker that takes its jobs one after another
-- (pkg/internal/jobqueue/jobqueue.go, lines 140 to 211). Moments are in nanoseconds, and no timeout is
-- negative.
pub mod Timely
mod Examples
use indexing_service.Prelude.{
  ℕ, ◌+◌, Bool, Option, none, some, List, [], ◌∷◌, if◌then◌else◌, ltb, ◌==◌,
}
use indexing_service.Result.{Err}
use indexing_service.JobQueue.{Config, report}

-- A context as the moment at which it is done; none for one that nobody cancels while a handler uses
-- it.
abbrev pub Context : Type 0
Context = Option ℕ

-- context.WithTimeout, called at a moment: a context is done when its parent is.
unfoldable pub with_timeout : Context → (now timeout : ℕ) → Context
with_timeout none now timeout = some (now + timeout)
with_timeout (some end) now timeout =
    if ltb end (now + timeout) then some end else some (now + timeout)

-- The context of all handlers, for a queue that receives its quit message at a moment, or never. The
-- cancel at the end of the loop comes after the last handler.
unfoldable pub run_ctx : Config → (quit : Option ℕ) → Context
run_ctx c none = none
run_ctx c (some quit) = if c.shutdown_timeout == 0 then none else some (quit + c.shutdown_timeout)

unfoldable pub job_ctx : Config → Context → (now : ℕ) → Context
job_ctx c ctx now = if c.job_timeout == 0 then ctx else with_timeout ctx now c.job_timeout

-- A handler, called at a moment: when it returns, and its error.
abbrev pub Handler : Type 0 → Type 0
Handler Job = Context → ℕ → Job → ℕ × Option Err

module _ {Job : Type 0} (c : Config) (handler : Handler Job) (ctx : Context) where
  -- A moment, and what the error handler was given, last first.
  unfoldable pub handle_job : Job → ℕ × List Err → ℕ × List Err
  unfolding job_ctx report
  handle_job j (now, errs) =
      let (end, err) = handler (job_ctx c ctx now) now j in (end, report err c.error_handler errs)

  -- A worker that finds its jobs waiting.
  unfoldable pub worker : List Job → ℕ × List Err → ℕ × List Err
  worker [] s = s
  worker (j ∷ js) s = worker js (handle_job j s)
