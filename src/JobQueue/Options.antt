-- ===== src/JobQueue/Options.antt =====
-- The options of a job queue (pkg/internal/jobqueue/jobqueue.go). What an error handler was given is
-- `errors` of the queue's state.
use indexing_service.Prelude.{ℕ, false, true, List, [], ◌∷◌}
use indexing_service.JobQueue.{Config}

abbrev pub Option : Type 0
Option = Config → Config

unfoldable pub with_buffer : ℕ → Option
with_buffer buffer c = record c { buffer = buffer }

unfoldable pub with_concurrency : ℕ → Option
with_concurrency concurrency c = record c { concurrency = concurrency }

-- An error handler that is not nil.
unfoldable pub with_error_handler : Option
with_error_handler c = record c { error_handler = true }

unfoldable pub with_job_timeout : ℕ → Option
with_job_timeout job_timeout c = record c { job_timeout = job_timeout }

unfoldable pub with_shutdown_timeout : ℕ → Option
with_shutdown_timeout shutdown_timeout c = record c { shutdown_timeout = shutdown_timeout }

unfoldable pub apply : List Option → Config → Config
apply [] c = c
apply (opt ∷ opts) c = apply opts (opt c)

-- The configuration that NewJobQueue makes of its options.
unfoldable pub configure : List Option → Config
unfolding apply
configure opts = apply opts (record {
  job_timeout = 0;
  shutdown_timeout = 0;
  error_handler = false;
  buffer = 0;
  concurrency = 1;
})
