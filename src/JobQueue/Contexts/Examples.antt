-- ===== src/JobQueue/Contexts/Examples.antt =====
-- A worker with two jobs, whose handlers wait for their context, and whose queue is shut down.
use indexing_service.Prelude.{
  refl, ◌≡◌, ℕ, ◌+◌, ◌≤◌, true, none, some, [], ◌∷◌, if◌then◌else◌, ltb, arith,
}
use indexing_service.Result.{foreign}
use indexing_service.JobQueue.{Config, report}
use indexing_service.JobQueue.Contexts.{Handler, run_ctx, job_ctx, handle_job, worker}
use indexing_service.JobQueue.Contexts.Timely.{DoneBy, Responds, worker-shutdown_timeout}

abbrev config : Config
config = record {
  job_timeout = 0;
  shutdown_timeout = 10;
  error_handler = true;
  buffer = 1;
  concurrency = 1;
}

-- A handler that needs 2 to stop after its context is done, and stops with an error.
abbrev waits : Handler ℕ
waits none now j = (now + j, none)
waits (some end) now j = ((if ltb now end then end else now) + 2, some (foreign j))

waits-Responds : Responds waits 2
unfolding DoneBy
waits-Responds none now j t le h = absurd h
waits-Responds (some end) now j t le h = ground arith

two_jobs :
    worker config waits (run_ctx config (some 5)) (7 ∷ 8 ∷ []) (3, [])
    ≡ (19, foreign 8 ∷ foreign 7 ∷ [])
unfolding worker handle_job run_ctx job_ctx report
two_jobs = refl

worker-shutdown_timeout_example :
    (worker config waits (run_ctx config (some 5)) (7 ∷ 8 ∷ []) (3, [])).0 ≤ 19
worker-shutdown_timeout_example =
    worker-shutdown_timeout config waits 2 waits-Responds 5 3 (7 ∷ 8 ∷ []) [] (λ e. cc)
      (omega arith)
