-- ===== src/JobQueue/Contexts/Timely.antt =====
-- When a worker of a queue is through its jobs, by the timeouts of the configuration.
use indexing_service.Prelude.{
  ℕ, suc, ◌+◌, ◌*◌, ◌≤◌, ◌≢◌, arith, none, some, List, [], ◌∷◌, length, ltb, ◌==◌, ==_iff, inl, inr,
  Bool-cases,
}
use indexing_service.Result.{Err}
use indexing_service.JobQueue.{Config}
use indexing_service.JobQueue.Contexts.{
  Context, with_timeout, run_ctx, job_ctx, Handler, handle_job, worker,
}

-- A context that is done at a moment or before.
unfoldable pub DoneBy : Context → ℕ → Type 0
DoneBy none t = ⊥
DoneBy (some end) t = end ≤ t

-- A handler that returns at most a delay after its context is done, or after its call if that is
-- later.
abbrev pub Responds : {Job : Type 0} → Handler Job → ℕ → Type 0
Responds {Job} handler delay =
    (ctx : Context) (now : ℕ) (j : Job) (t : ℕ)
    → now ≤ t
    → DoneBy ctx t
    → (handler ctx now j).0 ≤ t + delay

DoneBy-with_timeout :
    (ctx : Context) (now timeout t : ℕ) → DoneBy ctx t → DoneBy (with_timeout ctx now timeout) t
unfolding DoneBy with_timeout
DoneBy-with_timeout none now timeout t h = absurd h
DoneBy-with_timeout (some end) now timeout t h = elim (Bool-cases (ltb end (now + timeout))) [
  | inl e ↦ rw e h
  | inr e ↦ rw e (ground arith)
]

DoneBy-timeout :
    (ctx : Context) (now timeout : ℕ) → DoneBy (with_timeout ctx now timeout) (now + timeout)
unfolding DoneBy with_timeout
DoneBy-timeout none now timeout = omega arith
DoneBy-timeout (some end) now timeout = elim (Bool-cases (ltb end (now + timeout))) [
  | inl e ↦ rw e (ground arith)
  | inr e ↦ rw e (omega arith)
]

-- What is done by a moment is done later.
DoneBy-later : (ctx : Context) (t delay : ℕ) → DoneBy ctx t → DoneBy ctx (t + delay)
unfolding DoneBy
DoneBy-later none t delay h = h
DoneBy-later (some end) t delay h = omega arith

-- A job's context is done when that of all handlers is.
pub DoneBy-job_ctx :
    (c : Config) (ctx : Context) (now t : ℕ) → DoneBy ctx t → DoneBy (job_ctx c ctx now) t
unfolding job_ctx
DoneBy-job_ctx c ctx now t h = elim (Bool-cases (c.job_timeout == 0)) [
  | inl e ↦ rw e h
  | inr e ↦ rw e (DoneBy-with_timeout ctx now c.job_timeout t h)
]

-- With a timeout for jobs, a job's context is done when the job has run for so long.
pub DoneBy-job_timeout :
    (c : Config) (ctx : Context) (now : ℕ)
    → c.job_timeout ≢ 0
    → DoneBy (job_ctx c ctx now) (now + c.job_timeout)
unfolding job_ctx
DoneBy-job_timeout c ctx now h = elim (Bool-cases (c.job_timeout == 0)) [
  | inl e ↦ absurd (h ((==_iff c.job_timeout 0).0 e))
  | inr e ↦ rw e (DoneBy-timeout ctx now c.job_timeout)
]

-- With a timeout for the shutdown, the context of all handlers is done so long after the quit message.
pub DoneBy-run_ctx :
    (c : Config) (quit : ℕ)
    → c.shutdown_timeout ≢ 0
    → DoneBy (run_ctx c (some quit)) (quit + c.shutdown_timeout)
unfolding run_ctx DoneBy
DoneBy-run_ctx c quit h = elim (Bool-cases (c.shutdown_timeout == 0)) [
  | inl e ↦ absurd (h ((==_iff c.shutdown_timeout 0).0 e))
  | inr e ↦ rw e (omega arith)
]

-- One more delay, and the delays of n jobs after it.
one_more :
    (x end now delay n : ℕ) → end ≤ now + delay → x ≤ end + delay * n → x ≤ now + delay * suc n
one_more x end now delay n le h = grind arith

module _ {Job : Type 0} (c : Config) (handler : Handler Job) (delay : ℕ)
    (responds : Responds handler delay) where
  -- A worker whose context is done by a moment before which it starts needs the delay for each job.
  worker-DoneBy :
      (ctx : Context) (t : ℕ) (js : List Job) (now : ℕ) (errs : List Err)
      → DoneBy ctx t
      → now ≤ t
      → (worker c handler ctx js (now, errs)).0 ≤ t + delay * length js
  unfolding worker handle_job
  worker-DoneBy ctx t [] now errs h le = omega arith
  worker-DoneBy ctx t (j ∷ js) now errs h le =
      one_more _ (t + delay) t delay (length js) (omega arith) (
        worker-DoneBy ctx (t + delay) js _ _ (DoneBy-later ctx t delay h)
          (responds (job_ctx c ctx now) now j t le (DoneBy-job_ctx c ctx now t h)))

  -- If a handler returns at most a delay after its context is done, or after its call if that is
  -- later, then a worker of a queue with a shutdown timeout that serves waiting jobs one after
  -- another, and starts before the timeout ends, is through them at the latest by the timeout
  -- after the quit message and the delay for each job, whatever the timeout of jobs.
  pub worker-shutdown_timeout :
      (quit now : ℕ) (js : List Job) (errs : List Err)
      → c.shutdown_timeout ≢ 0
      → now ≤ quit + c.shutdown_timeout
      → (worker c handler (run_ctx c (some quit)) js (now, errs)).0
        ≤ quit + c.shutdown_timeout + delay * length js
  worker-shutdown_timeout quit now js errs h le =
      worker-DoneBy _ _ js now errs (DoneBy-run_ctx c quit h) le

  -- With a timeout for jobs, a worker needs this time and the delay for each job at most.
  pub worker-job_timeout :
      (ctx : Context) (js : List Job) (now : ℕ) (errs : List Err)
      → c.job_timeout ≢ 0
      → (worker c handler ctx js (now, errs)).0 ≤ now + (c.job_timeout + delay) * length js
  unfolding worker handle_job
  worker-job_timeout ctx [] now errs h = omega arith
  worker-job_timeout ctx (j ∷ js) now errs h =
      let end = (handler (job_ctx c ctx now) now j).0 in
      let ended =
        responds (job_ctx c ctx now) now j (now + c.job_timeout) (omega arith)
          (DoneBy-job_timeout c ctx now h) in
      one_more _ end now (c.job_timeout + delay) (length js) (omega arith)
        (worker-job_timeout ctx js end _ h)
