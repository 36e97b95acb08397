-- ===== src/Service/Queries/Runs.antt =====
-- What a query has found when the runs of its job handler have all ended.
use native.Mathlib.Decide.{ℕ_discrete}
use indexing_service.Prelude.{
  some, ℕ, ◌≡◌, List, ◌∷◌, map, Bytes, arith, All, All-mono, All-map, All-total, total, ◌≤◌,
}
use indexing_service.Result.{Err, Io, Result, ok}
use indexing_service.BlobIndex.{ShardedDagIndex}
use indexing_service.JobWalker.{WrappedState}
use indexing_service.JobWalker.Parallel.{returned, new_walk, Event, run}
use indexing_service.JobWalker.Parallel.Counts.{returned-SameItems}
use indexing_service.JobWalker.Parallel.Submitted.{run-submitted}
use indexing_service.Service.Jobs.{Query, Job, QueryState}
use indexing_service.Service.Handler.{Libraries, IndexingService}
use indexing_service.Service.Handler.Guarantee.{Environment}
use indexing_service.Service.Handler.Runs.{Ran, VisitsByRuns, Served, Ran-Served}
use indexing_service.Service.Queries.Workers.{
  services_among, worker_state, spawn_job, query_state, GoodServices, worker_environment,
}
use indexing_service.ByteMap.{ByteMap}
use indexing_service.Service.Queries.Answers.{query-returned}
use indexing_service.Service.Queries.{query, standard_job, initial_state}

Job-discrete : Discrete Job
Job-discrete = hlevel (ℕ_discrete)

module _ {S Claim : Type 0} (Good : Bytes → Claim → Type 0)
    (GoodIndex : Bytes → ShardedDagIndex → Type 0) (is : IndexingService S Claim)
    (state : WrappedState S (QueryState Claim)) (spawn : Job → Io S (Unit {0}))
    (view : S → QueryState Claim) {Md : Type 0} (libs : Libraries Md)
    (env : Environment Good GoodIndex is state spawn view) where
  -- x
  pub query-Served :
      (n : ℕ) (q : Query) (mh : Bytes) (mhs : List Bytes)
      (events : List (Event Job (QueryState Claim)))
      → let w =
          run (new_walk n (standard_job mh) (map standard_job mhs) (initial_state q)) events in
        w.phase ≡ returned
        → All (Ran Good GoodIndex is state spawn view libs env w.state) w.completed
        → VisitsByRuns Good GoodIndex is state spawn view libs env w.state
        → All (Served Good GoodIndex is state spawn view libs env w.state) w.submitted
          × All
              (λ h. Served Good GoodIndex is state spawn view libs env w.state (standard_job h))
              (mh ∷ mhs)
  unfolding new_walk
  query-Served n q mh mhs events p runs visits =
      let start = new_walk n (standard_job mh) (map standard_job mhs) (initial_state q) in
      let w = run start events in
      let served =
        All-mono (Ran-Served Good GoodIndex is state spawn view libs env w.state visits) w.completed
          runs in
      let done =
        (returned-SameItems n (standard_job mh) (map standard_job mhs) (initial_state q) events
          p).0 in
      (
        among w.state w.submitted w.completed (λ f. omega (arith, done f)) served,
        All-map (Served Good GoodIndex is state spawn view libs env w.state) standard_job (mh ∷ mhs)
            (among w.state start.submitted w.completed
              (λ f. omega (arith, done f, run-submitted f start events)) served),
      )
    where
      among :
          (end : QueryState Claim) (xs ys : List Job)
          → ((f : Job → ℕ) → total f xs ≤ total f ys)
          → All (Served Good GoodIndex is state spawn view libs env end) ys
          → All (Served Good GoodIndex is state spawn view libs env end) xs
      among end xs ys le h =
          All-total Job-discrete (Served Good GoodIndex is state spawn view libs env end) xs ys le h

module _ {W Claim : Type 0} (Good : Bytes → Claim → Type 0)
    (GoodIndex : Bytes → ShardedDagIndex → Type 0) (is : IndexingService W Claim) (canceled : Err)
    {Md : Type 0} (libs : Libraries Md) (good : GoodServices Good GoodIndex is) where
  abbrev env :
      Environment Good GoodIndex
        (services_among Good GoodIndex is)
        (worker_state Good GoodIndex is)
        (spawn_job Good GoodIndex is canceled)
        (query_state Good GoodIndex is)
  env = worker_environment Good GoodIndex is canceled good

  -- A run of the job handler in a worker, the first run of a key, and a job that was served.
  abbrev pub WorkerRan : QueryState Claim → Job → Type 0
  WorkerRan = Ran Good GoodIndex _ _ _ _ libs env

  abbrev pub VisitsByWorkers : QueryState Claim → Type 0
  VisitsByWorkers = VisitsByRuns Good GoodIndex _ _ _ _ libs env

  abbrev pub WorkersServed : QueryState Claim → Job → Type 0
  WorkersServed = Served Good GoodIndex _ _ _ _ libs env

  -- When Query with a concurrency returns a result from a walk over at least one hash, the lookups
  -- give claims and indexes meant for what was asked, each completed job had a run of the job
  -- handler that succeeded in a worker, among others that swap as it does, and each key that is
  -- visited at the end was first visited by such a run: then the result is built from the state at
  -- the end, and for every initial and every spawned job, and so for every hash asked for, a job
  -- with the same key has asked the provider index and been answered; the metadata of every record
  -- of the answer decodes, and the claims of all its protocols are in that state.
  pub query-WorkersServed :
      {R : Type 0} (build : ByteMap Claim → ByteMap ShardedDagIndex → Result R) (n : ℕ) (q : Query)
      (mh : Bytes) (mhs : List Bytes) (events : List (Event Job (QueryState Claim))) (r : R)
      → q.hashes ≡ mh ∷ mhs
      → query build n q events ≡ some (ok r)
      → let w =
          run (new_walk n (standard_job mh) (map standard_job mhs) (initial_state q)) events in
        All (WorkerRan w.state) w.completed
        → VisitsByWorkers w.state
        → (build w.state.qr.claims w.state.qr.indexes ≡ ok r)
          × All (WorkersServed w.state) w.submitted
          × All (λ h. WorkersServed w.state (standard_job h)) (mh ∷ mhs)
  query-WorkersServed build n q mh mhs events r hashes e runs visits =
      let (ended, built) = query-returned Good GoodIndex build n q mh mhs events r hashes e in
      let (jobs, asked) =
        query-Served Good GoodIndex _ _ _ _ libs env n q mh mhs events ended runs visits in
      (built, jobs, asked)
