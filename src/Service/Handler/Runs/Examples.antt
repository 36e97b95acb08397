-- ===== src/Service/Handler/Runs/Examples.antt =====
-- A query that asks for one hash twice: one worker serves it, and the other finds it visited.
use indexing_service.Prelude.{
  ℕ, length, ◌≡◌, refl, true, List, [], ◌∷◌, Bytes, All, bytes_eq, bytes_eq_iff, arith,
}
use indexing_service.Result.{Result, ok, foreign, ◌>>=◌}
use indexing_service.ByteMap
use indexing_service.ByteMap.{ByteMap}
use indexing_service.BlobIndex.{ShardedDagIndex}
use indexing_service.Metadata.{get_claim}
use indexing_service.JobWalker.Parallel
use indexing_service.JobWalker.Parallel.{
  Walk, Event, feeds, swaps, handler_returns, receives_finish,
}
use indexing_service.JobWalker.Parallel.Workers
use indexing_service.Service.Url
use indexing_service.Service.Jobs.{
  Query, Job, QueryState, key, first_visit, visit, claim_missing, add_claim, type_text,
}
use indexing_service.Service.Changes.{unchanged}
use indexing_service.Service.Handler.{
  IndexingService, deref, follow, follow_location, handle_claim, handle_protocol, handle_protocols,
  handle_results, handle_visit, job_handler,
}
use indexing_service.Service.Queries.{standard_job, initial_state, query}
use indexing_service.Service.Queries.Workers.{GoodServices, Worker}
use indexing_service.Service.Queries.Runs.{
  WorkerRan, VisitsByWorkers, WorkersServed, query-WorkersServed,
}
use indexing_service.Samples.Locations.{libraries, location_record}

abbrev Own : Bytes → Bytes → Type 0
Own cid claim = claim ≡ cid

abbrev AnyIndex : Bytes → ShardedDagIndex → Type 0
AnyIndex id index = Unit {0}

-- Every hash has one record, and every CID is answered with itself.
abbrev services : IndexingService (Unit {0}) Bytes
services = record {
  blob_index_lookup = λ id p url rng w. (ok (record { content = []; shards = [] }), w);
  claim_lookup = λ cid url w. (ok cid, w);
  provider_index = λ qk w. (ok (location_record ∷ []), w);
}

good : GoodServices Own AnyIndex services
good = record {
  claim_lookup-Good = λ cid url w claim e. cc;
  blob_index_lookup-GoodIndex = λ id p url rng w index e. tt;
}

abbrev hash : Bytes
hash = 2 ∷ []

abbrev twice : Query
twice = record { hashes = hash ∷ hash ∷ []; match = record { subject = [] } }

abbrev job : Job
job = standard_job hash

abbrev before_all : QueryState Bytes
before_all = initial_state twice

abbrev after_all : QueryState Bytes
after_all = add_claim (9 ∷ []) (9 ∷ []) (visit job before_all)

abbrev steps : List (Event Job (QueryState Bytes))
steps =
    feeds
    ∷ feeds
    ∷ swaps 0 (first_visit job) (visit job) before_all
    ∷ swaps 0 (claim_missing (9 ∷ [])) (add_claim (9 ∷ []) (9 ∷ [])) before_all
    ∷ swaps 1 (first_visit job) (visit job) after_all
    ∷ handler_returns 0
    ∷ handler_returns 0
    ∷ receives_finish 0
    ∷ receives_finish 0
    ∷ []

-- A worker that has the walk in a state, and no others.
abbrev worker : QueryState Bytes → Worker Own AnyIndex services
worker st = record { walk = Parallel.new_walk 1 job [] st; turns = []; world = tt }

abbrev WasRun : Job → Type 0
WasRun = WorkerRan Own AnyIndex services (foreign 1) libraries good after_all

-- The first run finds the claim, the second one leaves all as it is.
first_run : WasRun job
unfolding job_handler handle_visit handle_results handle_protocols handle_protocol handle_claim
    follow follow_location deref first_visit claim_missing add_claim visit key type_text get_claim
    ByteMap.has ByteMap.set ByteMap.lookup bytes_eq ◌>>=◌ Url.fetch_claim_url Url.url_for_resource
    Url.has_place Url.contains Url.is_prefix Url.replace_all Workers.thread_safe_state
    Workers.others Workers.among Workers.worker_spawn Parallel.new_walk standard_job initial_state
    ByteMap.new_byte_map
first_run = record {
  before = worker before_all;
  after = worker after_all;
  succeeded = refl;
  went_on = unchanged;
}

second_run : WasRun job
unfolding job_handler handle_visit first_visit add_claim visit key type_text ByteMap.has ByteMap.set
    ByteMap.lookup bytes_eq ◌>>=◌ Workers.thread_safe_state Workers.others Parallel.new_walk
    standard_job initial_state ByteMap.new_byte_map
second_run = record {
  before = worker after_all;
  after = worker after_all;
  succeeded = refl;
  went_on = unchanged;
}

visited_key : (k : Bytes) → ByteMap.has after_all.visits k ≡ true → key job ≡ k
unfolding add_claim visit ByteMap.has ByteMap.set ByteMap.lookup ByteMap.new_byte_map initial_state
visited_key k h = ground (arith, bytes_eq_iff (key job) k, bytes_eq_iff k (key job))

visits_known : VisitsByWorkers Own AnyIndex services (foreign 1) libraries good after_all
unfolding first_visit add_claim visit key type_text ByteMap.has ByteMap.set ByteMap.lookup
    ByteMap.new_byte_map standard_job initial_state Workers.thread_safe_state Workers.others
    first_run
visits_known k h = (
  job,
  visited_key k h,
  record { ran = first_run; visited = worker (visit job before_all); was_first = refl },
)

-- The number of claims is the result.
abbrev count : ByteMap Bytes → ByteMap ShardedDagIndex → Result ℕ
count claims indexes = ok (length claims)

query-WorkersServed_example :
    (count after_all.qr.claims after_all.qr.indexes ≡ ok 1)
    × All
        (WorkersServed Own AnyIndex services (foreign 1) libraries good after_all)
        (job ∷ job ∷ [])
    × All
        (λ h.
          WorkersServed Own AnyIndex services (foreign 1) libraries good after_all (standard_job h))
        (hash ∷ hash ∷ [])
unfolding Parallel.run Parallel.step Parallel.walk_step Parallel.new_walk Parallel.feed
    Parallel.locked_swap Parallel.received Parallel.finish_phase Parallel.has_next_job
    Parallel.parallel_walk query first_visit claim_missing add_claim visit key type_text ByteMap.has
    ByteMap.set ByteMap.lookup bytes_eq standard_job initial_state ByteMap.new_byte_map
query-WorkersServed_example =
    query-WorkersServed Own AnyIndex services (foreign 1) libraries good count 2 twice hash
      (hash ∷ []) steps 1 refl refl (second_run, (first_run, tt)) visits_known
