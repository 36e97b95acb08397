-- ===== src/Service/Queries.antt =====
-- The method Query: the walk over the jobs of a query, with the sequential walker that is the default
-- or with the parallel one, and the result that is built from its end.
mod Examples
pub mod Answers
pub mod Default
pub mod Runs
pub mod Workers
use indexing_service.Prelude.{ℕ, Option, none, some, List, [], map, Bytes}
use indexing_service.Result.{Result, ok, err, Err}
use indexing_service.ByteMap
use indexing_service.ByteMap.{ByteMap}
use indexing_service.BlobIndex.{ShardedDagIndex}
use indexing_service.JobWalker.Parallel.{
  Phase, walking, returned, failed, Walk, parallel_walk, Event, run,
}
use indexing_service.JobWalker.{JobHandler}
use indexing_service.JobWalker.Single.{Single, single_walker}
use indexing_service.Service.Jobs.{Query, Job, standard, QueryState}

unfoldable pub standard_job : Bytes → Job
standard_job mh = record {
  mh = mh;
  index_for_mh = none;
  index_provider_record = none;
  job_type = standard;
}

unfoldable pub initial_state : {Claim : Type 0} → Query → QueryState Claim
initial_state q = record {
  q = q;
  qr = record { claims = []; indexes = ByteMap.new_byte_map };
  visits = [];
}

module _ {Claim R : Type 0} (build : ByteMap Claim → ByteMap ShardedDagIndex → Result R) where
  -- What Query returns when the walk has ended; none before that.
  answer : Phase → QueryState Claim → Option (Result R)
  answer walking qs = none
  answer returned qs = some (build qs.qr.claims qs.qr.indexes)
  answer (failed e) qs = some (err e)

  walk_answer :
      Result (Walk Job (QueryState Claim)) → List (Event Job (QueryState Claim)) → Option (Result R)
  unfolding answer
  walk_answer (err e) events = some (err e)
  walk_answer (ok w) events = answer (run w events).phase (run w events).state

  -- Query with a concurrency, when the steps of the walk are the given ones.
  unfoldable pub query : ℕ → Query → List (Event Job (QueryState Claim)) → Option (Result R)
  unfolding walk_answer standard_job initial_state
  query concurrency q events =
      walk_answer (parallel_walk concurrency (map standard_job q.hashes) (initial_state q)) events

  built : {S : Type 0} → Result (QueryState Claim) × S → Result R × S
  built (ok qs, s) = (build qs.qr.claims qs.qr.indexes, s)
  built (err e, s) = (err e, s)

  -- Query without a concurrency.
  pub default_query :
      {W : Type 0}
      → (W → Option Err)
      → JobHandler (Single W (QueryState Claim) Job) Job (QueryState Claim)
      → Query
      → W
      → Result R × Single W (QueryState Claim) Job
  unfolding built standard_job initial_state
  default_query cancelled handler q w =
      built (single_walker cancelled handler (map standard_job q.hashes) (initial_state q) w)
