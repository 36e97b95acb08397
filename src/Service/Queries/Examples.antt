-- ===== src/Service/Queries/Examples.antt =====
-- A query for one hash: its job adds a claim and returns.
use indexing_service.Prelude.{
  ℕ, ◌≡◌, none, ◌≢◌, refl, inl, inr, List, [], ◌∷◌, Bytes, length, bytes_eq,
}
use indexing_service.Result.{Result, ok, err, foreign}
use indexing_service.ByteMap
use indexing_service.ByteMap.{ByteMap}
use indexing_service.BlobIndex.{ShardedDagIndex}
use indexing_service.JobWalker.Parallel
use indexing_service.JobWalker.Parallel.{
  Walk, Event, feeds, swaps, handler_returns, receives_finish,
}
use indexing_service.Service.Jobs.{
  Query, Job, QueryState, first_visit, visit, claim_missing, add_claim,
}
use indexing_service.Service.Queries.{
  standard_job, initial_state, answer, walk_answer, query, default_query,
}
use indexing_service.JobWalker.Single.{Single}
use indexing_service.Service.Handler.{Libraries, IndexingService, job_handler}
use indexing_service.Service.Queries.Default.{LeavesStack, default_query-ne-ok}
use indexing_service.Service.Queries.Answers.{Answered, walk_of, query-Answered}

abbrev one_hash : Query
one_hash = record { hashes = (1 ∷ []) ∷ []; match = record { subject = [] } }

abbrev steps : List (Event Job (QueryState Bytes))
steps =
    feeds
    ∷ swaps 0 (first_visit (standard_job (1 ∷ []))) (visit (standard_job (1 ∷ [])))
        (initial_state one_hash)
    ∷ swaps 0 (claim_missing (9 ∷ [])) (add_claim (9 ∷ []) (9 ∷ [])) (initial_state one_hash)
    ∷ handler_returns 0
    ∷ receives_finish 0
    ∷ []

-- The number of claims is the result.
abbrev count : ByteMap Bytes → ByteMap ShardedDagIndex → Result ℕ
count claims indexes = ok (length claims)

query-Answered_example :
    (mh : Bytes) × (mhs : List Bytes) × (one_hash.hashes ≡ mh ∷ mhs)
    × Answered
        (λ cid claim. claim ≡ cid)
        (λ id index. Unit {0})
        count
        one_hash
        1
        (walk_of (λ cid claim. claim ≡ cid) (λ id index. Unit {0}) count 1 one_hash mh mhs steps)
unfolding query walk_answer answer standard_job initial_state first_visit visit claim_missing
    add_claim ByteMap.has ByteMap.lookup ByteMap.set ByteMap.new_byte_map bytes_eq Parallel.run
    Parallel.step Parallel.walk_step Parallel.feed Parallel.locked_swap Parallel.received
    Parallel.finish_phase Parallel.has_next_job Parallel.new_walk Parallel.parallel_walk
query-Answered_example =
    query-Answered (λ cid claim. claim ≡ cid) (λ id index. Unit {0}) count 1 one_hash steps 1
      (
        tt,
        (
          inl (standard_job (1 ∷ []), refl, refl),
          (inr (inl (9 ∷ [], 9 ∷ [], refl, refl, refl)), (tt, (tt, tt))),
        ),
      )
      refl

-- Services that know nothing, and libraries that read nothing.
abbrev unknowing : IndexingService (Single (Unit {0}) (QueryState Bytes) Job) Bytes
unknowing = record {
  blob_index_lookup = λ id p url rng s. (err (foreign 1), s);
  claim_lookup = λ cid url s. (err (foreign 2), s);
  provider_index = λ qk s. (ok [], s);
}

abbrev blank : Libraries Bytes
blank = record {
  metadata = record { unmarshal_binary = λ b. ok b; protocols = λ b. []; get = λ b code. none };
  hash = λ b. b;
  cid_string = λ b. b;
  to_url = λ b. err (foreign 3);
  url_string = λ u. u.path;
  raw_cid = λ b. b;
}

unknowing-LeavesStack : LeavesStack unknowing
unknowing-LeavesStack = record {
  provider_index_lem = λ qk s. refl;
  claim_lookup_lem = λ cid url s. refl;
  blob_index_lookup_lem = λ id p url rng s. refl;
}

default_query-ne-ok_example :
    (default_query count (λ w. none) (job_handler blank unknowing) one_hash tt).0 ≢ ok 0
default_query-ne-ok_example =
    default_query-ne-ok unknowing blank count (λ w. none) one_hash (1 ∷ []) [] tt 0
      unknowing-LeavesStack refl
