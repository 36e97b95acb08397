-- ===== src/Service/Handler/Examples.antt =====
-- The job handler with one worker: the provider index knows one location record, whose claim is
-- fetched and found.
use indexing_service.Prelude.{
  ◌≡◌, ◌⊎◌, false, refl, Bool, true, none, inl, inr, List, [], ◌∷◌, Bytes, All, Bool-cases,
  bytes_eq,
}
use indexing_service.Result.{ok, ◌>>=◌}
use indexing_service.ByteMap
use indexing_service.ProviderResults.{ProviderResult}
use indexing_service.BlobIndex.{ShardedDagIndex}
use indexing_service.Metadata.{get_claim}
use indexing_service.JobWalker.Single.{Single, single_state, push}
use indexing_service.Service.Url
use indexing_service.Service.Url.{Url, http, claim_part, fetch_claim_url}
use indexing_service.Service.Jobs.{
  Job, standard, QueryState, key, first_visit, visit, claim_missing, add_claim, type_text,
}
use indexing_service.Samples.Locations.{libraries, location_record}
use indexing_service.Service.Changes.{Changes, unchanged}
use indexing_service.Service.Handler.{
  IndexingService, deref, follow, follow_location, handle_claim, handle_protocol, handle_protocols,
  handle_results, handle_visit, job_handler,
}
use indexing_service.Service.Handler.Guarantee.{Environment, Reaches, job_handler-Changes}
use indexing_service.Service.Handler.Complete.{Answered, Covered, job_handler-Covered}

abbrev World : Type 0
World = Single (Unit {0}) (QueryState Bytes) Job

-- Every CID is answered with itself.
abbrev services : IndexingService World Bytes
services = record {
  blob_index_lookup = λ id p url rng s. (ok (record { content = []; shards = [] }), s);
  claim_lookup = λ cid url s. (ok cid, s);
  provider_index = λ qk s. (ok (location_record ∷ []), s);
}

abbrev Own : Bytes → Bytes → Type 0
Own cid claim = claim ≡ cid

abbrev AnyIndex : Bytes → ShardedDagIndex → Type 0
AnyIndex id index = Unit {0}

swap_cases :
    (test : QueryState Bytes → Bool) (change : QueryState Bytes → QueryState Bytes) (s : World)
    → (met : QueryState Bytes) × Changes Own AnyIndex s.m met
      × ((test met ≡ true)
            × ((single_state.cmp_swap test change s).1.m ≡ change met)
            × ((single_state.cmp_swap test change s).0 ≡ ok true)
          ⊎ (test met ≡ false)
            × ((single_state.cmp_swap test change s).1.m ≡ met)
            × ((single_state.cmp_swap test change s).0 ≡ ok false))
unfolding single_state
swap_cases test change s = elim (Bool-cases (test s.m)) [
  | inl e ↦ (s.m, unchanged, inl (e, rw e, rw e))
  | inr e ↦ (s.m, unchanged, inr (e, rw e, rw e))
]

environment : Environment Own AnyIndex services single_state push (λ s. s.m)
unfolding single_state push
environment = record {
  access_lem = λ s. unchanged;
  provider_index_lem = λ qk s. unchanged;
  claim_lookup_lem = λ cid url s. unchanged;
  claim_lookup-Good = λ cid url s claim e. cc;
  blob_index_lookup_lem = λ id p url rng s. unchanged;
  blob_index_lookup-GoodIndex = λ id p url rng s index e. tt;
  spawn_lem = λ j s. unchanged;
  cmp_swap_lem = swap_cases;
}

abbrev first_job : Job
first_job = record {
  mh = 2 ∷ [];
  index_for_mh = none;
  index_provider_record = none;
  job_type = standard;
}

abbrev start_world : World
start_world = record {
  m = record {
    q = record { hashes = []; match = record { subject = [] } };
    qr = record { claims = []; indexes = [] };
    visits = [];
  };
  stack = [];
  world = tt;
}

job_handler-Changes_example :
    Reaches Own AnyIndex services single_state push
      (λ s. s.m)
      start_world
      (job_handler libraries services single_state push first_job start_world).1
job_handler-Changes_example =
    job_handler-Changes Own AnyIndex services single_state push (λ s. s.m) libraries environment
      first_job start_world

abbrev visited_world : World
visited_world = record start_world { m = visit first_job start_world.m }

abbrev final_world : World
final_world = record start_world { m = add_claim (9 ∷ []) (9 ∷ []) (visit first_job start_world.m) }

job_handler-Covered_example :
    (rs : List ProviderResult) × Answered Own AnyIndex services single_state push
      (λ s. s.m)
      libraries
      environment
      first_job
      visited_world
      rs
    × All
        (Covered Own AnyIndex services single_state push
          (λ s. s.m)
          libraries
          environment
          final_world)
        rs
unfolding single_state push job_handler handle_visit handle_results handle_protocols handle_protocol
    handle_claim follow follow_location deref first_visit claim_missing add_claim visit key
    type_text get_claim fetch_claim_url ByteMap.has ByteMap.set ByteMap.lookup bytes_eq ◌>>=◌
    Url.url_for_resource Url.has_place Url.contains Url.is_prefix Url.replace_all
job_handler-Covered_example =
    job_handler-Covered Own AnyIndex services single_state push (λ s. s.m) libraries environment
      first_job start_world visited_world final_world refl refl
