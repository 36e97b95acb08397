-- ===== src/Service/Construct/Examples.antt =====
-- A constructed service over a redis database in memory.
use indexing_service.Prelude.{◌≡◌, refl, sym, true, none, some, List, [], ◌∷◌, bytes_eq, All, any}
use indexing_service.Result.{ok, is_key_not_found}
use indexing_service.ByteMap
use indexing_service.ProviderResults.{AddrInfo, ProviderResult, equals, equal_provider}
use indexing_service.BlobIndex.{ShardedDagIndex}
use indexing_service.BlobIndex.Archive.Examples.{extract-file, archive-read_index}
use indexing_service.Redis.{answer, default_expire, multihash_key_string}
use indexing_service.ProviderResults.Codec.{
  unmarshal_cbor, read_node, bytes_to_peer_id, bytes_to_multiaddr,
}
use indexing_service.Redis.Values.{new_provider_store}
use indexing_service.Redis.Indexes.{SameSlices}
use indexing_service.JobQueue.{
  new_job_queue, step, run, Event, accepts, hands_over, puts, takes, handler_returns, shuts_down,
  receives_quit, ends,
}
use indexing_service.JobQueue.Options
use indexing_service.ProviderCacher.{existing_of}
use indexing_service.ProviderCacher.Queue.{ProviderCachingJob, queue_provider_caching}
use indexing_service.ClaimLookup
use indexing_service.BlobIndexLookup
use indexing_service.Service.Instance.{new_indexing_service, with_concurrency}
use indexing_service.Service.Construct.{providers_cache}
use indexing_service.Service.Construct.Claims.{construct-claim_lookup}
use indexing_service.Service.Construct.Providers.{
  Cachable, Finds, providers_view, providers-IsCache, construct-handler-Finds,
}
use indexing_service.Service.Construct.Narrowed.{answer-narrowed}
use indexing_service.Types.{to_encoded}
use indexing_service.ProviderIndex.{is_empty, has_context_id, encode_spaces}
use indexing_service.ProviderIndex.Narrowing.{keep}
use indexing_service.ProviderIndex.Caching.{find_hit}
use indexing_service.Service.Construct.Drained.{drained-Finds}
use indexing_service.Service.Construct.Indexes.{construct-blob_index_lookup}
use indexing_service.Samples.Services.{none_found, env, config, service, construct-env}
use indexing_service.Samples.{Database, database_view, database_client-IsRedis}
use indexing_service.Samples.Numbers.{numbers-IsCodec, two_shards, read_index, read_file}
use indexing_service.Samples.Records.{writes, reads, addresses_read}

construct-claim_lookup_example :
    let after = (service.service.services.claim_lookup (3 ∷ []) (4 ∷ []) []).1 in
    ((service.service.services.claim_lookup (3 ∷ []) (4 ∷ []) []).0 ≡ ok (4 ∷ []))
    × (database_view.ttl after (3 ∷ []) ≡ default_expire)
    × (service.service.services.claim_lookup (3 ∷ []) (5 ∷ []) after ≡ (ok (4 ∷ []), after))
unfolding ByteMap.lookup ClaimLookup.simple_lookup
construct-claim_lookup_example =
    construct-claim_lookup env config service construct-env database_view database_client-IsRedis
      (λ claim text e. sym e) [] [] (3 ∷ []) (4 ∷ []) (3 ∷ []) (5 ∷ []) (4 ∷ []) (4 ∷ []) refl refl
      refl refl

-- A job with two shards, of which the first has two slices.
abbrev job : ProviderCachingJob
job = record {
  provider = record {
    context_id = 1 ∷ [];
    metadata = [];
    provider = some (record { id = 2 ∷ []; addrs = [] });
  };
  index = two_shards;
}

-- Every record with a provider is cachable.
cachable : (r : ProviderResult) {p : AddrInfo} → r.provider ≡ some p → Cachable env r
cachable r {p} e = ((p, e), (λ q f. record { id_lem = refl; addrs_lem = addresses_read q.addrs }))

construct-handler-Finds_example :
    ((service.handler job []).0 ≡ ok tt)
    × All
        (λ shard.
          All
            (λ slice. Finds env service job.provider (service.handler job []).1 (slice.0))
            (shard.1))
        two_shards.shards
unfolding ByteMap.lookup existing_of is_key_not_found new_provider_store answer
construct-handler-Finds_example =
    construct-handler-Finds env config database_view service construct-env database_client-IsRedis
      writes reads job [] (cachable job.provider refl) (λ k. (refl, tt))

-- Two providers of the same index, whose jobs one worker handles; then the queue is shut down.
abbrev other_job : ProviderCachingJob
other_job = record {
  provider = record {
    context_id = 1 ∷ [];
    metadata = [];
    provider = some (record { id = 7 ∷ []; addrs = [] });
  };
  index = two_shards;
}

abbrev until_end : List (Event ProviderCachingJob)
until_end =
    accepts job
    ∷ hands_over
    ∷ accepts other_job
    ∷ puts
    ∷ handler_returns 0 none
    ∷ shuts_down
    ∷ receives_quit
    ∷ takes
    ∷ handler_returns 0 none
    ∷ ends
    ∷ []

drained-Finds_example :
    All
      (λ (j : ProviderCachingJob).
        All
          (λ shard.
            All
              (λ slice.
                Finds env service j.provider
                  (service.handler other_job (service.handler job []).1).1
                  (slice.0))
              (shard.1))
          two_shards.shards)
      (job ∷ other_job ∷ [])
unfolding ByteMap.lookup existing_of is_key_not_found new_provider_store answer run step
    new_job_queue Options.configure Options.with_concurrency Options.with_error_handler
    Options.with_buffer
drained-Finds_example =
    drained-Finds env config database_view service construct-env database_client-IsRedis writes
      reads until_end [] refl (cachable other_job.provider refl, (cachable job.provider refl, tt))
      (λ k. (refl, tt))

-- A record of one space that is cached for a hash, beside one without a space.
abbrev spaced : ProviderResult
spaced = record {
  context_id = 9 ∷ 4 ∷ [];
  metadata = [];
  provider = some (record { id = 2 ∷ []; addrs = [] });
}

abbrev cached : Database
cached =
    database_view.put [] (4 ∷ []) (2 ∷ 1 ∷ 1 ∷ 0 ∷ 1 ∷ 2 ∷ 0 ∷ 2 ∷ 9 ∷ 4 ∷ 0 ∷ 1 ∷ 2 ∷ 0 ∷ [])
      default_expire

find_cached :
    service.service.services.provider_index
      (record { spaces = []; hash = 4 ∷ []; target_claims = [] })
      cached
    ≡ (ok (job.provider ∷ spaced ∷ []), cached)
unfolding ByteMap.lookup ByteMap.set bytes_eq answer new_provider_store multihash_key_string
    unmarshal_cbor read_node bytes_to_peer_id bytes_to_multiaddr new_indexing_service
    with_concurrency
find_cached =
    find_hit (providers_cache env config) none_found (providers_view env config database_view)
      (providers-IsCache env config database_view service construct-env database_client-IsRedis
        writes reads job)
      env.metadata env.sum env.did_bytes cached (4 ∷ []) (job.provider ∷ spaced ∷ []) refl

-- No record carries the context id of this space, so none is left out.
answer-narrowed_example :
    (service.service.services.provider_index
        (record { spaces = (8 ∷ []) ∷ []; hash = 4 ∷ []; target_claims = 3 ∷ 5 ∷ [] })
        cached
      ≡ (ok (job.provider ∷ spaced ∷ []), cached))
    × (any (equals env.to_string spaced) (job.provider ∷ spaced ∷ []) ≡ true)
unfolding is_empty keep has_context_id equals equal_provider bytes_eq encode_spaces to_encoded
answer-narrowed_example =
    answer-narrowed env config service construct-env spaced (4 ∷ []) ((8 ∷ []) ∷ [])
      ((8 ∷ 4 ∷ []) ∷ []) (3 ∷ 5 ∷ []) cached cached (job.provider ∷ spaced ∷ []) find_cached
      ((tt, refl), ((tt, refl), tt)) refl

construct-blob_index_lookup_example :
    let find = service.service.services.blob_index_lookup in
    let after = database_view.put [] (3 ∷ []) read_file default_expire in
    (find (3 ∷ []) job.provider [] none [] ≡ (ok read_index, after))
    × ((found : ShardedDagIndex) × (find (3 ∷ []) job.provider (6 ∷ []) none after
          ≡ (ok found, after))
        × SameSlices found read_index)
unfolding ByteMap.lookup ByteMap.set BlobIndexLookup.simple_lookup bytes_eq queue_provider_caching
construct-blob_index_lookup_example =
    construct-blob_index_lookup env config service construct-env database_view
      database_client-IsRedis numbers-IsCodec [] [] _ (3 ∷ []) [] (6 ∷ []) job.provider job.provider
      none none read_index read_file refl (rw extract-file refl) archive-read_index
      ((refl, tt), (tt, tt)) (((refl, tt), (tt, tt)), ((tt, tt), tt)) refl refl
