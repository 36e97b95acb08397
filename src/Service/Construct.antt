-- ===== src/Service/Construct.antt =====
-- pkg/service/construct.go: the service over three redis databases, the IPNI client, HTTP and the
-- job queue that caches providers.
pub mod Claims
pub mod Providers
pub mod Drained
pub mod Narrowed
pub mod Indexes
pub mod Parts
mod Examples
use indexing_service.Prelude.{ℕ, Bool, List, [], ◌∷◌, Bytes}
use indexing_service.Result.{Result, ok, err, Io, on_ok}
use indexing_service.Types.{Cache}
use indexing_service.ProviderResults.{AddrInfo, ProviderResult}
use indexing_service.Metadata.{MetadataContext}
use indexing_service.BlobIndex.{ShardedDagIndex}
use indexing_service.BlobIndex.Archive.{Codec, SortFunc, extract}
use indexing_service.Redis.{Client, cache}
use indexing_service.Redis.Values.{
  Encodings, new_provider_store, new_content_claims_store, new_sharded_dag_index_store,
}
use indexing_service.JobQueue.{Config, JobQueue, new_job_queue}
use indexing_service.JobQueue.Options.{with_buffer, with_error_handler, configure}
use indexing_service.JobQueue.Options
use indexing_service.ProviderCacher.{Written, cache_provider_for_index_records}
use indexing_service.ProviderCacher.Queue.{ProviderCachingJob, queue_provider_caching, handle}
use indexing_service.ProviderIndex.{QueryKey, find}
use indexing_service.ClaimLookup
use indexing_service.ClaimLookup.{ClaimLookup}
use indexing_service.BlobIndexLookup
use indexing_service.BlobIndexLookup.{BlobIndexLookup, Request}
use indexing_service.Service.Instance.{Instance, new_indexing_service, with_concurrency}

pub record ServiceConfig : Type 0 where
  pub redis_url : Bytes
  pub redis_passwd : Bytes
  pub providers_db : ℕ
  pub claims_db : ℕ
  pub indexes_db : ℕ
  pub indexer_url : Bytes

-- The options of a redis client that the code sets.
pub record RedisOptions : Type 0 where
  pub addr : Bytes
  pub password : Bytes
  pub db : ℕ

-- Code outside the repository: the clients of redis, IPNI and HTTP, and the encodings. `send` is the
-- method Queue of the job queue; `extract_broken` is blobindex.Extract on a body that breaks off.
pub record Environment (W Md Claim : Type 0) : Type 1 where
  pub new_client : RedisOptions → Client W
  pub find_new : Bytes → Result (Bytes → Io W (List (List ProviderResult)))
  pub http_get : Bytes → Io W ClaimLookup.Response
  pub http_do : Request → Io W BlobIndexLookup.Response
  pub is_url : Bytes → Bool
  pub send : ProviderCachingJob → Io W (Unit {0})
  pub encodings : Encodings Claim
  pub codec : Codec
  pub sort_func : SortFunc
  pub extract_broken : Result Bytes → Result ShardedDagIndex
  pub to_string : AddrInfo → Bytes
  pub metadata : MetadataContext Md
  pub sum : Bytes → Result Bytes
  pub did_bytes : Bytes → Bytes

-- What Construct returns and starts.
pub record Constructed (W Claim : Type 0) : Type 0 where
  pub service : Instance W Claim
  pub handler : ProviderCachingJob → Io W (Unit {0})
  pub job_queue : JobQueue ProviderCachingJob

module _ {W Md Claim : Type 0} (env : Environment W Md Claim) where
  -- The client of one of the databases.
  abbrev pub client : ServiceConfig → ℕ → Client W
  client sc db =
      env.new_client (record { addr = sc.redis_url; password = sc.redis_passwd; db = db })

  abbrev pub providers_cache : ServiceConfig → Cache W Bytes (List ProviderResult)
  providers_cache sc = cache (new_provider_store env.encodings (client sc sc.providers_db))

  abbrev pub claims_cache : ServiceConfig → Cache W Bytes Claim
  claims_cache sc = cache (new_content_claims_store env.encodings (client sc sc.claims_db))

  abbrev pub indexes_cache : ServiceConfig → Cache W Bytes ShardedDagIndex
  indexes_cache sc =
      cache (new_sharded_dag_index_store env.sort_func env.codec (client sc sc.indexes_db))

  abbrev pub extract_body : Result Bytes → Result ShardedDagIndex
  extract_body (ok text) = extract env.codec text
  extract_body (err e) = env.extract_broken (err e)

  abbrev pub job_handler : ServiceConfig → ProviderCachingJob → Io W (Unit {0})
  job_handler sc = handle (cache_provider_for_index_records env.to_string (providers_cache sc))

  abbrev pub claim_lookup : ServiceConfig → ClaimLookup W Claim
  claim_lookup sc =
      ClaimLookup.with_cache
        (ClaimLookup.simple_lookup env.http_get env.encodings.delegation_extract) (claims_cache sc)

  abbrev pub blob_index_lookup : ServiceConfig → BlobIndexLookup W
  blob_index_lookup sc =
      BlobIndexLookup.with_cache (BlobIndexLookup.simple_lookup env.is_url env.http_do extract_body)
        (indexes_cache sc) (queue_provider_caching env.send)

  abbrev pub provider_index :
      ServiceConfig
      → (Bytes → Io W (List (List ProviderResult)))
      → QueryKey
      → Io W (List ProviderResult)
  provider_index sc find_client =
      find (providers_cache sc) find_client env.metadata env.sum env.did_bytes

  abbrev pub queue_config : Config
  queue_config = configure (with_buffer 5 ∷ Options.with_concurrency 5 ∷ with_error_handler ∷ [])

  -- Without an IPNI client there is no service, and no queue is started.
  unfoldable pub construct : ServiceConfig → Result (Constructed W Claim)
  construct sc = on_ok (env.find_new sc.indexer_url) (λ find_client. ok (record {
    service =
        new_indexing_service (blob_index_lookup sc) (claim_lookup sc)
          (provider_index sc find_client) (with_concurrency 5 ∷ []);
    handler = job_handler sc;
    job_queue = new_job_queue queue_config;
  }))
