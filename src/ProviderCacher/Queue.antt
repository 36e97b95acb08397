-- ===== src/ProviderCacher/Queue.antt =====
-- pkg/service/providercacher/cachingqueue.go: caching jobs, put into a job queue by the index lookup
-- and handled by the provider cacher.
use indexing_service.Prelude.{none, some}
use indexing_service.Result.{Result, ok, err, Io}
use indexing_service.ProviderResults.{ProviderResult}
use indexing_service.BlobIndex.{ShardedDagIndex}
use indexing_service.ProviderCacher.{Written}

pub record ProviderCachingJob : Type 0 where
  pub provider : ProviderResult
  pub index : ShardedDagIndex

-- `queue` is the method Queue of the job queue.
unfoldable pub queue_provider_caching :
    {W : Type 0}
    → (ProviderCachingJob → Io W (Unit {0}))
    → ProviderResult
    → ShardedDagIndex
    → Io W (Unit {0})
queue_provider_caching queue provider index = queue (record { provider = provider; index = index })

abbrev error_of : {W : Type 0} → Written W → Result (Unit {0}) × W
error_of ((n, none), w) = (ok tt, w)
error_of ((n, some e), w) = (err e, w)

-- The handler drops the count of written records.
unfoldable pub handle :
    {W : Type 0}
    → (ProviderResult → ShardedDagIndex → W → Written W)
    → ProviderCachingJob
    → Io W (Unit {0})
handle cache_provider job w = error_of (cache_provider job.provider job.index w)
