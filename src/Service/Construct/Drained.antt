-- ===== src/Service/Construct/Drained.antt =====
-- The job queue of a constructed service and its handler: what is cached when the queue has ended.
use native.Mathlib.Decide.{ℕ_discrete}
use indexing_service.Prelude.{
  ◌≡◌, none, List, [], ◌∷◌, Bytes, All, All-mono, All-total, SameItems, arith,
}
use indexing_service.Result.{ok}
use indexing_service.ProviderResults.{ProviderResult}
use indexing_service.ProviderResults.Codec.{ProviderResultNode}
use indexing_service.Redis.Laws.{RedisView, IsRedis}
use indexing_service.JobQueue.{done, Event, run}
use indexing_service.JobQueue.Order.{done-SameItems}
use indexing_service.ProviderCacher.Records.{
  Readable, IndexListed, Extends, Lists-Extends, cache_provider_for_index_records_lem,
}
use indexing_service.ProviderCacher.Queue.{ProviderCachingJob, handle}
use indexing_service.Service.Construct.{
  ServiceConfig, Environment, Constructed, client, providers_cache, queue_config, construct,
}
use indexing_service.Service.Construct.Parts.{construct-Parts}
use indexing_service.Service.Construct.Providers.{
  Cachable, Finds, providers_view, providers-Sound, Lists-Finds,
}

ProviderCachingJob-discrete : Discrete ProviderCachingJob
ProviderCachingJob-discrete = hlevel (ℕ_discrete)

module _ {W Md Claim : Type 0} (env : Environment W Md Claim) (sc : ServiceConfig) (r : RedisView W)
    (c : Constructed W Claim) (built : construct env sc ≡ ok c)
    (redis : IsRedis (client env sc sc.providers_db) r)
    (encodes_nodes : (ns : List ProviderResultNode)
      → (text : Bytes) × (env.encodings.libraries.encode env.encodings.provider_results_type ns
          ≡ ok text))
    (reads_nodes : (ns : List ProviderResultNode) (text : Bytes)
      → env.encodings.libraries.encode env.encodings.provider_results_type ns ≡ ok text
      → env.encodings.libraries.decode env.encodings.provider_results_type text ≡ ok ns) where
  -- The world after handlers that ran one after another, for the jobs that they handled, last first.
  abbrev pub after_handlers : List ProviderCachingJob → W → W
  after_handlers [] w = w
  after_handlers (job ∷ jobs) w = (c.handler job (after_handlers jobs w)).1

  -- All cached records can be read and are cachable, whatever the record asked about.
  abbrev pub AllReadable : W → Type 0
  AllReadable =
      Readable env.to_string (providers_cache env sc)
        (record { context_id = []; metadata = []; provider = none }) (providers_view env sc r)
        (Cachable env)

  abbrev Cached : W → ProviderCachingJob → Type 0
  Cached w job =
      IndexListed env.to_string (providers_cache env sc) job.provider (providers_view env sc r) w
        job.index.shards

  abbrev Grows : ProviderResult → W → W → Type 0
  Grows p = Extends env.to_string (providers_cache env sc) p (providers_view env sc r)

  handler_lem :
      (job : ProviderCachingJob) (w : W)
      → Cachable env job.provider
      → AllReadable w
      → let w' = (c.handler job w).1 in Grows job.provider w w' × AllReadable w' × Cached w' job
  unfolding handle
  handler_lem job w has readable =
      let parts = construct-Parts env sc c built in
      let (m, w', e, f, g, listed) =
        cache_provider_for_index_records_lem env.to_string (providers_cache env sc) job.provider
          (providers_view env sc r) (Cachable env)
          (providers-Sound env sc r c built redis encodes_nodes reads_nodes job has) job.index w
          readable in
      rw parts.caching (rw e (f, g, listed))

  Cached-Grows :
      (job : ProviderCachingJob) (w w' : W)
      → Cachable env job.provider
      → Grows job.provider w w'
      → Cached w job
      → Cached w' job
  Cached-Grows job w w' has f =
      All-mono
        (λ shard.
          All-mono
            (λ slice.
              Lists-Extends env.to_string (providers_cache env sc) job.provider
                (providers_view env sc r) (Cachable env)
                (providers-Sound env sc r c built redis encodes_nodes reads_nodes job has) w w'
                (slice.0) f)
            (shard.1))
        job.index.shards

  abbrev HasOwn : ProviderCachingJob → Type 0
  HasOwn job = Cachable env job.provider

  after_handlers-Cached :
      (jobs : List ProviderCachingJob) (w : W)
      → All HasOwn jobs
      → AllReadable w
      → let w' = after_handlers jobs w in
        AllReadable w' × All (λ job. HasOwn job × Cached w' job) jobs
  after_handlers-Cached [] w h readable = (readable, tt)
  after_handlers-Cached (job ∷ jobs) w (has, h) readable =
      let (before, cached) = after_handlers-Cached jobs w h readable in
      let (grows, after, here) = handler_lem job (after_handlers jobs w) has before in
      (
        after,
        (
          (has, here),
          All-mono
              (λ k (own, there). (own, Cached-Grows k (after_handlers jobs w) _ own grows there))
              jobs cached,
        ),
      )

  abbrev Found : W → ProviderCachingJob → Type 0
  Found w job =
      All (λ shard. All (λ slice. Finds env c job.provider w (slice.0)) (shard.1)) job.index.shards

  drained_queue :
      (events : List (Event ProviderCachingJob))
      → (run c.job_queue events).loop ≡ done
      → SameItems (run c.job_queue events).accepted (run c.job_queue events).handled
  drained_queue events =
      let parts = construct-Parts env sc c built in
      rw parts.queue (done-SameItems (queue_config env) events)

  -- In a constructed service over a redis that answers, whose provider records can all be read,
  -- and over libraries that encode all nodes of provider records and decode what they encode,
  -- where the cached records and those of the jobs have providers whose peer ids and multiaddrs
  -- are read from their own bytes: when the loop of the job queue has ended, whatever raced with
  -- the shutdown, and the handlers of the jobs ran one after another in the order in which they
  -- returned, then for every job that was accepted the provider index, asked without spaces and
  -- kinds of claim, finds its provider for every slice of every shard of its index, without a call
  -- of IPNI.
  pub drained-Finds :
      (events : List (Event ProviderCachingJob)) (w : W)
      → let q = run c.job_queue events in
        q.loop ≡ done
        → All HasOwn q.handled
        → AllReadable w
        → All
            (λ job.
              All
                (λ shard.
                  All
                    (λ slice. Finds env c job.provider (after_handlers q.handled w) (slice.0))
                    (shard.1))
                job.index.shards)
            q.accepted
  drained-Finds events w d h readable =
      let q = run c.job_queue events in
      let w' = after_handlers q.handled w in
      let (_, cached) = after_handlers-Cached q.handled w h readable in
      let found =
        All-mono
          (λ job (own, all).
            All-mono
              (λ shard.
                All-mono
                  (λ slice.
                    Lists-Finds env sc r c built redis encodes_nodes reads_nodes job w' (slice.0))
                  (shard.1))
              job.index.shards all)
          q.handled cached in
      All-total ProviderCachingJob-discrete (Found w') q.accepted q.handled
        (λ f. omega (arith, drained_queue events d f)) found
