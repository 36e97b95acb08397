-- ===== src/Service/Construct/Providers.antt =====
-- The job queue and the provider index of a constructed service share a redis database: what the
-- queue's handler caches, the index finds.
use indexing_service.Prelude.{◌≡◌, refl, Bool, true, List, [], Bytes, any, All, All-mono}
use indexing_service.Result.{Result, ok, err}
use indexing_service.ProviderResults.{ProviderResult, equals}
use indexing_service.Types.{CacheView, IsCache}
use indexing_service.ProviderResults.Codec.{ProviderResultNode}
use indexing_service.ProviderResults.Codec.Laws.{IsCachable, marshal_cbor_lem}
use indexing_service.Redis.{Store, multihash_key_string}
use indexing_service.Redis.Laws.{RedisView, IsRedis, store_view, cache-IsCache}
use indexing_service.Redis.Values.{new_provider_store}
use indexing_service.ProviderCacher.Records.{
  Sound, Readable, Lists, cache_provider_for_index_records_lem,
}
use indexing_service.ProviderCacher.Queue.{ProviderCachingJob, handle}
use indexing_service.ProviderIndex.Caching.{find_hit}
use indexing_service.Service.Construct.{
  ServiceConfig, Environment, Constructed, client, providers_cache, construct,
}
use indexing_service.Service.Construct.Parts.{construct-Parts}

module _ {W Md Claim : Type 0} (env : Environment W Md Claim) (c : Constructed W Claim)
    (provider : ProviderResult) where
  -- A query for the hash, for all claims in all spaces, finds the provider, and asks
  -- redis only.
  abbrev pub Finds : W → Bytes → Type 0
  Finds w h =
      (rs : List ProviderResult) × (c.service.services.provider_index
          (record { spaces = []; hash = h; target_claims = [] }) w
        ≡ (ok rs, w))
      × (any (equals env.to_string provider) rs ≡ true)

-- A record with a provider whose peer id and multiaddrs are read from their own bytes.
abbrev pub Cachable : {W Md Claim : Type 0} → Environment W Md Claim → ProviderResult → Type 0
Cachable env = IsCachable env.encodings.libraries

module _ {W Md Claim : Type 0} (env : Environment W Md Claim) (sc : ServiceConfig)
    (r : RedisView W) where
  abbrev pub providers_store : Store W Bytes (List ProviderResult)
  providers_store = new_provider_store env.encodings (client env sc sc.providers_db)

  abbrev pub providers_view : CacheView W Bytes (List ProviderResult)
  providers_view = store_view providers_store r

  module _ (c : Constructed W Claim) (built : construct env sc ≡ ok c)
      (redis : IsRedis (client env sc sc.providers_db) r)
      (encodes_nodes : (ns : List ProviderResultNode)
        → (text : Bytes) × (env.encodings.libraries.encode env.encodings.provider_results_type ns
            ≡ ok text))
      (reads_nodes : (ns : List ProviderResultNode) (text : Bytes)
        → env.encodings.libraries.encode env.encodings.provider_results_type ns ≡ ok text
        → env.encodings.libraries.decode env.encodings.provider_results_type text ≡ ok ns)
      (job : ProviderCachingJob) where
    pub providers-IsCache : IsCache (providers_cache env sc) providers_view
    unfolding new_provider_store
    providers-IsCache = cache-IsCache providers_store r redis

    pub providers-Sound :
        Cachable env job.provider
        → Sound env.to_string (providers_cache env sc) job.provider providers_view (Cachable env)
    unfolding new_provider_store multihash_key_string
    providers-Sound has = record {
      cache = providers-IsCache;
      same_lem = λ k j. refl;
      storable_lem =
          marshal_cbor_lem env.encodings.libraries env.encodings.provider_results_type encodes_nodes
            reads_nodes;
      encodable = has;
    }

    Lists-ok :
        (p : ProviderResult → Bool) (found : Result (List ProviderResult))
        → any p (elim found [ ok rs ↦ rs | err e ↦ [] ]) ≡ true
        → (rs : List ProviderResult) × (found ≡ ok rs) × (any p rs ≡ true)
    Lists-ok p (ok rs) l = (rs, refl, l)
    Lists-ok p (err e) l = cc

    pub Lists-Finds :
        (w : W) (h : Bytes)
        → Lists env.to_string (providers_cache env sc) job.provider providers_view w h
        → Finds env c job.provider w h
    Lists-Finds w h l =
        let parts = construct-Parts env sc c built in
        let (rs, e, here) =
          Lists-ok (equals env.to_string job.provider) (providers_view.peek w h) l in
        (
          rs,
          rw parts.providers (
              find_hit (providers_cache env sc) parts.find_client providers_view providers-IsCache
                env.metadata env.sum env.did_bytes w h rs e),
          here,
        )

    -- In a constructed service over a redis that answers, whose provider records can all be read,
    -- and over libraries that encode all nodes of provider records and decode what they encode: if
    -- the record of a job and the cached ones have providers whose peer ids and multiaddrs are
    -- read from their own bytes, the handler of the job queue ends the job without an error, and
    -- the provider index, asked without spaces and kinds of claim, then finds the provider of the
    -- job for every slice of every shard of its index, without a call of IPNI.
    pub construct-handler-Finds :
        (w : W)
        → Cachable env job.provider
        → Readable env.to_string
            (providers_cache env sc)
            job.provider
            providers_view
            (Cachable env)
            w
        → ((c.handler job w).0 ≡ ok tt)
          × All
              (λ shard.
                All (λ slice. Finds env c job.provider (c.handler job w).1 (slice.0)) (shard.1))
              job.index.shards
    unfolding handle
    construct-handler-Finds w has readable =
        let parts = construct-Parts env sc c built in
        let (m, w', e, f, g, listed) =
          cache_provider_for_index_records_lem env.to_string (providers_cache env sc) job.provider
            providers_view (Cachable env) (providers-Sound has) job.index w readable in
        rw parts.caching (
          rw e (
            refl,
            All-mono (λ shard. All-mono (λ slice. Lists-Finds w' (slice.0)) (shard.1))
                job.index.shards listed,
          ))
