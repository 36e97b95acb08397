-- ===== src/BlobIndexLookup/Laws.antt =====
-- What the caching index lookup does over a cache that meets its contract.
use indexing_service.Prelude.{◌≡◌, ◌∙◌, refl, true, false, Option, Bytes}
use indexing_service.Result.{
  ok, err, Err, wrapped, queueing_caching, reading_index_cache, is_key_not_found, Io,
}
use indexing_service.Types.{Cache, CacheView, IsCache}
use indexing_service.ProviderResults.{ProviderResult}
use indexing_service.BlobIndex.{ShardedDagIndex}
use indexing_service.BlobIndexLookup.{BlobIndexLookup, Range, with_cache}

module _ {W : Type 0} (lookup : BlobIndexLookup W) (store : Cache W Bytes ShardedDagIndex)
    (queue : ProviderResult → ShardedDagIndex → Io W (Unit {0})) (id : Bytes) (p : ProviderResult)
    (url : Bytes) (rng : Option Range) where
  -- What a read of the cache gives is returned, and nothing else is called.
  pub with_cache-get :
      (w w' : W) (index : ShardedDagIndex)
      → store.get id w ≡ (ok index, w')
      → with_cache lookup store queue id p url rng w ≡ (ok index, w')
  unfolding with_cache
  with_cache-get w w' index g = rw g

  -- The calls after a miss, in their order.
  pub with_cache-calls :
      (w w₁ w₂ w₃ w₄ : W) (e : Err) (index : ShardedDagIndex)
      → store.get id w ≡ (err e, w₁)
      → is_key_not_found e ≡ true
      → lookup id p url rng w₁ ≡ (ok index, w₂)
      → store.set id index true w₂ ≡ (ok tt, w₃)
      → queue p index w₃ ≡ (ok tt, w₄)
      → with_cache lookup store queue id p url rng w ≡ (ok index, w₄)
  unfolding with_cache
  with_cache-calls w w₁ w₂ w₃ w₄ e index g q f s a = rw g (rw q (rw f (rw s (rw a))))

module _ {W : Type 0} (lookup : BlobIndexLookup W) (store : Cache W Bytes ShardedDagIndex)
    (queue : ProviderResult → ShardedDagIndex → Io W (Unit {0}))
    (v : CacheView W Bytes ShardedDagIndex) (cache : IsCache store v) where
  -- Over a cache that meets its contract, an index in the cache is returned with nothing fetched
  -- and nothing queued; a read error other than a missing key is returned, wrapped, with nothing
  -- fetched and nothing queued.
  pub find_hit :
      (w : W) (id : Bytes) (p : ProviderResult) (url : Bytes) (rng : Option Range)
      → ((index : ShardedDagIndex)
          → v.peek w id ≡ ok index
          → with_cache lookup store queue id p url rng w ≡ (ok index, w))
        × ((e : Err)
            → v.peek w id ≡ err e
            → is_key_not_found e ≡ false
            → with_cache lookup store queue id p url rng w
              ≡ (err (wrapped reading_index_cache e), w))
  unfolding with_cache
  find_hit w id p url rng =
      (λ index e. rw (cache.get_lem w id) (rw e), λ e h q. rw (cache.get_lem w id) (rw h (rw q)))

  module _ (w w' : W) (id : Bytes) (p : ProviderResult) (url : Bytes) (rng : Option Range) (e : Err)
      (index : ShardedDagIndex) (missing : v.peek w id ≡ err e)
      (not_found : is_key_not_found e ≡ true) (fetched : lookup id p url rng w ≡ (ok index, w'))
      (storable : v.storable index) where
    -- Over a cache that meets its contract, on a miss with a fetch that gives an index that can be
    -- stored, the index is written to the cache and then queued, once, with its provider; it is
    -- returned if the queue takes it, and else the error of the queue, wrapped; the world is then
    -- the one that the queue left.
    pub find_miss :
        (w'' : W)
        → (queue p index (v.put w' id index true) ≡ (ok tt, w'')
            → with_cache lookup store queue id p url rng w ≡ (ok index, w''))
          × ((e' : Err)
              → queue p index (v.put w' id index true) ≡ (err e', w'')
              → with_cache lookup store queue id p url rng w
                ≡ (err (wrapped queueing_caching e'), w''))
    unfolding with_cache
    find_miss w'' = (
      λ q.
          with_cache-calls lookup store queue id p url rng w w w' _ w'' e index
            (cache.get_lem w id ∙ rw missing refl) not_found fetched
            (cache.set_lem w' id index true storable) q,
      λ e' q. rw (cache.get_lem w id) (
          rw missing
            (rw not_found (rw fetched (rw (cache.set_lem w' id index true storable) (rw q))))),
    )
