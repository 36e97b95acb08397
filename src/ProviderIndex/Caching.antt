-- ===== src/ProviderIndex/Caching.antt =====
-- How the provider index uses its cache.
use indexing_service.Prelude.{◌≡◌, refl, List, [], Bytes}
use indexing_service.Result.{Result, ok, Io}
use indexing_service.Types.{Cache, CacheView, IsCache}
use indexing_service.ProviderResults.{ProviderResult}
use indexing_service.Metadata.{MetadataContext}
use indexing_service.ProviderIndex.{get_provider_results, find, filtered_codecs, filter_by_space}

module _ {W : Type 0} (store : Cache W Bytes (List ProviderResult))
    (find_client : Bytes → Io W (List (List ProviderResult)))
    (v : CacheView W Bytes (List ProviderResult)) (cache : IsCache store v) where
  -- Records in the cache are the answer, and IPNI is not asked.
  pub get_provider_results_hit :
      (w : W) (hash : Bytes) (rs : List ProviderResult)
      → v.peek w hash ≡ ok rs
      → get_provider_results store find_client hash w ≡ (ok rs, w)
  unfolding get_provider_results
  get_provider_results_hit w hash rs e = rw (cache.get_lem w hash) (rw e)

  -- Without kinds of claim and without spaces, the records in the cache are found as they are.
  pub find_hit :
      {Md : Type 0} (ctx : MetadataContext Md) (sum : Bytes → Result Bytes)
      (did_bytes : Bytes → Bytes) (w : W) (hash : Bytes) (rs : List ProviderResult)
      → v.peek w hash ≡ ok rs
      → find store find_client ctx sum did_bytes
          (record { spaces = []; hash = hash; target_claims = [] })
          w
        ≡ (ok rs, w)
  unfolding find filtered_codecs filter_by_space
  find_hit ctx sum did_bytes w hash rs e = rw (get_provider_results_hit w hash rs e) refl
