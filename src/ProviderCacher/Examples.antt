-- ===== src/ProviderCacher/Examples.antt =====
-- The provider cacher at a cache in memory.
use indexing_service.Prelude.{
  ℕ, ◌≡◌, refl, Option, none, some, List, [], All, ◌∷◌, Bytes, any, false, bytes_eq,
}
use indexing_service.Result.{ok, err, is_key_not_found}
use indexing_service.ByteMap.{ByteMap, lookup}
use indexing_service.Samples.{memory_cache, memory_view, memory_cache-IsCache, peek_memory}
use indexing_service.ProviderResults.{AddrInfo, ProviderResult, equals, equal_provider}
use indexing_service.BlobIndex.{ShardedDagIndex}
use indexing_service.ProviderCacher.{existing_of, cache_provider_for_index_records}
use indexing_service.ProviderCacher.{read_existing, write_record}
use indexing_service.ProviderCacher.Races.{write_record-lost}
use indexing_service.ProviderCacher.Records.{
  records, Sound, Readable, Extends, IndexListed, cache_provider_for_index_records_lem,
  cache_provider_for_index_records_twice,
}

abbrev World : Type 0
World = ByteMap (List ProviderResult)

readable_memory :
    (o : Option (List ProviderResult))
    → existing_of (peek_memory o) ≡ ok (elim (peek_memory o) [ ok rs ↦ rs | err e ↦ [] ])
unfolding existing_of is_key_not_found
readable_memory none = refl
readable_memory (some rs) = refl

abbrev address : AddrInfo → Bytes
address a = a.id

abbrev new_provider : ProviderResult
new_provider = record { context_id = 1 ∷ []; metadata = []; provider = none }

abbrev Anything : ProviderResult → Type 0
Anything r = Unit {0}

All-Anything : (rs : List ProviderResult) → All Anything rs
All-Anything [] = tt
All-Anything (r ∷ rs) = (tt, All-Anything rs)

memory-Sound : (p : ProviderResult) → Sound address memory_cache p memory_view Anything
memory-Sound p = record {
  cache = memory_cache-IsCache;
  same_lem = λ k j. refl;
  storable_lem = λ rs h. tt;
  encodable = tt;
}

-- One shard with two slices.
abbrev one_shard : ShardedDagIndex
one_shard = record {
  content = [];
  shards =
      (
        (1 ∷ []),
        (((2 ∷ []), record { offset = 0; length = 1 })
            ∷ ((3 ∷ []), record { offset = 1; length = 4 })
            ∷ []),
      )
      ∷ [];
}

cache_provider_for_index_records_lem_example :
    (m : ℕ) × (w' : World) × (cache_provider_for_index_records address memory_cache new_provider
        one_shard []
      ≡ ((m, none), w'))
    × Extends address memory_cache new_provider memory_view [] w'
    × Readable address memory_cache new_provider memory_view Anything w'
    × IndexListed address memory_cache new_provider memory_view w' one_shard.shards
cache_provider_for_index_records_lem_example =
    cache_provider_for_index_records_lem address memory_cache new_provider memory_view Anything
      (memory-Sound new_provider) one_shard []
      (λ k. (readable_memory (lookup [] k), All-Anything _))

cache_provider_for_index_records_twice_example :
    let after =
      (cache_provider_for_index_records address memory_cache new_provider one_shard []).1 in
    cache_provider_for_index_records address memory_cache new_provider one_shard after
    ≡ ((0, none), after)
cache_provider_for_index_records_twice_example =
    cache_provider_for_index_records_twice address memory_cache new_provider memory_view Anything
      (memory-Sound new_provider) one_shard []
      (λ k. (readable_memory (lookup [] k), All-Anything _))

abbrev other_provider : ProviderResult
other_provider = record { context_id = 4 ∷ []; metadata = []; provider = none }

write_record-lost_example :
    let (ra, w₁) = read_existing address memory_cache new_provider (2 ∷ []) [] in
    let (rb, w₂) = read_existing address memory_cache other_provider (2 ∷ []) w₁ in
    let (na, w₃) = write_record address memory_cache new_provider (2 ∷ []) 0 [] w₂ in
    let (nb, w₄) = write_record address memory_cache other_provider (2 ∷ []) 0 [] w₃ in
    (ra ≡ ok [])
    × (rb ≡ ok [])
    × (na ≡ ok 1)
    × (nb ≡ ok 1)
    × (records address memory_cache new_provider memory_view w₄ (2 ∷ []) ≡ other_provider ∷ [])
    × (any
          (equals address new_provider)
          (records address memory_cache new_provider memory_view w₄ (2 ∷ []))
        ≡ false)
unfolding lookup equals equal_provider bytes_eq
write_record-lost_example =
    write_record-lost address memory_cache new_provider other_provider memory_view Anything
      (memory-Sound new_provider) (memory-Sound other_provider) [] (2 ∷ []) 0 0
      (λ k. (readable_memory (lookup [] k), tt)) refl refl refl
