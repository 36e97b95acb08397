-- ===== src/ProviderCacher/Records.antt =====
-- What the provider cacher leaves in a cache that meets its contract.
use mathlib.Core.List.{append-nil, append_assoc}
use indexing_service.Prelude.{
  ℕ, ◌+◌, ◌%◌, ◌^◌, ◌≡◌, refl, sym, ap, ◌∙◌, inl, inr, Bool, true, none, List, [], ◌∷◌, ◌++◌, arith,
  Bytes, bytes_eq, bytes_eq_iff, bytes_eq_refl, any, All, All-append, All-mono, Bool-cases,
  if◌then◌else◌,
}
use indexing_service.Result.{ok, err}
use indexing_service.Types.{Cache, CacheView, IsCache}
use indexing_service.ByteMap.{ByteMap}
use indexing_service.ProviderResults.{AddrInfo, ProviderResult, equals}
use indexing_service.ProviderResults.Equality.{equals_refl}
use indexing_service.BlobIndex.{Position, ShardedDagIndex}
use indexing_service.ProviderCacher.{
  existing_of, cache_record, cache_slices, cache_shards, cache_provider_for_index_records,
}

any-append :
    {A : Type 0} (p : A → Bool) (xs ys : List A) → any p xs ≡ true → any p (xs ++ ys) ≡ true
any-append p [] ys h = cc
any-append p (x ∷ xs) ys h = ground (arith, any-append p xs ys)

any-snoc :
    {A : Type 0} (p : A → Bool) (xs : List A) (y : A) → p y ≡ true → any p (xs ++ y ∷ []) ≡ true
any-snoc p [] y h = ground arith
any-snoc p (x ∷ xs) y h = ground (arith, any-snoc p xs y h)

module _ {W : Type 0} (to_string : AddrInfo → Bytes) (store : Cache W Bytes (List ProviderResult))
    (provider : ProviderResult) (v : CacheView W Bytes (List ProviderResult)) where
  -- The cached records of a hash, none if the key is missing.
  abbrev pub records : W → Bytes → List ProviderResult
  records w h = elim (v.peek w h) [ ok rs ↦ rs | err e ↦ [] ]

  -- The provider is among the cached records of the hash.
  abbrev pub Lists : W → Bytes → Type 0
  Lists w h = any (equals to_string provider) (records w h) ≡ true

  -- No cached record is lost or moved: each list of records is a prefix of what it becomes.
  abbrev pub Extends : W → W → Type 0
  Extends w w' = (h : Bytes) → (more : List ProviderResult) × (records w' h ≡ records w h ++ more)

  -- The slices of a list, and of the shards of an index, are all listed.
  abbrev AllListed : W → List (Bytes × Position) → Type 0
  AllListed w slices = All (λ e. Lists w (e.0)) slices

  abbrev pub IndexListed : W → List (Bytes × ByteMap Position) → Type 0
  IndexListed w shards = All (λ e. AllListed w (e.1)) shards

  module _ (Encodable : ProviderResult → Type 0) where
    -- All that is cached in the world can be read, and written again.
    abbrev pub Readable : W → Type 0
    Readable w =
        (k : Bytes) → (existing_of (v.peek w k) ≡ ok (records w k)) × All Encodable (records w k)

    -- The cache meets its contract under the keys' own equality, and can store every list of
    -- records that can be encoded, of which the provider is one.
    pub record Sound : Type 0 where
      pub cache : IsCache store v
      pub same_lem : (k j : Bytes) → v.same k j ≡ bytes_eq k j
      pub storable_lem : (rs : List ProviderResult) → All Encodable rs → v.storable rs
      pub encodable : Encodable provider

    module _ (s : Sound) where
      Extends-refl : (w : W) → Extends w w
      Extends-refl w h = ([], sym (append-nil _))

      Extends-trans : (a b c : W) → Extends a b → Extends b c → Extends a c
      Extends-trans a b c f g h =
          let (more, e) = f h in
          let (more', e') = g h in
          (more ++ more', e' ∙ ap (λ xs. xs ++ more') e ∙ append_assoc (records a h) more more')

      pub Lists-Extends : (w w' : W) (h : Bytes) → Extends w w' → Lists w h → Lists w' h
      Lists-Extends w w' h f l = let (more, e) = f h in rw e (any-append _ (records w h) more l)

      module _ (w : W) (hash : Bytes) (r : Readable w) where
        abbrev added : W
        added = v.put w hash (records w hash ++ provider ∷ []) true

        storable_added : v.storable (records w hash ++ provider ∷ [])
        storable_added =
            s.storable_lem _
              (All-append Encodable (records w hash) (provider ∷ []) (r hash).1 (s.encodable, tt))

        peek-added :
            (h : Bytes)
            → v.peek added h
              ≡ (if bytes_eq hash h then ok (records w hash ++ provider ∷ []) else v.peek w h)
        peek-added h = rw (← s.same_lem hash h) (s.cache.peek-put w hash h _ true storable_added)

        records-added :
            (h : Bytes)
            → records added h
              ≡ (if bytes_eq hash h then records w hash ++ provider ∷ [] else records w h)
        records-added h = rw (peek-added h, records) (ground arith)

        Readable-added : Readable added
        unfolding existing_of
        Readable-added h = elim (Bool-cases (bytes_eq hash h)) [
          | inl e ↦
              rw (peek-added h, records)
                (rw e (
                  refl,
                  All-append Encodable (records w hash) (provider ∷ []) (r hash).1
                      (s.encodable, tt),
                ))
          | inr e ↦ rw (peek-added h, records) (rw e (r h))
        ]

        Extends-added : Extends w added
        Extends-added h = elim (Bool-cases (bytes_eq hash h)) [
          | inl e ↦ (
            provider ∷ [],
            records-added h
                ∙ (rw e (ap (λ k. records w k ++ provider ∷ []) ((bytes_eq_iff hash h).0 e))),
          )
          | inr e ↦ ([], records-added h ∙ (rw e (sym (append-nil _))))
        ]

        Lists-added : Lists added hash
        Lists-added = rw (records-added hash) (
            rw (bytes_eq_refl hash)
              (any-snoc _ (records w hash) provider (equals_refl to_string provider)))

      -- One round of the inner loop.
      abbrev Round : Bytes → ℕ → W → Type 0
      Round hash n w =
          (m : ℕ) × (w' : W) × (cache_record to_string store provider hash n w ≡ (ok m, w'))
          × Extends w w'
          × Readable w'
          × Lists w' hash

      cache_record-Round : (hash : Bytes) (n : ℕ) (w : W) → Readable w → Round hash n w
      unfolding cache_record
      cache_record-Round hash n w r =
          elim (Bool-cases (any (equals to_string provider) (records w hash))) [
            | inl here ↦ (
              n,
              w,
              rw (s.cache.get_lem w hash) (rw (r hash).0 (rw here)),
              Extends-refl w,
              r,
              here,
            )
            | inr absent ↦ (
              (n + 1) % 2 ^ 64,
              added w hash r,
              rw (s.cache.get_lem w hash) (
                  rw (r hash).0
                    (rw absent (rw (s.cache.set_lem w hash _ true (storable_added w hash r))))),
              Extends-added w hash r,
              Readable-added w hash r,
              Lists-added w hash r,
            )
          ]

      AllListed-Extends :
          (w w' : W) (slices : List (Bytes × Position))
          → Extends w w'
          → AllListed w slices
          → AllListed w' slices
      AllListed-Extends w w' slices f = All-mono (λ e. Lists-Extends w w' (e.0) f) slices

      cache_slices_lem :
          (slices : List (Bytes × Position)) (n : ℕ) (w : W)
          → Readable w
          → (m : ℕ) × (w' : W) × (cache_slices to_string store provider slices n w
              ≡ ((m, none), w'))
            × Extends w w'
            × Readable w'
            × AllListed w' slices
      unfolding cache_slices
      cache_slices_lem [] n w r = (n, w, refl, Extends-refl w, r, tt)
      cache_slices_lem ((hash, position) ∷ slices) n w r =
          let (m, w', e, f, r', l) = cache_record-Round hash n w r in
          let (m', w'', e', f', r'', l') = cache_slices_lem slices m w' r' in
          (m', w'', rw e e', Extends-trans w w' w'' f f', r'', (Lists-Extends w' w'' hash f' l, l'))

      cache_shards_lem :
          (shards : List (Bytes × ByteMap Position)) (n : ℕ) (w : W)
          → Readable w
          → (m : ℕ) × (w' : W) × (cache_shards to_string store provider shards n w
              ≡ ((m, none), w'))
            × Extends w w'
            × Readable w'
            × IndexListed w' shards
      unfolding cache_shards
      cache_shards_lem [] n w r = (n, w, refl, Extends-refl w, r, tt)
      cache_shards_lem ((shard, slices) ∷ shards) n w r =
          let (m, w', e, f, r', l) = cache_slices_lem slices n w r in
          let (m', w'', e', f', r'', l') = cache_shards_lem shards m w' r' in
          (
            m',
            w'',
            rw e e',
            Extends-trans w w' w'' f f',
            r'',
            (AllListed-Extends w' w'' slices f' l, l'),
          )

      -- Over a cache that meets its contract and compares keys as bytes, in a world where all
      -- cached records can be read and encoded, and for a provider that can be encoded, caching
      -- the provider for an index ends without an error; the provider is then among the records of
      -- every slice of every shard, the records that were cached before stay, in their order, and
      -- all cached records can still be read and encoded.
      pub cache_provider_for_index_records_lem :
          (index : ShardedDagIndex) (w : W)
          → Readable w
          → (m : ℕ) × (w' : W) × (cache_provider_for_index_records to_string store provider index w
              ≡ ((m, none), w'))
            × Extends w w'
            × Readable w'
            × IndexListed w' index.shards
      unfolding cache_provider_for_index_records
      cache_provider_for_index_records_lem index w r = cache_shards_lem index.shards 0 w r

      cache_slices-listed :
          (slices : List (Bytes × Position)) (n : ℕ) (w : W)
          → Readable w
          → AllListed w slices
          → cache_slices to_string store provider slices n w ≡ ((n, none), w)
      unfolding cache_slices cache_record
      cache_slices-listed [] n w r h = refl
      cache_slices-listed ((hash, position) ∷ slices) n w r h =
          rw (s.cache.get_lem w hash)
            (rw (r hash).0 (rw (h.0) (cache_slices-listed slices n w r h.1)))

      cache_shards-listed :
          (shards : List (Bytes × ByteMap Position)) (n : ℕ) (w : W)
          → Readable w
          → IndexListed w shards
          → cache_shards to_string store provider shards n w ≡ ((n, none), w)
      unfolding cache_shards
      cache_shards-listed [] n w r h = refl
      cache_shards-listed ((shard, slices) ∷ shards) n w r h =
          rw (cache_slices-listed slices n w r h.0) (cache_shards-listed shards n w r h.1)

      -- Over a cache that meets its contract and compares keys as bytes, in a world where all
      -- cached records can be read and encoded, and for a provider that can be encoded, caching
      -- the provider for the same index again writes nothing and changes nothing.
      pub cache_provider_for_index_records_twice :
          (index : ShardedDagIndex) (w : W)
          → Readable w
          → let after = (cache_provider_for_index_records to_string store provider index w).1 in
            cache_provider_for_index_records to_string store provider index after
            ≡ ((0, none), after)
      unfolding cache_provider_for_index_records
      cache_provider_for_index_records_twice index w r =
          let (m, w', e, f, r', l) = cache_shards_lem index.shards 0 w r in
          rw e (cache_shards-listed index.shards 0 w' r' l)
