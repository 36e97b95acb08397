-- ===== src/BlobIndexLookup.antt =====
-- pkg/service/blobindexlookup: fetching an index by HTTP (simplelookup.go), and the same behind a
-- cache that also queues the caching of providers (cachinglookup.go); Range is of
-- pkg/metadata/metadata.go.
pub mod Laws
pub mod Header
use indexing_service.Prelude.{
  ℕ, ◌+◌, ◌-◌, ◌%◌, ◌^◌, Bool, true, ◌||◌, Option, none, some, [], Bytes, ltb, if◌then◌else◌,
}
use indexing_service.Result.{
  Result, ok, err, Err, wrapped, failure_response, nil_dereference, reading_index_cache,
  fetching_index, caching_index, queueing_caching, failed_to_fetch_index, is_key_not_found, Io,
  ◌>>=◌, ◌>>◌, pure, raise, lift, try, within,
}
use indexing_service.Types.{Cache}
use indexing_service.ProviderResults.{ProviderResult}
use indexing_service.BlobIndex.{ShardedDagIndex}

-- `offset` and `length` are uint64.
pub record Range : Type 0 where
  pub offset : ℕ
  pub length : Option ℕ

-- The interface of interface.go: context id, provider, URL, range.
abbrev pub BlobIndexLookup : Type 0 → Type 0
BlobIndexLookup W = Bytes → ProviderResult → Bytes → Option Range → Io W ShardedDagIndex

-- The header `Range: bytes=first-last`, or `bytes=first-`, by its two numbers.
pub record RangeHeader : Type 0 where
  pub first : ℕ
  pub last : Option ℕ

-- The sum and the difference wrap.
last_byte : ℕ → Option ℕ → Option ℕ
last_byte offset none = none
last_byte offset (some length) = some ((offset + length + 2 ^ 64 - 1) % 2 ^ 64)

pub range_header : Range → RangeHeader
unfolding last_byte
range_header rng = record { first = rng.offset; last = last_byte rng.offset rng.length }

pub record Request : Type 0 where
  pub url : Bytes
  pub range : Option RangeHeader

pub record Response : Type 0 where
  pub status : ℕ
  pub body : Result Bytes

abbrev body_text : Result Bytes → Bytes
body_text (ok text) = text
body_text (err e) = []

module _ {W : Type 0} (is_url : Bytes → Bool) (http_do : Request → Io W Response)
    (extract : Result Bytes → Result ShardedDagIndex) where
  -- The error of http.NewRequest is overwritten, and without a request the next use of it panics.
  unfoldable pub simple_lookup : BlobIndexLookup W
  unfolding ◌>>=◌
  simple_lookup context_id provider url rng =
      if is_url url
      then (do
        resp ← within failed_to_fetch_index (
            http_do (record {
              url = url;
              range = elim rng [ none ↦ none | some r ↦ some (range_header r) ];
            }))
        if ltb resp.status 200 || ltb 299 resp.status
            then raise (failure_response resp.status (body_text resp.body))
            else lift (extract resp.body))
      else raise nil_dereference

module _ {W : Type 0} (lookup : BlobIndexLookup W) (store : Cache W Bytes ShardedDagIndex)
    (queue_provider_caching : ProviderResult → ShardedDagIndex → Io W (Unit {0})) where
  -- The part after a miss.
  fetch_and_cache : BlobIndexLookup W
  unfolding ◌>>=◌
  fetch_and_cache context_id provider url rng = do
    index ← within fetching_index (lookup context_id provider url rng)
    within caching_index (store.set context_id index true)
    within queueing_caching (queue_provider_caching provider index)
    pure index

  after_read :
      Bytes → ProviderResult → Bytes → Option Range → Result ShardedDagIndex → Io W ShardedDagIndex
  after_read context_id provider url rng (ok index) = pure index
  after_read context_id provider url rng (err e) =
      if is_key_not_found e
      then fetch_and_cache context_id provider url rng
      else raise (wrapped reading_index_cache e)

  pub with_cache : BlobIndexLookup W
  unfolding after_read fetch_and_cache ◌>>=◌
  with_cache context_id provider url rng = do
    found ← try (store.get context_id)
    after_read context_id provider url rng found
