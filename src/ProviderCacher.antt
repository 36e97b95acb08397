-- ===== src/ProviderCacher.antt =====
-- pkg/service/providercacher/simpleprovidercacher.go: adding a provider to the cached records of
-- every slice of an index.
mod Examples
pub mod Records
pub mod Races
pub mod Queue
use indexing_service.Prelude.{
  ℕ, ◌+◌, ◌%◌, ◌^◌, Bool, true, Option, none, some, List, [], ◌∷◌, ◌++◌, Bytes, any, if◌then◌else◌,
}
use indexing_service.Result.{
  Result, ok, err, Err, is_key_not_found, Io, ◌>>=◌, ◌>>◌, pure, lift, try,
}
use indexing_service.Types.{Cache}
use indexing_service.ByteMap
use indexing_service.ByteMap.{ByteMap}
use indexing_service.ProviderResults.{AddrInfo, ProviderResult, equals}
use indexing_service.BlobIndex.{Position, ShardedDagIndex}

-- The two results of the loop, the count of written records and the error, with the world.
abbrev pub Written : Type 0 → Type 0
Written W = (ℕ × Option Err) × W

-- A missing key reads as no records.
unfoldable pub existing_of : Result (List ProviderResult) → Result (List ProviderResult)
existing_of (ok records) = ok records
existing_of (err e) = if is_key_not_found e then ok [] else err e

module _ {W : Type 0} (to_string : AddrInfo → Bytes) (store : Cache W Bytes (List ProviderResult))
    (provider : ProviderResult) where
  -- The body of the inner loop reads the records of the hash, and then writes them with the provider,
  -- if it is not among them; `written` is a uint64.
  unfoldable pub read_existing : Bytes → Io W (List ProviderResult)
  unfolding existing_of ◌>>=◌
  read_existing hash = do found ← try (store.get hash); lift (existing_of found)

  unfoldable pub write_record : Bytes → ℕ → List ProviderResult → Io W ℕ
  unfolding ◌>>=◌
  write_record hash written existing =
      if any (equals to_string provider) existing
      then pure written
      else (do store.set hash (existing ++ provider ∷ []) true; pure ((written + 1) % 2 ^ 64))

  cache_record : Bytes → ℕ → Io W ℕ
  unfolding read_existing write_record ◌>>=◌
  cache_record hash written = do existing ← read_existing hash; write_record hash written existing

  -- The loops return at the first error, with what was written so far.
  abbrev or_stop : ℕ → Result ℕ × W → (ℕ → W → Written W) → Written W
  or_stop written (ok n, w) rest = rest n w
  or_stop written (err e, w) rest = ((written, some e), w)

  cache_slices : List (Bytes × Position) → ℕ → W → Written W
  cache_slices [] written w = ((written, none), w)
  cache_slices ((hash, position) ∷ slices) written w =
      or_stop written (cache_record hash written w) (cache_slices slices)

  abbrev or_return : Written W → (ℕ → W → Written W) → Written W
  or_return ((n, none), w) rest = rest n w
  or_return ((n, some e), w) rest = ((n, some e), w)

  cache_shards : List (Bytes × ByteMap Position) → ℕ → W → Written W
  cache_shards [] written w = ((written, none), w)
  cache_shards ((shard, slices) ∷ shards) written w =
      or_return (cache_slices (ByteMap.iterator slices) written w) (cache_shards shards)

  pub cache_provider_for_index_records : ShardedDagIndex → W → Written W
  unfolding cache_shards cache_slices
  cache_provider_for_index_records index w = cache_shards (ByteMap.iterator index.shards) 0 w
