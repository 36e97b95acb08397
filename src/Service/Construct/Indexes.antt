-- ===== src/Service/Construct/Indexes.antt =====
-- The indexes of a constructed service, over its redis database.
use indexing_service.Prelude.{◌≡◌, ◌∙◌, refl, true, none, some, Option, Bytes}
use indexing_service.Result.{ok, key_not_found, is_key_not_found}
use indexing_service.ByteMap.Laws.{IsKeyed}
use indexing_service.ProviderResults.{ProviderResult}
use indexing_service.BlobIndex.{ShardedDagIndex}
use indexing_service.BlobIndex.Archive.{archive}
use indexing_service.BlobIndex.Archive.Blocks.{IsCodec}
use indexing_service.BlobIndex.Archive.Shards.{AllKeyed}
use indexing_service.BlobIndex.Archive.RoundTrip.{extract-archive}
use indexing_service.Redis.{answer, default_expire, encoded_context_id_key_string}
use indexing_service.Redis.Laws.{RedisView, IsRedis, get-peek, set-put}
use indexing_service.Redis.Values.{new_sharded_dag_index_store}
use indexing_service.Redis.Indexes.{SameSlices}
use indexing_service.ProviderCacher.Queue.{queue_provider_caching}
use indexing_service.BlobIndexLookup.{Range, simple_lookup}
use indexing_service.BlobIndexLookup.Laws.{with_cache-get, with_cache-calls}
use indexing_service.Service.Construct.{
  ServiceConfig, Environment, Constructed, client, indexes_cache, extract_body, construct,
}
use indexing_service.Service.Construct.Parts.{construct-Parts}

module _ {W Md Claim : Type 0} (env : Environment W Md Claim) (sc : ServiceConfig)
    (c : Constructed W Claim) (built : construct env sc ≡ ok c) (r : RedisView W)
    (redis : IsRedis (client env sc sc.indexes_db) r)
    (codec : IsCodec env.sort_func env.codec) where
  -- In a constructed service over a redis that answers and encodings that read what they write: an
  -- index that is not in redis, that the URL serves, whose multihashes are distinct and that can
  -- be archived is returned once the queue takes its caching job. If redis then still holds what
  -- was written under the context id, a lookup of that context id, with any provider, URL and
  -- range, gives an index with the same slices, and changes nothing.
  pub construct-blob_index_lookup :
      (w w' w'' : W) (id url url' : Bytes) (p p' : ProviderResult) (rng rng' : Option Range)
      (index : ShardedDagIndex) (text : Bytes)
      → r.peek w id ≡ none
      → simple_lookup env.is_url env.http_do (extract_body env) id p url rng w ≡ (ok index, w')
      → archive env.sort_func env.codec index ≡ ok text
      → IsKeyed index.shards
      → AllKeyed env.sort_func env.codec codec index.shards
      → queue_provider_caching env.send p index (r.put w' id text default_expire) ≡ (ok tt, w'')
      → r.peek w'' id ≡ some text
      → (c.service.services.blob_index_lookup id p url rng w ≡ (ok index, w''))
        × ((found : ShardedDagIndex) × (c.service.services.blob_index_lookup id p' url' rng' w''
              ≡ (ok found, w''))
            × SameSlices found index)
  unfolding new_sharded_dag_index_store encoded_context_id_key_string answer is_key_not_found
      indexing_service.Redis.cache
  construct-blob_index_lookup w w' w'' id url url' p p' rng rng' index text missing fetched archived
        keyed all sent stays =
      let parts = construct-Parts env sc c built in
      let store =
        new_sharded_dag_index_store env.sort_func env.codec (client env sc sc.indexes_db) in
      let lookup = simple_lookup env.is_url env.http_do (extract_body env) in
      let queue = queue_provider_caching env.send in
      let (found, read, same, _) =
        extract-archive env.sort_func env.codec codec index text archived keyed all in
      rw parts.indexes (
        with_cache-calls lookup (indexes_cache env sc) queue id p url rng w w w' _ w'' key_not_found
            index (get-peek store r redis w id ∙ rw missing refl) refl fetched
            (set-put store r redis w' id index true (rw archived refl) ∙ rw archived refl) sent,
        (
          found,
          with_cache-get lookup (indexes_cache env sc) queue id p' url' rng' w'' w'' found
              (get-peek store r redis w'' id ∙ rw stays (rw read refl)),
          same,
        ),
      )
