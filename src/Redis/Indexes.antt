-- ===== src/Redis/Indexes.antt =====
-- Indexes in the redis store.
use indexing_service.Prelude.{◌≡◌, ◌∙◌, refl, ap, Bool, Bytes, bytes_eq_refl}
use indexing_service.Result.{ok}
use indexing_service.ByteMap.Laws.{IsKeyed}
use indexing_service.BlobIndex.{ShardedDagIndex}
use indexing_service.BlobIndex.Slices.{slice_at}
use indexing_service.BlobIndex.Archive.{Codec, SortFunc, archive}
use indexing_service.BlobIndex.Archive.Blocks.{IsCodec}
use indexing_service.BlobIndex.Archive.Shards.{AllKeyed}
use indexing_service.BlobIndex.Archive.RoundTrip.{extract-archive}
use indexing_service.Redis.{Client, answer, get, set, expiration}
use indexing_service.Redis.Laws.{RedisView, IsRedis, get-peek, set-put}
use indexing_service.Redis.Values.{new_sharded_dag_index_store}

-- Two indexes place every slice of every shard alike.
abbrev pub SameSlices : ShardedDagIndex → ShardedDagIndex → Type 0
SameSlices a b = (s h : Bytes) → slice_at a s h ≡ slice_at b s h

module _ {W : Type 0} (sort_func : SortFunc) (codec : Codec) (c : IsCodec sort_func codec)
    (client : Client W) (r : RedisView W) (redis : IsRedis client r) where
  -- Over a redis that answers, and codecs that read what they write, an index whose keys are
  -- distinct and that can be archived is stored, and reading its context id then gives an index with
  -- the same slices.
  pub get-set_index :
      (w : W) (id : Bytes) (index : ShardedDagIndex) (expires : Bool) (text : Bytes)
      → archive sort_func codec index ≡ ok text
      → IsKeyed index.shards
      → AllKeyed sort_func codec c index.shards
      → let store = new_sharded_dag_index_store sort_func codec client in
        ((set store id index expires w).0 ≡ ok tt)
        × ((found : ShardedDagIndex) × ((get store id (set store id index expires w).1).0
              ≡ ok found)
            × SameSlices found index)
  unfolding new_sharded_dag_index_store answer
  get-set_index w id index expires text e keyed all =
      let store = new_sharded_dag_index_store sort_func codec client in
      let (found, read, same, _) = extract-archive sort_func codec c index text e keyed all in
      let written = set-put store r redis w id index expires (rw e refl) in
      (
        ap (λ x. x.0) written,
        (
          found,
          (rw written (
              ap (λ x. x.0) (get-peek store r redis _ id)
              ∙ rw e (
                  rw
                    (redis.peek-put w (store.key_string id) (store.key_string id) text
                      (expiration expires))
                    (rw (bytes_eq_refl (store.key_string id)) read)))),
          same,
        ),
      )
