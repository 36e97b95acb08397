-- ===== src/Redis/Examples.antt =====
-- The theorems about the redis store at a database in memory.
use indexing_service.Prelude.{◌≡◌, refl, [], ◌∷◌, Bytes}
use indexing_service.Result.{ok}
use indexing_service.Types.{IsCache}
use indexing_service.Samples.{Database, database_client, database_view, database_client-IsRedis}
use indexing_service.Redis.{Store, cid_key_string, cache}
use indexing_service.Redis.Laws.{store_view, cache-IsCache}

-- Texts are stored as they are; the key of a CID is its last bytes.
abbrev texts : Store Database Bytes Bytes
texts = record {
  from_redis = λ text. ok text;
  to_redis = λ text. ok text;
  key_string = λ k. k;
  client = database_client;
}

abbrev one_text : Database
one_text = ((1 ∷ []), ((7 ∷ []), 0)) ∷ []

cache-IsCache_example : IsCache (cache texts) (store_view texts database_view)
cache-IsCache_example = cache-IsCache texts database_view database_client-IsRedis

-- CIDs with one hash have one key.
cid_key : cid_key_string (λ c. 5 ∷ []) (1 ∷ []) ≡ 5 ∷ []
unfolding cid_key_string
cid_key = refl
