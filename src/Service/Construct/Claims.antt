-- ===== src/Service/Construct/Claims.antt =====
-- The claims of a constructed service, over its redis database.
use indexing_service.Prelude.{◌≡◌, ◌∙◌, refl, true, none, Bytes, bytes_eq_refl}
use indexing_service.Result.{ok, key_not_found, is_key_not_found}
use indexing_service.Redis.{default_expire, answer, cid_key_string, multihash_key_string}
use indexing_service.Redis.Laws.{RedisView, IsRedis, store_view, cache-IsCache}
use indexing_service.Redis.Values.{new_content_claims_store}
use indexing_service.ClaimLookup.{simple_lookup}
use indexing_service.ClaimLookup.Laws.{with_cache_hit, with_cache_miss}
use indexing_service.Service.Construct.{
  ServiceConfig, Environment, Constructed, client, claims_cache, construct,
}
use indexing_service.Service.Construct.Parts.{construct-Parts}

module _ {W Md Claim : Type 0} (env : Environment W Md Claim) (sc : ServiceConfig)
    (c : Constructed W Claim) (built : construct env sc ≡ ok c) (r : RedisView W)
    (redis : IsRedis (client env sc sc.claims_db) r)
    (decodes : (claim : Claim) (text : Bytes)
      → env.encodings.delegation_archive claim ≡ ok text
      → env.encodings.delegation_extract text ≡ ok claim) where
  -- In a constructed service over a redis that answers and a codec of claims that reads what it
  -- writes: a claim that is not in redis, that the URL serves and that can be archived is
  -- returned; it is then in redis for one hour under the hash of its CID, and a lookup of any CID
  -- with that hash, from any URL, returns it and changes nothing.
  pub construct-claim_lookup :
      (w w' : W) (cid url cid' url' : Bytes) (claim : Claim) (text : Bytes)
      → r.peek w (env.encodings.cid_hash cid) ≡ none
      → simple_lookup env.http_get env.encodings.delegation_extract cid url w ≡ (ok claim, w')
      → env.encodings.delegation_archive claim ≡ ok text
      → env.encodings.cid_hash cid' ≡ env.encodings.cid_hash cid
      → let after = (c.service.services.claim_lookup cid url w).1 in
        ((c.service.services.claim_lookup cid url w).0 ≡ ok claim)
        × (r.ttl after (env.encodings.cid_hash cid) ≡ default_expire)
        × (c.service.services.claim_lookup cid' url' after ≡ (ok claim, after))
  unfolding new_content_claims_store cid_key_string multihash_key_string answer is_key_not_found
  construct-claim_lookup w w' cid url cid' url' claim text missing fetched archived hash =
      let parts = construct-Parts env sc c built in
      let store = new_content_claims_store env.encodings (client env sc sc.claims_db) in
      let view = store_view store r in
      let is_cache = cache-IsCache store r redis in
      let lookup = simple_lookup env.http_get env.encodings.delegation_extract in
      let miss =
        with_cache_miss lookup (claims_cache env sc) view is_cache w w' cid url key_not_found claim
          (rw missing refl) refl fetched (text, archived, decodes claim text archived) in
      rw parts.claims (
        rw miss (
          refl,
          rw archived (
              rw (redis.ttl-put w' _ _ text default_expire)
                (rw (bytes_eq_refl (env.encodings.cid_hash cid)) refl)),
          (with_cache_hit lookup (claims_cache env sc) view is_cache _ cid' url').0 claim (
              is_cache.peek-put w' cid cid' claim true (text, archived, decodes claim text archived)
              ∙ rw hash (rw (bytes_eq_refl (env.encodings.cid_hash cid)) refl)),
        ))
