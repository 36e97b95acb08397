-- ===== src/Redis.antt =====
-- pkg/redis/redisstore.go: a cache over a redis client, with the key functions of
-- contentclaimsstore.go, providerstore.go and shareddagindexstore.go.
pub mod Laws
pub mod Values
pub mod Indexes
mod Examples
use indexing_service.Prelude.{ℕ, ◌*◌, Bool, true, false, Bytes, if◌then◌else◌}
use indexing_service.Result.{
  Result, ok, err, Err, redis_nil, key_not_found, wrapped, accessing_redis, Io, ◌>>=◌, try, lift,
  within,
}
use indexing_service.Types.{Cache}

-- time.Hour, in nanoseconds.
abbrev pub default_expire : ℕ
default_expire = 3600 * 1000000000

-- The part of the go-redis client that the store calls.
pub record Client (W : Type 0) : Type 0 where
  pub get : Bytes → Io W Bytes
  pub set : Bytes → Bytes → ℕ → Io W (Unit {0})
  pub expire : Bytes → ℕ → Io W (Unit {0})
  pub persist : Bytes → Io W (Unit {0})

pub record Store (W K V : Type 0) : Type 0 where
  pub from_redis : Bytes → Result V
  pub to_redis : V → Result Bytes
  pub key_string : K → Bytes
  pub client : Client W

pub new_store :
    {W K V : Type 0}
    → (Bytes → Result V)
    → (V → Result Bytes)
    → (K → Bytes)
    → Client W
    → Store W K V
new_store from to key client = record {
  from_redis = from;
  to_redis = to;
  key_string = key;
  client = client;
}

-- What `Get` makes of the client's reply.
unfoldable pub answer : {V : Type 0} → (Bytes → Result V) → Result Bytes → Result V
answer from (ok text) = from text
answer from (err redis_nil) = err key_not_found
answer from (err e) = err (wrapped accessing_redis e)

abbrev pub expiration : Bool → ℕ
expiration expires = if expires then default_expire else 0

module _ {W K V : Type 0} (s : Store W K V) where
  pub get : K → Io W V
  unfolding answer ◌>>=◌
  get k = do reply ← try (s.client.get (s.key_string k)); lift (answer s.from_redis reply)

  pub set : K → V → Bool → Io W (Unit {0})
  unfolding ◌>>=◌
  set k v expires = do
    text ← lift (s.to_redis v)
    within accessing_redis (s.client.set (s.key_string k) text (expiration expires))

  pub set_expirable : K → Bool → Io W (Unit {0})
  set_expirable k expires =
      if expires
      then within accessing_redis (s.client.expire (s.key_string k) default_expire)
      else within accessing_redis (s.client.persist (s.key_string k))

  unfoldable pub cache : Cache W K V
  cache = record { get = get; set = set; set_expirable = set_expirable }

-- multihashKeyString and encodedContextIDKeyString are the identity on bytes.
unfoldable pub multihash_key_string : Bytes → Bytes
multihash_key_string k = k

unfoldable pub encoded_context_id_key_string : Bytes → Bytes
encoded_context_id_key_string k = k

-- `hash` is the method Hash of a CID: the codec of the CID is no part of the key.
unfoldable pub cid_key_string : (Bytes → Bytes) → Bytes → Bytes
unfolding multihash_key_string
cid_key_string hash c = multihash_key_string (hash c)
