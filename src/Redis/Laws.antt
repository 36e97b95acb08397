-- ===== src/Redis/Laws.antt =====
-- The redis store over a client that answers meets the contract of a cache, and what it does with
-- expiration times and with errors of the client.
use indexing_service.Prelude.{
  ℕ, ◌≡◌, refl, Bool, true, false, Option, none, some, arith, Bytes, bytes_eq, bytes_eq_refl,
  if◌then◌else◌, [],
}
use indexing_service.Result.{Result, ok, err, redis_nil, key_not_found}
use indexing_service.Types.{CacheView, IsCache}
use indexing_service.Redis.{
  Client, Store, default_expire, answer, expiration, get, set, set_expirable, cache,
}

-- A redis database seen from outside: the text and the time to live (0 for none) at a key, and the
-- database after SET and after EXPIRE or PERSIST.
pub record RedisView (W : Type 0) : Type 0 where
  pub peek : W → Bytes → Option Bytes
  pub ttl : W → Bytes → ℕ
  pub put : W → Bytes → Bytes → ℕ → W
  pub retime : W → Bytes → ℕ → W

-- The reply to GET.
abbrev pub reply : Option Bytes → Result Bytes
reply none = err redis_nil
reply (some text) = ok text

-- A redis that is reachable and lets no key expire during the calls.
pub record IsRedis {W : Type 0} (c : Client W) (v : RedisView W) : Type 0 where
  pub get_lem : (w : W) (k : Bytes) → c.get k w ≡ (reply (v.peek w k), w)
  pub set_lem : (w : W) (k x : Bytes) (d : ℕ) → c.set k x d w ≡ (ok tt, v.put w k x d)
  pub expire_lem : (w : W) (k : Bytes) (d : ℕ) → c.expire k d w ≡ (ok tt, v.retime w k d)
  pub persist_lem : (w : W) (k : Bytes) → c.persist k w ≡ (ok tt, v.retime w k 0)
  pub peek-put :
      (w : W) (k j x : Bytes) (d : ℕ)
      → v.peek (v.put w k x d) j ≡ (if bytes_eq k j then some x else v.peek w j)
  pub ttl-put :
      (w : W) (k j x : Bytes) (d : ℕ)
      → v.ttl (v.put w k x d) j ≡ (if bytes_eq k j then d else v.ttl w j)
  pub peek-retime : (w : W) (k j : Bytes) (d : ℕ) → v.peek (v.retime w k d) j ≡ v.peek w j
  pub ttl-retime :
      (w : W) (k j x : Bytes) (d : ℕ)
      → v.peek w k ≡ some x
      → v.ttl (v.retime w k d) j ≡ (if bytes_eq k j then d else v.ttl w j)

abbrev pub encodes : {V : Type 0} → Result V → Bool
encodes (ok a) = true
encodes (err e) = false

abbrev pub text_of : Result Bytes → Bytes
text_of (ok text) = text
text_of (err e) = []

-- What a cache says of a key with a text, or without one.
abbrev pub entry : {V : Type 0} → (Bytes → Result V) → Option Bytes → Result V
entry decode none = err key_not_found
entry decode (some text) = decode text

module _ {W K V : Type 0} (s : Store W K V) (r : RedisView W) where
  -- The store as a cache: an entry is what its text decodes to, and a value can be stored if it has a
  -- text that decodes to it.
  abbrev pub store_view : CacheView W K V
  store_view = record {
    same = λ k j. bytes_eq (s.key_string k) (s.key_string j);
    storable = λ x. (text : Bytes) × (s.to_redis x ≡ ok text) × (s.from_redis text ≡ ok x);
    peek = λ w k. entry s.from_redis (r.peek w (s.key_string k));
    put = λ w k x expires. r.put w (s.key_string k) (text_of (s.to_redis x)) (expiration expires);
  }

pub storable_text :
    {V : Type 0} (x : V) (enc : V → Result Bytes)
    → encodes (enc x) ≡ true
    → (text : Bytes) × (enc x ≡ ok text)
storable_text x enc h = text_of_ok (enc x) h
  where
    text_of_ok : (r : Result Bytes) → encodes r ≡ true → (text : Bytes) × (r ≡ ok text)
    text_of_ok (ok text) h' = (text, refl)
    text_of_ok (err e) h' = cc

module _ {W K V : Type 0} (s : Store W K V) (r : RedisView W) (redis : IsRedis s.client r) where
  answer-reply :
      (decode : Bytes → Result V) (o : Option Bytes) → answer decode (reply o) ≡ entry decode o
  unfolding answer
  answer-reply decode none = refl
  answer-reply decode (some text) = refl

  pub get-peek : (w : W) (k : K) → get s k w ≡ ((store_view s r).peek w k, w)
  unfolding get
  get-peek w k =
      rw (redis.get_lem w (s.key_string k))
        (rw (answer-reply s.from_redis (r.peek w (s.key_string k))) refl)

  pub set-put :
      (w : W) (k : K) (x : V) (expires : Bool)
      → encodes (s.to_redis x) ≡ true
      → set s k x expires w ≡ (ok tt, (store_view s r).put w k x expires)
  unfolding set
  set-put w k x expires h =
      let (text, e) = storable_text x s.to_redis h in
      rw e (rw (redis.set_lem w (s.key_string k) text (expiration expires)))

  peek-put_lem :
      (w : W) (k j : K) (x : V) (expires : Bool)
      → (store_view s r).storable x
      → (store_view s r).peek ((store_view s r).put w k x expires) j
        ≡ (if bytes_eq (s.key_string k) (s.key_string j) then ok x else (store_view s r).peek w j)
  peek-put_lem w k j x expires (text, e, d) = rw e (
      rw (redis.peek-put w (s.key_string k) (s.key_string j) text (expiration expires))
        (ground (arith, d)))

  -- Over a redis that answers, the store meets the contract of a cache whose entries are what the
  -- texts decode to: a read of a key without a text reports a missing key, a read of another gives
  -- what its text decodes to, a value with a text that decodes to it can be written, under each
  -- key, and then a read gives what was last written under the string of the key.
  pub cache-IsCache : IsCache (cache s) (store_view s r)
  unfolding cache
  cache-IsCache = record {
    get_lem = get-peek;
    set_lem = λ w k x expires (text, e, d). set-put w k x expires (rw e refl);
    peek-put = peek-put_lem;
    same_refl = λ k. bytes_eq_refl (s.key_string k);
  }

  -- Over a redis that answers, a Set of a value that can be encoded gives its key a time to live
  -- of one hour exactly if the entry may expire, and none if not; the time to live of other keys
  -- stays.
  pub ttl-set :
      (w : W) (k : K) (x : V) (expires : Bool) (j : Bytes)
      → encodes (s.to_redis x) ≡ true
      → r.ttl (set s k x expires w).1 j ≡ (
          if bytes_eq (s.key_string k) j
          then (if expires then default_expire else 0)
          else r.ttl w j)
  ttl-set w k x expires j h = rw (set-put w k x expires h) (redis.ttl-put w _ j _ _)

  -- Over a redis that answers, SetExpirable on a stored key succeeds, changes no stored text, and
  -- sets the time to live of that key alone: to one hour, or to none.
  pub set_expirable_lem :
      (w : W) (k : K) (expires : Bool) (x : Bytes)
      → r.peek w (s.key_string k) ≡ some x
      → ((set_expirable s k expires w).0 ≡ ok tt)
        × ((j : Bytes) → r.peek (set_expirable s k expires w).1 j ≡ r.peek w j)
        × ((j : Bytes)
            → r.ttl (set_expirable s k expires w).1 j ≡ (
                if bytes_eq (s.key_string k) j
                then (if expires then default_expire else 0)
                else r.ttl w j))
  unfolding set_expirable
  set_expirable_lem w k true x h =
      rw (redis.expire_lem w (s.key_string k) default_expire)
        (refl, λ j. redis.peek-retime w _ j _, λ j. redis.ttl-retime w _ j x _ h)
  set_expirable_lem w k false x h =
      rw (redis.persist_lem w (s.key_string k))
        (refl, λ j. redis.peek-retime w _ j _, λ j. redis.ttl-retime w _ j x _ h)
