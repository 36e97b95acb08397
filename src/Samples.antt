-- ===== src/Samples.antt =====
-- Concrete stores for the examples: a cache and a redis client in memory, and their contracts.
pub mod Numbers
pub mod Sorting
pub mod Records
pub mod Locations
pub mod Services
use indexing_service.Prelude.{
  ℕ, ◌≡◌, refl, true, Option, none, some, arith, Bytes, bytes_eq, bytes_eq_iff, bytes_eq_refl,
  if◌then◌else◌,
}
use indexing_service.Result.{Result, ok, err, key_not_found}
use indexing_service.ByteMap.{ByteMap, lookup, set}
use indexing_service.ByteMap.Laws.{lookup-set}
use indexing_service.Types.{Cache, CacheView, IsCache}
use indexing_service.Redis.{Client}
use indexing_service.Redis.Laws.{RedisView, IsRedis, reply}

module _ {V : Type 0} where
  abbrev pub peek_memory : Option V → Result V
  peek_memory none = err key_not_found
  peek_memory (some v) = ok v

  -- Nothing expires in memory.
  abbrev pub memory_cache : Cache (ByteMap V) Bytes V
  memory_cache = record {
    set = λ k v expires w. (ok tt, set w k v);
    set_expirable = λ k expires w. (ok tt, w);
    get = λ k w. (peek_memory (lookup w k), w);
  }

  abbrev pub memory_view : CacheView (ByteMap V) Bytes V
  memory_view = record {
    same = bytes_eq;
    storable = λ v. Unit;
    peek = λ w k. peek_memory (lookup w k);
    put = λ w k v expires. set w k v;
  }

  peek_memory-set :
      (w : ByteMap V) (k j : Bytes) (v : V)
      → peek_memory (lookup (set w k v) j)
        ≡ (if bytes_eq k j then ok v else peek_memory (lookup w j))
  peek_memory-set w k j v = rw (lookup-set w k j v) (ground arith)

  pub memory_cache-IsCache : IsCache memory_cache memory_view
  memory_cache-IsCache = record {
    get_lem = λ w k. refl;
    set_lem = λ w k v expires h. refl;
    peek-put = λ w k j v expires h. peek_memory-set w k j v;
    same_refl = bytes_eq_refl;
  }

-- A redis database in memory: the text and the time to live of each key.
abbrev pub Database : Type 0
Database = ByteMap (Bytes × ℕ)

abbrev pub text_at : Option (Bytes × ℕ) → Option Bytes
text_at none = none
text_at (some e) = some (e.0)

abbrev pub ttl_at : Option (Bytes × ℕ) → ℕ
ttl_at none = 0
ttl_at (some e) = e.1

abbrev with_ttl : Database → Bytes → ℕ → Option (Bytes × ℕ) → Database
with_ttl w k d none = w
with_ttl w k d (some e) = set w k (e.0, d)

abbrev pub database_view : RedisView Database
database_view = record {
  peek = λ w k. text_at (lookup w k);
  ttl = λ w k. ttl_at (lookup w k);
  put = λ w k x d. set w k (x, d);
  retime = λ w k d. with_ttl w k d (lookup w k);
}

abbrev pub database_client : Client Database
database_client = record {
  get = λ k w. (reply (text_at (lookup w k)), w);
  set = λ k x d w. (ok tt, set w k (x, d));
  expire = λ k d w. (ok tt, with_ttl w k d (lookup w k));
  persist = λ k w. (ok tt, with_ttl w k 0 (lookup w k));
}

peek-with_ttl :
    (w : Database) (k j : Bytes) (d : ℕ) (o : Option (Bytes × ℕ))
    → lookup w k ≡ o
    → text_at (lookup (with_ttl w k d o) j) ≡ text_at (lookup w j)
peek-with_ttl w k j d none e = refl
peek-with_ttl w k j d (some x) e = rw (lookup-set w k j (x.0, d)) (ground (arith, bytes_eq_iff k j))

ttl-with_ttl :
    (w : Database) (k j x : Bytes) (d : ℕ) (o : Option (Bytes × ℕ))
    → lookup w k ≡ o
    → text_at o ≡ some x
    → ttl_at (lookup (with_ttl w k d o) j) ≡ (if bytes_eq k j then d else ttl_at (lookup w j))
ttl-with_ttl w k j x d none e h = cc
ttl-with_ttl w k j x d (some y) e h = rw (lookup-set w k j (y.0, d)) (ground arith)

pub database_client-IsRedis : IsRedis database_client database_view
database_client-IsRedis = record {
  get_lem = λ w k. refl;
  set_lem = λ w k x d. refl;
  expire_lem = λ w k d. refl;
  persist_lem = λ w k. refl;
  peek-put = λ w k j x d. rw (lookup-set w k j (x, d)) (ground arith);
  ttl-put = λ w k j x d. rw (lookup-set w k j (x, d)) (ground arith);
  peek-retime = λ w k j d. peek-with_ttl w k j d (lookup w k) refl;
  ttl-retime = λ w k j x d h. ttl-with_ttl w k j x d (lookup w k) refl h;
}
