-- ===== src/Types.antt =====
-- pkg/types/types.go: context ids and the interface of a cache.
mod Contract
pub use Contract.{Cache, CacheView, IsCache}
use indexing_service.Prelude.{Bool, Option, none, some, ◌++◌, Bytes}
use indexing_service.Result.{Result, ok, Io}

pub record ContextId : Type 0 where
  pub space : Option Bytes
  pub hash : Bytes

module _ (sum : Bytes → Result Bytes) (did_bytes : Bytes → Bytes) where
  -- `sum` is multihash.Sum with SHA2_256, `did_bytes` is the method Bytes of a DID.
  unfoldable pub to_encoded : ContextId → Result Bytes
  to_encoded c = elim c.space [ none ↦ ok c.hash | some s ↦ sum (did_bytes s ++ c.hash) ]
