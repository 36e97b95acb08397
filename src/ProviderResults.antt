-- ===== src/ProviderResults.antt =====
-- pkg/providerresults/providerresults.go: when two provider records are the same. The codec of the
-- file calls IPLD libraries only.
mod Examples
pub mod Equality
pub mod Codec
use indexing_service.Prelude.{Bool, true, false, ◌&&◌, Option, none, some, List, Bytes, bytes_eq}

-- A libp2p address record.
pub record AddrInfo : Type 0 where
  pub id : Bytes
  pub addrs : List Bytes

-- An IPNI provider record.
pub record ProviderResult : Type 0 where
  pub context_id : Bytes
  pub metadata : Bytes
  pub provider : Option AddrInfo

module _ (to_string : AddrInfo → Bytes) where
  -- `to_string` is the method String of an address record.
  unfoldable pub equal_provider : Option AddrInfo → Option AddrInfo → Bool
  equal_provider none none = true
  equal_provider none (some b) = false
  equal_provider (some a) none = false
  equal_provider (some a) (some b) = bytes_eq (to_string a) (to_string b)

  unfoldable pub equals : ProviderResult → ProviderResult → Bool
  unfolding equal_provider
  equals a b =
      bytes_eq a.context_id b.context_id
      && (bytes_eq a.metadata b.metadata && equal_provider a.provider b.provider)
