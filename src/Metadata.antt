-- ===== src/Metadata.antt =====
-- pkg/metadata/metadata.go: the claim metadata that a provider record carries.
pub mod Codec
pub mod Counting
pub mod Init
mod Examples
use indexing_service.Prelude.{ℕ, Option, none, some, List, Bytes}
use indexing_service.Result.{Result}
use indexing_service.BlobIndexLookup.{Range}

abbrev pub index_claim_id : ℕ
index_claim_id = 0x3E0000

abbrev pub equals_claim_id : ℕ
equals_claim_id = 0x3E0001

abbrev pub location_commitment_id : ℕ
location_commitment_id = 0x3E0002

-- CIDs are in binary form; `expiration` is an int64 that nothing reads.
pub record IndexClaimMetadata : Type 0 where
  pub index : Bytes
  pub expiration : ℕ
  pub claim : Bytes

pub record EqualsClaimMetadata : Type 0 where
  pub equals : Bytes
  pub expiration : ℕ
  pub claim : Bytes

pub record LocationCommitmentMetadata : Type 0 where
  pub shard : Option Bytes
  pub range : Option Range
  pub expiration : ℕ
  pub claim : Bytes

-- The protocols of a record: the three claims, and those of others, which have no claim.
pub data Protocol : Type 0 where
  index_claim : IndexClaimMetadata → Protocol
  equals_claim : EqualsClaimMetadata → Protocol
  location_commitment : LocationCommitmentMetadata → Protocol
  no_claim : ℕ → Protocol

-- The interface HasClaim, which a type assertion tests.
unfoldable pub get_claim : Protocol → Option Bytes
get_claim (index_claim m) = some m.claim
get_claim (equals_claim m) = some m.claim
get_claim (location_commitment m) = some m.claim
get_claim (no_claim id) = none

-- MetadataContext of go-libipni: its values, UnmarshalBinary, Protocols and Get (none for a code that
-- is not there).
pub record MetadataContext (Md : Type 0) : Type 0 where
  pub unmarshal_binary : Bytes → Result Md
  pub protocols : Md → List ℕ
  pub get : Md → ℕ → Option Protocol
