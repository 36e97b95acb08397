-- ===== src/Service/Jobs.antt =====
-- Jobs, their keys, and the state of a query with its compare-and-swap steps.
use indexing_service.Prelude.{ℕ, Bool, not, Option, none, some, List, [], ◌∷◌, ◌++◌, Bytes}
use indexing_service.ByteMap
use indexing_service.ByteMap.{ByteMap}
use indexing_service.ProviderResults.{ProviderResult}
use indexing_service.BlobIndex.{ShardedDagIndex}
use indexing_service.Metadata.{index_claim_id, equals_claim_id, location_commitment_id}

-- `Subject` of Match, and a query.
pub record Match : Type 0 where
  pub subject : List Bytes

pub record Query : Type 0 where
  pub hashes : List Bytes
  pub match : Match

pub data JobType : Type 0 where
  standard location equals_or_location : JobType

abbrev location_text : Bytes
location_text = b'l' ∷ b'o' ∷ b'c' ∷ b'a' ∷ b't' ∷ b'i' ∷ b'o' ∷ b'n' ∷ []

-- The value of the constant.
unfoldable pub type_text : JobType → Bytes
type_text standard = b's' ∷ b't' ∷ b'a' ∷ b'n' ∷ b'd' ∷ b'a' ∷ b'r' ∷ b'd' ∷ []
type_text location = location_text
type_text equals_or_location =
    b'e' ∷ b'q' ∷ b'u' ∷ b'a' ∷ b'l' ∷ b's' ∷ b'_' ∷ b'o' ∷ b'r' ∷ b'_' ∷ location_text

pub record Job : Type 0 where
  pub mh : Bytes
  pub index_for_mh : Option Bytes
  pub index_provider_record : Option ProviderResult
  pub job_type : JobType

abbrev pub suffix : Option Bytes → Bytes
suffix none = []
suffix (some mh) = mh

unfoldable pub key : Job → Bytes
unfolding type_text
key j = (j.mh ++ type_text j.job_type) ++ suffix j.index_for_mh

unfoldable pub target_claims : JobType → List ℕ
target_claims standard = equals_claim_id ∷ index_claim_id ∷ location_commitment_id ∷ []
target_claims location = location_commitment_id ∷ []
target_claims equals_or_location = index_claim_id ∷ location_commitment_id ∷ []

pub record QueryResult (Claim : Type 0) : Type 0 where
  pub claims : ByteMap Claim
  pub indexes : ByteMap ShardedDagIndex

pub record QueryState (Claim : Type 0) : Type 0 where
  pub q : Query
  pub qr : QueryResult Claim
  pub visits : ByteMap (Unit {0})

module _ {Claim : Type 0} where
  -- The test and the change of the three compare-and-swaps of the job handler.
  unfoldable pub first_visit : Job → QueryState Claim → Bool
  first_visit j qs = not (ByteMap.has qs.visits (key j))

  unfoldable pub visit : Job → QueryState Claim → QueryState Claim
  visit j qs = record qs { visits = ByteMap.set qs.visits (key j) tt }

  unfoldable pub claim_missing : Bytes → QueryState Claim → Bool
  claim_missing cid qs = not (ByteMap.has qs.qr.claims cid)

  unfoldable pub add_claim : Bytes → Claim → QueryState Claim → QueryState Claim
  add_claim cid claim qs = record qs {
    qr = record (qs.qr) { claims = ByteMap.set qs.qr.claims cid claim };
  }

  unfoldable pub index_missing : Bytes → QueryState Claim → Bool
  index_missing id qs = not (ByteMap.has qs.qr.indexes id)

  unfoldable pub add_index : Bytes → ShardedDagIndex → QueryState Claim → QueryState Claim
  add_index id index qs = record qs {
    qr = record (qs.qr) { indexes = ByteMap.set qs.qr.indexes id index };
  }
