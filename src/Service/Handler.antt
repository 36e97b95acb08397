-- ===== src/Service/Handler.antt =====
-- The job handler: what a query does for one multihash.
mod Examples
pub mod Kept
pub mod Guarantee
pub mod Complete
pub mod Runs
use indexing_service.Prelude.{
  ℕ, Bool, true, false, Option, none, some, List, [], ◌∷◌, Bytes, bytes_eq, if◌then◌else◌,
}
use indexing_service.Result.{Result, ok, err, nil_dereference, Io, ◌>>=◌, ◌>>◌, pure, lift}
use indexing_service.ByteMap
use indexing_service.ByteMap.{ByteMap}
use indexing_service.ProviderResults.{ProviderResult}
use indexing_service.BlobIndex.{Position}
use indexing_service.BlobIndexLookup.{BlobIndexLookup}
use indexing_service.ClaimLookup.{ClaimLookup}
use indexing_service.ProviderIndex.{QueryKey}
use indexing_service.Metadata.{
  MetadataContext, Protocol, index_claim, equals_claim, location_commitment, no_claim, get_claim,
  LocationCommitmentMetadata,
}
use indexing_service.JobWalker.{WrappedState}
use indexing_service.Service.Url.{Url, fetch_claim_url, fetch_retrieval_url}
use indexing_service.Service.Jobs.{
  Job, location, equals_or_location, QueryState, target_claims, first_visit, visit, claim_missing,
  add_claim, index_missing, add_index,
}

-- What the handler calls outside the repository: the metadata codec, the methods Hash and String of
-- a CID, maurl.ToURL, the method String of a URL, and cid.NewCidV1 with the raw codec.
pub record Libraries (Md : Type 0) : Type 0 where
  pub metadata : MetadataContext Md
  pub hash : Bytes → Bytes
  pub cid_string : Bytes → Bytes
  pub to_url : Bytes → Result Url
  pub url_string : Url → Bytes
  pub raw_cid : Bytes → Bytes

pub record IndexingService (S Claim : Type 0) : Type 0 where
  pub blob_index_lookup : BlobIndexLookup S
  pub claim_lookup : ClaimLookup S Claim
  pub provider_index : QueryKey → Io S (List ProviderResult)

-- `*p`.
deref : {A : Type 0} → Option A → Result A
deref none = err nil_dereference
deref (some a) = ok a

shard_or : Bytes → Option Bytes → Bytes
shard_or raw none = raw
shard_or raw (some shard) = shard

module _ {Md S Claim : Type 0} (libs : Libraries Md) (is : IndexingService S Claim)
    (state : WrappedState S (QueryState Claim)) (spawn : Job → Io S (Unit {0})) where
  spawn_shards : Bytes → List (Bytes × ByteMap Position) → Io S (Unit {0})
  spawn_shards mh [] = pure tt
  spawn_shards mh ((shard, slices) ∷ shards) = do
    if ByteMap.has slices mh
        then spawn (record {
          mh = shard;
          index_for_mh = none;
          index_provider_record = none;
          job_type = equals_or_location;
        })
        else pure tt
    spawn_shards mh shards

  follow_location :
      Job → ProviderResult → LocationCommitmentMetadata → Option Bytes → Io S (Unit {0})
  unfolding deref shard_or
  follow_location j result m none = pure tt
  follow_location j result m (some mh) = do
    provider ← lift (deref result.provider)
    url ← lift (
        fetch_retrieval_url libs.to_url libs.cid_string provider
          (shard_or (libs.raw_cid j.mh) m.shard))
    index_provider ← lift (deref j.index_provider_record)
    index ← is.blob_index_lookup result.context_id index_provider (libs.url_string url) m.range
    state.cmp_swap (index_missing result.context_id) (add_index result.context_id index)
    spawn_shards mh (ByteMap.iterator index.shards)

  -- The switch on the type of the protocol.
  pub follow : Job → ProviderResult → Protocol → Io S (Unit {0})
  unfolding follow_location
  follow j result (equals_claim m) = spawn (record {
    mh = if bytes_eq (libs.hash m.equals) j.mh then result.context_id else libs.hash m.equals;
    index_for_mh = none;
    index_provider_record = none;
    job_type = location;
  })
  follow j result (index_claim m) = spawn (record {
    mh = libs.hash m.index;
    index_for_mh = some j.mh;
    index_provider_record = some result;
    job_type = equals_or_location;
  })
  follow j result (location_commitment m) = follow_location j result m j.index_for_mh
  follow j result (no_claim id) = pure tt

  pub handle_claim : Job → ProviderResult → Protocol → Option Bytes → Io S (Unit {0})
  unfolding deref
  handle_claim j result protocol none = pure tt
  handle_claim j result protocol (some claim_cid) = do
    provider ← lift (deref result.provider)
    url ← lift (fetch_claim_url libs.to_url libs.cid_string provider claim_cid)
    claim ← is.claim_lookup claim_cid (libs.url_string url)
    state.cmp_swap (claim_missing claim_cid) (add_claim claim_cid claim)
    follow j result protocol

  -- A code with no protocol, and a protocol with no claim, are passed over.
  pub handle_protocol : Job → ProviderResult → Option Protocol → Io S (Unit {0})
  unfolding handle_claim
  handle_protocol j result none = pure tt
  handle_protocol j result (some protocol) = handle_claim j result protocol (get_claim protocol)

  pub handle_protocols : Job → ProviderResult → Md → List ℕ → Io S (Unit {0})
  unfolding handle_protocol
  handle_protocols j result md [] = pure tt
  handle_protocols j result md (code ∷ codes) = do
    handle_protocol j result (libs.metadata.get md code)
    handle_protocols j result md codes

  pub handle_results : Job → List ProviderResult → Io S (Unit {0})
  unfolding handle_protocols
  handle_results j [] = pure tt
  handle_results j (result ∷ results) = do
    md ← lift (libs.metadata.unmarshal_binary result.metadata)
    handle_protocols j result md (libs.metadata.protocols md)
    handle_results j results

  pub handle_visit : Job → Bool → Io S (Unit {0})
  unfolding handle_results
  handle_visit j false = pure tt
  handle_visit j true = do
    qs ← state.access
    results ← is.provider_index (record {
      spaces = qs.q.match.subject;
      hash = j.mh;
      target_claims = target_claims j.job_type;
    })
    handle_results j results

  pub job_handler : Job → Io S (Unit {0})
  unfolding handle_visit
  job_handler j = do first ← state.cmp_swap (first_visit j) (visit j); handle_visit j first
