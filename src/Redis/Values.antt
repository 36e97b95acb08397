-- ===== src/Redis/Values.antt =====
-- The three stores of pkg/redis with the encodings of their values: providerstore.go,
-- contentclaimsstore.go and shareddagindexstore.go.
use indexing_service.Prelude.{List, Bytes}
use indexing_service.Result.{Result}
use indexing_service.ProviderResults.{ProviderResult}
use indexing_service.ProviderResults.Codec.{Libraries, unmarshal_cbor, marshal_cbor}
use indexing_service.BlobIndex.{ShardedDagIndex}
use indexing_service.BlobIndex.Archive.{Codec, SortFunc, archive, extract}
use indexing_service.Redis.{
  Client, Store, new_store, multihash_key_string, encoded_context_id_key_string, cid_key_string,
}

-- The libraries under the codec of provider records, with what the schema of its package was made
-- into; the codec of delegations; and the method Hash of a CID.
pub record Encodings (Delegation : Type 0) : Type 1 where
  pub TypeSystem : Type 0
  pub SchemaType : Type 0
  pub libraries : Libraries TypeSystem SchemaType
  pub provider_results_type : SchemaType
  pub delegation_extract : Bytes → Result Delegation
  pub delegation_archive : Delegation → Result Bytes
  pub cid_hash : Bytes → Bytes

module _ {W Delegation : Type 0} (enc : Encodings Delegation) (client : Client W) where
  unfoldable pub new_provider_store : Store W Bytes (List ProviderResult)
  unfolding new_store
  new_provider_store =
      new_store (unmarshal_cbor enc.libraries enc.provider_results_type)
        (marshal_cbor enc.libraries enc.provider_results_type) multihash_key_string client

  unfoldable pub new_content_claims_store : Store W Bytes Delegation
  new_content_claims_store = record {
    from_redis = enc.delegation_extract;
    to_redis = enc.delegation_archive;
    key_string = cid_key_string enc.cid_hash;
    client = client;
  }

module _ {W : Type 0} (sort_func : SortFunc) (codec : Codec) (client : Client W) where
  unfoldable pub new_sharded_dag_index_store : Store W Bytes ShardedDagIndex
  new_sharded_dag_index_store = record {
    from_redis = extract codec;
    to_redis = archive sort_func codec;
    key_string = encoded_context_id_key_string;
    client = client;
  }
