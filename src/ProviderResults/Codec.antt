-- ===== src/ProviderResults/Codec.antt =====
-- pkg/providerresults/providerresults.go: provider records as CBOR. The schema of the package says
-- that a record always has a provider.
pub mod Laws
mod Examples
use indexing_service.Prelude.{none, some, List, [], ◌∷◌, map, Bytes}
use indexing_service.Result.{Result, ok, err, Err, on_ok, traverse}
use indexing_service.ProviderResults.{AddrInfo, ProviderResult}

-- What the schema of a package has: a provider, and a record, with the bytes that stand for a peer id
-- and for multiaddrs.
pub record ProviderNode : Type 0 where
  pub id : Bytes
  pub addrs : List Bytes

pub record ProviderResultNode : Type 0 where
  pub context_id : Bytes
  pub metadata : Bytes
  pub provider : ProviderNode

-- ipld.LoadSchemaBytes and TypeByName, the encoder and the decoder of DAG-CBOR for the nodes of a
-- type, peer.IDFromBytes, multiaddr.NewMultiaddrBytes and the method Bytes of a multiaddr. A nil
-- pointer where the schema has a value ends the encoder with `no_value`.
pub record Libraries (TypeSystem SchemaType : Type 0) : Type 0 where
  pub load_schema : Bytes → Result TypeSystem
  pub type_by_name : TypeSystem → Bytes → SchemaType
  pub encode : SchemaType → List ProviderResultNode → Result Bytes
  pub decode : SchemaType → Bytes → Result (List ProviderResultNode)
  pub id_from_bytes : Bytes → Result Bytes
  pub new_multiaddr_bytes : Bytes → Result Bytes
  pub multiaddr_bytes : Bytes → Bytes
  pub no_value : Err

module _ {TypeSystem SchemaType : Type 0} (lib : Libraries TypeSystem SchemaType) where
  -- The variable that `init` sets from the embedded schema; a schema that cannot be loaded panics.
  unfoldable pub init : Bytes → Result SchemaType
  init provider_results_bytes = on_ok (lib.load_schema provider_results_bytes) λ type_system. ok (
      lib.type_by_name type_system (
        b'P' ∷ b'r' ∷ b'o' ∷ b'v' ∷ b'i' ∷ b'd' ∷ b'e' ∷ b'r' ∷ b'R' ∷ b'e' ∷ b's' ∷ b'u' ∷ b'l'
        ∷ b't' ∷ b's' ∷ []))

  -- The converters of peer ids and of multiaddrs.
  unfoldable pub bytes_to_peer_id : Bytes → Result Bytes
  bytes_to_peer_id bytes = lib.id_from_bytes bytes

  unfoldable pub peer_id_to_bytes : Bytes → Bytes
  peer_id_to_bytes id = id

  unfoldable pub bytes_to_multiaddr : Bytes → Result Bytes
  bytes_to_multiaddr bytes = lib.new_multiaddr_bytes bytes

  unfoldable pub multiaddr_to_bytes : Bytes → Bytes
  multiaddr_to_bytes ma = lib.multiaddr_bytes ma

  -- A record from its node, and a node from its record, by these converters.
  unfoldable pub read_node : ProviderResultNode → Result ProviderResult
  unfolding bytes_to_peer_id bytes_to_multiaddr
  read_node n = on_ok (bytes_to_peer_id n.provider.id) λ id.
      on_ok (traverse bytes_to_multiaddr n.provider.addrs) λ addrs. ok (record {
        context_id = n.context_id;
        metadata = n.metadata;
        provider = some (record { id = id; addrs = addrs });
      })

  unfoldable pub write_node : ProviderResult → Result ProviderResultNode
  unfolding peer_id_to_bytes multiaddr_to_bytes
  write_node r = elim r.provider [
    | none ↦ err lib.no_value
    | some p ↦ ok (record {
      context_id = r.context_id;
      metadata = r.metadata;
      provider = record { id = peer_id_to_bytes p.id; addrs = map multiaddr_to_bytes p.addrs };
    })
  ]

  unfoldable pub unmarshal_cbor : SchemaType → Bytes → Result (List ProviderResult)
  unfolding read_node
  unmarshal_cbor provider_results_type bytes =
      on_ok (lib.decode provider_results_type bytes) (traverse read_node)

  unfoldable pub marshal_cbor : SchemaType → List ProviderResult → Result Bytes
  unfolding write_node
  marshal_cbor provider_results_type records =
      on_ok (traverse write_node records) (lib.encode provider_results_type)
