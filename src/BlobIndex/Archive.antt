-- ===== src/BlobIndex/Archive.antt =====
-- pkg/blobindex/shardeddagindex.go: an index written as a CAR file (Archive) and read from one
-- (Extract, View), with the models of datamodel/shardeddagindex.go.
pub mod Examples
pub mod Maps
pub mod Blocks
pub mod Shards
pub mod RoundTrip
pub mod Sorted
pub mod Failures
pub mod Digests
pub mod Canonical
use indexing_service.Prelude.{
  ℕ, Bool, Option, none, some, List, [], ◌∷◌, ◌++◌, map, Bytes, ◌==◌, if◌then◌else◌,
}
use indexing_service.Result.{
  Result, ok, err, Err, missing_root_block, unknown_index_version, unexpected_root_codec,
  missing_block, on_ok, traverse,
}
use indexing_service.ByteMap
use indexing_service.ByteMap.{ByteMap}
use indexing_service.BlobIndex.Errors.{new_unknown_format_error, new_decode_failure_error}
use indexing_service.BlobIndex.{Position, ShardedDagIndex, new_sharded_dag_index_view}

pub record BlobSliceModel : Type 0 where
  pub multihash : Bytes
  pub position : Position

pub record BlobIndexModel : Type 0 where
  pub multihash : Bytes
  pub slices : List BlobSliceModel

pub record ShardedDagIndexModel01 : Type 0 where
  pub content : Bytes
  pub shards : List Bytes

pub record ShardedDagIndexModel : Type 0 where
  pub dag_o_1 : Option ShardedDagIndexModel01

pub record IpldBlock : Type 0 where
  pub link : Bytes
  pub bytes : Bytes

-- What the code calls: mh.Decode (its digest), block.Encode and cbor.Decode for the two schemas,
-- car.Encode (read to its end) and car.Decode (the roots, and the blocks up to the first that cannot
-- be read), and the codec of a CID.
pub record Codec : Type 0 where
  pub multihash_decode : Bytes → Result Bytes
  pub encode_blob_index : BlobIndexModel → Result IpldBlock
  pub decode_blob_index : Bytes → Result BlobIndexModel
  pub encode_root : ShardedDagIndexModel → Result IpldBlock
  pub decode_root : Bytes → Result ShardedDagIndexModel
  pub car_encode : List Bytes → List IpldBlock → Bytes
  pub car_decode : Bytes → Result (List Bytes × List (Result IpldBlock))
  pub cid_codec : Bytes → ℕ

-- The multicodec of DAG-CBOR.
abbrev pub dag_cbor : ℕ
dag_cbor = 0x71

pub to_list : {T E : Type 0} → ByteMap T → (Bytes → T → Result E) → Result (List E)
to_list m new_elem = traverse (λ e. new_elem (e.0) (e.1)) (ByteMap.iterator m)

-- slices.SortFunc with bytes.Compare on the bytes that the function gives.
abbrev pub SortFunc : Type 1
SortFunc = (E : Type 0) → (E → Bytes) → List E → List E

module _ (sort_func : SortFunc) (codec : Codec) where
  pub decode_hashes : {E : Type 0} → (E → Bytes) → List E → ByteMap Bytes → Result (ByteMap Bytes)
  decode_hashes get_multihash [] decodeds = ok decodeds
  decode_hashes get_multihash (e ∷ es) decodeds =
      on_ok (codec.multihash_decode (get_multihash e))
        λ digest. decode_hashes get_multihash es (ByteMap.set decodeds (get_multihash e) digest)

  -- The digests are looked up by multihash; each is there.
  pub sort_by_multihash : {E : Type 0} → List E → (E → Bytes) → Result (List E)
  unfolding decode_hashes
  sort_by_multihash {E} list get_multihash =
      on_ok (decode_hashes get_multihash list ByteMap.new_byte_map)
        λ decodeds. ok (sort_func E (λ e. ByteMap.get [] decodeds (get_multihash e)) list)

  pub blob_index_data : Bytes → ByteMap Position → Result BlobIndexModel
  unfolding to_list sort_by_multihash
  blob_index_data shard_hash shard =
      on_ok (to_list shard (λ h pos. ok (record { multihash = h; position = pos }))) λ slices.
        on_ok (sort_by_multihash slices (λ s. s.multihash))
          λ sorted. ok (record { multihash = shard_hash; slices = sorted })

  pub archive : ShardedDagIndex → Result Bytes
  unfolding to_list sort_by_multihash blob_index_data
  archive model = on_ok (to_list model.shards blob_index_data) λ datas.
      on_ok (sort_by_multihash datas (λ b. b.multihash)) λ sorted.
        on_ok (traverse codec.encode_blob_index sorted) λ blks.
          on_ok
            (codec.encode_root (record {
              dag_o_1 = some (record { content = model.content; shards = map (λ b. b.link) blks });
            }))
            λ root. ok (codec.car_encode (root.link ∷ []) (blks ++ root ∷ []))

-- The slices of a shard, the last for a multihash counting.
pub set_slices : List BlobSliceModel → ByteMap Position → ByteMap Position
set_slices [] m = m
set_slices (s ∷ ss) m = set_slices ss (ByteMap.set m s.multihash s.position)

pub block_map : List (Result IpldBlock) → ByteMap IpldBlock → Result (ByteMap IpldBlock)
block_map [] m = ok m
block_map (err e ∷ blocks) m = err e
block_map (ok blk ∷ blocks) m = block_map blocks (ByteMap.set m blk.link blk)

module _ (codec : Codec) where
  pub first_root : List Bytes → List (Result IpldBlock) → Result (Bytes × ByteMap IpldBlock)
  unfolding block_map
  first_root [] blocks = err missing_root_block
  first_root (root ∷ roots) blocks =
      if codec.cid_codec root == dag_cbor
      then on_ok (block_map blocks ByteMap.new_byte_map) (λ m. ok (root, m))
      else err (unexpected_root_codec (codec.cid_codec root))

  pub decode_car : Bytes → Result (Bytes × ByteMap IpldBlock)
  unfolding first_root
  decode_car r = on_ok (codec.car_decode r) λ (roots, blocks). first_root roots blocks

  abbrev failing_as : {A : Type 0} → Result A → (Err → Err) → Result A
  failing_as (ok a) f = ok a
  failing_as (err e) f = err (f e)

  pub read_block : {A : Type 0} → (Bytes → Result A) → ByteMap IpldBlock → Bytes → Result A
  read_block decode blocks l = elim (ByteMap.lookup blocks l) [
    | none ↦ err (new_decode_failure_error (missing_block l))
    | some b ↦ failing_as (decode b.bytes) new_decode_failure_error
  ]

  pub view_shards : List Bytes → ByteMap IpldBlock → ShardedDagIndex → Result ShardedDagIndex
  unfolding read_block set_slices
  view_shards [] blocks index = ok index
  view_shards (l ∷ ls) blocks index = on_ok (read_block codec.decode_blob_index blocks l) λ model.
      view_shards ls blocks (record index {
        shards =
            ByteMap.set index.shards model.multihash (set_slices model.slices ByteMap.new_byte_map);
      })

  pub view_version :
      Option ShardedDagIndexModel01 → Bytes → ByteMap IpldBlock → Result ShardedDagIndex
  unfolding view_shards
  view_version none root blocks = err (new_unknown_format_error unknown_index_version)
  view_version (some d) root blocks = view_shards d.shards blocks (new_sharded_dag_index_view root)

  -- The content of the view is the link of the root block.
  pub view : Bytes → ByteMap IpldBlock → Result ShardedDagIndex
  unfolding read_block view_version
  view root blocks =
      on_ok (read_block codec.decode_root blocks root)
        λ model. view_version model.dag_o_1 root blocks

  pub extract : Bytes → Result ShardedDagIndex
  unfolding decode_car view
  extract r =
      on_ok (failing_as (decode_car r) new_unknown_format_error) λ (root, blocks). view root blocks
