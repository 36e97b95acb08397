-- ===== src/BlobIndex.antt =====
-- pkg/blobindex: the index of the slices of a DAG, by shard and by multihash (types.go,
-- shardeddagindex.go), and its construction from CAR files (util.go).
mod Examples
pub mod Slices
pub mod Errors
pub mod Archive
use indexing_service.Prelude.{ℕ, ◌≡◌, Bool, Option, none, some, List, [], ◌∷◌, Bytes}
use indexing_service.Result.{Result, ok, err, Err}
use indexing_service.ByteMap
use indexing_service.ByteMap.{ByteMap}

pub record Position : Type 0 where
  pub offset : ℕ
  pub length : ℕ

-- `content` is the link to the root of the DAG. A link is a CID in binary form.
pub record ShardedDagIndex : Type 0 where
  pub content : Bytes
  pub shards : ByteMap (ByteMap Position)

pub new_sharded_dag_index_view : Bytes → ShardedDagIndex
new_sharded_dag_index_view content = record { content = content; shards = ByteMap.new_byte_map }

-- The map of a shard that is absent is created empty.
slices_of : Option (ByteMap Position) → ByteMap Position
slices_of none = ByteMap.new_byte_map
slices_of (some m) = m

pub set_slice : ShardedDagIndex → Bytes → Bytes → Position → ShardedDagIndex
unfolding slices_of
set_slice sdi shard slice pos = record sdi {
  shards =
      ByteMap.set sdi.shards shard
        (ByteMap.set (slices_of (ByteMap.lookup sdi.shards shard)) slice pos);
}

-- A block of a CAR file: its CID, its bytes, and where they stand in the file.
pub record Block : Type 0 where
  pub link : Bytes
  pub bytes : Bytes
  pub offset : ℕ
  pub length : ℕ

-- What decoding a CAR file yields: the roots, and the blocks up to the first that cannot be read.
abbrev pub Car : Type 0
Car = List Bytes × List (Result Block)

module _ (sum : Bytes → Result Bytes) (car_decode : Bytes → Result Car) (hash : Bytes → Bytes) where
  -- `sum` is multihash.Sum with SHA2_256, `hash` the method Hash of a CID.
  index_blocks : Bytes → List (Result Block) → ShardedDagIndex → Result ShardedDagIndex
  index_blocks digest [] index = ok index
  index_blocks digest (err e ∷ blocks) index = err e
  index_blocks digest (ok blk ∷ blocks) index =
      index_blocks digest blocks (
        set_slice index digest (hash blk.link)
          (record { offset = blk.offset; length = blk.length }))

  index_shard : Bytes → ShardedDagIndex → Result ShardedDagIndex
  unfolding index_blocks
  index_shard s index = elim (sum s) [
    | err e ↦ err e
    | ok digest ↦ elim (car_decode s) [
      | err e ↦ err e
      | ok (roots, blocks) ↦ index_blocks digest blocks index
    ]
  ]

  index_shards : List Bytes → ShardedDagIndex → Result ShardedDagIndex
  index_shards [] index = ok index
  index_shards (s ∷ shards) index = elim (index_shard s index) [
    | err e ↦ err e
    | ok index' ↦ index_shards shards index'
  ]

  pub from_shard_archives : Bytes → List Bytes → Result ShardedDagIndex
  unfolding index_shards
  from_shard_archives content shards = index_shards shards (new_sharded_dag_index_view content)
