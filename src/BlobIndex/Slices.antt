-- ===== src/BlobIndex/Slices.antt =====
-- What an index says of a slice, and how setting slices changes that.
use indexing_service.Prelude.{
  ◌≡◌, refl, ◌&&◌, Option, none, some, arith, Bytes, bytes_eq, bytes_eq_iff, if◌then◌else◌,
}
use indexing_service.ByteMap
use indexing_service.ByteMap.{ByteMap, lookup, set}
use indexing_service.ByteMap.Laws.{lookup-set}
use indexing_service.BlobIndex.{Position, ShardedDagIndex, set_slice, slices_of}

abbrev pub slice_in : Option (ByteMap Position) → Bytes → Option Position
slice_in none h = none
slice_in (some m) h = lookup m h

-- Where an index places a slice in a shard.
unfoldable pub slice_at : ShardedDagIndex → Bytes → Bytes → Option Position
slice_at sdi shard h = slice_in (lookup sdi.shards shard) h

slice_in-slices_of :
    (o : Option (ByteMap Position)) (h : Bytes) → lookup (slices_of o) h ≡ slice_in o h
unfolding slices_of ByteMap.new_byte_map lookup
slice_in-slices_of none h = refl
slice_in-slices_of (some m) h = refl

-- SetSlice places the slice in the shard, and every other slice of every shard stays where it was.
pub slice_at-set_slice :
    (sdi : ShardedDagIndex) (shard slice s h : Bytes) (pos : Position)
    → slice_at (set_slice sdi shard slice pos) s h
      ≡ (if bytes_eq shard s && bytes_eq slice h then some pos else slice_at sdi s h)
unfolding slice_at set_slice
slice_at-set_slice sdi shard slice s h pos = rw (lookup-set sdi.shards shard s _) (
    ground (
      arith,
      bytes_eq_iff shard s,
      lookup-set (slices_of (lookup sdi.shards shard)) slice h pos,
      slice_in-slices_of (lookup sdi.shards shard) h,
    ))
