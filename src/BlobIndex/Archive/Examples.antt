-- ===== src/BlobIndex/Archive/Examples.antt =====
-- An archive of two shards is read again.
use indexing_service.Prelude.{◌≡◌, refl, [], ◌∷◌, some, Bytes, bytes_eq}
use indexing_service.Result.{missing_block, ok}
use indexing_service.ByteMap
use indexing_service.BlobIndex.{ShardedDagIndex, new_sharded_dag_index_view}
use indexing_service.BlobIndex.Slices.{slice_at}
use indexing_service.BlobIndex.Archive.{
  view, view_version, view_shards, read_block, decode_car, first_root, block_map, set_slices,
  IpldBlock, ShardedDagIndexModel01, archive, extract, to_list, sort_by_multihash, blob_index_data,
  decode_hashes,
}
use indexing_service.BlobIndex.Errors.{new_decode_failure_error, ExtractError}
use indexing_service.BlobIndex.Archive.Failures.{Fails, extract-Fails}
use indexing_service.BlobIndex.Archive.RoundTrip.{extract-archive}
use indexing_service.BlobIndex.Archive.Canonical.{archive-Reordered}
use indexing_service.Samples.Sorting.{insertion, insertion-Sorts}
use mathlib.Core.List.Permᴰ
use indexing_service.Samples.Numbers.{
  numbers, unsorted, numbers-IsCodec, two_shards, file, read_index, read_file,
}

pub archive-two_shards : archive unsorted numbers two_shards ≡ ok file
unfolding archive to_list sort_by_multihash blob_index_data decode_hashes ByteMap.new_byte_map
    ByteMap.set bytes_eq
archive-two_shards = refl

pub extract-file : extract numbers file ≡ ok read_index
unfolding extract view view_version view_shards read_block decode_car first_root block_map
    set_slices ByteMap.new_byte_map ByteMap.set ByteMap.lookup bytes_eq new_sharded_dag_index_view
extract-file = refl

pub archive-read_index : archive unsorted numbers read_index ≡ ok read_file
unfolding archive to_list sort_by_multihash blob_index_data decode_hashes ByteMap.new_byte_map
    ByteMap.set bytes_eq
archive-read_index = refl

extract-archive_example :
    (found : ShardedDagIndex) × (extract numbers file ≡ ok found)
    × ((s h : Bytes) → slice_at found s h ≡ slice_at two_shards s h)
    × ((m : ShardedDagIndexModel01) × (root : IpldBlock) × (m.content ≡ 9 ∷ [])
        × (numbers.encode_root (record { dag_o_1 = some m }) ≡ ok root)
        × (found.content ≡ root.link))
unfolding bytes_eq
extract-archive_example =
    extract-archive unsorted numbers numbers-IsCodec two_shards file archive-two_shards
      ((refl, tt), (tt, tt)) (((refl, tt), (tt, tt)), ((tt, tt), tt))

-- The two shards and the two slices of the first the other way round.
abbrev swapped_shards : ShardedDagIndex
swapped_shards = record {
  content = 9 ∷ [];
  shards =
      ((2 ∷ []), (((6 ∷ []), record { offset = 7; length = 1 }) ∷ []))
      ∷ (
        (1 ∷ []),
        (((5 ∷ []), record { offset = 2; length = 3 })
            ∷ ((4 ∷ []), record { offset = 0; length = 2 })
            ∷ []),
      )
      ∷ [];
}

archive-sorted : archive insertion numbers two_shards ≡ ok file
unfolding archive to_list sort_by_multihash blob_index_data decode_hashes ByteMap.new_byte_map
    ByteMap.set ByteMap.lookup ByteMap.get bytes_eq
archive-sorted = refl

archive-Reordered_example : archive insertion numbers swapped_shards ≡ ok file
unfolding bytes_eq
archive-Reordered_example =
    archive-Reordered insertion numbers insertion-Sorts two_shards swapped_shards file
      (refl, (_, Permᴰ.swap refl refl, (refl, Permᴰ.refl _, (refl, Permᴰ.swap refl refl, tt))))
      ((refl, tt), (tt, tt)) (((refl, tt), (tt, tt)), ((tt, tt), tt)) archive-sorted

-- A file whose root block is not in it.
abbrev rootless : Bytes
rootless = numbers.car_encode ((5 ∷ []) ∷ []) []

extract-Fails_example :
    ExtractError (new_decode_failure_error (missing_block (5 ∷ [])))
    × Fails numbers rootless (new_decode_failure_error (missing_block (5 ∷ [])))
unfolding extract view view_version view_shards read_block decode_car first_root block_map
    ByteMap.new_byte_map ByteMap.lookup bytes_eq
extract-Fails_example = extract-Fails numbers rootless _ refl
