-- ===== src/BlobIndex/Examples.antt =====
-- An index with one slice.
use indexing_service.Prelude.{◌≡◌, refl, some, [], ◌∷◌, bytes_eq}
use indexing_service.ByteMap
use indexing_service.BlobIndex.{Position, set_slice, new_sharded_dag_index_view}
use indexing_service.BlobIndex.Slices.{slice_at}

abbrev place : Position
place = record { offset = 4; length = 6 }

one_slice :
    slice_at (set_slice (new_sharded_dag_index_view []) (1 ∷ []) (2 ∷ []) place) (1 ∷ []) (2 ∷ [])
    ≡ some place
unfolding slice_at set_slice new_sharded_dag_index_view ByteMap.lookup ByteMap.set ByteMap.has
    ByteMap.get ByteMap.new_byte_map bytes_eq
one_slice = refl
