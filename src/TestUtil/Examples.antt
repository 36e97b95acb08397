-- ===== src/TestUtil/Examples.antt =====
-- Indexes that RequireEqualIndex takes for equal, or not.
use indexing_service.Prelude.{◌≡◌, refl, true, false, some, none, [], ◌∷◌, Bytes, bytes_eq}
use indexing_service.Result.{foreign}
use indexing_service.ByteMap
use indexing_service.ByteMap.{ByteMap, has}
use indexing_service.BlobIndex.Slices.{slice_at}
use indexing_service.TestUtil.Equal.{require_equal_index-slice_at}
use indexing_service.BlobIndex.{Position, ShardedDagIndex}
use indexing_service.TestUtil.{must, must2, same_slices, same_shards, require_equal_index}

abbrev one_shard : ByteMap (ByteMap Position)
one_shard = ((1 ∷ []), (((2 ∷ []), record { offset = 3; length = 4 }) ∷ [])) ∷ []

-- The contents are not compared.
other_content :
    require_equal_index
      (some (record { content = 5 ∷ []; shards = one_shard }))
      (some (record { content = 6 ∷ []; shards = one_shard }))
    ≡ true
unfolding require_equal_index same_shards same_slices ByteMap.has ByteMap.get ByteMap.size
    ByteMap.lookup bytes_eq
other_content = refl

-- An index without shards does not pass, also against itself.
no_shards :
    (content : Bytes)
    → require_equal_index
        (some (record { content = content; shards = [] }))
        (some (record { content = content; shards = [] }))
      ≡ false
unfolding require_equal_index same_shards ByteMap.size
no_shards content = refl

must_fails : must {A = Bytes} [] (some (foreign 1)) ≡ none
unfolding must
must_fails = refl

must2_passes : must2 {A = Bytes} {B = Bytes} [] [] none ≡ some ([], [])
unfolding must2
must2_passes = refl

abbrev first_index : ShardedDagIndex
first_index = record { content = 5 ∷ []; shards = one_shard }

abbrev second_index : ShardedDagIndex
second_index = record { content = 6 ∷ []; shards = one_shard }

require_equal_index-slice_at_example :
    (has one_shard (1 ∷ []) ≡ has one_shard (1 ∷ []))
    × (slice_at first_index (1 ∷ []) (2 ∷ []) ≡ slice_at second_index (1 ∷ []) (2 ∷ []))
require_equal_index-slice_at_example =
    require_equal_index-slice_at first_index second_index (1 ∷ []) (2 ∷ []) (tt, tt) ((tt, tt), tt)
      other_content
