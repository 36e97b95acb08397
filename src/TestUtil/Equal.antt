-- ===== src/TestUtil/Equal.antt =====
-- What RequireEqualIndex shows of the two indexes that it lets pass.
use indexing_service.Prelude.{
  ◌≡◌, true, some, [], ◌∷◌, Bytes, bytes_eq_iff, All, arith, Bool-cases, Option-cases, inl, inr,
}
use indexing_service.ByteMap
use indexing_service.ByteMap.{ByteMap, lookup, has, size}
use indexing_service.ByteMap.Laws.{IsKeyed}
use indexing_service.ByteMap.Inclusion.{Includes, Includes-has}
use indexing_service.BlobIndex.{Position, ShardedDagIndex}
use indexing_service.BlobIndex.Slices.{slice_in, slice_at}
use indexing_service.TestUtil.{same_slices, same_shards, require_equal_index}

same_slices-Includes : (e m : ByteMap Position) → same_slices e m ≡ true → Includes e m
unfolding same_slices
same_slices-Includes e [] h = tt
same_slices-Includes e ((i, w) ∷ m) h = ground (arith, same_slices-Includes e m)

same_slices-lookup :
    (e m : ByteMap Position) (k : Bytes)
    → same_slices e m ≡ true
    → has m k ≡ true
    → lookup e k ≡ lookup m k
unfolding same_slices has lookup ByteMap.get
same_slices-lookup e [] k h p = cc
same_slices-lookup e ((i, w) ∷ m) k h p = grind (arith, bytes_eq_iff i k, same_slices-lookup e m k)

-- What RequireEqualIndex shows of two shards.
same_size-lookup :
    (e m : ByteMap Position) (k : Bytes)
    → IsKeyed m
    → size e ≡ size m
    → same_slices e m ≡ true
    → lookup e k ≡ lookup m k
unfolding has
same_size-lookup e m k d s h = elim (Bool-cases (has m k)) [
  | inl p ↦ same_slices-lookup e m k h p
  | inr p ↦ ground (arith, Includes-has e m k d (same_slices-Includes e m h))
]

same_shards-Includes : (e m : ByteMap (ByteMap Position)) → same_shards e m ≡ true → Includes e m
unfolding same_shards
same_shards-Includes e [] h = tt
same_shards-Includes e ((i, w) ∷ m) h = ground (arith, same_shards-Includes e m)

-- What two indexes say of a shard that both have.
same_shard-lookup :
    (e m : ByteMap (ByteMap Position)) (key mh : Bytes)
    → All (λ entry. IsKeyed entry.1) m
    → same_shards e m ≡ true
    → has m key ≡ true
    → slice_in (lookup e key) mh ≡ slice_in (lookup m key) mh
unfolding same_shards has lookup ByteMap.get
same_shard-lookup e [] key mh d h p = cc
same_shard-lookup e ((i, w) ∷ m) key mh d h p = elim (Option-cases (lookup e i)) [
  | inl q ↦ ground arith
  | inr (x, q) ↦
      grind
        (arith, bytes_eq_iff i key, same_size-lookup x w mh d.0, same_shard-lookup e m key mh d.1)
]

-- Two indexes that RequireEqualIndex lets pass have the same shards, and place every slice of
-- every shard in the same way, if no shard of the second index and no slice of one of its shards
-- stands twice.
pub require_equal_index-slice_at :
    (expected actual : ShardedDagIndex) (shard slice : Bytes)
    → IsKeyed actual.shards
    → All (λ entry. IsKeyed entry.1) actual.shards
    → require_equal_index (some expected) (some actual) ≡ true
    → (has expected.shards shard ≡ has actual.shards shard)
      × (slice_at expected shard slice ≡ slice_at actual shard slice)
unfolding require_equal_index slice_at has
require_equal_index-slice_at expected actual shard slice d ds h =
    let passed : same_shards expected.shards actual.shards ≡ true = ground arith in
    let sizes : size expected.shards ≡ size actual.shards = ground arith in
    let same =
      Includes-has expected.shards actual.shards shard d
        (same_shards-Includes expected.shards actual.shards passed) (omega arith) in
    (
      same,
      elim (Bool-cases (has actual.shards shard)) [
        | inl p ↦ same_shard-lookup expected.shards actual.shards shard slice ds passed p
        | inr p ↦ ground (arith, same)
      ],
    )
