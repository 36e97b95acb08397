-- ===== src/DataModels/Examples.antt =====
-- The names of the schema types.
use indexing_service.Prelude.{
  ◌≡◌, refl, Option, none, List, [], ◌∷◌, any, not, ◌&&◌, true, Bool, Bytes, bytes_eq,
}
use indexing_service.DataModels.{
  location_caveats_type, inclusion_caveats_type, index_caveats_type, partition_caveats_type,
  relation_caveats_type, equals_caveats_type, digest_type,
}

-- A type system that gives the name itself.
abbrev name : Option (Unit {0}) → Bytes → Bytes
name ts n = n

abbrev all_distinct : List Bytes → Bool
all_distinct [] = true
all_distinct (n ∷ ns) = not (any (bytes_eq n) ns) && all_distinct ns

-- No two functions of the assert capabilities give one type.
assert_types_distinct :
    all_distinct (
      location_caveats_type name none
      ∷ inclusion_caveats_type name none
      ∷ index_caveats_type name none
      ∷ partition_caveats_type name none
      ∷ relation_caveats_type name none
      ∷ equals_caveats_type name none
      ∷ digest_type name none
      ∷ [])
    ≡ true
unfolding bytes_eq location_caveats_type inclusion_caveats_type index_caveats_type
    partition_caveats_type relation_caveats_type equals_caveats_type digest_type
assert_types_distinct = refl
