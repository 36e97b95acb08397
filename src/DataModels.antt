-- ===== src/DataModels.antt =====
-- The packages of data models (pkg/capability/assert/datamodel, pkg/blobindex/datamodel,
-- pkg/service/queryresult/datamodel): their initialisation, and the schema types that they give. The
-- schema library is a parameter: what it makes of the embedded schema, and TypeByName.
mod Examples
use indexing_service.Prelude.{Option, some, [], ◌∷◌, Bytes}
use indexing_service.Result.{Result, ok, on_ok}

-- The last part of the names of the caveats.
abbrev caveats : Bytes
caveats = b'C' ∷ b'a' ∷ b'v' ∷ b'e' ∷ b'a' ∷ b't' ∷ b's' ∷ []

-- The function init of the packages of the assert capabilities and of the blob index: the package
-- variable afterwards; an error of the schema is a panic.
unfoldable pub init_type_system : {Ts : Type 0} → Result Ts → Result (Option Ts)
init_type_system load = on_ok load λ ts. ok (some ts)

-- The types of the packages whose variable is a type system; none for nil.
module _ {Ts Ty : Type 0} (type_by_name : Option Ts → Bytes → Ty) (ts : Option Ts) where
  unfoldable pub location_caveats_type : Ty
  location_caveats_type =
      type_by_name ts (b'L' ∷ b'o' ∷ b'c' ∷ b'a' ∷ b't' ∷ b'i' ∷ b'o' ∷ b'n' ∷ caveats)

  unfoldable pub inclusion_caveats_type : Ty
  inclusion_caveats_type =
      type_by_name ts (b'I' ∷ b'n' ∷ b'c' ∷ b'l' ∷ b'u' ∷ b's' ∷ b'i' ∷ b'o' ∷ b'n' ∷ caveats)

  unfoldable pub index_caveats_type : Ty
  index_caveats_type = type_by_name ts (b'I' ∷ b'n' ∷ b'd' ∷ b'e' ∷ b'x' ∷ caveats)

  unfoldable pub partition_caveats_type : Ty
  partition_caveats_type =
      type_by_name ts (b'P' ∷ b'a' ∷ b'r' ∷ b't' ∷ b'i' ∷ b't' ∷ b'i' ∷ b'o' ∷ b'n' ∷ caveats)

  unfoldable pub relation_caveats_type : Ty
  relation_caveats_type =
      type_by_name ts (b'R' ∷ b'e' ∷ b'l' ∷ b'a' ∷ b't' ∷ b'i' ∷ b'o' ∷ b'n' ∷ caveats)

  unfoldable pub equals_caveats_type : Ty
  equals_caveats_type = type_by_name ts (b'E' ∷ b'q' ∷ b'u' ∷ b'a' ∷ b'l' ∷ b's' ∷ caveats)

  unfoldable pub digest_type : Ty
  digest_type = type_by_name ts (b'D' ∷ b'i' ∷ b'g' ∷ b'e' ∷ b's' ∷ b't' ∷ [])

  unfoldable pub sharded_dag_index_schema : Ty
  sharded_dag_index_schema = type_by_name ts (
      b'S' ∷ b'h' ∷ b'a' ∷ b'r' ∷ b'd' ∷ b'e' ∷ b'd' ∷ b'D' ∷ b'a' ∷ b'g' ∷ b'I' ∷ b'n' ∷ b'd'
      ∷ b'e' ∷ b'x' ∷ [])

  unfoldable pub blob_index_schema : Ty
  blob_index_schema =
      type_by_name ts (b'B' ∷ b'l' ∷ b'o' ∷ b'b' ∷ b'I' ∷ b'n' ∷ b'd' ∷ b'e' ∷ b'x' ∷ [])

-- The package of query results keeps the type itself.
module _ {Ts Ty : Type 0} (type_by_name : Ts → Bytes → Ty) where
  unfoldable pub init_query_result_type : Result Ts → Result (Option Ty)
  init_query_result_type load = on_ok load λ type_system. ok (
      some (
        type_by_name type_system
          (b'Q' ∷ b'u' ∷ b'e' ∷ b'r' ∷ b'y' ∷ b'R' ∷ b'e' ∷ b's' ∷ b'u' ∷ b'l' ∷ b't' ∷ [])))

unfoldable pub query_result_type : {Ty : Type 0} → Option Ty → Option Ty
query_result_type variable = variable
