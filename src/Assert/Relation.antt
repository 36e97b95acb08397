-- ===== src/Assert/Relation.antt =====
-- The caveats of a relation.
use indexing_service.Prelude.{Option, none, some, List, map, Bytes}
use indexing_service.Result.{Result, ok, err, nil_dereference, on_ok, traverse}
use indexing_service.Assert.{HasMultihash, Schemas, content_to_ipld, link_or_digest}

pub record RelationPartInclusion : Type 0 where
  pub content : Bytes
  pub parts : Option (List Bytes)

-- A part and its model have the same fields, and so have their inclusions.
pub record RelationPart : Type 0 where
  pub content : Bytes
  pub includes : Option RelationPartInclusion

pub record RelationCaveats : Type 0 where
  pub content : HasMultihash
  pub children : List Bytes
  pub parts : List RelationPart

pub record RelationCaveatsModel (Node : Type 0) : Type 0 where
  pub content : Node
  pub children : List Bytes
  pub parts : List RelationPart

unfoldable pub includes_model : Option RelationPartInclusion → Option RelationPartInclusion
includes_model none = none
includes_model (some i) = some (record { content = i.content; parts = i.parts })

unfoldable pub part_model : RelationPart → RelationPart
unfolding includes_model
part_model part = record { content = part.content; includes = includes_model part.includes }

module _ {Node Url : Type 0} (schemas : Schemas Node Url) where
  unfoldable pub relation_model : RelationCaveats → Result (RelationCaveatsModel Node)
  relation_model rc =
      on_ok (content_to_ipld schemas rc.content)
        λ cn. ok (record { content = cn; children = rc.children; parts = map part_model rc.parts })

  -- The parts of an inclusion are written through a pointer that is nil.
  unfoldable pub inclusion_parts : Option (List Bytes) → Result (Option (List Bytes))
  inclusion_parts none = ok none
  inclusion_parts (some parts) = err nil_dereference

  -- The content of an inclusion is read from the part.
  unfoldable pub read_part_inclusion :
      Bytes → Option RelationPartInclusion → Result (Option RelationPartInclusion)
  unfolding inclusion_parts
  read_part_inclusion part_content none = ok none
  read_part_inclusion part_content (some i) = on_ok (schemas.read_link_v1 part_content) λ content.
      on_ok (inclusion_parts i.parts)
        λ parts. ok (some (record { content = content; parts = parts }))

  unfoldable pub read_part : RelationPart → Result RelationPart
  unfolding read_part_inclusion
  read_part part = on_ok (read_part_inclusion part.content part.includes) λ includes.
      on_ok (schemas.read_link_v1 part.content)
        λ content. ok (record { content = content; includes = includes })

  unfoldable pub read_relation : RelationCaveatsModel Node → Result RelationCaveats
  unfolding read_part
  read_relation model = on_ok (link_or_digest schemas model.content) λ has_multihash.
      on_ok (traverse read_part model.parts)
        λ parts. ok (record { content = has_multihash; children = model.children; parts = parts })
