-- ===== src/Assert.antt =====
-- pkg/capability/assert/assert.go: the caveats of the assert capabilities, how they are written as a
-- model (ToIPLD, up to the wrapping of the model as a node, which is the library's), and how they are
-- read from one.
mod Examples
pub mod Relation
pub mod RoundTrips
use indexing_service.Prelude.{ℕ, Option, none, some, List, map, Bytes}
use indexing_service.Result.{Result, ok, err, on_ok, traverse}

-- The interface HasMultihash and its two implementations. Links are CIDs in binary form.
pub data HasMultihash : Type 0 where
  link digest : Bytes → HasMultihash

-- The method Hash; `cid_hash` is the method Hash of a CID.
pub hash : (Bytes → Bytes) → HasMultihash → Bytes
hash cid_hash (link l) = cid_hash l
hash cid_hash (digest d) = d

-- The schema library: nodes for links and for maps with the entry `digest`, the readers of both, the
-- combination `Or`, and the readers of links, of links of version 1, and of URIs.
pub record Schemas (Node Url : Type 0) : Type 0 where
  pub new_link : Bytes → Node
  pub digest_map : Bytes → Result Node
  pub read_link_node : Node → Result Bytes
  pub read_digest_node : Node → Result Bytes
  pub either :
      (Node → Result HasMultihash) → (Node → Result HasMultihash) → Node → Result HasMultihash
  pub read_link : Bytes → Result Bytes
  pub read_link_v1 : Bytes → Result Bytes
  pub read_uri : Bytes → Result Url
  pub url_string : Url → Bytes

pub record Range : Type 0 where
  pub offset : ℕ
  pub length : Option ℕ

pub record LocationCaveats (Url : Type 0) : Type 0 where
  pub content : HasMultihash
  pub location : List Url
  pub range : Option Range

pub record LocationCaveatsModel (Node : Type 0) : Type 0 where
  pub content : Node
  pub location : List Bytes
  pub range : Option Range

pub record InclusionCaveats : Type 0 where
  pub content : HasMultihash
  pub includes : Bytes
  pub proof : Option Bytes

pub record InclusionCaveatsModel (Node : Type 0) : Type 0 where
  pub content : Node
  pub includes : Bytes
  pub proof : Option Bytes

-- The caveats of an index and their model have the same fields.
pub record IndexCaveats : Type 0 where
  pub content : Bytes
  pub index : Bytes

pub record IndexCaveatsModel : Type 0 where
  pub content : Bytes
  pub index : Bytes

pub record PartitionCaveats : Type 0 where
  pub content : HasMultihash
  pub blocks : Option Bytes
  pub parts : List Bytes

pub record PartitionCaveatsModel (Node : Type 0) : Type 0 where
  pub content : Node
  pub blocks : Option Bytes
  pub parts : List Bytes

pub record EqualsCaveats : Type 0 where
  pub content : HasMultihash
  pub equals : Bytes

pub record EqualsCaveatsModel (Node : Type 0) : Type 0 where
  pub content : Node
  pub equals : Bytes

module _ {Node Url : Type 0} (schemas : Schemas Node Url) where
  -- The methods ToIPLD of `link` and `digest`.
  pub content_to_ipld : HasMultihash → Result Node
  content_to_ipld (link l) = ok (schemas.new_link l)
  content_to_ipld (digest d) = schemas.digest_map d

  pub link_or_digest : Node → Result HasMultihash
  link_or_digest =
      schemas.either (λ n. on_ok (schemas.read_link_node n) (λ l. ok (link l)))
        (λ n. on_ok (schemas.read_digest_node n) (λ d. ok (digest d)))

  -- A pointer to a link, if it is not nil.
  pub read_optional : Option Bytes → Result (Option Bytes)
  read_optional none = ok none
  read_optional (some l) = on_ok (schemas.read_link_v1 l) (λ output. ok (some output))

  pub location_model : LocationCaveats Url → Result (LocationCaveatsModel Node)
  location_model lc = on_ok (content_to_ipld lc.content) λ cn.
      ok (record { content = cn; location = map schemas.url_string lc.location; range = lc.range })

  pub read_location : LocationCaveatsModel Node → Result (LocationCaveats Url)
  read_location model = on_ok (link_or_digest model.content) λ has_multihash.
      on_ok (traverse schemas.read_uri model.location) λ location.
        ok (record { content = has_multihash; location = location; range = model.range })

  pub inclusion_model : InclusionCaveats → Result (InclusionCaveatsModel Node)
  inclusion_model ic =
      on_ok (content_to_ipld ic.content)
        λ cn. ok (record { content = cn; includes = ic.includes; proof = ic.proof })

  pub read_inclusion : InclusionCaveatsModel Node → Result InclusionCaveats
  read_inclusion model = on_ok (link_or_digest model.content) λ has_multihash.
      on_ok (schemas.read_link_v1 model.includes) λ includes.
        on_ok (read_optional model.proof)
          λ proof. ok (record { content = has_multihash; includes = includes; proof = proof })

  pub index_model : IndexCaveats → IndexCaveatsModel
  index_model ic = record { content = ic.content; index = ic.index }

  pub read_index : IndexCaveatsModel → Result IndexCaveats
  read_index model = on_ok (schemas.read_link model.content) λ content.
      on_ok (schemas.read_link_v1 model.index)
        λ index. ok (record { content = content; index = index })

  pub partition_model : PartitionCaveats → Result (PartitionCaveatsModel Node)
  partition_model pc =
      on_ok (content_to_ipld pc.content)
        λ cn. ok (record { content = cn; blocks = pc.blocks; parts = pc.parts })

  pub read_partition : PartitionCaveatsModel Node → Result PartitionCaveats
  read_partition model = on_ok (link_or_digest model.content) λ has_multihash.
      on_ok (read_optional model.blocks) λ blocks.
        on_ok (traverse schemas.read_link_v1 model.parts)
          λ parts. ok (record { content = has_multihash; blocks = blocks; parts = parts })

  pub equals_model : EqualsCaveats → Result (EqualsCaveatsModel Node)
  equals_model ec =
      on_ok (content_to_ipld ec.content)
        λ content. ok (record { content = content; equals = ec.equals })

  pub read_equals : EqualsCaveatsModel Node → Result EqualsCaveats
  read_equals model =
      on_ok (link_or_digest model.content)
        λ has_multihash. ok (record { content = has_multihash; equals = model.equals })
