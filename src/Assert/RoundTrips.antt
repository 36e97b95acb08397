-- ===== src/Assert/RoundTrips.antt =====
-- Reading the model of caveats.
use indexing_service.Prelude.{◌≡◌, refl, Option, none, some, List, [], ◌∷◌, map, All, Bytes}
use indexing_service.Result.{Result, ok, err, on_ok, traverse, traverse-map}
use indexing_service.Assert.{
  HasMultihash, link, digest, Schemas, content_to_ipld, link_or_digest, read_optional,
  LocationCaveats, location_model, read_location, PartitionCaveats, partition_model, read_partition,
  InclusionCaveats, inclusion_model, read_inclusion,
}
use indexing_service.Assert.Relation.{
  RelationPart, RelationPartInclusion, RelationCaveats, part_model, includes_model, relation_model,
  inclusion_parts, read_part_inclusion, read_part, read_relation,
}

-- The schema library reads the nodes that it builds, tells links from maps, and takes the second
-- reader where the first fails.
pub record IsSchemas {Node Url : Type 0} (schemas : Schemas Node Url) : Type 0 where
  pub link_lem : (l : Bytes) → schemas.read_link_node (schemas.new_link l) ≡ ok l
  pub digest_lem :
      (d : Bytes) (n : Node) → schemas.digest_map d ≡ ok n → schemas.read_digest_node n ≡ ok d
  pub no_link_lem :
      (d : Bytes) (n : Node)
      → schemas.digest_map d ≡ ok n
      → ◌≡◌ {A = Option Bytes}
          (elim (schemas.read_link_node n) [ ok l ↦ some l | err e ↦ none ])
          none
  pub first_lem :
      (r s : Node → Result HasMultihash) (n : Node) (h : HasMultihash)
      → r n ≡ ok h
      → schemas.either r s n ≡ ok h
  pub second_lem :
      (r s : Node → Result HasMultihash) (n : Node) (h : HasMultihash)
      → ◌≡◌ {A = Option HasMultihash} (elim (r n) [ ok x ↦ some x | err e ↦ none ]) none
      → s n ≡ ok h
      → schemas.either r s n ≡ ok h
  pub uri_lem : (u : Url) → schemas.read_uri (schemas.url_string u) ≡ ok u

no_link :
    (r : Result Bytes)
    → ◌≡◌ {A = Option Bytes} (elim r [ ok l ↦ some l | err e ↦ none ]) none
    → ◌≡◌ {A = Option HasMultihash}
        (elim (on_ok r (λ l. ok (link l))) [ ok x ↦ some x | err e ↦ none ])
        none
no_link (ok l) h = cc
no_link (err e) h = refl

module _ {Node Url : Type 0} (schemas : Schemas Node Url) (s : IsSchemas schemas) where
  -- The link or digest of a content is read back from its node.
  link_or_digest-content_to_ipld :
      (h : HasMultihash) (n : Node)
      → content_to_ipld schemas h ≡ ok n
      → link_or_digest schemas n ≡ ok h
  unfolding content_to_ipld link_or_digest
  link_or_digest-content_to_ipld (link l) n e =
      let same : schemas.new_link l ≡ n = cc in
      s.first_lem _ _ n (link l) (rw (← same) (rw (s.link_lem l)))
  link_or_digest-content_to_ipld (digest d) n e =
      s.second_lem _ _ n (digest d) (no_link (schemas.read_link_node n) (s.no_link_lem d n e))
        (rw (s.digest_lem d n e))

  -- A link that the reader of links of version 1 accepts as it is.
  abbrev pub IsV1 : Bytes → Type 0
  IsV1 l = schemas.read_link_v1 l ≡ ok l

  abbrev pub IsOptionalV1 : Option Bytes → Type 0
  IsOptionalV1 none = Unit
  IsOptionalV1 (some l) = IsV1 l

  read_optional_lem : (o : Option Bytes) → IsOptionalV1 o → read_optional schemas o ≡ ok o
  unfolding read_optional
  read_optional_lem none h = refl
  read_optional_lem (some l) h = rw h

  traverse_lem : (ls : List Bytes) → All IsV1 ls → traverse schemas.read_link_v1 ls ≡ ok ls
  traverse_lem [] h = refl
  traverse_lem (l ∷ ls) h = rw (h.0) (rw (traverse_lem ls h.1))

  read_uris : (us : List Url) → All (λ u. schemas.read_uri (schemas.url_string u) ≡ ok u) us
  read_uris [] = tt
  read_uris (u ∷ us) = (s.uri_lem u, read_uris us)

  -- Over a schema library that reads what it writes, location caveats whose content can be written
  -- are read back from their model as they were.
  pub read_location-location_model :
      (c : LocationCaveats Url) (n : Node)
      → content_to_ipld schemas c.content ≡ ok n
      → on_ok (location_model schemas c) (read_location schemas) ≡ ok c
  unfolding location_model read_location
  read_location-location_model c n e = rw e (
      rw (link_or_digest-content_to_ipld c.content n e)
        (rw (traverse-map schemas.read_uri schemas.url_string c.location (read_uris c.location))))

  -- Over a schema library that reads what it writes, partition caveats whose content can be
  -- written and whose links are accepted as links of version 1 are read back from their model as
  -- they were.
  pub read_partition-partition_model :
      (c : PartitionCaveats) (n : Node)
      → content_to_ipld schemas c.content ≡ ok n
      → IsOptionalV1 c.blocks
      → All IsV1 c.parts
      → on_ok (partition_model schemas c) (read_partition schemas) ≡ ok c
  unfolding partition_model read_partition
  read_partition-partition_model c n e b p = rw e (
      rw (link_or_digest-content_to_ipld c.content n e)
        (rw (read_optional_lem c.blocks b) (rw (traverse_lem c.parts p))))

  -- Inclusion caveats whose content can be written and whose links are of version 1 are read back
  -- from their model as they were.
  pub read_inclusion-inclusion_model :
      (c : InclusionCaveats) (n : Node)
      → content_to_ipld schemas c.content ≡ ok n
      → IsV1 c.includes
      → IsOptionalV1 c.proof
      → on_ok (inclusion_model schemas c) (read_inclusion schemas) ≡ ok c
  unfolding inclusion_model read_inclusion
  read_inclusion-inclusion_model c n e i p =
      rw e (
        rw (link_or_digest-content_to_ipld c.content n e) (rw i (rw (read_optional_lem c.proof p))))

  -- What becomes of a part of a relation: an inclusion gets the content of its part.
  abbrev pub reread : RelationPart → RelationPart
  reread part = record part {
    includes = elim part.includes [
      | none ↦ none
      | some i ↦ some (record { content = part.content; parts = none })
    ];
  }

  abbrev pub NoParts : RelationPart → Type 0
  NoParts part =
      IsV1 part.content × ((i : RelationPartInclusion) → part.includes ≡ some i → i.parts ≡ none)

  read_part_lem :
      (content : Bytes) (o : Option RelationPartInclusion)
      → NoParts (record { content = content; includes = o })
      → read_part schemas (part_model (record { content = content; includes = o }))
        ≡ ok (reread (record { content = content; includes = o }))
  unfolding read_part part_model includes_model read_part_inclusion inclusion_parts
  read_part_lem content none (v, h) = rw v
  read_part_lem content (some i) (v, h) = rw v (rw (h i refl))

  traverse_parts :
      (ps : List RelationPart)
      → All NoParts ps
      → traverse (read_part schemas) (map part_model ps) ≡ ok (map reread ps)
  traverse_parts [] h = refl
  traverse_parts (p ∷ ps) h =
      rw (read_part_lem p.content p.includes h.0) (rw (traverse_parts ps h.1))

  -- Over a schema library that reads what it writes, relation caveats, whose content can be
  -- written and whose parts have links accepted as links of version 1 and no inclusion with parts,
  -- are read back from their model, but for the inclusions: each has the content of its part in
  -- place of its own.
  pub read_relation-relation_model :
      (c : RelationCaveats) (n : Node)
      → content_to_ipld schemas c.content ≡ ok n
      → All NoParts c.parts
      → on_ok (relation_model schemas c) (read_relation schemas)
        ≡ ok (record c { parts = map reread c.parts })
  unfolding relation_model read_relation
  read_relation-relation_model c n e p =
      rw e (rw (link_or_digest-content_to_ipld c.content n e) (rw (traverse_parts c.parts p)))
