-- ===== src/Assert/Examples.antt =====
-- Caveats over a schema library whose nodes are links and maps.
use indexing_service.Prelude.{◌≡◌, refl, arith, Option, none, some, [], ◌∷◌, Bytes, List}
use indexing_service.Result.{Result, ok, err, foreign, on_ok}
use indexing_service.Assert.{
  HasMultihash, link, digest, Schemas, content_to_ipld, LocationCaveats, PartitionCaveats,
}
use indexing_service.Assert.Relation.{
  RelationPart, RelationPartInclusion, RelationCaveats, relation_model, read_relation,
}
use indexing_service.Assert.RoundTrips.{IsSchemas, read_relation-relation_model}

abbrev or_else : Result HasMultihash → Result HasMultihash → Result HasMultihash
or_else (ok h) r = ok h
or_else (err e) r = r

abbrev read_link : HasMultihash → Result Bytes
read_link (link l) = ok l
read_link (digest d) = err (foreign 1)

abbrev read_digest : HasMultihash → Result Bytes
read_digest (link l) = err (foreign 2)
read_digest (digest d) = ok d

abbrev plain : Schemas HasMultihash Bytes
plain = record {
  new_link = λ l. link l;
  digest_map = λ d. ok (digest d);
  read_link_node = read_link;
  read_digest_node = read_digest;
  either = λ r s n. or_else (r n) (s n);
  read_link = λ l. ok l;
  read_link_v1 = λ l. ok l;
  read_uri = λ b. ok b;
  url_string = λ u. u;
}

digest_read :
    (d : Bytes) (n : HasMultihash)
    → ◌≡◌ {A = Result HasMultihash} (ok (digest d)) (ok n)
    → read_digest n ≡ ok d
digest_read d (link l) e = cc
digest_read d (digest x) e = cc

digest_no_link :
    (d : Bytes) (n : HasMultihash)
    → ◌≡◌ {A = Result HasMultihash} (ok (digest d)) (ok n)
    → ◌≡◌ {A = Option Bytes} (elim (read_link n) [ ok l ↦ some l | err e ↦ none ]) none
digest_no_link d (link l) e = cc
digest_no_link d (digest x) e = refl

first_read : (r s : Result HasMultihash) (h : HasMultihash) → r ≡ ok h → or_else r s ≡ ok h
first_read (ok x) s h e = e
first_read (err x) s h e = cc

second_read :
    (r s : Result HasMultihash) (h : HasMultihash)
    → ◌≡◌ {A = Option HasMultihash} (elim r [ ok x ↦ some x | err e ↦ none ]) none
    → s ≡ ok h
    → or_else r s ≡ ok h
second_read (ok x) s h n e = cc
second_read (err x) s h n e = e

plain-IsSchemas : IsSchemas plain
plain-IsSchemas = record {
  link_lem = λ l. refl;
  digest_lem = digest_read;
  no_link_lem = digest_no_link;
  first_lem = λ r s n h e. first_read (r n) (s n) h e;
  second_lem = λ r s n h a e. second_read (r n) (s n) h a e;
  uri_lem = λ u. refl;
}

abbrev one_location : LocationCaveats Bytes
one_location = record { content = digest (1 ∷ []); location = (2 ∷ []) ∷ []; range = none }

abbrev two_parts : PartitionCaveats
two_parts = record {
  content = link (1 ∷ []);
  blocks = some (4 ∷ []);
  parts = (2 ∷ []) ∷ (3 ∷ []) ∷ [];
}

-- A part whose inclusion has another content.
abbrev part : Option (List Bytes) → RelationPart
part parts = record {
  content = 5 ∷ [];
  includes = some (record { content = 6 ∷ []; parts = parts });
}

abbrev relation : Option (List Bytes) → RelationCaveats
relation parts = record { content = link (1 ∷ []); children = []; parts = part parts ∷ [] }

no_parts :
    (i : RelationPartInclusion)
    → ◌≡◌ {A = Option RelationPartInclusion}
        (some (record { content = 6 ∷ []; parts = none }))
        (some i)
    → i.parts ≡ none
no_parts i e = ground arith

read_relation-relation_model_example :
    on_ok (relation_model plain (relation none)) (read_relation plain)
    ≡ ok (record {
      content = link (1 ∷ []);
      children = [];
      parts =
          record { content = 5 ∷ []; includes = some (record { content = 5 ∷ []; parts = none }) }
          ∷ [];
    })
unfolding content_to_ipld
read_relation-relation_model_example =
    read_relation-relation_model plain plain-IsSchemas (relation none) (link (1 ∷ [])) refl
      ((refl, no_parts), tt)
