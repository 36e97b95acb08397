-- ===== src/Metadata/Examples.antt =====
-- The codec of metadata with libraries that write an equals claim without CIDs as one byte.
use indexing_service.Prelude.{
  ℕ, zero, suc, ◌≡◌, ◌≢◌, refl, Option, none, some, [], ◌∷◌, ◌++◌, Bytes, map, length,
}
use indexing_service.Result.{Result, ok, err, Err, foreign, nil_dereference}
use indexing_service.Metadata.{
  index_claim_id, Protocol, EqualsClaimMetadata, equals_claim, equals_claim_id,
}
use indexing_service.Metadata.Codec.{
  registered, id, Package, Library, Reader, initialise, init, declared, prototypes_of,
  marshal_binary, read_from,
}
use indexing_service.Metadata.Counting.{OnlyReads, read_from-Consumed}
use indexing_service.Metadata.Init.{initialise-nil_dereference}

abbrev result_of : ℕ → Option Err → Result ℕ
result_of b none = ok b
result_of b (some e) = err e

abbrev claim_of : Bytes → Result Protocol
claim_of [] = err (foreign 1)
claim_of (b ∷ bs) = ok (equals_claim (record { equals = []; expiration = b; claim = [] }))

abbrev written_as : EqualsClaimMetadata → Bytes → Bytes → Result Bytes
written_as m [] [] = ok (m.expiration ∷ [])
written_as m _ _ = err (foreign 2)

abbrev encode_equals : Protocol → Result Bytes
encode_equals (equals_claim m) = written_as m m.equals m.claim
encode_equals _ = err (foreign 3)

abbrev one_byte_library : Library (Unit {0})
one_byte_library = record {
  to_uvarint = λ n. n ∷ [];
  read_uvarint = λ byte s. (result_of (byte s).0.0 (byte s).0.1, (byte s).1);
  encode = λ t m. encode_equals m;
  decode = λ read t s. (claim_of (read 1 s).0.0, (read 1 s).1);
}

one_byte_library-OnlyReads : OnlyReads one_byte_library
one_byte_library-OnlyReads = record {
  uvarint_lem = λ byte I keeps s i. keeps s i;
  decode_lem = λ read t I keeps s i. keeps 1 s i;
}

-- A reader of the bytes of a list, one at a time.
abbrev single_read : Reader Bytes
single_read zero bs = (([], none), bs)
single_read (suc n) [] = (([], some (foreign 4)), [])
single_read (suc n) (b ∷ bs) = ((b ∷ [], none), bs)

single_read-next : (n : ℕ) (bs : Bytes) → bs ≡ (single_read n bs).0.0 ++ (single_read n bs).1
single_read-next zero bs = refl
single_read-next (suc n) [] = refl
single_read-next (suc n) (b ∷ bs) = refl

-- A package with the prototype of equals claims.
abbrev with_prototype : Package (Unit {0})
with_prototype = record { variables = declared; node_prototypes = (equals_claim_id, some tt) ∷ [] }

abbrev claim : Protocol
claim = equals_claim (record { equals = []; expiration = 7; claim = [] })

abbrev blank : Protocol
blank = equals_claim (record { equals = []; expiration = 0; claim = [] })

abbrev claim_bytes : Bytes
claim_bytes = equals_claim_id ∷ 7 ∷ []

read_from-Consumed_example :
    let ((result, count), s') =
      read_from one_byte_library with_prototype single_read blank (5 ∷ []) in
    (bs : Bytes) × (5 ∷ [] ≡ bs ++ s') × (length bs ≡ count)
read_from-Consumed_example =
    read_from-Consumed one_byte_library one_byte_library-OnlyReads with_prototype single_read
      (λ bs. bs) single_read-next blank (5 ∷ [])

abbrev started : Package (Unit {0})
started = record {
  variables = record {
    index_claim_metadata = some tt;
    equals_claim_metadata = some tt;
    location_commitment_metadata = some tt;
  };
  node_prototypes = prototypes_of declared;
}

initialise-nil_dereference_example :
    (marshal_binary one_byte_library started claim ≡ err nil_dereference)
    × ((read_from one_byte_library started single_read blank claim_bytes).0.0 ≢ ok claim)
unfolding initialise init
initialise-nil_dereference_example =
    initialise-nil_dereference one_byte_library single_read
      (ok (record { index_claim_type = tt; equals_claim_type = tt; location_commitment_type = tt }))
      started blank claim claim_bytes refl

-- The metadata that is registered for location commitments has the code of equals claims.
registered_ids :
    map (λ e. id (e.1)) registered ≡ index_claim_id ∷ equals_claim_id ∷ equals_claim_id ∷ []
unfolding registered id
registered_ids = refl
