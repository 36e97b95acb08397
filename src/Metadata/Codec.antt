-- ===== src/Metadata/Codec.antt =====
-- The binary form of claim metadata, with the package variables that it uses and the order in which
-- they are set, and the reader that counts bytes.
use indexing_service.Prelude.{
  ℕ, ◌+◌, ◌==◌, Bool, true, false, Option, none, some, List, [], ◌∷◌, ◌++◌, Bytes, length,
  if◌then◌else◌,
}
use indexing_service.Result.{
  Result, ok, err, Err, nil_dereference, failed_assertion, id_mismatch, on_ok, Io, ◌>>=◌, raise,
  lift,
}
use indexing_service.Metadata.{
  index_claim_id, equals_claim_id, location_commitment_id, Protocol, index_claim, equals_claim,
  location_commitment, no_claim,
}

-- The method ID; that of location commitments gives the code of equals claims.
unfoldable pub id : Protocol → ℕ
id (index_claim m) = index_claim_id
id (equals_claim m) = equals_claim_id
id (location_commitment m) = equals_claim_id
id (no_claim code) = code

-- Whether two protocols have one Go type; the type of those of others is told by their code.
unfoldable pub same_type : Protocol → Protocol → Bool
same_type (index_claim m) (index_claim n) = true
same_type (equals_claim m) (equals_claim n) = true
same_type (location_commitment m) (location_commitment n) = true
same_type (no_claim code) (no_claim code') = code == code'
same_type _ _ = false

-- The package variables of type schema.TypedPrototype; none for nil.
pub record Variables (P : Type 0) : Type 0 where
  pub index_claim_metadata : Option P
  pub equals_claim_metadata : Option P
  pub location_commitment_metadata : Option P

-- What bindnode.Prototype makes of the three types of the schema.
pub record Schema (P : Type 0) : Type 0 where
  pub index_claim_type : P
  pub equals_claim_type : P
  pub location_commitment_type : P

pub record Package (P : Type 0) : Type 0 where
  pub variables : Variables P
  pub node_prototypes : List (ℕ × Option P)

module _ {P : Type 0} where
  -- Variables without an initial value are nil.
  abbrev pub declared : Variables P
  declared = record {
    index_claim_metadata = none;
    equals_claim_metadata = none;
    location_commitment_metadata = none;
  }

  -- The literal of nodePrototypes.
  unfoldable pub prototypes_of : Variables P → List (ℕ × Option P)
  prototypes_of v =
      (index_claim_id, v.index_claim_metadata)
      ∷ (equals_claim_id, v.equals_claim_metadata)
      ∷ (location_commitment_id, v.location_commitment_metadata)
      ∷ []

  -- The function init, which leaves nodePrototypes alone; an error of the schema is a panic.
  unfoldable pub init : Result (Schema P) → Package P → Result (Package P)
  init load p = on_ok load λ schema. ok (record p {
    variables = record {
      index_claim_metadata = some schema.index_claim_type;
      equals_claim_metadata = some schema.equals_claim_type;
      location_commitment_metadata = some schema.location_commitment_type;
    };
  })

  -- Go sets the package variables first, and then calls init.
  unfoldable pub initialise : Result (Schema P) → Result (Package P)
  initialise load =
      init load (record { variables = declared; node_prototypes = prototypes_of declared })

  -- A read of a map: nil for a code that is not there.
  unfoldable pub prototype_at : List (ℕ × Option P) → ℕ → Option P
  prototype_at [] code = none
  prototype_at ((c, p) ∷ ps) code = if c == code then p else prototype_at ps code

-- The protocols that the second init registers, by their code, with what their factories return.
unfoldable pub registered : List (ℕ × Protocol)
registered =
    (index_claim_id, index_claim (record { index = []; expiration = 0; claim = [] }))
    ∷ (equals_claim_id, equals_claim (record { equals = []; expiration = 0; claim = [] }))
    ∷ (
      location_commitment_id,
      location_commitment (record { shard = none; range = none; expiration = 0; claim = [] }),
    )
    ∷ []

-- A reader: the bytes of a read of at most so many, and its error.
abbrev pub Reader : Type 0 → Type 0
Reader S = ℕ → S → (Bytes × Option Err) × S

abbrev pub ByteReader : Type 0 → Type 0
ByteReader S = S → (ℕ × Option Err) × S

-- The libraries go-varint and dag-cbor with bindnode: they read through the reader that they get.
pub record Library (P : Type 0) : Type 1 where
  pub to_uvarint : ℕ → Bytes
  pub read_uvarint : {S : Type 0} → ByteReader S → Io S ℕ
  pub encode : P → Protocol → Result Bytes
  pub decode : {S : Type 0} → Reader S → P → Io S Protocol

module _ {S : Type 0} (read : Reader S) where
  -- The methods of countingReader; the count is the second part of its state, an int64.
  unfoldable pub counting_read : Reader (S × ℕ)
  counting_read n (s, count) = let ((b, e), s') = read n s in ((b, e), (s', count + length b))

  abbrev first_byte : Bytes → ℕ
  first_byte [] = 0
  first_byte (b ∷ bs) = b

  unfoldable pub read_byte : ByteReader (S × ℕ)
  unfolding counting_read
  read_byte w = let ((b, e), w') = counting_read 1 w in ((first_byte b, e), w')

module _ {P : Type 0} (lib : Library P) (p : Package P) where
  unfoldable pub encode_as : Protocol → Option P → Result Bytes
  encode_as metadata none = err nil_dereference
  encode_as metadata (some t) =
      on_ok (lib.encode t metadata) λ nd. ok (lib.to_uvarint (id metadata) ++ nd)

  unfoldable pub marshal_binary : Protocol → Result Bytes
  unfolding encode_as
  marshal_binary metadata = encode_as metadata (prototype_at p.node_prototypes (id metadata))

  -- `bindnode.Unwrap(nd).(PT)`.
  unfoldable pub assert_type : Protocol → Protocol → Result Protocol
  assert_type val read = if same_type val read then ok read else err failed_assertion

  module _ {S : Type 0} (read : Reader S) where
    unfoldable pub decode_as : Protocol → Option P → Io (S × ℕ) Protocol
    unfolding ◌>>=◌
    decode_as val none = raise nil_dereference
    decode_as val (some t) = do nd ← lib.decode (counting_read read) t; lift (assert_type val nd)

    unfoldable pub check_id : Protocol → ℕ → Io (S × ℕ) Protocol
    unfolding decode_as
    check_id val v =
        if v == id val
        then decode_as val (prototype_at p.node_prototypes (id val))
        else raise (id_mismatch (id val) v)

    unfoldable pub read_claim : Protocol → Io (S × ℕ) Protocol
    unfolding check_id ◌>>=◌
    read_claim val = do v ← lib.read_uvarint (read_byte read); check_id val v

    -- What `val` becomes, or the error, with the count, and the state of the reader.
    unfoldable pub read_from : Protocol → S → (Result Protocol × ℕ) × S
    unfolding read_claim
    read_from val s = let (result, (s', count)) = read_claim val (s, 0) in ((result, count), s')

    -- `new_reader` is bytes.NewReader, whose reads are `read`.
    unfoldable pub unmarshal_binary : (Bytes → S) → Protocol → Bytes → Result Protocol
    unfolding read_from
    unmarshal_binary new_reader val bytes = (read_from val (new_reader bytes)).0.0
