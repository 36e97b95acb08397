-- ===== src/QueryResult.antt =====
-- pkg/service/queryresult/queryresult.go: the encodable result of a query.
mod Examples
pub mod Links
use indexing_service.Prelude.{
  ℕ, Bool, Option, none, some, List, [], ◌∷◌, ◌++◌, map, Bytes, ltb, if◌then◌else◌,
}
use indexing_service.Result.{Result, ok, err, nil_dereference, on_ok}
use indexing_service.ByteMap
use indexing_service.ByteMap.{ByteMap}
use indexing_service.BlobIndex.{ShardedDagIndex}

-- A block by its link and its bytes.
pub record Block : Type 0 where
  pub link : Bytes
  pub bytes : Bytes

-- IndexesModel and QueryResultModel0_1 of the data model.
pub record IndexesModel : Type 0 where
  pub keys : List Bytes
  pub values : ByteMap Bytes

pub record QueryResultModel : Type 0 where
  pub claims : List Bytes
  pub indexes : Option IndexesModel

-- `Blocks` is a block store.
pub record QueryResult (Blocks : Type 0) : Type 0 where
  pub root : Block
  pub model : QueryResultModel
  pub blks : Blocks

-- What Build calls: the block store, with WriteInto for a claim; the link of a claim; the archive of
-- an index, read to its end; the CID of version 1 of bytes under SHA2_256; the encoding of the root.
pub record Libraries (Claim Blocks : Type 0) : Type 0 where
  pub new_block_store : Result Blocks
  pub write_into : Claim → Blocks → Result Blocks
  pub put : Block → Blocks → Result Blocks
  pub claim_link : Claim → Bytes
  pub archive : ShardedDagIndex → Result Bytes
  pub sum : Bytes → Result Bytes
  pub encode : QueryResultModel → Result Block

-- The links to the values of the keys that have one, in the order of the keys.
links_of : List Bytes → ByteMap Bytes → List Bytes
links_of [] values = []
links_of (k ∷ keys) values = elim (ByteMap.lookup values k) [
  | none ↦ links_of keys values
  | some l ↦ l ∷ links_of keys values
]

model_indexes : Option IndexesModel → Result (List Bytes)
unfolding links_of
model_indexes none = err nil_dereference
model_indexes (some m) = ok (links_of m.keys m.values)

-- The methods Claims and Indexes of a query result.
pub claims : {Blocks : Type 0} → QueryResult Blocks → List Bytes
claims q = q.model.claims

pub indexes : {Blocks : Type 0} → QueryResult Blocks → Result (List Bytes)
unfolding model_indexes
indexes q = model_indexes q.model.indexes

module _ {Claim Blocks : Type 0} (libs : Libraries Claim Blocks) where
  -- The loop over the claims: each is written into the store, and its link is listed.
  write_claims : List (Bytes × Claim) → Blocks → List Bytes → Result (Blocks × List Bytes)
  write_claims [] bs cls = ok (bs, cls)
  write_claims ((cid, claim) ∷ entries) bs cls =
      on_ok (libs.write_into claim bs)
        λ bs'. write_claims entries bs' (cls ++ libs.claim_link claim ∷ [])

  -- The loop over the indexes.
  write_indexes :
      List (Bytes × ShardedDagIndex) → Blocks → IndexesModel → Result (Blocks × IndexesModel)
  write_indexes [] bs model = ok (bs, model)
  write_indexes ((context_id, index) ∷ entries) bs model = on_ok (libs.archive index) λ bytes.
      on_ok (libs.sum bytes) λ lnk.
        on_ok (libs.put (record { link = lnk; bytes = bytes }) bs) λ bs'.
          write_indexes entries bs' (record {
            keys = model.keys ++ context_id ∷ [];
            values = ByteMap.set model.values context_id lnk;
          })

  abbrev pub with_model : Result (Blocks × IndexesModel) → Result (Blocks × Option IndexesModel)
  with_model r = on_ok r λ (bs, model). ok (bs, some model)

  -- Without indexes there is no model of them.
  build_indexes : ByteMap ShardedDagIndex → Blocks → Result (Blocks × Option IndexesModel)
  unfolding write_indexes
  build_indexes indexes bs =
      if ltb 0 (ByteMap.size indexes)
      then with_model (
          write_indexes (ByteMap.iterator indexes) bs
            (record { keys = []; values = ByteMap.new_byte_map }))
      else ok (bs, none)

  pub build : ByteMap Claim → ByteMap ShardedDagIndex → Result (QueryResult Blocks)
  unfolding write_claims build_indexes
  build claims indexes = on_ok libs.new_block_store λ bs.
      on_ok (write_claims (ByteMap.iterator claims) bs []) λ (bs₁, cls).
        on_ok (build_indexes indexes bs₁) λ (bs₂, indexes_model).
          let model : QueryResultModel = record { claims = cls; indexes = indexes_model } in
          on_ok (libs.encode model) λ rt.
            on_ok (libs.put rt bs₂) λ bs₃. ok (record { root = rt; model = model; blks = bs₃ })
