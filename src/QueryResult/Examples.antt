-- ===== src/QueryResult/Examples.antt =====
-- A result with a claim and two indexes, over a block store that is a list.
use indexing_service.Prelude.{◌≡◌, ◌≢◌, refl, some, List, [], ◌∷◌, map, Bytes, bytes_eq}
use indexing_service.Result.{ok, err, nil_dereference}
use indexing_service.ByteMap
use indexing_service.ByteMap.{ByteMap}
use indexing_service.BlobIndex.{ShardedDagIndex}
use indexing_service.QueryResult.{
  Block, QueryResult, Libraries, claims, indexes, write_claims, write_indexes, build_indexes, build,
}
use indexing_service.QueryResult.Links.{AreLinks, indexes-build}

abbrev listing : Libraries Bytes (List Block)
listing = record {
  new_block_store = ok [];
  write_into = λ claim bs. ok (record { link = claim; bytes = [] } ∷ bs);
  put = λ b bs. ok (b ∷ bs);
  claim_link = λ claim. claim;
  archive = λ index. ok index.content;
  sum = λ bytes. ok bytes;
  encode = λ model. ok (record { link = 0 ∷ []; bytes = [] });
}

abbrev one_claim : ByteMap Bytes
one_claim = ((7 ∷ []), (8 ∷ [])) ∷ []

abbrev two_indexes : ByteMap ShardedDagIndex
two_indexes =
    ((1 ∷ []), record { content = 3 ∷ []; shards = [] })
    ∷ ((2 ∷ []), record { content = 4 ∷ []; shards = [] })
    ∷ []

abbrev built : QueryResult (List Block)
built = record {
  root = record { link = 0 ∷ []; bytes = [] };
  model = record {
    claims = (8 ∷ []) ∷ [];
    indexes = some (record {
      keys = (1 ∷ []) ∷ (2 ∷ []) ∷ [];
      values = ((1 ∷ []), (3 ∷ [])) ∷ ((2 ∷ []), (4 ∷ [])) ∷ [];
    });
  };
  blks =
      record { link = 0 ∷ []; bytes = [] }
      ∷ record { link = 4 ∷ []; bytes = 4 ∷ [] }
      ∷ record { link = 3 ∷ []; bytes = 3 ∷ [] }
      ∷ record { link = 8 ∷ []; bytes = [] }
      ∷ [];
}

indexes-build_example :
    (claims built ≡ map (λ e. e.1) one_claim)
    × ((two_indexes ≡ []) → indexes built ≡ err nil_dereference)
    × ((two_indexes ≢ [])
        → (ls : List Bytes) × AreLinks listing two_indexes ls × (indexes built ≡ ok ls))
unfolding build write_claims write_indexes build_indexes ByteMap.size ByteMap.set
    ByteMap.new_byte_map bytes_eq
indexes-build_example =
    indexes-build listing one_claim two_indexes built ((refl, tt), (tt, tt)) refl
