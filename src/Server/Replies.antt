-- ===== src/Server/Replies.antt =====
-- The status and the end of the handler of GET /claims.
use indexing_service.Prelude.{ℕ, ◌≡◌, ◌↔◌, refl, Option, some, none, List, [], ◌∷◌, Bytes, arith}
use indexing_service.Result.{Result, ok, err, Err, nil_dereference, Io, traverse}
use indexing_service.Service.Jobs.{Query}
use indexing_service.Server.{
  http_error, Write, field, header, body, QueryResult, Libraries, reply, asked, decoded, get_claims,
}

-- The status of a response.
unfoldable pub status : List Write → Option ℕ
status [] = none
status (header n ∷ ws) = some n
status (body b ∷ ws) = status ws
status (field k v ∷ ws) = status ws

module _ {W : Type 0} (libs : Libraries) (query : Query → Io W QueryResult) where
  -- The handler answers 200 with the CAR of the result exactly if all hashes and spaces can be
  -- read and Query succeeds, and it then ends well.
  pub get_claims_iff :
      (mhs spaces : List Bytes) (w : W)
      → (status (get_claims libs query mhs spaces w).0.0 ≡ some 200) ↔ (
          (hs : List Bytes) × (ss : List Bytes) × (qr : QueryResult) × (traverse
              libs.multibase_decode mhs
            ≡ ok hs)
          × (traverse libs.parse_did spaces ≡ ok ss)
          × ((query (record { hashes = hs; match = record { subject = ss } }) w).0 ≡ ok qr)
          × ((get_claims libs query mhs spaces w).0
              ≡ (header 200 ∷ body (libs.encode qr) ∷ [], ok tt)))
  unfolding get_claims decoded asked reply status
  get_claims_iff mhs spaces w =
      (forth (traverse libs.multibase_decode mhs), λ (hs, ss, qr, a, b, c, d). rw d refl)
    where
      at_end :
          (hs ss : List Bytes) (r : Result QueryResult)
          → (query (record { hashes = hs; match = record { subject = ss } }) w).0 ≡ r
          → status (reply libs query r).0 ≡ some 200
          → (qr : QueryResult) × ((query
                (record { hashes = hs; match = record { subject = ss } })
                w).0
              ≡ ok qr)
            × (reply libs query r ≡ (header 200 ∷ body (libs.encode qr) ∷ [], ok tt))
      at_end hs ss (ok qr) e h = (qr, e, refl)
      at_end hs ss (err x) e h = ground arith

      with_spaces :
          (hs : List Bytes) (r : Result (List Bytes))
          → status (asked libs query hs r w).0.0 ≡ some 200
          → (ss : List Bytes) × (qr : QueryResult) × (r ≡ ok ss)
            × ((query (record { hashes = hs; match = record { subject = ss } }) w).0 ≡ ok qr)
            × ((asked libs query hs r w).0 ≡ (header 200 ∷ body (libs.encode qr) ∷ [], ok tt))
      with_spaces hs (err x) h = ground arith
      with_spaces hs (ok ss) h = let (qr, e, f) = at_end hs ss _ refl h in (ss, qr, refl, e, f)

      forth :
          (r : Result (List Bytes))
          → status (decoded libs query r spaces w).0.0 ≡ some 200
          → (hs : List Bytes) × (ss : List Bytes) × (qr : QueryResult) × (r ≡ ok hs)
            × (traverse libs.parse_did spaces ≡ ok ss)
            × ((query (record { hashes = hs; match = record { subject = ss } }) w).0 ≡ ok qr)
            × ((decoded libs query r spaces w).0 ≡ (header 200 ∷ body (libs.encode qr) ∷ [], ok tt))
      forth (err x) h = ground arith
      forth (ok hs) h =
          let (ss, qr, e, f, g) = with_spaces hs (traverse libs.parse_did spaces) h in
          (hs, ss, qr, refl, e, f, g)

  -- The handler panics exactly if all hashes and spaces can be read and Query fails; the response is
  -- then the error, with status 400.
  pub get_claims_panics :
      (mhs spaces hs ss : List Bytes) (e : Err) (w : W)
      → traverse libs.multibase_decode mhs ≡ ok hs
      → traverse libs.parse_did spaces ≡ ok ss
      → (query (record { hashes = hs; match = record { subject = ss } }) w).0 ≡ err e
      → (get_claims libs query mhs spaces w).0
        ≡ (http_error 400 (libs.processing_query e), err nil_dereference)
  unfolding get_claims decoded asked reply
  get_claims_panics mhs spaces hs ss e w a b c = rw a (rw b (rw c refl))
