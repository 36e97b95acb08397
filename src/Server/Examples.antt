-- ===== src/Server/Examples.antt =====
-- The handler over codecs that read all but the empty text.
use indexing_service.Prelude.{ℕ, none, refl, ◌≡◌, ◌↔◌, some, List, Option, [], ◌∷◌, Bytes}
use indexing_service.Result.{Result, ok, err, foreign, traverse}
use indexing_service.Server.Setup.{
  Signer, Service, UcantoResponse, Texts, ServeMux, with_service, apply, identity, routes,
  new_server, get_root, post_claims_handler, get_claims_handler,
}
use indexing_service.Server.Posts.{new_server-get_claims_iff}
use indexing_service.Server.{header, body, QueryResult, Libraries}
use indexing_service.Server.Replies.{status}

abbrev read : Bytes → Result Bytes
read [] = err (foreign 1)
read (x ∷ xs) = ok xs

abbrev codecs : Libraries
codecs = record {
  multibase_decode = read;
  parse_did = read;
  encode = λ qr. qr.root;
  invalid_multibase = λ e. 1 ∷ [];
  invalid_did = λ e. 2 ∷ [];
  processing_query = λ e. 3 ∷ [];
}

abbrev found : QueryResult
found = record { root = 5 ∷ []; blocks = [] }

abbrev response : UcantoResponse
response = record {
  headers = ((1 ∷ []), (2 ∷ []) ∷ (3 ∷ []) ∷ []) ∷ ((4 ∷ []), (5 ∷ []) ∷ []) ∷ [];
  status = 201;
  body = 6 ∷ [];
}

abbrev texts : Texts
texts = record { version = []; repository = []; plain = λ d. d; wrapping = λ d e. d }

abbrev always_found : Service ℕ
always_found q w = (ok found, w)

abbrev ucanto : Signer → Result (Bytes → ℕ → Option UcantoResponse × ℕ)
ucanto s = ok (λ r w. (some response, w))

abbrev generated : Result Signer
generated = ok (record { did = 8 ∷ []; unwrapped = none })

abbrev mux : ServeMux ℕ Bytes
mux = record {
  get_root = get_root texts (record { did = 8 ∷ []; unwrapped = none });
  post_claims = post_claims_handler codecs texts generated ucanto (λ r w. (some response, w));
  get_claims = get_claims_handler codecs texts generated ucanto (some always_found);
}

new_server-get_claims_iff_example :
    (status (mux.get_claims ((7 ∷ 8 ∷ []) ∷ []) [] 0).0.0 ≡ some 200) ↔ (
      (hs : List Bytes) × (ss : List Bytes) × (qr : QueryResult) × (traverse codecs.multibase_decode
          ((7 ∷ 8 ∷ []) ∷ [])
        ≡ ok hs)
      × (traverse codecs.parse_did [] ≡ ok ss)
      × (ok found ≡ ok qr)
      × ((mux.get_claims ((7 ∷ 8 ∷ []) ∷ []) [] 0).0
          ≡ (header 200 ∷ body (codecs.encode qr) ∷ [], ok tt)))
unfolding new_server apply identity routes with_service
new_server-get_claims_iff_example =
    new_server-get_claims_iff codecs texts generated ucanto [] always_found mux ((7 ∷ 8 ∷ []) ∷ [])
      [] 0 refl
