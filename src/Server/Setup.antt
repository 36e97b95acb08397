-- ===== src/Server/Setup.antt =====
-- The set-up of the server: its options, its identity and its routes, and the handlers of GET / and
-- POST /claims.
use indexing_service.Prelude.{
  ℕ, ◌==◌, Bool, Option, none, some, List, [], ◌∷◌, ◌++◌, map, Bytes, if◌then◌else◌,
}
use indexing_service.Result.{Result, ok, err, Err, nil_dereference, Io, on_ok, traverse}
use indexing_service.Service.Jobs.{Query}
use indexing_service.Server.{
  Write, field, header, body, QueryResult, Libraries, http_error, get_claims,
}

-- A principal.Signer: its DID, and for a WrappedSigner the DID of the signer inside.
pub record Signer : Type 0 where
  pub did : Bytes
  pub unwrapped : Option Bytes

-- The part of a service that the server calls.
abbrev pub Service : Type 0 → Type 0
Service W = Query → Io W QueryResult

pub record Config (W : Type 0) : Type 0 where
  pub id : Option Signer
  pub service : Option (Service W)

abbrev pub ServerOption : Type 0 → Type 0
ServerOption W = Config W → Config W

module _ {W : Type 0} where
  unfoldable pub with_identity : Signer → ServerOption W
  with_identity s c = record c { id = some s }

  unfoldable pub with_service : Service W → ServerOption W
  with_service service c = record c { service = some service }

  unfoldable pub apply : List (ServerOption W) → Config W → Config W
  apply [] c = c
  apply (opt ∷ opts) c = apply opts (opt c)

-- The response of the ucanto server; its header maps keys to lists of values.
pub record UcantoResponse : Type 0 where
  pub headers : List (Bytes × List Bytes)
  pub status : ℕ
  pub body : Bytes

-- The texts of GET /: the lines of the version and of the repository, and the last line for a DID,
-- and for a DID with the one inside.
pub record Texts : Type 0 where
  pub version : Bytes
  pub repository : Bytes
  pub plain : Bytes → Bytes
  pub wrapping : Bytes → Bytes → Bytes

unfoldable pub get_root : Texts → Signer → List Write
get_root texts s = body texts.version ∷ body texts.repository ∷ (elim s.unwrapped [
  | none ↦ body (texts.plain s.did) ∷ []
  | some inner ↦ body (texts.wrapping s.did inner) ∷ []
])

unfoldable pub fields_of : List (Bytes × List Bytes) → List Write
fields_of [] = []
fields_of ((key, vals) ∷ headers) = map (λ v. field key v) vals ++ fields_of headers

-- What the handler of POST /claims writes, or its panic: the error of the ucanto server is dropped,
-- and without a response the handler dereferences nil.
unfoldable pub copy_response : Option UcantoResponse → List Write × Result (Unit {0})
unfolding fields_of
copy_response none = ([], err nil_dereference)
copy_response (some res) = (
  fields_of res.headers
      ++ ((if res.status == 0 then [] else header res.status ∷ []) ++ body res.body ∷ []),
  ok tt,
)

-- The routes of the server.
pub record ServeMux (W Request : Type 0) : Type 0 where
  pub get_root : List Write
  pub post_claims : Request → W → (List Write × Result (Unit {0})) × W
  pub get_claims : List Bytes → List Bytes → W → (List Write × Result (Unit {0})) × W

abbrev ended : {W : Type 0} → (Err → Bool) → Result (Unit {0}) × W → Result (Unit {0}) × W
ended is_server_closed (ok u, w) = (ok u, w)
ended is_server_closed (err e, w) = if is_server_closed e then (ok tt, w) else (err e, w)

module _ {W Request : Type 0} (libs : Libraries) (texts : Texts) (generate : Result Signer)
    (ucanto : Signer → Result (Request → W → Option UcantoResponse × W)) where
  -- Without a service the handler of GET /claims dereferences nil where it would query.
  unfoldable pub get_claims_without : List Bytes → List Bytes → List Write × Result (Unit {0})
  get_claims_without mh_strings space_strings = elim (traverse libs.multibase_decode mh_strings) [
    | err e ↦ (http_error 400 (libs.invalid_multibase e), ok tt)
    | ok hashes ↦ elim (traverse libs.parse_did space_strings) [
      | err e ↦ (http_error 400 (libs.invalid_did e), ok tt)
      | ok spaces ↦ ([], err nil_dereference)
    ]
  ]

  unfoldable pub get_claims_handler :
      Option (Service W) → List Bytes → List Bytes → W → (List Write × Result (Unit {0})) × W
  unfolding get_claims_without
  get_claims_handler none mh_strings space_strings w =
      (get_claims_without mh_strings space_strings, w)
  get_claims_handler (some service) mh_strings space_strings w =
      get_claims libs service mh_strings space_strings w

  unfoldable pub post_claims_handler :
      (Request → W → Option UcantoResponse × W) → Request → W → (List Write × Result (Unit {0})) × W
  unfolding copy_response
  post_claims_handler server r w = let (res, w') = server r w in (copy_response res, w')

  -- A server without an identity generates one.
  unfoldable pub identity : Option Signer → Result Signer
  identity none = generate
  identity (some s) = ok s

  unfoldable pub routes : Config W → Signer → Result (ServeMux W Request)
  unfolding get_root post_claims_handler get_claims_handler
  routes c id = on_ok (ucanto id) λ server. ok (record {
    get_root = get_root texts id;
    post_claims = post_claims_handler server;
    get_claims = get_claims_handler c.service;
  })

  -- An error is a panic, or the end of the process, before anything is served.
  unfoldable pub new_server : List (ServerOption W) → Result (ServeMux W Request)
  unfolding apply identity routes
  new_server opts =
      let c = apply opts (record { id = none; service = none }) in on_ok (identity c.id) (routes c)

  -- `serve` is the method ListenAndServe of http.Server, whose end by ErrServerClosed is no error.
  unfoldable pub listen_and_serve :
      (Bytes → ServeMux W Request → Io W (Unit {0}))
      → (Err → Bool)
      → Bytes
      → List (ServerOption W)
      → Io W (Unit {0})
  unfolding new_server
  listen_and_serve serve is_server_closed addr opts w = elim (new_server opts) [
    | err e ↦ (err e, w)
    | ok mux ↦ ended is_server_closed (serve addr mux w)
  ]
