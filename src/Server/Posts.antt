-- ===== src/Server/Posts.antt =====
-- The response of POST /claims, and the routes of a server with a service.
use indexing_service.Prelude.{
  ◌==◌, ◌≡◌, ◌↔◌, ◌∙◌, refl, sym, ap, Bool-cases, inl, inr, Option, none, some, List, [], ◌∷◌, ◌++◌,
  map, Bytes, bytes_eq, if◌then◌else◌, arith,
}
use mathlib.Core.List.{append_assoc}
use indexing_service.Result.{Result, ok, on_ok_lem, ok-injective, traverse}
use indexing_service.Server.{Write, field, header, body, QueryResult, Libraries, get_claims}
use indexing_service.Server.Replies.{status, get_claims_iff}
use indexing_service.Server.Setup.{
  Signer, Service, Config, ServerOption, with_service, apply, UcantoResponse, Texts, fields_of,
  copy_response, ServeMux, get_claims_handler, identity, routes, new_server,
}

-- The values of a key in a response, in order.
abbrev pub values_of : Bytes → List Write → List Bytes
values_of k [] = []
values_of k (field j v ∷ ws) = if bytes_eq k j then v ∷ values_of k ws else values_of k ws
values_of k (header n ∷ ws) = values_of k ws
values_of k (body b ∷ ws) = values_of k ws

-- The bodies of a response, in order.
abbrev pub bodies : List Write → List Bytes
bodies [] = []
bodies (field j v ∷ ws) = bodies ws
bodies (header n ∷ ws) = bodies ws
bodies (body b ∷ ws) = b ∷ bodies ws

-- The values of a key in a header.
abbrev pub header_values : Bytes → List (Bytes × List Bytes) → List Bytes
header_values k [] = []
header_values k ((j, vals) ∷ headers) =
    if bytes_eq k j then vals ++ header_values k headers else header_values k headers

values_of-field :
    (k j : Bytes) (vals : List Bytes) (ws : List Write)
    → values_of k (map (λ v. field j v) vals ++ ws)
      ≡ (if bytes_eq k j then vals ++ values_of k ws else values_of k ws)
values_of-field k j [] ws = ground arith
values_of-field k j (v ∷ vals) ws = ground (arith, values_of-field k j vals ws)

bodies-field :
    (j : Bytes) (vals : List Bytes) (ws : List Write)
    → bodies (map (λ v. field j v) vals ++ ws) ≡ bodies ws
bodies-field j [] ws = refl
bodies-field j (v ∷ vals) ws = bodies-field j vals ws

status-field :
    (j : Bytes) (vals : List Bytes) (ws : List Write)
    → status (map (λ v. field j v) vals ++ ws) ≡ status ws
unfolding status
status-field j [] ws = refl
status-field j (v ∷ vals) ws = status-field j vals ws

values_of-fields_of :
    (k : Bytes) (headers : List (Bytes × List Bytes)) (ws : List Write)
    → values_of k ws ≡ []
    → values_of k (fields_of headers ++ ws) ≡ header_values k headers
unfolding fields_of
values_of-fields_of k [] ws e = e
values_of-fields_of k ((j, vals) ∷ headers) ws e =
    rw (append_assoc (map (λ v. field j v) vals) (fields_of headers) ws) (
      values_of-field k j vals (fields_of headers ++ ws)
      ∙ rw (values_of-fields_of k headers ws e) refl)

bodies-fields_of :
    (headers : List (Bytes × List Bytes)) (ws : List Write)
    → bodies (fields_of headers ++ ws) ≡ bodies ws
unfolding fields_of
bodies-fields_of [] ws = refl
bodies-fields_of ((j, vals) ∷ headers) ws =
    rw (append_assoc (map (λ v. field j v) vals) (fields_of headers) ws)
      (bodies-field j vals (fields_of headers ++ ws) ∙ bodies-fields_of headers ws)

status-fields_of :
    (headers : List (Bytes × List Bytes)) (ws : List Write)
    → status (fields_of headers ++ ws) ≡ status ws
unfolding fields_of
status-fields_of [] ws = refl
status-fields_of ((j, vals) ∷ headers) ws =
    rw (append_assoc (map (λ v. field j v) vals) (fields_of headers) ws)
      (status-field j vals (fields_of headers ++ ws) ∙ status-fields_of headers ws)

-- When the ucanto server gives a response, POST /claims passes it on: each key of the header with
-- its values in their order, the status unless that is 0, and the body.
pub copy_response_lem :
    (res : UcantoResponse) (k : Bytes)
    → (values_of k (copy_response (some res)).0 ≡ header_values k res.headers)
      × (status (copy_response (some res)).0 ≡ (if res.status == 0 then none else some res.status))
      × (bodies (copy_response (some res)).0 ≡ res.body ∷ [])
      × ((copy_response (some res)).1 ≡ ok tt)
unfolding copy_response status
copy_response_lem res k = elim (Bool-cases (res.status == 0)) [
  | inl e ↦ rw e (
    values_of-fields_of k res.headers (body res.body ∷ []) refl,
    status-fields_of res.headers (body res.body ∷ []),
    bodies-fields_of res.headers (body res.body ∷ []),
    refl,
  )
  | inr e ↦ rw e (
    values_of-fields_of k res.headers (header res.status ∷ body res.body ∷ []) refl,
    status-fields_of res.headers (header res.status ∷ body res.body ∷ []),
    bodies-fields_of res.headers (header res.status ∷ body res.body ∷ []),
    refl,
  )
]

apply-append :
    {W : Type 0} (opts more : List (ServerOption W)) (c : Config W)
    → apply (opts ++ more) c ≡ apply more (apply opts c)
unfolding apply
apply-append [] more c = refl
apply-append (opt ∷ opts) more c = apply-append opts more (opt c)

module _ {W Request : Type 0} (libs : Libraries) (texts : Texts) (generate : Result Signer)
    (ucanto : Signer → Result (Request → W → Option UcantoResponse × W)) where
  new_server-service :
      (opts : List (ServerOption W)) (service : Service W) (mux : ServeMux W Request)
      → new_server libs texts generate ucanto (opts ++ with_service service ∷ []) ≡ ok mux
      → mux.get_claims ≡ get_claims libs service
  unfolding new_server routes get_claims_handler with_service apply
  new_server-service opts service mux e =
      let blank : Config W = record { id = none; service = none } in
      let last = apply-append opts (with_service service ∷ []) blank in
      let c = apply (opts ++ with_service service ∷ []) blank in
      let (id, f, g) =
        on_ok_lem (identity libs texts generate ucanto c.id) (routes libs texts generate ucanto c)
          mux e in
      let (server, h, k) = on_ok_lem (ucanto id) _ mux g in
      sym (ap (λ m. m.get_claims) (ok-injective k))
      ∙ ap (λ c. get_claims_handler libs texts generate ucanto c.service) last

  -- In a server whose last option is a service, whatever the options before it, GET /claims
  -- answers 200 exactly if all hashes and spaces can be read and the service finds a result; the
  -- response is then the CAR of that result, and the handler ends well.
  pub new_server-get_claims_iff :
      (opts : List (ServerOption W)) (service : Service W) (mux : ServeMux W Request)
      (mhs spaces : List Bytes) (w : W)
      → new_server libs texts generate ucanto (opts ++ with_service service ∷ []) ≡ ok mux
      → (status (mux.get_claims mhs spaces w).0.0 ≡ some 200) ↔ (
          (hs : List Bytes) × (ss : List Bytes) × (qr : QueryResult) × (traverse
              libs.multibase_decode mhs
            ≡ ok hs)
          × (traverse libs.parse_did spaces ≡ ok ss)
          × ((service (record { hashes = hs; match = record { subject = ss } }) w).0 ≡ ok qr)
          × ((mux.get_claims mhs spaces w).0 ≡ (header 200 ∷ body (libs.encode qr) ∷ [], ok tt)))
  new_server-get_claims_iff opts service mux mhs spaces w e =
      rw (new_server-service opts service mux e) (get_claims_iff libs service mhs spaces w)
