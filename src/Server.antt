-- ===== src/Server.antt =====
-- pkg/server/server.go: the handler of GET /claims.
mod Examples
pub mod Replies
pub mod Setup
pub mod Posts
use indexing_service.Prelude.{ℕ, List, [], ◌∷◌, ◌++◌, Bytes}
use indexing_service.Result.{Result, ok, err, Err, nil_dereference, Io, traverse}
use indexing_service.Service.Jobs.{Query}

-- What a handler writes to the response: header fields, a status line, and bodies. Of the statuses
-- that are written, the first counts.
pub data Write : Type 0 where
  field : Bytes → Bytes → Write
  header : ℕ → Write
  body : Bytes → Write

-- What Query returns, up to the methods of a query result that the handler calls.
pub record QueryResult : Type 0 where
  pub root : Bytes
  pub blocks : List Bytes

-- `multibase_decode` and `parse_did` read the parameters, `encode` writes a CAR, and the texts of
-- http.Error are those of the three messages.
pub record Libraries : Type 0 where
  pub multibase_decode : Bytes → Result Bytes
  pub parse_did : Bytes → Result Bytes
  pub encode : QueryResult → Bytes
  pub invalid_multibase : Err → Bytes
  pub invalid_did : Err → Bytes
  pub processing_query : Err → Bytes

abbrev content_type : Bytes
content_type =
    b'C' ∷ b'o' ∷ b'n' ∷ b't' ∷ b'e' ∷ b'n' ∷ b't' ∷ b'-' ∷ b'T' ∷ b'y' ∷ b'p' ∷ b'e' ∷ []

abbrev plain_text : Bytes
plain_text =
    b't' ∷ b'e' ∷ b'x' ∷ b't' ∷ b'/' ∷ b'p' ∷ b'l' ∷ b'a' ∷ b'i' ∷ b'n' ∷ b';' ∷ b' ' ∷ b'c' ∷ b'h'
    ∷ b'a' ∷ b'r' ∷ b's' ∷ b'e' ∷ b't' ∷ b'=' ∷ b'u' ∷ b't' ∷ b'f' ∷ b'-' ∷ b'8' ∷ []

abbrev x_content_type_options : Bytes
x_content_type_options =
    b'X' ∷ b'-' ∷ b'C' ∷ b'o' ∷ b'n' ∷ b't' ∷ b'e' ∷ b'n' ∷ b't' ∷ b'-' ∷ b'T' ∷ b'y' ∷ b'p' ∷ b'e'
    ∷ b'-' ∷ b'O' ∷ b'p' ∷ b't' ∷ b'i' ∷ b'o' ∷ b'n' ∷ b's' ∷ []

abbrev nosniff : Bytes
nosniff = b'n' ∷ b'o' ∷ b's' ∷ b'n' ∷ b'i' ∷ b'f' ∷ b'f' ∷ []

-- http.Error: two header fields, the status, and the text with a line feed.
abbrev pub http_error : ℕ → Bytes → List Write
http_error status text =
    field content_type plain_text
    ∷ field x_content_type_options nosniff
    ∷ header status
    ∷ body (text ++ 10 ∷ [])
    ∷ []

module _ {W : Type 0} (libs : Libraries) (query : Query → Io W QueryResult) where
  -- After an error the handler goes on with a nil result.
  reply : Result QueryResult → List Write × Result (Unit {0})
  reply (err e) = (http_error 400 (libs.processing_query e), err nil_dereference)
  reply (ok qr) = (header 200 ∷ body (libs.encode qr) ∷ [], ok tt)

  asked : List Bytes → Result (List Bytes) → W → (List Write × Result (Unit {0})) × W
  unfolding reply
  asked hashes (err e) w = ((http_error 400 (libs.invalid_did e), ok tt), w)
  asked hashes (ok spaces) w =
      let (result, w') =
        query (record { hashes = hashes; match = record { subject = spaces } }) w in
      (reply result, w')

  decoded : Result (List Bytes) → List Bytes → W → (List Write × Result (Unit {0})) × W
  unfolding asked
  decoded (err e) space_strings w = ((http_error 400 (libs.invalid_multibase e), ok tt), w)
  decoded (ok hashes) space_strings w = asked hashes (traverse libs.parse_did space_strings) w

  -- The handler for the values of the parameters `multihash` and `spaces`: what it writes, and
  -- whether it panics.
  pub get_claims : List Bytes → List Bytes → W → (List Write × Result (Unit {0})) × W
  unfolding decoded
  get_claims mh_strings space_strings w =
      decoded (traverse libs.multibase_decode mh_strings) space_strings w
