-- ===== src/Service/Url.antt =====
-- The URL of a claim or a shard at a provider, with the parts of Go's `strings` that it uses.
mod Examples
pub mod First
use indexing_service.Prelude.{
  ℕ, zero, suc, ◌-◌, Bool, true, false, ◌&&◌, ◌||◌, ◌==◌, List, [], ◌∷◌, ◌++◌, Bytes, bytes_eq,
  length,
}
use indexing_service.Result.{Result, ok, err, no_claim_endpoint}
use indexing_service.ProviderResults.{AddrInfo}

-- A URL: the parts that the code reads, and the rest.
pub record Url : Type 0 where
  pub scheme : Bytes
  pub path : Bytes
  pub rest : Bytes

unfoldable pub is_prefix : Bytes → Bytes → Bool
is_prefix [] ys = true
is_prefix (x ∷ xs) [] = false
is_prefix (x ∷ xs) (y ∷ ys) = x == y && is_prefix xs ys

-- strings.Contains.
unfoldable pub contains : Bytes → Bytes → Bool
unfolding is_prefix
contains [] part = is_prefix part []
contains (x ∷ xs) part = is_prefix part (x ∷ xs) || contains xs part

-- strings.ReplaceAll for an `old` that is not empty; the number counts what is left of a match.
replace_from : ℕ → Bytes → Bytes → Bytes → Bytes
unfolding is_prefix
replace_from skip [] old new = []
replace_from (suc skip) (x ∷ xs) old new = replace_from skip xs old new
replace_from zero (x ∷ xs) old new = elim (is_prefix old (x ∷ xs)) [
  | true ↦ new ++ replace_from (length old - 1) xs old new
  | false ↦ x ∷ replace_from zero xs old new
]

unfoldable pub replace_all : Bytes → Bytes → Bytes → Bytes
unfolding replace_from
replace_all s old new = replace_from zero s old new

abbrev pub http : Bytes
http = b'h' ∷ b't' ∷ b't' ∷ b'p' ∷ []

abbrev pub https : Bytes
https = b'h' ∷ b't' ∷ b't' ∷ b'p' ∷ b's' ∷ []

abbrev pub claim_part : Bytes
claim_part = b'{' ∷ b'c' ∷ b'l' ∷ b'a' ∷ b'i' ∷ b'm' ∷ b'}' ∷ []

abbrev pub shard_part : Bytes
shard_part = b'{' ∷ b's' ∷ b'h' ∷ b'a' ∷ b'r' ∷ b'd' ∷ b'}' ∷ []

-- Whether a URL has a place for the resource.
unfoldable pub has_place : Url → Bytes → Bool
unfolding contains
has_place url resource_type =
    (bytes_eq url.scheme http || bytes_eq url.scheme https) && contains url.path resource_type

module _ (to_url : Bytes → Result Url) where
  -- `to_url` is maurl.ToURL.
  find_url : List Bytes → Bytes → Bytes → Result Url
  unfolding has_place
  find_url [] resource_type resource_id = err no_claim_endpoint
  find_url (addr ∷ addrs) resource_type resource_id = elim (to_url addr) [
    | err e ↦ find_url addrs resource_type resource_id
    | ok url ↦ elim (has_place url resource_type) [
      | true ↦ ok (record url { path = replace_all url.path resource_type resource_id })
      | false ↦ find_url addrs resource_type resource_id
    ]
  ]

  unfoldable pub url_for_resource : AddrInfo → Bytes → Bytes → Result Url
  unfolding find_url
  url_for_resource provider resource_type resource_id =
      find_url provider.addrs resource_type resource_id

  -- `cid_string` is the method String of a CID.
  module _ (cid_string : Bytes → Bytes) where
    unfoldable pub fetch_claim_url : AddrInfo → Bytes → Result Url
    fetch_claim_url provider claim_cid = url_for_resource provider claim_part (cid_string claim_cid)

    unfoldable pub fetch_retrieval_url : AddrInfo → Bytes → Result Url
    fetch_retrieval_url provider shard = url_for_resource provider shard_part (cid_string shard)
