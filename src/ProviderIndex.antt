-- ===== src/ProviderIndex.antt =====
-- pkg/service/providerindex/providerindex.go: the provider records of a multihash, from the cache or
-- else from IPNI, narrowed by the kinds of claim and by the spaces asked for.
mod Examples
pub mod Narrowing
pub mod Finding
pub mod Caching
use indexing_service.Prelude.{
  ℕ, Bool, true, false, Option, some, List, [], ◌∷◌, ◌++◌, Bytes, bytes_eq, any, ◌==◌,
  if◌then◌else◌,
}
use indexing_service.Result.{
  Result, ok, err, Err, key_not_found, Io, ◌>>=◌, ◌>>◌, pure, raise, lift, try,
}
use indexing_service.Types.{Cache, ContextId, to_encoded}
use indexing_service.ProviderResults.{ProviderResult}
use indexing_service.Metadata.{MetadataContext}

pub record QueryKey : Type 0 where
  pub spaces : List Bytes
  pub hash : Bytes
  pub target_claims : List ℕ

prepend : ProviderResult → Bool → Result (List ProviderResult) → Result (List ProviderResult)
prepend r include (err e) = err e
prepend r include (ok rs) = if include then ok (r ∷ rs) else ok rs

-- The loop stops at the first error of the test.
filter : (ProviderResult → Result Bool) → List ProviderResult → Result (List ProviderResult)
unfolding prepend
filter test [] = ok []
filter test (r ∷ rs) = elim (test r) [
  | err e ↦ err e
  | ok include ↦ prepend r include (filter test rs)
]

unfoldable pub is_empty : {A : Type 0} → List A → Bool
is_empty [] = true
is_empty (x ∷ xs) = false

module _ {Md : Type 0} (ctx : MetadataContext Md) where
  -- Whether the metadata has a protocol of one of the codes.
  has_codec : List ℕ → ProviderResult → Result Bool
  has_codec codecs r = elim (ctx.unmarshal_binary r.metadata) [
    | err e ↦ err e
    | ok md ↦ ok (any (λ code. any (λ md_code. md_code == code) (ctx.protocols md)) codecs)
  ]

  pub filtered_codecs : List ProviderResult → List ℕ → Result (List ProviderResult)
  unfolding is_empty has_codec filter
  filtered_codecs results codecs =
      if is_empty codecs then ok results else filter (has_codec codecs) results

unfoldable pub has_context_id : List Bytes → ProviderResult → Bool
has_context_id ids r = any (λ id. bytes_eq r.context_id id) ids

-- Without a match the results stay as they are.
matching_or_all : List ProviderResult → Result (List ProviderResult) → Result (List ProviderResult)
matching_or_all results (err e) = err e
matching_or_all results (ok filtered) = if is_empty filtered then ok results else ok filtered

module _ (sum : Bytes → Result Bytes) (did_bytes : Bytes → Bytes) where
  unfoldable pub encode_spaces : Bytes → List Bytes → Result (List Bytes)
  encode_spaces hash [] = ok []
  encode_spaces hash (space ∷ spaces) =
      elim (to_encoded sum did_bytes (record { space = some space; hash = hash })) [
        | err e ↦ err e
        | ok id ↦ elim (encode_spaces hash spaces) [ err e ↦ err e | ok ids ↦ ok (id ∷ ids) ]
      ]

  pub filter_by_space : List ProviderResult → Bytes → List Bytes → Result (List ProviderResult)
  unfolding is_empty has_context_id matching_or_all filter
  filter_by_space results hash spaces =
      if is_empty spaces then ok results else elim (encode_spaces hash spaces) [
        | err e ↦ err e
        | ok ids ↦ matching_or_all results (filter (λ r. ok (has_context_id ids r)) results)
      ]

-- The answer of IPNI: the provider records of each multihash in it.
pub collect : List (List ProviderResult) → List ProviderResult
collect [] = []
collect (rs ∷ rest) = rs ++ collect rest

module _ {W : Type 0} (store : Cache W Bytes (List ProviderResult))
    (find_client : Bytes → Io W (List (List ProviderResult))) where
  query_ipni : Bytes → Io W (List ProviderResult)
  unfolding collect ◌>>=◌
  query_ipni hash = do
    found ← find_client hash
    store.set hash (collect found) true
    pure (collect found)

  -- The error is compared with `!=`, which does not look through wrapping.
  after_read : Bytes → Result (List ProviderResult) → Io W (List ProviderResult)
  unfolding query_ipni
  after_read hash (ok res) = pure res
  after_read hash (err key_not_found) = query_ipni hash
  after_read hash (err e) = raise e

  pub get_provider_results : Bytes → Io W (List ProviderResult)
  unfolding after_read ◌>>=◌
  get_provider_results hash = do res ← try (store.get hash); after_read hash res

  module _ {Md : Type 0} (ctx : MetadataContext Md) (sum : Bytes → Result Bytes)
      (did_bytes : Bytes → Bytes) where
    pub find : QueryKey → Io W (List ProviderResult)
    unfolding ◌>>=◌
    find qk = do
      results ← get_provider_results qk.hash
      narrowed ← lift (filtered_codecs ctx results qk.target_claims)
      lift (filter_by_space sum did_bytes narrowed qk.hash qk.spaces)
