-- ===== src/Service/Instance.antt =====
-- The service as NewIndexingService makes it, and its methods that are not implemented.
use indexing_service.Prelude.{ℕ, List, [], ◌∷◌}
use indexing_service.Result.{err, not_implemented, Io}
use indexing_service.ProviderResults.{ProviderResult}
use indexing_service.BlobIndexLookup.{BlobIndexLookup}
use indexing_service.ClaimLookup.{ClaimLookup}
use indexing_service.ProviderIndex.{QueryKey}
use indexing_service.Service.Handler.{IndexingService}

-- The walker of the field jobWalker: of package singlewalk, or of parallelwalk with a concurrency.
pub data Walker : Type 0 where
  single_walk : Walker
  parallel_walk : ℕ → Walker

pub record Instance (S Claim : Type 0) : Type 0 where
  pub services : IndexingService S Claim
  pub job_walker : Walker

abbrev pub Option : Type 0 → Type 0 → Type 0
Option S Claim = Instance S Claim → Instance S Claim

module _ {S Claim : Type 0} where
  unfoldable pub with_concurrency : ℕ → Option S Claim
  with_concurrency concurrency is = record is { job_walker = parallel_walk concurrency }

  unfoldable pub apply : List (Option S Claim) → Instance S Claim → Instance S Claim
  apply [] is = is
  apply (option ∷ options) is = apply options (option is)

  unfoldable pub new_indexing_service :
      BlobIndexLookup S
      → ClaimLookup S Claim
      → (QueryKey → Io S (List ProviderResult))
      → List (Option S Claim)
      → Instance S Claim
  unfolding apply
  new_indexing_service blob_index_lookup claim_lookup provider_index options =
      apply options (record {
        services = record {
          blob_index_lookup = blob_index_lookup;
          claim_lookup = claim_lookup;
          provider_index = provider_index;
        };
        job_walker = single_walk;
      })

  -- Both fail and change nothing.
  pub cache_claim : Instance S Claim → Claim → Io S (Unit {0})
  cache_claim is claim s = (err not_implemented, s)

  pub publish_claim : Instance S Claim → Claim → Io S (Unit {0})
  publish_claim is claim s = (err not_implemented, s)
