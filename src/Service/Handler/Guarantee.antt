-- ===== src/Service/Handler/Guarantee.antt =====
-- What a job handler does to the state of a query, among other handlers that do the same.
use indexing_service.Prelude.{◌≡◌, ◌⊎◌, inl, inr, Bool, true, false, Option, List, ℕ, Bytes}
use indexing_service.Result.{ok, Io}
use indexing_service.ProviderResults.{ProviderResult}
use indexing_service.BlobIndex.{ShardedDagIndex}
use indexing_service.BlobIndexLookup.{Range}
use indexing_service.ProviderIndex.{QueryKey}
use indexing_service.Metadata.{Protocol}
use indexing_service.JobWalker.{WrappedState}
use indexing_service.JobWalker.Ensures.{Keeps}
use indexing_service.Service.Jobs.{
  Job, QueryState, first_visit, visit, claim_missing, add_claim, index_missing, add_index,
}
use indexing_service.Service.Changes.{
  Change, visits_job, adds_claim, adds_index, Changes, unchanged, and_then, Changes-trans,
}
use indexing_service.Service.Handler.{
  Libraries, IndexingService, follow, handle_protocols, handle_results, handle_visit, job_handler,
}
use indexing_service.Service.Handler.Kept.{
  Kept, Keeps-follow, Keeps-handle_protocols, Keeps-handle_results, Keeps-handle_visit,
  Keeps-job_handler,
}

module _ {S Claim : Type 0} (Good : Bytes → Claim → Type 0)
    (GoodIndex : Bytes → ShardedDagIndex → Type 0) (is : IndexingService S Claim)
    (state : WrappedState S (QueryState Claim)) (spawn : Job → Io S (Unit {0}))
    (view : S → QueryState Claim) where
  abbrev pub Reaches : S → S → Type 0
  Reaches s s' = Changes Good GoodIndex (view s) (view s')

  -- What other handlers may do while a call is made: changes only. A compare-and-swap meets a state
  -- after such changes, and then tests and changes it in one step. A claim lookup gives a claim meant
  -- for its CID, an index lookup an index meant for its context id.
  pub record Environment : Type 0 where
    pub access_lem : (s : S) → Reaches s (state.access s).1
    pub provider_index_lem : (qk : QueryKey) (s : S) → Reaches s (is.provider_index qk s).1
    pub claim_lookup_lem : (cid url : Bytes) (s : S) → Reaches s (is.claim_lookup cid url s).1
    pub claim_lookup-Good :
        (cid url : Bytes) (s : S) (claim : Claim)
        → (is.claim_lookup cid url s).0 ≡ ok claim
        → Good cid claim
    pub blob_index_lookup_lem :
        (id : Bytes) (p : ProviderResult) (url : Bytes) (rng : Option Range) (s : S)
        → Reaches s (is.blob_index_lookup id p url rng s).1
    pub blob_index_lookup-GoodIndex :
        (id : Bytes) (p : ProviderResult) (url : Bytes) (rng : Option Range) (s : S)
        (index : ShardedDagIndex)
        → (is.blob_index_lookup id p url rng s).0 ≡ ok index
        → GoodIndex id index
    pub spawn_lem : (j : Job) (s : S) → Reaches s (spawn j s).1
    pub cmp_swap_lem :
        (test : QueryState Claim → Bool) (change : QueryState Claim → QueryState Claim) (s : S)
        → (met : QueryState Claim) × Changes Good GoodIndex (view s) met
          × ((test met ≡ true)
                × (view (state.cmp_swap test change s).1 ≡ change met)
                × ((state.cmp_swap test change s).0 ≡ ok true)
              ⊎ (test met ≡ false)
                × (view (state.cmp_swap test change s).1 ≡ met)
                × ((state.cmp_swap test change s).0 ≡ ok false))

  module _ {Md : Type 0} (libs : Libraries Md) (env : Environment) where
    -- A state that is reached from `start` by changes.
    abbrev pub From : S → S → Type 0
    From start s = Reaches start s

    Keeps-call :
        {A : Type 0} (start : S) (m : Io S A) → ((s : S) → Reaches s (m s).1) → Keeps (From start) m
    Keeps-call start m f = record {
      keeps = λ s h. Changes-trans Good GoodIndex h (f s);
      gives = λ s h a e. tt;
    }

    -- A compare-and-swap whose change is allowed where its test holds.
    Keeps-cmp_swap :
        (start : S) (test : QueryState Claim → Bool) (change : QueryState Claim → QueryState Claim)
        → ((q : QueryState Claim) → test q ≡ true → Change Good GoodIndex q (change q))
        → Keeps (From start) (state.cmp_swap test change)
    Keeps-cmp_swap start test change allowed = Keeps-call start (state.cmp_swap test change) swapped
      where
        swapped : (s : S) → Reaches s (state.cmp_swap test change s).1
        swapped s =
            let (met, r, cases) = env.cmp_swap_lem test change s in
            elim cases [
              | inl (t, e, f) ↦ rw e (and_then r (allowed met t))
              | inr (t, e, f) ↦ rw e r
            ]

    environment_kept : (start : S) → Kept Good GoodIndex is state spawn (From start)
    environment_kept start = record {
      access_kept = Keeps-call start _ env.access_lem;
      provider_index_kept = λ qk. Keeps-call start _ (env.provider_index_lem qk);
      claim_lookup_kept = λ cid url. record {
        keeps = λ s h. Changes-trans Good GoodIndex h (env.claim_lookup_lem cid url s);
        gives = λ s h claim e. env.claim_lookup-Good cid url s claim e;
      };
      blob_index_lookup_kept = λ id p url rng. record {
        keeps = λ s h. Changes-trans Good GoodIndex h (env.blob_index_lookup_lem id p url rng s);
        gives = λ s h index e. env.blob_index_lookup-GoodIndex id p url rng s index e;
      };
      spawn_kept = λ j. Keeps-call start _ (env.spawn_lem j);
      visit_kept = λ j. Keeps-cmp_swap start (first_visit j) (visit j) (λ q t. visits_job j t);
      claim_kept = λ cid claim good.
          Keeps-cmp_swap start (claim_missing cid) (add_claim cid claim)
            (λ q t. adds_claim cid claim t good);
      index_kept = λ id index good.
          Keeps-cmp_swap start (index_missing id) (add_index id index)
            (λ q t. adds_index id index t good);
    }

    -- The rest of a handler, from any state.
    pub follow-Reaches :
        (j : Job) (r : ProviderResult) (p : Protocol) (s : S)
        → Reaches s (follow libs is state spawn j r p s).1
    follow-Reaches j r p s =
        (Keeps-follow Good GoodIndex is state spawn (From s) libs (environment_kept s) j r p).keeps
          s unchanged

    pub handle_protocols-Reaches :
        (j : Job) (r : ProviderResult) (md : Md) (codes : List ℕ) (s : S)
        → Reaches s (handle_protocols libs is state spawn j r md codes s).1
    handle_protocols-Reaches j r md codes s =
        (Keeps-handle_protocols Good GoodIndex is state spawn (From s) libs (environment_kept s) j r
            md codes).keeps
          s unchanged

    pub handle_results-Reaches :
        (j : Job) (rs : List ProviderResult) (s : S)
        → Reaches s (handle_results libs is state spawn j rs s).1
    handle_results-Reaches j rs s =
        (Keeps-handle_results Good GoodIndex is state spawn (From s) libs (environment_kept s) j
            rs).keeps
          s unchanged

    pub handle_visit-Reaches :
        (j : Job) (first : Bool) (s : S) → Reaches s (handle_visit libs is state spawn j first s).1
    handle_visit-Reaches j first s =
        (Keeps-handle_visit Good GoodIndex is state spawn (From s) libs (environment_kept s) j
            first).keeps
          s unchanged

    -- If all that others do to the state of a query during its calls are changes (first visits of
    -- jobs, and claims and indexes added that were missing and are meant for their key), and if
    -- the lookups give claims and indexes meant for what was asked, then the job handler, whatever
    -- its job and whether it fails or not, makes only such changes itself.
    pub job_handler-Changes : (j : Job) (s : S) → Reaches s (job_handler libs is state spawn j s).1
    job_handler-Changes j s =
        (Keeps-job_handler Good GoodIndex is state spawn (From s) libs (environment_kept s) j).keeps
          s unchanged
