-- ===== src/Service/Handler/Runs.antt =====
-- What runs of the job handler that all ended without an error have found.
mod Examples
use mathlib.Core.Path.{subst}
use native.Mathlib.Decide.{ℕ_discrete}
use indexing_service.Prelude.{
  ℕ, ◌≡◌, ◌∙◌, ap, inl, inr, Bool, true, false, Option, some, List, [], ◌∷◌, map, Bytes, arith, All,
  All-mono,
}
use indexing_service.Result.{ok, Io}
use indexing_service.ByteMap.{has}
use indexing_service.ProviderResults.{ProviderResult}
use indexing_service.BlobIndex.{ShardedDagIndex}
use indexing_service.Metadata.{Protocol, get_claim}
use indexing_service.JobWalker.{WrappedState}
use indexing_service.JobWalker.Ensures.{bind_ok}
use indexing_service.JobWalker.Parallel.{returned, Walk, new_walk, Event, run}
use indexing_service.JobWalker.Parallel.Counts.{returned-SameItems}
use indexing_service.Service.Jobs.{Query, Job, QueryState, key, first_visit, visit}
use indexing_service.Service.Changes.{
  Changes, Changes-trans, Changes-Later, has-HasAll, has-set_self,
}
use indexing_service.Service.Handler.{Libraries, IndexingService, handle_visit, job_handler}
use indexing_service.Service.Handler.Guarantee.{Environment, Reaches, handle_visit-Reaches}
use indexing_service.Service.Handler.Complete.{Answered, Covered, reached, job_handler-Covered}
use indexing_service.Service.Queries.{standard_job, initial_state}

module _ {S Claim : Type 0} (Good : Bytes → Claim → Type 0)
    (GoodIndex : Bytes → ShardedDagIndex → Type 0) (is : IndexingService S Claim)
    (state : WrappedState S (QueryState Claim)) (spawn : Job → Io S (Unit {0}))
    (view : S → QueryState Claim) {Md : Type 0} (libs : Libraries Md)
    (env : Environment Good GoodIndex is state spawn view) where
  -- A run of the handler on a job that ended without an error, in a walk that went on to `end`.
  pub record Ran (end : QueryState Claim) (j : Job) : Type 0 where
    pub before : S
    pub after : S
    pub succeeded : job_handler libs is state spawn j before ≡ (ok tt, after)
    pub went_on : Changes Good GoodIndex (view after) end

  -- A run that was the first to visit its job's key.
  pub record RanFirst (end : QueryState Claim) (j : Job) : Type 0 where
    pub ran : Ran end j
    pub visited : S
    pub was_first : state.cmp_swap (first_visit j) (visit j) ran.before ≡ (ok true, visited)

  -- Every key that is visited at the end was first visited by a run.
  abbrev pub VisitsByRuns : QueryState Claim → Type 0
  VisitsByRuns end =
      (k : Bytes) → has end.visits k ≡ true → (j : Job) × (key j ≡ k) × RanFirst end j

  -- The metadata of a record decodes, and the claims of all its protocols are in the result.
  abbrev pub CoveredAt : QueryState Claim → ProviderResult → Type 0
  CoveredAt end r =
      (md : Md) × (libs.metadata.unmarshal_binary r.metadata ≡ ok md)
      × All
          (λ code.
            (p : Protocol) (cid : Bytes)
            → libs.metadata.get md code ≡ some p
            → get_claim p ≡ some cid
            → has end.qr.claims cid ≡ true)
          (libs.metadata.protocols md)

  -- A job with the key of the given one asked the provider index, and all of the answer is covered.
  pub record Served (end : QueryState Claim) (j : Job) : Type 0 where
    pub twin : Job
    pub same_key : key twin ≡ key j
    pub asked_at : S
    pub answer : List ProviderResult
    pub answered : Answered Good GoodIndex is state spawn view libs env twin asked_at answer
    pub covered : All (CoveredAt end) answer

  Ran-visited : (end : QueryState Claim) (j : Job) → Ran end j → has end.visits (key j) ≡ true
  unfolding job_handler first_visit visit
  Ran-visited end j r =
      let (b, s₁, e₁, f₁) = bind_ok _ _ r.before r.after tt r.succeeded in
      let (met, c, cases) = env.cmp_swap_lem (first_visit j) (visit j) r.before in
      let at_s₁ : (state.cmp_swap (first_visit j) (visit j) r.before).1 ≡ s₁ = ap (λ x. x.1) e₁ in
      let here : has (view s₁).visits (key j) ≡ true = rw (← at_s₁) (elim cases [
        | inl (t, f, g) ↦ rw f (has-set_self met.visits (key j) tt)
        | inr (t, f, g) ↦ rw f (ground arith)
      ]) in
      let rest =
        reached Good GoodIndex is state spawn view libs env (handle_visit libs is state spawn j b)
          s₁ r.after (handle_visit-Reaches Good GoodIndex is state spawn view libs env j b s₁) f₁ in
      has-HasAll _ _ (key j)
        (Changes-Later Good GoodIndex (Changes-trans Good GoodIndex rest r.went_on)).visits_kept
        here

  RanFirst-Served :
      (end : QueryState Claim) (k j : Job) → key k ≡ key j → RanFirst end k → Served end j
  RanFirst-Served end k j e f =
      let (rs, a, c) =
        job_handler-Covered Good GoodIndex is state spawn view libs env k f.ran.before f.visited
          f.ran.after f.was_first f.ran.succeeded in
      record {
        twin = k;
        same_key = e;
        asked_at = f.visited;
        answer = rs;
        answered = a;
        covered =
            All-mono
              (λ r (md, d, all). (
                md,
                d,
                All-mono
                    (λ code g p cid x y.
                      has-HasAll _ _ cid (Changes-Later Good GoodIndex f.ran.went_on).claims_kept
                        (g p cid x y))
                    (libs.metadata.protocols md) all,
              ))
              rs c;
      }

  pub Ran-Served :
      (end : QueryState Claim) → VisitsByRuns end → (j : Job) → Ran end j → Served end j
  Ran-Served end visits j r =
      let (k, e, f) = visits (key j) (Ran-visited end j r) in RanFirst-Served end k j e f
