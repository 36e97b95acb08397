-- ===== src/Service/Queries/Workers.antt =====
-- The job handler in a worker of the parallel walker, among other workers that swap as it does.
use mathlib.Core.Path.{subst}
use indexing_service.Prelude.{
  ◌≡◌, ◌⊎◌, inl, inr, sym, Bool, true, false, Option, List, [], ◌∷◌, Bytes, Bool-cases,
}
use indexing_service.Result.{ok, Err, Io}
use indexing_service.ProviderResults.{ProviderResult}
use indexing_service.BlobIndex.{ShardedDagIndex}
use indexing_service.BlobIndexLookup.{Range}
use indexing_service.JobWalker.{WrappedState}
use indexing_service.JobWalker.Parallel.{Event}
use indexing_service.JobWalker.Parallel.States.{run-state}
use indexing_service.JobWalker.Parallel.Workers.{
  Turn, Shared, others, thread_safe_state, worker_spawn, worker_spawn-state, among,
}
use indexing_service.Service.Jobs.{Job, QueryState}
use indexing_service.Service.Changes.{Changes, unchanged, Changes-trans}
use indexing_service.Service.Handler.{IndexingService}
use indexing_service.Service.Handler.Guarantee.{Environment}
use indexing_service.Service.Queries.Answers.{BySwaps, BySwaps-KeepsState}

module _ {W Claim : Type 0} (Good : Bytes → Claim → Type 0)
    (GoodIndex : Bytes → ShardedDagIndex → Type 0) (is : IndexingService W Claim) where
  abbrev Swaps : Event Job (QueryState Claim) → Type 0
  Swaps = BySwaps Good GoodIndex

  abbrev pub Worker : Type 0
  Worker = Shared Swaps W

  abbrev pub query_state : Worker → QueryState Claim
  query_state s = s.walk.state

  abbrev pub worker_state : WrappedState Worker (QueryState Claim)
  worker_state = thread_safe_state Swaps

  abbrev pub spawn_job : Err → Job → Io Worker (Unit {0})
  spawn_job = worker_spawn Swaps

  abbrev pub services_among : IndexingService Worker Claim
  services_among = record {
    blob_index_lookup = λ id p url rng. among Swaps (is.blob_index_lookup id p url rng);
    claim_lookup = λ cid url. among Swaps (is.claim_lookup cid url);
    provider_index = λ qk. among Swaps (is.provider_index qk);
  }

  -- The lookups give claims and indexes meant for what was asked.
  pub record GoodServices : Type 0 where
    pub claim_lookup-Good :
        (cid url : Bytes) (w : W) (claim : Claim)
        → (is.claim_lookup cid url w).0 ≡ ok claim
        → Good cid claim
    pub blob_index_lookup-GoodIndex :
        (id : Bytes) (p : ProviderResult) (url : Bytes) (rng : Option Range) (w : W)
        (index : ShardedDagIndex)
        → (is.blob_index_lookup id p url rng w).0 ≡ ok index
        → GoodIndex id index

  abbrev Reached : Worker → Worker → Type 0
  Reached s s' = Changes Good GoodIndex (query_state s) (query_state s')

  others-Reached : (turns : List (Turn Swaps)) (s : Worker) → Reached s (others Swaps turns s)
  unfolding others
  others-Reached [] s = unchanged
  others-Reached (t ∷ turns) s =
      run-state (λ st. Changes Good GoodIndex (query_state s) st) s.walk t.steps
        (BySwaps-KeepsState Good GoodIndex (query_state s) t.steps t.steps_Allowed) unchanged

  swap_cases :
      (test : QueryState Claim → Bool) (change : QueryState Claim → QueryState Claim) (s : Worker)
      → (met : QueryState Claim) × Changes Good GoodIndex (query_state s) met
        × ((test met ≡ true)
              × (query_state (worker_state.cmp_swap test change s).1 ≡ change met)
              × ((worker_state.cmp_swap test change s).0 ≡ ok true)
            ⊎ (test met ≡ false)
              × (query_state (worker_state.cmp_swap test change s).1 ≡ met)
              × ((worker_state.cmp_swap test change s).0 ≡ ok false))
  unfolding thread_safe_state
  swap_cases test change s =
      let s₁ = others Swaps s.turns s in
      let r₁ = others-Reached s.turns s in
      elim (Bool-cases (test (query_state s₁))) [
        | inr f ↦ (query_state s₁, r₁, inr (f, rw f, rw f))
        | inl t ↦
            let s₂ = others Swaps s₁.turns s₁ in
            let r₂ = Changes-trans Good GoodIndex r₁ (others-Reached s₁.turns s₁) in
            elim (Bool-cases (test (query_state s₂))) [
              | inr f ↦ (query_state s₂, r₂, inr (f, rw t (rw f), rw t (rw f)))
              | inl t' ↦ (query_state s₂, r₂, inl (t', rw t (rw t'), rw t (rw t')))
            ]
      ]

  spawn-Reached : (canceled : Err) (j : Job) (s : Worker) → Reached s (spawn_job canceled j s).1
  spawn-Reached canceled j s =
      subst (Changes Good GoodIndex (query_state s)) (sym (worker_spawn-state Swaps canceled j s))
        (others-Reached s.turns s)

  -- x
  pub worker_environment :
      (canceled : Err)
      → GoodServices
      → Environment Good GoodIndex services_among worker_state (spawn_job canceled) query_state
  unfolding thread_safe_state among
  worker_environment canceled g = record {
    access_lem = λ s. others-Reached s.turns s;
    provider_index_lem = λ qk s. others-Reached s.turns s;
    claim_lookup_lem = λ cid url s. others-Reached s.turns s;
    claim_lookup-Good = λ cid url s. g.claim_lookup-Good cid url _;
    blob_index_lookup_lem = λ id p url rng s. others-Reached s.turns s;
    blob_index_lookup-GoodIndex = λ id p url rng s. g.blob_index_lookup-GoodIndex id p url rng _;
    spawn_lem = spawn-Reached canceled;
    cmp_swap_lem = swap_cases;
  }
