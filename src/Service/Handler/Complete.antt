-- ===== src/Service/Handler/Complete.antt =====
-- What has been found when a job handler succeeds.
use mathlib.Core.Path.{subst, subst₂}
use indexing_service.Prelude.{
  ◌≡◌, sym, ◌∙◌, ap, inl, inr, Bool, true, Option, none, some, List, [], ◌∷◌, ℕ, Bytes, arith, All,
  All-mono,
}
use indexing_service.Result.{ok, ok-injective, Io}
use indexing_service.ByteMap.{has}
use indexing_service.ProviderResults.{ProviderResult}
use indexing_service.BlobIndex.{ShardedDagIndex}
use indexing_service.Metadata.{Protocol, get_claim}
use indexing_service.JobWalker.{WrappedState}
use indexing_service.JobWalker.Ensures.{bind_ok}
use indexing_service.Service.Jobs.{
  Job, QueryState, first_visit, visit, claim_missing, add_claim, target_claims,
}
use indexing_service.Service.Changes.{Changes-Later, has-HasAll, has-set_self}
use indexing_service.Service.Handler.{
  Libraries, IndexingService, handle_claim, handle_protocol, handle_protocols, handle_results,
  handle_visit, job_handler, follow,
}
use indexing_service.Service.Handler.Guarantee.{
  Environment, Reaches, follow-Reaches, handle_protocols-Reaches, handle_results-Reaches,
}

module _ {S Claim : Type 0} (Good : Bytes → Claim → Type 0)
    (GoodIndex : Bytes → ShardedDagIndex → Type 0) (is : IndexingService S Claim)
    (state : WrappedState S (QueryState Claim)) (spawn : Job → Io S (Unit {0}))
    (view : S → QueryState Claim) {Md : Type 0} (libs : Libraries Md)
    (env : Environment Good GoodIndex is state spawn view) where
  abbrev HasClaim : S → Bytes → Type 0
  HasClaim s cid = has (view s).qr.claims cid ≡ true

  HasClaim-Reaches :
      (s s' : S) (cid : Bytes)
      → Reaches Good GoodIndex is state spawn view s s'
      → HasClaim s cid
      → HasClaim s' cid
  HasClaim-Reaches s s' cid r h = has-HasAll _ _ cid (Changes-Later Good GoodIndex r).claims_kept h

  -- The claim of a protocol, if it has one, is among the claims found.
  abbrev pub Found : S → Option Protocol → Type 0
  Found s o = (p : Protocol) (cid : Bytes) → o ≡ some p → get_claim p ≡ some cid → HasClaim s cid

  -- The metadata of a record decodes, and the claims of all its protocols are found.
  abbrev pub Covered : S → ProviderResult → Type 0
  Covered s r =
      (md : Md) × (libs.metadata.unmarshal_binary r.metadata ≡ ok md)
      × All (λ code. Found s (libs.metadata.get md code)) (libs.metadata.protocols md)

  pub reached :
      (m : Io S (Unit {0})) (s s' : S)
      → Reaches Good GoodIndex is state spawn view s (m s).1
      → m s ≡ (ok tt, s')
      → Reaches Good GoodIndex is state spawn view s s'
  reached m s s' h e =
      subst (λ x. Reaches Good GoodIndex is state spawn view s x) (ap (λ x. x.1) e) h

  claim_swapped :
      (cid : Bytes) (claim : Claim) (s s' : S) (b : Bool)
      → state.cmp_swap (claim_missing cid) (add_claim cid claim) s ≡ (ok b, s')
      → HasClaim s' cid
  unfolding claim_missing add_claim
  claim_swapped cid claim s s' b e =
      let (met, r, cases) = env.cmp_swap_lem (claim_missing cid) (add_claim cid claim) s in
      let at_end : (state.cmp_swap (claim_missing cid) (add_claim cid claim) s).1 ≡ s' =
        ap (λ x. x.1) e in
      elim cases [
        | inl (t, f, g) ↦ rw (← at_end) (rw f (has-set_self met.qr.claims cid claim))
        | inr (t, f, g) ↦ rw (← at_end) (rw f (ground arith))
      ]

  handle_claim-HasClaim :
      (j : Job) (r : ProviderResult) (p : Protocol) (cid : Bytes) (s s' : S)
      → handle_claim libs is state spawn j r p (some cid) s ≡ (ok tt, s')
      → HasClaim s' cid
  unfolding handle_claim
  handle_claim-HasClaim j r p cid s s' e =
      let (provider, s₁, _, e₁) = bind_ok _ _ s s' tt e in
      let (url, s₂, _, e₂) = bind_ok _ _ s₁ s' tt e₁ in
      let (claim, s₃, _, e₃) = bind_ok _ _ s₂ s' tt e₂ in
      let (b, s₄, swapped, e₄) = bind_ok _ _ s₃ s' tt e₃ in
      HasClaim-Reaches s₄ s' cid
        (reached (follow libs is state spawn j r p) s₄ s'
          (follow-Reaches Good GoodIndex is state spawn view libs env j r p s₄) e₄)
        (claim_swapped cid claim s₃ s₄ b swapped)

  handle_protocol-Found :
      (j : Job) (r : ProviderResult) (o : Option Protocol) (s s' : S)
      → handle_protocol libs is state spawn j r o s ≡ (ok tt, s')
      → Found s' o
  unfolding handle_protocol
  handle_protocol-Found j r none s s' e p cid x c = cc
  handle_protocol-Found j r (some q) s s' e p cid x c =
      claim_of (get_claim q) e (rw (some-injective' q p x) c)
    where
      some-injective' : (a b : Protocol) → some a ≡ some b → a ≡ b
      some-injective' a b h = cc

      claim_of :
          (o : Option Bytes)
          → handle_claim libs is state spawn j r q o s ≡ (ok tt, s')
          → o ≡ some cid
          → HasClaim s' cid
      claim_of none h f = cc
      claim_of (some cid') h f =
          handle_claim-HasClaim j r q cid s s'
            (subst (λ o. handle_claim libs is state spawn j r q o s ≡ (ok tt, s')) f h)

  handle_protocols-Found :
      (j : Job) (r : ProviderResult) (md : Md) (codes : List ℕ) (s s' : S)
      → handle_protocols libs is state spawn j r md codes s ≡ (ok tt, s')
      → All (λ code. Found s' (libs.metadata.get md code)) codes
  unfolding handle_protocols
  handle_protocols-Found j r md [] s s' e = tt
  handle_protocols-Found j r md (code ∷ codes) s s' e =
      let (u, s₁, e₁, rest) = bind_ok _ _ s s' tt e in
      (
        λ p cid x c.
            HasClaim-Reaches s₁ s' cid
              (reached (handle_protocols libs is state spawn j r md codes) s₁ s'
                (handle_protocols-Reaches Good GoodIndex is state spawn view libs env j r md codes
                  s₁)
                rest)
              (handle_protocol-Found j r (libs.metadata.get md code) s s₁ e₁ p cid x c),
        handle_protocols-Found j r md codes s₁ s' rest,
      )

  Covered-Reaches :
      (s s' : S) (r : ProviderResult)
      → Reaches Good GoodIndex is state spawn view s s'
      → Covered s r
      → Covered s' r
  Covered-Reaches s s' r h (md, e, all) = (
    md,
    e,
    All-mono (λ code f p cid x c. HasClaim-Reaches s s' cid h (f p cid x c))
        (libs.metadata.protocols md) all,
  )

  handle_results-Covered :
      (j : Job) (rs : List ProviderResult) (s s' : S)
      → handle_results libs is state spawn j rs s ≡ (ok tt, s')
      → All (Covered s') rs
  unfolding handle_results
  handle_results-Covered j [] s s' e = tt
  handle_results-Covered j (r ∷ rs) s s' e =
      let (md, s₁, decoded, e₁) = bind_ok _ _ s s' tt e in
      let (u, s₂, protocols, rest) = bind_ok _ _ s₁ s' tt e₁ in
      (
        Covered-Reaches s₂ s' r
            (reached (handle_results libs is state spawn j rs) s₂ s'
              (handle_results-Reaches Good GoodIndex is state spawn view libs env j rs s₂) rest)
            (
              md,
              ap (λ x. x.0) decoded,
              handle_protocols-Found j r md (libs.metadata.protocols md) s₁ s₂ protocols,
            ),
        handle_results-Covered j rs s₂ s' rest,
      )

  -- The answer of the provider index to the question that the handler asks for its job.
  abbrev pub Answered : Job → S → List ProviderResult → Type 0
  Answered j s rs =
      (qs : QueryState Claim) × (s₁ : S) × (s₂ : S) × (state.access s ≡ (ok qs, s₁))
      × (is.provider_index
            (record {
              spaces = qs.q.match.subject;
              hash = j.mh;
              target_claims = target_claims j.job_type;
            })
            s₁
          ≡ (ok rs, s₂))

  handle_visit-Covered :
      (j : Job) (s s' : S)
      → handle_visit libs is state spawn j true s ≡ (ok tt, s')
      → (rs : List ProviderResult) × Answered j s rs × All (Covered s') rs
  unfolding handle_visit
  handle_visit-Covered j s s' e =
      let (qs, s₁, e₁, f₁) = bind_ok _ _ s s' tt e in
      let (rs, s₂, e₂, f₂) = bind_ok _ _ s₁ s' tt f₁ in
      (rs, (qs, s₁, s₂, e₁, e₂), handle_results-Covered j rs s₂ s' f₂)

  -- Among handlers that only make changes, when the job handler succeeds on a job that it is the
  -- first to visit, the provider index was asked for the hash of the job, the spaces of the query
  -- and the claims that the job targets, and answered with records; the metadata of every record
  -- decodes, and the claims of all their protocols are among those found.
  pub job_handler-Covered :
      (j : Job) (s s₀ s' : S)
      → state.cmp_swap (first_visit j) (visit j) s ≡ (ok true, s₀)
      → job_handler libs is state spawn j s ≡ (ok tt, s')
      → (rs : List ProviderResult) × Answered j s₀ rs × All (Covered s') rs
  unfolding job_handler
  job_handler-Covered j s s₀ s' first e =
      let (b, s₁, e₁, f₁) = bind_ok _ _ s s' tt e in
      let same_state : s₁ ≡ s₀ = ap (λ x. x.1) (sym e₁ ∙ first) in
      let is_first : b ≡ true = ok-injective (ap (λ x. x.0) (sym e₁ ∙ first)) in
      handle_visit-Covered j s₀ s' (
        subst₂ (λ b t. handle_visit libs is state spawn j b t ≡ (ok tt, s')) is_first same_state f₁)
