-- ===== src/Service/Handler/Kept.antt =====
-- A predicate of the world that each call of a job handler keeps is kept by the whole handler.
use indexing_service.Prelude.{Bool, true, false, Option, none, some, List, [], ◌∷◌, ℕ, Bytes}
use indexing_service.Result.{Io}
use indexing_service.ByteMap.{ByteMap, has}
use indexing_service.ProviderResults.{ProviderResult}
use indexing_service.BlobIndex.{Position, ShardedDagIndex}
use indexing_service.BlobIndexLookup.{Range}
use indexing_service.ProviderIndex.{QueryKey}
use indexing_service.Metadata.{
  Protocol, index_claim, equals_claim, location_commitment, no_claim, get_claim,
  LocationCommitmentMetadata,
}
use indexing_service.JobWalker.{WrappedState}
use indexing_service.JobWalker.Ensures.{
  Ensures, Keeps, Keeps-pure, Ensures-lift, Keeps-if, Keeps-bind, Keeps-then,
}
use indexing_service.Service.Jobs.{
  Job, QueryState, first_visit, visit, claim_missing, add_claim, index_missing, add_index,
}
use indexing_service.Service.Handler.{
  Libraries, IndexingService, spawn_shards, follow_location, follow, handle_claim, handle_protocol,
  handle_protocols, handle_results, handle_visit, job_handler,
}

module _ {S Claim : Type 0} (Good : Bytes → Claim → Type 0)
    (GoodIndex : Bytes → ShardedDagIndex → Type 0) (is : IndexingService S Claim)
    (state : WrappedState S (QueryState Claim)) (spawn : Job → Io S (Unit {0}))
    (P : S → Type 0) where
  -- The calls of a handler keep the predicate, and the lookups give claims and indexes meant for what
  -- was asked.
  pub record Kept : Type 0 where
    pub access_kept : Keeps P state.access
    pub provider_index_kept : (qk : QueryKey) → Keeps P (is.provider_index qk)
    pub claim_lookup_kept : (cid url : Bytes) → Ensures P (Good cid) (is.claim_lookup cid url)
    pub blob_index_lookup_kept :
        (id : Bytes) (p : ProviderResult) (url : Bytes) (rng : Option Range)
        → Ensures P (GoodIndex id) (is.blob_index_lookup id p url rng)
    pub spawn_kept : (j : Job) → Keeps P (spawn j)
    pub visit_kept : (j : Job) → Keeps P (state.cmp_swap (first_visit j) (visit j))
    pub claim_kept :
        (cid : Bytes) (claim : Claim)
        → Good cid claim
        → Keeps P (state.cmp_swap (claim_missing cid) (add_claim cid claim))
    pub index_kept :
        (id : Bytes) (index : ShardedDagIndex)
        → GoodIndex id index
        → Keeps P (state.cmp_swap (index_missing id) (add_index id index))

  module _ {Md : Type 0} (libs : Libraries Md) (kept : Kept) where
    Keeps-spawn_shards :
        (mh : Bytes) (shards : List (Bytes × ByteMap Position))
        → Keeps P (spawn_shards libs is state spawn mh shards)
    unfolding spawn_shards
    Keeps-spawn_shards mh [] = Keeps-pure tt
    Keeps-spawn_shards mh ((shard, slices) ∷ shards) =
        Keeps-then _ _ (Keeps-if (has slices mh) _ _ (kept.spawn_kept _) (Keeps-pure tt))
          (Keeps-spawn_shards mh shards)

    Keeps-follow_location :
        (j : Job) (r : ProviderResult) (m : LocationCommitmentMetadata) (o : Option Bytes)
        → Keeps P (follow_location libs is state spawn j r m o)
    unfolding follow_location
    Keeps-follow_location j r m none = Keeps-pure tt
    Keeps-follow_location j r m (some mh) = Keeps-bind _ _ (Ensures-lift _) λ provider _.
        Keeps-bind _ _ (Ensures-lift _) λ url _. Keeps-bind _ _ (Ensures-lift _) λ index_provider _.
          Keeps-bind _ _ (kept.blob_index_lookup_kept _ _ _ _) λ index good.
            Keeps-then _ _ (kept.index_kept r.context_id index good)
              (Keeps-spawn_shards mh index.shards)

    pub Keeps-follow :
        (j : Job) (r : ProviderResult) (p : Protocol) → Keeps P (follow libs is state spawn j r p)
    unfolding follow
    Keeps-follow j r (equals_claim m) = kept.spawn_kept _
    Keeps-follow j r (index_claim m) = kept.spawn_kept _
    Keeps-follow j r (location_commitment m) = Keeps-follow_location j r m j.index_for_mh
    Keeps-follow j r (no_claim id) = Keeps-pure tt

    Keeps-handle_claim :
        (j : Job) (r : ProviderResult) (p : Protocol) (o : Option Bytes)
        → Keeps P (handle_claim libs is state spawn j r p o)
    unfolding handle_claim
    Keeps-handle_claim j r p none = Keeps-pure tt
    Keeps-handle_claim j r p (some cid) = Keeps-bind _ _ (Ensures-lift _) λ provider _.
        Keeps-bind _ _ (Ensures-lift _) λ url _.
          Keeps-bind _ _ (kept.claim_lookup_kept cid _)
            λ claim good. Keeps-then _ _ (kept.claim_kept cid claim good) (Keeps-follow j r p)

    pub Keeps-handle_protocols :
        (j : Job) (r : ProviderResult) (md : Md) (codes : List ℕ)
        → Keeps P (handle_protocols libs is state spawn j r md codes)
    unfolding handle_protocols
    Keeps-handle_protocols j r md [] = Keeps-pure tt
    Keeps-handle_protocols j r md (code ∷ codes) =
        Keeps-then _ _ (protocol (libs.metadata.get md code)) (Keeps-handle_protocols j r md codes)
      where
        protocol : (o : Option Protocol) → Keeps P (handle_protocol libs is state spawn j r o)
        protocol none = Keeps-pure tt
        protocol (some p) = Keeps-handle_claim j r p (get_claim p)

    pub Keeps-handle_results :
        (j : Job) (rs : List ProviderResult) → Keeps P (handle_results libs is state spawn j rs)
    unfolding handle_results
    Keeps-handle_results j [] = Keeps-pure tt
    Keeps-handle_results j (r ∷ rs) = Keeps-bind _ _ (Ensures-lift _) λ md _.
        Keeps-then _ _ (Keeps-handle_protocols j r md (libs.metadata.protocols md))
          (Keeps-handle_results j rs)

    pub Keeps-handle_visit :
        (j : Job) (first : Bool) → Keeps P (handle_visit libs is state spawn j first)
    unfolding handle_visit
    Keeps-handle_visit j false = Keeps-pure tt
    Keeps-handle_visit j true =
        Keeps-bind _ _ kept.access_kept
          λ qs _. Keeps-bind _ _ (kept.provider_index_kept _) λ rs _. Keeps-handle_results j rs

    pub Keeps-job_handler : (j : Job) → Keeps P (job_handler libs is state spawn j)
    unfolding job_handler
    Keeps-job_handler j = Keeps-bind _ _ (kept.visit_kept j) λ first _. Keeps-handle_visit j first
