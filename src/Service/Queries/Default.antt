-- ===== src/Service/Queries/Default.antt =====
-- What a query with the default walker returns.
use mathlib.Core.Path.{subst}
use indexing_service.Prelude.{◌≡◌, ◌≢◌, Option, List, [], ◌∷◌, ◌++◌, map, Bytes, Bool, refl, arith}
use indexing_service.Result.{Result, ok, err, Err, Io}
use indexing_service.ByteMap.{ByteMap}
use indexing_service.ProviderResults.{ProviderResult}
use indexing_service.BlobIndex.{ShardedDagIndex}
use indexing_service.BlobIndexLookup.{Range}
use indexing_service.ProviderIndex.{QueryKey}
use indexing_service.JobWalker.Ensures.{Keeps}
use indexing_service.JobWalker.Single.{Single, single_state, push, single_walker}
use indexing_service.JobWalker.Single.Ends.{KeepsStack, single_walker-ne-ok}
use indexing_service.Service.Jobs.{Query, Job, QueryState}
use indexing_service.Service.Handler.{Libraries, IndexingService, job_handler}
use indexing_service.Service.Handler.Kept.{Kept, Keeps-job_handler}
use indexing_service.Service.Queries.{standard_job, initial_state, built, default_query}

snoc_ne : (xs : List Job) (x : Job) → xs ++ x ∷ [] ≢ []
snoc_ne [] x e = cc
snoc_ne (y ∷ xs) x e = cc

module _ {W Claim : Type 0} (is : IndexingService (Single W (QueryState Claim) Job) Claim) where
  abbrev World : Type 0
  World = Single W (QueryState Claim) Job

  abbrev pub Walking : World → Type 0
  Walking s = s.stack ≢ []

  -- The services that a handler calls leave the stack of the walk alone.
  pub record LeavesStack : Type 0 where
    pub provider_index_lem :
        (qk : QueryKey) (s : World) → (is.provider_index qk s).1.stack ≡ s.stack
    pub claim_lookup_lem :
        (cid url : Bytes) (s : World) → (is.claim_lookup cid url s).1.stack ≡ s.stack
    pub blob_index_lookup_lem :
        (id : Bytes) (p : ProviderResult) (url : Bytes) (rng : Option Range) (s : World)
        → (is.blob_index_lookup id p url rng s).1.stack ≡ s.stack

  abbrev AnyClaim : Bytes → Claim → Type 0
  AnyClaim cid claim = Unit {0}

  abbrev AnyIndex : Bytes → ShardedDagIndex → Type 0
  AnyIndex id index = Unit {0}

  leaves : {A : Type 0} (m : Io World A) → ((s : World) → (m s).1.stack ≡ s.stack) → Keeps Walking m
  leaves m f = record { keeps = λ s h. rw (f s) h; gives = λ s h a e. tt }

  swap_leaves :
      (test : QueryState Claim → Bool) (change : QueryState Claim → QueryState Claim) (s : World)
      → (single_state.cmp_swap test change s).1.stack ≡ s.stack
  unfolding single_state
  swap_leaves test change s = ground arith

  handler_kept : LeavesStack → Kept AnyClaim AnyIndex is single_state push Walking
  unfolding single_state push
  handler_kept l = record {
    access_kept = leaves _ (λ s. refl);
    provider_index_kept = λ qk. leaves _ (l.provider_index_lem qk);
    claim_lookup_kept = λ cid url. leaves _ (l.claim_lookup_lem cid url);
    blob_index_lookup_kept = λ id p url rng. leaves _ (l.blob_index_lookup_lem id p url rng);
    spawn_kept = λ j. record { keeps = λ s h. snoc_ne s.stack j; gives = λ s h a e. tt };
    visit_kept = λ j. leaves _ (swap_leaves _ _);
    claim_kept = λ cid claim good. leaves _ (swap_leaves _ _);
    index_kept = λ id index good. leaves _ (swap_leaves _ _);
  }

  module _ {Md R : Type 0} (libs : Libraries Md)
      (build : ByteMap Claim → ByteMap ShardedDagIndex → Result R)
      (cancelled : W → Option Err) where
    job_handler-KeepsStack : LeavesStack → KeepsStack cancelled (job_handler libs is)
    job_handler-KeepsStack l j s h =
        (Keeps-job_handler AnyClaim AnyIndex is single_state push Walking libs (handler_kept l)
            j).keeps
          s h

    -- When Query without a concurrency is asked for at least one hash, and the services that its
    -- job handler calls leave the stack of the walk alone, it never returns a result, whatever the
    -- claims and indexes found.
    pub default_query-ne-ok :
        (q : Query) (mh : Bytes) (mhs : List Bytes) (w : W) (r : R)
        → LeavesStack
        → q.hashes ≡ mh ∷ mhs
        → (default_query build cancelled (job_handler libs is) q w).0 ≢ ok r
    unfolding default_query built
    default_query-ne-ok q mh mhs w r l e f =
        not_built
          (single_walker cancelled (job_handler libs is) (map standard_job q.hashes)
            (initial_state q) w)
          (λ st g.
            single_walker-ne-ok cancelled (job_handler libs is) (standard_job mh)
              (map standard_job mhs) (initial_state q) st w (job_handler-KeepsStack l)
              (subst
                (λ hs.
                  (single_walker cancelled (job_handler libs is) (map standard_job hs)
                    (initial_state q) w).0
                  ≡ ok st)
                e g))
          f
      where
        not_built :
            (x : Result (QueryState Claim) × World)
            → ((st : QueryState Claim) → x.0 ≢ ok st)
            → (built build x).0 ≢ ok r
        not_built (ok st, s) h g = absurd (h st refl)
        not_built (err x, s) h g = cc
