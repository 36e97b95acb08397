-- ===== src/Service/Queries/Answers.antt =====
-- What a query with the parallel walker returns.
use mathlib.Core.Path.{subst}
use indexing_service.Prelude.{
  ℕ, ◌≡◌, ◌⊎◌, ◌∙◌, inl, inr, refl, Bool, true, some, List, [], ◌∷◌, map, Bytes, All, SameItems,
  total, ◌≤◌, arith,
}
use indexing_service.Result.{Result, ok}
use indexing_service.ByteMap
use indexing_service.ByteMap.{ByteMap}
use indexing_service.BlobIndex.{ShardedDagIndex}
use indexing_service.JobWalker.Parallel.{
  Phase, walking, returned, failed, Walk, new_walk, parallel_walk, Event, swaps, run,
}
use indexing_service.JobWalker.Parallel.Counts.{returned-SameItems}
use indexing_service.JobWalker.Parallel.Submitted.{run-submitted}
use indexing_service.JobWalker.Parallel.States.{KeepsState, run-state}
use indexing_service.Service.Jobs.{
  Query, Job, QueryState, first_visit, visit, claim_missing, add_claim, index_missing, add_index,
}
use indexing_service.Service.Changes.{
  AllGood, Changes, unchanged, and_then, visits_job, adds_claim, adds_index, Changes-Later,
}
use indexing_service.Service.Queries.{standard_job, initial_state, answer, walk_answer, query}

module _ {Claim : Type 0} (Good : Bytes → Claim → Type 0)
    (GoodIndex : Bytes → ShardedDagIndex → Type 0) where
  -- The three compare-and-swaps of the job handler, with a claim or an index meant for its key.
  abbrev pub IsHandlerSwap :
      (QueryState Claim → Bool) → (QueryState Claim → QueryState Claim) → Type 0
  IsHandlerSwap test change =
      ((j : Job) × (test ≡ first_visit j) × (change ≡ visit j))
      ⊎ ((cid : Bytes) × (claim : Claim) × (test ≡ claim_missing cid)
          × (change ≡ add_claim cid claim)
          × Good cid claim)
      ⊎ ((id : Bytes) × (index : ShardedDagIndex) × (test ≡ index_missing id)
          × (change ≡ add_index id index)
          × GoodIndex id index)

  -- A step that swaps as the job handler does; the other steps swap nothing.
  abbrev pub BySwaps : Event Job (QueryState Claim) → Type 0
  BySwaps (swaps i test change read) = IsHandlerSwap test change
  BySwaps _ = Unit

  swap-Changes :
      (start : QueryState Claim) (test : QueryState Claim → Bool)
      (change : QueryState Claim → QueryState Claim)
      → IsHandlerSwap test change
      → (st : QueryState Claim) → test st ≡ true
      → Changes Good GoodIndex start st
      → Changes Good GoodIndex start (change st)
  swap-Changes start test change (inl (j, t, c)) st h f =
      rw c (and_then f (visits_job j (rw (← t) h)))
  swap-Changes start test change (inr (inl (cid, claim, t, c, g))) st h f =
      rw c (and_then f (adds_claim cid claim (rw (← t) h) g))
  swap-Changes start test change (inr (inr (id, index, t, c, g))) st h f =
      rw c (and_then f (adds_index id index (rw (← t) h) g))

  pub BySwaps-KeepsState :
      (start : QueryState Claim) (events : List (Event Job (QueryState Claim)))
      → All BySwaps events
      → All (KeepsState (λ st. Changes Good GoodIndex start st)) events
  BySwaps-KeepsState start [] h = tt
  BySwaps-KeepsState start (event ∷ events) h = (one event h.0, BySwaps-KeepsState start events h.1)
    where
      one :
          (e : Event Job (QueryState Claim))
          → BySwaps e
          → KeepsState (λ st. Changes Good GoodIndex start st) e
      one (swaps i test change read) k = swap-Changes start test change k
      one _ k = tt

  abbrev initial : Query → QueryState Claim
  initial q = initial_state q

  initial-AllGood :
      (q : Query) → AllGood Good (initial q).qr.claims × AllGood GoodIndex (initial q).qr.indexes
  unfolding initial_state ByteMap.lookup ByteMap.new_byte_map
  initial-AllGood q = (λ k v e. cc, λ k v e. cc)

  initial_query : (q : Query) → (initial q).q ≡ q
  unfolding initial_state
  initial_query q = refl

  module _ {R : Type 0} (build : ByteMap Claim → ByteMap ShardedDagIndex → Result R) where
    -- A walk that ended well: its result is built from its state, no job is left undone, those of the
    -- hashes included, the query is still the one asked, and all that was found is meant for its key.
    pub record Answered (q : Query) (r : R) (w : Walk Job (QueryState Claim)) : Type 0 where
      pub ended : w.phase ≡ returned
      pub built : build w.state.qr.claims w.state.qr.indexes ≡ ok r
      pub all_done : SameItems w.submitted w.completed
      pub asked_done : (f : Job → ℕ) → total f (map standard_job q.hashes) ≤ total f w.completed
      pub same_query : w.state.q ≡ q
      pub claims_good : AllGood Good w.state.qr.claims
      pub indexes_good : AllGood GoodIndex w.state.qr.indexes

    -- The walk over the hashes of a query, after the given steps.
    abbrev pub walk_of :
        ℕ
        → Query
        → Bytes
        → List Bytes
        → List (Event Job (QueryState Claim))
        → Walk Job (QueryState Claim)
    walk_of n q mh mhs events =
        run (new_walk n (standard_job mh) (map standard_job mhs) (initial q)) events

    returned-Answered :
        (n : ℕ) (q : Query) (mh : Bytes) (mhs : List Bytes)
        (events : List (Event Job (QueryState Claim))) (r : R)
        → All BySwaps events
        → q.hashes ≡ mh ∷ mhs
        → let w = walk_of n q mh mhs events in
          w.phase ≡ returned → build w.state.qr.claims w.state.qr.indexes ≡ ok r → Answered q r w
    unfolding new_walk
    returned-Answered n q mh mhs events r h hashes p e =
        let j = standard_job mh in
        let js = map standard_job mhs in
        let changes =
          run-state (λ st. Changes Good GoodIndex (initial q) st) (new_walk n j js (initial q))
            events (BySwaps-KeepsState (initial q) events h) unchanged in
        let later = Changes-Later Good GoodIndex changes in
        let done = (returned-SameItems n j js (initial q) events p).0 in
        record {
          ended = p;
          built = e;
          all_done = done;
          asked_done = λ f.
              of_hashes f q.hashes hashes
                (omega (arith, done f, run-submitted f (new_walk n j js (initial q)) events));
          same_query = later.same_query ∙ initial_query q;
          claims_good = later.claims_good (initial-AllGood q).0;
          indexes_good = later.indexes_good (initial-AllGood q).1;
        }
      where
        of_hashes :
            (f : Job → ℕ) (hashes : List Bytes) {k : ℕ}
            → hashes ≡ mh ∷ mhs
            → total f (map standard_job (mh ∷ mhs)) ≤ k
            → total f (map standard_job hashes) ≤ k
        of_hashes f hashes e le = rw e le

    answer-returned :
        (p : Phase) (st : QueryState Claim) (r : R)
        → answer build p st ≡ some (ok r)
        → (p ≡ returned) × (build st.qr.claims st.qr.indexes ≡ ok r)
    unfolding answer
    answer-returned walking st r g = cc
    answer-returned returned st r g = (refl, ground arith)
    answer-returned (failed x) st r g = cc

    -- A query that returns a result has returned from the walk over its hashes.
    pub query-returned :
        (n : ℕ) (q : Query) (mh : Bytes) (mhs : List Bytes)
        (events : List (Event Job (QueryState Claim))) (r : R)
        → q.hashes ≡ mh ∷ mhs
        → query build n q events ≡ some (ok r)
        → let w = run (new_walk n (standard_job mh) (map standard_job mhs) (initial q)) events in
          (w.phase ≡ returned) × (build w.state.qr.claims w.state.qr.indexes ≡ ok r)
    unfolding query walk_answer parallel_walk
    query-returned n q mh mhs events r e f =
        let w = run (new_walk n (standard_job mh) (map standard_job mhs) (initial q)) events in
        answer-returned w.phase w.state r (
          subst
            (λ hs.
              walk_answer build (parallel_walk n (map standard_job hs) (initial q)) events
              ≡ some (ok r))
            e f)

    -- When the swaps of the steps are those of the job handler with claims and indexes meant for
    -- their keys, and Query with a concurrency returns a result, then the query has hashes, the
    -- walk over their jobs has returned after these steps, the result is built from the state at
    -- its end, every initial and every spawned job was done, that of each hash included, the query
    -- in the state is the one asked, and all claims and indexes in it are meant for their keys.
    pub query-Answered :
        (n : ℕ) (q : Query) (events : List (Event Job (QueryState Claim))) (r : R)
        → All BySwaps events
        → query build n q events ≡ some (ok r)
        → (mh : Bytes) × (mhs : List Bytes) × (q.hashes ≡ mh ∷ mhs)
          × Answered q r (walk_of n q mh mhs events)
    unfolding query walk_answer parallel_walk
    query-Answered n q events r h e = from_hashes q.hashes refl e
      where
        from_hashes :
            (hashes : List Bytes)
            → q.hashes ≡ hashes
            → walk_answer build (parallel_walk n (map standard_job hashes) (initial q)) events
              ≡ some (ok r)
            → (mh : Bytes) × (mhs : List Bytes) × (q.hashes ≡ mh ∷ mhs)
              × Answered q r (walk_of n q mh mhs events)
        from_hashes [] p f = cc
        from_hashes (mh ∷ mhs) p f =
            let w = walk_of n q mh mhs events in
            let (ended, built) = answer-returned w.phase w.state r f in
            (mh, mhs, p, returned-Answered n q mh mhs events r h p ended built)
