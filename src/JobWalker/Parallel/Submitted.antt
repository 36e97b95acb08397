-- ===== src/JobWalker/Parallel/Submitted.antt =====
-- The jobs that a walk was given stay among those submitted.
use indexing_service.Prelude.{
  ℕ, zero, suc, ◌≤◌, ◌≡◌, none, some, List, [], ◌∷◌, arith, total, Option-cases, inl, inr,
}
use indexing_service.JobWalker.Parallel.{
  Phase, walking, returned, failed, Walk, Event, feeds, feed, received, walk_step, step, run,
}

module _ {Job State : Type 0} (f : Job → ℕ) where
  feed-submitted :
      (w w' : Walk Job State) (next : List Job) (idle : ℕ)
      → feed w next idle ≡ some w'
      → total f w.submitted ≤ total f w'.submitted
  unfolding feed
  feed-submitted w w' [] idle e = cc
  feed-submitted w w' (j ∷ js) zero e = cc
  feed-submitted w w' (j ∷ js) (suc idle) e = ground arith

  walk_step-submitted :
      (event : Event Job State) (w w' : Walk Job State)
      → walk_step event w ≡ some w'
      → total f w.submitted ≤ total f w'.submitted
  unfolding walk_step received
  walk_step-submitted feeds w w' e = feed-submitted w w' w.next w.idle e
  walk_step-submitted _ w w' e = ground arith

  step-submitted :
      (event : Event Job State) (w w' : Walk Job State)
      → step event w ≡ some w'
      → total f w.submitted ≤ total f w'.submitted
  unfolding step
  step-submitted event w w' e = by_phase w.phase e
    where
      by_phase :
          (p : Phase)
          → elim p [ walking ↦ walk_step event w | returned ↦ none | failed x ↦ none ] ≡ some w'
          → total f w.submitted ≤ total f w'.submitted
      by_phase walking q = walk_step-submitted event w w' q
      by_phase returned q = cc
      by_phase (failed x) q = cc

  pub run-submitted :
      (w : Walk Job State) (events : List (Event Job State))
      → total f w.submitted ≤ total f (run w events).submitted
  unfolding run
  run-submitted w [] = omega arith
  run-submitted w (event ∷ events) = elim (Option-cases (step event w)) [
    | inl e ↦ rw (e, run) (run-submitted w events)
    | inr (w', e) ↦
        rw (e, run) (omega (arith, run-submitted w' events, step-submitted event w w' e))
  ]
