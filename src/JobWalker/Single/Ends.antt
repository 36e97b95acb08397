-- ===== src/JobWalker/Single/Ends.antt =====
-- How a sequential walk ends.
use mathlib.Core.List.{reverse}
use indexing_service.Prelude.{
  ◌≡◌, ◌≢◌, Option, none, List, [], ◌∷◌, arith, refl, false, inl, inr, Bool-cases,
}
use indexing_service.Result.{Result, ok, err, Err, index_out_of_range, is_panic, Io}
use indexing_service.JobWalker.{JobHandler}
use indexing_service.JobWalker.Single.{
  Single, single_state, push, run_job, after_handler, loop, single_walker,
}

module _ {W State Job : Type 0} (cancelled : W → Option Err)
    (handler : JobHandler (Single W State Job) Job State) where
  -- A handler reaches the stack through `spawn` only, so the stack does not become empty.
  abbrev pub KeepsStack : Type 0
  KeepsStack =
      (j : Job) (s : Single W State Job)
      → s.stack ≢ []
      → (handler single_state push j s).1.stack ≢ []

  -- The state after the handler has run on jobs in turn.
  unfoldable pub run_all : List Job → Single W State Job → Single W State Job
  run_all [] s = s
  run_all (j ∷ js) s = run_all js (handler single_state push j s).1

  -- A handler that does not panic.
  abbrev pub NeverPanics : Type 0
  NeverPanics =
      (j : Job) (s : Single W State Job) (e : Err)
      → (handler single_state push j s).0 ≡ err e
      → is_panic e ≡ false

  after_handler-ne-ok :
      (x : Result (Unit {0}) × Single W State Job) (rest : Io (Single W State Job) State)
      (st : State)
      → ((s : Single W State Job) → s.stack ≢ [] → (rest s).0 ≢ ok st)
      → x.1.stack ≢ []
      → (after_handler cancelled handler x rest).0 ≢ ok st
  unfolding after_handler
  after_handler-ne-ok (ok u, s) rest st never h = never s h
  after_handler-ne-ok (err e, s) rest st never h = elim (Bool-cases (is_panic e)) [
    | inl p ↦ (λ f. cc)
    | inr p ↦ (λ f. never s h (rw p at f))
  ]

  loop-ne-ok :
      KeepsStack
      → (js : List Job) (s : Single W State Job) (st : State) → s.stack ≢ []
      → (loop cancelled handler js s).0 ≢ ok st
  unfolding loop run_job
  loop-ne-ok keeps [] s st h e = ground arith
  loop-ne-ok keeps (j ∷ js) s st h e = ground (
    arith,
    after_handler-ne-ok (handler single_state push j s) (loop cancelled handler js) st
        (λ s' h'. loop-ne-ok keeps js s' st h') (keeps j s h),
  )

  after_handler-goes_on :
      (x : Result (Unit {0}) × Single W State Job) (rest : Io (Single W State Job) State)
      → ((e : Err) → x.0 ≡ err e → is_panic e ≡ false)
      → after_handler cancelled handler x rest ≡ rest (x.1)
  unfolding after_handler
  after_handler-goes_on (ok u, s) rest fine = refl
  after_handler-goes_on (err e, s) rest fine = rw (fine e refl) refl

  loop-run_all :
      KeepsStack
      → NeverPanics
      → ((w : W) → cancelled w ≡ none)
      → (js : List Job) (s : Single W State Job) → s.stack ≢ []
      → loop cancelled handler js s ≡ (err index_out_of_range, run_all js s)
  unfolding loop run_job run_all
  loop-run_all keeps fine live [] s h = ground (arith, live s.world)
  loop-run_all keeps fine live (j ∷ js) s h = ground (
    arith,
    live s.world,
    after_handler-goes_on (handler single_state push j s) (loop cancelled handler js)
        (λ e f. fine j s e f),
    loop-run_all keeps fine live js (handler single_state push j s).1 (keeps j s h),
  )

  -- From at least one job, and with a handler that never empties a stack that was not empty, the
  -- sequential walk never returns a state without an error.
  pub single_walker-ne-ok :
      (j : Job) (js : List Job) (st st' : State) (w : W)
      → KeepsStack
      → (single_walker cancelled handler (j ∷ js) st w).0 ≢ ok st'
  unfolding single_walker
  single_walker-ne-ok j js st st' w keeps = loop-ne-ok keeps (reverse (j ∷ js)) _ st' (λ e. cc)

  -- From at least one job, with a handler that never panics or empties a stack that was not empty, and in a
  -- world where the context is never done, a sequential walk runs the handler once on each initial
  -- job, the last first, whatever errors the handler returns, runs it on no spawned job, and then
  -- indexes an empty slice.
  pub single_walker-run_all :
      (j : Job) (js : List Job) (st : State) (w : W)
      → KeepsStack
      → NeverPanics
      → ((w' : W) → cancelled w' ≡ none)
      → single_walker cancelled handler (j ∷ js) st w ≡ (
        err index_out_of_range,
        run_all (reverse (j ∷ js)) (record { m = st; stack = j ∷ js; world = w }),
      )
  unfolding single_walker
  single_walker-run_all j js st w keeps fine live =
      loop-run_all keeps fine live (reverse (j ∷ js)) _ (λ e. cc)
