-- ===== src/JobQueue/Drain.antt =====
-- That the queue goes on, and that a shutdown comes to its end.
use indexing_service.Prelude.{
  ℕ, zero, suc, ◌+◌, ◌<◌, ◌≡◌, ◌≢◌, refl, Bool, true, false, none, some, List, [], ◌∷◌, ◌++◌, arith,
  length, length-erase_idx, get_elem?, erase_idx, Option-cases, inl, inr, ◌⊎◌,
}
use indexing_service.JobQueue.{
  Loop, receiving, draining, done, sending, quitting, quit_sent, Config, JobQueue, new_job_queue,
  Event, accepts, refuses, shuts_down, receives_quit, puts, hands_over, takes, handler_returns,
  ends, step, run, report,
}
use indexing_service.JobQueue.Order.{run-new_job_queue-Inv}

module _ {Job : Type 0} where
  -- A step of the loop or of a worker.
  abbrev pub is_advance : Event Job → Bool
  is_advance receives_quit = true
  is_advance puts = true
  is_advance hands_over = true
  is_advance takes = true
  is_advance (handler_returns i e) = true
  is_advance ends = true
  is_advance _ = false

  abbrev pub CanAdvance : JobQueue Job → Type 0
  CanAdvance q =
      (event : Event Job) × (q' : JobQueue Job) × (is_advance event ≡ true)
      × (step event q ≡ some q')

  -- A waiting worker takes a job, or else one of the handlers returns.
  worker_advance :
      (q : JobQueue Job) (j : Job) (js : List Job) (idle : ℕ) (handling : List Job)
      → q.outgoing ≡ j ∷ js
      → q.idle ≡ idle
      → q.handling ≡ handling
      → 0 < idle + length handling
      → CanAdvance q
  unfolding step report
  worker_advance q j js (suc idle) handling o i h p = (
    takes,
    record q { outgoing = js; idle = idle; handling = j ∷ q.handling; taken = q.taken ++ j ∷ [] },
    refl,
    ground arith,
  )
  worker_advance q j js zero [] o i h p = absurd (omega arith)
  worker_advance q j js zero (k ∷ ks) o i h p = (
    handler_returns 0 none,
    record q { idle = q.idle + 1; handling = erase_idx q.handling 0; handled = k ∷ q.handled },
    refl,
    ground arith,
  )

  handler_advance :
      (q : JobQueue Job) (k : Job) (ks : List Job) → q.handling ≡ k ∷ ks → CanAdvance q
  unfolding step report
  handler_advance q k ks h = (
    handler_returns 0 none,
    record q { idle = q.idle + 1; handling = erase_idx q.handling 0; handled = k ∷ q.handled },
    refl,
    ground arith,
  )

  pub advance :
      (q : JobQueue Job) (l : Loop Job) (out handling : List Job) (idle : ℕ)
      → q.loop ≡ l
      → q.outgoing ≡ out
      → q.handling ≡ handling
      → q.idle ≡ idle
      → 0 < idle + length handling
      → q.loop ≢ done
      → (q.loop ≡ receiving → q.shutdown ≡ quitting)
      → CanAdvance q
  unfolding step report
  advance q receiving out handling idle l o h i p n s =
      (receives_quit, record q { loop = draining; shutdown = quit_sent }, refl, ground (arith, s l))
  advance q l' (j ∷ js) handling idle l o h i p n s = worker_advance q j js idle handling o i h p
  advance q (sending j) [] handling (suc idle) l o h i p n s = (
    hands_over,
    record q {
      loop = receiving;
      idle = idle;
      handling = j ∷ q.handling;
      taken = q.taken ++ j ∷ [];
    },
    refl,
    ground arith,
  )
  advance q (sending j) [] [] zero l o h i p n s = absurd (omega arith)
  advance q (sending j) [] (k ∷ ks) zero l o h i p n s = handler_advance q k ks h
  advance q draining [] [] idle l o h i p n s =
      (ends, record q { loop = done; idle = 0 }, refl, ground arith)
  advance q draining [] (k ∷ ks) idle l o h i p n s = handler_advance q k ks h
  advance q done [] handling idle l o h i p n s = absurd (n l)

  -- With at least one worker the queue never hangs: while the loop holds a job or drains the
  -- workers, or a quit message waits, the loop or a worker can take a step or a handler can
  -- return.
  pub run-CanAdvance :
      (c : Config) (events : List (Event Job))
      → let q = run (new_job_queue c) events in
        0 < q.config.concurrency
        → q.loop ≢ done
        → (q.loop ≡ receiving → q.shutdown ≡ quitting)
        → CanAdvance q
  run-CanAdvance c events p n s =
      let q = run (new_job_queue c) events in
      let v = run-new_job_queue-Inv c events in
      advance q q.loop q.outgoing q.handling q.idle refl refl refl refl (omega (arith, v.workers n))
        n s

  -- What is left to do when the loop drains the workers.
  unfoldable pub remaining : JobQueue Job → ℕ
  remaining q =
      length q.outgoing
      + length q.outgoing
      + length q.handling
      + elim q.loop [ done ↦ 0 | receiving ↦ 1 | draining ↦ 1 | sending j ↦ 1 ]

  -- After the quit message no step accepts a job, and every possible step but a refusal of Queue,
  -- which changes nothing, leaves less to do.
  pub draining-remaining :
      (event : Event Job) (q q' : JobQueue Job)
      → q.loop ≡ draining
      → q.shutdown ≡ quit_sent
      → step event q ≡ some q'
      → (q'.accepted ≡ q.accepted) × ((event ≡ refuses) × (q' ≡ q) ⊎ (remaining q' < remaining q))
  unfolding step remaining
  draining-remaining (accepts j) q q' l s e = ground arith
  draining-remaining refuses q q' l s e = (ground arith, inl (refl, ground arith))
  draining-remaining shuts_down q q' l s e = ground arith
  draining-remaining receives_quit q q' l s e = ground arith
  draining-remaining puts q q' l s e = ground arith
  draining-remaining hands_over q q' l s e = ground arith
  draining-remaining takes q q' l s e = (ground arith, inr (ground arith))
  draining-remaining (handler_returns i x) q q' l s e =
      elim (Option-cases (get_elem? q.handling i)) [
        | inl p ↦ cc
        | inr (j, p) ↦ (ground arith, inr (ground (arith, length-erase_idx q.handling i j p)))
      ]
  draining-remaining ends q q' l s e = (ground arith, inr (ground arith))
