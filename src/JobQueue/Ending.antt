-- ===== src/JobQueue/Ending.antt =====
-- How a queue that drains its workers comes to its end.
use indexing_service.Prelude.{
  ℕ, zero, suc, ◌+◌, ◌≤◌, ◌<◌, ◌≡◌, ◌≢◌, refl, sym, ap, ◌∙◌, true, some, List, [], ◌∷◌, arith,
  length, ◌⊎◌, inl, inr, SameItems, total, Option-cases, get_elem?,
}
use indexing_service.JobQueue.{
  draining, done, quit_sent, Config, JobQueue, new_job_queue, Event, accepts, refuses, shuts_down,
  receives_quit, puts, hands_over, takes, handler_returns, ends, step, run,
}
use indexing_service.JobQueue.Order.{Inv, step-Inv, run-new_job_queue-Inv, done_total}
use indexing_service.JobQueue.Bounds.{step-config}
use indexing_service.JobQueue.Drain.{CanAdvance, advance, is_advance, remaining, draining-remaining}

module _ {Job : Type 0} where
  -- Steps that are possible one after another, none of which is a refusal of Queue.
  unfoldable pub Steps : JobQueue Job → List (Event Job) → Type 0
  Steps q [] = Unit
  Steps q (event ∷ events) =
      (q' : JobQueue Job) × (step event q ≡ some q') × (event ≢ refuses) × Steps q' events

  -- What a step leaves of a queue that drains its workers.
  step-draining :
      (event : Event Job) (q q' : JobQueue Job)
      → q.loop ≡ draining
      → q.shutdown ≡ quit_sent
      → step event q ≡ some q'
      → ((q'.loop ≡ draining) ⊎ (q'.loop ≡ done)) × (q'.shutdown ≡ quit_sent)
  unfolding step
  step-draining (accepts j) q q' l s e = ground arith
  step-draining refuses q q' l s e = (inl (ground arith), ground arith)
  step-draining shuts_down q q' l s e = ground arith
  step-draining receives_quit q q' l s e = ground arith
  step-draining puts q q' l s e = ground arith
  step-draining hands_over q q' l s e = ground arith
  step-draining takes q q' l s e = (inl (ground arith), ground arith)
  step-draining (handler_returns i x) q q' l s e = elim (Option-cases (get_elem? q.handling i)) [
    | inl p ↦ cc
    | inr (j, p) ↦ (inl (ground arith), ground arith)
  ]
  step-draining ends q q' l s e = (inr (ground arith), ground arith)

  -- A queue that has ended takes no more steps.
  step-done :
      (event : Event Job) (q q' : JobQueue Job)
      → q.loop ≡ done
      → q.shutdown ≡ quit_sent
      → Inv q
      → step event q ≡ some q'
      → event ≡ refuses
  unfolding step
  step-done (accepts j) q q' l s v e = ground arith
  step-done refuses q q' l s v e = refl
  step-done shuts_down q q' l s v e = ground arith
  step-done receives_quit q q' l s v e = ground arith
  step-done puts q q' l s v e = ground arith
  step-done hands_over q q' l s v e = ground arith
  step-done takes q q' l s v e = ground (arith, v.ended l)
  step-done (handler_returns i x) q q' l s v e = ground (arith, v.ended l)
  step-done ends q q' l s v e = ground arith

  -- A queue that drains its workers or has ended, past its quit message, with the jobs that it has
  -- accepted.
  record Ending (accepted : List Job) (q : JobQueue Job) : Type 0 where
    at_end : (q.loop ≡ draining) ⊎ (q.loop ≡ done)
    sent : q.shutdown ≡ quit_sent
    inv : Inv q
    workers : 0 < q.config.concurrency
    same : q.accepted ≡ accepted

  -- A step that is no refusal leaves such a queue with less to do.
  step-Ending :
      (accepted : List Job) (event : Event Job) (q q' : JobQueue Job)
      → Ending accepted q
      → step event q ≡ some q'
      → event ≢ refuses
      → Ending accepted q' × (remaining q' < remaining q)
  step-Ending accepted event q q' v e n = elim v.at_end [
    | inr l ↦ absurd (n (step-done event q q' l v.sent v.inv e))
    | inl l ↦
        (let (kept, less) = draining-remaining event q q' l v.sent e in
          let (at, sent) = step-draining event q q' l v.sent e in
          (
            record {
              at_end = at;
              sent = sent;
              inv = step-Inv event q q' e v.inv;
              workers = rw (step-config event q q' e) v.workers;
              same = kept ∙ v.same;
            },
            elim less [ inl (r, s) ↦ absurd (n r) | inr less ↦ less ],
          ))
  ]

  -- So the steps are no more than what is left to do.
  run-Ending :
      (accepted : List Job) (q : JobQueue Job) (events : List (Event Job))
      → Ending accepted q
      → Steps q events
      → Ending accepted (run q events) × (length events + remaining (run q events) ≤ remaining q)
  unfolding Steps run
  run-Ending accepted q [] v steps = (v, omega arith)
  run-Ending accepted q (event ∷ events) v (q', e, n, steps) =
      let (v', less) = step-Ending accepted event q q' v e n in
      let (w, total) = run-Ending accepted q' events v' steps in rw e (w, omega arith)

  is_advance-ne-refuses : (event : Event Job) → is_advance event ≡ true → event ≢ refuses
  is_advance-ne-refuses event h r = ground arith

  can_advance :
      (accepted : List Job) (q : JobQueue Job)
      → Ending accepted q
      → q.loop ≡ draining
      → CanAdvance q
  can_advance accepted q v l =
      advance q q.loop q.outgoing q.handling q.idle refl refl refl refl
        (omega (arith, v.workers, v.inv.workers (λ d. cc))) (λ d. cc) (λ r. cc)

  draining-remaining_ne_zero : (q : JobQueue Job) → q.loop ≡ draining → remaining q ≤ 0 → ⊥
  unfolding remaining
  draining-remaining_ne_zero q l le = ground arith

  -- There are steps to the end, within any number that is not less than what is left to do.
  can_end :
      (accepted : List Job) (fuel : ℕ) (q : JobQueue Job)
      → Ending accepted q
      → remaining q ≤ fuel
      → (more : List (Event Job)) × Steps q more × ((run q more).loop ≡ done)
  unfolding Steps run
  can_end accepted zero q v le = elim v.at_end [
    | inr l ↦ ([], tt, l)
    | inl l ↦ absurd (draining-remaining_ne_zero q l le)
  ]
  can_end accepted (suc fuel) q v le = elim v.at_end [
    | inr l ↦ ([], tt, l)
    | inl l ↦
        (let (event, q', adv, e) = can_advance accepted q v l in
          let n = is_advance-ne-refuses event adv in
          let (v', less) = step-Ending accepted event q q' v e n in
          let (more, steps, end) = can_end accepted fuel q' v' (omega arith) in
          (event ∷ more, (q', e, n, steps), rw (run, e) end))
  ]

  -- In a queue with at least one worker whose loop drains the workers after the quit message,
  -- whatever happened before: steps that are possible one after another, none of them a refusal of
  -- Queue, are no more than what is left to do; and after any such steps others lead to the end of
  -- the loop, with the same jobs accepted, each of them handled as often as it was accepted.
  pub draining-Ends :
      (c : Config) (events schedule : List (Event Job))
      → let q = run (new_job_queue c) events in
        0 < q.config.concurrency
        → q.loop ≡ draining
        → q.shutdown ≡ quit_sent
        → Steps q schedule
        → (length schedule ≤ remaining q)
          × (more : List (Event Job)) × Steps (run q schedule) more
          × ((run (run q schedule) more).loop ≡ done)
          × ((run (run q schedule) more).accepted ≡ q.accepted)
          × SameItems q.accepted (run (run q schedule) more).handled
  draining-Ends c events schedule p l s steps =
      let q = run (new_job_queue c) events in
      let start : Ending q.accepted q = record {
        at_end = inl l;
        sent = s;
        inv = run-new_job_queue-Inv c events;
        workers = p;
        same = refl;
      } in
      let (v, bound) = run-Ending q.accepted q schedule start steps in
      let (more, ms, end) =
        can_end q.accepted (remaining (run q schedule)) (run q schedule) v (omega arith) in
      let (w, rest) = run-Ending q.accepted (run q schedule) more v ms in
      (
        omega arith,
        more,
        ms,
        end,
        w.same,
        λ f. ap (total f) (sym w.same) ∙ done_total _ end w.inv f,
      )
