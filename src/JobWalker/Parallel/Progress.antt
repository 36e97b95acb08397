-- ===== src/JobWalker/Parallel/Progress.antt =====
-- A walk that has not returned can go on; and what the changes of its state keep.
use indexing_service.Prelude.{
  ℕ, zero, suc, ◌+◌, ◌<◌, ◌≡◌, refl, Bool, true, false, none, some, List, [], ◌∷◌, arith, length,
  length-erase_idx, get_elem?, erase_idx, Option-cases, inl, inr,
}
use indexing_service.Result.{Err}
use indexing_service.JobWalker.Parallel.{
  Phase, walking, returned, failed, Walk, new_walk, Event, feeds, swaps, spawns, handler_returns,
  handler_fails, receives_finish, receives_error, cancels, notices_cancel, drops_finish,
  drops_error, feed, received, walk_step, step, run,
}
use indexing_service.JobWalker.Parallel.Counts.{Inv, run-new_walk-Inv}

module _ {Job State : Type 0} where
  -- Until the context is done every worker is idle, in a handler, or reporting, and each lost job has
  -- its error reported.
  pub record Live (n : ℕ) (w : Walk Job State) : Type 0 where
    pub workers :
        w.phase ≡ walking
        → w.cancelled ≡ none
        → w.idle + length w.running + length w.finishing + length w.failing ≡ n
    pub reported : w.phase ≡ walking → w.cancelled ≡ none → length w.lost ≡ length w.failing

  feed-Live :
      (n : ℕ) (w w' : Walk Job State) (next : List Job) (idle : ℕ)
      → w.idle ≡ idle
      → w.phase ≡ walking
      → feed w next idle ≡ some w'
      → Live n w
      → Live n w'
  unfolding feed
  feed-Live n w w' [] idle q p e v = cc
  feed-Live n w w' (j ∷ js) zero q p e v = cc
  feed-Live n w w' (j ∷ js) (suc idle) q p e v = record {
    workers = λ a b. ground (arith, v.workers p);
    reported = λ a b. ground (arith, v.reported p);
  }

  walk_step-Live :
      (n : ℕ) (event : Event Job State) (w w' : Walk Job State)
      → w.phase ≡ walking
      → walk_step event w ≡ some w'
      → Live n w
      → Live n w'
  unfolding walk_step
  walk_step-Live n feeds w w' p e v = feed-Live n w w' w.next w.idle refl p e v
  walk_step-Live n (swaps i test change read) w w' p e v =
      elim (Option-cases (get_elem? w.running i)) [
        | inl q ↦ cc
        | inr (j, q) ↦ record {
          workers = λ a b. ground (arith, v.workers p);
          reported = λ a b. ground (arith, v.reported p);
        }
      ]
  walk_step-Live n (spawns i queued) w w' p e v = elim (Option-cases (get_elem? w.running i)) [
    | inl q ↦ cc
    | inr (j, q) ↦ record {
      workers = λ a b. ground (arith, v.workers p);
      reported = λ a b. ground (arith, v.reported p);
    }
  ]
  walk_step-Live n (handler_returns i) w w' p e v = elim (Option-cases (get_elem? w.running i)) [
    | inl q ↦ cc
    | inr (j, q) ↦ record {
      workers = λ a b. ground (arith, v.workers p, length-erase_idx w.running i j q);
      reported = λ a b. ground (arith, v.reported p);
    }
  ]
  walk_step-Live n (handler_fails i x) w w' p e v = elim (Option-cases (get_elem? w.running i)) [
    | inl q ↦ cc
    | inr (j, q) ↦ record {
      workers = λ a b. ground (arith, v.workers p, length-erase_idx w.running i j q);
      reported = λ a b. ground (arith, v.reported p);
    }
  ]
  walk_step-Live n (receives_finish i) w w' p e v = elim (Option-cases (get_elem? w.finishing i)) [
    | inl q ↦ cc
    | inr (j, q) ↦ record {
      workers = λ a b. ground (arith, v.workers p, length-erase_idx w.finishing i j q);
      reported = λ a b. ground (arith, v.reported p);
    }
  ]
  walk_step-Live n (receives_error i) w w' p e v = elim (Option-cases (get_elem? w.failing i)) [
    | inl q ↦ cc
    | inr (x, q) ↦ record { workers = λ a b. cc; reported = λ a b. cc }
  ]
  walk_step-Live n (cancels x) w w' p e v = record { workers = λ a b. cc; reported = λ a b. cc }
  walk_step-Live n notices_cancel w w' p e v = elim (Option-cases w.cancelled) [
    | inl q ↦ cc
    | inr (x, q) ↦ record { workers = λ a b. cc; reported = λ a b. cc }
  ]
  walk_step-Live n (drops_finish i) w w' p e v = elim (Option-cases w.cancelled) [
    | inl c ↦ cc
    | inr (x, c) ↦ elim (Option-cases (get_elem? w.finishing i)) [
      | inl q ↦ cc
      | inr (j, q) ↦ record { workers = λ a b. cc; reported = λ a b. cc }
    ]
  ]
  walk_step-Live n (drops_error i) w w' p e v = elim (Option-cases w.cancelled) [
    | inl c ↦ cc
    | inr (x, c) ↦ elim (Option-cases (get_elem? w.failing i)) [
      | inl q ↦ cc
      | inr (j, q) ↦ record { workers = λ a b. cc; reported = λ a b. cc }
    ]
  ]

  step-Live :
      (n : ℕ) (event : Event Job State) (w w' : Walk Job State)
      → step event w ≡ some w'
      → Live n w
      → Live n w'
  unfolding step
  step-Live n event w w' e v = by_phase w.phase refl e
    where
      by_phase :
          (p : Phase)
          → w.phase ≡ p
          → elim p [ walking ↦ walk_step event w | returned ↦ none | failed x ↦ none ] ≡ some w'
          → Live n w'
      by_phase walking p q = walk_step-Live n event w w' p q v
      by_phase returned p q = cc
      by_phase (failed x) p q = cc

  run-Live :
      (n : ℕ) (w : Walk Job State) (events : List (Event Job State))
      → Live n w
      → Live n (run w events)
  unfolding run
  run-Live n w [] v = v
  run-Live n w (event ∷ events) v = elim (Option-cases (step event w)) [
    | inl e ↦ rw (e, run) (run-Live n w events v)
    | inr (w', e) ↦ rw (e, run) (run-Live n w' events (step-Live n event w w' e v))
  ]

  new_walk-Live : (n : ℕ) (j : Job) (js : List Job) (st : State) → Live n (new_walk n j js st)
  unfolding new_walk
  new_walk-Live n j js st = record { workers = λ a b. omega arith; reported = λ a b. refl }

  -- A step of the walker itself, or the return of a handler.
  abbrev pub is_advance : Event Job State → Bool
  is_advance feeds = true
  is_advance (handler_returns i) = true
  is_advance (receives_finish i) = true
  is_advance (receives_error i) = true
  is_advance notices_cancel = true
  is_advance _ = false

  abbrev pub CanAdvance : Walk Job State → Type 0
  CanAdvance w =
      (event : Event Job State) × (w' : Walk Job State) × (is_advance event ≡ true)
      × (step event w ≡ some w')

  feed_step :
      (n : ℕ) (w : Walk Job State) (j : Job) (js : List Job) (idle : ℕ)
      → w.phase ≡ walking
      → w.next ≡ j ∷ js
      → w.idle ≡ suc idle
      → step feeds w
        ≡ some (record w {
          next = js;
          in_progress = w.in_progress + 1;
          idle = idle;
          running = j ∷ w.running;
        })
  unfolding step walk_step
  feed_step n w j js idle p t d = ground arith

  advance :
      (n : ℕ) (w : Walk Job State) (running finishing : List Job) (failing : List Err)
      (next : List Job) (idle : ℕ)
      → 0 < n
      → w.phase ≡ walking
      → w.cancelled ≡ none
      → w.running ≡ running
      → w.finishing ≡ finishing
      → w.failing ≡ failing
      → w.next ≡ next
      → w.idle ≡ idle
      → Inv w
      → Live n w
      → CanAdvance w
  unfolding step walk_step
  advance n w (j ∷ js) finishing failing next idle h p c r f x t d v l = (
    handler_returns 0,
    record w { running = erase_idx w.running 0; finishing = j ∷ w.finishing },
    refl,
    ground arith,
  )
  advance n w [] (j ∷ js) failing next idle h p c r f x t d v l =
      (receives_finish 0, received w 0 j, refl, ground arith)
  advance n w [] [] (e ∷ es) next idle h p c r f x t d v l = (
    receives_error 0,
    record w { failing = erase_idx w.failing 0; phase = failed e },
    refl,
    ground arith,
  )
  advance n w [] [] [] (j ∷ js) (suc idle) h p c r f x t d v l = (
    feeds,
    record w { next = js; in_progress = w.in_progress + 1; idle = idle; running = j ∷ w.running },
    refl,
    feed_step n w j js idle p t d,
  )
  advance n w [] [] [] (j ∷ js) zero h p c r f x t d v l = absurd (ground (arith, l.workers p c))
  advance n w [] [] [] [] idle h p c r f x t d v l =
      absurd (ground (arith, l.reported p c, v.counted, v.busy p))

  -- With at least one worker a parallel walk never hangs: as long as it has not returned, a job
  -- can be fed, a handler can return, a report can be received, or the context is done and that is
  -- noticed.
  pub walking-CanAdvance :
      (n : ℕ) (j : Job) (js : List Job) (st : State) (events : List (Event Job State))
      → 0 < n
      → let w = run (new_walk n j js st) events in w.phase ≡ walking → CanAdvance w
  unfolding step walk_step
  walking-CanAdvance n j js st events h p =
      let w = run (new_walk n j js st) events in
      elim (Option-cases w.cancelled) [
        | inl c ↦
            advance n w w.running w.finishing w.failing w.next w.idle h p c refl refl refl refl refl
              (run-new_walk-Inv n j js st events)
              (run-Live n (new_walk n j js st) events (new_walk-Live n j js st))
        | inr (e, c) ↦ (notices_cancel, record w { phase = failed e }, refl, ground arith)
      ]
