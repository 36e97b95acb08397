-- ===== src/JobQueue/Order.antt =====
-- The order of jobs in the queue, and the bounds of its buffer and its workers.
use mathlib.Core.List.{append_assoc, append-nil}
use mathlib.Core.Path.{subst}
use indexing_service.Prelude.{
  ℕ, zero, suc, ◌+◌, ◌≤◌, ◌≡◌, refl, sym, ap, ◌∙◌, some, List, [], ◌∷◌, ◌++◌, arith, ltb, length,
  length-append, length-erase_idx, total, total-append, total-erase_idx, get_elem?, Bool-cases,
  SameItems, ◌≢◌, Option-cases, inl, inr,
}
use indexing_service.JobQueue.{
  Loop, receiving, draining, done, sending, Shutdown, not_called, quitting, Config, JobQueue,
  new_job_queue, is_closing, Event, accepts, refuses, shuts_down, receives_quit, puts, hands_over,
  takes, handler_returns, ends, accept, put, hand_over, take, shut_down, receive_quit, end_loop,
  step, run,
}

module _ {Job : Type 0} where
  -- The job that the loop holds.
  abbrev pub held : Loop Job → List Job
  held (sending j) = j ∷ []
  held _ = []

  -- The accepted jobs are those taken, then the buffer, then the held one, in this order; the taken
  -- ones are those handled and being handled; the buffer is within its size; and until the loop ends
  -- every worker waits or handles a job. When it has ended, the buffer is empty and no job is handled.
  pub record Inv (q : JobQueue Job) : Type 0 where
    pub fifo : q.accepted ≡ q.taken ++ (q.outgoing ++ held q.loop)
    pub accounted : (f : Job → ℕ) → total f q.taken ≡ total f q.handling + total f q.handled
    pub bounded : length q.outgoing ≤ q.config.buffer
    pub workers : q.loop ≢ done → q.idle + length q.handling ≡ q.config.concurrency
    pub ended : q.loop ≡ done → (q.outgoing ≡ []) × (q.handling ≡ [])

  pub new_job_queue-Inv : (c : Config) → Inv (new_job_queue c)
  unfolding new_job_queue
  new_job_queue-Inv c = record {
    fifo = refl;
    accounted = λ f. refl;
    bounded = omega arith;
    workers = λ h. omega arith;
    ended = λ e. cc;
  }

  by_value : (x q : JobQueue Job) → some x ≡ some q → Inv x → Inv q
  by_value x q e v = subst Inv (same e) v
    where
      same : some x ≡ some q → x ≡ q
      same e' = cc

  accept-Inv :
      (q q' : JobQueue Job) (j : Job) (l : Loop Job)
      → q.loop ≡ l
      → accept q j l ≡ some q'
      → Inv q
      → Inv q'
  unfolding accept
  accept-Inv q q' j receiving p e v = by_value _ q' e (record {
    fifo =
        ap (λ xs. xs ++ j ∷ []) v.fifo
        ∙ rw p (rw append-nil (append_assoc q.taken q.outgoing (j ∷ [])));
    accounted = v.accounted;
    bounded = v.bounded;
    workers = λ h. v.workers (λ d. cc);
    ended = λ d. cc;
  })
  accept-Inv q q' j _ p e v = cc

  put-Inv : (q q' : JobQueue Job) (l : Loop Job) → q.loop ≡ l → put q l ≡ some q' → Inv q → Inv q'
  unfolding put
  put-Inv q q' (sending j) p e v = elim (Bool-cases (ltb (length q.outgoing) q.config.buffer)) [
    | inr full ↦ cc
    | inl room ↦ by_value _ q' (rw room at e) (record {
      fifo = v.fifo ∙ rw p (rw append-nil);
      accounted = v.accounted;
      bounded = ground (arith, length-append q.outgoing (j ∷ []));
      workers = λ h. v.workers (λ d. cc);
      ended = λ d. cc;
    })
  ]
  put-Inv q q' receiving p e v = cc
  put-Inv q q' _ p e v = cc

  hand_over-Inv :
      (q q' : JobQueue Job) (l : Loop Job) (out : List Job) (idle : ℕ)
      → q.loop ≡ l
      → q.outgoing ≡ out
      → q.idle ≡ idle
      → hand_over q l out idle ≡ some q'
      → Inv q
      → Inv q'
  unfolding hand_over
  hand_over-Inv q q' (sending j) [] (suc idle) p o i e v = by_value _ q' e (record {
    fifo = v.fifo ∙ rw (p, o) (rw append-nil);
    accounted = λ f. omega (arith, v.accounted f, total-append f q.taken (j ∷ []));
    bounded = v.bounded;
    workers = λ h. omega (arith, v.workers (λ d. cc), i);
    ended = λ d. cc;
  })
  hand_over-Inv q q' (sending j) [] zero p o i e v = cc
  hand_over-Inv q q' (sending j) (k ∷ ks) _ p o i e v = cc
  hand_over-Inv q q' receiving _ _ p o i e v = cc
  hand_over-Inv q q' _ _ _ p o i e v = cc

  not_empty : (xs : List Job) (j : Job) (js : List Job) → xs ≡ j ∷ js → xs ≡ [] → ⊥
  not_empty xs j js o e = cc

  take-Inv :
      (q q' : JobQueue Job) (out : List Job) (idle : ℕ)
      → q.outgoing ≡ out
      → q.idle ≡ idle
      → take q out idle ≡ some q'
      → Inv q
      → Inv q'
  unfolding take
  take-Inv q q' (j ∷ js) (suc idle) o i e v = by_value _ q' e (record {
    fifo = v.fifo ∙ rw o (sym (append_assoc q.taken (j ∷ []) (js ++ held q.loop)));
    accounted = λ f. omega (arith, v.accounted f, total-append f q.taken (j ∷ []));
    bounded = omega (arith, v.bounded, ap length o);
    workers = λ h. omega (arith, v.workers h, i);
    ended = λ d. absurd (not_empty q.outgoing j js o (v.ended d).0);
  })
  take-Inv q q' (j ∷ js) zero o i e v = cc
  take-Inv q q' [] _ o i e v = cc

  shut_down-Inv : (q q' : JobQueue Job) (s : Shutdown) → shut_down q s ≡ some q' → Inv q → Inv q'
  unfolding shut_down
  shut_down-Inv q q' not_called e v = by_value _ q' e (record {
    fifo = v.fifo;
    accounted = v.accounted;
    bounded = v.bounded;
    workers = v.workers;
    ended = v.ended;
  })
  shut_down-Inv q q' _ e v = cc

  receive_quit-Inv :
      (q q' : JobQueue Job) (l : Loop Job) (s : Shutdown)
      → q.loop ≡ l
      → receive_quit q l s ≡ some q'
      → Inv q
      → Inv q'
  unfolding receive_quit
  receive_quit-Inv q q' receiving quitting p e v = by_value _ q' e (record {
    fifo = v.fifo ∙ rw p;
    accounted = v.accounted;
    bounded = v.bounded;
    workers = λ h. v.workers (λ d. cc);
    ended = λ d. cc;
  })
  receive_quit-Inv q q' receiving _ p e v = cc
  receive_quit-Inv q q' _ _ p e v = cc

  end_loop-Inv :
      (q q' : JobQueue Job) (l : Loop Job) (out handling : List Job)
      → q.loop ≡ l
      → q.outgoing ≡ out
      → q.handling ≡ handling
      → end_loop q l out handling ≡ some q'
      → Inv q
      → Inv q'
  unfolding end_loop
  end_loop-Inv q q' draining [] [] p o h e v = by_value _ q' e (record {
    fifo = v.fifo ∙ rw p;
    accounted = v.accounted;
    bounded = v.bounded;
    workers = λ d. absurd (d refl);
    ended = λ d. (o, h);
  })
  end_loop-Inv q q' draining [] (j ∷ js) p o h e v = cc
  end_loop-Inv q q' draining (j ∷ js) _ p o h e v = cc
  end_loop-Inv q q' receiving _ _ p o h e v = cc
  end_loop-Inv q q' _ _ _ p o h e v = cc

  pub step-Inv : (event : Event Job) (q q' : JobQueue Job) → step event q ≡ some q' → Inv q → Inv q'
  unfolding step
  step-Inv (accepts j) q q' e v = accept-Inv q q' j q.loop refl e v
  step-Inv refuses q q' e v = elim (Bool-cases (is_closing q.shutdown)) [
    | inl c ↦ by_value q q' (ground arith) v
    | inr c ↦ cc
  ]
  step-Inv shuts_down q q' e v = shut_down-Inv q q' q.shutdown e v
  step-Inv receives_quit q q' e v = receive_quit-Inv q q' q.loop q.shutdown refl e v
  step-Inv puts q q' e v = put-Inv q q' q.loop refl e v
  step-Inv hands_over q q' e v = hand_over-Inv q q' q.loop q.outgoing q.idle refl refl refl e v
  step-Inv takes q q' e v = take-Inv q q' q.outgoing q.idle refl refl e v
  step-Inv (handler_returns i x) q q' e v = elim (Option-cases (get_elem? q.handling i)) [
    | inl p ↦ cc
    | inr (j, p) ↦ by_value _ q' (rw (p, step) at e) (record {
      fifo = v.fifo;
      accounted = λ f. omega (arith, v.accounted f, total-erase_idx f q.handling i j p);
      bounded = v.bounded;
      workers = λ h. omega (arith, v.workers h, length-erase_idx q.handling i j p);
      ended = λ d. absurd (nothing q.handling i j p (v.ended d).1);
    })
  ]
    where
      nothing : (xs : List Job) (i : ℕ) (j : Job) → get_elem? xs i ≡ some j → xs ≡ [] → ⊥
      nothing [] i j p n = cc
      nothing (x ∷ xs) i j p n = cc
  step-Inv ends q q' e v = end_loop-Inv q q' q.loop q.outgoing q.handling refl refl refl e v

  run-Inv : (q : JobQueue Job) (events : List (Event Job)) → Inv q → Inv (run q events)
  unfolding run
  run-Inv q [] v = v
  run-Inv q (event ∷ events) v = elim (Option-cases (step event q)) [
    | inl e ↦ rw (e, run) (run-Inv q events v)
    | inr (q', e) ↦ rw (e, run) (run-Inv q' events (step-Inv event q q' e v))
  ]

  -- Whatever clients, loop and workers do, jobs are taken in the order in which they were
  -- accepted, each job taken is in a handler or handled, the buffer keeps to its size, and there
  -- are never more handlers than workers.
  pub run-new_job_queue-Inv :
      (c : Config) (events : List (Event Job)) → Inv (run (new_job_queue c) events)
  run-new_job_queue-Inv c events = run-Inv (new_job_queue c) events (new_job_queue-Inv c)

  pub done_total : (q : JobQueue Job) → q.loop ≡ done → Inv q → SameItems q.accepted q.handled
  done_total q d v f =
      ap (total f) v.fifo
      ∙ rw (d, (v.ended d).0)
          (rw append-nil (omega (arith, v.accounted f, ap (total f) (v.ended d).1)))

  -- When the loop of the queue has ended, the jobs that were accepted are those that were handled,
  -- each as often, whatever races with the shutdown.
  pub done-SameItems :
      (c : Config) (events : List (Event Job))
      → (run (new_job_queue c) events).loop ≡ done
      → SameItems (run (new_job_queue c) events).accepted (run (new_job_queue c) events).handled
  done-SameItems c events d = done_total _ d (run-new_job_queue-Inv c events)
