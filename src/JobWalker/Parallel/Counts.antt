-- ===== src/JobWalker/Parallel/Counts.antt =====
-- No job is lost or handled twice, and what a walk that returns has done.
use mathlib.Core.Path.{subst}
use indexing_service.Prelude.{
  ℕ, zero, suc, ◌+◌, ◌-◌, ◌<◌, ◌≡◌, refl, none, some, List, [], ◌∷◌, arith, length, length-append,
  length-erase_idx, total, total-append, total-erase_idx, get_elem?, SameItems, Option-cases, inl,
  inr,
}
use indexing_service.JobWalker.Parallel.{
  Phase, walking, returned, failed, Walk, new_walk, Event, feeds, swaps, spawns, handler_returns,
  handler_fails, receives_finish, receives_error, cancels, notices_cancel, drops_finish,
  drops_error, feed, enqueue, finish_phase, received, walk_step, step, run,
}

module _ {Job : Type 0} where
  total_empty : (f : Job → ℕ) (xs : List Job) → length xs ≡ 0 → total f xs ≡ 0
  total_empty f [] e = refl
  total_empty f (x ∷ xs) e = absurd (omega arith)

  length-enqueue : (js : List Job) (j : Job) → length (enqueue js j) ≡ suc (length js)
  unfolding enqueue
  length-enqueue [] j = refl
  length-enqueue (k ∷ js) j = omega (arith, length-append js (j ∷ []))

  total-enqueue :
      (f : Job → ℕ) (js : List Job) (j : Job) → total f (enqueue js j) ≡ f j + total f js
  unfolding enqueue
  total-enqueue f [] j = refl
  total-enqueue f (k ∷ js) j = omega (arith, total-append f js (j ∷ []))

  finish_phase-busy : (n : ℕ) (js : List Job) → finish_phase n js ≡ walking → 0 < length js + n
  unfolding finish_phase
  finish_phase-busy n [] e = ground arith
  finish_phase-busy n (j ∷ js) e = omega arith

  finish_phase-done : (n : ℕ) (js : List Job) → finish_phase n js ≡ returned → length js + n ≡ 0
  unfolding finish_phase
  finish_phase-done n [] e = ground arith
  finish_phase-done n (j ∷ js) e = ground arith

module _ {Job State : Type 0} where
  -- Jobs in progress are counted, every submitted job stands in one place, a walk that goes on has
  -- something to do, and one that has returned has nothing left.
  pub record Inv (w : Walk Job State) : Type 0 where
    pub counted : w.in_progress ≡ length w.running + length w.finishing + length w.lost
    pub accounted :
        (f : Job → ℕ)
        → total f w.submitted
          ≡ total f w.next
            + total f w.running
            + total f w.finishing
            + total f w.completed
            + total f w.lost
    pub busy : w.phase ≡ walking → 0 < length w.next + w.in_progress
    pub all_done : w.phase ≡ returned → length w.next + w.in_progress ≡ 0

  new_walk-Inv : (n : ℕ) (j : Job) (js : List Job) (st : State) → Inv (new_walk n j js st)
  unfolding new_walk
  new_walk-Inv n j js st = record {
    counted = refl;
    accounted = λ f. omega arith;
    busy = λ e. omega arith;
    all_done = λ e. cc;
  }

  feed-Inv :
      (w w' : Walk Job State) (next : List Job) (idle : ℕ)
      → w.next ≡ next
      → w.phase ≡ walking
      → feed w next idle ≡ some w'
      → Inv w
      → Inv w'
  unfolding feed
  feed-Inv w w' [] idle n p e v = cc
  feed-Inv w w' (j ∷ js) zero n p e v = cc
  feed-Inv w w' (j ∷ js) (suc idle) n p e v = record {
    counted = ground arith;
    accounted = λ f. ground (arith, v.accounted f);
    busy = λ q. ground arith;
    all_done = λ q. ground arith;
  }

  received-Inv :
      (w : Walk Job State) (i : ℕ) (j : Job)
      → get_elem? w.finishing i ≡ some j
      → Inv w
      → Inv (received w i j)
  unfolding received
  received-Inv w i j e v = record {
    counted = omega (arith, v.counted, length-erase_idx w.finishing i j e);
    accounted = λ f. omega (arith, v.accounted f, total-erase_idx f w.finishing i j e);
    busy = finish_phase-busy (w.in_progress - 1) w.next;
    all_done = finish_phase-done (w.in_progress - 1) w.next;
  }

  walk_step-Inv :
      (event : Event Job State) (w w' : Walk Job State)
      → w.phase ≡ walking
      → walk_step event w ≡ some w'
      → Inv w
      → Inv w'
  unfolding walk_step
  walk_step-Inv feeds w w' p e v = feed-Inv w w' w.next w.idle refl p e v
  walk_step-Inv (swaps i test change read) w w' p e v =
      elim (Option-cases (get_elem? w.running i)) [
        | inl q ↦ cc
        | inr (j, q) ↦ record {
          counted = ground (arith, v.counted);
          accounted = λ f. ground (arith, v.accounted f);
          busy = λ h. ground (arith, v.busy p);
          all_done = λ h. cc;
        }
      ]
  walk_step-Inv (spawns i queued) w w' p e v = elim (Option-cases (get_elem? w.running i)) [
    | inl q ↦ cc
    | inr (j, q) ↦ record {
      counted = ground (arith, v.counted);
      accounted = λ f. ground (arith, v.accounted f, total-enqueue f w.next queued);
      busy = λ h. ground (arith, length-enqueue w.next queued);
      all_done = λ h. cc;
    }
  ]
  walk_step-Inv (handler_returns i) w w' p e v = elim (Option-cases (get_elem? w.running i)) [
    | inl q ↦ cc
    | inr (j, q) ↦ record {
      counted = ground (arith, v.counted, length-erase_idx w.running i j q);
      accounted = λ f. ground (arith, v.accounted f, total-erase_idx f w.running i j q);
      busy = λ h. ground (arith, v.busy p);
      all_done = λ h. cc;
    }
  ]
  walk_step-Inv (handler_fails i x) w w' p e v = elim (Option-cases (get_elem? w.running i)) [
    | inl q ↦ cc
    | inr (j, q) ↦ record {
      counted = ground (arith, v.counted, length-erase_idx w.running i j q);
      accounted = λ f. ground (arith, v.accounted f, total-erase_idx f w.running i j q);
      busy = λ h. ground (arith, v.busy p);
      all_done = λ h. cc;
    }
  ]
  walk_step-Inv (receives_finish i) w w' p e v = elim (Option-cases (get_elem? w.finishing i)) [
    | inl q ↦ cc
    | inr (j, q) ↦ subst Inv (cc) (received-Inv w i j q v)
  ]
  walk_step-Inv (receives_error i) w w' p e v = elim (Option-cases (get_elem? w.failing i)) [
    | inl q ↦ cc
    | inr (x, q) ↦ record {
      counted = ground (arith, v.counted);
      accounted = λ f. ground (arith, v.accounted f);
      busy = λ h. cc;
      all_done = λ h. cc;
    }
  ]
  walk_step-Inv (cancels x) w w' p e v = record {
    counted = ground (arith, v.counted);
    accounted = λ f. ground (arith, v.accounted f);
    busy = λ h. ground (arith, v.busy p);
    all_done = λ h. cc;
  }
  walk_step-Inv notices_cancel w w' p e v = elim (Option-cases w.cancelled) [
    | inl q ↦ cc
    | inr (x, q) ↦ record {
      counted = ground (arith, v.counted);
      accounted = λ f. ground (arith, v.accounted f);
      busy = λ h. cc;
      all_done = λ h. cc;
    }
  ]
  walk_step-Inv (drops_finish i) w w' p e v = elim (Option-cases w.cancelled) [
    | inl c ↦ cc
    | inr (x, c) ↦ elim (Option-cases (get_elem? w.finishing i)) [
      | inl q ↦ cc
      | inr (j, q) ↦ record {
        counted = ground (arith, v.counted, length-erase_idx w.finishing i j q);
        accounted = λ f. ground (arith, v.accounted f, total-erase_idx f w.finishing i j q);
        busy = λ h. ground (arith, v.busy p);
        all_done = λ h. cc;
      }
    ]
  ]
  walk_step-Inv (drops_error i) w w' p e v = elim (Option-cases w.cancelled) [
    | inl c ↦ cc
    | inr (x, c) ↦ elim (Option-cases (get_elem? w.failing i)) [
      | inl q ↦ cc
      | inr (y, q) ↦ record {
        counted = ground (arith, v.counted);
        accounted = λ f. ground (arith, v.accounted f);
        busy = λ h. ground (arith, v.busy p);
        all_done = λ h. cc;
      }
    ]
  ]

  step-Inv :
      (event : Event Job State) (w w' : Walk Job State) → step event w ≡ some w' → Inv w → Inv w'
  unfolding step
  step-Inv event w w' e v = by_phase w.phase refl e
    where
      by_phase :
          (p : Phase)
          → w.phase ≡ p
          → elim p [ walking ↦ walk_step event w | returned ↦ none | failed x ↦ none ] ≡ some w'
          → Inv w'
      by_phase walking p q = walk_step-Inv event w w' p q v
      by_phase returned p q = cc
      by_phase (failed x) p q = cc

  run-Inv : (w : Walk Job State) (events : List (Event Job State)) → Inv w → Inv (run w events)
  unfolding run
  run-Inv w [] v = v
  run-Inv w (event ∷ events) v = elim (Option-cases (step event w)) [
    | inl e ↦ rw (e, run) (run-Inv w events v)
    | inr (w', e) ↦ rw (e, run) (run-Inv w' events (step-Inv event w w' e v))
  ]

  pub run-new_walk-Inv :
      (n : ℕ) (j : Job) (js : List Job) (st : State) (events : List (Event Job State))
      → Inv (run (new_walk n j js st) events)
  run-new_walk-Inv n j js st events = run-Inv _ events (new_walk-Inv n j js st)

  -- However the steps of the workers fall, a parallel walk that returns without an error has
  -- completed every initial and every spawned job, each as often as it was submitted, and no job
  -- is left anywhere.
  pub returned-SameItems :
      (n : ℕ) (j : Job) (js : List Job) (st : State) (events : List (Event Job State))
      → let w = run (new_walk n j js st) events in
        w.phase ≡ returned
        → SameItems w.submitted w.completed
          × (length w.next + length w.running + length w.finishing + length w.lost ≡ 0)
  returned-SameItems n j js st events e =
      let w = run (new_walk n j js st) events in
      let v = run-new_walk-Inv n j js st events in
      let empty : length w.next + length w.running + length w.finishing + length w.lost ≡ 0 =
        omega (arith, v.counted, v.all_done e) in
      (
        λ f. omega (
          arith,
          v.accounted f,
          total_empty f w.next (omega arith),
          total_empty f w.running (omega arith),
          total_empty f w.finishing (omega arith),
          total_empty f w.lost (omega arith),
        ),
        empty,
      )
