-- ===== src/JobWalker/Parallel/Examples.antt =====
-- A walk with one worker: a job spawns another, and the walk returns when both have ended.
use indexing_service.Prelude.{ℕ, ◌+◌, ◌≡◌, refl, List, [], ◌∷◌, SameItems, length, ltb, arith}
use indexing_service.JobWalker.Parallel.{
  new_walk, Event, feeds, swaps, spawns, handler_returns, receives_finish, feed, walk_step, step,
  run, locked_swap, received, enqueue, has_next_job, finish_phase,
}
use indexing_service.JobWalker.Parallel.Counts.{returned-SameItems}
use indexing_service.JobWalker.Parallel.Progress.{CanAdvance, walking-CanAdvance}

abbrev first_round : List (Event ℕ ℕ)
first_round =
    feeds
    ∷ swaps 0 (λ n. ltb n 5) (λ n. n + 1) 0
    ∷ spawns 0 8
    ∷ handler_returns 0
    ∷ receives_finish 0
    ∷ []

abbrev two_rounds : List (Event ℕ ℕ)
two_rounds =
    feeds
    ∷ spawns 0 8
    ∷ handler_returns 0
    ∷ receives_finish 0
    ∷ feeds
    ∷ handler_returns 0
    ∷ receives_finish 0
    ∷ []

returned-SameItems_example :
    let w = run (new_walk 1 7 [] 0) two_rounds in
    SameItems w.submitted w.completed
    × (length w.next + length w.running + length w.finishing + length w.lost ≡ 0)
unfolding run step walk_step new_walk feed enqueue received finish_phase has_next_job locked_swap
returned-SameItems_example = returned-SameItems 1 7 [] 0 two_rounds refl

walking-CanAdvance_example : CanAdvance (run (new_walk 1 7 [] 0) first_round)
unfolding run step walk_step new_walk feed enqueue received finish_phase has_next_job locked_swap
walking-CanAdvance_example = walking-CanAdvance 1 7 [] 0 first_round (omega arith) refl
