-- ===== src/JobWalker.antt =====
-- pkg/internal/jobwalker/jobwalker.go: the interface between job walkers and their handlers.
pub mod Ensures
pub mod Single
pub mod Parallel
use indexing_service.Prelude.{Bool}
use indexing_service.Result.{Io}

-- `S` is everything that a handler's calls read and change, `State` the value that the walker wraps.
pub record WrappedState (S State : Type 0) : Type 0 where
  pub access : Io S State
  pub modify : (State → State) → Io S (Unit {0})
  pub cmp_swap : (State → Bool) → (State → State) → Io S Bool

-- A handler takes the state, the function that spawns a job, and its job.
abbrev pub JobHandler : Type 0 → Type 0 → Type 0 → Type 0
JobHandler S Job State = WrappedState S State → (Job → Io S (Unit {0})) → Job → Io S (Unit {0})
