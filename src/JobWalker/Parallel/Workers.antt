-- ===== src/JobWalker/Parallel/Workers.antt =====
-- pkg/internal/jobwalker/parallelwalk/parallelwalk.go: a walk as the handler in one of its workers
-- meets it. Between two calls of the handler the coordinator and the other workers take steps.
use indexing_service.Prelude.{
  ◌≡◌, refl, Bool, true, false, Option, none, some, List, [], ◌∷◌, if◌then◌else◌, All,
}
use indexing_service.Result.{Result, ok, err, Err, Io}
use indexing_service.JobWalker.{WrappedState}
use indexing_service.JobWalker.Parallel.{
  Phase, walking, returned, failed, Walk, Event, run, enqueue,
}

module _ {Job State : Type 0} (Allowed : Event Job State → Type 0) where
  -- The steps of the others before the next call, and which case a `select` takes that could take
  -- both.
  pub record Turn : Type 0 where
    pub steps : List (Event Job State)
    pub steps_Allowed : All Allowed steps
    pub sends : Bool

  -- The walk, the turns of the others that are to come, and the world of the handler's other calls.
  pub record Shared (W : Type 0) : Type 0 where
    pub walk : Walk Job State
    pub turns : List Turn
    pub world : W

  abbrev sends_next : List Turn → Bool
  sends_next [] = true
  sends_next (t ∷ turns) = t.sends

  module _ {W : Type 0} where
    -- The others take their steps; after the last turn they rest.
    unfoldable pub others : List Turn → Shared W → Shared W
    others [] s = s
    others (t ∷ turns) s = record s { walk = run s.walk t.steps; turns = turns }

    abbrev pub wait : Shared W → Shared W
    wait s = others s.turns s

    abbrev with_state : State → Shared W → Shared W
    with_state st s = record s { walk = record (s.walk) { state = st } }

    -- The second test of CmpSwap and its change, under the lock.
    abbrev swap_locked : (State → Bool) → (State → State) → Shared W → Result Bool × Shared W
    swap_locked will_modify modify s =
        if will_modify s.walk.state
        then (ok true, with_state (modify s.walk.state) s)
        else (ok false, s)

    -- Access, Modify and CmpSwap of threadSafeState.
    unfoldable pub thread_safe_state : WrappedState (Shared W) State
    unfolding others
    thread_safe_state = record {
      access = λ s. let s' = wait s in (ok s'.walk.state, s');
      modify = λ modify s. let s' = wait s in (ok tt, with_state (modify s'.walk.state) s');
      cmp_swap = λ will_modify modify s.
          let s' = wait s in
          if will_modify s'.walk.state
          then swap_locked will_modify modify (wait s')
          else (ok false, s');
    }

    -- `case spawnedJobs <- next`: the coordinator queues the job.
    abbrev queue_job : Job → Shared W → Shared W
    queue_job j s = record s {
      walk = record (s.walk) { next = enqueue s.walk.next j; submitted = j ∷ s.walk.submitted };
    }

    -- The spawn function. `canceled` is the error of a context after its `cancel`, which the walker
    -- calls when it returns.
    abbrev spawn_to :
        Err → Phase → Option Err → Bool → Job → Shared W → Result (Unit {0}) × Shared W
    spawn_to canceled walking none sends j s = (ok tt, queue_job j s)
    spawn_to canceled walking (some e) true j s = (ok tt, queue_job j s)
    spawn_to canceled walking (some e) false j s = (err e, s)
    spawn_to canceled returned stop sends j s = (err canceled, s)
    spawn_to canceled (failed x) stop sends j s = (err canceled, s)

    unfoldable pub worker_spawn : Err → Job → Io (Shared W) (Unit {0})
    unfolding others enqueue
    worker_spawn canceled j s =
        let s' = wait s in
        spawn_to canceled s'.walk.phase s'.walk.cancelled (sends_next s.turns) j s'

    -- A call of the handler that reads and changes only its own world.
    unfoldable pub among : {A : Type 0} → Io W A → Io (Shared W) A
    unfolding others
    among m s = let s' = wait s in let (r, w) = m s'.world in (r, record s' { world = w })

    spawn_to-state :
        (canceled : Err) (p : Phase) (stop : Option Err) (sends : Bool) (j : Job) (s : Shared W)
        → (spawn_to canceled p stop sends j s).1.walk.state ≡ s.walk.state
    spawn_to-state canceled walking none sends j s = refl
    spawn_to-state canceled walking (some e) true j s = refl
    spawn_to-state canceled walking (some e) false j s = refl
    spawn_to-state canceled returned stop sends j s = refl
    spawn_to-state canceled (failed x) stop sends j s = refl

    -- A spawn leaves the state as the others leave it.
    pub worker_spawn-state :
        (canceled : Err) (j : Job) (s : Shared W)
        → (worker_spawn canceled j s).1.walk.state ≡ (others s.turns s).walk.state
    unfolding worker_spawn
    worker_spawn-state canceled j s =
        let s' = wait s in
        spawn_to-state canceled s'.walk.phase s'.walk.cancelled (sends_next s.turns) j s'
