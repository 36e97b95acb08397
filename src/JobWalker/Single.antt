-- ===== src/JobWalker/Single.antt =====
-- pkg/internal/jobwalker/singlewalk/singlewalk.go: the sequential walker.
pub mod Ends
use mathlib.Core.List.{reverse}
use indexing_service.Prelude.{
  Bool, Option, none, some, List, [], ◌∷◌, ◌++◌, if◌then◌else◌, true, false,
}
use indexing_service.Result.{Result, ok, err, Err, index_out_of_range, is_panic, Io, pure, raise}
use indexing_service.JobWalker.{WrappedState, JobHandler}

-- The wrapped state `m`, the stack, and the world that the handler's other calls work on. (The slice
-- `initial` is a variable of the loop.)
pub record Single (W State Job : Type 0) : Type 0 where
  pub m : State
  pub stack : List Job
  pub world : W

module _ {W State Job : Type 0} where
  unfoldable pub single_state : WrappedState (Single W State Job) State
  single_state = record {
    access = λ s. (ok s.m, s);
    modify = λ f s. (ok tt, record s { m = f s.m });
    cmp_swap = λ will_modify modify s.
        if will_modify s.m then (ok true, record s { m = modify s.m }) else (ok false, s);
  }

  -- The spawn function appends to the stack.
  unfoldable pub push : Job → Io (Single W State Job) (Unit {0})
  push j s = (ok tt, record s { stack = s.stack ++ j ∷ [] })

  module _ (cancelled : W → Option Err) (handler : JobHandler (Single W State Job) Job State) where
    run_job : Job → Io (Single W State Job) (Unit {0})
    unfolding single_state push
    run_job = handler single_state push

    -- The error of a handler is dropped; a panic ends all.
    after_handler :
        Result (Unit {0}) × Single W State Job
        → Io (Single W State Job) State
        → Result State × Single W State Job
    unfolding is_panic
    after_handler (ok u, s) rest = rest s
    after_handler (err e, s) rest = let next = rest s in if is_panic e then (err e, s) else next

    -- One round per job left in `initial`, the last first. The loop
    -- tests the stack, which no round makes shorter, and takes the job from `initial`.
    abbrev round :
        List Job → Option Err → Io (Single W State Job) State → Io (Single W State Job) State
    round [] stop rest s = (ok s.m, s)
    round (j ∷ stack) (some e) rest s = (err e, s)
    round (j ∷ stack) none rest s = rest s

    loop : List Job → Io (Single W State Job) State
    unfolding after_handler run_job
    loop [] s = round s.stack (cancelled s.world) (raise index_out_of_range) s
    loop (next ∷ initial) s =
        round s.stack (cancelled s.world) (λ s'. after_handler (run_job next s') (loop initial)) s

    pub single_walker : List Job → State → W → Result State × Single W State Job
    unfolding loop run_job
    single_walker initial state w =
        loop (reverse initial) (record { m = state; stack = initial; world = w })
