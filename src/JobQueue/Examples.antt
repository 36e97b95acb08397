-- ===== src/JobQueue/Examples.antt =====
-- A queue with one worker and a buffer of one job: two jobs, then a shutdown.
use indexing_service.Prelude.{
  ℕ, ◌≡◌, ◌≤◌, refl, true, false, none, some, List, [], ◌∷◌, SameItems, arith,
}
use indexing_service.JobQueue.{
  Config, JobQueue, new_job_queue, Event, accepts, shuts_down, receives_quit, puts, hands_over,
  takes, handler_returns, ends, step, run, accept, put, hand_over, take, shut_down, receive_quit,
  end_loop, is_closing, done, report,
}
use indexing_service.JobQueue.Fifo.{enqueue, start, close, skip, perform_all, actions, run-Fifo}
use indexing_service.JobQueue.Order.{Inv, run-new_job_queue-Inv, done-SameItems}
use indexing_service.JobQueue.Ending.{Steps, draining-Ends}
use indexing_service.JobQueue.Drain.{CanAdvance, remaining, run-CanAdvance}

abbrev small : Config
small = record {
  job_timeout = 0;
  shutdown_timeout = 0;
  error_handler = false;
  buffer = 1;
  concurrency = 1;
}

abbrev until_quit : List (Event ℕ)
until_quit = accepts 5 ∷ hands_over ∷ accepts 6 ∷ puts ∷ shuts_down ∷ receives_quit ∷ []

abbrev until_end : List (Event ℕ)
until_end =
    accepts 5
    ∷ hands_over
    ∷ accepts 6
    ∷ puts
    ∷ shuts_down
    ∷ receives_quit
    ∷ handler_returns 0 none
    ∷ takes
    ∷ handler_returns 0 none
    ∷ ends
    ∷ []

run-new_job_queue-Inv_example : Inv (run (new_job_queue small) until_end)
run-new_job_queue-Inv_example = run-new_job_queue-Inv small until_end

done-SameItems_example :
    SameItems
      (run (new_job_queue small) until_end).accepted
      (run (new_job_queue small) until_end).handled
unfolding run step accept put hand_over take shut_down receive_quit end_loop is_closing
    new_job_queue
done-SameItems_example = done-SameItems small until_end refl

run-CanAdvance_example : CanAdvance (run (new_job_queue small) until_quit)
unfolding run step accept put hand_over take shut_down receive_quit end_loop is_closing
    new_job_queue
run-CanAdvance_example = run-CanAdvance small until_quit (omega arith) (λ e. cc) (λ e. cc)

run-Fifo_example :
    perform_all {Job = ℕ}
      (enqueue 5 ∷ start ∷ enqueue 6 ∷ skip ∷ skip ∷ close ∷ [])
      (record { capacity = 2; workers = 1; waiting = []; running = []; is_open = true })
    ≡ some
        (record { capacity = 2; workers = 1; waiting = 6 ∷ []; running = 5 ∷ []; is_open = false })
unfolding run step accept put hand_over take shut_down receive_quit end_loop is_closing
    new_job_queue actions
run-Fifo_example = run-Fifo small until_quit

abbrev at_quit : JobQueue ℕ
at_quit = run (new_job_queue small) until_quit

-- The handler of the first job returns after the quit message.
draining-Ends_example :
    (1 ≤ remaining at_quit)
    × (more : List (Event ℕ)) × Steps (run at_quit (handler_returns 0 none ∷ [])) more
    × ((run (run at_quit (handler_returns 0 none ∷ [])) more).loop ≡ done)
    × ((run (run at_quit (handler_returns 0 none ∷ [])) more).accepted ≡ at_quit.accepted)
    × SameItems at_quit.accepted (run (run at_quit (handler_returns 0 none ∷ [])) more).handled
unfolding run step accept put hand_over take shut_down receive_quit end_loop is_closing
    new_job_queue report Steps
draining-Ends_example =
    draining-Ends small until_quit (handler_returns 0 none ∷ []) (omega arith) refl refl (
      record (run (new_job_queue small) until_quit) { idle = 1; handling = []; handled = 5 ∷ [] },
      refl,
      (λ e. cc),
      tt,
    )
