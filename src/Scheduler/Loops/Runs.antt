-- ===== src/Scheduler/Loops/Runs.antt =====
-- The loops of v2/scheduler/worker_loop.go and job_loop.go from their beginning: readers of a queue
-- that are opened and closed, and the messages that they read.
pub mod Counts
pub mod Rounds
use brignext.Base.{
  ℕ, zero, suc, ◌+◌, ◌≤◌, ◌≡◌, refl, String, Bool, ◌⊎◌, inl, inr, Option, none, some, List, length,
  if◌then◌else◌, Bool-cases, arith,
}
use brignext.Errors.{Error, Outcome, ok, err, panic, out_of_fuel}
use brignext.Effect.{M, pure, diverge, attempt, ◌>>=◌, ◌>>◌}
use brignext.Core.Kubernetes.Objects.{workers_queue, jobs_queue}
use brignext.Scheduler.Loops.{
  LoopClient, Next, next_message, continue_outer, handle_worker_message, handle_job_message,
}

-- The factory of readers, a reader, the context, and the channel of errors. `is_done` answers
-- whether the context is done; `send_error` ends when the error is taken or the context is done.
pub record ReaderClient (W Reader : Type 0) : Type 0 where
  pub new_reader : String → M W Reader
  pub read : Reader → M W String
  pub close : Reader → M W (Unit {0})
  pub is_done : M W Bool
  pub send_error : Error → M W (Unit {0})

-- Before a round of the outer loop, with the reader of the round before, or before a read.
pub data Place (Reader : Type 0) : Type 0 where
  at_outer : Option Reader → Place Reader
  at_read : Reader → Place Reader

module _ {W Reader : Type 0} (q : ReaderClient W Reader) (handle : String → M W Next)
    (queue_name : String) where
  -- An error of closing is not looked at.
  unfoldable close_reader : Option Reader → M W (Unit {0})
  close_reader none = pure tt
  close_reader (some reader) = attempt (q.close reader) pure (λ _. pure tt)

  open_reader : M W (Option (Place Reader))
  open_reader =
      attempt (q.new_reader queue_name) (λ reader. pure (some (at_read reader)))
        (λ e. q.send_error e >> pure none)

  place_after : Reader → Next → Place Reader
  place_after reader next_message = at_read reader
  place_after reader continue_outer = at_outer (some reader)

  -- One round up to the first read, or one message; then where the loop goes on, if it does.
  unfoldable step : Place Reader → M W (Option (Place Reader))
  unfolding close_reader open_reader place_after
  step (at_outer reader) = do
    close_reader reader
    done ← q.is_done
    if done then pure none else open_reader
  step (at_read reader) =
      attempt (q.read reader)
        (λ message. handle message >>= λ next. pure (some (place_after reader next)))
        (λ _. pure (some (at_outer (some reader))))

  continue_at : (Place Reader → M W (Unit {0})) → Option (Place Reader) → M W (Unit {0})
  continue_at rest none = pure tt
  continue_at rest (some place) = rest place

  -- The loop, on fuel: it goes on until the context is done or no reader can be opened.
  unfoldable pub run_loop : ℕ → Place Reader → M W (Unit {0})
  unfolding continue_at step
  run_loop zero place = diverge
  run_loop (suc fuel) place = step place >>= continue_at (run_loop fuel)

module _ {W Reader : Type 0} (q : ReaderClient W Reader) (c : LoopClient W) where
  unfoldable pub run_worker_loop : ℕ → String → M W (Unit {0})
  run_worker_loop fuel project_id =
      run_loop q (handle_worker_message c) (workers_queue project_id) fuel (at_outer none)

  unfoldable pub run_job_loop : ℕ → String → M W (Unit {0})
  run_job_loop fuel project_id =
      run_loop q (handle_job_message c) (jobs_queue project_id) fuel (at_outer none)
