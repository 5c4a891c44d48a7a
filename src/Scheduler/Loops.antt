-- ===== src/Scheduler/Loops.antt =====
-- v2/scheduler/worker_loop.go and job_loop.go: what the loops do with one message of a queue.
pub mod Acks
pub mod Runs
use brignext.Base.{String, Bool, true, false, Option, none, some, List, lookup, if◌then◌else◌}
use brignext.Errors.{Outcome}
use brignext.Effect.{M, pure, crash, attempt, ◌>>=◌, ◌>>◌}
use brignext.Core.Types.{Event, WorkerPhase, Job, JobStatus, same_phase, is_pending}
use brignext.Scheduler.Messages.{parse_job_message}

-- The API client, the channel of available capacity and the message's `Ack`. `wait_capacity`
-- answers whether the channel was ready before the context was done.
pub record LoopClient (W : Type 0) : Type 0 where
  pub get_event : String → M W Event
  pub start_worker : String → M W (Unit {0})
  pub start_job : String → String → M W (Unit {0})
  pub wait_capacity : M W Bool
  pub ack : M W (Unit {0})

-- On to the next message, or `continue outerLoop`.
pub data Next : Type 0 where
  next_message continue_outer : Next

module _ {W : Type 0} (c : LoopClient W) where
  -- An error is logged or ignored.
  ignore_error : M W (Unit {0}) → M W (Unit {0})
  ignore_error m = attempt m pure (λ _. pure tt)

  -- msg.Ack(); continue
  acked : M W Next
  acked = ignore_error c.ack >>= λ _. pure next_message

  -- Wait for capacity and start; without capacity the message is not acked.
  start_when_available : M W (Unit {0}) → M W Next
  start_when_available start = do
    available ← c.wait_capacity
    if available then (ignore_error start >>= λ _. acked) else pure continue_outer

  worker_of : Event → M W Next
  worker_of event =
      if same_phase event.worker.status.phase WorkerPhase.pending
      then start_when_available (c.start_worker event.meta.id)
      else acked

  -- The body of `runWorkerLoop` for one message.
  unfoldable pub handle_worker_message : String → M W Next
  unfolding worker_of start_when_available acked ignore_error
  handle_worker_message message = attempt (c.get_event message) worker_of (λ _. acked)

  job_status : Event → String → Option JobStatus → M W Next
  job_status event job_name none = crash
  job_status event job_name (some status) =
      if is_pending status.phase
      then start_when_available (c.start_job event.meta.id job_name)
      else acked

  job_of : Event → String → Option Job → M W Next
  job_of event job_name none = acked
  job_of event job_name (some job) = job_status event job_name job.status

  parsed : Option (String × String) → M W Next
  parsed none = acked
  parsed (some (event_id, job_name)) =
      attempt (c.get_event event_id)
        (λ event. job_of event job_name (lookup job_name event.worker.jobs)) (λ _. acked)

  -- The body of `runJobLoop` for one message.
  unfoldable pub handle_job_message : String → M W Next
  unfolding parsed job_of job_status start_when_available acked ignore_error
  handle_job_message message = parsed (parse_job_message message)
