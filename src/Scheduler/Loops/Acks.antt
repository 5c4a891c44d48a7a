-- ===== src/Scheduler/Loops/Acks.antt =====
-- What the loops over a queue do to it and to the workers: messages acknowledged and starts made.
use brignext.Base.{
  none, some, lookup, Option-cases, ℕ, ◌+◌, ◌≡◌, refl, String, Bool, true, ◌⊎◌, inl, inr, List, ◌∷◌,
  Bool-cases,
}
use brignext.Errors.{Outcome, panic, ok, err, Error}
use brignext.Core.Types.{Job, JobStatus, is_pending, Event, WorkerPhase, same_phase}
use brignext.Effect.{M}
use brignext.Scheduler.Messages.{parse_job_message}
use brignext.Scheduler.Loops.{
  Next, job_of, job_status, handle_job_message, LoopClient, next_message, continue_outer,
  ignore_error, acked, start_when_available, handle_worker_message,
}

-- What has been acknowledged, which workers and jobs were asked to start, and how many readers were
-- opened and closed and how many messages read.
pub record Trace : Type 0 where
  pub opened : ℕ
  pub closed : ℕ
  pub reads : ℕ
  pub acks : ℕ
  pub started : List String
  pub started_jobs : List (String × String)

-- Each call of the client returns or fails, and is seen in the trace, failed or not.
pub record LoopLaws {W : Type 0} (c : LoopClient W) (trace : W → Trace) : Type 0 where
  pub get_law :
      (id : String) (w : W)
      → (trace (c.get_event id w).1 ≡ trace w)
        × (((e : Event) × ((c.get_event id w).0 ≡ ok e))
            ⊎ ((x : Error) × ((c.get_event id w).0 ≡ err x)))
  pub start_law :
      (id : String) (w : W)
      → (trace (c.start_worker id w).1 ≡ record (trace w) { started = id ∷ (trace w).started })
        × (((c.start_worker id w).0 ≡ ok tt) ⊎ ((x : Error) × ((c.start_worker id w).0 ≡ err x)))
  pub start_job_law :
      (id name : String) (w : W)
      → (trace (c.start_job id name w).1
          ≡ record (trace w) { started_jobs = (id, name) ∷ (trace w).started_jobs })
        × (((c.start_job id name w).0 ≡ ok tt)
            ⊎ ((x : Error) × ((c.start_job id name w).0 ≡ err x)))
  pub wait_law :
      (w : W)
      → (trace (c.wait_capacity w).1 ≡ trace w) × ((b : Bool) × ((c.wait_capacity w).0 ≡ ok b))
  pub ack_law :
      (w : W)
      → (trace (c.ack w).1 ≡ record (trace w) { acks = (trace w).acks + 1 })
        × (((c.ack w).0 ≡ ok tt) ⊎ ((x : Error) × ((c.ack w).0 ≡ err x)))

-- The three ways to leave a message: acknowledged and nothing started, acknowledged after its
-- worker was started, or neither, for want of capacity.
abbrev pub acked_only : Trace → Trace
acked_only t = record t { acks = t.acks + 1 }

abbrev started : String → Trace → Trace
started id t = record t { started = id ∷ t.started }

abbrev pub started_and_acked : String → Trace → Trace
started_and_acked id t = record t { acks = t.acks + 1; started = id ∷ t.started }

abbrev started_job : String → String → Trace → Trace
started_job id name t = record t { started_jobs = (id, name) ∷ t.started_jobs }

abbrev pub job_started_and_acked : String → String → Trace → Trace
job_started_and_acked id name t = record t {
  acks = t.acks + 1;
  started_jobs = (id, name) ∷ t.started_jobs;
}

module _ {W : Type 0} (c : LoopClient W) (trace : W → Trace) (laws : LoopLaws c trace) where
  ignore_ack : (w : W) → (ignore_error c c.ack w).0 ≡ ok tt
  unfolding ignore_error
  ignore_ack w = elim (laws.ack_law w).1 [ inl e ↦ rw e | inr (x, e) ↦ rw e ]

  acked_lem :
      (w : W) → ((acked c w).0 ≡ ok next_message) × (trace (acked c w).1 ≡ acked_only (trace w))
  unfolding acked ignore_error
  acked_lem w = elim (laws.ack_law w).1 [
    | inl e ↦ rw e (refl, (laws.ack_law w).0)
    | inr (x, e) ↦ rw e (refl, (laws.ack_law w).0)
  ]

  -- A start, of a worker or of a job, that `f` records in the trace.
  start_lem :
      (start : M W (Unit {0})) (f : Trace → Trace)
      → ((w : W)
          → (trace (start w).1 ≡ f (trace w))
            × (((start w).0 ≡ ok tt) ⊎ ((x : Error) × ((start w).0 ≡ err x))))
      → (w : W)
      → let m = start_when_available c start in
        ((m w).0 ≡ ok next_message) × (trace (m w).1 ≡ acked_only (f (trace w)))
        ⊎ ((m w).0 ≡ ok continue_outer) × (trace (m w).1 ≡ trace w)
  unfolding start_when_available ignore_error
  start_lem start f law w =
      let (same, (b, got)) = laws.wait_law w in
      let w₁ = (c.wait_capacity w).1 in
      let (log, answer) = law w₁ in
      let (next, final) = acked_lem (start w₁).1 in
      elim (Bool-cases b) [
        | inl y ↦ elim answer [
          | inl e ↦ inl (rw (got, y, e) next, rw (got, y, e, final, log, same))
          | inr (x, e) ↦ inl (rw (got, y, e) next, rw (got, y, e, final, log, same))
        ]
        | inr n ↦ inr (rw (got, n), rw (got, n) same)
      ]

  -- For each message of the worker queue: it is acknowledged once and the loop goes on, with the
  -- worker asked to start at most once and only where the event was read and its worker was
  -- pending; or the loop is left with nothing acknowledged and nothing started.
  pub handle_worker_message_lem :
      (message : String) (w : W)
      → let m = handle_worker_message c message in
        ((m w).0 ≡ ok next_message)
          × ((trace (m w).1 ≡ acked_only (trace w))
              ⊎ ((e : Event) × ((c.get_event message w).0 ≡ ok e)
                  × (same_phase e.worker.status.phase WorkerPhase.pending ≡ true)
                  × (trace (m w).1 ≡ started_and_acked e.meta.id (trace w))))
        ⊎ ((m w).0 ≡ ok continue_outer) × (trace (m w).1 ≡ trace w)
  unfolding handle_worker_message
  handle_worker_message_lem message w =
      let (same, answer) = laws.get_law message w in
      let w₁ = (c.get_event message w).1 in
      let (next, final) = acked_lem w₁ in
      elim answer [
        | inr (x, g) ↦ inl (rw g next, inl (rw (g, final, same)))
        | inl (e, g) ↦ elim (Bool-cases (same_phase e.worker.status.phase WorkerPhase.pending)) [
          | inr n ↦ inl (rw (g, n) next, inl (rw (g, n, final, same)))
          | inl p ↦
              elim (start_lem (c.start_worker e.meta.id) (started e.meta.id)
                (laws.start_law e.meta.id) w₁) [
                  | inl (a, b) ↦ inl (rw (g, p) a, inr (e, g, p, rw (g, p, b, same)))
                  | inr (a, b) ↦ inr (rw (g, p) a, rw (g, p, b, same))
                ]
        ]
      ]

  -- What is left of a message about the job `name` of an event, from the world `w` on.
  abbrev pub IsHandledJob : Event → String → Outcome Next → Trace → Trace → Type 0
  IsHandledJob e name r t t' =
      (r ≡ ok next_message)
        × ((t' ≡ acked_only t)
            ⊎ ((job : Job) × (status : JobStatus) × (lookup name e.worker.jobs ≡ some job)
                × (job.status ≡ some status)
                × (is_pending status.phase ≡ true)
                × (t' ≡ job_started_and_acked e.meta.id name t)))
      ⊎ (r ≡ ok continue_outer) × (t' ≡ t)
      ⊎ (r ≡ panic)
        × (t' ≡ t)
        × ((job : Job) × (lookup name e.worker.jobs ≡ some job) × (job.status ≡ none))

  job_of_lem :
      (e : Event) (name : String) (w : W)
      → let m = job_of c e name (lookup name e.worker.jobs) in
        IsHandledJob e name (m w).0 (trace w) (trace (m w).1)
  unfolding job_of job_status
  job_of_lem e name w = elim (Option-cases (lookup name e.worker.jobs)) [
    | inl n ↦ let (next, final) = acked_lem w in inl (rw n next, inl (rw n final))
    | inr (job, j) ↦ elim (Option-cases job.status) [
      | inl n ↦ inr (inr (rw (j, n), rw (j, n), (job, j, n)))
      | inr (status, s) ↦ elim (Bool-cases (is_pending status.phase)) [
        | inr n ↦
            let (next, final) = acked_lem w in inl (rw (j, s, n) next, inl (rw (j, s, n) final))
        | inl p ↦
            elim (start_lem (c.start_job e.meta.id name) (started_job e.meta.id name)
              (laws.start_job_law e.meta.id name) w) [
                | inl (a, b) ↦ inl (rw (j, s, p) a, inr (job, status, j, s, p, rw (j, s, p) b))
                | inr (a, b) ↦ inr (inl (rw (j, s, p) a, rw (j, s, p) b))
              ]
      ]
    ]
  ]

  -- For each message of the job queue: it is acknowledged once and nothing is started, where it
  -- names no event and job or the event cannot be read; and otherwise the job of the event read is
  -- asked to start at most once, only if it is pending, and the message acknowledged once; or the
  -- loop is left with nothing acknowledged and nothing started. It panics only on a job that was
  -- stored without a status.
  pub handle_job_message_lem :
      (message : String) (w : W)
      → let m = handle_job_message c message in
        ((m w).0 ≡ ok next_message) × (trace (m w).1 ≡ acked_only (trace w))
        ⊎ ((event_id name : String) × (e : Event) × (parse_job_message message
              ≡ some (event_id, name))
            × ((c.get_event event_id w).0 ≡ ok e)
            × IsHandledJob e name (m w).0 (trace w) (trace (m w).1))
  unfolding handle_job_message
  handle_job_message_lem message w = elim (Option-cases (parse_job_message message)) [
    | inl n ↦ let (next, final) = acked_lem w in inl (rw n next, rw n final)
    | inr ((event_id, name), p) ↦
        let (same, answer) = laws.get_law event_id w in
        let w₁ = (c.get_event event_id w).1 in
        let (next, final) = acked_lem w₁ in
        elim answer [
          | inr (x, g) ↦ inl (rw (p, g) next, rw (p, g, final, same))
          | inl (e, g) ↦ inr (event_id, name, e, p, g, rw (p, g, ← same) (job_of_lem e name w₁))
        ]
  ]
