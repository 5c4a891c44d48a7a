-- ===== src/Tests/Loops.antt =====
-- A client of the scheduler's loops over a fixed event, which keeps a trace.
use brignext.Base.{
  String, some, ◌+◌, ◌≡◌, ◌⊎◌, inl, refl, true, [], ◌∷◌, eqb, not, if◌then◌else◌, inr, Bool-cases,
  arith,
}
use brignext.Errors.{ok, err, other}
use brignext.Core.Types.{Event, WorkerPhase, same_phase}
use brignext.Scheduler.Loops.{
  LoopClient, next_message, continue_outer, handle_worker_message, handle_job_message,
}
use brignext.Scheduler.Loops.Acks.{
  Trace, LoopLaws, acked_only, started_and_acked, handle_worker_message_lem, handle_job_message_lem,
  IsHandledJob,
}
use brignext.Scheduler.Loops.Runs.{ReaderClient, run_loop, at_read, run_worker_loop, run_job_loop}
use brignext.Scheduler.Loops.Runs.Counts.{ReaderLaws, IsTidy, IsSound, AreClosed}
use brignext.Scheduler.Loops.Runs.Rounds.{run_loops-IsTidy, run_loop-done, worker_message-IsHandled}
use brignext.Scheduler.Messages.{parse_job_message}
use brignext.Tests.Samples.{event_in}

abbrev found : Event
found = event_in "e1" 10 "blog" WorkerPhase.pending

abbrev loop_client : LoopClient Trace
loop_client = record {
  get_event = λ id. λ w. (ok found, w);
  start_worker = λ id. λ w. (ok tt, record w { started = id ∷ w.started });
  start_job = λ id. λ name. λ w. (ok tt, record w { started_jobs = (id, name) ∷ w.started_jobs });
  wait_capacity = λ w. (ok true, w);
  ack = λ w. (ok tt, record w { acks = w.acks + 1 });
}

loop_laws : LoopLaws loop_client (λ w. w)
loop_laws = record {
  get_law = λ id. λ w. (refl, inl (found, refl));
  start_law = λ id. λ w. (refl, inl refl);
  start_job_law = λ id. λ name. λ w. (refl, inl refl);
  wait_law = λ w. (refl, (true, refl));
  ack_law = λ w. (refl, inl refl);
}

abbrev no_trace : Trace
no_trace = record { opened = 0; closed = 0; reads = 0; acks = 0; started = []; started_jobs = [] }

worker_message_example :
    ((handle_worker_message loop_client "e1" no_trace).0 ≡ ok next_message)
      × (((handle_worker_message loop_client "e1" no_trace).1 ≡ acked_only no_trace)
          ⊎ ((e : Event) × ((loop_client.get_event "e1" no_trace).0 ≡ ok e)
              × (same_phase e.worker.status.phase WorkerPhase.pending ≡ true)
              × ((handle_worker_message loop_client "e1" no_trace).1
                  ≡ started_and_acked e.meta.id no_trace)))
    ⊎ ((handle_worker_message loop_client "e1" no_trace).0 ≡ ok continue_outer)
      × ((handle_worker_message loop_client "e1" no_trace).1 ≡ no_trace)
worker_message_example = handle_worker_message_lem loop_client (λ w. w) loop_laws "e1" no_trace

queued_job_example :
    ((handle_job_message loop_client "e1:build" no_trace).0 ≡ ok next_message)
      × ((handle_job_message loop_client "e1:build" no_trace).1 ≡ acked_only no_trace)
    ⊎ ((event_id name : String) × (e : Event) × (parse_job_message "e1:build"
          ≡ some (event_id, name))
        × ((loop_client.get_event event_id no_trace).0 ≡ ok e)
        × IsHandledJob loop_client
            (λ w. w)
            loop_laws
            e
            name
            (handle_job_message loop_client "e1:build" no_trace).0
            no_trace
            (handle_job_message loop_client "e1:build" no_trace).1)
queued_job_example = handle_job_message_lem loop_client (λ w. w) loop_laws "e1:build" no_trace

-- A queue with one message, and a context that is done after it.
abbrev one_message : ReaderClient Trace String
one_message = record {
  new_reader = λ name. λ w. (ok name, record w { opened = w.opened + 1 });
  read = λ reader. λ w.
      if eqb w.reads 0
      then (ok "e1", record w { reads = w.reads + 1 })
      else (err (other "detached"), w);
  close = λ reader. λ w. (ok tt, record w { closed = w.closed + 1 });
  is_done = λ w. (ok (not (eqb w.reads 0)), w);
  send_error = λ e. λ w. (ok tt, w);
}

one_message_laws : ReaderLaws one_message (λ w. w)
one_message_laws = record {
  new_law = λ name. λ w. inl (name, refl, refl);
  read_law = λ reader. λ w. elim (Bool-cases (eqb w.reads 0)) [
    | inl y ↦ inl ("e1", rw y refl, rw y refl)
    | inr n ↦ inr (other "detached", rw n refl, rw n refl)
  ];
  close_law = λ reader. λ w. (refl, inl refl);
  done_law = λ w. (refl, (not (eqb w.reads 0), refl));
  send_law = λ e. λ w. (refl, refl);
}

-- The message is read and acknowledged, its worker is started, and the reader closed.
one_message_run : run_worker_loop one_message loop_client 4 "blog" no_trace ≡ (
  ok tt,
  record { opened = 1; closed = 1; reads = 1; acks = 1; started = "e1" ∷ []; started_jobs = [] },
)
unfolding run_worker_loop run_loop handle_worker_message same_phase
one_message_run = refl

run_loops_example :
    IsTidy ⊥
      (run_worker_loop one_message loop_client 4 "blog" no_trace).0
      (run_worker_loop one_message loop_client 4 "blog" no_trace).1
    × IsTidy Unit
        (run_job_loop one_message loop_client 4 "blog" no_trace).0
        (run_job_loop one_message loop_client 4 "blog" no_trace).1
run_loops_example =
    run_loops-IsTidy one_message loop_client (λ w. w) one_message_laws loop_laws 4 "blog" no_trace
      (omega arith, omega arith, omega arith, omega arith) refl

abbrev closing : ReaderClient Trace String
closing = record one_message {
  read = λ reader. λ w. (err (other "context canceled"), w);
  is_done = λ w. (ok true, w);
}

closing_laws : ReaderLaws closing (λ w. w)
closing_laws = record {
  new_law = λ name. λ w. inl (name, refl, refl);
  read_law = λ reader. λ w. inr (other "context canceled", refl, refl);
  close_law = λ reader. λ w. (refl, inl refl);
  done_law = λ w. (refl, (true, refl));
  send_law = λ e. λ w. (refl, refl);
}

abbrev at_work : Trace
at_work = record no_trace { opened = 1; reads = 1; acks = 1 }

closing_example :
    ((run_loop closing
        (handle_worker_message loop_client)
        "workers.blog"
        2
        (at_read "workers.blog")
        at_work).0
      ≡ ok tt)
    × IsSound
        (run_loop closing
          (handle_worker_message loop_client)
          "workers.blog"
          2
          (at_read "workers.blog")
          at_work).1
    × AreClosed
        (run_loop closing
          (handle_worker_message loop_client)
          "workers.blog"
          2
          (at_read "workers.blog")
          at_work).1
closing_example =
    run_loop-done closing (λ w. w) closing_laws ⊥ (handle_worker_message loop_client) "workers.blog"
      (worker_message-IsHandled closing loop_client (λ w. w) closing_laws loop_laws) 0
      (at_read "workers.blog") at_work (λ w. refl) (λ reader. λ w. (other "context canceled", refl))
      ((omega arith, omega arith, omega arith, omega arith), refl)
