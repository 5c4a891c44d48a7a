-- ===== src/Scheduler/Loops/Runs/Rounds.antt =====
-- The rounds of the loops of v2/scheduler/worker_loop.go and job_loop.go: what one step, and a whole
-- run, does to the readers and messages.
use brignext.Base.{ℕ, zero, suc, ◌≡◌, refl, String, true, inl, inr, Option, none, some, Bool-cases}
use brignext.Errors.{Error, Outcome, ok, err, panic, out_of_fuel}
use brignext.Effect.{M, pure, settle, continue, ◌>>◌}
use brignext.Effect.Results.{IsUnfinished}
use brignext.Core.Kubernetes.Objects.{workers_queue, jobs_queue}
use brignext.Scheduler.Loops.{LoopClient, Next, handle_worker_message, handle_job_message}
use brignext.Scheduler.Loops.Acks.{
  Trace, LoopLaws, handle_worker_message_lem, handle_job_message_lem,
}
use brignext.Scheduler.Loops.Runs.{
  ReaderClient, Place, at_outer, at_read, close_reader, open_reader, place_after, step, continue_at,
  run_loop, run_worker_loop, run_job_loop,
}
use brignext.Scheduler.Loops.Runs.Counts.{
  ReaderLaws, IsSound, AreClosed, IsTidy, IsAt, IsStep, IsHandled, closed-IsSound, opened-IsAt,
  read-IsSound, handled-IsSound,
}

module _ {W Reader : Type 0} (q : ReaderClient W Reader) (trace : W → Trace)
    (laws : ReaderLaws q trace) (Panics : Type 0) (handle : String → M W Next) (queue_name : String)
    (handle_law : (message : String) (w : W)
      → IsHandled Panics (handle message w).0 (trace w) (trace (handle message w).1)) where
  close_reader_lem :
      (reader : Option Reader) (w : W)
      → IsAt (at_outer reader) (trace w)
      → let m = close_reader q handle queue_name reader in
        ((m w).0 ≡ ok tt) × IsSound (trace (m w).1) × AreClosed (trace (m w).1)
  unfolding close_reader
  close_reader_lem none w h = (refl, h.0, h.1)
  close_reader_lem (some reader) w h =
      let (log, answer) = laws.close_law reader w in
      let (sound, closed) = closed-IsSound (trace w) h.0 h.1 in
      elim answer [
        | inl e ↦ (rw e refl, rw (e, log) sound, rw (e, log) closed)
        | inr (x, e) ↦ (rw e refl, rw (e, log) sound, rw (e, log) closed)
      ]

  -- The reader that was asked for, or none.
  opened-IsStep :
      (o : Outcome Reader) (w : W)
      → IsUnfinished o
      → IsSound (trace w)
      → AreClosed (trace w)
      → let m =
          settle o (λ reader. pure (some (at_read reader))) (λ e. q.send_error e >> pure none) in
        IsStep Panics (m w).0 (trace (m w).1)
  opened-IsStep (ok a) w u h closed = absurd u
  opened-IsStep (err x) w u h closed =
      let (same, sent) = laws.send_law x w in rw (sent, same) (h, closed)
  opened-IsStep panic w u h closed = (h, inl closed)
  opened-IsStep out_of_fuel w u h closed = h

  open_reader-IsStep :
      (w : W)
      → IsSound (trace w)
      → AreClosed (trace w)
      → let m = open_reader q handle queue_name in IsStep Panics (m w).0 (trace (m w).1)
  unfolding open_reader
  open_reader-IsStep w h closed = elim (laws.new_law queue_name w) [
    | inl (reader, e, log) ↦ rw (e, log) (opened-IsAt (trace w) h closed)
    | inr (u, log) ↦
        opened-IsStep (q.new_reader queue_name w).0 (q.new_reader queue_name w).1 u (rw log h)
          (rw log closed)
  ]

  step-IsStep :
      (place : Place Reader) (w : W)
      → IsAt place (trace w)
      → let m = step q handle queue_name place in IsStep Panics (m w).0 (trace (m w).1)
  unfolding step place_after
  step-IsStep (at_outer reader) w h =
      let (ended, sound, closed) = close_reader_lem reader w h in
      let w₁ = (close_reader q handle queue_name reader w).1 in
      let (same, (b, answer)) = laws.done_law w₁ in
      let w₂ = (q.is_done w₁).1 in
      elim (Bool-cases b) [
        | inl y ↦ rw (ended, answer, y, same) (sound, closed)
        | inr n ↦ rw (ended, answer, n) (open_reader-IsStep w₂ (rw same sound) (rw same closed))
      ]
  step-IsStep (at_read reader) w h = elim (laws.read_law reader w) [
    | inr (x, e, log) ↦ rw (e, log) h
    | inl (message, e, log) ↦
        let w₁ = (q.read reader w).1 in
        let handled = rw log at (handle_law message w₁) in
        elim handled [
          | inl (r, change) ↦
              let (sound, o, c) =
                handled-IsSound (trace w) (trace (handle message w₁).1) h.0 change in
              rw (e, r) (sound, rw (o, c) h.1)
          | inr (inl (r, same)) ↦ rw (e, r, same) (read-IsSound (trace w) h.0, h.1)
          | inr (inr (r, same, may)) ↦ rw (e, r, same) (read-IsSound (trace w) h.0, inr may)
        ]
  ]

  IsAt-IsSound : (place : Place Reader) (t : Trace) → IsAt place t → IsSound t
  IsAt-IsSound (at_outer none) t h = h.0
  IsAt-IsSound (at_outer (some reader)) t h = h.0
  IsAt-IsSound (at_read reader) t h = h.0

  continue_at-IsTidy :
      (rest : Place Reader → M W (Unit {0})) (o : Outcome (Option (Place Reader))) (w : W)
      → ((place : Place Reader) (w' : W)
          → IsAt place (trace w')
          → IsTidy Panics (rest place w').0 (trace (rest place w').1))
      → IsStep Panics o (trace w)
      → let r = continue o (continue_at q handle queue_name rest) w in IsTidy Panics r.0 (trace r.1)
  unfolding continue_at
  continue_at-IsTidy rest (ok none) w later h = h
  continue_at-IsTidy rest (ok (some place)) w later h = later place w h
  continue_at-IsTidy rest (err x) w later h = h
  continue_at-IsTidy rest panic w later h = h
  continue_at-IsTidy rest out_of_fuel w later h = h

  run_loop-IsTidy :
      (fuel : ℕ) (place : Place Reader) (w : W)
      → IsAt place (trace w)
      → let m = run_loop q handle queue_name fuel place in IsTidy Panics (m w).0 (trace (m w).1)
  unfolding run_loop
  run_loop-IsTidy zero place w h = IsAt-IsSound place (trace w) h
  run_loop-IsTidy (suc fuel) place w h =
      let m = step q handle queue_name place in
      continue_at-IsTidy (run_loop q handle queue_name fuel) (m w).0 (m w).1 (run_loop-IsTidy fuel)
        (step-IsStep place w h)

  outer-done :
      (n : ℕ) (reader : Option Reader) (w : W)
      → ((w' : W) → (q.is_done w').0 ≡ ok true)
      → IsAt (at_outer reader) (trace w)
      → (run_loop q handle queue_name (suc n) (at_outer reader) w).0 ≡ ok tt
  unfolding run_loop step continue_at
  outer-done n reader w done h =
      let (ended, sound, closed) = close_reader_lem reader w h in
      rw (ended, done (close_reader q handle queue_name reader w).1) refl

  -- Wherever the loop is, once the context is done, so that reads fail, it ends after at most two
  -- steps, with every reader closed.
  pub run_loop-done :
      (n : ℕ) (place : Place Reader) (w : W)
      → ((w' : W) → (q.is_done w').0 ≡ ok true)
      → ((reader : Reader) (w' : W) → (x : Error) × ((q.read reader w').0 ≡ err x))
      → IsAt place (trace w)
      → let m = run_loop q handle queue_name (suc (suc n)) place in
        ((m w).0 ≡ ok tt) × IsSound (trace (m w).1) × AreClosed (trace (m w).1)
  unfolding run_loop step continue_at
  run_loop-done n place w done failing h =
      let e = ended place h in
      let (sound, closed) = rw e at (run_loop-IsTidy (suc (suc n)) place w h) in (e, sound, closed)
    where
      ended :
          (place : Place Reader)
          → IsAt place (trace w)
          → (run_loop q handle queue_name (suc (suc n)) place w).0 ≡ ok tt
      ended (at_outer reader) h = outer-done (suc n) reader w done h
      ended (at_read reader) h = elim (laws.read_law reader w) [
        | inr (x, e, log) ↦ rw e (outer-done n (some reader) (q.read reader w).1 done (rw log h))
        | inl (message, e, log) ↦ let (x, f) = failing reader w in absurd (cc (e, f))
      ]

module _ {W Reader : Type 0} (q : ReaderClient W Reader) (c : LoopClient W) (trace : W → Trace)
    (reader_laws : ReaderLaws q trace) (laws : LoopLaws c trace) where
  pub worker_message-IsHandled :
      (message : String) (w : W)
      → IsHandled ⊥
          (handle_worker_message c message w).0
          (trace w)
          (trace (handle_worker_message c message w).1)
  worker_message-IsHandled message w = elim (handle_worker_message_lem c trace laws message w) [
    | inl (r, inl e) ↦ inl (r, inl e)
    | inl (r, inr (e, g, p, t)) ↦ inl (r, inr (inl (e.meta.id, t)))
    | inr (r, same) ↦ inr (inl (r, same))
  ]

  job_message-IsHandled :
      (message : String) (w : W)
      → IsHandled Unit
          (handle_job_message c message w).0
          (trace w)
          (trace (handle_job_message c message w).1)
  job_message-IsHandled message w = elim (handle_job_message_lem c trace laws message w) [
    | inl (r, t) ↦ inl (r, inl t)
    | inr (event_id, name, e, p, g, inl (r, inl t)) ↦ inl (r, inl t)
    | inr (event_id, name, e, p, g, inl (r, inr (job, status, j, s, y, t))) ↦
        inl (r, inr (inr (e.meta.id, name, t)))
    | inr (event_id, name, e, p, g, inr (inl (r, t))) ↦ inr (inl (r, t))
    | inr (event_id, name, e, p, g, inr (inr (r, t, j))) ↦ inr (inr (r, t, tt))
  ]

  -- Over a whole run of the loop of a project, for its workers or for its jobs, at most one reader
  -- is open, no message is acknowledged that was not read, and nothing is started without a
  -- message that is acknowledged for it; where the loop ends, every reader is closed. The loop for
  -- workers panics at most while no reader is open, as the opening of one may.
  pub run_loops-IsTidy :
      (fuel : ℕ) (project_id : String) (w : W)
      → IsSound (trace w)
      → AreClosed (trace w)
      → IsTidy ⊥
          (run_worker_loop q c fuel project_id w).0
          (trace (run_worker_loop q c fuel project_id w).1)
        × IsTidy Unit
            (run_job_loop q c fuel project_id w).0
            (trace (run_job_loop q c fuel project_id w).1)
  unfolding run_worker_loop run_job_loop
  run_loops-IsTidy fuel project_id w sound closed = (
    run_loop-IsTidy q trace reader_laws ⊥ (handle_worker_message c) (workers_queue project_id)
        worker_message-IsHandled fuel (at_outer none) w (sound, closed),
    run_loop-IsTidy q trace reader_laws Unit (handle_job_message c) (jobs_queue project_id)
        job_message-IsHandled fuel (at_outer none) w (sound, closed),
  )
