-- ===== src/Scheduler/Loops/Runs/Counts.antt =====
-- The counts of readers and messages in the loops of v2/scheduler/worker_loop.go and job_loop.go.
use brignext.Base.{
  ◌+◌, ◌≤◌, ◌≡◌, refl, String, Bool, ◌⊎◌, inl, inr, Option, none, some, length, arith,
}
use brignext.Errors.{Error, Outcome, ok, err, panic, out_of_fuel}
use brignext.Effect.Results.{IsUnfinished}
use brignext.Scheduler.Loops.{Next, next_message, continue_outer}
use brignext.Scheduler.Loops.Acks.{Trace, acked_only, started_and_acked, job_started_and_acked}
use brignext.Scheduler.Loops.Runs.{ReaderClient, Place, at_outer, at_read}

-- Each call is seen in the trace. A reader may be opened, or refused, or its opening may panic or go
-- on for ever; every other call returns or fails.
pub record ReaderLaws {W Reader : Type 0} (q : ReaderClient W Reader) (trace : W → Trace)
    : Type 0 where
  pub new_law :
      (name : String) (w : W)
      → ((reader : Reader) × ((q.new_reader name w).0 ≡ ok reader)
          × (trace (q.new_reader name w).1 ≡ record (trace w) { opened = (trace w).opened + 1 }))
        ⊎ IsUnfinished (q.new_reader name w).0 × (trace (q.new_reader name w).1 ≡ trace w)
  pub read_law :
      (reader : Reader) (w : W)
      → ((message : String) × ((q.read reader w).0 ≡ ok message)
          × (trace (q.read reader w).1 ≡ record (trace w) { reads = (trace w).reads + 1 }))
        ⊎ ((x : Error) × ((q.read reader w).0 ≡ err x) × (trace (q.read reader w).1 ≡ trace w))
  pub close_law :
      (reader : Reader) (w : W)
      → (trace (q.close reader w).1 ≡ record (trace w) { closed = (trace w).closed + 1 })
        × (((q.close reader w).0 ≡ ok tt) ⊎ ((x : Error) × ((q.close reader w).0 ≡ err x)))
  pub done_law :
      (w : W) → (trace (q.is_done w).1 ≡ trace w) × ((b : Bool) × ((q.is_done w).0 ≡ ok b))
  pub send_law :
      (e : Error) (w : W) → (trace (q.send_error e w).1 ≡ trace w) × ((q.send_error e w).0 ≡ ok tt)

-- At most one reader is open, no message is acknowledged that was not read, and nothing is started
-- without a message that is acknowledged for it.
abbrev pub IsSound : Trace → Type 0
IsSound t =
    (t.closed ≤ t.opened)
    × (t.opened ≤ t.closed + 1)
    × (t.acks ≤ t.reads)
    × (length t.started + length t.started_jobs ≤ t.acks)

abbrev pub AreClosed : Trace → Type 0
AreClosed t = t.opened ≡ t.closed

-- What a run leaves, by its outcome: it ends with every reader closed and without an error, or it
-- panics, where no reader is open or `Panics` allows it, or it is still running.
abbrev pub IsTidy : Type 0 → Outcome (Unit {0}) → Trace → Type 0
IsTidy Panics (ok x) t = IsSound t × AreClosed t
IsTidy Panics (err x) t = ⊥
IsTidy Panics panic t = IsSound t × (AreClosed t ⊎ Panics)
IsTidy Panics out_of_fuel t = IsSound t

-- The trace where the loop is.
abbrev pub IsAt : {Reader : Type 0} → Place Reader → Trace → Type 0
IsAt (at_outer none) t = IsSound t × AreClosed t
IsAt (at_outer (some reader)) t = IsSound t × (t.opened ≡ t.closed + 1)
IsAt (at_read reader) t = IsSound t × (t.opened ≡ t.closed + 1)

abbrev pub IsStep : {Reader : Type 0} → Type 0 → Outcome (Option (Place Reader)) → Trace → Type 0
IsStep Panics (ok none) t = IsSound t × AreClosed t
IsStep Panics (ok (some place)) t = IsAt place t
IsStep Panics (err x) t = ⊥
IsStep Panics panic t = IsSound t × (AreClosed t ⊎ Panics)
IsStep Panics out_of_fuel t = IsSound t

-- A message is acknowledged once, with at most one start; or the trace stays.
abbrev pub IsHandled : Type 0 → Outcome Next → Trace → Trace → Type 0
IsHandled Panics r t t' =
    (r ≡ ok next_message)
      × ((t' ≡ acked_only t)
          ⊎ ((id : String) × (t' ≡ started_and_acked id t))
          ⊎ ((id name : String) × (t' ≡ job_started_and_acked id name t)))
    ⊎ (r ≡ ok continue_outer) × (t' ≡ t)
    ⊎ (r ≡ panic) × (t' ≡ t) × Panics

pub closed-IsSound :
    (t : Trace)
    → IsSound t
    → t.opened ≡ t.closed + 1
    → IsSound (record t { closed = t.closed + 1 }) × AreClosed (record t { closed = t.closed + 1 })
closed-IsSound t (a, b, c, d) e = ((omega arith, omega arith, c, d), e)

pub opened-IsAt :
    (t : Trace)
    → IsSound t
    → AreClosed t
    → IsSound (record t { opened = t.opened + 1 }) × (t.opened + 1 ≡ t.closed + 1)
opened-IsAt t (a, b, c, d) e = ((omega arith, omega arith, c, d), omega arith)

pub read-IsSound : (t : Trace) → IsSound t → IsSound (record t { reads = t.reads + 1 })
read-IsSound t (a, b, c, d) = (a, b, omega arith, d)

-- A message that was read and then handled.
pub handled-IsSound :
    (t t' : Trace)
    → IsSound t
    → (t' ≡ acked_only (record t { reads = t.reads + 1 }))
      ⊎ ((id : String) × (t' ≡ started_and_acked id (record t { reads = t.reads + 1 })))
      ⊎ ((id name : String) × (t'
            ≡ job_started_and_acked id name (record t { reads = t.reads + 1 })))
    → IsSound t' × (t'.opened ≡ t.opened) × (t'.closed ≡ t.closed)
handled-IsSound t t' (a, b, c, d) (inl e) = rw e ((a, b, omega arith, omega arith), refl, refl)
handled-IsSound t t' (a, b, c, d) (inr (inl (id, e))) =
    rw e ((a, b, omega arith, omega arith), refl, refl)
handled-IsSound t t' (a, b, c, d) (inr (inr (id, name, e))) =
    rw e ((a, b, omega arith, omega arith), refl, refl)
