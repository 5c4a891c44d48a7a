-- ===== src/Core/Mongo/EventsStore/Cancel.antt =====
-- Canceling one event: `Cancel` of v2/apiserver/internal/core/mongodb/events_store.go.
use brignext.Base.{
  ◌≡◌, String, false, ◌⊎◌, inl, inr, Option, none, some, List, arith, find_first, update_first, ap,
}
use brignext.Errors.{Outcome, ok, err, err_not_found, err_conflict, other}
use brignext.Mongo.{Collection, Laws}
use brignext.Core.Types.{Time, WorkerPhase, same_phase}
use brignext.Core.Mongo.EventDocs.{
  EventDoc, EventFilter, EventUpdate, set_canceled, event_apply, event_semantics, has_id,
  HasUniqueIds, phase_of,
}
use brignext.Core.Mongo.EventsStore.{
  Clock, ClockLaws, get, cancel_if, cancel_event, cancel_running, cancel,
}
use brignext.Core.Mongo.EventsStore.Reads.{get_lem}
use brignext.Core.Mongo.EventsStore.Conditional.{stamped, cancel_if_hit, cancel_if_miss}

-- Where canceling takes a worker: only a pending or a running one can be canceled.
abbrev pub canceled_phase : WorkerPhase → Option WorkerPhase
canceled_phase WorkerPhase.pending = some WorkerPhase.canceled
canceled_phase WorkerPhase.running = some WorkerPhase.aborted
canceled_phase _ = none

phase_cases :
    (p : WorkerPhase)
    → (p ≡ WorkerPhase.pending)
      ⊎ (p ≡ WorkerPhase.running)
      ⊎ ((canceled_phase p ≡ none)
          × (same_phase p WorkerPhase.pending ≡ false)
          × (same_phase p WorkerPhase.running ≡ false))
unfolding same_phase
phase_cases p = ground arith

-- The event's document, and it alone, is stamped and taken to the phase that `canceled_phase` has.
abbrev pub IsCanceled : String → List EventDoc → List EventDoc → Type 0
IsCanceled id ds ds' =
    (d : EventDoc) × (p : WorkerPhase) × (t : Time) × (find_first (has_id id) ds ≡ some d)
    × (canceled_phase (phase_of d) ≡ some p)
    × (ds' ≡ update_first (has_id id) (event_apply (set_canceled t p)) ds)

-- What `Cancel` promises, by its result.
abbrev pub CancelSpec : String → List EventDoc → Outcome (Unit {0}) → List EventDoc → Type 0
CancelSpec id ds (ok x) ds' = IsCanceled id ds ds'
CancelSpec id ds (err (err_not_found x y)) ds' = (find_first (has_id id) ds ≡ none) × (ds' ≡ ds)
CancelSpec id ds (err (err_conflict x y z)) ds' =
    (d : EventDoc) × (find_first (has_id id) ds ≡ some d)
    × (canceled_phase (phase_of d) ≡ none)
    × (ds' ≡ ds)
CancelSpec id ds (err (other s)) ds' = (ds' ≡ ds) ⊎ IsCanceled id ds ds'
CancelSpec id ds _ ds' = ⊥

module _ {W : Type 0} (collection : Collection W EventDoc EventFilter EventUpdate) (clock : Clock W)
    (docs : W → List EventDoc) (laws : Laws collection docs event_semantics)
    (clock_laws : ClockLaws clock docs) where
  module _ (id : String) (d : EventDoc) (w : W) (u : HasUniqueIds (docs w))
      (e : find_first (has_id id) (docs w) ≡ some d) where
    -- A pending worker is canceled by the first update.
    cancel_pending :
        phase_of d ≡ WorkerPhase.pending
        → CancelSpec id
            (docs w)
            (cancel_event collection clock id w).0
            (docs (cancel_event collection clock id w).1)
    unfolding cancel_event stamped
    cancel_pending p =
        let (t, r) =
          cancel_if_hit collection clock docs laws clock_laws id d w u e WorkerPhase.pending
            WorkerPhase.canceled (unfold same_phase in rw p) in
        let now_canceled = ap canceled_phase p in
        elim r [
          | inl (a, b) ↦ rw a (d, WorkerPhase.canceled, t, e, now_canceled, b)
          | inr (s, a, l) ↦ rw a (elim l [
            | inl b ↦ inl b
            | inr b ↦ inr (d, WorkerPhase.canceled, t, e, now_canceled, b)
          ])
        ]

    -- A worker that is not pending is left to the second update.
    cancel_not_pending :
        same_phase (phase_of d) WorkerPhase.pending ≡ false
        → ((s : String) × ((cancel_event collection clock id w).0 ≡ err (other s))
            × (docs (cancel_event collection clock id w).1 ≡ docs w))
          ⊎ ((w₁ : W) × (docs w₁ ≡ docs w)
              × (cancel_event collection clock id w ≡ cancel_running collection clock id w₁))
    unfolding cancel_event
    cancel_not_pending p =
        elim (cancel_if_miss collection clock docs laws clock_laws id d w u e WorkerPhase.pending
          WorkerPhase.canceled p) [
            | inl (a, b) ↦ inr (
              (cancel_if collection clock id WorkerPhase.pending WorkerPhase.canceled w).1,
              b,
              rw a,
            )
            | inr (s, a, b) ↦ inl (s, rw a, rw a b)
          ]

    running_hit :
        phase_of d ≡ WorkerPhase.running
        → CancelSpec id
            (docs w)
            (cancel_running collection clock id w).0
            (docs (cancel_running collection clock id w).1)
    unfolding cancel_running stamped
    running_hit p =
        let (t, r) =
          cancel_if_hit collection clock docs laws clock_laws id d w u e WorkerPhase.running
            WorkerPhase.aborted (unfold same_phase in rw p) in
        let now_canceled = ap canceled_phase p in
        elim r [
          | inl (a, b) ↦ rw a (d, WorkerPhase.aborted, t, e, now_canceled, b)
          | inr (s, a, l) ↦ rw a (elim l [
            | inl b ↦ inl b
            | inr b ↦ inr (d, WorkerPhase.aborted, t, e, now_canceled, b)
          ])
        ]

    running_miss :
        canceled_phase (phase_of d) ≡ none
        → same_phase (phase_of d) WorkerPhase.running ≡ false
        → CancelSpec id
            (docs w)
            (cancel_running collection clock id w).0
            (docs (cancel_running collection clock id w).1)
    unfolding cancel_running
    running_miss n p =
        elim (cancel_if_miss collection clock docs laws clock_laws id d w u e WorkerPhase.running
          WorkerPhase.aborted p) [ inl (a, b) ↦ rw a (d, e, n, b) | inr (s, a, b) ↦ rw a (inl b) ]

  cancel_found :
      (id : String) (d : EventDoc) (w : W)
      → HasUniqueIds (docs w)
      → find_first (has_id id) (docs w) ≡ some d
      → CancelSpec id
          (docs w)
          (cancel_event collection clock id w).0
          (docs (cancel_event collection clock id w).1)
  cancel_found id d w u e = elim (phase_cases (phase_of d)) [
    | inl p ↦ cancel_pending id d w u e p
    | inr (inl p) ↦ elim (cancel_not_pending id d w u e (unfold same_phase in rw p)) [
      | inl (s, a, b) ↦ rw a (inl b)
      | inr (w₁, b, q) ↦ rw (q, ← b) (running_hit id d w₁ (rw b u) (rw b e) p)
    ]
    | inr (inr (n, p, q)) ↦ elim (cancel_not_pending id d w u e p) [
      | inl (s, a, b) ↦ rw a (inl b)
      | inr (w₁, b, x) ↦ rw (x, ← b) (running_miss id d w₁ (rw b u) (rw b e) n q)
    ]
  ]

  -- `Cancel`, where identifiers are unique: it succeeds exactly by taking a pending worker to
  -- CANCELED or a running one to ABORTED, stamping that event and touching no other; it answers
  -- "not found" only where no event has the identifier and "conflict" only where the worker can no
  -- longer be canceled, both with the collection as it was; a failure of the database leaves the
  -- event as it was or canceled; and it never panics.
  pub cancel_lem :
      (id : String) (w : W)
      → HasUniqueIds (docs w)
      → CancelSpec id
          (docs w)
          (cancel collection clock id w).0
          (docs (cancel collection clock id w).1)
  unfolding cancel
  cancel_lem id w u = elim (get_lem collection clock docs laws id w) [
    | inl (n, a, b) ↦ rw a (n, b)
    | inr (inl (d, e, a, b)) ↦
        rw (a, ← b) (cancel_found id d (get collection clock id w).1 (rw b u) (rw b e))
    | inr (inr (s, a, b)) ↦ rw a (inl b)
  ]
