-- ===== src/Core/Canceled.antt =====
-- Canceling an event and starting its worker: `Cancel` of
-- v2/apiserver/internal/core/mongodb/events_store.go, and `Start` of
-- v2/apiserver/internal/core/workers.go over that store.
use brignext.Base.{arith, ◌≡◌, refl, String, false, inl, inr, some, List, [], ◌∷◌, find_first}
use brignext.Errors.{Error, ok, err, err_conflict, worker_already_started, other}
use brignext.Mongo.{Collection, Laws}
use brignext.Authx.Roles.{role_scheduler}
use brignext.Core.Types.{WorkerPhase, same_phase}
use brignext.Core.Mongo.EventDocs.{
  EventDoc, EventFilter, EventUpdate, set_canceled, event_apply, event_semantics, has_id,
  HasUniqueIds, decode, phase_of,
}
use brignext.Core.Mongo.EventsStore.{Clock, ClockLaws, get, cancel, events_store}
use brignext.Core.Mongo.EventsStore.Cancel.{cancel_lem, canceled_phase}
use brignext.Core.Mongo.EventsStore.Reads.{get_lem}
use brignext.Core.Mongo.WorkersStore.Updates.{find_first-update_first}
use brignext.Core.Services.Workers.{WorkersService, start}

-- The phase of a canceled worker is not PENDING.
canceled_not_pending :
    (p q : WorkerPhase) → canceled_phase p ≡ some q → same_phase q WorkerPhase.pending ≡ false
unfolding same_phase
canceled_not_pending p q h = ground arith

module _ {W : Type 0} (collection : Collection W EventDoc EventFilter EventUpdate) (clock : Clock W)
    (docs : W → List EventDoc) (laws : Laws collection docs event_semantics)
    (clock_laws : ClockLaws clock docs) (s : WorkersService W)
    (over_store : s.events_store ≡ events_store collection clock)
    (authorizes : (w : W) → s.authorize (role_scheduler ∷ []) w ≡ (ok tt, w)) where
  -- Starting the worker of an event that is not pending, in the world `w`.
  start_not_pending :
      (id : String) (w : W) (d : EventDoc)
      → find_first (has_id id) (docs w) ≡ some d
      → same_phase (phase_of d) WorkerPhase.pending ≡ false
      → (x : Error) × (start s id w ≡ (err x, (get collection clock id w).1))
  unfolding start events_store
  start_not_pending id w d f p = elim (get_lem collection clock docs laws id w) [
    | inl (n, a, b) ↦ absurd (cc (n, f))
    | inr (inl (d', f', a, b)) ↦
        let read : (get collection clock id w).0 ≡ ok d.event = unfold decode in cc (a, f, f') in
        (
          err_conflict "Event" d.event.meta.id (worker_already_started d.event.meta.id),
          rw (authorizes w, over_store, read, p) refl,
        )
    | inr (inr (e, a, b)) ↦ (other e, rw (authorizes w, over_store, a) refl)
  ]

  -- Where identifiers are unique and the scheduler is authorized, once `Cancel` has succeeded for
  -- an event, `Start` fails for it and does nothing after it has read the event: the substrate is
  -- not asked to start the worker.
  pub start-cancel :
      (id : String) (w : W)
      → HasUniqueIds (docs w)
      → (cancel collection clock id w).0 ≡ ok tt
      → let w₁ = (cancel collection clock id w).1 in
        (x : Error) × (start s id w₁ ≡ (err x, (get collection clock id w₁).1))
  start-cancel id w u canceled =
      let (d, p, t, f, c, b) =
        rw canceled at (cancel_lem collection clock docs laws clock_laws id w u) in
      start_not_pending id (cancel collection clock id w).1 (event_apply (set_canceled t p) d)
        (rw b (find_first-update_first (set_canceled t p) id (docs w) d f))
        (unfold event_apply in canceled_not_pending (phase_of d) p c)
