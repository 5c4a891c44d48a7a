-- ===== src/Core/Services/Workers.antt =====
-- v2/apiserver/internal/core/workers.go: the workers service.
use brignext.Base.{String, not, List, [], ◌∷◌}
use brignext.Errors.{err_conflict, worker_already_started}
use brignext.Effect.{M, pure, refuse_if, attempt, ◌>>=◌, ◌>>◌}
use brignext.Authx.Roles.{AuthorizeFn, role_scheduler, role_reader, role_observer}
use brignext.Core.Types.{WorkerPhase, WorkerStatus, same_phase}
use brignext.Core.Interfaces.{EventsStore, ProjectsStore, WorkersStore, Substrate}

pub record WorkersService (W : Type 0) : Type 0 where
  pub authorize : AuthorizeFn W
  pub projects_store : ProjectsStore W
  pub events_store : EventsStore W
  pub workers_store : WorkersStore W
  pub substrate : Substrate W

module _ {W : Type 0} (s : WorkersService W) where
  unfoldable pub start : String → M W (Unit {0})
  start event_id = do
    s.authorize (role_scheduler ∷ [])
    event ← s.events_store.get event_id
    refuse_if (not (same_phase event.worker.status.phase WorkerPhase.pending))
        (err_conflict "Event" event.meta.id (worker_already_started event.meta.id))
    project ← s.projects_store.get event.project_id
    s.substrate.start_worker project event

  unfoldable pub get_status : String → M W WorkerStatus
  get_status event_id = do
    s.authorize (role_reader ∷ [])
    event ← s.events_store.get event_id
    pure event.worker.status

  -- `WatchStatus` up to the start of its goroutine.
  unfoldable pub watch_status : String → M W (Unit {0})
  watch_status event_id = do s.authorize (role_reader ∷ []); s.events_store.get event_id; pure tt

  -- The goroutine over the first ticks, one for each element: what it sends. It ends where the
  -- event cannot be read, and is stopped by its context after the ticks given.
  unfoldable pub watch : String → List (Unit {0}) → M W (List WorkerStatus)
  watch event_id [] = pure []
  watch event_id (tick ∷ ticks) =
      let rest = watch event_id ticks in
      attempt (s.events_store.get event_id)
        (λ event. rest >>= λ statuses. pure (event.worker.status ∷ statuses)) (λ _. pure [])

  unfoldable pub update_status : String → WorkerStatus → M W (Unit {0})
  update_status event_id status = do
    s.authorize (role_observer ∷ [])
    s.workers_store.update_status event_id status
