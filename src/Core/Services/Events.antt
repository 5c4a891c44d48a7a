-- ===== src/Core/Services/Events.antt =====
-- v2/apiserver/internal/core/events.go: the events service.
mod WorkerSpecs
pub mod Defaults
pub mod Endings
pub mod Subscribers
pub mod Created
unfoldable pub use WorkerSpecs.{worker_spec_for, with_spec_git}
use brignext.Base.{
  ℕ, zero, suc, String, Bool, true, false, Option, none, some, List, [], ◌∷◌, length, eqb, ◌==◌,
  if◌then◌else◌,
}
use brignext.Errors.{
  Error, err_bad_request, err, ok, panic, out_of_fuel, cancel_needs_project, cancel_needs_phases,
  delete_needs_project, delete_needs_phases,
}
use brignext.Effect.{M, Spawned, pure, diverge, fail, crash, refuse_if, attempt, ◌>>=◌, ◌>>◌}
use brignext.Authx.Roles.{AuthorizeFn, role_event_creator, role_project_user, role_reader}
use brignext.Core.Types.{
  Event, EventList, EventsSelector, ListOptions, ListMeta, Project, Worker, WorkerSpec, WorkerPhase,
  worker_phases_all, CancelManyEventsResult, DeleteManyEventsResult,
}
use brignext.Core.Interfaces.{EventsStore, ProjectsStore, Substrate, System}

pub record EventsService (W : Type 0) : Type 0 where
  pub authorize : AuthorizeFn W
  pub projects_store : ProjectsStore W
  pub events_store : EventsStore W
  pub substrate : Substrate W
  pub system : System W

abbrev pub no_meta : ListMeta
no_meta = record { continue_ = ""; remaining_item_count = 0 }

abbrev pub is_empty {ℓ} : {A : Type ℓ} → List A → Bool
is_empty [] = true
is_empty (x ∷ xs) = false

module _ {W : Type 0} (e : EventsService W) where
  pub authorize_create : Event → M W (Unit {0})
  authorize_create event =
      if event.project_id == ""
      then e.authorize (role_event_creator event.source ∷ [])
      else e.authorize (role_project_user event.project_id ∷ role_event_creator event.source ∷ [])

  -- The worker that will handle the event.
  new_worker : Event → Project → M W Worker
  new_worker event project = do
    token ← e.system.new_token 256
    pure (record {
      spec = worker_spec_for event.git project.spec.worker_template;
      status = record { started = none; ended = none; phase = WorkerPhase.pending };
      token = token;
      hashed_token = e.system.short_sha "" token;
      jobs = [];
    })

  -- `Create` from "Make sure the project exists" on.
  pub create_in_project : Event → M W EventList
  create_in_project event = do
    project ← e.projects_store.get event.project_id
    id ← e.system.new_uuid
    worker ← new_worker event project
    let project' = with_spec_git project worker.spec.git
    event' ←
        e.substrate.pre_create_event project'
          (record event { meta = record event.meta { id = id }; worker = worker })
    e.events_store.create event'
    e.substrate.schedule_worker project' event'
    pure (record { meta = no_meta; items = event' ∷ [] })

  first_item : List Event → M W Event
  first_item [] = crash
  first_item (event ∷ events) = pure event

  -- The loop over the subscribed projects; `create` is the recursive call.
  pub create_each : (Event → M W EventList) → Event → List Project → M W (List Event)
  create_each create event [] = pure []
  create_each create event (project ∷ projects) = do
    project_events ← create (record event { project_id = project.meta.id })
    item ← first_item project_events.items
    items ← create_each create event projects
    pure (item ∷ items)

  -- The recursive call is made at most once under another, unless a project has no identifier.
  unfoldable pub create : ℕ → Event → M W EventList
  unfolding authorize_create create_in_project create_each first_item new_worker
  create zero event = diverge
  create (suc fuel) event = do
    authorize_create event
    now ← e.system.now
    let event' = record event { meta = record event.meta { created = some now } }
    if event'.project_id == ""
        then (do
          projects ← e.projects_store.list_subscribers event'
          items ← create_each (create fuel) event' projects.items
          pure (record { meta = no_meta; items = items }))
        else create_in_project event'

  -- `WorkerPhases` defaults to all phases and `Limit` to 20.
  unfoldable pub list : EventsSelector → ListOptions → M W EventList
  list selector opts = do
    e.authorize (role_reader ∷ [])
    e.events_store.list
        (if is_empty selector.worker_phases
          then record selector { worker_phases = worker_phases_all }
          else selector)
        (if eqb opts.limit 0 then record opts { limit = 20 } else opts)

  unfoldable pub get : String → M W Event
  get id = do e.authorize (role_reader ∷ []); e.events_store.get id

  unfoldable pub get_by_worker_token : String → M W Event
  get_by_worker_token worker_token =
      e.events_store.get_by_hashed_worker_token (e.system.short_sha "" worker_token)

  unfoldable pub cancel : String → M W (Unit {0})
  cancel id = do
    event ← e.events_store.get id
    e.authorize (role_project_user event.project_id ∷ [])
    project ← e.projects_store.get event.project_id
    e.events_store.cancel id
    e.substrate.delete_worker_and_jobs project event

  -- The goroutine: an error is logged, and the next event is taken.
  unfoldable pub delete_each : Project → List Event → M W (Unit {0})
  delete_each project [] = pure tt
  delete_each project (event ∷ events) =
      let rest = delete_each project events in
      attempt (e.substrate.delete_worker_and_jobs project event) (λ _. rest) (λ _. rest)

  unfoldable pub cancel_many : EventsSelector → M W (Spawned W CancelManyEventsResult)
  cancel_many selector = do
    refuse_if (selector.project_id == "") (err_bad_request cancel_needs_project [])
    e.authorize (role_project_user selector.project_id ∷ [])
    refuse_if (is_empty selector.worker_phases) (err_bad_request cancel_needs_phases [])
    project ← e.projects_store.get selector.project_id
    events ← e.events_store.cancel_many selector
    pure (record {
      result = record { count = length events.items };
      background = delete_each project events.items;
    })

  unfoldable pub delete : String → M W (Unit {0})
  delete id = do
    event ← e.events_store.get id
    e.authorize (role_project_user event.project_id ∷ [])
    project ← e.projects_store.get event.project_id
    e.events_store.delete id
    e.substrate.delete_worker_and_jobs project event

  unfoldable pub delete_many : EventsSelector → M W (Spawned W DeleteManyEventsResult)
  delete_many selector = do
    refuse_if (selector.project_id == "") (err_bad_request delete_needs_project [])
    e.authorize (role_project_user selector.project_id ∷ [])
    refuse_if (is_empty selector.worker_phases) (err_bad_request delete_needs_phases [])
    project ← e.projects_store.get selector.project_id
    events ← e.events_store.delete_many selector
    pure (record {
      result = record { count = length events.items };
      background = delete_each project events.items;
    })
