-- ===== src/Tests/Services.antt =====
-- Services over the database in memory.
use brignext.Base.{◌≡◌, refl, true, none, inl, inr, [], ◌∷◌, any, find_first, update_first}
use brignext.Errors.{Error, ok, err, other, err_not_found}
use brignext.Effect.{pure, fail}
use brignext.Authx.Roles.{always_authorize}
use brignext.Core.Types.{Job, JobContainerSpec, WorkerPhase, same_phase}
use brignext.Core.Interfaces.{ProjectsStore, Substrate}
use brignext.Core.Mongo.EventDocs.{
  has_text, has_phase, has_deleted, has_canceled, is_created_before, event_matches, decode,
  zero_job_spec,
}
use brignext.Core.Mongo.EventsStore.{cancel, get, events_store}
use brignext.Core.Mongo.WorkersStore.{workers_store, jobs_store}
use brignext.Core.Services.Workers.{WorkersService, start}
use brignext.Core.Services.Jobs.{JobsService, create, permits}
use brignext.Core.Services.Jobs.Policies.{create_forbidden}
use brignext.Core.Canceled.{start-cancel}
use brignext.Tests.Memory.{Documents, memory, documents, memory-Laws}
use brignext.Tests.Samples.{stored, event_in}
use brignext.Tests.Store.{clock, clock_laws, stored-HasUniqueIds}

abbrev pub no_projects : ProjectsStore Documents
no_projects = record {
  create = λ p. fail (other "unavailable");
  list = λ o. fail (other "unavailable");
  list_subscribers = λ e. fail (other "unavailable");
  get = λ id. fail (err_not_found "Project" id);
  update = λ p. fail (other "unavailable");
  delete = λ id. fail (other "unavailable");
}

abbrev pub substrate : Substrate Documents
substrate = record {
  pre_create_project = pure;
  create_project = λ p. pure tt;
  pre_update_project = λ old. pure;
  delete_project = λ p. pure tt;
  pre_create_event = λ p. pure;
  schedule_worker = λ p. λ e. pure tt;
  start_worker = λ p. λ e. pure tt;
  schedule_job = λ p. λ e. λ name. pure tt;
  start_job = λ p. λ e. λ name. pure tt;
  delete_worker_and_jobs = λ p. λ e. pure tt;
}

abbrev workers_service : WorkersService Documents
workers_service = record {
  authorize = always_authorize;
  projects_store = no_projects;
  events_store = events_store memory clock;
  workers_store = workers_store memory;
  substrate = substrate;
}

e1_canceled : (cancel memory clock "e1" stored).0 ≡ ok tt
unfolding cancel get any find_first update_first event_matches has_text has_phase has_deleted
    has_canceled is_created_before same_phase
e1_canceled = refl

start_canceled_example :
    (x : Error) × (start workers_service "e1" (cancel memory clock "e1" stored).1
      ≡ (err x, (get memory clock "e1" (cancel memory clock "e1" stored).1).1))
start_canceled_example =
    start-cancel memory clock documents memory-Laws clock_laws workers_service refl
      (unfold always_authorize in λ w. refl) "e1" stored stored-HasUniqueIds e1_canceled

abbrev jobs_service : JobsService Documents
jobs_service = record {
  authorize = always_authorize;
  projects_store = no_projects;
  events_store = events_store memory clock;
  jobs_store = jobs_store memory;
  substrate = substrate;
}

abbrev privileged : JobContainerSpec
privileged = record zero_job_spec.primary_container { privileged = true }

abbrev with_sidecar : Job
with_sidecar = record {
  spec = record zero_job_spec { sidecar_containers = ("docker", privileged) ∷ [] };
  status = none;
}

e2_read :
    jobs_service.events_store.get "e2" stored
    ≡ (ok (event_in "e2" 30 "blog" WorkerPhase.running), stored)
unfolding events_store get find_first event_matches has_text has_phase has_deleted has_canceled
    is_created_before decode
e2_read = refl

create_forbidden_example :
    (x : Error) × (create jobs_service "e2" "deploy" with_sidecar stored ≡ (err x, stored))
create_forbidden_example =
    create_forbidden jobs_service "e2" "deploy" with_sidecar stored stored stored
      (event_in "e2" 30 "blog" WorkerPhase.running) (unfold always_authorize in refl) e2_read
      privileged (inr (inl refl)) (inl (refl, unfold permits in refl))
