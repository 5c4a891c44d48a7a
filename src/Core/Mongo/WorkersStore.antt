-- ===== src/Core/Mongo/WorkersStore.antt =====
-- v2/apiserver/internal/core/mongodb/workers_store.go and jobs_store.go: both write to the
-- "events" collection. A job's name is a key of the document "worker.jobs": the model has the names
-- without a dot.
pub mod Updates
use brignext.Base.{String, Bool, List, [], ◌∷◌, Option, some, eqb, if◌then◌else◌}
use brignext.Errors.{err_not_found}
use brignext.Effect.{M, pure, fail, ◌>>=◌, ◌>>◌}
use brignext.Mongo.{Collection}
use brignext.Core.Types.{WorkerSpec, WorkerStatus, Job, JobStatus}
use brignext.Core.Interfaces.{WorkersStore, JobsStore}
use brignext.Core.Mongo.EventDocs.{
  EventDoc, EventFilter, EventUpdate, no_criteria, set_worker_spec, set_worker_status, set_job,
  set_job_status,
}

module _ {W : Type 0} (events_collection : Collection W EventDoc EventFilter EventUpdate) where
  -- `UpdateOne` by identifier, with the error of the store for an event that is not there.
  update_event : String → String → EventUpdate → M W (Unit {0})
  update_event type_ event_id update = do
    matched_count ← events_collection.update_one (record no_criteria { id = some event_id }) update
    if eqb matched_count 0 then fail (err_not_found type_ event_id) else pure tt

  unfoldable pub update_worker_spec : String → WorkerSpec → M W (Unit {0})
  unfolding update_event
  update_worker_spec event_id spec = update_event "Event" event_id (set_worker_spec spec)

  unfoldable pub update_worker_status : String → WorkerStatus → M W (Unit {0})
  unfolding update_event
  update_worker_status event_id status = update_event "Event" event_id (set_worker_status status)

  unfoldable pub create_job : String → String → Job → M W (Unit {0})
  unfolding update_event
  create_job event_id job_name job = update_event "Event" event_id (set_job job_name job)

  unfoldable pub update_job_status : String → String → JobStatus → M W (Unit {0})
  unfolding update_event
  update_job_status event_id job_name status =
      update_event "Job" event_id (set_job_status job_name status)

  -- The stores that `NewWorkersStore` and `NewJobsStore` make.
  unfoldable pub workers_store : WorkersStore W
  workers_store = record { update_spec = update_worker_spec; update_status = update_worker_status }

  unfoldable pub jobs_store : JobsStore W
  jobs_store = record { create = create_job; update_status = update_job_status }
