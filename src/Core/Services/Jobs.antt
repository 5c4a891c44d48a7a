-- ===== src/Core/Services/Jobs.antt =====
-- v2/apiserver/internal/core/jobs.go: the jobs service.
pub mod Policies
use brignext.Base.{
  String, Bool, false, not, ◌&&◌, ◌||◌, Option, none, some, List, [], ◌∷◌, is_some, lookup,
}
use mathlib.Core.Option
use brignext.Errors.{
  err_authorization, err_conflict, err_not_found, job_exists, job_already_started,
  privileged_forbidden, docker_socket_forbidden, workspace_disabled,
}
use brignext.Effect.{M, pure, fail, crash, refuse_if, attempt, ◌>>=◌, ◌>>◌}
use brignext.Authx.Roles.{AuthorizeFn, role_worker, role_scheduler, role_reader, role_observer}
use brignext.Core.Types.{
  Event, Job, JobSpec, JobPhase, JobStatus, JobContainerSpec, JobPolicies, WorkerSpec, is_pending,
}
use brignext.Core.Interfaces.{EventsStore, ProjectsStore, JobsStore, Substrate}

pub record JobsService (W : Type 0) : Type 0 where
  pub authorize : AuthorizeFn W
  pub projects_store : ProjectsStore W
  pub events_store : EventsStore W
  pub jobs_store : JobsStore W
  pub substrate : Substrate W

-- Does the primary container or any sidecar make a request? The loop sets a flag that starts as
-- the primary container's.
unfoldable pub any_container :
    (JobContainerSpec → Bool) → Bool → List (String × JobContainerSpec) → Bool
any_container asks flag [] = flag
any_container asks flag ((name, c) ∷ cs) = any_container asks (asks c || flag) cs

unfoldable pub job_asks : (JobContainerSpec → Bool) → JobSpec → Bool
unfolding any_container
job_asks asks spec = any_container asks (asks spec.primary_container) spec.sidecar_containers

-- `JobPolicies == nil || !JobPolicies.…`, negated.
unfoldable pub permits : (JobPolicies → Bool) → Option JobPolicies → Bool
permits allows none = false
permits allows (some policies) = allows policies

module _ {W : Type 0} where
  named : String → Option Job → M W Job
  named job_name none = fail (err_not_found "Job" job_name)
  named job_name (some job) = pure job

  -- `job, ok := event.Worker.Jobs[jobName]`
  unfoldable pub job_of : Event → String → M W Job
  unfolding named
  job_of event job_name = named job_name (lookup job_name event.worker.jobs)

  deref : Option JobStatus → M W JobStatus
  deref none = crash
  deref (some status) = pure status

  -- `*job.Status`
  unfoldable pub status_of : Job → M W JobStatus
  unfolding deref
  status_of job = deref job.status

module _ {W : Type 0} (s : JobsService W) where
  -- The validations of `Create`, in their order.
  validate : JobSpec → WorkerSpec → M W (Unit {0})
  validate job worker = do
    refuse_if
        (job_asks (λ c. c.privileged) job
          && not (permits (λ p. p.allow_privileged) worker.job_policies))
        (err_authorization privileged_forbidden)
    refuse_if
        (job_asks (λ c. c.use_host_docker_socket) job
          && not (permits (λ p. p.allow_docker_socket_mount) worker.job_policies))
        (err_authorization docker_socket_forbidden)
    refuse_if (job_asks (λ c. c.use_workspace) job && not worker.use_workspace)
        (err_conflict "" "" workspace_disabled)

  unfoldable pub create : String → String → Job → M W (Unit {0})
  unfolding validate
  create event_id job_name job = do
    s.authorize (role_worker event_id ∷ [])
    event ← s.events_store.get event_id
    refuse_if (is_some (lookup job_name event.worker.jobs))
        (err_conflict "Job" job_name (job_exists event_id job_name))
    validate job.spec event.worker.spec
    let job' = record job {
      status = some (record { started = none; ended = none; phase = JobPhase.pending });
    }
    project ← s.projects_store.get event.project_id
    s.jobs_store.create event_id job_name job'
    s.substrate.schedule_job project event job_name

  unfoldable pub start : String → String → M W (Unit {0})
  unfolding job_of status_of
  start event_id job_name = do
    s.authorize (role_scheduler ∷ [])
    event ← s.events_store.get event_id
    job ← job_of event job_name
    status ← status_of job
    refuse_if (not (is_pending status.phase))
        (err_conflict "Job" job_name (job_already_started event_id job_name))
    project ← s.projects_store.get event.project_id
    s.substrate.start_job project event job_name

  unfoldable pub get_status : String → String → M W JobStatus
  unfolding job_of status_of
  get_status event_id job_name = do
    s.authorize (role_reader ∷ [])
    event ← s.events_store.get event_id
    job ← job_of event job_name
    status_of job

  -- `WatchStatus` up to the start of its goroutine.
  unfoldable pub watch_status : String → String → M W (Unit {0})
  unfolding job_of
  watch_status event_id job_name = do
    s.authorize (role_reader ∷ [])
    event ← s.events_store.get event_id
    job_of event job_name
    pure tt

  -- The goroutine over the first ticks: what it sends. `Jobs[jobName]` of a job that is gone is a
  -- zero job, and its status nil.
  unfoldable pub watch : String → String → List (Unit {0}) → M W (List JobStatus)
  unfolding deref
  watch event_id job_name [] = pure []
  watch event_id job_name (tick ∷ ticks) =
      let rest = watch event_id job_name ticks in
      attempt (s.events_store.get event_id)
        (λ event. do
          status ← deref (Option.bind (lookup job_name event.worker.jobs) (λ job. job.status))
          statuses ← rest
          pure (status ∷ statuses))
        (λ _. pure [])

  unfoldable pub update_status : String → String → JobStatus → M W (Unit {0})
  update_status event_id job_name status = do
    s.authorize (role_observer ∷ [])
    s.jobs_store.update_status event_id job_name status
