-- ===== src/Observer.antt =====
-- v2/observer: the status of workers and jobs as their pods show it, and the pods to be deleted.
pub mod Deletions
pub mod Statuses
use brignext.Base.{
  ℕ, String, Bool, true, false, Option, none, some, List, [], ◌∷◌, ◌++◌, is_some, contains, add,
  delete, ◌==◌, if◌then◌else◌,
}
use brignext.Core.Types.{WorkerPhase, WorkerStatus, JobPhase, JobStatus}
use brignext.Pods.{PodPhase, Terminated, ContainerStatus, Pod, pod_key}

-- What a report makes the observer do: `UpdateStatus` calls, whose errors are only logged, and
-- goroutines of `deletePod`. `crash` is a panic.
pub data Action : Type 0 where
  update_worker_status : String → WorkerStatus → Action
  update_job_status : String → String → JobStatus → Action
  delete_pod : String → Action
  crash : Action

-- The switch of `syncWorkerPod`; a pending pod "counts as running".
unfoldable pub worker_phase_of : PodPhase → WorkerPhase
worker_phase_of PodPhase.pending = WorkerPhase.running
worker_phase_of PodPhase.running = WorkerPhase.running
worker_phase_of PodPhase.succeeded = WorkerPhase.succeeded
worker_phase_of PodPhase.failed = WorkerPhase.failed
worker_phase_of PodPhase.unknown = WorkerPhase.unknown
worker_phase_of PodPhase.other = WorkerPhase.unset

finished_at : Option Terminated → Option ℕ
finished_at none = none
finished_at (some t) = some t.finished_at

ended_of : List ContainerStatus → Option ℕ
unfolding finished_at
ended_of [] = none
ended_of (c ∷ cs) = finished_at c.terminated

unfoldable pub worker_status_of : Pod → WorkerStatus
unfolding worker_phase_of ended_of
worker_status_of pod = record {
  started = pod.start_time;
  ended = ended_of pod.container_statuses;
  phase = worker_phase_of pod.phase;
}

abbrev running_job : Pod → JobStatus
running_job pod = record { started = pod.start_time; ended = none; phase = JobPhase.running }

terminated_job : Pod → Option Terminated → JobStatus
terminated_job pod none = running_job pod
terminated_job pod (some t) = record {
  started = pod.start_time;
  ended = some t.finished_at;
  phase = if t.reason == "Completed" then JobPhase.succeeded else JobPhase.failed;
}

-- The loop over the container statuses, up to the one of the primary container.
primary_status : Pod → String → List ContainerStatus → JobStatus
primary_status pod primary [] = running_job pod
primary_status pod primary (c ∷ cs) =
    if c.name == primary then terminated_job pod c.terminated else primary_status pod primary cs

with_primary : Pod → List String → List ContainerStatus → Option JobStatus
unfolding primary_status terminated_job
with_primary pod [] [] = some (running_job pod)
with_primary pod [] (c ∷ cs) = none
with_primary pod (primary ∷ names) cs = some (primary_status pod primary cs)

-- `none` where `Spec.Containers[0]` is out of range.
unfoldable pub job_status_of : Pod → Option JobStatus
unfolding with_primary
job_status_of pod = with_primary pod pod.containers pod.container_statuses

unfoldable pub is_finished : PodPhase → Bool
is_finished PodPhase.succeeded = true
is_finished PodPhase.failed = true
is_finished _ = false

-- The block that ends both sync functions.
unfoldable pub schedule_deletion : Pod → List String → List Action × List String
unfolding is_finished
schedule_deletion pod deleting =
    if is_finished pod.phase
    then if contains (pod_key pod) deleting
      then ([], deleting)
      else (delete_pod (pod_key pod) ∷ [], add (pod_key pod) deleting)
    else ([], deleting)

unfoldable pub sync_worker_pod : Pod → List String → List Action × List String
sync_worker_pod pod deleting =
    if is_some pod.deletion_timestamp
    then ([], deleting)
    else (let (actions, deleting') = schedule_deletion pod deleting in
        (update_worker_status pod.label_event (worker_status_of pod) ∷ actions, deleting'))

sync_running_job : Pod → Option JobStatus → List String → List Action × List String
sync_running_job pod none deleting = (crash ∷ [], deleting)
sync_running_job pod (some status) deleting =
    let (actions, deleting') = schedule_deletion pod deleting in
    (update_job_status pod.label_event pod.label_job status ∷ actions, deleting')

unfoldable pub sync_job_pod : Pod → List String → List Action × List String
unfolding sync_running_job
sync_job_pod pod deleting =
    if is_some pod.deletion_timestamp
    then ([], deleting)
    else sync_running_job pod (job_status_of pod) deleting

-- `syncDeletedPod`
unfoldable pub sync_deleted_pod : Pod → List String → List String
sync_deleted_pod pod deleting = delete (pod_key pod) deleting

pub data Report : Type 0 where
  worker_pod job_pod deleted_pod : Pod → Report

unfoldable pub sync : Report → List String → List Action × List String
sync (worker_pod pod) deleting = sync_worker_pod pod deleting
sync (job_pod pod) deleting = sync_job_pod pod deleting
sync (deleted_pod pod) deleting = ([], sync_deleted_pod pod deleting)

-- The informers' reports, in the order in which they take the mutex.
unfoldable pub sync_all : List Report → List String → List Action × List String
sync_all [] deleting = ([], deleting)
sync_all (r ∷ rs) deleting =
    let (actions, deleting') = sync r deleting in
    let (rest, final) = sync_all rs deleting' in (actions ++ rest, final)
