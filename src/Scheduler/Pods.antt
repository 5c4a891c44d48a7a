-- ===== src/Scheduler/Pods.antt =====
-- v2/scheduler/worker_sync.go, job_sync.go and capacity_manager.go: the sets of pods that take
-- capacity. `syncWorkerPod` and `syncJobPod` are the same code over two sets.
use brignext.Base.{
  ◌≡◌, refl, String, Bool, true, false, List, [], ◌∷◌, arith, length, ltb, is_some, contains, add,
  delete, contains-add, contains-delete, IsKeySet, add-IsKeySet, delete-IsKeySet, if◌then◌else◌,
  ◌==◌,
}
use brignext.Pods.{PodPhase, Pod, pod_key}

unfoldable pub sync_phase : PodPhase → String → List String → List String
sync_phase PodPhase.pending name set = add name set
sync_phase PodPhase.running name set = add name set
sync_phase PodPhase.succeeded name set = delete name set
sync_phase PodPhase.failed name set = delete name set
sync_phase PodPhase.unknown name set = add name set
sync_phase PodPhase.other name set = set

unfoldable pub sync_pod : Pod → List String → List String
unfolding sync_phase
sync_pod pod set =
    if is_some pod.deletion_timestamp
    then delete (pod_key pod) set
    else sync_phase pod.phase (pod_key pod) set

-- `syncExistingWorkerPods` over the pods listed, and the informer's events after it.
unfoldable pub sync_pods : List Pod → List String → List String
sync_pods [] set = set
sync_pods (pod ∷ pods) set = sync_pods pods (sync_pod pod set)

-- The test of `manageWorkerCapacity` and `manageJobCapacity`.
unfoldable pub has_capacity : List String → Bool
has_capacity set = ltb (length set) 2

-- Whether a pod takes capacity, as its last report says; `taken` is what was known before.
unfoldable pub takes_capacity : Pod → Bool → Bool
takes_capacity pod taken = if is_some pod.deletion_timestamp then false else elim pod.phase [
  | PodPhase.pending ↦ true
  | PodPhase.running ↦ true
  | PodPhase.unknown ↦ true
  | PodPhase.succeeded ↦ false
  | PodPhase.failed ↦ false
  | PodPhase.other ↦ taken
]

unfoldable pub last_report : String → List Pod → Bool → Bool
last_report name [] taken = taken
last_report name (pod ∷ pods) taken =
    last_report name pods (if pod_key pod == name then takes_capacity pod taken else taken)

contains-sync_pod :
    (pod : Pod) (name : String) (set : List String)
    → contains name (sync_pod pod set)
      ≡ (if pod_key pod == name then takes_capacity pod (contains name set) else contains name set)
unfolding sync_pod takes_capacity
contains-sync_pod pod name set =
    ground (arith, contains-add (pod_key pod) name set, contains-delete (pod_key pod) name set)

-- After any sequence of reports, a pod is counted exactly if the last report about it says that it
-- takes capacity: reported neither deleted nor finished.
pub contains-sync_pods :
    (pods : List Pod) (name : String) (set : List String)
    → contains name (sync_pods pods set) ≡ last_report name pods (contains name set)
unfolding sync_pods last_report
contains-sync_pods [] name set = refl
contains-sync_pods (pod ∷ pods) name set =
    rw (contains-sync_pods pods name (sync_pod pod set), contains-sync_pod pod name set)

sync_pod-IsKeySet : (pod : Pod) (set : List String) → IsKeySet set → IsKeySet (sync_pod pod set)
unfolding sync_pod
sync_pod-IsKeySet pod set h =
    ground (arith, add-IsKeySet (pod_key pod) set h, delete-IsKeySet (pod_key pod) set h)

-- No pod is counted twice.
pub sync_pods-IsKeySet :
    (pods : List Pod) (set : List String) → IsKeySet set → IsKeySet (sync_pods pods set)
unfolding sync_pods
sync_pods-IsKeySet [] set h = h
sync_pods-IsKeySet (pod ∷ pods) set h =
    sync_pods-IsKeySet pods (sync_pod pod set) (sync_pod-IsKeySet pod set h)
