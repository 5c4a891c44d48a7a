-- ===== src/Observer/Deletions.antt =====
-- How often the observer starts to delete a pod.
use brignext.Base.{
  ℕ, ◌+◌, ◌≤◌, ◌≡◌, String, Bool, true, false, List, [], ◌∷◌, ◌++◌, arith, contains, contains-add,
  contains-delete, eq_iff, ◌==◌,
}
use brignext.Pods.{Pod, pod_key}
use brignext.Observer.{
  Action, update_worker_status, update_job_status, delete_pod, crash, Report, worker_pod, job_pod,
  deleted_pod, schedule_deletion, sync_worker_pod, sync_job_pod, sync_deleted_pod, sync, sync_all,
}

abbrev pub one_if : Bool → ℕ
one_if true = 1
one_if false = 0

-- The deletions of the pod `key` among actions.
unfoldable pub deletions : String → List Action → ℕ
deletions key [] = 0
deletions key (delete_pod k ∷ acts) = one_if (k == key) + deletions key acts
deletions key (update_worker_status e s ∷ acts) = deletions key acts
deletions key (update_job_status e j s ∷ acts) = deletions key acts
deletions key (crash ∷ acts) = deletions key acts

-- The reports that the pod `key` is gone.
unfoldable pub gone : String → List Report → ℕ
gone key [] = 0
gone key (deleted_pod pod ∷ rs) = one_if (pod_key pod == key) + gone key rs
gone key (worker_pod pod ∷ rs) = gone key rs
gone key (job_pod pod ∷ rs) = gone key rs

deletions-append :
    (key : String) (acts bs : List Action)
    → deletions key (acts ++ bs) ≡ deletions key acts + deletions key bs
unfolding deletions
deletions-append key [] bs = omega arith
deletions-append key (delete_pod k ∷ acts) bs = omega (arith, deletions-append key acts bs)
deletions-append key (update_worker_status e s ∷ acts) bs = deletions-append key acts bs
deletions-append key (update_job_status e j s ∷ acts) bs = deletions-append key acts bs
deletions-append key (crash ∷ acts) bs = deletions-append key acts bs

-- Each deletion puts the pod into the set, and none is made while it is there.
schedule_deletion_lem :
    (key : String) (pod : Pod) (deleting : List String)
    → deletions key (schedule_deletion pod deleting).0 + one_if (contains key deleting)
      ≡ one_if (contains key (schedule_deletion pod deleting).1)
unfolding schedule_deletion deletions
schedule_deletion_lem key pod deleting =
    ground (arith, contains-add (pod_key pod) key deleting, eq_iff (pod_key pod) key)

sync_lem :
    (key : String) (r : Report) (deleting : List String)
    → deletions key (sync r deleting).0 + one_if (contains key deleting)
      ≤ one_if (contains key (sync r deleting).1) + gone key (r ∷ [])
unfolding sync sync_worker_pod sync_job_pod deletions gone
sync_lem key (worker_pod pod) deleting = ground (arith, schedule_deletion_lem key pod deleting)
sync_lem key (job_pod pod) deleting = ground (arith, schedule_deletion_lem key pod deleting)
sync_lem key (deleted_pod pod) deleting =
    unfold sync_deleted_pod in ground (arith, contains-delete (pod_key pod) key deleting)

gone-cons :
    (key : String) (r : Report) (rs : List Report)
    → gone key (r ∷ rs) ≡ gone key (r ∷ []) + gone key rs
unfolding gone
gone-cons key r rs = ground arith

-- Over any sequence of reports, from any set of pods being deleted: the deletions started of a pod,
-- and one more if it was being deleted at first, are at most the reports that it is gone, and one
-- more if it is being deleted at last.
pub deletions-sync_all :
    (key : String) (rs : List Report) (deleting : List String)
    → deletions key (sync_all rs deleting).0 + one_if (contains key deleting)
      ≤ one_if (contains key (sync_all rs deleting).1) + gone key rs
unfolding sync_all
deletions-sync_all key [] deleting = unfold deletions gone in omega arith
deletions-sync_all key (r ∷ rs) deleting = omega (
  arith,
  sync_lem key r deleting,
  deletions-sync_all key rs (sync r deleting).1,
  deletions-append key (sync r deleting).0 (sync_all rs (sync r deleting).1).0,
  gone-cons key r rs,
)
