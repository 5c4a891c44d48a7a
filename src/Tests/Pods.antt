-- ===== src/Tests/Pods.antt =====
-- Pods as the scheduler and the observer meet them.
use brignext.Base.{◌+◌, ◌≤◌, ◌≡◌, refl, Bool, none, some, List, [], ◌∷◌, contains, if◌then◌else◌}
use brignext.Pods.{PodPhase, Pod}
use brignext.Scheduler.Pods.{sync_pods, last_report, contains-sync_pods}
use brignext.Base.{has_char}
use brignext.Scheduler.Messages.{parse_job_message, job_message, parse-job_message}
use brignext.Observer.{Report, job_pod, deleted_pod, sync_all}
use brignext.Observer.Deletions.{deletions, gone, one_if, deletions-sync_all}

abbrev build_pod : PodPhase → Pod
build_pod phase = record {
  namespace = "blog";
  name = "job-e2-build";
  label_event = "e2";
  label_job = "build";
  deletion_timestamp = none;
  phase = phase;
  start_time = some 1;
  container_statuses =
      record { name = "proxy"; terminated = none }
      ∷ record {
        name = "build";
        terminated = some (record { reason = "Completed"; finished_at = 9 });
      }
      ∷ [];
  containers = "build" ∷ "proxy" ∷ [];
}

abbrev reports : List Pod
reports =
    build_pod PodPhase.pending ∷ build_pod PodPhase.running ∷ build_pod PodPhase.succeeded ∷ []

sync_pods_example :
    contains "blog:job-e2-build" (sync_pods reports [])
    ≡ last_report "blog:job-e2-build" reports (contains "blog:job-e2-build" [])
sync_pods_example = contains-sync_pods reports "blog:job-e2-build" []

no_colon : has_char ":" "e2" ≡ Bool.false
unfolding has_char
no_colon = refl

job_message_example :
    parse_job_message (job_message "e2" "build")
    ≡ (if has_char ":" "build" then none else some ("e2", "build"))
job_message_example = parse-job_message "e2" "build" no_colon

abbrev observed : List Report
observed =
    job_pod (build_pod PodPhase.running)
    ∷ job_pod (build_pod PodPhase.succeeded)
    ∷ job_pod (build_pod PodPhase.succeeded)
    ∷ deleted_pod (build_pod PodPhase.succeeded)
    ∷ []

deletions_example :
    deletions "blog:job-e2-build" (sync_all observed []).0
      + one_if (contains "blog:job-e2-build" [])
    ≤ one_if (contains "blog:job-e2-build" (sync_all observed []).1)
      + gone "blog:job-e2-build" observed
deletions_example = deletions-sync_all "blog:job-e2-build" observed []
