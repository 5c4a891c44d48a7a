-- ===== src/Observer/Statuses.antt =====
-- What the observer reports of a job, from its pod.
use brignext.Base.{
  ◌≡◌, refl, String, inl, inr, Option, none, some, List, [], ◌∷◌, find_first, ◌==◌, if◌then◌else◌,
  Bool-cases, ap, ◌∙◌,
}
use brignext.Core.Types.{JobPhase, JobStatus}
use brignext.Pods.{Terminated, ContainerStatus, Pod}
use brignext.Observer.{job_status_of, with_primary, primary_status, terminated_job}

-- The status of the container `name`.
abbrev pub container_status : String → Pod → Option ContainerStatus
container_status name pod = find_first (λ c. c.name == name) pod.container_statuses

-- How a container ended, if it has.
abbrev pub termination : Option ContainerStatus → Option Terminated
termination none = none
termination (some c) = c.terminated

-- The status that a job should have when its primary container's termination is as given.
abbrev pub ExpectedStatus : Pod → Option Terminated → JobStatus → Type 0
ExpectedStatus pod none s = (s.phase ≡ JobPhase.running) × (s.ended ≡ none)
ExpectedStatus pod (some t) s =
    (s.phase ≡ (if t.reason == "Completed" then JobPhase.succeeded else JobPhase.failed))
    × (s.ended ≡ some t.finished_at)

primary_status_lem :
    (pod : Pod) (primary : String) (cs : List ContainerStatus)
    → primary_status pod primary cs
      ≡ terminated_job pod (termination (find_first (λ c. c.name == primary) cs))
unfolding primary_status find_first terminated_job
primary_status_lem pod primary [] = refl
primary_status_lem pod primary (c ∷ cs) = elim (Bool-cases (c.name == primary)) [
  | inl e ↦ rw e
  | inr e ↦ rw e (primary_status_lem pod primary cs)
]

expected_lem : (pod : Pod) (o : Option Terminated) → ExpectedStatus pod o (terminated_job pod o)
unfolding terminated_job
expected_lem pod none = (refl, refl)
expected_lem pod (some t) = (refl, refl)

-- Of a pod that has a container, the job's status is that of its first container alone: succeeded
-- or failed, with the time, exactly where that container has terminated, and running otherwise;
-- it never panics.
pub job_status_of_lem :
    (pod : Pod) (primary : String) (names : List String)
    → pod.containers ≡ primary ∷ names
    → (s : JobStatus) × (job_status_of pod ≡ some s)
      × ExpectedStatus pod (termination (container_status primary pod)) s
unfolding job_status_of
job_status_of_lem pod primary names e =
    let o = termination (container_status primary pod) in
    (
      terminated_job pod o,
      ap (λ l. with_primary pod l pod.container_statuses) e
          ∙ ap some (primary_status_lem pod primary pod.container_statuses),
      expected_lem pod o,
    )
