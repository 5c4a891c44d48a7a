-- ===== src/Core/Kubernetes/LogsStore/Names.antt =====
-- Whose logs are read: the names in logs_store.go of v2/apiserver/internal/core/kubernetes and
-- v2/apiserver/internal/core/mongodb, and those of the pods that substrate.go makes.
use brignext.Base.{
  ◌≡◌, refl, String, false, inl, inr, Bool-cases, List, [], ◌∷◌, ◌==◌, if◌then◌else◌,
}
use brignext.Core.Types.{Event, JobSpec}
use brignext.Core.Kubernetes.Objects.{Pod, Container}
use brignext.Core.Kubernetes.WorkerPods.{Config, worker_pod}
use brignext.Core.Kubernetes.JobPods.{job_pod, primary}
use brignext.Core.Kubernetes.LogsStore.{pod_name}
use brignext.Core.Mongo.LogsStore.{criteria_from_selector}
use brignext.Core.Services.Logs.{LogsSelector}

-- The pod that a selector asks for.
abbrev pub pod_for : Config → String → Event → LogsSelector → JobSpec → Pod
pod_for config namespace event selector spec =
    if selector.job == ""
    then worker_pod config namespace event
    else job_pod namespace event selector.job spec

abbrev pub first_name : List Container → String
first_name [] = ""
first_name (c ∷ cs) = c.name

-- The logs are read from the pod that the substrate makes for the worker or the job that the
-- selector names, and the container that is looked for in the collection is the one that the
-- selector names, or else the first container of this pod.
pub pod_name-criteria :
    (config : Config) (namespace : String) (event : Event) (selector : LogsSelector)
    (spec : JobSpec)
    → let pod = pod_for config namespace event selector spec in
      (pod_name event.meta.id selector ≡ pod.meta.name)
      × ((criteria_from_selector event.meta.id selector).container
          ≡ (if selector.container == "" then first_name pod.containers else selector.container))
unfolding pod_name criteria_from_selector worker_pod job_pod primary
pod_name-criteria config namespace event selector spec = elim (Bool-cases (selector.job == "")) [
  | inl y ↦ rw y (refl, refl)
  | inr n ↦ rw n (refl, refl)
]

-- The collection is not asked for the job: entries of containers with one name are mixed, whatever
-- jobs of the event they belong to.
pub criteria_from_selector-job :
    (event_id : String) (a b : LogsSelector)
    → (a.job == "") ≡ false
    → (b.job == "") ≡ false
    → (a.container == "") ≡ false
    → a.container ≡ b.container
    → criteria_from_selector event_id a ≡ criteria_from_selector event_id b
unfolding criteria_from_selector
criteria_from_selector-job event_id a b ja jb c same = rw (ja, jb, ← same, c) refl
