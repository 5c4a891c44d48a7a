-- ===== src/Pods.antt =====
-- What the scheduler and the observer read of a Kubernetes pod (`corev1.Pod`), and the name under
-- which both keep it (v2/scheduler/common.go, v2/observer/common.go).
use Prim.Native.String.{◌++◌}
use brignext.Base.{ℕ, String, Option, List}

-- `other` is a phase that neither program knows.
pub data PodPhase : Type 0 where
  pending running succeeded failed unknown other : PodPhase

pub record Terminated : Type 0 where
  pub reason : String
  pub finished_at : ℕ

pub record ContainerStatus : Type 0 where
  pub name : String
  pub terminated : Option Terminated

-- `containers` are the names of the containers in the pod's specification.
pub record Pod : Type 0 where
  pub namespace : String
  pub name : String
  pub label_event : String
  pub label_job : String
  pub deletion_timestamp : Option ℕ
  pub phase : PodPhase
  pub start_time : Option ℕ
  pub container_statuses : List ContainerStatus
  pub containers : List String

unfoldable pub namespaced_pod_name : String → String → String
namespaced_pod_name namespace name = namespace ++ (":" ++ name)

abbrev pub pod_key : Pod → String
pod_key pod = namespaced_pod_name pod.namespace pod.name
