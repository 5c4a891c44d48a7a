-- ===== src/Core/Types/Jobs.antt =====
-- v2/apiserver/internal/core/jobs.go and containers.go, the data.
use brignext.Base.{ℕ, String, Bool, true, false, Option, List}

-- An instant of `time.Time`, in nanoseconds.
abbrev pub Time : Type 0
Time = ℕ

-- `unset` is Go's zero value "".
pub data JobPhase : Type 0 where
  aborted failed pending running succeeded timed_out unknown unset : JobPhase

unfoldable pub is_pending : JobPhase → Bool
is_pending JobPhase.pending = true
is_pending _ = false

pub record ContainerSpec : Type 0 where
  pub image : String
  pub image_pull_policy : String
  pub command : List String
  pub arguments : List String
  pub environment : List (String × String)

pub record JobContainerSpec : Type 0 where
  pub container_spec : ContainerSpec
  pub use_workspace : Bool
  pub workspace_mount_path : String
  pub use_source : Bool
  pub source_mount_path : String
  pub privileged : Bool
  pub use_host_docker_socket : Bool

pub record JobHost : Type 0 where
  pub os : String
  pub node_selector : List (String × String)

pub record JobSpec : Type 0 where
  pub primary_container : JobContainerSpec
  pub sidecar_containers : List (String × JobContainerSpec)
  pub timeout_seconds : ℕ
  pub host : Option JobHost

pub record JobStatus : Type 0 where
  pub started : Option Time
  pub ended : Option Time
  pub phase : JobPhase

-- `status` is a pointer.
pub record Job : Type 0 where
  pub spec : JobSpec
  pub status : Option JobStatus
