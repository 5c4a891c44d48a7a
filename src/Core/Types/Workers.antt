-- ===== src/Core/Types/Workers.antt =====
-- v2/apiserver/internal/core/workers.go, the data.
use brignext.Base.{String, Bool, true, false, Option, List, [], ◌∷◌}
use brignext.Core.Types.Jobs.{Time, ContainerSpec, Job}

-- `unset` is Go's zero value "".
pub data WorkerPhase : Type 0 where
  aborted canceled failed pending running succeeded timed_out unknown unset : WorkerPhase

unfoldable pub worker_phases_all : List WorkerPhase
worker_phases_all =
    WorkerPhase.aborted ∷ WorkerPhase.canceled ∷ WorkerPhase.failed ∷ WorkerPhase.pending
    ∷ WorkerPhase.running ∷ WorkerPhase.succeeded ∷ WorkerPhase.timed_out ∷ WorkerPhase.unknown ∷ []

-- The comparison of two phases, which are strings in the source.
unfoldable pub same_phase : WorkerPhase → WorkerPhase → Bool
same_phase WorkerPhase.aborted WorkerPhase.aborted = true
same_phase WorkerPhase.canceled WorkerPhase.canceled = true
same_phase WorkerPhase.failed WorkerPhase.failed = true
same_phase WorkerPhase.pending WorkerPhase.pending = true
same_phase WorkerPhase.running WorkerPhase.running = true
same_phase WorkerPhase.succeeded WorkerPhase.succeeded = true
same_phase WorkerPhase.timed_out WorkerPhase.timed_out = true
same_phase WorkerPhase.unknown WorkerPhase.unknown = true
same_phase WorkerPhase.unset WorkerPhase.unset = true
same_phase _ _ = false

pub record WorkerGitConfig : Type 0 where
  pub clone_url : String
  pub commit : String
  pub ref : String
  pub init_submodules : Bool

pub record WorkerKubernetesConfig : Type 0 where
  pub image_pull_secrets : List String

pub record KubernetesJobPolicies : Type 0 where
  pub image_pull_secrets : List String

pub record JobPolicies : Type 0 where
  pub allow_privileged : Bool
  pub allow_docker_socket_mount : Bool
  pub kubernetes : Option KubernetesJobPolicies

pub record WorkerSpec : Type 0 where
  pub container : Option ContainerSpec
  pub use_workspace : Bool
  pub workspace_size : String
  pub git : Option WorkerGitConfig
  pub kubernetes : Option WorkerKubernetesConfig
  pub job_policies : Option JobPolicies
  pub log_level : String
  pub config_files_directory : String
  pub default_config_files : List (String × String)

pub record WorkerStatus : Type 0 where
  pub started : Option Time
  pub ended : Option Time
  pub phase : WorkerPhase

pub record Worker : Type 0 where
  pub spec : WorkerSpec
  pub status : WorkerStatus
  pub token : String
  pub hashed_token : String
  pub jobs : List (String × Job)
