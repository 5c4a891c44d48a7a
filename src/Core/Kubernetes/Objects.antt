-- ===== src/Core/Kubernetes/Objects.antt =====
-- The objects of Kubernetes (k8s.io/api) with the fields that
-- v2/apiserver/internal/core/kubernetes/substrate.go sets, and what the substrate asks of the
-- cluster. A field that is not set has Go's zero value.
use Prim.Native.Char.{Char, code}
use Prim.Native.String.{◌++◌}
use brignext.Base.{ℕ, zero, suc, ◌-◌, String, Bool, ◌&&◌, Option, List, [], ◌∷◌, ltb, if◌then◌else◌}
use brignext.Core.Types.{Labels, KubernetesConfig}

pub record KubeMeta : Type 0 where
  pub name : String
  pub namespace : String
  pub labels : Labels

-- `Value`, or `ValueFrom` with a reference to the key of a secret.
pub data EnvValue : Type 0 where
  literal : String → EnvValue
  secret_key : String → String → EnvValue

pub record EnvVar : Type 0 where
  pub name : String
  pub value : EnvValue

pub record VolumeMount : Type 0 where
  pub name : String
  pub mount_path : String
  pub read_only : Bool

pub data VolumeSource : Type 0 where
  secret persistent_volume_claim host_path : String → VolumeSource
  empty_dir : VolumeSource

pub record Volume : Type 0 where
  pub name : String
  pub source : VolumeSource

-- `privileged` is the pointer in `SecurityContext`.
pub record Container : Type 0 where
  pub name : String
  pub image : String
  pub image_pull_policy : String
  pub command : List String
  pub args : List String
  pub env : List EnvVar
  pub volume_mounts : List VolumeMount
  pub privileged : Option Bool

pub record Pod : Type 0 where
  pub meta : KubeMeta
  pub service_account_name : String
  pub image_pull_secrets : List String
  pub restart_policy : String
  pub init_containers : List Container
  pub containers : List Container
  pub volumes : List Volume

pub record PersistentVolumeClaim : Type 0 where
  pub meta : KubeMeta
  pub storage_class_name : String
  pub access_modes : List String
  pub storage : String

-- The part of an event's document "project".
pub record ProjectDetails : Type 0 where
  pub id : String
  pub kubernetes : Option KubernetesConfig
  pub secrets : List (String × String)

-- The part of an event's document "worker".
pub record WorkerDetails : Type 0 where
  pub api_address : String
  pub api_token : String
  pub log_level : String
  pub config_files_directory : String
  pub default_config_files : List (String × String)

-- What the worker reads as "event.json".
pub record EventDetails : Type 0 where
  pub id : String
  pub project : ProjectDetails
  pub source : String
  pub type_ : String
  pub short_title : String
  pub long_title : String
  pub payload : String
  pub worker : WorkerDetails

-- A text, or a document that is written as JSON.
pub data SecretValue : Type 0 where
  plain : String → SecretValue
  json : EventDetails → SecretValue

pub record Secret : Type 0 where
  pub meta : KubeMeta
  pub type_ : String
  pub data_ : List (String × SecretValue)

-- The kind, name and namespace of a subject of a role binding.
pub record Subject : Type 0 where
  pub kind : String
  pub name : String
  pub namespace : String

-- A role binding refers to the role with its own name.
pub record RoleBinding : Type 0 where
  pub name : String
  pub subject : Subject
  pub role_ref : String

-- A call of the Kubernetes API that changes the cluster; the first text is a namespace. A role has
-- no rules. The collections are deleted by the value of the label "brigade.sh/event".
pub data Request : Type 0 where
  create_namespace delete_namespace : String → Request
  create_role create_service_account : String → String → Request
  create_role_binding : String → RoleBinding → Request
  create_secret : String → Secret → Request
  create_pod : String → Pod → Request
  create_pvc : String → PersistentVolumeClaim → Request
  delete_pods delete_pvcs delete_secrets : String → String → Request

-- The character at a place of a text.
char_at : String → ℕ → Char → Char
char_at String.[] n default = default
char_at (String.◌∷◌ c s) zero default = c
char_at (String.◌∷◌ c s) (suc n) default = char_at s n default

-- `strings.ToLower`, of a text in ASCII.
unfoldable pub to_lower : String → String
unfolding char_at
to_lower String.[] = ""
to_lower (String.◌∷◌ c s) =
    let rest = to_lower s in
    if ltb 64 (code c) && ltb (code c) 91
    then String.◌∷◌ (char_at "abcdefghijklmnopqrstuvwxyz" (code c - 65) c) rest
    else String.◌∷◌ c rest

-- The labels of an object of an event, by component.
unfoldable pub event_labels : String → String → String → Labels
event_labels component project_id event_id =
    ("brigade.sh/component", component)
    ∷ ("brigade.sh/project", project_id)
    ∷ ("brigade.sh/event", event_id)
    ∷ []

-- The names that `fmt.Sprintf` makes.
unfoldable pub event_secret_name : String → String
event_secret_name event_id = "event-" ++ event_id

unfoldable pub workspace_name : String → String
workspace_name event_id = "workspace-" ++ event_id

unfoldable pub worker_pod_name : String → String
worker_pod_name event_id = "worker-" ++ event_id

-- Of a job's pod and of its secret.
unfoldable pub job_object_name : String → String → String
unfolding to_lower
job_object_name event_id job_name = "job-" ++ (event_id ++ ("-" ++ to_lower job_name))

-- The key of a container's variable in the secret of its job.
unfoldable pub variable_key : String → String → String
variable_key container_name key = container_name ++ ("." ++ key)

unfoldable pub workers_queue : String → String
workers_queue project_id = "workers." ++ project_id

unfoldable pub jobs_queue : String → String
jobs_queue project_id = "jobs." ++ project_id

unfoldable pub new_namespace : String → String → String
unfolding to_lower
new_namespace project_id token = to_lower ("brigade-" ++ (project_id ++ ("-" ++ token)))
