-- ===== src/Core/Kubernetes/WorkerPods.antt =====
-- The objects that v2/apiserver/internal/core/kubernetes/substrate.go makes for a worker, and the
-- configuration of v2/apiserver/internal/core/config.go.
use brignext.Base.{
  String, Bool, true, false, Option, none, some, List, [], ◌∷◌, ◌++◌, map, lookup, ◌==◌,
  if◌then◌else◌,
}
use brignext.Core.Types.{Event, Project, ContainerSpec, WorkerGitConfig, WorkerKubernetesConfig}
use brignext.Core.Kubernetes.Objects.{
  EnvVar, EnvValue, literal, secret_key, VolumeMount, Volume, VolumeSource, secret,
  persistent_volume_claim, empty_dir, Container, EventDetails, event_secret_name, workspace_name,
  worker_pod_name, Pod, PersistentVolumeClaim, Secret, plain, json, event_labels,
}

pub record Config : Type 0 where
  pub api_address : String
  pub default_worker_image : String
  pub default_worker_image_pull_policy : String
  pub workspace_storage_class : String

abbrev pub env_var : String → EnvValue → EnvVar
env_var name value = record { name = name; value = value }

abbrev pub mount : String → String → Bool → VolumeMount
mount name mount_path read_only = record {
  name = name;
  mount_path = mount_path;
  read_only = read_only;
}

abbrev pub volume : String → VolumeSource → Volume
volume name source = record { name = name; source = source }

-- The names under `Kubernetes.ImagePullSecrets`, where there is such a configuration.
unfoldable pub image_pull_secrets : Option WorkerKubernetesConfig → List String
image_pull_secrets none = []
image_pull_secrets (some k) = k.image_pull_secrets

-- `Git != nil && Git.CloneURL != ""`
unfoldable pub git_source : Option WorkerGitConfig → Option WorkerGitConfig
git_source none = none
git_source (some git) = if git.clone_url == "" then none else some git

format_bool : Bool → String
format_bool true = "true"
format_bool false = "false"

-- The init container that clones the repository into the volume "vcs".
unfoldable pub vcs_container : String → WorkerGitConfig → Container
unfolding format_bool
vcs_container event_id git = record {
  name = "vcs";
  image = "brigadecore/git-sidecar:v1.4.0";
  image_pull_policy = "Always";
  command = [];
  args = [];
  env =
      env_var "BRIGADE_REMOTE_URL" (literal git.clone_url)
      ∷ env_var "BRIGADE_COMMIT_ID" (literal git.commit)
      ∷ env_var "BRIGADE_COMMIT_REF" (literal git.ref)
      ∷ env_var "BRIGADE_REPO_KEY" (secret_key (event_secret_name event_id) "gitSSHKey")
      ∷ env_var "BRIGADE_REPO_SSH_CERT" (secret_key (event_secret_name event_id) "gitSSHCert")
      ∷ env_var "BRIGADE_SUBMODULES" (literal (format_bool git.init_submodules))
      ∷ env_var "BRIGADE_WORKSPACE" (literal "/var/vcs")
      ∷ [];
  volume_mounts = mount "vcs" "/var/vcs" false ∷ [];
  privileged = none;
}

-- What is appended under a condition.
unfoldable pub when {ℓ} : {A : Type ℓ} → Bool → A → List A
when test a = if test then a ∷ [] else []

unfoldable pub for_source {ℓ} :
    {A : Type ℓ} → Option WorkerGitConfig → (WorkerGitConfig → A) → List A
for_source none f = []
for_source (some git) f = f git ∷ []

-- `Container`, or an empty one where that is nil.
unfoldable pub container_spec : Option ContainerSpec → ContainerSpec
container_spec none = record {
  image = "";
  image_pull_policy = "";
  command = [];
  arguments = [];
  environment = [];
}
container_spec (some c) = c

or_default : String → String → String
or_default given default = if given == "" then default else given

-- `createWorkerPod`, up to the call that creates the pod.
unfoldable pub worker_pod : Config → String → Event → Pod
unfolding image_pull_secrets git_source vcs_container when for_source container_spec or_default
worker_pod config namespace event =
    let id = event.meta.id in
    let spec = event.worker.spec in
    let container = container_spec spec.container in
    let source = git_source spec.git in
    record {
      meta = record {
        name = worker_pod_name id;
        namespace = namespace;
        labels = event_labels "worker" event.project_id id;
      };
      service_account_name = "workers";
      image_pull_secrets = image_pull_secrets spec.kubernetes;
      restart_policy = "Never";
      init_containers = for_source source (vcs_container id);
      containers =
          record {
            name = "worker";
            image = or_default container.image config.default_worker_image;
            image_pull_policy =
                or_default container.image_pull_policy config.default_worker_image_pull_policy;
            command = container.command;
            args = container.arguments;
            env = map (λ v. env_var v.0 (literal v.1)) container.environment;
            volume_mounts =
                mount "event" "/var/event" true
                ∷ (when spec.use_workspace (mount "workspace" "/var/workspace" true)
                    ++ for_source source (λ _. mount "vcs" "/var/vcs" false));
            privileged = none;
          }
          ∷ [];
      volumes =
          volume "event" (secret (event_secret_name id))
          ∷ (when spec.use_workspace
                (volume "workspace" (persistent_volume_claim (workspace_name id)))
              ++ for_source source (λ _. volume "vcs" empty_dir));
    }

-- `createWorkspacePVC`: the size that is asked for, to be parsed, and the claim of a parsed size.
unfoldable pub storage_quantity : Event → String
unfolding or_default
storage_quantity event = or_default event.worker.spec.workspace_size "1G"

unfoldable pub workspace_pvc : Config → String → Event → String → PersistentVolumeClaim
workspace_pvc config namespace event storage = record {
  meta = record {
    name = workspace_name event.meta.id;
    namespace = namespace;
    labels = event_labels "workspace" event.project_id event.meta.id;
  };
  storage_class_name = config.workspace_storage_class;
  access_modes = "ReadWriteMany" ∷ [];
  storage = storage;
}

-- `Data[key]`, of a secret that holds texts.
unfoldable pub data_at : String → List (String × String) → String
data_at key secrets = elim (lookup key secrets) [ none ↦ "" | some value ↦ value ]

-- What `ScheduleWorker` writes for the worker, as "event.json".
unfoldable pub event_details : Config → Project → Event → List (String × String) → EventDetails
event_details config project event secrets = record {
  id = event.meta.id;
  project = record { id = event.project_id; kubernetes = project.kubernetes; secrets = secrets };
  source = event.source;
  type_ = event.type_;
  short_title = event.short_title;
  long_title = event.long_title;
  payload = event.payload;
  worker = record {
    api_address = config.api_address;
    api_token = event.worker.token;
    log_level = event.worker.spec.log_level;
    config_files_directory = event.worker.spec.config_files_directory;
    default_config_files = event.worker.spec.default_config_files;
  };
}

-- The secret of an event; `secrets` are those of its project. The metadata have no namespace: the
-- call that creates the secret has it.
unfoldable pub event_secret : Config → Project → Event → List (String × String) → Secret
unfolding event_details data_at
event_secret config project event secrets = record {
  meta = record {
    name = event_secret_name event.meta.id;
    namespace = "";
    labels = event_labels "event" event.project_id event.meta.id;
  };
  type_ = "brigade.sh/event";
  data_ =
      ("event.json", json (event_details config project event secrets))
      ∷ ("gitSSHKey", plain (data_at "gitSSHKey" secrets))
      ∷ ("gitSSHCert", plain (data_at "gitSSHCert" secrets))
      ∷ [];
}
