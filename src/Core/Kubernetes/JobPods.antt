-- ===== src/Core/Kubernetes/JobPods.antt =====
-- The objects that v2/apiserver/internal/core/kubernetes/substrate.go makes for a job.
use brignext.Base.{
  String, Bool, true, false, Option, none, some, List, [], ◌∷◌, ◌++◌, map, insert, if◌then◌else◌,
}
use brignext.Core.Types.{Event, JobSpec, JobContainerSpec, Labels}
use brignext.Core.Kubernetes.Objects.{
  EnvVar, secret_key, VolumeMount, Container, Pod, Secret, plain, host_path, empty_dir,
  persistent_volume_claim, event_labels, job_object_name, variable_key, workspace_name,
}
use brignext.Core.Kubernetes.WorkerPods.{
  env_var, mount, volume, image_pull_secrets, git_source, vcs_container, when, for_source,
}

-- A flag that starts as the primary container's and that the loop over the sidecars sets.
unfoldable pub uses : (JobContainerSpec → Bool) → Bool → List (String × JobContainerSpec) → Bool
uses asks flag [] = flag
uses asks flag ((name, c) ∷ cs) = uses asks (if asks c then true else flag) cs

unfoldable pub job_uses : (JobContainerSpec → Bool) → JobSpec → Bool
unfolding uses
job_uses asks spec = uses asks (asks spec.primary_container) spec.sidecar_containers

job_labels : Event → String → Labels
job_labels event job_name =
    event_labels "job" event.project_id event.meta.id ++ ("brigade.sh/job", job_name) ∷ []

-- The variables of a container, put into the data of the secret.
unfoldable pub with_environment :
    String → List (String × String) → List (String × String) → List (String × String)
with_environment container_name [] entries = entries
with_environment container_name ((key, value) ∷ vs) entries =
    with_environment container_name vs (insert (variable_key container_name key) value entries)

unfoldable pub with_sidecars :
    List (String × JobContainerSpec) → List (String × String) → List (String × String)
unfolding with_environment
with_sidecars [] entries = entries
with_sidecars ((name, c) ∷ cs) entries =
    with_sidecars cs (with_environment name c.container_spec.environment entries)

-- The `StringData` of a job's secret.
unfoldable pub job_secret_data : String → JobSpec → List (String × String)
unfolding with_environment with_sidecars
job_secret_data job_name spec =
    with_sidecars spec.sidecar_containers
      (with_environment job_name spec.primary_container.container_spec.environment [])

-- `createJobSecret`, up to the call that creates the secret.
unfoldable pub job_secret : String → Event → String → JobSpec → Secret
unfolding job_secret_data job_labels
job_secret namespace event job_name spec = record {
  meta = record {
    name = job_object_name event.meta.id job_name;
    namespace = namespace;
    labels = job_labels event job_name;
  };
  type_ = "brigade.sh/job-secrets";
  data_ = map (λ e. (e.0, plain e.1)) (job_secret_data job_name spec);
}

-- A variable refers to the job's secret.
unfoldable pub environment_of : String → String → JobContainerSpec → List EnvVar
environment_of secret_name name c =
    map (λ v. env_var v.0 (secret_key secret_name (variable_key name v.0)))
      c.container_spec.environment

unfoldable pub mounts_of : JobContainerSpec → List VolumeMount
unfolding when
mounts_of c =
    when c.use_workspace (mount "workspace" c.workspace_mount_path false)
    ++ when c.use_source (mount "vcs" c.source_mount_path false)
    ++ when c.use_host_docker_socket (mount "docker-socket" "/var/run/docker.sock" false)

unfoldable pub privileged_of : JobContainerSpec → Option Bool
privileged_of c = if c.privileged then some true else none

unfoldable pub primary : String → String → JobContainerSpec → Container
unfolding environment_of mounts_of privileged_of
primary secret_name job_name c = record {
  name = job_name;
  image = c.container_spec.image;
  image_pull_policy = c.container_spec.image_pull_policy;
  command = c.container_spec.command;
  args = c.container_spec.arguments;
  env = environment_of secret_name job_name c;
  volume_mounts = mounts_of c;
  privileged = privileged_of c;
}

-- The source does not set the image of a sidecar.
unfoldable pub sidecar : String → String × JobContainerSpec → Container
unfolding environment_of mounts_of privileged_of
sidecar secret_name (name, c) = record {
  name = name;
  image = "";
  image_pull_policy = c.container_spec.image_pull_policy;
  command = c.container_spec.command;
  args = c.container_spec.arguments;
  env = environment_of secret_name name c;
  volume_mounts = mounts_of c;
  privileged = privileged_of c;
}

-- `createJobPod`, up to the call that creates the pod.
unfoldable pub job_pod : String → Event → String → JobSpec → Pod
unfolding job_uses job_labels primary sidecar when for_source git_source image_pull_secrets
    vcs_container
job_pod namespace event job_name spec =
    let id = event.meta.id in
    let secret_name = job_object_name id job_name in
    let source =
      if job_uses (λ c. c.use_source) spec then git_source event.worker.spec.git else none in
    record {
      meta = record {
        name = secret_name;
        namespace = namespace;
        labels = job_labels event job_name;
      };
      service_account_name = "jobs";
      image_pull_secrets = image_pull_secrets event.worker.spec.kubernetes;
      restart_policy = "Never";
      init_containers = for_source source (vcs_container id);
      containers =
          primary secret_name job_name spec.primary_container
          ∷ map (sidecar secret_name) spec.sidecar_containers;
      volumes =
          when (job_uses (λ c. c.use_workspace) spec)
            (volume "workspace" (persistent_volume_claim (workspace_name id)))
          ++ for_source source (λ _. volume "vcs" empty_dir)
          ++ when (job_uses (λ c. c.use_host_docker_socket) spec)
              (volume "docker-socket" (host_path "/var/run/docker.sock"));
    }
