-- ===== src/Core/Kubernetes/Mounts.antt =====
-- The volumes that the pods of v2/apiserver/internal/core/kubernetes/substrate.go declare and
-- mount.
use brignext.Base.{
  ◌≡◌, refl, ◌∙◌, String, Bool, true, false, not, ◌&&◌, ◌||◌, Option, none, some, is_some, List, [],
  ◌∷◌, ◌++◌, map, any, arith, ◌==◌, if◌then◌else◌,
}
use brignext.Core.Types.{Event, JobSpec, JobContainerSpec, WorkerGitConfig}
use brignext.Core.Kubernetes.Objects.{
  job_object_name, VolumeMount, Volume, VolumeSource, Container, Pod, host_path, empty_dir,
  persistent_volume_claim, workspace_name,
}
use brignext.Core.Kubernetes.WorkerPods.{
  Config, worker_pod, git_source, when, for_source, mount, volume, vcs_container,
}
use brignext.Core.Kubernetes.JobPods.{job_pod, job_uses, uses, mounts_of, primary, sidecar}

unfoldable pub all {ℓ} : {A : Type ℓ} → (A → Bool) → List A → Bool
all p [] = true
all p (x ∷ xs) = p x && all p xs

-- Is a mount one of a volume that is declared?
unfoldable pub is_declared : List Volume → VolumeMount → Bool
is_declared volumes m = any (λ v. v.name == m.name) volumes

-- Kubernetes refuses a pod for which this is not so.
unfoldable pub mounts_declared : Pod → Bool
unfolding is_declared all
mounts_declared pod =
    all (λ c. all (is_declared pod.volumes) c.volume_mounts) pod.init_containers
    && all (λ c. all (is_declared pod.volumes) c.volume_mounts) pod.containers

worker_volumes_lem :
    (event_id : String) (w : Bool) (source : Option WorkerGitConfig) (event_volume : VolumeSource)
    (claim : VolumeSource)
    → let volumes =
        volume "event" event_volume
        ∷ (when w (volume "workspace" claim) ++ for_source source (λ _. volume "vcs" empty_dir)) in
      (all
          (λ c. all (is_declared volumes) c.volume_mounts)
          (for_source source (vcs_container event_id))
        && (all (is_declared volumes) (
              mount "event" "/var/event" true
              ∷ (when w (mount "workspace" "/var/workspace" true)
                  ++ for_source source (λ _. mount "vcs" "/var/vcs" false)))
            && true))
      ≡ true
unfolding when for_source is_declared all any vcs_container
worker_volumes_lem id true none e c = refl
worker_volumes_lem id false none e c = refl
worker_volumes_lem id true (some git) e c = refl
worker_volumes_lem id false (some git) e c = refl

-- Every volume that a container of a worker's pod mounts is declared by the pod, with or without a
-- workspace and a repository.
pub mounts_declared-worker_pod :
    (config : Config) (namespace : String) (event : Event)
    → mounts_declared (worker_pod config namespace event) ≡ true
unfolding mounts_declared worker_pod all
mounts_declared-worker_pod config namespace event =
    worker_volumes_lem event.meta.id event.worker.spec.use_workspace
      (git_source event.worker.spec.git) _ _

volumes_for : Bool → Option WorkerGitConfig → Bool → VolumeSource → VolumeSource → List Volume
unfolding when for_source
volumes_for w source d claim path =
    when w (volume "workspace" claim)
    ++ for_source source (λ _. volume "vcs" empty_dir)
    ++ when d (volume "docker-socket" path)

-- Which of the three volumes there are.
is_declared-volumes_for :
    (w : Bool) (source : Option WorkerGitConfig) (d : Bool) (claim path : VolumeSource)
    → (at1 at2 at3 : String)
    → let volumes = volumes_for w source d claim path in
      (is_declared volumes (mount "workspace" at1 false) ≡ w)
      × (is_declared volumes (mount "vcs" at2 false) ≡ is_some source)
      × (is_declared volumes (mount "docker-socket" at3 false) ≡ d)
unfolding volumes_for is_declared any when for_source
is_declared-volumes_for true none true claim path a b c = (refl, refl, refl)
is_declared-volumes_for true none false claim path a b c = (refl, refl, refl)
is_declared-volumes_for false none true claim path a b c = (refl, refl, refl)
is_declared-volumes_for false none false claim path a b c = (refl, refl, refl)
is_declared-volumes_for true (some g) true claim path a b c = (refl, refl, refl)
is_declared-volumes_for true (some g) false claim path a b c = (refl, refl, refl)
is_declared-volumes_for false (some g) true claim path a b c = (refl, refl, refl)
is_declared-volumes_for false (some g) false claim path a b c = (refl, refl, refl)

all-when :
    {A : Type 0} (p : A → Bool) (b c d : Bool) (x y z : A)
    → all p (when b x ++ when c y ++ when d z)
      ≡ ((not b || p x) && (not c || p y) && (not d || p z))
unfolding all when
all-when p true true true x y z = ground arith
all-when p true true false x y z = ground arith
all-when p true false true x y z = ground arith
all-when p true false false x y z = ground arith
all-when p false true true x y z = ground arith
all-when p false true false x y z = ground arith
all-when p false false true x y z = ground arith
all-when p false false false x y z = refl

all-mounts_of :
    (w : Bool) (source : Option WorkerGitConfig) (d : Bool) (claim path : VolumeSource)
    → (c : JobContainerSpec)
    → all (is_declared (volumes_for w source d claim path)) (mounts_of c) ≡ (
        (not c.use_workspace || w)
        && (not c.use_source || is_some source)
        && (not c.use_host_docker_socket || d))
unfolding mounts_of
all-mounts_of w source d claim path c =
    let (x, y, z) =
      is_declared-volumes_for w source d claim path c.workspace_mount_path c.source_mount_path
        "/var/run/docker.sock" in
    rw (x, y, z) at
      (all-when (is_declared (volumes_for w source d claim path)) c.use_workspace c.use_source
        c.use_host_docker_socket (mount "workspace" c.workspace_mount_path false)
        (mount "vcs" c.source_mount_path false)
        (mount "docker-socket" "/var/run/docker.sock" false))

-- Whether a flag is set after the loop.
pub uses_lem :
    (asks : JobContainerSpec → Bool) (flag : Bool) (cs : List (String × JobContainerSpec))
    → uses asks flag cs ≡ (flag || any (λ c. asks c.1) cs)
unfolding uses any
uses_lem asks flag [] = ground arith
uses_lem asks flag ((name, c) ∷ cs) =
    rw (uses_lem asks (if asks c then true else flag) cs) (ground arith)

-- The mounts of a container that uses a workspace and a Docker socket only where the pod has them.
mounts_or :
    (w g d a b c : Bool)
    → (a ≡ true → w ≡ true)
    → (c ≡ true → d ≡ true)
    → ((not a || w) && (not b || g) && (not c || d)) ≡ (not b || g)
mounts_or w g d a b c h k = ground arith

module _ (secret_name : String) (w : Bool) (source : Option WorkerGitConfig) (d : Bool)
    (claim path : VolumeSource) where
  abbrev declared : Container → Bool
  declared c = all (is_declared (volumes_for w source d claim path)) c.volume_mounts

  all-sidecar :
      (cs : List (String × JobContainerSpec))
      → (any (λ c. c.1.use_workspace) cs ≡ true → w ≡ true)
      → (any (λ c. c.1.use_host_docker_socket) cs ≡ true → d ≡ true)
      → all declared (map (sidecar secret_name) cs)
        ≡ (not (any (λ c. c.1.use_source) cs) || is_some source)
  unfolding all any sidecar
  all-sidecar [] h k = refl
  all-sidecar ((name, c) ∷ cs) h k =
      rw
        (
          all-mounts_of w source d claim path c,
          mounts_or w (is_some source) d c.use_workspace c.use_source c.use_host_docker_socket
              (λ e. h (rw e refl)) (λ e. k (rw e refl)),
          all-sidecar cs (λ e. h (ground arith)) (λ e. k (ground arith)),
        )
        (ground arith)

  all-vcs_container :
      (event_id : String) → all declared (for_source source (vcs_container event_id)) ≡ true
  unfolding for_source vcs_container all
  all-vcs_container event_id = go source refl
    where
      go :
          (o : Option WorkerGitConfig)
          → source ≡ o
          → all declared (for_source o (vcs_container event_id)) ≡ true
      go none e = refl
      go (some git) e =
          let (x, y, z) = is_declared-volumes_for w source d claim path "" "/var/vcs" "" in
          rw (y, e) refl

-- Either no container uses the source, or there is one.
source_cases :
    (s p q : Bool) (o : Option WorkerGitConfig)
    → s ≡ (p || q)
    → ((not p || is_some (if s then o else none)) && (not q || is_some (if s then o else none)))
      ≡ (not s || is_some o)
source_cases true p q none e = ground arith
source_cases true p q (some g) e = ground arith
source_cases false p q o e = ground arith

-- The volumes that the containers of a job's pod mount are declared by the pod, whether or not
-- they use the workspace and the Docker socket, exactly if none of them uses the source or the
-- event's worker has a repository: Kubernetes refuses the pod of a job that uses the source of an
-- event without one.
pub mounts_declared-job_pod :
    (namespace : String) (event : Event) (job_name : String) (spec : JobSpec)
    → mounts_declared (job_pod namespace event job_name spec)
      ≡ (not (job_uses (λ c. c.use_source) spec) || is_some (git_source event.worker.spec.git))
unfolding mounts_declared job_pod volumes_for all primary
mounts_declared-job_pod namespace event job_name spec =
    let w = job_uses (λ c. c.use_workspace) spec in
    let d = job_uses (λ c. c.use_host_docker_socket) spec in
    let s = job_uses (λ c. c.use_source) spec in
    let source = if s then git_source event.worker.spec.git else none in
    let claim = persistent_volume_claim (workspace_name event.meta.id) in
    let path = host_path "/var/run/docker.sock" in
    let p = spec.primary_container in
    let cs = spec.sidecar_containers in
    let uw : w ≡ (p.use_workspace || any (λ c. c.1.use_workspace) cs) =
      unfold job_uses in uses_lem (λ c. c.use_workspace) p.use_workspace cs in
    let ud : d ≡ (p.use_host_docker_socket || any (λ c. c.1.use_host_docker_socket) cs) =
      unfold job_uses in uses_lem (λ c. c.use_host_docker_socket) p.use_host_docker_socket cs in
    let us : s ≡ (p.use_source || any (λ c. c.1.use_source) cs) =
      unfold job_uses in uses_lem (λ c. c.use_source) p.use_source cs in
    let first =
      all-vcs_container (job_object_name event.meta.id job_name) w source d claim path
        event.meta.id in
    let main =
      all-mounts_of w source d claim path p
      ∙ mounts_or w (is_some source) d p.use_workspace p.use_source p.use_host_docker_socket
          (λ e. rw (uw, e) refl) (λ e. rw (ud, e) refl) in
    let rest =
      all-sidecar (job_object_name event.meta.id job_name) w source d claim path cs
        (λ e. rw uw (ground arith)) (λ e. rw ud (ground arith)) in
    (λ i. first i && (main i && rest i))
    ∙ source_cases s p.use_source (any (λ c. c.1.use_source) cs) (git_source event.worker.spec.git)
        us
