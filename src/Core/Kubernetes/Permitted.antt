-- ===== src/Core/Kubernetes/Permitted.antt =====
-- What a job that `Create` of v2/apiserver/internal/core/jobs.go accepted gets from
-- `createJobPod` of v2/apiserver/internal/core/kubernetes/substrate.go.
use brignext.Base.{
  ◌≡◌, refl, ap, ◌∙◌, Bool-cases, String, Bool, true, false, not, ◌||◌, Option, none, some, List,
  [], ◌∷◌, ◌++◌, map, any, inl, inr, is_some, if◌then◌else◌,
}
use brignext.Errors.{ok}
use brignext.Authx.Roles.{role_worker}
use brignext.Core.Types.{Event, Job, JobSpec, JobContainerSpec, WorkerGitConfig}
use brignext.Core.Services.Jobs.{JobsService, create, permits}
use brignext.Core.Services.Jobs.Policies.{IsContainerOf, IsSidecar, Exceeds, create_forbidden}
use brignext.Core.Kubernetes.Objects.{
  Volume, host_path, persistent_volume_claim, empty_dir, Container, workspace_name, job_object_name,
}
use brignext.Core.Kubernetes.WorkerPods.{when, for_source, volume, git_source}
use brignext.Core.Kubernetes.JobPods.{job_pod, job_uses, primary, sidecar, privileged_of}
use brignext.Core.Kubernetes.Mounts.{all, uses_lem}

-- The container runs without privileges.
unfoldable pub is_confined : Container → Bool
is_confined c = not (is_some c.privileged)

unfoldable pub is_on_host : Volume → Bool
is_on_host v = elim v.source [ host_path p ↦ true | _ ↦ false ]

unfoldable pub is_claim : Volume → Bool
is_claim v = elim v.source [ persistent_volume_claim n ↦ true | _ ↦ false ]

-- A flag that no container sets.
any_sidecar_none :
    (asks : JobContainerSpec → Bool) (cs : List (String × JobContainerSpec))
    → ((c : JobContainerSpec) → IsSidecar c cs → asks c ≡ false)
    → any (λ c. asks c.1) cs ≡ false
unfolding any
any_sidecar_none asks [] h = refl
any_sidecar_none asks ((name, c) ∷ cs) h =
    rw (h c (inl refl), any_sidecar_none asks cs (λ d. λ i. h d (inr i))) refl

job_uses_none :
    (asks : JobContainerSpec → Bool) (spec : JobSpec)
    → ((c : JobContainerSpec) → IsContainerOf c spec → asks c ≡ false)
    → job_uses asks spec ≡ false
unfolding job_uses
job_uses_none asks spec h =
    rw
      (
        uses_lem asks (asks spec.primary_container) spec.sidecar_containers,
        h spec.primary_container (inl refl),
        any_sidecar_none asks spec.sidecar_containers (λ c. λ i. h c (inr i)),
      )
      refl

all-is_confined :
    (secret_name : String) (cs : List (String × JobContainerSpec))
    → ((c : JobContainerSpec) → IsSidecar c cs → c.privileged ≡ false)
    → all is_confined (map (sidecar secret_name) cs) ≡ true
unfolding all is_confined sidecar privileged_of
all-is_confined secret_name [] h = refl
all-is_confined secret_name ((name, c) ∷ cs) h =
    rw (h c (inl refl)) (all-is_confined secret_name cs (λ d. λ i. h d (inr i)))

containers_confined :
    (secret_name job_name : String) (spec : JobSpec)
    → ((c : JobContainerSpec) → IsContainerOf c spec → c.privileged ≡ false)
    → all is_confined (
        primary secret_name job_name spec.primary_container
        ∷ map (sidecar secret_name) spec.sidecar_containers)
      ≡ true
unfolding all is_confined primary privileged_of
containers_confined secret_name job_name spec h =
    rw (h spec.primary_container (inl refl))
      (all-is_confined secret_name spec.sidecar_containers (λ c. λ i. h c (inr i)))

volumes_lem :
    (w d : Bool) (source : Option WorkerGitConfig) (claim path : String)
    → let volumes =
        when w (volume "workspace" (persistent_volume_claim claim))
        ++ for_source source (λ _. volume "vcs" empty_dir)
        ++ when d (volume "docker-socket" (host_path path)) in
      (any is_on_host volumes ≡ d) × (any is_claim volumes ≡ w)
unfolding when for_source any is_on_host is_claim
volumes_lem true true none claim path = (refl, refl)
volumes_lem true false none claim path = (refl, refl)
volumes_lem false true none claim path = (refl, refl)
volumes_lem false false none claim path = (refl, refl)
volumes_lem true true (some g) claim path = (refl, refl)
volumes_lem true false (some g) claim path = (refl, refl)
volumes_lem false true (some g) claim path = (refl, refl)
volumes_lem false false (some g) claim path = (refl, refl)

flag_false : (b : Bool) → (b ≡ true → ⊥) → b ≡ false
flag_false true h = absurd (h refl)
flag_false false h = refl

-- A job that a worker created: `Create` read the event and succeeded. The pod that is made for the
-- job in any namespace has no privileged container where the worker does not permit privileges, no
-- volume on the host where it does not permit the Docker socket, and no claim of a workspace where
-- it has none.
pub job_pod-create :
    {W : Type 0} (s : JobsService W) (event_id job_name : String) (job : Job) (w w₁ w₂ : W)
    → (event : Event) → s.authorize (role_worker event_id ∷ []) w ≡ (ok tt, w₁)
    → s.events_store.get event_id w₁ ≡ (ok event, w₂)
    → (create s event_id job_name job w).0 ≡ ok tt
    → (namespace : String)
    → let pod = job_pod namespace event job_name job.spec in
      let policies = event.worker.spec.job_policies in
      ((permits (λ p. p.allow_privileged) policies || all is_confined pod.containers) ≡ true)
      × ((permits (λ p. p.allow_docker_socket_mount) policies || not (any is_on_host pod.volumes))
          ≡ true)
      × ((event.worker.spec.use_workspace || not (any is_claim pod.volumes)) ≡ true)
unfolding job_pod all
job_pod-create s event_id job_name job w w₁ w₂ event authorized read created namespace =
    let spec = job.spec in
    let within : (c : JobContainerSpec) → IsContainerOf c spec → Exceeds c event.worker.spec → ⊥ =
      λ c. λ i. λ e.
        let (x, failed) =
          create_forbidden s event_id job_name job w w₁ w₂ event authorized read c i e in
        absurd (cc (created, failed)) in
    let policies = event.worker.spec.job_policies in
    let source =
      if job_uses (λ c. c.use_source) spec then git_source event.worker.spec.git else none in
    let (host, claim) =
      volumes_lem (job_uses (λ c. c.use_workspace) spec)
        (job_uses (λ c. c.use_host_docker_socket) spec) source (workspace_name event.meta.id)
        "/var/run/docker.sock" in
    (
      elim (Bool-cases (permits (λ p. p.allow_privileged) policies)) [
        | inl y ↦ rw y refl
        | inr n ↦
            let none_is : (c : JobContainerSpec) → IsContainerOf c spec → c.privileged ≡ false =
              λ c. λ i. flag_false c.privileged (λ e. within c i (inl (e, n))) in
            rw n
              (containers_confined (job_object_name event.meta.id job_name) job_name spec none_is)
      ],
      elim (Bool-cases (permits (λ p. p.allow_docker_socket_mount) policies)) [
        | inl y ↦ rw y refl
        | inr n ↦
            let none_does =
              job_uses_none (λ c. c.use_host_docker_socket) spec
                (λ c.
                  λ i. flag_false c.use_host_docker_socket (λ e. within c i (inr (inl (e, n))))) in
            rw n (ap not (host ∙ none_does))
      ],
      elim (Bool-cases event.worker.spec.use_workspace) [
        | inl y ↦ rw y refl
        | inr n ↦
            let none_does =
              job_uses_none (λ c. c.use_workspace) spec
                (λ c. λ i. flag_false c.use_workspace (λ e. within c i (inr (inr (e, n))))) in
            rw n (ap not (claim ∙ none_does))
      ],
    )
