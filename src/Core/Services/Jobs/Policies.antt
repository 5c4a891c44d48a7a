-- ===== src/Core/Services/Jobs/Policies.antt =====
-- Which jobs `Create` of v2/apiserver/internal/core/jobs.go refuses.
use brignext.Base.{
  ◌≡◌, refl, String, Bool, true, false, not, ◌&&◌, ◌⊎◌, inl, inr, List, [], ◌∷◌, arith, Bool-cases,
  is_some, lookup,
}
use brignext.Errors.{err_conflict, job_exists, Error, ok, err}
use brignext.Effect.{refuse_if, ◌>>◌}
use brignext.Authx.Roles.{role_worker}
use brignext.Core.Types.{Event, Job, JobSpec, JobContainerSpec, WorkerSpec}
use brignext.Core.Services.Jobs.{JobsService, any_container, job_asks, permits, validate, create}

abbrev pub IsSidecar : JobContainerSpec → List (String × JobContainerSpec) → Type 0
IsSidecar c [] = ⊥
IsSidecar c ((name, d) ∷ cs) = (d ≡ c) ⊎ IsSidecar c cs

-- The primary container or a sidecar.
abbrev pub IsContainerOf : JobContainerSpec → JobSpec → Type 0
IsContainerOf c spec = (spec.primary_container ≡ c) ⊎ IsSidecar c spec.sidecar_containers

-- A container asks for what the worker does not permit.
abbrev pub Exceeds : JobContainerSpec → WorkerSpec → Type 0
Exceeds c worker =
    ((c.privileged ≡ true) × (permits (λ p. p.allow_privileged) worker.job_policies ≡ false))
    ⊎ ((c.use_host_docker_socket ≡ true)
        × (permits (λ p. p.allow_docker_socket_mount) worker.job_policies ≡ false))
    ⊎ ((c.use_workspace ≡ true) × (worker.use_workspace ≡ false))

any_container_of_flag :
    (asks : JobContainerSpec → Bool) (cs : List (String × JobContainerSpec))
    → (flag : Bool) → flag ≡ true
    → any_container asks flag cs ≡ true
unfolding any_container
any_container_of_flag asks [] flag h = h
any_container_of_flag asks ((name, c) ∷ cs) flag h = any_container_of_flag asks cs _ (ground arith)

any_container_of_sidecar :
    (asks : JobContainerSpec → Bool) (c : JobContainerSpec) (cs : List (String × JobContainerSpec))
    → IsSidecar c cs
    → asks c ≡ true
    → (flag : Bool) → any_container asks flag cs ≡ true
unfolding any_container
any_container_of_sidecar asks c [] i h flag = elim i [ ]
any_container_of_sidecar asks c ((name, d) ∷ cs) (inl e) h flag =
    any_container_of_flag asks cs _ (rw e (ground arith))
any_container_of_sidecar asks c ((name, d) ∷ cs) (inr i) h flag =
    any_container_of_sidecar asks c cs i h _

-- The flags say what any container asks for.
job_asks_of_container :
    (asks : JobContainerSpec → Bool) (c : JobContainerSpec) (spec : JobSpec)
    → IsContainerOf c spec
    → asks c ≡ true
    → job_asks asks spec ≡ true
unfolding job_asks
job_asks_of_container asks c spec (inl e) h =
    any_container_of_flag asks spec.sidecar_containers _ (rw e h)
job_asks_of_container asks c spec (inr i) h =
    any_container_of_sidecar asks c spec.sidecar_containers i h _

-- The tests of `validate`, one of which is met where a container exceeds the policies.
exceeding_tests :
    (c : JobContainerSpec) (spec : JobSpec) (worker : WorkerSpec)
    → IsContainerOf c spec
    → Exceeds c worker
    → ((job_asks (λ d. d.privileged) spec
          && not (permits (λ p. p.allow_privileged) worker.job_policies))
        ≡ true)
      ⊎ ((job_asks (λ d. d.use_host_docker_socket) spec
            && not (permits (λ p. p.allow_docker_socket_mount) worker.job_policies))
          ≡ true)
      ⊎ ((job_asks (λ d. d.use_workspace) spec && not worker.use_workspace) ≡ true)
exceeding_tests c spec worker i (inl (a, b)) =
    inl (rw (job_asks_of_container (λ d. d.privileged) c spec i a, b) refl)
exceeding_tests c spec worker i (inr (inl (a, b))) =
    inr (inl (rw (job_asks_of_container (λ d. d.use_host_docker_socket) c spec i a, b) refl))
exceeding_tests c spec worker i (inr (inr (a, b))) =
    inr (inr (rw (job_asks_of_container (λ d. d.use_workspace) c spec i a, b) refl))

module _ {W : Type 0} where
  -- Three refusals in a row, one of which is met.
  refuse_one_of :
      (b₁ b₂ b₃ : Bool) (e₁ e₂ e₃ : Error) (w : W)
      → (b₁ ≡ true) ⊎ (b₂ ≡ true) ⊎ (b₃ ≡ true)
      → (x : Error) × ((refuse_if b₁ e₁ >> (refuse_if b₂ e₂ >> refuse_if b₃ e₃)) w ≡ (err x, w))
  refuse_one_of true b₂ b₃ e₁ e₂ e₃ w h = (e₁, refl)
  refuse_one_of false true b₃ e₁ e₂ e₃ w h = (e₂, refl)
  refuse_one_of false false true e₁ e₂ e₃ w h = (e₃, refl)
  refuse_one_of false false false e₁ e₂ e₃ w h = elim h [
    | inl e ↦ absurd (cc e)
    | inr (inl e) ↦ absurd (cc e)
    | inr (inr e) ↦ absurd (cc e)
  ]

module _ {W : Type 0} (s : JobsService W) where
  validate_forbidden :
      (c : JobContainerSpec) (spec : JobSpec) (worker : WorkerSpec) (w : W)
      → IsContainerOf c spec
      → Exceeds c worker
      → (x : Error) × (validate s spec worker w ≡ (err x, w))
  unfolding validate
  validate_forbidden c spec worker w i e =
      refuse_one_of _ _ _ _ _ _ w (exceeding_tests c spec worker i e)

  -- A worker that may create jobs and whose event was read cannot create a job one of whose
  -- containers, the primary one or a sidecar, is privileged, mounts the Docker socket or uses the
  -- workspace where the worker does not permit it: `Create` fails, and after the event was read it
  -- does nothing, so that no job is stored or scheduled.
  pub create_forbidden :
      (event_id job_name : String) (job : Job) (w w₁ w₂ : W) (event : Event)
      → s.authorize (role_worker event_id ∷ []) w ≡ (ok tt, w₁)
      → s.events_store.get event_id w₁ ≡ (ok event, w₂)
      → (c : JobContainerSpec) → IsContainerOf c job.spec
      → Exceeds c event.worker.spec
      → (x : Error) × (create s event_id job_name job w ≡ (err x, w₂))
  unfolding create
  create_forbidden event_id job_name job w w₁ w₂ event authorized read c i e =
      let (x, refused) = validate_forbidden c job.spec event.worker.spec w₂ i e in
      elim (Bool-cases (is_some (lookup job_name event.worker.jobs))) [
        | inl y ↦ (
          err_conflict "Job" job_name (job_exists event_id job_name),
          rw (authorized, read, y) refl,
        )
        | inr n ↦ (x, rw (authorized, read, n, refused) refl)
      ]
