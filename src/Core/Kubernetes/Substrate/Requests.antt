-- ===== src/Core/Kubernetes/Substrate/Requests.antt =====
-- What the operations of v2/apiserver/internal/core/kubernetes/substrate.go ask of the cluster and
-- the queue, in which order, and how far they have come when a call fails.
use brignext.Base.{
  ◌≡◌, refl, String, ◌⊎◌, inl, inr, some, List, [], ◌∷◌, Bool, subst, true, false, lookup,
  if◌then◌else◌,
}
use brignext.Errors.{Error, ok, err}
use brignext.Effect.{M, pure, ◌>>=◌, ◌>>◌}
use brignext.Effect.Results.{outcome_cases}
use brignext.Core.Types.{Project, KubernetesConfig, Event, Job}
use brignext.Core.Kubernetes.Objects.{
  Request, create_namespace, create_role, create_service_account, create_role_binding,
  create_secret, create_pod, create_pvc, workers_queue,
}
use brignext.Core.Kubernetes.WorkerPods.{worker_pod, storage_quantity, workspace_pvc, event_secret}
use brignext.Core.Kubernetes.JobPods.{job_pod, job_secret}
use brignext.Core.Kubernetes.Substrate.{
  SubstrateConfig, create_project, schedule_worker, start_worker, start_job, send, namespace_of,
  create_workspace_pvc, create_worker_pod, create_job_secret, create_job_pod, spec_of,
  with_deferred, after_deferred, role_binding, project_secrets,
}
use brignext.Core.Kubernetes.Substrate.Carries.{
  Entry, requested, sent, IsQuiet, CarriesAt, Carries, SubstrateLaws, pure-Carries, then-CarriesAt,
  then-Carries, after_read, failed_read, namespace_known,
}

-- The two roles, the accounts that have them, and the place of a project's secrets.
abbrev pub created_for : Project → String → List Entry
created_for project namespace =
    requested (create_namespace namespace)
    ∷ requested (create_role namespace "workers")
    ∷ requested (create_service_account namespace "workers")
    ∷ requested (create_role_binding namespace (role_binding namespace "workers"))
    ∷ requested (create_role namespace "jobs")
    ∷ requested (create_service_account namespace "jobs")
    ∷ requested (create_role_binding namespace (role_binding namespace "jobs"))
    ∷ requested (create_secret namespace (project_secrets project.meta.id))
    ∷ []

module _ {W Writer : Type 0} (s : SubstrateConfig W Writer) (log : W → List Entry)
    (queue_of : Writer → String) (laws : SubstrateLaws s log queue_of) where
  -- Where the project has a namespace.
  namespace-Carries :
      (project : Project) (k : KubernetesConfig) (f : String → M W (Unit {0})) (w : W)
      → (es : List Entry) → project.kubernetes ≡ some k
      → CarriesAt log (f k.namespace) w es
      → CarriesAt log (namespace_of project >>= f) w es
  namespace-Carries project k f w es h c = rw (namespace_known project k w h) c

  -- One request, and then the rest.
  request-Carries :
      (r : Request) (m : M W (Unit {0})) (es : List Entry)
      → Carries log m es
      → Carries log (s.kube_client.request r >> m) (requested r ∷ es)
  request-Carries r m es h =
      then-Carries log (s.kube_client.request r) m (requested r ∷ []) es (laws.request_law r) h

  -- `CreateProject`, for a project that has a namespace: the namespace, the roles, accounts and
  -- bindings of workers and of jobs and the secret of the project are created in this order; where
  -- a call fails, `CreateProject` fails, and what was created is a first part of these.
  pub create_project_lem :
      (project : Project) (k : KubernetesConfig)
      → project.kubernetes ≡ some k
      → Carries log (create_project s project) (created_for project k.namespace)
  unfolding create_project
  create_project_lem project k h w = namespace-Carries project k _ w _ h (
      request-Carries _ _ _
        (request-Carries _ _ _ (
          request-Carries _ _ _ (
            request-Carries _ _ _ (
              request-Carries _ _ _ (
                request-Carries _ _ _
                  (request-Carries _ _ _ (request-Carries _ _ _ (pure-Carries log))))))))
        w)

  -- A deferred close does nothing, and its error is not looked at.
  with_deferred-Carries :
      (c m : M W (Unit {0})) (es : List Entry)
      → IsQuiet log c
      → Carries log m es
      → Carries log (with_deferred c m) es
  unfolding with_deferred after_deferred
  with_deferred-Carries c m es hc hm w =
      let (answer, same) = hc (m w).1 in
      let keep : after_deferred (m w).0 (c (m w).1).0 ≡ (m w).0 = elim answer [
        | inl (a, e) ↦ rw e
        | inr (x, e) ↦ rw e
      ] in
      rw (keep, same) (hm w)

  send-Carries :
      (queue message : String) → Carries log (send s queue message) (sent queue message ∷ [])
  unfolding send
  send-Carries queue message w =
      let same = laws.new_queue_writer_law queue w in
      let connect = s.queue_writer_factory.new_queue_writer queue in
      let deliver : Writer → M W (Unit {0}) = λ writer.
        with_deferred (s.queue_writer_factory.close writer)
          (s.queue_writer_factory.write writer message >> pure tt) in
      elim (outcome_cases (connect w).0) [
        | inr e ↦ failed_read log connect deliver w (sent queue message ∷ []) e same
        | inl (writer, e) ↦
            after_read log connect deliver w writer (sent queue message ∷ []) e same (
              with_deferred-Carries (s.queue_writer_factory.close writer) _
                (sent queue message ∷ []) (laws.close_law writer)
                (subst
                  (λ q.
                    Carries log (s.queue_writer_factory.write writer message >> pure tt)
                      (sent q message ∷ []))
                  (laws.queue_law queue w writer e)
                  (then-Carries log (s.queue_writer_factory.write writer message) (pure tt)
                    (sent (queue_of writer) message ∷ []) [] (laws.write_law writer message)
                    (pure-Carries log)))
                (connect w).1)
      ]

  -- `ScheduleWorker`, for a project that has a namespace: where the secret of the project cannot be
  -- read, it fails and nothing is done; otherwise the secret of the event is created from what was
  -- read, and then the event's identifier is put on the queue of the project's workers; where it
  -- does not succeed, be it by an error, a panic or a queue that never opens, a first part of these
  -- two is done, so that a message is never sent before its secret was created.
  pub schedule_worker_lem :
      (project : Project) (k : KubernetesConfig) (event : Event) (w : W)
      → project.kubernetes ≡ some k
      → let read = s.kube_client.get_secret_data k.namespace "project-secrets" in
        ((x : Error) × ((read w).0 ≡ err x)
          × ((schedule_worker s project event w).0 ≡ err x)
          × (log (schedule_worker s project event w).1 ≡ log w))
        ⊎ ((secrets : List (String × String)) × ((read w).0 ≡ ok secrets)
            × CarriesAt log (schedule_worker s project event) w (
                requested (create_secret k.namespace (event_secret s.config project event secrets))
                ∷ sent (workers_queue event.project_id) event.meta.id
                ∷ []))
  unfolding schedule_worker
  schedule_worker_lem project k event w h =
      let (answer, same) = laws.get_secret_data_law k.namespace "project-secrets" w in
      elim answer [
        | inr (x, e) ↦ inl (
          x,
          e,
          rw (namespace_known project k w h, e),
          rw (namespace_known project k w h, e, same),
        )
        | inl (secrets, e) ↦ inr (
          secrets,
          e,
          namespace-Carries project k _ w _ h (
              after_read log (s.kube_client.get_secret_data k.namespace "project-secrets") _ w
                secrets _ e same
                (request-Carries _ _ _ (send-Carries (workers_queue event.project_id) event.meta.id)
                  (s.kube_client.get_secret_data k.namespace "project-secrets" w).1)),
        )
      ]

  -- `StartJob`, for a project that has a namespace and a job of the event: the secret with the
  -- environments of the job's containers is created, and then its pod.
  pub start_job_lem :
      (project : Project) (k : KubernetesConfig) (event : Event) (job_name : String) (job : Job)
      → project.kubernetes ≡ some k
      → lookup job_name event.worker.jobs ≡ some job
      → Carries log (start_job s project event job_name) (
          requested (create_secret k.namespace (job_secret k.namespace event job_name job.spec))
          ∷ requested (create_pod k.namespace (job_pod k.namespace event job_name job.spec))
          ∷ [])
  unfolding start_job create_job_secret create_job_pod spec_of
  start_job_lem project k event job_name job h j = rw j (
      then-Carries log (create_job_secret s project event job_name job.spec) _
        (requested (create_secret k.namespace (job_secret k.namespace event job_name job.spec))
          ∷ [])
        _ (λ w. namespace-Carries project k _ w _ h (request-Carries _ _ _ (pure-Carries log) w))
        (then-Carries log (create_job_pod s project event job_name job.spec) (pure tt)
          (requested (create_pod k.namespace (job_pod k.namespace event job_name job.spec)) ∷ []) []
          (λ w. namespace-Carries project k _ w _ h (request-Carries _ _ _ (pure-Carries log) w))
          (pure-Carries log)))

  -- What `StartWorker` does, by whether the worker uses a workspace.
  abbrev pub IsStarted : Project → KubernetesConfig → Event → M W (Unit {0}) → W → Bool → Type 0
  IsStarted project k event m w false =
      CarriesAt log m w
        (requested (create_pod k.namespace (worker_pod s.config k.namespace event)) ∷ [])
  IsStarted project k event m w true =
      let parse = s.kube_client.parse_quantity (storage_quantity event) in
      ((x : Error) × ((parse w).0 ≡ err x) × ((m w).0 ≡ err x) × (log (m w).1 ≡ log w))
      ⊎ ((storage : String) × ((parse w).0 ≡ ok storage)
          × CarriesAt log m w (
              requested (create_pvc k.namespace (workspace_pvc s.config k.namespace event storage))
              ∷ requested (create_pod k.namespace (worker_pod s.config k.namespace event))
              ∷ []))

  create_worker_pod-Carries :
      (project : Project) (k : KubernetesConfig) (event : Event)
      → project.kubernetes ≡ some k
      → Carries log
          (create_worker_pod s project event >> pure tt)
          (requested (create_pod k.namespace (worker_pod s.config k.namespace event)) ∷ [])
  unfolding create_worker_pod
  create_worker_pod-Carries project k event h =
      then-Carries log (create_worker_pod s project event) (pure tt)
        (requested (create_pod k.namespace (worker_pod s.config k.namespace event)) ∷ []) []
        (λ w. namespace-Carries project k _ w _ h (request-Carries _ _ _ (pure-Carries log) w))
        (pure-Carries log)

  prepared :
      (project : Project) (k : KubernetesConfig) (event : Event) (w : W)
      → project.kubernetes ≡ some k
      → (b : Bool)
      → IsStarted project k event
          ((if b then create_workspace_pvc s project event else pure tt)
            >> (create_worker_pod s project event >> pure tt))
          w
          b
  unfolding create_workspace_pvc
  prepared project k event w h false = create_worker_pod-Carries project k event h w
  prepared project k event w h true =
      let parse = s.kube_client.parse_quantity (storage_quantity event) in
      let (answer, same) = laws.parse_quantity_law (storage_quantity event) w in
      elim answer [
        | inr (x, e) ↦ inl (x, e, rw e refl, rw (e, same))
        | inl (storage, e) ↦ inr (
          storage,
          e,
          then-CarriesAt log (create_workspace_pvc s project event) _ w
              (requested (create_pvc k.namespace (workspace_pvc s.config k.namespace event storage))
                ∷ [])
              _
              (after_read log parse _ w storage _ e same (
                namespace-Carries project k _ (parse w).1 _ h
                  (request-Carries _ _ _ (pure-Carries log) (parse w).1)))
              (create_worker_pod-Carries project k event h),
        )
      ]

  -- `StartWorker`, for a project that has a namespace: the worker's pod is created, and before it
  -- the claim of the workspace, where the worker uses one; where the size of the workspace cannot
  -- be parsed, it fails and nothing is done.
  pub start_worker_lem :
      (project : Project) (k : KubernetesConfig) (event : Event) (w : W)
      → project.kubernetes ≡ some k
      → IsStarted project k event (start_worker s project event) w event.worker.spec.use_workspace
  unfolding start_worker
  start_worker_lem project k event w h =
      prepared project k event w h event.worker.spec.use_workspace
