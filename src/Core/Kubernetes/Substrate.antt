-- ===== src/Core/Kubernetes/Substrate.antt =====
-- v2/apiserver/internal/core/kubernetes/substrate.go: the operations of the substrate. The client
-- of the cluster (k8s.io/client-go) and the queue are parameters.
pub mod Carries
pub mod Requests
use brignext.Base.{String, Bool, Option, none, some, List, [], ◌∷◌, lookup, if◌then◌else◌}
use brignext.Errors.{Outcome, ok, err, panic, out_of_fuel}
use brignext.Effect.{M, pure, crash, ◌>>=◌, ◌>>◌}
use brignext.Core.Types.{Project, Event, JobSpec, Job}
use brignext.Core.Interfaces.{System}
use brignext.Core.Interfaces
use brignext.Core.Mongo.EventDocs.{zero_job_spec}
use brignext.Scheduler.Messages.{job_message}
use brignext.Core.Kubernetes.Objects.{
  Request, RoleBinding, Secret, create_namespace, delete_namespace, create_role,
  create_service_account, create_role_binding, create_secret, create_pod, create_pvc, delete_pods,
  delete_pvcs, delete_secrets, workers_queue, jobs_queue, new_namespace,
}
use brignext.Core.Kubernetes.WorkerPods.{
  Config, worker_pod, storage_quantity, workspace_pvc, event_secret,
}
use brignext.Core.Kubernetes.JobPods.{job_secret, job_pod}

-- `request` makes a call that changes the cluster; `get_secret_data` reads the data of a secret, by
-- namespace and name; `parse_quantity` is `resource.ParseQuantity`, in its canonical text.
pub record KubeClient (W : Type 0) : Type 0 where
  pub request : Request → M W (Unit {0})
  pub get_secret_data : String → String → M W (List (String × String))
  pub parse_quantity : String → M W String

-- v2/apiserver/internal/lib/queue: `WriterFactory` and `Writer`.
pub record WriterFactory (W Writer : Type 0) : Type 0 where
  pub new_queue_writer : String → M W Writer
  pub write : Writer → String → M W (Unit {0})
  pub close : Writer → M W (Unit {0})

pub record SubstrateConfig (W Writer : Type 0) : Type 0 where
  pub config : Config
  pub kube_client : KubeClient W
  pub queue_writer_factory : WriterFactory W Writer
  pub system : System W

-- What a deferred call whose error is not looked at leaves of a result.
unfoldable pub after_deferred : {A : Type 0} → Outcome A → Outcome (Unit {0}) → Outcome A
after_deferred r panic = panic
after_deferred r out_of_fuel = out_of_fuel
after_deferred r _ = r

module _ {W : Type 0} where
  -- `project.Kubernetes.Namespace`
  unfoldable pub namespace_of : Project → M W String
  namespace_of project = elim project.kubernetes [ none ↦ crash | some k ↦ pure k.namespace ]

  -- defer c(); return m
  unfoldable pub with_deferred : {A : Type 0} → M W (Unit {0}) → M W A → M W A
  unfolding after_deferred
  with_deferred c m w = (after_deferred (m w).0 (c (m w).1).0, (c (m w).1).1)

unfoldable pub role_binding : String → String → RoleBinding
role_binding namespace name = record {
  name = name;
  subject = record { kind = "ServiceAccount"; name = name; namespace = namespace };
  role_ref = name;
}

unfoldable pub project_secrets : String → Secret
project_secrets project_id = record {
  meta = record {
    name = "project-secrets";
    namespace = "";
    labels = ("brigade.sh/component", "project-secrets") ∷ ("brigade.sh/project", project_id) ∷ [];
  };
  type_ = "brigade.sh/project-secrets";
  data_ = [];
}

module _ {W Writer : Type 0} (s : SubstrateConfig W Writer) where
  unfoldable pub pre_create_project : Project → M W Project
  pre_create_project project = do
    token ← s.system.new_token 10
    pure (record project {
      kubernetes = some (record { namespace = new_namespace project.meta.id token });
    })

  unfoldable pub create_project : Project → M W (Unit {0})
  unfolding namespace_of role_binding project_secrets
  create_project project = do
    namespace ← namespace_of project
    s.kube_client.request (create_namespace namespace)
    s.kube_client.request (create_role namespace "workers")
    s.kube_client.request (create_service_account namespace "workers")
    s.kube_client.request (create_role_binding namespace (role_binding namespace "workers"))
    s.kube_client.request (create_role namespace "jobs")
    s.kube_client.request (create_service_account namespace "jobs")
    s.kube_client.request (create_role_binding namespace (role_binding namespace "jobs"))
    s.kube_client.request (create_secret namespace (project_secrets project.meta.id))
    pure tt

  unfoldable pub pre_update_project : Project → Project → M W Project
  pre_update_project old_project new_project =
      pure (record new_project { kubernetes = old_project.kubernetes })

  unfoldable pub delete_project : Project → M W (Unit {0})
  unfolding namespace_of
  delete_project project = do
    namespace ← namespace_of project
    s.kube_client.request (delete_namespace namespace)
    pure tt

  unfoldable pub pre_create_event : Project → Event → M W Event
  pre_create_event project event =
      let worker = event.worker in
      pure (record event {
        worker = record worker {
          spec = record worker.spec { kubernetes = project.spec.worker_template.kubernetes };
        };
      })

  unfoldable pub send : String → String → M W (Unit {0})
  unfolding with_deferred
  send queue_name message = do
    queue_writer ← s.queue_writer_factory.new_queue_writer queue_name
    with_deferred (s.queue_writer_factory.close queue_writer)
        do s.queue_writer_factory.write queue_writer message; pure tt

  unfoldable pub schedule_worker : Project → Event → M W (Unit {0})
  unfolding namespace_of send
  schedule_worker project event = do
    namespace ← namespace_of project
    secrets ← s.kube_client.get_secret_data namespace "project-secrets"
    s.kube_client.request (create_secret namespace (event_secret s.config project event secrets))
    send (workers_queue event.project_id) event.meta.id

  unfoldable pub create_workspace_pvc : Project → Event → M W (Unit {0})
  unfolding namespace_of
  create_workspace_pvc project event = do
    storage ← s.kube_client.parse_quantity (storage_quantity event)
    namespace ← namespace_of project
    s.kube_client.request (create_pvc namespace (workspace_pvc s.config namespace event storage))
    pure tt

  unfoldable pub create_worker_pod : Project → Event → M W (Unit {0})
  unfolding namespace_of
  create_worker_pod project event = do
    namespace ← namespace_of project
    s.kube_client.request (create_pod namespace (worker_pod s.config namespace event))
    pure tt

  unfoldable pub start_worker : Project → Event → M W (Unit {0})
  unfolding create_workspace_pvc create_worker_pod
  start_worker project event = do
    if event.worker.spec.use_workspace then create_workspace_pvc project event else pure tt
    create_worker_pod project event
    pure tt

  unfoldable pub schedule_job : Project → Event → String → M W (Unit {0})
  unfolding send
  schedule_job project event job_name =
      send (jobs_queue event.project_id) (job_message event.meta.id job_name)

  -- `Jobs[jobName].Spec`, a zero specification where there is no such job.
  unfoldable pub spec_of : Option Job → JobSpec
  spec_of none = zero_job_spec
  spec_of (some job) = job.spec

  unfoldable pub create_job_secret : Project → Event → String → JobSpec → M W (Unit {0})
  unfolding namespace_of
  create_job_secret project event job_name spec = do
    namespace ← namespace_of project
    s.kube_client.request (create_secret namespace (job_secret namespace event job_name spec))
    pure tt

  unfoldable pub create_job_pod : Project → Event → String → JobSpec → M W (Unit {0})
  unfolding namespace_of
  create_job_pod project event job_name spec = do
    namespace ← namespace_of project
    s.kube_client.request (create_pod namespace (job_pod namespace event job_name spec))
    pure tt

  unfoldable pub start_job : Project → Event → String → M W (Unit {0})
  unfolding spec_of create_job_secret create_job_pod
  start_job project event job_name =
      let spec = spec_of (lookup job_name event.worker.jobs) in
      do
        create_job_secret project event job_name spec
        create_job_pod project event job_name spec
        pure tt

  unfoldable pub delete_worker_and_jobs : Project → Event → M W (Unit {0})
  unfolding namespace_of
  delete_worker_and_jobs project event = do
    namespace ← namespace_of project
    s.kube_client.request (delete_pods namespace event.meta.id)
    s.kube_client.request (delete_pvcs namespace event.meta.id)
    s.kube_client.request (delete_secrets namespace event.meta.id)
    pure tt

  -- The substrate that `NewSubstrate` makes.
  unfoldable pub substrate : Interfaces.Substrate W
  substrate = record {
    pre_create_project = pre_create_project;
    create_project = create_project;
    pre_update_project = pre_update_project;
    delete_project = delete_project;
    pre_create_event = pre_create_event;
    schedule_worker = schedule_worker;
    start_worker = start_worker;
    schedule_job = schedule_job;
    start_job = start_job;
    delete_worker_and_jobs = delete_worker_and_jobs;
  }
