-- ===== src/Tests/Kubernetes.antt =====
-- A cluster and a queue that keep a log, and a job with a sidecar.
use brignext.Base.{
  ◌≡◌, refl, ℕ, String, true, false, not, ◌||◌, none, some, inl, List, [], ◌∷◌, ◌++◌, map, any,
  find_first, lookup, contains, IsKeySet, is_some, ◌⊎◌,
}
use brignext.Errors.{ok, Error, err}
use brignext.Effect.{pure}
use brignext.Authx.Roles.{always_authorize}
use brignext.Authx.Principals.{root}
use brignext.Core.Types.{Project, KubernetesConfig, Event, JobSpec, JobContainerSpec, WorkerPhase}
use brignext.Core.Interfaces.{System}
use brignext.Core.Services.Jobs.{JobsService, create, permits, job_asks}
use brignext.Core.Mongo.EventDocs.{
  zero_job_spec, has_text, has_phase, has_deleted, has_canceled, is_created_before, event_matches,
  decode,
}
use brignext.Core.Mongo.EventsStore.{get, events_store}
use brignext.Core.Mongo.WorkersStore.{jobs_store, create_job}
use brignext.Core.Kubernetes.Objects.{create_secret, workers_queue, variable_key}
use brignext.Core.Kubernetes.WorkerPods.{git_source, event_secret}
use brignext.Core.Kubernetes.JobPods.{job_pod, job_uses, job_secret}
use brignext.Core.Kubernetes.Substrate.{SubstrateConfig, schedule_worker}
use brignext.Core.Kubernetes.Substrate.Carries.{Entry, requested, sent, CarriesAt, SubstrateLaws}
use brignext.Core.Kubernetes.Substrate.Requests.{schedule_worker_lem}
use brignext.Core.Kubernetes.Mounts.{all, mounts_declared, mounts_declared-job_pod}
use brignext.Core.Kubernetes.Environments.{
  resolve, keys, job_entries, entries_of, entries_of_sidecars, environments, environments-job_pod,
}
use brignext.Core.Kubernetes.Permitted.{is_confined, is_on_host, is_claim, job_pod-create}
use brignext.Core.Kubernetes.WorkerPods.{Config}
use brignext.Queue.{
  Amqp, State, QueueWriter, new_queue_writer, open_sender, write, close, queue_and_group,
}
use brignext.Queue.Writers.{AddressLaws, seen, queue_of, writer_factory, writer_factory_lem}
use brignext.Tests.Broker.{broker, broker-AddressLaws}
use brignext.Tests.Memory.{Documents, memory}
use brignext.Tests.Samples.{worker_spec, event_in, stored}
use brignext.Tests.Services.{no_projects, substrate}
use brignext.Tests.Store.{clock}

abbrev Log : Type 0
Log = List Entry

abbrev amqp : Amqp Log ℕ ℕ String
amqp = broker (λ queue. λ message. λ log. log ++ sent queue message ∷ [])

amqp-AddressLaws : AddressLaws amqp (λ log. log) (λ sender. sender)
amqp-AddressLaws = broker-AddressLaws _ (λ log. log) (λ queue. λ message. λ log. refl)

abbrev Cluster : Type 0
Cluster = State amqp

-- The log, beside the client of the queue.
abbrev log_of : Cluster → Log
log_of = seen amqp (λ log. log) (λ sender. sender) amqp-AddressLaws

abbrev writer_queue : QueueWriter ℕ String → String
writer_queue = queue_of amqp (λ log. log) (λ sender. sender) amqp-AddressLaws

abbrev system : System Cluster
system = record {
  now = pure 0;
  new_uuid = pure "u1";
  new_token = λ n. pure "TOKEN";
  short_sha = λ a. λ b. b;
  principal = pure root;
}

abbrev pub config : Config
config = record {
  api_address = "http://brigade";
  default_worker_image = "brigade-worker";
  default_worker_image_pull_policy = "IfNotPresent";
  workspace_storage_class = "nfs";
}

abbrev cluster : SubstrateConfig Cluster (QueueWriter ℕ String)
cluster = record {
  config = config;
  kube_client = record {
    request = λ r. λ w. (ok tt, (w.0, w.1 ++ requested r ∷ []));
    get_secret_data = λ namespace. λ name. pure (("gitSSHKey", "key") ∷ []);
    parse_quantity = pure;
  };
  queue_writer_factory = writer_factory amqp 1 false;
  system = system;
}

cluster-SubstrateLaws : SubstrateLaws cluster log_of writer_queue
cluster-SubstrateLaws =
    let (open_law, queue_law, write_law, close_law) =
      writer_factory_lem amqp (λ log. log) (λ sender. sender) amqp-AddressLaws 1 in
    record {
      request_law = λ r. λ w. inl (refl, refl);
      get_secret_data_law = λ namespace. λ name. λ w. (inl (("gitSSHKey", "key") ∷ [], refl), refl);
      parse_quantity_law = λ size. λ w. (inl (size, refl), refl);
      new_queue_writer_law = open_law;
      queue_law = queue_law;
      write_law = write_law;
      close_law = close_law;
    }

-- The factory is connected, and nothing has been done.
abbrev at_start : Cluster
at_start = (some 1, [])

abbrev pub k8s : KubernetesConfig
k8s = record { namespace = "brigade-blog-token" }

abbrev pub blog : Project
blog = record {
  meta = record { id = "blog"; created = none };
  description = "";
  spec = record { event_subscriptions = []; worker_template = worker_spec };
  kubernetes = some k8s;
}

abbrev pub pending : Event
pending = event_in "e1" 10 "blog" WorkerPhase.pending

schedule_worker_example :
    let read = cluster.kube_client.get_secret_data k8s.namespace "project-secrets" in
    ((x : Error) × ((read at_start).0 ≡ err x)
      × ((schedule_worker cluster blog pending at_start).0 ≡ err x)
      × (log_of (schedule_worker cluster blog pending at_start).1 ≡ log_of at_start))
    ⊎ ((secrets : List (String × String)) × ((read at_start).0 ≡ ok secrets)
        × CarriesAt log_of (schedule_worker cluster blog pending) at_start (
            requested (create_secret k8s.namespace (event_secret config blog pending secrets))
            ∷ sent (workers_queue "blog") "e1"
            ∷ []))
schedule_worker_example =
    schedule_worker_lem cluster log_of writer_queue cluster-SubstrateLaws blog k8s pending at_start
      refl

-- The secret is created and the message sent, by a writer of the program.
scheduled : schedule_worker cluster blog pending at_start ≡ (
  ok tt,
  (
    some 1,
    requested (
          create_secret k8s.namespace
            (event_secret config blog pending (("gitSSHKey", "key") ∷ [])))
        ∷ sent (workers_queue "blog") "e1"
        ∷ [],
  ),
)
unfolding schedule_worker writer_factory new_queue_writer open_sender write close queue_and_group
    workers_queue
scheduled = refl

-- A test job with a database beside it.
abbrev with_variable : String → String → JobContainerSpec
with_variable key value =
    let c = zero_job_spec.primary_container in
    record c { container_spec = record c.container_spec { environment = (key, value) ∷ [] } }

abbrev test_job : JobSpec
test_job = record zero_job_spec {
  primary_container = record (with_variable "CI" "true") { use_source = true };
  sidecar_containers = ("database", with_variable "PASSWORD" "secret") ∷ [];
}

mounts_declared_example :
    mounts_declared (job_pod "blog" pending "test" test_job)
    ≡ (not (job_uses (λ c. c.use_source) test_job) || is_some (git_source none))
mounts_declared_example = mounts_declared-job_pod "blog" pending "test" test_job

test_keys : IsKeySet (keys (job_entries "test" test_job))
unfolding job_entries entries_of entries_of_sidecars variable_key contains
test_keys = (refl, (refl, tt))

environments_example :
    map
      (λ c. map (resolve (job_secret "blog" pending "test" test_job)) c.env)
      (job_pod "blog" pending "test" test_job).containers
    ≡ environments test_job
environments_example = environments-job_pod "blog" pending "test" test_job test_keys

abbrev jobs_service : JobsService Documents
jobs_service = record {
  authorize = always_authorize;
  projects_store = record no_projects { get = λ id. pure blog };
  events_store = events_store memory clock;
  jobs_store = jobs_store memory;
  substrate = substrate;
}

job_created :
    (create jobs_service "e1" "test" (record { spec = test_job; status = none }) stored).0 ≡ ok tt
unfolding create always_authorize events_store get find_first event_matches has_text has_phase
    has_deleted has_canceled is_created_before lookup decode job_asks jobs_store create_job any
job_created = refl

e1_read : jobs_service.events_store.get "e1" stored ≡ (ok pending, stored)
unfolding events_store get find_first event_matches has_text has_phase has_deleted has_canceled
    is_created_before decode
e1_read = refl

job_pod_example :
    let pod = job_pod "blog" pending "test" test_job in
    ((permits (λ p. p.allow_privileged) none || all is_confined pod.containers) ≡ true)
    × ((permits (λ p. p.allow_docker_socket_mount) none || not (any is_on_host pod.volumes)) ≡ true)
    × ((false || not (any is_claim pod.volumes)) ≡ true)
job_pod_example =
    job_pod-create jobs_service "e1" "test" (record { spec = test_job; status = none }) stored
      stored stored pending (unfold always_authorize in refl) e1_read job_created "blog"
