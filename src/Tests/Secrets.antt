-- ===== src/Tests/Secrets.antt =====
-- A project's secrets in memory, beside the log of a cluster.
use brignext.Base.{
  ◌≡◌, refl, ℕ, String, false, some, List, [], ◌∷◌, ◌++◌, insert, delete_entry, contains, IsKeySet,
  arith,
}
use mathlib.Core.List.{Perm}
use brignext.Errors.{ok}
use brignext.Effect.{pure}
use brignext.Authx.Principals.{root}
use brignext.Core.Interfaces.{System}
use brignext.Core.Kubernetes.Substrate.{SubstrateConfig, KubeClient}
use brignext.Core.Kubernetes.Substrate.Carries.{Entry, requested, sent}
use brignext.Core.Kubernetes.SecretsStore.{SecretsClient, keys_of, without_values}
use brignext.Core.Kubernetes.SecretsStore.Pages.{IsSorted}
use brignext.Core.Kubernetes.SecretsStore.Listing.{list_all, list_all_lem}
use brignext.Core.Kubernetes.SecretsStore.Carried.{write}
use brignext.Queue.{Amqp, State, QueueWriter}
use brignext.Queue.Writers.{AddressLaws, seen, queue_of, writer_factory}
use brignext.Tests.Broker.{broker, broker-AddressLaws}
use brignext.Tests.Kubernetes.{config, k8s, blog}

record World : Type 0 where
  secrets : List (String × String)
  log : List Entry

abbrev amqp : Amqp World ℕ ℕ String
amqp = broker (λ queue. λ message. λ w. record w { log = w.log ++ sent queue message ∷ [] })

amqp-AddressLaws : AddressLaws amqp (λ w. w.log) (λ sender. sender)
amqp-AddressLaws = broker-AddressLaws _ (λ w. w.log) (λ queue. λ message. λ w. refl)

abbrev Cluster : Type 0
Cluster = State amqp

abbrev secrets_of : Cluster → List (String × String)
secrets_of w = w.1.secrets

abbrev log_of : Cluster → List Entry
log_of = seen amqp (λ w. w.log) (λ sender. sender) amqp-AddressLaws

abbrev writer_queue : QueueWriter ℕ String → String
writer_queue = queue_of amqp (λ w. w.log) (λ sender. sender) amqp-AddressLaws

abbrev kube_client : KubeClient Cluster
kube_client = record {
  request = λ r. λ w. (ok tt, (w.0, record w.1 { log = w.1.log ++ requested r ∷ [] }));
  get_secret_data = λ namespace. λ name. λ w. (ok w.1.secrets, w);
  parse_quantity = pure;
}

-- Texts stand for their encoding.
abbrev client : SecretsClient Cluster
client = record {
  kube_client = kube_client;
  encode_base64 = λ value. value;
  patch_data = λ namespace. λ name.
      λ key. λ value. λ w. (ok tt, (w.0, record w.1 { secrets = insert key value w.1.secrets }));
  remove_data = λ namespace.
      λ name. λ key. λ w. (ok tt, (w.0, record w.1 { secrets = delete_entry key w.1.secrets }));
}

abbrev system : System Cluster
system = record {
  now = pure 0;
  new_uuid = pure "u1";
  new_token = λ n. pure "TOKEN";
  short_sha = λ a. λ b. b;
  principal = pure root;
}

abbrev substrate : SubstrateConfig Cluster (QueueWriter ℕ String)
substrate = record {
  config = config;
  kube_client = kube_client;
  queue_writer_factory = writer_factory amqp 1 false;
  system = system;
}

abbrev entries_in : String → Cluster → List (String × String)
entries_in namespace w = w.1.secrets

abbrev world : Cluster
world = (some 1, record { secrets = ("b", "2") ∷ ("c", "3") ∷ ("a", "1") ∷ []; log = [] })

world_keys : IsKeySet (keys_of (secrets_of world))
unfolding keys_of contains
world_keys = (refl, (refl, (refl, tt)))

no_empty_key : contains "" (keys_of (secrets_of world)) ≡ false
unfolding keys_of contains
no_empty_key = refl

-- Pages of two.
list_all_example :
    (keys : List String) × Perm keys (keys_of (secrets_of world))
    × IsSorted keys
    × ((list_all client 4 blog 2 "" world).0 ≡ ok (without_values keys))
list_all_example =
    list_all_lem client blog k8s secrets_of (λ w. (refl, refl)) refl 4 2 world world_keys
      no_empty_key (omega arith) (omega arith)

abbrev after_set : Cluster
after_set = (write client substrate blog "b" (some "4") world).1
