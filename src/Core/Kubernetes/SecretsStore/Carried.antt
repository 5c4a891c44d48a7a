-- ===== src/Core/Kubernetes/SecretsStore/Carried.antt =====
-- From a project's secrets to its workers: `Set` and `Unset` of
-- v2/apiserver/internal/core/kubernetes/secrets_store.go, and `ScheduleWorker` of substrate.go.
use brignext.Base.{◌≡◌, String, ◌⊎◌, Option, none, some, List, insert, delete_entry}
use brignext.Errors.{Error, ok, err}
use brignext.Effect.{M}
use brignext.Core.Types.{Project}
use brignext.Core.Kubernetes.SecretsStore.{SecretsClient, set, unset}
use brignext.Core.Kubernetes.Substrate.{SubstrateConfig}

-- The client of the secrets is the substrate's; reading the data of "project-secrets" does not
-- change it, and a patch that succeeds writes or removes its entry.
pub record SecretsLaws {W Writer : Type 0} (s : SecretsClient W) (c : SubstrateConfig W Writer)
    (entries : String → W → List (String × String)) : Type 0 where
  pub client_law :
      (namespace : String) (w : W)
      → c.kube_client.get_secret_data namespace "project-secrets" w
        ≡ s.kube_client.get_secret_data namespace "project-secrets" w
  pub get_secret_data_law :
      (namespace : String) (w : W)
      → let read = s.kube_client.get_secret_data namespace "project-secrets" in
        (((read w).0 ≡ ok (entries namespace w)) ⊎ ((x : Error) × ((read w).0 ≡ err x)))
        × (entries namespace (read w).1 ≡ entries namespace w)
  pub patch_data_law :
      (namespace key value : String) (w : W)
      → let patch = s.patch_data namespace "project-secrets" key (s.encode_base64 value) in
        ((patch w).0 ≡ ok tt)
          × (entries namespace (patch w).1 ≡ insert key value (entries namespace w))
        ⊎ ((x : Error) × ((patch w).0 ≡ err x))
  pub remove_data_law :
      (namespace key : String) (w : W)
      → let patch = s.remove_data namespace "project-secrets" key in
        ((patch w).0 ≡ ok tt)
          × (entries namespace (patch w).1 ≡ delete_entry key (entries namespace w))
        ⊎ ((x : Error) × ((patch w).0 ≡ err x))

module _ {W Writer : Type 0} (s : SecretsClient W) (c : SubstrateConfig W Writer) where
  -- `Set` of a value, or `Unset`.
  unfoldable pub write : Project → String → Option String → M W (Unit {0})
  write project key (some value) = set s project (record { key = key; value = value })
  write project key none = unset s project key
