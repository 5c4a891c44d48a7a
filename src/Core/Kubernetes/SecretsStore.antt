-- ===== src/Core/Kubernetes/SecretsStore.antt =====
-- v2/apiserver/internal/core/kubernetes/secrets_store.go: the secrets of a project are the data of
-- the Kubernetes secret "project-secrets" in its namespace.
pub mod Pages
pub mod Listing
pub mod Carried
use Prim.Native.Nat.{Ordering}
use Prim.Native.String.{compare}
use brignext.Base.{
  less, ℕ, zero, suc, ◌-◌, String, Bool, true, false, Option, none, some, List, [], ◌∷◌, map,
  length, take, get_elem?, lookup, ltb, is_some, ◌==◌, if◌then◌else◌,
}
use brignext.Effect.{M, pure, crash, ◌>>=◌, ◌>>◌}
use brignext.Core.Types.{Project, ListMeta, ListOptions}
use brignext.Core.Services.Secrets.{Secret, SecretList}
use brignext.Core.Services.Secrets
use brignext.Core.Kubernetes.Substrate.{KubeClient, namespace_of}

-- `patch_data` is a strategic merge patch of one entry of a secret's data, in base64, and
-- `remove_data` a JSON patch that removes one, by the namespace and the name of the secret.
pub record SecretsClient (W : Type 0) : Type 0 where
  pub kube_client : KubeClient W
  pub encode_base64 : String → String
  pub patch_data : String → String → String → String → M W (Unit {0})
  pub remove_data : String → String → String → M W (Unit {0})

-- `sort.Sort`, by key: `Less` is `less`.
unfoldable pub place : String → List String → List String
place k [] = k ∷ []
place k (j ∷ ks) = let rest = place k ks in if less j k then j ∷ rest else k ∷ j ∷ ks

unfoldable pub sort_keys : List String → List String
unfolding place
sort_keys [] = []
sort_keys (k ∷ ks) = place k (sort_keys ks)

-- The keys of a map.
unfoldable pub keys_of : List (String × String) → List String
keys_of [] = []
keys_of ((k, v) ∷ entries) = k ∷ keys_of entries

-- What comes after the first key that is `opts.Continue`, or nothing that is known.
unfoldable pub after_key : String → List String → Option (List String)
after_key continue_ [] = none
after_key continue_ (k ∷ ks) =
    let rest = after_key continue_ ks in if k == continue_ then some ks else rest

or_all : List String → Option (List String) → List String
or_all keys none = keys
or_all keys (some rest) = rest

-- Where no key is `opts.Continue`, the list starts from its beginning.
unfoldable pub skip_to : String → List String → List String
unfolding or_all
skip_to continue_ keys = if continue_ == "" then keys else or_all keys (after_key continue_ keys)

unfoldable pub without_values : List String → List Secret
without_values [] = []
without_values (k ∷ ks) = record { key = k; value = "" } ∷ without_values ks

module _ {W : Type 0} where
  -- `secrets.Items[opts.Limit-1].Key`, of a limit that is not 0.
  cut : List String → ℕ → Option String → M W SecretList
  cut keys limit none = crash
  cut keys limit (some last) = pure (record {
    meta = record { continue_ = last; remaining_item_count = length keys - limit };
    items = without_values (take limit keys);
  })

  -- "Paginate..."
  unfoldable pub paginate : List String → ℕ → M W SecretList
  unfolding cut
  paginate keys limit =
      if ltb limit (length keys)
      then cut keys limit (elim limit [ zero ↦ none | suc n ↦ get_elem? keys n ])
      else pure (record {
        meta = record { continue_ = ""; remaining_item_count = 0 };
        items = without_values keys;
      })

module _ {W : Type 0} (s : SecretsClient W) where
  unfoldable pub list : Project → ListOptions → M W SecretList
  unfolding namespace_of skip_to paginate
  list project opts = do
    namespace ← namespace_of project
    secret_data ← s.kube_client.get_secret_data namespace "project-secrets"
    paginate (skip_to opts.continue_ (sort_keys (keys_of secret_data))) opts.limit

  unfoldable pub set : Project → Secret → M W (Unit {0})
  unfolding namespace_of
  set project secret = do
    namespace ← namespace_of project
    s.patch_data namespace "project-secrets" secret.key (s.encode_base64 secret.value)

  -- "If we blindly try to patch the k8s secret to remove the specified key, we'll get an error if
  -- that key isn't in the map"
  unfoldable pub unset : Project → String → M W (Unit {0})
  unfolding namespace_of
  unset project key = do
    namespace ← namespace_of project
    secret_data ← s.kube_client.get_secret_data namespace "project-secrets"
    if is_some (lookup key secret_data)
        then s.remove_data namespace "project-secrets" key
        else pure tt

  -- The store that `NewSecretsStore` makes.
  unfoldable pub secrets_store : Secrets.SecretsStore W
  secrets_store = record { list = list; set = set; unset = unset }
