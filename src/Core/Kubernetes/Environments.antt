-- ===== src/Core/Kubernetes/Environments.antt =====
-- The environments of a job's containers: `createJobSecret` and `createJobPod` of
-- v2/apiserver/internal/core/kubernetes/substrate.go.
use text.Mathlib.TextPositions.{eq_refl}
use brignext.Base.{
  ◌≡◌, refl, sym, ◌∙◌, ap, String, false, Option, none, some, List, [], ◌∷◌, ◌++◌, map, lookup,
  insert, contains, IsKeySet, lookup-insert, arith, ◌==◌, eq_iff, if◌then◌else◌,
}
use mathlib.Core.Option
use brignext.Core.Types.{Event, JobSpec, JobContainerSpec}
use brignext.Core.Kubernetes.Objects.{
  EnvVar, literal, secret_key, SecretValue, plain, Secret, variable_key,
}
use brignext.Core.Kubernetes.WorkerPods.{env_var}
use brignext.Core.Kubernetes.JobPods.{
  job_secret, job_pod, job_secret_data, with_environment, with_sidecars, environment_of, primary,
  sidecar,
}

-- What a container sees of a variable: its name and value, where the secret has the key.
unfoldable pub resolve : Secret → EnvVar → Option (String × SecretValue)
resolve s v = elim v.value [
  | literal value ↦ some (v.name, plain value)
  | secret_key name key ↦
      if name == s.meta.name
      then Option.map (λ value. (v.name, value)) (lookup key s.data_)
      else none
]

-- The entries of a container's variables in the secret, and of all containers.
unfoldable pub entries_of : String → JobContainerSpec → List (String × String)
entries_of name c = map (λ v. (variable_key name v.0, v.1)) c.container_spec.environment

unfoldable pub entries_of_sidecars : List (String × JobContainerSpec) → List (String × String)
entries_of_sidecars [] = []
entries_of_sidecars ((name, c) ∷ cs) = entries_of name c ++ entries_of_sidecars cs

unfoldable pub job_entries : String → JobSpec → List (String × String)
unfolding entries_of entries_of_sidecars
job_entries job_name spec =
    entries_of job_name spec.primary_container ++ entries_of_sidecars spec.sidecar_containers

insert_all : List (String × String) → List (String × String) → List (String × String)
insert_all [] acc = acc
insert_all ((key, value) ∷ es) acc = insert_all es (insert key value acc)

insert_all-append :
    (es fs acc : List (String × String))
    → insert_all (es ++ fs) acc ≡ insert_all fs (insert_all es acc)
unfolding insert_all
insert_all-append [] fs acc = refl
insert_all-append ((key, value) ∷ es) fs acc = insert_all-append es fs (insert key value acc)

with_environment_lem :
    (name : String) (vs acc : List (String × String))
    → with_environment name vs acc
      ≡ insert_all (map (λ (v : String × String). (variable_key name v.0, v.1)) vs) acc
unfolding with_environment insert_all
with_environment_lem name [] acc = refl
with_environment_lem name ((key, value) ∷ vs) acc =
    with_environment_lem name vs (insert (variable_key name key) value acc)

with_sidecars_lem :
    (cs : List (String × JobContainerSpec)) (acc : List (String × String))
    → with_sidecars cs acc ≡ insert_all (entries_of_sidecars cs) acc
unfolding with_sidecars insert_all entries_of_sidecars entries_of
with_sidecars_lem [] acc = refl
with_sidecars_lem ((name, c) ∷ cs) acc =
    with_sidecars_lem cs _
    ∙ ap (insert_all (entries_of_sidecars cs))
        (with_environment_lem name c.container_spec.environment acc)
    ∙ sym (insert_all-append (entries_of name c) (entries_of_sidecars cs) acc)

job_secret_data_lem :
    (job_name : String) (spec : JobSpec)
    → job_secret_data job_name spec ≡ insert_all (job_entries job_name spec) []
unfolding job_secret_data job_entries entries_of
job_secret_data_lem job_name spec =
    with_sidecars_lem spec.sidecar_containers _
    ∙ ap (insert_all (entries_of_sidecars spec.sidecar_containers))
        (with_environment_lem job_name spec.primary_container.container_spec.environment [])
    ∙ sym (
        insert_all-append (entries_of job_name spec.primary_container)
          (entries_of_sidecars spec.sidecar_containers) [])

abbrev pub keys : List (String × String) → List String
keys es = map (λ e. e.0) es

lookup-insert_all :
    (k : String) (es acc : List (String × String))
    → contains k (keys es) ≡ false
    → lookup k (insert_all es acc) ≡ lookup k acc
unfolding insert_all contains
lookup-insert_all k [] acc h = refl
lookup-insert_all k ((key, value) ∷ es) acc h =
    lookup-insert_all k es (insert key value acc) (ground arith)
    ∙ lookup-insert key k value acc
    ∙ ground arith

-- Each of the entries is there.
abbrev IsHeld : List (String × String) → List (String × String) → Type 0
IsHeld [] d = Unit
IsHeld ((key, value) ∷ es) d = (lookup key d ≡ some value) × IsHeld es d

insert_all-IsHeld :
    (es acc : List (String × String)) → IsKeySet (keys es) → IsHeld es (insert_all es acc)
unfolding insert_all
insert_all-IsHeld [] acc h = tt
insert_all-IsHeld ((key, value) ∷ es) acc (h, hs) = (
  lookup-insert_all key es (insert key value acc) h
      ∙ lookup-insert key key value acc
      ∙ ground (arith, eq_iff key key),
  insert_all-IsHeld es (insert key value acc) hs,
)

append-IsHeld : (es fs d : List (String × String)) → IsHeld (es ++ fs) d → IsHeld es d × IsHeld fs d
append-IsHeld [] fs d h = (tt, h)
append-IsHeld ((key, value) ∷ es) fs d (h, hs) =
    let (a, b) = append-IsHeld es fs d hs in ((h, a), b)

lookup-map :
    (k : String) (d : List (String × String))
    → lookup k (map (λ (e : String × String). (e.0, plain e.1)) d) ≡ Option.map plain (lookup k d)
unfolding lookup
lookup-map k [] = refl
lookup-map k ((key, value) ∷ d) = rw (lookup-map k d) (ground arith)

-- The variables as the specification of a container has them.
unfoldable pub variables_of : JobContainerSpec → List (Option (String × SecretValue))
variables_of c = map (λ v. some (v.0, plain v.1)) c.container_spec.environment

resolve_held :
    (s : Secret) (d : List (String × String)) (name : String) (vs : List (String × String))
    → s.data_ ≡ map (λ (e : String × String). (e.0, plain e.1)) d
    → IsHeld (map (λ (v : String × String). (variable_key name v.0, v.1)) vs) d
    → map (resolve s) (
        map
          (λ (v : String × String). env_var v.0 (secret_key s.meta.name (variable_key name v.0)))
          vs)
      ≡ map (λ v. some (v.0, plain v.1)) vs
unfolding resolve
resolve_held s d name [] e h = refl
resolve_held s d name ((key, value) ∷ vs) e (h, hs) =
    let here : resolve s (env_var key (secret_key s.meta.name (variable_key name key)))
        ≡ some (key, plain value) =
      rw (eq_refl s.meta.name, e, lookup-map (variable_key name key) d, h) in
    λ i. here i ∷ resolve_held s d name vs e hs i

-- What the containers of a job see of their environments, the primary container first.
abbrev pub environments : JobSpec → List (List (Option (String × SecretValue)))
environments spec =
    variables_of spec.primary_container ∷ map (λ c. variables_of c.1) spec.sidecar_containers

sidecars_held :
    (s : Secret) (d : List (String × String)) (cs : List (String × JobContainerSpec))
    → s.data_ ≡ map (λ (e : String × String). (e.0, plain e.1)) d
    → IsHeld (entries_of_sidecars cs) d
    → map (λ c. map (resolve s) c.env) (map (sidecar s.meta.name) cs)
      ≡ map (λ c. variables_of c.1) cs
unfolding sidecar environment_of variables_of entries_of entries_of_sidecars
sidecars_held s d [] e h = refl
sidecars_held s d ((name, c) ∷ cs) e h =
    let (a, b) = append-IsHeld (entries_of name c) (entries_of_sidecars cs) d h in
    λ i. resolve_held s d name c.container_spec.environment e a i ∷ sidecars_held s d cs e b i

-- Where the keys that `createJobSecret` makes of the containers' names and variables are all
-- different, every container of the pod that `createJobPod` makes sees in the job's secret each of
-- its variables with its value, in particular not one of another container's.
pub environments-job_pod :
    (namespace : String) (event : Event) (job_name : String) (spec : JobSpec)
    → IsKeySet (keys (job_entries job_name spec))
    → map
        (λ c. map (resolve (job_secret namespace event job_name spec)) c.env)
        (job_pod namespace event job_name spec).containers
      ≡ environments spec
unfolding job_pod primary environment_of variables_of job_entries job_secret entries_of
environments-job_pod namespace event job_name spec distinct =
    let s = job_secret namespace event job_name spec in
    let d = job_secret_data job_name spec in
    let held : IsHeld (job_entries job_name spec) d =
      rw (job_secret_data_lem job_name spec)
        (insert_all-IsHeld (job_entries job_name spec) [] distinct) in
    let (a, b) =
      append-IsHeld (entries_of job_name spec.primary_container)
        (entries_of_sidecars spec.sidecar_containers) d held in
    λ i.
      resolve_held s d job_name spec.primary_container.container_spec.environment refl a i
      ∷ sidecars_held s d spec.sidecar_containers refl b i
