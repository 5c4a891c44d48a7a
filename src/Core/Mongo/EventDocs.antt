-- ===== src/Core/Mongo/EventDocs.antt =====
-- The documents of the "events" collection, with the filters (`criteria`) and the `$set` updates
-- that v2/apiserver/internal/core/mongodb builds for them as `bson.M` values.
use brignext.Base.{
  ℕ, suc, ◌≤◌, ◌≡◌, String, Bool, true, false, ◌&&◌, Option, none, some, List, [], ◌∷◌, any, ltb,
  eqb, insert, lookup, ◌==◌,
}
use brignext.Mongo.{Semantics, Sort, created_desc, id_asc}
use brignext.Core.Types.{
  Time, Event, Worker, WorkerPhase, WorkerSpec, WorkerStatus, Job, JobSpec, JobStatus, same_phase,
}

-- An event with the fields "canceled" and "deleted", which only the store knows.
pub record EventDoc : Type 0 where
  pub event : Event
  pub canceled : Option Time
  pub deleted : Option Time

-- What `InsertOne` stores: the worker's token is tagged `bson:"-"` and is left out.
unfoldable pub encode : Event → EventDoc
encode e = record {
  event = record e { worker = record e.worker { token = "" } };
  canceled = none;
  deleted = none;
}

unfoldable pub decode : EventDoc → Event
decode d = d.event

pub data PhaseCondition : Type 0 where
  is_ : WorkerPhase → PhaseCondition
  in_ : List WorkerPhase → PhaseCondition

pub data DeletedCondition : Type 0 where
  not_exists : DeletedCondition
  deleted_at : Time → DeletedCondition

-- A key that is `none` is not in the `bson.M`. `created_before` is `{"$lt": t}` for the pointer t.
pub record EventFilter : Type 0 where
  pub id : Option String
  pub project_id : Option String
  pub worker_status_phase : Option PhaseCondition
  pub deleted : Option DeletedCondition
  pub canceled : Option Time
  pub created_before : Option (Option Time)
  pub worker_hashed_token : Option String

abbrev pub no_criteria : EventFilter
no_criteria = record {
  id = none;
  project_id = none;
  worker_status_phase = none;
  deleted = none;
  canceled = none;
  created_before = none;
  worker_hashed_token = none;
}

unfoldable pub has_text : Option String → String → Bool
has_text none s = true
has_text (some t) s = s == t

unfoldable pub has_phase : Option PhaseCondition → WorkerPhase → Bool
has_phase none p = true
has_phase (some (is_ q)) p = same_phase p q
has_phase (some (in_ qs)) p = any (same_phase p) qs

unfoldable pub has_deleted : Option DeletedCondition → Option Time → Bool
has_deleted none o = true
has_deleted (some not_exists) none = true
has_deleted (some not_exists) (some t) = false
has_deleted (some (deleted_at t)) none = false
has_deleted (some (deleted_at t)) (some u) = eqb u t

unfoldable pub has_canceled : Option Time → Option Time → Bool
has_canceled none o = true
has_canceled (some t) none = false
has_canceled (some t) (some u) = eqb u t

unfoldable pub is_created_before : Option (Option Time) → Option Time → Bool
is_created_before none o = true
is_created_before (some none) o = false
is_created_before (some (some t)) none = false
is_created_before (some (some t)) (some u) = ltb u t

-- A document matches if each key of the filter does.
unfoldable pub event_matches : EventFilter → EventDoc → Bool
event_matches f d =
    has_text f.id d.event.meta.id
    && has_text f.project_id d.event.project_id
    && has_phase f.worker_status_phase d.event.worker.status.phase
    && has_deleted f.deleted d.deleted
    && has_canceled f.canceled d.canceled
    && is_created_before f.created_before d.event.meta.created
    && has_text f.worker_hashed_token d.event.worker.hashed_token

-- `{"$set": …}`, by the fields set.
pub data EventUpdate : Type 0 where
  set_canceled : Time → WorkerPhase → EventUpdate
  set_deleted : Time → EventUpdate
  set_worker_spec : WorkerSpec → EventUpdate
  set_worker_status : WorkerStatus → EventUpdate
  set_job : String → Job → EventUpdate
  set_job_status : String → JobStatus → EventUpdate

abbrev pub with_worker : (Worker → Worker) → EventDoc → EventDoc
with_worker f d = record d { event = record d.event { worker = f d.event.worker } }

abbrev pub phase_of : EventDoc → WorkerPhase
phase_of d = d.event.worker.status.phase

-- Go's zero value of a job's specification, which decoding gives where a document has none.
abbrev pub zero_job_spec : JobSpec
zero_job_spec = record {
  primary_container = record {
    container_spec = record {
      image = "";
      image_pull_policy = "";
      command = [];
      arguments = [];
      environment = [];
    };
    use_workspace = false;
    workspace_mount_path = "";
    use_source = false;
    source_mount_path = "";
    privileged = false;
    use_host_docker_socket = false;
  };
  sidecar_containers = [];
  timeout_seconds = 0;
  host = none;
}

-- Setting "worker.jobs.NAME.status" makes the entry NAME where there is none.
unfoldable pub job_with_status : Option Job → JobStatus → Job
job_with_status none status = record { spec = zero_job_spec; status = some status }
job_with_status (some job) status = record job { status = some status }

unfoldable pub event_apply : EventUpdate → EventDoc → EventDoc
unfolding job_with_status
event_apply (set_canceled t p) d =
    let canceled_doc = with_worker (λ w. record w { status = record w.status { phase = p } }) d in
    record canceled_doc { canceled = some t }
event_apply (set_deleted t) d = record d { deleted = some t }
event_apply (set_worker_spec spec) d = with_worker (λ w. record w { spec = spec }) d
event_apply (set_worker_status status) d = with_worker (λ w. record w { status = status }) d
event_apply (set_job name job) d = with_worker (λ w. record w { jobs = insert name job w.jobs }) d
event_apply (set_job_status name status) d =
    with_worker
      (λ w. record w { jobs = insert name (job_with_status (lookup name w.jobs) status) w.jobs }) d

abbrev pub created_key : Option Time → ℕ
created_key none = 0
created_key (some t) = suc t

-- Newest first; the other key is not used for events.
abbrev pub IsNewestFirst : List EventDoc → Type 0
IsNewestFirst [] = Unit
IsNewestFirst (d ∷ []) = Unit
IsNewestFirst (d ∷ e ∷ ds) =
    (created_key e.event.meta.created ≤ created_key d.event.meta.created) × IsNewestFirst (e ∷ ds)

abbrev pub IsSorted : Sort → List EventDoc → Type 0
IsSorted created_desc ds = IsNewestFirst ds
IsSorted id_asc ds = Unit

abbrev pub event_semantics : Semantics EventDoc EventFilter EventUpdate
event_semantics = record {
  id_of = λ d. d.event.meta.id;
  matches = event_matches;
  apply = event_apply;
  IsOrdered = IsSorted;
}

unfoldable pub has_id : String → EventDoc → Bool
has_id id d = d.event.meta.id == id

-- The unique index on "id".
abbrev pub HasUniqueIds : List EventDoc → Type 0
HasUniqueIds [] = Unit
HasUniqueIds (d ∷ ds) = (any (has_id d.event.meta.id) ds ≡ false) × HasUniqueIds ds
