-- ===== src/Core/Interfaces.antt =====
-- What the services of v2/apiserver/internal/core are built on: the stores (the interfaces
-- `EventsStore`, `ProjectsStore`, `WorkersStore`, `JobsStore` and `authx.RolesStore`), the
-- substrate (substrate.go), and what is read from the system: the time, new identifiers
-- (github.com/satori/go.uuid), new tokens and hashes (v2/apiserver/internal/lib/crypto).
use brignext.Base.{ℕ, String, List}
use brignext.Effect.{M}
use brignext.Authx.Roles.{Role}
use brignext.Authx.Principals.{Principal, PrincipalType}
use brignext.Core.Types.{
  Time, Event, EventList, EventsSelector, ListOptions, Project, ProjectList, WorkerSpec,
  WorkerStatus, Job, JobStatus,
}

pub record EventsStore (W : Type 0) : Type 0 where
  pub create : Event → M W (Unit {0})
  pub list : EventsSelector → ListOptions → M W EventList
  pub get : String → M W Event
  pub get_by_hashed_worker_token : String → M W Event
  pub cancel : String → M W (Unit {0})
  pub cancel_many : EventsSelector → M W EventList
  pub delete : String → M W (Unit {0})
  pub delete_many : EventsSelector → M W EventList

pub record ProjectsStore (W : Type 0) : Type 0 where
  pub create : Project → M W (Unit {0})
  pub list : ListOptions → M W ProjectList
  pub list_subscribers : Event → M W ProjectList
  pub get : String → M W Project
  pub update : Project → M W (Unit {0})
  pub delete : String → M W (Unit {0})

pub record WorkersStore (W : Type 0) : Type 0 where
  pub update_spec : String → WorkerSpec → M W (Unit {0})
  pub update_status : String → WorkerStatus → M W (Unit {0})

pub record JobsStore (W : Type 0) : Type 0 where
  pub create : String → String → Job → M W (Unit {0})
  pub update_status : String → String → JobStatus → M W (Unit {0})

pub record RolesStore (W : Type 0) : Type 0 where
  pub grant : PrincipalType → String → List Role → M W (Unit {0})
  pub revoke : PrincipalType → String → List Role → M W (Unit {0})

pub record Substrate (W : Type 0) : Type 0 where
  pub pre_create_project : Project → M W Project
  pub create_project : Project → M W (Unit {0})
  pub pre_update_project : Project → Project → M W Project
  pub delete_project : Project → M W (Unit {0})
  pub pre_create_event : Project → Event → M W Event
  pub schedule_worker : Project → Event → M W (Unit {0})
  pub start_worker : Project → Event → M W (Unit {0})
  pub schedule_job : Project → Event → String → M W (Unit {0})
  pub start_job : Project → Event → String → M W (Unit {0})
  pub delete_worker_and_jobs : Project → Event → M W (Unit {0})

pub record System (W : Type 0) : Type 0 where
  pub now : M W Time
  pub new_uuid : M W String
  -- of the given length
  pub new_token : ℕ → M W String
  pub short_sha : String → String → String
  -- The principal in the request's context, if it holds one.
  pub principal : M W Principal
