-- ===== src/Core/Types/Events.antt =====
-- v2/apiserver/internal/core/events.go, the data.
use brignext.Base.{ℕ, String, Option, List}
use brignext.Core.Types.Workers.{Worker, WorkerPhase}
use brignext.Core.Types.Projects.{ObjectMeta, ListMeta, Labels}

pub record EventGitConfig : Type 0 where
  pub clone_url : String
  pub commit : String
  pub ref : String

pub record Event : Type 0 where
  pub meta : ObjectMeta
  pub project_id : String
  pub source : String
  pub type_ : String
  pub labels : Labels
  pub short_title : String
  pub long_title : String
  pub git : Option EventGitConfig
  pub payload : String
  pub worker : Worker

pub record EventsSelector : Type 0 where
  pub project_id : String
  pub worker_phases : List WorkerPhase

pub record EventList : Type 0 where
  pub meta : ListMeta
  pub items : List Event

pub record CancelManyEventsResult : Type 0 where
  pub count : ℕ

pub record DeleteManyEventsResult : Type 0 where
  pub count : ℕ
