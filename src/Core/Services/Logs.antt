-- ===== src/Core/Services/Logs.antt =====
-- v2/apiserver/internal/core/logs.go: the service of the logs of workers and jobs.
use brignext.Base.{String, Bool, Option, List, [], ◌∷◌}
use brignext.Effect.{M, pure, attempt, ◌>>=◌, ◌>>◌}
use brignext.Authx.Roles.{AuthorizeFn, role_project_user}
use brignext.Core.Types.{Time, Project, Event}
use brignext.Core.Interfaces.{EventsStore, ProjectsStore}

pub record LogsSelector : Type 0 where
  pub job : String
  pub container : String

pub record LogStreamOptions : Type 0 where
  pub follow : Bool

pub record LogEntry : Type 0 where
  pub time : Option Time
  pub message : String

-- How the goroutine ends that feeds a channel: by itself, when the request is over, or in a panic.
pub data Ending : Type 0 where
  returns with_request panics : Ending

-- What a channel of log entries carries until it is closed or the request ends, and how the
-- goroutine that feeds it ends.
pub record LogStream : Type 0 where
  pub entries : List LogEntry
  pub ending : Ending

pub record LogsStore (W : Type 0) : Type 0 where
  pub stream_logs : Project → Event → LogsSelector → LogStreamOptions → M W LogStream

pub record LogsService (W : Type 0) : Type 0 where
  pub authorize : AuthorizeFn W
  pub projects_store : ProjectsStore W
  pub events_store : EventsStore W
  pub warm_logs_store : LogsStore W
  pub cool_logs_store : LogsStore W

module _ {W : Type 0} (l : LogsService W) where
  -- "Try warm logs first and fall back on cooler logs if necessary"
  unfoldable pub stream : String → LogsSelector → LogStreamOptions → M W LogStream
  stream event_id selector opts = do
    event ← l.events_store.get event_id
    l.authorize (role_project_user event.project_id ∷ [])
    project ← l.projects_store.get event.project_id
    attempt (l.warm_logs_store.stream_logs project event selector opts) pure
        (λ e. l.cool_logs_store.stream_logs project event selector opts)
