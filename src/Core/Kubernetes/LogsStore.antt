-- ===== src/Core/Kubernetes/LogsStore.antt =====
-- v2/apiserver/internal/core/kubernetes/logs_store.go: logs that are read from the pods themselves.
pub mod Lines
pub mod Names
use brignext.Base.{String, Bool, Option, none, some, List, [], ◌∷◌, ◌==◌, if◌then◌else◌}
use brignext.Effect.{M, pure, ◌>>=◌}
use brignext.Rest.TokenAuth.{split_at_space}
use brignext.Core.Types.{Time, Project, Event}
use brignext.Core.Services.Logs.{
  Ending, returns, with_request, panics, LogsSelector, LogStreamOptions, LogEntry, LogStream,
}
use brignext.Core.Services.Logs
use brignext.Core.Kubernetes.Objects.{worker_pod_name, job_object_name}
use brignext.Core.Kubernetes.Substrate.{namespace_of}

-- What `buffer.ReadString('\\n')` answers: a line with its newline; the text up to the end of the
-- file, which is not used; or the text up to another error.
pub data Read : Type 0 where
  line : String → Read
  end_of_file : Read
  failed : String → Read

-- `stream_logs` opens the logs of a pod, by its namespace, its name and the container, and answers
-- with all that is read from them; `parse_time` is `time.Parse` of RFC 3339.
pub record LogsClient (W : Type 0) : Type 0 where
  pub stream_logs : String → String → String → M W (List Read)
  pub parse_time : String → Option Time

unfoldable pub pod_name : String → LogsSelector → String
pod_name event_id selector =
    if selector.job == "" then worker_pod_name event_id else job_object_name event_id selector.job

-- `logLine[:len(logLine)-1]`, which panics for an empty text. The last character is one byte.
unfoldable pub without_last : String → Option String
without_last String.[] = none
without_last (String.◌∷◌ c s) = elim (without_last s) [
  | none ↦ some ""
  | some r ↦ some (String.◌∷◌ c r)
]

unfoldable pub entry_of : (String → Option Time) → String → LogEntry
entry_of parse_time log_line = elim (split_at_space log_line) [
  | none ↦ record { time = none; message = log_line }
  | some (time_str, message) ↦ record { time = parse_time time_str; message = message }
]

-- One round of the loop: the entry of what was read, and then what follows.
unfoldable pub sent_first : (String → Option Time) → Option String → LogStream → LogStream
unfolding entry_of
sent_first parse_time none rest = record { entries = []; ending = panics }
sent_first parse_time (some log_line) rest = record rest {
  entries = entry_of parse_time log_line ∷ rest.entries;
}

-- After the end of the file a goroutine that follows the logs hangs until the request is over.
unfoldable pub ending_of : Bool → Ending
ending_of follow = if follow then with_request else returns

-- The goroutine. Where what is read ends with neither the file nor a panic, the request was over.
unfoldable pub pump : (String → Option Time) → Bool → List Read → LogStream
unfolding without_last sent_first ending_of
pump parse_time follow [] = record { entries = []; ending = with_request }
pump parse_time follow (end_of_file ∷ reads) = record { entries = []; ending = ending_of follow }
pump parse_time follow (line s ∷ reads) =
    sent_first parse_time (without_last s) (pump parse_time follow reads)
pump parse_time follow (failed s ∷ reads) =
    sent_first parse_time (without_last s) (pump parse_time follow reads)

module _ {W : Type 0} (l : LogsClient W) where
  unfoldable pub stream_logs : Project → Event → LogsSelector → LogStreamOptions → M W LogStream
  unfolding namespace_of pod_name pump
  stream_logs project event selector opts = do
    namespace ← namespace_of project
    pod_logs ← l.stream_logs namespace (pod_name event.meta.id selector) selector.container
    pure (pump l.parse_time opts.follow pod_logs)

  -- The store that `NewLogsStore` makes.
  unfoldable pub logs_store : Logs.LogsStore W
  logs_store = record { stream_logs = stream_logs }
