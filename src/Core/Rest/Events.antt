-- ===== src/Core/Rest/Events.antt =====
-- v2/apiserver/internal/core/rest/events_endpoints.go and logs_endpoints.go.
use brignext.Base.{ℕ, String, List, [], map, split_at, ◌==◌, if◌then◌else◌}
use brignext.Errors.{err_internal_server, err_not_found, Error, Outcome, ok, err}
use brignext.Effect.{Spawned}
use brignext.Core.Types.{
  Event, EventList, EventsSelector, WorkerPhase, CancelManyEventsResult, DeleteManyEventsResult,
}
use brignext.Core.Services.Events.{EventsService}
use brignext.Core.Services.Events
use brignext.Core.Services.Logs.{LogsService, LogStream, LogsSelector}
use brignext.Core.Services.Logs
use brignext.Rest.Endpoints.{error, status_ok}
use brignext.Rest.Requests.{
  Request, Reply, answered, streaming, aborted, query_of, var_of, serve, serve_body, serve_list,
  parse_bool,
}

-- The conversion `core.WorkerPhase(s)`. A text that is none of the constants is a phase that no
-- event is in, as the empty text is.
unfoldable pub phase_of_text : String → WorkerPhase
phase_of_text s =
    if s == "ABORTED"
    then WorkerPhase.aborted
    else if s == "CANCELED"
    then WorkerPhase.canceled
    else if s == "FAILED"
    then WorkerPhase.failed
    else if s == "PENDING"
    then WorkerPhase.pending
    else if s == "RUNNING"
    then WorkerPhase.running
    else if s == "SUCCEEDED"
    then WorkerPhase.succeeded
    else if s == "TIMED_OUT"
    then WorkerPhase.timed_out
    else if s == "UNKNOWN"
    then WorkerPhase.unknown
    else WorkerPhase.unset

unfoldable pub phases_of : String → List WorkerPhase
unfolding phase_of_text
phases_of worker_phases_str =
    if worker_phases_str == "" then [] else map phase_of_text (split_at "," worker_phases_str)

unfoldable pub selector_of : Request → EventsSelector
unfolding phases_of
selector_of r = record {
  project_id = query_of r "projectID";
  worker_phases = phases_of (query_of r "workerPhases");
}

-- What becomes of an error where values are streamed: all but "not found" are hidden.
unfoldable pub stream_error : {A : Type 0} → Error → Reply A
stream_error (err_not_found t i) =
    answered (record { status = 404; body = error (err_not_found t i) })
stream_error _ = answered (record { status = 500; body = error err_internal_server })

unfoldable pub stream_reply : {A B : Type 0} → Outcome B → Reply A
unfolding stream_error
stream_reply (ok x) = streaming
stream_reply (err e) = stream_error e
stream_reply _ = aborted

module _ {W : Type 0} (e : EventsService W) where
  -- The recursion of the service takes fuel.
  unfoldable pub create : ℕ → Event → Request → W → Reply EventList × W
  create fuel event r w = serve_body r 201 (Events.create e fuel event) w

  unfoldable pub list : Request → W → Reply EventList × W
  list r w = serve_list r (λ opts. Events.list e (selector_of r) opts) w

  unfoldable pub get : Request → W → Reply Event × W
  get r w = serve status_ok (Events.get e (var_of r "id")) w

  unfoldable pub cancel : Request → W → Reply (Unit {0}) × W
  cancel r w = serve status_ok (Events.cancel e (var_of r "id")) w

  unfoldable pub cancel_many : Request → W → Reply (Spawned W CancelManyEventsResult) × W
  cancel_many r w = serve status_ok (Events.cancel_many e (selector_of r)) w

  unfoldable pub delete : Request → W → Reply (Unit {0}) × W
  delete r w = serve status_ok (Events.delete e (var_of r "id")) w

  unfoldable pub delete_many : Request → W → Reply (Spawned W DeleteManyEventsResult) × W
  delete_many r w = serve status_ok (Events.delete_many e (selector_of r)) w

module _ {W : Type 0} (l : LogsService W) where
  -- The entries are sent as they come.
  unfoldable pub stream : Request → W → Reply LogStream × W
  stream r w =
      let logs =
        Logs.stream l (var_of r "id")
          (record { job = query_of r "job"; container = query_of r "container" })
          (record { follow = parse_bool (query_of r "follow") }) in
      (stream_reply (logs w).0, (logs w).1)
