-- ===== src/Core/Mongo/LogsStore.antt =====
-- v2/apiserver/internal/core/mongodb/logs_store.go: logs that an aggregator has put into the
-- collection "logs", which is capped and read with a tailable cursor.
use brignext.Base.{String, Bool, List, [], ◌∷◌, ◌==◌, if◌then◌else◌}
use brignext.Effect.{M, pure, ◌>>=◌}
use brignext.Core.Types.{Project, Event}
use brignext.Core.Services.Logs.{
  returns, with_request, LogsSelector, LogStreamOptions, LogEntry, LogStream,
}
use brignext.Core.Services.Logs

pub record LogCriteria : Type 0 where
  pub event : String
  pub component : String
  pub container : String

unfoldable pub criteria_from_selector : String → LogsSelector → LogCriteria
criteria_from_selector event_id selector =
    if selector.job == ""
    then record {
      event = event_id;
      component = "worker";
      container = if selector.container == "" then "worker" else selector.container;
    }
    else record {
      event = event_id;
      component = "job";
      container = if selector.container == "" then selector.job else selector.container;
    }

-- An attempt to open a cursor, with what `TryNext` answers of a live one: nothing yet, an entry, or
-- one that cannot be decoded.
pub data Next : Type 0 where
  unavailable undecodable : Next
  available : LogEntry → Next

pub data Opening : Type 0 where
  find_failed dead_cursor : Opening
  live_cursor : List Next → Opening

-- The second loop of the goroutine: the entries that it sends, and how it ends.
unfoldable pub read_cursor : Bool → List Next → LogStream
read_cursor follow [] = record { entries = []; ending = with_request }
read_cursor follow (unavailable ∷ nexts) =
    let rest = read_cursor follow nexts in
    if follow then rest else record { entries = []; ending = returns }
read_cursor follow (undecodable ∷ nexts) = record { entries = []; ending = returns }
read_cursor follow (available entry ∷ nexts) =
    let rest = read_cursor follow nexts in record rest { entries = entry ∷ rest.entries }

-- The first loop: a dead cursor is opened again after a second.
unfoldable pub tail_logs : Bool → List Opening → LogStream
unfolding read_cursor
tail_logs follow [] = record { entries = []; ending = with_request }
tail_logs follow (find_failed ∷ openings) = record { entries = []; ending = returns }
tail_logs follow (dead_cursor ∷ openings) =
    let rest = tail_logs follow openings in
    if follow then rest else record { entries = []; ending = returns }
tail_logs follow (live_cursor nexts ∷ openings) = read_cursor follow nexts

-- `find` answers with the attempts that will be made until the request is over.
module _ {W : Type 0} (find : LogCriteria → M W (List Opening)) where
  unfoldable pub stream_logs : Project → Event → LogsSelector → LogStreamOptions → M W LogStream
  unfolding criteria_from_selector tail_logs
  stream_logs project event selector opts = do
    openings ← find (criteria_from_selector event.meta.id selector)
    pure (tail_logs opts.follow openings)

  -- The store that `NewLogsStore` makes.
  unfoldable pub logs_store : Logs.LogsStore W
  logs_store = record { stream_logs = stream_logs }
