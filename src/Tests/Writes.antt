-- ===== src/Tests/Writes.antt =====
-- Writes to an event of the database in memory, read back.
use brignext.Base.{◌≡◌, refl, some, any, find_first, update_first}
use brignext.Errors.{ok}
use brignext.Core.Types.{Event, WorkerPhase}
use brignext.Core.Mongo.EventDocs.{
  EventDoc, has_id, has_text, has_phase, has_deleted, has_canceled, is_created_before,
  event_matches, event_apply, decode,
}
use brignext.Core.Mongo.EventsStore.{get}
use brignext.Core.Mongo.WorkersStore.{update_worker_status}
use brignext.Core.Mongo.WorkersStore.Updates.{get-update_worker_status}
use brignext.Tests.Memory.{memory, documents, memory-Laws}
use brignext.Tests.Samples.{stored, event_in, status_in}
use brignext.Tests.Store.{clock}

-- The worker of e3 has succeeded; a report that it failed is written over that.
abbrev reported : Event
reported = event_in "e3" 20 "blog" WorkerPhase.failed

report_written : (update_worker_status memory "e3" (status_in WorkerPhase.failed) stored).0 ≡ ok tt
unfolding update_worker_status any event_matches has_text has_phase has_deleted has_canceled
    is_created_before
report_written = refl

report_read :
    (get memory clock "e3"
      (update_worker_status memory "e3" (status_in WorkerPhase.failed) stored).1).0
    ≡ ok reported
unfolding get update_worker_status find_first any event_matches has_text has_phase has_deleted
    has_canceled is_created_before update_first event_apply decode
report_read = refl

update_worker_status_example :
    (d : EventDoc) × (find_first (has_id "e3") stored ≡ some d)
    × (reported.worker.status ≡ status_in WorkerPhase.failed)
    × (reported ≡ record (decode d) {
      worker = record (decode d).worker { status = status_in WorkerPhase.failed };
    })
update_worker_status_example =
    get-update_worker_status memory documents memory-Laws clock "e3" stored reported
      (status_in WorkerPhase.failed) report_written report_read
