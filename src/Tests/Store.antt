-- ===== src/Tests/Store.antt =====
-- The theorems on the events store, applied to a database in memory.
use brignext.Base.{◌≡◌, refl, false, none, [], ◌∷◌, any}
use brignext.Errors.{ok}
use brignext.Core.Types.{Time, WorkerPhase, EventsSelector}
use brignext.Core.Mongo.EventDocs.{has_id, HasUniqueIds, has_canceled, has_deleted}
use brignext.Core.Mongo.EventsStore.{Clock, ClockLaws, cancel, cancel_many, delete_many}
use brignext.Core.Mongo.EventsStore.Cancel.{CancelSpec, cancel_lem}
use brignext.Core.Mongo.EventsStore.CancelMany.{CancelManySpec, cancel_many_lem}
use brignext.Core.Mongo.EventsStore.Selection.{is_canceled_at}
use brignext.Core.Mongo.EventsStore.Marks.{is_marked_at}
use brignext.Core.Mongo.EventsStore.Deletes.{DeleteManySpec, delete_many_lem}
use brignext.Tests.Memory.{Documents, memory, documents, memory-Laws}
use brignext.Tests.Samples.{stored}

abbrev pub clock : Clock Documents
clock = record { now = λ w. (ok 50, w); format = λ t. ""; parse = λ s. none }

pub clock_laws : ClockLaws clock documents
clock_laws = record { now_law = λ w. (50, refl, refl) }

pub stored-HasUniqueIds : HasUniqueIds stored
unfolding any has_id
stored-HasUniqueIds = (refl, (refl, (refl, (refl, tt))))

cancel_example :
    CancelSpec "e2" stored (cancel memory clock "e2" stored).0 (cancel memory clock "e2" stored).1
cancel_example =
    cancel_lem memory clock documents memory-Laws clock_laws "e2" stored stored-HasUniqueIds

abbrev asked : EventsSelector
asked = record {
  project_id = "blog";
  worker_phases = WorkerPhase.pending ∷ WorkerPhase.running ∷ [];
}

stored-fresh : (t : Time) → any (is_canceled_at t) stored ≡ false
unfolding any is_canceled_at has_canceled
stored-fresh t = refl

cancel_many_example :
    (t : Time) × CancelManySpec asked t stored
      (cancel_many memory clock asked stored).0
      (cancel_many memory clock asked stored).1
cancel_many_example =
    cancel_many_lem memory clock documents memory-Laws clock_laws asked stored
      (λ t. λ e. stored-fresh t)

abbrev ended : EventsSelector
ended = record { project_id = "blog"; worker_phases = WorkerPhase.succeeded ∷ [] }

stored-unmarked : (t : Time) → any (is_marked_at t) stored ≡ false
unfolding any is_marked_at has_deleted
stored-unmarked t = refl

delete_many_example :
    (t : Time) × DeleteManySpec ended t stored
      (delete_many memory clock ended stored).0
      (delete_many memory clock ended stored).1
delete_many_example =
    delete_many_lem memory clock documents memory-Laws clock_laws ended stored
      (λ t. λ e. stored-unmarked t)
