-- ===== src/Core/Mongo/EventsStore.antt =====
-- v2/apiserver/internal/core/mongodb/events_store.go.
pub mod Ids
pub mod Reads
pub mod Conditional
pub mod Cancel
pub mod Selection
pub mod CancelMany
pub mod Marks
pub mod Deletes
use brignext.Base.{
  ℕ, ◌≡◌, zero, suc, ◌-◌, ◌<◌, String, Bool, true, false, not, ◌&&◌, Option, none, some, List, [],
  ◌∷◌, map, length, get_elem?, ltb, eqb, any, ◌==◌, if◌then◌else◌,
}
use brignext.Errors.{ok, err_not_found, err_conflict, already_terminal, other}
use brignext.Effect.{M, pure, fail, crash, ◌>>=◌, ◌>>◌}
use brignext.Mongo.{Collection, FindOptions, created_desc}
use brignext.Core.Types.{
  Time, Event, EventList, EventsSelector, ListOptions, WorkerPhase, same_phase,
}
use brignext.Core.Interfaces.{EventsStore}
use brignext.Core.Mongo.EventDocs.{
  EventDoc, EventFilter, EventUpdate, is_, in_, not_exists, deleted_at, no_criteria, encode, decode,
  set_canceled, set_deleted,
}

-- `time.Now`, `Time.String` and `time.Parse` of the layout that `String` prints.
pub record Clock (W : Type 0) : Type 0 where
  pub now : M W Time
  pub format : Time → String
  pub parse : String → Option Time

-- Reading the clock does not touch the documents.
pub record ClockLaws {W : Type 0} (clock : Clock W) (docs : W → List EventDoc) : Type 0 where
  pub now_law : (w : W) → (t : Time) × ((clock.now w).0 ≡ ok t) × (docs (clock.now w).1 ≡ docs w)

-- A list that is not continued.
abbrev pub whole : List Event → EventList
whole items = record { meta = record { continue_ = ""; remaining_item_count = 0 }; items = items }

module _ {W : Type 0} (collection : Collection W EventDoc EventFilter EventUpdate)
    (clock : Clock W) where
  unfoldable pub create : Event → M W (Unit {0})
  create event = collection.insert_one (encode event)

  found : String → Option EventDoc → M W Event
  found id none = fail (err_not_found "Event" id)
  found id (some d) = pure (decode d)

  unfoldable pub get : String → M W Event
  unfolding found
  get id = do res ← collection.find_one (record no_criteria { id = some id }); found id res

  unfoldable pub get_by_hashed_worker_token : String → M W Event
  unfolding found
  get_by_hashed_worker_token hashed_worker_token = do
    res ←
        collection.find_one (record no_criteria { worker_hashed_token = some hashed_worker_token })
    found "" res

  parsed_criteria : EventFilter → Option Time → M W EventFilter
  parsed_criteria criteria none = fail (other "error parsing continue time")
  parsed_criteria criteria (some t) = pure (record criteria { created_before = some (some t) })

  -- The block on `opts.Continue`.
  continue_criteria : EventFilter → String → M W EventFilter
  continue_criteria criteria token =
      if token == "" then pure criteria else parsed_criteria criteria (clock.parse token)

  -- `events.Continue = continueTime.String()`, which panics on a nil time.
  with_continue : List Event → Option Time → ℕ → M W EventList
  with_continue items none remaining = crash
  with_continue items (some t) remaining = pure (record {
    meta = record { continue_ = clock.format t; remaining_item_count = remaining };
    items = items;
  })

  -- The block on a full page: `last` is `events.Items[opts.Limit-1]`.
  full_page : EventFilter → List Event → Option Event → M W EventList
  full_page criteria items none = crash
  full_page criteria items (some last) = do
    remaining ←
        collection.count_documents (record criteria { created_before = some last.meta.created })
    if ltb 0 remaining then with_continue items last.meta.created remaining else pure (whole items)

  unfoldable pub list : EventsSelector → ListOptions → M W EventList
  unfolding continue_criteria parsed_criteria full_page with_continue
  list selector opts = do
    criteria ←
        continue_criteria
          (record no_criteria {
            worker_status_phase = some (in_ selector.worker_phases);
            deleted = some not_exists;
            project_id = if selector.project_id == "" then none else some selector.project_id;
          })
          opts.continue_
    cur ← collection.find criteria (record { sort = created_desc; limit = opts.limit })
    let items = map decode cur
    if eqb (length items) opts.limit
        then full_page criteria items
            (if eqb opts.limit 0 then none else get_elem? items (opts.limit - 1))
        else pure (whole items)

  -- The two conditional updates after the check that the event exists.
  pub cancel_if : String → WorkerPhase → WorkerPhase → M W ℕ
  cancel_if id from to = do
    now ← clock.now
    collection.update_one
        (record no_criteria { id = some id; worker_status_phase = some (is_ from) })
        (set_canceled now to)

  -- The second update, and the conflict where neither matched.
  cancel_running : String → M W (Unit {0})
  cancel_running id = do
    matched_running ← cancel_if id WorkerPhase.running WorkerPhase.aborted
    if eqb matched_running 0 then fail (err_conflict "Event" id (already_terminal id)) else pure tt

  cancel_event : String → M W (Unit {0})
  cancel_event id = do
    matched_pending ← cancel_if id WorkerPhase.pending WorkerPhase.canceled
    if eqb matched_pending 1 then pure tt else cancel_running id

  unfoldable pub cancel : String → M W (Unit {0})
  unfolding cancel_if cancel_running cancel_event
  cancel id = do get id; cancel_event id

  cancel_many_if : Bool → EventFilter → Time → WorkerPhase → WorkerPhase → M W (Unit {0})
  cancel_many_if false criteria t from to = pure tt
  cancel_many_if true criteria t from to =
      collection.update_many (record criteria { worker_status_phase = some (is_ from) })
        (set_canceled t to)

  -- The updates for the phases asked for, and the events that bear the time of this cancellation.
  cancel_asked : Bool → Bool → String → M W EventList
  cancel_asked cancel_pending cancel_running project_id = do
    cancellation_time ← clock.now
    let criteria = record no_criteria { project_id = some project_id }
    cancel_many_if cancel_pending criteria cancellation_time WorkerPhase.pending
        WorkerPhase.canceled
    cancel_many_if cancel_running criteria cancellation_time WorkerPhase.running WorkerPhase.aborted
    cur ←
        collection.find (record criteria { canceled = some cancellation_time })
          (record { sort = created_desc; limit = 0 })
    pure (whole (map decode cur))

  unfoldable pub cancel_many : EventsSelector → M W EventList
  unfolding cancel_many_if cancel_asked
  cancel_many selector =
      let cancel_pending = any (same_phase WorkerPhase.pending) selector.worker_phases in
      let cancel_running = any (same_phase WorkerPhase.running) selector.worker_phases in
      if not cancel_pending && not cancel_running
      then pure (whole [])
      else cancel_asked cancel_pending cancel_running selector.project_id

  unfoldable pub delete : String → M W (Unit {0})
  delete id = do
    deleted_count ← collection.delete_one (record no_criteria { id = some id })
    if eqb deleted_count 1 then pure tt else fail (err_not_found "Event" id)

  unfoldable pub delete_many : EventsSelector → M W EventList
  delete_many selector = do
    deleted_time ← clock.now
    let criteria = record no_criteria {
      project_id = some selector.project_id;
      worker_status_phase = some (in_ selector.worker_phases);
      deleted = some not_exists;
    }
    collection.update_many criteria (set_deleted deleted_time)
    let logically_deleted = record criteria { deleted = some (deleted_at deleted_time) }
    cur ← collection.find logically_deleted (record { sort = created_desc; limit = 0 })
    collection.delete_many logically_deleted
    pure (whole (map decode cur))

  -- The store that `NewEventsStore` makes.
  unfoldable pub events_store : EventsStore W
  events_store = record {
    create = create;
    list = list;
    get = get;
    get_by_hashed_worker_token = get_by_hashed_worker_token;
    cancel = cancel;
    cancel_many = cancel_many;
    delete = delete;
    delete_many = delete_many;
  }
