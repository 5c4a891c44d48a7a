-- ===== src/Core/Services/Events/Subscribers.antt =====
-- The events that `Create` of v2/apiserver/internal/core/events.go makes: one for an event with a
-- project, and one for each subscribed project for an event without.
use brignext.Base.{◌≡◌, true, false, ◌⊎◌, some, length, ◌==◌}
use brignext.Errors.{ok}
use brignext.Core.Types.{Time, Event, EventList, ProjectList}
use brignext.Core.Services.Events.{EventsService}
use brignext.Core.Services.Events.Endings.{CreateLaws}

module _ {W : Type 0} (e : EventsService W) (laws : CreateLaws e) where
  -- The event as it is passed on.
  abbrev pub dated : Event → Time → Event
  dated event now = record event { meta = record event.meta { created = some now } }

  -- What a result of `Create` holds: one event for an event with a project, and otherwise one for
  -- each project that the store listed.
  abbrev pub IsMade : Event → EventList → Type 0
  IsMade event l =
      ((event.project_id == "") ≡ false) × (length l.items ≡ 1)
      ⊎ ((event.project_id == "") ≡ true)
        × ((now : Time) × (w : W) × (projects : ProjectList) × ((e.projects_store.list_subscribers
                (dated event now) w).0
              ≡ ok projects)
            × (length l.items ≡ length projects.items))
