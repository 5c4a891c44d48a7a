-- ===== src/Core/Subscribed.antt =====
-- An event without a project and the projects that are subscribed to it: `Create` of
-- v2/apiserver/internal/core/events.go over `ListSubscribers` of
-- v2/apiserver/internal/core/mongodb/projects_store.go.
use mathlib.Core.List.{Perm}
use brignext.Base.{ℕ, suc, ◌≡◌, ◌↔◌, Bool, true, inl, inr, some, List, select, ◌==◌}
use brignext.Errors.{ok}
use brignext.Mongo.{Collection, Laws}
use brignext.Core.Types.{Event, EventList, Project, ProjectList}
use brignext.Core.Services.Events.{EventsService, create}
use brignext.Core.Services.Events.Endings.{AreNamed}
use brignext.Core.Services.Events.Created.{AreCreatedFor, create-AreCreated}
use brignext.Core.Mongo.EventDocs.{EventDoc, EventFilter, EventUpdate}
use brignext.Core.Mongo.EventsStore.{Clock}
use brignext.Core.Mongo.ProjectDocs.{ProjectDoc, ProjectFilter, ProjectUpdate, project_semantics}
use brignext.Core.Mongo.ProjectsStore.{list_subscribers}
use brignext.Core.Mongo.ProjectsStore.Subscribers.{IsSubscribed, projects_in, list_subscribers_lem}

module _ {W : Type 0} (e : EventsService W)
    (collection : Collection W ProjectDoc ProjectFilter ProjectUpdate)
    (events_collection : Collection W EventDoc EventFilter EventUpdate) (clock : Clock W)
    (docs : W → List ProjectDoc) (laws : Laws collection docs project_semantics)
    (over_mongo : (event : Event)
      → e.projects_store.list_subscribers event
        ≡ list_subscribers collection events_collection clock event)
    (named_law : (event : Event) (w : W) (l : ProjectList)
      → (e.projects_store.list_subscribers event w).0 ≡ ok l
      → AreNamed l.items) where
  -- Where `Create` succeeds for an event without a project, over the store of MongoDB, it returns
  -- one event for each project that is subscribed to the event in the database, as it is when the
  -- projects are listed, and none for any other project; each is made for its project, stored and
  -- then scheduled. Listed projects are taken to have identifiers.
  pub create-list_subscribers :
      (fuel : ℕ) (event : Event) (w : W) (l : EventList)
      → (event.project_id == "") ≡ true
      → (create e (suc (suc fuel)) event w).0 ≡ ok l
      → (w' : W) × (projects : List Project) × AreCreatedFor e event projects l.items
        × ((test : Project → Bool) × ((p : Project) → (test p ≡ true) ↔ IsSubscribed event p)
            × Perm projects
                (select test (projects_in collection events_collection clock docs laws w')))
  create-list_subscribers fuel event w l y h =
      elim (create-AreCreated e named_law fuel event w l h) [
        | inl (n, _) ↦ absurd (cc (y, n))
        | inr (_, (now, w', projects, listed, created)) ↦
            let event' = record event { meta = record event.meta { created = some now } } in
            let (_, subscribed) =
              list_subscribers_lem collection events_collection clock docs laws event' w' projects
                (rw (over_mongo event') at listed) in
            (w', projects.items, created, subscribed)
      ]
