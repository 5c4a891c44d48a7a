-- ===== src/Core/Services/Events/Created.antt =====
-- What `Create` of v2/apiserver/internal/core/events.go has done for each event that it returns.
use brignext.Base.{
  ℕ, suc, if◌then◌else◌, ◌≡◌, refl, subst, String, Bool, true, false, ◌⊎◌, inl, inr, some, none,
  List, [], ◌∷◌, ◌==◌,
}
use brignext.Errors.{ok}
use brignext.Effect.{M, pure, ◌>>=◌}
use brignext.Effect.Results.{bind-ok, ok-injective}
use brignext.Core.Types.{Event, EventList, Project, ProjectList, Worker, WorkerPhase, Time}
use brignext.Core.Services.Events.{
  EventsService, create, create_in_project, create_each, first_item, authorize_create, new_worker,
  worker_spec_for, with_spec_git, no_meta,
}
use brignext.Core.Services.Events.Endings.{AreNamed}

module _ {W : Type 0} (e : EventsService W) where
  -- The event as it is passed on to the substrate, for a project.
  abbrev pub event_for : Event → String → Time → String → Worker → Event
  event_for event project_id now id worker = record event {
    meta = record { id = id; created = some now };
    project_id = project_id;
    worker = worker;
  }

  -- The event was made for this project, which was read: with a pending worker whose specification
  -- comes from that of the project, and prepared by the substrate; then it was stored, and after
  -- that its worker was scheduled.
  abbrev pub IsCreatedFor : Event → String → Event → Type 0
  IsCreatedFor event project_id item =
      (project : Project) × (now : Time) × (id : String) × (worker : Worker) × (w₀ : W) × (w : W)
      × ((e.projects_store.get project_id w₀).0 ≡ ok project)
      × (worker.status ≡ record { started = none; ended = none; phase = WorkerPhase.pending })
      × (worker.spec ≡ worker_spec_for event.git project.spec.worker_template)
      × (let project' = with_spec_git project worker.spec.git in
          let prepare =
            e.substrate.pre_create_event project' (event_for event project_id now id worker) in
          let w₁ = (prepare w).1 in
          ((prepare w).0 ≡ ok item)
          × ((e.events_store.create item w₁).0 ≡ ok tt)
          × ((e.substrate.schedule_worker project' item (e.events_store.create item w₁).1).0
              ≡ ok tt))

  abbrev pub AreCreatedFor : Event → List Project → List Event → Type 0
  AreCreatedFor event [] [] = Unit
  AreCreatedFor event (p ∷ ps) (item ∷ items) =
      IsCreatedFor event p.meta.id item × AreCreatedFor event ps items
  AreCreatedFor event _ _ = ⊥

  create_in_project-IsCreatedFor :
      (event : Event) (now : Time) (w : W) (l : EventList)
      → (create_in_project e (record event { meta = record event.meta { created = some now } }) w).0
        ≡ ok l
      → (item : Event) × (l.items ≡ item ∷ []) × IsCreatedFor event event.project_id item
  unfolding create_in_project new_worker
  create_in_project-IsCreatedFor event now w l h =
      let event₁ = record event { meta = record event.meta { created = some now } } in
      let get_project = e.projects_store.get event.project_id in
      let (project, a, h₁) = bind-ok get_project _ w l h in
      let w₁ = (get_project w).1 in
      let (id, b, h₂) = bind-ok e.system.new_uuid _ w₁ l h₁ in
      let w₂ = (e.system.new_uuid w₁).1 in
      let (worker, c, h₃) = bind-ok (new_worker e event₁ project) _ w₂ l h₂ in
      let w₃ = (new_worker e event₁ project w₂).1 in
      let (token, c₀, c₁) = bind-ok (e.system.new_token 256) _ w₂ worker c in
      let made = ok-injective c₁ in
      let project' = with_spec_git project worker.spec.git in
      let prepare =
        e.substrate.pre_create_event project' (event_for event event.project_id now id worker) in
      let (item, d, h₄) = bind-ok prepare _ w₃ l h₃ in
      let w₄ = (prepare w₃).1 in
      let (stored, f, h₅) = bind-ok (e.events_store.create item) _ w₄ l h₄ in
      let w₅ = (e.events_store.create item w₄).1 in
      let (scheduled, g, h₆) = bind-ok (e.substrate.schedule_worker project' item) _ w₅ l h₅ in
      (
        item,
        subst (λ (x : EventList). x.items ≡ item ∷ []) (ok-injective h₆) refl,
        (project, now, id, worker, w, w₃, a, rw (← made) refl, rw (← made) refl, (d, f, g)),
      )

  otherwise :
      (x y : M W EventList) (b : Bool) (w : W) (l : EventList)
      → b ≡ false
      → ((if b then x else y) w).0 ≡ ok l
      → (y w).0 ≡ ok l
  otherwise x y b w l n h = rw n at h

  -- The recursive call for an event with a project.
  create-project :
      (fuel : ℕ) (event : Event) (w : W) (l : EventList)
      → (event.project_id == "") ≡ false
      → (create e (suc fuel) event w).0 ≡ ok l
      → (item : Event) × (l.items ≡ item ∷ []) × IsCreatedFor event event.project_id item
  unfolding create
  create-project fuel event w l n h =
      let (u, a, h₁) = bind-ok (authorize_create e event) _ w l h in
      let w₁ = (authorize_create e event w).1 in
      let (now, b, h₂) = bind-ok e.system.now _ w₁ l h₁ in
      create_in_project-IsCreatedFor event now (e.system.now w₁).1 l
        (otherwise _ _ (event.project_id == "") (e.system.now w₁).1 l n h₂)

  create_each-AreCreatedFor :
      (fuel : ℕ) (event : Event) (projects : List Project) (w : W) (items : List Event)
      → AreNamed projects
      → (create_each e (create e (suc fuel)) event projects w).0 ≡ ok items
      → AreCreatedFor event projects items
  unfolding create_each first_item
  create_each-AreCreatedFor fuel event [] w items named h =
      subst (AreCreatedFor event []) (ok-injective h) tt
  create_each-AreCreatedFor fuel event (p ∷ ps) w items (name, named) h =
      let make = create e (suc fuel) (record event { project_id = p.meta.id }) in
      let (made, a, h₁) = bind-ok make _ w items h in
      let (item, one, created) =
        create-project fuel (record event { project_id = p.meta.id }) w made name a in
      let w₁ = (make w).1 in
      let (first, b, h₂) = bind-ok (first_item e made.items) _ w₁ items h₁ in
      let same : item ≡ first = ok-injective (rw one at b) in
      let w₂ = (first_item e made.items w₁).1 in
      let (rest, c, h₃) = bind-ok (create_each e (create e (suc fuel)) event ps) _ w₂ items h₂ in
      subst (AreCreatedFor event (p ∷ ps)) (ok-injective h₃)
        (rw (← same) created, create_each-AreCreatedFor fuel event ps w₂ rest named c)

  -- An event with a project, or the projects that the store listed as subscribed.
  abbrev pub AreCreated : Event → List Event → Type 0
  AreCreated event items =
      ((event.project_id == "") ≡ false)
        × ((item : Event) × (items ≡ item ∷ []) × IsCreatedFor event event.project_id item)
      ⊎ ((event.project_id == "") ≡ true)
        × ((now : Time) × (w : W) × (projects : ProjectList) × ((e.projects_store.list_subscribers
                (record event { meta = record event.meta { created = some now } }) w).0
              ≡ ok projects)
            × AreCreatedFor event projects.items items)

  module _
      (named_law : (event : Event) (w : W) (l : ProjectList)
        → (e.projects_store.list_subscribers event w).0 ≡ ok l
        → AreNamed l.items) where
    created_by :
        (fuel : ℕ) (event : Event) (now : Time) (without_project : Bool)
        → (event.project_id == "") ≡ without_project
        → (w : W) (l : EventList)
        → let event' = record event { meta = record event.meta { created = some now } } in
          ((if without_project
                then (e.projects_store.list_subscribers event' >>= λ projects.
                    create_each e (create e (suc fuel)) event' projects.items >>= λ items.
                    pure (record { meta = no_meta; items = items }))
                else create_in_project e event')
              w).0
            ≡ ok l
          → AreCreated event l.items
    created_by fuel event now false n w l h =
        inl (n, create_in_project-IsCreatedFor event now w l h)
    created_by fuel event now true y w l h =
        let event' = record event { meta = record event.meta { created = some now } } in
        let list_them = e.projects_store.list_subscribers event' in
        let (projects, c, h₁) = bind-ok list_them _ w l h in
        let w₁ = (list_them w).1 in
        let each = create_each e (create e (suc fuel)) event' projects.items in
        let (items, d, h₂) = bind-ok each _ w₁ l h₁ in
        inr (
          y,
          (
            now,
            w,
            projects,
            c,
            subst (λ (x : EventList). AreCreatedFor event projects.items x.items) (ok-injective h₂)
                (create_each-AreCreatedFor fuel event' projects.items w₁ items
                  (named_law event' w projects c) d),
          ),
        )

    -- Each event that `Create` returns was made for its project: for that of the event, or, for an
    -- event without one, for the projects that the store listed as subscribed, one for each and in
    -- their order. The project was read, and the worker is pending, with the specification that the
    -- project and the event give it; the event, as the substrate has prepared it, was stored, and
    -- after that its worker was scheduled. Listed projects are taken to have identifiers.
    pub create-AreCreated :
        (fuel : ℕ) (event : Event) (w : W) (l : EventList)
        → (create e (suc (suc fuel)) event w).0 ≡ ok l
        → AreCreated event l.items
    unfolding create
    create-AreCreated fuel event w l h =
        let (u, a, h₁) = bind-ok (authorize_create e event) _ w l h in
        let w₁ = (authorize_create e event w).1 in
        let (now, b, h₂) = bind-ok e.system.now _ w₁ l h₁ in
        created_by fuel event now (event.project_id == "") refl (e.system.now w₁).1 l h₂
