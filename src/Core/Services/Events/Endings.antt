-- ===== src/Core/Services/Events/Endings.antt =====
-- When the calls end that `Create` of v2/apiserver/internal/core/events.go makes.
use brignext.Base.{
  ℕ, suc, ◌≡◌, ◌≢◌, refl, String, false, inl, inr, some, List, [], ◌∷◌, Bool-cases, ◌==◌,
}
use brignext.Errors.{Outcome, ok, err, panic, out_of_fuel}
use brignext.Authx.Roles.{Role}
use brignext.Effect.{M, pure, ◌>>=◌}
use brignext.Core.Types.{Event, Project, ProjectList}
use brignext.Core.Services.Events.{
  EventsService, create, create_in_project, create_each, first_item, authorize_create, new_worker,
}

-- The call ends within the fuel.
abbrev pub Ends : {W A : Type 0} → M W A → Type 0
Ends {W} m = (w : W) → (m w).0 ≢ out_of_fuel

module _ {W A B : Type 0} where
  pub bind-end :
      (m : M W A) (f : A → M W B) (w : W)
      → (m w).0 ≢ out_of_fuel
      → ((a : A) → (m w).0 ≡ ok a → (f a (m w).1).0 ≢ out_of_fuel)
      → ((m >>= f) w).0 ≢ out_of_fuel
  bind-end m f w hm hf = go (m w).0 refl
    where
      go : (r : Outcome A) → (m w).0 ≡ r → ((m >>= f) w).0 ≢ out_of_fuel
      go (ok a) e = rw e (hf a e)
      go (err x) e = rw e (λ p. absurd (cc p))
      go panic e = rw e (λ p. absurd (cc p))
      go out_of_fuel e = absurd (hm e)

  pub bind-Ends : (m : M W A) (f : A → M W B) → Ends m → ((a : A) → Ends (f a)) → Ends (m >>= f)
  bind-Ends m f hm hf w = bind-end m f w (hm w) (λ a. λ e. hf a (m w).1)

-- The projects have identifiers.
abbrev pub AreNamed : List Project → Type 0
AreNamed [] = Unit
AreNamed (p ∷ ps) = ((p.meta.id == "") ≡ false) × AreNamed ps

-- Every call that `Create` makes of the components under it ends, and the projects that the store
-- lists have identifiers.
pub record CreateLaws {W : Type 0} (e : EventsService W) : Type 0 where
  pub authorize_law : (roles : List Role) → Ends (e.authorize roles)
  pub list_subscribers_law : (event : Event) → Ends (e.projects_store.list_subscribers event)
  pub named_law :
      (event : Event) (w : W) (l : ProjectList)
      → (e.projects_store.list_subscribers event w).0 ≡ ok l
      → AreNamed l.items
  pub get_law : (id : String) → Ends (e.projects_store.get id)
  pub now_law : Ends e.system.now
  pub new_uuid_law : Ends e.system.new_uuid
  pub new_token_law : (n : ℕ) → Ends (e.system.new_token n)
  pub pre_create_event_law :
      (project : Project) (event : Event) → Ends (e.substrate.pre_create_event project event)
  pub create_law : (event : Event) → Ends (e.events_store.create event)
  pub schedule_worker_law :
      (project : Project) (event : Event) → Ends (e.substrate.schedule_worker project event)

pub pure-Ends : {W A : Type 0} (a : A) → Ends {W = W} (pure a)
pure-Ends a w p = absurd (cc p)

module _ {W : Type 0} (e : EventsService W) (laws : CreateLaws e) where
  pub authorize_create-Ends : (event : Event) → Ends (authorize_create e event)
  unfolding authorize_create
  authorize_create-Ends event = elim (Bool-cases (event.project_id == "")) [
    | inl x ↦ rw x (laws.authorize_law _)
    | inr x ↦ rw x (laws.authorize_law _)
  ]

  pub create_in_project-Ends : (event : Event) → Ends (create_in_project e event)
  unfolding create_in_project new_worker
  create_in_project-Ends event = bind-Ends _ _ (laws.get_law event.project_id) λ project.
      bind-Ends _ _ laws.new_uuid_law λ id.
        bind-Ends _ _ (bind-Ends _ _ (laws.new_token_law 256) λ token. pure-Ends _) λ worker.
          bind-Ends _ _ (laws.pre_create_event_law _ _) λ event'.
            bind-Ends _ _ (laws.create_law event')
              λ u. bind-Ends _ _ (laws.schedule_worker_law _ event') λ v. pure-Ends _

  create_named-Ends :
      (fuel : ℕ) (event : Event)
      → (event.project_id == "") ≡ false
      → Ends (create e (suc fuel) event)
  unfolding create
  create_named-Ends fuel event h = bind-Ends _ _ (authorize_create-Ends event) λ u.
      bind-Ends _ _ laws.now_law λ now.
        rw h (
          create_in_project-Ends (record event { meta = record event.meta { created = some now } }))

  first_item-Ends : (events : List Event) → Ends (first_item e events)
  unfolding first_item
  first_item-Ends [] = λ w. λ p. absurd (cc p)
  first_item-Ends (event ∷ events) = pure-Ends event

  pub create_each-Ends :
      (fuel : ℕ) (event : Event) (projects : List Project)
      → AreNamed projects
      → Ends (create_each e (create e (suc fuel)) event projects)
  unfolding create_each
  create_each-Ends fuel event [] n = pure-Ends []
  create_each-Ends fuel event (project ∷ projects) n =
      bind-Ends _ _ (create_named-Ends fuel _ n.0) λ made.
        bind-Ends _ _ (first_item-Ends made.items)
          λ item. bind-Ends _ _ (create_each-Ends fuel event projects n.1) λ items. pure-Ends _
