-- ===== src/Tests/Subscribers.antt =====
-- Two projects in a database that can only be read, their subscriptions, and an event from GitHub.
use brignext.Base.{
  ◌≡◌, ◌↔◌, refl, Bool, true, none, inl, inr, List, [], ◌∷◌, any, select, Bool-cases,
}
use mathlib.Core.List.{Perm}
use brignext.Errors.{ok}
use brignext.Mongo.{Collection, Laws, created_desc, id_asc, Sort}
use brignext.Core.Types.{Event, Project, WorkerPhase}
use brignext.Core.Mongo.ProjectDocs.{
  ProjectDoc, ProjectFilter, ProjectUpdate, project_semantics, project_matches,
  subscription_matches, has_member, has_label, has_all_labels, has_label_conditions,
}
use brignext.Core.Mongo.ProjectsStore.{list_subscribers, whole_projects, subscription_criteria}
use brignext.Core.Mongo.ProjectsStore.Subscribers.{IsSubscribed, list_subscribers_lem}
use brignext.Tests.Replica.{replica, replica-Laws}
use brignext.Tests.Memory.{Documents, memory}
use brignext.Tests.Samples.{stored, event_in}
use brignext.Tests.Store.{clock}
use brignext.Tests.Creation.{project, events_service}
use brignext.Tests.Services.{no_projects}
use brignext.Effect.{pure}
use brignext.Authx.Roles.{always_authorize}
use brignext.Core.Types.{EventList, ProjectList}
use brignext.Core.Services.Events.{EventsService, create, worker_spec_for, no_meta}
use brignext.Core.Services.Events.Endings.{AreNamed}
use brignext.Core.Services.Events.Created.{AreCreatedFor}
use brignext.Core.Mongo.EventsStore.{events_store}
use brignext.Core.Mongo.EventsStore
use brignext.Core.Subscribed.{create-list_subscribers}
use brignext.Base.{◌==◌, if◌then◌else◌, some, map, subst}
use brignext.Effect.Results.{ok-injective}

abbrev blog : ProjectDoc
blog = record { project = project "blog"; last_updated = none }

abbrev shop : ProjectDoc
shop = record {
  project = record (project "shop") {
    spec = record (project "shop").spec {
      event_subscriptions =
          record { source = "github"; types = "*" ∷ []; labels = ("repo", "shop") ∷ [] } ∷ [];
    };
  };
  last_updated = none;
}

abbrev two_projects : Documents → List ProjectDoc
two_projects w = blog ∷ shop ∷ []

abbrev projects : Collection Documents ProjectDoc ProjectFilter ProjectUpdate
projects = replica (blog ∷ shop ∷ []) project_semantics

ordered :
    (sort : Sort) (p : ProjectDoc → Bool)
    → project_semantics.IsOrdered sort (select p (blog ∷ shop ∷ []))
unfolding select
ordered created_desc p = tt
ordered id_asc p = elim (Bool-cases (p blog)) [
  | inl y ↦ elim (Bool-cases (p shop)) [
    | inl y' ↦ rw (y, y') (λ e. absurd (cc e), tt)
    | inr n' ↦ rw (y, n') tt
  ]
  | inr n ↦ elim (Bool-cases (p shop)) [ inl y' ↦ rw (n, y') tt | inr n' ↦ rw (n, n') tt ]
]

projects-Laws : Laws projects two_projects project_semantics
projects-Laws = replica-Laws (blog ∷ shop ∷ []) project_semantics ordered

-- An event from GitHub with a label.
abbrev push : Event
push = record (event_in "e7" 70 "" WorkerPhase.pending) {
  source = "github";
  type_ = "push";
  labels = ("repo", "shop") ∷ [];
}

shop_listed :
    (list_subscribers projects memory clock push stored).0 ≡ ok (whole_projects (shop.project ∷ []))
unfolding list_subscribers select project_matches subscription_matches subscription_criteria any
    has_member has_label has_all_labels has_label_conditions
shop_listed = refl

list_subscribers_example :
    (two_projects stored ≡ two_projects stored)
    × ((test : Project → Bool) × ((p : Project) → (test p ≡ true) ↔ IsSubscribed push p)
        × Perm (shop.project ∷ []) (select test (blog.project ∷ shop.project ∷ [])))
list_subscribers_example =
    list_subscribers_lem projects memory clock two_projects projects-Laws push stored
      (whole_projects (shop.project ∷ [])) shop_listed

-- The service over the replica.
abbrev subscribing : EventsService Documents
subscribing = record events_service {
  projects_store = record no_projects {
    list_subscribers = list_subscribers projects memory clock;
    get = λ id. pure (if id == "blog" then blog.project else shop.project);
  };
}

both_named :
    (p : ProjectDoc → Bool)
    → AreNamed (map (λ (d : ProjectDoc). d.project) (select p (blog ∷ shop ∷ [])))
unfolding select
both_named p = elim (Bool-cases (p blog)) [
  | inl y ↦ elim (Bool-cases (p shop)) [
    | inl y' ↦ rw (y, y') (refl, (refl, tt))
    | inr n' ↦ rw (y, n') (refl, tt)
  ]
  | inr n ↦ elim (Bool-cases (p shop)) [ inl y' ↦ rw (n, y') (refl, tt) | inr n' ↦ rw (n, n') tt ]
]

subscribing-AreNamed :
    (event : Event) (w : Documents) (l : ProjectList)
    → (list_subscribers projects memory clock event w).0 ≡ ok l
    → AreNamed l.items
unfolding list_subscribers
subscribing-AreNamed event w l h =
    subst (λ (x : ProjectList). AreNamed x.items) (ok-injective h) (both_named _)

abbrev shop_pushed : EventList
shop_pushed = record {
  meta = no_meta;
  items =
      record push {
        meta = record { id = "e5"; created = some 50 };
        project_id = "shop";
        worker = record {
          spec = worker_spec_for push.git shop.project.spec.worker_template;
          status = record { started = none; ended = none; phase = WorkerPhase.pending };
          token = "token";
          hashed_token = "token";
          jobs = [];
        };
      }
      ∷ [];
}

shop_is_pushed : (create subscribing 2 push stored).0 ≡ ok shop_pushed
unfolding create always_authorize events_store EventsStore.create list_subscribers select
    project_matches subscription_matches subscription_criteria any has_member has_label
    has_all_labels has_label_conditions
shop_is_pushed = refl

create-list_subscribers_example :
    (w' : Documents) × (projects : List Project) × AreCreatedFor subscribing push projects
      shop_pushed.items
    × ((test : Project → Bool) × ((p : Project) → (test p ≡ true) ↔ IsSubscribed push p)
        × Perm projects (select test (blog.project ∷ shop.project ∷ [])))
create-list_subscribers_example =
    create-list_subscribers subscribing projects memory clock two_projects projects-Laws
      (λ event. refl) subscribing-AreNamed 0 push stored shop_pushed refl shop_is_pushed
