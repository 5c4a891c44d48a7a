-- ===== src/Tests/Creation.antt =====
-- Creating an event to which two projects are subscribed.
use brignext.Base.{true, ◌≡◌, refl, String, none, some, [], ◌∷◌, subst}
use brignext.Errors.{ok}
use brignext.Effect.{pure}
use brignext.Authx.Roles.{always_authorize}
use brignext.Authx.Principals.{root}
use brignext.Core.Types.{
  Event, EventGitConfig, EventList, WorkerSpec, Project, ProjectList, WorkerPhase,
}
use brignext.Core.Mongo.EventsStore.{events_store}
use brignext.Core.Services.Events.{EventsService, create, worker_spec_for, no_meta}
use brignext.Core.Services.Events.Created.{AreCreated, create-AreCreated}
use brignext.Core.Services.Events.Defaults.{IsFirstOf, IsGitFor, worker_spec_for_lem}
use brignext.Core.Services.Events.Endings.{AreNamed, CreateLaws}
use brignext.Tests.Memory.{Documents, memory}
use brignext.Tests.Samples.{stored, event_in, worker_spec}
use brignext.Tests.Store.{clock}
use brignext.Tests.Services.{substrate, no_projects}

abbrev pub project : String → Project
project id = record {
  meta = record { id = id; created = some 1 };
  description = "";
  spec = record {
    event_subscriptions = record { source = "github"; types = "push" ∷ []; labels = [] } ∷ [];
    worker_template = worker_spec;
  };
  kubernetes = none;
}

abbrev subscribers : ProjectList
subscribers = record {
  meta = record { continue_ = ""; remaining_item_count = 0 };
  items = project "blog" ∷ project "shop" ∷ [];
}

abbrev pub events_service : EventsService Documents
events_service = record {
  authorize = always_authorize;
  projects_store = record no_projects {
    list_subscribers = λ event. pure subscribers;
    get = λ id. pure (project id);
  };
  events_store = events_store memory clock;
  substrate = substrate;
  system = record {
    now = pure 50;
    new_uuid = pure "e5";
    new_token = λ n. pure "token";
    short_sha = λ salt. λ text. text;
    principal = pure root;
  };
}

events_service-CreateLaws : CreateLaws events_service
unfolding always_authorize events_store brignext.Core.Mongo.EventsStore.create
events_service-CreateLaws = record {
  authorize_law = λ roles. λ w. λ p. absurd (cc p);
  list_subscribers_law = λ event. λ w. λ p. absurd (cc p);
  named_law = λ event.
      λ w. λ l. λ h. subst (λ (x : ProjectList). AreNamed x.items) (listed l h) (refl, (refl, tt));
  get_law = λ id. λ w. λ p. absurd (cc p);
  now_law = λ w. λ p. absurd (cc p);
  new_uuid_law = λ w. λ p. absurd (cc p);
  new_token_law = λ n. λ w. λ p. absurd (cc p);
  pre_create_event_law = λ project. λ event. λ w. λ p. absurd (cc p);
  create_law = λ event. λ w. λ p. absurd (cc p);
  schedule_worker_law = λ project. λ event. λ w. λ p. absurd (cc p);
}
  where
    listed : (l : ProjectList) → ok subscribers ≡ ok l → subscribers ≡ l
    listed l h = cc h

abbrev push : Event
push = event_in "" 0 "" WorkerPhase.unset

abbrev pushed : EventGitConfig
pushed = record { clone_url = ""; commit = "abc"; ref = "" }

abbrev from_template : WorkerSpec
from_template = record worker_spec {
  git = some (record {
    clone_url = "https://git.example/blog";
    commit = "";
    ref = "main";
    init_submodules = true;
  });
}

worker_spec_example :
    let s = worker_spec_for (some pushed) from_template in
    IsFirstOf from_template.workspace_size "10Gi" s.workspace_size
    × IsFirstOf from_template.log_level "INFO" s.log_level
    × IsFirstOf from_template.config_files_directory "." s.config_files_directory
    × IsGitFor (some pushed) from_template.git s.git
    × (from_template ≡ record s {
      workspace_size = from_template.workspace_size;
      git = from_template.git;
      log_level = from_template.log_level;
      config_files_directory = from_template.config_files_directory;
    })
worker_spec_example = worker_spec_for_lem (some pushed) from_template

-- The event that is made of it for a project.
abbrev pushed_to : String → Event
pushed_to project_id = record push {
  meta = record { id = "e5"; created = some 50 };
  project_id = project_id;
  worker = record {
    spec = worker_spec_for push.git worker_spec;
    status = record { started = none; ended = none; phase = WorkerPhase.pending };
    token = "token";
    hashed_token = "token";
    jobs = [];
  };
}

abbrev pushed_to_both : EventList
pushed_to_both = record { meta = no_meta; items = pushed_to "blog" ∷ pushed_to "shop" ∷ [] }

both_pushed : (create events_service 2 push stored).0 ≡ ok pushed_to_both
unfolding create always_authorize events_store brignext.Core.Mongo.EventsStore.create
both_pushed = refl

created_example : AreCreated events_service push pushed_to_both.items
created_example =
    create-AreCreated events_service (CreateLaws.named_law events_service-CreateLaws) 0 push stored
      pushed_to_both both_pushed
