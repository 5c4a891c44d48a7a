-- ===== src/Tests/Samples.antt =====
-- Events of two projects, one worker in each of several phases.
use brignext.Base.{ℕ, String, false, none, some, List, [], ◌∷◌}
use brignext.Core.Types.{Event, WorkerPhase, WorkerSpec, WorkerStatus, Job, JobPhase}
use brignext.Core.Mongo.EventDocs.{EventDoc, zero_job_spec}

abbrev pub worker_spec : WorkerSpec
worker_spec = record {
  container = none;
  use_workspace = false;
  workspace_size = "";
  git = none;
  kubernetes = none;
  job_policies = none;
  log_level = "INFO";
  config_files_directory = "";
  default_config_files = [];
}

abbrev pub status_in : WorkerPhase → WorkerStatus
status_in phase = record { started = none; ended = none; phase = phase }

abbrev pub pending_job : Job
pending_job = record {
  spec = zero_job_spec;
  status = some (record { started = none; ended = none; phase = JobPhase.pending });
}

abbrev pub event_in : String → ℕ → String → WorkerPhase → Event
event_in id created project_id phase = record {
  meta = record { id = id; created = some created };
  project_id = project_id;
  source = "github";
  type_ = "push";
  labels = [];
  short_title = "";
  long_title = "";
  git = none;
  payload = "";
  worker = record {
    spec = worker_spec;
    status = status_in phase;
    token = "";
    hashed_token = id;
    jobs = ("build", pending_job) ∷ [];
  };
}

abbrev doc : Event → EventDoc
doc e = record { event = e; canceled = none; deleted = none }

abbrev pub stored : List EventDoc
stored =
    doc (event_in "e1" 10 "blog" WorkerPhase.pending)
    ∷ doc (event_in "e2" 30 "blog" WorkerPhase.running)
    ∷ doc (event_in "e3" 20 "blog" WorkerPhase.succeeded)
    ∷ doc (event_in "e4" 40 "shop" WorkerPhase.pending)
    ∷ []
