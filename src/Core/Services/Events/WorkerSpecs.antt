-- ===== src/Core/Services/Events/WorkerSpecs.antt =====
-- How `Create` of v2/apiserver/internal/core/events.go derives an event's worker from its project's
-- template: the event's git details override the project's, and then come the defaults.
use brignext.Base.{String, false, ◌&&◌, not, Option, none, some, ◌==◌, if◌then◌else◌}
use brignext.Core.Types.{EventGitConfig, WorkerGitConfig, WorkerSpec, Project}

-- The value of an event's field, if it is not blank.
abbrev or_else : String → String → String
or_else new old = if new == "" then old else new

abbrev pub zero_git : WorkerGitConfig
zero_git = record { clone_url = ""; commit = ""; ref = ""; init_submodules = false }

abbrev git_or_zero : Option WorkerGitConfig → WorkerGitConfig
git_or_zero none = zero_git
git_or_zero (some g) = g

-- "VCS details from the event override project-level details"
unfoldable pub override_git :
    Option EventGitConfig → Option WorkerGitConfig → Option WorkerGitConfig
override_git none git = git
override_git (some g) git =
    let old = git_or_zero git in
    some (record old {
      clone_url = or_else g.clone_url old.clone_url;
      commit = or_else g.commit old.commit;
      ref = or_else g.ref old.ref;
    })

-- A repository with neither commit nor ref is taken at "master".
unfoldable pub default_ref : Option WorkerGitConfig → Option WorkerGitConfig
default_ref none = none
default_ref (some g) = some (
    if not (g.clone_url == "") && g.commit == "" && g.ref == ""
    then record g { ref = "master" }
    else g)

unfoldable pub worker_spec_for : Option EventGitConfig → WorkerSpec → WorkerSpec
unfolding override_git default_ref
worker_spec_for git template = record template {
  workspace_size = or_else template.workspace_size "10Gi";
  git = default_ref (override_git git template.git);
  log_level = or_else template.log_level "INFO";
  config_files_directory = or_else template.config_files_directory ".";
}

-- `workerSpec.Git` is the template's own pointer, so the project in hand changes with it.
unfoldable pub with_spec_git : Project → Option WorkerGitConfig → Project
with_spec_git project git = record project {
  spec = record project.spec {
    worker_template = record project.spec.worker_template {
      git = elim project.spec.worker_template.git [ none ↦ none | some g ↦ git ];
    };
  };
}
