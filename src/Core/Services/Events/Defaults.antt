-- ===== src/Core/Services/Events/Defaults.antt =====
-- What the worker of an event is derived to be: the specification that `Create` of
-- v2/apiserver/internal/core/events.go stores.
use brignext.Base.{
  ◌≡◌, refl, String, true, false, ◌⊎◌, inl, inr, Option, none, some, Bool-cases, eq_iff, ◌==◌,
  if◌then◌else◌,
}
use brignext.Core.Types.{EventGitConfig, WorkerGitConfig, WorkerSpec}
use brignext.Core.Services.Events.{worker_spec_for}
use brignext.Core.Services.Events.WorkerSpecs.{zero_git, override_git, default_ref}

-- The first text that is not blank, or the last one.
abbrev pub IsFirstOf : String → String → String → Type 0
IsFirstOf first last s = ((first == "") ≡ false) × (s ≡ first) ⊎ ((first == "") ≡ true) × (s ≡ last)

-- The ref, by that of the event or else of the template: it is kept; or there is none, and it is
-- "master" exactly for a repository that is named with no commit.
abbrev pub IsRefFor : String → WorkerGitConfig → Type 0
IsRefFor ref g =
    ((ref == "") ≡ false) × (g.ref ≡ ref)
    ⊎ ((ref == "") ≡ true)
      × ((g.clone_url == "") ≡ false)
      × ((g.commit == "") ≡ true)
      × (g.ref ≡ "master")
    ⊎ ((ref == "") ≡ true)
      × (((g.clone_url == "") ≡ true) ⊎ ((g.commit == "") ≡ false))
      × (g.ref ≡ "")

-- The repository: each text is that of the event, or else that of the template.
abbrev pub IsGitOf : EventGitConfig → WorkerGitConfig → WorkerGitConfig → Type 0
IsGitOf event template g =
    IsFirstOf event.clone_url template.clone_url g.clone_url
    × IsFirstOf event.commit template.commit g.commit
    × ((ref : String) × IsFirstOf event.ref template.ref ref × IsRefFor ref g)
    × (g.init_submodules ≡ template.init_submodules)

abbrev pub no_details : EventGitConfig
no_details = record { clone_url = ""; commit = ""; ref = "" }

-- There is a repository exactly where the event or the template has one.
abbrev pub IsGitFor :
    Option EventGitConfig → Option WorkerGitConfig → Option WorkerGitConfig → Type 0
IsGitFor none none o = o ≡ none
IsGitFor none (some t) o = (g : WorkerGitConfig) × (o ≡ some g) × IsGitOf no_details t g
IsGitFor (some e) none o = (g : WorkerGitConfig) × (o ≡ some g) × IsGitOf e zero_git g
IsGitFor (some e) (some t) o = (g : WorkerGitConfig) × (o ≡ some g) × IsGitOf e t g

first_of : (new old : String) → IsFirstOf new old (if new == "" then old else new)
first_of new old = elim (Bool-cases (new == "")) [
  | inl y ↦ rw y (inr (refl, refl))
  | inr n ↦ rw n (inl (refl, refl))
]

-- A repository with the texts of `g`, in which only the ref is defaulted.
default_ref_lem :
    (g : WorkerGitConfig)
    → (h : WorkerGitConfig) × (default_ref (some g) ≡ some h)
      × (h.clone_url ≡ g.clone_url)
      × (h.commit ≡ g.commit)
      × IsRefFor g.ref h
      × (h.init_submodules ≡ g.init_submodules)
unfolding default_ref
default_ref_lem g = elim (Bool-cases (g.clone_url == "")) [
  | inl y ↦ elim (Bool-cases (g.ref == "")) [
    | inl r ↦ (g, rw y refl, refl, refl, inr (inr (r, inl y, (eq_iff g.ref "").0 r)), refl)
    | inr r ↦ (g, rw y refl, refl, refl, inl (r, refl), refl)
  ]
  | inr n ↦ elim (Bool-cases (g.commit == "")) [
    | inr m ↦ elim (Bool-cases (g.ref == "")) [
      | inl r ↦ (g, rw (n, m) refl, refl, refl, inr (inr (r, inr m, (eq_iff g.ref "").0 r)), refl)
      | inr r ↦ (g, rw (n, m) refl, refl, refl, inl (r, refl), refl)
    ]
    | inl c ↦ elim (Bool-cases (g.ref == "")) [
      | inl r ↦ (
        record g { ref = "master" },
        rw (n, c, r) refl,
        refl,
        refl,
        inr (inl (r, n, c, refl)),
        refl,
      )
      | inr r ↦ (g, rw (n, c, r) refl, refl, refl, inl (r, refl), refl)
    ]
  ]
]

overridden :
    (e : EventGitConfig) (t : WorkerGitConfig)
    → (g : WorkerGitConfig) × (default_ref (
          some (record t {
            clone_url = if e.clone_url == "" then t.clone_url else e.clone_url;
            commit = if e.commit == "" then t.commit else e.commit;
            ref = if e.ref == "" then t.ref else e.ref;
          }))
        ≡ some g)
      × IsGitOf e t g
overridden e t =
    let ref = if e.ref == "" then t.ref else e.ref in
    let (g, made, url, commit, is_ref, submodules) = default_ref_lem (record t {
      clone_url = if e.clone_url == "" then t.clone_url else e.clone_url;
      commit = if e.commit == "" then t.commit else e.commit;
      ref = ref;
    }) in
    (
      g,
      made,
      (
        rw url (first_of e.clone_url t.clone_url),
        rw commit (first_of e.commit t.commit),
        (ref, first_of e.ref t.ref, is_ref),
        submodules,
      ),
    )

git-IsGitFor :
    (event : Option EventGitConfig) (template : Option WorkerGitConfig)
    → IsGitFor event template (default_ref (override_git event template))
unfolding override_git
git-IsGitFor none none = unfold default_ref in refl
git-IsGitFor none (some t) = overridden no_details t
git-IsGitFor (some e) none = overridden e zero_git
git-IsGitFor (some e) (some t) = overridden e t

-- The worker of an event has what its project's template says, but for four fields. The workspace
-- size, the log level and the directory of configuration files are those of the template, or
-- "10Gi", "INFO" and "." where these are blank. There is a repository exactly where the event or
-- the template has one; its clone URL, its commit and its ref are those of the event, or those of
-- the template where these are blank; and where there is no ref it is "master" for a repository
-- that is named with no commit, and blank otherwise.
pub worker_spec_for_lem :
    (git : Option EventGitConfig) (template : WorkerSpec)
    → let s = worker_spec_for git template in
      IsFirstOf template.workspace_size "10Gi" s.workspace_size
      × IsFirstOf template.log_level "INFO" s.log_level
      × IsFirstOf template.config_files_directory "." s.config_files_directory
      × IsGitFor git template.git s.git
      × (template ≡ record s {
        workspace_size = template.workspace_size;
        git = template.git;
        log_level = template.log_level;
        config_files_directory = template.config_files_directory;
      })
unfolding worker_spec_for
worker_spec_for_lem git template = (
  first_of template.workspace_size "10Gi",
  first_of template.log_level "INFO",
  first_of template.config_files_directory ".",
  git-IsGitFor git template.git,
  refl,
)
