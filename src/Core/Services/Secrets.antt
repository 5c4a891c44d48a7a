-- ===== src/Core/Services/Secrets.antt =====
-- v2/apiserver/internal/core/secrets.go: the service of a project's secrets.
use brignext.Base.{String, List, [], ◌∷◌, eqb, if◌then◌else◌}
use brignext.Effect.{M, ◌>>=◌, ◌>>◌}
use brignext.Authx.Roles.{AuthorizeFn, role_reader, role_project_admin}
use brignext.Core.Types.{Project, ListMeta, ListOptions}
use brignext.Core.Interfaces.{ProjectsStore}

pub record Secret : Type 0 where
  pub key : String
  pub value : String

pub record SecretList : Type 0 where
  pub meta : ListMeta
  pub items : List Secret

pub record SecretsStore (W : Type 0) : Type 0 where
  pub list : Project → ListOptions → M W SecretList
  pub set : Project → Secret → M W (Unit {0})
  pub unset : Project → String → M W (Unit {0})

pub record SecretsService (W : Type 0) : Type 0 where
  pub authorize : AuthorizeFn W
  pub projects_store : ProjectsStore W
  pub secrets_store : SecretsStore W

module _ {W : Type 0} (s : SecretsService W) where
  unfoldable pub list : String → ListOptions → M W SecretList
  list project_id opts = do
    s.authorize (role_reader ∷ [])
    project ← s.projects_store.get project_id
    s.secrets_store.list project (if eqb opts.limit 0 then record opts { limit = 20 } else opts)

  unfoldable pub set : String → Secret → M W (Unit {0})
  set project_id secret = do
    s.authorize (role_project_admin project_id ∷ [])
    project ← s.projects_store.get project_id
    s.secrets_store.set project secret

  unfoldable pub unset : String → String → M W (Unit {0})
  unset project_id key = do
    s.authorize (role_project_admin project_id ∷ [])
    project ← s.projects_store.get project_id
    s.secrets_store.unset project key
