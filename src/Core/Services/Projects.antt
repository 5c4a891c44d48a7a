-- ===== src/Core/Services/Projects.antt =====
-- v2/apiserver/internal/core/projects.go: the projects service.
use brignext.Base.{String, some, [], ◌∷◌, eqb, if◌then◌else◌}
use brignext.Effect.{M, pure, crash, ◌>>=◌, ◌>>◌}
use brignext.Authx.Roles.{
  AuthorizeFn, role_project_creator, role_project_admin, role_project_developer, role_project_user,
  role_reader,
}
use brignext.Authx.Principals.{Principal, PrincipalType, user_principal, service_account_principal}
use brignext.Core.Types.{Project, ProjectList, ListOptions}
use brignext.Core.Interfaces.{ProjectsStore, RolesStore, Substrate, System}

pub record ProjectsService (W : Type 0) : Type 0 where
  pub authorize : AuthorizeFn W
  pub projects_store : ProjectsStore W
  pub roles_store : RolesStore W
  pub substrate : Substrate W
  pub system : System W

module _ {W : Type 0} (p : ProjectsService W) where
  -- "Assign roles to the principal who created the project". For a service account the source
  -- runs `serviceAccount.ID = user.ID`, where `user` is nil: it panics.
  assign_roles : Project → Principal → M W Project
  assign_roles project (user_principal user) = do
    p.roles_store.grant PrincipalType.user user.id (
        role_project_admin project.meta.id
        ∷ role_project_developer project.meta.id
        ∷ role_project_user project.meta.id
        ∷ [])
    pure project
  assign_roles project (service_account_principal service_account) = crash
  assign_roles project _ = pure project

  unfoldable pub create : Project → M W Project
  unfolding assign_roles
  create project = do
    p.authorize (role_project_creator ∷ [])
    now ← p.system.now
    project' ←
        p.substrate.pre_create_project
          (record project { meta = record project.meta { created = some now } })
    p.projects_store.create project'
    p.substrate.create_project project'
    principal ← p.system.principal
    assign_roles project' principal

  unfoldable pub list : ListOptions → M W ProjectList
  list opts = do
    p.authorize (role_reader ∷ [])
    p.projects_store.list (if eqb opts.limit 0 then record opts { limit = 20 } else opts)

  unfoldable pub get : String → M W Project
  get id = do p.authorize (role_reader ∷ []); p.projects_store.get id

  unfoldable pub update : Project → M W Project
  update updated_project = do
    p.authorize (role_project_developer updated_project.meta.id ∷ [])
    old_project ← p.projects_store.get updated_project.meta.id
    updated_project' ← p.substrate.pre_update_project old_project updated_project
    p.projects_store.update updated_project'
    pure updated_project'

  unfoldable pub delete : String → M W (Unit {0})
  delete id = do
    p.authorize (role_project_admin id ∷ [])
    project ← p.projects_store.get id
    p.projects_store.delete id
    p.substrate.delete_project project
