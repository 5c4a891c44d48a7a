-- ===== src/Core/Services/ProjectRoles.antt =====
-- v2/apiserver/internal/core/project_roles.go: the service of roles of a project.
pub mod Granted
use brignext.Base.{String, [], ◌∷◌}
use brignext.Effect.{M, ◌>>=◌, ◌>>◌}
use brignext.Authx.Roles.{RoleType, Role, AuthorizeFn, role_project_admin}
use brignext.Authx.Interfaces.{UsersStore, ServiceAccountsStore}
use brignext.Authx.Services.SystemRoles.{RoleAssignment, for_principal}
use brignext.Core.Interfaces.{ProjectsStore, RolesStore}

pub record ProjectRolesService (W : Type 0) : Type 0 where
  pub authorize : AuthorizeFn W
  pub projects_store : ProjectsStore W
  pub users_store : UsersStore W
  pub service_accounts_store : ServiceAccountsStore W
  pub roles_store : RolesStore W

-- The scope of the assignment is not used: the scope of the role is the project.
unfoldable pub project_role_of : String → RoleAssignment → Role
project_role_of project_id role_assignment = record {
  type_ = RoleType.project;
  name = role_assignment.role;
  scope = project_id;
}

module _ {W : Type 0} (p : ProjectRolesService W) where
  unfoldable pub grant : String → RoleAssignment → M W (Unit {0})
  unfolding for_principal project_role_of
  grant project_id role_assignment = do
    p.authorize (role_project_admin project_id ∷ [])
    p.projects_store.get project_id
    for_principal p.users_store p.service_accounts_store role_assignment λ principal_type.
        p.roles_store.grant principal_type role_assignment.principal_id
          (project_role_of project_id role_assignment ∷ [])

  unfoldable pub revoke : String → RoleAssignment → M W (Unit {0})
  unfolding for_principal project_role_of
  revoke project_id role_assignment = do
    p.authorize (role_project_admin project_id ∷ [])
    p.projects_store.get project_id
    for_principal p.users_store p.service_accounts_store role_assignment λ principal_type.
        p.roles_store.revoke principal_type role_assignment.principal_id
          (project_role_of project_id role_assignment ∷ [])
