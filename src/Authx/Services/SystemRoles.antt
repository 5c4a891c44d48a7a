-- ===== src/Authx/Services/SystemRoles.antt =====
-- v2/apiserver/internal/system/roles.go: the service of roles of the system, and what it shares with
-- the service of roles of a project: the principal that an assignment names has to exist.
use brignext.Base.{String, [], ◌∷◌, ◌==◌, if◌then◌else◌}
use brignext.Effect.{M, pure, ◌>>=◌, ◌>>◌}
use brignext.Authx.Roles.{RoleName, RoleType, Role, AuthorizeFn, role_admin}
use brignext.Authx.Principals.{PrincipalType, service_account, user}
use brignext.Authx.Interfaces.{UsersStore, ServiceAccountsStore}
use brignext.Core.Interfaces.{RolesStore}

-- The type of the principal is the text of a request.
pub record RoleAssignment : Type 0 where
  pub role : RoleName
  pub scope : String
  pub principal_type : String
  pub principal_id : String

pub record RolesService (W : Type 0) : Type 0 where
  pub authorize : AuthorizeFn W
  pub users_store : UsersStore W
  pub service_accounts_store : ServiceAccountsStore W
  pub roles_store : RolesStore W

module _ {W : Type 0} where
  -- The check that the principal exists, and what follows for its type. For another type both
  -- services return with neither an error nor an effect.
  unfoldable pub for_principal :
      UsersStore W
      → ServiceAccountsStore W
      → RoleAssignment
      → (PrincipalType → M W (Unit {0}))
      → M W (Unit {0})
  for_principal users_store service_accounts_store role_assignment change =
      if role_assignment.principal_type == "USER"
      then users_store.get role_assignment.principal_id >>= (λ _. change user)
      else if role_assignment.principal_type == "SERVICE_ACCOUNT"
      then service_accounts_store.get role_assignment.principal_id >>= (λ _. change service_account)
      else pure tt

-- The role of the system that an assignment names.
unfoldable pub system_role_of : RoleAssignment → Role
system_role_of role_assignment = record {
  type_ = RoleType.system;
  name = role_assignment.role;
  scope = role_assignment.scope;
}

module _ {W : Type 0} (s : RolesService W) where
  unfoldable pub grant : RoleAssignment → M W (Unit {0})
  unfolding for_principal system_role_of
  grant role_assignment = do
    s.authorize (role_admin ∷ [])
    for_principal s.users_store s.service_accounts_store role_assignment λ principal_type.
        s.roles_store.grant principal_type role_assignment.principal_id
          (system_role_of role_assignment ∷ [])

  unfoldable pub revoke : RoleAssignment → M W (Unit {0})
  unfolding for_principal system_role_of
  revoke role_assignment = do
    s.authorize (role_admin ∷ [])
    for_principal s.users_store s.service_accounts_store role_assignment λ principal_type.
        s.roles_store.revoke principal_type role_assignment.principal_id
          (system_role_of role_assignment ∷ [])
