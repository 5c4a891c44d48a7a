-- ===== src/Authx/Rest/Accounts.antt =====
-- v2/apiserver/internal/authx/rest: users_endpoints.go and service_account_endpoints.go, and
-- v2/apiserver/internal/system/rest/roles_endpoints.go.
use brignext.Base.{ℕ, String, Option, none, some, ◌==◌, if◌then◌else◌}
use brignext.Authx.Roles.{RoleName}
use brignext.Authx.Principals.{User, ServiceAccount}
use brignext.Authx.Interfaces.{UserList, ServiceAccountList, Token}
use brignext.Authx.Services.Users.{UsersService}
use brignext.Authx.Services.Users
use brignext.Authx.Services.ServiceAccounts.{ServiceAccountsService}
use brignext.Authx.Services.ServiceAccounts
use brignext.Authx.Services.SystemRoles.{RoleAssignment, RolesService}
use brignext.Authx.Services.SystemRoles
use brignext.Core.Rest.Projects.{assignment_of}
use brignext.Rest.Endpoints.{status_ok}
use brignext.Rest.Requests.{
  Request, Reply, answered, nothing, query_of, var_of, serve, serve_body, serve_list, limit_of,
  invalid_limit_response,
}

-- Where a limit is given, the handler of the list of users returns in any case; it has written a
-- response only where the limit is invalid.
unfoldable pub limit_reply : {A : Type 0} → String → Option ℕ → Reply A
limit_reply limit_str none = answered (invalid_limit_response limit_str)
limit_reply limit_str (some limit) = nothing

module _ {W : Type 0} (s : UsersService W) where
  unfoldable pub list_users : Request → W → Reply UserList × W
  unfolding limit_reply
  list_users r w =
      if query_of r "limit" == ""
      then serve status_ok (Users.list s (record { continue_ = query_of r "continue"; limit = 0 }))
          w
      else (limit_reply (query_of r "limit") (limit_of (query_of r "limit")), w)

  unfoldable pub get_user : Request → W → Reply User × W
  get_user r w = serve status_ok (Users.get s (var_of r "id")) w

  unfoldable pub lock_user : Request → W → Reply (Unit {0}) × W
  lock_user r w = serve status_ok (Users.lock s (var_of r "id")) w

  unfoldable pub unlock_user : Request → W → Reply (Unit {0}) × W
  unlock_user r w = serve status_ok (Users.unlock s (var_of r "id")) w

module _ {W : Type 0} (s : ServiceAccountsService W) where
  unfoldable pub create_service_account : ServiceAccount → Request → W → Reply Token × W
  create_service_account account r w = serve_body r 201 (ServiceAccounts.create s account) w

  unfoldable pub list_service_accounts : Request → W → Reply ServiceAccountList × W
  list_service_accounts r w = serve_list r (ServiceAccounts.list s) w

  unfoldable pub get_service_account : Request → W → Reply ServiceAccount × W
  get_service_account r w = serve status_ok (ServiceAccounts.get s (var_of r "id")) w

  unfoldable pub lock_service_account : Request → W → Reply (Unit {0}) × W
  lock_service_account r w = serve status_ok (ServiceAccounts.lock s (var_of r "id")) w

  unfoldable pub unlock_service_account : Request → W → Reply Token × W
  unlock_service_account r w = serve status_ok (ServiceAccounts.unlock s (var_of r "id")) w

module _ {W : Type 0} (s : RolesService W) where
  unfoldable pub grant_system_role : RoleAssignment → Request → W → Reply (Unit {0}) × W
  grant_system_role role_assignment r w =
      serve_body r status_ok (SystemRoles.grant s role_assignment) w

  unfoldable pub revoke_system_role : RoleName → Request → W → Reply (Unit {0}) × W
  unfolding assignment_of
  revoke_system_role name r w = serve status_ok (SystemRoles.revoke s (assignment_of name r)) w
