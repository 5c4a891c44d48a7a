-- ===== src/Authx/Mongo/RolesStore.antt =====
-- v2/apiserver/internal/authx/mongodb/roles_store.go.
pub mod RoleLists
pub mod Steps
pub mod Grants
pub mod Principals
use brignext.Base.{String, some, List, [], ◌∷◌}
use brignext.Effect.{M, pure, ◌>>=◌, ◌>>◌}
use brignext.Mongo.{Collection}
use brignext.Authx.Roles.{Role}
use brignext.Authx.Principals.{User, ServiceAccount, PrincipalType, service_account, user}
use brignext.Authx.Docs.{AccountFilter, AccountUpdate, no_account_criteria, push_role, pull_role}
use brignext.Core.Interfaces

module _ {W D : Type 0} (collection : Collection W D AccountFilter AccountUpdate) where
  -- The loops over the roles. The matched count is not looked at.
  unfoldable pub grant_each : String → List Role → M W (Unit {0})
  grant_each principal_id [] = pure tt
  grant_each principal_id (role ∷ roles) =
      let rest = grant_each principal_id roles in
      do
        collection.update_one
            (record no_account_criteria { id = some principal_id; lacks_role = some role })
            (push_role role)
        rest

  unfoldable pub revoke_each : String → List Role → M W (Unit {0})
  revoke_each principal_id [] = pure tt
  revoke_each principal_id (role ∷ roles) =
      let rest = revoke_each principal_id roles in
      do
        collection.update_one (record no_account_criteria { id = some principal_id })
            (pull_role role)
        rest

module _ {W : Type 0} (users_collection : Collection W User AccountFilter AccountUpdate)
    (service_accounts_collection : Collection W ServiceAccount AccountFilter AccountUpdate) where
  unfoldable pub grant : PrincipalType → String → List Role → M W (Unit {0})
  grant user principal_id roles = grant_each users_collection principal_id roles
  grant service_account principal_id roles =
      grant_each service_accounts_collection principal_id roles

  unfoldable pub revoke : PrincipalType → String → List Role → M W (Unit {0})
  revoke user principal_id roles = revoke_each users_collection principal_id roles
  revoke service_account principal_id roles =
      revoke_each service_accounts_collection principal_id roles

  -- The store that `NewRolesStore` makes.
  unfoldable pub roles_store : Interfaces.RolesStore W
  roles_store = record { grant = grant; revoke = revoke }
