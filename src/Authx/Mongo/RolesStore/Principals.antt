-- ===== src/Authx/Mongo/RolesStore/Principals.antt =====
-- The roles of users and of service accounts: `Grant` and `Revoke` of
-- v2/apiserver/internal/authx/mongodb/roles_store.go.
use brignext.Base.{refl, String, List, arith}
use brignext.Mongo.{Collection, Laws}
use brignext.Authx.Roles.{Role}
use brignext.Authx.Principals.{User, ServiceAccount, user, service_account}
use brignext.Authx.Docs.{
  AccountFilter, AccountUpdate, user_semantics, account_semantics, user_matches, account_matches,
  user_apply, account_apply, is_text, is_id_after, is_lacking,
}
use brignext.Authx.Mongo.RolesStore.{grant, revoke}
use brignext.Authx.Mongo.RolesStore.Steps.{RoleSemantics}
use brignext.Authx.Mongo.RolesStore.Grants.{GrantSpec, RevokeSpec, grant_each_lem, revoke_each_lem}

pub user-RoleSemantics : RoleSemantics user_semantics (λ u. u.id) (λ u. u.user_roles)
unfolding user_matches user_apply is_text is_id_after is_lacking
user-RoleSemantics = record {
  id_law = λ id. λ u. ground arith;
  lacks_law = λ id. λ r. λ u. ground arith;
  push_law = λ r. λ u. (refl, refl);
  pull_law = λ r. λ u. (refl, refl);
}

pub account-RoleSemantics :
    RoleSemantics account_semantics (λ a. a.id) (λ a. a.service_account_roles)
unfolding account_matches account_apply is_text is_id_after is_lacking
account-RoleSemantics = record {
  id_law = λ id. λ a. ground arith;
  lacks_law = λ id. λ r. λ a. ground arith;
  push_law = λ r. λ a. (refl, refl);
  pull_law = λ r. λ a. (refl, refl);
}

module _ {W : Type 0} (users_collection : Collection W User AccountFilter AccountUpdate)
    (service_accounts_collection : Collection W ServiceAccount AccountFilter AccountUpdate)
    (users : W → List User) (accounts : W → List ServiceAccount)
    (users_law : Laws users_collection users user_semantics)
    (accounts_law : Laws service_accounts_collection accounts account_semantics) where
  -- `Grant`, to a user or to a service account: where it succeeds, a principal that is there holds
  -- a role exactly if it held it before or the role is one of those granted, and one that is not
  -- there is not made; where it fails, no role has been lost.
  pub grant_lem :
      (id : String) (roles : List Role) (w : W)
      → let to_user = grant users_collection service_accounts_collection user id roles in
        let to_account =
          grant users_collection service_accounts_collection service_account id roles in
        GrantSpec users_collection users user_semantics users_law
          (λ u. u.id)
          (λ u. u.user_roles)
          user-RoleSemantics
          id
          roles
          (to_user w).0
          (users w)
          (users (to_user w).1)
        × GrantSpec service_accounts_collection accounts account_semantics accounts_law
            (λ a. a.id)
            (λ a. a.service_account_roles)
            account-RoleSemantics
            id
            roles
            (to_account w).0
            (accounts w)
            (accounts (to_account w).1)
  unfolding grant
  grant_lem id roles w = (
    grant_each_lem users_collection users user_semantics users_law (λ u. u.id) (λ u. u.user_roles)
        user-RoleSemantics id roles w,
    grant_each_lem service_accounts_collection accounts account_semantics accounts_law (λ a. a.id)
        (λ a. a.service_account_roles) account-RoleSemantics id roles w,
  )

  -- `Revoke`, from a user or from a service account: where it succeeds, a principal that is there
  -- holds a role exactly if it held it before and the role is none of those revoked; where it
  -- fails, no role has been gained.
  pub revoke_lem :
      (id : String) (roles : List Role) (w : W)
      → let of_user = revoke users_collection service_accounts_collection user id roles in
        let of_account =
          revoke users_collection service_accounts_collection service_account id roles in
        RevokeSpec users_collection users user_semantics users_law
          (λ u. u.id)
          (λ u. u.user_roles)
          user-RoleSemantics
          id
          roles
          (of_user w).0
          (users w)
          (users (of_user w).1)
        × RevokeSpec service_accounts_collection accounts account_semantics accounts_law
            (λ a. a.id)
            (λ a. a.service_account_roles)
            account-RoleSemantics
            id
            roles
            (of_account w).0
            (accounts w)
            (accounts (of_account w).1)
  unfolding revoke
  revoke_lem id roles w = (
    revoke_each_lem users_collection users user_semantics users_law (λ u. u.id) (λ u. u.user_roles)
        user-RoleSemantics id roles w,
    revoke_each_lem service_accounts_collection accounts account_semantics accounts_law (λ a. a.id)
        (λ a. a.service_account_roles) account-RoleSemantics id roles w,
  )
