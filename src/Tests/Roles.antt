-- ===== src/Tests/Roles.antt =====
-- Roles that are granted and revoked in the database of the accounts.
use brignext.Base.{◌≡◌, refl, ◌||◌, [], ◌∷◌, find_first, any}
use brignext.Errors.{ok, other}
use brignext.Effect.{M, pure, fail}
use brignext.Authx.Roles.{AuthorizeFn, RoleName, role_admin}
use brignext.Authx.Principals.{user, service_account}
use brignext.Authx.Docs.{
  user_semantics, account_semantics, user_matches, is_text, is_id_after, is_lacking,
}
use brignext.Authx.Mongo.UsersStore.{get, users_store, found}
use brignext.Authx.Mongo.RolesStore.{grant, roles_store, grant_each}
use brignext.Authx.Mongo.RolesStore.Steps.{is_among}
use brignext.Authx.Mongo.RolesStore.Grants.{GrantSpec}
use brignext.Authx.Mongo.RolesStore.Principals.{
  user-RoleSemantics, account-RoleSemantics, grant_lem,
}
use brignext.Authx.Services.SystemRoles.{RoleAssignment, for_principal}
use brignext.Core.Interfaces.{ProjectsStore}
use brignext.Core.Services.ProjectRoles
use brignext.Core.Services.ProjectRoles.{project_role_of}
use brignext.Core.Services.ProjectRoles.Granted.{
  IsChanged, role_in, over_stores, grant_project_role_lem,
}
use brignext.Core.Types.{Project}
use brignext.Tests.Kubernetes.{blog}
use brignext.Tests.Accounts.{
  Db, users_of, accounts_of, users_table, accounts_table, sessions_table, users_table-Laws,
  accounts_table-Laws, at_50, db,
}

grant_example :
    let to_user = grant users_table accounts_table user "kate" (role_admin ∷ []) in
    let to_account = grant users_table accounts_table service_account "kate" (role_admin ∷ []) in
    GrantSpec users_table users_of user_semantics users_table-Laws
      (λ u. u.id)
      (λ u. u.user_roles)
      user-RoleSemantics
      "kate"
      (role_admin ∷ [])
      (to_user db).0
      db.users
      (to_user db).1.users
    × GrantSpec accounts_table accounts_of account_semantics accounts_table-Laws
        (λ a. a.id)
        (λ a. a.service_account_roles)
        account-RoleSemantics
        "kate"
        (role_admin ∷ [])
        (to_account db).0
        db.accounts
        (to_account db).1.accounts
grant_example =
    grant_lem users_table accounts_table users_of accounts_of users_table-Laws accounts_table-Laws
      "kate" (role_admin ∷ []) db

-- Every project is there.
abbrev projects : ProjectsStore Db
projects = record {
  create = λ p. pure tt;
  list = λ o. fail (other "unavailable");
  list_subscribers = λ e. fail (other "unavailable");
  get = λ id. pure blog;
  update = λ p. pure tt;
  delete = λ id. pure tt;
}

abbrev pub allowing : AuthorizeFn Db
allowing rs = pure tt

abbrev jane_develops : RoleAssignment
jane_develops = record {
  role = RoleName.project_developer;
  scope = "";
  principal_type = "USER";
  principal_id = "jane";
}

abbrev grant_it : M Db (Unit {0})
grant_it =
    ProjectRoles.grant
      (over_stores users_table sessions_table accounts_table at_50 users_of accounts_of
        users_table-Laws accounts_table-Laws allowing projects (λ rs. λ w. (refl, refl))
        (λ id. λ w. (refl, refl)))
      "blog" jane_develops

grant_it_ok : (grant_it db).0 ≡ ok tt
unfolding ProjectRoles.grant for_principal users_store get found roles_store grant grant_each any
    find_first user_matches is_text is_id_after is_lacking
grant_it_ok = refl

grant_project_role_example :
    ((project : Project) × ((projects.get "blog" db).0 ≡ ok project))
    × IsChanged users_table sessions_table accounts_table at_50 users_of accounts_of
        users_table-Laws accounts_table-Laws jane_develops
        (λ q. λ b. b || is_among q (role_in "blog" RoleName.project_developer ∷ []))
        db.users
        db.accounts
        (grant_it db).1.users
        (grant_it db).1.accounts
grant_project_role_example =
    grant_project_role_lem users_table sessions_table accounts_table at_50 users_of accounts_of
      users_table-Laws accounts_table-Laws allowing projects (λ rs. λ w. (refl, refl))
      (λ id. λ w. (refl, refl)) "blog" jane_develops db grant_it_ok
