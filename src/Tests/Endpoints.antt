-- ===== src/Tests/Endpoints.antt =====
-- Requests to the endpoints: lists with a limit, and a role of the system that has a scope.
use brignext.Base.{◌≡◌, refl, true, none, [], ◌∷◌, any, find_first, lookup}
use brignext.Effect.{pure}
use brignext.Authx.Roles.{RoleName, always_authorize, role_event_creator}
use brignext.Authx.Docs.{user_matches, is_text, is_id_after, is_lacking}
use brignext.Authx.Mongo.UsersStore.{users_store, get, found}
use brignext.Authx.Mongo.RolesStore.{revoke, roles_store, revoke_each}
use brignext.Authx.Services.ServiceAccounts.{ServiceAccountsService}
use brignext.Authx.Services.SystemRoles.{for_principal}
use brignext.Authx.Services.SystemRoles
use brignext.Authx.Rest.Accounts.{revoke_system_role}
use brignext.Authx.Rest.Limits.{ArePaged, lists-IsPaged}
use brignext.Authx.Rest.Scopes.{IsKept, system_roles_over_stores, revoke_system_role-scope}
use brignext.Core.Services.Projects.{ProjectsService}
use brignext.Core.Services.Secrets.{SecretsService}
use brignext.Core.Services.Events.{no_meta}
use brignext.Core.Rest.Projects.{assignment_of}
use brignext.Rest.Endpoints.{RequestBody, value, status_ok, serve_request, outcome_response}
use brignext.Rest.Requests.{Request, answered, serve, reply_of, query_of}
use brignext.Tests.Memory.{Documents}
use brignext.Tests.Samples.{stored}
use brignext.Tests.Services.{no_projects, substrate}
use brignext.Tests.Creation.{events_service}
use brignext.Tests.Accounts.{
  Db, users_of, accounts_of, users_table, accounts_table, sessions_table, users_table-Laws,
  accounts_table-Laws, at_50, user_named, robot, db,
}
use brignext.Tests.Roles.{allowing}

abbrev no_body : RequestBody
no_body = record { readable = true; schema_result = none; unmarshaled = true }

abbrev page_of_5 : Request
page_of_5 = record {
  query = ("projectID", "blog") ∷ ("workerPhases", "PENDING,RUNNING") ∷ ("limit", "5") ∷ [];
  vars = ("projectID", "blog") ∷ [];
  body = no_body;
}

abbrev projects_service : ProjectsService Documents
projects_service = record {
  authorize = always_authorize;
  projects_store = no_projects;
  roles_store = record {
    grant = λ t. λ id. λ roles. pure tt;
    revoke = λ t. λ id. λ roles. pure tt;
  };
  substrate = substrate;
  system = events_service.system;
}

abbrev secrets_service : SecretsService Documents
secrets_service = record {
  authorize = always_authorize;
  projects_store = no_projects;
  secrets_store = record {
    list = λ p. λ opts. pure (record { meta = no_meta; items = [] });
    set = λ p. λ secret. pure tt;
    unset = λ p. λ key. pure tt;
  };
}

abbrev accounts_service : ServiceAccountsService Documents
accounts_service = record {
  authorize = always_authorize;
  service_accounts_store = record {
    create = λ a. pure tt;
    list = λ opts. pure (record { meta = no_meta; items = robot ∷ [] });
    get = λ id. pure robot;
    get_by_hashed_token = λ token. pure robot;
    lock = λ id. pure tt;
    unlock = λ id. λ token. pure tt;
  };
  system = events_service.system;
}

lists_example :
    ArePaged events_service projects_service secrets_service accounts_service page_of_5 stored
lists_example =
    lists-IsPaged events_service projects_service secrets_service accounts_service page_of_5 stored

-- Maria may create events from GitHub.
abbrev marias_db : Db
marias_db = record db { users = user_named "maria" (role_event_creator "github" ∷ []) ∷ [] }

abbrev revoke_it : Request
revoke_it = record {
  query =
      ("role", "EVENT_CREATOR")
      ∷ ("principalType", "USER")
      ∷ ("principalID", "maria")
      ∷ ("scope", "github")
      ∷ [];
  vars = [];
  body = no_body;
}

revoke_it_answered :
    (revoke_system_role
      (system_roles_over_stores users_table sessions_table accounts_table at_50 users_of accounts_of
        users_table-Laws accounts_table-Laws allowing
        (λ rs. λ w. (refl, refl)))
      RoleName.event_creator
      revoke_it
      marias_db).0
    ≡ answered (record { status = status_ok; body = value tt })
unfolding revoke_system_role serve serve_request reply_of outcome_response SystemRoles.revoke
    for_principal users_store get found roles_store revoke revoke_each any find_first user_matches
    is_text is_id_after is_lacking assignment_of query_of lookup
revoke_it_answered = refl

revoke_scope_example :
    IsKept revoke_it
      (role_event_creator "github")
      marias_db.users
      marias_db.accounts
      (revoke_system_role
        (system_roles_over_stores users_table sessions_table accounts_table at_50 users_of
          accounts_of users_table-Laws accounts_table-Laws allowing
          (λ rs. λ w. (refl, refl)))
        RoleName.event_creator
        revoke_it
        marias_db).1.users
      (revoke_system_role
        (system_roles_over_stores users_table sessions_table accounts_table at_50 users_of
          accounts_of users_table-Laws accounts_table-Laws allowing
          (λ rs. λ w. (refl, refl)))
        RoleName.event_creator
        revoke_it
        marias_db).1.accounts
unfolding role_event_creator
revoke_scope_example =
    revoke_system_role-scope users_table sessions_table accounts_table at_50 users_of accounts_of
      users_table-Laws accounts_table-Laws allowing (λ rs. λ w. (refl, refl)) RoleName.event_creator
      revoke_it marias_db (role_event_creator "github") refl revoke_it_answered
