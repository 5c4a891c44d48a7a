-- ===== src/Tests/Sessions.antt =====
-- Sessions that are created and authenticated in the database of the accounts.
use brignext.Base.{◌≡◌, refl, ◌+◌, String, true, some, find_first, any}
use brignext.Errors.{ok, is_not_found}
use brignext.Authx.Mongo.SessionsStore
use brignext.Authx.Mongo.UsersStore
use brignext.Effect.{pure}
use brignext.Authx.Roles.{always_authorize}
use brignext.Authx.Principals.{Session, root}
use brignext.Authx.Docs.{user_matches, session_matches}
use brignext.Authx.Mongo.UsersStore.{lock, get, users_store, found}
use brignext.Authx.Mongo.SessionsStore.{sessions_store}
use brignext.Authx.Services.Sessions.{
  SessionsService, OAuth2Config, TokenVerifier, create_root_session, authenticate, hour,
}
use brignext.Authx.Services.Sessions.Safety.{
  create_root_session-ok, IsAuthenticated, authenticate-ok,
}
use brignext.Core.Types.{Time}
use brignext.Tests.Accounts.{Db, users_table, sessions_table, at_50, db}

abbrev provider : OAuth2Config Db
provider = record { auth_code_url = λ state. ""; exchange = λ code. pure (some "id-token") }

abbrev verifier : TokenVerifier Db
verifier = record { verify = λ raw. pure (pure (record { name = "Lea"; email = "lea" })) }

abbrev sessions_service : SessionsService Db
sessions_service = record {
  authorize = always_authorize;
  sessions_store = sessions_store sessions_table at_50;
  users_store = users_store users_table sessions_table at_50;
  root_user_enabled = true;
  hashed_root_user_password = "secret";
  oauth2_config = some provider;
  oidc_token_verifier = some verifier;
  system = record {
    now = pure 50;
    new_uuid = pure "u1";
    new_token = λ n. pure "t1";
    short_sha = λ salt. λ text. text;
    principal = pure root;
  };
}

abbrev root_name : String
root_name = "root"

root_session_created :
    (create_root_session sessions_service "root" "secret" db).0 ≡ ok (record { value = "t1" })
unfolding create_root_session sessions_store SessionsStore.create
root_session_created = refl

root_session_example :
    (sessions_service.root_user_enabled ≡ true)
    × (root_name ≡ "root")
    × (sessions_service.system.short_sha root_name "secret" ≡ "secret")
    × ((session : Session) × (now : Time) × (w w' : Db) × ((sessions_service.system.now w).0
          ≡ ok now)
        × ((sessions_service.sessions_store.create session w').0 ≡ ok tt)
        × (session.root ≡ true)
        × (session.hashed_token ≡ "t1")
        × (session.authenticated ≡ some now)
        × (session.expires ≡ some (now + hour)))
root_session_example =
    create_root_session-ok sessions_service "root" "secret" db (record { value = "t1" })
      root_session_created

lea_authenticated : (authenticate sessions_service "state" "code" db).0 ≡ ok tt
unfolding authenticate sessions_store SessionsStore.get_by_hashed_oauth2_state find_first
    session_matches users_store get user_matches is_not_found UsersStore.count UsersStore.create
    SessionsStore.authenticate any
lea_authenticated = refl

lea_session_example :
    (config : OAuth2Config Db) × (checker : TokenVerifier Db) × (some provider ≡ some config)
    × (some verifier ≡ some checker)
    × IsAuthenticated sessions_service config checker "state" "code"
lea_session_example = authenticate-ok sessions_service "state" "code" db lea_authenticated
