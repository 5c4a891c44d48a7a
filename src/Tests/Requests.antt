-- ===== src/Tests/Requests.antt =====
-- A token filter over fixed sessions, users and service accounts, and a request with a bad body.
use brignext.Base.{◌≡◌, ◌⊎◌, true, ◌∷◌, ℕ, false, none, some, [], if◌then◌else◌, ◌==◌}
use brignext.Errors.{Error, err_not_found}
use brignext.Effect.{pure, fail}
use brignext.Authx.Principals.{User, ServiceAccount, Session}
use brignext.Core.Types.{WorkerPhase}
use brignext.Rest.TokenAuth.{TokenAuthFilter, authenticate}
use brignext.Rest.TokenAuth.Justified.{IsJustified, authenticate-IsJustified}
use brignext.Rest.Endpoints.{Response, RequestBody, violations, serve_request}
use brignext.Rest.Endpoints.Responses.{IsAcceptable, IsAnswered, IsErrorResponse, serve_request_lem}
use brignext.Tests.Samples.{event_in}

abbrev jane : User
jane = record { id = "jane"; created = none; name = "Jane"; locked = none; user_roles = [] }

abbrev jane_session : Session
jane_session = record {
  id = "s1";
  created = some 1;
  root = false;
  user_id = "jane";
  hashed_oauth2_state = "";
  hashed_token = "jane-token";
  authenticated = some 2;
  expires = some 100;
}

abbrev robot : ServiceAccount
robot = record {
  id = "robot";
  created = none;
  description = "";
  hashed_token = "robot-token";
  locked = some 3;
  service_account_roles = [];
}

-- The world is the time.
abbrev filter : TokenAuthFilter ℕ
filter = record {
  find_session = λ token.
      if token == "jane-token" then pure jane_session else fail (err_not_found "Session" "");
  find_event = λ token.
      if token == "worker-token"
      then pure (event_in "e2" 30 "blog" WorkerPhase.running)
      else fail (err_not_found "Event" "");
  find_user = λ id. if id == "jane" then pure jane else fail (err_not_found "User" id);
  find_service_account = λ token.
      if token == "robot-token" then pure robot else fail (err_not_found "ServiceAccount" "");
  root_user_enabled = false;
  hashed_scheduler_token = "scheduler-token";
  hashed_observer_token = "observer-token";
  short_sha = λ salt. λ token. token;
  now = λ w. pure w w;
}

authenticate_example : IsJustified filter "jane-token" (authenticate filter "jane-token" 50).0
authenticate_example = authenticate-IsJustified filter "jane-token" 50

abbrev invalid_body : RequestBody
invalid_body = record {
  readable = true;
  schema_result = some (violations ("projectID is required" ∷ []));
  unmarshaled = true;
}

serve_request_example :
    IsAcceptable invalid_body
      × IsAnswered 200
          (filter.find_user "jane")
          50
          (serve_request (some invalid_body) 200 (filter.find_user "jane") 50)
    ⊎ (¬ IsAcceptable invalid_body)
      × ((x : Response User) × (e : Error) × IsErrorResponse x e
          × (serve_request (some invalid_body) 200 (filter.find_user "jane") 50 ≡ (some x, 50)))
serve_request_example = serve_request_lem 200 (filter.find_user "jane") 50 invalid_body
