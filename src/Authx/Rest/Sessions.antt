-- ===== src/Authx/Rest/Sessions.antt =====
-- v2/apiserver/internal/authx/rest/sessions_endpoints.go, with `ServeHumanRequest` of
-- v2/apiserver/internal/lib/restmachinery/endpoints.go.
use brignext.Base.{ℕ, String, ◌||◌, Option, none, some, [], ◌==◌, if◌then◌else◌}
use brignext.Errors.{
  Error, Outcome, ok, err, other, err_authentication, err_authorization, err_bad_request,
  err_not_found, err_conflict, err_not_supported, basic_auth_missing, oidc_parameters_missing,
}
use brignext.Effect.{M, pure, fail, refuse_if, ◌>>=◌, ◌>>◌}
use brignext.Authx.Interfaces.{Token}
use brignext.Authx.Services.Sessions.{SessionsService, OidcAuthDetails}
use brignext.Authx.Services.Sessions
use brignext.Rest.Endpoints.{value, error, status_ok}
use brignext.Rest.Requests.{Request, Reply, answered, aborted, query_of, serve, parse_bool}

-- The status of an error for a human. The text of the error is the body, also for an error of
-- another package.
unfoldable pub human_status : Error → ℕ
human_status (err_authentication r) = 401
human_status (err_authorization r) = 403
human_status (err_bad_request r ds) = 400
human_status (err_not_found t i) = 404
human_status (err_conflict t i r) = 409
human_status (err_not_supported r) = 501
human_status _ = 500

unfoldable pub human_reply : {A : Type 0} → ℕ → Outcome A → Reply A
unfolding human_status
human_reply success_code (ok a) = answered (record { status = success_code; body = value a })
human_reply success_code (err e) = answered (record { status = human_status e; body = error e })
human_reply success_code _ = aborted

unfoldable pub serve_human_request : {W A : Type 0} → ℕ → M W A → W → Reply A × W
unfolding human_reply
serve_human_request success_code logic w = (human_reply success_code (logic w).0, (logic w).1)

-- A new session of root has a token, and one of a user is to be authenticated.
pub data NewSession : Type 0 where
  root_token : Token → NewSession
  to_authenticate : OidcAuthDetails → NewSession

module _ {W : Type 0} (s : SessionsService W) where
  -- `basic_auth` is what `r.BasicAuth()` finds.
  unfoldable pub create_root : Option (String × String) → M W NewSession
  create_root none = fail (err_bad_request basic_auth_missing [])
  create_root (some (username, password)) = do
    token ← Sessions.create_root_session s username password
    pure (root_token token)

  unfoldable pub create_session : Option (String × String) → Request → W → Reply NewSession × W
  unfolding create_root
  create_session basic_auth r w =
      if parse_bool (query_of r "root")
      then serve 201 (create_root basic_auth) w
      else serve 201 (do details ← Sessions.create_user_session s; pure (to_authenticate details)) w

  delete_logic : String → M W (Unit {0})
  delete_logic session_id = do
    refuse_if (session_id == "") (other "no session ID found in request context")
    Sessions.delete s session_id

  -- `session_id` is what the context of the request holds.
  unfoldable pub delete_session : String → W → Reply (Unit {0}) × W
  unfolding delete_logic
  delete_session session_id w = serve status_ok (delete_logic session_id) w

  authenticate_logic : String → String → M W String
  authenticate_logic oauth2_state oidc_code = do
    refuse_if (oauth2_state == "" || oidc_code == "") (err_bad_request oidc_parameters_missing [])
    Sessions.authenticate s oauth2_state oidc_code
    pure "You're now authenticated. You may resume using the CLI."

  unfoldable pub complete_authentication : Request → W → Reply String × W
  unfolding authenticate_logic
  complete_authentication r w =
      serve_human_request status_ok (authenticate_logic (query_of r "state") (query_of r "code")) w
