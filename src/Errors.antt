-- ===== src/Errors.antt =====
-- v2/apiserver/internal/meta/errors.go: the errors with a meaning to clients, and all others.
-- An error value stands for its `errors.Cause`: a message that `errors.Wrap` or `errors.Wrapf`
-- adds shows only in a log. The text of a reason is a constructor with the values printed in it.
use brignext.Base.{ℕ, String, List, Bool, true, false}

pub data Reason : Type 0 where
  -- authn/token_auth.go
  header_missing header_malformed session_not_found root_disabled : Reason
  not_authenticated token_expired : Reason
  -- core/events.go and core/mongodb/events_store.go
  cancel_needs_project cancel_needs_phases delete_needs_project delete_needs_phases : Reason
  already_terminal : String → Reason
  -- core/workers.go and core/jobs.go
  worker_already_started : String → Reason
  job_exists : String → String → Reason
  job_already_started : String → String → Reason
  privileged_forbidden docker_socket_forbidden workspace_disabled : Reason
  -- core/mongodb/projects_store.go
  project_exists : String → Reason
  -- authx/mongodb/users_store.go and service_accounts_store.go
  user_exists service_account_exists : String → Reason
  -- authx/authorizer.go and authx/sessions.go
  no_reason bad_credentials root_not_supported oidc_not_supported : Reason
  -- restmachinery/endpoints.go
  body_unreadable body_not_validated body_violations : Reason
  -- the endpoints
  invalid_limit : String → Reason
  project_ids_differ secret_keys_differ basic_auth_missing oidc_parameters_missing : Reason

pub data Error : Type 0 where
  err_authentication : Reason → Error
  err_authorization : Reason → Error
  err_bad_request : Reason → List String → Error
  -- the type of the resource and its identifier
  err_not_found : String → String → Error
  err_conflict : String → String → Reason → Error
  err_internal_server : Error
  err_not_supported : Reason → Error
  -- an error of another package, by its text
  other : String → Error
  -- `mongo.WriteException`, by the codes of its `WriteErrors`
  write_exception : List ℕ → Error

pub data Outcome (A : Type 0) : Type 0 where
  ok : A → Outcome A
  err : Error → Outcome A
  panic : Outcome A
  -- the fuel of the model ran out: the source would go on
  out_of_fuel : Outcome A

-- `_, ok := errors.Cause(err).(*meta.ErrNotFound)`
unfoldable pub is_not_found : Error → Bool
is_not_found (err_not_found t i) = true
is_not_found _ = false
