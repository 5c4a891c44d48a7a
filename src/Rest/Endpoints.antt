-- ===== src/Rest/Endpoints.antt =====
-- v2/apiserver/internal/lib/restmachinery/endpoints.go: how a request's body is checked, and how the
-- outcome of an endpoint's logic becomes a response.
pub mod Responses
use brignext.Base.{ℕ, String, Bool, true, false, Option, none, some, List, [], ◌∷◌, if◌then◌else◌}
use brignext.Effect.{M}
use brignext.Errors.{
  Reason, body_unreadable, body_not_validated, body_violations, Error, Outcome, ok, err,
  err_authentication, err_authorization, err_bad_request, err_not_found, err_conflict,
  err_internal_server, err_not_supported,
}

abbrev pub status_ok : ℕ
status_ok = 200

abbrev pub status_internal_server_error : ℕ
status_internal_server_error = 500

-- A body is a value to be marshaled, or an error.
pub data Body (A : Type 0) : Type 0 where
  value : A → Body A
  error : Error → Body A

pub record Response (A : Type 0) : Type 0 where
  pub status : ℕ
  pub body : Body A

-- The switch on `errors.Cause(err)` in `ServeRequest`: any other error is hidden from the client.
unfoldable pub error_response : {A : Type 0} → Error → Response A
error_response (err_authentication r) = record { status = 401; body = error (err_authentication r) }
error_response (err_authorization r) = record { status = 403; body = error (err_authorization r) }
error_response (err_bad_request r ds) = record { status = 400; body = error (err_bad_request r ds) }
error_response (err_not_found t i) = record { status = 404; body = error (err_not_found t i) }
error_response (err_conflict t i r) = record { status = 409; body = error (err_conflict t i r) }
error_response (err_not_supported r) = record { status = 501; body = error (err_not_supported r) }
error_response err_internal_server = record { status = 500; body = error err_internal_server }
error_response _ = record { status = 500; body = error err_internal_server }

-- What the JSON schema library (github.com/xeipuu/gojsonschema) says of a body: `Validate` fails,
-- or finds violations, none for a valid body.
pub data SchemaResult : Type 0 where
  schema_error : SchemaResult
  violations : List String → SchemaResult

-- The request's body, by what becomes of it: whether it can be read, the result of its validation
-- (`none` where the endpoint has no schema), and whether it can be unmarshaled (true where the
-- endpoint has no object for it).
pub record RequestBody : Type 0 where
  pub readable : Bool
  pub schema_result : Option SchemaResult
  pub unmarshaled : Bool

bad_request : {A : Type 0} → Reason → List String → Response A
bad_request reason details = record { status = 400; body = error (err_bad_request reason details) }

unmarshal_response : {A : Type 0} → Bool → Option (Response A)
unmarshal_response true = none
unmarshal_response false =
    some (record { status = status_internal_server_error; body = error err_internal_server })

schema_response : {A : Type 0} → Option SchemaResult → Bool → Option (Response A)
schema_response none unmarshaled = unmarshal_response unmarshaled
schema_response (some schema_error) unmarshaled = some (bad_request body_not_validated [])
schema_response (some (violations [])) unmarshaled = unmarshal_response unmarshaled
schema_response (some (violations (v ∷ vs))) unmarshaled =
    some (bad_request body_violations (v ∷ vs))

-- `readAndValidateRequestBody`: the response it writes, if it does.
unfoldable pub read_and_validate_request_body : {A : Type 0} → RequestBody → Option (Response A)
unfolding schema_response unmarshal_response bad_request
read_and_validate_request_body body =
    if body.readable
    then schema_response body.schema_result body.unmarshaled
    else some (bad_request body_unreadable [])

-- The response to what the endpoint's logic returned; `none` where it panicked.
unfoldable pub outcome_response : {A : Type 0} → ℕ → Outcome A → Option (Response A)
outcome_response success_code (ok a) = some (record { status = success_code; body = value a })
outcome_response success_code (err e) = some (error_response e)
outcome_response success_code _ = none

module _ {W A : Type 0} where
  run_logic : ℕ → M W A → W → Option (Response A) × W
  run_logic success_code endpoint_logic w =
      (outcome_response success_code (endpoint_logic w).0, (endpoint_logic w).1)

  unless_refused : Option (Response A) → ℕ → M W A → W → Option (Response A) × W
  unless_refused (some response) success_code endpoint_logic w = (some response, w)
  unless_refused none success_code endpoint_logic w = run_logic success_code endpoint_logic w

  -- `ServeRequest`; the endpoint has a body to read if it is not `none`. Where the logic panics,
  -- no response is written.
  unfoldable pub serve_request : Option RequestBody → ℕ → M W A → W → Option (Response A) × W
  unfolding unless_refused run_logic
  serve_request none success_code endpoint_logic w = run_logic success_code endpoint_logic w
  serve_request (some body) success_code endpoint_logic w =
      unless_refused (read_and_validate_request_body body) success_code endpoint_logic w
