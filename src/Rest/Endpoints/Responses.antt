-- ===== src/Rest/Endpoints/Responses.antt =====
-- What a client of the API sees: `ServeRequest` of
-- v2/apiserver/internal/lib/restmachinery/endpoints.go.
use brignext.Base.{
  ℕ, ◌≡◌, refl, Bool, true, false, ◌⊎◌, inl, inr, Option, none, some, [], ◌∷◌, arith,
}
use brignext.Errors.{
  Error, Outcome, ok, err, panic, out_of_fuel, err_authentication, err_authorization,
  err_bad_request, err_not_found, err_conflict, err_internal_server, err_not_supported, other,
  write_exception,
}
use brignext.Effect.{M}
use brignext.Rest.Endpoints.{
  Response, value, error, RequestBody, SchemaResult, schema_error, violations, schema_response,
  unmarshal_response, read_and_validate_request_body, error_response, outcome_response,
  serve_request,
}

-- The body can be read, satisfies the schema if there is one, and can be unmarshaled.
abbrev pub IsAcceptable : RequestBody → Type 0
IsAcceptable b =
    (b.readable ≡ true)
    × (b.unmarshaled ≡ true)
    × ((b.schema_result ≡ none) ⊎ (b.schema_result ≡ some (violations [])))

-- The status that a client may see for an error: those of the API with a status of their own, and
-- no error of another package.
abbrev pub StatusOf : Error → ℕ → Type 0
StatusOf (err_authentication r) n = n ≡ 401
StatusOf (err_authorization r) n = n ≡ 403
StatusOf (err_bad_request r ds) n = n ≡ 400
StatusOf (err_not_found t i) n = n ≡ 404
StatusOf (err_conflict t i r) n = n ≡ 409
StatusOf err_internal_server n = n ≡ 500
StatusOf (err_not_supported r) n = n ≡ 501
StatusOf (other s) n = ⊥
StatusOf (write_exception codes) n = ⊥

-- A response that carries an error, with the error's status.
abbrev pub IsErrorResponse : {A : Type 0} → Response A → Error → Type 0
IsErrorResponse r e = (r.body ≡ error e) × StatusOf e r.status

-- The response for what the endpoint's logic gave: its value, or its error, which is hidden behind
-- "internal server error" if it is one of another package; none for a panic.
abbrev pub IsResponseTo : {A : Type 0} → ℕ → Outcome A → Option (Response A) → Type 0
IsResponseTo n (ok a) r = r ≡ some (record { status = n; body = value a })
IsResponseTo n (err (other s)) r =
    r ≡ some (record { status = 500; body = error err_internal_server })
IsResponseTo n (err (write_exception codes)) r =
    r ≡ some (record { status = 500; body = error err_internal_server })
IsResponseTo {A} n (err e) r = (x : Response A) × (r ≡ some x) × IsErrorResponse x e
IsResponseTo n panic r = r ≡ none
IsResponseTo n out_of_fuel r = r ≡ none

outcome_response_lem :
    {A : Type 0} (n : ℕ) (o : Outcome A) → IsResponseTo n o (outcome_response n o)
unfolding outcome_response error_response
outcome_response_lem n (ok a) = refl
outcome_response_lem n (err (other s)) = refl
outcome_response_lem n (err (write_exception codes)) = refl
outcome_response_lem n (err (err_authentication r)) = (_, refl, (refl, refl))
outcome_response_lem n (err (err_authorization r)) = (_, refl, (refl, refl))
outcome_response_lem n (err (err_bad_request r ds)) = (_, refl, (refl, refl))
outcome_response_lem n (err (err_not_found t i)) = (_, refl, (refl, refl))
outcome_response_lem n (err (err_conflict t i r)) = (_, refl, (refl, refl))
outcome_response_lem n (err err_internal_server) = (_, refl, (refl, refl))
outcome_response_lem n (err (err_not_supported r)) = (_, refl, (refl, refl))
outcome_response_lem n panic = refl
outcome_response_lem n out_of_fuel = refl

-- The body is refused or acceptable, never both.
abbrev BodyCases : Type 0 → RequestBody → Type 0
BodyCases A b =
    ((read_and_validate_request_body {A = A} b ≡ none) × IsAcceptable b)
    ⊎ ((x : Response A) × (e : Error) × (read_and_validate_request_body b ≡ some x)
        × IsErrorResponse x e
        × ¬ IsAcceptable b)

fields-BodyCases :
    {A : Type 0} (readable : Bool) (schema_result : Option SchemaResult) (unmarshaled : Bool)
    → BodyCases A
        (record { readable = readable; schema_result = schema_result; unmarshaled = unmarshaled })
unfolding read_and_validate_request_body schema_response unmarshal_response
fields-BodyCases false o u = inr (_, _, refl, (refl, refl), λ a. absurd (cc a.0))
fields-BodyCases true none true = inl (refl, (refl, refl, inl refl))
fields-BodyCases true none false = inr (_, _, refl, (refl, refl), λ a. absurd (cc a.1))
fields-BodyCases true (some schema_error) u =
    inr (_, _, refl, (refl, refl), λ a. elim a.2 [ inl e ↦ absurd (cc e) | inr e ↦ absurd (cc e) ])
fields-BodyCases true (some (violations [])) true = inl (refl, (refl, refl, inr refl))
fields-BodyCases true (some (violations [])) false =
    inr (_, _, refl, (refl, refl), λ a. absurd (cc a.1))
fields-BodyCases true (some (violations (v ∷ vs))) u = inr (
  _,
  _,
  refl,
  (refl, refl),
  λ a. elim a.2 [ inl e ↦ absurd (cc e) | inr e ↦ absurd (ground arith) ],
)

body_cases : {A : Type 0} (b : RequestBody) → BodyCases A b
body_cases b = fields-BodyCases b.readable b.schema_result b.unmarshaled

module _ {W A : Type 0} (success_code : ℕ) (endpoint_logic : M W A) (w : W) where
  -- The logic ran, and its outcome is answered.
  abbrev pub IsAnswered : Option (Response A) × W → Type 0
  IsAnswered r = IsResponseTo success_code (endpoint_logic w).0 r.0 × (r.1 ≡ (endpoint_logic w).1)

  -- A request with a body runs the endpoint's logic exactly if the body can be read, satisfies the
  -- schema and can be unmarshaled, and is otherwise answered with an error and without any effect.
  -- The logic's value comes with the success code, its error with the error's status, an error of
  -- another package shows only as an internal server error, and a panic gets no response.
  pub serve_request_lem :
      (body : RequestBody)
      → IsAcceptable body × IsAnswered (serve_request (some body) success_code endpoint_logic w)
        ⊎ (¬ IsAcceptable body)
          × ((x : Response A) × (e : Error) × IsErrorResponse x e
              × (serve_request (some body) success_code endpoint_logic w ≡ (some x, w)))
  unfolding serve_request
  serve_request_lem body = elim (body_cases {A = A} body) [
    | inl (n, a) ↦ inl (a, rw n (outcome_response_lem success_code (endpoint_logic w).0, refl))
    | inr (x, e, n, i, r) ↦ inr (r, (x, e, i, rw n))
  ]
