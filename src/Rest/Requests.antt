-- ===== src/Rest/Requests.antt =====
-- What the endpoints of v2/apiserver read of a request and write as its response.
use Prim.Native.Char.{code}
use brignext.Base.{
  ℕ, ◌+◌, ◌-◌, String, Bool, ◌&&◌, ◌||◌, Option, none, some, List, [], lookup, ltb, eqb, ◌==◌,
  if◌then◌else◌,
}
use Prim.Native.Nat.{◌*◌}
use brignext.Errors.{err_bad_request, invalid_limit}
use brignext.Effect.{M}
use brignext.Rest.Endpoints.{RequestBody, Response, error, serve_request, status_ok}
use brignext.Core.Types.{ListOptions}

-- The query of the URL and the variables of the route. The body is checked by `serve_request`; the
-- object that it is unmarshaled into is an argument of the handlers.
pub record Request : Type 0 where
  pub query : List (String × String)
  pub vars : List (String × String)
  pub body : RequestBody

text_or_empty : Option String → String
text_or_empty none = ""
text_or_empty (some s) = s

-- `r.URL.Query().Get(key)`
unfoldable pub query_of : Request → String → String
unfolding text_or_empty
query_of r key = text_or_empty (lookup key r.query)

-- `mux.Vars(r)[key]`
unfoldable pub var_of : Request → String → String
unfolding text_or_empty
var_of r key = text_or_empty (lookup key r.vars)

-- A response, a stream of values as they come, or nothing: the handler returned before it had
-- written anything, and the server sends an empty body with the status 200. A handler that panics
-- is aborted.
pub data Reply (A : Type 0) : Type 0 where
  answered : Response A → Reply A
  streaming : Reply A
  nothing : Reply A
  aborted : Reply A

unfoldable pub reply_of : {A : Type 0} → Option (Response A) → Reply A
reply_of none = aborted
reply_of (some response) = answered response

-- `ServeRequest`, of a request without a body and of one with.
module _ {W A : Type 0} where
  unfoldable pub serve : ℕ → M W A → W → Reply A × W
  unfolding reply_of
  serve success_code logic w = (
    reply_of (serve_request none success_code logic w).0,
    (serve_request none success_code logic w).1,
  )

  unfoldable pub serve_body : Request → ℕ → M W A → W → Reply A × W
  unfolding reply_of
  serve_body r success_code logic w = (
    reply_of (serve_request (some r.body) success_code logic w).0,
    (serve_request (some r.body) success_code logic w).1,
  )

-- `strconv.ParseBool`, where an error is not looked at.
unfoldable pub parse_bool : String → Bool
parse_bool s = s == "1" || s == "t" || s == "T" || s == "true" || s == "TRUE" || s == "True"

digits_value : ℕ → String → Option ℕ
digits_value n String.[] = some n
digits_value n (String.◌∷◌ c s) =
    let rest = digits_value (n * 10 + (code c - 48)) s in
    if ltb 47 (code c) && ltb (code c) 58 then rest else none

unsigned_value : String → Option ℕ
unsigned_value String.[] = none
unsigned_value (String.◌∷◌ c s) = digits_value 0 (String.◌∷◌ c s)

-- `strconv.ParseInt(s, 10, 64)`, of a number that is not negative. No bound: the limits that are
-- accepted are far below it.
unfoldable pub parse_int : String → Option ℕ
unfolding digits_value unsigned_value
parse_int String.[] = none
parse_int (String.◌∷◌ c s) =
    if eqb (code c) 43 then unsigned_value s else unsigned_value (String.◌∷◌ c s)

unfoldable pub within : Option ℕ → Option ℕ
within none = none
within (some n) = if ltb n 1 || ltb 100 n then none else some n

-- The limit of a list, 0 where none is asked for, and none where it is invalid.
unfoldable pub limit_of : String → Option ℕ
unfolding within
limit_of limit_str = if limit_str == "" then some 0 else within (parse_int limit_str)

unfoldable pub invalid_limit_response : {A : Type 0} → String → Response A
invalid_limit_response limit_str = record {
  status = 400;
  body = error (err_bad_request (invalid_limit limit_str) []);
}

module _ {W A : Type 0} where
  unfoldable pub with_limit : Request → (ListOptions → M W A) → Option ℕ → W → Reply A × W
  with_limit r logic none w = (answered (invalid_limit_response (query_of r "limit")), w)
  with_limit r logic (some limit) w =
      serve status_ok (logic (record { continue_ = query_of r "continue"; limit = limit })) w

  -- The handlers of the lists, but that of users.
  unfoldable pub serve_list : Request → (ListOptions → M W A) → W → Reply A × W
  unfolding with_limit query_of
  serve_list r logic w = with_limit r logic (limit_of (query_of r "limit")) w
