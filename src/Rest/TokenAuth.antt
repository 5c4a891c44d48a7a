-- ===== src/Rest/TokenAuth.antt =====
-- v2/apiserver/internal/lib/restmachinery/authn/token_auth.go: who a request comes from.
pub mod Justified
pub mod UserReads
use Prim.Native.Char.{Char, code}
use brignext.Base.{
  ℕ, String, Bool, true, false, not, ◌&&◌, Option, none, some, is_some, ltb, eqb, ◌==◌,
  if◌then◌else◌,
}
use brignext.Errors.{
  Error, err_authentication, err_internal_server, is_not_found, header_missing, header_malformed,
  session_not_found, root_disabled, not_authenticated, token_expired,
}
use brignext.Effect.{M, pure, attempt, ◌>>=◌, ◌>>◌}
use brignext.Authx.Principals.{
  Principal, User, ServiceAccount, Session, observer, root, scheduler, worker, user_principal,
  service_account_principal,
}
use brignext.Core.Types.{Time, Event}

pub record TokenAuthFilter (W : Type 0) : Type 0 where
  pub find_session : String → M W Session
  pub find_event : String → M W Event
  pub find_user : String → M W User
  pub find_service_account : String → M W ServiceAccount
  pub root_user_enabled : Bool
  pub hashed_scheduler_token : String
  pub hashed_observer_token : String
  -- `crypto.ShortSHA` and `time.Now`
  pub short_sha : String → String → String
  pub now : M W Time

-- What becomes of a request: an error response, a bare 403, or the handler under a principal and a
-- session's identifier ("" where there is no session).
pub data Verdict : Type 0 where
  refused : ℕ → Error → Verdict
  forbidden : Verdict
  accepted : Principal → String → Verdict

abbrev unauthorized : ℕ
unauthorized = 401

abbrev failure : Verdict
failure = refused 500 err_internal_server

-- `strings.SplitN(s, " ", 2)`, where it has two parts.
unfoldable pub split_at_space : String → Option (String × String)
split_at_space String.[] = none
split_at_space (String.◌∷◌ c s) =
    let rest = split_at_space s in
    if eqb (code c) 32
    then some ("", s)
    else elim rest [ none ↦ none | some (a, b) ↦ some (String.◌∷◌ c a, b) ]

bearer : Option (String × String) → Option String
bearer none = none
bearer (some (scheme, token)) = if scheme == "Bearer" then some token else none

-- The token of an "Authorization" header.
unfoldable pub bearer_token : String → Option String
unfolding bearer
bearer_token header = bearer (split_at_space header)

module _ {W : Type 0} (t : TokenAuthFilter W) where
  accept_user : Session → User → M W Verdict
  accept_user session user =
      if is_some user.locked
      then pure forbidden
      else pure (accepted (user_principal user) session.id)

  -- The principal of a session that passed the checks.
  session_principal : Session → M W Verdict
  session_principal session =
      if session.root
      then pure (accepted root session.id)
      else attempt (t.find_user session.user_id) (accept_user session) (λ _. pure failure)

  check_expiry : Session → Option Time → M W Verdict
  check_expiry session none = session_principal session
  check_expiry session (some expires) = do
    now ← t.now
    if ltb expires now
        then pure (refused unauthorized (err_authentication token_expired))
        else session_principal session

  check_session : Session → M W Verdict
  check_session session =
      if session.root && not t.root_user_enabled
      then pure (refused unauthorized (err_authentication root_disabled))
      else if not (is_some session.authenticated)
      then pure (refused unauthorized (err_authentication not_authenticated))
      else check_expiry session session.expires

  try_session : String → M W Verdict
  try_session token = attempt (t.find_session token) check_session (λ e.
      if is_not_found e
      then pure (refused unauthorized (err_authentication session_not_found))
      else pure failure)

  accept_service_account : ServiceAccount → M W Verdict
  accept_service_account service_account =
      if is_some service_account.locked
      then pure forbidden
      else pure (accepted (service_account_principal service_account) "")

  -- "Is it a ServiceAccount's token?"
  try_service_account : String → M W Verdict
  try_service_account token =
      attempt (t.find_service_account token) accept_service_account
        (λ e. if is_not_found e then try_session token else pure failure)

  -- "Is it a Worker's token?"
  try_worker : String → M W Verdict
  try_worker token =
      attempt (t.find_event token) (λ event. pure (accepted (worker event.meta.id) ""))
        (λ e. if is_not_found e then try_service_account token else pure failure)

  unfoldable pub authenticate : String → M W Verdict
  unfolding try_worker try_service_account try_session check_session check_expiry session_principal
      accept_user accept_service_account
  authenticate token =
      if t.short_sha "" token == t.hashed_scheduler_token
      then pure (accepted scheduler "")
      else if t.short_sha "" token == t.hashed_observer_token
      then pure (accepted observer "")
      else try_worker token

  with_token : Option String → M W Verdict
  with_token none = pure (refused unauthorized (err_authentication header_malformed))
  with_token (some token) = authenticate token

  -- `Decorate` up to the call of the handler.
  unfoldable pub decorate : String → M W Verdict
  unfolding with_token
  decorate header =
      if header == ""
      then pure (refused unauthorized (err_authentication header_missing))
      else with_token (bearer_token header)

  -- `Decorate`: the handler runs only under a principal.
  unfoldable pub decorated : {A : Type 0} → (Principal → String → M W A) → String → M W (Option A)
  decorated handle header = do
    verdict ← decorate header
    elim verdict [
      | accepted principal session_id ↦ handle principal session_id >>= λ a. pure (some a)
      | _ ↦ pure none
    ]
