-- ===== src/Authx/Services/Sessions.antt =====
-- v2/apiserver/internal/authx/sessions.go: the sessions service. The clients of OAuth2
-- (golang.org/x/oauth2) and of OpenID Connect (github.com/coreos/go-oidc) are parameters.
pub mod Safety
use brignext.Base.{
  ℕ, ◌+◌, String, Bool, true, false, not, ◌||◌, Option, none, some, [], ◌∷◌, eqb, ◌==◌,
  if◌then◌else◌,
}
use brignext.Errors.{
  err_not_supported, err_authentication, other, is_not_found, root_not_supported,
  oidc_not_supported, bad_credentials,
}
use brignext.Effect.{M, pure, fail, crash, refuse_if, attempt, ◌>>=◌, ◌>>◌}
use brignext.Authx.Roles.{AuthorizeFn, role_admin, role_project_creator, role_reader}
use brignext.Authx.Principals.{User, Session}
use brignext.Authx.Interfaces.{UsersStore, SessionsStore, Token}
use brignext.Core.Interfaces.{System}

pub record Claims : Type 0 where
  pub name : String
  pub email : String

-- `exchange` answers the "id_token" of the OAuth2 token, where that is a string.
pub record OAuth2Config (W : Type 0) : Type 0 where
  pub auth_code_url : String → String
  pub exchange : String → M W (Option String)

-- `verify` answers `Claims` of the identity token.
pub record TokenVerifier (W : Type 0) : Type 0 where
  pub verify : String → M W (M W Claims)

pub record OidcAuthDetails : Type 0 where
  pub oauth2_state : String
  pub token : String
  pub auth_url : String

pub record SessionsService (W : Type 0) : Type 0 where
  pub authorize : AuthorizeFn W
  pub sessions_store : SessionsStore W
  pub users_store : UsersStore W
  pub root_user_enabled : Bool
  pub hashed_root_user_password : String
  pub oauth2_config : Option (OAuth2Config W)
  pub oidc_token_verifier : Option (TokenVerifier W)
  pub system : System W

-- `time.Hour`, in nanoseconds.
abbrev pub hour : ℕ
hour = 3_600_000_000_000

module _ {W : Type 0} (s : SessionsService W) where
  unfoldable pub new_root_session : String → M W Session
  new_root_session token = do
    now ← s.system.now
    id ← s.system.new_uuid
    pure (record {
      id = id;
      created = none;
      root = true;
      user_id = "";
      hashed_oauth2_state = "";
      hashed_token = s.system.short_sha "" token;
      authenticated = some now;
      expires = some (now + hour);
    })

  unfoldable pub new_user_session : String → String → M W Session
  new_user_session oauth2_state token = do
    id ← s.system.new_uuid
    pure (record {
      id = id;
      created = none;
      root = false;
      user_id = "";
      hashed_oauth2_state = s.system.short_sha "" oauth2_state;
      hashed_token = s.system.short_sha "" token;
      authenticated = none;
      expires = none;
    })

  unfoldable pub create_root_session : String → String → M W Token
  unfolding new_root_session
  create_root_session username password = do
    token ← s.system.new_token 256
    refuse_if (not s.root_user_enabled) (err_not_supported root_not_supported)
    refuse_if
        (not (username == "root")
          || not (s.system.short_sha username password == s.hashed_root_user_password))
        (err_authentication bad_credentials)
    session ← new_root_session token
    now ← s.system.now
    s.sessions_store.create (record session { created = some now })
    pure (record { value = token })

  -- `s.oauth2Config.AuthCodeURL`, where the configuration may be nil.
  auth_code_url : Option (OAuth2Config W) → String → M W String
  auth_code_url none oauth2_state = crash
  auth_code_url (some config) oauth2_state = pure (config.auth_code_url oauth2_state)

  unfoldable pub create_user_session : M W OidcAuthDetails
  unfolding new_user_session auth_code_url
  create_user_session = do
    oauth2_state ← s.system.new_token 30
    token ← s.system.new_token 256
    session ← new_user_session oauth2_state token
    now ← s.system.now
    s.sessions_store.create (record session { created = some now })
    url ← auth_code_url s.oauth2_config oauth2_state
    pure (record { oauth2_state = oauth2_state; token = token; auth_url = url })

  -- "User 0 gets a bunch of roles automatically"
  unfoldable pub new_user : Claims → ℕ → User
  new_user claims count = record {
    id = claims.email;
    created = none;
    name = claims.name;
    locked = none;
    user_roles = if eqb count 0 then role_admin ∷ role_project_creator ∷ role_reader ∷ [] else [];
  }

  unfoldable pub create_new_user : Claims → M W User
  unfolding new_user
  create_new_user claims = do
    count ← s.users_store.count
    s.users_store.create (new_user claims count)
    pure (new_user claims count)

  unfoldable pub find_or_create_user : Claims → M W User
  unfolding create_new_user
  find_or_create_user claims =
      attempt (s.users_store.get claims.email) pure
        (λ e. if is_not_found e then create_new_user claims else fail e)

  -- The type assertion on the "id_token".
  unfoldable pub id_token_of : Option String → M W String
  id_token_of none = fail (other "OAuth2 token, did not include an OpenID Connect identity token")
  id_token_of (some raw) = pure raw

  unfoldable pub authenticate_with :
      OAuth2Config W → TokenVerifier W → String → String → M W (Unit {0})
  unfolding find_or_create_user id_token_of
  authenticate_with config verifier oauth2_state oidc_code = do
    session ← s.sessions_store.get_by_hashed_oauth2_state (s.system.short_sha "" oauth2_state)
    extra ← config.exchange oidc_code
    raw_id_token ← id_token_of extra
    read_claims ← verifier.verify raw_id_token
    claims ← read_claims
    user ← find_or_create_user claims
    now ← s.system.now
    s.sessions_store.authenticate session.id user.id (now + hour)

  -- With neither of them nil.
  unfoldable pub with_oidc :
      (OAuth2Config W → TokenVerifier W → M W (Unit {0}))
      → Option (OAuth2Config W)
      → Option (TokenVerifier W)
      → M W (Unit {0})
  with_oidc f (some config) (some verifier) = f config verifier
  with_oidc f _ _ = fail (err_not_supported oidc_not_supported)

  unfoldable pub authenticate : String → String → M W (Unit {0})
  unfolding with_oidc authenticate_with
  authenticate oauth2_state oidc_code =
      with_oidc (λ config. λ verifier. authenticate_with config verifier oauth2_state oidc_code)
        s.oauth2_config s.oidc_token_verifier

  unfoldable pub get_by_oauth2_state : String → M W Session
  get_by_oauth2_state oauth2_state =
      s.sessions_store.get_by_hashed_oauth2_state (s.system.short_sha "" oauth2_state)

  unfoldable pub get_by_token : String → M W Session
  get_by_token token = s.sessions_store.get_by_hashed_token (s.system.short_sha "" token)

  unfoldable pub delete : String → M W (Unit {0})
  delete id = s.sessions_store.delete id
