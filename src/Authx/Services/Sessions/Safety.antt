-- ===== src/Authx/Services/Sessions/Safety.antt =====
-- Who gets a session that is authenticated: `CreateRootSession` and `Authenticate` of
-- v2/apiserver/internal/authx/sessions.go.
use brignext.Base.{
  ◌≡◌, refl, sym, ◌∙◌, ap, subst, Bool-cases, ◌+◌, String, Bool, true, false, not, ◌||◌, ◌⊎◌, inl,
  inr, Option, none, some, List, [], ◌∷◌, eqb, if◌then◌else◌, ℕ, arith, eq_iff, ◌==◌,
}
use brignext.Errors.{
  Error, ok, err, is_not_found, err_not_supported, err_authentication, root_not_supported,
  bad_credentials,
}
use brignext.Effect.{M, refuse_if}
use brignext.Effect.Results.{bind-ok, ok-injective, attempt-ok, refuse_if-ok}
use brignext.Authx.Principals.{User, Session}
use brignext.Authx.Roles.{Role, role_admin, role_project_creator, role_reader}
use brignext.Authx.Interfaces.{Token}
use brignext.Core.Types.{Time}
use brignext.Authx.Services.Sessions.{
  SessionsService, Claims, OAuth2Config, TokenVerifier, hour, new_root_session, create_root_session,
  new_user, create_new_user, find_or_create_user, id_token_of, authenticate_with, with_oidc,
  authenticate,
}

-- The roles of a new user, by the number of those that there are.
abbrev pub first_roles : ℕ → List Role
first_roles count = if eqb count 0 then role_admin ∷ role_project_creator ∷ role_reader ∷ [] else []

unrefused : (b : Bool) → not b ≡ false → b ≡ true
unrefused b h = ground arith

neither : (a b : Bool) → (not a || not b) ≡ false → (a ≡ true) × (b ≡ true)
neither a b h = ground arith

module _ {W : Type 0} (s : SessionsService W) where
  new_root_session-ok :
      (token : String) (w : W) (session : Session)
      → (new_root_session s token w).0 ≡ ok session
      → (session.root ≡ true)
        × (session.hashed_token ≡ s.system.short_sha "" token)
        × ((now : Time) × ((s.system.now w).0 ≡ ok now)
            × (session.authenticated ≡ some now)
            × (session.expires ≡ some (now + hour)))
  unfolding new_root_session
  new_root_session-ok token w session h =
      let (now, e₁, h₁) = bind-ok s.system.now _ w session h in
      let (id, e₂, h₂) = bind-ok s.system.new_uuid _ (s.system.now w).1 session h₁ in
      let made = ok-injective h₂ in
      (
        ap (λ (x : Session). x.root) (sym made),
        ap (λ (x : Session). x.hashed_token) (sym made),
        (
          now,
          e₁,
          ap (λ (x : Session). x.authenticated) (sym made),
          ap (λ (x : Session). x.expires) (sym made),
        ),
      )

  -- `CreateRootSession` answers with a token only where the root user is enabled, the name is
  -- "root" and the password has the configured hash; a root session with the token's hash has then
  -- been stored, which is authenticated at the time that the clock shows and expires an hour after.
  pub create_root_session-ok :
      (username password : String) (w : W) (t : Token)
      → (create_root_session s username password w).0 ≡ ok t
      → (s.root_user_enabled ≡ true)
        × (username ≡ "root")
        × (s.system.short_sha username password ≡ s.hashed_root_user_password)
        × ((session : Session) × (now : Time) × (w₁ : W) × (w₂ : W) × ((s.system.now w₁).0 ≡ ok now)
            × ((s.sessions_store.create session w₂).0 ≡ ok tt)
            × (session.root ≡ true)
            × (session.hashed_token ≡ s.system.short_sha "" t.value)
            × (session.authenticated ≡ some now)
            × (session.expires ≡ some (now + hour)))
  unfolding create_root_session new_root_session
  create_root_session-ok username password w t h =
      let (token, e₁, h₁) = bind-ok (s.system.new_token 256) _ w t h in
      let w₁ = (s.system.new_token 256 w).1 in
      let disabled = refuse_if (not s.root_user_enabled) (err_not_supported root_not_supported) in
      let (u, e₂, h₂) = bind-ok disabled _ w₁ t h₁ in
      let w₂ = (disabled w₁).1 in
      let wrong =
        not (username == "root")
        || not (s.system.short_sha username password == s.hashed_root_user_password) in
      let refused = refuse_if wrong (err_authentication bad_credentials) in
      let (v, e₃, h₃) = bind-ok refused _ w₂ t h₂ in
      let w₃ = (refused w₂).1 in
      let (session, e₄, h₄) = bind-ok (new_root_session s token) _ w₃ t h₃ in
      let w₄ = (new_root_session s token w₃).1 in
      let (now, e₅, h₅) = bind-ok s.system.now _ w₄ t h₄ in
      let w₅ = (s.system.now w₄).1 in
      let store = s.sessions_store.create (record session { created = some now }) in
      let (z, e₆, h₆) = bind-ok store _ w₅ t h₅ in
      let (r, ht, (at, read, a, x)) = new_root_session-ok token w₃ session e₄ in
      let passed = (refuse_if-ok wrong (err_authentication bad_credentials) w₂ e₃).0 in
      (
        unrefused s.root_user_enabled
            (refuse_if-ok (not s.root_user_enabled) (err_not_supported root_not_supported) w₁ e₂).0,
        (eq_iff username "root").0 (neither (username == "root") _ passed).0,
        (eq_iff _ _).0 (neither (username == "root") _ passed).1,
        (
          record session { created = some now },
          at,
          w₃,
          w₅,
          read,
          e₆,
          r,
          subst (λ (t : Token). session.hashed_token ≡ s.system.short_sha "" t.value)
              (ok-injective h₆) ht,
          a,
          x,
        ),
      )

  -- The user that a session is authenticated as: one that was found by the email address of the
  -- claims, or a new one, which has the roles of an administrator only if there were no users.
  abbrev pub IsUserOf : Claims → User → Type 0
  IsUserOf claims user =
      ((w : W) × ((s.users_store.get claims.email w).0 ≡ ok user))
      ⊎ ((count : ℕ) × (w : W) × (w' : W) × (x : Error) × ((s.users_store.get claims.email w).0
            ≡ err x)
          × (is_not_found x ≡ true)
          × ((s.users_store.count (s.users_store.get claims.email w).1).0 ≡ ok count)
          × (user.id ≡ claims.email)
          × (user.locked ≡ none)
          × (user.user_roles ≡ first_roles count)
          × ((s.users_store.create user w').0 ≡ ok tt))

  find_or_create_user-IsUserOf :
      (claims : Claims) (w : W) (user : User)
      → (find_or_create_user s claims w).0 ≡ ok user
      → IsUserOf claims user
  unfolding find_or_create_user create_new_user new_user
  find_or_create_user-IsUserOf claims w user h =
      elim (attempt-ok (s.users_store.get claims.email) _ _ w user h) [
        | inl (u, e, k) ↦ inl (w, e ∙ k)
        | inr (x, e, k) ↦ elim (Bool-cases (is_not_found x)) [
          | inr n ↦ absurd (cc (rw n at k))
          | inl y ↦
              let w₁ = (s.users_store.get claims.email w).1 in
              let (count, e₁, k₁) = bind-ok s.users_store.count _ w₁ user (rw y at k) in
              let w₂ = (s.users_store.count w₁).1 in
              let (z, e₂, k₂) =
                bind-ok (s.users_store.create (new_user s claims count)) _ w₂ user k₁ in
              inr (
                count,
                w,
                w₂,
                x,
                e,
                y,
                e₁,
                ap (λ (u : User). u.id) (sym (ok-injective k₂)),
                ap (λ (u : User). u.locked) (sym (ok-injective k₂)),
                ap (λ (u : User). u.user_roles) (sym (ok-injective k₂)),
                subst (λ v. (s.users_store.create v w₂).0 ≡ ok tt) (ok-injective k₂) e₂,
              )
        ]
      ]

  -- The session was found by the hash of the state, the claims are those of an identity token that
  -- the provider gave for the code and that was verified, and the session has been authenticated
  -- as the user of the claims, for an hour from the time that the clock showed just before.
  abbrev pub IsAuthenticated : OAuth2Config W → TokenVerifier W → String → String → Type 0
  IsAuthenticated config verifier oauth2_state oidc_code =
      (session : Session) × (raw : String) × (read_claims : M W Claims) × (claims : Claims)
      × (user : User) × (now : Time) × (w : W) × (w₁ : W) × (w₂ : W) × (w₃ : W) × (w₄ : W)
      × ((s.sessions_store.get_by_hashed_oauth2_state (s.system.short_sha "" oauth2_state) w).0
          ≡ ok session)
      × ((config.exchange oidc_code w₁).0 ≡ ok (some raw))
      × ((verifier.verify raw w₂).0 ≡ ok read_claims)
      × ((read_claims w₃).0 ≡ ok claims)
      × IsUserOf claims user
      × ((s.system.now w₄).0 ≡ ok now)
      × ((s.sessions_store.authenticate session.id user.id (now + hour) (s.system.now w₄).1).0
          ≡ ok tt)

  id_token_of-ok :
      (o : Option String) (w : W) (raw : String)
      → (id_token_of s o w).0 ≡ ok raw
      → (o ≡ some raw) × ((id_token_of s o w).1 ≡ w)
  unfolding id_token_of
  id_token_of-ok none w raw h = absurd (cc h)
  id_token_of-ok (some r) w raw h = (ap some (ok-injective h), refl)

  authenticate_with-ok :
      (config : OAuth2Config W) (verifier : TokenVerifier W) (oauth2_state oidc_code : String)
      (w : W)
      → (authenticate_with s config verifier oauth2_state oidc_code w).0 ≡ ok tt
      → IsAuthenticated config verifier oauth2_state oidc_code
  unfolding authenticate_with
  authenticate_with-ok config verifier oauth2_state oidc_code w h =
      let find = s.sessions_store.get_by_hashed_oauth2_state (s.system.short_sha "" oauth2_state) in
      let (session, e₁, h₁) = bind-ok find _ w tt h in
      let w₁ = (find w).1 in
      let (extra, e₂, h₂) = bind-ok (config.exchange oidc_code) _ w₁ tt h₁ in
      let w₂ = (config.exchange oidc_code w₁).1 in
      let (raw, e₃, h₃) = bind-ok (id_token_of s extra) _ w₂ tt h₂ in
      let (is_raw, same) = id_token_of-ok extra w₂ raw e₃ in
      let w₃ = (id_token_of s extra w₂).1 in
      let (read_claims, e₄, h₄) = bind-ok (verifier.verify raw) _ w₃ tt h₃ in
      let w₄ = (verifier.verify raw w₃).1 in
      let (claims, e₅, h₅) = bind-ok read_claims _ w₄ tt h₄ in
      let w₅ = (read_claims w₄).1 in
      let (user, e₆, h₆) = bind-ok (find_or_create_user s claims) _ w₅ tt h₅ in
      let w₆ = (find_or_create_user s claims w₅).1 in
      let (now, e₇, h₇) = bind-ok s.system.now _ w₆ tt h₆ in
      (
        session,
        raw,
        read_claims,
        claims,
        user,
        now,
        w,
        w₁,
        w₃,
        w₄,
        w₆,
        e₁,
        subst (λ o. (config.exchange oidc_code w₁).0 ≡ ok o) is_raw e₂,
        e₄,
        e₅,
        find_or_create_user-IsUserOf claims w₅ user e₆,
        e₇,
        h₇,
      )

  -- `Authenticate` succeeds only where OpenID Connect is configured, and only for a session that
  -- was found by the state; that session has then been authenticated, for an hour from the time that
  -- the clock showed just before, as the user whose email address is in the verified claims: one
  -- that was found, or a new one, who has the roles of an administrator, of a creator of projects
  -- and of a reader if there were no users, and no roles otherwise.
  pub authenticate-ok :
      (oauth2_state oidc_code : String) (w : W)
      → (authenticate s oauth2_state oidc_code w).0 ≡ ok tt
      → (config : OAuth2Config W) × (verifier : TokenVerifier W) × (s.oauth2_config ≡ some config)
        × (s.oidc_token_verifier ≡ some verifier)
        × IsAuthenticated config verifier oauth2_state oidc_code
  unfolding authenticate with_oidc
  authenticate-ok oauth2_state oidc_code w h = go s.oauth2_config s.oidc_token_verifier refl refl h
    where
      go :
          (o : Option (OAuth2Config W)) (v : Option (TokenVerifier W))
          → s.oauth2_config ≡ o
          → s.oidc_token_verifier ≡ v
          → (with_oidc s
              (λ config. λ verifier. authenticate_with s config verifier oauth2_state oidc_code)
              o
              v
              w).0
            ≡ ok tt
          → (config : OAuth2Config W) × (verifier : TokenVerifier W) × (s.oauth2_config
              ≡ some config)
            × (s.oidc_token_verifier ≡ some verifier)
            × IsAuthenticated config verifier oauth2_state oidc_code
      go (some config) (some verifier) a b k =
          (config, verifier, a, b, authenticate_with-ok config verifier oauth2_state oidc_code w k)
      go none v a b k = absurd (cc k)
      go (some config) none a b k = absurd (cc k)
