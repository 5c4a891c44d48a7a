-- ===== src/Authx/Rest/Scopes.antt =====
-- What the handler that revokes a role of the system does over the stores: `revoke` of
-- v2/apiserver/internal/system/rest/roles_endpoints.go.
use brignext.Base.{
  ℕ, ◌≡◌, refl, ap, arith, Bool, true, false, not, ◌&&◌, ◌⊎◌, inl, inr, List, [], ◌∷◌, ◌==◌,
  if◌then◌else◌,
}
use brignext.Errors.{
  Error, Outcome, ok, err, panic, out_of_fuel, err_authentication, err_authorization,
  err_bad_request, err_not_found, err_conflict, err_not_supported, err_internal_server, other,
  write_exception,
}
use brignext.Effect.Results.{bind-ok}
use brignext.Mongo.{Collection, Laws}
use brignext.Authx.Roles.{Role, RoleName, AuthorizeFn, role_admin, same_role}
use brignext.Authx.Principals.{User, ServiceAccount, Session}
use brignext.Authx.Docs.{
  AccountFilter, AccountUpdate, SessionFilter, SessionUpdate, user_semantics, account_semantics,
}
use brignext.Authx.Mongo.RolesStore
use brignext.Authx.Mongo.RolesStore.{roles_store}
use brignext.Authx.Mongo.RolesStore.Steps.{holds, is_among}
use brignext.Authx.Mongo.RolesStore.Principals.{revoke_lem}
use brignext.Authx.Services.SystemRoles.{RolesService, RoleAssignment, system_role_of, revoke}
use brignext.Authx.Rest.Accounts.{revoke_system_role}
use brignext.Core.Mongo.EventsStore.{Clock}
use brignext.Core.Rest.Projects.{assignment_of}
use brignext.Core.Services.ProjectRoles.Granted.{
  IsChanged, Keeps, for_principal-IsChanged, stored_users, stored_accounts,
}
use brignext.Rest.Endpoints.{
  Body, value, error, error_response, outcome_response, status_ok, serve_request,
}
use brignext.Rest.Requests.{Request, Reply, answered, query_of, reply_of, serve}

is_value : {A : Type 0} → Body A → Bool
is_value (value a) = true
is_value (error e) = false

error_response-body : (e : Error) → is_value {A = Unit {0}} (error_response e).body ≡ false
unfolding error_response is_value
error_response-body (err_authentication r) = refl
error_response-body (err_authorization r) = refl
error_response-body (err_bad_request r ds) = refl
error_response-body (err_not_found t i) = refl
error_response-body (err_conflict t i r) = refl
error_response-body (err_not_supported r) = refl
error_response-body err_internal_server = refl
error_response-body (other x) = refl
error_response-body (write_exception codes) = refl

value_of : {A : Type 0} → Reply A → Bool
unfolding is_value
value_of (answered response) = is_value response.body
value_of _ = false

-- Only what the logic returned without an error is answered with a value.
served-ok :
    (o : Outcome (Unit {0})) (c : ℕ) → value_of (reply_of (outcome_response c o)) ≡ true → o ≡ ok tt
unfolding value_of reply_of outcome_response
served-ok (ok tt) c h = refl
served-ok (err e) c h = absurd (cc (error_response-body e, h))
served-ok panic c h = absurd (cc h)
served-ok out_of_fuel c h = absurd (cc h)

-- The principal that a request names holds a role exactly as before; for a principal of a type that
-- is not known nothing is changed.
abbrev pub IsKept :
    Request → Role → List User → List ServiceAccount → List User → List ServiceAccount → Type 0
IsKept r q us accs us' accs' =
    (query_of r "principalType" ≡ "USER")
      × (holds {D = User} (λ u. u.id) (λ u. u.user_roles) (query_of r "principalID") q us'
          ≡ holds {D = User} (λ u. u.id) (λ u. u.user_roles) (query_of r "principalID") q us)
    ⊎ (query_of r "principalType" ≡ "SERVICE_ACCOUNT")
      × (holds {D = ServiceAccount} (λ b. b.id) (λ b. b.service_account_roles)
            (query_of r "principalID") q accs'
          ≡ holds {D = ServiceAccount} (λ b. b.id) (λ b. b.service_account_roles)
              (query_of r "principalID") q accs)
    ⊎ (us' ≡ us) × (accs' ≡ accs)

-- The role without a scope is another one than a role with a scope.
other_scope :
    (name : RoleName) (r : Request) (q : Role)
    → (q.scope == "") ≡ false
    → is_among q (system_role_of (assignment_of name r) ∷ []) ≡ false
unfolding is_among system_role_of assignment_of same_role
other_scope name r q n = rw n (ground arith)

kept : (b b' c d : Bool) → c ≡ true → d ≡ false → b' ≡ (if c then b && not d else false) → b' ≡ b
kept b b' c d y n e = ground arith

module _ {W : Type 0} (users_collection : Collection W User AccountFilter AccountUpdate)
    (sessions_collection : Collection W Session SessionFilter SessionUpdate)
    (service_accounts_collection : Collection W ServiceAccount AccountFilter AccountUpdate)
    (clock : Clock W) (users : W → List User) (accounts : W → List ServiceAccount)
    (users_law : Laws users_collection users user_semantics)
    (accounts_law : Laws service_accounts_collection accounts account_semantics)
    (authorize : AuthorizeFn W)
    (authorize_keeps : (roles : List Role)
      → Keeps users_collection sessions_collection service_accounts_collection clock users accounts
          users_law accounts_law
          (authorize roles)) where
  -- The service over the stores of MongoDB.
  abbrev pub system_roles_over_stores : RolesService W
  system_roles_over_stores = record {
    authorize = authorize;
    users_store =
        stored_users users_collection sessions_collection service_accounts_collection clock users
          accounts users_law accounts_law;
    service_accounts_store =
        stored_accounts users_collection sessions_collection service_accounts_collection clock users
          accounts users_law accounts_law;
    roles_store = roles_store users_collection service_accounts_collection;
  }

  -- `Revoke` takes exactly the role that is asked for, from a principal that exists.
  revoke-IsChanged :
      (a : RoleAssignment) (w : W)
      → (revoke system_roles_over_stores a w).0 ≡ ok tt
      → IsChanged users_collection sessions_collection service_accounts_collection clock users
          accounts users_law accounts_law a
          (λ q. λ b. b && not (is_among q (system_role_of a ∷ [])))
          (users w)
          (accounts w)
          (users (revoke system_roles_over_stores a w).1)
          (accounts (revoke system_roles_over_stores a w).1)
  unfolding revoke roles_store
  revoke-IsChanged a w h =
      let role = system_role_of a in
      let (_, e, h₁) = bind-ok (authorize (role_admin ∷ [])) _ w tt h in
      let w₁ = (authorize (role_admin ∷ []) w).1 in
      let (us, accs) = authorize_keeps (role_admin ∷ []) w in
      let revoked =
        revoke_lem users_collection service_accounts_collection users accounts users_law
          accounts_law a.principal_id (role ∷ []) in
      rw (e, ← us, ← accs)
        (for_principal-IsChanged users_collection sessions_collection service_accounts_collection
          clock users accounts users_law accounts_law a
          (λ t.
            RolesStore.revoke users_collection service_accounts_collection t a.principal_id
              (role ∷ []))
          (λ q. λ b. b && not (is_among q (role ∷ []))) w₁ (λ w. λ ok'. rw ok' at (revoked w).0)
          (λ w. λ ok'. rw ok' at (revoked w).1) h₁)

  -- When the handler that revokes a role of the system has answered with success, the principal
  -- that the request names holds a role that has a scope exactly if it held it before, whichever
  -- role the request names; for a principal of another type nothing is changed. The authorizer is
  -- taken to change no principal.
  pub revoke_system_role-scope :
      (name : RoleName) (r : Request) (w : W) (q : Role)
      → (q.scope == "") ≡ false
      → (revoke_system_role system_roles_over_stores name r w).0
        ≡ answered (record { status = status_ok; body = value tt })
      → IsKept r q
          (users w)
          (accounts w)
          (users (revoke_system_role system_roles_over_stores name r w).1)
          (accounts (revoke_system_role system_roles_over_stores name r w).1)
  unfolding revoke_system_role serve serve_request value_of
  revoke_system_role-scope name r w q n h =
      let a = assignment_of name r in
      let done = served-ok (revoke system_roles_over_stores a w).0 status_ok (ap value_of h) in
      elim (revoke-IsChanged a w done) [
        | inl (t, y, (_, f)) ↦ inl (t, kept _ _ _ _ y (other_scope name r q n) (f q))
        | inr (inl (t, y, (_, f))) ↦ inr (inl (t, kept _ _ _ _ y (other_scope name r q n) (f q)))
        | inr (inr (_, _, us, accs)) ↦ inr (inr (us, accs))
      ]
