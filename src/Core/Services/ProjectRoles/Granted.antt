-- ===== src/Core/Services/ProjectRoles/Granted.antt =====
-- What the service of a project's roles promises over the stores of v2/apiserver/internal/authx:
-- `Grant` of v2/apiserver/internal/core/project_roles.go.
use mathlib.Core.Path.{fun_ext}
use brignext.Base.{
  ◌≡◌, refl, String, Bool, true, false, ◌||◌, ◌⊎◌, inl, inr, Option, none, some, List, [], ◌∷◌,
  Bool-cases, ◌==◌, eq_iff,
}
use brignext.Errors.{Error, ok, err, err_not_found}
use brignext.Effect.{M, ◌>>=◌}
use brignext.Effect.Results.{bind-ok}
use brignext.Mongo.{Collection, Laws, Semantics}
use brignext.Authx.Roles.{Role, RoleName, RoleType, AuthorizeFn, role_project_admin}
use brignext.Authx.Principals.{User, ServiceAccount, Session, PrincipalType, user, service_account}
use brignext.Authx.Docs.{
  AccountFilter, AccountUpdate, SessionFilter, SessionUpdate, no_account_criteria, user_semantics,
  account_semantics,
}
use brignext.Authx.Interfaces
use brignext.Authx.Mongo.UsersStore
use brignext.Authx.Mongo.ServiceAccountsStore
use brignext.Authx.Mongo.UsersStore.{users_store}
use brignext.Authx.Mongo.ServiceAccountsStore.{service_accounts_store}
use brignext.Authx.Mongo.RolesStore
use brignext.Authx.Mongo.RolesStore.{roles_store}
use brignext.Authx.Mongo.RolesStore.Steps.{RoleSemantics, exists, is_among}
use brignext.Authx.Mongo.RolesStore.Grants.{Holds}
use brignext.Authx.Mongo.RolesStore.Principals.{
  user-RoleSemantics, account-RoleSemantics, grant_lem,
}
use brignext.Authx.Services.SystemRoles.{RoleAssignment, for_principal}
use brignext.Core.Interfaces.{ProjectsStore}
use brignext.Core.Types.{Project}
use brignext.Core.Mongo.EventsStore.{Clock}
use brignext.Core.Mongo.WorkersStore.Updates.{any-find_first}
use brignext.Core.Services.ProjectRoles.{ProjectRolesService, grant, project_role_of}

module _ {W D : Type 0} (collection : Collection W D AccountFilter AccountUpdate)
    (docs : W → List D) (s : Semantics D AccountFilter AccountUpdate)
    (laws : Laws collection docs s) (id_of : D → String) (roles_of : D → List Role)
    (role_laws : RoleSemantics s id_of roles_of) where
  -- A principal that was read exists, and reading it has changed nothing.
  found-exists :
      (id : String) (f : Option D → M W D) (w : W) (d : D)
      → ((o : Option D) (w : W) → (f o w).1 ≡ w)
      → ((w : W) → (x : Error) × ((f none w).0 ≡ err x))
      → let read = collection.find_one (record no_account_criteria { id = some id }) >>= f in
        (read w).0 ≡ ok d → (exists id_of roles_of id (docs w) ≡ true) × (docs (read w).1 ≡ docs w)
  unfolding exists
  found-exists id f w d keeps none_fails h =
      let c = record no_account_criteria { id = some id } in
      let (o, e, r) = bind-ok (collection.find_one c) f w d h in
      let by_id : s.matches c ≡ (λ d. id_of d == id) = fun_ext (role_laws.id_law id) in
      elim (laws.find_one_law c w) [
        | inl (a, b) ↦ elim (any-find_first (s.matches c) (docs w)) [
          | inl (n, e') ↦
              let (x, failed) = none_fails (collection.find_one c w).1 in
              absurd (cc (rw (a, e', failed) at h))
          | inr (y, (d', e')) ↦ (rw by_id at y, rw (a, keeps _ _, b))
        ]
        | inr (x, a, b) ↦ absurd (cc (a, e))
      ]

-- The role of this name in a project, and in no other.
abbrev pub role_in : String → RoleName → Role
role_in project_id name = record { type_ = RoleType.project; name = name; scope = project_id }

module _ {W : Type 0} (users_collection : Collection W User AccountFilter AccountUpdate)
    (sessions_collection : Collection W Session SessionFilter SessionUpdate)
    (service_accounts_collection : Collection W ServiceAccount AccountFilter AccountUpdate)
    (clock : Clock W) (users : W → List User) (accounts : W → List ServiceAccount)
    (users_law : Laws users_collection users user_semantics)
    (accounts_law : Laws service_accounts_collection accounts account_semantics) where
  -- The principal that an assignment names exists, and the roles that it holds are changed; for a
  -- principal of another type nothing is.
  abbrev pub IsChanged :
      RoleAssignment
      → (Role → Bool → Bool)
      → List User
      → List ServiceAccount
      → List User
      → List ServiceAccount
      → Type 0
  IsChanged a change us accs us' accs' =
      (a.principal_type ≡ "USER")
        × (exists {D = User} (λ u. u.id) (λ u. u.user_roles) a.principal_id us ≡ true)
        × Holds users_collection users user_semantics users_law (λ u. u.id) (λ u. u.user_roles)
            user-RoleSemantics a.principal_id change us us'
      ⊎ (a.principal_type ≡ "SERVICE_ACCOUNT")
        × (exists {D = ServiceAccount} (λ b. b.id) (λ b. b.service_account_roles) a.principal_id
              accs
            ≡ true)
        × Holds service_accounts_collection accounts account_semantics accounts_law (λ b. b.id)
            (λ b. b.service_account_roles) account-RoleSemantics a.principal_id change accs accs'
      ⊎ ((a.principal_type == "USER") ≡ false)
        × ((a.principal_type == "SERVICE_ACCOUNT") ≡ false)
        × (us' ≡ us)
        × (accs' ≡ accs)

  abbrev pub stored_users : Interfaces.UsersStore W
  stored_users = users_store users_collection sessions_collection clock

  abbrev pub stored_accounts : Interfaces.ServiceAccountsStore W
  stored_accounts = service_accounts_store service_accounts_collection clock

  keeps_user :
      (id : String) (o : Option User) (w : W)
      → (UsersStore.found users_collection sessions_collection clock id o w).1 ≡ w
  unfolding UsersStore.found
  keeps_user id none w = refl
  keeps_user id (some u) w = refl

  keeps_account :
      (id : String) (o : Option ServiceAccount) (w : W)
      → (ServiceAccountsStore.found service_accounts_collection clock id o w).1 ≡ w
  unfolding ServiceAccountsStore.found
  keeps_account id none w = refl
  keeps_account id (some b) w = refl

  pub for_principal-IsChanged :
      (a : RoleAssignment) (m : PrincipalType → M W (Unit {0})) (change : Role → Bool → Bool)
      (w : W)
      → ((w : W)
          → (m user w).0 ≡ ok tt
          → Holds users_collection users user_semantics users_law
              (λ u. u.id)
              (λ u. u.user_roles)
              user-RoleSemantics
              a.principal_id
              change
              (users w)
              (users (m user w).1))
      → ((w : W)
          → (m service_account w).0 ≡ ok tt
          → Holds service_accounts_collection accounts account_semantics accounts_law
              (λ b. b.id)
              (λ b. b.service_account_roles)
              account-RoleSemantics
              a.principal_id
              change
              (accounts w)
              (accounts (m service_account w).1))
      → (for_principal stored_users stored_accounts a m w).0 ≡ ok tt
      → IsChanged a change
          (users w)
          (accounts w)
          (users (for_principal stored_users stored_accounts a m w).1)
          (accounts (for_principal stored_users stored_accounts a m w).1)
  unfolding for_principal users_store service_accounts_store UsersStore.get UsersStore.found
      ServiceAccountsStore.get ServiceAccountsStore.found
  for_principal-IsChanged a m change w of_user of_account h =
      elim (Bool-cases (a.principal_type == "USER")) [
        | inl y ↦
            let id = a.principal_id in
            let read = UsersStore.get users_collection sessions_collection clock id in
            let (u, e, changed) = bind-ok read (λ _. m user) w tt (rw y at h) in
            let (there, same) =
              found-exists users_collection users user_semantics users_law (λ u. u.id)
                (λ u. u.user_roles) user-RoleSemantics id
                (UsersStore.found users_collection sessions_collection clock id) w u
                (λ o. λ w. keeps_user id o w) (λ w. (err_not_found "User" id, refl)) e in
            rw y (
              inl (
                (eq_iff a.principal_type "USER").0 y,
                there,
                rw e (rw same at (of_user (read w).1 changed)),
              ))
        | inr n ↦ elim (Bool-cases (a.principal_type == "SERVICE_ACCOUNT")) [
          | inl y ↦
              let id = a.principal_id in
              let read = ServiceAccountsStore.get service_accounts_collection clock id in
              let (b, e, changed) = bind-ok read (λ _. m service_account) w tt (rw (n, y) at h) in
              let (there, same) =
                found-exists service_accounts_collection accounts account_semantics accounts_law
                  (λ b. b.id) (λ b. b.service_account_roles) account-RoleSemantics id
                  (ServiceAccountsStore.found service_accounts_collection clock id) w b
                  (λ o. λ w. keeps_account id o w) (λ w. (err_not_found "ServiceAccount" id, refl))
                  e in
              rw (n, y)
                (inr (
                  inl (
                    (eq_iff a.principal_type "SERVICE_ACCOUNT").0 y,
                    there,
                    rw e (rw same at (of_account (read w).1 changed)),
                  )))
          | inr n' ↦ rw (n, n') (inr (inr (refl, refl, refl, refl)))
        ]
      ]

  -- What a call does to the principals.
  abbrev pub Keeps : {A : Type 0} → M W A → Type 0
  Keeps m = (w : W) → (users (m w).1 ≡ users w) × (accounts (m w).1 ≡ accounts w)

  module _ (authorize : AuthorizeFn W) (projects_store : ProjectsStore W)
      (authorize_keeps : (roles : List Role) → Keeps (authorize roles))
      (get_keeps : (id : String) → Keeps (projects_store.get id)) where
    -- The service over the stores of MongoDB.
    abbrev pub over_stores : ProjectRolesService W
    over_stores = record {
      authorize = authorize;
      projects_store = projects_store;
      users_store = stored_users;
      service_accounts_store = stored_accounts;
      roles_store = roles_store users_collection service_accounts_collection;
    }

    -- Where `Grant` of a role of a project succeeds, the project has been read and the principal that
    -- is named exists, who then holds, besides the roles held before, the role with this project as
    -- its scope and no other; or nothing is changed, for a principal that is neither a user nor a
    -- service account. The authorizer and the store of projects are taken to change no principal.
    pub grant_project_role_lem :
        (project_id : String) (a : RoleAssignment) (w : W)
        → (grant over_stores project_id a w).0 ≡ ok tt
        → ((project : Project) × ((projects_store.get project_id
                (authorize (role_project_admin project_id ∷ []) w).1).0
              ≡ ok project))
          × IsChanged a
              (λ q. λ b. b || is_among q (role_in project_id a.role ∷ []))
              (users w)
              (accounts w)
              (users (grant over_stores project_id a w).1)
              (accounts (grant over_stores project_id a w).1)
    unfolding grant roles_store project_role_of
    grant_project_role_lem project_id a w h =
        let role = project_role_of project_id a in
        let (_, e, h₁) = bind-ok (authorize (role_project_admin project_id ∷ [])) _ w tt h in
        let w₁ = (authorize (role_project_admin project_id ∷ []) w).1 in
        let (project, e', h₂) = bind-ok (projects_store.get project_id) _ w₁ tt h₁ in
        let w₂ = (projects_store.get project_id w₁).1 in
        let (us, accs) = authorize_keeps (role_project_admin project_id ∷ []) w in
        let (us', accs') = get_keeps project_id w₁ in
        let granted =
          grant_lem users_collection service_accounts_collection users accounts users_law
            accounts_law a.principal_id (role ∷ []) in
        (
          (project, e'),
          rw (e, e', ← us, ← us', ← accs, ← accs')
              (for_principal-IsChanged a
                (λ t.
                  RolesStore.grant users_collection service_accounts_collection t a.principal_id
                    (role ∷ []))
                (λ q. λ b. b || is_among q (role ∷ [])) w₂ (λ w. λ ok'. rw ok' at (granted w).0)
                (λ w. λ ok'. rw ok' at (granted w).1) h₂),
        )
