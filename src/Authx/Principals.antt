-- ===== src/Authx/Principals.antt =====
-- v2/apiserver/internal/authx/principals.go, with the users, service accounts and sessions that
-- principals come from.
use brignext.Base.{ℕ, String, Bool, Option, List, [], ◌∷◌}
use brignext.Authx.Roles.{
  Role, role_admin, role_event_creator, role_project_admin, role_project_creator,
  role_project_developer, role_project_user, role_reader, role_observer, role_scheduler,
  role_worker, role_scope_global,
}

pub record User : Type 0 where
  pub id : String
  pub created : Option ℕ
  pub name : String
  pub locked : Option ℕ
  pub user_roles : List Role

pub record ServiceAccount : Type 0 where
  pub id : String
  pub created : Option ℕ
  pub description : String
  pub hashed_token : String
  pub locked : Option ℕ
  pub service_account_roles : List Role

pub record Session : Type 0 where
  pub id : String
  pub created : Option ℕ
  pub root : Bool
  pub user_id : String
  pub hashed_oauth2_state : String
  pub hashed_token : String
  pub authenticated : Option ℕ
  pub expires : Option ℕ

pub data PrincipalType : Type 0 where
  service_account user : PrincipalType

-- The implementations of the interface `Principal`.
pub data Principal : Type 0 where
  observer root scheduler : Principal
  worker : String → Principal
  user_principal : User → Principal
  service_account_principal : ServiceAccount → Principal

unfoldable pub roles : Principal → List Role
roles observer = role_observer ∷ []
roles root =
    role_admin
    ∷ role_event_creator role_scope_global
    ∷ role_project_admin role_scope_global
    ∷ role_project_creator
    ∷ role_project_developer role_scope_global
    ∷ role_project_user role_scope_global
    ∷ role_reader
    ∷ []
roles scheduler = role_scheduler ∷ []
roles (worker event_id) = role_worker event_id ∷ []
roles (user_principal u) = u.user_roles
roles (service_account_principal a) = a.service_account_roles
