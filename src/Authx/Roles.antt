-- ===== src/Authx/Roles.antt =====
-- v2/apiserver/internal/authx/roles.go and authorizer.go.
use Prim.Native.Nat.{Ordering}
use Prim.Native.String.{compare}
use brignext.Base.{String, Bool, true, false, ◌&&◌, List, any, ◌==◌}
use brignext.Errors.{err_authorization, no_reason}
use brignext.Effect.{M, pure, fail}

pub data RoleName : Type 0 where
  admin event_creator project_admin project_creator project_developer project_user reader : RoleName
  observer scheduler worker : RoleName

pub data RoleType : Type 0 where
  project system : RoleType

-- An empty scope is Go's zero value.
pub record Role : Type 0 where
  pub type_ : RoleType
  pub name : RoleName
  pub scope : String

abbrev pub role_scope_global : String
role_scope_global = "*"

abbrev system_role : RoleName → String → Role
system_role name scope = record { type_ = RoleType.system; name = name; scope = scope }

abbrev project_role : RoleName → String → Role
project_role name scope = record { type_ = RoleType.project; name = name; scope = scope }

unfoldable pub role_admin : Role
role_admin = system_role RoleName.admin ""

unfoldable pub role_event_creator : String → Role
role_event_creator event_source = system_role RoleName.event_creator event_source

unfoldable pub role_project_admin : String → Role
role_project_admin project_id = project_role RoleName.project_admin project_id

unfoldable pub role_project_creator : Role
role_project_creator = system_role RoleName.project_creator ""

unfoldable pub role_project_developer : String → Role
role_project_developer project_id = project_role RoleName.project_developer project_id

unfoldable pub role_project_user : String → Role
role_project_user project_id = project_role RoleName.project_user project_id

unfoldable pub role_reader : Role
role_reader = system_role RoleName.reader ""

unfoldable pub role_observer : Role
role_observer = system_role RoleName.observer ""

unfoldable pub role_scheduler : Role
role_scheduler = system_role RoleName.scheduler ""

unfoldable pub role_worker : String → Role
role_worker event_id = system_role RoleName.worker event_id

-- The constants.
unfoldable pub name_text : RoleName → String
name_text RoleName.admin = "ADMIN"
name_text RoleName.event_creator = "EVENT_CREATOR"
name_text RoleName.project_admin = "PROJECT_ADMIN"
name_text RoleName.project_creator = "PROJECT_CREATOR"
name_text RoleName.project_developer = "PROJECT_DEVELOPER"
name_text RoleName.project_user = "PROJECT_USER"
name_text RoleName.reader = "READER"
name_text RoleName.observer = "OBSERVER"
name_text RoleName.scheduler = "SCHEDULER"
name_text RoleName.worker = "WORKER"

unfoldable pub type_text : RoleType → String
type_text RoleType.project = "PROJECT"
type_text RoleType.system = "SYSTEM"

unfoldable pub same_role : Role → Role → Bool
same_role a b =
    type_text a.type_ == type_text b.type_
    && name_text a.name == name_text b.name
    && a.scope == b.scope

-- Is the role among these?
unfoldable pub has_role : Role → List Role → Bool
has_role role roles = any (same_role role) roles

-- In the order by type, name and scope.
unfoldable pub precedes : Role → Role → Bool
precedes a b = elim (compare (type_text a.type_) (type_text b.type_)) [
  | Ordering.lt ↦ true
  | Ordering.gt ↦ false
  | Ordering.eq ↦ elim (compare (name_text a.name) (name_text b.name)) [
    | Ordering.lt ↦ true
    | Ordering.gt ↦ false
    | Ordering.eq ↦ elim (compare a.scope b.scope) [ Ordering.lt ↦ true | _ ↦ false ]
  ]
]

-- The request's context is part of the world.
abbrev pub AuthorizeFn : Type 0 → Type 0
AuthorizeFn W = List Role → M W (Unit {0})

module _ {W : Type 0} where
  unfoldable pub always_authorize : AuthorizeFn W
  always_authorize roles = pure tt

  unfoldable pub never_authorize : AuthorizeFn W
  never_authorize roles = fail (err_authorization no_reason)

  -- "TODO: Implement this"
  unfoldable pub authorize : AuthorizeFn W
  authorize roles = pure tt
