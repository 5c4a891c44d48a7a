-- ===== src/Core/Rest/Projects.antt =====
-- v2/apiserver/internal/core/rest: projects_endpoints.go, secrets_endpoints.go and
-- project_roles_endpoints.go.
use brignext.Base.{String, not, [], ◌==◌}
use brignext.Errors.{err_bad_request, project_ids_differ, secret_keys_differ}
use brignext.Effect.{M, refuse_if, ◌>>◌}
use brignext.Core.Types.{Project, ProjectList}
use brignext.Core.Services.Projects.{ProjectsService}
use brignext.Core.Services.Projects
use brignext.Core.Services.Secrets.{SecretsService, Secret, SecretList}
use brignext.Core.Services.Secrets
use brignext.Core.Services.ProjectRoles.{ProjectRolesService}
use brignext.Core.Services.ProjectRoles
use brignext.Authx.Roles.{RoleName}
use brignext.Authx.Services.SystemRoles.{RoleAssignment}
use brignext.Rest.Endpoints.{status_ok}
use brignext.Rest.Requests.{Request, Reply, query_of, var_of, serve, serve_body, serve_list}

module _ {W : Type 0} (p : ProjectsService W) where
  unfoldable pub create_project : Project → Request → W → Reply Project × W
  create_project project r w = serve_body r 201 (Projects.create p project) w

  unfoldable pub list_projects : Request → W → Reply ProjectList × W
  list_projects r w = serve_list r (Projects.list p) w

  unfoldable pub get_project : Request → W → Reply Project × W
  get_project r w = serve status_ok (Projects.get p (var_of r "id")) w

  update_logic : String → Project → M W Project
  update_logic id project = do
    refuse_if (not (id == project.meta.id)) (err_bad_request project_ids_differ [])
    Projects.update p project

  unfoldable pub update_project : Project → Request → W → Reply Project × W
  unfolding update_logic
  update_project project r w = serve_body r status_ok (update_logic (var_of r "id") project) w

  unfoldable pub delete_project : Request → W → Reply (Unit {0}) × W
  delete_project r w = serve status_ok (Projects.delete p (var_of r "id")) w

module _ {W : Type 0} (s : SecretsService W) where
  unfoldable pub list_secrets : Request → W → Reply SecretList × W
  list_secrets r w = serve_list r (Secrets.list s (var_of r "projectID")) w

  set_logic : String → String → Secret → M W (Unit {0})
  set_logic key project_id secret = do
    refuse_if (not (key == secret.key)) (err_bad_request secret_keys_differ [])
    Secrets.set s project_id secret

  unfoldable pub set_secret : Secret → Request → W → Reply (Unit {0}) × W
  unfolding set_logic
  set_secret secret r w =
      serve_body r status_ok (set_logic (var_of r "key") (var_of r "projectID") secret) w

  unfoldable pub unset_secret : Request → W → Reply (Unit {0}) × W
  unset_secret r w = serve status_ok (Secrets.unset s (var_of r "projectID") (var_of r "key")) w

-- The role, the type of the principal and its identifier are in the query; the scope is not. `name`
-- is the role that the query names.
unfoldable pub assignment_of : RoleName → Request → RoleAssignment
assignment_of name r = record {
  role = name;
  scope = "";
  principal_type = query_of r "principalType";
  principal_id = query_of r "principalID";
}

module _ {W : Type 0} (p : ProjectRolesService W) where
  unfoldable pub grant_project_role : RoleAssignment → Request → W → Reply (Unit {0}) × W
  grant_project_role role_assignment r w =
      serve_body r status_ok (ProjectRoles.grant p (var_of r "projectID") role_assignment) w

  unfoldable pub revoke_project_role : RoleName → Request → W → Reply (Unit {0}) × W
  unfolding assignment_of
  revoke_project_role name r w =
      serve status_ok (ProjectRoles.revoke p (var_of r "projectID") (assignment_of name r)) w
