-- ===== src/Admin/Routes.antt =====
-- modules/admin/admin.routes.ts: the management API. Each route takes the token, the platform
-- audience and one permission, in that order, and then calls the service. A route here has its
-- parameters and its body as the schema of the body left it.
pub mod Guards
use authx.Prelude.{
  ℕ, String, Bool, true, false, Option, none, some, ◌≡◌, refl, inl, inr, arith, not, List, ◌==◌,
  map, Bool-cases, ◌&&◌, includes, is_some,
}
use authx.Errors.{ErrorCode, Failure, Result, ok, err}
use authx.Repo.Orgs.{Org, AppService, AppServiceUpdate}
use authx.Repo.Rbac.{Role, Permission, RoleWithPermissions}
use authx.Service.{Runtime, Db, M, ◌>>=◌, ◌>>◌, pure, throw_if, query, some_or_throw}
use authx.Service.Laws.{call-cases}
use authx.Authorize.{
  Claims, Caller, require_auth, platform_audience, require_permission, has_permission,
}
use authx.Admin
use authx.Admin.{ServiceInput, ServiceDraw}

-- `post_org slug name id now`, and so on: the random id and the time stand last.
pub data Route : Type 0 where
  post_org : String → String → String → ℕ → Route
  get_orgs : Route
  get_org : String → Route
  post_service : String → ServiceInput → ServiceDraw → ℕ → Route
  get_services : String → Route
  patch_service : String → AppServiceUpdate → Route
  post_member delete_member : String → String → Route
  post_role post_permission : String → String → String → Route
  post_role_permission : String → String → Route
  post_user_role post_client_role : String → String → Route
  get_roles get_permissions get_user_roles get_client_roles : String → Route
  delete_role_permission delete_user_role delete_client_role : String → String → Route

-- A permission as the listings show it.
pub record Shown : Type 0 where
  pub id : String
  pub key : String

pub record ShownRole : Type 0 where
  pub id : String
  pub name : String
  pub app_service_id : String
  pub permissions : List Shown

pub data Answer : Type 0 where
  org : Org → Answer
  orgs : List Org → Answer
  registered : AppService → Option String → Answer
  service : AppService → Answer
  services : List AppService → Answer
  role : Role → Answer
  permission : Permission → Answer
  service_roles : List ShownRole → Answer
  roles : List Role → Answer
  permissions : List Shown → Answer
  no_content : Answer

abbrev pub shown : Permission → Shown
shown p = record { id = p.id; key = p.key }

abbrev pub shown_role : RoleWithPermissions → ShownRole
shown_role r = record {
  id = r.role.id;
  name = r.role.name;
  app_service_id = r.role.app_service_id;
  permissions = map shown r.permissions;
}

-- `requirePermission(…)` of each route.
unfoldable pub needed : Route → String
needed (post_org slug name id now) = "orgs:write"
needed get_orgs = "orgs:read"
needed (get_org id) = "orgs:read"
needed (post_service org_id input d now) = "services:write"
needed (get_services org_id) = "services:read"
needed (patch_service id patch) = "services:write"
needed (post_member org_id user_id) = "members:write"
needed (delete_member org_id user_id) = "members:write"
needed (get_roles id) = "rbac:read"
needed (get_permissions id) = "rbac:read"
needed (get_user_roles id) = "rbac:read"
needed (get_client_roles id) = "rbac:read"
needed _ = "rbac:write"

module _ (rt : Runtime) where
  abbrev done : M (Unit {0}) → M Answer
  done m = m >> pure no_content

  unfoldable pub act : Route → M Answer
  act (post_org slug name id now) = do o ← Admin.create_org rt slug name id now; pure (org o)
  act get_orgs = do os ← Admin.list_orgs rt; pure (orgs os)
  act (get_org id) = do o ← Admin.get_org rt id; pure (org o)
  act (post_service org_id input d now) = do
    (v, secret) ← Admin.register_service rt org_id input d now
    pure (registered v secret)
  act (get_services org_id) = do vs ← Admin.list_services rt org_id; pure (services vs)
  act (patch_service id patch) = do v ← Admin.update_service rt id patch; pure (service v)
  act (post_member org_id user_id) = done (Admin.add_member rt org_id user_id)
  act (delete_member org_id user_id) = done (Admin.remove_member rt org_id user_id)
  act (post_role service_id name id) = do r ← Admin.create_role rt service_id name id; pure (role r)
  act (post_permission service_id key id) = do
    p ← Admin.create_permission rt service_id key id
    pure (permission p)
  act (post_role_permission role_id permission_id) =
      done (Admin.grant_permission rt role_id permission_id)
  act (post_user_role user_id role_id) = done (Admin.assign_role rt user_id role_id)
  act (post_client_role client_id role_id) = done (Admin.assign_role_to_client rt client_id role_id)
  act (get_roles service_id) = do
    rs ← Admin.list_roles rt service_id
    pure (service_roles (map shown_role rs))
  act (get_permissions service_id) = do
    ps ← Admin.list_permissions rt service_id
    pure (permissions (map shown ps))
  act (get_user_roles user_id) = do rs ← Admin.list_user_roles rt user_id; pure (roles rs)
  act (get_client_roles client_id) = do rs ← Admin.list_client_roles rt client_id; pure (roles rs)
  act (delete_role_permission role_id permission_id) =
      done (Admin.revoke_permission rt role_id permission_id)
  act (delete_user_role user_id role_id) = done (Admin.remove_role rt user_id role_id)
  act (delete_client_role client_id role_id) = done (Admin.remove_client_role rt client_id role_id)

  abbrev pub require_platform : Caller → M (Unit {0})
  require_platform caller =
      throw_if (not (caller.aud == platform_audience)) ErrorCode.platform_required

  -- A request, of which `bearer` is the token.
  unfoldable pub serve : (String → Option Claims) → Option String → Route → M Answer
  serve verify bearer route = do
    caller ← require_auth verify bearer
    require_platform caller
    require_permission (needed route) caller
    act route
