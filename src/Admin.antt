-- ===== src/Admin.antt =====
-- modules/admin/admin.service.ts: organizations, services, members, roles and permissions.
pub mod Services
pub mod Routes
use Prim.Native.String
use authx.Prelude.{
  ℕ, zero, suc, String, Bool, true, false, Option, none, some, if◌then◌else◌, not, is_some, List,
  ◌==◌,
}
use authx.Prelude.Text.{◌⧺◌}
use authx.Errors.{ErrorCode}
use authx.Repo.Orgs.{Org, AppService, AppServiceUpdate}
use authx.Repo.Orgs
use authx.Repo.Rbac.{Role, Permission, RoleWithPermissions}
use authx.Repo.Rbac
use authx.Service.{Runtime, Db, M, ◌>>=◌, ◌>>◌, pure, throw, throw_if, query, some_or_throw}
use authx.Service.Tables.{orgs_attempt, orgs_ask, orgs_write, rbac_attempt, rbac_write}

-- `registerService`'s input. A `guestsEnabled` that is left out is none.
pub record ServiceInput : Type 0 where
  pub slug : String
  pub name : String
  pub audience : String
  pub kind : String
  pub redirect_uris : List String
  pub guests_enabled : Option Bool

-- The random values of a registration: the row's id, and the two random tokens.
pub record ServiceDraw : Type 0 where
  pub id : String
  pub client_token : String
  pub secret_token : String

-- `s.slice(0, n)`
unfoldable pub slice_to : ℕ → String → String
slice_to zero s = ""
slice_to (suc n) String.[] = ""
slice_to (suc n) (String.◌∷◌ c s) = String.◌∷◌ c (slice_to n s)

abbrev pub client_id_of : ServiceDraw → String
client_id_of d = "cid_" ⧺ slice_to 24 d.client_token

abbrev pub secret_of : ServiceInput → ServiceDraw → Option String
secret_of input d = if input.kind == "confidential" then some d.secret_token else none

module _ (rt : Runtime) where
  -- `clientSecret ? await hashToken(clientSecret) : null`
  abbrev pub secret_hash : Option String → Option String
  secret_hash none = none
  secret_hash (some s) = if s == "" then none else some (rt.hash_token s)

  abbrev pub new_service : String → ServiceInput → ServiceDraw → ℕ → AppService
  new_service org_id input d now = record {
    id = d.id;
    org_id = org_id;
    client_id = client_id_of d;
    client_secret_hash = secret_hash (secret_of input d);
    name = input.name;
    slug = input.slug;
    audience = input.audience;
    kind = input.kind;
    redirect_uris = input.redirect_uris;
    guests_enabled = some (elim input.guests_enabled [ none ↦ false | some b ↦ b ]);
    created_at = now;
  }

  abbrev pub require_service : String → M AppService
  require_service id = do
    found ← query (λ db. Orgs.find_service_by_id id db.orgs)
    some_or_throw ErrorCode.service_not_found found

  abbrev pub require_org : String → M Org
  require_org id = do
    found ← query (λ db. Orgs.find_org_by_id id db.orgs)
    some_or_throw ErrorCode.org_not_found found

  unfoldable pub create_org : String → String → String → ℕ → M Org
  create_org slug name id now = do
    taken ← query (λ db. is_some (Orgs.find_org_by_slug rt.same slug db.orgs))
    throw_if taken ErrorCode.org_slug_taken
    let org : Org = record { id = id; slug = slug; name = name; created_at = now }
    orgs_attempt (Orgs.create_org rt.same org)
    pure org

  unfoldable pub list_orgs : M (List Org)
  list_orgs = query (λ db. Orgs.list_orgs db.orgs)

  unfoldable pub get_org : String → M Org
  get_org id = require_org id

  unfoldable pub register_service :
      String → ServiceInput → ServiceDraw → ℕ → M (AppService × Option String)
  register_service org_id input d now = do
    require_org org_id
    taken ← query (λ db. is_some (Orgs.find_service_by_audience rt.same input.audience db.orgs))
    throw_if taken ErrorCode.service_audience_taken
    let service = new_service org_id input d now
    orgs_attempt (Orgs.create_service rt.same service)
    pure (service, secret_of input d)

  unfoldable pub list_services : String → M (List AppService)
  list_services org_id = query (λ db. Orgs.list_services_by_org org_id db.orgs)

  unfoldable pub update_service : String → AppServiceUpdate → M AppService
  update_service id patch = do
    updated ← orgs_ask (Orgs.update_service id patch)
    some_or_throw ErrorCode.service_not_found updated

  unfoldable pub add_member : String → String → M (Unit {0})
  add_member org_id user_id = do require_org org_id; orgs_write (Orgs.add_member user_id org_id)

  unfoldable pub remove_member : String → String → M (Unit {0})
  remove_member org_id user_id = orgs_write (Orgs.remove_member user_id org_id)

  unfoldable pub create_role : String → String → String → M Role
  create_role service_id name id = do
    require_service service_id
    taken ← query (λ db. is_some (Rbac.find_role_by_name rt.same service_id name db.rbac))
    throw_if taken ErrorCode.role_name_taken
    let role : Role = record { id = id; app_service_id = service_id; name = name }
    rbac_attempt (Rbac.create_role rt.same role)
    pure role

  unfoldable pub create_permission : String → String → String → M Permission
  create_permission service_id key id = do
    require_service service_id
    taken ← query (λ db. is_some (Rbac.find_permission_by_key rt.same service_id key db.rbac))
    throw_if taken ErrorCode.permission_key_taken
    let permission : Permission = record { id = id; app_service_id = service_id; key = key }
    rbac_attempt (Rbac.create_permission rt.same permission)
    pure permission

  unfoldable pub grant_permission : String → String → M (Unit {0})
  grant_permission role_id permission_id =
      rbac_write (Rbac.grant_permission_to_role role_id permission_id)

  unfoldable pub assign_role : String → String → M (Unit {0})
  assign_role user_id role_id = rbac_write (Rbac.assign_role_to_user user_id role_id)

  unfoldable pub assign_role_to_client : String → String → M (Unit {0})
  assign_role_to_client client_app_service_id role_id =
      rbac_write (Rbac.assign_role_to_client client_app_service_id role_id)

  unfoldable pub revoke_permission : String → String → M (Unit {0})
  revoke_permission role_id permission_id =
      rbac_write (Rbac.revoke_permission_from_role role_id permission_id)

  unfoldable pub remove_role : String → String → M (Unit {0})
  remove_role user_id role_id = rbac_write (Rbac.remove_role_from_user user_id role_id)

  unfoldable pub remove_client_role : String → String → M (Unit {0})
  remove_client_role client_app_service_id role_id =
      rbac_write (Rbac.remove_role_from_client client_app_service_id role_id)

  unfoldable pub list_roles : String → M (List RoleWithPermissions)
  list_roles service_id = do
    require_service service_id
    query (λ db. Rbac.list_roles_for_service service_id db.rbac)

  unfoldable pub list_permissions : String → M (List Permission)
  list_permissions service_id = do
    require_service service_id
    query (λ db. Rbac.list_permissions_for_service service_id db.rbac)

  unfoldable pub list_user_roles : String → M (List Role)
  list_user_roles user_id = query (λ db. Rbac.roles_for_user user_id db.rbac)

  unfoldable pub list_client_roles : String → M (List Role)
  list_client_roles client_app_service_id =
      query (λ db. Rbac.roles_for_client client_app_service_id db.rbac)
