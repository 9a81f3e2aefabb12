-- ===== src/Repo/Rbac.antt =====
-- modules/rbac/rbac.repository.ts: roles and permissions, each of one service, and who holds them.
pub mod Keys
pub mod Query
pub mod Abstract
pub mod Relation
pub mod Steps
pub mod Refinement
use Prim.Native.String
use authx.Prelude.{
  String, Bool, Option, none, some, ◌==◌, if◌then◌else◌, List, [], ◌∷◌, keep, map, includes, ◌&&◌,
}
use authx.Prelude.TextSet.{TextSet, add, remove}
use authx.Prelude.Map.{Map, get, set, find_value, first_error, values}
use authx.Errors.{Failure, Result, ok, err}
use authx.Collation.{ci_equals, duplicate}

pub record Role : Type 0 where
  pub id : String
  pub app_service_id : String
  pub name : String

pub record Permission : Type 0 where
  pub id : String
  pub app_service_id : String
  pub key : String

pub record Rbac : Type 0 where
  pub roles : Map Role
  pub perms : Map Permission
  pub role_perms : TextSet
  pub user_role_ids : Map TextSet
  pub client_role_ids : Map TextSet

pub record RoleWithPermissions : Type 0 where
  pub role : Role
  pub permissions : List Permission

-- `${roleId}:${permissionId}`
abbrev pub grant_key : String → String → String
grant_key role_id permission_id = String.◌++◌ role_id (String.◌++◌ ":" permission_id)

module _ (same : String → String → Bool) where
  abbrev pub role_clash : Role → Role → Option Failure
  role_clash r existing =
      if existing.id == r.id
      then duplicate "roles" "PRIMARY" (some r.id)
      else if existing.app_service_id == r.app_service_id
          && ci_equals same (some existing.name) (some r.name)
      then duplicate "roles" "app_service_id_name" (some r.name)
      else none

  unfoldable pub create_role : Role → Rbac → Result Rbac
  create_role r s = elim (first_error (role_clash r) s.roles) [
    | none ↦ ok (record s { roles = set r.id r s.roles })
    | some e ↦ err e
  ]

  abbrev pub permission_clash : Permission → Permission → Option Failure
  permission_clash p existing =
      if existing.id == p.id
      then duplicate "permissions" "PRIMARY" (some p.id)
      else if existing.app_service_id == p.app_service_id
          && ci_equals same (some existing.key) (some p.key)
      then duplicate "permissions" "app_service_id_key" (some p.key)
      else none

  unfoldable pub create_permission : Permission → Rbac → Result Rbac
  create_permission p s = elim (first_error (permission_clash p) s.perms) [
    | none ↦ ok (record s { perms = set p.id p s.perms })
    | some e ↦ err e
  ]

  unfoldable pub find_role_by_name : String → String → Rbac → Option Role
  find_role_by_name app_service_id name s =
      find_value
        (λ r. r.app_service_id == app_service_id && ci_equals same (some r.name) (some name))
        s.roles

  unfoldable pub find_permission_by_key : String → String → Rbac → Option Permission
  find_permission_by_key app_service_id key s =
      find_value (λ p. p.app_service_id == app_service_id && ci_equals same (some p.key) (some key))
        s.perms

unfoldable pub find_role_by_id : String → Rbac → Option Role
find_role_by_id id s = get id s.roles

unfoldable pub grant_permission_to_role : String → String → Rbac → Rbac
grant_permission_to_role role_id permission_id s = record s {
  role_perms = add (grant_key role_id permission_id) s.role_perms;
}

unfoldable pub revoke_permission_from_role : String → String → Rbac → Rbac
revoke_permission_from_role role_id permission_id s = record s {
  role_perms = remove (grant_key role_id permission_id) s.role_perms;
}

-- `map.get(k) ?? new Set()`
abbrev pub role_ids_of : String → Map TextSet → TextSet
role_ids_of k m = elim (get k m) [ none ↦ [] | some xs ↦ xs ]

-- `map.get(k)?.delete(roleId)`
abbrev pub drop_role : String → String → Map TextSet → Map TextSet
drop_role k role_id m = elim (get k m) [ none ↦ m | some xs ↦ set k (remove role_id xs) m ]

unfoldable pub assign_role_to_user : String → String → Rbac → Rbac
assign_role_to_user user_id role_id s = record s {
  user_role_ids = set user_id (add role_id (role_ids_of user_id s.user_role_ids)) s.user_role_ids;
}

unfoldable pub assign_role_to_client : String → String → Rbac → Rbac
assign_role_to_client client_id role_id s = record s {
  client_role_ids =
      set client_id (add role_id (role_ids_of client_id s.client_role_ids)) s.client_role_ids;
}

unfoldable pub remove_role_from_user : String → String → Rbac → Rbac
remove_role_from_user user_id role_id s = record s {
  user_role_ids = drop_role user_id role_id s.user_role_ids;
}

unfoldable pub remove_role_from_client : String → String → Rbac → Rbac
remove_role_from_client client_id role_id s = record s {
  client_role_ids = drop_role client_id role_id s.client_role_ids;
}

-- The inner loop: the keys of the permissions that one role grants, added to `out`.
unfoldable pub add_granted : TextSet → String → List Permission → TextSet → TextSet
add_granted role_perms role_id [] out = out
add_granted role_perms role_id (p ∷ ps) out =
    add_granted role_perms role_id ps
      (if includes (grant_key role_id p.id) role_perms then add p.key out else out)

-- One round of the outer loop: a role that is gone, or of another service, adds nothing.
unfoldable pub add_role : Rbac → String → String → TextSet → TextSet
unfolding add_granted
add_role s app_service_id role_id out = elim (get role_id s.roles) [
  | none ↦ out
  | some role ↦
      if role.app_service_id == app_service_id
      then add_granted s.role_perms role_id (values s.perms) out
      else out
]

unfoldable pub add_roles : Rbac → String → List String → TextSet → TextSet
unfolding add_role
add_roles s app_service_id [] out = out
add_roles s app_service_id (role_id ∷ ids) out =
    add_roles s app_service_id ids (add_role s app_service_id role_id out)

unfoldable pub permissions_for_user_in_service : String → String → Rbac → TextSet
unfolding add_roles
permissions_for_user_in_service user_id app_service_id s =
    add_roles s app_service_id (role_ids_of user_id s.user_role_ids) []

unfoldable pub permissions_for_client_in_service : String → String → Rbac → TextSet
unfolding add_roles
permissions_for_client_in_service client_id app_service_id s =
    add_roles s app_service_id (role_ids_of client_id s.client_role_ids) []

unfoldable pub list_roles_for_service : String → Rbac → List RoleWithPermissions
list_roles_for_service app_service_id s =
    map
      (λ role. record {
        role = role;
        permissions = keep (λ p. includes (grant_key role.id p.id) s.role_perms) (values s.perms);
      })
      (keep (λ role. role.app_service_id == app_service_id) (values s.roles))

unfoldable pub list_permissions_for_service : String → Rbac → List Permission
list_permissions_for_service app_service_id s =
    keep (λ p. p.app_service_id == app_service_id) (values s.perms)

-- The roles of a set of ids, those that are gone left out.
unfoldable pub roles_by_ids : Rbac → List String → List Role
roles_by_ids s [] = []
roles_by_ids s (id ∷ ids) = elim (get id s.roles) [
  | none ↦ roles_by_ids s ids
  | some r ↦ r ∷ roles_by_ids s ids
]

unfoldable pub roles_for_user : String → Rbac → List Role
unfolding roles_by_ids
roles_for_user user_id s = roles_by_ids s (role_ids_of user_id s.user_role_ids)

unfoldable pub roles_for_client : String → Rbac → List Role
unfolding roles_by_ids
roles_for_client client_id s = roles_by_ids s (role_ids_of client_id s.client_role_ids)
