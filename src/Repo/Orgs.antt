-- ===== src/Repo/Orgs.antt =====
-- modules/orgs/orgs.repository.ts: organizations, the services that belong to them, and members.
use Prim.Native.String
use text.Mathlib.Text.{starts_with}
use authx.Prelude.{
  ℕ, String, Bool, Option, none, some, ◌==◌, if◌then◌else◌, List, keep, includes, count, not,
}
use authx.Prelude.TextSet.{TextSet, add, remove}
use authx.Prelude.Map.{Map, get, set, find_value, first_error, values}
use authx.Errors.{Failure, Result, ok, err}
use authx.Collation.{ci_equals, duplicate}

pub record Org : Type 0 where
  pub id : String
  pub slug : String
  pub name : String
  pub created_at : ℕ

-- `type` is a free varchar in the database, so it is a text here.
pub record AppService : Type 0 where
  pub id : String
  pub org_id : String
  pub client_id : String
  pub client_secret_hash : Option String
  pub name : String
  pub slug : String
  pub audience : String
  pub kind : String
  pub redirect_uris : List String
  pub guests_enabled : Option Bool
  pub created_at : ℕ

pub record AppServiceUpdate : Type 0 where
  pub name : Option String
  pub redirect_uris : Option (List String)
  pub guests_enabled : Option Bool

pub record Orgs : Type 0 where
  pub orgs : Map Org
  pub services : Map AppService
  pub members : TextSet

-- `${userId}:${orgId}`
abbrev pub member_key : String → String → String
member_key user_id org_id = String.◌++◌ (String.◌++◌ user_id ":") org_id

module _ (same : String → String → Bool) where
  abbrev pub org_clash : Org → Org → Option Failure
  org_clash o existing =
      if existing.id == o.id
      then duplicate "organizations" "PRIMARY" (some o.id)
      else if ci_equals same (some existing.slug) (some o.slug)
      then duplicate "organizations" "slug" (some o.slug)
      else none

  unfoldable pub create_org : Org → Orgs → Result Orgs
  create_org o s = elim (first_error (org_clash o) s.orgs) [
    | none ↦ ok (record s { orgs = set o.id o s.orgs })
    | some e ↦ err e
  ]

  unfoldable pub find_org_by_slug : String → Orgs → Option Org
  find_org_by_slug slug s = find_value (λ o. ci_equals same (some o.slug) (some slug)) s.orgs

  abbrev pub service_clash : AppService → AppService → Option Failure
  service_clash v existing =
      if existing.id == v.id
      then duplicate "app_services" "PRIMARY" (some v.id)
      else if ci_equals same (some existing.client_id) (some v.client_id)
      then duplicate "app_services" "client_id" (some v.client_id)
      else if ci_equals same (some existing.audience) (some v.audience)
      then duplicate "app_services" "audience" (some v.audience)
      else none

  unfoldable pub create_service : AppService → Orgs → Result Orgs
  create_service v s = elim (first_error (service_clash v) s.services) [
    | none ↦ ok (record s { services = set v.id v s.services })
    | some e ↦ err e
  ]

  unfoldable pub find_service_by_audience : String → Orgs → Option AppService
  find_service_by_audience audience s =
      find_value (λ v. ci_equals same (some v.audience) (some audience)) s.services

  unfoldable pub find_service_by_client_id : String → Orgs → Option AppService
  find_service_by_client_id client_id s =
      find_value (λ v. ci_equals same (some v.client_id) (some client_id)) s.services

unfoldable pub find_org_by_id : String → Orgs → Option Org
find_org_by_id id s = get id s.orgs

unfoldable pub list_orgs : Orgs → List Org
list_orgs s = values s.orgs

unfoldable pub find_service_by_id : String → Orgs → Option AppService
find_service_by_id id s = get id s.services

unfoldable pub list_services_by_org : String → Orgs → List AppService
list_services_by_org org_id s = keep (λ v. v.org_id == org_id) (values s.services)

abbrev pub given : {A : Type 0} → Option A → A → A
given none a = a
given (some b) a = b

-- `{ ...s, ...defined(patch) }`
abbrev pub apply_update : AppServiceUpdate → AppService → AppService
apply_update p v = record v {
  name = given p.name v.name;
  redirect_uris = given p.redirect_uris v.redirect_uris;
  guests_enabled = elim p.guests_enabled [ none ↦ v.guests_enabled | some b ↦ some b ];
}

unfoldable pub update_service : String → AppServiceUpdate → Orgs → Option AppService × Orgs
update_service id patch s = elim (get id s.services) [
  | none ↦ (none, s)
  | some v ↦ (
    some (apply_update patch v),
    record s { services = set id (apply_update patch v) s.services },
  )
]

unfoldable pub add_member : String → String → Orgs → Orgs
add_member user_id org_id s = record s { members = add (member_key user_id org_id) s.members }

unfoldable pub remove_member : String → String → Orgs → Orgs
remove_member user_id org_id s = record s { members = remove (member_key user_id org_id) s.members }

abbrev pub member_row_of : String → String → Bool
member_row_of user_id key = starts_with key (String.◌++◌ user_id ":")

unfoldable pub remove_all_memberships : String → Orgs → ℕ × Orgs
remove_all_memberships user_id s = (
  count (member_row_of user_id) s.members,
  record s { members = keep (λ key. not (member_row_of user_id key)) s.members },
)

unfoldable pub is_member : String → String → Orgs → Bool
is_member user_id org_id s = includes (member_key user_id org_id) s.members
