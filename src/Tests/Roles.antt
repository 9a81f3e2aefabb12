-- ===== src/Tests/Roles.antt =====
-- Roles, services and the management API, at the small installation.
use authx.Prelude.{
  String, true, false, none, some, ◌≡◌, refl, arith, inr, List, [], ◌∷◌, All, includes, ◌↔◌,
  is_some, if◌then◌else◌, ◌==◌,
}
use authx.Prelude.Map.{get, set, first_error, find_value}
use authx.Errors.{ok}
use authx.Repo.Orgs.{Org, AppService, find_org_by_id, find_service_by_audience, create_service}
use authx.Repo.Rbac.{permissions_for_user_in_service, permissions_for_client_in_service}
use authx.Repo.Rbac.Abstract.{Abs, nothing, Call, Changes, Allowed}
use authx.Repo.Rbac.Relation.{empty}
use authx.Repo.Rbac.Steps.{PlainId}
use authx.Repo.Rbac.Refinement.{run, run_refines}
use authx.Service.{Db, SubType}
use authx.Auth.{client_secret_ok}
use authx.Authorize.{Claims}
use authx.Admin.{ServiceInput, ServiceDraw, register_service, slice_to}
use authx.Admin.Services.{Found, IsTable, register_service-ok}
use authx.Admin.Routes.{serve, post_user_role}
use authx.Admin.Routes.Guards.{serve-harmless}
use authx.Tests.World.{rt, cfg, db, service, same_text, same_text-Collates, one-Indexed}

-- A role of the service with a permission of it, for one account.
abbrev calls : List Call
calls =
    Call.creates_role (record { id = "r1"; app_service_id = "s1"; name = "editor" })
    ∷ Call.creates_permission (record { id = "p1"; app_service_id = "s1"; key = "posts:write" })
    ∷ Call.grants "r1" "p1"
    ∷ Call.assigns "u1" "r1"
    ∷ []

plain_ids : All PlainId calls
plain_ids = ((omega arith, (omega arith, tt)), ((omega arith, (omega arith, tt)), (tt, (tt, tt))))

run_refines_example :
    (a : Abs) × Changes same_text calls nothing a
    × ((user_id service_id key : String)
        → (includes key
              (permissions_for_user_in_service user_id service_id (run same_text calls empty))
            ≡ true)
          ↔ Allowed a (a.user_has user_id) service_id key)
    × ((client_id service_id key : String)
        → (includes key
              (permissions_for_client_in_service client_id service_id (run same_text calls empty))
            ≡ true)
          ↔ Allowed a (a.client_has client_id) service_id key)
run_refines_example = run_refines same_text calls plain_ids

abbrev org : Org
org = record { id = "o1"; slug = "org"; name = "Org"; created_at = 0 }

abbrev db_org : Db
db_org = record db { orgs = record db.orgs { orgs = ("o1", org) ∷ [] } }

abbrev input : ServiceInput
input = record {
  slug = "new";
  name = "New";
  audience = "fresh";
  kind = "confidential";
  redirect_uris = [];
  guests_enabled = none;
}

abbrev draw : ServiceDraw
draw = record { id = "s2"; client_token = "token"; secret_token = "secret" }

abbrev made : AppService
made = record {
  id = "s2";
  org_id = "o1";
  client_id = "cid_token";
  client_secret_hash = some "secret";
  name = "New";
  slug = "new";
  audience = "fresh";
  kind = "confidential";
  redirect_uris = [];
  guests_enabled = some false;
  created_at = 7;
}

abbrev after : Db
after = (register_service rt "o1" input draw 7 db_org).1

registers : register_service rt "o1" input draw 7 db_org ≡ (ok (made, some "secret"), after)
unfolding register_service find_org_by_id find_service_by_audience create_service slice_to get
    find_value first_error set
registers = refl

table : IsTable db_org.orgs
table =
    let i = one-Indexed (λ v. v.id) (λ v. v.id) same_text service in
    record { distinct = i.distinct; keyed = λ k v e. i.keyed k v e }

register_service-ok_example :
    (is_some (find_org_by_id "o1" db_org.orgs) ≡ true)
    × (find_service_by_audience rt.same "fresh" db_org.orgs ≡ none)
    × Found rt cfg made after.orgs
    × (made.org_id ≡ "o1")
    × (client_secret_ok rt cfg made (some "secret") ≡ true)
    × (is_some {A = String} (some "secret") ≡ ("confidential" == "confidential"))
    × ((other : String)
        → client_secret_ok rt cfg made (some other) ≡ (
            if "confidential" == "public"
            then true
            else rt.hash_token other == rt.hash_token "secret"))
register_service-ok_example =
    register_service-ok rt cfg same_text-Collates "o1" input draw 7 made (some "secret") db_org
      after table refl (inr refl) registers

-- A token of the service, with a permission of the same name as the platform's.
abbrev claims : Claims
claims = record {
  sub = "u1";
  aud = "aud";
  org = "o1";
  client_id = some "c1";
  scope = some "rbac:write";
  sub_type = some SubType.user;
  auth_time = none;
}

serve-harmless_example :
    (serve rt (λ token. some claims) (some "jwt") (post_user_role "u1" "r1") db).1 ≡ db
serve-harmless_example =
    serve-harmless rt (λ token. some claims) "jwt" claims (post_user_role "u1" "r1") db refl refl
