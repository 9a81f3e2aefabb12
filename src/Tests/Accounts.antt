-- ===== src/Tests/Accounts.antt =====
-- The accounts at the small installation.
use authx.Prelude.{
  String, Bool, true, false, Option, none, some, ◌≡◌, refl, ◌==◌, ◌&&◌, not, if◌then◌else◌,
}
use authx.Prelude.Map.{get}
use authx.Errors.{ErrorCode, Failure, ok, err}
use authx.Passwords.{assert_acceptable_password, min_length}
use authx.Repo.Users.{User}
use authx.Repo.Users
use authx.Service.{Db, SubType}
use authx.Authorize.{Claims, require_auth, require_auth-removed}
use authx.Verification.Links.{Ended}
use authx.Accounts.{UpdateInput, update, remove, purge_one, patch_of}
use authx.Accounts.Endings.{Erased, proves_password, purge_one-Erased, update_password-ends}
use authx.Accounts.Addresses.{address}
use authx.UserRoutes
use authx.UserRoutes.Addresses.{serve-keeps_address}
use authx.Tests.World.{rt, cfg, db, ann, drawn}

abbrev common : String → Bool
common s = false

abbrev input : UpdateInput
input = record {
  email = none;
  password = some "new password";
  current_password = some "pw";
  name = some "Ann";
  given_name = none;
  family_name = none;
  picture = none;
}

abbrev updated : Db
updated = (update rt cfg common "u1" input true 1000 db).1

abbrev renewed : User
renewed = Users.apply_patch (patch_of rt cfg common ann input) 1000 ann

updates : update rt cfg common "u1" input true 1000 db ≡ (ok renewed, updated)
unfolding update assert_acceptable_password Users.find_by_id get Users.update
    authx.Verification.end_credentials
updates = refl

update_password-ends_example :
    (current : User) × (Users.find_by_id "u1" db.users ≡ some current)
    × ((true && not (proves_password rt cfg common current (some "pw"))) ≡ false)
    × (assert_acceptable_password common "new password" min_length ≡ ok tt)
    × Ended rt cfg "u1" updated
update_password-ends_example =
    update_password-ends rt cfg common "u1" "new password" input true 1000 db updated renewed refl
      updates

purge_one-Erased_example :
    let (r, db') = purge_one rt cfg common "u2" db in
    (r ≡ ok tt)
    × Erased rt cfg common "u2" db'
    × (get "u1" db'.users.by_id ≡ (if "u1" == "u2" then none else get "u1" db.users.by_id))
unfolding get
purge_one-Erased_example =
    purge_one-Erased rt cfg common "u2" "u1" db (refl, (refl, tt)) tt (refl, tt)

abbrev claims : Claims
claims = record {
  sub = "u1";
  aud = "platform";
  org = "o1";
  client_id = some "c1";
  scope = some "users:read:any";
  sub_type = some SubType.user;
  auth_time = none;
}

abbrev verify : String → Option Claims
verify t = if t == "good" then some claims else none

abbrev removed : Db
removed = (remove rt cfg common "u1" 1000 db).1

removes : remove rt cfg common "u1" 1000 db ≡ (ok tt, removed)
unfolding remove Users.soft_delete get
removes = refl

require_auth-removed_example :
    require_auth verify (some "good") removed ≡ (err (Failure.app ErrorCode.invalid_token), removed)
require_auth-removed_example =
    require_auth-removed rt cfg common verify "good" claims 1000 db removed refl refl removes

-- The account's own token asks for another address.
abbrev moving : UpdateInput
moving = record input { email = some "new@x"; password = none; current_password = none }

abbrev own_claims : Claims
own_claims = record {
  sub = "u1";
  aud = "aud";
  org = "o1";
  client_id = some "c1";
  scope = some "users:update:any";
  sub_type = some SubType.user;
  auth_time = none;
}

serve-keeps_address_example :
    address "u1"
      (UserRoutes.serve rt cfg common
        (λ token. some own_claims)
        (some "jwt")
        (UserRoutes.patch_user "u1" moving drawn)
        1000
        db).1
    ≡ address "u1" db
serve-keeps_address_example =
    serve-keeps_address rt cfg common "u1" (λ token. some own_claims) "jwt" own_claims
      (UserRoutes.patch_user "u1" moving drawn) 1000 db refl refl refl
