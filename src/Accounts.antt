-- ===== src/Accounts.antt =====
-- modules/users/users.service.ts: registration, guests, changes, deletion and erasure of accounts.
-- `common` is the list of common passwords, asked for a text. What a call answers is the account's row;
-- the public view of it is formatting.
pub mod Endings
pub mod Addresses
use authx.Prelude.{
  ℕ, suc, ◌+◌, String, Bool, true, false, Option, none, some, if◌then◌else◌, ◌&&◌, ◌||◌, not,
  is_some, ◌==◌, List, [], ◌∷◌, length,
}
use authx.Prelude.Text.{truthy, ◌⧺◌}
use authx.Errors.{ErrorCode, Result, ok, err}
use authx.Passwords.{assert_acceptable_password, min_length}
use authx.Repo.Users.{User}
use authx.Repo.Users
use authx.Repo.Orgs
use authx.Repo.Tokens
use authx.Repo.Sessions
use authx.Repo.Codes
use authx.Repo.Verifications
use authx.Repo.Social
use authx.Repo.Totp
use authx.Repo.Passkeys
use authx.Service.{
  Config, Runtime, Db, M, ◌>>=◌, ◌>>◌, pure, throw, throw_if, query, some_or_throw, when, modify,
}
use authx.Service.Tables.{
  users_attempt, users_attempt_ask, users_ask, orgs_write, orgs_ask, tokens_write, tokens_ask,
  sessions_ask, codes_ask, verifications_ask, social_ask, totps_ask, passkeys_ask,
}
use authx.Verification.{held_by_other, end_credentials, lift}

pub record UpdateInput : Type 0 where
  pub email : Option String
  pub password : Option String
  pub current_password : Option String
  pub name : Option String
  pub given_name : Option String
  pub family_name : Option String
  pub picture : Option String

abbrev pub new_account : String → Option String → Option String → String → ℕ → User
new_account id email username hash now = record {
  id = id;
  email = email;
  username = username;
  password_hash = some hash;
  created_at = now;
  updated_at = now;
  email_verified = false;
  name = none;
  given_name = none;
  family_name = none;
  picture = none;
  deleted_at = none;
}

-- The value of a field that the input names.
abbrev pub given_field : Option String → Option (Option String)
given_field none = none
given_field (some v) = some (some v)

-- `if (input.x) …`: the value where it is not empty.
abbrev pub not_empty : Option String → Option String
not_empty v = if truthy v then v else none

-- `input.email && input.email !== current.email`
abbrev pub moves_to : Option String → Option String → Bool
moves_to none current = false
moves_to (some new) none = true
moves_to (some new) (some old) = not (new == old)

module _ (rt : Runtime) (cfg : Config) (common : String → Bool) where
  unfoldable pub register : String → String → String → ℕ → M User
  register email password id now = do
    holder ← query (λ db. Users.find_any_by_email rt.same email db.users)
    throw_if (is_some holder) ErrorCode.email_taken
    lift rt cfg (assert_acceptable_password common password min_length)
    users_attempt
        (Users.create rt.same (new_account id (some email) none (rt.hash_password password) now))
    pure (new_account id (some email) none (rt.hash_password password) now)

  abbrev pub guests_allowed : Option Bool → Bool
  guests_allowed none = false
  guests_allowed (some b) = b

  -- The random suffix of the name and the password are drawn by the call.
  unfoldable pub create_guest : String → String → String → String → ℕ → M (String × String)
  create_guest client_id suffix password id now = do
    found ← query (λ db. Orgs.find_service_by_client_id rt.same client_id db.orgs)
    throw_if (not cfg.allow_password_grant) ErrorCode.guest_accounts_disabled
    service ← some_or_throw ErrorCode.guest_accounts_disabled found
    throw_if (not (guests_allowed service.guests_enabled)) ErrorCode.guest_accounts_disabled
    users_attempt (
        Users.create rt.same
          (new_account id none (some ("guest_" ⧺ suffix)) (rt.hash_password password) now))
    orgs_write (Orgs.add_member id service.org_id)
    pure ("guest_" ⧺ suffix, password)

  unfoldable pub get_by_id : String → M User
  get_by_id id = do
    found ← query (λ db. Users.find_by_id id db.users)
    some_or_throw ErrorCode.user_not_found found

  -- The challenge of the account's own request for a new password.
  unfoldable pub challenge : User → Option String → M (Unit {0})
  challenge current given = elim (not_empty given) [
    | none ↦ throw ErrorCode.current_password_required
    | some password ↦ elim current.password_hash [
      | none ↦ throw ErrorCode.invalid_credentials
      | some hash ↦ throw_if (not (rt.verify_password password hash)) ErrorCode.invalid_credentials
    ]
  ]

  abbrev pub taken_by_other : String → Option String → Db → Bool
  taken_by_other id none db = false
  taken_by_other id (some email) db =
      held_by_other rt cfg (Users.find_any_by_email rt.same email db.users) id

  -- The checks of a new password, if there is one.
  unfoldable pub check_password : User → UpdateInput → Bool → Option String → M (Unit {0})
  unfolding challenge
  check_password current input require none = pure tt
  check_password current input require (some password) = do
    when require (challenge current input.current_password)
    lift rt cfg (assert_acceptable_password common password min_length)

  abbrev pub patch_of : User → UpdateInput → Users.Patch
  patch_of current input = record {
    email = given_field (not_empty input.email);
    password_hash = elim (not_empty input.password) [
      | none ↦ none
      | some p ↦ some (some (rt.hash_password p))
    ];
    email_verified = if moves_to (not_empty input.email) current.email then some false else none;
    name = given_field input.name;
    given_name = given_field input.given_name;
    family_name = given_field input.family_name;
    picture = given_field input.picture;
  }

  -- A new password ends every credential of before.
  unfoldable pub update : String → UpdateInput → Bool → ℕ → M User
  unfolding check_password
  update id input require now = do
    found ← query (λ db. Users.find_by_id id db.users)
    current ← some_or_throw ErrorCode.user_not_found found
    taken ← query (taken_by_other id (not_empty input.email))
    throw_if taken ErrorCode.email_taken
    check_password current input require (not_empty input.password)
    patched ← users_attempt_ask (Users.update rt.same id (patch_of current input) now)
    u ← some_or_throw ErrorCode.user_not_found patched
    when (is_some (not_empty input.password)) (end_credentials rt cfg id now)
    pure u

  unfoldable pub remove : String → ℕ → M (Unit {0})
  remove id now = do
    gone ← users_ask (Users.soft_delete id now)
    throw_if (not gone) ErrorCode.user_not_found

  -- The rows that belong to an account, and then its own.
  unfoldable pub purge_one : String → M (Unit {0})
  purge_one id = do
    _ ← tokens_ask (Tokens.delete_all_for_user id)
    _ ← sessions_ask (Sessions.delete_all_for_user id)
    _ ← codes_ask (Codes.delete_all_for_user id)
    _ ← verifications_ask (Verifications.delete_all_for_user id)
    _ ← social_ask (Social.delete_all_for_user id)
    _ ← users_ask (Users.remove_all_roles id)
    _ ← orgs_ask (Orgs.remove_all_memberships id)
    _ ← totps_ask (Totp.delete_all_for_user id)
    _ ← passkeys_ask (Passkeys.delete_all_for_user id)
    _ ← users_ask (Users.erase id)
    pure tt

  unfoldable pub purge_all : List String → M (Unit {0})
  unfolding purge_one
  purge_all [] = pure tt
  purge_all (id ∷ ids) = do purge_one id; purge_all ids

  unfoldable pub purge_deleted_before : ℕ → M ℕ
  unfolding purge_all
  purge_deleted_before cutoff = do
    ids ← query (λ db. Users.find_deleted_before cutoff db.users)
    purge_all ids
    pure (length ids)
