-- ===== src/UserRoutes.antt =====
-- modules/users/users.routes.ts: the routes of accounts, after the schemas of their bodies. The rate
-- limiters of two of them are a package's.
pub mod Addresses
use authx.Prelude.{
  ℕ, String, Bool, true, false, Option, none, some, if◌then◌else◌, ◌&&◌, ◌||◌, is_some, ◌==◌, List,
}
use authx.Repo.Users.{User}
use authx.Repo.Users
use authx.Service.{Config, Runtime, M, ◌>>=◌, ◌>>◌, pure, query, handle}
use authx.Auth.{Drawn}
use authx.Auth.Login.{link_google_to_user}
use authx.Verification.{start_verification, start_email_change, start_account_deletion}
use authx.Accounts.{UpdateInput, register, create_guest, update, remove, get_by_id}
use authx.Authorize.{Claims, Caller, require_auth, require_permission, require_self_or_permission}

-- The random values stand last: ids of rows, a guest's name and password, a link.
pub data Route : Type 0 where
  post_user : String → String → String → Drawn → Route
  post_guest : String → String → String → String → Route
  post_social_link : String → String → Route
  get_me get_users : Route
  get_user : String → Route
  patch_user : String → UpdateInput → Drawn → Route
  delete_user : String → Drawn → Route

-- An account with its status, the credentials of a guest, a list, or a status alone.
pub data Answer : Type 0 where
  account : User → ℕ → Answer
  guest : String → String → Answer
  accounts : List User → Answer
  done : ℕ → Answer

-- `Object.keys(…).length` of a body: it names a field.
abbrev pub names_any : UpdateInput → Bool
names_any input =
    is_some input.email
    || is_some input.password
    || is_some input.current_password
    || is_some input.name
    || is_some input.given_name
    || is_some input.family_name
    || is_some input.picture

-- `rest`: the body without the address.
abbrev pub without_email : UpdateInput → UpdateInput
without_email input = record input { email = none }

module _ (rt : Runtime) (cfg : Config) (common : String → Bool) where
  abbrev pub change : String → UpdateInput → Bool → ℕ → M User
  change id input is_self now =
      if names_any input
      then update rt cfg common id input is_self now
      else get_by_id rt cfg common id

  -- The address that the account itself asks for waits for its confirmation.
  abbrev pub own_change : String → UpdateInput → Option String → Drawn → ℕ → M Answer
  own_change id input none d now = change id input true now >>= λ u. pure (account u 200)
  own_change id input (some email) d now = change id (without_email input) true now >>= λ u.
      start_email_change rt cfg id email d now >>= λ sent. pure (account u 202)

  abbrev pub apply_change : String → UpdateInput → Drawn → ℕ → Caller → M Answer
  apply_change id input d now caller =
      if id == caller.id
      then own_change id input input.email d now
      else (change id input false now >>= λ u. pure (account u 200))

  -- PATCH /users/:id
  unfoldable pub patch : String → UpdateInput → Drawn → ℕ → Caller → M Answer
  patch id input d now caller =
      require_self_or_permission id "users:update:any" caller >>= λ passed.
      apply_change id input d now caller

  -- The account itself is sent a link.
  abbrev pub apply_delete : String → Drawn → ℕ → Caller → M Answer
  apply_delete id d now caller =
      if id == caller.id
      then (start_account_deletion rt cfg id d now >>= λ sent. pure (done 202))
      else (remove rt cfg common id now >>= λ gone. pure (done 204))

  -- DELETE /users/:id
  unfoldable pub delete : String → Drawn → ℕ → Caller → M Answer
  delete id d now caller = require_self_or_permission id "users:delete:any" caller >>= λ passed.
      apply_delete id d now caller

  unfoldable pub serve : (String → Option Claims) → Option String → Route → ℕ → M Answer
  unfolding patch delete
  serve verify bearer (post_user email password id d) now = do
    u ← register rt cfg common email password id now
    handle (start_verification rt cfg id email d now) (λ failed. pure tt)
    pure (account u 201)
  serve verify bearer (post_guest client_id suffix password id) now = do
    (name, secret) ← create_guest rt cfg common client_id suffix password id now
    pure (guest name secret)
  serve verify bearer (post_social_link issued link_id) now = do
    caller ← require_auth verify bearer
    link_google_to_user rt cfg caller.id issued link_id now
    pure (done 200)
  serve verify bearer get_me now = do
    caller ← require_auth verify bearer
    u ← get_by_id rt cfg common caller.id
    pure (account u 200)
  serve verify bearer get_users now = do
    caller ← require_auth verify bearer
    require_permission "users:list" caller
    us ← query (λ db. Users.list db.users)
    pure (accounts us)
  serve verify bearer (get_user id) now = do
    caller ← require_auth verify bearer
    require_self_or_permission id "users:read:any" caller
    u ← get_by_id rt cfg common id
    pure (account u 200)
  serve verify bearer (patch_user id input d) now =
      require_auth verify bearer >>= patch id input d now
  serve verify bearer (delete_user id d) now = require_auth verify bearer >>= delete id d now
