-- ===== src/Auth.antt =====
-- modules/auth/auth.service.ts: what its calls share. The clock's reading `now` is in milliseconds;
-- random values (row ids, tokens) are arguments of the call that draws them.
pub mod Grants
pub mod Exchange
pub mod Login
pub mod Issue
use authx.Prelude.{
  ℕ, ◌+◌, ◌-◌, ◌*◌, ◌/◌, ◌<◌, String, Bool, true, false, Option, none, some, if◌then◌else◌, ◌&&◌,
  ◌||◌, not, ltb, is_some, ◌==◌, List, [], ◌∷◌,
}
use authx.Prelude.Text.{truthy, join}
use authx.Errors.{ErrorCode}
use authx.Lockout
use authx.Mfa
use authx.Repo.Users.{User}
use authx.Repo.Users
use authx.Repo.Orgs.{AppService}
use authx.Repo.Orgs
use authx.Repo.Rbac
use authx.Repo.Tokens.{RefreshToken, NewRefreshToken}
use authx.Repo.Tokens
use authx.Repo.Sessions.{Session}
use authx.Repo.Sessions
use authx.Service.{
  Config, Runtime, SubType, AccessOptions, access_payload, Db, M, ◌>>=◌, ◌>>◌, pure, throw,
  throw_if, query, some_or_throw, when,
}
use authx.Service.Tables.{failures_ask, failures_write, tokens_attempt, sessions_attempt}

pub record TokenPair : Type 0 where
  pub access_token : String
  pub refresh_token : String
  pub expires_in : ℕ
  pub id_token : Option String

-- The credentials that a client presents.
pub record Client : Type 0 where
  pub id : Option String
  pub secret : Option String

pub data LoginResult : Type 0 where
  session : String → String → LoginResult
  mfa : String → LoginResult

-- What a new row draws: its id, and the token that it holds the hash of.
pub record Drawn : Type 0 where
  pub id : String
  pub token : String

abbrev pub is_public : AppService → Bool
is_public service = service.kind == "public"

-- The hash that is compared: `locked ? dummy : user.passwordHash ?? dummy`.
abbrev pub compared_hash : Bool → Option String → String → String
compared_hash true stored dummy = dummy
compared_hash false none dummy = dummy
compared_hash false (some hash) dummy = hash

module _ (rt : Runtime) (cfg : Config) where
  -- Whether the password proves the account, once it is known whether the account is locked.
  unfoldable pub password_proves : Bool → User → String → Bool
  password_proves locked user password =
      not locked
      && truthy user.password_hash
      && rt.verify_password password (compared_hash locked user.password_hash rt.dummy_hash)

  unfoldable pub authenticate_user : User → String → ℕ → M User
  unfolding password_proves
  authenticate_user user password now = do
    locked ← failures_ask (Lockout.is_locked user.id now)
    if password_proves locked user password then pure user else (do
      when (not locked) (failures_write (Lockout.record_failure cfg.login_throttle user.id now))
      throw ErrorCode.invalid_credentials)

  unfoldable pub authenticate_password : Option User → String → ℕ → M User
  unfolding authenticate_user
  authenticate_password none password now = throw ErrorCode.invalid_credentials
  authenticate_password (some user) password now = authenticate_user user password now

  unfoldable pub subject_exists : String → M Bool
  subject_exists user_id = query (λ db. is_some (Users.find_by_id user_id db.users))

  abbrev pub email_refused : Option String → Bool → Bool
  email_refused email verified = cfg.require_email_verification && is_some email && not verified

  unfoldable pub require_verified_email : User → M (Unit {0})
  require_verified_email user =
      throw_if (email_refused user.email user.email_verified) ErrorCode.email_not_verified

  -- A stored hash, a presented secret, and the secret hashes to it.
  abbrev pub secret_matches : Option String → Option String → Bool
  secret_matches none secret = false
  secret_matches (some hash) none = false
  secret_matches (some hash) (some secret) = rt.hash_token secret == hash

  unfoldable pub client_secret_ok : AppService → Option String → Bool
  client_secret_ok service secret =
      is_public service || secret_matches service.client_secret_hash secret

  unfoldable pub just_rotated : RefreshToken → ℕ → Bool
  just_rotated t now =
      ltb 0 cfg.refresh_token_reuse_grace && is_some t.replaced_by && elim t.revoked_at [
        | none ↦ false
        | some at ↦ ltb now (at + cfg.refresh_token_reuse_grace * 1000)
      ]

  abbrev pub other_id : Option String → String → Bool
  other_id none own = false
  other_id (some id) own = not (id == own)

  unfoldable pub authenticate_token_client : AppService → Client → ErrorCode → M (Unit {0})
  unfolding client_secret_ok
  authenticate_token_client service client wrong_client = do
    throw_if (other_id client.id service.client_id) wrong_client
    throw_if (not (is_public service) && not (is_some client.id)) ErrorCode.invalid_client
    throw_if (not (client_secret_ok service client.secret)) ErrorCode.invalid_client

  unfoldable pub if_subject_exists : Option Session → M (Option Session)
  unfolding subject_exists
  if_subject_exists none = pure none
  if_subject_exists (some s) = do
    live ← subject_exists s.user_id
    pure (if live then some s else none)

  unfoldable pub active_session : String → ℕ → M (Option Session)
  unfolding if_subject_exists
  active_session session_token now = do
    found ← query (λ db.
        Sessions.find_active_by_token_hash rt.same (rt.hash_token session_token) now db.sessions)
    if_subject_exists found

  abbrev pub user_access :
      String → AppService → List String → Option String → Option ℕ → AccessOptions
  user_access user_id service scopes oidc_scope auth_time = record {
    sub = user_id;
    aud = service.audience;
    org = service.org_id;
    scope = join " " scopes;
    client_id = service.client_id;
    oidc_scope = oidc_scope;
    sub_type = SubType.user;
    auth_time = auth_time;
  }

  abbrev pub new_refresh : Drawn → String → AppService → ℕ → NewRefreshToken
  new_refresh d user_id service now = record {
    id = d.id;
    user_id = user_id;
    app_service_id = service.id;
    token_hash = rt.hash_token d.token;
    expires_at = now + cfg.refresh_token_ttl * 1000;
  }

  abbrev pub token_pair : String → String → TokenPair
  token_pair access refresh = record {
    access_token = access;
    refresh_token = refresh;
    expires_in = cfg.access_token_ttl;
    id_token = none;
  }

  unfoldable pub issue_tokens_for_service :
      String → String → Option String → Option ℕ → Drawn → ℕ → M TokenPair
  unfolding require_verified_email
  issue_tokens_for_service user_id audience oidc_scope auth_time d now = do
    found ← query (λ db. Users.find_by_id user_id db.users)
    user ← some_or_throw ErrorCode.invalid_grant found
    require_verified_email user
    target ← query (λ db. Orgs.find_service_by_audience rt.same audience db.orgs)
    service ← some_or_throw ErrorCode.unknown_audience target
    member ← query (λ db. Orgs.is_member user_id service.org_id db.orgs)
    throw_if (not member) ErrorCode.not_org_member
    scopes ← query (λ db. Rbac.permissions_for_user_in_service user_id service.id db.rbac)
    tokens_attempt (Tokens.create rt.same (new_refresh d user_id service now))
    pure (
        token_pair
          (rt.sign_access
            (access_payload cfg now (user_access user_id service scopes oidc_scope auth_time)))
          d.token)

  unfoldable pub create_session : String → Drawn → ℕ → M (String × String)
  create_session user_id d now = do
    sessions_attempt (
        Sessions.create rt.same
          (record {
            id = d.id;
            user_id = user_id;
            token_hash = rt.hash_token d.token;
            expires_at = now + cfg.sso_session_ttl * 1000;
          })
          now)
    pure (d.token, user_id)

  unfoldable pub finish_login : String → Drawn → ℕ → M LoginResult
  unfolding create_session
  finish_login user_id d now = do
    on ← Mfa.is_enabled rt cfg user_id
    if on then pure (LoginResult.mfa user_id) else (do
      failures_write (Lockout.clear user_id)
      s ← create_session user_id d now
      pure (LoginResult.session s.0 s.1))
