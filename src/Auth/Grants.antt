-- ===== src/Auth/Grants.antt =====
-- The grants of the token endpoint in modules/auth/auth.service.ts: password, refresh token and
-- client credentials, and the revocation of a refresh token.
pub mod Password
pub mod Refresh
pub mod Replay
use authx.Prelude.{
  ℕ, String, Bool, true, false, Option, none, some, if◌then◌else◌, ◌&&◌, ◌||◌, not, leb, is_some,
  ◌==◌,
}
use authx.Prelude.Text.{join}
use authx.Errors.{ErrorCode}
use authx.Lockout
use authx.Mfa
use authx.Repo.Users
use authx.Repo.Orgs.{AppService}
use authx.Repo.Orgs
use authx.Repo.Rbac
use authx.Repo.Tokens.{RefreshToken}
use authx.Repo.Tokens
use authx.Service.{
  Config, Runtime, SubType, AccessOptions, access_payload, Db, M, ◌>>=◌, ◌>>◌, pure, throw,
  throw_if, query, some_or_throw, when,
}
use authx.Service.Tables.{failures_write, tokens_write, tokens_attempt_ask}
use authx.Auth.{
  TokenPair, Client, Drawn, authenticate_password, authenticate_token_client, just_rotated,
  require_verified_email, issue_tokens_for_service, user_access, new_refresh, token_pair,
  secret_matches,
}

module _ (rt : Runtime) (cfg : Config) where
  -- `identifier.includes('@')` is an argument of the call, with the identifier.
  unfoldable pub password_grant : Bool → String → String → String → Drawn → ℕ → M TokenPair
  password_grant has_at identifier password audience d now = do
    throw_if (not cfg.allow_password_grant) ErrorCode.unsupported_grant_type
    found ← query (λ db.
        if has_at
        then Users.find_by_email rt.same identifier db.users
        else Users.find_by_username rt.same identifier db.users)
    user ← authenticate_password rt cfg found password now
    on ← Mfa.is_enabled rt cfg user.id
    throw_if on ErrorCode.mfa_required
    failures_write (Lockout.clear user.id)
    issue_tokens_for_service rt cfg user.id audience none none d now

  -- A token that was revoked before: a race inside the grace period, or theft.
  unfoldable pub refuse_revoked : RefreshToken → ℕ → M TokenPair
  refuse_revoked existing now =
      if just_rotated rt cfg existing now then throw ErrorCode.invalid_refresh_token else (do
        tokens_write (Tokens.revoke_all_for_user existing.user_id now)
        throw ErrorCode.refresh_token_reuse)

  abbrev pub rotated_just_now : Option RefreshToken → ℕ → Bool
  rotated_just_now none now = false
  rotated_just_now (some t) now = just_rotated rt cfg t now

  -- What follows a rotation that lost.
  unfoldable pub lost_rotation : String → RefreshToken → ℕ → M TokenPair
  lost_rotation hash existing now = do
    current ← query (λ db. Tokens.find_by_hash rt.same hash db.tokens)
    if rotated_just_now current now then throw ErrorCode.invalid_refresh_token else (do
      tokens_write (Tokens.revoke_all_for_user existing.user_id now)
      throw ErrorCode.refresh_token_reuse)

  unfoldable pub rotate_active : String → RefreshToken → AppService → Drawn → ℕ → M TokenPair
  unfolding require_verified_email lost_rotation
  rotate_active hash existing service d now = do
    throw_if (leb existing.expires_at now) ErrorCode.invalid_refresh_token
    found ← query (λ db. Users.find_by_id existing.user_id db.users)
    subject ← some_or_throw ErrorCode.invalid_refresh_token found
    require_verified_email rt cfg subject
    member ← query (λ db. Orgs.is_member existing.user_id service.org_id db.orgs)
    throw_if (not member) ErrorCode.not_org_member
    scopes ← query (λ db. Rbac.permissions_for_user_in_service existing.user_id service.id db.rbac)
    won ←
        tokens_attempt_ask (
          Tokens.rotate rt.same existing.id (new_refresh rt cfg d existing.user_id service now) now)
    if won
        then pure (
            token_pair rt cfg
              (rt.sign_access (
                access_payload cfg now
                  (user_access rt cfg existing.user_id service scopes none none)))
              d.token)
        else lost_rotation hash existing now

  unfoldable pub refresh_grant : String → Client → Drawn → ℕ → M TokenPair
  unfolding rotate_active refuse_revoked authenticate_token_client
  refresh_grant refresh_token client d now = do
    found ← query (λ db. Tokens.find_by_hash rt.same (rt.hash_token refresh_token) db.tokens)
    existing ← some_or_throw ErrorCode.invalid_refresh_token found
    owner ← query (λ db. Orgs.find_service_by_id existing.app_service_id db.orgs)
    service ← some_or_throw ErrorCode.invalid_refresh_token owner
    authenticate_token_client rt cfg service client ErrorCode.invalid_grant
    if is_some existing.revoked_at
        then refuse_revoked existing now
        else rotate_active (rt.hash_token refresh_token) existing service d now

  unfoldable pub authenticate_owner : Option AppService → Client → M (Unit {0})
  unfolding authenticate_token_client
  authenticate_owner none client = pure tt
  authenticate_owner (some service) client =
      authenticate_token_client rt cfg service client ErrorCode.invalid_client

  unfoldable pub revoke_found : Option RefreshToken → Client → ℕ → M (Unit {0})
  unfolding authenticate_owner
  revoke_found none client now = pure tt
  revoke_found (some existing) client now = do
    owner ← query (λ db. Orgs.find_service_by_id existing.app_service_id db.orgs)
    authenticate_owner owner client
    when (not (is_some existing.revoked_at)) (tokens_write (Tokens.revoke existing.id now))

  unfoldable pub revoke : String → Client → ℕ → M (Unit {0})
  unfolding revoke_found
  revoke refresh_token client now = do
    found ← query (λ db. Tokens.find_by_hash rt.same (rt.hash_token refresh_token) db.tokens)
    revoke_found found client now

  -- A confidential client that presents its own secret.
  abbrev pub may_act : AppService → String → Bool
  may_act service secret =
      service.kind == "confidential"
      && secret_matches rt cfg service.client_secret_hash (some secret)

  -- Returns the access token; a client has no refresh token.
  unfoldable pub client_credentials_grant : String → String → String → ℕ → M String
  client_credentials_grant client_id client_secret audience now = do
    found ← query (λ db. Orgs.find_service_by_client_id rt.same client_id db.orgs)
    requesting ← some_or_throw ErrorCode.invalid_client found
    throw_if (not (may_act requesting client_secret)) ErrorCode.invalid_client
    named ← query (λ db. Orgs.find_service_by_audience rt.same audience db.orgs)
    target ← some_or_throw ErrorCode.invalid_request named
    scopes ← query (λ db. Rbac.permissions_for_client_in_service requesting.id target.id db.rbac)
    pure (
        rt.sign_access (
          access_payload cfg now (record {
            sub = requesting.id;
            aud = target.audience;
            org = target.org_id;
            scope = join " " scopes;
            client_id = requesting.client_id;
            oidc_scope = none;
            sub_type = SubType.service;
            auth_time = none;
          })))
