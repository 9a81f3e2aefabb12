-- ===== src/Auth/Exchange.antt =====
-- The authorization code flow of modules/auth/auth.service.ts: the request, the code, its exchange.
pub mod SingleUse
pub mod Replay
use authx.Prelude.{
  ℕ, ◌+◌, ◌*◌, ◌/◌, String, Bool, true, false, Option, none, some, if◌then◌else◌, ◌&&◌, ◌||◌, not,
  leb, is_some, ◌==◌, includes, List, [], ◌∷◌,
}
use authx.Prelude.Text.{join, truthy}
use authx.Errors.{ErrorCode}
use authx.Oidc.{granted_oidc_scopes, claims_for_scopes, OidcUser}
use authx.Repo.Users.{User}
use authx.Repo.Users
use authx.Repo.Orgs.{AppService}
use authx.Repo.Orgs
use authx.Repo.Codes.{AuthCode}
use authx.Repo.Codes
use authx.Repo.Tokens
use authx.Service.{
  Config, Runtime, IdPayload, Db, M, ◌>>=◌, ◌>>◌, pure, throw, throw_if, query, some_or_throw,
}
use authx.Service.Tables.{codes_attempt, codes_ask, tokens_write}
use authx.Auth.{TokenPair, Drawn, client_secret_ok, issue_tokens_for_service}

pub record AuthorizeRequest : Type 0 where
  pub client_id : String
  pub redirect_uri : String
  pub code_challenge : String
  pub code_challenge_method : String

pub record CodeRequest : Type 0 where
  pub redirect_uri : String
  pub scope : String
  pub code_challenge : String
  pub code_challenge_method : String
  pub nonce : Option String
  pub auth_time : ℕ

pub record ExchangeInput : Type 0 where
  pub code : String
  pub redirect_uri : String
  pub code_verifier : String
  pub client_id : String
  pub client_secret : Option String

abbrev pub oidc_user : User → OidcUser
oidc_user u = record {
  email = u.email;
  email_verified = u.email_verified;
  name = u.name;
  given_name = u.given_name;
  family_name = u.family_name;
  picture = u.picture;
  updated_at = u.updated_at;
}

module _ (rt : Runtime) (cfg : Config) where
  unfoldable pub validate_authorize_request : AuthorizeRequest → M AppService
  validate_authorize_request p = do
    found ← query (λ db. Orgs.find_service_by_client_id rt.same p.client_id db.orgs)
    service ← some_or_throw ErrorCode.unknown_client_id found
    throw_if (not (includes p.redirect_uri service.redirect_uris))
        ErrorCode.redirect_uri_not_allowed
    throw_if (not (p.code_challenge_method == "S256") || p.code_challenge == "")
        ErrorCode.code_challenge_required
    pure service

  unfoldable pub issue_authorization_code : String → AppService → CodeRequest → Drawn → ℕ → M String
  issue_authorization_code user_id service p d now = do
    throw_if (not (p.code_challenge_method == "S256")) ErrorCode.unsupported_code_challenge_method
    codes_attempt (
        Codes.create rt.same (record {
          id = d.id;
          code_hash = rt.hash_token d.token;
          user_id = user_id;
          app_service_id = service.id;
          redirect_uri = p.redirect_uri;
          code_challenge = p.code_challenge;
          code_challenge_method = p.code_challenge_method;
          scope = p.scope;
          nonce = p.nonce;
          auth_time = p.auth_time;
          expires_at = now + cfg.auth_code_ttl * 1000;
          consumed_at = none;
        }))
    pure d.token

  -- A replay: the account's refresh tokens may have been minted from a stolen code.
  unfoldable pub refuse_replay : AuthCode → ℕ → M TokenPair
  refuse_replay code now = do
    tokens_write (Tokens.revoke_all_for_user code.user_id now)
    throw ErrorCode.invalid_grant

  unfoldable pub id_payload : String → AuthCode → User → List String → ℕ → IdPayload
  id_payload client_id code user oidc now = record {
    iss = cfg.issuer;
    sub = user.id;
    aud = client_id;
    iat = now / 1000;
    exp = now / 1000 + cfg.access_token_ttl;
    auth_time = code.auth_time / 1000;
    nonce = if truthy code.nonce then code.nonce else none;
    claims = claims_for_scopes (oidc_user user) oidc;
  }

  -- The OIDC half: an id_token where `openid` was granted and the account is there.
  unfoldable pub with_id_token : String → AuthCode → List String → TokenPair → ℕ → M TokenPair
  with_id_token client_id code oidc pair now =
      if not (includes "openid" oidc) then pure pair else (do
        found ← query (λ db. Users.find_by_id code.user_id db.users)
        pure (elim found [
          | none ↦ pair
          | some user ↦ record pair {
            id_token = some (rt.sign_id (id_payload client_id code user oidc now));
          }
        ]))

  -- The tokens of a code that was just consumed.
  unfoldable pub mint : ExchangeInput → AuthCode → AppService → Drawn → ℕ → M TokenPair
  unfolding with_id_token
  mint input code service d now = do
    let oidc = granted_oidc_scopes code.scope
    pair ←
        issue_tokens_for_service rt cfg code.user_id service.audience
          (elim oidc [ [] ↦ none | s ∷ ss ↦ some (join " " (s ∷ ss)) ]) (some code.auth_time) d now
    with_id_token input.client_id code oidc pair now

  -- The checks of an unconsumed code, in the source's order.
  unfoldable pub check_code : ExchangeInput → AuthCode → AppService → ℕ → M (Unit {0})
  check_code input code service now = do
    throw_if (leb code.expires_at now) ErrorCode.invalid_grant
    throw_if (not (code.redirect_uri == input.redirect_uri)) ErrorCode.invalid_grant
    throw_if (not (client_secret_ok rt cfg service input.client_secret)) ErrorCode.invalid_client
    throw_if (not (rt.s256 input.code_verifier == code.code_challenge)) ErrorCode.invalid_grant

  unfoldable pub redeem : ExchangeInput → AuthCode → AppService → Drawn → ℕ → M TokenPair
  unfolding check_code refuse_replay
  redeem input code service d now = if is_some code.consumed_at then refuse_replay code now else (do
    check_code input code service now
    won ← codes_ask (Codes.consume code.id now)
    if won then mint input code service d now else refuse_replay code now)

  unfoldable pub exchange_authorization_code : ExchangeInput → Drawn → ℕ → M TokenPair
  unfolding redeem
  exchange_authorization_code input d now = do
    found ← query (λ db. Codes.find_by_code_hash rt.same (rt.hash_token input.code) db.codes)
    code ← some_or_throw ErrorCode.invalid_grant found
    owner ← query (λ db. Orgs.find_service_by_id code.app_service_id db.orgs)
    service ← some_or_throw ErrorCode.invalid_grant owner
    throw_if (not (service.client_id == input.client_id)) ErrorCode.invalid_grant
    redeem input code service d now
