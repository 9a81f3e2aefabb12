-- ===== src/Errors.antt =====
-- lib/errors.ts: the registry of wire errors with their status and message, and what a call returns.
-- A driver error (a duplicate key) is a value of its own, since the source throws a plain `Error`.
use authx.Prelude.{ℕ, String, Option, Bool, true, false, ◌≡◌, refl, ◌⊎◌, inl, inr}

pub data ErrorCode : Type 0 where
  invalid_grant invalid_client invalid_request unsupported_grant_type : ErrorCode
  email_not_verified invalid_token missing_bearer_token invalid_credentials : ErrorCode
  current_password_required invalid_refresh_token refresh_token_reuse unknown_client_id : ErrorCode
  unknown_audience redirect_uri_not_allowed code_challenge_required : ErrorCode
  unsupported_code_challenge_method invalid_verification_link verification_link_expired : ErrorCode
  account_has_no_email user_not_found org_not_found service_not_found weak_password : ErrorCode
  password_too_long email_taken social_account_already_linked org_slug_taken : ErrorCode
  service_audience_taken role_name_taken permission_key_taken not_org_member : ErrorCode
  platform_required google_email_unverified account_exists_link_password : ErrorCode
  google_login_disabled guest_accounts_disabled authorize_request_expired : ErrorCode
  csrf_token_invalid mfa_required totp_not_configured totp_already_enabled : ErrorCode
  totp_not_pending totp_invalid_code rate_limited fresh_login_required : ErrorCode
  totp_guest_forbidden passkey_not_configured passkey_invalid passkey_limit_reached : ErrorCode
  passkey_already_registered passkey_not_found forbidden : ErrorCode

abbrev pub status : ErrorCode → ℕ
status invalid_grant = 400
status invalid_client = 401
status invalid_request = 400
status unsupported_grant_type = 400
status email_not_verified = 403
status invalid_token = 401
status missing_bearer_token = 401
status invalid_credentials = 401
status current_password_required = 400
status invalid_refresh_token = 401
status refresh_token_reuse = 401
status unknown_client_id = 400
status unknown_audience = 400
status redirect_uri_not_allowed = 400
status code_challenge_required = 400
status unsupported_code_challenge_method = 400
status invalid_verification_link = 400
status verification_link_expired = 400
status account_has_no_email = 400
status user_not_found = 404
status org_not_found = 404
status service_not_found = 404
status weak_password = 400
status password_too_long = 400
status email_taken = 409
status social_account_already_linked = 409
status org_slug_taken = 409
status service_audience_taken = 409
status role_name_taken = 409
status permission_key_taken = 409
status not_org_member = 403
status platform_required = 403
status google_email_unverified = 403
status account_exists_link_password = 403
status google_login_disabled = 404
status guest_accounts_disabled = 404
status authorize_request_expired = 400
status csrf_token_invalid = 403
status mfa_required = 403
status totp_not_configured = 404
status totp_already_enabled = 409
status totp_not_pending = 404
status totp_invalid_code = 400
status rate_limited = 429
status fresh_login_required = 403
status totp_guest_forbidden = 403
status passkey_not_configured = 404
status passkey_invalid = 401
status passkey_limit_reached = 409
status passkey_already_registered = 409
status passkey_not_found = 404
status forbidden = 403

abbrev pub message : ErrorCode → String
message invalid_grant = "invalid grant"
message invalid_client = "client authentication failed"
message invalid_request = "invalid request"
message unsupported_grant_type = "unsupported grant type"
message email_not_verified = "email address not verified"
message invalid_token = "invalid token"
message missing_bearer_token = "missing bearer token"
message invalid_credentials = "invalid credentials"
message current_password_required = "current_password is required"
message invalid_refresh_token = "invalid refresh token"
message refresh_token_reuse = "refresh token reuse detected"
message unknown_client_id = "unknown client_id"
message unknown_audience = "unknown audience"
message redirect_uri_not_allowed = "redirect_uri not allowed"
message code_challenge_required = "code_challenge with S256 is required"
message unsupported_code_challenge_method = "unsupported code_challenge_method"
message invalid_verification_link = "invalid verification link"
message verification_link_expired = "verification link expired"
message account_has_no_email = "this account has no email address"
message user_not_found = "user not found"
message org_not_found = "organization not found"
message service_not_found = "service not found"
message weak_password = "that password is too common or too short"
message password_too_long = "password must be at most 72 bytes"
message email_taken = "email already registered"
message social_account_already_linked = "that account is already linked to a different user"
message org_slug_taken = "an org with this slug already exists"
message service_audience_taken = "a service with this audience already exists"
message role_name_taken = "a role with this name already exists in this service"
message permission_key_taken = "a permission with this key already exists in this service"
message not_org_member = "not a member of this organization"
message platform_required = "platform token required"
message google_email_unverified = "google account email is not verified"
message account_exists_link_password =
    "an account with this email already exists; sign in with your password to link Google"
message google_login_disabled = "google login is not configured"
message guest_accounts_disabled = "guest accounts are not enabled for this client"
message authorize_request_expired =
    "no sign-in in progress; start again from the application (GET /oauth/authorize)"
message csrf_token_invalid =
    "csrf token missing or does not match; GET /oauth/authorize first and submit the csrf_token it renders along with its cookie"
message mfa_required =
    "this account uses two-factor authentication; sign in through the browser (authorization code flow)"
message totp_not_configured = "two-factor authentication is not configured"
message totp_already_enabled = "two-factor authentication is already enabled"
message totp_not_pending = "no two-factor setup in progress; start one with POST /users/me/totp"
message totp_invalid_code = "that code is not valid"
message rate_limited = "too many requests"
message fresh_login_required =
    "sign in again (prompt=login) and retry within 5 minutes of signing in"
message totp_guest_forbidden =
    "guest accounts cannot use two-factor authentication; add an email address first"
message passkey_not_configured = "passkeys are not configured"
message passkey_invalid = "that passkey couldn't be used"
message passkey_limit_reached = "this account already has the maximum number of passkeys (20)"
message passkey_already_registered = "this passkey is already registered"
message passkey_not_found = "passkey not found"
message forbidden = "forbidden"

-- What a call throws: an `AppError`, or the driver's duplicate-key error with its table, index and
-- value.
pub data Failure : Type 0 where
  app : ErrorCode → Failure
  duplicate_key : String → String → Option String → Failure

pub data Result (A : Type 0) : Type 0 where
  ok : A → Result A
  err : Failure → Result A

abbrev pub is_ok : {A : Type 0} → Result A → Bool
is_ok (ok a) = true
is_ok (err e) = false

pub Result-cases :
    {A : Type 0} → (r : Result A) → ((a : A) × (r ≡ ok a)) ⊎ ((e : Failure) × (r ≡ err e))
Result-cases (ok a) = inl (a, refl)
Result-cases (err e) = inr (e, refl)
