-- ===== src/Hosted/Flow.antt =====
-- The authorize routes of modules/auth/auth.routes.ts: the login form, the second factor, sign-in
-- with Google, logout.
use authx.Prelude.{
  ℕ, String, Bool, false, Option, none, some, if◌then◌else◌, List, [], ◌∷◌, ◌++◌, includes, ◌==◌,
  nat_eq,
}
use authx.Prelude.Text.{split}
use authx.Errors.{ErrorCode, Failure, status}
use authx.Repo.Orgs.{AppService}
use authx.Service.{
  Config, Runtime, M, ◌>>=◌, ◌>>◌, pure, throw_if, some_or_throw, rethrow, attempt_or,
}
use authx.Auth.{Drawn, LoginResult}
use authx.Auth.Exchange.{validate_authorize_request}
use authx.Auth.Login.{
  NewIds, login_create_session, complete_mfa_login, login_with_google, resolve_session, logout,
}
use authx.Webauthn.{Package, Settings}
use authx.Hosted.{
  AuthorizeQuery, LoginMethod, Browser, Cookie, Page, Reply, Response, html, csrf_token,
  csrf_refused, unless_refused, render_login, request_of, send_code, finish_hosted_login,
}

-- A form of `authorizeFormSchema`, and one of `totpFormSchema`.
pub record LoginForm : Type 0 where
  pub query : AuthorizeQuery
  pub email : String
  pub password : String
  pub csrf_token : Option String

pub record CodeForm : Type 0 where
  pub query : AuthorizeQuery
  pub code : String
  pub csrf_token : Option String

-- What Google's user-info answer says; `verified_email ?? false`.
pub record Profile : Type 0 where
  pub id : Option String
  pub email : Option String
  pub verified_email : Bool

-- The signed challenge between the two factors: `signMfaChallenge`, `verifyMfaChallenge`.
pub record Challenger : Type 0 where
  pub sign : String → ℕ → String
  pub verify : String → ℕ → Option String

-- A session's row and a code's row.
pub record Draws : Type 0 where
  pub session : Drawn
  pub code : Drawn

abbrev pub verify_address_message : String
verify_address_message =
    "Please verify your email address before signing in. Check your inbox for the link, or request a new one."

abbrev pub mfa_code_error : String
mfa_code_error =
    "That code is not valid. Check your authenticator app or use a recovery code. After too many attempts, sign-in pauses for a while."

abbrev pub timed_out_message : String
timed_out_message = "Your sign-in timed out. Please sign in again."

-- `q.prompt?.split(' ').includes('login')`
abbrev pub forces_login : AuthorizeQuery → Bool
forces_login q = elim q.prompt [ none ↦ false | some p ↦ includes "login" (split b' ' p) ]

-- `if (text)` on a cookie.
abbrev pub given : Option String → Option String
given none = none
given (some s) = if s == "" then none else some s

abbrev pub google_message : ErrorCode → String
google_message ErrorCode.google_email_unverified =
    "Your Google account's email address is not verified."
google_message ErrorCode.account_exists_link_password =
    "An account with this email already exists. Sign in with your password."
google_message _ = "This Google account cannot be used to sign in."

module _ (rt : Runtime) (cfg : Config) (web : Settings) (pkg : Package) (mfa : Challenger) where
  abbrev pub validate : AuthorizeQuery → M AppService
  validate q = validate_authorize_request rt cfg (request_of rt cfg web q)

  abbrev pub render : Browser → AuthorizeQuery → Option String → ℕ → Response
  render = render_login rt cfg web

  abbrev pub render_totp : Browser → AuthorizeQuery → Option String → ℕ → List Cookie → Response
  render_totp b q error st cookies = record {
    status = st;
    cookies = cookies ++ Cookie.csrf (csrf_token b) ∷ [];
    reply = html (Page.code q (csrf_token b) error);
  }

  -- `startMfa`
  abbrev pub start_mfa : Browser → AuthorizeQuery → String → List Cookie → ℕ → Response
  start_mfa b q user_id cookies now =
      render_totp b q none 200 (cookies ++ Cookie.mfa (mfa.sign user_id now) ∷ [])

  -- What follows a sign-in that may want the second factor.
  abbrev pub after_login :
      Browser
      → AuthorizeQuery
      → AppService
      → LoginMethod
      → List Cookie
      → Drawn
      → ℕ
      → LoginResult
      → M Response
  after_login b q service method cookies d now (LoginResult.mfa user_id) =
      pure (start_mfa b q user_id cookies now)
  after_login b q service method cookies d now (LoginResult.session token user_id) =
      finish_hosted_login rt cfg web pkg b q service (token, user_id) method cookies d now

  -- The live session of the cookie, if the request takes one.
  abbrev pub session_of : Browser → AuthorizeQuery → ℕ → M (Option (String × ℕ))
  session_of b q now = elim (if forces_login q then none else given b.session) [
    | none ↦ pure none
    | some token ↦ resolve_session rt cfg token now
  ]

  -- With a session, the code at once; else the login page.
  abbrev pub session_reply :
      Browser → AuthorizeQuery → Drawn → ℕ → AppService → Option (String × ℕ) → M Response
  session_reply b q d now service none = pure (render b q none 200)
  session_reply b q d now service (some (user_id, auth_time)) =
      send_code rt cfg web q service user_id auth_time [] d now

  abbrev pub asked_step : Browser → AuthorizeQuery → Drawn → ℕ → AppService → M Response
  asked_step b q d now service = session_of b q now >>= session_reply b q d now service

  -- GET /oauth/authorize
  unfoldable pub authorize : Browser → AuthorizeQuery → Drawn → ℕ → M Response
  unfolding send_code render_login
  authorize b q d now = validate q >>= asked_step b q d now

  -- Why a password sign-in failed, on the page.
  abbrev pub login_failed : Browser → AuthorizeQuery → Failure → M Response
  login_failed b q (Failure.app ErrorCode.email_not_verified) =
      pure (render b q (some verify_address_message) 403)
  login_failed b q _ = pure (render b q (some "Invalid email or password") 401)

  abbrev pub password_step : Browser → LoginForm → Draws → ℕ → AppService → M Response
  password_step b f d now service =
      attempt_or (login_create_session rt cfg f.email f.password d.session now)
        (login_failed b f.query) (after_login b f.query service LoginMethod.password [] d.code now)

  -- POST /oauth/authorize
  unfoldable pub submit_login : Browser → LoginForm → Draws → ℕ → M Response
  unfolding csrf_refused finish_hosted_login
  submit_login b f d now = do
    refused ← csrf_refused rt cfg web b f.query f.csrf_token
    unless_refused rt cfg web refused (validate f.query >>= password_step b f d now)

  abbrev pub timed_out : Browser → AuthorizeQuery → M Response
  timed_out b q = pure (render b q (some timed_out_message) 401)

  -- Why the second factor failed; a driver error is thrown on.
  abbrev pub code_failed : Browser → AuthorizeQuery → Failure → M Response
  code_failed b q (Failure.app ErrorCode.invalid_grant) = timed_out b q
  code_failed b q (Failure.app c) = pure (render_totp b q (some mfa_code_error) 401 [])
  code_failed b q (Failure.duplicate_key table index value) =
      rethrow (Failure.duplicate_key table index value)

  -- The code of an account that passed the first factor.
  abbrev pub code_reply : Browser → CodeForm → Draws → ℕ → AppService → Option String → M Response
  code_reply b f d now service none = timed_out b f.query
  code_reply b f d now service (some user_id) =
      attempt_or (complete_mfa_login rt cfg user_id f.code d.session now) (code_failed b f.query)
        (λ s.
          finish_hosted_login rt cfg web pkg b f.query service s LoginMethod.totp
            (Cookie.delete_mfa ∷ []) d.code now)

  abbrev pub code_step : Browser → CodeForm → Draws → ℕ → AppService → M Response
  code_step b f d now service =
      code_reply b f d now service (mfa.verify (elim b.mfa [ none ↦ "" | some t ↦ t ]) now)

  -- POST /oauth/authorize/totp
  unfoldable pub submit_code : Browser → CodeForm → Draws → ℕ → M Response
  unfolding csrf_refused finish_hosted_login
  submit_code b f d now = do
    refused ← csrf_refused rt cfg web b f.query f.csrf_token
    unless_refused rt cfg web refused (validate f.query >>= code_step b f d now)

  -- POST /oauth/logout
  unfoldable pub submit_logout : Browser → ℕ → M Response
  submit_logout b now = do
    elim (given b.session) [ none ↦ pure tt | some token ↦ logout rt cfg token now ]
    pure (record { status = 204; cookies = Cookie.delete_session ∷ []; reply = Reply.no_content })

  -- The start of a sign-in with Google: `failed` is the `error` parameter, and `asked` the authorize
  -- request, where its schema takes it. The last step, the redirect to Google, is the middleware's.
  unfoldable pub start_google : Browser → Bool → Option AuthorizeQuery → M Response
  unfolding render_login
  start_google b failed asked = do
    throw_if (cfg.google_client_id == "") ErrorCode.google_login_disabled
    if failed
        then (do
          pending ← some_or_throw ErrorCode.authorize_request_expired b.google_authorize
          pure (render b pending (some "Google sign-in was cancelled.") 401))
        else (do
          q ← some_or_throw ErrorCode.invalid_request asked
          validate q
          pure (record {
            status = 302;
            cookies = Cookie.google_authorize q ∷ [];
            reply = Reply.to_google;
          }))

  -- Why a sign-in with Google was refused; a driver error is thrown on.
  abbrev pub google_failed : Browser → AuthorizeQuery → Failure → M Response
  google_failed b q (Failure.app c) =
      pure (render b q (some (google_message c)) (if nat_eq (status c) 409 then 409 else 403))
  google_failed b q (Failure.duplicate_key table index value) =
      rethrow (Failure.duplicate_key table index value)

  -- `!profile?.id || !profile.email`
  abbrev pub identified : Profile → Option (String × String)
  identified p = elim (given p.id) [
    | none ↦ none
    | some id ↦ elim (given p.email) [ none ↦ none | some email ↦ some (id, email) ]
  ]

  abbrev pub google_reply :
      Browser
      → Profile
      → NewIds
      → Draws
      → ℕ
      → AuthorizeQuery
      → AppService
      → Option (String × String)
      → M Response
  google_reply b p ids d now q service none =
      pure (render b q (some "Google did not share an email address.") 401)
  google_reply b p ids d now q service (some (id, email)) =
      attempt_or
        (login_with_google rt cfg
          (record { provider_account_id = id; email = email; email_verified = p.verified_email })
          ids d.session now)
        (google_failed b q)
        (after_login b q service LoginMethod.google (Cookie.delete_google ∷ []) d.code now)

  abbrev pub google_step :
      Browser → Profile → NewIds → Draws → ℕ → AuthorizeQuery → AppService → M Response
  google_step b p ids d now q service = google_reply b p ids d now q service (identified p)

  -- GET /oauth/google, back from Google.
  unfoldable pub finish_google : Browser → Profile → NewIds → Draws → ℕ → M Response
  unfolding finish_hosted_login render_login
  finish_google b p ids d now = do
    throw_if (cfg.google_client_id == "") ErrorCode.google_login_disabled
    q ← some_or_throw ErrorCode.authorize_request_expired b.google_authorize
    validate q >>= google_step b p ids d now q
