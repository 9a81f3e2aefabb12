-- ===== src/Hosted/Passkey.antt =====
-- The passkey routes of the hosted pages, modules/passkeys/passkey.routes.ts.
use authx.Prelude.{ℕ, String, Bool, Option, none, some, if◌then◌else◌, not, List, [], ◌∷◌}
use authx.Errors.{ErrorCode, Failure}
use authx.Repo.Orgs.{AppService}
use authx.Service.{attempt_or, Config, Runtime, M, ◌>>=◌, ◌>>◌, pure, throw, some_or_throw, rethrow}
use authx.Auth.Login.{create_passkey_session, resolve_session}
use authx.Authorize.{Claims, require_auth}
use authx.Webauthn
use authx.Webauthn.{
  PasskeySummary, Package, Settings, verify_sign_in, sign_in_options, registration_options,
  register_passkey, require_enabled,
}
use authx.Hosted.{
  AuthorizeQuery, LoginMethod, Browser, Cookie, Reply, Response, authorize_params, csrf_refused,
  unless_refused, render_login, finish_hosted_login, require_csrf,
}
use authx.Hosted.Flow.{Challenger, Draws, given, validate, verify_address_message}

-- A form of `passkeyFormSchema`: the credential is a JSON text.
pub record PasskeyForm : Type 0 where
  pub query : AuthorizeQuery
  pub credential : String
  pub csrf_token : Option String

abbrev pub passkey_failed_message : String
passkey_failed_message = "That passkey couldn't be used."

-- `parses` says whether `JSON.parse` takes a text.
module _ (rt : Runtime) (cfg : Config) (web : Settings) (pkg : Package) (mfa : Challenger)
    (parses : String → Bool) where
  abbrev pub parse_credential : String → M String
  parse_credential s = if parses s then pure s else throw ErrorCode.passkey_invalid

  -- No session reads as "sign in again".
  unfoldable pub signed_in_session : Browser → ℕ → M (String × ℕ)
  signed_in_session b now = do
    session ← elim (given b.session) [
      | none ↦ pure none
      | some token ↦ resolve_session rt cfg token now
    ]
    some_or_throw ErrorCode.fresh_login_required session

  abbrev pub answer : Reply → ℕ → List Cookie → Response
  answer r st cookies = record { status = st; cookies = cookies; reply = r }

  -- POST /oauth/authorize/passkey/options
  unfoldable pub passkey_options : Browser → Option String → String → ℕ → M Response
  passkey_options b token challenge now = do
    require_enabled rt pkg web
    require_csrf b token
    o ← sign_in_options rt pkg web challenge now
    pure (answer (Reply.options o) 200 [])

  abbrev pub sign_in : PasskeyForm → Draws → ℕ → M (String × String)
  sign_in f d now = do
    response ← parse_credential f.credential
    user_id ← verify_sign_in rt pkg web response now
    create_passkey_session rt cfg user_id d.session now

  -- Why the sign-in failed: a script gets the error, a browser the page.
  abbrev pub passkey_failed : Browser → AuthorizeQuery → Failure → M Response
  passkey_failed b q (Failure.duplicate_key table index value) =
      rethrow (Failure.duplicate_key table index value)
  passkey_failed b q (Failure.app ErrorCode.email_not_verified) =
      if not b.html
      then throw ErrorCode.email_not_verified
      else pure (render_login rt cfg web b q (some verify_address_message) 403)
  passkey_failed b q (Failure.app c) =
      if not b.html
      then throw c
      else pure (render_login rt cfg web b q (some passkey_failed_message) 401)

  abbrev pub passkey_step : Browser → PasskeyForm → Draws → ℕ → AppService → M Response
  passkey_step b f d now service = attempt_or (sign_in f d now) (passkey_failed b f.query) (λ s.
      finish_hosted_login rt cfg web pkg b f.query service s LoginMethod.passkey [] d.code now)

  -- POST /oauth/authorize/passkey
  unfoldable pub submit_passkey : Browser → PasskeyForm → Draws → ℕ → M Response
  unfolding csrf_refused finish_hosted_login render_login
  submit_passkey b f d now = do
    require_enabled rt pkg web
    refused ← csrf_refused rt cfg web b f.query f.csrf_token
    unless_refused rt cfg web refused
        (validate rt cfg web pkg mfa f.query >>= passkey_step b f d now)

  -- GET /oauth/passkeys/dismiss
  unfoldable pub dismiss : AuthorizeQuery → M Response
  dismiss q = do
    require_enabled rt pkg web
    pure (answer (Reply.to_authorize (authorize_params q)) 302 (Cookie.offer_dismissed ∷ []))

  -- POST /oauth/passkeys/register/options
  unfoldable pub register_options : Browser → Option String → String → ℕ → M Response
  unfolding signed_in_session
  register_options b token challenge now = do
    require_enabled rt pkg web
    require_csrf b token
    session ← signed_in_session b now
    o ← registration_options rt pkg web session.0 session.1 challenge now
    pure (answer (Reply.registration o) 200 [])

  -- POST /oauth/passkeys/register; `id` is the new row's.
  unfoldable pub submit_registration : Browser → Option String → String → String → ℕ → M Response
  unfolding signed_in_session
  submit_registration b token credential id now = do
    require_enabled rt pkg web
    require_csrf b token
    session ← signed_in_session b now
    response ← parse_credential credential
    register_passkey rt pkg web session.0 response id now
    pure (answer Reply.no_content 204 [])

-- The management routes under /users: a bearer token, and the passkeys of its account.
module _ (rt : Runtime) (web : Settings) (pkg : Package) where
  -- GET /users/me/passkeys
  unfoldable pub list_mine : (String → Option Claims) → Option String → M (List PasskeySummary)
  list_mine verify bearer = do
    caller ← require_auth verify bearer
    Webauthn.list rt pkg web caller.id

  -- DELETE /users/me/passkeys/:id
  unfoldable pub delete_mine : (String → Option Claims) → Option String → String → M (Unit {0})
  delete_mine verify bearer id = do
    caller ← require_auth verify bearer
    Webauthn.remove rt pkg web caller.id id
