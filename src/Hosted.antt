-- ===== src/Hosted.antt =====
-- modules/auth/hosted.ts, with what its handlers in auth.routes.ts and passkey.routes.ts share: the
-- pages of the sign-in, their cookies, the CSRF check, and the end of every sign-in. A page is what
-- it is built from; HTML and the attributes of cookies are left out, and so are the cookies of a
-- request that ends with an error.
pub mod Flow
pub mod Passkey
pub mod Csrf
pub mod Replies
pub mod Redirects
use authx.Prelude.{
  ℕ, String, Bool, true, false, Option, none, some, if◌then◌else◌, not, is_some, List, [], ◌∷◌,
  ◌++◌, ◌==◌, ◌&&◌, ◌||◌,
}
use authx.Prelude.Text.{truthy}
use authx.Errors.{ErrorCode}
use authx.Repo.Orgs.{AppService}
use authx.Service.{Config, Runtime, Db, M, ◌>>=◌, ◌>>◌, pure, throw, throw_if, query}
use authx.Auth.{Drawn}
use authx.Auth.Exchange.{
  AuthorizeRequest, CodeRequest, validate_authorize_request, issue_authorization_code,
}
use authx.Webauthn.{Settings, enabled, at_limit}
use authx.Webauthn

-- An authorize request; `passkey` says whether it has `passkey=add`.
pub record AuthorizeQuery : Type 0 where
  pub client_id : String
  pub redirect_uri : String
  pub scope : String
  pub state : Option String
  pub nonce : Option String
  pub prompt : Option String
  pub passkey : Bool
  pub code_challenge : String
  pub code_challenge_method : String

pub data LoginMethod : Type 0 where
  password google totp passkey : LoginMethod

-- What a browser sends beside the form: its cookies, whether Accept has text/html, and the random
-- token that a page draws if there is no CSRF cookie.
pub record Browser : Type 0 where
  pub session : Option String
  pub csrf : Option String
  pub mfa : Option String
  pub google_authorize : Option AuthorizeQuery
  pub passkey_offer : Option String
  pub html : Bool
  pub fresh_token : String

pub data Cookie : Type 0 where
  csrf session mfa : String → Cookie
  google_authorize : AuthorizeQuery → Cookie
  offer_dismissed : Cookie
  delete_mfa delete_google delete_session : Cookie

-- A page: the request that its form carries, its CSRF field, and its error. The login page offers
-- Google and passkeys where they are on; the second request of an offer is the one that its links
-- continue with.
pub data Page : Type 0 where
  login : AuthorizeQuery → String → Option String → Bool → Bool → Page
  code : AuthorizeQuery → String → Option String → Page
  offer : AuthorizeQuery → AuthorizeQuery → String → Page

-- `to_client uri code state` is `redirectTo(uri, { code, state })`; the others are authx's own.
pub data Reply : Type 0 where
  html : Page → Reply
  to_client : String → String → Option String → Reply
  to_authorize : AuthorizeQuery → Reply
  to_google : Reply
  options : Webauthn.AuthOptions → Reply
  registration : Webauthn.RegOptions → Reply
  no_content : Reply

pub record Response : Type 0 where
  pub status : ℕ
  pub cookies : List Cookie
  pub reply : Reply

-- `getCookie(c, CSRF_COOKIE) ?? generateRefreshToken()`
abbrev pub csrf_token : Browser → String
csrf_token b = elim b.csrf [ none ↦ b.fresh_token | some t ↦ t ]

-- `authorizeParams`: every parameter but `prompt` and `passkey`, and empty ones left out.
abbrev pub authorize_params : AuthorizeQuery → AuthorizeQuery
authorize_params q = record q {
  state = if truthy q.state then q.state else none;
  nonce = if truthy q.nonce then q.nonce else none;
  prompt = none;
  passkey = false;
}

-- The cookie is there, not empty, and the field is equal to it.
abbrev pub csrf_matches : Browser → Option String → Bool
csrf_matches b token = elim b.csrf [
  | none ↦ false
  | some presented ↦ not (presented == "") && elim token [ none ↦ false | some t ↦ t == presented ]
]

abbrev pub csrf_message : String
csrf_message = "This sign-in form is no longer valid. Please try again."

-- `requireCsrf`
abbrev pub require_csrf : Browser → Option String → M (Unit {0})
require_csrf b token = throw_if (not (csrf_matches b token)) ErrorCode.csrf_token_invalid

module _ (rt : Runtime) (cfg : Config) (web : Settings) where
  unfoldable pub render_login : Browser → AuthorizeQuery → Option String → ℕ → Response
  render_login b q error status = record {
    status = status;
    cookies = csrf (csrf_token b) ∷ [];
    reply =
        html
          (login q (csrf_token b) error (not (cfg.google_client_id == "")) (not (web.rp_id == "")));
  }

  -- `csrfRefused`: none is a form that may pass.
  unfoldable pub csrf_refused : Browser → AuthorizeQuery → Option String → M (Option Response)
  unfolding render_login
  csrf_refused b q token =
      if csrf_matches b token
      then pure none
      else if not b.html
      then throw ErrorCode.csrf_token_invalid
      else pure (some (render_login b q (some csrf_message) 403))

  -- A form's handler, behind the check.
  abbrev pub unless_refused : Option Response → M Response → M Response
  unless_refused none m = m
  unless_refused (some r) m = pure r

  abbrev pub request_of : AuthorizeQuery → AuthorizeRequest
  request_of q = record {
    client_id = q.client_id;
    redirect_uri = q.redirect_uri;
    code_challenge = q.code_challenge;
    code_challenge_method = q.code_challenge_method;
  }

  abbrev pub code_request : AuthorizeQuery → ℕ → CodeRequest
  code_request q auth_time = record {
    redirect_uri = q.redirect_uri;
    scope = q.scope;
    code_challenge = q.code_challenge;
    code_challenge_method = q.code_challenge_method;
    nonce = q.nonce;
    auth_time = auth_time;
  }

  abbrev pub is_passkey : LoginMethod → Bool
  is_passkey passkey = true
  is_passkey _ = false

  abbrev pub dismissed : Browser → Bool
  dismissed b = elim b.passkey_offer [ none ↦ false | some v ↦ v == "dismissed" ]

  unfoldable pub offers_passkey :
      Webauthn.Package → Browser → AuthorizeQuery → LoginMethod → String → M Bool
  unfolding at_limit
  offers_passkey pkg b q method user_id =
      if is_passkey method || web.rp_id == "" then pure false else (do
        full ← at_limit rt pkg web user_id
        pure (not full && (q.passkey || not (dismissed b))))

  abbrev pub code_response : AuthorizeQuery → List Cookie → String → Response
  code_response q cookies issued = record {
    status = 302;
    cookies = cookies;
    reply = to_client q.redirect_uri issued q.state;
  }

  abbrev pub offer_response : Browser → AuthorizeQuery → List Cookie → String → Response
  offer_response b q cookies token = record {
    status = 200;
    cookies = cookies ++ session token ∷ csrf (csrf_token b) ∷ [];
    reply =
        html
          (offer (record q { prompt = none; passkey = false }) (authorize_params q) (csrf_token b));
  }

  -- The code, and the redirect that takes it to the client.
  unfoldable pub send_code :
      AuthorizeQuery → AppService → String → ℕ → List Cookie → Drawn → ℕ → M Response
  send_code q service user_id auth_time cookies d now = do
    issued ← issue_authorization_code rt cfg user_id service (code_request q auth_time) d now
    pure (code_response q cookies issued)

  -- `finishHostedLogin`: the session cookie, then the offer of a passkey or the code.
  unfoldable pub finish_hosted_login :
      Webauthn.Package
      → Browser
      → AuthorizeQuery
      → AppService
      → (String × String)
      → LoginMethod
      → List Cookie
      → Drawn
      → ℕ
      → M Response
  unfolding offers_passkey send_code
  finish_hosted_login pkg b q service (token, user_id) method cookies d now = do
    offered ← offers_passkey pkg b q method user_id
    if offered
        then pure (offer_response b q cookies token)
        else send_code q service user_id now (cookies ++ session token ∷ []) d now
