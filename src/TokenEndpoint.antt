-- ===== src/TokenEndpoint.antt =====
-- POST /oauth/token and POST /oauth/revoke of modules/auth/auth.routes.ts: the grant that a request asks
-- for, and the error codes of the token endpoints.
pub mod Answers
pub mod Reading
pub mod Conformance
pub mod Basic
use Prim.Native.Char.{Char, code}
use Prim.Native.String
use text.Mathlib.Text.{starts_with}
use authx.Prelude.{
  ℕ, String, Bool, true, false, Option, none, some, if◌then◌else◌, not, is_some, nat_eq, List, [],
  ◌∷◌, ◌==◌, ◌&&◌,
}
use authx.Prelude.Map.{Map, get, set}
use authx.Errors.{ErrorCode, Failure, Result, ok, err, status}
use authx.Service.{Config, Runtime, Db, M}
use authx.Auth.{TokenPair, Client, Drawn}
use authx.Auth.Grants
use authx.Auth.Exchange.{ExchangeInput, exchange_authorization_code}
use authx.TokenParams.{
  Params, Request, Web, read_params, with_basic, TokenRequest, password, refresh_token,
  authorization_code, client_credentials, ◌>>=◌, parse_token_request, RevokeRequest, parse_revoke,
  basic_credentials, params_of,
}

-- The codes of `oauthErrorSchema`: those of RFC 6749 that the server uses, and two extensions.
pub data OauthError : Type 0 where
  invalid_request invalid_client invalid_grant unsupported_grant_type : OauthError
  invalid_target mfa_required : OauthError

-- OAUTH_ERRORS: the codes that the token endpoints answer with.
unfoldable pub oauth_errors : ErrorCode → Option OauthError
oauth_errors ErrorCode.invalid_request = some invalid_request
oauth_errors ErrorCode.invalid_client = some invalid_client
oauth_errors ErrorCode.unsupported_grant_type = some unsupported_grant_type
oauth_errors ErrorCode.invalid_grant = some invalid_grant
oauth_errors ErrorCode.invalid_credentials = some invalid_grant
oauth_errors ErrorCode.invalid_refresh_token = some invalid_grant
oauth_errors ErrorCode.refresh_token_reuse = some invalid_grant
oauth_errors ErrorCode.not_org_member = some invalid_grant
oauth_errors ErrorCode.email_not_verified = some invalid_grant
oauth_errors ErrorCode.unknown_audience = some invalid_target
oauth_errors ErrorCode.mfa_required = some mfa_required
oauth_errors _ = none

pub data Body : Type 0 where
  pair : TokenPair → Body
  access : String → Body
  empty : Body

-- A response: a body with status 200, an error with its status and whether it has the challenge
-- `WWW-Authenticate: Basic`, or what is thrown on to `app.onError`.
pub data Response : Type 0 where
  success : Body → Response
  refused : OauthError → ℕ → Bool → Response
  thrown : Failure → Response

abbrev pub is_invalid_client : OauthError → Bool
is_invalid_client invalid_client = true
is_invalid_client _ = false

unfoldable pub oauth_error : Failure → Bool → Response
unfolding oauth_errors
oauth_error (Failure.duplicate_key table index value) used_basic =
    thrown (Failure.duplicate_key table index value)
oauth_error (Failure.app c) used_basic = elim (oauth_errors c) [
  | none ↦ thrown (Failure.app c)
  | some e ↦
      refused e (if is_invalid_client e then 401 else 400) (is_invalid_client e && used_basic)
]

module _ (web : Web) where
  abbrev pub challenges : Option String → Bool
  challenges none = false
  challenges (some header) = web.used_basic header

  module _ (rt : Runtime) (cfg : Config) where
    abbrev pub answer_with : {A : Type 0} → (A → Body) → Result A × Db → Result Body × Db
    answer_with f (ok a, db) = (ok (f a), db)
    answer_with f (err e, db) = (err e, db)

    unfoldable pub grant : TokenRequest → Drawn → ℕ → M Body
    grant (password u p a) d now db =
        answer_with pair (Grants.password_grant rt cfg (web.has_at u) u p a d now db)
    grant (refresh_token t i s) d now db =
        answer_with pair (Grants.refresh_grant rt cfg t (record { id = i; secret = s }) d now db)
    grant (authorization_code input) d now db =
        answer_with pair (exchange_authorization_code rt cfg input d now db)
    grant (client_credentials i s a) d now db =
        answer_with access (Grants.client_credentials_grant rt cfg i s a now db)

    unfoldable pub revoke_token : RevokeRequest → ℕ → M Body
    revoke_token r now db = answer_with (λ u. empty) (Grants.revoke rt cfg r.token r.client now db)

    -- `try { … } catch (err) { return oauthError(c, err, usedBasic) }`
    abbrev pub respond : Bool → Result Body × Db → Response × Db
    respond used_basic (ok b, db) = (success b, db)
    respond used_basic (err e, db) = (oauth_error e used_basic, db)

    abbrev pub run_parsed : {A : Type 0} → Result A → (A → M Body) → M Body
    run_parsed (ok a) f db = f a db
    run_parsed (err e) f db = (err e, db)

    unfoldable pub token_endpoint : Request → Drawn → ℕ → Db → Response × Db
    unfolding params_of parse_token_request grant oauth_error
    token_endpoint r d now db =
        respond (challenges r.authorization)
          (run_parsed (params_of web r >>= parse_token_request) (λ q. grant q d now) db)

    unfoldable pub revoke_endpoint : Request → ℕ → Db → Response × Db
    unfolding params_of parse_revoke revoke_token oauth_error
    revoke_endpoint r now db =
        respond (challenges r.authorization)
          (run_parsed (params_of web r >>= parse_revoke) (λ q. revoke_token q now) db)
