-- ===== src/TokenEndpoint/Conformance.antt =====
-- What the token endpoints answer: the codes of `oauthErrorSchema`, with the status and the challenge
-- of RFC 6749, section 5.2.
use authx.Prelude.{Bool, true, ◌≡◌, ◌&&◌, if◌then◌else◌}
use authx.Errors.{Failure, Result, ok, err}
use authx.TokenEndpoint.{OauthError, Response, is_invalid_client}
use authx.TokenParams.{
  password, refresh_token, authorization_code, client_credentials, TokenRequest,
}
use authx.TokenEndpoint.Answers.{
  reading_codes, password_codes, refresh_codes, exchange_codes, client_codes,
}

-- A refusal has one of the codes, and the status that RFC 6749 gives it: 401 for a failed client
-- authentication, with a challenge if the client used the header, and 400 for any other. No error of
-- the catalogue is thrown.
abbrev pub Conforms : (OauthError → Bool) → Bool → Response → Type 0
Conforms codes used_basic (Response.success b) = Unit
Conforms codes used_basic (Response.refused e st challenge) =
    (codes e ≡ true)
    × (st ≡ (if is_invalid_client e then 401 else 400))
    × (challenge ≡ (is_invalid_client e && used_basic))
Conforms codes used_basic (Response.thrown (Failure.app c)) = ⊥
Conforms codes used_basic (Response.thrown (Failure.duplicate_key table index value)) = Unit

-- The codes that a request to the token endpoint may be refused with: those of a request that cannot be
-- read, or those of the grant that it asks for.
abbrev pub token_codes : Result TokenRequest → OauthError → Bool
token_codes (err e) = reading_codes
token_codes (ok (password u p a)) = password_codes
token_codes (ok (refresh_token t i s)) = refresh_codes
token_codes (ok (authorization_code input)) = exchange_codes
token_codes (ok (client_credentials i s a)) = client_codes
