-- ===== src/TokenEndpoint/Reading.antt =====
-- The codes with which the reading of a request to the token endpoints fails: `readParams`,
-- `withBasic` and the schemas of modules/auth.
use authx.Prelude.{
  String, Bool, true, Option, none, some, ◌≡◌, refl, inl, inr, arith, Option-cases, Bool-cases,
  ◌==◌,
}
use authx.Prelude.Map.{Map, get}
use authx.Errors.{Result, ok, err}
use authx.TokenEndpoint.{OauthError, oauth_errors}
use authx.TokenParams.{
  Web, Request, BasicPair, Params, Value, params_of, basic_credentials, with_basic, read_params,
  parse_token_request, parse_grant, parse_revoke, required, optional, optional_text, ◌>>=◌,
  either_token,
}
use authx.TokenEndpoint.Answers.{answered, reading_codes, client_codes}

required-answered :
    (codes : OauthError → Bool) (k : String) (m : Map Value)
    → codes OauthError.invalid_request ≡ true
    → answered codes (required k m) ≡ true
unfolding required oauth_errors
required-answered codes k m h = ground arith

optional-answered :
    (codes : OauthError → Bool) (k : String) (m : Map Value)
    → codes OauthError.invalid_request ≡ true
    → answered codes (optional k m) ≡ true
unfolding optional oauth_errors
optional-answered codes k m h = ground arith

optional_text-answered :
    (codes : OauthError → Bool) (k : String) (m : Map Value)
    → codes OauthError.invalid_request ≡ true
    → answered codes (optional_text k m) ≡ true
unfolding optional_text oauth_errors
optional_text-answered codes k m h = ground arith

pub bind-answered :
    {A B : Type 0} (codes : OauthError → Bool) (x : Result A) (f : A → Result B)
    → answered codes x ≡ true
    → ((a : A) → answered codes (f a) ≡ true)
    → answered codes (x >>= f) ≡ true
bind-answered codes (ok a) f h k = k a
bind-answered codes (err e) f h k = h

parse_grant-answered :
    (type : String) (m : Map Value) → answered reading_codes (parse_grant type m) ≡ true
unfolding parse_grant oauth_errors
parse_grant-answered type m = elim (Bool-cases (type == "password")) [
  | inl p ↦
      rw (p, parse_grant)
        (bind-answered reading_codes (required "username" m) _
          (required-answered reading_codes "username" m refl)
          (λ x0.
            bind-answered reading_codes (required "password" m) _
              (required-answered reading_codes "password" m refl)
              (λ x1.
                bind-answered reading_codes (required "audience" m) _
                  (required-answered reading_codes "audience" m refl) (λ x2. refl))))
  | inr p ↦ elim (Bool-cases (type == "refresh_token")) [
    | inl q ↦
        rw (p, q, parse_grant)
          (bind-answered reading_codes (required "refresh_token" m) _
            (required-answered reading_codes "refresh_token" m refl)
            (λ x0.
              bind-answered reading_codes (optional "client_id" m) _
                (optional-answered reading_codes "client_id" m refl)
                (λ x1.
                  bind-answered reading_codes (optional "client_secret" m) _
                    (optional-answered reading_codes "client_secret" m refl) (λ x2. refl))))
    | inr q ↦ elim (Bool-cases (type == "authorization_code")) [
      | inl r ↦
          rw (p, q, r, parse_grant)
            (bind-answered reading_codes (required "code" m) _
              (required-answered reading_codes "code" m refl)
              (λ x0.
                bind-answered reading_codes (required "redirect_uri" m) _
                  (required-answered reading_codes "redirect_uri" m refl)
                  (λ x1.
                    bind-answered reading_codes (required "code_verifier" m) _
                      (required-answered reading_codes "code_verifier" m refl)
                      (λ x2.
                        bind-answered reading_codes (required "client_id" m) _
                          (required-answered reading_codes "client_id" m refl)
                          (λ x3.
                            bind-answered reading_codes (optional_text "client_secret" m) _
                              (optional_text-answered reading_codes "client_secret" m refl)
                              (λ x4. refl))))))
      | inr r ↦ elim (Bool-cases (type == "client_credentials")) [
        | inl t ↦
            rw (p, q, r, t, parse_grant)
              (bind-answered reading_codes (required "client_id" m) _
                (required-answered reading_codes "client_id" m refl)
                (λ x0.
                  bind-answered reading_codes (required "client_secret" m) _
                    (required-answered reading_codes "client_secret" m refl)
                    (λ x1.
                      bind-answered reading_codes (required "audience" m) _
                        (required-answered reading_codes "audience" m refl) (λ x2. refl))))
        | inr t ↦ rw (p, q, r, t, parse_grant, oauth_errors) refl
      ]
    ]
  ]
]

pub parse_token_request-answered :
    (p : Params) → answered reading_codes (parse_token_request p) ≡ true
unfolding parse_token_request oauth_errors
parse_token_request-answered none = refl
parse_token_request-answered (some m) = elim (Option-cases (get "grant_type" m)) [
  | inl missing ↦ rw (missing, parse_token_request) refl
  | inr (Value.string type, given) ↦ rw (given, parse_token_request) (parse_grant-answered type m)
  | inr (Value.other, given) ↦ rw (given, parse_token_request) refl
]

either-answered : (t r : Option String) → answered client_codes (either_token t r) ≡ true
unfolding oauth_errors
either-answered (some t) r = refl
either-answered none (some r) = refl
either-answered none none = refl

pub parse_revoke-answered : (p : Params) → answered client_codes (parse_revoke p) ≡ true
unfolding parse_revoke oauth_errors
parse_revoke-answered none = refl
parse_revoke-answered (some m) =
    bind-answered client_codes (optional "token" m) _
      (optional-answered client_codes "token" m refl)
      (λ x0.
        bind-answered client_codes (optional "refresh_token" m) _
          (optional-answered client_codes "refresh_token" m refl)
          (λ x1.
            bind-answered client_codes (optional_text "token_type_hint" m) _
              (optional_text-answered client_codes "token_type_hint" m refl)
              (λ x2.
                bind-answered client_codes (optional "client_id" m) _
                  (optional-answered client_codes "client_id" m refl)
                  (λ x3.
                    bind-answered client_codes (optional "client_secret" m) _
                      (optional-answered client_codes "client_secret" m refl)
                      (λ x4.
                        bind-answered client_codes (either_token x0 x1) _ (either-answered x0 x1)
                          (λ x5. refl))))))

with_basic-answered :
    (codes : OauthError → Bool) (raw : Params) (basic : Option BasicPair)
    → codes OauthError.invalid_request ≡ true
    → answered codes (with_basic raw basic) ≡ true
unfolding with_basic oauth_errors
with_basic-answered codes raw none h = refl
with_basic-answered codes none (some basic) h = refl
with_basic-answered codes (some m) (some basic) h = ground arith

module _ (web : Web) where
  basic_credentials-answered :
      (codes : OauthError → Bool) (header : Option String)
      → codes OauthError.invalid_client ≡ true
      → answered codes (basic_credentials web header) ≡ true
  unfolding basic_credentials oauth_errors
  basic_credentials-answered codes none h = refl
  basic_credentials-answered codes (some header) h = ground arith

  pub params_of-answered :
      (codes : OauthError → Bool) (r : Request)
      → codes OauthError.invalid_client ≡ true
      → codes OauthError.invalid_request ≡ true
      → answered codes (params_of web r) ≡ true
  unfolding params_of
  params_of-answered codes r hc hr =
      bind-answered codes (basic_credentials web r.authorization) _
        (basic_credentials-answered codes r.authorization hc)
        (λ basic. with_basic-answered codes (read_params r) basic hr)
