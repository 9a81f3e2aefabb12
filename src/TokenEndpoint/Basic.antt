-- ===== src/TokenEndpoint/Basic.antt =====
-- Client credentials in an HTTP Basic header, and in the body.
use text.Mathlib.TextLemmas.{nil-append, cons-append}
use authx.Prelude.{ℕ, String, Bool, false, none, some, ◌≡◌, refl, ap, sym, ◌∙◌, arith}
use authx.Prelude.Text.{Free, ◌⧺◌}
use authx.Prelude.Map.{Map, get, set}
use authx.Errors.{Failure, Result, ok, err}
use authx.Service.{Config, Runtime, Db}
use authx.Auth.{Drawn}
use authx.TokenEndpoint.{
  Body, respond, challenges, run_parsed, grant, revoke_token, Response, token_endpoint,
  revoke_endpoint, oauth_error,
}
use authx.TokenParams.{
  Web, string, Params, parse_token_request, parse_revoke, ◌>>=◌, Request, Value, at_colon,
  basic_credentials, read_params, with_basic, params_of, differs,
}

at_colon-append : (s t : String) → Free b':' s → at_colon (s ⧺ ":" ⧺ t) ≡ some (s, t)
unfolding at_colon
at_colon-append String.[] t h = rw (nil-append, cons-append, nil-append) refl
at_colon-append (String.◌∷◌ c s) t h = rw cons-append (ground (arith, at_colon-append s t h.1))

-- The response, without its challenge.
abbrev pub unchallenged : Response → Response
unchallenged (Response.refused e st ch) = Response.refused e st false
unchallenged (Response.success b) = Response.success b
unchallenged (Response.thrown e) = Response.thrown e

module _ (web : Web) (header encoded a b id secret : String) where
  -- The header carries the two texts: base64 of their form encodings around a colon.
  pub record Carries : Type 0 where
    pub part : web.basic_part header ≡ some encoded
    pub bytes : web.atob encoded ≡ some (a ⧺ ":" ⧺ b)
    pub no_colon : Free b':' a
    pub first : web.form_decode a ≡ some id
    pub second : web.form_decode b ≡ some secret

  basic_credentials-Carries :
      Carries
      → basic_credentials web (some header) ≡ ok (some (record { id = id; secret = secret }))
  unfolding basic_credentials
  basic_credentials-Carries h =
      rw (h.part, basic_credentials, h.bytes, at_colon-append a b h.no_colon, h.first, h.second)
        refl

  params_of-Carries :
      Carries
      → (r r' : Request) (params : Map Value) → r.authorization ≡ some header
      → r'.authorization ≡ none
      → read_params r ≡ some params
      → get "client_secret" params ≡ none
      → differs (get "client_id" params) id ≡ false
      → read_params r'
        ≡ some (set "client_secret" (string secret) (set "client_id" (string id) params))
      → params_of web r ≡ params_of web r'
  unfolding params_of with_basic basic_credentials
  params_of-Carries h r r' params e e' p s i p' =
      let own = basic_credentials-Carries h in
      let merged : with_basic (some params) (some (record { id = id; secret = secret }))
          ≡ ok (some (set "client_secret" (string secret) (set "client_id" (string id) params))) =
        rw (with_basic, s, i) refl in
      rw (e, e', params_of, own, p, merged, p') refl

  module _ (rt : Runtime) (cfg : Config) where
    respond-unchallenged :
        (u : Bool) (x : Result Body × Db)
        → (unchallenged (respond web rt cfg u x).0 ≡ (respond web rt cfg false x).0)
          × ((respond web rt cfg u x).1 ≡ (respond web rt cfg false x).1)
    unfolding oauth_error
    respond-unchallenged u (ok b, db) = (refl, refl)
    respond-unchallenged u (err (Failure.app c), db) = ground arith
    respond-unchallenged u (err (Failure.duplicate_key table index value), db) = (refl, refl)

    -- Equal parameters, and a request without the header.
    respond-eq :
        (r r' : Request) (f : Result Params → Result Body × Db)
        → params_of web r ≡ params_of web r'
        → r'.authorization ≡ none
        → let x = respond web rt cfg (challenges web r.authorization) (f (params_of web r)) in
          let y = respond web rt cfg (challenges web r'.authorization) (f (params_of web r')) in
          (unchallenged x.0 ≡ y.0) × (x.1 ≡ y.1)
    respond-eq r r' f same e' =
        let (a, b) = respond-unchallenged (challenges web r.authorization) (f (params_of web r)) in
        let join =
          ap (λ p. respond web rt cfg false (f p)) same
          ∙ ap (λ h. respond web rt cfg (challenges web h) (f (params_of web r'))) (sym e') in
        (a ∙ ap (λ x. x.0) join, b ∙ ap (λ x. x.1) join)

    -- A client's credentials in a Basic header count as the same in the body. Where the header carries
    -- the two texts, and the body has no secret and no other client id, both endpoints answer as for a
    -- request without the header whose body has the two: they write the same, and the response differs
    -- at most in the challenge of a failed authentication.
    pub basic-eq-post :
        Carries
        → (r r' : Request) (params : Map Value) (d : Drawn) (now : ℕ) (db : Db)
        → r.authorization ≡ some header
        → r'.authorization ≡ none
        → read_params r ≡ some params
        → get "client_secret" params ≡ none
        → differs (get "client_id" params) id ≡ false
        → read_params r'
          ≡ some (set "client_secret" (string secret) (set "client_id" (string id) params))
        → (unchallenged (token_endpoint web rt cfg r d now db).0
            ≡ (token_endpoint web rt cfg r' d now db).0)
          × ((token_endpoint web rt cfg r d now db).1 ≡ (token_endpoint web rt cfg r' d now db).1)
          × (unchallenged (revoke_endpoint web rt cfg r now db).0
              ≡ (revoke_endpoint web rt cfg r' now db).0)
          × ((revoke_endpoint web rt cfg r now db).1 ≡ (revoke_endpoint web rt cfg r' now db).1)
    unfolding token_endpoint revoke_endpoint revoke_token
    basic-eq-post h r r' params d now db e e' p s i p' =
        let same = params_of-Carries h r r' params e e' p s i p' in
        let (a, b) =
          respond-eq r r'
            (λ q.
              run_parsed web rt cfg (q >>= parse_token_request) (λ t. grant web rt cfg t d now) db)
            same e' in
        let (c, f) =
          respond-eq r r'
            (λ q.
              run_parsed web rt cfg (q >>= parse_revoke) (λ t. revoke_token web rt cfg t now) db)
            same e' in
        (a, b, c, f)
