-- ===== src/Tests/Endpoints.antt =====
-- The token endpoints and the hosted pages, at the small installation.
use authx.Prelude.{
  String, Bool, true, false, none, some, ◌≡◌, refl, arith, [], ◌∷◌, ◌==◌, if◌then◌else◌,
}
use authx.Prelude.Map.{Map, get, set}
use authx.TokenEndpoint.{token_endpoint, revoke_endpoint}
use authx.TokenParams.{Web, Request, Value, string, Params, read_params, from_entries}
use authx.TokenParams
use authx.TokenEndpoint.Basic.{Carries, unchallenged, basic-eq-post}
use authx.Hosted.{AuthorizeQuery, Browser}
use authx.Hosted.Flow.{Challenger, Draws, LoginForm}
use authx.Hosted.Csrf.{login, submit, signs_in, submit-unmatched}
use authx.Hosted.Redirects.{Goes, query_of, visit, visit-Goes}
use authx.Hosted.Redirects
use authx.Tests.World.{rt, cfg, db, drawn, drawn_again}
use authx.Tests.Passkeys.{trusting, settings}

-- A runtime that knows one Basic header.
abbrev web : Web
web = record {
  basic_part = λ h. if h == "Basic x" then some "x" else none;
  used_basic = λ h. h == "Basic x";
  atob = λ s. some "c1:shh";
  form_decode = λ s. some s;
  has_at = λ s. true;
}

abbrev with_header : Request
with_header = record {
  authorization = some "Basic x";
  content_type = "application/x-www-form-urlencoded";
  form = ("grant_type", "refresh_token") ∷ ("refresh_token", "rt1") ∷ [];
  json = none;
}

abbrev in_body : Request
in_body = record with_header {
  authorization = none;
  form =
      ("grant_type", "refresh_token")
      ∷ ("refresh_token", "rt1")
      ∷ ("client_id", "c1")
      ∷ ("client_secret", "shh")
      ∷ [];
}

abbrev params : Map Value
params = ("grant_type", string "refresh_token") ∷ ("refresh_token", string "rt1") ∷ []

carries : Carries web "Basic x" "x" "c1" "shh" "c1" "shh"
carries = record {
  part = refl;
  bytes = refl;
  no_colon = (omega arith, (omega arith, tt));
  first = refl;
  second = refl;
}

reads : read_params with_header ≡ some params
unfolding read_params from_entries set
reads = refl

reads_all :
    read_params in_body
    ≡ some (set "client_secret" (string "shh") (set "client_id" (string "c1") params))
unfolding read_params from_entries set
reads_all = refl

no_secret : get "client_secret" params ≡ none
unfolding get
no_secret = refl

no_other : TokenParams.differs (get "client_id" params) "c1" ≡ false
unfolding get
no_other = refl

basic-eq-post_example :
    (unchallenged (token_endpoint web rt cfg with_header drawn 1000 db).0
      ≡ (token_endpoint web rt cfg in_body drawn 1000 db).0)
    × ((token_endpoint web rt cfg with_header drawn 1000 db).1
        ≡ (token_endpoint web rt cfg in_body drawn 1000 db).1)
    × (unchallenged (revoke_endpoint web rt cfg with_header 1000 db).0
        ≡ (revoke_endpoint web rt cfg in_body 1000 db).0)
    × ((revoke_endpoint web rt cfg with_header 1000 db).1
        ≡ (revoke_endpoint web rt cfg in_body 1000 db).1)
basic-eq-post_example =
    basic-eq-post web "Basic x" "x" "c1" "shh" "c1" "shh" rt cfg carries with_header in_body params
      drawn 1000 db refl refl reads no_secret no_other reads_all

abbrev query : AuthorizeQuery
query = record {
  client_id = "c1";
  redirect_uri = "https://app/cb";
  scope = "openid";
  state = some "st";
  nonce = none;
  prompt = none;
  passkey = false;
  code_challenge = "challenge";
  code_challenge_method = "S256";
}

abbrev browser : Browser
browser = record {
  session = none;
  csrf = some "csrf";
  mfa = none;
  google_authorize = none;
  passkey_offer = some "dismissed";
  html = true;
  fresh_token = "fresh";
}

abbrev challenger : Challenger
challenger = record { sign = λ user_id now. user_id; verify = λ token now. some token }

abbrev form : LoginForm
form = record { query = query; email = "ann@x"; password = "pw"; csrf_token = some "csrf" }

abbrev draws : Draws
draws = record { session = drawn; code = drawn_again }

abbrev parses : String → Bool
parses s = true

visit-Goes_example :
    Goes rt cfg settings trusting challenger parses
      (some query)
      db
      (visit rt cfg settings trusting challenger parses browser
        (Redirects.login form)
        draws
        1000
        db).0
visit-Goes_example =
    visit-Goes rt cfg settings trusting challenger parses browser (Redirects.login form) draws 1000
      db

-- The form of another page, with no token.
abbrev forged : LoginForm
forged = record form { csrf_token = none }

submit-unmatched_example :
    ((submit rt cfg settings trusting challenger parses browser (login forged) draws 1000 db).1
      ≡ db)
    × (signs_in
          (submit rt cfg settings trusting challenger parses browser (login forged) draws 1000 db).0
        ≡ false)
submit-unmatched_example =
    submit-unmatched rt cfg settings trusting challenger parses browser (login forged) draws 1000 db
      refl
