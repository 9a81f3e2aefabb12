-- ===== src/TokenParams.antt =====
-- What POST /oauth/token and POST /oauth/revoke of modules/auth/auth.routes.ts read: client credentials
-- from HTTP Basic or from the body, and the parameters that the schemas of modules/auth/auth.schema.ts
-- take.
use Prim.Native.Char.{code}
use text.Mathlib.Text.{starts_with}
use authx.Prelude.{
  String, Bool, true, false, Option, none, some, if◌then◌else◌, not, is_some, nat_eq, List, [], ◌∷◌,
  ◌==◌,
}
use authx.Prelude.Map.{Map, get, set}
use authx.Errors.{ErrorCode, Failure, Result, ok, err}
use authx.Auth.{Client}
use authx.Auth.Exchange.{ExchangeInput}

-- A parameter: a text, or anything else that a JSON body may hold.
pub data Value : Type 0 where
  string : String → Value
  other : Value

-- A body that is an object, or none for any other.
abbrev pub Params : Type 0
Params = Option (Map Value)

-- `{ id, secret }` of a Basic header.
pub record BasicPair : Type 0 where
  pub id : String
  pub secret : String

-- What a request brings: the header, the content type in lower case, the form's pairs in order, the
-- JSON body.
pub record Request : Type 0 where
  pub authorization : Option String
  pub content_type : String
  pub form : List (String × String)
  pub json : Params

-- What the handlers call of the runtime. `basic_part` is the rest of a header that
-- `/^basic(?:\s+(.*))?$/i` matches, `used_basic` the test `/^basic\b/i`; `atob` and `form_decode` are
-- none where they throw; `has_at` is `includes('@')`.
pub record Web : Type 0 where
  pub basic_part : String → Option String
  pub used_basic : String → Bool
  pub atob : String → Option String
  pub form_decode : String → Option String
  pub has_at : String → Bool

-- `Object.fromEntries(new URLSearchParams(…))`: the last of a name wins.
unfoldable pub from_entries : List (String × String) → Map Value → Map Value
from_entries [] m = m
from_entries ((k, v) ∷ r) m = from_entries r (set k (string v) m)

unfoldable pub read_params : Request → Params
unfolding from_entries
read_params r =
    if starts_with r.content_type "application/x-www-form-urlencoded"
    then some (from_entries r.form [])
    else if starts_with r.content_type "application/json"
    then r.json
    else none

-- `s.indexOf(':')`, and the two slices around it.
unfoldable pub at_colon : String → Option (String × String)
at_colon String.[] = none
at_colon (String.◌∷◌ c s) =
    if nat_eq (code c) b':'
    then some ("", s)
    else elim (at_colon s) [ none ↦ none | some (a, b) ↦ some (String.◌∷◌ c a, b) ]

abbrev pub bad_client : {A : Type 0} → Result A
bad_client = err (Failure.app ErrorCode.invalid_client)

abbrev pub bad_request : {A : Type 0} → Result A
bad_request = err (Failure.app ErrorCode.invalid_request)

abbrev pub both : Option String → Option String → Result (Option BasicPair)
both (some id) (some secret) = ok (some (record { id = id; secret = secret }))
both _ _ = bad_client

-- The client id, where there is one, is a text other than `id`.
abbrev pub differs : Option Value → String → Bool
differs none id = false
differs (some (string v)) id = not (v == id)
differs (some other) id = true

unfoldable pub with_basic : Params → Option BasicPair → Result Params
with_basic raw none = ok raw
with_basic none (some basic) = ok none
with_basic (some params) (some basic) =
    if is_some (get "client_secret" params)
    then bad_request
    else if differs (get "client_id" params) basic.id
    then bad_request
    else ok (
        some (set "client_secret" (string basic.secret) (set "client_id" (string basic.id) params)))

-- A request of the token endpoint, as its schema leaves it.
pub data TokenRequest : Type 0 where
  password : String → String → String → TokenRequest
  refresh_token : String → Option String → Option String → TokenRequest
  authorization_code : ExchangeInput → TokenRequest
  client_credentials : String → String → String → TokenRequest

-- `z.string().min(1)`, the same `.optional()`, and `z.string().optional()`.
unfoldable pub required : String → Map Value → Result String
required k m = elim (get k m) [
  | none ↦ bad_request
  | some v ↦ elim v [ string s ↦ if s == "" then bad_request else ok s | other ↦ bad_request ]
]

unfoldable pub optional : String → Map Value → Result (Option String)
optional k m = elim (get k m) [
  | none ↦ ok none
  | some v ↦ elim v [
    | string s ↦ if s == "" then bad_request else ok (some s)
    | other ↦ bad_request
  ]
]

unfoldable pub optional_text : String → Map Value → Result (Option String)
optional_text k m = elim (get k m) [
  | none ↦ ok none
  | some v ↦ elim v [ string s ↦ ok (some s) | other ↦ bad_request ]
]

infixl 5 ◌>>=◌
abbrev pub ◌>>=◌ : {A B : Type 0} → Result A → (A → Result B) → Result B
ok a >>= f = f a
err e >>= f = err e

unfoldable pub parse_grant : String → Map Value → Result TokenRequest
unfolding required optional optional_text
parse_grant grant m =
    if grant == "password"
    then (do
      u ← required "username" m
      p ← required "password" m
      a ← required "audience" m
      ok (password u p a))
    else if grant == "refresh_token"
    then (do
      t ← required "refresh_token" m
      i ← optional "client_id" m
      s ← optional "client_secret" m
      ok (refresh_token t i s))
    else if grant == "authorization_code"
    then (do
      c ← required "code" m
      r ← required "redirect_uri" m
      v ← required "code_verifier" m
      i ← required "client_id" m
      s ← optional_text "client_secret" m
      ok (
          authorization_code (record {
            code = c;
            redirect_uri = r;
            code_verifier = v;
            client_id = i;
            client_secret = s;
          })))
    else if grant == "client_credentials"
    then (do
      i ← required "client_id" m
      s ← required "client_secret" m
      a ← required "audience" m
      ok (client_credentials i s a))
    else err (Failure.app ErrorCode.unsupported_grant_type)

-- A grant type that is a text but none of ours has its own code.
unfoldable pub parse_token_request : Params → Result TokenRequest
unfolding parse_grant
parse_token_request none = bad_request
parse_token_request (some m) = elim (get "grant_type" m) [
  | none ↦ bad_request
  | some v ↦ elim v [ string grant ↦ parse_grant grant m | other ↦ bad_request ]
]

pub record RevokeRequest : Type 0 where
  pub token : String
  pub client : Client

-- `(params.token ?? params.refresh_token)!`
abbrev pub either_token : Option String → Option String → Result String
either_token (some t) r = ok t
either_token none (some r) = ok r
either_token none none = bad_request

unfoldable pub parse_revoke : Params → Result RevokeRequest
unfolding optional optional_text
parse_revoke none = bad_request
parse_revoke (some m) = do
  t ← optional "token" m
  r ← optional "refresh_token" m
  hint ← optional_text "token_type_hint" m
  i ← optional "client_id" m
  s ← optional "client_secret" m
  token ← either_token t r
  ok (record { token = token; client = record { id = i; secret = s } })

module _ (web : Web) where
  unfoldable pub basic_credentials : Option String → Result (Option BasicPair)
  unfolding at_colon
  basic_credentials none = ok none
  basic_credentials (some header) = elim (web.basic_part header) [
    | none ↦ ok none
    | some encoded ↦ elim (web.atob encoded) [
      | none ↦ bad_client
      | some decoded ↦ elim (at_colon decoded) [
        | none ↦ bad_client
        | some (id, secret) ↦ both (web.form_decode id) (web.form_decode secret)
      ]
    ]
  ]

  -- The parameters of a request, with those of its Basic header folded in.
  unfoldable pub params_of : Request → Result Params
  unfolding basic_credentials with_basic read_params
  params_of r = do basic ← basic_credentials r.authorization; with_basic (read_params r) basic
