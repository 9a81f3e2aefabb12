-- ===== src/Authorize.antt =====
-- middleware/auth.ts and middleware/authorize.ts: who a bearer token makes the caller, and what the
-- caller may do. The token comes without its `Bearer ` prefix, none where the header lacks it, and
-- `verify` is the check of its signature and expiry against the key ring, none where that throws.
use authx.Prelude.{
  ℕ, String, Bool, true, false, Option, none, some, ◌≡◌, refl, inl, inr, arith, Option-cases,
  Bool-cases, if◌then◌else◌, ◌&&◌, ◌||◌, not, is_some, ◌==◌, includes, List, [],
}
use authx.Prelude.Text.{split}
use authx.Prelude.Map.{get}
use authx.Prelude.Map.Laws.{get-set_self}
use authx.Errors.{ErrorCode, Failure, ok, err}
use authx.Repo.Users
use authx.Service.{
  Config, Runtime, Db, SubType, M, ◌>>=◌, ◌>>◌, pure, throw_if, query, some_or_throw,
}
use authx.Accounts.{remove}

-- The claims that are read; `none` is a claim that is missing or of another type.
pub record Claims : Type 0 where
  pub sub : String
  pub aud : String
  pub org : String
  pub client_id : Option String
  pub scope : Option String
  pub sub_type : Option SubType
  pub auth_time : Option ℕ

pub record Caller : Type 0 where
  pub id : String
  pub email : String
  pub permissions : List String
  pub org : String
  pub aud : String
  pub auth_time : Option ℕ

abbrev pub is_service : Option SubType → Bool
is_service none = false
is_service (some SubType.user) = false
is_service (some SubType.service) = true

abbrev pub text_or_empty : Option String → String
text_or_empty none = ""
text_or_empty (some s) = s

abbrev pub email_of : Option Users.User → String
email_of none = ""
email_of (some u) = text_or_empty u.email

-- `claims.scope ? claims.scope.split(' ') : []`
abbrev pub permissions_of : String → List String
permissions_of scope = if scope == "" then [] else split b' ' scope

abbrev pub caller_of : Claims → Option Users.User → Caller
caller_of claims user = record {
  id = claims.sub;
  email = email_of user;
  permissions = permissions_of (text_or_empty claims.scope);
  org = claims.org;
  aud = claims.aud;
  auth_time = claims.auth_time;
}

unfoldable pub require_auth : (String → Option Claims) → Option String → M Caller
require_auth verify bearer = do
  token ← some_or_throw ErrorCode.missing_bearer_token bearer
  claims ← some_or_throw ErrorCode.invalid_token (verify token)
  throw_if (not (is_some claims.client_id) || not (is_some claims.scope)) ErrorCode.invalid_token
  user ← query (λ db. Users.find_by_id claims.sub db.users)
  throw_if (not (is_service claims.sub_type) && not (is_some user)) ErrorCode.invalid_token
  pure (caller_of claims user)

abbrev pub platform_audience : String
platform_audience = "platform"

unfoldable pub has_permission : Caller → String → Bool
has_permission caller permission =
    caller.aud == platform_audience && includes permission caller.permissions

unfoldable pub require_permission : String → Caller → M (Unit {0})
unfolding has_permission
require_permission permission caller =
    throw_if (not (has_permission caller permission)) ErrorCode.forbidden

-- `name` is the account that the route names.
unfoldable pub require_self_or_permission : String → String → Caller → M (Unit {0})
unfolding has_permission
require_self_or_permission name permission caller =
    throw_if (not (name == caller.id) && not (has_permission caller permission)) ErrorCode.forbidden

remove-hides :
    (rt : Runtime) (cfg : Config) (common : String → Bool) (id : String) (now : ℕ) (db db' : Db)
    → remove rt cfg common id now db ≡ (ok tt, db')
    → Users.find_by_id id db'.users ≡ none
unfolding remove Users.soft_delete Users.find_by_id
remove-hides rt cfg common id now db db' h = elim (Option-cases (get id db.users.by_id)) [
  | inl e ↦ absurd (ground arith)
  | inr (u, e) ↦
      let own = get-set_self id (record u { deleted_at = some now }) db.users.by_id in
      elim (Bool-cases (is_some u.deleted_at)) [
        | inl gone ↦ absurd (ground arith)
        | inr live ↦ ground arith
      ]
]

-- A deletion ends the access tokens that are out. Once an account is removed, a token of it is refused
-- from then on, however well it verifies, unless it says that it is a service's.
pub require_auth-removed :
    (rt : Runtime) (cfg : Config) (common : String → Bool) (verify : String → Option Claims)
    (token : String) (claims : Claims) (now : ℕ) (db db' : Db)
    → verify token ≡ some claims
    → is_service claims.sub_type ≡ false
    → remove rt cfg common claims.sub now db ≡ (ok tt, db')
    → require_auth verify (some token) db' ≡ (err (Failure.app ErrorCode.invalid_token), db')
unfolding require_auth
require_auth-removed rt cfg common verify token claims now db db' v s h =
    let gone = remove-hides rt cfg common claims.sub now db db' h in
    elim (Bool-cases (not (is_some claims.client_id) || not (is_some claims.scope))) [
      | inl id_token ↦ ground arith
      | inr access ↦ ground arith
    ]

-- A caller has the audience and the permissions of its token.
pub require_auth-caller :
    (verify : String → Option Claims) (token : String) (claims : Claims) (caller : Caller)
    (db db' : Db)
    → verify token ≡ some claims
    → require_auth verify (some token) db ≡ (ok caller, db')
    → (caller.aud ≡ claims.aud) × (caller.permissions ≡ permissions_of (text_or_empty claims.scope))
unfolding require_auth
require_auth-caller verify token claims caller db db' v h =
    elim (Bool-cases (not (is_some claims.client_id) || not (is_some claims.scope))) [
      | inl id_token ↦ absurd (ground arith)
      | inr access ↦
          elim (Bool-cases (
            not (is_service claims.sub_type)
            && not (is_some (Users.find_by_id claims.sub db.users)))) [
              | inl gone ↦ absurd (ground arith)
              | inr live ↦
                  let e : caller ≡ caller_of claims (Users.find_by_id claims.sub db.users) =
                    ground arith in
                  rw e (refl, refl)
            ]
    ]

-- Authentication writes nothing.
pub require_auth-same :
    (verify : String → Option Claims) (bearer : Option String) (db : Db)
    → (require_auth verify bearer db).1 ≡ db
unfolding require_auth
require_auth-same verify none db = refl
require_auth-same verify (some token) db = elim (Option-cases (verify token)) [
  | inl bad ↦ rw bad refl
  | inr (claims, good) ↦ ground arith
]
