-- ===== src/Service.antt =====
-- What the services share: the configuration, the runtime and the libraries that they call, the
-- database as one record of tables, and calls as state with exceptions.
pub mod Laws
pub mod Keeps
pub mod Tables
use authx.Prelude.{
  ℕ, ◌/◌, ◌+◌, String, Bool, true, false, Option, none, some, if◌then◌else◌, List, [], ◌∷◌,
}
use authx.Prelude.Map.{Map}
use authx.Prelude.Text.{truthy}
use authx.Errors.{ErrorCode, Failure, Result, ok, err}
use authx.Lockout
use authx.Oidc.{Claims}
use authx.Totp.Seal.{Cipher}
use authx.Repo.Users.{Users}
use authx.Repo.Tokens
use authx.Repo.Sessions
use authx.Repo.Codes
use authx.Repo.Verifications
use authx.Repo.Social
use authx.Repo.Orgs.{Orgs}
use authx.Repo.Rbac.{Rbac}
use authx.Repo.Totp.{Totps}
use authx.Repo.Passkeys.{Passkeys}

-- The settings of config.ts that the services read. Times to live are in seconds; `totp_key` is the
-- decoded TOTP_ENCRYPTION_KEY, none where that is empty.
pub record Config : Type 0 where
  pub issuer : String
  pub access_token_ttl : ℕ
  pub refresh_token_ttl : ℕ
  pub refresh_token_reuse_grace : ℕ
  pub sso_session_ttl : ℕ
  pub auth_code_ttl : ℕ
  pub email_verification_ttl : ℕ
  pub require_email_verification : Bool
  pub allow_password_grant : Bool
  pub totp_key : Option (List ℕ)
  pub google_client_id : String
  pub google_client_secret : String
  pub login_throttle : Lockout.Options

pub data SubType : Type 0 where
  user service : SubType

-- The payload of an access token (lib/jwt.ts). Times are in seconds; `none` is a claim left out.
pub record AccessPayload : Type 0 where
  pub iss : String
  pub sub : String
  pub aud : String
  pub org : String
  pub scope : String
  pub client_id : String
  pub oidc_scope : Option String
  pub sub_type : SubType
  pub auth_time : Option ℕ
  pub iat : ℕ
  pub exp : ℕ

pub record IdPayload : Type 0 where
  pub iss : String
  pub sub : String
  pub aud : String
  pub iat : ℕ
  pub exp : ℕ
  pub auth_time : ℕ
  pub nonce : Option String
  pub claims : Claims

-- What Google's token endpoint says of a code.
pub record GoogleIdentity : Type 0 where
  pub sub : String
  pub email : String
  pub email_verified : Bool

-- The functions of the runtime and of the packages that the services call. `same` and `lower` are
-- the collation and `toLowerCase`; `hash_token` is SHA-256 in hex and `s256` its base64url form;
-- bcrypt's salt is left out of `hash_password`; signing closes over the active key.
pub record Runtime : Type 0 where
  pub same : String → String → Bool
  pub lower : String → String
  pub hash_token : String → String
  pub s256 : String → String
  pub hash_password : String → String
  pub verify_password : String → String → Bool
  pub dummy_hash : String
  pub trim : String → String
  pub upper : String → String
  pub base32 : List ℕ → String
  pub hmac : List ℕ → List ℕ → List ℕ
  pub cipher : Cipher
  pub sign_access : AccessPayload → String
  pub sign_id : IdPayload → String
  pub exchange_google : String → Option GoogleIdentity

-- A link that was mailed.
pub record Mail : Type 0 where
  pub to : String
  pub purpose : Verifications.TokenPurpose
  pub link : String

pub record Db : Type 0 where
  pub users : Users
  pub tokens : Tokens.Table
  pub sessions : Sessions.Table
  pub codes : Codes.Table
  pub verifications : Verifications.Table
  pub social : Social.Table
  pub orgs : Orgs
  pub rbac : Rbac
  pub totps : Totps
  pub passkeys : Passkeys
  pub failures : Lockout.Failures
  pub mails : List Mail

-- A call. What was written before a throw stays written.
abbrev pub M : Type 0 → Type 0
M A = Db → Result A × Db

infixl 5 ◌>>=◌ ◌>>◌
abbrev pub ◌>>=◌ : {A B : Type 0} → M A → (A → M B) → M B
◌>>=◌ m f db = let (r, db') = m db in elim r [ ok a ↦ f a db' | err e ↦ (err e, db') ]

abbrev pub ◌>>◌ : {A B : Type 0} → M A → M B → M B
m >> k = m >>= λ _. k

module _ {A : Type 0} where
  abbrev pub pure : A → M A
  pure a db = (ok a, db)

  -- `throw AppError.of(code)`
  abbrev pub throw : ErrorCode → M A
  throw code db = (err (Failure.app code), db)

  abbrev pub query : (Db → A) → M A
  query f db = (ok (f db), db)

  -- `if (!x) throw AppError.of(code)`
  abbrev pub some_or_throw : ErrorCode → Option A → M A
  some_or_throw code none = throw code
  some_or_throw code (some a) = pure a

-- `try { m } catch (err) { handler }`
abbrev pub handle : {A : Type 0} → M A → (Failure → M A) → M A
handle m handler db = let (r, db') = m db in elim r [ ok a ↦ (ok a, db') | err e ↦ handler e db' ]

-- `try { m } catch`, with what follows either end.
abbrev pub attempt_or : {A B : Type 0} → M A → (Failure → M B) → (A → M B) → M B
attempt_or m h k db = let (r, db') = m db in elim r [ ok a ↦ k a db' | err e ↦ h e db' ]

abbrev pub rethrow : {A : Type 0} → Failure → M A
rethrow e db = (err e, db)

-- `if (b) throw AppError.of(code)`
abbrev pub throw_if : Bool → ErrorCode → M (Unit {0})
throw_if b code db = (if b then err (Failure.app code) else ok tt, db)

abbrev pub modify : (Db → Db) → M (Unit {0})
modify f db = (ok tt, f db)

abbrev pub when : Bool → M (Unit {0}) → M (Unit {0})
when true m = m
when false m = pure tt

-- `opts.authTime ? …`, and `{ exp: now + ttl }` of `signAccessToken`. Dates are never zero there.
pub record AccessOptions : Type 0 where
  pub sub : String
  pub aud : String
  pub org : String
  pub scope : String
  pub client_id : String
  pub oidc_scope : Option String
  pub sub_type : SubType
  pub auth_time : Option ℕ

unfoldable pub access_payload : Config → ℕ → AccessOptions → AccessPayload
access_payload cfg now opts = record {
  iss = cfg.issuer;
  sub = opts.sub;
  aud = opts.aud;
  org = opts.org;
  scope = opts.scope;
  client_id = opts.client_id;
  oidc_scope = if truthy opts.oidc_scope then opts.oidc_scope else none;
  sub_type = opts.sub_type;
  auth_time = elim opts.auth_time [ none ↦ none | some t ↦ some (t / 1000) ];
  iat = now / 1000;
  exp = now / 1000 + cfg.access_token_ttl;
}
