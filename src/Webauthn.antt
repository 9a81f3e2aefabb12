-- ===== src/Webauthn.antt =====
-- modules/passkeys/passkey.service.ts: sign-in with a passkey, and registration of passkeys. The
-- WebAuthn package is a parameter: its two verifiers call the function that they are handed with
-- the challenge that the browser signed. Its settings that never change (required user
-- verification, the algorithms, no attestation) belong to the parameter.
pub mod SignIn
pub mod Register
use authx.Prelude.{
  ℕ, ◌+◌, ◌*◌, ◌-◌, String, Bool, true, false, Option, none, some, if◌then◌else◌, not, is_some, ltb,
  leb, ◌==◌, List, map, length,
}
use authx.Errors.{ErrorCode, Failure}
use authx.Repo.Users
use authx.Repo.Passkeys.{Passkey, ChallengePurpose, register, authenticate}
use authx.Repo.Passkeys
use authx.Service.{
  Runtime, Db, M, ◌>>=◌, ◌>>◌, pure, throw, throw_if, query, some_or_throw, handle, rethrow,
}
use authx.Service.Tables.{passkeys_attempt, passkeys_ask, passkeys_write}

-- `credential` of an authentication: the stored passkey as the package takes it.
pub record Credential : Type 0 where
  pub id : String
  pub public_key : List ℕ
  pub counter : ℕ
  pub transports : List String

pub record AuthInput : Type 0 where
  pub response : String
  pub expected_origin : String
  pub expected_rp_id : String
  pub credential : Credential

pub record RegInput : Type 0 where
  pub response : String
  pub expected_origin : String
  pub expected_rp_id : String

-- `registrationInfo`, as far as it is read.
pub record RegistrationInfo : Type 0 where
  pub credential : Credential
  pub aaguid : String
  pub credential_backed_up : Bool

-- What a verifier returns: `{ verified: false }`, or what it verified.
pub data Verdict (A : Type 0) : Type 0 where
  unverified : Verdict A
  verified : A → Verdict A

-- The package. `id_of` is `response?.id` where that is a text, and `challenge_of` the challenge
-- that the client data of a response holds; an authentication is answered with the new counter.
pub record Package : Type 0 where
  pub id_of : String → Option String
  pub challenge_of : String → String
  pub verify_authentication : (String → M Bool) → AuthInput → M (Verdict ℕ)
  pub verify_registration : (String → M Bool) → RegInput → M (Verdict RegistrationInfo)
  pub to_buffer : String → List ℕ
  pub from_buffer : List ℕ → String

-- `rpId` and `origin`; an empty `rpId` turns passkeys off.
pub record Settings : Type 0 where
  pub rp_id : String
  pub origin : String

-- What `generateAuthenticationOptions` and `generateRegistrationOptions` answer with.
pub record AuthOptions : Type 0 where
  pub challenge : String
  pub rp_id : String
  pub timeout : ℕ

pub record RegOptions : Type 0 where
  pub challenge : String
  pub rp_id : String
  pub user_name : String
  pub user_id : String
  pub exclude_credentials : List (String × List String)
  pub timeout : ℕ

pub record PasskeySummary : Type 0 where
  pub id : String
  pub created_at : ℕ
  pub last_used_at : Option ℕ
  pub backed_up : Bool
  pub aaguid : String

abbrev pub max_passkeys : ℕ
max_passkeys = 20

abbrev pub challenge_ttl_ms : ℕ
challenge_ttl_ms = 5 * 60 * 1000

abbrev pub fresh_login_ms : ℕ
fresh_login_ms = 5 * 60 * 1000

abbrev pub summary : Passkey → PasskeySummary
summary p = record {
  id = p.id;
  created_at = p.created_at;
  last_used_at = p.last_used_at;
  backed_up = p.backed_up;
  aaguid = p.aaguid;
}

-- `if (!result.verified) throw …`
abbrev pub verified_or_throw : {A : Type 0} → Verdict A → M A
verified_or_throw unverified = throw ErrorCode.passkey_invalid
verified_or_throw (verified a) = pure a

module _ (rt : Runtime) (w : Package) (cfg : Settings) where
  abbrev pub enabled : Bool
  enabled = not (cfg.rp_id == "")

  abbrev pub require_enabled : M (Unit {0})
  require_enabled = throw_if (not enabled) ErrorCode.passkey_not_configured

  unfoldable pub store_challenge : String → ChallengePurpose → Option String → ℕ → M (Unit {0})
  store_challenge challenge purpose user_id now = passkeys_attempt (
      Passkeys.create_challenge rt.same (record {
        challenge_hash = rt.hash_token challenge;
        purpose = purpose;
        user_id = user_id;
        expires_at = now + challenge_ttl_ms;
        consumed_at = none;
      }))

  -- The function that the package is handed: consuming the challenge is the check.
  unfoldable pub consume : ChallengePurpose → Option String → ℕ → String → M Bool
  consume purpose user_id now challenge =
      passkeys_ask
        (Passkeys.consume_challenge rt.same (rt.hash_token challenge) purpose user_id now)

  unfoldable pub sign_in_options : String → ℕ → M AuthOptions
  sign_in_options challenge now = do
    require_enabled
    store_challenge challenge authenticate none now
    pure (record { challenge = challenge; rp_id = cfg.rp_id; timeout = challenge_ttl_ms })

  -- The row that the response's id names, if it has one.
  abbrev pub named_passkey : String → Db → Option Passkey
  named_passkey response db = elim (w.id_of response) [
    | none ↦ none
    | some id ↦ Passkeys.find_by_credential_id_hash rt.same (rt.hash_token id) db.passkeys
  ]

  abbrev pub auth_input : String → Passkey → AuthInput
  auth_input response row = record {
    response = response;
    expected_origin = cfg.origin;
    expected_rp_id = cfg.rp_id;
    credential = record {
      id = row.credential_id;
      public_key = w.to_buffer row.public_key;
      counter = row.counter;
      transports = row.transports;
    };
  }

  unfoldable pub verify_sign_in : String → ℕ → M String
  unfolding consume
  verify_sign_in response now = do
    require_enabled
    found ← query (named_passkey response)
    row ← some_or_throw ErrorCode.passkey_invalid found
    result ←
        handle (w.verify_authentication (consume authenticate none now) (auth_input response row))
          (λ e. throw ErrorCode.passkey_invalid)
    counter ← verified_or_throw result
    passkeys_write (Passkeys.record_use row.id counter now)
    pure row.user_id

  unfoldable pub registration_options : String → ℕ → String → ℕ → M RegOptions
  registration_options user_id signed_in_at challenge now = do
    require_enabled
    throw_if (ltb fresh_login_ms (now - signed_in_at)) ErrorCode.fresh_login_required
    user ← query (λ db. Users.find_by_id user_id db.users)
    email ← some_or_throw ErrorCode.user_not_found (elim user [
      | none ↦ none
      | some u ↦ elim u.email [
        | none ↦ none
        | some address ↦ if address == "" then none else some address
      ]
    ])
    existing ← query (λ db. Passkeys.list_for_user user_id db.passkeys)
    throw_if (leb max_passkeys (length existing)) ErrorCode.passkey_limit_reached
    store_challenge challenge register (some user_id) now
    pure (record {
      challenge = challenge;
      rp_id = cfg.rp_id;
      user_name = email;
      user_id = user_id;
      exclude_credentials = map (λ p. (p.credential_id, p.transports)) existing;
      timeout = challenge_ttl_ms;
    })

  abbrev pub new_passkey : String → String → RegistrationInfo → ℕ → Passkey
  new_passkey id user_id info now = record {
    id = id;
    user_id = user_id;
    credential_id = info.credential.id;
    credential_id_hash = rt.hash_token info.credential.id;
    public_key = w.from_buffer info.credential.public_key;
    counter = info.credential.counter;
    transports = info.credential.transports;
    aaguid = info.aaguid;
    backed_up = info.credential_backed_up;
    created_at = now;
    last_used_at = none;
  }

  abbrev pub already : RegistrationInfo → Db → Bool
  already info db =
      is_some
        (Passkeys.find_by_credential_id_hash rt.same (rt.hash_token info.credential.id) db.passkeys)

  -- What follows a verified registration; `id` is the random id of the row.
  unfoldable pub add_passkey : String → String → RegistrationInfo → ℕ → M (Unit {0})
  add_passkey user_id id info now = do
    held ← query (λ db. length (Passkeys.list_for_user user_id db.passkeys))
    throw_if (leb max_passkeys held) ErrorCode.passkey_limit_reached
    taken ← query (already info)
    throw_if taken ErrorCode.passkey_already_registered
    handle (passkeys_attempt (Passkeys.create rt.same (new_passkey id user_id info now))) (λ e. do
      lost ← query (already info)
      throw_if lost ErrorCode.passkey_already_registered
      rethrow e)

  unfoldable pub register_passkey : String → String → String → ℕ → M (Unit {0})
  unfolding consume add_passkey
  register_passkey user_id response id now = do
    require_enabled
    result ←
        handle
          (w.verify_registration (consume register (some user_id) now) (record {
            response = response;
            expected_origin = cfg.origin;
            expected_rp_id = cfg.rp_id;
          }))
          (λ e. throw ErrorCode.passkey_invalid)
    info ← verified_or_throw result
    add_passkey user_id id info now

  unfoldable pub at_limit : String → M Bool
  at_limit user_id =
      query (λ db. leb max_passkeys (length (Passkeys.list_for_user user_id db.passkeys)))

  unfoldable pub list : String → M (List PasskeySummary)
  list user_id = do
    require_enabled
    user ← query (λ db. Users.find_by_id user_id db.users)
    throw_if (not (is_some user)) ErrorCode.user_not_found
    query (λ db. map summary (Passkeys.list_for_user user_id db.passkeys))

  unfoldable pub remove : String → String → M (Unit {0})
  remove user_id id = do
    require_enabled
    done ← passkeys_ask (Passkeys.delete user_id id)
    throw_if (not done) ErrorCode.passkey_not_found
