-- ===== src/Auth/Login.antt =====
-- The sign-ins of the hosted pages in modules/auth/auth.service.ts, and the sessions they open.
pub mod Factors
pub mod Refusals
pub mod Guesses
pub mod Google
pub mod Binding
pub mod Sso
use authx.Prelude.{
  ℕ, String, Bool, true, false, Option, none, some, if◌then◌else◌, ◌&&◌, ◌||◌, not, is_some, ◌==◌,
}
use authx.Prelude.Text.{truthy}
use authx.Errors.{ErrorCode, Failure}
use authx.Lockout
use authx.Mfa
use authx.Repo.Users.{User}
use authx.Repo.Users
use authx.Repo.Sessions.{Session}
use authx.Repo.Sessions
use authx.Repo.Social
use authx.Service.{
  Config, Runtime, GoogleIdentity, Db, M, ◌>>=◌, ◌>>◌, pure, throw, throw_if, query, some_or_throw,
  when, modify, handle, rethrow,
}
use authx.Service.Tables.{
  failures_ask, failures_write, users_attempt, users_attempt_ask, social_attempt, social_ask,
  sessions_write,
}
use authx.Auth.{
  LoginResult, Drawn, authenticate_password, subject_exists, require_verified_email, active_session,
  create_session, finish_login,
}

pub record GoogleProfile : Type 0 where
  pub provider_account_id : String
  pub email : String
  pub email_verified : Bool

-- The ids that a Google sign-in may draw: of a new account and of a new link.
pub record NewIds : Type 0 where
  pub user_id : String
  pub link_id : String

module _ (rt : Runtime) (cfg : Config) where
  unfoldable pub login_create_session : String → String → Drawn → ℕ → M LoginResult
  login_create_session email password d now = do
    found ← query (λ db. Users.find_by_email rt.same email db.users)
    user ← authenticate_password rt cfg found password now
    require_verified_email rt cfg user
    finish_login rt cfg user.id d now

  unfoldable pub complete_mfa_login : String → String → Drawn → ℕ → M (String × String)
  unfolding subject_exists
  complete_mfa_login user_id code d now = do
    live ← subject_exists rt cfg user_id
    throw_if (not live) ErrorCode.invalid_grant
    locked ← failures_ask (Lockout.is_locked user_id now)
    throw_if locked ErrorCode.invalid_credentials
    failures_write (Lockout.record_failure cfg.login_throttle user_id now)
    good ← Mfa.verify rt cfg user_id code now
    throw_if (not good) ErrorCode.invalid_credentials
    failures_write (Lockout.clear user_id)
    create_session rt cfg user_id d now

  unfoldable pub create_passkey_session : String → Drawn → ℕ → M (String × String)
  create_passkey_session user_id d now = do
    found ← query (λ db. Users.find_by_id user_id db.users)
    user ← some_or_throw ErrorCode.passkey_invalid found
    require_verified_email rt cfg user
    failures_write (Lockout.clear user_id)
    create_session rt cfg user_id d now

  unfoldable pub link_google : String → String → String → M (Unit {0})
  link_google id user_id account_id = social_attempt (
      Social.link rt.lower (record {
        id = id;
        user_id = user_id;
        provider = "google";
        provider_account_id = account_id;
      }))

  abbrev pub google_account : String → String → ℕ → User
  google_account id email now = record {
    id = id;
    email = some email;
    username = none;
    password_hash = none;
    created_at = now;
    updated_at = now;
    email_verified = true;
    name = none;
    given_name = none;
    family_name = none;
    picture = none;
    deleted_at = none;
  }

  -- An address that no live account holds: a new account, unless a deleted one occupies it.
  unfoldable pub register_google : GoogleProfile → NewIds → Drawn → ℕ → M LoginResult
  unfolding link_google
  register_google profile ids d now = do
    holder ← query (λ db. Users.find_any_by_email rt.same profile.email db.users)
    throw_if (is_some holder) ErrorCode.email_taken
    users_attempt (Users.create rt.same (google_account ids.user_id profile.email now))
    link_google ids.link_id ids.user_id profile.provider_account_id
    finish_login rt cfg ids.user_id d now

  -- An address that a local account holds: linked only where it has no password and is verified.
  unfoldable pub adopt_google : User → GoogleProfile → NewIds → Drawn → ℕ → M LoginResult
  unfolding link_google
  adopt_google user profile ids d now = do
    throw_if (is_some user.password_hash || not user.email_verified)
        ErrorCode.account_exists_link_password
    link_google ids.link_id user.id profile.provider_account_id
    finish_login rt cfg user.id d now

  unfoldable pub first_google_login : GoogleProfile → NewIds → Drawn → ℕ → M LoginResult
  unfolding register_google adopt_google
  first_google_login profile ids d now = do
    throw_if (not profile.email_verified) ErrorCode.google_email_unverified
    found ← query (λ db. Users.find_by_email rt.same profile.email db.users)
    elim found [
      | none ↦ register_google profile ids d now
      | some user ↦ adopt_google user profile ids d now
    ]

  unfoldable pub linked_login : String → Drawn → ℕ → M LoginResult
  unfolding subject_exists
  linked_login user_id d now = do
    live ← subject_exists rt cfg user_id
    throw_if (not live) ErrorCode.invalid_grant
    finish_login rt cfg user_id d now

  unfoldable pub login_with_google : GoogleProfile → NewIds → Drawn → ℕ → M LoginResult
  unfolding first_google_login linked_login
  login_with_google profile ids d now = do
    linked ← query (λ db.
        Social.find_by_provider_account rt.lower "google" profile.provider_account_id db.social)
    elim linked [
      | none ↦ first_google_login profile ids d now
      | some user_id ↦ linked_login user_id d now
    ]

  unfoldable pub user_id_for_session : String → ℕ → M (Option String)
  unfolding active_session
  user_id_for_session session_token now = do
    found ← active_session rt cfg session_token now
    pure (elim found [ none ↦ none | some s ↦ some s.user_id ])

  -- The account, and when it signed in.
  unfoldable pub resolve_session : String → ℕ → M (Option (String × ℕ))
  unfolding active_session
  resolve_session session_token now = do
    found ← active_session rt cfg session_token now
    pure (elim found [ none ↦ none | some s ↦ some (s.user_id, s.created_at) ])

  unfoldable pub revoke_session : Option Session → ℕ → M (Unit {0})
  revoke_session none now = pure tt
  revoke_session (some s) now = sessions_write (Sessions.revoke s.id now)

  unfoldable pub logout : String → ℕ → M (Unit {0})
  unfolding revoke_session
  logout session_token now = do
    found ← query (λ db.
        Sessions.find_active_by_token_hash rt.same (rt.hash_token session_token) now db.sessions)
    revoke_session found now

  -- The patch of an account that takes Google's address, with the link undone on either failure if
  -- this call made it.
  unfoldable pub undo_link : Bool → String → M (Unit {0})
  undo_link created user_id =
      when created do _ ← social_ask (Social.delete_all_for_user user_id); pure tt

  unfoldable pub take_email : Bool → String → String → ℕ → M (Unit {0})
  unfolding undo_link
  take_email created user_id email now = do
    patched ←
        handle
          (users_attempt_ask (
            Users.update rt.same user_id
              (record Users.empty_patch { email = some (some email); email_verified = some true })
              now))
          (λ e. do undo_link created user_id; rethrow e)
    elim patched [
      | some u ↦ pure tt
      | none ↦ (do undo_link created user_id; throw ErrorCode.email_taken)
    ]

  -- What follows the exchange: `linked` is the account that the Google account belongs to, and
  -- `others` what other requests do between the link and the patch of the account.
  unfoldable pub bind_identity :
      (Db → Db) → User → GoogleIdentity → Option String → String → ℕ → M (Unit {0})
  unfolding link_google take_email
  bind_identity others user identity linked link_id now = do
    throw_if (elim linked [ none ↦ false | some owner ↦ not (owner == user.id) ])
        ErrorCode.social_account_already_linked
    if is_some linked && truthy user.email then pure tt else (do
      holder ← query (λ db. Users.find_any_by_email rt.same identity.email db.users)
      throw_if (not (truthy user.email) && is_some holder) ErrorCode.email_taken
      when (not (is_some linked)) (link_google link_id user.id identity.sub)
      modify others
      when (not (truthy user.email)) (take_email (not (is_some linked)) user.id identity.email now))

  unfoldable pub link_google_amid : (Db → Db) → String → String → String → ℕ → M (Unit {0})
  unfolding bind_identity
  link_google_amid others user_id code link_id now = do
    throw_if (cfg.google_client_id == "" || cfg.google_client_secret == "")
        ErrorCode.google_login_disabled
    found ← query (λ db. Users.find_by_id user_id db.users)
    user ← some_or_throw ErrorCode.user_not_found found
    identity ← some_or_throw ErrorCode.invalid_grant (rt.exchange_google code)
    throw_if (not identity.email_verified) ErrorCode.google_email_unverified
    linked ← query (λ db. Social.find_by_provider_account rt.lower "google" identity.sub db.social)
    bind_identity others user identity linked link_id now

  -- The call with no other request in between.
  unfoldable pub link_google_to_user : String → String → String → ℕ → M (Unit {0})
  unfolding link_google_amid
  link_google_to_user user_id code link_id now =
      link_google_amid (λ db. db) user_id code link_id now
