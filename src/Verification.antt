-- ===== src/Verification.antt =====
-- modules/verification/verification.service.ts: links that are mailed to an address and redeemed once.
-- `common` is the list of common passwords, asked for a text; a mail is a row of the database here.
pub mod Links
use authx.Prelude.{
  ℕ, ◌+◌, ◌*◌, String, Bool, true, false, Option, none, some, if◌then◌else◌, ◌&&◌, ◌||◌, not, leb,
  is_some, ◌==◌, List, [], ◌∷◌, ◌++◌,
}
use authx.Prelude.Text.{truthy, ◌⧺◌}
use authx.Errors.{ErrorCode, Result, ok, err}
use authx.Passwords.{assert_acceptable_password, min_length}
use authx.Repo.Users.{User}
use authx.Repo.Users
use authx.Repo.Tokens
use authx.Repo.Sessions
use authx.Repo.Passkeys
use authx.Repo.Verifications.{
  VerificationToken, TokenPurpose, verify_email, email_change, account_deletion, password_reset,
  purpose_eq, account_changing_purposes,
}
use authx.Repo.Verifications
use authx.Service.{
  Config, Runtime, Db, M, Mail, ◌>>=◌, ◌>>◌, pure, throw, throw_if, query, some_or_throw, when,
  modify,
}
use authx.Service.Tables.{
  verifications_attempt, verifications_ask, users_ask, users_attempt_ask, tokens_write,
  sessions_write, passkeys_ask,
}
use authx.Auth.{Drawn}

pub record Confirmed : Type 0 where
  pub purpose : TokenPurpose
  pub user_id : String
  pub email : String

-- `user.email !== record.email`
abbrev pub other_address : Option String → String → Bool
other_address none address = true
other_address (some email) address = not (email == address)

module _ (rt : Runtime) (cfg : Config) where
  abbrev pub link_row : String → TokenPurpose → String → Drawn → ℕ → VerificationToken
  link_row user_id purpose email d now = record {
    id = d.id;
    user_id = user_id;
    email = email;
    purpose = purpose;
    token_hash = rt.hash_token d.token;
    expires_at = now + cfg.email_verification_ttl * 1000;
    consumed_at = none;
  }

  abbrev pub send_link : String → TokenPurpose → String → M (Unit {0})
  send_link to purpose link = modify (λ db. record db {
    mails = db.mails ++ record { to = to; purpose = purpose; link = link } ∷ [];
  })

  unfoldable pub start_verification : String → String → Drawn → ℕ → M (Unit {0})
  start_verification user_id email d now = do
    verifications_attempt (Verifications.create rt.same (link_row user_id verify_email email d now))
    send_link email verify_email (cfg.issuer ⧺ "/verify-email?token=" ⧺ d.token)

  unfoldable pub start_confirmation :
      String → TokenPurpose → String → String → Drawn → ℕ → M (Unit {0})
  start_confirmation user_id purpose email send_to d now = do
    verifications_attempt (Verifications.create rt.same (link_row user_id purpose email d now))
    send_link send_to purpose (cfg.issuer ⧺ "/confirm?token=" ⧺ d.token)

  -- Another account than `id` holds the address.
  abbrev pub held_by_other : Option User → String → Bool
  held_by_other none id = false
  held_by_other (some holder) id = not (holder.id == id)

  -- `if (!user.email) throw …`, and the address otherwise.
  abbrev pub need_address : Option String → M String
  need_address email =
      if truthy email
      then some_or_throw ErrorCode.account_has_no_email email
      else throw ErrorCode.account_has_no_email

  unfoldable pub start_email_change : String → String → Drawn → ℕ → M (Unit {0})
  unfolding start_confirmation
  start_email_change user_id new_email d now = do
    found ← query (λ db. Users.find_by_id user_id db.users)
    user ← some_or_throw ErrorCode.user_not_found found
    address ← need_address user.email
    if address == new_email then pure tt else (do
      holder ← query (λ db. Users.find_any_by_email rt.same new_email db.users)
      throw_if (held_by_other holder user_id) ErrorCode.email_taken
      start_confirmation user_id email_change new_email address d now)

  unfoldable pub start_account_deletion : String → Drawn → ℕ → M (Unit {0})
  unfolding start_confirmation
  start_account_deletion user_id d now = do
    found ← query (λ db. Users.find_by_id user_id db.users)
    user ← some_or_throw ErrorCode.user_not_found found
    address ← need_address user.email
    start_confirmation user_id account_deletion address address d now

  -- A link that is stored, unconsumed, and for a purpose that the call handles; then its expiry.
  unfoldable pub find_link : (TokenPurpose → Bool) → String → ℕ → M VerificationToken
  find_link handles token now = do
    found ← query (λ db. Verifications.find_by_hash rt.same (rt.hash_token token) db.verifications)
    row ← some_or_throw ErrorCode.invalid_verification_link found
    throw_if (not (handles row.purpose)) ErrorCode.invalid_verification_link
    throw_if (is_some row.consumed_at) ErrorCode.invalid_verification_link
    throw_if (leb row.expires_at now) ErrorCode.verification_link_expired
    pure row

  unfoldable pub consume_link : VerificationToken → ℕ → M (Unit {0})
  consume_link row now = do
    won ← verifications_ask (Verifications.consume row.id now)
    throw_if (not won) ErrorCode.invalid_verification_link

  abbrev pub needs_no_form : TokenPurpose → Bool
  needs_no_form p = purpose_eq p email_change || purpose_eq p account_deletion

  abbrev pub new_address : String → Users.Patch
  new_address email = record Users.empty_patch {
    email = some (some email);
    email_verified = some false;
  }

  -- What a confirmed link does.
  unfoldable pub act_on : VerificationToken → User → ℕ → M (Unit {0})
  act_on row user now = do
    when (purpose_eq row.purpose email_change) (do
      patched ← users_attempt_ask (Users.update rt.same user.id (new_address row.email) now)
      throw_if (not (is_some patched)) ErrorCode.invalid_verification_link)
    when (purpose_eq row.purpose account_deletion)
        (do _ ← users_ask (Users.soft_delete user.id now); pure tt)

  unfoldable pub confirm : String → ℕ → M Confirmed
  unfolding find_link consume_link act_on
  confirm token now = do
    row ← find_link needs_no_form token now
    found ← query (λ db. Users.find_by_id row.user_id db.users)
    user ← some_or_throw ErrorCode.invalid_verification_link found
    holder ← query (λ db. Users.find_any_by_email rt.same row.email db.users)
    throw_if (purpose_eq row.purpose email_change && held_by_other holder user.id)
        ErrorCode.email_taken
    consume_link row now
    act_on row user now
    pure (record { purpose = row.purpose; user_id = row.user_id; email = row.email })

  -- `if (!user) return; if (!user.email) return; …`
  abbrev pub with_address : Option User → (String → String → M (Unit {0})) → M (Unit {0})
  with_address none then_do = pure tt
  with_address (some user) then_do = elim user.email [
    | none ↦ pure tt
    | some email ↦ if email == "" then pure tt else then_do user.id email
  ]

  unfoldable pub start_password_reset : String → Drawn → ℕ → M (Unit {0})
  unfolding start_confirmation
  start_password_reset email d now = do
    found ← query (λ db. Users.find_by_email rt.same email db.users)
    with_address found (λ id address. start_confirmation id password_reset address address d now)

  abbrev pub new_password : String → Users.Patch
  new_password password = record Users.empty_patch {
    password_hash = some (some (rt.hash_password password));
    email_verified = some true;
  }

  -- What a new password ends: tokens, sessions, passkeys, and the links that could change the account.
  unfoldable pub end_credentials : String → ℕ → M (Unit {0})
  end_credentials user_id now = do
    tokens_write (Tokens.revoke_all_for_user user_id now)
    sessions_write (Sessions.revoke_all_for_user user_id now)
    _ ← passkeys_ask (Passkeys.delete_all_passkeys_for_user user_id)
    _ ← verifications_ask (Verifications.consume_all_for_user user_id account_changing_purposes now)
    pure tt

  abbrev pub lift : Result (Unit {0}) → M (Unit {0})
  lift r db = (r, db)

  unfoldable pub reset_password : (String → Bool) → String → String → ℕ → M (Unit {0})
  unfolding find_link consume_link end_credentials
  reset_password common token password now = do
    lift (assert_acceptable_password common password min_length)
    row ← find_link (purpose_eq password_reset) token now
    found ← query (λ db. Users.find_by_id row.user_id db.users)
    user ← some_or_throw ErrorCode.invalid_verification_link found
    throw_if (other_address user.email row.email) ErrorCode.invalid_verification_link
    consume_link row now
    _ ← users_attempt_ask (Users.update rt.same user.id (new_password password) now)
    end_credentials user.id now

  unfoldable pub redeem_verification : String → ℕ → M (Unit {0})
  unfolding find_link consume_link
  redeem_verification token now = do
    row ← find_link (purpose_eq verify_email) token now
    found ← query (λ db. Users.find_by_id row.user_id db.users)
    user ← some_or_throw ErrorCode.invalid_verification_link found
    throw_if (other_address user.email row.email) ErrorCode.invalid_verification_link
    consume_link row now
    marked ← users_ask (Users.mark_email_verified rt.same user.id row.email now)
    throw_if (not marked) ErrorCode.invalid_verification_link

  -- A verified account is left alone.
  unfoldable pub resend : String → Drawn → ℕ → M (Unit {0})
  unfolding start_verification
  resend email d now = do
    found ← query (λ db. Users.find_by_email rt.same email db.users)
    if elim found [ none ↦ false | some user ↦ user.email_verified ]
        then pure tt
        else with_address found (λ id address. start_verification id address d now)
