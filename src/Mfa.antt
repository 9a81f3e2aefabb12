-- ===== src/Mfa.antt =====
-- modules/mfa/totp.service.ts: two-factor authentication by one-time codes and recovery codes.
-- What a call draws at random is among its arguments; `now` is the clock in milliseconds.
pub mod Replay
use Prim.Native.Char.{code}
use authx.Prelude.{
  ℕ, ◌+◌, ◌*◌, String, Bool, true, false, Option, none, some, if◌then◌else◌, ◌&&◌, ◌||◌, not,
  nat_eq, leb, is_some, List, [], ◌∷◌, map,
}
use authx.Prelude.Text.{truthy}
use authx.Errors.{ErrorCode, Failure}
use authx.Totp.{codes, six_digits, match_step, current_step}
use authx.Totp.Seal.{open_secret, seal_secret}
use authx.Repo.Totp.{TotpRecord}
use authx.Repo.Totp
use authx.Repo.Users.{User}
use authx.Repo.Users
use authx.Service.{
  Config, Runtime, Db, M, ◌>>=◌, ◌>>◌, pure, throw, throw_if, query, some_or_throw, handle, rethrow,
}
use authx.Service.Tables.{totps_ask, totps_attempt, put_totps}

-- `[\s-]`, the whitespace of the language being these code points.
abbrev pub is_separator : ℕ → Bool
is_separator c =
    nat_eq c b'-'
    || nat_eq c b' '
    || (leb 9 c && leb c 13)
    || nat_eq c 0xa0
    || nat_eq c 0x1680
    || (leb 0x2000 c && leb c 0x200a)
    || nat_eq c 0x2028
    || nat_eq c 0x2029
    || nat_eq c 0x202f
    || nat_eq c 0x205f
    || nat_eq c 0x3000
    || nat_eq c 0xfeff

unfoldable pub strip_separators : String → String
strip_separators String.[] = ""
strip_separators (String.◌∷◌ c s) =
    if is_separator (code c) then strip_separators s else String.◌∷◌ c (strip_separators s)

abbrev pub fresh_login_seconds : ℕ
fresh_login_seconds = 5 * 60

-- `(await totpRepo.find(userId))?.enabledAt != null`
abbrev pub row_enabled : Option TotpRecord → Bool
row_enabled none = false
row_enabled (some row) = is_some row.enabled_at

module _ (rt : Runtime) (cfg : Config) where
  unfoldable pub normalize_recovery_code : String → String
  unfolding strip_separators
  normalize_recovery_code input = strip_separators (rt.upper input)

  unfoldable pub hash_recovery_code : String → String
  unfolding normalize_recovery_code
  hash_recovery_code input = rt.hash_token (normalize_recovery_code input)

  unfoldable pub require_key : M (List ℕ)
  require_key = some_or_throw ErrorCode.totp_not_configured cfg.totp_key

  -- none where the secret cannot be opened.
  unfoldable pub secret_of : TotpRecord → Option (List ℕ)
  secret_of row = elim cfg.totp_key [
    | none ↦ none
    | some key ↦ open_secret rt.cipher key row.secret
  ]

  -- `secret && await matchStep(secret, code)`
  unfoldable pub step_of : TotpRecord → String → ℕ → Option ℕ
  unfolding secret_of
  step_of row text now = elim (secret_of row) [
    | none ↦ none
    | some secret ↦ match_step rt.hmac secret text (current_step now)
  ]

  -- The code branch of `verify`: a step that is later than the last one accepted.
  unfoldable pub verify_code : String → TotpRecord → String → ℕ → M Bool
  unfolding step_of
  verify_code user_id row text now = elim (step_of row text now) [
    | none ↦ pure false
    | some step ↦ totps_ask (Totp.advance_step user_id step)
  ]

  unfoldable pub verify_enabled : String → TotpRecord → String → ℕ → M Bool
  unfolding verify_code hash_recovery_code
  verify_enabled user_id row trimmed now =
      if six_digits (codes trimmed)
      then verify_code user_id row trimmed now
      else totps_ask (Totp.consume_recovery_code rt.same user_id (hash_recovery_code trimmed) now)

  unfoldable pub verify_row : String → Option TotpRecord → String → ℕ → M Bool
  unfolding verify_enabled
  verify_row user_id none input now = pure false
  verify_row user_id (some row) input now =
      if is_some row.enabled_at then verify_enabled user_id row (rt.trim input) now else pure false

  unfoldable pub verify : String → String → ℕ → M Bool
  unfolding verify_row
  verify user_id input now = do
    row ← query (λ db. Totp.find user_id db.totps)
    verify_row user_id row input now

  unfoldable pub is_enabled : String → M Bool
  is_enabled user_id = query (λ db. row_enabled (Totp.find user_id db.totps))

  -- What `startSetup` is shown besides the bearer token: a password, or when the last sign-in was, in
  -- seconds.
  unfoldable pub prove_owner : User → Option String → Option ℕ → ℕ → M (Unit {0})
  prove_owner user current_password auth_time now = elim user.password_hash [
    | none ↦
        throw_if
          (not
            (elim auth_time [ none ↦ false | some t ↦ leb now ((t + fresh_login_seconds) * 1000) ]))
          ErrorCode.fresh_login_required
    | some hash ↦ elim current_password [
      | none ↦ throw ErrorCode.current_password_required
      | some password ↦
          if not (truthy (some password))
          then throw ErrorCode.current_password_required
          else throw_if (not (rt.verify_password password hash)) ErrorCode.invalid_credentials
    ]
  ]

  -- Inserts the pending row; on a failure the row is read again, and the error is kept unless a
  -- confirmation has come between.
  unfoldable pub insert_pending : String → String → M (Unit {0})
  unfolding is_enabled
  insert_pending user_id sealed = handle (totps_attempt (Totp.create_pending user_id sealed)) λ e.
      do on ← is_enabled user_id; if on then throw ErrorCode.totp_already_enabled else rethrow e

  -- Returns the base32 secret. The otpauth URI around it is formatting, and left out.
  unfoldable pub start_setup : String → Option String → Option ℕ → List ℕ → List ℕ → ℕ → M String
  unfolding require_key prove_owner insert_pending is_enabled
  start_setup user_id current_password auth_time secret iv now = do
    key ← require_key
    found ← query (λ db. Users.find_by_id user_id db.users)
    user ← some_or_throw ErrorCode.user_not_found found
    throw_if (not (is_some user.email)) ErrorCode.totp_guest_forbidden
    prove_owner user current_password auth_time now
    on ← is_enabled user_id
    throw_if on ErrorCode.totp_already_enabled
    _ ← totps_ask (Totp.delete_pending user_id)
    insert_pending user_id (seal_secret rt.cipher key iv secret)
    pure (rt.base32 secret)

  unfoldable pub store_codes : String → List (String × String) → M (Unit {0})
  store_codes user_id hashed db =
      let (r, totps) = Totp.replace_recovery_codes rt.same user_id hashed db.totps in
      (r, put_totps totps db)

  -- `drawn` are the recovery codes, each with the id of its row.
  unfoldable pub confirm : String → String → List (String × String) → ℕ → M (List String)
  unfolding require_key step_of hash_recovery_code store_codes
  confirm user_id text drawn now = do
    _ ← require_key
    found ← query (λ db. Totp.find user_id db.totps)
    row ← some_or_throw ErrorCode.totp_not_pending found
    throw_if (is_some row.enabled_at) ErrorCode.totp_already_enabled
    step ← some_or_throw ErrorCode.totp_invalid_code (step_of row (rt.trim text) now)
    won ← totps_ask (Totp.enable user_id step now)
    throw_if (not won) ErrorCode.totp_already_enabled
    store_codes user_id (map (λ d. (d.0, hash_recovery_code d.1)) drawn)
    pure (map (λ d. d.1) drawn)

  unfoldable pub disable : String → String → ℕ → M (Unit {0})
  unfolding require_key verify
  disable user_id proof now = do
    _ ← require_key
    found ← query (λ db. Users.find_by_id user_id db.users)
    _ ← some_or_throw ErrorCode.user_not_found found
    good ← verify user_id proof now
    throw_if (not good) ErrorCode.invalid_credentials
    _ ← totps_ask (Totp.delete_all_for_user user_id)
    pure tt

  unfoldable pub reset : String → M (Unit {0})
  reset user_id = do _ ← totps_ask (Totp.delete_all_for_user user_id); pure tt
