-- ===== src/LinkRoutes.antt =====
-- modules/verification/verification.routes.ts: the routes that redeem a link or ask for one, and
-- modules/oidc/userinfo.routes.ts.
use authx.Prelude.{ℕ, String, Bool, Option, none, some, if◌then◌else◌, List, [], ◌∷◌, ◌==◌}
use authx.Prelude.Text.{split}
use authx.Errors.{ErrorCode, Failure}
use authx.Repo.Users
use authx.Repo.Verifications.{purpose_eq, email_change}
use authx.Oidc
use authx.Service.{Config, Runtime, M, ◌>>=◌, ◌>>◌, pure, query, handle, when, attempt_or}
use authx.Auth.{Drawn}
use authx.Auth.Exchange.{oidc_user}
use authx.Verification.{
  Confirmed, confirm, redeem_verification, start_verification, start_password_reset, reset_password,
  resend,
}

-- A page or an empty body; an error page has its status and, if it is not the usual one, its text.
pub data Answer : Type 0 where
  success_page : Answer
  error_page : Option String → ℕ → Answer
  no_content : Answer

abbrev pub taken_message : String
taken_message =
    "That address is already in use by another account. The link is still valid -- confirm again once it is free, or request the change to a different address."

abbrev pub confirm_failed : Failure → M Answer
confirm_failed (Failure.app ErrorCode.email_taken) = pure (error_page (some taken_message) 409)
confirm_failed _ = pure (error_page none 400)

module _ (rt : Runtime) (cfg : Config) (common : String → Bool) where
  -- A call whose error is dropped.
  abbrev pub best_effort : M (Unit {0}) → M (Unit {0})
  best_effort m = handle m (λ e. pure tt)

  -- The new address of an account is sent its own link.
  abbrev pub confirmed_page : Drawn → ℕ → Confirmed → M Answer
  confirmed_page d now c =
      when (purpose_eq c.purpose email_change)
        (best_effort (start_verification rt cfg c.user_id c.email d now))
      >> pure success_page

  -- GET /confirm
  unfoldable pub get_confirm : String → Drawn → ℕ → M Answer
  get_confirm token d now =
      attempt_or (confirm rt cfg token now) confirm_failed (confirmed_page d now)

  -- GET /verify-email
  unfoldable pub get_verify_email : String → ℕ → M Answer
  get_verify_email token now =
      attempt_or (redeem_verification rt cfg token now) (λ e. pure (error_page none 400))
        (λ done. pure success_page)

  -- POST /password-reset/request, and POST /verify-email/resend
  unfoldable pub post_reset_request : String → Drawn → ℕ → M Answer
  post_reset_request email d now =
      best_effort (start_password_reset rt cfg email d now) >> pure no_content

  unfoldable pub post_resend : String → Drawn → ℕ → M Answer
  post_resend email d now = best_effort (resend rt cfg email d now) >> pure no_content

  -- POST /password-reset
  unfoldable pub post_reset : String → String → ℕ → M Answer
  post_reset token password now = do
    reset_password rt cfg common token password now
    pure no_content

-- What is read of a token's claims at /userinfo.
pub record InfoClaims : Type 0 where
  pub sub : String
  pub oidc_scope : Option String

-- `claims.oidc_scope ? claims.oidc_scope.split(' ') : ['openid', 'email']`
abbrev pub info_scopes : Option String → List String
info_scopes none = "openid" ∷ "email" ∷ []
info_scopes (some s) = if s == "" then "openid" ∷ "email" ∷ [] else split b' ' s

-- The account's id and its claims; none is the answer 401. `verify` is the check of a JWT.
unfoldable pub userinfo :
    (String → Option InfoClaims) → Option String → M (Option (String × Oidc.Claims))
userinfo verify none = pure none
userinfo verify (some token) = elim (verify token) [
  | none ↦ pure none
  | some claims ↦ query (λ db. Users.find_by_id claims.sub db.users) >>= λ found. pure (elim found [
    | none ↦ none
    | some u ↦ some (u.id, Oidc.claims_for_scopes (oidc_user u) (info_scopes claims.oidc_scope))
  ])
]
