-- ===== src/Tests/Links.antt =====
-- The mailed links at the small installation.
use authx.Prelude.{ℕ, String, Bool, true, false, Option, none, some, ◌≡◌, refl, List, [], ◌∷◌, ◌&&◌}
use authx.Prelude.Map.{get}
use authx.Errors.{ErrorCode, Failure, ok, err}
use authx.Passwords.{assert_acceptable_password, min_length}
use authx.Repo.Users.{User}
use authx.Repo.Users
use authx.Repo.Verifications.{
  VerificationToken, TokenPurpose, password_reset, account_deletion, email_change, purpose_eq,
}
use authx.Repo.Verifications
use authx.Service.{Db}
use authx.Service.Tables.{put_users, put_verifications}
use authx.Verification.{
  confirm, reset_password, redeem_verification, needs_no_form, held_by_other, Confirmed,
}
use authx.Verification.Links.{Resets, Valid, reset_password-ok, reset_password_once, confirm-ok}
use authx.Tests.World.{rt, cfg, db, same_text, same_text-Collates, one-Indexed}

abbrev link : VerificationToken
link = record {
  id = "v1";
  user_id = "u1";
  email = "ann@x";
  purpose = password_reset;
  token_hash = "link1";
  expires_at = 9000;
  consumed_at = none;
}

abbrev mailed : Db
mailed = record db { verifications = ("v1", link) ∷ [] }

abbrev common : String → Bool
common s = false

abbrev reset : Db
reset = (reset_password rt cfg common "link1" "new password" 1000 mailed).1

resets : reset_password rt cfg common "link1" "new password" 1000 mailed ≡ (ok tt, reset)
unfolding reset_password assert_acceptable_password Verifications.find_by_hash
    authx.Prelude.Map.find_value Users.find_by_id get Verifications.consume Users.update
resets = refl

reset_password-ok_example :
    (assert_acceptable_password common "new password" min_length ≡ ok tt)
    × Resets rt cfg "link1" "new password" 1000 mailed reset
reset_password-ok_example =
    reset_password-ok rt cfg common "link1" "new password" 1000 mailed reset resets

reset_password_once_example :
    let refused = Failure.app ErrorCode.invalid_verification_link in
    (reset_password rt cfg common "link1" "another one" 2000 reset ≡ (
      elim (assert_acceptable_password common "another one" min_length) [
        | ok u ↦ err refused
        | err e ↦ err e
      ],
      reset,
    ))
    × (confirm rt cfg "link1" 2000 reset ≡ (err refused, reset))
    × (redeem_verification rt cfg "link1" 2000 reset ≡ (err refused, reset))
reset_password_once_example =
    reset_password_once rt cfg common "link1" "new password" "another one" 1000 2000 mailed reset
      same_text-Collates (one-Indexed (λ t. t.id) (λ t. t.token_hash) same_text link) resets

abbrev deletion : Db
deletion = record db { verifications = ("v1", record link { purpose = account_deletion }) ∷ [] }

abbrev confirmed : Db
confirmed = (confirm rt cfg "link1" 1000 deletion).1

abbrev answer : Confirmed
answer = record { purpose = account_deletion; user_id = "u1"; email = "ann@x" }

confirms : confirm rt cfg "link1" 1000 deletion ≡ (ok answer, confirmed)
unfolding confirm Verifications.find_by_hash authx.Prelude.Map.find_value Users.find_by_id get
    Verifications.consume
confirms = refl

confirm-ok_example :
    (v : Valid rt cfg (needs_no_form rt cfg) "link1" 1000 deletion) × (user : User)
    × (Users.find_by_id v.row.user_id deletion.users ≡ some user)
    × ((purpose_eq v.row.purpose email_change
          && held_by_other rt cfg
              (Users.find_any_by_email rt.same v.row.email deletion.users)
              user.id)
        ≡ false)
    × ((Verifications.consume v.row.id 1000 deletion.verifications).0 ≡ true)
    × (answer ≡ record { purpose = v.row.purpose; user_id = v.row.user_id; email = v.row.email })
    × (confirmed
        ≡ put_users confirmed.users (
            put_verifications
              (Verifications.consume v.row.id 1000 deletion.verifications).1
              deletion))
confirm-ok_example = confirm-ok rt cfg "link1" 1000 deletion confirmed answer confirms
