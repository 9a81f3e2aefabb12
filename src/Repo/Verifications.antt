-- ===== src/Repo/Verifications.antt =====
-- modules/verification/verification.repository.ts: single-use links, each minted for one purpose.
pub mod Laws
use authx.Prelude.{
  ℕ, String, Bool, true, false, Option, none, some, ◌==◌, if◌then◌else◌, ltb, is_some, not, ◌&&◌,
  List, [], ◌∷◌, any,
}
use authx.Prelude.Map.{
  Map, get, set, find_value, first_error, update_where, delete_where, count_where,
}
use authx.Errors.{Failure, Result, ok, err}
use authx.Collation.{ci_equals, duplicate}

pub data TokenPurpose : Type 0 where
  verify_email email_change account_deletion password_reset : TokenPurpose

abbrev pub purpose_eq : TokenPurpose → TokenPurpose → Bool
purpose_eq verify_email verify_email = true
purpose_eq email_change email_change = true
purpose_eq account_deletion account_deletion = true
purpose_eq password_reset password_reset = true
purpose_eq _ _ = false

abbrev pub account_changing_purposes : List TokenPurpose
account_changing_purposes = password_reset ∷ email_change ∷ account_deletion ∷ []

pub record VerificationToken : Type 0 where
  pub id : String
  pub user_id : String
  pub email : String
  pub purpose : TokenPurpose
  pub token_hash : String
  pub expires_at : ℕ
  pub consumed_at : Option ℕ

abbrev pub Table : Type 0
Table = Map VerificationToken

abbrev pub owned_by : String → VerificationToken → Bool
owned_by user_id t = t.user_id == user_id

abbrev pub expired_before : ℕ → VerificationToken → Bool
expired_before cutoff t = ltb t.expires_at cutoff

abbrev pub consumed_row : ℕ → VerificationToken → VerificationToken
consumed_row now t = record t { consumed_at = some now }

-- The test of `consumeAllForUser`.
abbrev pub outstanding : String → List TokenPurpose → VerificationToken → Bool
outstanding user_id purposes t =
    t.user_id == user_id
    && not (is_some t.consumed_at)
    && any (λ p. purpose_eq p t.purpose) purposes

module _ (same : String → String → Bool) where
  abbrev pub clash : VerificationToken → VerificationToken → Option Failure
  clash t existing =
      if existing.id == t.id
      then duplicate "email_verification_tokens" "PRIMARY" (some t.id)
      else if ci_equals same (some existing.token_hash) (some t.token_hash)
      then duplicate "email_verification_tokens" "token_hash" (some t.token_hash)
      else none

  unfoldable pub create : VerificationToken → Table → Result Table
  create t by_id = elim (first_error (clash t) by_id) [
    | none ↦ ok (set t.id (record t { consumed_at = none }) by_id)
    | some e ↦ err e
  ]

  unfoldable pub find_by_hash : String → Table → Option VerificationToken
  find_by_hash token_hash = find_value (λ t. ci_equals same (some t.token_hash) (some token_hash))

unfoldable pub consume : String → ℕ → Table → Bool × Table
consume id now by_id = elim (get id by_id) [
  | none ↦ (false, by_id)
  | some t ↦
      if is_some t.consumed_at then (false, by_id) else (true, set id (consumed_row now t) by_id)
]

unfoldable pub consume_all_for_user : String → List TokenPurpose → ℕ → Table → ℕ × Table
consume_all_for_user user_id purposes now by_id = (
  count_where (outstanding user_id purposes) by_id,
  update_where (outstanding user_id purposes) (consumed_row now) by_id,
)

unfoldable pub delete_all_for_user : String → Table → ℕ × Table
delete_all_for_user user_id by_id =
    (count_where (owned_by user_id) by_id, delete_where (owned_by user_id) by_id)

unfoldable pub delete_expired_before : ℕ → Table → ℕ × Table
delete_expired_before cutoff by_id =
    (count_where (expired_before cutoff) by_id, delete_where (expired_before cutoff) by_id)
