-- ===== src/Repo/Codes.antt =====
-- modules/auth/authcode.repository.ts: authorization codes, each good for one exchange.
pub mod Laws
use authx.Prelude.{
  ℕ, String, Bool, true, false, Option, none, some, ◌==◌, if◌then◌else◌, ltb, is_some,
}
use authx.Prelude.Map.{Map, get, set, find_value, first_error, delete_where, count_where}
use authx.Errors.{Failure, Result, ok, err}
use authx.Collation.{ci_equals, duplicate}

pub record AuthCode : Type 0 where
  pub id : String
  pub code_hash : String
  pub user_id : String
  pub app_service_id : String
  pub redirect_uri : String
  pub code_challenge : String
  pub code_challenge_method : String
  pub scope : String
  pub nonce : Option String
  pub auth_time : ℕ
  pub expires_at : ℕ
  pub consumed_at : Option ℕ

abbrev pub Table : Type 0
Table = Map AuthCode

abbrev pub owned_by : String → AuthCode → Bool
owned_by user_id c = c.user_id == user_id

abbrev pub expired_before : ℕ → AuthCode → Bool
expired_before cutoff c = ltb c.expires_at cutoff

module _ (same : String → String → Bool) where
  abbrev pub clash : AuthCode → AuthCode → Option Failure
  clash c existing =
      if existing.id == c.id
      then duplicate "authorization_codes" "PRIMARY" (some c.id)
      else if ci_equals same (some existing.code_hash) (some c.code_hash)
      then duplicate "authorization_codes" "code_hash" (some c.code_hash)
      else none

  -- `NewAuthCode` is the row without `consumedAt`, which `create` sets to null.
  unfoldable pub create : AuthCode → Table → Result Table
  create c by_id = elim (first_error (clash c) by_id) [
    | none ↦ ok (set c.id (record c { consumed_at = none }) by_id)
    | some e ↦ err e
  ]

  unfoldable pub find_by_code_hash : String → Table → Option AuthCode
  find_by_code_hash code_hash = find_value (λ c. ci_equals same (some c.code_hash) (some code_hash))

unfoldable pub consume : String → ℕ → Table → Bool × Table
consume id now by_id = elim (get id by_id) [
  | none ↦ (false, by_id)
  | some c ↦
      if is_some c.consumed_at
      then (false, by_id)
      else (true, set id (record c { consumed_at = some now }) by_id)
]

unfoldable pub delete_all_for_user : String → Table → ℕ × Table
delete_all_for_user user_id by_id =
    (count_where (owned_by user_id) by_id, delete_where (owned_by user_id) by_id)

unfoldable pub delete_expired_before : ℕ → Table → ℕ × Table
delete_expired_before cutoff by_id =
    (count_where (expired_before cutoff) by_id, delete_where (expired_before cutoff) by_id)
