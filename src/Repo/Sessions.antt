-- ===== src/Repo/Sessions.antt =====
-- modules/auth/session.repository.ts: the SSO sessions of the hosted login.
pub mod Laws
use authx.Prelude.{
  ℕ, String, Bool, Option, none, some, ◌==◌, if◌then◌else◌, ltb, is_some, not, ◌&&◌,
}
use authx.Prelude.Map.{
  Map, get, set, find_value, first_error, update_where, delete_where, count_where,
}
use authx.Errors.{Failure, Result, ok, err}
use authx.Collation.{ci_equals, duplicate}

pub record Session : Type 0 where
  pub id : String
  pub user_id : String
  pub token_hash : String
  pub expires_at : ℕ
  pub revoked_at : Option ℕ
  pub created_at : ℕ

pub record NewSession : Type 0 where
  pub id : String
  pub user_id : String
  pub token_hash : String
  pub expires_at : ℕ

abbrev pub Table : Type 0
Table = Map Session

abbrev pub fresh_row : NewSession → ℕ → Session
fresh_row s now = record {
  id = s.id;
  user_id = s.user_id;
  token_hash = s.token_hash;
  expires_at = s.expires_at;
  revoked_at = none;
  created_at = now;
}

abbrev pub revoked_row : ℕ → Session → Session
revoked_row now s = record s { revoked_at = some now }

abbrev pub owned_by : String → Session → Bool
owned_by user_id s = s.user_id == user_id

abbrev pub expired_before : ℕ → Session → Bool
expired_before cutoff s = ltb s.expires_at cutoff

module _ (same : String → String → Bool) where
  abbrev pub clash : NewSession → Session → Option Failure
  clash s existing =
      if existing.id == s.id
      then duplicate "sessions" "PRIMARY" (some s.id)
      else if ci_equals same (some existing.token_hash) (some s.token_hash)
      then duplicate "sessions" "token_hash" (some s.token_hash)
      else none

  unfoldable pub create : NewSession → ℕ → Table → Result Table
  create s now by_id = elim (first_error (clash s) by_id) [
    | none ↦ ok (set s.id (fresh_row s now) by_id)
    | some e ↦ err e
  ]

  -- The test of `findActiveByTokenHash`.
  abbrev pub active : String → ℕ → Session → Bool
  active token_hash now s =
      ci_equals same (some s.token_hash) (some token_hash)
      && not (is_some s.revoked_at)
      && ltb now s.expires_at

  unfoldable pub find_active_by_token_hash : String → ℕ → Table → Option Session
  find_active_by_token_hash token_hash now = find_value (active token_hash now)

unfoldable pub revoke : String → ℕ → Table → Table
revoke id now by_id = elim (get id by_id) [
  | none ↦ by_id
  | some s ↦ set id (revoked_row now s) by_id
]

unfoldable pub revoke_all_for_user : String → ℕ → Table → Table
revoke_all_for_user user_id now = update_where (owned_by user_id) (revoked_row now)

unfoldable pub delete_all_for_user : String → Table → ℕ × Table
delete_all_for_user user_id by_id =
    (count_where (owned_by user_id) by_id, delete_where (owned_by user_id) by_id)

unfoldable pub delete_expired_before : ℕ → Table → ℕ × Table
delete_expired_before cutoff by_id =
    (count_where (expired_before cutoff) by_id, delete_where (expired_before cutoff) by_id)
