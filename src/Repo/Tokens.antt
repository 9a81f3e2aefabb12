-- ===== src/Repo/Tokens.antt =====
-- modules/auth/token.repository.ts: refresh tokens. A row is active until it is revoked; a rotation
-- revokes it and names the row that replaces it.
pub mod Laws
pub mod Rotation
use authx.Prelude.{
  ℕ, String, Bool, true, false, Option, none, some, ◌≡◌, ◌==◌, if◌then◌else◌, ltb, is_some,
}
use authx.Prelude.Map.{
  Map, get, set, find_value, first_error, update_where, delete_where, count_where,
}
use authx.Errors.{Failure, Result, ok, err}
use authx.Collation.{ci_equals, duplicate}

pub record RefreshToken : Type 0 where
  pub id : String
  pub user_id : String
  pub app_service_id : String
  pub token_hash : String
  pub expires_at : ℕ
  pub revoked_at : Option ℕ
  pub replaced_by : Option String

pub record NewRefreshToken : Type 0 where
  pub id : String
  pub user_id : String
  pub app_service_id : String
  pub token_hash : String
  pub expires_at : ℕ

abbrev pub Table : Type 0
Table = Map RefreshToken

-- `{ ...token, revokedAt: null, replacedBy: null }`
abbrev pub active_row : NewRefreshToken → RefreshToken
active_row t = record {
  id = t.id;
  user_id = t.user_id;
  app_service_id = t.app_service_id;
  token_hash = t.token_hash;
  expires_at = t.expires_at;
  revoked_at = none;
  replaced_by = none;
}

abbrev pub revoked_row : ℕ → RefreshToken → RefreshToken
revoked_row now t = record t { revoked_at = some now }

abbrev pub owned_by : String → RefreshToken → Bool
owned_by user_id t = t.user_id == user_id

abbrev pub expired_before : ℕ → RefreshToken → Bool
expired_before cutoff t = ltb t.expires_at cutoff

module _ (same : String → String → Bool) where
  -- The checks that `assertInsertable` makes of one existing row.
  abbrev pub clash : NewRefreshToken → RefreshToken → Option Failure
  clash t existing =
      if existing.id == t.id
      then duplicate "refresh_tokens" "PRIMARY" (some t.id)
      else if ci_equals same (some existing.token_hash) (some t.token_hash)
      then duplicate "refresh_tokens" "token_hash" (some t.token_hash)
      else none

  unfoldable pub create : NewRefreshToken → Table → Result Table
  create token by_id = elim (first_error (clash token) by_id) [
    | none ↦ ok (set token.id (active_row token) by_id)
    | some e ↦ err e
  ]

  unfoldable pub find_by_hash : String → Table → Option RefreshToken
  find_by_hash token_hash = find_value (λ t. ci_equals same (some t.token_hash) (some token_hash))

  -- The row of `oldId` once it is found active.
  unfoldable pub rotate_row :
      String → NewRefreshToken → ℕ → RefreshToken → Table → Result (Bool × Table)
  rotate_row old_id next now old by_id =
      if is_some old.revoked_at then ok (false, by_id) else elim (first_error (clash next) by_id) [
        | none ↦ ok (
          true,
          set next.id (active_row next)
              (set old_id (record old { revoked_at = some now; replaced_by = some next.id }) by_id),
        )
        | some e ↦ err e
      ]

  unfoldable pub rotate : String → NewRefreshToken → ℕ → Table → Result (Bool × Table)
  unfolding rotate_row
  rotate old_id next now by_id = elim (get old_id by_id) [
    | none ↦ ok (false, by_id)
    | some old ↦ rotate_row old_id next now old by_id
  ]

unfoldable pub revoke : String → ℕ → Table → Table
revoke id now by_id = elim (get id by_id) [
  | none ↦ by_id
  | some t ↦ set id (revoked_row now t) by_id
]

unfoldable pub revoke_all_for_user : String → ℕ → Table → Table
revoke_all_for_user user_id now = update_where (owned_by user_id) (revoked_row now)

unfoldable pub delete_all_for_user : String → Table → ℕ × Table
delete_all_for_user user_id by_id =
    (count_where (owned_by user_id) by_id, delete_where (owned_by user_id) by_id)

unfoldable pub delete_expired_before : ℕ → Table → ℕ × Table
delete_expired_before cutoff by_id =
    (count_where (expired_before cutoff) by_id, delete_where (expired_before cutoff) by_id)

-- One call of the repository, and what it leaves behind. A call that throws changes nothing.
pub data Call : Type 0 where
  creates : NewRefreshToken → Call
  rotates : String → NewRefreshToken → Call
  revokes : String → Call
  revokes_all : String → Call
  deletes_all : String → Call
  deletes_expired : ℕ → Call

abbrev pub after_create : Table → Result Table → Table
after_create by_id (ok m) = m
after_create by_id (err e) = by_id

abbrev pub after_rotate : Table → Result (Bool × Table) → Table
after_rotate by_id (ok (won, m)) = m
after_rotate by_id (err e) = by_id

abbrev pub won : Result (Bool × Table) → Bool
won (ok (b, m)) = b
won (err e) = false

module _ (same : String → String → Bool) where
  unfoldable pub step : ℕ × Call → Table → Table
  step (now, creates t) m = after_create m (create same t m)
  step (now, rotates old next) m = after_rotate m (rotate same old next now m)
  step (now, revokes id) m = revoke id now m
  step (now, revokes_all user) m = revoke_all_for_user user now m
  step (now, deletes_all user) m = (delete_all_for_user user m).1
  step (now, deletes_expired cutoff) m = (delete_expired_before cutoff m).1
