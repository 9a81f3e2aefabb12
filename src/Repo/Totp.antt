-- ===== src/Repo/Totp.antt =====
-- modules/mfa/totp.repository.ts: one authenticator per account, pending until it is confirmed, and
-- its recovery codes.
pub mod Laws
use authx.Prelude.{
  ℕ, String, Bool, true, false, Option, none, some, ◌==◌, if◌then◌else◌, List, [], ◌∷◌, ◌++◌, keep,
  any, length, not, ◌&&◌, is_some, leb, ◌+◌, ◌-◌,
}
use authx.Prelude.Map.{Map, get, set, delete}
use authx.Errors.{Failure, Result, ok, err}
use authx.Collation.{ci_equals}

pub record TotpRecord : Type 0 where
  pub user_id : String
  pub secret : String
  pub enabled_at : Option ℕ
  pub last_step : ℕ

pub record RecoveryCode : Type 0 where
  pub id : String
  pub user_id : String
  pub code_hash : String
  pub used_at : Option ℕ

pub record Totps : Type 0 where
  pub totp : Map TotpRecord
  pub codes : List RecoveryCode

unfoldable pub find : String → Totps → Option TotpRecord
find user_id s = get user_id s.totp

unfoldable pub create_pending : String → String → Totps → Result Totps
create_pending user_id secret s = elim (get user_id s.totp) [
  | some row ↦ err (Failure.duplicate_key "user_totp" "PRIMARY" (some user_id))
  | none ↦ ok (record s {
    totp =
        set user_id
          (record { user_id = user_id; secret = secret; enabled_at = none; last_step = 0 }) s.totp;
  })
]

unfoldable pub delete_pending : String → Totps → ℕ × Totps
delete_pending user_id s = elim (get user_id s.totp) [
  | none ↦ (0, s)
  | some row ↦
      if is_some row.enabled_at then (0, s) else (1, record s { totp = delete user_id s.totp })
]

unfoldable pub enable : String → ℕ → ℕ → Totps → Bool × Totps
enable user_id step at s = elim (get user_id s.totp) [
  | none ↦ (false, s)
  | some row ↦ if is_some row.enabled_at then (false, s) else (
    true,
    record s { totp = set user_id (record row { enabled_at = some at; last_step = step }) s.totp },
  )
]

unfoldable pub advance_step : String → ℕ → Totps → Bool × Totps
advance_step user_id step s = elim (get user_id s.totp) [
  | none ↦ (false, s)
  | some row ↦
      if leb step row.last_step
      then (false, s)
      else (true, record s { totp = set user_id (record row { last_step = step }) s.totp })
]

abbrev pub code_of : String → RecoveryCode → Bool
code_of user_id c = c.user_id == user_id

module _ (same : String → String → Bool) where
  abbrev pub has_hash : String → String → RecoveryCode → Bool
  has_hash user_id code_hash c =
      c.user_id == user_id && ci_equals same (some c.code_hash) (some code_hash)

  -- The loop over the new hashes, with the id that each row draws. It stops at a duplicate, and the
  -- rows pushed so far stay.
  unfoldable pub push_codes :
      String → List (String × String) → List RecoveryCode → Result (Unit {0}) × List RecoveryCode
  push_codes user_id [] codes = (ok tt, codes)
  push_codes user_id ((id, hash) ∷ rest) codes =
      let pushed =
        push_codes user_id rest
          (codes ++ record { id = id; user_id = user_id; code_hash = hash; used_at = none } ∷ []) in
      if any (has_hash user_id hash) codes
      then (
        err (Failure.duplicate_key "totp_recovery_codes" "user_id_code_hash" (some hash)),
        codes,
      )
      else pushed

  unfoldable pub replace_recovery_codes :
      String → List (String × String) → Totps → Result (Unit {0}) × Totps
  unfolding push_codes
  replace_recovery_codes user_id new s =
      let (r, codes) = push_codes user_id new (keep (λ c. not (code_of user_id c)) s.codes) in
      (r, record s { codes = codes })

  abbrev pub usable : String → String → RecoveryCode → Bool
  usable user_id code_hash c = has_hash user_id code_hash c && not (is_some c.used_at)

  -- `codes.find(…)`, and `row.usedAt = new Date()` on the row found.
  unfoldable pub use_first : String → String → ℕ → List RecoveryCode → Bool × List RecoveryCode
  use_first user_id code_hash now [] = (false, [])
  use_first user_id code_hash now (c ∷ cs) =
      let (used, rest) = use_first user_id code_hash now cs in
      if usable user_id code_hash c
      then (true, record c { used_at = some now } ∷ cs)
      else (used, c ∷ rest)

  unfoldable pub consume_recovery_code : String → String → ℕ → Totps → Bool × Totps
  unfolding use_first
  consume_recovery_code user_id code_hash now s =
      let (used, codes) = use_first user_id code_hash now s.codes in
      (used, record s { codes = codes })

unfoldable pub delete_all_for_user : String → Totps → ℕ × Totps
delete_all_for_user user_id s =
    let codes = keep (λ c. not (code_of user_id c)) s.codes in
    (
      length s.codes - length codes + (if is_some (get user_id s.totp) then 1 else 0),
      record { totp = delete user_id s.totp; codes = codes },
    )
