-- ===== src/Tests/Grants.antt =====
-- The grants at the small installation.
use authx.Prelude.{
  ℕ, String, Bool, true, false, Option, none, some, ◌≡◌, refl, ap, arith, List, [], ◌∷◌, ◌++◌, ◌+◌,
  ◌*◌, ◌⊎◌, if◌then◌else◌, ltb,
}
use authx.Prelude.Map.{get, first_error, count_where}
use authx.Errors.{ErrorCode, Failure, ok, err}
use authx.Repo.Tokens.{RefreshToken}
use authx.Repo.Tokens
use authx.Repo.Tokens.Laws.{active_of}
use authx.Repo.Codes
use authx.Repo.Users.{User}
use authx.Repo.Users
use authx.Repo.Totp
use authx.Lockout
use authx.Mfa
use authx.Service.{Db}
use authx.Service.Tables.{put_tokens, put_failures}
use authx.Auth.{TokenPair, authenticate_password, client_secret_ok}
use authx.Auth.Issue.{Issues}
use authx.Auth.Exchange.{ExchangeInput, exchange_authorization_code}
use authx.Auth.Exchange.SingleUse.{Names, Redeems, exchange-ok}
use authx.Auth.Exchange.Replay.{exchange_replay, exchange_refused}
use authx.Auth.Grants.{refresh_grant, password_grant}
use authx.Auth.Grants.Password.{Proves, lockout_refuses, attempts, password_grant-ok}
use authx.Auth.Grants.Replay.{refresh_replay}
use authx.Auth.Grants.Refresh.{refresh_grant-ok, Presents, Refreshes, presented}
use authx.Tests.World.{
  rt, cfg, ann, db, client, drawn, drawn_again, service, token, same_text, same_text-Collates,
  one-Indexed, db_code, code_row, exchange_input,
}

abbrev pair : TokenPair
pair = record { access_token = "u1"; refresh_token = "new1"; expires_in = 900; id_token = none }

abbrev refreshed : Db
refreshed = (refresh_grant rt cfg "rt1" client drawn 1000 db).1

refreshes : refresh_grant rt cfg "rt1" client drawn 1000 db ≡ (ok pair, refreshed)
unfolding refresh_grant Tokens.find_by_hash authx.Prelude.Map.find_value
    authx.Repo.Orgs.find_service_by_id get Users.find_by_id authx.Repo.Orgs.is_member Tokens.rotate
    first_error authx.Service.access_payload
refreshes = refl

refresh_grant-ok_example :
    (p : Presents rt cfg "rt1" client db) × Refreshes rt cfg p.old p.service drawn 1000 db pair
      refreshed
refresh_grant-ok_example =
    refresh_grant-ok rt cfg "rt1" client drawn 1000 db refreshed pair refreshes

refresh_replay_example :
    (old issued : RefreshToken) × (presented rt cfg "rt1" db ≡ some old)
    × (get "d1" refreshed.tokens ≡ some issued)
    × (issued.user_id ≡ old.user_id)
    × (let dead = Tokens.revoke_all_for_user old.user_id 20000 refreshed.tokens in
        (refresh_grant rt cfg "rt1" client drawn_again 20000 refreshed ≡ (
          if ltb 20000 (1000 + 10 * 1000)
          then (err (Failure.app ErrorCode.invalid_refresh_token), refreshed)
          else (err (Failure.app ErrorCode.refresh_token_reuse), put_tokens dead refreshed)))
        × (count_where (active_of old.user_id) dead ≡ 0)
        × (get "d1" dead ≡ some (Tokens.revoked_row 20000 issued)))
refresh_replay_example =
    refresh_replay rt cfg "rt1" client drawn drawn_again 1000 20000 db refreshed pair
      same_text-Collates (one-Indexed (λ t. t.id) (λ t. t.token_hash) same_text token) (omega arith)
      refreshes

abbrev exchanged : Db
exchanged = (exchange_authorization_code rt cfg exchange_input drawn 1000 db_code).1

abbrev pair_with_id : TokenPair
pair_with_id = record pair { id_token = some "u1" }

exchanges :
    exchange_authorization_code rt cfg exchange_input drawn 1000 db_code
    ≡ (ok pair_with_id, exchanged)
unfolding exchange_authorization_code Codes.find_by_code_hash authx.Prelude.Map.find_value
    authx.Repo.Orgs.find_service_by_id get client_secret_ok Codes.consume authx.Auth.Exchange.mint
    authx.Auth.issue_tokens_for_service Users.find_by_id authx.Repo.Orgs.find_service_by_audience
    authx.Repo.Orgs.is_member Tokens.create first_error authx.Oidc.granted_oidc_scopes
    authx.Service.access_payload authx.Auth.Exchange.id_payload
exchanges = refl

exchange-ok_example :
    (p : Names rt cfg exchange_input db_code) × Redeems rt cfg exchange_input p.code p.service drawn
      1000 db_code pair_with_id exchanged
exchange-ok_example =
    exchange-ok rt cfg exchange_input drawn 1000 db_code exchanged pair_with_id exchanges

-- The same code, without its verifier and its secret.
abbrev stolen : ExchangeInput
stolen = record exchange_input { code_verifier = ""; client_secret = none }

exchange_replay_example :
    (p : Names rt cfg exchange_input db_code) × (issued : RefreshToken) × (get "d1" exchanged.tokens
      ≡ some issued)
    × (issued.user_id ≡ p.code.user_id)
    × (let dead = Tokens.revoke_all_for_user p.code.user_id 2000 exchanged.tokens in
        (exchange_authorization_code rt cfg stolen drawn_again 2000 exchanged
          ≡ (err (Failure.app ErrorCode.invalid_grant), put_tokens dead exchanged))
        × (count_where (active_of p.code.user_id) dead ≡ 0)
        × (get "d1" dead ≡ some (Tokens.revoked_row 2000 issued)))
exchange_replay_example =
    exchange_replay rt cfg exchange_input stolen drawn drawn_again 1000 2000 db_code exchanged
      pair_with_id same_text-Collates
      (one-Indexed (λ c. c.id) (λ c. c.code_hash) same_text code_row) refl refl exchanges

exchange_refused_example :
    (e : Failure) × (exchange_authorization_code rt cfg stolen drawn 1000 db_code
      ≡ (err e, db_code))
unfolding client_secret_ok authx.Repo.Codes.find_by_code_hash authx.Prelude.Map.find_value
    authx.Repo.Orgs.find_service_by_id get
exchange_refused_example =
    exchange_refused rt cfg stolen drawn 1000 db_code
      (record { code = code_row; service = service; found = refl; owner = refl; client = refl })
      refl refl

lockout_refuses_example :
    (authenticate_password rt cfg
      (some ann)
      "pw"
      300
      (attempts rt cfg ann (("a", 100) ∷ ("b", 150) ∷ ("c", 200) ∷ []) db)).0
    ≡ err (Failure.app ErrorCode.invalid_credentials)
unfolding get
lockout_refuses_example =
    lockout_refuses rt cfg ann "pw" (("a", 100) ∷ ("b", 150) ∷ []) ("c", 200) "pw" 300 db refl refl
      refl refl (refl, (refl, tt)) refl

abbrev granted_db : Db
granted_db = (password_grant rt cfg true "ann@x" "pw" "aud" drawn 1000 db).1

grants : password_grant rt cfg true "ann@x" "pw" "aud" drawn 1000 db ≡ (ok pair, granted_db)
unfolding password_grant authenticate_password Users.find_by_email authx.Prelude.Map.find_value
    Lockout.is_locked get Mfa.is_enabled Totp.find authx.Auth.issue_tokens_for_service
    Users.find_by_id authx.Repo.Orgs.find_service_by_audience authx.Repo.Orgs.is_member
    Tokens.create first_error authx.Service.access_payload
grants = refl

password_grant-ok_example :
    (cfg.allow_password_grant ≡ true)
    × ((user : User) × Proves rt cfg
          (Users.find_by_email rt.same "ann@x" db.users)
          "pw"
          1000
          db
          user
        × (Mfa.row_enabled (Totp.find user.id db.totps) ≡ false)
        × Issues rt cfg user.id "aud" none none drawn 1000
            (put_failures (Lockout.clear user.id (Lockout.is_locked user.id 1000 db.failures).1) db)
            pair
            granted_db)
password_grant-ok_example =
    password_grant-ok rt cfg true "ann@x" "pw" "aud" drawn 1000 db granted_db pair grants
