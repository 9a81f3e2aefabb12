-- ===== src/TokenEndpoint/Answers.antt =====
-- Every error of a grant has its answer: what the token endpoints pass on to `app.onError`.
use authx.Prelude.{
  ℕ, String, Bool, true, false, Option, none, some, ◌≡◌, refl, inl, inr, arith, is_some,
  Option-cases, Bool-cases, ◌==◌, leb,
}
use authx.Errors.{ErrorCode, Failure, Result, ok, err, Result-cases}
use authx.Mfa
use authx.Repo.Tokens
use authx.Repo.Orgs
use authx.Repo.Orgs.{AppService}
use authx.Repo.Tokens.{RefreshToken, NewRefreshToken}
use authx.Prelude.Map.{get}
use authx.Prelude.Map.Search.{first_error-all}
use authx.Repo.Users
use authx.Service.{Config, Runtime, Db}
use authx.Service.Tables.{put_tokens}
use authx.Auth.{
  Client, Drawn, authenticate_password, authenticate_user, authenticate_token_client,
  issue_tokens_for_service, email_refused, new_refresh,
}
use authx.Auth.Grants.{
  password_grant, refresh_grant, refuse_revoked, rotate_active, lost_rotation, revoke, revoke_found,
  authenticate_owner, client_credentials_grant,
}
use authx.Auth.Exchange.{
  ExchangeInput, exchange_authorization_code, redeem, mint, with_id_token, check_code,
  refuse_replay,
}
use authx.Repo.Codes.{AuthCode}
use authx.Repo.Codes
use authx.Service.Laws.{call-cases}
use authx.TokenEndpoint.{OauthError, oauth_errors}

-- The result is no error of the catalogue, or one that the endpoints answer with one of the codes.
abbrev pub answered_failure : (OauthError → Bool) → Failure → Bool
answered_failure codes (Failure.app c) = elim (oauth_errors c) [ none ↦ false | some e ↦ codes e ]
answered_failure codes (Failure.duplicate_key table index value) = true

abbrev pub answered : (OauthError → Bool) → {A : Type 0} → Result A → Bool
answered codes (ok a) = true
answered codes (err e) = answered_failure codes e

-- The codes of a request that cannot be read.
abbrev pub reading_codes : OauthError → Bool
reading_codes OauthError.invalid_request = true
reading_codes OauthError.invalid_client = true
reading_codes OauthError.unsupported_grant_type = true
reading_codes _ = false

abbrev pub password_codes : OauthError → Bool
password_codes OauthError.unsupported_grant_type = true
password_codes OauthError.invalid_grant = true
password_codes OauthError.invalid_target = true
password_codes OauthError.mfa_required = true
password_codes _ = false

abbrev pub refresh_codes : OauthError → Bool
refresh_codes OauthError.invalid_client = true
refresh_codes OauthError.invalid_grant = true
refresh_codes _ = false

abbrev pub exchange_codes : OauthError → Bool
exchange_codes OauthError.invalid_client = true
exchange_codes OauthError.invalid_grant = true
exchange_codes OauthError.invalid_target = true
exchange_codes _ = false

-- The codes of a client's own request, and of a revocation.
abbrev pub client_codes : OauthError → Bool
client_codes OauthError.invalid_client = true
client_codes OauthError.invalid_request = true
client_codes _ = false

clash-answered :
    (codes : OauthError → Bool) (same : String → String → Bool) (t : NewRefreshToken)
    (v : RefreshToken) (e : Failure)
    → Tokens.clash same t v ≡ some e
    → answered_failure codes e ≡ true
clash-answered codes same t v (Failure.duplicate_key table index value) h = refl
clash-answered codes same t v (Failure.app c) h = absurd (ground arith)

create-answered :
    (codes : OauthError → Bool) (same : String → String → Bool) (t : NewRefreshToken) (e : Failure)
    (m : Tokens.Table)
    → Tokens.create same t m ≡ err e
    → answered_failure codes e ≡ true
unfolding Tokens.create
create-answered codes same t e m h =
    first_error-all (Tokens.clash same t) (answered_failure codes) e m (clash-answered codes same t)
      (ground arith)

rotate-answered :
    (codes : OauthError → Bool) (same : String → String → Bool) (old : String) (t : NewRefreshToken)
    (now : ℕ) (e : Failure) (m : Tokens.Table)
    → Tokens.rotate same old t now m ≡ err e
    → answered_failure codes e ≡ true
unfolding Tokens.rotate Tokens.rotate_row
rotate-answered codes same old t now e m h = elim (Option-cases (get old m)) [
  | inl gone ↦ absurd (ground arith)
  | inr (r, at) ↦ elim (Bool-cases (is_some r.revoked_at)) [
    | inl dead ↦ absurd (ground arith)
    | inr live ↦
        first_error-all (Tokens.clash same t) (answered_failure codes) e m
          (clash-answered codes same t) (ground arith)
  ]
]

module _ (rt : Runtime) (cfg : Config) where
  issue-answered :
      (codes : OauthError → Bool) (user_id audience : String) (oidc : Option String)
      (auth_time : Option ℕ) (d : Drawn) (now : ℕ) (db : Db)
      → codes OauthError.invalid_grant ≡ true
      → codes OauthError.invalid_target ≡ true
      → answered codes (issue_tokens_for_service rt cfg user_id audience oidc auth_time d now db).0
        ≡ true
  unfolding issue_tokens_for_service oauth_errors
  issue-answered codes user_id audience oidc auth_time d now db hg ht =
      grind (arith, create-answered)

  pub password_grant-answered :
      (at : Bool) (u p a : String) (d : Drawn) (now : ℕ) (db : Db)
      → answered password_codes (password_grant rt cfg at u p a d now db).0 ≡ true
  unfolding password_grant oauth_errors authenticate_password authenticate_user Mfa.is_enabled
  password_grant-answered at u p a d now db = grind (arith, issue-answered)

  pub client_credentials-answered :
      (i s a : String) (now : ℕ) (db : Db)
      → answered client_codes (client_credentials_grant rt cfg i s a now db).0 ≡ true
  unfolding client_credentials_grant oauth_errors
  client_credentials-answered i s a now db = ground arith

  authenticate_client-answered :
      (codes : OauthError → Bool) (v : AppService) (c : Client) (e : ErrorCode) (db : Db)
      → codes OauthError.invalid_client ≡ true
      → answered_failure codes (Failure.app e) ≡ true
      → answered codes (authenticate_token_client rt cfg v c e db).0 ≡ true
  unfolding authenticate_token_client oauth_errors
  authenticate_client-answered codes v c e db hc h = ground arith

  pub revoke-answered :
      (t : String) (c : Client) (now : ℕ) (db : Db)
      → answered client_codes (revoke rt cfg t c now db).0 ≡ true
  unfolding revoke revoke_found authenticate_owner oauth_errors
  revoke-answered t c now db = grind (arith, authenticate_client-answered)

  refuse_revoked-answered :
      (t : RefreshToken) (now : ℕ) (db : Db)
      → answered refresh_codes (refuse_revoked rt cfg t now db).0 ≡ true
  unfolding refuse_revoked oauth_errors
  refuse_revoked-answered t now db = ground arith

  lost_rotation-answered :
      (hash : String) (t : RefreshToken) (now : ℕ) (db : Db)
      → answered refresh_codes (lost_rotation rt cfg hash t now db).0 ≡ true
  unfolding lost_rotation oauth_errors
  lost_rotation-answered hash t now db = ground arith

  rotate_active-answered :
      (hash : String) (t : RefreshToken) (v : AppService) (d : Drawn) (now : ℕ) (db : Db)
      → answered refresh_codes (rotate_active rt cfg hash t v d now db).0 ≡ true
  unfolding rotate_active authx.Auth.require_verified_email oauth_errors
  rotate_active-answered hash t v d now db =
      let next = new_refresh rt cfg d t.user_id v now in
      elim (Bool-cases (leb t.expires_at now)) [
        | inl late ↦ ground arith
        | inr early ↦ elim (Option-cases (Users.find_by_id t.user_id db.users)) [
          | inl gone ↦ ground arith
          | inr (u, subject) ↦ elim (Bool-cases (email_refused rt cfg u.email u.email_verified)) [
            | inl refused ↦ ground arith
            | inr accepted ↦ elim (Bool-cases (Orgs.is_member t.user_id v.org_id db.orgs)) [
              | inr outside ↦ ground arith
              | inl member ↦ elim (Result-cases (Tokens.rotate rt.same t.id next now db.tokens)) [
                | inr (e, bad) ↦
                    let fine =
                      rotate-answered refresh_codes rt.same t.id next now e db.tokens bad in
                    ground arith
                | inl ((true, tokens), won) ↦ ground arith
                | inl ((false, tokens), lost) ↦
                    ground (arith, lost_rotation-answered hash t now (put_tokens tokens db))
              ]
            ]
          ]
        ]
      ]

  pub refresh_grant-answered :
      (t : String) (c : Client) (d : Drawn) (now : ℕ) (db : Db)
      → answered refresh_codes (refresh_grant rt cfg t c d now db).0 ≡ true
  unfolding refresh_grant oauth_errors
  refresh_grant-answered t c d now db =
      elim (Option-cases (Tokens.find_by_hash rt.same (rt.hash_token t) db.tokens)) [
        | inl none_such ↦ ground arith
        | inr (r, found) ↦ elim (Option-cases (Orgs.find_service_by_id r.app_service_id db.orgs)) [
          | inl gone ↦ ground arith
          | inr (v, owner) ↦
              let client =
                authenticate_client-answered refresh_codes v c ErrorCode.invalid_grant db refl
                  refl in
              elim (call-cases (authenticate_token_client rt cfg v c ErrorCode.invalid_grant db)) [
                | inr (e, db', bad) ↦ ground arith
                | inl (u, db', good) ↦ elim (Bool-cases (is_some r.revoked_at)) [
                  | inl dead ↦ ground (arith, refuse_revoked-answered r now db')
                  | inr live ↦
                      ground (arith, rotate_active-answered (rt.hash_token t) r v d now db')
                ]
              ]
        ]
      ]

  mint-answered :
      (input : ExchangeInput) (c : AuthCode) (v : AppService) (d : Drawn) (now : ℕ) (db : Db)
      → answered exchange_codes (mint rt cfg input c v d now db).0 ≡ true
  unfolding mint with_id_token
  mint-answered input c v d now db = grind (arith, issue-answered)

  redeem-answered :
      (input : ExchangeInput) (c : AuthCode) (v : AppService) (d : Drawn) (now : ℕ) (db : Db)
      → answered exchange_codes (redeem rt cfg input c v d now db).0 ≡ true
  unfolding redeem check_code refuse_replay oauth_errors
  redeem-answered input c v d now db = grind (arith, mint-answered)

  pub exchange-answered :
      (input : ExchangeInput) (d : Drawn) (now : ℕ) (db : Db)
      → answered exchange_codes (exchange_authorization_code rt cfg input d now db).0 ≡ true
  unfolding exchange_authorization_code oauth_errors
  exchange-answered input d now db =
      elim (Option-cases (Codes.find_by_code_hash rt.same (rt.hash_token input.code) db.codes)) [
        | inl none_such ↦ ground arith
        | inr (c, found) ↦ elim (Option-cases (Orgs.find_service_by_id c.app_service_id db.orgs)) [
          | inl gone ↦ ground arith
          | inr (v, owner) ↦ elim (Bool-cases (v.client_id == input.client_id)) [
            | inl own ↦ ground (arith, redeem-answered input c v d now db)
            | inr foreign ↦ ground arith
          ]
        ]
      ]
