-- ===== src/Auth/Grants/Refresh.antt =====
-- The refresh token grant of auth.service.ts `refreshGrant`: what it demands, and what a replayed
-- token leads to.
use authx.Prelude.{
  ℕ, String, Bool, true, false, Option, none, some, ◌≡◌, ◌⊎◌, inl, inr, arith, Option-cases,
  Bool-cases, not, ◌&&◌, ◌||◌, if◌then◌else◌, is_some, ◌<◌,
}
use authx.Errors.{ErrorCode, Failure, ok, err, Result-cases}
use authx.Repo.Users.{User}
use authx.Repo.Users
use authx.Repo.Orgs.{AppService}
use authx.Repo.Orgs
use authx.Repo.Rbac
use authx.Repo.Tokens.{RefreshToken}
use authx.Repo.Tokens
use authx.Service.{Config, Runtime, Db, access_payload}
use authx.Service.Tables.{put_tokens}
use authx.Auth.{
  TokenPair, Client, Drawn, authenticate_token_client, email_refused, new_refresh, token_pair,
  user_access, require_verified_email, just_rotated, other_id, is_public, client_secret_ok,
}
use authx.Auth.Grants.{refresh_grant, refuse_revoked, rotate_active, lost_rotation}

module _ (rt : Runtime) (cfg : Config) where
  abbrev pub presented : String → Db → Option RefreshToken
  presented token db = Tokens.find_by_hash rt.same (rt.hash_token token) db.tokens

  -- A client authenticates where it names no other client, and a confidential one names itself and
  -- presents a secret that hashes to the stored one.
  abbrev pub authentic : AppService → Client → Bool
  authentic service client =
      not (other_id rt cfg client.id service.client_id)
      && (is_public service || is_some client.id)
      && client_secret_ok rt cfg service client.secret

  pub client-cases :
      (service : AppService) (client : Client) (code : ErrorCode) (db : Db)
      → ((authentic service client ≡ true)
          × (authenticate_token_client rt cfg service client code db ≡ (ok tt, db)))
        ⊎ ((authentic service client ≡ false)
            × ((e : Failure) × (authenticate_token_client rt cfg service client code db
                  ≡ (err e, db))))
  unfolding authenticate_token_client
  client-cases service client code db =
      elim (Bool-cases (other_id rt cfg client.id service.client_id)) [
        | inl o ↦ inr (ground arith, (Failure.app code, ground arith))
        | inr o ↦ elim (Bool-cases (is_public service || is_some client.id)) [
          | inr p ↦ inr (ground arith, (Failure.app ErrorCode.invalid_client, ground arith))
          | inl p ↦ elim (Bool-cases (client_secret_ok rt cfg service client.secret)) [
            | inr q ↦ inr (ground arith, (Failure.app ErrorCode.invalid_client, ground arith))
            | inl q ↦ inl (ground arith, ground arith)
          ]
        ]
      ]

  -- The token is there, and the client proves that it is the one the token was issued to.
  pub record Presents (token : String) (client : Client) (db : Db) : Type 0 where
    pub old : RefreshToken
    pub service : AppService
    pub found : presented token db ≡ some old
    pub owner : Orgs.find_service_by_id old.app_service_id db.orgs ≡ some service
    pub client_ok : authentic service client ≡ true

  -- What a refresh demands besides, and what it writes and answers.
  pub record Refreshes (old : RefreshToken) (service : AppService) (d : Drawn) (now : ℕ) (db : Db)
      (pair : TokenPair) (db' : Db) : Type 0 where
    pub subject : User
    pub table : Tokens.Table
    pub active : old.revoked_at ≡ none
    pub unexpired : now < old.expires_at
    pub live : Users.find_by_id old.user_id db.users ≡ some subject
    pub verified : email_refused rt cfg subject.email subject.email_verified ≡ false
    pub member : Orgs.is_member old.user_id service.org_id db.orgs ≡ true
    pub rotated :
        Tokens.rotate rt.same old.id (new_refresh rt cfg d old.user_id service now) now db.tokens
        ≡ ok (true, table)
    pub after : db' ≡ put_tokens table db
    pub issued :
        pair
        ≡ token_pair rt cfg
            (rt.sign_access (
              access_payload cfg now (
                user_access rt cfg old.user_id service
                  (Rbac.permissions_for_user_in_service old.user_id service.id db.rbac)
                  none
                  none)))
            d.token

  refresh_cases :
      (token : String) (client : Client) (d : Drawn) (now : ℕ) (db : Db)
      → ((p : Presents token client db) × (refresh_grant rt cfg token client d now db
            ≡ (if is_some p.old.revoked_at
                  then refuse_revoked rt cfg p.old now
                  else rotate_active rt cfg (rt.hash_token token) p.old p.service d now)
                db))
        ⊎ ((e : Failure) × (refresh_grant rt cfg token client d now db ≡ (err e, db)))
  unfolding refresh_grant
  refresh_cases token client d now db = elim (Option-cases (presented token db)) [
    | inl e ↦ inr (Failure.app ErrorCode.invalid_refresh_token, ground arith)
    | inr (old, e) ↦ elim (Option-cases (Orgs.find_service_by_id old.app_service_id db.orgs)) [
      | inl e' ↦ inr (Failure.app ErrorCode.invalid_refresh_token, ground arith)
      | inr (service, e') ↦ elim (client-cases service client ErrorCode.invalid_grant db) [
        | inl (good, a) ↦ inl (
          record { old = old; service = service; found = e; owner = e'; client_ok = good },
          ground arith,
        )
        | inr (bad, (x, a)) ↦ inr (x, ground arith)
      ]
    ]
  ]

  rotate_active-Refreshes :
      (hash : String) (old : RefreshToken) (service : AppService) (d : Drawn) (now : ℕ)
      (db db' : Db) (pair : TokenPair)
      → old.revoked_at ≡ none
      → rotate_active rt cfg hash old service d now db ≡ (ok pair, db')
      → Refreshes old service d now db pair db'
  unfolding rotate_active require_verified_email lost_rotation
  rotate_active-Refreshes hash old service d now db db' pair a r =
      elim (Option-cases (Users.find_by_id old.user_id db.users)) [
        | inl e ↦ absurd (ground arith)
        | inr (subject, e) ↦
            elim (Result-cases (
              Tokens.rotate rt.same old.id (new_refresh rt cfg d old.user_id service now) now
                db.tokens)) [
                  | inr (x, bad) ↦ absurd (ground arith)
                  | inl ((false, table), lost) ↦ absurd (ground arith)
                  | inl ((true, table), won) ↦ record {
                    subject = subject;
                    table = table;
                    active = a;
                    unexpired = ground arith;
                    live = e;
                    verified = ground arith;
                    member = ground arith;
                    rotated = won;
                    after = ground arith;
                    issued = ground arith;
                  }
                ]
      ]

  -- A refresh succeeds only for a token that is stored, active and unexpired, presented by the client
  -- it was issued to, of an account that is there, whose address the policy accepts and that is still
  -- a member of the organization. It has then won the rotation, which is all that it writes, and the
  -- access token has the permissions that the account has now.
  pub refresh_grant-ok :
      (token : String) (client : Client) (d : Drawn) (now : ℕ) (db db' : Db) (pair : TokenPair)
      → refresh_grant rt cfg token client d now db ≡ (ok pair, db')
      → (p : Presents token client db) × Refreshes p.old p.service d now db pair db'
  unfolding refuse_revoked
  refresh_grant-ok token client d now db db' pair r = elim (refresh_cases token client d now db) [
    | inr (e, x) ↦ absurd (ground arith)
    | inl (p, x) ↦ elim (Option-cases p.old.revoked_at) [
      | inl a ↦ (
        p,
        rotate_active-Refreshes (rt.hash_token token) p.old p.service d now db db' pair a
            (ground arith),
      )
      | inr (at, a) ↦ absurd (ground arith)
    ]
  ]

  -- What a revoked token leads to, its client having authenticated: inside the grace period that
  -- follows a rotation, a refusal that writes nothing; else a refusal that revokes every token of the
  -- account. An unknown token, or a client that does not authenticate, writes nothing.
  pub refresh_grant-revoked :
      (token : String) (client : Client) (d : Drawn) (now : ℕ) (db : Db)
      (p : Presents token client db)
      → is_some p.old.revoked_at ≡ true
      → refresh_grant rt cfg token client d now db ≡ (
          if just_rotated rt cfg p.old now
          then (err (Failure.app ErrorCode.invalid_refresh_token), db)
          else (
            err (Failure.app ErrorCode.refresh_token_reuse),
            put_tokens (Tokens.revoke_all_for_user p.old.user_id now db.tokens) db,
          ))
  unfolding refresh_grant refuse_revoked
  refresh_grant-revoked token client d now db p dead =
      elim (client-cases p.service client ErrorCode.invalid_grant db) [
        | inr (bad, x) ↦ absurd (ground arith)
        | inl (good, a) ↦ elim (Bool-cases (just_rotated rt cfg p.old now)) [
          | inl g ↦ ground arith
          | inr g ↦ ground arith
        ]
      ]
