-- ===== src/Auth/Issue.antt =====
-- What it takes for the issuing of tokens in modules/auth/auth.service.ts to succeed, and what it
-- writes.
use authx.Prelude.{ℕ, String, true, false, Option, some, ◌≡◌, inl, inr, arith, Option-cases}
use authx.Errors.{ok, Result-cases}
use authx.Repo.Users.{User}
use authx.Repo.Users
use authx.Repo.Orgs.{AppService}
use authx.Repo.Orgs
use authx.Repo.Rbac
use authx.Repo.Tokens
use authx.Service.{Config, Runtime, Db, access_payload}
use authx.Service.Tables.{put_tokens}
use authx.Auth.{
  TokenPair, Drawn, issue_tokens_for_service, email_refused, new_refresh, token_pair, user_access,
  require_verified_email,
}

module _ (rt : Runtime) (cfg : Config) where
  -- The state of affairs in which tokens are issued.
  pub record Issues (user_id audience : String) (oidc_scope : Option String) (auth_time : Option ℕ)
      (d : Drawn) (now : ℕ) (db : Db) (pair : TokenPair) (db' : Db) : Type 0 where
    pub user : User
    pub service : AppService
    pub table : Tokens.Table
    pub live : Users.find_by_id user_id db.users ≡ some user
    pub verified : email_refused rt cfg user.email user.email_verified ≡ false
    pub target : Orgs.find_service_by_audience rt.same audience db.orgs ≡ some service
    pub member : Orgs.is_member user_id service.org_id db.orgs ≡ true
    pub created :
        Tokens.create rt.same (new_refresh rt cfg d user_id service now) db.tokens ≡ ok table
    pub after : db' ≡ put_tokens table db
    pub issued :
        pair
        ≡ token_pair rt cfg
            (rt.sign_access (
              access_payload cfg now (
                user_access rt cfg user_id service
                  (Rbac.permissions_for_user_in_service user_id service.id db.rbac)
                  oidc_scope
                  auth_time)))
            d.token

  pub issue-Issues :
      (user_id audience : String) (oidc_scope : Option String) (auth_time : Option ℕ) (d : Drawn)
      (now : ℕ) (db db' : Db) (pair : TokenPair)
      → issue_tokens_for_service rt cfg user_id audience oidc_scope auth_time d now db
        ≡ (ok pair, db')
      → Issues user_id audience oidc_scope auth_time d now db pair db'
  unfolding issue_tokens_for_service require_verified_email
  issue-Issues user_id audience oidc_scope auth_time d now db db' pair r =
      elim (Option-cases (Users.find_by_id user_id db.users)) [
        | inl e ↦ absurd (ground arith)
        | inr (user, e) ↦
            elim (Option-cases (Orgs.find_service_by_audience rt.same audience db.orgs)) [
              | inl e' ↦ absurd (ground arith)
              | inr (service, e') ↦
                  elim (Result-cases
                    (Tokens.create rt.same (new_refresh rt cfg d user_id service now) db.tokens)) [
                      | inr (x, bad) ↦ absurd (ground arith)
                      | inl (table, made) ↦ record {
                        user = user;
                        service = service;
                        table = table;
                        live = e;
                        verified = ground arith;
                        target = e';
                        member = ground arith;
                        created = made;
                        after = ground arith;
                        issued = ground arith;
                      }
                    ]
            ]
      ]
