-- ===== src/Hosted/Replies.antt =====
-- What each handler of the hosted sign-in replies.
use authx.Prelude.{
  ℕ, String, Bool, true, false, Option, none, some, ◌≡◌, refl, List, [], ◌∷◌, ◌++◌, not,
  if◌then◌else◌,
}
use authx.Errors.{ErrorCode, Failure, Result, ok, err}
use authx.Repo.Orgs.{AppService}
use authx.Service.{attempt_or, Config, Runtime, Db, M, ◌>>=◌, pure, throw_if}
use authx.Auth.{Drawn, LoginResult}
use authx.Auth.Exchange.{issue_authorization_code}
use authx.Auth.Login.{NewIds, complete_mfa_login, login_with_google}
use authx.Webauthn.{Package, Settings}
use authx.Hosted.{
  AuthorizeQuery, LoginMethod, Browser, Cookie, Reply, Response, render_login, send_code,
  code_response, offer_response, offers_passkey, finish_hosted_login, code_request,
}
use authx.Hosted.Flow.{
  Challenger, Draws, session_reply, code_reply, google_reply, CodeForm, Profile, after_login,
  login_failed, code_failed, google_failed,
}
use authx.Hosted.Passkey.{passkey_failed}

-- A reply that takes a code to a client takes it to the address of the request.
abbrev pub HomeReply : AuthorizeQuery → Reply → Type 0
HomeReply q (Reply.to_client uri issued state) = (uri ≡ q.redirect_uri) × (state ≡ q.state)
HomeReply q _ = Unit

abbrev pub Home : AuthorizeQuery → Result Response → Type 0
Home q (err e) = Unit
Home q (ok r) = HomeReply q r.reply

-- A call whose error ends it, and a call whose error is handled.
pub bind-rule :
    {A : Type 0} (P : Result Response → Type 0) (m : M A) (k : A → M Response) (db : Db)
    → ((e : Failure) → P (err e))
    → ((a : A) (db' : Db) → m db ≡ (ok a, db') → P (k a db').0)
    → P ((m >>= k) db).0
bind-rule {A} P m k db bad good = go (m db) refl
  where
    go :
        (x : Result A × Db)
        → m db ≡ x
        → P (elim x.0 as (λ r. Result Response × Db) [ ok a ↦ k a x.1 | err e ↦ (err e, x.1) ]).0
    go (ok a, db') e = good a db' e
    go (err x, db') e = bad x

pub guard-rule :
    (P : Result Response → Type 0) (c : Bool) (x : ErrorCode) (k : Unit {0} → M Response) (db : Db)
    → ((e : Failure) → P (err e))
    → P (k tt db).0
    → P ((throw_if c x >>= k) db).0
guard-rule P true x k db bad good = bad (Failure.app x)
guard-rule P false x k db bad good = good

pub attempt-rule :
    {A : Type 0} (P : Result Response → Type 0) (m : M A) (h : Failure → M Response)
    (k : A → M Response) (db : Db)
    → ((e : Failure) (db' : Db) → P (h e db').0)
    → ((a : A) (db' : Db) → P (k a db').0)
    → P (attempt_or m h k db).0
attempt-rule {A} P m h k db bad good = go (m db)
  where
    go :
        (x : Result A × Db)
        → P (elim x.0 as (λ r. Result Response × Db) [ ok a ↦ k a x.1 | err e ↦ h e x.1 ]).0
    go (ok a, db') = good a db'
    go (err e, db') = bad e db'

module _ (rt : Runtime) (cfg : Config) (web : Settings) (pkg : Package) (mfa : Challenger)
    (parses : String → Bool) where
  pub if-Home :
      (q : AuthorizeQuery) (c : Bool) (x y : M Response) (db : Db)
      → Home q (x db).0
      → Home q (y db).0
      → Home q ((if c then x else y) db).0
  if-Home q true x y db h k = h
  if-Home q false x y db h k = k

  pub send_code-Home :
      (q : AuthorizeQuery) (service : AppService) (user_id : String) (auth_time : ℕ)
      (cookies : List Cookie) (d : Drawn) (now : ℕ) (db : Db)
      → Home q (send_code rt cfg web q service user_id auth_time cookies d now db).0
  unfolding send_code
  send_code-Home q service user_id auth_time cookies d now db =
      bind-rule (Home q)
        (issue_authorization_code rt cfg user_id service (code_request rt cfg web q auth_time) d
          now)
        (λ t. pure (code_response rt cfg web q cookies t)) db (λ e. tt) (λ t db' e. (refl, refl))

  pub finish-Home :
      (b : Browser) (q : AuthorizeQuery) (service : AppService) (s : String × String)
      (method : LoginMethod) (cookies : List Cookie) (d : Drawn) (now : ℕ) (db : Db)
      → Home q (finish_hosted_login rt cfg web pkg b q service s method cookies d now db).0
  unfolding finish_hosted_login
  finish-Home b q service (token, user_id) method cookies d now db =
      let sends =
        send_code rt cfg web q service user_id now (cookies ++ Cookie.session token ∷ []) d now in
      bind-rule (Home q) (offers_passkey rt cfg web pkg b q method user_id)
        (λ offered. if offered then pure (offer_response rt cfg web b q cookies token) else sends)
        db (λ e. tt)
        (λ offered db' e.
          if-Home q offered (pure (offer_response rt cfg web b q cookies token)) sends db' tt
            (send_code-Home q service user_id now (cookies ++ Cookie.session token ∷ []) d now db'))

  pub after_login-Home :
      (b : Browser) (q : AuthorizeQuery) (service : AppService) (method : LoginMethod)
      (cookies : List Cookie) (d : Drawn) (now : ℕ) (r : LoginResult) (db : Db)
      → Home q (after_login rt cfg web pkg mfa b q service method cookies d now r db).0
  after_login-Home b q service method cookies d now (LoginResult.mfa user_id) db = tt
  after_login-Home b q service method cookies d now (LoginResult.session token user_id) db =
      finish-Home b q service (token, user_id) method cookies d now db

  pub login_failed-Home :
      (b : Browser) (q : AuthorizeQuery) (e : Failure) (db : Db)
      → Home q (login_failed rt cfg web pkg mfa b q e db).0
  unfolding render_login
  login_failed-Home b q (Failure.duplicate_key table index value) db = tt
  login_failed-Home b q (Failure.app ErrorCode.email_not_verified) db = tt
  login_failed-Home b q (Failure.app c) db = tt

  pub code_failed-Home :
      (b : Browser) (q : AuthorizeQuery) (e : Failure) (db : Db)
      → Home q (code_failed rt cfg web pkg mfa b q e db).0
  unfolding render_login
  code_failed-Home b q (Failure.duplicate_key table index value) db = tt
  code_failed-Home b q (Failure.app ErrorCode.invalid_grant) db = tt
  code_failed-Home b q (Failure.app c) db = tt

  pub google_failed-Home :
      (b : Browser) (q : AuthorizeQuery) (e : Failure) (db : Db)
      → Home q (google_failed rt cfg web pkg mfa b q e db).0
  unfolding render_login
  google_failed-Home b q (Failure.app c) db = tt
  google_failed-Home b q (Failure.duplicate_key table index value) db = tt

  pub passkey_failed-Home :
      (b : Browser) (q : AuthorizeQuery) (e : Failure) (db : Db)
      → Home q (passkey_failed rt cfg web pkg mfa parses b q e db).0
  unfolding render_login
  passkey_failed-Home b q (Failure.duplicate_key table index value) db = tt
  passkey_failed-Home b q (Failure.app ErrorCode.email_not_verified) db =
      if-Home q (not b.html) _ _ db tt tt
  passkey_failed-Home b q (Failure.app c) db = if-Home q (not b.html) _ _ db tt tt

  pub session_reply-Home :
      (b : Browser) (q : AuthorizeQuery) (d : Drawn) (now : ℕ) (service : AppService)
      (s : Option (String × ℕ)) (db : Db)
      → Home q (session_reply rt cfg web pkg mfa b q d now service s db).0
  unfolding render_login
  session_reply-Home b q d now service none db = tt
  session_reply-Home b q d now service (some (user_id, auth_time)) db =
      send_code-Home q service user_id auth_time [] d now db

  pub code_reply-Home :
      (b : Browser) (f : CodeForm) (d : Draws) (now : ℕ) (service : AppService)
      (passed : Option String) (db : Db)
      → Home f.query (code_reply rt cfg web pkg mfa b f d now service passed db).0
  unfolding render_login
  code_reply-Home b f d now service none db = tt
  code_reply-Home b f d now service (some user_id) db =
      attempt-rule (Home f.query) (complete_mfa_login rt cfg user_id f.code d.session now)
        (code_failed rt cfg web pkg mfa b f.query)
        (λ s.
          finish_hosted_login rt cfg web pkg b f.query service s LoginMethod.totp
            (Cookie.delete_mfa ∷ []) d.code now)
        db (code_failed-Home b f.query)
        (λ s. finish-Home b f.query service s LoginMethod.totp (Cookie.delete_mfa ∷ []) d.code now)

  pub google_reply-Home :
      (b : Browser) (p : Profile) (ids : NewIds) (d : Draws) (now : ℕ) (q : AuthorizeQuery)
      (service : AppService) (who : Option (String × String)) (db : Db)
      → Home q (google_reply rt cfg web pkg mfa b p ids d now q service who db).0
  unfolding render_login
  google_reply-Home b p ids d now q service none db = tt
  google_reply-Home b p ids d now q service (some (id, email)) db =
      attempt-rule (Home q)
        (login_with_google rt cfg
          (record { provider_account_id = id; email = email; email_verified = p.verified_email })
          ids d.session now)
        (google_failed rt cfg web pkg mfa b q)
        (after_login rt cfg web pkg mfa b q service LoginMethod.google (Cookie.delete_google ∷ [])
          d.code now)
        db (google_failed-Home b q)
        (after_login-Home b q service LoginMethod.google (Cookie.delete_google ∷ []) d.code now)
