-- ===== src/Auth/Login/Factors.antt =====
-- The factors of a sign-in on the hosted pages: auth.service.ts `loginCreateSession`, `finishLogin`,
-- `completeMfaLogin`.
use authx.Prelude.{
  ℕ, String, Bool, true, false, ◌≡◌, ◌⊎◌, inl, inr, arith, Bool-cases, ◌+◌, ◌*◌, if◌then◌else◌,
  is_some,
}
use authx.Errors.{ErrorCode, Failure, ok, err, Result-cases}
use authx.Lockout
use authx.Mfa
use authx.Repo.Totp
use authx.Repo.Users.{User}
use authx.Repo.Users
use authx.Repo.Sessions
use authx.Service.{Config, Runtime, Db}
use authx.Service.Tables.{put_failures, put_sessions}
use authx.Auth.{
  LoginResult, Drawn, finish_login, create_session, email_refused, require_verified_email,
  subject_exists,
}
use authx.Auth.Grants.Password.{Proves, after_check, authenticate_password_answers}
use authx.Auth.Login.{login_create_session, complete_mfa_login}

module _ (rt : Runtime) (cfg : Config) where
  abbrev pub second_factor : String → Db → Bool
  second_factor user_id db = Mfa.row_enabled (Totp.find user_id db.totps)

  -- The row of a new session.
  abbrev pub new_session : String → Drawn → ℕ → Sessions.NewSession
  new_session user_id d now = record {
    id = d.id;
    user_id = user_id;
    token_hash = rt.hash_token d.token;
    expires_at = now + cfg.sso_session_ttl * 1000;
  }

  -- What the completion of a sign-in answers: where two-factor authentication is on, a demand for the
  -- code, with nothing written; else a session, and the failures forgotten.
  abbrev pub Finishes : String → Drawn → ℕ → Db → LoginResult → Db → Type 0
  Finishes user_id d now db r db' =
      ((second_factor user_id db ≡ true) × (r ≡ LoginResult.mfa user_id) × (db' ≡ db))
      ⊎ ((second_factor user_id db ≡ false)
          × (r ≡ LoginResult.session d.token user_id)
          × ((table : Sessions.Table) × (Sessions.create rt.same (new_session user_id d now) now
                  db.sessions
                ≡ ok table)
              × (db' ≡ put_sessions table (put_failures (Lockout.clear user_id db.failures) db))))

  pub finish_login-Finishes :
      (user_id : String) (d : Drawn) (now : ℕ) (db db' : Db) (r : LoginResult)
      → finish_login rt cfg user_id d now db ≡ (ok r, db')
      → Finishes user_id d now db r db'
  unfolding finish_login Mfa.is_enabled create_session
  finish_login-Finishes user_id d now db db' r h = elim (Bool-cases (second_factor user_id db)) [
    | inl on ↦ inl (on, ground arith, ground arith)
    | inr off ↦
        elim (Result-cases (Sessions.create rt.same (new_session user_id d now) now db.sessions)) [
          | inl (table, made) ↦ inr (off, ground arith, (table, made, ground arith))
          | inr (e, bad) ↦ absurd (ground arith)
        ]
  ]

  -- A sign-in with a password succeeds only where the password proves the account that the address
  -- names and the policy accepts its address. It then answers with a session, or, where two-factor
  -- authentication is on, with a demand for the code and opens no session.
  pub login_create_session-ok :
      (email password : String) (d : Drawn) (now : ℕ) (db db' : Db) (r : LoginResult)
      → login_create_session rt cfg email password d now db ≡ (ok r, db')
      → (user : User) × Proves rt cfg
          (Users.find_by_email rt.same email db.users)
          password
          now
          db
          user
        × (email_refused rt cfg user.email user.email_verified ≡ false)
        × Finishes user.id d now (after_check rt cfg user now db) r db'
  unfolding login_create_session require_verified_email
  login_create_session-ok email password d now db db' r h =
      elim (authenticate_password_answers rt cfg (Users.find_by_email rt.same email db.users)
        password now db) [
          | inl (user, p, e) ↦ (
            user,
            p,
            ground arith,
            finish_login-Finishes user.id d now (after_check rt cfg user now db) db' r
                (ground arith),
          )
          | inr e ↦ absurd (ground arith)
        ]

  -- The database in which the second factor is checked: the guess is counted already.
  abbrev pub counted : String → ℕ → Db → Db
  counted user_id now db =
      put_failures
        (Lockout.record_failure cfg.login_throttle user_id now
          (Lockout.is_locked user_id now db.failures).1)
        db

  -- The second factor. Of an account that is there, a call is refused while the account is locked, and
  -- then the code is not looked at. Else the guess counts as a failure before the code is looked at; a
  -- wrong code is refused, and only a right one opens a session and forgets the failures.
  pub complete_mfa_login-answers :
      (user_id code : String) (d : Drawn) (now : ℕ) (db : Db)
      → is_some (Users.find_by_id user_id db.users) ≡ true
      → let (locked, lapsed) = Lockout.is_locked user_id now db.failures in
        let (checked, db') = Mfa.verify rt cfg user_id code now (counted user_id now db) in
        complete_mfa_login rt cfg user_id code d now db ≡ (
          if locked
          then (err (Failure.app ErrorCode.invalid_credentials), put_failures lapsed db)
          else elim checked [
            | err e ↦ (err e, db')
            | ok good ↦
                if good
                then create_session rt cfg user_id d now
                    (put_failures (Lockout.clear user_id db'.failures) db')
                else (err (Failure.app ErrorCode.invalid_credentials), db')
          ])
  unfolding complete_mfa_login subject_exists
  complete_mfa_login-answers user_id code d now db live =
      elim (Bool-cases (Lockout.is_locked user_id now db.failures).0) [
        | inl l ↦ ground arith
        | inr l ↦ ground arith
      ]
