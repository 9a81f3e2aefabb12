-- ===== src/Auth/Grants/Password.antt =====
-- Who a password signs in: auth.service.ts `authenticatePassword` and `passwordGrant`, with the
-- lockout of lib/login-attempts.ts.
use authx.Prelude.{
  ℕ, String, Bool, true, false, Option, none, some, ◌≡◌, refl, ◌⊎◌, inl, inr, arith, Option-cases,
  Bool-cases, not, ◌||◌, if◌then◌else◌, List, [], ◌∷◌, ◌+◌, ◌<◌, ltb, length, All, map, ◌++◌,
  length-map,
}
use authx.Prelude.Map.{get}
use authx.Prelude.Text.{truthy}
use authx.Errors.{ErrorCode, Failure, ok, err}
use authx.Lockout
use authx.Lockout.Laws
use authx.Mfa
use authx.Repo.Totp
use authx.Repo.Users.{User}
use authx.Repo.Users
use authx.Service.{Config, Runtime, Db}
use authx.Service.Tables.{put_failures}
use authx.Auth.{TokenPair, Drawn, authenticate_password, password_proves}
use authx.Auth.Issue.{Issues, issue-Issues}
use authx.Auth.Grants.{password_grant}

module _ (rt : Runtime) (cfg : Config) where
  -- The account is there and unlocked, and the password verifies against the hash stored for it.
  pub record Proves (found : Option User) (password : String) (now : ℕ) (db : Db) (user : User)
      : Type 0 where
    pub known : found ≡ some user
    pub unlocked : (Lockout.is_locked user.id now db.failures).0 ≡ false
    pub hash : String
    pub stored : user.password_hash ≡ some hash
    pub verified : rt.verify_password password hash ≡ true

  abbrev pub after_check : User → ℕ → Db → Db
  after_check user now db = put_failures (Lockout.is_locked user.id now db.failures).1 db

  pub password_proves-Proves :
      (user : User) (password : String) (now : ℕ) (db : Db)
      → password_proves rt cfg (Lockout.is_locked user.id now db.failures).0 user password ≡ true
      → Proves (some user) password now db user
  unfolding password_proves
  password_proves-Proves user password now db p = elim (Option-cases user.password_hash) [
    | inl e ↦ absurd (ground arith)
    | inr (hash, e) ↦ record {
      known = refl;
      unlocked = ground arith;
      hash = hash;
      stored = e;
      verified = elim (Bool-cases (Lockout.is_locked user.id now db.failures).0) [
        | inl l ↦ absurd (ground arith)
        | inr l ↦ ground arith
      ];
    }
  ]

  -- What a refused check leaves: a failure is counted, except for an account that is locked.
  abbrev pub refused : Option User → ℕ → Db → Db
  refused none now db = db
  refused (some user) now db =
      let (locked, m) = Lockout.is_locked user.id now db.failures in
      put_failures (if locked then m else Lockout.record_failure cfg.login_throttle user.id now m)
        db

  -- A password check either returns the account, where it proves it, with nothing written but that a
  -- lockout which is over is dropped; or it fails with invalid_credentials, whatever the reason (no
  -- such account, no password, a lockout, a wrong password), and writes at most the failure counts: it
  -- counts a failure of an account that is there and not locked.
  pub authenticate_password_answers :
      (found : Option User) (password : String) (now : ℕ) (db : Db)
      → ((user : User) × Proves found password now db user
          × (authenticate_password rt cfg found password now db
              ≡ (ok user, after_check user now db)))
        ⊎ (authenticate_password rt cfg found password now db
            ≡ (err (Failure.app ErrorCode.invalid_credentials), refused found now db))
  unfolding authenticate_password
  authenticate_password_answers none password now db = inr refl
  authenticate_password_answers (some user) password now db =
      elim (Bool-cases
        (password_proves rt cfg (Lockout.is_locked user.id now db.failures).0 user password)) [
          | inl p ↦ inl (user, password_proves-Proves user password now db p, ground arith)
          | inr p ↦ inr (elim (Bool-cases (Lockout.is_locked user.id now db.failures).0) [
            | inl l ↦ ground arith
            | inr l ↦ ground arith
          ])
        ]

  -- The password grant succeeds only where it is enabled, the password proves the account, two-factor
  -- authentication is off for it, and the account may have tokens for the audience; and what it
  -- writes is the new refresh token, and that the account's failures are forgotten.
  pub password_grant-ok :
      (has_at : Bool) (identifier password audience : String) (d : Drawn) (now : ℕ) (db db' : Db)
      (pair : TokenPair)
      → password_grant rt cfg has_at identifier password audience d now db ≡ (ok pair, db')
      → (cfg.allow_password_grant ≡ true)
        × ((user : User) × Proves
              (if has_at
                then Users.find_by_email rt.same identifier db.users
                else Users.find_by_username rt.same identifier db.users)
              password
              now
              db
              user
            × (Mfa.row_enabled (Totp.find user.id db.totps) ≡ false)
            × Issues rt cfg user.id audience none none d now
                (put_failures
                  (Lockout.clear user.id (Lockout.is_locked user.id now db.failures).1)
                  db)
                pair
                db')
  unfolding password_grant Mfa.is_enabled
  password_grant-ok has_at identifier password audience d now db db' pair r =
      elim (authenticate_password_answers
        (if has_at
          then Users.find_by_email rt.same identifier db.users
          else Users.find_by_username rt.same identifier db.users)
        password now db) [
          | inl (user, p, e) ↦ (
            ground arith,
            (
              user,
              p,
              ground arith,
              issue-Issues rt cfg user.id audience none none d now _ db' pair (ground arith),
            ),
          )
          | inr e ↦ absurd (ground arith)
        ]

-- Sign-ins of one account with the given passwords, one after the other, each at its time.
unfoldable pub attempts : Runtime → Config → User → List (String × ℕ) → Db → Db
attempts rt cfg user [] db = db
attempts rt cfg user (x ∷ xs) db =
    attempts rt cfg user xs (authenticate_password rt cfg (some user) x.0 x.1 db).1

module _ (rt : Runtime) (cfg : Config) (user : User) (hash : String) where
  abbrev pub Wrong : String × ℕ → Type 0
  Wrong x = rt.verify_password x.0 hash ≡ false

  attempt_fails :
      (n : ℕ) (x : String × ℕ) (db : Db)
      → user.password_hash ≡ some hash
      → Wrong x
      → Laws.Counting cfg.login_throttle user.id n db.failures
      → (authenticate_password rt cfg (some user) x.0 x.1 db).1
        ≡ put_failures (Lockout.record_failure cfg.login_throttle user.id x.1 db.failures) db
  unfolding authenticate_password password_proves
  attempt_fails n x db h w c =
      ground (arith, Laws.is_locked-Counting cfg.login_throttle user.id n x.1 db.failures c)

  attempts-fail_at :
      (n : ℕ) (xs : List (String × ℕ)) (db : Db)
      → user.password_hash ≡ some hash
      → All Wrong xs
      → n + length xs < cfg.login_throttle.max_failures
      → Laws.Counting cfg.login_throttle user.id n db.failures
      → attempts rt cfg user xs db
        ≡ put_failures (Laws.fail_at cfg.login_throttle user.id (map (λ x. x.1) xs) db.failures) db
  unfolding attempts Laws.fail_at
  attempts-fail_at n [] db h w l c = refl
  attempts-fail_at n (x ∷ xs) db h w l c = rw (attempt_fails n x db h w.0 c) (
      attempts-fail_at (n + 1) xs _ h w.1 (omega arith)
        (Laws.fail-Counting cfg.login_throttle user.id n x.1 db.failures (omega arith) c))

  attempts-append :
      (xs : List (String × ℕ)) (y : String × ℕ) (db : Db)
      → attempts rt cfg user (xs ++ y ∷ []) db
        ≡ (authenticate_password rt cfg (some user) y.0 y.1 (attempts rt cfg user xs db)).1
  unfolding attempts
  attempts-append [] y db = refl
  attempts-append (x ∷ xs) y db = attempts-append xs y _

  -- The failures that a run of wrong passwords up to the limit leaves.
  attempts-limit :
      (xs : List (String × ℕ)) (last : String × ℕ) (db : Db)
      → user.password_hash ≡ some hash
      → get user.id db.failures ≡ none
      → length xs + 1 ≡ cfg.login_throttle.max_failures
      → All Wrong xs
      → Wrong last
      → (attempts rt cfg user (xs ++ last ∷ []) db).failures
        ≡ Lockout.record_failure cfg.login_throttle user.id last.1
            (Laws.fail_at cfg.login_throttle user.id (map (λ x. x.1) xs) db.failures)
  attempts-limit xs last db h g l w w' =
      let e = attempts-fail_at 0 xs db h w (omega arith) (rw g) in
      let c =
        Laws.fail_at-Counting cfg.login_throttle user.id 0 (map (λ x. x.1) xs) db.failures
          (rw (length-map (λ x. x.1) xs) (omega arith)) (rw g) in
      rw (
        attempts-append xs last db,
        e,
        attempt_fails (0 + length (map (λ x. x.1) xs)) last
            (put_failures (Laws.fail_at cfg.login_throttle user.id (map (λ x. x.1) xs) db.failures)
              db)
            h w' c,
      )

  -- Wrong passwords lock the account out. Let the account have a stored hash and no failures, and let
  -- the passwords of `xs`, one fewer than the limit, and that of `last` be wrong. After those sign-ins, a
  -- further one is refused while the lockout time has not passed since `last`, whatever its password;
  -- and from then on it is refused exactly if its password is wrong.
  pub lockout_refuses :
      (xs : List (String × ℕ)) (last : String × ℕ) (password : String) (now : ℕ) (db : Db)
      → user.password_hash ≡ some hash
      → truthy (some hash) ≡ true
      → get user.id db.failures ≡ none
      → length xs + 1 ≡ cfg.login_throttle.max_failures
      → All Wrong xs
      → Wrong last
      → (authenticate_password rt cfg
          (some user)
          password
          now
          (attempts rt cfg user (xs ++ last ∷ []) db)).0
        ≡ (if ltb now (last.1 + cfg.login_throttle.lockout_ms)
              || not (rt.verify_password password hash)
            then err (Failure.app ErrorCode.invalid_credentials)
            else ok user)
  unfolding authenticate_password password_proves
  lockout_refuses xs last password now db h t g l w w' =
      let e = attempts-limit xs last db h g l w w' in
      let locked =
        (Laws.locked_at_limit cfg.login_throttle user.id [] (map (λ x. x.1) xs) last.1 now
          db.failures g (omega arith) (rw (length-map (λ x. x.1) xs) l)).1 in
      elim (Bool-cases (ltb now (last.1 + cfg.login_throttle.lockout_ms))) [
        | inl early ↦ ground arith
        | inr late ↦ elim (Bool-cases (rt.verify_password password hash)) [
          | inl good ↦ ground arith
          | inr bad ↦ ground arith
        ]
      ]
