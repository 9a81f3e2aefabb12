-- ===== src/Tests/SignIns.antt =====
-- The hosted sign-ins and the second factor at the small installation.
use authx.Prelude.{
  ℕ, String, Bool, true, false, Option, none, some, ◌≡◌, refl, ap, arith, List, [], ◌∷◌, ◌++◌, ◌+◌,
  ◌*◌, ◌⊎◌, if◌then◌else◌, ltb, is_some, count,
}
use authx.Prelude.Map.{get, count_where}
use authx.Errors.{Failure, ok}
use authx.Lockout
use authx.Mfa
use authx.Mfa.Replay.{verify_all, verify_no_replay, recovery_single_use}
use authx.Totp.{six_digits, codes}
use authx.Repo.Totp
use authx.Repo.Users.{User}
use authx.Repo.Users
use authx.Repo.Social
use authx.Repo.Sessions
use authx.Repo.Sessions.Laws.{IsTable}
use authx.Service.{Db}
use authx.Service.Tables.{put_failures}
use authx.Auth.{LoginResult, create_session, email_refused}
use authx.Auth.Grants.Password.{Proves, after_check}
use authx.Auth.Login.{
  GoogleProfile, NewIds, login_create_session, complete_mfa_login, login_with_google,
  link_google_to_user, link_google_amid, logout, resolve_session, user_id_for_session,
}
use authx.Auth.Login.Factors.{Finishes, login_create_session-ok}
use authx.Auth.Login.Guesses.{Guess, guess, guesses, refusal, lockout_refuses_guesses}
use authx.Auth.Login.Google.{linked_to, Linked, Registered, Adopted, login_with_google-ok}
use authx.Auth.Login.Sso.{logout-ends}
use authx.Tests.World.{
  rt, cfg, ann, db, drawn, same_text, same_text-Collates, one-Indexed, authenticator,
}

abbrev signed_in : Db
signed_in = (login_create_session rt cfg "ann@x" "pw" drawn 1000 db).1

signs_in :
    login_create_session rt cfg "ann@x" "pw" drawn 1000 db
    ≡ (ok (LoginResult.session "new1" "u1"), signed_in)
unfolding login_create_session authx.Auth.authenticate_password Users.find_by_email
    authx.Prelude.Map.find_value Lockout.is_locked get authx.Auth.require_verified_email
    authx.Auth.finish_login Mfa.is_enabled Totp.find Sessions.create authx.Prelude.Map.first_error
signs_in = refl

login_create_session-ok_example :
    (user : User) × Proves rt cfg (Users.find_by_email rt.same "ann@x" db.users) "pw" 1000 db user
    × (email_refused rt cfg user.email user.email_verified ≡ false)
    × Finishes rt cfg user.id drawn 1000
        (after_check rt cfg user 1000 db)
        (LoginResult.session "new1" "u1")
        signed_in
login_create_session-ok_example =
    login_create_session-ok rt cfg "ann@x" "pw" drawn 1000 db signed_in
      (LoginResult.session "new1" "u1") signs_in

abbrev guess_at : String → ℕ → Guess
guess_at text at = record { code = text; drawn = drawn; at = at }

abbrev two_guesses : List Guess
two_guesses = guess_at "wrong" 60000 ∷ guess_at "worse" 60100 ∷ []

abbrev third : Guess
third = guess_at "worst" 60200

lockout_refuses_guesses_example :
    let out = guesses rt cfg "u2" (two_guesses ++ third ∷ []) db in
    ((Lockout.is_locked "u2" 61000 (guesses rt cfg "u2" two_guesses db).failures).0 ≡ false)
    × (guess rt cfg "u2" (guess_at "spare" 61000) out ≡ (
        if ltb 61000 (60200 + 1000)
        then (refusal rt cfg "u2", out)
        else guess rt cfg "u2"
            (guess_at "spare" 61000)
            (put_failures (Lockout.clear "u2" out.failures) out)))
unfolding complete_mfa_login Users.find_by_id get Lockout.is_locked Lockout.record_failure
    Mfa.verify Totp.find six_digits Totp.consume_recovery_code authx.Prelude.Map.set
lockout_refuses_guesses_example =
    lockout_refuses_guesses rt cfg "u2" two_guesses two_guesses third (guess_at "spare" 61000) db
      refl tt refl (omega arith) (omega arith) refl (refl, (refl, tt)) (refl, (refl, (refl, tt)))

-- The second factor accepts the recovery code.
mfa_session : (complete_mfa_login rt cfg "u2" "spare" drawn 60000 db).0 ≡ ok ("new1", "u2")
unfolding complete_mfa_login Users.find_by_id get Lockout.is_locked Mfa.verify Totp.find six_digits
    Totp.consume_recovery_code create_session Sessions.create authx.Prelude.Map.first_error
mfa_session = refl

abbrev profile : GoogleProfile
profile = record { provider_account_id = "g1"; email = "new@x"; email_verified = true }

abbrev ids : NewIds
ids = record { user_id = "u3"; link_id = "l1" }

abbrev registered : Db
registered = (login_with_google rt cfg profile ids drawn 1000 db).1

registers :
    login_with_google rt cfg profile ids drawn 1000 db
    ≡ (ok (LoginResult.session "new1" "u3"), registered)
unfolding login_with_google Social.find_by_provider_account get Users.find_by_email
    authx.Prelude.Map.find_value Users.find_any_by_email Users.create authx.Prelude.Map.first_error
    Social.link authx.Auth.finish_login Mfa.is_enabled Totp.find Sessions.create
registers = refl

login_with_google-ok_example :
    (user_id : String) × (before : Db) × (Linked rt cfg profile db user_id before
      ⊎ ((linked_to rt cfg profile db ≡ none)
          × (profile.email_verified ≡ true)
          × (Registered rt cfg profile ids 1000 db user_id before
              ⊎ Adopted rt cfg profile ids db user_id before)))
    × Finishes rt cfg user_id drawn 1000 before (LoginResult.session "new1" "u3") registered
login_with_google-ok_example =
    login_with_google-ok rt cfg profile ids drawn 1000 db registered
      (LoginResult.session "new1" "u3") registers

-- Another account takes Google's address between the link and the patch: the patch fails, and the
-- link is undone.
abbrev take_address : Db → Db
take_address d = record d {
  users = record d.users {
    by_id = ("u4", record ann { id = "u4"; email = some "g@x" }) ∷ d.users.by_id;
  };
}

abbrev unbound : Db
unbound = (link_google_amid rt cfg take_address "u2" "code" "l1" 1000 db).1

abbrev address_taken : Failure
address_taken = Failure.duplicate_key "users" "email" (some "g@x")

-- With no request in between, the same call succeeds, and the account has the link.
binds_alone :
    let (r, db') = link_google_to_user rt cfg "u2" "code" "l1" 1000 db in
    (r ≡ ok tt) × (count_where (Social.owned_by "u2") db'.social ≡ 1)
unfolding link_google_to_user Users.find_by_id get Social.find_by_provider_account
    Users.find_any_by_email authx.Prelude.Map.find_value Social.link authx.Prelude.Map.first_error
    Users.update authx.Prelude.Map.set count_where
binds_alone = (refl, refl)

abbrev opened : Db
opened = (create_session rt cfg "u1" drawn 1000 db).1

opens : create_session rt cfg "u1" drawn 1000 db ≡ (ok ("new1", "u1"), opened)
unfolding create_session Sessions.create authx.Prelude.Map.first_error
opens = refl

no_sessions : IsTable same_text db.sessions
unfolding get
no_sessions = record {
  distinct = tt;
  keyed = λ k v e. absurd (cc);
  unique = λ j k v w e f s. absurd (cc);
}

abbrev one_session : Db
one_session = record db {
  sessions =
      (
        "d1",
        Sessions.fresh_row
            (record { id = "d1"; user_id = "u1"; token_hash = "new1"; expires_at = 9000 }) 1000,
      )
      ∷ [];
}

logout-ends_example :
    let (r, db') = logout rt cfg "new1" 2000 one_session in
    (r ≡ ok tt)
    × (user_id_for_session rt cfg "new1" 3000 db' ≡ (ok none, db'))
    × (resolve_session rt cfg "new1" 3000 db' ≡ (ok none, db'))
logout-ends_example =
    logout-ends rt cfg "new1" 2000 3000 one_session same_text-Collates
      (one-Indexed (λ s. s.id) (λ s. s.token_hash) same_text _) (omega arith)

recovery_single_use_example :
    let mine = Totp.usable rt.same "u2" (Mfa.hash_recovery_code rt cfg (rt.trim "spare")) in
    let n = count mine db.totps.codes in
    ((Mfa.verify rt cfg "u2" "spare" 60000 db).0 ≡ ok (ltb 0 n))
    × (count mine (Mfa.verify rt cfg "u2" "spare" 60000 db).1.totps.codes
          + (if ltb 0 n then 1 else 0)
        ≡ n)
unfolding Totp.find six_digits get
recovery_single_use_example =
    recovery_single_use rt cfg "u2" "spare" 60000 authenticator db refl refl refl

verify_no_replay_example :
    (Mfa.verify rt cfg "u2" "000000" 70000 (
      verify_all rt cfg
        (("u2", "spare", 65000) ∷ [])
        (Mfa.verify rt cfg "u2" "000000" 60000 db).1)).0
    ≡ ok false
unfolding Totp.find six_digits Mfa.step_of Mfa.verify get authx.Totp.Seal.open_secret
    authx.Totp.match_step authx.Totp.current_step Totp.advance_step
verify_no_replay_example =
    verify_no_replay rt cfg "u2" "000000" 60000 70000 1 1 authenticator
      (("u2", "spare", 65000) ∷ []) db refl refl refl refl (omega arith) refl
