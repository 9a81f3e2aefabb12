-- ===== src/Auth/Login/Guesses.antt =====
-- Guesses at the second factor: auth.service.ts `completeMfaLogin`, with the lockout of
-- lib/login-attempts.ts.
use authx.Prelude.{
  ℕ, String, Bool, true, false, none, some, ◌≡◌, ◌≢◌, refl, inl, inr, arith, Bool-cases, is_some,
  if◌then◌else◌, List, [], ◌∷◌, ◌++◌, ◌+◌, ◌<◌, ltb, length, map, length-map, ap,
}
use authx.Prelude.Map.{get}
use authx.Prelude.Map.Laws.{Distinct}
use authx.Errors.{ErrorCode, Failure, Result, err}
use authx.Lockout
use authx.Lockout.Laws
use authx.Repo.Users
use authx.Service.{Config, Runtime, Db}
use authx.Service.Tables.{put_failures, put_totps}
use authx.Auth.{Drawn, create_session}
use authx.Auth.Login.{complete_mfa_login}
use authx.Auth.Login.Factors.{counted, complete_mfa_login-answers}
use authx.Auth.Login.Refusals.{verify-writes, create_session-not_refused}

-- A code that is sent, what the call draws at random, and its time.
pub record Guess : Type 0 where
  pub code : String
  pub drawn : Drawn
  pub at : ℕ

module _ (rt : Runtime) (cfg : Config) (user_id : String) where
  abbrev pub refusal : {A : Type 0} → Result A
  refusal = err (Failure.app ErrorCode.invalid_credentials)

  abbrev pub guess : Guess → Db → Result (String × String) × Db
  guess g db = complete_mfa_login rt cfg user_id g.code g.drawn g.at db

  -- Guesses one after the other, from the state that the one before left.
  unfoldable pub guesses : List Guess → Db → Db
  guesses [] db = db
  guesses (g ∷ gs) db = guesses gs (guess g db).1

  -- Each of the guesses is refused.
  abbrev pub AllRefused : List Guess → Db → Type 0
  AllRefused [] db = Unit
  AllRefused (g ∷ gs) db = ((guess g db).0 ≡ refusal) × AllRefused gs (guess g db).1

  -- What a refused guess writes: the count of failures, and the tables of the second factor.
  refused-writes :
      (n : ℕ) (g : Guess) (db : Db)
      → is_some (Users.find_by_id user_id db.users) ≡ true
      → Laws.Counting cfg.login_throttle user_id n db.failures
      → (guess g db).0 ≡ refusal
      → ((guess g db).1.users ≡ db.users)
        × ((guess g db).1.failures
            ≡ Lockout.record_failure cfg.login_throttle user_id g.at db.failures)
  refused-writes n g db live c h =
      let unlocked = Laws.is_locked-Counting cfg.login_throttle user_id n g.at db.failures c in
      let answer = complete_mfa_login-answers rt cfg user_id g.code g.drawn g.at db live in
      let (b, t, checked) =
        verify-writes rt cfg user_id g.code g.at (counted rt cfg user_id g.at db) in
      elim (Bool-cases b) [
        | inr wrong ↦ (ground arith, ground arith)
        | inl right ↦
            let fails = create_session-not_refused rt cfg user_id g.drawn g.at (
              put_failures (Lockout.clear user_id (counted rt cfg user_id g.at db).failures)
                (put_totps t (counted rt cfg user_id g.at db))) in
            absurd (ground arith)
      ]

  -- A run of refused guesses below the limit counts each of them.
  guesses-fail_at :
      (n : ℕ) (gs : List Guess) (db : Db)
      → is_some (Users.find_by_id user_id db.users) ≡ true
      → n + length gs < cfg.login_throttle.max_failures
      → Laws.Counting cfg.login_throttle user_id n db.failures
      → AllRefused gs db
      → ((guesses gs db).users ≡ db.users)
        × ((guesses gs db).failures
            ≡ Laws.fail_at cfg.login_throttle user_id (map (λ g. g.at) gs) db.failures)
  unfolding guesses Laws.fail_at
  guesses-fail_at n [] db live l c h = (refl, refl)
  guesses-fail_at n (g ∷ gs) db live l c h =
      let (same, counts) = refused-writes n g db live c h.0 in
      let next = Laws.fail-Counting cfg.login_throttle user_id n g.at db.failures (omega arith) c in
      let rest =
        guesses-fail_at (n + 1) gs (guess g db).1 (rw same live) (omega arith) (rw counts next)
          h.1 in
      (ground arith, ground arith)

  guesses-append :
      (gs : List Guess) (last : Guess) (db : Db)
      → guesses (gs ++ last ∷ []) db ≡ (guess last (guesses gs db)).1
  unfolding guesses
  guesses-append [] last db = refl
  guesses-append (g ∷ gs) last db = guesses-append gs last (guess g db).1

  AllRefused-append :
      (gs : List Guess) (last : Guess) (db : Db)
      → AllRefused (gs ++ last ∷ []) db
      → AllRefused gs db × ((guess last (guesses gs db)).0 ≡ refusal)
  unfolding guesses
  AllRefused-append [] last db h = (tt, h.0)
  AllRefused-append (g ∷ gs) last db h =
      let (a, b) = AllRefused-append gs last (guess g db).1 h.1 in ((h.0, a), b)

  -- The state that a run of refused guesses up to the limit leaves.
  guesses-limit :
      (gs : List Guess) (last : Guess) (db : Db)
      → is_some (Users.find_by_id user_id db.users) ≡ true
      → get user_id db.failures ≡ none
      → length gs + 1 ≡ cfg.login_throttle.max_failures
      → AllRefused (gs ++ last ∷ []) db
      → ((guesses (gs ++ last ∷ []) db).users ≡ db.users)
        × ((guesses (gs ++ last ∷ []) db).failures
            ≡ Lockout.record_failure cfg.login_throttle user_id last.at
                (Laws.fail_at cfg.login_throttle user_id (map (λ g. g.at) gs) db.failures))
  guesses-limit gs last db live fresh l h =
      let (before, refused) = AllRefused-append gs last db h in
      let c : Laws.Counting cfg.login_throttle user_id 0 db.failures = rw fresh in
      let (same, counts) = guesses-fail_at 0 gs db live (omega arith) c before in
      let n = length (map (λ (g : Guess). g.at) gs) in
      let d =
        Laws.fail_at-Counting cfg.login_throttle user_id 0 (map (λ g. g.at) gs) db.failures
          (rw (length-map (λ (g : Guess). g.at) gs) (omega arith)) c in
      let w = refused-writes (0 + n) last (guesses gs db) (rw same live) (rw counts d) refused in
      (rw (guesses-append gs last db) (ground arith), rw (guesses-append gs last db) (ground arith))

  -- A lockout that is over counts for nothing.
  guess-locked :
      (e : Lockout.Entry) (g : Guess) (db : Db)
      → is_some (Users.find_by_id user_id db.users) ≡ true
      → Distinct db.failures
      → get user_id db.failures ≡ some e
      → e.locked_until ≢ 0
      → guess g db ≡ (
          if ltb g.at e.locked_until
          then (refusal, db)
          else guess g (put_failures (Lockout.clear user_id db.failures) db))
  unfolding complete_mfa_login authx.Auth.subject_exists
  guess-locked e g db live d at ne =
      let held = Laws.is_locked_entry cfg.login_throttle user_id e g.at db.failures at ne in
      let none_left = Laws.get-clear cfg.login_throttle user_id db.failures d in
      let after =
        Laws.is_locked-none cfg.login_throttle user_id g.at (Lockout.clear user_id db.failures)
          none_left in
      elim (Bool-cases (ltb g.at e.locked_until)) [
        | inl early ↦ ground arith
        | inr late ↦ ground arith
      ]

  -- Guesses at the second factor lock the account out. Let the account be there and have no failures,
  -- let the table of failures hold each account once, and let the lockout time not be zero. After any
  -- refused guesses below the limit the account is not locked, whatever the time. After `gs`, one fewer
  -- than the limit, and `last`, all refused, a further call is refused while the lockout time has not
  -- passed since `last`, whatever its code, and writes nothing, so that it uses up no code; from then
  -- on it does what it does where no failure is on record.
  pub lockout_refuses_guesses :
      (us gs : List Guess) (last g : Guess) (db : Db)
      → is_some (Users.find_by_id user_id db.users) ≡ true
      → Distinct db.failures
      → get user_id db.failures ≡ none
      → cfg.login_throttle.lockout_ms ≢ 0
      → length us < cfg.login_throttle.max_failures
      → length gs + 1 ≡ cfg.login_throttle.max_failures
      → AllRefused us db
      → AllRefused (gs ++ last ∷ []) db
      → let out = guesses (gs ++ last ∷ []) db in
        ((Lockout.is_locked user_id g.at (guesses us db).failures).0 ≡ false)
        × (guess g out ≡ (
            if ltb g.at (last.at + cfg.login_throttle.lockout_ms)
            then (refusal, out)
            else guess g (put_failures (Lockout.clear user_id out.failures) out)))
  lockout_refuses_guesses us gs last g db live d fresh ne few l hu h =
      let times = map (λ (x : Guess). x.at) gs in
      let full : length times + 1 ≡ cfg.login_throttle.max_failures =
        rw (length-map (λ (x : Guess). x.at) gs) l in
      let (same, counts) = guesses-limit gs last db live fresh l h in
      let below =
        Laws.fail_at-Counting cfg.login_throttle user_id 0 (map (λ (x : Guess). x.at) us)
          db.failures (rw (length-map (λ (x : Guess). x.at) us) (omega arith)) (rw fresh) in
      let (_, counted_us) = guesses-fail_at 0 us db live (omega arith) (rw fresh) hu in
      let entry = Laws.locked_out cfg.login_throttle user_id times last.at db.failures fresh full in
      let rows = Laws.locked_out-Distinct cfg.login_throttle user_id times last.at db.failures d in
      (
        rw counted_us (
            ap (λ (x : Bool × Lockout.Failures). x.0)
              (Laws.is_locked-Counting cfg.login_throttle user_id _ g.at _ below)),
        guess-locked
            (record {
              count = cfg.login_throttle.max_failures;
              locked_until = last.at + cfg.login_throttle.lockout_ms;
            })
            g (guesses (gs ++ last ∷ []) db) (rw same live) (rw counts rows) (rw counts entry)
            (omega arith),
      )
