-- ===== src/Auth/Login/Refusals.antt =====
-- What the steps of auth.service.ts `completeMfaLogin` write and throw.
use authx.Prelude.{
  ℕ, String, Bool, true, false, some, ◌≡◌, ◌≢◌, refl, inl, inr, arith, Option-cases, Bool-cases,
  is_some,
}
use authx.Prelude.Map.Search.{first_error-all}
use authx.Errors.{ErrorCode, Failure, ok, err, Result-cases}
use authx.Totp.{six_digits, codes}
use authx.Mfa
use authx.Repo.Totp
use authx.Repo.Sessions
use authx.Service.{Config, Runtime, Db}
use authx.Service.Tables.{put_totps}
use authx.Auth.{Drawn, create_session}
use authx.Auth.Login.Factors.{new_session}

abbrev is_duplicate : Failure → Bool
is_duplicate (Failure.app c) = false
is_duplicate (Failure.duplicate_key table index value) = true

clash-duplicate :
    (same : String → String → Bool) (n : Sessions.NewSession) (v : Sessions.Session) (e : Failure)
    → Sessions.clash same n v ≡ some e
    → is_duplicate e ≡ true
clash-duplicate same n v (Failure.duplicate_key table index value) h = refl
clash-duplicate same n v (Failure.app c) h = absurd (ground arith)

create-duplicate :
    (same : String → String → Bool) (n : Sessions.NewSession) (now : ℕ) (e : Failure)
    (m : Sessions.Table)
    → Sessions.create same n now m ≡ err e
    → is_duplicate e ≡ true
unfolding Sessions.create
create-duplicate same n now e m h =
    first_error-all (Sessions.clash same n) is_duplicate e m (clash-duplicate same n) (ground arith)

module _ (rt : Runtime) (cfg : Config) (user_id : String) where
  -- Checking a code writes to the tables of the second factor only, and does not fail.
  pub verify-writes :
      (input : String) (now : ℕ) (db : Db)
      → (b : Bool) × (t : Totp.Totps) × (Mfa.verify rt cfg user_id input now db
          ≡ (ok b, put_totps t db))
  unfolding Mfa.verify Mfa.verify_row Mfa.verify_enabled Mfa.verify_code
  verify-writes input now db = elim (Option-cases (Totp.find user_id db.totps)) [
    | inl e ↦ (false, db.totps, ground arith)
    | inr (r, e) ↦ elim (Bool-cases (is_some r.enabled_at)) [
      | inr off ↦ (false, db.totps, ground arith)
      | inl on ↦ elim (Bool-cases (six_digits (codes (rt.trim input)))) [
        | inr text ↦
            let (b, t) =
              Totp.consume_recovery_code rt.same user_id
                (Mfa.hash_recovery_code rt cfg (rt.trim input)) now db.totps in
            (b, t, ground arith)
        | inl c ↦ elim (Option-cases (Mfa.step_of rt cfg r (rt.trim input) now)) [
          | inl bad ↦ (false, db.totps, ground arith)
          | inr (step, good) ↦
              let (b, t) = Totp.advance_step user_id step db.totps in (b, t, ground arith)
        ]
      ]
    ]
  ]

  pub create_session-not_refused :
      (d : Drawn) (now : ℕ) (db : Db)
      → (create_session rt cfg user_id d now db).0 ≢ err (Failure.app ErrorCode.invalid_credentials)
  unfolding create_session
  create_session-not_refused d now db h =
      elim (Result-cases
        (Sessions.create rt.same (new_session rt cfg user_id d now) now db.sessions)) [
          | inl (t, made) ↦ absurd (ground arith)
          | inr (e, bad) ↦
              let dup =
                create-duplicate rt.same (new_session rt cfg user_id d now) now e db.sessions bad in
              absurd (ground arith)
        ]
