-- ===== src/Mfa/Replay.antt =====
-- A code of the second factor is accepted once: totp.service.ts `verify`.
use authx.Prelude.{
  ℕ, ◌+◌, ◌≤◌, String, true, false, some, ◌≡◌, refl, ap, ◌∙◌, inl, inr, arith, Option-cases,
  Bool-cases, is_some, ltb, List, [], ◌∷◌, count, if◌then◌else◌,
}
use authx.Prelude.Map.Laws.{get-set_self}
use authx.Errors.{ok}
use authx.Totp.{six_digits, codes}
use authx.Repo.Totp.{TotpRecord, usable, use_first}
use authx.Repo.Totp
use authx.Repo.Totp.Laws.{Later, Later-refl, Later-trans, advance_step-Later, use_first-counts}
use authx.Service.{Config, Runtime, Db}
use authx.Mfa.{
  verify, verify_row, verify_enabled, verify_code, step_of, secret_of, hash_recovery_code,
}

module _ (rt : Runtime) (cfg : Config) where
  -- Checks of codes, of any accounts, one after the other: the account, the input and the time.
  unfoldable pub verify_all : List (String × String × ℕ) → Db → Db
  verify_all [] db = db
  verify_all ((user_id, input, now) ∷ xs) db = verify_all xs (verify rt cfg user_id input now db).1

  -- A check keeps every enrolment, and its last step goes back in none.
  verify-Later :
      (other user_id input : String) (now : ℕ) (row : TotpRecord) (db : Db)
      → Totp.find other db.totps ≡ some row
      → (row' : TotpRecord) × (Totp.find other (verify rt cfg user_id input now db).1.totps
          ≡ some row')
        × Later row row'
  unfolding verify verify_row verify_enabled verify_code Totp.consume_recovery_code Totp.find
  verify-Later other user_id input now row db h = elim (Option-cases (Totp.find user_id db.totps)) [
    | inl e ↦ (row, ground arith, Later-refl row)
    | inr (r, e) ↦ elim (Bool-cases (is_some r.enabled_at)) [
      | inr off ↦ (row, ground arith, Later-refl row)
      | inl on ↦ elim (Bool-cases (six_digits (codes (rt.trim input)))) [
        | inr text ↦ (row, ground arith, Later-refl row)
        | inl c ↦ elim (Option-cases (step_of rt cfg r (rt.trim input) now)) [
          | inl bad ↦ (row, ground arith, Later-refl row)
          | inr (step, good) ↦
              let (row', at, l) = advance_step-Later other user_id step row db.totps h in
              (row', ground arith, l)
        ]
      ]
    ]
  ]

  verify_all-Later :
      (user_id : String) (xs : List (String × String × ℕ)) (row : TotpRecord) (db : Db)
      → Totp.find user_id db.totps ≡ some row
      → (row' : TotpRecord) × (Totp.find user_id (verify_all xs db).totps ≡ some row')
        × Later row row'
  unfolding verify_all
  verify_all-Later user_id [] row db h = (row, h, Later-refl row)
  verify_all-Later user_id ((u, input, now) ∷ xs) row db h =
      let (a, at, l) = verify-Later user_id u input now row db h in
      let (b, at', l') = verify_all-Later user_id xs a _ at in (b, at', Later-trans row a b l l')

  -- A row's steps are those of its secret.
  step_of-secret :
      (row row' : TotpRecord) (text : String) (now : ℕ)
      → row'.secret ≡ row.secret
      → step_of rt cfg row' text now ≡ step_of rt cfg row text now
  unfolding step_of secret_of
  step_of-secret row row' text now e = rw e refl

  -- A code that was accepted has moved the account's last step to its own.
  verify-accepts :
      (user_id input : String) (now step : ℕ) (row : TotpRecord) (db : Db)
      → Totp.find user_id db.totps ≡ some row
      → six_digits (codes (rt.trim input)) ≡ true
      → step_of rt cfg row (rt.trim input) now ≡ some step
      → (verify rt cfg user_id input now db).0 ≡ ok true
      → Totp.find user_id (verify rt cfg user_id input now db).1.totps
        ≡ some (record row { last_step = step })
  unfolding verify verify_row verify_enabled verify_code Totp.find Totp.advance_step
  verify-accepts user_id input now step row db h c s r =
      elim (Bool-cases (is_some row.enabled_at)) [
        | inr off ↦ absurd (ground arith)
        | inl on ↦
            ground (arith, get-set_self user_id (record row { last_step = step }) db.totps.totp)
      ]

  -- A code whose step is no later than the last one is refused.
  verify-refuses :
      (user_id input : String) (now step : ℕ) (row : TotpRecord) (db : Db)
      → Totp.find user_id db.totps ≡ some row
      → six_digits (codes (rt.trim input)) ≡ true
      → step_of rt cfg row (rt.trim input) now ≡ some step
      → step ≤ row.last_step
      → verify rt cfg user_id input now db ≡ (ok false, db)
  unfolding verify verify_row verify_enabled verify_code Totp.find Totp.advance_step
  verify-refuses user_id input now step row db h c s l =
      elim (Bool-cases (is_some row.enabled_at)) [ inr off ↦ ground arith | inl on ↦ ground arith ]

  -- A one-time code is accepted once. After the code of a step has been accepted, it is refused
  -- whenever it is presented for that step or an earlier one, whatever codes of whatever accounts have
  -- been checked in between.
  pub verify_no_replay :
      (user_id input : String) (now later step step' : ℕ) (row : TotpRecord)
      (xs : List (String × String × ℕ)) (db : Db)
      → Totp.find user_id db.totps ≡ some row
      → six_digits (codes (rt.trim input)) ≡ true
      → step_of rt cfg row (rt.trim input) now ≡ some step
      → step_of rt cfg row (rt.trim input) later ≡ some step'
      → step' ≤ step
      → (verify rt cfg user_id input now db).0 ≡ ok true
      → (verify rt cfg user_id input later (verify_all xs (verify rt cfg user_id input now db).1)).0
        ≡ ok false
  verify_no_replay user_id input now later step step' row xs db h c s s' le r =
      let at = verify-accepts user_id input now step row db h c s r in
      let (b, at', l) = verify_all-Later user_id xs (record row { last_step = step }) _ at in
      let e = step_of-secret row b (rt.trim input) later l.same_secret in
      ap (λ x. x.0)
        (verify-refuses user_id input later step' b _ at' c (e ∙ s') (omega (arith, l.no_earlier)))

  -- A recovery code is accepted exactly while the account has one unused with its hash, and each
  -- acceptance uses up one; the account has confirmed its second factor and the input does not look
  -- like a one-time code.
  pub recovery_single_use :
      (user_id input : String) (now : ℕ) (row : TotpRecord) (db : Db)
      → Totp.find user_id db.totps ≡ some row
      → is_some row.enabled_at ≡ true
      → six_digits (codes (rt.trim input)) ≡ false
      → let mine = usable rt.same user_id (hash_recovery_code rt cfg (rt.trim input)) in
        let n = count mine db.totps.codes in
        ((verify rt cfg user_id input now db).0 ≡ ok (ltb 0 n))
        × (count mine (verify rt cfg user_id input now db).1.totps.codes
              + (if ltb 0 n then 1 else 0)
            ≡ n)
  unfolding verify verify_row verify_enabled Totp.consume_recovery_code Totp.find
  recovery_single_use user_id input now row db h on c =
      let hash = hash_recovery_code rt cfg (rt.trim input) in
      let (a, b) = use_first-counts rt.same user_id hash now db.totps.codes in
      rw (h, on, c) (ap ok a, rw (← a) b)
