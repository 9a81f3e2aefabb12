-- ===== src/Webauthn/SignIn.antt =====
-- Sign-in with a passkey: passkey.service.ts `verifySignIn`.
use authx.Prelude.{
  ℕ, String, Bool, true, false, Option, none, some, ◌≡◌, inl, inr, arith, subst, sym, List, any,
  ◌∙◌, All, ◌==◌, Bool-cases, Option-cases,
}
use authx.Prelude.Map.Index.{Collates}
use authx.Errors.{ErrorCode, Failure, ok, err}
use authx.Repo.Passkeys.{
  Passkey, ChallengePurpose, authenticate, redeemable, consume_challenge, record_use,
}
use authx.Repo.Passkeys.Challenges.{
  Call, Unique, open_with, reopens, run, run-closed, closed-refuses, consume_first-any,
  consume_first-closes,
}
use authx.Service.{Runtime, Db, M}
use authx.Service.Laws.{call-cases}
use authx.Service.Tables.{put_passkeys}
use authx.Webauthn.{
  Package, Settings, unverified, verified, AuthInput, RegInput, RegistrationInfo, consume,
  named_passkey, auth_input, verify_sign_in,
}

-- What the package promises: it verifies a response only where the function that it was handed
-- accepts the response's challenge, and what was written is what that function wrote.
pub record Asks (w : Package) : Type 0 where
  pub auth_asks :
      (accepts : String → M Bool) (input : AuthInput) (counter : ℕ) (db db' : Db)
      → w.verify_authentication accepts input db ≡ (ok (verified counter), db')
      → accepts (w.challenge_of input.response) db ≡ (ok true, db')
  pub reg_asks :
      (accepts : String → M Bool) (input : RegInput) (info : RegistrationInfo) (db db' : Db)
      → w.verify_registration accepts input db ≡ (ok (verified info), db')
      → accepts (w.challenge_of input.response) db ≡ (ok true, db')

module _ (rt : Runtime) (w : Package) (cfg : Settings) where
  -- The challenge of a response, as the table holds it.
  abbrev pub challenge_hash : String → String
  challenge_hash response = rt.hash_token (w.challenge_of response)

  -- The tables once the challenge of a response is consumed.
  abbrev pub consumed : String → ChallengePurpose → Option String → ℕ → Db → Db
  consumed response purpose owner now db =
      put_passkeys
        (consume_challenge rt.same (challenge_hash response) purpose owner now db.passkeys).1 db

  -- An open challenge of that purpose and owner has the hash of the response's.
  abbrev pub challenged : String → ChallengePurpose → Option String → ℕ → Db → Bool
  challenged response purpose owner now db =
      any (redeemable rt.same (challenge_hash response) purpose owner now) db.passkeys.challenges

  pub record SignsIn (response user_id : String) (now : ℕ) (db db' : Db) : Type 0 where
    pub row : Passkey
    pub counter : ℕ
    pub on : (cfg.rp_id == "") ≡ false
    pub stored : named_passkey rt w cfg response db ≡ some row
    pub owner : user_id ≡ row.user_id
    pub open_challenge : challenged response authenticate none now db ≡ true
    pub accepted :
        w.verify_authentication
          (consume rt w cfg authenticate none now)
          (auth_input rt w cfg response row)
          db
        ≡ (ok (verified counter), consumed response authenticate none now db)
    pub after :
        db'
        ≡ put_passkeys
            (record_use row.id counter now (consumed response authenticate none now db).passkeys)
            db

  -- A consumption that wins found an open challenge, and wrote that alone.
  pub consume-won :
      (response : String) (purpose : ChallengePurpose) (owner : Option String) (now : ℕ)
      (db db' : Db)
      → consume rt w cfg purpose owner now (w.challenge_of response) db ≡ (ok true, db')
      → (challenged response purpose owner now db ≡ true)
        × (db' ≡ consumed response purpose owner now db)
  unfolding consume consume_challenge
  consume-won response purpose owner now db db' e = (
    ground (
      arith,
      consume_first-any rt.same (challenge_hash response) purpose owner now db.passkeys.challenges,
    ),
    ground arith,
  )

  -- A sign-in with a passkey succeeds only where passkeys are on, the response names a stored passkey,
  -- the package verifies it against that passkey's key, counter and this origin, and its challenge was
  -- opened for a sign-in and is neither used nor expired. It enters the account of that passkey, and
  -- all it writes is that the challenge is consumed and the passkey's new counter and time of use.
  pub verify_sign_in-ok :
      Asks w
      → (response user_id : String) (now : ℕ) (db db' : Db)
      → verify_sign_in rt w cfg response now db ≡ (ok user_id, db')
      → SignsIn response user_id now db db'
  unfolding verify_sign_in
  verify_sign_in-ok asks response user_id now db db' h = elim (Bool-cases (cfg.rp_id == "")) [
    | inl off ↦ absurd (ground arith)
    | inr on ↦ elim (Option-cases (named_passkey rt w cfg response db)) [
      | inl missing ↦ absurd (ground arith)
      | inr (row, stored) ↦
          elim (call-cases (
            w.verify_authentication (consume rt w cfg authenticate none now)
              (auth_input rt w cfg response row) db)) [
                | inr (x, d, refused) ↦ absurd (ground arith)
                | inl (unverified, d, bad) ↦ absurd (ground arith)
                | inl (verified counter, d, good) ↦
                    let asked = asks.auth_asks _ _ counter db d good in
                    let (open_challenge, wrote) =
                      consume-won response authenticate none now db d asked in
                    record {
                      row = row;
                      counter = counter;
                      on = on;
                      stored = stored;
                      owner = ground arith;
                      open_challenge = open_challenge;
                      accepted = rw (← wrote) good;
                      after = ground arith;
                    }
              ]
    ]
  ]

  -- Without an open challenge of the response's hash, a sign-in is refused as invalid.
  unchallenged-refused :
      Asks w
      → (response : String) (now : ℕ) (db : Db) → (cfg.rp_id == "") ≡ false
      → challenged response authenticate none now db ≡ false
      → (verify_sign_in rt w cfg response now db).0 ≡ err (Failure.app ErrorCode.passkey_invalid)
  unfolding verify_sign_in
  unchallenged-refused asks response now db on shut =
      elim (Option-cases (named_passkey rt w cfg response db)) [
        | inl missing ↦ ground arith
        | inr (row, stored) ↦
            elim (call-cases (
              w.verify_authentication (consume rt w cfg authenticate none now)
                (auth_input rt w cfg response row) db)) [
                  | inr (x, d, refused) ↦ ground arith
                  | inl (unverified, d, bad) ↦ ground arith
                  | inl (verified counter, d, good) ↦
                      let asked = asks.auth_asks _ _ counter db d good in
                      let won = (consume-won response authenticate none now db d asked).0 in
                      absurd (cc)
                ]
      ]

  -- A successful sign-in leaves no open challenge of its hash.
  sign_in-closes :
      Collates rt.same
      → (response user_id : String) (now : ℕ) (db db' : Db) → Unique rt.same db.passkeys.challenges
      → SignsIn response user_id now db db'
      → any (open_with rt.same (challenge_hash response)) db'.passkeys.challenges ≡ false
  unfolding record_use consume_challenge
  sign_in-closes col response user_id now db db' u s = rw s.after (
      consume_first-closes rt.same col (challenge_hash response) authenticate none now
        db.passkeys.challenges u
        (consume_first-any rt.same (challenge_hash response) authenticate none now
            db.passkeys.challenges
          ∙ s.open_challenge))

  -- A challenge is good for one sign-in. After a sign-in has succeeded, every later one whose response
  -- has the same challenge is refused as invalid, whatever passkey it names, whatever calls on the
  -- passkey tables come between, at whatever times, as long as none of them opens a challenge with that
  -- hash again. The challenges of the table have different hashes, and the collation is an equivalence.
  pub sign_in_once :
      Asks w
      → Collates rt.same
      → (response again user_id : String) (now later : ℕ) (cs : List (ℕ × Call)) (db db' db'' : Db)
      → Unique rt.same db.passkeys.challenges
      → verify_sign_in rt w cfg response now db ≡ (ok user_id, db')
      → All (λ c. reopens rt.same (challenge_hash response) c.1 ≡ false) cs
      → db''.passkeys ≡ run rt.same cs db'.passkeys
      → w.challenge_of again ≡ w.challenge_of response
      → (verify_sign_in rt w cfg again later db'').0 ≡ err (Failure.app ErrorCode.passkey_invalid)
  sign_in_once asks col response again user_id now later cs db db' db'' u h fresh tables same =
      let s = verify_sign_in-ok asks response user_id now db db' h in
      let shut =
        run-closed rt.same (challenge_hash response) cs db'.passkeys fresh
          (sign_in-closes col response user_id now db db' u s) in
      unchallenged-refused asks again later db'' s.on (
        closed-refuses rt.same (challenge_hash again) authenticate none later
          db''.passkeys.challenges
          (rw tables (
            subst
              (λ c.
                any (open_with rt.same (rt.hash_token c)) (run rt.same cs db'.passkeys).challenges
                ≡ false)
              (sym same) shut)))
