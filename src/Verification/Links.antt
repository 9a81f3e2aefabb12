-- ===== src/Verification/Links.antt =====
-- What a mailed link demands and does: verification.service.ts `resetPassword`, `confirm`, `verifyEmail`.
use authx.Prelude.{
  ℕ, String, Bool, true, false, Option, none, some, ◌≡◌, refl, sym, ap, subst, ◌∙◌, inl, inr, arith,
  Option-cases, Bool-cases, is_some, ◌<◌, ◌&&◌, not, count, count-keep-not,
}
use authx.Prelude.Map.{count_where}
use authx.Prelude.Map.Laws.{count_where-update_where}
use authx.Prelude.Map.Index.{Collates}
use authx.Errors.{ErrorCode, Failure, ok, err, Result-cases}
use authx.Passwords.{assert_acceptable_password, min_length}
use authx.Repo.Users.{User}
use authx.Repo.Users
use authx.Repo.Tokens.Laws.{active_of, revoke_all-none_active}
use authx.Repo.Sessions.{Session}
use authx.Repo.Sessions
use authx.Repo.Passkeys
use authx.Repo.Verifications.{
  VerificationToken, TokenPurpose, email_change, account_deletion, password_reset, verify_email,
  purpose_eq, outstanding, account_changing_purposes,
}
use authx.Repo.Verifications
use authx.Repo.Verifications.Laws.{
  IsTable, consume-found, consume_all-found, consume_all-none_outstanding,
}
use authx.Service.{Config, Runtime, Db}
use authx.Service.Laws.{call-cases}
use authx.Service.Tables.{put_users, put_verifications}
use authx.Verification.{
  find_link, consume_link, act_on, confirm, reset_password, redeem_verification, end_credentials,
  new_password, other_address, Confirmed, needs_no_form, held_by_other, new_address,
}

-- An active session of the account.
abbrev pub open_of : String → Session → Bool
open_of user_id s = Sessions.owned_by user_id s && not (is_some s.revoked_at)

module _ (rt : Runtime) (cfg : Config) where
  -- No credential of the account is left in the database.
  pub record Ended (user_id : String) (db : Db) : Type 0 where
    pub no_token : count_where (active_of user_id) db.tokens ≡ 0
    pub no_session : count_where (open_of user_id) db.sessions ≡ 0
    pub no_passkey : count (Passkeys.owned_by user_id) db.passkeys.rows ≡ 0
    pub no_link : count_where (outstanding user_id account_changing_purposes) db.verifications ≡ 0

  sessions-ended :
      (user_id : String) (now : ℕ) (m : Sessions.Table)
      → count_where (open_of user_id) (Sessions.revoke_all_for_user user_id now m) ≡ 0
  unfolding Sessions.revoke_all_for_user
  sessions-ended user_id now m =
      count_where-update_where (open_of user_id) (Sessions.owned_by user_id)
        (Sessions.revoked_row now) m
        (λ v. elim (Bool-cases (Sessions.owned_by user_id v)) [
          | inl a ↦ ground arith
          | inr b ↦ ground arith
        ])

  pub end_credentials-Ended :
      (user_id : String) (now : ℕ) (db : Db)
      → ((end_credentials rt cfg user_id now db).0 ≡ ok tt)
        × Ended user_id (end_credentials rt cfg user_id now db).1
  unfolding end_credentials Passkeys.delete_all_passkeys_for_user
  end_credentials-Ended user_id now db = (
    refl,
    record {
      no_token = revoke_all-none_active user_id now db.tokens;
      no_session = sessions-ended user_id now db.sessions;
      no_passkey = count-keep-not (Passkeys.owned_by user_id) db.passkeys.rows;
      no_link = consume_all-none_outstanding user_id account_changing_purposes now db.verifications;
    },
  )

  end_credentials-users :
      (user_id : String) (now : ℕ) (db : Db)
      → (end_credentials rt cfg user_id now db).1.users ≡ db.users
  unfolding end_credentials
  end_credentials-users user_id now db = refl

  end_credentials-links :
      (user_id : String) (now : ℕ) (db : Db)
      → (end_credentials rt cfg user_id now db).1.verifications
        ≡ (Verifications.consume_all_for_user user_id account_changing_purposes now
            db.verifications).1
  unfolding end_credentials
  end_credentials-links user_id now db = refl

  -- A link that a call may redeem.
  pub record Valid (handles : TokenPurpose → Bool) (token : String) (now : ℕ) (db : Db)
      : Type 0 where
    pub row : VerificationToken
    pub found : Verifications.find_by_hash rt.same (rt.hash_token token) db.verifications ≡ some row
    pub handled : handles row.purpose ≡ true
    pub unspent : row.consumed_at ≡ none
    pub fresh : now < row.expires_at

  find_link-Valid :
      (handles : TokenPurpose → Bool) (token : String) (now : ℕ) (db db' : Db)
      (row : VerificationToken)
      → find_link rt cfg handles token now db ≡ (ok row, db')
      → (v : Valid handles token now db) × (v.row ≡ row) × (db' ≡ db)
  unfolding find_link
  find_link-Valid handles token now db db' row h =
      elim (Option-cases
        (Verifications.find_by_hash rt.same (rt.hash_token token) db.verifications)) [
          | inl e ↦ absurd (ground arith)
          | inr (t, e) ↦ (
            record {
              row = t;
              found = e;
              handled = ground arith;
              unspent = ground arith;
              fresh = ground arith;
            },
            ground arith,
            ground arith,
          )
        ]

  -- What a reset demands, and the account that it leaves.
  pub record Resets (token password : String) (now : ℕ) (db db' : Db) : Type 0 where
    pub link : Valid (purpose_eq password_reset) token now db
    pub user : User
    pub patched : Option User
    pub users : Users.Users
    pub live : Users.find_by_id link.row.user_id db.users ≡ some user
    pub same_address : other_address user.email link.row.email ≡ false
    pub consumed : (Verifications.consume link.row.id now db.verifications).0 ≡ true
    pub changed :
        Users.update rt.same user.id (new_password rt cfg password) now db.users
        ≡ ok (patched, users)
    pub after_users : db'.users ≡ users
    pub ended : Ended user.id db'
    pub links :
        db'.verifications
        ≡ (Verifications.consume_all_for_user user.id account_changing_purposes now
            (Verifications.consume link.row.id now db.verifications).1).1

  -- A password reset succeeds only with an acceptable password and a link for a reset that is stored,
  -- unconsumed and unexpired, of an account that is there and still has the address the link was mailed
  -- to. The password is then the new one, the link is consumed, and no credential of before is left: no
  -- active token or session, no passkey, no outstanding link that could change the account.
  pub reset_password-ok :
      (common : String → Bool) (token password : String) (now : ℕ) (db db' : Db)
      → reset_password rt cfg common token password now db ≡ (ok tt, db')
      → (assert_acceptable_password common password min_length ≡ ok tt)
        × Resets token password now db db'
  unfolding reset_password consume_link
  reset_password-ok common token password now db db' h =
      elim (Result-cases (assert_acceptable_password common password min_length)) [
        | inr (e, bad) ↦ absurd (ground arith)
        | inl (u, good) ↦
            elim (call-cases (find_link rt cfg (purpose_eq password_reset) token now db)) [
              | inr (e, d, bad) ↦ absurd (ground arith)
              | inl (row, d, found) ↦
                  let (v, same, still) =
                    find_link-Valid (purpose_eq password_reset) token now db d row found in
                  elim (Option-cases (Users.find_by_id v.row.user_id db.users)) [
                    | inl e ↦ absurd (ground arith)
                    | inr (user, e) ↦
                        elim (Result-cases (
                          Users.update rt.same user.id (new_password rt cfg password) now
                            db.users)) [
                              | inr (x, bad) ↦ absurd (ground arith)
                              | inl ((patched, users), made) ↦
                                  let mid = put_users users (
                                    put_verifications
                                      (Verifications.consume v.row.id now db.verifications).1 db) in
                                  let last : end_credentials rt cfg user.id now mid ≡ (ok tt, db') =
                                    ground arith in
                                  let done = end_credentials-Ended user.id now mid in
                                  let users_kept = end_credentials-users user.id now mid in
                                  (
                                    good,
                                    record {
                                      link = v;
                                      user = user;
                                      patched = patched;
                                      users = users;
                                      live = e;
                                      same_address = ground arith;
                                      consumed = ground arith;
                                      changed = made;
                                      after_users = sym (ap (λ x. x.1.users) last) ∙ users_kept;
                                      ended = subst (Ended user.id) (ap (λ x. x.1) last) done.1;
                                      links =
                                          sym (ap (λ x. x.1.verifications) last)
                                          ∙ end_credentials-links user.id now mid;
                                    },
                                  )
                            ]
                  ]
            ]
      ]

  -- A link that is consumed, or unknown to the call, is refused whatever the call handles.
  find_link-consumed :
      (handles : TokenPurpose → Bool) (token : String) (now : ℕ) (db : Db) (row : VerificationToken)
      → Verifications.find_by_hash rt.same (rt.hash_token token) db.verifications ≡ some row
      → is_some row.consumed_at ≡ true
      → find_link rt cfg handles token now db
        ≡ (err (Failure.app ErrorCode.invalid_verification_link), db)
  unfolding find_link
  find_link-consumed handles token now db row e u = elim (Bool-cases (handles row.purpose)) [
    | inl own ↦ ground arith
    | inr other ↦ ground arith
  ]

  -- A reset link works once. After a reset, the same link is refused, at any time, by the reset and by
  -- the two calls for other purposes, and nothing is written. It is refused as invalid, but that a
  -- further reset whose password the policy refuses gives the policy's error. The table of links is
  -- well formed, and its collation an equivalence.
  pub reset_password_once :
      (common : String → Bool) (token password other : String) (now later : ℕ) (db db' : Db)
      → Collates rt.same
      → IsTable rt.same db.verifications
      → reset_password rt cfg common token password now db ≡ (ok tt, db')
      → let refused = Failure.app ErrorCode.invalid_verification_link in
        (reset_password rt cfg common token other later db' ≡ (
          elim (assert_acceptable_password common other min_length) [
            | ok u ↦ err refused
            | err e ↦ err e
          ],
          db',
        ))
        × (confirm rt cfg token later db' ≡ (err refused, db'))
        × (redeem_verification rt cfg token later db' ≡ (err refused, db'))
  unfolding reset_password confirm redeem_verification
  reset_password_once common token password other now later db db' c i h =
      let (_, r) = reset_password-ok common token password now db db' h in
      let v = r.link in
      let (won, i', found) =
        consume-found rt.same c (rt.hash_token token) v.row now db.verifications i v.found
          v.unspent in
      let still =
        consume_all-found rt.same c (rt.hash_token token) r.user.id account_changing_purposes now
          (Verifications.consumed_row now v.row) _ i' found refl in
      let at : Verifications.find_by_hash rt.same (rt.hash_token token) db'.verifications
          ≡ some (Verifications.consumed_row now v.row) =
        rw (r.links, won) still in
      let refused = λ (handles : TokenPurpose → Bool).
        find_link-consumed handles token later db' (Verifications.consumed_row now v.row) at refl in
      let a = refused (purpose_eq password_reset) in
      let b = refused (needs_no_form rt cfg) in
      let d = refused (purpose_eq verify_email) in
      (
        elim (Result-cases (assert_acceptable_password common other min_length)) [
          | inl (u, good) ↦ ground arith
          | inr (e, bad) ↦ ground arith
        ],
        ground arith,
        ground arith,
      )

  -- Acting on a link writes only to the accounts.
  act_on-users :
      (row : VerificationToken) (user : User) (now : ℕ) (db db' : Db)
      → act_on rt cfg row user now db ≡ (ok tt, db')
      → db' ≡ put_users db'.users db
  unfolding act_on
  act_on-users row user now db db' h =
      elim (Result-cases
        (Users.update rt.same user.id (new_address rt cfg row.email) now db.users)) [
          | inl ((patched, users), made) ↦ elim (Bool-cases (purpose_eq row.purpose email_change)) [
            | inl change ↦ elim (Bool-cases (purpose_eq row.purpose account_deletion)) [
              | inl both ↦ ground arith
              | inr one ↦ ground arith
            ]
            | inr other ↦ elim (Bool-cases (purpose_eq row.purpose account_deletion)) [
              | inl both ↦ ground arith
              | inr one ↦ ground arith
            ]
          ]
          | inr (x, bad) ↦ elim (Bool-cases (purpose_eq row.purpose email_change)) [
            | inl change ↦ absurd (ground arith)
            | inr other ↦ elim (Bool-cases (purpose_eq row.purpose account_deletion)) [
              | inl both ↦ ground arith
              | inr one ↦ ground arith
            ]
          ]
        ]

  -- A confirmation succeeds only with a link for an email change or a deletion that is stored,
  -- unconsumed and unexpired, of an account that is there; for an email change, no other account holds
  -- the address. The link is consumed, and what is written besides is only to the accounts.
  pub confirm-ok :
      (token : String) (now : ℕ) (db db' : Db) (c : Confirmed)
      → confirm rt cfg token now db ≡ (ok c, db')
      → (v : Valid (needs_no_form rt cfg) token now db) × (user : User) × (Users.find_by_id
            v.row.user_id db.users
          ≡ some user)
        × ((purpose_eq v.row.purpose email_change
              && held_by_other rt cfg
                  (Users.find_any_by_email rt.same v.row.email db.users)
                  user.id)
            ≡ false)
        × ((Verifications.consume v.row.id now db.verifications).0 ≡ true)
        × (c ≡ record { purpose = v.row.purpose; user_id = v.row.user_id; email = v.row.email })
        × (db'
            ≡ put_users db'.users
                (put_verifications (Verifications.consume v.row.id now db.verifications).1 db))
  unfolding confirm consume_link
  confirm-ok token now db db' c h =
      elim (call-cases (find_link rt cfg (needs_no_form rt cfg) token now db)) [
        | inr (e, d, bad) ↦ absurd (ground arith)
        | inl (row, d, found) ↦
            let (v, same, still) =
              find_link-Valid (needs_no_form rt cfg) token now db d row found in
            elim (Option-cases (Users.find_by_id v.row.user_id db.users)) [
              | inl e ↦ absurd (ground arith)
              | inr (user, e) ↦
                  let mid =
                    put_verifications (Verifications.consume v.row.id now db.verifications).1 db in
                  elim (call-cases (act_on rt cfg v.row user now mid)) [
                    | inr (x, d', bad) ↦ absurd (ground arith)
                    | inl (u, d', done) ↦
                        let only = act_on-users v.row user now mid d' done in
                        let last : db' ≡ d' = ground arith in
                        (v, user, e, ground arith, ground arith, ground arith, rw last only)
                  ]
            ]
      ]
