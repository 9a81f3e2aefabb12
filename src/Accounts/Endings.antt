-- ===== src/Accounts/Endings.antt =====
-- What ends with a password, and what with an account: users.service.ts `update`, `remove` and
-- `purgeDeletedBefore`.
use authx.Prelude.{
  ℕ, String, Bool, true, false, Option, none, some, ◌≡◌, refl, subst, inl, inr, arith, Option-cases,
  Bool-cases, ◌&&◌, not, count, count-keep-not, if◌then◌else◌, ◌==◌, eq_iff, ==-refl,
}
use authx.Prelude.Map.{get, count_where}
use authx.Prelude.Map.Laws.{Distinct, count_where-delete_where, get-delete}
use authx.Errors.{ok, Result-cases}
use authx.Passwords.{assert_acceptable_password, min_length}
use authx.Repo.Users.{User}
use authx.Repo.Users
use authx.Repo.Orgs
use authx.Repo.Tokens
use authx.Repo.Sessions
use authx.Repo.Codes
use authx.Repo.Verifications
use authx.Repo.Social
use authx.Repo.Totp
use authx.Repo.Passkeys
use authx.Service.{Config, Runtime, Db}
use authx.Service.Laws.{call-cases}
use authx.Service.Tables.{put_users}
use authx.Verification.{end_credentials}
use authx.Verification.Links.{Ended, end_credentials-Ended}
use authx.Accounts.{UpdateInput, update, not_empty, check_password, challenge, patch_of, purge_one}

module _ (rt : Runtime) (cfg : Config) (common : String → Bool) where
  -- The current password is given, and verifies against the stored hash.
  abbrev pub proves_password : User → Option String → Bool
  proves_password current given = elim (not_empty given) [
    | none ↦ false
    | some password ↦ elim current.password_hash [
      | none ↦ false
      | some hash ↦ rt.verify_password password hash
    ]
  ]

  challenge-proves :
      (current : User) (given : Option String) (db db' : Db)
      → challenge rt cfg common current given db ≡ (ok tt, db')
      → proves_password current given ≡ true
  unfolding challenge
  challenge-proves current given db db' h = elim (Option-cases (not_empty given)) [
    | inl e ↦ absurd (ground arith)
    | inr (password, e) ↦ elim (Option-cases current.password_hash) [
      | inl f ↦ absurd (ground arith)
      | inr (hash, f) ↦ ground arith
    ]
  ]

  challenge-db :
      (current : User) (given : Option String) (db db' : Db)
      → challenge rt cfg common current given db ≡ (ok tt, db')
      → db' ≡ db
  unfolding challenge
  challenge-db current given db db' h = elim (Option-cases (not_empty given)) [
    | inl e ↦ absurd (ground arith)
    | inr (password, e) ↦ elim (Option-cases current.password_hash) [
      | inl f ↦ absurd (ground arith)
      | inr (hash, f) ↦ ground arith
    ]
  ]

  -- No row of the account is left in the tables that the erasure covers.
  pub record Erased (id : String) (db : Db) : Type 0 where
    pub no_row : get id db.users.by_id ≡ none
    pub no_token : count_where (Tokens.owned_by id) db.tokens ≡ 0
    pub no_session : count_where (Sessions.owned_by id) db.sessions ≡ 0
    pub no_code : count_where (Codes.owned_by id) db.codes ≡ 0
    pub no_verification : count_where (Verifications.owned_by id) db.verifications ≡ 0
    pub no_link : count_where (Social.owned_by id) db.social ≡ 0
    pub no_role : get id db.users.user_role_names ≡ none
    pub no_membership : count (Orgs.member_row_of id) db.orgs.members ≡ 0
    pub no_authenticator : get id db.totps.totp ≡ none
    pub no_recovery : count (Totp.code_of id) db.totps.codes ≡ 0
    pub no_passkey : count (Passkeys.owned_by id) db.passkeys.rows ≡ 0
    pub no_challenge : count (Passkeys.challenge_of id) db.passkeys.challenges ≡ 0

  -- Erasing an account leaves none of its rows in the tables that the erasure covers: not its own row,
  -- nor its refresh tokens, sessions, codes, links, Google accounts, memberships, authenticator,
  -- recovery codes, passkeys, passkey challenges, and the role names that the table of accounts keeps.
  -- Every other account's own row stays. The tables of accounts, of their role names and of
  -- authenticators hold each key once.
  pub purge_one-Erased :
      (id other : String) (db : Db)
      → Distinct db.users.by_id
      → Distinct db.users.user_role_names
      → Distinct db.totps.totp
      → let (r, db') = purge_one rt cfg common id db in
        (r ≡ ok tt)
        × Erased id db'
        × (get other db'.users.by_id ≡ (if other == id then none else get other db.users.by_id))
  unfolding purge_one Tokens.delete_all_for_user Sessions.delete_all_for_user
      Codes.delete_all_for_user Verifications.delete_all_for_user Social.delete_all_for_user
      Totp.delete_all_for_user Passkeys.delete_all_for_user Users.erase Users.remove_all_roles
      Orgs.remove_all_memberships
  purge_one-Erased id other db d roles totps = (
    refl,
    record {
      no_row = ground (arith, get-delete id id db.users.by_id d, ==-refl id);
      no_token = count_where-delete_where (Tokens.owned_by id) db.tokens;
      no_session = count_where-delete_where (Sessions.owned_by id) db.sessions;
      no_code = count_where-delete_where (Codes.owned_by id) db.codes;
      no_verification = count_where-delete_where (Verifications.owned_by id) db.verifications;
      no_link = count_where-delete_where (Social.owned_by id) db.social;
      no_role = ground (arith, get-delete id id db.users.user_role_names roles, ==-refl id);
      no_membership = count-keep-not (Orgs.member_row_of id) db.orgs.members;
      no_authenticator = ground (arith, get-delete id id db.totps.totp totps, ==-refl id);
      no_recovery = count-keep-not (Totp.code_of id) db.totps.codes;
      no_passkey = count-keep-not (Passkeys.owned_by id) db.passkeys.rows;
      no_challenge = count-keep-not (Passkeys.challenge_of id) db.passkeys.challenges;
    },
    ground (arith, get-delete other id db.users.by_id d, eq_iff id other, eq_iff other id),
  )

  check_password-ok :
      (current : User) (input : UpdateInput) (require : Bool) (password : String) (db db' : Db)
      → check_password rt cfg common current input require (some password) db ≡ (ok tt, db')
      → ((require && not (proves_password current input.current_password)) ≡ false)
        × (assert_acceptable_password common password min_length ≡ ok tt)
        × (db' ≡ db)
  unfolding check_password
  check_password-ok current input require password db db' h =
      elim (Result-cases (assert_acceptable_password common password min_length)) [
        | inr (e, bad) ↦
            elim (call-cases (challenge rt cfg common current input.current_password db)) [
              | inl (u, d, done) ↦ elim (Bool-cases require) [
                | inl r ↦ absurd (ground arith)
                | inr r ↦ absurd (ground arith)
              ]
              | inr (x, d, refused) ↦ elim (Bool-cases require) [
                | inl r ↦ absurd (ground arith)
                | inr r ↦ absurd (ground arith)
              ]
            ]
        | inl (u, good) ↦ elim (Bool-cases require) [
          | inr r ↦ (ground arith, good, ground arith)
          | inl r ↦ elim (call-cases (challenge rt cfg common current input.current_password db)) [
            | inr (x, d, refused) ↦ absurd (ground arith)
            | inl (v, d, done) ↦
                let p = challenge-proves current input.current_password db d done in
                let same = challenge-db current input.current_password db d done in
                (ground arith, good, ground arith)
          ]
        ]
      ]

  -- A change that sets a new password succeeds only where the password is acceptable, and, for the
  -- account's own request, the current password is proven against the stored hash; an account without
  -- a password is never given one that way. Afterwards no credential of before is left: no active token
  -- or session, no passkey, no outstanding link that could change the account.
  pub update_password-ends :
      (id password : String) (input : UpdateInput) (require : Bool) (now : ℕ) (db db' : Db)
      (u : User)
      → not_empty input.password ≡ some password
      → update rt cfg common id input require now db ≡ (ok u, db')
      → (current : User) × (Users.find_by_id id db.users ≡ some current)
        × ((require && not (proves_password current input.current_password)) ≡ false)
        × (assert_acceptable_password common password min_length ≡ ok tt)
        × Ended rt cfg id db'
  unfolding update
  update_password-ends id password input require now db db' u p h =
      elim (Option-cases (Users.find_by_id id db.users)) [
        | inl e ↦ absurd (ground arith)
        | inr (current, e) ↦
            elim (call-cases
              (check_password rt cfg common current input require (some password) db)) [
                | inr (x, d, bad) ↦ absurd (ground arith)
                | inl (v, d, good) ↦
                    let (a, b, same) = check_password-ok current input require password db d good in
                    elim (Result-cases (
                      Users.update rt.same id (patch_of rt cfg common current input) now
                        db.users)) [
                          | inr (x, bad) ↦ absurd (ground arith)
                          | inl ((none, users), gone) ↦ absurd (ground arith)
                          | inl ((some w, users), made) ↦
                              let mid = put_users users db in
                              let done = (end_credentials-Ended rt cfg id now mid).0 in
                              let last : (end_credentials rt cfg id now mid).1 ≡ db' =
                                ground arith in
                              (
                                current,
                                e,
                                a,
                                b,
                                subst (Ended rt cfg id) last
                                    (end_credentials-Ended rt cfg id now mid).1,
                              )
                        ]
              ]
      ]
