-- ===== src/Accounts/Addresses.antt =====
-- The addresses and times of deletion of the accounts, under users.service.ts `update` and the requests
-- for a link of verification.service.ts.
use authx.Prelude.{
  ℕ, String, Bool, Option, none, some, ◌≡◌, refl, inl, inr, arith, Bool-cases, Option-cases, eq_iff,
  ◌==◌, is_some,
}
use authx.Prelude.Map.{get}
use authx.Prelude.Map.Laws.{get-set}
use authx.Errors.{ErrorCode, Result, Result-cases}
use authx.Repo.Users.{User, apply_patch}
use authx.Repo.Users
use authx.Repo.Verifications.{TokenPurpose}
use authx.Repo.Verifications
use authx.Service.{Config, Runtime, Db, ◌>>=◌, query, some_or_throw, throw_if, when, pure}
use authx.Service.Tables.{users_attempt_ask}
use authx.Service.Keeps.{
  Keeps, bind-Keeps, throw_if-Keeps, some_or_throw-Keeps, if-Keeps, query-Keeps, pure-Keeps,
  when-Keeps,
}
use authx.Auth.{Drawn}
use authx.Verification.{
  link_row, need_address, held_by_other, start_email_change, start_account_deletion,
  start_confirmation, end_credentials, lift,
}
use authx.Passwords.{assert_acceptable_password, min_length}
use authx.Accounts.{
  UpdateInput, not_empty, patch_of, check_password, challenge, update, taken_by_other, get_by_id,
}

-- The address of an account and the time of its deletion, where there is a row.
abbrev pub address : String → Db → Option (Option String × Option ℕ)
address j db = elim (get j db.users.by_id) [ none ↦ none | some u ↦ some (u.email, u.deleted_at) ]

module _ (rt : Runtime) (cfg : Config) (common : String → Bool) (j : String) where
  users_update-Keeps :
      (id : String) (p : Users.Patch) (now : ℕ)
      → p.email ≡ none
      → Keeps (address j) (users_attempt_ask (Users.update rt.same id p now))
  unfolding Keeps Users.update
  users_update-Keeps id p now e db = elim (Option-cases (get id db.users.by_id)) [
    | inl missing ↦ ground arith
    | inr (u, there) ↦
        let own = get-set j id (apply_patch p now u) db.users.by_id in
        elim (Bool-cases (id == j)) [
          | inl same ↦
              let eq = (eq_iff id j).0 same in
              let here : get j db.users.by_id ≡ some u = rw (← eq) there in
              let kept : (apply_patch p now u).email ≡ u.email = rw e refl in ground arith
          | inr other ↦ ground arith
        ]
  ]

  start_confirmation-Keeps :
      (id : String) (purpose : TokenPurpose) (email to : String) (d : Drawn) (now : ℕ)
      → Keeps (address j) (start_confirmation rt cfg id purpose email to d now)
  unfolding Keeps start_confirmation
  start_confirmation-Keeps id purpose email to d now db =
      elim (Result-cases
        (Verifications.create rt.same (link_row rt cfg id purpose email d now) db.verifications)) [
          | inl (t, made) ↦ ground arith
          | inr (x, clash) ↦ ground arith
        ]

  end_credentials-Keeps :
      (id : String) (now : ℕ) → Keeps (address j) (end_credentials rt cfg id now)
  unfolding Keeps end_credentials
  end_credentials-Keeps id now db = refl

  challenge-Keeps :
      (u : User) (given : Option String) → Keeps (address j) (challenge rt cfg common u given)
  unfolding Keeps challenge
  challenge-Keeps u given db = elim (Option-cases (not_empty given)) [
    | inl e ↦ ground arith
    | inr (password, e) ↦ elim (Option-cases u.password_hash) [
      | inl f ↦ ground arith
      | inr (hash, f) ↦ ground arith
    ]
  ]

  lift-Keeps : (r : Result (Unit {0})) → Keeps (address j) (lift rt cfg r)
  unfolding Keeps
  lift-Keeps r db = refl

  check_password-Keeps :
      (u : User) (input : UpdateInput) (require : Bool) (password : Option String)
      → Keeps (address j) (check_password rt cfg common u input require password)
  unfolding check_password
  check_password-Keeps u input require none = pure-Keeps (address j) tt
  check_password-Keeps u input require (some password) =
      bind-Keeps (address j) (when require (challenge rt cfg common u input.current_password)) _
        (when-Keeps (address j) require _ (challenge-Keeps u input.current_password))
        (λ v. lift-Keeps (assert_acceptable_password common password min_length))

  updated-Keeps :
      (id : String) (input : UpdateInput) (is_self : Bool) (now : ℕ)
      → input.email ≡ none
      → (current : User)
      → Keeps (address j) (
          check_password rt cfg common current input is_self (not_empty input.password) >>= λ v.
          users_attempt_ask (Users.update rt.same id (patch_of rt cfg common current input) now)
          >>= λ patched. some_or_throw ErrorCode.user_not_found patched >>= λ u.
              when (is_some (not_empty input.password)) (end_credentials rt cfg id now) >>= λ w.
              pure u)
  updated-Keeps id input is_self now e current =
      bind-Keeps (address j)
        (check_password rt cfg common current input is_self (not_empty input.password)) _
        (check_password-Keeps current input is_self _)
        (λ v.
          bind-Keeps (address j)
            (users_attempt_ask (Users.update rt.same id (patch_of rt cfg common current input) now))
            _ (users_update-Keeps id (patch_of rt cfg common current input) now (ground (arith, e)))
            (λ patched.
              bind-Keeps (address j) (some_or_throw ErrorCode.user_not_found patched) _
                (some_or_throw-Keeps (address j) _ patched)
                (λ u.
                  bind-Keeps (address j)
                    (when (is_some (not_empty input.password)) (end_credentials rt cfg id now)) _
                    (when-Keeps (address j) _ _ (end_credentials-Keeps id now))
                    (λ w. pure-Keeps (address j) u))))

  pub update-Keeps :
      (id : String) (input : UpdateInput) (is_self : Bool) (now : ℕ)
      → input.email ≡ none
      → Keeps (address j) (update rt cfg common id input is_self now)
  unfolding update
  update-Keeps id input is_self now e =
      bind-Keeps (address j) (query (λ db. Users.find_by_id id db.users)) _
        (query-Keeps (address j) _)
        (λ found.
          bind-Keeps (address j) (some_or_throw ErrorCode.user_not_found found) _
            (some_or_throw-Keeps (address j) _ found)
            (λ current.
              bind-Keeps (address j)
                (query (taken_by_other rt cfg common id (not_empty input.email))) _
                (query-Keeps (address j) _)
                (λ taken.
                  bind-Keeps (address j) (throw_if taken ErrorCode.email_taken) _
                    (throw_if-Keeps (address j) taken _)
                    (λ v. updated-Keeps id input is_self now e current))))

  need_address-Keeps : (email : Option String) → Keeps (address j) (need_address rt cfg email)
  unfolding Keeps
  need_address-Keeps none db = refl
  need_address-Keeps (some a) db = ground arith

  pub start_email_change-Keeps :
      (id new : String) (d : Drawn) (now : ℕ)
      → Keeps (address j) (start_email_change rt cfg id new d now)
  unfolding start_email_change
  start_email_change-Keeps id new d now =
      bind-Keeps (address j) (query (λ db. Users.find_by_id id db.users)) _
        (query-Keeps (address j) _)
        (λ found.
          bind-Keeps (address j) (some_or_throw ErrorCode.user_not_found found) _
            (some_or_throw-Keeps (address j) _ found)
            (λ user.
              bind-Keeps (address j) (need_address rt cfg user.email) _
                (need_address-Keeps user.email)
                (λ old. if-Keeps (address j) (old == new) _ _ (pure-Keeps (address j) tt) (
                  bind-Keeps (address j)
                    (query (λ db. Users.find_any_by_email rt.same new db.users)) _
                    (query-Keeps (address j) _)
                    (λ holder.
                      bind-Keeps (address j)
                        (throw_if (held_by_other rt cfg holder id) ErrorCode.email_taken) _
                        (throw_if-Keeps (address j) _ _)
                        (λ v.
                          start_confirmation-Keeps id Verifications.email_change new old d now))))))

  pub start_account_deletion-Keeps :
      (id : String) (d : Drawn) (now : ℕ)
      → Keeps (address j) (start_account_deletion rt cfg id d now)
  unfolding start_account_deletion
  start_account_deletion-Keeps id d now =
      bind-Keeps (address j) (query (λ db. Users.find_by_id id db.users)) _
        (query-Keeps (address j) _)
        (λ found.
          bind-Keeps (address j) (some_or_throw ErrorCode.user_not_found found) _
            (some_or_throw-Keeps (address j) _ found)
            (λ user.
              bind-Keeps (address j) (need_address rt cfg user.email) _
                (need_address-Keeps user.email)
                (λ old. start_confirmation-Keeps id Verifications.account_deletion old old d now)))

  pub get_by_id-Keeps : (id : String) → Keeps (address j) (get_by_id rt cfg common id)
  unfolding get_by_id
  get_by_id-Keeps id =
      bind-Keeps (address j) (query (λ db. Users.find_by_id id db.users)) _
        (query-Keeps (address j) _)
        (λ found. some_or_throw-Keeps (address j) ErrorCode.user_not_found found)
