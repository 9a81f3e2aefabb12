-- ===== src/UserRoutes/Addresses.antt =====
-- The routes of accounts, and the addresses and times of deletion of the accounts.
use authx.Prelude.{
  ℕ, String, Bool, true, false, Option, none, some, ◌≡◌, refl, ap, arith, ◌==◌, ◌&&◌, ◌||◌, not,
  includes,
}
use authx.Errors.{ErrorCode}
use authx.Repo.Users.{User, apply_patch}
use authx.Repo.Users
use authx.Service.{Config, Runtime, Db, M, ◌>>=◌, query, pure}
use authx.Service.Keeps.{
  Keeps, bind-Keeps, bind_from-Keeps, if-Keeps, query-Keeps, pure-Keeps, guard-Keeps,
}
use authx.Auth.{Drawn}
use authx.Verification.{start_email_change, start_account_deletion}
use authx.Accounts.{UpdateInput, get_by_id}
use authx.Authorize.{
  Claims, Caller, has_permission, require_permission, require_self_or_permission, require_auth,
  require_auth-caller, require_auth-same, permissions_of, text_or_empty, platform_audience,
}
use authx.UserRoutes.{
  Route, account, accounts, done, get_me, get_users, get_user, patch_user, delete_user, change,
  own_change, apply_change, apply_delete, without_email, names_any, patch, delete, serve,
}
use authx.Accounts.Addresses.{
  address, update-Keeps, start_email_change-Keeps, start_account_deletion-Keeps, get_by_id-Keeps,
}

-- The token of an operator: the platform's, with a permission to change or delete any account.
abbrev pub operates : Claims → Bool
operates claims =
    let permissions = permissions_of (text_or_empty claims.scope) in
    claims.aud == platform_audience
    && (includes "users:update:any" permissions || includes "users:delete:any" permissions)

-- The routes that work on an account that is there, but for the one that links a Google account.
abbrev pub manages : Route → Bool
manages get_me = true
manages get_users = true
manages (get_user id) = true
manages (patch_user id input d) = true
manages (delete_user id d) = true
manages _ = false

module _ (rt : Runtime) (cfg : Config) (common : String → Bool) (j : String) where
  change-Keeps :
      (id : String) (input : UpdateInput) (is_self : Bool) (now : ℕ)
      → input.email ≡ none
      → Keeps (address j) (change rt cfg common id input is_self now)
  unfolding get_by_id
  change-Keeps id input is_self now e =
      if-Keeps (address j) (names_any input) _ _
        (update-Keeps rt cfg common j id input is_self now e) (get_by_id-Keeps rt cfg common j id)

  -- Who passes the guard of a route without its permission is the account itself.
  own_account : (a b : Bool) → (not a && not b) ≡ false → b ≡ false → a ≡ true
  own_account a b h e = ground arith

  own_change-Keeps :
      (id : String) (input : UpdateInput) (email : Option String) (d : Drawn) (now : ℕ)
      → input.email ≡ email
      → Keeps (address j) (own_change rt cfg common id input email d now)
  own_change-Keeps id input none d now e =
      bind-Keeps (address j) (change rt cfg common id input true now) _
        (change-Keeps id input true now e) (λ u. pure-Keeps (address j) (account u 200))
  own_change-Keeps id input (some email) d now e =
      bind-Keeps (address j) (change rt cfg common id (without_email input) true now) _
        (change-Keeps id (without_email input) true now refl)
        (λ u.
          bind-Keeps (address j) (start_email_change rt cfg id email d now) _
            (start_email_change-Keeps rt cfg common j id email d now)
            (λ sent. pure-Keeps (address j) (account u 202)))

  patch-Keeps :
      (id : String) (input : UpdateInput) (d : Drawn) (now : ℕ) (caller : Caller)
      → has_permission caller "users:update:any" ≡ false
      → Keeps (address j) (patch rt cfg common id input d now caller)
  unfolding patch require_self_or_permission
  patch-Keeps id input d now caller lacks =
      guard-Keeps (address j)
        (not (id == caller.id) && not (has_permission caller "users:update:any"))
        ErrorCode.forbidden (λ passed. apply_change rt cfg common id input d now caller)
        (λ passed.
          let own = own_account (id == caller.id) _ passed lacks in
          rw own (own_change-Keeps id input input.email d now refl))

  delete-Keeps :
      (id : String) (d : Drawn) (now : ℕ) (caller : Caller)
      → has_permission caller "users:delete:any" ≡ false
      → Keeps (address j) (delete rt cfg common id d now caller)
  unfolding delete require_self_or_permission
  delete-Keeps id d now caller lacks =
      guard-Keeps (address j)
        (not (id == caller.id) && not (has_permission caller "users:delete:any"))
        ErrorCode.forbidden (λ passed. apply_delete rt cfg common id d now caller)
        (λ passed.
          let own = own_account (id == caller.id) _ passed lacks in
          rw own (
            bind-Keeps (address j) (start_account_deletion rt cfg id d now) _
              (start_account_deletion-Keeps rt cfg common j id d now)
              (λ sent. pure-Keeps (address j) (done 202))))

  -- The answer with one account, and with all.
  account-Keeps :
      (id : String) → Keeps (address j) (get_by_id rt cfg common id >>= λ u. pure (account u 200))
  account-Keeps id =
      bind-Keeps (address j) (get_by_id rt cfg common id) _ (get_by_id-Keeps rt cfg common j id)
        (λ u. pure-Keeps (address j) (account u 200))

  list-Keeps :
      (caller : Caller)
      → Keeps (address j) (
          require_permission "users:list" caller >>= λ passed.
          query (λ db. Users.list db.users) >>= λ us. pure (accounts us))
  unfolding require_permission
  list-Keeps caller =
      guard-Keeps (address j) (not (has_permission caller "users:list")) ErrorCode.forbidden _
        (λ passed.
          bind-Keeps (address j) (query (λ db. Users.list db.users)) _ (query-Keeps (address j) _)
            (λ us. pure-Keeps (address j) (accounts us)))

  show-Keeps :
      (id : String) (caller : Caller)
      → Keeps (address j) (
          require_self_or_permission id "users:read:any" caller >>= λ passed.
          get_by_id rt cfg common id >>= λ u. pure (account u 200))
  unfolding require_self_or_permission
  show-Keeps id caller =
      guard-Keeps (address j)
        (not (id == caller.id) && not (has_permission caller "users:read:any")) ErrorCode.forbidden
        _ (λ passed. account-Keeps id)

  auth-Keeps :
      {A : Type 0} (verify : String → Option Claims) (token : String) (claims : Claims)
      (k : Caller → M A)
      → verify token ≡ some claims
      → ((caller : Caller)
          → caller.aud ≡ claims.aud
          → caller.permissions ≡ permissions_of (text_or_empty claims.scope)
          → Keeps (address j) (k caller))
      → Keeps (address j) (require_auth verify (some token) >>= k)
  unfolding Keeps
  auth-Keeps verify token claims k v h =
      bind_from-Keeps (address j) (require_auth verify (some token)) k
        (λ db. ap (address j) (require_auth-same verify (some token) db))
        (λ caller db db' in_.
          let (aud, permissions) = require_auth-caller verify token claims caller db db' v in_ in
          h caller aud permissions db')

  -- The permissions that make an operator.
  no_operator :
      (claims : Claims) (caller : Caller)
      → operates claims ≡ false
      → caller.aud ≡ claims.aud
      → caller.permissions ≡ permissions_of (text_or_empty claims.scope)
      → (has_permission caller "users:update:any" ≡ false)
        × (has_permission caller "users:delete:any" ≡ false)
  unfolding has_permission
  no_operator claims caller n aud permissions = rw (aud, permissions) (ground arith, ground arith)

  -- An access token alone neither moves an account's address nor deletes an account. Unless it is the
  -- platform's and has the permission to change or to delete any account, a request with it that reads,
  -- changes or deletes accounts leaves every account's address and its time of deletion as they were,
  -- its own account included, whether it is answered or refused.
  pub serve-keeps_address :
      (verify : String → Option Claims) (token : String) (claims : Claims) (route : Route) (now : ℕ)
      (db : Db)
      → verify token ≡ some claims
      → operates claims ≡ false
      → manages route ≡ true
      → address j (serve rt cfg common verify (some token) route now db).1 ≡ address j db
  unfolding Keeps serve require_permission require_self_or_permission
  serve-keeps_address verify token claims (patch_user id input d) now db v n m =
      auth-Keeps verify token claims (patch rt cfg common id input d now) v
        (λ caller aud ps. patch-Keeps id input d now caller (no_operator claims caller n aud ps).0)
        db
  serve-keeps_address verify token claims (delete_user id d) now db v n m =
      auth-Keeps verify token claims (delete rt cfg common id d now) v
        (λ caller aud ps. delete-Keeps id d now caller (no_operator claims caller n aud ps).1) db
  serve-keeps_address verify token claims get_me now db v n m =
      auth-Keeps verify token claims
        (λ caller. get_by_id rt cfg common caller.id >>= λ u. pure (account u 200)) v
        (λ caller aud ps. account-Keeps caller.id) db
  serve-keeps_address verify token claims get_users now db v n m =
      auth-Keeps verify token claims
        (λ caller. require_permission "users:list" caller >>= λ passed.
          query (λ db. Users.list db.users) >>= λ us. pure (accounts us))
        v (λ caller aud ps. list-Keeps caller) db
  serve-keeps_address verify token claims (get_user id) now db v n m =
      auth-Keeps verify token claims
        (λ caller. require_self_or_permission id "users:read:any" caller >>= λ passed.
          get_by_id rt cfg common id >>= λ u. pure (account u 200))
        v (λ caller aud ps. show-Keeps id caller) db
  serve-keeps_address verify token claims route now db v n m = absurd (cc)
