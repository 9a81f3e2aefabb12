-- ===== src/Auth/Login/Sso.antt =====
-- The sessions of the hosted login: auth.service.ts `createSession`, `resolveSession`,
-- `userIdForSession` and `logout`.
use authx.Prelude.{
  ℕ, String, true, none, some, ◌≡◌, inl, inr, arith, Option-cases, is_some, ◌+◌, ◌*◌, ◌<◌, ◌≤◌,
}
use authx.Prelude.Map.Index.{Collates}
use authx.Errors.{ok, Result-cases}
use authx.Repo.Users
use authx.Repo.Sessions.{Session}
use authx.Repo.Sessions
use authx.Repo.Sessions.Laws.{IsTable, create-found, revoke-ends, missed-later}
use authx.Service.{Config, Runtime, Db}
use authx.Auth.{Drawn, create_session, active_session, if_subject_exists, subject_exists}
use authx.Auth.Login.{resolve_session, user_id_for_session, logout, revoke_session}
use authx.Auth.Login.Factors.{new_session}

module _ (rt : Runtime) (cfg : Config) where
  -- A session that a sign-in has opened resolves to its account and the time of the sign-in, until it
  -- expires; as long as the account is there. The table of sessions is well formed, and its collation
  -- an equivalence.
  pub resolve-create :
      (user_id : String) (d : Drawn) (now later : ℕ) (db db' : Db) (s : String × String)
      → Collates rt.same
      → IsTable rt.same db.sessions
      → is_some (Users.find_by_id user_id db.users) ≡ true
      → later < now + cfg.sso_session_ttl * 1000
      → create_session rt cfg user_id d now db ≡ (ok s, db')
      → (s ≡ (d.token, user_id))
        × (resolve_session rt cfg d.token later db' ≡ (ok (some (user_id, now)), db'))
  unfolding create_session resolve_session active_session if_subject_exists subject_exists
  resolve-create user_id d now later db db' s c i live l h =
      elim (Result-cases
        (Sessions.create rt.same (new_session rt cfg user_id d now) now db.sessions)) [
          | inr (x, bad) ↦ absurd (ground arith)
          | inl (table, made) ↦
              let found =
                create-found rt.same c (new_session rt cfg user_id d now) now later db.sessions
                  table i l made in
              (ground arith, ground arith)
        ]

  -- After a logout, the token resolves to no account, at any later time. The table of sessions is well
  -- formed, and its collation an equivalence.
  pub logout-ends :
      (token : String) (now later : ℕ) (db : Db)
      → Collates rt.same
      → IsTable rt.same db.sessions
      → now ≤ later
      → let (r, db') = logout rt cfg token now db in
        (r ≡ ok tt)
        × (user_id_for_session rt cfg token later db' ≡ (ok none, db'))
        × (resolve_session rt cfg token later db' ≡ (ok none, db'))
  unfolding logout revoke_session user_id_for_session resolve_session active_session
      if_subject_exists
  logout-ends token now later db c i le =
      elim (Option-cases
        (Sessions.find_active_by_token_hash rt.same (rt.hash_token token) now db.sessions)) [
          | inl e ↦
              let gone = missed-later rt.same (rt.hash_token token) now later db.sessions i le e in
              (ground arith, ground arith, ground arith)
          | inr (s, e) ↦
              let gone = revoke-ends rt.same c (rt.hash_token token) s now later db.sessions i e in
              (ground arith, ground arith, ground arith)
        ]
