-- ===== src/Repo/Sessions/Laws.antt =====
-- The table of sessions: a session is found by its token until it is revoked or expires.
use authx.Prelude.{
  ℕ, String, Bool, none, some, ◌≡◌, refl, inl, inr, arith, Option-cases, Bool-cases, ◌<◌, ◌≤◌,
  eq_iff,
}
use authx.Prelude.Map.{get, set, first_error}
use authx.Prelude.Map.Laws.{get-set_inv}
use authx.Prelude.Map.Search.{
  first_error-none, find_value-some, find_value-absent, find_value-set_new, find_value-none,
}
use authx.Prelude.Map.Index.{Collates, Indexed, Fresh, Fresh-absent, replace-Indexed}
use authx.Errors.{ok}
use authx.Repo.Sessions.{
  Session, NewSession, Table, fresh_row, revoked_row, clash, create, active,
  find_active_by_token_hash, revoke,
}

abbrev pub IsTable : (String → String → Bool) → Table → Type 0
IsTable same = Indexed (λ s. s.id) (λ s. s.token_hash) same

module _ (same : String → String → Bool) where
  clash-Fresh :
      (s : NewSession) (now : ℕ) (m : Table)
      → first_error (clash same s) m ≡ none
      → Fresh (λ r. r.id) (λ r. r.token_hash) same (fresh_row s now) m
  clash-Fresh s now m h k w e = let c = first_error-none (clash same s) k w m h e in ground arith

  -- A new session is found by its token until it expires.
  pub create-found :
      Collates same
      → (s : NewSession) (now later : ℕ) (m m' : Table) → IsTable same m
      → later < s.expires_at
      → create same s now m ≡ ok m'
      → find_active_by_token_hash same s.token_hash later m' ≡ some (fresh_row s now)
  unfolding create find_active_by_token_hash
  create-found c s now later m m' i l h = elim (Option-cases (first_error (clash same s) m)) [
    | inr (e, taken) ↦ absurd (ground arith)
    | inl free ↦
        let f = clash-Fresh s now m free in
        let absent = Fresh-absent (λ r. r.id) (λ r. r.token_hash) same (fresh_row s now) m i f in
        let missed =
          find_value-absent (active same s.token_hash later) m i.distinct
            (λ k w e. let x = f k w e in ground arith) in
        let own = c.same_refl s.token_hash in
        let found =
          find_value-set_new (active same s.token_hash later) s.id (fresh_row s now) m absent missed
            (ground arith) in
        ground arith
  ]

  -- A token that finds no session finds none later.
  pub missed-later :
      (h : String) (now later : ℕ) (m : Table)
      → IsTable same m
      → now ≤ later
      → find_active_by_token_hash same h now m ≡ none
      → find_active_by_token_hash same h later m ≡ none
  unfolding find_active_by_token_hash
  missed-later h now later m i le e =
      find_value-absent (active same h later) m i.distinct
        (λ k w x. let n = find_value-none (active same h now) k w m e x in ground arith)

  -- Once the session that a token finds is revoked, the token finds none.
  pub revoke-ends :
      Collates same
      → (h : String) (s : Session) (now later : ℕ) (m : Table) → IsTable same m
      → find_active_by_token_hash same h now m ≡ some s
      → find_active_by_token_hash same h later (revoke s.id now m) ≡ none
  unfolding find_active_by_token_hash revoke
  revoke-ends c h s now later m i e =
      let (k, at, a) = find_value-some (active same h now) s m i.distinct e in
      let own : s.id ≡ k = i.keyed k s at in
      let here : get s.id m ≡ some s = ground arith in
      let i' =
        replace-Indexed (λ r. r.id) (λ r. r.token_hash) same s.id s (revoked_row now s) m i here
          refl refl in
      rw (here, revoke)
        (find_value-absent (active same h later) (set s.id (revoked_row now s) m) i'.distinct
          (λ k w x. elim (get-set_inv k s.id (revoked_row now s) w m x) [
            | inl (hit, new) ↦ ground arith
            | inr (miss, old) ↦ elim (Bool-cases (same w.token_hash h)) [
              | inr other ↦ ground arith
              | inl also ↦
                  let hs = c.same_sym s.token_hash h (ground arith) in
                  let o =
                    i.unique k s.id w s old here
                      (c.same_trans w.token_hash h s.token_hash also hs) in
                  absurd (ground (arith, eq_iff s.id k))
            ]
          ]))
