-- ===== src/Repo/Tokens/Rotation.antt =====
-- Rotation is the only way to spend a refresh token for another, and it happens once.
use authx.Prelude.{
  ℕ, String, Bool, true, false, Option, none, some, ◌≡◌, ◌≢◌, inl, inr, ◌==◌, if◌then◌else◌, arith,
  Option-cases, Bool-cases, is_some, List, [], ◌∷◌, eq_iff, All,
}
use authx.Prelude.Map.{get, set, first_error}
use authx.Prelude.Map.Laws.{get-set, get-update_where, get-delete_where}
use authx.Prelude.Map.Index.{Collates}
use authx.Errors.{ok}
use authx.Repo.Tokens.{
  RefreshToken, NewRefreshToken, Table, active_row, revoked_row, owned_by, clash, create, rotate,
  revoke, revoke_all_for_user, delete_all_for_user, delete_expired_before, Call, creates, rotates,
  revokes, revokes_all, deletes_all, deletes_expired, step, after_rotate, won, expired_before,
}
use authx.Repo.Tokens.Laws.{IsTable, clash-Fresh, step-IsTable}

-- No active row stands under the id.
unfoldable pub spent : String → Table → Bool
spent id m = elim (get id m) [ none ↦ true | some t ↦ is_some t.revoked_at ]

-- The id of the row that a call would insert.
abbrev pub inserts : Call → Option String
inserts (creates t) = some t.id
inserts (rotates old t) = some t.id
inserts _ = none

module _ (same : String → String → Bool) where
  unfoldable pub run : List (ℕ × Call) → Table → Table
  run [] m = m
  run (c ∷ cs) m = run cs (step same c m)

  abbrev swapped : String → NewRefreshToken → ℕ → RefreshToken → Table → Table
  swapped old_id t now old m =
      set t.id (active_row t)
        (set old_id (record old { revoked_at = some now; replaced_by = some t.id }) m)

  rotate_inv :
      (old_id : String) (t : NewRefreshToken) (now : ℕ) (m : Table)
      → won (rotate same old_id t now m) ≡ true
      → (old : RefreshToken) × (get old_id m ≡ some old)
        × (old.revoked_at ≡ none)
        × (first_error (clash same t) m ≡ none)
        × (rotate same old_id t now m ≡ ok (true, swapped old_id t now old m))
  unfolding rotate
  rotate_inv old_id t now m w = elim (Option-cases (get old_id m)) [
    | inl e ↦ absurd (ground arith)
    | inr (old, e) ↦ (old, e, ground arith, ground arith, ground arith)
  ]

  pub rotate_wins :
      (old_id : String) (t : NewRefreshToken) (now : ℕ) (m : Table)
      → IsTable same m
      → won (rotate same old_id t now m) ≡ true
      → let m' = after_rotate m (rotate same old_id t now m) in
        (old : RefreshToken) × (get old_id m ≡ some old)
        × (old.revoked_at ≡ none)
        × (get old_id m' ≡ some (record old { revoked_at = some now; replaced_by = some t.id }))
        × (get t.id m' ≡ some (active_row t))
        × ((k : String) → k ≢ old_id → k ≢ t.id → get k m' ≡ get k m)
  rotate_wins old_id t now m i w =
      let (old, e, live, free, r) = rotate_inv old_id t now m w in
      let apart : (old_id == t.id) ≡ false =
        ground (arith, clash-Fresh same t m free old_id old e, i.keyed old_id old e) in
      rw r (
        old,
        e,
        live,
        ground (
          arith,
          get-set old_id t.id (active_row t) (set old_id (retired old) m),
          get-set old_id old_id (retired old) m,
          eq_iff t.id old_id,
          eq_iff old_id t.id,
          eq_iff old_id old_id,
        ),
        ground (
          arith,
          get-set t.id t.id (active_row t) (set old_id (retired old) m),
          eq_iff t.id t.id,
        ),
        λ k ne ne'. ground (
          arith,
          get-set k t.id (active_row t) (set old_id (retired old) m),
          get-set k old_id (retired old) m,
          eq_iff t.id k,
          eq_iff old_id k,
        ),
      )
    where
      retired : RefreshToken → RefreshToken
      retired old = record old { revoked_at = some now; replaced_by = some t.id }

  -- A rotation that wins finds the old row active, revokes it in favour of the new row, which is active,
  -- and touches no other row; the table is well formed.
  pub rotate-effect :
      (old_id k : String) (t : NewRefreshToken) (now : ℕ) (m : Table)
      → IsTable same m
      → won (rotate same old_id t now m) ≡ true
      → (old : RefreshToken) × (get old_id m ≡ some old)
        × (old.revoked_at ≡ none)
        × (get k (after_rotate m (rotate same old_id t now m)) ≡ (
            if k == t.id
            then some (active_row t)
            else if k == old_id
            then some (record old { revoked_at = some now; replaced_by = some t.id })
            else get k m))
  rotate-effect old_id k t now m i w =
      let (old, e, live, here, there, rest) = rotate_wins old_id t now m i w in
      (
        old,
        e,
        live,
        elim (Bool-cases (k == t.id)) [
          | inl a ↦ ground (arith, eq_iff k t.id)
          | inr a ↦ elim (Bool-cases (k == old_id)) [
            | inl b ↦ ground (arith, eq_iff k old_id)
            | inr b ↦ ground (arith, rest k, eq_iff k t.id, eq_iff k old_id)
          ]
        ],
      )

  -- A rotation that does not win leaves the table alone.
  rotate_loses :
      (old_id : String) (t : NewRefreshToken) (now : ℕ) (m : Table)
      → won (rotate same old_id t now m) ≡ false
      → after_rotate m (rotate same old_id t now m) ≡ m
  unfolding rotate
  rotate_loses old_id t now m w = ground arith

  spent-loses :
      (old_id : String) (t : NewRefreshToken) (now : ℕ) (m : Table)
      → spent old_id m ≡ true
      → won (rotate same old_id t now m) ≡ false
  unfolding spent rotate
  spent-loses old_id t now m s = ground arith

  wins-spent :
      (old_id : String) (t : NewRefreshToken) (now : ℕ) (m : Table)
      → IsTable same m
      → won (rotate same old_id t now m) ≡ true
      → spent old_id (after_rotate m (rotate same old_id t now m)) ≡ true
  unfolding spent
  wins-spent old_id t now m i w =
      let (old, e, live, here, there, rest) = rotate_wins old_id t now m i w in rw (here, spent)

  set-spent :
      (id k : String) (v : RefreshToken) (m : Table)
      → (k == id) ≡ false
      → spent id m ≡ true
      → spent id (set k v m) ≡ true
  unfolding spent
  set-spent id k v m ne s = ground (arith, get-set id k v m)

  -- A spent id stays spent under every call that inserts no row under it.
  step-spent :
      (id : String) (c : ℕ × Call) (m : Table)
      → IsTable same m
      → inserts c.1 ≢ some id
      → spent id m ≡ true
      → spent id (step same c m) ≡ true
  unfolding step spent create revoke revoke_all_for_user delete_all_for_user delete_expired_before
  step-spent id (now, creates t) m i ne s = elim (Option-cases (first_error (clash same t) m)) [
    | inl free ↦
        rw (free, create) (set-spent id t.id (active_row t) m (ground (arith, eq_iff t.id id)) s)
    | inr (e, taken) ↦ rw (taken, create) s
  ]
  step-spent id (now, rotates old t) m i ne s = elim (Bool-cases (won (rotate same old t now m))) [
    | inl w ↦
        let (o, e, live, free, r) = rotate_inv old t now m w in
        rw r (
          set-spent id t.id (active_row t) _ (ground (arith, eq_iff t.id id))
            (set-spent id old _ m (ground (arith, eq_iff old id)) s))
    | inr l ↦ rw (rotate_loses old t now m l) s
  ]
  step-spent id (now, revokes k) m i ne s = elim (Option-cases (get k m)) [
    | inl e ↦ rw (e, revoke) s
    | inr (t, e) ↦ rw (e, revoke) (ground (arith, get-set id k (revoked_row now t) m))
  ]
  step-spent id (now, revokes_all user) m i ne s =
      ground (arith, get-update_where (owned_by user) (revoked_row now) id m)
  step-spent id (now, deletes_all user) m i ne s =
      ground (arith, get-delete_where (owned_by user) id m i.distinct)
  step-spent id (now, deletes_expired cutoff) m i ne s =
      ground (arith, get-delete_where (expired_before cutoff) id m i.distinct)

  run-spent :
      Collates same
      → (id : String) (cs : List (ℕ × Call)) (m : Table) → IsTable same m
      → All (λ c. inserts c.1 ≢ some id) cs
      → spent id m ≡ true
      → spent id (run cs m) ≡ true
  unfolding run
  run-spent c id [] m i h s = s
  run-spent c id (x ∷ xs) m i h s =
      run-spent c id xs (step same x m) (step-IsTable same c x m i) h.1 (step-spent id x m i h.0 s)

  -- A refresh token is rotated at most once. After a rotation has won, no later one of the same id
  -- wins, whatever calls come between, at whatever times, as long as none of them inserts a row
  -- under that id again; the table is well formed at the start.
  pub rotate_once :
      Collates same
      → (old_id : String) (t u : NewRefreshToken) (now later : ℕ) (cs : List (ℕ × Call)) (m : Table)
      → IsTable same m
      → All (λ c. inserts c.1 ≢ some old_id) cs
      → won (rotate same old_id t now m) ≡ true
      → won (rotate same old_id u later (run cs (after_rotate m (rotate same old_id t now m))))
        ≡ false
  unfolding step
  rotate_once c old_id t u now later cs m i h w = spent-loses old_id u later _ (
      run-spent c old_id cs _ (step-IsTable same c (now, rotates old_id t) m i) h
        (wins-spent old_id t now m i w))
