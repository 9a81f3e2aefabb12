-- ===== src/Repo/Tokens/Laws.antt =====
-- The refresh token table keeps its primary key and its unique index, whatever is called.
use authx.Prelude.{
  ℕ, String, Bool, true, none, some, ◌≡◌, refl, inl, inr, arith, Option-cases, Bool-cases, is_some,
  eq_iff, not, ◌&&◌, [], ◌∷◌,
}
use authx.Prelude.Map.{get, first_error, update_where, count_where}
use authx.Prelude.Map.Laws.{get-set_self, get-update_where}
use authx.Prelude.Map.Search.{first_error-none}
use authx.Prelude.Map.Index.{
  Collates, Indexed, Fresh, Fresh-replace, insert-Indexed, replace-Indexed, update_where-Indexed,
  delete_where-Indexed, find_value-key,
}
use authx.Errors.{ok}
use authx.Repo.Tokens.{
  RefreshToken, NewRefreshToken, Table, active_row, revoked_row, owned_by, clash, create,
  find_by_hash, rotate, revoke, revoke_all_for_user, delete_all_for_user, delete_expired_before,
  Call, creates, rotates, revokes, revokes_all, deletes_all, deletes_expired, step, after_create,
  after_rotate,
}

abbrev pub IsTable : (String → String → Bool) → Table → Type 0
IsTable same = Indexed (λ t. t.id) (λ t. t.token_hash) same

module _ (same : String → String → Bool) where
  pub clash-Fresh :
      (t : NewRefreshToken) (m : Table)
      → first_error (clash same t) m ≡ none
      → Fresh (λ r. r.id) (λ r. r.token_hash) same (active_row t) m
  clash-Fresh t m h k w e = let c = first_error-none (clash same t) k w m h e in ground arith

  pub create-IsTable :
      Collates same
      → (t : NewRefreshToken) (m : Table) → IsTable same m
      → IsTable same (after_create m (create same t m))
  unfolding create
  create-IsTable c t m i = elim (Option-cases (first_error (clash same t) m)) [
    | inl free ↦
        rw (free, create)
          (insert-Indexed (λ r. r.id) (λ r. r.token_hash) same c (active_row t) m i
            (clash-Fresh t m free))
    | inr (e, taken) ↦ rw (taken, create) i
  ]

  pub create-row :
      (t : NewRefreshToken) (m m' : Table)
      → create same t m ≡ ok m'
      → get t.id m' ≡ some (active_row t)
  unfolding create
  create-row t m m' h = elim (Option-cases (first_error (clash same t) m)) [
    | inl free ↦ ground (arith, get-set_self t.id (active_row t) m)
    | inr (e, taken) ↦ absurd (ground arith)
  ]

  pub rotate-IsTable :
      Collates same
      → (old_id : String) (t : NewRefreshToken) (now : ℕ) (m : Table) → IsTable same m
      → IsTable same (after_rotate m (rotate same old_id t now m))
  unfolding rotate
  rotate-IsTable c old_id t now m i = elim (Option-cases (get old_id m)) [
    | inl e ↦ rw (e, rotate) i
    | inr (old, e) ↦ elim (Bool-cases (is_some old.revoked_at)) [
      | inl dead ↦ rw (e, rotate, dead) i
      | inr live ↦ elim (Option-cases (first_error (clash same t) m)) [
        | inl free ↦
            rw (e, rotate, live, free)
              (insert-Indexed (λ r. r.id) (λ r. r.token_hash) same c (active_row t) _
                (replace-Indexed (λ r. r.id) (λ r. r.token_hash) same old_id old _ m i e refl refl)
                (Fresh-replace (λ r. r.id) (λ r. r.token_hash) same (active_row t) old_id old _ m
                  (clash-Fresh t m free) e refl refl))
        | inr (x, taken) ↦ rw (e, rotate, live, taken) i
      ]
    ]
  ]

  revoke-IsTable :
      (id : String) (now : ℕ) (m : Table) → IsTable same m → IsTable same (revoke id now m)
  unfolding revoke
  revoke-IsTable id now m i = elim (Option-cases (get id m)) [
    | inl e ↦ rw (e, revoke) i
    | inr (t, e) ↦
        rw (e, revoke) (replace-Indexed (λ r. r.id) (λ r. r.token_hash) same id t _ m i e refl refl)
  ]

  -- Whatever is called, at whatever time, every row stays under its own id and no two rows have
  -- token hashes that the collation identifies; the collation is an equivalence.
  pub step-IsTable :
      Collates same → (c : ℕ × Call) (m : Table) → IsTable same m → IsTable same (step same c m)
  unfolding step revoke_all_for_user delete_all_for_user delete_expired_before
  step-IsTable c (now, creates t) m i = create-IsTable c t m i
  step-IsTable c (now, rotates old t) m i = rotate-IsTable c old t now m i
  step-IsTable c (now, revokes id) m i = revoke-IsTable id now m i
  step-IsTable c (now, revokes_all user) m i =
      update_where-Indexed (λ r. r.id) (λ r. r.token_hash) same _ _ m (λ v. (refl, refl)) i
  step-IsTable c (now, deletes_all user) m i =
      delete_where-Indexed (λ r. r.id) (λ r. r.token_hash) same _ m i
  step-IsTable c (now, deletes_expired cutoff) m i =
      delete_where-Indexed (λ r. r.id) (λ r. r.token_hash) same _ m i

  -- Lookup by hash finds exactly the row whose hash collates with it, revoked or not.
  pub find_by_hash-row :
      Collates same
      → (h : String) (t : RefreshToken) (m : Table) → IsTable same m
      → get t.id m ≡ some t
      → same t.token_hash h ≡ true
      → find_by_hash same h m ≡ some t
  unfolding find_by_hash
  find_by_hash-row c h t m i at s =
      find_value-key (λ r. r.id) (λ r. r.token_hash) same h t m c i at s

-- An active token of the account.
abbrev pub active_of : String → RefreshToken → Bool
active_of user_id t = owned_by user_id t && not (is_some t.revoked_at)

-- Revoking all of an account's tokens leaves none of them active.
pub revoke_all-none_active :
    (user_id : String) (now : ℕ) (m : Table)
    → count_where (active_of user_id) (revoke_all_for_user user_id now m) ≡ 0
unfolding revoke_all_for_user update_where count_where
revoke_all-none_active user_id now [] = refl
revoke_all-none_active user_id now ((k, t) ∷ m) = elim (Bool-cases (owned_by user_id t)) [
  | inl own ↦ ground (arith, revoke_all-none_active user_id now m)
  | inr other ↦ ground (arith, revoke_all-none_active user_id now m)
]

pub revoke_all-own :
    (user_id : String) (now : ℕ) (k : String) (t : RefreshToken) (m : Table)
    → get k m ≡ some t
    → t.user_id ≡ user_id
    → get k (revoke_all_for_user user_id now m) ≡ some (revoked_row now t)
unfolding revoke_all_for_user
revoke_all-own user_id now k t m h e =
    ground
      (arith, get-update_where (owned_by user_id) (revoked_row now) k m, eq_iff t.user_id user_id)
