-- ===== src/Repo/Rbac/Steps.antt =====
-- Each call on the tables of roles and permissions, answered by a change of the abstract state.
use authx.Prelude.{
  String, Bool, true, false, ◌≡◌, refl, sym, ◌∙◌, ap, subst, inl, inr, arith, ◌==◌, Bool-cases,
  Option-cases, eq_iff,
}
use authx.Prelude.Text.{Free}
use authx.Prelude.Map.{first_error}
use authx.Prelude.Map.Laws.{get-set, set-Distinct}
use authx.Prelude.Map.Search.{first_error-none, first_error-some}
use authx.Prelude.TextSet.{includes-add, includes-remove, add-Distinct, remove-Distinct}
use authx.Errors.{Result, ok, err}
use authx.Repo.Rbac.{
  Role, Permission, Rbac, grant_key, create_role, create_permission, role_clash, permission_clash,
  grant_permission_to_role, revoke_permission_from_role, assign_role_to_user, assign_role_to_client,
  remove_role_from_user, remove_role_from_client,
}
use authx.Repo.Rbac.Keys.{colon, grant_key-eq}
use authx.Repo.Rbac.Abstract.{
  Abs, update, update_pair, Call, creates_role, creates_permission, grants, revokes, assigns,
  removes, assigns_client, removes_client, Change,
}
use authx.Repo.Rbac.Relation.{
  Refines, assign-Sets, drop-Sets, with_grants, with_users, with_clients,
}

abbrev pub or_same : Rbac → Result Rbac → Rbac
or_same s (ok t) = t
or_same s (err e) = s

-- A new row's id has no colon, as a random UUID has none.
abbrev pub PlainId : Call → Type 0
PlainId (creates_role r) = Free colon r.id
PlainId (creates_permission p) = Free colon p.id
PlainId _ = Unit

module _ (same : String → String → Bool) where
  abbrev pub step : Call → Rbac → Rbac
  step (creates_role r) s = or_same s (create_role same r s)
  step (creates_permission p) s = or_same s (create_permission same p s)
  step (grants r p) s = grant_permission_to_role r p s
  step (revokes r p) s = revoke_permission_from_role r p s
  step (assigns u r) s = assign_role_to_user u r s
  step (removes u r) s = remove_role_from_user u r s
  step (assigns_client c r) s = assign_role_to_client c r s
  step (removes_client c r) s = remove_role_from_client c r s

  -- One abstract change answers a call.
  abbrev pub Answers : Call → Rbac → Abs → Type 0
  Answers c s a = (b : Abs) × Change same c a b × Refines (step c s) b

  create_role-Answers :
      (r : Role) (s : Rbac) (a : Abs) → Free colon r.id → Refines s a → Answers (creates_role r) s a
  unfolding create_role
  create_role-Answers r s a f i = elim (Option-cases (first_error (role_clash same r) s.roles)) [
    | inr (e, taken) ↦
        let (k, x, at, clash) = first_error-some _ e s.roles i.roles_distinct taken in
        (
          a,
          Change.role_refused r a k x (sym (i.roles k) ∙ at) (rw clash refl),
          rw (create_role, taken) i,
        )
    | inl free ↦ (
      record a { role = update a.role r.id r },
      Change.role_created r a (λ id x e. first_error-none _ id x s.roles free (i.roles id ∙ e)),
      rw (create_role, free)
          (record {
            roles_distinct = set-Distinct r.id r s.roles i.roles_distinct;
            perms_distinct = i.perms_distinct;
            plain_roles = λ k x e. elim (Bool-cases (r.id == k)) [
              | inl own ↦ subst (Free colon) ((eq_iff r.id k).0 own) f
              | inr other ↦ i.plain_roles k x (ground (arith, get-set k r.id r s.roles))
            ];
            plain_perms = i.plain_perms;
            grants_distinct = i.grants_distinct;
            roles = λ id. rw (get-set id r.id r s.roles, i.roles id) refl;
            perms = i.perms;
            granted = i.granted;
            users = i.users;
            clients = i.clients;
          }),
    )
  ]

  create_permission-Answers :
      (p : Permission) (s : Rbac) (a : Abs)
      → Free colon p.id
      → Refines s a
      → Answers (creates_permission p) s a
  unfolding create_permission
  create_permission-Answers p s a f i =
      elim (Option-cases (first_error (permission_clash same p) s.perms)) [
        | inr (e, taken) ↦
            let (k, x, at, clash) = first_error-some _ e s.perms i.perms_distinct taken in
            (
              a,
              Change.permission_refused p a k x (sym (i.perms k) ∙ at) (rw clash refl),
              rw (create_permission, taken) i,
            )
        | inl free ↦ (
          record a { permission = update a.permission p.id p },
          Change.permission_created p a
              (λ id x e. first_error-none _ id x s.perms free (i.perms id ∙ e)),
          rw (create_permission, free)
              (record {
                roles_distinct = i.roles_distinct;
                perms_distinct = set-Distinct p.id p s.perms i.perms_distinct;
                plain_roles = i.plain_roles;
                plain_perms = λ k x e. elim (Bool-cases (p.id == k)) [
                  | inl own ↦
                      let at = (eq_iff p.id k).0 own in
                      let new : x ≡ p = ground (arith, get-set k p.id p s.perms) in
                      (subst (Free colon) at f, ap (λ y. y.id) new ∙ at)
                  | inr other ↦ i.plain_perms k x (ground (arith, get-set k p.id p s.perms))
                ];
                grants_distinct = i.grants_distinct;
                roles = i.roles;
                perms = λ id. rw (get-set id p.id p s.perms, i.perms id) refl;
                granted = i.granted;
                users = i.users;
                clients = i.clients;
              }),
        )
      ]

  pub step-Answers : (c : Call) (s : Rbac) (a : Abs) → PlainId c → Refines s a → Answers c s a
  unfolding grant_permission_to_role revoke_permission_from_role assign_role_to_user
      assign_role_to_client remove_role_from_user remove_role_from_client
  step-Answers (creates_role r) s a f i = create_role-Answers r s a f i
  step-Answers (creates_permission p) s a f i = create_permission-Answers p s a f i
  step-Answers (grants r p) s a f i = (
    record a { grants = update_pair a.grants r p true },
    Change.granted r p a,
    with_grants s a i _ _ (add-Distinct (grant_key r p) s.role_perms i.grants_distinct) (λ q o g h.
        rw
          (
            includes-add (grant_key r p) (grant_key q o) s.role_perms,
            grant_key-eq r q p o g h,
            i.granted q o g h,
          )
          (ground arith)),
  )
  step-Answers (revokes r p) s a f i = (
    record a { grants = update_pair a.grants r p false },
    Change.revoked r p a,
    with_grants s a i _ _ (remove-Distinct (grant_key r p) s.role_perms i.grants_distinct)
        (λ q o g h.
          rw
            (
              includes-remove (grant_key r p) (grant_key q o) s.role_perms i.grants_distinct,
              grant_key-eq r q p o g h,
              i.granted q o g h,
            )
            (ground arith)),
  )
  step-Answers (assigns u r) s a f i = (
    record a { user_has = update_pair a.user_has u r true },
    Change.assigned u r a,
    with_users s a i _ _ (assign-Sets s.user_role_ids a.user_has i.users u r),
  )
  step-Answers (removes u r) s a f i = (
    record a { user_has = update_pair a.user_has u r false },
    Change.removed u r a,
    with_users s a i _ _ (drop-Sets s.user_role_ids a.user_has i.users u r),
  )
  step-Answers (assigns_client c r) s a f i = (
    record a { client_has = update_pair a.client_has c r true },
    Change.client_assigned c r a,
    with_clients s a i _ _ (assign-Sets s.client_role_ids a.client_has i.clients c r),
  )
  step-Answers (removes_client c r) s a f i = (
    record a { client_has = update_pair a.client_has c r false },
    Change.client_removed c r a,
    with_clients s a i _ _ (drop-Sets s.client_role_ids a.client_has i.clients c r),
  )
