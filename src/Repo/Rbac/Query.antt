-- ===== src/Repo/Rbac/Query.antt =====
-- The permissions of a user or a client in a service (rbac.repository.ts
-- `permissionsForUserInService`), as an answer for each key.
use authx.Prelude.{
  String, Bool, true, false, none, some, ◌≡◌, ◌↔◌, refl, sym, ◌∙◌, inl, inr, arith, List, [], ◌∷◌,
  any, includes, ◌==◌, ◌&&◌, ◌||◌, Bool-cases, Option-cases, eq_iff, ==-refl,
}
use authx.Prelude.Map.{Map, get, values}
use authx.Prelude.Map.Laws.{Distinct}
use authx.Prelude.TextSet.{TextSet, add, includes-add}
use authx.Repo.Rbac.{
  Role, Permission, Rbac, grant_key, add_granted, add_role, add_roles, role_ids_of,
  permissions_for_user_in_service, permissions_for_client_in_service,
}

-- The permission has the key, and the role grants it.
abbrev gives : TextSet → String → String → Permission → Bool
gives role_perms role_id key p = includes (grant_key role_id p.id) role_perms && p.key == key

-- The role is one of the service, and grants a permission with the key.
abbrev role_gives : Rbac → String → String → String → Bool
role_gives s service_id key role_id = elim (get role_id s.roles) [
  | none ↦ false
  | some role ↦
      role.app_service_id == service_id && any (gives s.role_perms role_id key) (values s.perms)
]

includes-add_granted :
    (role_perms : TextSet) (role_id key : String) (ps : List Permission) (out : TextSet)
    → includes key (add_granted role_perms role_id ps out)
      ≡ (includes key out || any (gives role_perms role_id key) ps)
unfolding add_granted
includes-add_granted role_perms role_id key [] out = ground arith
includes-add_granted role_perms role_id key (p ∷ ps) out =
    elim (Bool-cases (includes (grant_key role_id p.id) role_perms)) [
      | inl held ↦
          rw
            (
              held,
              includes-add_granted role_perms role_id key ps (add p.key out),
              includes-add p.key key out,
            )
            (ground arith)
      | inr lacks ↦ rw (lacks, includes-add_granted role_perms role_id key ps out) refl
    ]

includes-add_role :
    (s : Rbac) (service_id key role_id : String) (out : TextSet)
    → includes key (add_role s service_id role_id out)
      ≡ (includes key out || role_gives s service_id key role_id)
unfolding add_role
includes-add_role s service_id key role_id out = elim (Option-cases (get role_id s.roles)) [
  | inl e ↦ rw (e, add_role, role_gives) (ground arith)
  | inr (role, e) ↦ elim (Bool-cases (role.app_service_id == service_id)) [
    | inl own ↦
        rw (e, add_role, role_gives, own)
          (includes-add_granted s.role_perms role_id key (values s.perms) out)
    | inr other ↦ rw (e, add_role, role_gives, other) (ground arith)
  ]
]

includes-add_roles :
    (s : Rbac) (service_id key : String) (ids : List String) (out : TextSet)
    → includes key (add_roles s service_id ids out)
      ≡ (includes key out || any (role_gives s service_id key) ids)
unfolding add_roles
includes-add_roles s service_id key [] out = ground arith
includes-add_roles s service_id key (id ∷ ids) out =
    rw
      (
        includes-add_roles s service_id key ids (add_role s service_id id out),
        includes-add_role s service_id key id out,
      )
      (ground arith)

and-true : (a b : Bool) → (a && b) ≡ true → (a ≡ true) × (b ≡ true)
and-true a b e = (ground arith, ground arith)

any-includes :
    (f : String → Bool) (xs : List String)
    → any f xs ≡ true
    → (x : String) × (includes x xs ≡ true) × (f x ≡ true)
any-includes f [] e = absurd (cc)
any-includes f (x ∷ xs) e = elim (Bool-cases (f x)) [
  | inl hit ↦ (x, rw (==-refl x) refl, hit)
  | inr miss ↦ let (y, i, q) = any-includes f xs (ground arith) in (y, ground arith, q)
]

includes-any :
    (f : String → Bool) (x : String) (xs : List String)
    → includes x xs ≡ true
    → f x ≡ true
    → any f xs ≡ true
includes-any f x [] i e = absurd (cc)
includes-any f x (y ∷ ys) i e = ground (arith, eq_iff y x, includes-any f x ys)

any-values :
    {V : Type 0} (f : V → Bool) (m : Map V)
    → Distinct m
    → any f (values m) ≡ true
    → (k : String) × (v : V) × (get k m ≡ some v) × (f v ≡ true)
unfolding values get
any-values f [] d e = absurd (cc)
any-values f ((j, w) ∷ m) d e = elim (Bool-cases (f w)) [
  | inl hit ↦ (j, w, rw ==-refl refl, hit)
  | inr miss ↦
      let (k, v, at, q) = any-values f m d.1 (ground arith) in (k, v, ground (arith, eq_iff j k), q)
]

values-any :
    {V : Type 0} (f : V → Bool) (k : String) (v : V) (m : Map V)
    → get k m ≡ some v
    → f v ≡ true
    → any f (values m) ≡ true
unfolding values get
values-any f k v [] at e = absurd (cc)
values-any f k v ((j, w) ∷ m) at e = ground (arith, values-any f k v m)

-- The user or client holds a role of the service that grants a permission with the key.
pub record Holds (s : Rbac) (ids : List String) (service_id key : String) : Type 0 where
  pub role_id : String
  pub role : Role
  pub permission_id : String
  pub permission : Permission
  pub held : includes role_id ids ≡ true
  pub there : get role_id s.roles ≡ some role
  pub of_service : role.app_service_id ≡ service_id
  pub known : get permission_id s.perms ≡ some permission
  pub named : permission.key ≡ key
  pub granted : includes (grant_key role_id permission.id) s.role_perms ≡ true

module _ (s : Rbac) (d : Distinct s.perms) where
  role_gives-inv :
      (service_id key role_id : String)
      → role_gives s service_id key role_id ≡ true
      → (role : Role) × (get role_id s.roles ≡ some role)
        × (role.app_service_id ≡ service_id)
        × (any (gives s.role_perms role_id key) (values s.perms) ≡ true)
  role_gives-inv service_id key role_id g = elim (Option-cases (get role_id s.roles)) [
    | inl e ↦ absurd (ground arith)
    | inr (role, e) ↦
        let both : (role.app_service_id == service_id
              && any (gives s.role_perms role_id key) (values s.perms))
            ≡ true =
          ground arith in
        let (own, more) = and-true _ _ both in
        (role, e, (eq_iff role.app_service_id service_id).0 own, more)
  ]

  add_roles-Holds :
      (ids : List String) (service_id key : String)
      → (includes key (add_roles s service_id ids []) ≡ true) ↔ Holds s ids service_id key
  add_roles-Holds ids service_id key = (
    λ h.
        let (role_id, held, g) =
          any-includes (role_gives s service_id key) ids
            (sym (includes-add_roles s service_id key ids []) ∙ h) in
        let (role, there, own, gives_key) = role_gives-inv service_id key role_id g in
        let (id, p, known, q) = any-values (gives s.role_perms role_id key) s.perms d gives_key in
        record {
          role_id = role_id;
          role = role;
          permission_id = id;
          permission = p;
          held = held;
          there = there;
          of_service = own;
          known = known;
          named = (eq_iff p.key key).0 (and-true _ _ q).1;
          granted = (and-true _ _ q).0;
        },
    λ h.
        includes-add_roles s service_id key ids []
        ∙ includes-any (role_gives s service_id key) h.role_id ids h.held (
            rw (h.there, role_gives, h.of_service)
              (rw (==-refl service_id) (
                values-any (gives s.role_perms h.role_id key) h.permission_id h.permission s.perms
                  h.known (rw (h.granted, h.named) (==-refl key))))),
  )

  pub permissions_for_user-Holds :
      (user_id service_id key : String)
      → (includes key (permissions_for_user_in_service user_id service_id s) ≡ true)
        ↔ Holds s (role_ids_of user_id s.user_role_ids) service_id key
  unfolding permissions_for_user_in_service
  permissions_for_user-Holds user_id service_id key =
      add_roles-Holds (role_ids_of user_id s.user_role_ids) service_id key

  pub permissions_for_client-Holds :
      (client_id service_id key : String)
      → (includes key (permissions_for_client_in_service client_id service_id s) ≡ true)
        ↔ Holds s (role_ids_of client_id s.client_role_ids) service_id key
  unfolding permissions_for_client_in_service
  permissions_for_client-Holds client_id service_id key =
      add_roles-Holds (role_ids_of client_id s.client_role_ids) service_id key
