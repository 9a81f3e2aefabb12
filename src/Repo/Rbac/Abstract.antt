-- ===== src/Repo/Rbac/Abstract.antt =====
-- What the tables of roles and permissions promise, without their representation: functions from ids
-- to rows, and relations between ids.
use authx.Prelude.{
  String, Bool, true, false, Option, none, some, ◌≡◌, List, [], ◌∷◌, ◌==◌, ◌&&◌, is_some,
  if◌then◌else◌,
}
use authx.Repo.Rbac.{Role, Permission, role_clash, permission_clash}

pub record Abs : Type 0 where
  pub role : String → Option Role
  pub permission : String → Option Permission
  pub grants : String → String → Bool
  pub user_has : String → String → Bool
  pub client_has : String → String → Bool

abbrev pub nothing : Abs
nothing = record {
  role = λ id. none;
  permission = λ id. none;
  grants = λ r p. false;
  user_has = λ u r. false;
  client_has = λ c r. false;
}

-- A function, changed at one id, and a relation, changed at one pair.
abbrev pub update : {A : Type 0} → (String → Option A) → String → A → String → Option A
update f k v j = if k == j then some v else f j

abbrev pub update_pair : (String → String → Bool) → String → String → Bool → String → String → Bool
update_pair f a b v x y = if a == x && b == y then v else f x y

pub data Call : Type 0 where
  creates_role : Role → Call
  creates_permission : Permission → Call
  grants revokes : String → String → Call
  assigns removes : String → String → Call
  assigns_client removes_client : String → String → Call

-- How each call may change it.
pub data Change (same : String → String → Bool) : Call → Abs → Abs → Type 0 where
  role_created :
      (r : Role) (a : Abs)
      → ((id : String) (x : Role) → a.role id ≡ some x → role_clash same r x ≡ none)
      → Change same (creates_role r) a (record a { role = update a.role r.id r })
  role_refused :
      (r : Role) (a : Abs) (id : String) (x : Role)
      → a.role id ≡ some x
      → is_some (role_clash same r x) ≡ true
      → Change same (creates_role r) a a
  permission_created :
      (p : Permission) (a : Abs)
      → ((id : String) (x : Permission)
          → a.permission id ≡ some x
          → permission_clash same p x ≡ none)
      → Change same (creates_permission p) a (record a { permission = update a.permission p.id p })
  permission_refused :
      (p : Permission) (a : Abs) (id : String) (x : Permission)
      → a.permission id ≡ some x
      → is_some (permission_clash same p x) ≡ true
      → Change same (creates_permission p) a a
  granted :
      (r p : String) (a : Abs)
      → Change same (grants r p) a (record a { grants = update_pair a.grants r p true })
  revoked :
      (r p : String) (a : Abs)
      → Change same (revokes r p) a (record a { grants = update_pair a.grants r p false })
  assigned :
      (u r : String) (a : Abs)
      → Change same (assigns u r) a (record a { user_has = update_pair a.user_has u r true })
  removed :
      (u r : String) (a : Abs)
      → Change same (removes u r) a (record a { user_has = update_pair a.user_has u r false })
  client_assigned :
      (c r : String) (a : Abs)
      → Change same
          (assigns_client c r)
          a
          (record a { client_has = update_pair a.client_has c r true })
  client_removed :
      (c r : String) (a : Abs)
      → Change same
          (removes_client c r)
          a
          (record a { client_has = update_pair a.client_has c r false })

pub data Changes (same : String → String → Bool) : List Call → Abs → Abs → Type 0 where
  here : {a : Abs} → Changes same [] a a
  next :
      {c : Call} {cs : List Call} {a b d : Abs}
      → Change same c a b
      → Changes same cs b d
      → Changes same (c ∷ cs) a d

-- The subject, which `has` says the roles of, may what `key` names in the service: it has a role of
-- the service, and the role grants a permission with the key.
pub record Allowed (a : Abs) (has : String → Bool) (service_id key : String) : Type 0 where
  pub role_id : String
  pub role : Role
  pub permission_id : String
  pub permission : Permission
  pub held : has role_id ≡ true
  pub there : a.role role_id ≡ some role
  pub of_service : role.app_service_id ≡ service_id
  pub known : a.permission permission_id ≡ some permission
  pub named : permission.key ≡ key
  pub granted : a.grants role_id permission_id ≡ true
