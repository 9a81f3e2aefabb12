-- ===== src/Repo/Users.antt =====
-- modules/users/users.repository.ts: the accounts. A deleted account keeps its row, and its address,
-- until it is purged; every lookup of a login path passes over it.
use authx.Prelude.{
  ℕ, String, Bool, true, false, Option, none, some, ◌==◌, if◌then◌else◌, ltb, is_some, not, ◌&&◌,
  List, [], ◌∷◌, map, keep, length,
}
use authx.Prelude.TextSet.{TextSet, add}
use authx.Prelude.Map.{Map, get, set, delete, find_value, first_error, values}
use authx.Errors.{Failure, Result, ok, err}
use authx.Collation.{ci_equals, duplicate}

pub record User : Type 0 where
  pub id : String
  pub email : Option String
  pub username : Option String
  pub password_hash : Option String
  pub created_at : ℕ
  pub updated_at : ℕ
  pub email_verified : Bool
  pub name : Option String
  pub given_name : Option String
  pub family_name : Option String
  pub picture : Option String
  pub deleted_at : Option ℕ

-- The fields that an update names; `none` where the patch has no such key.
pub record Patch : Type 0 where
  pub email : Option (Option String)
  pub password_hash : Option (Option String)
  pub email_verified : Option Bool
  pub name : Option (Option String)
  pub given_name : Option (Option String)
  pub family_name : Option (Option String)
  pub picture : Option (Option String)

pub record Users : Type 0 where
  pub by_id : Map User
  pub user_role_names : Map TextSet

abbrev pub empty_patch : Patch
empty_patch = record {
  email = none;
  password_hash = none;
  email_verified = none;
  name = none;
  given_name = none;
  family_name = none;
  picture = none;
}

-- `patch.f ?? row.f` for a key that may be absent.
abbrev pub patched : {A : Type 0} → Option A → A → A
patched none a = a
patched (some b) a = b

-- `{ ...u, ...patch, updatedAt: new Date() }`
abbrev pub apply_patch : Patch → ℕ → User → User
apply_patch p now u = record u {
  email = patched p.email u.email;
  password_hash = patched p.password_hash u.password_hash;
  updated_at = now;
  email_verified = patched p.email_verified u.email_verified;
  name = patched p.name u.name;
  given_name = patched p.given_name u.given_name;
  family_name = patched p.family_name u.family_name;
  picture = patched p.picture u.picture;
}

abbrev pub is_live : User → Bool
is_live u = not (is_some u.deleted_at)

-- `u && !u.deletedAt ? u : null`
abbrev pub if_live : User → Option User
if_live u = if is_live u then some u else none

module _ (same : String → String → Bool) where
  -- The checks that `assertNoConflict` makes of one existing row.
  abbrev pub clash : User → User → Option Failure
  clash next u =
      if u.id == next.id
      then duplicate "users" "PRIMARY" (some next.id)
      else if ci_equals same u.email next.email
      then duplicate "users" "email" next.email
      else if ci_equals same u.username next.username
      then duplicate "users" "username" next.username
      else none

  unfoldable pub create : User → Users → Result Users
  create user s = elim (first_error (clash user) s.by_id) [
    | none ↦ ok (record s { by_id = set user.id user s.by_id })
    | some e ↦ err e
  ]

  unfoldable pub find_by_email : String → Users → Option User
  find_by_email email s = find_value (λ u. ci_equals same u.email (some email) && is_live u) s.by_id

  unfoldable pub find_by_username : String → Users → Option User
  find_by_username username s =
      find_value (λ u. ci_equals same u.username (some username) && is_live u) s.by_id

  unfoldable pub find_any_by_email : String → Users → Option User
  find_any_by_email email s = find_value (λ u. ci_equals same u.email (some email)) s.by_id

  -- The unique index on the address, checked when the patch names one.
  abbrev pub email_clash : String → Option String → User → Option Failure
  email_clash id email other =
      if not (other.id == id) && ci_equals same other.email email
      then duplicate "users" "email" email
      else none

  abbrev pub patch_clash : String → Patch → User → Map User → Option Failure
  patch_clash id patch next by_id = elim patch.email [
    | none ↦ none
    | some _ ↦ first_error (email_clash id next.email) by_id
  ]

  unfoldable pub update : String → Patch → ℕ → Users → Result (Option User × Users)
  update id patch now s = elim (get id s.by_id) [
    | none ↦ ok (none, s)
    | some u ↦ elim (patch_clash id patch (apply_patch patch now u) s.by_id) [
      | none ↦ ok (
        some (apply_patch patch now u),
        record s { by_id = set id (apply_patch patch now u) s.by_id },
      )
      | some e ↦ err e
    ]
  ]

  unfoldable pub mark_email_verified : String → String → ℕ → Users → Bool × Users
  mark_email_verified id email now s = elim (get id s.by_id) [
    | none ↦ (false, s)
    | some u ↦
        if ci_equals same u.email (some email)
        then (
          true,
          record s {
            by_id = set id (record u { email_verified = true; updated_at = now }) s.by_id;
          },
        )
        else (false, s)
  ]

unfoldable pub find_by_id : String → Users → Option User
find_by_id id s = elim (get id s.by_id) [ none ↦ none | some u ↦ if_live u ]

unfoldable pub soft_delete : String → ℕ → Users → Bool × Users
soft_delete id now s = elim (get id s.by_id) [
  | none ↦ (false, s)
  | some u ↦
      if is_some u.deleted_at
      then (false, s)
      else (true, record s { by_id = set id (record u { deleted_at = some now }) s.by_id })
]

abbrev pub deleted_before : ℕ → User → Bool
deleted_before cutoff u = elim u.deleted_at [ none ↦ false | some at ↦ ltb at cutoff ]

unfoldable pub find_deleted_before : ℕ → Users → List String
find_deleted_before cutoff s = map (λ u. u.id) (keep (deleted_before cutoff) (values s.by_id))

unfoldable pub erase : String → Users → Bool × Users
erase id s = (is_some (get id s.by_id), record s { by_id = delete id s.by_id })

unfoldable pub list : Users → List User
list s = keep is_live (values s.by_id)

-- `userRoleNames.get(userId) ?? new Set()`
abbrev pub or_empty : Option TextSet → TextSet
or_empty none = []
or_empty (some xs) = xs

unfoldable pub assign_role : String → String → Users → Users
assign_role user_id role_name s = record s {
  user_role_names =
      set user_id (add role_name (or_empty (get user_id s.user_role_names))) s.user_role_names;
}

unfoldable pub remove_all_roles : String → Users → ℕ × Users
remove_all_roles user_id s = (
  length (or_empty (get user_id s.user_role_names)),
  record s { user_role_names = delete user_id s.user_role_names },
)

pub record UserWithAccess : Type 0 where
  pub user : User
  pub roles : List String
  pub permissions : List String

-- The two loops over the role names and the permissions that each grants.
unfoldable pub add_keys : List String → TextSet → TextSet
add_keys [] out = out
add_keys (key ∷ keys) out = add_keys keys (add key out)

unfoldable pub add_grants : (String → List String) → List String → TextSet → TextSet
unfolding add_keys
add_grants role_grants [] out = out
add_grants role_grants (name ∷ names) out =
    add_grants role_grants names (add_keys (role_grants name) out)

-- `role_grants name` is `roleGrants[name] ?? []`, an argument of the constructor.
unfoldable pub find_with_access_by_id :
    (String → List String) → String → Users → Option UserWithAccess
unfolding add_grants
find_with_access_by_id role_grants id s = elim (get id s.by_id) [
  | none ↦ none
  | some u ↦
      let names = or_empty (get id s.user_role_names) in
      if is_live u
      then some (record { user = u; roles = names; permissions = add_grants role_grants names [] })
      else none
]
