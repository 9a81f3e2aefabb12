-- ===== src/Repo/Rbac/Relation.antt =====
-- The relation between the tables of roles and permissions and the abstract state.
use authx.Prelude.{
  String, Bool, true, false, none, some, ◌≡◌, refl, sym, ◌∙◌, ap, subst, inl, inr, arith, [],
  includes, ◌==◌, Bool-cases, Option-cases, eq_iff, if◌then◌else◌,
}
use authx.Prelude.Text.{Free}
use authx.Prelude.Map.{Map, get, set}
use authx.Prelude.Map.Laws.{get-set, set-Distinct}
use authx.Prelude.Map.Laws as MapLaws
use authx.Prelude.TextSet.{
  TextSet, add, remove, includes-add, includes-remove, add-Distinct, remove-Distinct,
}
use authx.Prelude.TextSet
use authx.Repo.Rbac.{Role, Permission, Rbac, grant_key, role_ids_of, drop_role}
use authx.Repo.Rbac.Keys.{colon}
use authx.Repo.Rbac.Abstract.{Abs, nothing, update_pair}

abbrev pub empty : Rbac
empty = record { roles = []; perms = []; role_perms = []; user_role_ids = []; client_role_ids = [] }

-- Sets of role ids by user or client, and the relation that they stand for.
pub record Sets (m : Map TextSet) (has : String → String → Bool) : Type 0 where
  pub distinct : (u : String) → TextSet.Distinct (role_ids_of u m)
  pub agree : (u r : String) → includes r (role_ids_of u m) ≡ has u r

module _ (m : Map TextSet) (has : String → String → Bool) (i : Sets m has) (k r : String) where
  role_ids_of-set :
      (u : String) (xs : TextSet)
      → role_ids_of u (set k xs m) ≡ (if k == u then xs else role_ids_of u m)
  role_ids_of-set u xs = ground (arith, get-set u k xs m)

  pub assign-Sets : Sets (set k (add r (role_ids_of k m)) m) (update_pair has k r true)
  assign-Sets = record {
    distinct = λ u. elim (Bool-cases (k == u)) [
      | inl own ↦
          rw (role_ids_of-set u (add r (role_ids_of k m)), own)
            (add-Distinct r (role_ids_of k m) (i.distinct k))
      | inr other ↦ rw (role_ids_of-set u (add r (role_ids_of k m)), other) (i.distinct u)
    ];
    agree = λ u q. elim (Bool-cases (k == u)) [
      | inl own ↦
          let e = (eq_iff k u).0 own in
          rw
            (
              role_ids_of-set u (add r (role_ids_of k m)),
              own,
              includes-add r q (role_ids_of k m),
              i.agree k q,
              e,
            )
            (ground arith)
      | inr other ↦ rw (role_ids_of-set u (add r (role_ids_of k m)), other) (i.agree u q)
    ];
  }

  pub drop-Sets : Sets (drop_role k r m) (update_pair has k r false)
  drop-Sets = elim (Option-cases (get k m)) [
    | inl e ↦
        rw (drop_role, e)
          (record {
            distinct = i.distinct;
            agree = λ u q. elim (Bool-cases (k == u)) [
              | inl own ↦
                  let at : get u m ≡ none = subst (λ j. get j m ≡ none) ((eq_iff k u).0 own) e in
                  let no : has u q ≡ false = sym (i.agree u q) ∙ rw (at, role_ids_of) refl in
                  rw (i.agree u q, own, no) (ground arith)
              | inr other ↦ rw (i.agree u q, other) refl
            ];
          })
    | inr (xs, e) ↦
        let old : xs ≡ role_ids_of k m = rw (role_ids_of, e) refl in
        rw (drop_role, e)
          (record {
            distinct = λ u. elim (Bool-cases (k == u)) [
              | inl own ↦
                  rw (role_ids_of-set u (remove r xs), own)
                    (remove-Distinct r xs (subst TextSet.Distinct (sym old) (i.distinct k)))
              | inr other ↦ rw (role_ids_of-set u (remove r xs), other) (i.distinct u)
            ];
            agree = λ u q. elim (Bool-cases (k == u)) [
              | inl own ↦
                  let here : includes q xs ≡ has u q =
                    ap (includes q) old ∙ i.agree k q ∙ ap (λ j. has j q) ((eq_iff k u).0 own) in
                  rw
                    (
                      role_ids_of-set u (remove r xs),
                      own,
                      includes-remove r q xs (subst TextSet.Distinct (sym old) (i.distinct k)),
                      here,
                    )
                    (ground arith)
              | inr other ↦ rw (role_ids_of-set u (remove r xs), other) (i.agree u q)
            ];
          })
  ]

pub record Refines (s : Rbac) (a : Abs) : Type 0 where
  pub roles_distinct : MapLaws.Distinct s.roles
  pub perms_distinct : MapLaws.Distinct s.perms
  pub plain_roles : (k : String) (r : Role) → get k s.roles ≡ some r → Free colon k
  pub plain_perms :
      (k : String) (p : Permission) → get k s.perms ≡ some p → Free colon k × (p.id ≡ k)
  pub grants_distinct : TextSet.Distinct s.role_perms
  pub roles : (id : String) → get id s.roles ≡ a.role id
  pub perms : (id : String) → get id s.perms ≡ a.permission id
  pub granted :
      (r p : String)
      → Free colon r
      → Free colon p
      → includes (grant_key r p) s.role_perms ≡ a.grants r p
  pub users : Sets s.user_role_ids a.user_has
  pub clients : Sets s.client_role_ids a.client_has

pub empty-Refines : Refines empty nothing
unfolding get
empty-Refines = record {
  roles_distinct = tt;
  perms_distinct = tt;
  plain_roles = λ k r e. absurd (cc);
  plain_perms = λ k p e. absurd (cc);
  grants_distinct = tt;
  roles = λ id. refl;
  perms = λ id. refl;
  granted = λ r p f g. refl;
  users = record { distinct = λ u. tt; agree = λ u r. refl };
  clients = record { distinct = λ u. tt; agree = λ u r. refl };
}

-- A state in which one of the three relations is replaced.
module _ (s : Rbac) (a : Abs) (i : Refines s a) where
  pub with_grants :
      (keys : TextSet) (g : String → String → Bool)
      → TextSet.Distinct keys
      → ((r p : String) → Free colon r → Free colon p → includes (grant_key r p) keys ≡ g r p)
      → Refines (record s { role_perms = keys }) (record a { grants = g })
  with_grants keys g d agree = record {
    roles_distinct = i.roles_distinct;
    perms_distinct = i.perms_distinct;
    plain_roles = i.plain_roles;
    plain_perms = i.plain_perms;
    grants_distinct = d;
    roles = i.roles;
    perms = i.perms;
    granted = agree;
    users = i.users;
    clients = i.clients;
  }

  pub with_users :
      (m : Map TextSet) (has : String → String → Bool)
      → Sets m has
      → Refines (record s { user_role_ids = m }) (record a { user_has = has })
  with_users m has k = record {
    roles_distinct = i.roles_distinct;
    perms_distinct = i.perms_distinct;
    plain_roles = i.plain_roles;
    plain_perms = i.plain_perms;
    grants_distinct = i.grants_distinct;
    roles = i.roles;
    perms = i.perms;
    granted = i.granted;
    users = k;
    clients = i.clients;
  }

  pub with_clients :
      (m : Map TextSet) (has : String → String → Bool)
      → Sets m has
      → Refines (record s { client_role_ids = m }) (record a { client_has = has })
  with_clients m has k = record {
    roles_distinct = i.roles_distinct;
    perms_distinct = i.perms_distinct;
    plain_roles = i.plain_roles;
    plain_perms = i.plain_perms;
    grants_distinct = i.grants_distinct;
    roles = i.roles;
    perms = i.perms;
    granted = i.granted;
    users = i.users;
    clients = k;
  }
