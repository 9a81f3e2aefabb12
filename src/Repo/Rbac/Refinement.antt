-- ===== src/Repo/Rbac/Refinement.antt =====
-- Runs of calls on the tables of roles and permissions, and the abstract state that they lead to.
use authx.Prelude.{String, Bool, true, ◌≡◌, ◌↔◌, sym, ◌∙◌, ap, List, [], ◌∷◌, All, includes}
use authx.Prelude.TextSet.{TextSet}
use authx.Repo.Rbac.{
  Rbac, grant_key, permissions_for_user_in_service, permissions_for_client_in_service,
}
use authx.Repo.Rbac.Query.{Holds, permissions_for_user-Holds, permissions_for_client-Holds}
use authx.Repo.Rbac.Abstract.{Abs, nothing, Call, Changes, Allowed}
use authx.Repo.Rbac.Relation.{Refines, empty, empty-Refines}
use authx.Repo.Rbac.Steps.{PlainId, step, step-Answers}

module _ (same : String → String → Bool) where
  pub run : List Call → Rbac → Rbac
  run [] s = s
  run (c ∷ cs) s = run cs (step same c s)

  run-Refines :
      (cs : List Call) (s : Rbac) (a : Abs)
      → All PlainId cs
      → Refines s a
      → (b : Abs) × Changes same cs a b × Refines (run cs s) b
  unfolding run
  run-Refines [] s a f i = (a, Changes.here, i)
  run-Refines (c ∷ cs) s a f i =
      let (b, change, j) = step-Answers same c s a f.0 i in
      let (d, changes, k) = run-Refines cs (step same c s) b f.1 j in
      (d, Changes.next change changes, k)

  module _ (s : Rbac) (a : Abs) (i : Refines s a) where
    Holds-Allowed :
        (ids : TextSet) (has : String → Bool) (service_id key : String)
        → ((r : String) → includes r ids ≡ has r)
        → Holds s ids service_id key
        → Allowed a has service_id key
    Holds-Allowed ids has service_id key agree h =
        let plain = i.plain_roles h.role_id h.role h.there in
        let (free, own) = i.plain_perms h.permission_id h.permission h.known in
        record {
          role_id = h.role_id;
          role = h.role;
          permission_id = h.permission_id;
          permission = h.permission;
          held = sym (agree h.role_id) ∙ h.held;
          there = sym (i.roles h.role_id) ∙ h.there;
          of_service = h.of_service;
          known = sym (i.perms h.permission_id) ∙ h.known;
          named = h.named;
          granted =
              sym (i.granted h.role_id h.permission_id plain free)
              ∙ ap (λ p. includes (grant_key h.role_id p) s.role_perms) (sym own)
              ∙ h.granted;
        }

    Allowed-Holds :
        (ids : TextSet) (has : String → Bool) (service_id key : String)
        → ((r : String) → includes r ids ≡ has r)
        → Allowed a has service_id key
        → Holds s ids service_id key
    Allowed-Holds ids has service_id key agree h =
        let there = i.roles h.role_id ∙ h.there in
        let known = i.perms h.permission_id ∙ h.known in
        let plain = i.plain_roles h.role_id h.role there in
        let (free, own) = i.plain_perms h.permission_id h.permission known in
        record {
          role_id = h.role_id;
          role = h.role;
          permission_id = h.permission_id;
          permission = h.permission;
          held = agree h.role_id ∙ h.held;
          there = there;
          of_service = h.of_service;
          known = known;
          named = h.named;
          granted =
              ap (λ p. includes (grant_key h.role_id p) s.role_perms) own
              ∙ i.granted h.role_id h.permission_id plain free
              ∙ h.granted;
        }

  -- The tables of roles and permissions refine their abstract state. Whatever calls are made on the
  -- empty tables, the abstract state can make the same calls, each with its own change; and then the
  -- permissions of any user, and of any client, in any service are exactly the keys that it allows.
  -- The ids of new rows have no colon.
  pub run_refines :
      (cs : List Call)
      → All PlainId cs
      → (a : Abs) × Changes same cs nothing a
        × ((user_id service_id key : String)
            → (includes key (permissions_for_user_in_service user_id service_id (run cs empty))
                ≡ true)
              ↔ Allowed a (a.user_has user_id) service_id key)
        × ((client_id service_id key : String)
            → (includes key (permissions_for_client_in_service client_id service_id (run cs empty))
                ≡ true)
              ↔ Allowed a (a.client_has client_id) service_id key)
  run_refines cs f =
      let (a, changes, i) = run-Refines cs empty nothing f empty-Refines in
      let s = run cs empty in
      (
        a,
        changes,
        λ user_id service_id key.
            let (there, back) =
              permissions_for_user-Holds s i.perms_distinct user_id service_id key in
            (
              λ h. Holds-Allowed s a i _ _ service_id key (i.users.agree user_id) (there h),
              λ h. back (Allowed-Holds s a i _ _ service_id key (i.users.agree user_id) h),
            ),
        λ client_id service_id key.
            let (there, back) =
              permissions_for_client-Holds s i.perms_distinct client_id service_id key in
            (
              λ h. Holds-Allowed s a i _ _ service_id key (i.clients.agree client_id) (there h),
              λ h. back (Allowed-Holds s a i _ _ service_id key (i.clients.agree client_id) h),
            ),
      )
