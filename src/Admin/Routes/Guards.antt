-- ===== src/Admin/Routes/Guards.antt =====
-- The guards of the management API: what changes anything, and what only reads.
use authx.Prelude.{
  String, Bool, true, false, Option, some, ◌≡◌, refl, subst, inl, inr, arith, List, [], ◌∷◌, ◌==◌,
  Bool-cases, ◌&&◌, ◌||◌, any, includes, eq_iff,
}
use authx.Service.{Runtime, Db}
use authx.Service.Laws.{call-cases}
use authx.Authorize.{
  Claims, require_auth, require_auth-caller, require_auth-same, platform_audience,
  require_permission, has_permission, permissions_of, text_or_empty,
}
use authx.Admin.{
  list_orgs, get_org, list_services, list_roles, list_permissions, list_user_roles,
  list_client_roles,
}
use authx.Admin.Routes.{
  Route, needed, act, serve, get_orgs, get_services, get_roles, get_permissions, get_user_roles,
  get_client_roles,
}

-- The permissions that change something.
abbrev pub writes : String → Bool
writes p = p == "orgs:write" || p == "services:write" || p == "members:write" || p == "rbac:write"

-- What a token may do at all in the management API.
abbrev pub may_write : Claims → Bool
may_write claims =
    claims.aud == platform_audience && any writes (permissions_of (text_or_empty claims.scope))

and-right : (a b : Bool) → a ≡ true → (a && b) ≡ false → b ≡ false
and-right a b h e = ground arith

includes-writes :
    (p : String) (ps : List String)
    → includes p ps ≡ true
    → any writes ps ≡ false
    → writes p ≡ false
includes-writes p [] h n = absurd (cc)
includes-writes p (x ∷ ps) h n = elim (Bool-cases (x == p)) [
  | inl hit ↦ let e = (eq_iff x p).0 hit in subst (λ q. writes q ≡ false) e (ground arith)
  | inr miss ↦ includes-writes p ps (ground arith) (ground arith)
]

module _ (rt : Runtime) where
  -- A route that needs no permission to write writes nothing.
  act-reads : (route : Route) (db : Db) → writes (needed route) ≡ false → (act rt route db).1 ≡ db
  unfolding act needed list_orgs get_org list_services list_roles list_permissions list_user_roles
      list_client_roles
  act-reads get_orgs db n = refl
  act-reads (Route.get_org id) db n = ground arith
  act-reads (get_services id) db n = refl
  act-reads (get_roles id) db n = ground arith
  act-reads (get_permissions id) db n = ground arith
  act-reads (get_user_roles id) db n = refl
  act-reads (get_client_roles id) db n = refl
  act-reads route db n = absurd (cc)

  -- A token that is not the platform's, or has none of the permissions to write, changes nothing,
  -- whatever route it asks for, whether it is answered or refused.
  pub serve-harmless :
      (verify : String → Option Claims) (token : String) (claims : Claims) (route : Route) (db : Db)
      → verify token ≡ some claims
      → may_write claims ≡ false
      → (serve rt verify (some token) route db).1 ≡ db
  unfolding serve require_permission has_permission
  serve-harmless verify token claims route db v n =
      let same = require_auth-same verify (some token) db in
      elim (call-cases (require_auth verify (some token) db)) [
        | inr (e, d, refused) ↦ ground arith
        | inl (caller, d, in_) ↦
            let (aud, permissions) = require_auth-caller verify token claims caller db d v in_ in
            let here : d ≡ db = ground arith in
            elim (Bool-cases (caller.aud == platform_audience)) [
              | inr elsewhere ↦ ground arith
              | inl platform ↦ elim (Bool-cases (includes (needed route) caller.permissions)) [
                | inr lacks ↦ ground arith
                | inl has ↦
                    let ours : (claims.aud == platform_audience) ≡ true = rw (← aud) platform in
                    let none_writes : any writes caller.permissions ≡ false =
                      rw permissions (and-right _ _ ours n) in
                    let reads = includes-writes (needed route) caller.permissions has none_writes in
                    let last = act-reads route db reads in ground arith
              ]
            ]
      ]
