-- ===== src/Admin/Services.antt =====
-- Registration of a service (admin.service.ts `registerService`), as its later requests see it.
use authx.Prelude.{
  ℕ, String, true, false, Option, none, some, ◌≡◌, refl, ◌⊎◌, inl, inr, arith, ◌||◌, ◌==◌, ==-refl,
  eq_iff, Bool-cases, Option-cases, is_some, if◌then◌else◌,
}
use authx.Prelude.Map.{get, first_error, set}
use authx.Prelude.Map.Laws.{Distinct, get-set_self}
use authx.Prelude.Map.Search.{first_error-none, find_value-absent, find_value-set_new}
use authx.Errors.{ok, Result-cases}
use authx.Prelude.Map.Index.{Collates}
use authx.Repo.Orgs.{
  AppService, Orgs, service_clash, create_service, find_org_by_id, find_service_by_id,
  find_service_by_client_id, find_service_by_audience,
}
use authx.Service.{Config, Runtime, Db}
use authx.Auth.{client_secret_ok, secret_matches}
use authx.Admin.{ServiceInput, ServiceDraw, secret_of, new_service, secret_hash, register_service}

-- Every row is under its id.
pub record IsTable (s : Orgs) : Type 0 where
  pub distinct : Distinct s.services
  pub keyed : (k : String) (v : AppService) → get k s.services ≡ some v → v.id ≡ k

module _ (rt : Runtime) (cfg : Config) where
  -- The service is found by its id, its client id and its audience.
  pub record Found (v : AppService) (s : Orgs) : Type 0 where
    pub by_id : find_service_by_id v.id s ≡ some v
    pub by_client_id : find_service_by_client_id rt.same v.client_id s ≡ some v
    pub by_audience : find_service_by_audience rt.same v.audience s ≡ some v

  unclashed :
      (v w : AppService)
      → service_clash rt.same v w ≡ none
      → ((w.id == v.id) ≡ false)
        × (rt.same w.client_id v.client_id ≡ false)
        × (rt.same w.audience v.audience ≡ false)
  unclashed v w e = elim (Bool-cases (w.id == v.id)) [
    | inl a ↦ absurd (ground arith)
    | inr a ↦ elim (Bool-cases (rt.same w.client_id v.client_id)) [
      | inl b ↦ absurd (ground arith)
      | inr b ↦ elim (Bool-cases (rt.same w.audience v.audience)) [
        | inl c ↦ absurd (ground arith)
        | inr c ↦ (a, b, c)
      ]
    ]
  ]

  create_service-Found :
      Collates rt.same
      → (v : AppService) (s t : Orgs) → IsTable s
      → create_service rt.same v s ≡ ok t
      → Found v t
  unfolding create_service find_service_by_id find_service_by_client_id find_service_by_audience
  create_service-Found col v s t i h =
      elim (Option-cases (first_error (service_clash rt.same v) s.services)) [
        | inr (e, taken) ↦ absurd (ground arith)
        | inl free ↦
            let apart : (k : String) (w : AppService)
                → get k s.services ≡ some w
                → ((w.id == v.id) ≡ false)
                  × (rt.same w.client_id v.client_id ≡ false)
                  × (rt.same w.audience v.audience ≡ false) =
              λ k w e. unclashed v w (first_error-none _ k w s.services free e) in
            let new : get v.id s.services ≡ none = elim (Option-cases (get v.id s.services)) [
              | inl e ↦ e
              | inr (w, e) ↦
                  let own = i.keyed v.id w e in
                  let other = (apart v.id w e).0 in absurd (ground (arith, eq_iff w.id v.id))
            ] in
            let made : t ≡ record s { services = set v.id v s.services } = ground arith in
            rw made (record {
              by_id = get-set_self v.id v s.services;
              by_client_id =
                  find_value-set_new _ v.id v s.services new
                    (find_value-absent _ s.services i.distinct (λ k w e. (apart k w e).1))
                    (col.same_refl v.client_id);
              by_audience =
                  find_value-set_new _ v.id v s.services new
                    (find_value-absent _ s.services i.distinct (λ k w e. (apart k w e).2))
                    (col.same_refl v.audience);
            })
      ]

  -- The two halves of a secret: what is stored and what is returned.
  secrets-match :
      (kind token : String)
      → (kind ≡ "public") ⊎ (kind ≡ "confidential")
      → (token == "") ≡ false
      → let secret = if kind == "confidential" then some token else none in
        (((kind == "public") || secret_matches rt cfg (secret_hash rt secret) secret) ≡ true)
        × (is_some secret ≡ (kind == "confidential"))
        × ((other : String)
            → ((kind == "public") || secret_matches rt cfg (secret_hash rt secret) (some other))
              ≡ (if kind == "public" then true else rt.hash_token other == rt.hash_token token))
  secrets-match kind token (inl p) fresh = rw p (refl, refl, λ other. refl)
  secrets-match kind token (inr p) fresh =
      rw p (rw (fresh, ==-refl (rt.hash_token token)) (refl, refl, λ other. refl))

  -- A registration succeeds only for an organization that is there and an audience that no service
  -- has. The service is then found by its id, its client id and its audience, belongs to the
  -- organization, and authenticates with the secret that was returned; no secret is returned for a
  -- public one, and of a confidential one any other secret is refused whose hash differs. The table
  -- keeps each row under its id, the collation is an equivalence, and the random secret is not empty.
  pub register_service-ok :
      Collates rt.same
      → (org_id : String) (input : ServiceInput) (d : ServiceDraw) (now : ℕ) (v : AppService)
        (secret : Option String) (db db' : Db)
      → IsTable db.orgs
      → (d.secret_token == "") ≡ false
      → (input.kind ≡ "public") ⊎ (input.kind ≡ "confidential")
      → register_service rt org_id input d now db ≡ (ok (v, secret), db')
      → (is_some (find_org_by_id org_id db.orgs) ≡ true)
        × (find_service_by_audience rt.same input.audience db.orgs ≡ none)
        × Found v db'.orgs
        × (v.org_id ≡ org_id)
        × (client_secret_ok rt cfg v secret ≡ true)
        × (is_some secret ≡ (input.kind == "confidential"))
        × ((other : String)
            → client_secret_ok rt cfg v (some other) ≡ (
                if input.kind == "public"
                then true
                else rt.hash_token other == rt.hash_token d.secret_token))
  unfolding register_service client_secret_ok
  register_service-ok col org_id input d now v secret db db' i fresh kinds h =
      elim (Option-cases (find_org_by_id org_id db.orgs)) [
        | inl missing ↦ absurd (ground arith)
        | inr (org, there) ↦
            elim (Option-cases (find_service_by_audience rt.same input.audience db.orgs)) [
              | inr (other, taken) ↦ absurd (ground arith)
              | inl free ↦
                  elim (Result-cases
                    (create_service rt.same (new_service rt org_id input d now) db.orgs)) [
                      | inr (e, clash) ↦ absurd (ground arith)
                      | inl (t, made) ↦
                          let found =
                            create_service-Found col (new_service rt org_id input d now) db.orgs t i
                              made in
                          let v_eq : v ≡ new_service rt org_id input d now = ground arith in
                          let s_eq : secret ≡ secret_of input d = ground arith in
                          let t_eq : db'.orgs ≡ t = ground arith in
                          let (own, given, others) =
                            secrets-match input.kind d.secret_token kinds fresh in
                          (
                            ground arith,
                            free,
                            rw (v_eq, t_eq) found,
                            ground arith,
                            rw (v_eq, s_eq) own,
                            rw s_eq given,
                            rw v_eq others,
                          )
                    ]
            ]
      ]
