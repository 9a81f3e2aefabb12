-- ===== src/Oidc.antt =====
-- lib/oidc.ts: the OIDC scopes of a request, and the claims that they grant.
use authx.Prelude.{
  ℕ, ◌/◌, String, Bool, true, false, Option, none, some, ◌≡◌, refl, if◌then◌else◌, ◌==◌, ◌&&◌, not,
  List, [], ◌∷◌, keep, includes,
}
use authx.Prelude.Text.{split, join, truthy}

pub record OidcUser : Type 0 where
  pub email : Option String
  pub email_verified : Bool
  pub name : Option String
  pub given_name : Option String
  pub family_name : Option String
  pub picture : Option String
  pub updated_at : ℕ

abbrev pub supported_oidc_scopes : List String
supported_oidc_scopes = "openid" ∷ "email" ∷ "profile" ∷ []

-- `requested.split(' ').filter(Boolean)`, as a set.
unfoldable pub requested_scopes : String → List String
unfolding split
requested_scopes requested = keep (λ s. not (s == "")) (split b' ' requested)

unfoldable pub granted_oidc_scopes : String → List String
unfolding requested_scopes
granted_oidc_scopes requested =
    keep (λ s. includes s (requested_scopes requested)) supported_oidc_scopes

-- The claim set: `none` where the source leaves the claim out.
pub record Claims : Type 0 where
  pub email : Option String
  pub email_verified : Option Bool
  pub name : Option String
  pub given_name : Option String
  pub family_name : Option String
  pub picture : Option String
  pub updated_at : Option ℕ

-- `if (v) out.x = v`
abbrev pub if_truthy : Option String → Option String
if_truthy v = if truthy v then v else none

unfoldable pub claims_for_scopes : OidcUser → List String → Claims
claims_for_scopes user scopes =
    let emails = includes "email" scopes && truthy user.email in
    let profile = includes "profile" scopes in
    record {
      email = if emails then user.email else none;
      email_verified = if emails then some user.email_verified else none;
      name = if profile then if_truthy user.name else none;
      given_name = if profile then if_truthy user.given_name else none;
      family_name = if profile then if_truthy user.family_name else none;
      picture = if profile then if_truthy user.picture else none;
      updated_at = if profile then some (user.updated_at / 1000) else none;
    }

granted_subset :
    (a b c : Bool)
    → let scopes =
        keep
          (λ s. if s == "openid" then a else if s == "email" then b else c)
          supported_oidc_scopes in
      granted_oidc_scopes (join " " scopes) ≡ scopes
unfolding granted_oidc_scopes join
granted_subset true true true = refl
granted_subset true true false = refl
granted_subset true false true = refl
granted_subset true false false = refl
granted_subset false true true = refl
granted_subset false true false = refl
granted_subset false false true = refl
granted_subset false false false = refl

-- The granted scopes come in one order with no repeats, and joined with spaces, as the access token
-- carries them, they are read back unchanged.
pub granted_oidc_scopes-join :
    (requested : String)
    → granted_oidc_scopes (join " " (granted_oidc_scopes requested)) ≡ granted_oidc_scopes requested
unfolding granted_oidc_scopes
granted_oidc_scopes-join requested =
    let rs = requested_scopes requested in
    granted_subset (includes "openid" rs) (includes "email" rs) (includes "profile" rs)
