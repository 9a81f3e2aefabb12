-- ===== src/Repo/Rbac/Keys.antt =====
-- The key of a grant, `${roleId}:${permissionId}`, tells the two ids where neither has a colon.
use Prim.Native.Char.{code}
use Prim.Native.String.{String}
use text.Mathlib.TextLemmas.{nil-append, cons-append}
use authx.Prelude.{
  ℕ, ◌≡◌, refl, ap, subst, sym, inl, inr, arith, ◌==◌, ◌&&◌, eq_iff, Bool-cases, ◌∙◌,
}
use authx.Prelude.Text.{Free, ◌⧺◌}
use authx.Repo.Rbac.{grant_key}

abbrev pub colon : ℕ
colon = b':'

-- A text with a colon in it.
not-Free : (s t : String) → Free colon (s ⧺ String.◌∷◌ ":" t) → ⊥
not-Free String.[] t h = absurd ((subst (Free colon) (nil-append (String.◌∷◌ ":" t)) h).0 refl)
not-Free (String.◌∷◌ c s) t h =
    not-Free s t (subst (Free colon) (cons-append c s (String.◌∷◌ ":" t)) h).1

cut :
    (r s p q : String)
    → Free colon s
    → Free colon q
    → r ⧺ String.◌∷◌ ":" p ≡ s ⧺ String.◌∷◌ ":" q
    → (r ≡ s) × (p ≡ q)
cut String.[] String.[] p q f g h =
    let e : String.◌∷◌ ":" p ≡ String.◌∷◌ ":" q = sym (nil-append _) ∙ h ∙ nil-append _ in
    (refl, cc)
cut String.[] (String.◌∷◌ d s) p q f g h =
    let e : String.◌∷◌ ":" p ≡ String.◌∷◌ d (s ⧺ String.◌∷◌ ":" q) =
      sym (nil-append _) ∙ h ∙ cons-append _ _ _ in
    let hit : d ≡ ":" = cc in absurd (f.0 (ap code hit))
cut (String.◌∷◌ c r) String.[] p q f g h =
    let e : String.◌∷◌ c (r ⧺ String.◌∷◌ ":" p) ≡ String.◌∷◌ ":" q =
      sym (cons-append _ _ _) ∙ h ∙ nil-append _ in
    let rest : q ≡ r ⧺ String.◌∷◌ ":" p = cc in absurd (not-Free r p (subst (Free colon) rest g))
cut (String.◌∷◌ c r) (String.◌∷◌ d s) p q f g h =
    let e : String.◌∷◌ c (r ⧺ String.◌∷◌ ":" p) ≡ String.◌∷◌ d (s ⧺ String.◌∷◌ ":" q) =
      sym (cons-append _ _ _) ∙ h ∙ cons-append _ _ _ in
    let (a, b) = cut r s p q f.1 g (cc) in let heads : c ≡ d = cc in (cc, b)

glue : (p : String) → ":" ⧺ p ≡ String.◌∷◌ ":" p
glue p = cons-append ":" "" p ∙ ap (λ t. String.◌∷◌ ":" t) (nil-append p)

-- Two pairs of ids have one key exactly if they are equal, where those of one have no colon.
pub grant_key-eq :
    (r s p q : String)
    → Free colon s
    → Free colon q
    → (grant_key r p == grant_key s q) ≡ ((r == s) && (p == q))
grant_key-eq r s p q f g = elim (Bool-cases (grant_key r p == grant_key s q)) [
  | inl e ↦
      let same = (eq_iff (grant_key r p) (grant_key s q)).0 e in
      let (a, b) =
        cut r s p q f g (ap (λ t. r ⧺ t) (sym (glue p)) ∙ same ∙ ap (λ t. s ⧺ t) (glue q)) in
      ground (arith, eq_iff r s, eq_iff p q)
  | inr n ↦ ground (arith, eq_iff r s, eq_iff p q, eq_iff (grant_key r p) (grant_key s q))
]
