-- ===== src/Prelude/TextSet.antt =====
-- The source's `Set<string>`: an insertion-ordered list in which no text is listed twice.
use authx.Prelude.Tests.{if◌then◌else◌, ◌==◌}
use authx.Prelude.Lists.{includes}
use Prim.Native.String.{String}
use mathlib.Core.Path.{◌≡◌, refl}
use mathlib.Core.Bool.{false, ◌||◌}
use mathlib.Core.List.{List, [], ◌∷◌}
use native.Mathlib.Omega.{arith}
use text.Mathlib.TextEquality.{eq_iff}

abbrev pub TextSet : Type 0
TextSet = List String

unfoldable pub add : String → TextSet → TextSet
add a [] = a ∷ []
add a (x ∷ xs) = if x == a then x ∷ xs else x ∷ add a xs

unfoldable pub remove : String → TextSet → TextSet
remove a [] = []
remove a (x ∷ xs) = if x == a then xs else x ∷ remove a xs

-- No text is listed twice.
abbrev pub Distinct : TextSet → Type 0
Distinct [] = Unit
Distinct (x ∷ xs) = (includes x xs ≡ false) × Distinct xs

pub includes-add :
    (a b : String) (xs : TextSet) → includes b (add a xs) ≡ ((a == b) || includes b xs)
unfolding add
includes-add a b [] = ground arith
includes-add a b (x ∷ xs) = ground (arith, eq_iff x a, eq_iff x b, eq_iff a b, includes-add a b xs)

pub includes-remove :
    (a b : String) (xs : TextSet)
    → Distinct xs
    → includes b (remove a xs) ≡ (if a == b then false else includes b xs)
unfolding remove
includes-remove a b [] d = ground arith
includes-remove a b (x ∷ xs) d =
    ground (arith, eq_iff x a, eq_iff x b, eq_iff a b, includes-remove a b xs d.1)

pub add-Distinct : (a : String) (xs : TextSet) → Distinct xs → Distinct (add a xs)
unfolding add
add-Distinct a [] d = (refl, tt)
add-Distinct a (x ∷ xs) d =
    ground (arith, eq_iff x a, eq_iff a x, add-Distinct a xs d.1, includes-add a x xs)

pub remove-Distinct : (a : String) (xs : TextSet) → Distinct xs → Distinct (remove a xs)
unfolding remove
remove-Distinct a [] d = tt
remove-Distinct a (x ∷ xs) d =
    ground (arith, eq_iff x a, remove-Distinct a xs d.1, includes-remove a x xs d.1)
