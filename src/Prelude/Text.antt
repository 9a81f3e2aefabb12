-- ===== src/Prelude/Text.antt =====
-- Splitting a text at a separator and joining with one, as the source's `split` and `join` do.
use Prim.Native.Char.{Char, code}
use Prim.Native.String.{◌++◌ as text_append}
use Prim.Native.String.{String}
use text.Mathlib.TextLemmas.{nil-append, cons-append}
use Prim.Native.Nat.{ℕ}
use mathlib.Core.Path.{◌≡◌, refl}
use mathlib.Core.Logic.{◌≢◌}
use mathlib.Core.Bool.{Bool, true, false}
use mathlib.Core.Option.{Option, none, some}
use mathlib.Core.List.{List, [], ◌∷◌}
use native.Mathlib.Omega.{arith}
use authx.Prelude.Tests.{if◌then◌else◌, nat_eq, ◌==◌}

infixr 65 ◌⧺◌
abbrev pub ◌⧺◌ : String → String → String
s ⧺ t = text_append s t

abbrev pub cons_head : Char → List String → List String
cons_head c [] = String.◌∷◌ c "" ∷ []
cons_head c (x ∷ xs) = String.◌∷◌ c x ∷ xs

-- `s.split(sep)` for a separator of one character, given by its code.
unfoldable pub split : ℕ → String → List String
split sep String.[] = "" ∷ []
split sep (String.◌∷◌ c s) =
    let parts = split sep s in if nat_eq (code c) sep then "" ∷ parts else cons_head c parts

-- `xs.join(sep)`
unfoldable pub join : String → List String → String
join sep [] = ""
join sep (x ∷ []) = x
join sep (x ∷ y ∷ xs) = x ⧺ sep ⧺ join sep (y ∷ xs)

-- `if (s)` on `string | null | undefined`.
abbrev pub truthy : Option String → Bool
truthy none = false
truthy (some s) = if s == "" then false else true

-- No character of the text has the code.
abbrev pub Free : ℕ → String → Type 0
Free sep String.[] = Unit
Free sep (String.◌∷◌ c s) = (code c ≢ sep) × Free sep s

pub split-whole : (sep : ℕ) (s : String) → Free sep s → split sep s ≡ s ∷ []
unfolding split
split-whole sep String.[] h = refl
split-whole sep (String.◌∷◌ c s) h = ground (arith, split-whole sep s h.1)

pub split-append :
    (c : Char) (s t : String)
    → Free (code c) s
    → split (code c) (s ⧺ String.◌∷◌ c t) ≡ s ∷ split (code c) t
unfolding split
split-append c String.[] t h = rw nil-append (ground arith)
split-append c (String.◌∷◌ d s) t h = rw cons-append (ground (arith, split-append c s t h.1))
