-- ===== src/Prelude/Map.antt =====
-- The source's `Map<string, V>`: an insertion-ordered association list. `set` on a key that is there
-- keeps its place, and a loop that sets or deletes the entry it stands at is a pass over the list.
pub mod Laws
pub mod Search
pub mod Index
use Prim.Native.Nat.{ℕ, suc}
use Prim.Native.String.{String}
use mathlib.Core.Bool.{Bool, true, false, ◌||◌}
use mathlib.Core.Option.{Option, none, some}
use mathlib.Core.List.{List, [], ◌∷◌}
use authx.Prelude.Tests.{if◌then◌else◌, ◌==◌}

abbrev pub Map : Type 0 → Type 0
Map V = List (String × V)

module _ {V : Type 0} where
  unfoldable pub get : String → Map V → Option V
  get k [] = none
  get k ((j, v) ∷ m) = if j == k then some v else get k m

  unfoldable pub set : String → V → Map V → Map V
  set k v [] = (k, v) ∷ []
  set k v ((j, w) ∷ m) = if j == k then (k, v) ∷ m else (j, w) ∷ set k v m

  unfoldable pub delete : String → Map V → Map V
  delete k [] = []
  delete k ((j, w) ∷ m) = if j == k then m else (j, w) ∷ delete k m

  -- `for (const v of m.values()) if (p(v)) return v`
  unfoldable pub find_value : (V → Bool) → Map V → Option V
  find_value p [] = none
  find_value p ((j, v) ∷ m) = if p v then some v else find_value p m

  -- `for (const v of m.values()) { if (…) throw …; … }`: the first error that an entry gives.
  unfoldable pub first_error : {E : Type 0} → (V → Option E) → Map V → Option E
  first_error f [] = none
  first_error f ((j, v) ∷ m) = elim (f v) [ none ↦ first_error f m | some e ↦ some e ]

  unfoldable pub any_value : (V → Bool) → Map V → Bool
  any_value p [] = false
  any_value p ((j, v) ∷ m) = p v || any_value p m

  -- `for (const [k, v] of m) if (p(v)) m.set(k, f(v))`
  unfoldable pub update_where : (V → Bool) → (V → V) → Map V → Map V
  update_where p f [] = []
  update_where p f ((j, v) ∷ m) = (j, if p v then f v else v) ∷ update_where p f m

  -- `for (const [k, v] of m) if (p(v)) m.delete(k)`
  unfoldable pub delete_where : (V → Bool) → Map V → Map V
  delete_where p [] = []
  delete_where p ((j, v) ∷ m) = if p v then delete_where p m else (j, v) ∷ delete_where p m

  -- The counter that such a loop increments.
  unfoldable pub count_where : (V → Bool) → Map V → ℕ
  count_where p [] = 0
  count_where p ((j, v) ∷ m) = if p v then suc (count_where p m) else count_where p m

  unfoldable pub values : Map V → List V
  values [] = []
  values ((j, v) ∷ m) = v ∷ values m
