-- ===== src/Prelude/Map/Search.antt =====
-- Searching the values of a map: what is found is an entry, and what is not found is none.
use authx.Prelude.Tests.{==-refl, Bool-cases, Option-cases}
use authx.Prelude.Map.{Map, get, set, find_value, any_value, first_error}
use authx.Prelude.Map.Laws.{Distinct}
use Prim.Native.String.{String}
use mathlib.Core.Path.{◌≡◌, refl}
use mathlib.Core.Bool.{Bool, true, false}
use mathlib.Core.Logic.{inl, inr}
use mathlib.Core.Option.{Option, none, some}
use mathlib.Core.List.{[], ◌∷◌}
use native.Mathlib.Omega.{arith}
use text.Mathlib.TextEquality.{eq_iff}

module _ {V : Type 0} where
  pub first_error-none :
      {E : Type 0} (f : V → Option E) (k : String) (v : V) (m : Map V)
      → first_error f m ≡ none
      → get k m ≡ some v
      → f v ≡ none
  unfolding first_error get
  first_error-none f k v [] h e = absurd (cc)
  first_error-none f k v ((j, w) ∷ m) h e = ground (arith, first_error-none f k v m)

  -- What every entry's errors satisfy, the first error satisfies.
  pub first_error-all :
      {E : Type 0} (f : V → Option E) (good : E → Bool) (e : E) (m : Map V)
      → ((v : V) (x : E) → f v ≡ some x → good x ≡ true)
      → first_error f m ≡ some e
      → good e ≡ true
  unfolding first_error
  first_error-all f good e [] h q = absurd (cc)
  first_error-all f good e ((j, w) ∷ m) h q = elim (Option-cases (f w)) [
    | inr (x, hit) ↦ let r = h w x hit in ground arith
    | inl miss ↦ first_error-all f good e m h (ground arith)
  ]

  -- An error comes from some entry.
  pub first_error-some :
      {E : Type 0} (f : V → Option E) (e : E) (m : Map V)
      → Distinct m
      → first_error f m ≡ some e
      → (k : String) × (v : V) × (get k m ≡ some v) × (f v ≡ some e)
  unfolding first_error get
  first_error-some f e [] d h = absurd (cc)
  first_error-some f e ((j, w) ∷ m) d h = elim (Option-cases (f w)) [
    | inr (x, hit) ↦ (j, w, rw ==-refl refl, ground arith)
    | inl miss ↦
        let (k, v, at, q) = first_error-some f e m d.1 (ground arith) in
        (k, v, ground (arith, eq_iff j k), q)
  ]

  pub find_value-none :
      (p : V → Bool) (k : String) (v : V) (m : Map V)
      → find_value p m ≡ none
      → get k m ≡ some v
      → p v ≡ false
  unfolding find_value get
  find_value-none p k v [] h e = absurd (cc)
  find_value-none p k v ((j, w) ∷ m) h e = ground (arith, find_value-none p k v m)

  -- A value that is found passes the test, and stands under some key.
  pub find_value-some :
      (p : V → Bool) (v : V) (m : Map V)
      → Distinct m
      → find_value p m ≡ some v
      → (k : String) × (get k m ≡ some v) × (p v ≡ true)
  unfolding find_value get
  find_value-some p v [] d h = absurd (cc)
  find_value-some p v ((j, w) ∷ m) d h = elim (Bool-cases (p w)) [
    | inl hit ↦ (j, rw ==-refl (ground arith), ground arith)
    | inr miss ↦
        let (k, e, q) = find_value-some p v m d.1 (ground arith) in
        (k, ground (arith, eq_iff j k), q)
  ]

  pub find_value-set_new :
      (p : V → Bool) (k : String) (v : V) (m : Map V)
      → get k m ≡ none
      → find_value p m ≡ none
      → p v ≡ true
      → find_value p (set k v m) ≡ some v
  unfolding find_value get set
  find_value-set_new p k v [] g h q = rw q
  find_value-set_new p k v ((j, w) ∷ m) g h q = ground (arith, find_value-set_new p k v m)

  pub any_value-false :
      (p : V → Bool) (k : String) (v : V) (m : Map V)
      → any_value p m ≡ false
      → get k m ≡ some v
      → p v ≡ false
  unfolding any_value get
  any_value-false p k v [] h e = absurd (cc)
  any_value-false p k v ((j, w) ∷ m) h e = ground (arith, any_value-false p k v m)

  -- What no entry passes is not found.
  pub find_value-absent :
      (p : V → Bool) (m : Map V)
      → Distinct m
      → ((k : String) (v : V) → get k m ≡ some v → p v ≡ false)
      → find_value p m ≡ none
  find_value-absent p m d f = elim (Option-cases (find_value p m)) [
    | inl e ↦ e
    | inr (v, e) ↦
        let (k, at, q) = find_value-some p v m d e in let n = f k v at in absurd (ground arith)
  ]
