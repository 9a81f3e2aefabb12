-- ===== src/Prelude/Map/Laws.antt =====
-- Laws of the ordered map. `Distinct` says that no key is listed twice; every operation keeps it.
use authx.Prelude.Tests.{if◌then◌else◌, ◌==◌, ==-refl, Option-cases, Bool-cases}
use authx.Prelude.Map.{Map, get, set, delete, update_where, delete_where, count_where}
use authx.Prelude.Lists.{length}
use Prim.Native.Nat.{◌+◌}
use Prim.Native.String.{String}
use mathlib.Core.Path.{◌≡◌, refl}
use mathlib.Core.Bool.{Bool, false}
use mathlib.Core.Logic.{◌⊎◌, inl, inr}
use mathlib.Core.Option
use mathlib.Core.Option.{Option, none, some}
use mathlib.Core.List.{[], ◌∷◌}
use native.Mathlib.Omega.{arith}
use text.Mathlib.TextEquality.{eq_iff}

module _ {V : Type 0} where
  abbrev pub Distinct : Map V → Type 0
  Distinct [] = Unit
  Distinct ((j, v) ∷ m) = (get j m ≡ none) × Distinct m

  pub get-set :
      (j k : String) (v : V) (m : Map V) → get j (set k v m) ≡ (if k == j then some v else get j m)
  unfolding get set
  get-set j k v [] = refl
  get-set j k v ((i, w) ∷ m) = ground (arith, eq_iff k j, eq_iff i k, eq_iff i j, get-set j k v m)

  pub get-set_self : (k : String) (v : V) (m : Map V) → get k (set k v m) ≡ some v
  get-set_self k v m = rw (get-set k k v m, ==-refl k)

  pub set-Distinct : (k : String) (v : V) (m : Map V) → Distinct m → Distinct (set k v m)
  unfolding set get
  set-Distinct k v [] h = (refl, tt)
  set-Distinct k v ((i, w) ∷ m) h =
      ground (arith, eq_iff i k, eq_iff k i, set-Distinct k v m h.1, get-set i k v m)

  pub get-delete_where :
      (p : V → Bool) (k : String) (m : Map V)
      → Distinct m
      → get k (delete_where p m)
        ≡ elim (get k m) [ none ↦ none | some v ↦ if p v then none else some v ]
  unfolding get delete_where
  get-delete_where p k [] h = refl
  get-delete_where p k ((i, w) ∷ m) h = ground (arith, eq_iff i k, get-delete_where p k m h.1)

  pub delete_where-Distinct : (p : V → Bool) (m : Map V) → Distinct m → Distinct (delete_where p m)
  unfolding delete_where
  delete_where-Distinct p [] h = tt
  delete_where-Distinct p ((i, w) ∷ m) h =
      ground (arith, delete_where-Distinct p m h.1, get-delete_where p i m h.1)

  pub get-delete :
      (j k : String) (m : Map V)
      → Distinct m
      → get j (delete k m) ≡ (if k == j then none else get j m)
  unfolding get delete
  get-delete j k [] h = ground arith
  get-delete j k ((i, w) ∷ m) h =
      ground (arith, eq_iff k j, eq_iff i k, eq_iff i j, get-delete j k m h.1)

  pub delete-Distinct : (k : String) (m : Map V) → Distinct m → Distinct (delete k m)
  unfolding delete
  delete-Distinct k [] h = tt
  delete-Distinct k ((i, w) ∷ m) h = ground (arith, delete-Distinct k m h.1, get-delete i k m h.1)

  pub get-update_where :
      (p : V → Bool) (f : V → V) (k : String) (m : Map V)
      → get k (update_where p f m) ≡ Option.map (λ v. if p v then f v else v) (get k m)
  unfolding get update_where
  get-update_where p f k [] = refl
  get-update_where p f k ((i, w) ∷ m) = ground (arith, get-update_where p f k m)

  pub update_where-Distinct :
      (p : V → Bool) (f : V → V) (m : Map V) → Distinct m → Distinct (update_where p f m)
  unfolding update_where
  update_where-Distinct p f [] h = tt
  update_where-Distinct p f ((i, w) ∷ m) h =
      ground (arith, update_where-Distinct p f m h.1, get-update_where p f i m)

  -- A loop that deletes reports how many entries are gone.
  pub length-delete_where :
      (p : V → Bool) (m : Map V) → length (delete_where p m) + count_where p m ≡ length m
  unfolding delete_where count_where
  length-delete_where p [] = omega arith
  length-delete_where p ((i, w) ∷ m) = ground (arith, length-delete_where p m)

  -- Inversions: where an entry of a changed map comes from.
  pub get-set_inv :
      (j k : String) (v w : V) (m : Map V)
      → get j (set k v m) ≡ some w
      → ((k ≡ j) × (v ≡ w)) ⊎ (((k == j) ≡ false) × (get j m ≡ some w))
  get-set_inv j k v w m h = ground (arith, get-set j k v m, eq_iff k j)

  pub get-update_where_inv :
      (p : V → Bool) (f : V → V) (k : String) (w : V) (m : Map V)
      → get k (update_where p f m) ≡ some w
      → (v : V) × (get k m ≡ some v) × (w ≡ (if p v then f v else v))
  get-update_where_inv p f k w m h = elim (Option-cases (get k m)) [
    | inl e ↦ absurd (ground (arith, get-update_where p f k m))
    | inr (v, e) ↦ (v, e, ground (arith, get-update_where p f k m))
  ]

  pub get-delete_where_inv :
      (p : V → Bool) (k : String) (w : V) (m : Map V)
      → Distinct m
      → get k (delete_where p m) ≡ some w
      → (get k m ≡ some w) × (p w ≡ false)
  get-delete_where_inv p k w m d h = elim (Option-cases (get k m)) [
    | inl e ↦ absurd (ground (arith, get-delete_where p k m d))
    | inr (v, e) ↦ ground (arith, get-delete_where p k m d)
  ]

  -- A pass that leaves no entry passing a test.
  pub count_where-update_where :
      (p q : V → Bool) (f : V → V) (m : Map V)
      → ((v : V) → p (if q v then f v else v) ≡ false)
      → count_where p (update_where q f m) ≡ 0
  unfolding count_where update_where
  count_where-update_where p q f [] h = refl
  count_where-update_where p q f ((k, v) ∷ m) h =
      ground (arith, h v, count_where-update_where p q f m h)

  -- Deleting the entries that pass a test leaves none.
  pub count_where-delete_where : (p : V → Bool) (m : Map V) → count_where p (delete_where p m) ≡ 0
  unfolding count_where delete_where
  count_where-delete_where p [] = refl
  count_where-delete_where p ((k, v) ∷ m) = elim (Bool-cases (p v)) [
    | inl hit ↦ ground (arith, count_where-delete_where p m)
    | inr miss ↦ ground (arith, count_where-delete_where p m)
  ]
