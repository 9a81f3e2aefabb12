-- ===== src/Repo/Codes/Laws.antt =====
-- The table of authorization codes: a code is consumed once, and found by its hash.
use authx.Prelude.{ℕ, String, Bool, true, none, some, ◌≡◌, refl, inl, inr, arith, Option-cases}
use authx.Prelude.Map.{get, set, first_error}
use authx.Prelude.Map.Laws.{get-set_self}
use authx.Prelude.Map.Search.{first_error-none, find_value-some}
use authx.Prelude.Map.Index.{
  Collates, Indexed, Fresh, insert-Indexed, replace-Indexed, find_value-key,
}
use authx.Errors.{ok}
use authx.Repo.Codes.{AuthCode, Table, clash, create, consume, find_by_code_hash}

abbrev pub IsTable : (String → String → Bool) → Table → Type 0
IsTable same = Indexed (λ c. c.id) (λ c. c.code_hash) same

abbrev pub spent_row : ℕ → AuthCode → AuthCode
spent_row now c = record c { consumed_at = some now }

module _ (same : String → String → Bool) where
  pub create-IsTable :
      Collates same
      → (c : AuthCode) (m m' : Table) → IsTable same m
      → create same c m ≡ ok m'
      → IsTable same m'
  unfolding create
  create-IsTable k c m m' i h = elim (Option-cases (first_error (clash same c) m)) [
    | inl free ↦ rw (← made free) (
        insert-Indexed (λ r. r.id) (λ r. r.code_hash) same k (record c { consumed_at = none }) m i
          (clash-Fresh free))
    | inr (e, taken) ↦ absurd (ground arith)
  ]
    where
      clash-Fresh :
          first_error (clash same c) m ≡ none
          → Fresh (λ r. r.id) (λ r. r.code_hash) same (record c { consumed_at = none }) m
      clash-Fresh free k w e = let x = first_error-none (clash same c) k w m free e in ground arith

      made : first_error (clash same c) m ≡ none → set c.id (record c { consumed_at = none }) m ≡ m'
      made free = ground arith

  -- A code that is found by a hash stands under its id, with a hash that collates with it.
  pub find_by_code_hash-at :
      (h : String) (c : AuthCode) (m : Table)
      → IsTable same m
      → find_by_code_hash same h m ≡ some c
      → (get c.id m ≡ some c) × (same c.code_hash h ≡ true)
  unfolding find_by_code_hash
  find_by_code_hash-at h c m i e =
      let (k, at, s) = find_value-some _ c m i.distinct e in
      let o = i.keyed k c at in (ground arith, s)

  spent-found :
      Collates same
      → (h : String) (c : AuthCode) (now : ℕ) (m : Table)
      → IsTable same (set c.id (spent_row now c) m)
      → same c.code_hash h ≡ true
      → find_by_code_hash same h (set c.id (spent_row now c) m) ≡ some (spent_row now c)
  unfolding find_by_code_hash
  spent-found k h c now m i s =
      find_value-key (λ r. r.id) (λ r. r.code_hash) same h (spent_row now c) _ k i
        (get-set_self c.id (spent_row now c) m) s

  -- Consuming an unconsumed code wins, and the same hash then finds it consumed.
  pub consume-found :
      Collates same
      → (h : String) (c : AuthCode) (now : ℕ) (m : Table) → IsTable same m
      → find_by_code_hash same h m ≡ some c
      → c.consumed_at ≡ none
      → (consume c.id now m ≡ (true, set c.id (spent_row now c) m))
        × IsTable same (set c.id (spent_row now c) m)
        × (find_by_code_hash same h (set c.id (spent_row now c) m) ≡ some (spent_row now c))
  unfolding consume
  consume-found k h c now m i e u =
      let (at, s) = find_by_code_hash-at h c m i e in
      let i' : IsTable same (set c.id (spent_row now c) m) =
        replace-Indexed (λ r. r.id) (λ r. r.code_hash) same c.id c (spent_row now c) m i at refl
          refl in
      (ground arith, i', spent-found k h c now m i' s)
