-- ===== src/Prelude/Map/Index.antt =====
-- A table with a primary key and one unique index: every row stands under its own id, and no two
-- rows agree on the indexed column up to the database's collation.
use authx.Prelude.Tests.{◌==◌, Option-cases}
use authx.Prelude.Map.{Map, get, set, find_value, update_where, delete_where}
use authx.Prelude.Map.Laws.{
  Distinct, set-Distinct, delete_where-Distinct, update_where-Distinct, get-set_inv,
  get-update_where_inv, get-delete_where, get-delete_where_inv,
}
use authx.Prelude.Map.Search.{find_value-none, find_value-some}
use Prim.Native.String.{String}
use mathlib.Core.Path.{◌≡◌, refl, sym, ◌∙◌}
use mathlib.Core.Logic.{inl, inr}
use mathlib.Core.Bool.{Bool, true, false}
use mathlib.Core.Option.{none, some}
use native.Mathlib.Omega.{arith}
use text.Mathlib.TextEquality.{eq_iff}

-- What the collation of the database promises: it is an equivalence.
pub record Collates (same : String → String → Bool) : Type 0 where
  pub same_refl : (a : String) → same a a ≡ true
  pub same_sym : (a b : String) → same a b ≡ true → same b a ≡ true
  pub same_trans : (a b c : String) → same a b ≡ true → same b c ≡ true → same a c ≡ true

module _ {V : Type 0} (ident key : V → String) (same : String → String → Bool) where
  pub record Indexed (m : Map V) : Type 0 where
    pub distinct : Distinct m
    pub keyed : (k : String) (v : V) → get k m ≡ some v → ident v ≡ k
    pub unique :
        (j k : String) (v w : V)
        → get j m ≡ some v
        → get k m ≡ some w
        → same (key v) (key w) ≡ true
        → j ≡ k

  -- What an insert has checked: no row has the new id or collates with the new column.
  abbrev pub Fresh : V → Map V → Type 0
  Fresh v m =
      (k : String) (w : V)
      → get k m ≡ some w
      → ((ident w == ident v) ≡ false) × (same (key w) (key v) ≡ false)

  pub Fresh-absent : (v : V) (m : Map V) → Indexed m → Fresh v m → get (ident v) m ≡ none
  Fresh-absent v m i f = elim (Option-cases (get (ident v) m)) [
    | inl e ↦ e
    | inr (w, e) ↦
        let h = f (ident v) w e in
        let k = i.keyed (ident v) w e in absurd (ground (arith, eq_iff (ident w) (ident v)))
  ]

  module _ (c : Collates same) where
    pub insert-Indexed : (v : V) (m : Map V) → Indexed m → Fresh v m → Indexed (set (ident v) v m)
    insert-Indexed v m i f = record {
      distinct = set-Distinct (ident v) v m i.distinct;
      keyed = λ k w e. elim (get-set_inv k (ident v) v w m e) [
        | inl (hit, new) ↦ cc
        | inr (miss, old) ↦ i.keyed k w old
      ];
      unique = λ j k a b ea eb s. elim (get-set_inv j (ident v) v a m ea) [
        | inl (hit, new) ↦ elim (get-set_inv k (ident v) v b m eb) [
          | inl (hit', _) ↦ sym hit ∙ hit'
          | inr (_, old) ↦
              let apart = (f k b old).1 in
              let t : same (key v) (key b) ≡ true = rw new s in
              let u = c.same_sym _ _ t in absurd (cc)
        ]
        | inr (_, old) ↦ elim (get-set_inv k (ident v) v b m eb) [
          | inl (_, new) ↦
              let apart = (f j a old).1 in
              let t : same (key a) (key v) ≡ true = rw new s in absurd (cc)
          | inr (_, old') ↦ i.unique j k a b old old' s
        ]
      ];
    }

  pub Fresh-replace :
      (n : V) (k : String) (v w : V) (m : Map V)
      → Fresh n m
      → get k m ≡ some v
      → ident w ≡ ident v
      → key w ≡ key v
      → Fresh n (set k w m)
  Fresh-replace n k v w m f at si sk j x e = elim (get-set_inv j k w x m e) [
    | inl (hit, new) ↦ let h = f k v at in rw (← new, si, sk) h
    | inr (miss, old) ↦ f j x old
  ]

  -- A write that keeps a row's id and indexed column.
  pub replace-Indexed :
      (k : String) (v w : V) (m : Map V)
      → Indexed m
      → get k m ≡ some v
      → ident w ≡ ident v
      → key w ≡ key v
      → Indexed (set k w m)
  replace-Indexed k v w m i at si sk = record {
    distinct = set-Distinct k w m i.distinct;
    keyed = λ j x e. elim (get-set_inv j k w x m e) [
      | inl (hit, new) ↦ let o = i.keyed k v at in cc
      | inr (miss, old) ↦ i.keyed j x old
    ];
    unique = λ j j' a b ea eb s. elim (get-set_inv j k w a m ea) [
      | inl (hit, new) ↦ elim (get-set_inv j' k w b m eb) [
        | inl (hit', _) ↦ sym hit ∙ hit'
        | inr (_, old) ↦ sym hit ∙ i.unique k j' v b at old (rw (← sk, new) s)
      ]
      | inr (_, old) ↦ elim (get-set_inv j' k w b m eb) [
        | inl (hit', new) ↦ i.unique j k a v old at (rw (← sk, new) s) ∙ hit'
        | inr (_, old') ↦ i.unique j j' a b old old' s
      ]
    ];
  }

  pub update_where-Indexed :
      (p : V → Bool) (g : V → V) (m : Map V)
      → ((v : V) → (ident (g v) ≡ ident v) × (key (g v) ≡ key v))
      → Indexed m
      → Indexed (update_where p g m)
  update_where-Indexed p g m same_row i = record {
    distinct = update_where-Distinct p g m i.distinct;
    keyed = λ k w e.
        let (v, at, eq) = get-update_where_inv p g k w m e in
        let o = i.keyed k v at in let r = same_row v in ground arith;
    unique = λ j k a b ea eb s.
        let (a', at, eq) = get-update_where_inv p g j a m ea in
        let (b', at', eq') = get-update_where_inv p g k b m eb in
        let r = same_row a' in
        let r' = same_row b' in
        let ka : key a ≡ key a' = ground arith in
        let kb : key b ≡ key b' = ground arith in i.unique j k a' b' at at' (rw (← ka, ← kb) s);
  }

  pub delete_where-Indexed : (p : V → Bool) (m : Map V) → Indexed m → Indexed (delete_where p m)
  delete_where-Indexed p m i = record {
    distinct = delete_where-Distinct p m i.distinct;
    keyed = λ k w e. i.keyed k w (get-delete_where_inv p k w m i.distinct e).0;
    unique = λ j k a b ea eb s.
        i.unique j k a b (get-delete_where_inv p j a m i.distinct ea).0
          (get-delete_where_inv p k b m i.distinct eb).0 s;
  }

  -- Searching by the unique column finds the row under its id, and only that row.
  pub find_value-key :
      (h : String) (v : V) (m : Map V)
      → Collates same
      → Indexed m
      → get (ident v) m ≡ some v
      → same (key v) h ≡ true
      → find_value (λ w. same (key w) h) m ≡ some v
  find_value-key h v m c i at s = elim (Option-cases (find_value (λ w. same (key w) h) m)) [
    | inl missed ↦
        let q : same (key v) h ≡ false =
          find_value-none (λ w. same (key w) h) (ident v) v m missed at in
        absurd (cc)
    | inr (w, found) ↦
        let (k, at', s') = find_value-some (λ x. same (key x) h) w m i.distinct found in
        let one = i.unique k (ident v) w v at' at (c.same_trans _ _ _ s' (c.same_sym _ _ s)) in
        let here : get (ident v) m ≡ some w = rw one at at' in found ∙ sym here ∙ at
  ]

  -- A row that is found by the unique column, and that a deletion spares, is found afterwards.
  pub find_value-delete_where :
      (p : V → Bool) (h : String) (v : V) (m : Map V)
      → Collates same
      → Indexed m
      → find_value (λ w. same (key w) h) m ≡ some v
      → p v ≡ false
      → find_value (λ w. same (key w) h) (delete_where p m) ≡ some v
  find_value-delete_where p h v m c i found spared =
      let (k, at, s) = find_value-some (λ x. same (key x) h) v m i.distinct found in
      let own = i.keyed k v at in
      let left : get (ident v) (delete_where p m) ≡ some v =
        rw (own, get-delete_where p k m i.distinct, at, spared) refl in
      find_value-key h v (delete_where p m) c (delete_where-Indexed p m i) left s
